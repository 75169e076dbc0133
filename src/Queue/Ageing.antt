-- ===== src/Queue/Ageing.antt =====
-- `updateQueuePriorities` and `BoostLowPriorityItems` as a whole, over the in-memory repository.
use game_ad_service.Common.{
  ℕ, Option, none, some, List, All, All-take, All-weaken, ◌≡◌, refl, sym, ap, ◌∙◌, Bool, true,
  arith, false, if◌then◌else◌, take,
}
use game_ad_service.Common.Int.{ℤ, pos, eqb_ℤ, ltb_ℤ, ◌-ℤ◌}
use game_ad_service.Common.Dict.{lookup, values}
use game_ad_service.Common.Sort.{
  IsSorted, sort_slice, sort_slice-IsSorted, sort_slice-perm, sort_slice-All,
}
use game_ad_service.Common.Pairs.{AllPairs, AllPairs-take, sort_slice-AllPairs}
use mathlib.Core.List.{Perm}
use game_ad_service.Float64.{FloatOps}
use game_ad_service.Ad.{
  Ad, status_queued, calculate_effective_priority, has_exceeded_max_wait_time, get_waiting_time,
}
use game_ad_service.Storage.{ok, Action, pure}
use game_ad_service.Storage.Safe.{bind_ok}
use game_ad_service.Memory.Listing.{OtherId-values, with_status-OtherId}
use game_ad_service.Memory.State.{MemoryRepository, with_status, newer}
use game_ad_service.Memory.Invariant.{IsValid}
use game_ad_service.Memory.Find.{newer-IsOrder, page_lem, stored-values, with_status-keeps}
use game_ad_service.Memory.{memory_repository, memory_cache, find_by_status}
use game_ad_service.Queue.State.{DistributedPriorityQueue}
use game_ad_service.Queue.Rounds.{
  by_choice, chosen, count_chosen, IsStored, OtherId, AllWritten, sum_rounds_lem,
}
use game_ad_service.Queue.{
  sum_rounds, age_round, update_queue_priorities, boost_round, boost_low_priority_items,
}

-- Ageing writes the priority that the time of waiting gives, if it is another one than before.
abbrev pub aged : FloatOps → DistributedPriorityQueue → ℤ → Ad → Option ℤ
aged F q now a = elim a.queued_at [
  | none ↦ none
  | some _ ↦
      let p = (calculate_effective_priority F q.aging_rate q.max_wait_time now a).0 in
      if eqb_ℤ p a.effective_priority then none else some p
]

-- Boosting writes 1 into each ad that has waited longer than the longest wait.
abbrev pub boosted : DistributedPriorityQueue → ℤ → Ad → Option ℤ
boosted q now a = elim a.queued_at [
  | none ↦ none
  | some t ↦ if ltb_ℤ q.max_wait_time (now -ℤ t) then some (pos 1) else none
]

age_round_lem :
    (F : FloatOps) (q : DistributedPriorityQueue) (now : ℤ) (a : Ad) (m : MemoryRepository)
    → age_round memory_repository memory_cache F q now a m ≡ by_choice (aged F q now a) a m
unfolding age_round pure
age_round_lem F q now a m = ground arith

boost_round_lem :
    (q : DistributedPriorityQueue) (now : ℤ) (a : Ad) (m : MemoryRepository)
    → boost_round memory_repository memory_cache q now a m ≡ by_choice (boosted q now a) a m
unfolding boost_round pure has_exceeded_max_wait_time get_waiting_time
boost_round_lem q now a m = ground arith

-- The ads that a run of the maintenance looks at: of the queued ones, the 100 that are the newest.
abbrev pub looked_at : MemoryRepository → List Ad
looked_at m = take 100 (sort_slice newer (with_status status_queued (values m.ads)))

module _ (m : MemoryRepository) (v : IsValid m) (named : lookup "" m.ads ≡ none) where
  looked_at-IsStored : All (IsStored m) (looked_at m)
  looked_at-IsStored =
      let stored = stored-values m.ads v.unique_ads v.own_ids in
      All-take (IsStored m) 100 _ (
        sort_slice-All newer (IsStored m) _ (
          with_status-keeps (IsStored m) status_queued (values m.ads)
            (All-weaken (λ a e. (e, λ p. ground (arith, e, named))) (values m.ads) stored)))

  looked_at-OtherId : AllPairs OtherId (looked_at m)
  looked_at-OtherId = AllPairs-take OtherId 100 _ (
      sort_slice-AllPairs OtherId (λ a b n p. n (sym p)) newer _
        (with_status-OtherId status_queued (values m.ads)
          (OtherId-values m.ads v.unique_ads v.own_ids)))

find_looked_at :
    (m : MemoryRepository)
    → find_by_status status_queued (pos 100) (pos 0) m ≡ (ok (looked_at m), m)
unfolding find_by_status
find_looked_at m =
    rw (page_lem (sort_slice newer (with_status status_queued (values m.ads))) 100 0 (omega arith))
      refl

age_run :
    (F : FloatOps) (q : DistributedPriorityQueue) (now : ℤ) (m : MemoryRepository)
    → update_queue_priorities memory_repository memory_cache F q now m
      ≡ sum_rounds memory_repository memory_cache
          (age_round memory_repository memory_cache F q now)
          (looked_at m)
          m
unfolding update_queue_priorities find_by_status
age_run F q now m =
    let found = find_by_status status_queued (pos 100) (pos 0) in
    bind_ok found
      (sum_rounds memory_repository memory_cache (age_round memory_repository memory_cache F q now))
      m (looked_at m) (ap (λ x. x.0) (find_looked_at m))

if_not : {A : Type 0} (b : Bool) (x y : A) → b ≡ false → (if b then x else y) ≡ y
if_not true x y e = cc
if_not false x y e = refl

boost_run :
    (q : DistributedPriorityQueue) (now : ℤ) (m : MemoryRepository)
    → q.closed ≡ false
    → boost_low_priority_items memory_repository memory_cache q now m
      ≡ sum_rounds memory_repository memory_cache
          (boost_round memory_repository memory_cache q now)
          (looked_at m)
          m
unfolding boost_low_priority_items find_by_status
boost_run q now m c =
    let found = find_by_status status_queued (pos 100) (pos 0) in
    let rounds = boost_round memory_repository memory_cache q now in
    ap (λ (act : Action MemoryRepository ℕ). act m) (if_not q.closed _ _ c)
    ∙ bind_ok found (sum_rounds memory_repository memory_cache rounds) m (looked_at m)
        (ap (λ x. x.0) (find_looked_at m))

module _ (m : MemoryRepository) (v : IsValid m) (named : lookup "" m.ads ≡ none) where
  -- On a valid repository with no ad under the empty id, `updateQueuePriorities` looks at the queued
  -- ads, newest first, and at no more than 100 of them. Of these it changes those with a time of
  -- queueing for which `CalculateEffectivePriority` gives another priority than the ad has: they get
  -- that priority and the next version. It changes no other ad and no lock, and returns the number of
  -- ads that it changed.
  pub update_queue_priorities_lem :
      (F : FloatOps) (q : DistributedPriorityQueue) (now : ℤ)
      → let (r, m') = update_queue_priorities memory_repository memory_cache F q now m in
        (found : List Ad) × Perm found (with_status status_queued (values m.ads))
        × IsSorted newer found
        × (r ≡ ok (count_chosen (aged F q now) (take 100 found)))
        × AllWritten (chosen (aged F q now)) (take 100 found) m m'
  update_queue_priorities_lem F q now =
      let waiting = with_status status_queued (values m.ads) in
      let (r, w) =
        sum_rounds_lem (aged F q now) (age_round memory_repository memory_cache F q now)
          (age_round_lem F q now) (looked_at m) m (looked_at-IsStored m v named)
          (looked_at-OtherId m v named) in
      rw (age_run F q now m) (
        sort_slice newer waiting,
        sort_slice-perm newer waiting,
        sort_slice-IsSorted newer newer-IsOrder waiting,
        r,
        w,
      )

  pub boost_looked_at :
      (q : DistributedPriorityQueue) (now : ℤ)
      → q.closed ≡ false
      → let (r, m') = boost_low_priority_items memory_repository memory_cache q now m in
        (r ≡ ok (count_chosen (boosted q now) (looked_at m)))
        × AllWritten (chosen (boosted q now)) (looked_at m) m m'
  boost_looked_at q now c = rw (boost_run q now m c) (
      sum_rounds_lem (boosted q now) (boost_round memory_repository memory_cache q now)
        (boost_round_lem q now) (looked_at m) m (looked_at-IsStored m v named)
        (looked_at-OtherId m v named))
