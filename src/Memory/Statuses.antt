-- ===== src/Memory/Statuses.antt =====
-- What calls of the repository do to an ad that does not have a status, and that nobody puts into it.
use game_ad_service.Common.{
  String, none, some, List, [], ◌∷◌, All, All-weaken, ◌≡◌, ◌≢◌, arith, inl, inr, Option-cases,
}
use game_ad_service.Common.Int.{ℤ, incr, ◌-ℤ◌, ◌*ℤ◌}
use game_ad_service.Common.Dict.{
  Entries, lookup, insert, insert-Entries, erase-Entries, lookup-Entries,
}
use game_ad_service.Ad.{Ad, AdStatus}
use game_ad_service.Memory.State.{MemoryRepository}
use game_ad_service.Memory.Loops.{
  All-of_every, change_each-Entries, change_assigned-Entries, drop_older-Entries,
}
use game_ad_service.Memory.Invariant.{
  Call, saves, updates, deletes, deletes_older, assigns, releases_worker, changes_status,
  changes_statuses, locks, unlocks, pushes, sets, step, run,
}
use game_ad_service.Memory.{
  save, update, update_existing, delete_older_than, assign_to_worker, release_worker_assignments,
  atomic_status_update, status_update_existing, batch_update_status, acquire_lock, release_lock,
  delete, push_to_queue, set, assign, with_new_status, day,
}

-- If it stands under the id, it does not have the status.
abbrev pub UnlessIn : AdStatus → String → String → Ad → Type 0
UnlessIn st id k a = k ≡ id → a.status ≢ st

abbrev pub IsOutOf : AdStatus → String → MemoryRepository → Type 0
IsOutOf st id m = Entries (UnlessIn st id) m.ads

-- The call does not put the ad with the id into the status. It may take it out, delete it, and so
-- on.
abbrev pub Spares : AdStatus → String → Call → Type 0
Spares st id (saves (some ad)) = UnlessIn st id ad.ad_id ad
Spares st id (updates (some ad)) = UnlessIn st id ad.ad_id ad
Spares st id (changes_status now j v from to) = j ≡ id → to ≢ st
Spares st id (changes_statuses now ids to) = All (λ j. j ≡ id → to ≢ st) ids
Spares st id (sets j (some ad) ttl) = UnlessIn st id j ad
Spares st id _ = Unit

module _ (st : AdStatus) (id : String) (m : MemoryRepository) (u : IsOutOf st id m) where
  insert-IsOutOf :
      (k : String) (a : Ad)
      → UnlessIn st id k a
      → IsOutOf st id (record m { ads = insert k a m.ads })
  insert-IsOutOf k a h = insert-Entries (UnlessIn st id) k a m.ads h u

  pub update-IsOutOf : (ad : Ad) → UnlessIn st id ad.ad_id ad → IsOutOf st id (update (some ad) m).1
  unfolding update update_existing
  update-IsOutOf ad h =
      ground (arith, insert-IsOutOf ad.ad_id (record ad { version = incr ad.version }) h)

  pub status-IsOutOf :
      (now : ℤ) (j : String) (v : ℤ) (from to : AdStatus)
      → (j ≡ id → to ≢ st)
      → IsOutOf st id (atomic_status_update now j v from to m).1
  unfolding atomic_status_update status_update_existing
  status-IsOutOf now j v from to h = elim (Option-cases (lookup j m.ads)) [
    | inl e ↦ rw (e, atomic_status_update) u
    | inr (a, e) ↦
        rw (e, atomic_status_update) (ground (arith, insert-IsOutOf j (with_new_status now to a) h))
  ]

  pub push-IsOutOf : (queue j : String) (p : ℤ) → IsOutOf st id (push_to_queue queue j p m).1
  unfolding push_to_queue
  push-IsOutOf queue j p = elim (Option-cases (lookup j m.ads)) [
    | inl e ↦ rw (e, push_to_queue) (ground arith)
    | inr (a, e) ↦
        let same = lookup-Entries (UnlessIn st id) j m.ads a u e in
        rw (e, push_to_queue)
          (ground (arith, insert-IsOutOf j (record a { effective_priority = p }) same))
  ]

-- An ad that does not have the status stays so.
pub step-IsOutOf :
    (st : AdStatus) (id : String) (c : Call) (m : MemoryRepository)
    → Spares st id c
    → IsOutOf st id m
    → IsOutOf st id (step c m)
unfolding step save delete set acquire_lock release_lock delete_older_than assign_to_worker
    release_worker_assignments batch_update_status update
step-IsOutOf st id (saves none) m h u = u
step-IsOutOf st id (saves (some ad)) m h u = ground (arith, insert-IsOutOf st id m u ad.ad_id ad h)
step-IsOutOf st id (updates none) m h u = u
step-IsOutOf st id (updates (some ad)) m h u = update-IsOutOf st id m u ad h
step-IsOutOf st id (deletes j) m h u = ground (arith, erase-Entries (UnlessIn st id) j m.ads u)
step-IsOutOf st id (deletes_older now days) m h u =
    drop_older-Entries (UnlessIn st id) (now -ℤ days *ℤ day) m.ads u
step-IsOutOf st id (assigns ids worker) m h u =
    change_each-Entries (UnlessIn st id) (assign worker) ids m.ads (All-of_every ids (λ j a k. k)) u
step-IsOutOf st id (releases_worker worker) m h u =
    change_assigned-Entries (UnlessIn st id) worker (assign "") m.ads (λ j a k. k) u
step-IsOutOf st id (changes_status now j v from to) m h u =
    status-IsOutOf st id m u now j v from to h
step-IsOutOf st id (changes_statuses now ids to) m h u =
    change_each-Entries (UnlessIn st id) (with_new_status now to) ids m.ads
      (All-weaken (λ j k a _. k) ids h) u
step-IsOutOf st id (locks now j owner ttl) m h u = ground arith
step-IsOutOf st id (unlocks j owner) m h u = ground arith
step-IsOutOf st id (pushes queue j p) m h u = push-IsOutOf st id m u queue j p
step-IsOutOf st id (sets j none ttl) m h u = u
step-IsOutOf st id (sets j (some ad) ttl) m h u = ground (arith, insert-IsOutOf st id m u j ad h)

pub run-IsOutOf :
    (st : AdStatus) (id : String) (cs : List Call) (m : MemoryRepository)
    → All (Spares st id) cs
    → IsOutOf st id m
    → IsOutOf st id (run cs m)
unfolding run
run-IsOutOf st id [] m h u = u
run-IsOutOf st id (c ∷ cs) m h u =
    run-IsOutOf st id cs (step c m) h.1 (step-IsOutOf st id c m h.0 u)

pub acquire_lock-IsOutOf :
    (st : AdStatus) (id : String) (now : ℤ) (j owner : String) (ttl : ℤ) (m : MemoryRepository)
    → IsOutOf st id m
    → IsOutOf st id (acquire_lock now j owner ttl m).1
unfolding acquire_lock
acquire_lock-IsOutOf st id now j owner ttl m u = ground arith

pub release_lock-IsOutOf :
    (st : AdStatus) (id : String) (j owner : String) (m : MemoryRepository)
    → IsOutOf st id m
    → IsOutOf st id (release_lock j owner m).1
unfolding release_lock
release_lock-IsOutOf st id j owner m u = ground arith
