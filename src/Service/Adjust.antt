-- ===== src/Service/Adjust.antt =====
-- Ageing and boosting over the in-memory repository: what they do to what waits.
use game_ad_service.Common.{
  ℕ, ◌+◌, All, All-take, All-drop, ◌≤◌, String, String-discrete, some, ◌≡◌, ◌≢◌, refl, ap, subst,
  arith, true, false, inl, inr, ◌⊎◌, Option-cases,
}
use game_ad_service.Common.Int.{ℤ, ℤ-discrete, pos, max_int64}
use game_ad_service.Common.Dict.{lookup, insert, lookup-insert, lookup-Entries}
use game_ad_service.Float64.{FloatOps}
use game_ad_service.Errors.{queue_closed}
use game_ad_service.Ad.{Ad, status_queued}
use game_ad_service.Storage.{ok, err, throw}
use game_ad_service.Storage.Safe.{Any}
use game_ad_service.Memory.State.{MemoryRepository}
use game_ad_service.Memory.{memory_repository, memory_cache, find_by_status}
use game_ad_service.Memory.Loops.{OwnId}
use game_ad_service.Queue.State.{DistributedPriorityQueue}
use game_ad_service.Queue.Priority.{reprioritised, write_missing, write_changed, write_same}
use game_ad_service.Queue.Safe.{write_priority-Safe}
use game_ad_service.Queue.Idle.{IsUnstarted, IsIdle, memory-Keeps, IsUnstarted-Stable}
use game_ad_service.Queue.{write_priority, update_queue_priorities, boost_low_priority_items}
use game_ad_service.Service.Waiting.{Entry, Waiting, entry_of, waiting}
use game_ad_service.Service.Ready.{IsReady}
use game_ad_service.Service.Rounds.{
  Returns, IsPositive, bind-Returns, sum_rounds-Returns, age_round-Returns, boost_round-Returns,
}
use game_ad_service.Memory.Find.{find_by_status-All}

-- The same ids wait since the same times; some have a new priority, of which `Q` holds.
abbrev pub Adjusts : (ℤ → Type 0) → Waiting → Waiting → Type 0
Adjusts Q w w' =
    (j : String)
    → (w' j ≡ w j)
      ⊎ ((e : Entry) × (p : ℤ) × Q p
          × (w j ≡ some e)
          × (w' j ≡ some (record e { effective_priority = p })))

Adjusts-trans :
    (Q : ℤ → Type 0) (w w' w'' : Waiting) → Adjusts Q w w' → Adjusts Q w' w'' → Adjusts Q w w''
Adjusts-trans Q w w' w'' f g j = elim (f j) [
  | inl s ↦ elim (g j) [
    | inl t ↦ inl (ground (arith, s, t))
    | inr (e, p, q, t, u) ↦ inr (e, p, q, ground (arith, s, t), u)
  ]
  | inr (e, p, q, s, s') ↦ elim (g j) [
    | inl t ↦ inr (e, p, q, s, ground (arith, s', t))
    | inr (e', p', q', t, u) ↦ inr (e, p', q', s, ground (arith, s', t, u))
  ]
]

-- One write changes at most the priority of one id that waits.
write-Adjusts :
    (Q : ℤ → Type 0) (ad a : Ad) (p : ℤ) (m : MemoryRepository)
    → Q p
    → lookup ad.ad_id m.ads ≡ some a
    → let b = reprioritised p a in
      Adjusts Q
        (waiting m)
        (waiting (record m { ads = insert ad.ad_id b (insert ad.ad_id b m.ads) }))
write-Adjusts Q ad a p m q e j =
    let b = reprioritised p a in
    let twice = lookup-insert j ad.ad_id b (insert ad.ad_id b m.ads) in
    let once = lookup-insert j ad.ad_id b m.ads in
    elim (String-discrete ad.ad_id j) [
      | yes s ↦ elim (String-discrete a.status status_queued) [
        | yes t ↦ inr (entry_of a, p, q, ground (arith, e, s, t), ground (arith, twice, s, t))
        | no n ↦ inl (ground (arith, twice, e, s, n))
      ]
      | no n ↦ inl (ground (arith, twice, once, n))
    ]

abbrev IsQueued : Ad → Type 0
IsQueued a = a.status ≡ status_queued

module _ (Q : ℤ → Type 0) (start : MemoryRepository) where
  record Adjusted (m : MemoryRepository) : Type 0 where
    pub ready : IsReady m
    pub adjusts : Adjusts Q (waiting start) (waiting m)

  write-Adjusted :
      (ad a : Ad) (p : ℤ) (m : MemoryRepository)
      → Q p
      → Adjusted m
      → lookup ad.ad_id m.ads ≡ some a
      → ad.ad_id ≢ ""
      → let b = reprioritised p a in
        let m' = record m { ads = insert ad.ad_id b (insert ad.ad_id b m.ads) } in
        write_priority memory_repository memory_cache ad p m ≡ (ok 1, m') → Adjusted m'
  write-Adjusted ad a p m q i e hid w =
      let b = reprioritised p a in
      let kept =
        (write_priority-Safe _ _ IsIdle IsUnstarted memory-Keeps IsUnstarted-Stable ad p).keep m
          i.ready.idle in
      record {
        ready = record {
          idle = subst IsIdle (ap (λ x. x.1) w) kept.0;
          unlocked = i.ready.unlocked;
          named = ground (
            arith,
            lookup-insert "" ad.ad_id b (insert ad.ad_id b m.ads),
            lookup-insert "" ad.ad_id b m.ads,
            i.ready.named,
          );
        };
        adjusts =
            Adjusts-trans Q (waiting start) (waiting m) _ i.adjusts (write-Adjusts Q ad a p m q e);
      }

  write_priority-Returns :
      (ad : Ad) (p : ℤ)
      → Q p
      → Returns Adjusted Any (write_priority memory_repository memory_cache ad p)
  write_priority-Returns ad p q = record {
    return = λ m i. elim (Option-cases (lookup ad.ad_id m.ads)) [
      | inl e ↦ rw (write_missing ad p m e) (i, 0, tt, refl)
      | inr (a, e) ↦
          let hid : ad.ad_id ≢ "" = λ s. ground (arith, e, i.ready.named) in
          elim (ℤ-discrete a.version ad.version) [
            | no n ↦ rw (write_changed ad p m a e hid n) (i, 0, tt, refl)
            | yes v ↦
                let same = lookup-Entries OwnId ad.ad_id m.ads a i.ready.idle.valid.own_ids e in
                let w = write_same ad p m a e hid v same in
                rw w (write-Adjusted ad a p m q i e hid w, 1, tt, refl)
          ]
    ];
  }

  find_by_status-Returns :
      (limit offset : ℕ)
      → offset + limit ≤ max_int64
      → Returns Adjusted (All IsQueued) (find_by_status status_queued (pos limit) (pos offset))
  find_by_status-Returns limit offset h = record {
    return = λ m i.
        let (found, queued, e) = find_by_status-All status_queued limit offset m h in
        let page = All-take IsQueued limit _ (All-drop IsQueued offset found queued) in
        rw e (i, _, page, refl);
  }

  age-Returns :
      (F : FloatOps) (q : DistributedPriorityQueue) (now : ℤ)
      → ((p : ℤ) → IsPositive p → Q p)
      → Returns Adjusted Any (update_queue_priorities memory_repository memory_cache F q now)
  unfolding update_queue_priorities
  age-Returns F q now h =
      bind-Returns (All IsQueued) Any (find_by_status-Returns 100 0 (omega arith)) λ ads queued.
        sum_rounds-Returns Adjusted IsQueued _ ads
          (λ a s.
            age_round-Returns Adjusted F q now a a.queued_at
              (λ p k. write_priority-Returns a p (h p k)) s refl)
          queued

  boost-Returns :
      (q : DistributedPriorityQueue) (now : ℤ)
      → q.closed ≡ false
      → Q (pos 1)
      → Returns Adjusted Any (boost_low_priority_items memory_repository memory_cache q now)
  unfolding boost_low_priority_items
  boost-Returns q now c one = rw c (
      bind-Returns (All IsQueued) Any (find_by_status-Returns 100 0 (omega arith)) λ ads queued.
        sum_rounds-Returns Adjusted IsQueued _ ads
          (λ a s.
            boost_round-Returns Adjusted q now a a.queued_at (write_priority-Returns a _ one) refl)
          queued)

start-Adjusted : (Q : ℤ → Type 0) (m : MemoryRepository) → IsReady m → Adjusted Q m m
start-Adjusted Q m r = record { ready = r; adjusts = λ j. inl refl }

-- What ageing leaves: a new priority is at least 1.
pub age-IsReady :
    (F : FloatOps) (q : DistributedPriorityQueue) (now : ℤ) (m : MemoryRepository)
    → IsReady m
    → let (r, m') = update_queue_priorities memory_repository memory_cache F q now m in
      ((n : ℕ) × (r ≡ ok n)) × IsReady m' × Adjusts IsPositive (waiting m) (waiting m')
age-IsReady F q now m r =
    let (i, n, _, e) =
      (age-Returns IsPositive m F q now (λ p k. k)).return m (start-Adjusted IsPositive m r) in
    ((n, e), i.ready, i.adjusts)

abbrev pub IsBoosted : ℤ → Type 0
IsBoosted p = p ≡ pos 1

-- What boosting leaves: a new priority is 1.
pub boost-IsReady :
    (q : DistributedPriorityQueue) (now : ℤ) (m : MemoryRepository)
    → IsReady m
    → q.closed ≡ false
    → let (r, m') = boost_low_priority_items memory_repository memory_cache q now m in
      ((n : ℕ) × (r ≡ ok n)) × IsReady m' × Adjusts IsBoosted (waiting m) (waiting m')
boost-IsReady q now m r c =
    let (i, n, _, e) =
      (boost-Returns IsBoosted m q now c refl).return m (start-Adjusted IsBoosted m r) in
    ((n, e), i.ready, i.adjusts)

pub boost_closed :
    (q : DistributedPriorityQueue) (now : ℤ) (m : MemoryRepository)
    → q.closed ≡ true
    → boost_low_priority_items memory_repository memory_cache q now m ≡ (err queue_closed, m)
unfolding boost_low_priority_items throw
boost_closed q now m h = ground (arith, h)
