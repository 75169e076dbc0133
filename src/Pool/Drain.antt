-- ===== src/Pool/Drain.antt =====
-- Rounds of `processLoop` by the workers of any queues, one after another, until every ad that waits
-- is completed. Each round has its own worker, queue and clock; `processAd` always gives an analysis.
use game_ad_service.Common.{
  ℕ, suc, ◌≤◌, Bool, true, ap, String, String-discrete, Option, none, some, List, [], ◌∷◌, ◌≡◌, ◌≢◌,
  refl, arith, ite, false, inl, inr, ◌⊎◌, length, Option-cases, map, ◌∙◌,
}
use game_ad_service.Common.Int.{ℤ}
use game_ad_service.Common.Dict.{Dict, lookup, values, Entries}
use game_ad_service.Ad.{Ad, AdAnalysis, status_queued}
use game_ad_service.Storage.{ok, err, panic}
use game_ad_service.Memory.State.{MemoryRepository, with_status}
use game_ad_service.Memory.Loops.{OwnId}
use game_ad_service.Memory.{memory_repository, memory_cache}
use game_ad_service.Memory.Find.{IsNext, NoneQueued}
use game_ad_service.Queue.State.{DistributedPriorityQueue}
use game_ad_service.Queue.Dequeue.{claimed_ad}
use game_ad_service.Queue.Complete.{completed_ad, complete_success}
use game_ad_service.Queue.{complete}
use game_ad_service.Service.Ready.{IsReady, dequeue-IsReady, complete-IsReady}
use game_ad_service.Service.Waiting.{
  waiting, remove, waiting-NoneQueued, waiting-IsNext, waiting-inverse,
}
use game_ad_service.Pool.{Worker}
use game_ad_service.Pool.Jobs.{work_round, process_job, job_begins, job_ends, count_processed}

-- Who makes a round, and when.
pub record Turn : Type 0 where
  pub queue : DistributedPriorityQueue
  pub worker : Worker
  pub clock : ℕ → ℤ
  pub later : ℤ

module _ (work : Ad → AdAnalysis) where
  -- The state after the rounds, if each of them ends without a panic.
  pub work_turns : List Turn → MemoryRepository → Option MemoryRepository
  work_turns [] m = some m
  work_turns (t ∷ ts) m =
      elim (work_round memory_repository memory_cache 1 t.queue t.clock t.later (λ a. some (work a))
        t.worker m) [
          | none ↦ none
          | some (ok _, m') ↦ work_turns ts m'
          | some (err _, m') ↦ none
          | some (panic, m') ↦ none
        ]

  abbrev pub AllOpen : List Turn → Type 0
  AllOpen [] = Unit
  AllOpen (t ∷ ts) = (t.queue.closed ≡ false) × AllOpen ts

  -- The ad that was stored has been taken and completed in one of the rounds.
  pub record IsDone (m' : MemoryRepository) (id : String) (a : Ad) : Type 0 where
    pub queue : DistributedPriorityQueue
    pub later : ℤ
    pub stored :
        lookup id m'.ads
        ≡ some (completed_ad later (work (claimed_ad queue a)) (claimed_ad queue a))

  -- A round where something waits: one ad is completed, and waits no more.
  completes_one :
      (t : Turn) (m : MemoryRepository)
      → IsReady m
      → t.queue.closed ≡ false
      → let round =
          work_round memory_repository memory_cache 1 t.queue t.clock t.later
            (λ a. some (work a))
            t.worker
            m in
        (NoneQueued m × (round ≡ some (ok t.worker, m)))
        ⊎ ((a : Ad) × (w : Worker) × (m' : MemoryRepository) × IsNext m a
            × (round ≡ some (ok w, m'))
            × IsReady m'
            × IsDone m' a.ad_id a
            × ((j : String) → a.ad_id ≢ j → lookup j m'.ads ≡ lookup j m.ads)
            × (waiting m' ≡ remove a.ad_id (waiting m)))
  unfolding work_round process_job
  completes_one t m r o = elim (dequeue-IsReady 0 t.queue t.clock m r o) [
    | inl (none_queued, e) ↦ inl (none_queued, ground (arith, e))
    | inr (a, m1, next, e, ready, ads, w) ↦
        let c = claimed_ad t.queue a in
        let r1 = complete memory_repository memory_cache t.queue t.later (work c) c m1 in
        let hid : a.ad_id ≢ "" = λ p. ground (arith, next.stored, r.named, p) in
        let here : lookup a.ad_id m1.ads ≡ some c = ground (arith, ads a.ad_id) in
        let (done, ads', _) =
          complete_success t.queue t.later (work c) c c m1 hid refl here refl refl
            (inl (ready.unlocked a.ad_id)) in
        let (_, ready', w') = complete-IsReady t.queue t.later (work c) c m1 ready in
        inr (
          a,
          count_processed (job_ends (job_begins t.worker)),
          r1.1,
          next,
          ground (arith, e, done),
          ready',
          record { queue = t.queue; later = t.later; stored = ground (arith, ads' a.ad_id) },
          (λ j n. ground (arith, ads' j, ads j, n)),
          w' ∙ w,
        )
  ]

among : String → List String → Bool
among j [] = false
among j (i ∷ l) = ite (String-discrete i j) true (among j l)

without : String → List String → List String
without j [] = []
without j (i ∷ l) = ite (String-discrete i j) (without j l) (i ∷ without j l)

length-without-le : (j : String) (l : List String) → length (without j l) ≤ length l
unfolding without
length-without-le j [] = omega arith
length-without-le j (i ∷ l) = ground (arith, length-without-le j l)

length-without :
    (j : String) (l : List String) → among j l ≡ true → suc (length (without j l)) ≤ length l
unfolding without among
length-without j [] h = ground arith
length-without j (i ∷ l) h = ground (arith, length-without j l, length-without-le j l)

among-without :
    (j k : String) (l : List String) → among j l ≡ true → k ≢ j → among j (without k l) ≡ true
unfolding without among
among-without j k [] h n = h
among-without j k (i ∷ l) h n = ground (arith, among-without j k l)

abbrev queued_ids : MemoryRepository → List String
queued_ids m = map (λ a. a.ad_id) (with_status status_queued (values m.ads))

length-map_id : (l : List Ad) → length (map (λ a. a.ad_id) l) ≡ length l
length-map_id [] = refl
length-map_id (a ∷ l) = ap suc (length-map_id l)

among-queued_ids :
    (d : Dict Ad) (j : String) (a : Ad)
    → Entries OwnId d
    → lookup j d ≡ some a
    → a.status ≡ status_queued
    → among j (map (λ b. b.ad_id) (with_status status_queued (values d))) ≡ true
unfolding lookup with_status among
among-queued_ids [] j a o e s = ground arith
among-queued_ids ((i, b) ∷ d) j a o e s = ground (arith, among-queued_ids d j a o.1)

module _ (work : Ad → AdAnalysis) where
  -- Nothing waits any more, what waited is completed, and the rest is as it was.
  pub record Drained (m m' : MemoryRepository) : Type 0 where
    pub none_waits : (j : String) → waiting m' j ≡ none
    pub completed :
        (j : String) (a : Ad)
        → lookup j m.ads ≡ some a
        → a.status ≡ status_queued
        → IsDone work m' j a
    pub kept : (j : String) → waiting m j ≡ none → lookup j m'.ads ≡ lookup j m.ads

  Drained-now : (m : MemoryRepository) → ((j : String) → waiting m j ≡ none) → Drained m m
  Drained-now m h = record {
    none_waits = h;
    completed = λ j a e s. let n = h j in ground (arith, e, s, n);
    kept = λ j n. refl;
  }

  Drained-then :
      (a : Ad) (m m1 m' : MemoryRepository)
      → IsNext m a
      → IsDone work m1 a.ad_id a
      → ((j : String) → a.ad_id ≢ j → lookup j m1.ads ≡ lookup j m.ads)
      → waiting m1 ≡ remove a.ad_id (waiting m)
      → Drained m1 m'
      → Drained m m'
  Drained-then a m m1 m' next done others w rest = record {
    none_waits = rest.none_waits;
    completed = λ j b e s. elim (String-discrete a.ad_id j) [
      | yes p ↦
          let gone : waiting m1 j ≡ none = ap (λ f. f j) w ∙ ground (arith, p) in
          let same : b ≡ a = ground (arith, e, next.stored, p) in
          record {
            queue = done.queue;
            later = done.later;
            stored = rest.kept j gone ∙ rw (← p, same) done.stored;
          }
      | no n ↦ rest.completed j b (others j n ∙ e) s
    ];
    kept = λ j n.
        let other : a.ad_id ≢ j = λ p. ground (arith, next.stored, next.queued, n, p) in
        let gone : waiting m1 j ≡ none = ap (λ f. f j) w ∙ ground (arith, n, other) in
        rest.kept j gone ∙ others j other;
  }

  work_turns_all :
      (ts : List Turn) (ids : List String) (m : MemoryRepository)
      → IsReady m
      → AllOpen work ts
      → ((j : String) → waiting m j ≢ none → among j ids ≡ true)
      → length ids ≤ length ts
      → (m' : MemoryRepository) × (work_turns work ts m ≡ some m') × Drained m m'
  unfolding work_turns among
  work_turns_all [] [] m r o h le = (
    m,
    refl,
    Drained-now m λ j. elim (Option-cases (waiting m j)) [
      | inl e ↦ e
      | inr (x, e) ↦ let f = h j (λ p. ground (arith, e, p)) in ground (arith, f)
    ],
  )
  work_turns_all [] (i ∷ ids) m r o h le = absurd (omega (arith, le))
  work_turns_all (t ∷ ts) ids m r o h le = elim (completes_one work t m r o.0) [
    | inl (nothing, e) ↦
        let idle = waiting-NoneQueued m nothing in
        let (m', run, d) =
          work_turns_all ts [] m r o.1 (λ j n. absurd (n (idle j))) (omega arith) in
        (m', ground (arith, e, run), d)
    | inr (a, w, m1, next, e, ready, done, others, gone) ↦
        let first = waiting-IsNext m a next in
        let shorter = length-without a.ad_id ids (h a.ad_id λ p. ground (arith, first.waits, p)) in
        let left : (j : String) → waiting m1 j ≢ none → among j (without a.ad_id ids) ≡ true =
          λ j n.
            let at : waiting m1 j ≡ remove a.ad_id (waiting m) j = ap (λ f. f j) gone in
            among-without j a.ad_id ids (h j λ q. n (at ∙ ground (arith, q)))
              (λ p. n (at ∙ ground (arith, p))) in
        let (m', run, d) =
          work_turns_all ts (without a.ad_id ids) m1 ready o.1 left (omega (arith, shorter, le)) in
        (m', ground (arith, e, run), Drained-then a m m1 m' next done others gone d)
  ]

  -- On a repository that is idle and where no lock is held, as many rounds as there are queued ads,
  -- by the workers of whatever open queues, at whatever times, when `processAd` always gives an
  -- analysis: every round ends, and in the end no ad waits, each ad that was queued is completed
  -- with the analysis of what one of the queues took, and every ad that was not queued is as it was.
  pub work_turns_lem :
      (ts : List Turn) (m : MemoryRepository)
      → IsReady m
      → AllOpen work ts
      → length (with_status status_queued (values m.ads)) ≤ length ts
      → (m' : MemoryRepository) × (work_turns work ts m ≡ some m') × Drained m m'
  work_turns_lem ts m r o le =
      work_turns_all ts (queued_ids m) m r o
        (λ j n. elim (Option-cases (waiting m j)) [
          | inl e ↦ absurd (n e)
          | inr (x, e) ↦
              let (a, f, s, _) = waiting-inverse m j x e in
              among-queued_ids m.ads j a r.idle.valid.own_ids f s
        ])
        (omega (arith, length-map_id (with_status status_queued (values m.ads)), le))
