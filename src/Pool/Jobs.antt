-- ===== src/Pool/Jobs.antt =====
-- internal/processor/worker.go, lines 118 to 191: a round of `processLoop`. What `processAd` makes of an
-- ad, an analysis or nothing, is the argument `work`; `now` and `later` are the clock at the two
-- calls of the queue. The waits between two rounds are left out.
use game_ad_service.Common.{
  ℕ, suc, ◌≤◌, false, Option, none, some, ◌≡◌, ◌≢◌, refl, ap, arith, ite, inl, inr, ◌⊎◌,
  Option-cases,
}
use game_ad_service.Common.Int.{ℤ, pos, negsuc, incr, add32, ◌+ℤ◌}
use game_ad_service.Common.Dict.{lookup}
use game_ad_service.Errors.{Error, Error-discrete, queue_empty, item_locked}
use game_ad_service.Ad.{Ad, AdAnalysis}
use game_ad_service.Storage.{ok, err, panic, Action, Repository, CacheRepository}
use game_ad_service.Memory.State.{MemoryRepository}
use game_ad_service.Memory.{memory_repository, memory_cache}
use game_ad_service.Memory.Invariant.{IsValid}
use game_ad_service.Memory.Find.{IsNext, NoneQueued}
use game_ad_service.Queue.State.{DistributedPriorityQueue, Run}
use game_ad_service.Queue.Store.{IsFree}
use game_ad_service.Queue.{dequeue, complete}
use game_ad_service.Queue.Dequeue.{claimed_ad, dequeue-IsNext}
use game_ad_service.Queue.Complete.{completed_ad, complete_success}
use game_ad_service.Pool.{Worker}

abbrev pub job_begins : Worker → Worker
job_begins w = record w { active_jobs = add32 w.active_jobs (pos 1) }

abbrev pub job_ends : Worker → Worker
job_ends w = record w { active_jobs = add32 w.active_jobs (negsuc 0) }

abbrev pub count_error : Worker → Worker
count_error w = record w { errors = incr w.errors }

abbrev pub count_processed : Worker → Worker
count_processed w = record w { processed = incr w.processed }

-- A failed `Dequeue`: an empty queue and a locked ad are no errors of the worker.
unfoldable pub after_error : Error → Worker → Worker
after_error e w =
    ite (Error-discrete e queue_empty) w (ite (Error-discrete e item_locked) w (count_error w))

module _ {S : Type 0} (repo : Repository S) (cache : CacheRepository S) where
  -- The round from the ad on.
  unfoldable pub process_job :
      DistributedPriorityQueue → ℤ → (Ad → Option AdAnalysis) → Worker → Ad → Action S Worker
  process_job q later work w ad s =
      let w' = job_ends (job_begins w) in
      elim (work ad) [
        | none ↦ (ok (count_error w'), s)
        | some analysis ↦
            let (r, s') = complete repo cache q later analysis ad s in
            elim r [
              | ok _ ↦ (ok (count_processed w'), s')
              | err _ ↦ (ok (count_error w'), s')
              | panic ↦ (panic, s')
            ]
      ]

  unfoldable pub work_round :
      ℕ → DistributedPriorityQueue → (ℕ → ℤ) → ℤ → (Ad → Option AdAnalysis) → Worker → Run S Worker
  unfolding process_job after_error
  work_round n q clock later work w s = elim (dequeue repo cache n q clock s) [
    | none ↦ none
    | some (ok ad, s') ↦ some (process_job q later work w ad s')
    | some (err e, s') ↦ some (ok (after_error e w), s')
    | some (panic, s') ↦ some (panic, s')
  ]

add32_back :
    (x : ℤ) (n : ℕ) → x ≡ pos n → suc n ≤ 2_147_483_647 → add32 (add32 x (pos 1)) (negsuc 0) ≡ x
unfolding add32 ◌+ℤ◌
add32_back x n e h = ground arith

-- A worker whose job has begun and ended has as many active jobs as before: fewer than 2 ^ 31.
job_ends-job_begins :
    (w : Worker) (n : ℕ)
    → w.active_jobs ≡ pos n
    → suc n ≤ 2_147_483_647
    → job_ends (job_begins w) ≡ w
job_ends-job_begins w n e h =
    ap (λ x. record w { active_jobs = x }) (add32_back w.active_jobs n e h)

-- What a round does on a valid repository, for an open queue where the queued ad that comes first
-- has an id and nobody else holds its lock: if no ad is queued, nothing. Otherwise it takes that
-- ad; if `processAd` gives an analysis, the ad ends up completed with it and the worker counts one
-- more ad processed, and if not, the ad stays in the processing state and the worker counts one
-- more error. The number of active jobs, which is below 2 ^ 31 - 1, is as before in all cases.
pub work_round_lem :
    (n : ℕ) (q : DistributedPriorityQueue) (clock : ℕ → ℤ) (later : ℤ)
    (work : Ad → Option AdAnalysis) (w : Worker) (active : ℕ) (m : MemoryRepository)
    → IsValid m
    → q.closed ≡ false
    → ((a : Ad) → IsNext m a → (a.ad_id ≢ "") × IsFree (clock 0) a.ad_id q.instance_id m)
    → w.active_jobs ≡ pos active
    → suc active ≤ 2_147_483_647
    → let round = work_round memory_repository memory_cache (suc n) q clock later work w m in
      (NoneQueued m × (round ≡ some (ok w, m)))
      ⊎ ((a : Ad) × (m' : MemoryRepository) × IsNext m a
          × (((analysis : AdAnalysis) × (work (claimed_ad q a) ≡ some analysis)
                × (round ≡ some (ok (count_processed w), m'))
                × (lookup a.ad_id m'.ads ≡ some (completed_ad later analysis (claimed_ad q a))))
              ⊎ ((work (claimed_ad q a) ≡ none)
                  × (round ≡ some (ok (count_error w), m'))
                  × (lookup a.ad_id m'.ads ≡ some (claimed_ad q a)))))
unfolding work_round process_job after_error
work_round_lem n q clock later work w active m v hc free ha hb =
    elim (dequeue-IsNext n q clock m v hc free) [
      | inl (none_queued, e) ↦ inl (none_queued, ground (arith, e))
      | inr (a, m1, next, e, stored, unlocked) ↦
          let ad = claimed_ad q a in
          let here : lookup a.ad_id m1.ads ≡ some ad = ground (arith, stored a.ad_id) in
          let same = job_ends-job_begins w active ha hb in
          inr (elim (Option-cases (work ad)) [
            | inl f ↦ (a, m1, next, inr (f, ground (arith, e, f, same), here))
            | inr (analysis, f) ↦
                let (done, changed, _) =
                  complete_success q later analysis ad ad m1 (free a next).0 refl here refl refl
                    (inl (ground (arith, unlocked a.ad_id))) in
                let after = complete memory_repository memory_cache q later analysis ad m1 in
                (
                  a,
                  after.1,
                  next,
                  inl (
                    analysis,
                    f,
                    ground (arith, e, f, same, done),
                    ground (arith, changed a.ad_id),
                  ),
                )
          ])
    ]
