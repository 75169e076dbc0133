-- ===== src/Service/Refinement.antt =====
-- Any calls of the service and of the workers, one after another, over the in-memory repository, and
-- the abstract priority queue of Service/Waiting.antt.
use game_ad_service.Common.{
  ℕ, suc, String, String-discrete, Option, none, some, List, [], ◌∷◌, ◌≡◌, ◌≢◌, refl, ap, arith,
  ite, true, inl, inr, Bool-cases,
}
use game_ad_service.Common.Int.{ℤ}
use game_ad_service.Common.Dict.{lookup}
use game_ad_service.Errors.{Error, Error-discrete, queue_empty, queue_closed}
use game_ad_service.Mapper.{AdDto}
use game_ad_service.Ad.{Ad, AdAnalysis, status_queued}
use game_ad_service.Storage.{Result, ok, err, panic, throw}
use game_ad_service.Memory.State.{MemoryRepository, new_memory_repository}
use game_ad_service.Memory.{memory_repository, memory_cache}
use game_ad_service.Queue.State.{DistributedPriorityQueue}
use game_ad_service.Queue.Idle.{IsUnstarted}
use game_ad_service.Queue.History.{new-IsIdle, requeue_expired_idle}
use game_ad_service.Queue.{
  dequeue, complete, requeue_expired, update_queue_priorities, boost_low_priority_items,
}
use game_ad_service.Service.Waiting.{
  Entry, Waiting, put, remove, IsFirst, waiting, waiting-IsNext, waiting-NoneQueued,
}
use game_ad_service.Service.Ready.{
  IsReady, submit_ad-IsReady, dequeue-IsReady, dequeue_closed, complete-IsReady,
}
use game_ad_service.Service.Adjust.{Adjusts, IsBoosted, age-IsReady, boost-IsReady, boost_closed}
use game_ad_service.Service.Rounds.{IsPositive}
use game_ad_service.Float64.{FloatOps}
use game_ad_service.Service.{submitted, submit_ad}

-- A call, by a queue of the service or of a worker. `takes` has the fuel of `Dequeue` beyond the first
-- call; `completes` has any ad, also one that is stale or was never stored.
pub data Call : Type 0 where
  submits : (fresh : String) (now later : ℤ) → Ad → Call
  takes : (fuel : ℕ) (clock : ℕ → ℤ) → Call
  completes : (now : ℤ) → AdAnalysis → Ad → Call
  requeues : (now : ℤ) → Call
  ages : (F : FloatOps) (now : ℤ) → Call
  boosts : (now : ℤ) → Call

-- What the caller sees.
pub data Outcome : Type 0 where
  queued : String → Entry → Outcome
  refused took : String → Outcome
  empty finished aged boosted failed : Outcome

abbrev submit_outcome : Result AdDto → Outcome
submit_outcome (ok d) =
    ite (String-discrete d.status status_queued)
      (queued d.ad_id (record { effective_priority = d.priority; created_at = d.created_at }))
      (refused d.ad_id)
submit_outcome (err _) = failed
submit_outcome panic = failed

abbrev error_outcome : Error → Outcome
error_outcome e =
    ite (Error-discrete e queue_empty) empty (ite (Error-discrete e queue_closed) finished failed)

-- A closed queue says so; any other error than that and an empty queue is a failure.
abbrev dequeue_outcome :
    MemoryRepository → Option (Result Ad × MemoryRepository) → Outcome × MemoryRepository
dequeue_outcome m none = (failed, m)
dequeue_outcome m (some (ok ad, m')) = (took ad.ad_id, m')
dequeue_outcome m (some (err e, m')) = (error_outcome e, m')
dequeue_outcome m (some (panic, m')) = (failed, m')

-- Whether they succeed or not, completing and requeueing are not to touch what waits.
abbrev finish_outcome : {A : Type 0} → Result A → Outcome
finish_outcome (ok _) = finished
finish_outcome (err _) = finished
finish_outcome panic = failed

-- Ageing and boosting end with a count, or boosting says that the queue is closed.
abbrev adjust_outcome : Outcome → Result ℕ → Outcome
adjust_outcome o (ok _) = o
adjust_outcome o (err e) = error_outcome e
adjust_outcome o panic = failed

pub perform : DistributedPriorityQueue × Call → MemoryRepository → Outcome × MemoryRepository
perform (q, submits fresh now later ad) m =
    let (r, m') = submit_ad memory_repository memory_cache q fresh now later (some ad) m in
    (submit_outcome r, m')
perform (q, takes n clock) m =
    dequeue_outcome m (dequeue memory_repository memory_cache (suc n) q clock m)
perform (q, completes now analysis ad) m =
    let (r, m') = complete memory_repository memory_cache q now analysis ad m in
    (finish_outcome r, m')
perform (q, requeues now) m =
    let (r, m') = requeue_expired memory_repository memory_cache q now m in (finish_outcome r, m')
perform (q, ages F now) m =
    let (r, m') = update_queue_priorities memory_repository memory_cache F q now m in
    (adjust_outcome aged r, m')
perform (q, boosts now) m =
    let (r, m') = boost_low_priority_items memory_repository memory_cache q now m in
    (adjust_outcome boosted r, m')

pub perform_all :
    List (DistributedPriorityQueue × Call) → MemoryRepository → List Outcome × MemoryRepository
unfolding perform
perform_all [] m = ([], m)
perform_all (c ∷ cs) m =
    let (o, m') = perform c m in let (os, m'') = perform_all cs m' in (o ∷ os, m'')

-- What the abstract queue may do and be seen to do. It never fails.
pub data Step : Outcome → Waiting → Waiting → Type 0 where
  queues : {id : String} {e : Entry} {w : Waiting} → Step (queued id e) w (put id e w)
  refuses : {id : String} {w : Waiting} → Step (refused id) w (remove id w)
  gives : {id : String} {e : Entry} {w : Waiting} → IsFirst w id e → Step (took id) w (remove id w)
  reports : {w : Waiting} → ((j : String) → w j ≡ none) → Step empty w w
  ignores : {w : Waiting} → Step finished w w
  alters : {w w' : Waiting} → Adjusts IsPositive w w' → Step aged w w'
  raises : {w w' : Waiting} → Adjusts IsBoosted w w' → Step boosted w w'

pub data Steps : List Outcome → Waiting → Waiting → Type 0 where
  stop : {w : Waiting} → Steps [] w w
  then :
      {o : Outcome} {os : List Outcome} {w w' w'' : Waiting}
      → Step o w w'
      → Steps os w' w''
      → Steps (o ∷ os) w w''

-- A submitted ad has an id, its own or a new one, and no time of processing.
abbrev pub IsProper : DistributedPriorityQueue × Call → Type 0
IsProper (q, submits fresh now later ad) = ((submitted fresh now ad).ad_id ≢ "") × IsUnstarted ad
IsProper _ = Unit

abbrev pub AllProper : List (DistributedPriorityQueue × Call) → Type 0
AllProper [] = Unit
AllProper (c ∷ cs) = IsProper c × AllProper cs

abbrev Implements : Outcome × MemoryRepository → MemoryRepository → Type 0
Implements (o, m') m = IsReady m' × Step o (waiting m) (waiting m')

-- A step to the same outcome and the same state, written in another way.
as_step : {o o' : Outcome} {w w' w'' : Waiting} → o ≡ o' → w' ≡ w'' → Step o' w w'' → Step o w w'
as_step p q h = rw (p, q) h

finish_outcome_ok : {A : Type 0} (r : Result A) → r ≢ panic → finish_outcome r ≡ finished
finish_outcome_ok (ok _) h = refl
finish_outcome_ok (err _) h = refl
finish_outcome_ok panic h = absurd (h refl)

requeue_expired_closed :
    (q : DistributedPriorityQueue) (now : ℤ) (m : MemoryRepository)
    → q.closed ≡ true
    → requeue_expired memory_repository memory_cache q now m ≡ (err queue_closed, m)
unfolding requeue_expired throw
requeue_expired_closed q now m h = ground (arith, h)

perform-Step :
    (c : DistributedPriorityQueue × Call) (m : MemoryRepository)
    → IsProper c
    → IsReady m
    → Implements (perform c m) m
unfolding perform
perform-Step (q, submits fresh now later ad) m p r =
    let (d, m', e, ready, state) = submit_ad-IsReady q fresh now later ad m p.0 p.1 r in
    rw e (
      ready,
      elim state [
        | inl (s, w) ↦ as_step (ground (arith, s)) w queues
        | inr (s, w) ↦ as_step (ground (arith, s)) w refuses
      ],
    )
perform-Step (q, takes n clock) m p r = elim (Bool-cases q.closed) [
  | inl c ↦ rw (dequeue_closed n q clock m c) (r, as_step (ground arith) refl ignores)
  | inr o ↦ elim (dequeue-IsReady n q clock m r o) [
    | inl (none_queued, e) ↦
        rw e (r, as_step (ground arith) refl (reports (waiting-NoneQueued m none_queued)))
    | inr (a, m', next, e, ready, _, w) ↦
        rw e (ready, as_step refl w (gives (waiting-IsNext m a next)))
  ]
]
perform-Step (q, completes now analysis ad) m p r =
    let (h, ready, w) = complete-IsReady q now analysis ad m r in
    (ready, as_step (finish_outcome_ok _ h) w ignores)
perform-Step (q, requeues now) m p r = elim (Bool-cases q.closed) [
  | inl c ↦ rw (requeue_expired_closed q now m c) (r, ignores)
  | inr o ↦ rw (requeue_expired_idle q now m o r.idle) (r, ignores)
]
perform-Step (q, ages F now) m p r =
    let ((n, e), ready, changed) = age-IsReady F q now m r in
    (ready, as_step (ap (adjust_outcome aged) e) refl (alters changed))
perform-Step (q, boosts now) m p r = elim (Bool-cases q.closed) [
  | inl c ↦ rw (boost_closed q now m c) (r, as_step (ground arith) refl ignores)
  | inr o ↦
      let ((n, e), ready, changed) = boost-IsReady q now m r o in
      (ready, as_step (ap (adjust_outcome boosted) e) refl (raises changed))
]

perform_all-Steps :
    (cs : List (DistributedPriorityQueue × Call)) (m : MemoryRepository)
    → AllProper cs
    → IsReady m
    → Steps (perform_all cs m).0 (waiting m) (waiting (perform_all cs m).1)
unfolding perform_all
perform_all-Steps [] m p r = stop
perform_all-Steps (c ∷ cs) m p r =
    let (ready, s) = perform-Step c m p.0 r in
    then s (perform_all-Steps cs (perform c m).1 p.1 ready)

new-IsReady : IsReady new_memory_repository
unfolding new_memory_repository lookup
new-IsReady = record { idle = new-IsIdle; unlocked = λ j. refl; named = refl }

-- Whatever the service submits, and whatever any open or closed queues take, complete, requeue, age
-- and boost, one call after another from the empty repository, if the submitted ads have an id and no
-- time of processing: what the callers see is what an abstract priority queue does that is empty at
-- first. A submission whose reply says so waits with the replied priority and time, and one that is
-- refused does not wait; `Dequeue` gives an ad that waits and that no other goes before, which then
-- waits no more, and reports an empty queue just if nothing waits; completing any ad, also a stale or
-- an unknown one, and requeueing change nothing that waits; ageing and boosting change nothing but
-- the priorities of ads that wait, ageing to none below 1 and boosting to none but 1. No call fails
-- otherwise, panics or needs more than one call of `Dequeue`.
pub perform_all-new_memory_repository-Steps :
    (cs : List (DistributedPriorityQueue × Call))
    → AllProper cs
    → Steps
        (perform_all cs new_memory_repository).0
        (λ j. none)
        (waiting (perform_all cs new_memory_repository).1)
unfolding new_memory_repository lookup
perform_all-new_memory_repository-Steps cs p =
    perform_all-Steps cs new_memory_repository p new-IsReady
