-- ===== src/Queue/History.antt =====
-- Any history of queue calls over the in-memory repository, and `RequeueExpired` after it.
use game_ad_service.Common.{
  ℕ, Option, none, some, List, [], ◌∷◌, ◌≡◌, refl, ap, arith, All, subst, take, drop, false,
}
use game_ad_service.Common.Int.{ℤ, pos}
use game_ad_service.Float64.{FloatOps}
use game_ad_service.Ad.{Ad, AdAnalysis, status_processing}
use game_ad_service.Storage.{Result, ok, ◌>>=◌, pure}
use game_ad_service.Storage.Safe.{OnOk}
use game_ad_service.Memory.State.{MemoryRepository, new_memory_repository}
use game_ad_service.Memory.{memory_repository, memory_cache, find_by_status, save}
use game_ad_service.Memory.Find.{find_by_status-All}
use game_ad_service.Memory.Invariant.{save-IsValid}
use game_ad_service.Queue.State.{DistributedPriorityQueue}
use game_ad_service.Queue.Safe.{
  complete-Safe, requeue_expired-Safe, update_queue_priorities-Safe, boost_low_priority_items-Safe,
}
use game_ad_service.Queue.SafeRun.{Ends, enqueue-Safe}
use game_ad_service.Queue.SafeDequeue.{dequeue-Safe}
use game_ad_service.Queue.Idle.{
  IsUnstarted, IsIdle, memory-Keeps, IsUnstarted-Stable, save-IsUnstarted, find_by_status-Safe,
}
use game_ad_service.Queue.{
  enqueue, dequeue, complete, requeue_expired, requeue_round, sum_rounds, update_queue_priorities,
  boost_low_priority_items,
}

-- The calls that reach the repository: the service saves an ad, and the queue's calls. Workers
-- interleave as they like; each call names the queue that makes it, and the ad that its caller has.
pub data QueueCall : Type 0 where
  saves : Ad → QueueCall
  enqueues : (now : ℤ) → Ad → QueueCall
  dequeues : (fuel : ℕ) (clock : ℕ → ℤ) → QueueCall
  completes : (now : ℤ) → AdAnalysis → Ad → QueueCall
  requeues ages boosts : (now : ℤ) → QueueCall

abbrev after_dequeue : MemoryRepository → Option (Result Ad × MemoryRepository) → MemoryRepository
after_dequeue m none = m
after_dequeue m (some (r, m')) = m'

pub new-IsIdle : IsIdle new_memory_repository
unfolding new_memory_repository
new-IsIdle = record {
  valid = record { unique_ads = tt; unique_locks = tt; own_ids = tt };
  unstarted = tt;
}

module _ (F : FloatOps) where
  -- A `Dequeue` that never ends leaves the state to others; one that ends changes it.
  pub queue_step : DistributedPriorityQueue × QueueCall → MemoryRepository → MemoryRepository
  queue_step (q, saves ad) m = (save (some ad) m).1
  queue_step (q, enqueues now ad) m = (enqueue memory_repository memory_cache q now ad m).2
  queue_step (q, dequeues n clock) m =
      after_dequeue m (dequeue memory_repository memory_cache n q clock m)
  queue_step (q, completes now r ad) m = (complete memory_repository memory_cache q now r ad m).1
  queue_step (q, requeues now) m = (requeue_expired memory_repository memory_cache q now m).1
  queue_step (q, ages now) m = (update_queue_priorities memory_repository memory_cache F q now m).1
  queue_step (q, boosts now) m = (boost_low_priority_items memory_repository memory_cache q now m).1

  pub queue_run : List (DistributedPriorityQueue × QueueCall) → MemoryRepository → MemoryRepository
  queue_run [] m = m
  queue_run (c ∷ cs) m = queue_run cs (queue_step c m)

  -- The ads that come from outside have no time of processing yet.
  abbrev pub IsFresh : DistributedPriorityQueue × QueueCall → Type 0
  IsFresh (q, saves ad) = IsUnstarted ad
  IsFresh (q, enqueues now ad) = IsUnstarted ad
  IsFresh _ = Unit

  abbrev pub AllFresh : List (DistributedPriorityQueue × QueueCall) → Type 0
  AllFresh [] = Unit
  AllFresh (c ∷ cs) = IsFresh c × AllFresh cs

  after_dequeue-IsIdle :
      (m : MemoryRepository) (o : Option (Result Ad × MemoryRepository))
      → IsIdle m
      → Ends IsIdle IsUnstarted o
      → IsIdle (after_dequeue m o)
  after_dequeue-IsIdle m none v e = v
  after_dequeue-IsIdle m (some (r, m')) v e = e.0

  queue_step-IsIdle :
      (c : DistributedPriorityQueue × QueueCall) (m : MemoryRepository)
      → IsFresh c
      → IsIdle m
      → IsIdle (queue_step c m)
  unfolding queue_step
  queue_step-IsIdle (q, saves ad) m f v = record {
    valid = save-IsValid m v.valid (some ad);
    unstarted = save-IsUnstarted m v ad f;
  }
  queue_step-IsIdle (q, enqueues now ad) m f v =
      enqueue-Safe _ _ IsIdle IsUnstarted memory-Keeps IsUnstarted-Stable q now ad m f v
  queue_step-IsIdle (q, dequeues n clock) m f v =
      after_dequeue-IsIdle m (dequeue memory_repository memory_cache n q clock m) v
        ((dequeue-Safe _ _ IsIdle IsUnstarted memory-Keeps IsUnstarted-Stable n q clock).keep m v)
  queue_step-IsIdle (q, completes now r ad) m f v =
      ((complete-Safe _ _ IsIdle IsUnstarted memory-Keeps IsUnstarted-Stable q now r ad).keep m v).0
  queue_step-IsIdle (q, requeues now) m f v =
      ((requeue_expired-Safe _ _ IsIdle IsUnstarted memory-Keeps IsUnstarted-Stable q now).keep m
        v).0
  queue_step-IsIdle (q, ages now) m f v =
      ((update_queue_priorities-Safe _ _ IsIdle IsUnstarted memory-Keeps IsUnstarted-Stable F q
          now).keep
        m v).0
  queue_step-IsIdle (q, boosts now) m f v =
      ((boost_low_priority_items-Safe _ _ IsIdle IsUnstarted memory-Keeps IsUnstarted-Stable q
          now).keep
        m v).0

  queue_run-IsIdle :
      (cs : List (DistributedPriorityQueue × QueueCall)) (m : MemoryRepository)
      → AllFresh cs
      → IsIdle m
      → IsIdle (queue_run cs m)
  unfolding queue_run
  queue_run-IsIdle [] m f v = v
  queue_run-IsIdle (c ∷ cs) m f v =
      queue_run-IsIdle cs (queue_step c m) f.1 (queue_step-IsIdle c m f.0 v)

rounds_idle :
    (q : DistributedPriorityQueue) (now : ℤ) (ads : List Ad) (m : MemoryRepository)
    → All IsUnstarted ads
    → sum_rounds memory_repository memory_cache
        (requeue_round memory_repository memory_cache q now)
        ads
        m
      ≡ (ok 0, m)
unfolding sum_rounds requeue_round ◌>>=◌ pure
rounds_idle q now [] m h = refl
rounds_idle q now (ad ∷ ads) m h = ground (arith, rounds_idle q now ads m h.1)

found_idle :
    (m : MemoryRepository)
    → IsIdle m
    → OnOk (All IsUnstarted) (find_by_status status_processing (pos 100) (pos 0) m).0
found_idle m v = ((find_by_status-Safe status_processing (pos 100) (pos 0)).keep m v).1

pub requeue_expired_idle :
    (q : DistributedPriorityQueue) (now : ℤ) (m : MemoryRepository)
    → q.closed ≡ false
    → IsIdle m
    → requeue_expired memory_repository memory_cache q now m ≡ (ok 0, m)
unfolding requeue_expired ◌>>=◌
requeue_expired_idle q now m hc v =
    let (found, _, e) = find_by_status-All status_processing 100 0 m (omega arith) in
    let page = take 100 (drop 0 found) in
    let h : All IsUnstarted page =
      subst (λ r. OnOk (All IsUnstarted) r) (ap (λ p. p.0) e) (found_idle m v) in
    ground (arith, hc, e, rounds_idle q now page m h)

-- Whatever the service and the workers of any queues have called before, if the ads that they
-- brought from outside had no time of processing yet: however long an ad has been processing,
-- `RequeueExpired` of an open queue finds no expired ad, counts none and changes nothing. No call
-- sets the time at which processing began, which is what it goes by.
pub requeue_expired-queue_run :
    (F : FloatOps) (cs : List (DistributedPriorityQueue × QueueCall)) (q : DistributedPriorityQueue)
    (now : ℤ)
    → AllFresh F cs
    → q.closed ≡ false
    → let m = queue_run F cs new_memory_repository in
      requeue_expired memory_repository memory_cache q now m ≡ (ok 0, m)
requeue_expired-queue_run F cs q now f hc =
    requeue_expired_idle q now _ hc (queue_run-IsIdle F cs new_memory_repository f new-IsIdle)
