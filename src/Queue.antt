-- ===== src/Queue.antt =====
-- internal/processor/queue.go: the distributed priority queue, over a repository and a cache
-- repository that act on one world. The instant at which a call reads the clock is its argument
-- `now`; `Dequeue`, which calls itself, has one for each of these calls. `q.closed` is read at the
-- start of a call, under its own mutex.
pub mod State
pub mod Store
pub mod Priority
pub mod Rounds
pub mod Ageing
pub mod Safe
pub mod SafeRun
pub mod SafeDequeue
pub mod Shared
pub mod Gives
pub mod GivesDequeue
pub mod Held
pub mod Claiming
pub mod Exclusive
pub mod Completion
pub mod Interleaved
pub mod Idle
pub mod History
pub mod Enqueue
pub mod Dequeue
pub mod Blocked
pub mod Complete
use game_ad_service.Common.{
  ℕ, zero, suc, ◌+◌, String, String-discrete, Bool, true, false, not, Option, none, some, List, [],
  ◌∷◌, ite, if◌then◌else◌, ◌≡◌,
}
use game_ad_service.Common.Int.{ℤ, pos, ltb_ℤ, leb_ℤ, eqb_ℤ, incr, ◌+ℤ◌, ◌-ℤ◌}
use game_ad_service.Float64.{FloatOps}
use game_ad_service.Errors.{
  Error, ad_not_found, concurrent_modification, queue_empty, queue_full, queue_closed, item_locked,
}
use game_ad_service.Ad.{
  Ad, AdAnalysis, status_queued, status_processing, status_completed, set_status, set_error,
  assign_worker, increment_attempts, set_analysis_results, is_processable,
  calculate_effective_priority, has_exceeded_max_wait_time,
}
use game_ad_service.Storage.{
  Result, ok, err, panic, Action, pure, throw, ◌>>=◌, ◌>>◌, handle, ignore, deferring, errors_is,
  Repository, CacheRepository,
}
use State.{DistributedPriorityQueue, ads_queue, Run, once, handle_run, deferring_run}

-- The channels that the maintenance loop waits on.
pub data Signal : Type 0 where
  cancelled shut_down requeue_tick aging_tick boost_tick : Signal

abbrev pub ends_loop : Signal → Bool
ends_loop cancelled = true
ends_loop shut_down = true
ends_loop _ = false

module _ {S : Type 0} (repo : Repository S) (cache : CacheRepository S) where
  -- The capacity check of `Enqueue`.
  unfoldable pub check_capacity : DistributedPriorityQueue → Action S (Unit {0})
  check_capacity q =
      if ltb_ℤ (pos 0) q.max_capacity
      then (do
        count ← repo.count_by_status status_queued
        if leb_ℤ q.max_capacity count then throw queue_full else pure tt)
      else pure tt

  -- `Enqueue` after the update: the caller's ad is returned beside the error, as the callee changes
  -- it through the pointer.
  unfoldable pub enqueue_stored : Ad → Result Ad → S → Result (Unit {0}) × Ad × S
  enqueue_stored queued (ok stored) s =
      let push = ignore (cache.push_to_queue ads_queue stored.ad_id stored.effective_priority) in
      let count = ignore (cache.increment_counter "queue:count") in
      let (r, s') = (push >> count) s in (r, stored, s')
  enqueue_stored queued (err e) s = (err e, queued, s)
  enqueue_stored queued panic s = (panic, queued, s)

  -- `Enqueue` from the status change on.
  unfoldable pub enqueue_ad : ℤ → Ad → S → Result (Unit {0}) × Ad × S
  unfolding enqueue_stored
  enqueue_ad now ad s =
      let queued = set_status now status_queued ad in
      let (r, s') = repo.update (some queued) s in enqueue_stored queued r s'

  -- `Enqueue` after the capacity check.
  unfoldable pub enqueue_checked : ℤ → Ad → Result (Unit {0}) → S → Result (Unit {0}) × Ad × S
  unfolding enqueue_ad
  enqueue_checked now ad (ok _) s = enqueue_ad now ad s
  enqueue_checked now ad (err e) s = (err e, ad, s)
  enqueue_checked now ad panic s = (panic, ad, s)

  unfoldable pub enqueue : DistributedPriorityQueue → ℤ → Ad → S → Result (Unit {0}) × Ad × S
  unfolding check_capacity enqueue_checked
  enqueue q now ad s =
      if q.closed
      then (err queue_closed, ad, s)
      else (let (r, s') = check_capacity q s in enqueue_checked now ad r s')

  -- The last steps of `Dequeue`: the worker and the attempt are written into the fresh ad.
  abbrev pub claimed : DistributedPriorityQueue → Ad → Ad
  claimed q a = increment_attempts (assign_worker q.instance_id a)

  -- `Dequeue` on an id from the cache queue, once it holds the lock; `again` is the call itself.
  unfoldable pub claim_fast : DistributedPriorityQueue → ℤ → Run S Ad → Ad → Run S Ad
  claim_fast q now again ad =
      handle_run (repo.atomic_status_update now ad.ad_id ad.version status_queued status_processing)
        (λ e. if errors_is e concurrent_modification then again else once (throw e))
        λ _.
          handle_run (repo.get ad.ad_id)
            (λ e. once (ignore (repo.release_lock ad.ad_id q.instance_id) >> throw e))
            λ updated. once (do
              stored ← repo.update (some (claimed q updated))
              ignore (cache.get_gauge "queue:count")
              pure stored)

  -- `Dequeue` on an id from the cache queue.
  unfoldable pub dequeue_fast : DistributedPriorityQueue → ℤ → Run S Ad → String → Run S Ad
  unfolding claim_fast
  dequeue_fast q now again id =
      handle_run (repo.get id) (λ e. if errors_is e ad_not_found then again else once (throw e))
        λ ad.
          if is_processable ad
          then handle_run (repo.acquire_lock now ad.ad_id q.instance_id q.lock_ttl)
              (λ e. once (throw e))
              (λ locked.
                if locked
                then deferring_run (repo.release_lock ad.ad_id q.instance_id)
                    (claim_fast q now again ad)
                else again)
          else again

  -- `Dequeue` on the ad that the repository found, once it holds the lock.
  unfoldable pub claim_slow : DistributedPriorityQueue → ℤ → Ad → Action S Ad
  claim_slow q now ad =
      let release = ignore (repo.release_lock ad.ad_id q.instance_id) in
      handle (repo.atomic_status_update now ad.ad_id ad.version status_queued status_processing)
        (λ e. release >> throw (if errors_is e concurrent_modification then item_locked else e))
        λ _.
          handle (repo.get ad.ad_id) (λ e. release >> throw e)
            λ updated.
              handle (repo.update (some (claimed q updated))) (λ e. release >> throw e)
                λ stored. do ignore (cache.get_gauge "queue:count"); pure stored

  -- `Dequeue` on what the repository found.
  unfoldable pub dequeue_first : DistributedPriorityQueue → ℤ → List Ad → Action S Ad
  unfolding claim_slow
  dequeue_first q now [] = throw queue_empty
  dequeue_first q now (ad ∷ _) = do
    locked ← repo.acquire_lock now ad.ad_id q.instance_id q.lock_ttl
    if locked then claim_slow q now ad else throw item_locked

  -- The slower path of `Dequeue`, through the repository.
  unfoldable pub dequeue_slow : DistributedPriorityQueue → ℤ → Action S Ad
  unfolding dequeue_first
  dequeue_slow q now = do ads ← repo.find_by_priority status_queued (pos 1); dequeue_first q now ads

  -- `Dequeue` calls itself again when the ad that it popped is gone, in a wrong state, locked or
  -- changed meanwhile; the fuel bounds the number of calls, and
  -- `clock` has the instant of each.
  unfoldable pub dequeue : ℕ → DistributedPriorityQueue → (ℕ → ℤ) → Run S Ad
  unfolding dequeue_fast dequeue_slow
  dequeue zero q clock s = none
  dequeue (suc n) q clock s =
      if q.closed
      then some (err queue_closed, s)
      else handle_run (cache.pop_from_queue ads_queue) (λ _. once (dequeue_slow q (clock 0)))
          (λ id.
            ite (String-discrete id "") (once (dequeue_slow q (clock 0)))
              (dequeue_fast q (clock 0) (λ t. dequeue n q (λ i. clock (suc i)) t) id))
          s

  -- `Complete` once it holds the lock.
  unfoldable pub complete_locked : ℤ → AdAnalysis → Ad → Action S (Unit {0})
  complete_locked now analysis ad = do
    repo.atomic_status_update now ad.ad_id ad.version status_processing status_completed
    updated ← repo.get ad.ad_id
    repo.update (some (set_analysis_results analysis updated))
    pure tt

  unfoldable pub complete : DistributedPriorityQueue → ℤ → AdAnalysis → Ad → Action S (Unit {0})
  unfolding complete_locked
  complete q now analysis ad = do
    locked ← repo.acquire_lock now ad.ad_id q.instance_id q.lock_ttl
    let body =
        deferring (repo.release_lock ad.ad_id q.instance_id) (complete_locked now analysis ad)
    if locked then body else throw item_locked

  -- One round of the loop of `RequeueExpired` on an ad that has been processing for too long; the
  -- result is what it adds to the count.
  unfoldable pub requeue_or_fail : DistributedPriorityQueue → ℤ → Ad → Action S ℕ
  requeue_or_fail q now ad =
      if leb_ℤ q.max_attempts ad.attempts
      then handle (repo.update (some (set_error now "Exceeded maximum processing attempts" ad)))
          (λ _. pure 0) (λ _. pure 0)
      else handle
          (repo.atomic_status_update now ad.ad_id ad.version status_processing status_queued)
          (λ _. pure 0)
          (λ _.
            handle (repo.get ad.ad_id) (λ _. pure 0)
              λ updated.
                handle (cache.push_to_queue ads_queue updated.ad_id updated.priority) (λ _. pure 0)
                  λ _. pure 1)

  -- The test of `RequeueExpired`: processing began, and before the cutoff.
  abbrev pub is_expired : ℤ → Ad → Bool
  is_expired cutoff ad = elim ad.processing_started_at [ none ↦ false | some t ↦ ltb_ℤ t cutoff ]

  -- A loop that adds up what its rounds count.
  unfoldable pub sum_rounds : (Ad → Action S ℕ) → List Ad → Action S ℕ
  sum_rounds round [] = pure 0
  sum_rounds round (ad ∷ ads) = do n ← round ad; rest ← sum_rounds round ads; pure (n + rest)

  unfoldable pub requeue_round : DistributedPriorityQueue → ℤ → Ad → Action S ℕ
  unfolding requeue_or_fail
  requeue_round q now ad =
      if is_expired (now -ℤ q.processing_timeout) ad then requeue_or_fail q now ad else pure 0

  unfoldable pub requeue_expired : DistributedPriorityQueue → ℤ → Action S ℕ
  unfolding requeue_round sum_rounds
  requeue_expired q now = if q.closed then throw queue_closed else (do
    ads ← repo.find_by_status status_processing (pos 100) (pos 0)
    sum_rounds (requeue_round q now) ads)

  unfoldable pub size : Action S ℤ
  size = repo.count_by_status status_queued

  -- What ageing and boosting do with an ad whose priority is to change: the stored ad is written
  -- only if it still has the version that was seen.
  unfoldable pub write_priority : Ad → ℤ → Action S ℕ
  write_priority ad priority =
      handle (repo.get ad.ad_id) (λ _. pure 0)
        λ latest.
          if eqb_ℤ latest.version ad.version
          then handle (repo.update (some (record latest { effective_priority = priority })))
              (λ _. pure 0)
              (λ stored.
                handle (cache.push_to_queue ads_queue stored.ad_id stored.effective_priority)
                  (λ _. pure 0) λ _. pure 1)
          else pure 0

  -- One round of `updateQueuePriorities`.
  unfoldable pub age_round : FloatOps → DistributedPriorityQueue → ℤ → Ad → Action S ℕ
  unfolding write_priority
  age_round F q now ad = elim ad.queued_at [
    | none ↦ pure 0
    | some _ ↦
        let (priority, _) = calculate_effective_priority F q.aging_rate q.max_wait_time now ad in
        if eqb_ℤ priority ad.effective_priority then pure 0 else write_priority ad priority
  ]

  unfoldable pub update_queue_priorities : FloatOps → DistributedPriorityQueue → ℤ → Action S ℕ
  unfolding age_round sum_rounds
  update_queue_priorities F q now = do
    ads ← repo.find_by_status status_queued (pos 100) (pos 0)
    sum_rounds (age_round F q now) ads

  -- One round of `BoostLowPriorityItems`.
  unfoldable pub boost_round : DistributedPriorityQueue → ℤ → Ad → Action S ℕ
  unfolding write_priority
  boost_round q now ad = elim ad.queued_at [
    | none ↦ pure 0
    | some _ ↦
        if has_exceeded_max_wait_time now q.max_wait_time ad
        then write_priority ad (pos 1)
        else pure 0
  ]

  unfoldable pub boost_low_priority_items : DistributedPriorityQueue → ℤ → Action S ℕ
  unfolding boost_round sum_rounds
  boost_low_priority_items q now = if q.closed then throw queue_closed else (do
    ads ← repo.find_by_status status_queued (pos 100) (pos 0)
    sum_rounds (boost_round q now) ads)

  -- What the maintenance loop does on a tick; errors and counts are dropped.
  unfoldable pub maintain : FloatOps → DistributedPriorityQueue → ℤ → Signal → Action S (Unit {0})
  maintain F q now requeue_tick = ignore (requeue_expired q now)
  maintain F q now aging_tick =
      if q.enable_aging then ignore (update_queue_priorities F q now) else pure tt
  maintain F q now boost_tick = ignore (boost_low_priority_items q now)
  maintain F q now _ = pure tt

  -- `StartMaintenanceLoop` over the signals that it receives, in order.
  unfoldable pub maintenance_loop :
      FloatOps → DistributedPriorityQueue → List (ℤ × Signal) → Action S (Unit {0})
  unfolding maintain
  maintenance_loop F q [] = pure tt
  maintenance_loop F q ((now, signal) ∷ rest) =
      if ends_loop signal then pure tt else maintain F q now signal >> maintenance_loop F q rest
