-- ===== src/Queue/Safe.antt =====
-- Every call of the queue keeps an invariant of the world that the calls of the repositories keep.
use game_ad_service.Common.{ℕ, String, Option, none, some, List, [], ◌∷◌, All, ◌≡◌, refl}
use game_ad_service.Common.Int.{ℤ}
use game_ad_service.Float64.{FloatOps}
use game_ad_service.Errors.{queue_full}
use game_ad_service.Ad.{
  Ad, AdAnalysis, AdStatus, status_queued, set_status, set_error, set_analysis_results,
  assign_worker, increment_attempts,
}
use game_ad_service.Storage.{Action, Repository, CacheRepository}
use game_ad_service.Storage.Safe.{
  Safe, Any, pure-Safe, throw-Safe, handle-Safe, bind-Safe, deferring-Safe, if-Safe, then-Safe,
}
use game_ad_service.Queue.State.{DistributedPriorityQueue}
use game_ad_service.Queue.{
  check_capacity, complete_locked, complete, requeue_or_fail, sum_rounds, requeue_round,
  requeue_expired, write_priority, age_round, update_queue_priorities, boost_round,
  boost_low_priority_items,
}

-- The calls of the two repositories keep `I`; the ads that they give out satisfy `P`, and `P` is all
-- that an update asks of an ad.
pub record Keeps {S : Type 0} (repo : Repository S) (cache : CacheRepository S) (I : S → Type 0)
    (P : Ad → Type 0) : Type 0 where
  pub get : (id : String) → Safe I P (repo.get id)
  pub update : (a : Ad) → P a → Safe I P (repo.update (some a))
  pub find_by_status :
      (st : AdStatus) (limit offset : ℤ) → Safe I (All P) (repo.find_by_status st limit offset)
  pub find_by_priority :
      (st : AdStatus) (limit : ℤ) → Safe I (All P) (repo.find_by_priority st limit)
  pub count_by_status : (st : AdStatus) → Safe I Any (repo.count_by_status st)
  pub atomic_status_update :
      (now : ℤ) (id : String) (v : ℤ) (from to : AdStatus)
      → Safe I Any (repo.atomic_status_update now id v from to)
  pub acquire_lock :
      (now : ℤ) (id owner : String) (ttl : ℤ) → Safe I Any (repo.acquire_lock now id owner ttl)
  pub release_lock : (id owner : String) → Safe I Any (repo.release_lock id owner)
  pub push_to_queue : (queue id : String) (p : ℤ) → Safe I Any (cache.push_to_queue queue id p)
  pub pop_from_queue : (queue : String) → Safe I Any (cache.pop_from_queue queue)
  pub increment_counter : (key : String) → Safe I Any (cache.increment_counter key)
  pub get_gauge : (key : String) → Safe I Any (cache.get_gauge key)

-- `P` is kept by what the queue writes into an ad.
pub record Stable (P : Ad → Type 0) : Type 0 where
  pub queued : (now : ℤ) (a : Ad) → P a → P (set_status now status_queued a)
  pub failed : (now : ℤ) (message : String) (a : Ad) → P a → P (set_error now message a)
  pub assigned :
      (q : DistributedPriorityQueue) (a : Ad)
      → P a
      → P (increment_attempts (assign_worker q.instance_id a))
  pub analysed : (r : AdAnalysis) (a : Ad) → P a → P (set_analysis_results r a)
  pub prioritised : (p : ℤ) (a : Ad) → P a → P (record a { effective_priority = p })

module _ {S : Type 0} (repo : Repository S) (cache : CacheRepository S) (I : S → Type 0)
    (P : Ad → Type 0) (k : Keeps repo cache I P) (t : Stable P) where
  pub check_capacity-Safe :
      (q : DistributedPriorityQueue) → Safe I Any (check_capacity repo cache q)
  unfolding check_capacity
  check_capacity-Safe q =
      if-Safe Any _
        (bind-Safe Any Any (k.count_by_status status_queued)
          (λ count _. if-Safe Any _ (throw-Safe Any queue_full) (pure-Safe Any tt tt)))
        (pure-Safe Any tt tt)

  complete_locked-Safe :
      (now : ℤ) (r : AdAnalysis) (ad : Ad) → Safe I Any (complete_locked repo cache now r ad)
  unfolding complete_locked
  complete_locked-Safe now r ad = then-Safe Any Any (k.atomic_status_update _ _ _ _ _) (
      bind-Safe P Any (k.get ad.ad_id)
        λ a p. then-Safe P Any (k.update _ (t.analysed r a p)) (pure-Safe Any tt tt))

  pub complete-Safe :
      (q : DistributedPriorityQueue) (now : ℤ) (r : AdAnalysis) (ad : Ad)
      → Safe I Any (complete repo cache q now r ad)
  unfolding complete
  complete-Safe q now r ad =
      bind-Safe Any Any (k.acquire_lock now ad.ad_id q.instance_id q.lock_ttl) λ locked _.
        if-Safe Any locked
          (deferring-Safe Any Any (k.release_lock ad.ad_id q.instance_id)
            (complete_locked-Safe now r ad))
          (throw-Safe Any _)

  requeue_or_fail-Safe :
      (q : DistributedPriorityQueue) (now : ℤ) (ad : Ad)
      → P ad
      → Safe I Any (requeue_or_fail repo cache q now ad)
  unfolding requeue_or_fail
  requeue_or_fail-Safe q now ad p =
      if-Safe Any _
        (handle-Safe P Any (k.update _ (t.failed now _ ad p)) (λ _. pure-Safe Any 0 tt)
          λ _ _. pure-Safe Any 0 tt)
        (handle-Safe Any Any (k.atomic_status_update _ _ _ _ _) (λ _. pure-Safe Any 0 tt)
          λ _ _.
            handle-Safe P Any (k.get ad.ad_id) (λ _. pure-Safe Any 0 tt)
              λ a _.
                handle-Safe Any Any (k.push_to_queue _ _ _) (λ _. pure-Safe Any 0 tt)
                  λ _ _. pure-Safe Any 1 tt)

  sum_rounds-Safe :
      (round : Ad → Action S ℕ) (ads : List Ad)
      → ((a : Ad) → P a → Safe I Any (round a))
      → All P ads
      → Safe I Any (sum_rounds repo cache round ads)
  unfolding sum_rounds
  sum_rounds-Safe round [] h p = pure-Safe Any 0 tt
  sum_rounds-Safe round (a ∷ ads) h p =
      bind-Safe Any Any (h a p.0)
        λ n _. bind-Safe Any Any (sum_rounds-Safe round ads h p.1) λ m _. pure-Safe Any _ tt

  pub requeue_expired-Safe :
      (q : DistributedPriorityQueue) (now : ℤ) → Safe I Any (requeue_expired repo cache q now)
  unfolding requeue_expired requeue_round
  requeue_expired-Safe q now = if-Safe Any _ (throw-Safe Any _) (
      bind-Safe (All P) Any (k.find_by_status _ _ _) λ ads ps.
        sum_rounds-Safe _ ads
          (λ a p. if-Safe Any _ (requeue_or_fail-Safe q now a p) (pure-Safe Any 0 tt)) ps)

  pub write_priority-Safe : (ad : Ad) (p : ℤ) → Safe I Any (write_priority repo cache ad p)
  unfolding write_priority
  write_priority-Safe ad p =
      handle-Safe P Any (k.get ad.ad_id) (λ _. pure-Safe Any 0 tt)
        λ latest h.
          if-Safe Any _
            (handle-Safe P Any (k.update _ (t.prioritised p latest h)) (λ _. pure-Safe Any 0 tt)
              λ _ _.
                handle-Safe Any Any (k.push_to_queue _ _ _) (λ _. pure-Safe Any 0 tt)
                  λ _ _. pure-Safe Any 1 tt)
            (pure-Safe Any 0 tt)

  age_round-Safe :
      (F : FloatOps) (q : DistributedPriorityQueue) (now : ℤ) (ad : Ad) (o : Option ℤ)
      → ad.queued_at ≡ o
      → Safe I Any (age_round repo cache F q now ad)
  unfolding age_round
  age_round-Safe F q now ad none e = rw e (pure-Safe Any 0 tt)
  age_round-Safe F q now ad (some _) e =
      rw e (if-Safe Any _ (pure-Safe Any 0 tt) (write_priority-Safe ad _))

  pub update_queue_priorities-Safe :
      (F : FloatOps) (q : DistributedPriorityQueue) (now : ℤ)
      → Safe I Any (update_queue_priorities repo cache F q now)
  unfolding update_queue_priorities
  update_queue_priorities-Safe F q now =
      bind-Safe (All P) Any (k.find_by_status _ _ _)
        λ ads ps. sum_rounds-Safe _ ads (λ a p. age_round-Safe F q now a a.queued_at refl) ps

  boost_round-Safe :
      (q : DistributedPriorityQueue) (now : ℤ) (ad : Ad) (o : Option ℤ)
      → ad.queued_at ≡ o
      → Safe I Any (boost_round repo cache q now ad)
  unfolding boost_round
  boost_round-Safe q now ad none e = rw e (pure-Safe Any 0 tt)
  boost_round-Safe q now ad (some _) e =
      rw e (if-Safe Any _ (write_priority-Safe ad _) (pure-Safe Any 0 tt))

  pub boost_low_priority_items-Safe :
      (q : DistributedPriorityQueue) (now : ℤ)
      → Safe I Any (boost_low_priority_items repo cache q now)
  unfolding boost_low_priority_items
  boost_low_priority_items-Safe q now = if-Safe Any _ (throw-Safe Any _) (
      bind-Safe (All P) Any (k.find_by_status _ _ _)
        λ ads ps. sum_rounds-Safe _ ads (λ a p. boost_round-Safe q now a a.queued_at refl) ps)
