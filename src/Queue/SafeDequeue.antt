-- ===== src/Queue/SafeDequeue.antt =====
-- `Dequeue` keeps an invariant of the world that the calls of the repositories keep, whatever path it
-- takes and however often it calls itself, and gives out ads of which it may be sure.
use game_ad_service.Common.{ℕ, zero, suc, String, String-discrete, some, List, [], ◌∷◌, All}
use game_ad_service.Common.Int.{ℤ}
use game_ad_service.Errors.{Error, queue_closed, item_locked, queue_empty}
use game_ad_service.Ad.{
  Ad, AdStatus, status_queued, status_processing, increment_attempts, assign_worker,
}
use game_ad_service.Storage.{err, Repository, CacheRepository}
use game_ad_service.Storage.Safe.{
  Safe, Any, pure-Safe, throw-Safe, handle-Safe, bind-Safe, then-Safe, ignore-Safe, if-Safe,
  any-Safe,
}
use game_ad_service.Queue.State.{DistributedPriorityQueue, ads_queue, Run}
use game_ad_service.Queue.SafeRun.{
  SafeRun, Ends-if, once-Safe, handle_run-Safe, deferring_run-Safe, run_if-Safe, run_ite-Safe,
}
use game_ad_service.Queue.Safe.{Keeps, Stable}
use game_ad_service.Queue.{
  claim_fast, dequeue_fast, claim_slow, dequeue_first, dequeue_slow, dequeue,
}

-- What `Dequeue` asks of the calls of the two repositories to keep `I` and to give out an ad with
-- `P`: once an ad is claimed, `C` holds of its id, and reading the ad then gives one with `P`.
pub record Grants {S : Type 0} (repo : Repository S) (cache : CacheRepository S) (I : S → Type 0)
    (C : String → Type 0) (P : Ad → Type 0) : Type 0 where
  pub find : (id : String) → Safe I Any (repo.get id)
  pub find_by_priority : (st : AdStatus) (limit : ℤ) → Safe I Any (repo.find_by_priority st limit)
  pub claim :
      (now : ℤ) (id : String) (v : ℤ)
      → Safe I (λ _. C id) (repo.atomic_status_update now id v status_queued status_processing)
  pub reread : (id : String) → C id → Safe I P (repo.get id)
  pub assign :
      (q : DistributedPriorityQueue) (a : Ad)
      → P a
      → Safe I P (repo.update (some (increment_attempts (assign_worker q.instance_id a))))
  pub acquire_lock :
      (now : ℤ) (id owner : String) (ttl : ℤ) → Safe I Any (repo.acquire_lock now id owner ttl)
  pub release_lock : (id owner : String) → Safe I Any (repo.release_lock id owner)
  pub pop_from_queue : (queue : String) → Safe I Any (cache.pop_from_queue queue)
  pub get_gauge : (key : String) → Safe I Any (cache.get_gauge key)

module _ {S : Type 0} (repo : Repository S) (cache : CacheRepository S) (I : S → Type 0)
    (C : String → Type 0) (P : Ad → Type 0) (g : Grants repo cache I C P) where
  claim_fast-Safe :
      (q : DistributedPriorityQueue) (now : ℤ) (again : Run S Ad) (ad : Ad)
      → SafeRun I P again
      → SafeRun I P (claim_fast repo cache q now again ad)
  unfolding claim_fast
  claim_fast-Safe q now again ad sa =
      handle_run-Safe (λ _. C ad.ad_id) P (g.claim _ ad.ad_id _)
        (λ e. run_if-Safe P _ sa (once-Safe P (throw-Safe P e)))
        λ _ c.
          handle_run-Safe P P (g.reread ad.ad_id c)
            (λ e.
              once-Safe P (then-Safe Any P (ignore-Safe Any (g.release_lock _ _)) (throw-Safe P e)))
            λ a p. once-Safe P (
              bind-Safe P P (g.assign q a p)
                λ b pb. then-Safe Any P (ignore-Safe Any (g.get_gauge _)) (pure-Safe P b pb))

  dequeue_fast-Safe :
      (q : DistributedPriorityQueue) (now : ℤ) (again : Run S Ad) (id : String)
      → SafeRun I P again
      → SafeRun I P (dequeue_fast repo cache q now again id)
  unfolding dequeue_fast
  dequeue_fast-Safe q now again id sa =
      handle_run-Safe Any P (g.find id) (λ e. run_if-Safe P _ sa (once-Safe P (throw-Safe P e)))
        λ ad p.
          run_if-Safe P _
            (handle_run-Safe Any P (g.acquire_lock _ _ _ _) (λ e. once-Safe P (throw-Safe P e))
              λ locked _.
                run_if-Safe P locked
                  (deferring_run-Safe P Any (g.release_lock _ _)
                    (claim_fast-Safe q now again ad sa))
                  sa)
            sa

  claim_slow-Safe :
      (q : DistributedPriorityQueue) (now : ℤ) (ad : Ad) → Safe I P (claim_slow repo cache q now ad)
  unfolding claim_slow
  claim_slow-Safe q now ad =
      let fail = λ (e : Error).
        then-Safe Any P (ignore-Safe Any (g.release_lock ad.ad_id q.instance_id))
          (throw-Safe P e) in
      handle-Safe (λ _. C ad.ad_id) P (g.claim _ ad.ad_id _) (λ e. fail _)
        λ _ c.
          handle-Safe P P (g.reread ad.ad_id c) (λ e. fail e)
            λ a p.
              handle-Safe P P (g.assign q a p) (λ e. fail e)
                λ b pb. then-Safe Any P (ignore-Safe Any (g.get_gauge _)) (pure-Safe P b pb)

  dequeue_first-Safe :
      (q : DistributedPriorityQueue) (now : ℤ) (ads : List Ad)
      → Safe I P (dequeue_first repo cache q now ads)
  unfolding dequeue_first
  dequeue_first-Safe q now [] = throw-Safe P queue_empty
  dequeue_first-Safe q now (ad ∷ _) =
      bind-Safe Any P (g.acquire_lock _ _ _ _)
        λ locked _. if-Safe P locked (claim_slow-Safe q now ad) (throw-Safe P item_locked)

  dequeue_slow-Safe :
      (q : DistributedPriorityQueue) (now : ℤ) → Safe I P (dequeue_slow repo cache q now)
  unfolding dequeue_slow
  dequeue_slow-Safe q now =
      bind-Safe Any P (g.find_by_priority _ _) λ ads _. dequeue_first-Safe q now ads

  pub dequeue_granted :
      (n : ℕ) (q : DistributedPriorityQueue) (clock : ℕ → ℤ)
      → SafeRun I P (dequeue repo cache n q clock)
  unfolding dequeue
  dequeue_granted zero q clock = record { keep = λ s i. tt }
  dequeue_granted (suc n) q clock =
      let again : SafeRun I P (λ u. dequeue repo cache n q (λ i. clock (suc i)) u) =
        dequeue_granted n q (λ i. clock (suc i)) in
      let open_run =
        handle_run-Safe Any P {act = cache.pop_from_queue ads_queue} (g.pop_from_queue ads_queue)
          (λ _. once-Safe P (dequeue_slow-Safe q (clock 0)))
          (λ id _.
            run_ite-Safe P (String-discrete id "") (once-Safe P (dequeue_slow-Safe q (clock 0)))
              (dequeue_fast-Safe q (clock 0) _ id again)) in
      record {
        keep =
            λ s i. Ends-if I P q.closed (some (err queue_closed, s)) _ (i, tt) (open_run.keep s i);
      }

module _ {S : Type 0} (repo : Repository S) (cache : CacheRepository S) (I : S → Type 0)
    (P : Ad → Type 0) (k : Keeps repo cache I P) (t : Stable P) where
  Keeps-Grants : Grants repo cache I Any P
  Keeps-Grants = record {
    find = λ id. any-Safe P (k.get id);
    find_by_priority = λ st limit. any-Safe (All P) (k.find_by_priority st limit);
    claim = λ now id v. k.atomic_status_update now id v status_queued status_processing;
    reread = λ id c. k.get id;
    assign = λ q a p. k.update _ (t.assigned q a p);
    acquire_lock = k.acquire_lock;
    release_lock = k.release_lock;
    pop_from_queue = k.pop_from_queue;
    get_gauge = k.get_gauge;
  }

  pub dequeue-Safe :
      (n : ℕ) (q : DistributedPriorityQueue) (clock : ℕ → ℤ)
      → SafeRun I P (dequeue repo cache n q clock)
  dequeue-Safe = dequeue_granted repo cache I Any P Keeps-Grants
