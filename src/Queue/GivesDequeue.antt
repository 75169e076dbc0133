-- ===== src/Queue/GivesDequeue.antt =====
-- What holds of an ad when `Dequeue` hands it out, by what holds from the moment at which it is claimed.
use game_ad_service.Common.{
  ℕ, zero, suc, String, String-discrete, Bool, true, false, Option, some, List, [], ◌∷◌,
  if◌then◌else◌, ◌≡◌,
}
use game_ad_service.Common.Int.{ℤ}
use game_ad_service.Errors.{Error, queue_closed, item_locked, queue_empty}
use game_ad_service.Ad.{
  Ad, AdStatus, status_queued, status_processing, increment_attempts, assign_worker,
}
use game_ad_service.Storage.{Result, err, Repository, CacheRepository}
use game_ad_service.Storage.Safe.{
  Safe, Any, pure-Safe, throw-Safe, handle-Safe, bind-Safe, then-Safe, ignore-Safe,
}
use game_ad_service.Queue.State.{DistributedPriorityQueue, ads_queue, Run}
use game_ad_service.Queue.SafeRun.{once-Safe, handle_run-Safe}
use game_ad_service.Queue.Gives.{
  Gives, GivesRun, Leaves, throw-Gives, once-Gives, bind-Gives, then-Gives, run-Gives, if-Gives,
  run_if-Gives, run_ite-Gives, deferring-Gives, claimed-Gives, run_claimed-Gives,
}
use game_ad_service.Queue.{
  claim_fast, dequeue_fast, claim_slow, dequeue_first, dequeue_slow, dequeue,
}

-- What `Dequeue` asks of the two repositories: their calls keep `I`; once an ad is claimed, `J` holds
-- with its id, and the calls that follow keep that and give out an ad with `P`, which has that id.
pub record Holds {S : Type 0} (repo : Repository S) (cache : CacheRepository S) (I : S → Type 0)
    (J : String → S → Type 0) (P : String → Ad → Type 0) : Type 0 where
  pub find : (id : String) → Safe I Any (repo.get id)
  pub find_by_priority : (st : AdStatus) (limit : ℤ) → Safe I Any (repo.find_by_priority st limit)
  pub acquire_lock :
      (now : ℤ) (id owner : String) (ttl : ℤ) → Safe I Any (repo.acquire_lock now id owner ttl)
  pub release_lock : (id owner : String) → Safe I Any (repo.release_lock id owner)
  pub pop_from_queue : (queue : String) → Safe I Any (cache.pop_from_queue queue)
  pub claim :
      (now : ℤ) (id : String) (v : ℤ)
      → Gives I (λ _. J id) (repo.atomic_status_update now id v status_queued status_processing)
  pub weaken : (id : String) (s : S) → J id s → I s
  pub reread : (id : String) → Safe (J id) (P id) (repo.get id)
  pub assign :
      (id : String) (q : DistributedPriorityQueue) (a : Ad)
      → P id a
      → Safe (J id) (P id) (repo.update (some (increment_attempts (assign_worker q.instance_id a))))
  pub release_claimed : (j id owner : String) → Safe (J j) Any (repo.release_lock id owner)
  pub get_gauge : (id key : String) → Safe (J id) Any (cache.get_gauge key)
  pub same_id : (id : String) (a : Ad) → P id a → a.ad_id ≡ id

module _ {S : Type 0} (repo : Repository S) (cache : CacheRepository S) (I : S → Type 0)
    (J : String → S → Type 0) (P : String → Ad → Type 0) (g : Holds repo cache I J P) where
  -- The ad that is handed out, and the world then.
  abbrev Q : Ad → S → Type 0
  Q a s = J a.ad_id s

  done : (id : String) (a : Ad) (s : S) → J id s → P id a → Q a s
  done id a s j p = rw (g.same_id id a p) j

  claim_fast-Gives :
      (q : DistributedPriorityQueue) (now : ℤ) (again : Run S Ad) (ad : Ad)
      → GivesRun I Q again
      → GivesRun I Q (claim_fast repo cache q now again ad)
  unfolding claim_fast
  claim_fast-Gives q now again ad ga =
      let id = ad.ad_id in
      run_claimed-Gives (P id) (g.weaken id) (done id) (g.claim _ id _)
        (λ e. run_if-Gives _ ga (once-Gives (throw-Gives e)))
        λ _.
          handle_run-Safe (P id) (P id) (g.reread id)
            (λ e. once-Safe (P id) (
              then-Safe Any (P id) (ignore-Safe Any (g.release_claimed id _ _))
                (throw-Safe (P id) e)))
            λ a p. once-Safe (P id) (
              bind-Safe (P id) (P id) (g.assign id q a p) λ b pb.
                then-Safe Any (P id) (ignore-Safe Any (g.get_gauge id _)) (pure-Safe (P id) b pb))

  dequeue_fast-Gives :
      (q : DistributedPriorityQueue) (now : ℤ) (again : Run S Ad) (id : String)
      → GivesRun I Q again
      → GivesRun I Q (dequeue_fast repo cache q now again id)
  unfolding dequeue_fast
  dequeue_fast-Gives q now again id ga =
      run-Gives Any (g.find id) (λ e. run_if-Gives _ ga (once-Gives (throw-Gives e)))
        λ ad _.
          run_if-Gives _
            (run-Gives Any (g.acquire_lock _ _ _ _) (λ e. once-Gives (throw-Gives e))
              λ locked _.
                run_if-Gives locked
                  (deferring-Gives (g.release_lock _ _) (λ a. g.release_claimed a.ad_id _ _)
                    (claim_fast-Gives q now again ad ga))
                  ga)
            ga

  claim_slow-Gives :
      (q : DistributedPriorityQueue) (now : ℤ) (ad : Ad)
      → Gives I Q (claim_slow repo cache q now ad)
  unfolding claim_slow
  claim_slow-Gives q now ad =
      let id = ad.ad_id in
      let fail = λ (e : Error).
        then-Safe Any (P id) (ignore-Safe Any (g.release_claimed id id q.instance_id))
          (throw-Safe (P id) e) in
      claimed-Gives (P id) (g.weaken id) (done id) (g.claim _ id _)
        (λ e. then-Gives (ignore-Safe Any (g.release_lock id q.instance_id)) (throw-Gives _))
        λ _.
          handle-Safe (P id) (P id) (g.reread id) (λ e. fail e)
            λ a p.
              handle-Safe (P id) (P id) (g.assign id q a p) (λ e. fail e)
                λ b pb.
                  then-Safe Any (P id) (ignore-Safe Any (g.get_gauge id _)) (pure-Safe (P id) b pb)

  dequeue_first-Gives :
      (q : DistributedPriorityQueue) (now : ℤ) (ads : List Ad)
      → Gives I Q (dequeue_first repo cache q now ads)
  unfolding dequeue_first
  dequeue_first-Gives q now [] = throw-Gives queue_empty
  dequeue_first-Gives q now (ad ∷ _) =
      bind-Gives Any (g.acquire_lock _ _ _ _)
        λ locked _. if-Gives locked (claim_slow-Gives q now ad) (throw-Gives item_locked)

  dequeue_slow-Gives :
      (q : DistributedPriorityQueue) (now : ℤ) → Gives I Q (dequeue_slow repo cache q now)
  unfolding dequeue_slow
  dequeue_slow-Gives q now =
      bind-Gives Any (g.find_by_priority _ _) λ ads _. dequeue_first-Gives q now ads

  closed_or :
      (b : Bool) (s : S) (x : Option (Result Ad × S))
      → I s
      → Leaves I Q x
      → Leaves I Q (if b then some (err queue_closed, s) else x)
  closed_or true s x i l = (i, tt)
  closed_or false s x i l = l

  pub dequeue-Gives :
      (n : ℕ) (q : DistributedPriorityQueue) (clock : ℕ → ℤ)
      → GivesRun I Q (dequeue repo cache n q clock)
  unfolding dequeue
  dequeue-Gives zero q clock = record { keep = λ s i. tt }
  dequeue-Gives (suc n) q clock =
      let again : GivesRun I Q (λ u. dequeue repo cache n q (λ i. clock (suc i)) u) =
        dequeue-Gives n q (λ i. clock (suc i)) in
      let slow = once-Gives (dequeue_slow-Gives q (clock 0)) in
      let open_run =
        run-Gives Any {act = cache.pop_from_queue ads_queue} (g.pop_from_queue ads_queue)
          (λ _. slow)
          (λ id _.
            run_ite-Gives (String-discrete id "") slow
              (dequeue_fast-Gives q (clock 0) _ id again)) in
      record { keep = λ s i. closed_or q.closed s _ i (open_run.keep s i) }
