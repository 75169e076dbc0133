-- ===== src/Commands/Workers.antt =====
-- A worker process: its own memory, and the queue in Redis that it shares with the servers.
use game_ad_service.Common.{
  ℕ, zero, suc, String, String-discrete, some, ◌≡◌, ◌≢◌, refl, arith, inl, inr, Bool-cases,
}
use game_ad_service.Common.Int.{ℤ}
use game_ad_service.Common.Dict.{lookup}
use game_ad_service.Errors.{queue_empty}
use game_ad_service.Ad.{Ad}
use game_ad_service.Storage.{
  Result-cases, ok, err, Action, Repository, CacheRepository, ◌>>=◌, throw, errors_is,
}
use game_ad_service.Memory.State.{MemoryRepository, new_memory_repository, with_status}
use game_ad_service.Memory.{memory_repository}
use game_ad_service.Queue.State.{DistributedPriorityQueue, Run, ads_queue, once, handle_run}
use game_ad_service.Queue.{dequeue, dequeue_fast, dequeue_slow, dequeue_first}
use game_ad_service.Queue.Store.{get_missing}
use game_ad_service.Queue.Dequeue.{find_by_priority_none}

module _ {M R : Type 0} where
  -- The calls of the process's own memory, and those of Redis, over both.
  abbrev pub own : {A : Type 0} → Action M A → Action (M × R) A
  own act (m, r) = let (x, m') = act m in (x, (m', r))

  abbrev pub shared : {A : Type 0} → Action R A → Action (M × R) A
  shared act (m, r) = let (x, r') = act r in (x, (m, r'))

  abbrev pub own_repository : Repository M → Repository (M × R)
  own_repository k = record {
    save = λ ad. own (k.save ad);
    get = λ id. own (k.get id);
    update = λ ad. own (k.update ad);
    find_by_status = λ st limit offset. own (k.find_by_status st limit offset);
    find_by_priority = λ st limit. own (k.find_by_priority st limit);
    count_by_status = λ st. own (k.count_by_status st);
    delete_older_than = λ now age. own (k.delete_older_than now age);
    assign_to_worker = λ ids worker. own (k.assign_to_worker ids worker);
    release_worker_assignments = λ worker. own (k.release_worker_assignments worker);
    atomic_status_update = λ now id v from to. own (k.atomic_status_update now id v from to);
    batch_update_status = λ now ids st. own (k.batch_update_status now ids st);
    acquire_lock = λ now id owner ttl. own (k.acquire_lock now id owner ttl);
    release_lock = λ id owner. own (k.release_lock id owner);
  }

  abbrev pub shared_cache : CacheRepository R → CacheRepository (M × R)
  shared_cache c = record {
    set = λ id ad ttl. shared (c.set id ad ttl);
    get = λ id. shared (c.get id);
    delete = λ id. shared (c.delete id);
    push_to_queue = λ queue id p. shared (c.push_to_queue queue id p);
    pop_from_queue = λ queue. shared (c.pop_from_queue queue);
    increment_counter = λ key. shared (c.increment_counter key);
    get_gauge = λ key. shared (c.get_gauge key);
    set_gauge = λ key n. shared (c.set_gauge key n);
  }

module _ {R : Type 0} (cache : CacheRepository R) (q : DistributedPriorityQueue) where
  abbrev pub worker_dequeue : ℕ → (ℕ → ℤ) → Run (MemoryRepository × R) Ad
  worker_dequeue n clock = dequeue (own_repository memory_repository) (shared_cache cache) n q clock

  slow_empty :
      (now : ℤ) (r : R)
      → dequeue_slow
          (own_repository memory_repository)
          (shared_cache cache)
          q
          now
          (new_memory_repository, r)
        ≡ (err queue_empty, (new_memory_repository, r))
  unfolding dequeue_slow dequeue_first ◌>>=◌ throw with_status new_memory_repository
  slow_empty now r = ground (arith, find_by_priority_none new_memory_repository refl)

  -- An id that was popped is not in the process's memory: it is dropped.
  fast_drops :
      (now : ℤ) (again : Run (MemoryRepository × R) Ad) (id : String) (r : R)
      → id ≢ ""
      → dequeue_fast
          (own_repository memory_repository)
          (shared_cache cache)
          q
          now
          again
          id
          (new_memory_repository, r)
        ≡ again (new_memory_repository, r)
  unfolding dequeue_fast handle_run errors_is new_memory_repository lookup
  fast_drops now again id r h =
      let missing = get_missing id new_memory_repository h refl in ground (arith, missing)

  -- As long as a worker process has stored no ad of its own, `Dequeue` never gives it one, whatever
  -- the cache that it shares with others has in its queue and whatever fuel there is: the ids that it
  -- pops from there are lost, and the ads stay where they are in the memory of the process that has
  -- accepted them.
  pub worker_dequeue_none :
      (n : ℕ) (clock : ℕ → ℤ) (r : R) (ad : Ad) (s : MemoryRepository × R)
      → worker_dequeue n clock (new_memory_repository, r) ≢ some (ok ad, s)
  unfolding dequeue handle_run once
  worker_dequeue_none zero clock r ad s e = ground (arith, e)
  worker_dequeue_none (suc n) clock r ad s e = elim (Bool-cases q.closed) [
    | inl c ↦ ground (arith, e, c)
    | inr o ↦
        let (x, r1) = cache.pop_from_queue ads_queue r in
        let slow = slow_empty (clock 0) r1 in
        elim (Result-cases (cache.pop_from_queue ads_queue r).0) [
          | inl (id, popped) ↦ elim (String-discrete id "") [
            | yes p ↦ ground (arith, e, o, popped, slow, p)
            | no h ↦
                let again : Run (MemoryRepository × R) Ad = λ t.
                  dequeue (own_repository memory_repository) (shared_cache cache) n q
                    (λ i. clock (suc i)) t in
                worker_dequeue_none n (λ i. clock (suc i)) r1 ad s
                  (ground (arith, e, o, popped, fast_drops (clock 0) again id r1 h))
          ]
          | inr (inl (x, failed)) ↦ ground (arith, e, o, failed, slow)
          | inr (inr panicked) ↦ ground (arith, e, o, panicked)
        ]
  ]
