-- ===== src/Queue/Dequeue.antt =====
-- `Dequeue` over the in-memory repository, which is also the cache in the default configuration.
use game_ad_service.Common.{
  ℕ, suc, String, String-discrete, Option, none, some, List, [], ◌∷◌, ◌≡◌, ◌≢◌, refl, arith, ite,
  true, false, inl, inr, ◌⊎◌, All,
}
use game_ad_service.Common.Int.{ℤ, pos, incr, ◌+ℤ◌}
use game_ad_service.Common.Dict.{
  lookup, insert, erase, lookup-insert, lookup-insert_self, lookup-erase-insert, values,
}
use game_ad_service.Errors.{queue_empty, ad_not_found}
use game_ad_service.Ad.{
  Ad, status_queued, status_processing, is_processable, assign_worker, increment_attempts,
}
use game_ad_service.Storage.{
  Result, ok, err, slice, handle, ◌>>=◌, ◌>>◌, pure, throw, ignore, deferring,
}
use game_ad_service.Memory.State.{MemoryRepository, LockInfo, with_status}
use game_ad_service.Memory.Invariant.{IsValid}
use game_ad_service.Memory.Find.{IsNext, NoneQueued, pop_from_queue_lem}
use game_ad_service.Memory.{
  memory_repository, memory_cache, pop_from_queue, get_gauge, find_by_priority,
}
use game_ad_service.Common.Sort.{sort_slice}
use game_ad_service.Queue.State.{
  DistributedPriorityQueue, ads_queue, once, handle_run, deferring_run,
}
use game_ad_service.Queue.Store.{
  get_stored, update_current, status_update_current, IsFree, with_lock, acquire_free, release_held,
  with_new_status-processing,
}
use game_ad_service.Queue.{dequeue, dequeue_fast, claim_fast, dequeue_slow, dequeue_first}

-- The ad that a successful `Dequeue` returns and stores: it is processing, its worker is the
-- instance, one more attempt is counted, and its version has moved on by the two writes.
abbrev pub claimed_ad : DistributedPriorityQueue → Ad → Ad
claimed_ad q a = record a {
  status = status_processing;
  worker_id = q.instance_id;
  attempts = incr a.attempts;
  version = incr (incr a.version);
}

module _ (q : DistributedPriorityQueue) (now : ℤ) (a : Ad) (m : MemoryRepository) where
  abbrev processing : Ad
  processing = record a { status = status_processing; version = incr a.version }

  abbrev locked : MemoryRepository
  locked = with_lock now a.ad_id q.instance_id q.lock_ttl m

  abbrev marked : MemoryRepository
  marked = record locked { ads = insert a.ad_id processing m.ads }

  abbrev written : MemoryRepository
  written = record locked {
    ads = insert a.ad_id (claimed_ad q a) (insert a.ad_id processing m.ads);
  }

  abbrev released : MemoryRepository
  released = record written { locks = erase a.ad_id locked.locks }

  claim_fast_lem :
      (again : MemoryRepository → Option (Result Ad × MemoryRepository))
      → a.ad_id ≢ ""
      → lookup a.ad_id m.ads ≡ some a
      → a.status ≡ status_queued
      → claim_fast memory_repository memory_cache q now again a locked
        ≡ some (ok (claimed_ad q a), written)
  unfolding claim_fast assign_worker increment_attempts get_gauge handle ◌>>=◌ ◌>>◌ pure throw
      ignore deferring once handle_run deferring_run
  claim_fast_lem again hid e hs =
      let moved =
        status_update_current now a.ad_id a.version status_queued status_processing a locked e refl
          hs in
      let here = lookup-insert_self a.ad_id processing m.ads in
      ground (
        arith,
        moved,
        with_new_status-processing now a,
        get_stored a.ad_id processing marked hid here,
        update_current (record (claimed_ad q a) { version = incr a.version }) processing marked hid
            here refl,
      )

  pub is_processable_queued : a.status ≡ status_queued → is_processable a ≡ true
  unfolding is_processable
  is_processable_queued h = ground arith

  dequeue_fast_lem :
      (again : MemoryRepository → Option (Result Ad × MemoryRepository))
      → a.ad_id ≢ ""
      → lookup a.ad_id m.ads ≡ some a
      → a.status ≡ status_queued
      → IsFree now a.ad_id q.instance_id m
      → dequeue_fast memory_repository memory_cache q now again a.ad_id m
        ≡ some (ok (claimed_ad q a), released)
  unfolding dequeue_fast handle ◌>>=◌ ◌>>◌ pure throw ignore deferring once handle_run deferring_run
  dequeue_fast_lem again hid e hs free =
      let mine : LockInfo = record { owner_id = q.instance_id; expires_at = now +ℤ q.lock_ttl } in
      ground (
        arith,
        get_stored a.ad_id a m hid e,
        is_processable_queued hs,
        acquire_free now a.ad_id q.instance_id q.lock_ttl m free,
        claim_fast_lem again hid e hs,
        release_held a.ad_id mine written (lookup-insert_self a.ad_id mine m.locks),
      )

  dequeue_popped :
      (n : ℕ) (clock : ℕ → ℤ)
      → clock 0 ≡ now
      → q.closed ≡ false
      → a.ad_id ≢ ""
      → pop_from_queue ads_queue m ≡ (ok a.ad_id, m)
      → lookup a.ad_id m.ads ≡ some a
      → a.status ≡ status_queued
      → IsFree now a.ad_id q.instance_id m
      → dequeue memory_repository memory_cache (suc n) q clock m
        ≡ some (ok (claimed_ad q a), released)
  unfolding dequeue handle ◌>>=◌ ◌>>◌ pure throw ignore deferring once handle_run deferring_run
  dequeue_popped n clock h0 hc hid hp e hs free = ground (
    arith,
    h0,
    hc,
    hp,
    dequeue_fast_lem (λ t. dequeue memory_repository memory_cache n q (λ i. clock (suc i)) t) hid e
        hs free,
  )

  lookup-released :
      (j : String)
      → lookup j released.ads
        ≡ ite (String-discrete a.ad_id j) (some (claimed_ad q a)) (lookup j m.ads)
  lookup-released j = ground (
    arith,
    lookup-insert j a.ad_id (claimed_ad q a) (insert a.ad_id processing m.ads),
    lookup-insert j a.ad_id processing m.ads,
  )

  lookup-released_lock :
      (j : String)
      → lookup j released.locks ≡ ite (String-discrete a.ad_id j) none (lookup j m.locks)
  lookup-released_lock j = lookup-erase-insert j a.ad_id _ m.locks

with_status_none :
    (l : List Ad) → All (λ b. b.status ≢ status_queued) l → with_status status_queued l ≡ []
unfolding with_status
with_status_none [] h = refl
with_status_none (b ∷ l) h = ground (arith, with_status_none l h.1)

pub find_by_priority_none :
    (m : MemoryRepository)
    → with_status status_queued (values m.ads) ≡ []
    → find_by_priority status_queued (pos 1) m ≡ (ok [], m)
unfolding find_by_priority slice sort_slice
find_by_priority_none m e = rw (e, find_by_priority)

dequeue_slow_none :
    (q : DistributedPriorityQueue) (now : ℤ) (m : MemoryRepository)
    → NoneQueued m
    → dequeue_slow memory_repository memory_cache q now m ≡ (err queue_empty, m)
unfolding dequeue_slow dequeue_first handle ◌>>=◌ ◌>>◌ pure throw ignore deferring once handle_run
    deferring_run
dequeue_slow_none q now m h =
    ground (arith, find_by_priority_none m (with_status_none (values m.ads) h))

dequeue_nothing :
    (n : ℕ) (q : DistributedPriorityQueue) (clock : ℕ → ℤ) (m : MemoryRepository)
    → q.closed ≡ false
    → NoneQueued m
    → pop_from_queue ads_queue m ≡ (err ad_not_found, m)
    → dequeue memory_repository memory_cache (suc n) q clock m ≡ some (err queue_empty, m)
unfolding dequeue handle ◌>>=◌ ◌>>◌ pure throw ignore deferring once handle_run deferring_run
dequeue_nothing n q clock m hc h hp = ground (arith, hc, hp, dequeue_slow_none q (clock 0) m h)

-- What an open queue's `Dequeue` does on a valid repository where the queued ad that comes first
-- has an id and nobody else holds its lock: it ends in its first call. If no ad is queued it
-- reports an empty queue and changes nothing. Otherwise it returns the queued ad that comes first,
-- now processing, with the instance as its worker and one more attempt; that ad is stored, no
-- other ad is touched, the ad's lock is given back, and no other lock is touched.
pub dequeue-IsNext :
    (n : ℕ) (q : DistributedPriorityQueue) (clock : ℕ → ℤ) (m : MemoryRepository)
    → IsValid m
    → q.closed ≡ false
    → ((a : Ad) → IsNext m a → (a.ad_id ≢ "") × IsFree (clock 0) a.ad_id q.instance_id m)
    → (NoneQueued m
        × (dequeue memory_repository memory_cache (suc n) q clock m ≡ some (err queue_empty, m)))
      ⊎ ((a : Ad) × (m' : MemoryRepository) × IsNext m a
          × (dequeue memory_repository memory_cache (suc n) q clock m
              ≡ some (ok (claimed_ad q a), m'))
          × ((j : String)
              → lookup j m'.ads
                ≡ ite (String-discrete a.ad_id j) (some (claimed_ad q a)) (lookup j m.ads))
          × ((j : String)
              → lookup j m'.locks ≡ ite (String-discrete a.ad_id j) none (lookup j m.locks)))
dequeue-IsNext n q clock m v hc free = elim (pop_from_queue_lem ads_queue m v) [
  | inl (h, e) ↦ inl (h, dequeue_nothing n q clock m hc h e)
  | inr (a, h, e) ↦
      let (hid, hf) = free a h in
      inr (
        a,
        released q (clock 0) a m,
        h,
        dequeue_popped q (clock 0) a m n clock refl hc hid e h.stored h.queued hf,
        lookup-released q (clock 0) a m,
        lookup-released_lock q (clock 0) a m,
      )
]
