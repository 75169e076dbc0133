-- ===== src/Queue/Blocked.antt =====
-- `Dequeue` over the in-memory repository while others hold the locks that it asks for.
use game_ad_service.Common.{
  ℕ, zero, suc, ◌<◌, String, none, some, ◌≡◌, ◌≢◌, refl, arith, false, inl, inr,
}
use game_ad_service.Common.Int.{ℤ, ◌≤ℤ◌}
use game_ad_service.Common.Dict.{lookup}
use game_ad_service.Ad.{Ad}
use game_ad_service.Storage.{ok, handle, ◌>>=◌, ◌>>◌, pure, throw, ignore, deferring}
use game_ad_service.Memory.State.{MemoryRepository, LockInfo}
use game_ad_service.Memory.Invariant.{IsValid}
use game_ad_service.Memory.Find.{IsNext, NoneQueued, pop_from_queue_lem}
use game_ad_service.Memory.{memory_repository, memory_cache, acquire_lock}
use game_ad_service.Queue.State.{
  DistributedPriorityQueue, ads_queue, once, handle_run, deferring_run,
}
use game_ad_service.Queue.Store.{get_stored}
use game_ad_service.Queue.Dequeue.{is_processable_queued}
use game_ad_service.Queue.{dequeue, dequeue_fast}

-- Another owner holds the lock of the ad at the first `n` readings of the clock.
pub record IsHeld (n : ℕ) (owner : String) (clock : ℕ → ℤ) (m : MemoryRepository) (a : Ad)
    : Type 0 where
  pub lock : LockInfo
  pub found : lookup a.ad_id m.locks ≡ some lock
  pub other : lock.owner_id ≢ owner
  pub lasts : (i : ℕ) → i < n → clock i ≤ℤ lock.expires_at

IsHeld-later :
    (n : ℕ) (owner : String) (clock : ℕ → ℤ) (m : MemoryRepository) (a : Ad)
    → IsHeld (suc n) owner clock m a
    → IsHeld n owner (λ i. clock (suc i)) m a
IsHeld-later n owner clock m a h = record {
  lock = h.lock;
  found = h.found;
  other = h.other;
  lasts = λ i k. h.lasts (suc i) (omega (arith, k));
}

acquire_held :
    (now : ℤ) (id owner : String) (ttl : ℤ) (l : LockInfo) (m : MemoryRepository)
    → lookup id m.locks ≡ some l
    → l.owner_id ≢ owner
    → now ≤ℤ l.expires_at
    → acquire_lock now id owner ttl m ≡ (ok false, m)
unfolding acquire_lock
acquire_held now id owner ttl l m e ho ht = ground arith

-- `Dequeue` waits for a lock by calling itself. On a valid repository where some ad is queued, and
-- every queued ad that no other comes before has an id and its lock is held by another owner until
-- after the first `n` readings of the clock, an open queue's `Dequeue` has not returned after `n`
-- calls of itself, even if further queued ads could be locked.
pub dequeue_blocked :
    (n : ℕ) (q : DistributedPriorityQueue) (clock : ℕ → ℤ) (m : MemoryRepository)
    → IsValid m
    → q.closed ≡ false
    → ¬ NoneQueued m
    → ((a : Ad) → IsNext m a → (a.ad_id ≢ "") × IsHeld n q.instance_id clock m a)
    → dequeue memory_repository memory_cache n q clock m ≡ none
unfolding dequeue dequeue_fast handle ◌>>=◌ ◌>>◌ pure throw ignore deferring once handle_run
    deferring_run
dequeue_blocked zero q clock m v hc waits held = refl
dequeue_blocked (suc n) q clock m v hc waits held = elim (pop_from_queue_lem ads_queue m v) [
  | inl (nothing, _) ↦ absurd (waits nothing)
  | inr (a, h, e) ↦
      let (hid, l) = held a h in
      let next : ℕ → ℤ = λ i. clock (suc i) in
      let later : (b : Ad) → IsNext m b → (b.ad_id ≢ "") × IsHeld n q.instance_id next m b =
        λ b k. ((held b k).0, IsHeld-later n q.instance_id clock m b (held b k).1) in
      ground (
        arith,
        e,
        get_stored a.ad_id a m hid h.stored,
        is_processable_queued q (clock 0) a m h.queued,
        acquire_held (clock 0) a.ad_id q.instance_id q.lock_ttl l.lock m l.found l.other
            (l.lasts 0 (omega arith)),
        dequeue_blocked n q next m v hc waits later,
      )
]
