-- ===== src/Queue/Enqueue.antt =====
-- `Enqueue` over the in-memory repository, which is also the cache in the default configuration.
use game_ad_service.Common.{
  String, String-discrete, some, ◌≡◌, ◌≢◌, refl, arith, ite, true, false, inl, inr, length, ◌⊎◌,
  if◌then◌else◌,
}
use game_ad_service.Common.Int.{ℤ, pos, incr, ◌≤ℤ◌, ◌<ℤ◌}
use game_ad_service.Common.Dict.{lookup, insert, lookup-insert, lookup-insert_self, values}
use game_ad_service.Errors.{queue_full, queue_closed}
use game_ad_service.Ad.{Ad, status_queued, set_status}
use game_ad_service.Storage.{ok, err, handle, ◌>>=◌, ◌>>◌, pure, throw, ignore}
use game_ad_service.Memory.State.{MemoryRepository, with_status}
use game_ad_service.Memory.{memory_repository, memory_cache, count_by_status, increment_counter}
use game_ad_service.Queue.State.{DistributedPriorityQueue}
use game_ad_service.Queue.Store.{update_current, push_stored}
use game_ad_service.Queue.{enqueue, check_capacity, enqueue_ad}

-- What `Enqueue` makes of a stored ad.
abbrev pub queued_ad : ℤ → Ad → Ad
queued_ad now ad = record ad {
  status = status_queued;
  queued_at = some now;
  effective_priority = ad.priority;
  version = incr ad.version;
}

-- The queue is open and, if it has a capacity, fewer ads than that are queued.
pub record HasRoom (q : DistributedPriorityQueue) (m : MemoryRepository) : Type 0 where
  pub is_open : q.closed ≡ false
  pub below :
      pos 0 <ℤ q.max_capacity
      → pos (length (with_status status_queued (values m.ads))) <ℤ q.max_capacity

set_status-queued :
    (now : ℤ) (a : Ad)
    → set_status now status_queued a
      ≡ record a { status = status_queued; queued_at = some now; effective_priority = a.priority }
unfolding set_status String-discrete
set_status-queued now a = refl

check_capacity_below :
    (q : DistributedPriorityQueue) (m : MemoryRepository)
    → HasRoom q m
    → check_capacity memory_repository memory_cache q m ≡ (ok tt, m)
unfolding check_capacity count_by_status handle ◌>>=◌ ◌>>◌ pure throw ignore
check_capacity_below q m h = ground arith

-- The map after the update and the push.
abbrev after_enqueue : ℤ → Ad → MemoryRepository → MemoryRepository
after_enqueue now ad m = record m {
  ads = insert ad.ad_id (queued_ad now ad) (insert ad.ad_id (queued_ad now ad) m.ads);
}

enqueue_ad_lem :
    (now : ℤ) (ad stored : Ad) (m : MemoryRepository)
    → ad.ad_id ≢ ""
    → lookup ad.ad_id m.ads ≡ some stored
    → stored.version ≡ ad.version
    → enqueue_ad memory_repository memory_cache now ad m
      ≡ (ok tt, queued_ad now ad, after_enqueue now ad m)
unfolding enqueue_ad increment_counter handle ◌>>=◌ ◌>>◌ pure throw ignore
enqueue_ad_lem now ad stored m hid e v =
    let queued = record ad {
      status = status_queued;
      queued_at = some now;
      effective_priority = ad.priority;
    } in
    let m1 = record m { ads = insert ad.ad_id (queued_ad now ad) m.ads } in
    ground (
      arith,
      set_status-queued now ad,
      update_current queued stored m hid e v,
      push_stored "ads:queue" ad.priority ad.ad_id (queued_ad now ad) m1 hid
          (lookup-insert_self ad.ad_id (queued_ad now ad) m.ads),
    )

-- On an open queue with room, an ad with an id that is stored with the version that the caller has
-- is queued: it is stored with the queued status, the time, its own priority as the effective one
-- and the next version, the caller's ad is the stored one, and no other ad and no lock is touched.
pub enqueue_success :
    (q : DistributedPriorityQueue) (now : ℤ) (ad stored : Ad) (m : MemoryRepository)
    → HasRoom q m
    → ad.ad_id ≢ ""
    → lookup ad.ad_id m.ads ≡ some stored
    → stored.version ≡ ad.version
    → let (r, ad', m') = enqueue memory_repository memory_cache q now ad m in
      (r ≡ ok tt)
      × (ad' ≡ queued_ad now ad)
      × ((j : String)
          → lookup j m'.ads
            ≡ ite (String-discrete ad.ad_id j) (some (queued_ad now ad)) (lookup j m.ads))
      × (m'.locks ≡ m.locks)
unfolding enqueue
enqueue_success q now ad stored m h hid e v =
    let run : enqueue memory_repository memory_cache q now ad m
        ≡ (ok tt, queued_ad now ad, after_enqueue now ad m) =
      ground
        (arith, h.is_open, check_capacity_below q m h, enqueue_ad_lem now ad stored m hid e v) in
    let queued = queued_ad now ad in
    rw run (
      refl,
      refl,
      (λ j. ground (
        arith,
        lookup-insert j ad.ad_id queued (insert ad.ad_id queued m.ads),
        lookup-insert j ad.ad_id queued m.ads,
      )),
      refl,
    )

-- A closed queue refuses every ad, and an open one with a capacity refuses it when that many ads
-- are queued; the error tells which, and the ad and the repository stay as they were.
pub enqueue_refused :
    (q : DistributedPriorityQueue) (now : ℤ) (ad : Ad) (m : MemoryRepository)
    → (q.closed ≡ true)
      ⊎ ((pos 0 <ℤ q.max_capacity)
          × (q.max_capacity ≤ℤ pos (length (with_status status_queued (values m.ads)))))
    → enqueue memory_repository memory_cache q now ad m
      ≡ (err (if q.closed then queue_closed else queue_full), ad, m)
unfolding enqueue check_capacity count_by_status handle ◌>>=◌ ◌>>◌ pure throw ignore
enqueue_refused q now ad m (inl c) = rw (c, enqueue) refl
enqueue_refused q now ad m (inr (lo, hi)) = ground arith
