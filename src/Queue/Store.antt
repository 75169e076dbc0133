-- ===== src/Queue/Store.antt =====
-- The calls of the in-memory repository that the queue makes, where they succeed.
use game_ad_service.Common.{String, String-discrete, none, some, ◌≡◌, ◌≢◌, refl, arith, true, ◌⊎◌}
use game_ad_service.Common.Int.{ℤ, incr, ◌+ℤ◌, ◌<ℤ◌, eqb_ℤ-refl}
use game_ad_service.Common.Dict.{lookup, insert, erase}
use game_ad_service.Errors.{ad_not_found, wrapped}
use game_ad_service.Ad.{Ad, AdStatus, status_processing, status_queued, status_completed}
use game_ad_service.Storage.{ok, err}
use game_ad_service.Memory.State.{MemoryRepository, LockInfo}
use game_ad_service.Memory.{
  get, update, update_existing, push_to_queue, atomic_status_update, status_update_existing,
  acquire_lock, release_lock, with_new_status,
}

pub get_stored :
    (id : String) (a : Ad) (m : MemoryRepository)
    → id ≢ ""
    → lookup id m.ads ≡ some a
    → get id m ≡ (ok a, m)
unfolding get
get_stored id a m hid e = ground arith

pub get_missing :
    (id : String) (m : MemoryRepository)
    → id ≢ ""
    → lookup id m.ads ≡ none
    → get id m ≡ (err (wrapped ad_not_found), m)
unfolding get
get_missing id m hid e = ground arith

pub update_current :
    (ad stored : Ad) (m : MemoryRepository)
    → ad.ad_id ≢ ""
    → lookup ad.ad_id m.ads ≡ some stored
    → stored.version ≡ ad.version
    → let ad' = record ad { version = incr ad.version } in
      update (some ad) m ≡ (ok ad', record m { ads = insert ad.ad_id ad' m.ads })
unfolding update update_existing
update_current ad stored m hid e v = ground (arith, eqb_ℤ-refl ad.version)

pub push_stored :
    (queue : String) (priority : ℤ) (id : String) (stored : Ad) (m : MemoryRepository)
    → id ≢ ""
    → lookup id m.ads ≡ some stored
    → push_to_queue queue id priority m ≡ (
      ok tt,
      record m { ads = insert id (record stored { effective_priority = priority }) m.ads },
    )
unfolding push_to_queue
push_stored queue priority id stored m hid e = ground arith

pub status_update_current :
    (now : ℤ) (id : String) (v : ℤ) (from to : AdStatus) (a : Ad) (m : MemoryRepository)
    → lookup id m.ads ≡ some a
    → a.version ≡ v
    → a.status ≡ from
    → atomic_status_update now id v from to m
      ≡ (ok tt, record m { ads = insert id (with_new_status now to a) m.ads })
unfolding atomic_status_update status_update_existing
status_update_current now id v from to a m e hv hs = ground (arith, eqb_ℤ-refl v)

-- Nobody else has a lock on the id that has not expired.
abbrev pub IsFree : ℤ → String → String → MemoryRepository → Type 0
IsFree now id owner m =
    (lookup id m.locks ≡ none)
    ⊎ ((l : LockInfo) × (lookup id m.locks ≡ some l)
        × ((l.expires_at <ℤ now) ⊎ (l.owner_id ≡ owner)))

abbrev pub with_lock : ℤ → String → String → ℤ → MemoryRepository → MemoryRepository
with_lock now id owner ttl m = record m {
  locks = insert id (record { owner_id = owner; expires_at = now +ℤ ttl }) m.locks;
}

pub acquire_free :
    (now : ℤ) (id owner : String) (ttl : ℤ) (m : MemoryRepository)
    → IsFree now id owner m
    → acquire_lock now id owner ttl m ≡ (ok true, with_lock now id owner ttl m)
unfolding acquire_lock
acquire_free now id owner ttl m h = ground arith

pub release_held :
    (id : String) (l : LockInfo) (m : MemoryRepository)
    → lookup id m.locks ≡ some l
    → release_lock id l.owner_id m ≡ (ok true, record m { locks = erase id m.locks })
unfolding release_lock
release_held id l m e = ground arith

pub with_new_status-processing :
    (now : ℤ) (a : Ad)
    → with_new_status now status_processing a
      ≡ record a { status = status_processing; version = incr a.version }
unfolding String-discrete
with_new_status-processing now a = refl

pub with_new_status-queued :
    (now : ℤ) (a : Ad)
    → with_new_status now status_queued a
      ≡ record a { status = status_queued; version = incr a.version }
unfolding String-discrete
with_new_status-queued now a = refl

pub with_new_status-completed :
    (now : ℤ) (a : Ad)
    → with_new_status now status_completed a
      ≡ record a { status = status_completed; version = incr a.version; completed_at = some now }
unfolding String-discrete
with_new_status-completed now a = refl
