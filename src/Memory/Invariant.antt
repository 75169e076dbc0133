-- ===== src/Memory/Invariant.antt =====
-- What holds of the in-memory repository between two calls.
use game_ad_service.Common.{
  String, Option, none, some, List, [], ◌∷◌, ◌≡◌, refl, arith, inl, inr, Option-cases,
}
use game_ad_service.Common.Int.{ℤ, incr, ◌+ℤ◌, ◌-ℤ◌, ◌*ℤ◌}
use game_ad_service.Common.Dict.{
  IsUnique, Entries, lookup, insert, insert-IsUnique, insert-Entries, erase-IsUnique, erase-Entries,
  lookup-Entries,
}
use game_ad_service.Ad.{Ad, AdStatus}
use game_ad_service.Memory.State.{MemoryRepository, LockInfo, new_memory_repository}
use game_ad_service.Memory.Loops.{
  OwnId, change_each-IsUnique, change_each-OwnId, change_assigned-IsUnique, change_assigned-OwnId,
  drop_older-IsUnique, drop_older-Entries,
}
use game_ad_service.Memory.{
  save, update, delete_older_than, assign_to_worker, release_worker_assignments,
  atomic_status_update, status_update_existing, batch_update_status, acquire_lock, release_lock,
  delete, push_to_queue, set, assign, with_new_status, day,
}

-- No id and no lock stands twice in its map, and every ad stands under its own id.
pub record IsValid (m : MemoryRepository) : Type 0 where
  pub unique_ads : IsUnique m.ads
  pub unique_locks : IsUnique m.locks
  pub own_ids : Entries OwnId m.ads

-- The calls that may write. `PopFromQueue` is none of them.
pub data Call : Type 0 where
  saves updates : Option Ad → Call
  deletes : String → Call
  deletes_older : (now days : ℤ) → Call
  assigns : List String → String → Call
  releases_worker : String → Call
  changes_status : (now : ℤ) → String → ℤ → (from to : AdStatus) → Call
  changes_statuses : (now : ℤ) → List String → AdStatus → Call
  locks : (now : ℤ) → (id owner : String) → ℤ → Call
  unlocks : (id owner : String) → Call
  pushes : (queue id : String) → ℤ → Call
  sets : String → Option Ad → ℤ → Call

unfoldable pub step : Call → MemoryRepository → MemoryRepository
step (saves ad) m = (save ad m).1
step (updates ad) m = (update ad m).1
step (deletes id) m = (delete id m).1
step (deletes_older now days) m = (delete_older_than now days m).1
step (assigns ids worker) m = (assign_to_worker ids worker m).1
step (releases_worker worker) m = (release_worker_assignments worker m).1
step (changes_status now id v from to) m = (atomic_status_update now id v from to m).1
step (changes_statuses now ids to) m = (batch_update_status now ids to m).1
step (locks now id owner ttl) m = (acquire_lock now id owner ttl m).1
step (unlocks id owner) m = (release_lock id owner m).1
step (pushes queue id priority) m = (push_to_queue queue id priority m).1
step (sets id ad ttl) m = (set id ad ttl m).1

-- `Set` is the one call that takes an id beside the ad.
abbrev pub IsKeyed : Call → Type 0
IsKeyed (sets id (some ad) ttl) = ad.ad_id ≡ id
IsKeyed _ = Unit

unfoldable pub run : List Call → MemoryRepository → MemoryRepository
run [] m = m
run (c ∷ cs) m = run cs (step c m)

module _ (m : MemoryRepository) (v : IsValid m) where
  insert-IsValid :
      (id : String) (a : Ad) → a.ad_id ≡ id → IsValid (record m { ads = insert id a m.ads })
  insert-IsValid id a e = record {
    unique_ads = insert-IsUnique id a m.ads v.unique_ads;
    unique_locks = v.unique_locks;
    own_ids = insert-Entries OwnId id a m.ads e v.own_ids;
  }

  lock-IsValid : (id : String) (l : LockInfo) → IsValid (record m { locks = insert id l m.locks })
  lock-IsValid id l = record {
    unique_ads = v.unique_ads;
    unique_locks = insert-IsUnique id l m.locks v.unique_locks;
    own_ids = v.own_ids;
  }

  stored_id : (id : String) (a : Ad) → lookup id m.ads ≡ some a → a.ad_id ≡ id
  stored_id id a e = lookup-Entries OwnId id m.ads a v.own_ids e

  pub save-IsValid : (ad : Option Ad) → IsValid (save ad m).1
  unfolding save
  save-IsValid none = v
  save-IsValid (some ad) = ground (arith, insert-IsValid ad.ad_id ad refl)

  pub update-IsValid : (ad : Option Ad) → IsValid (update ad m).1
  unfolding update
  update-IsValid none = v
  update-IsValid (some ad) =
      ground (arith, insert-IsValid ad.ad_id (record ad { version = incr ad.version }) refl)

  pub status-IsValid :
      (now : ℤ) (id : String) (n : ℤ) (from to : AdStatus)
      → IsValid (atomic_status_update now id n from to m).1
  unfolding atomic_status_update status_update_existing
  status-IsValid now id n from to = elim (Option-cases (lookup id m.ads)) [
    | inl e ↦ rw (e, atomic_status_update) v
    | inr (a, e) ↦
        rw (e, atomic_status_update)
          (ground (arith, insert-IsValid id (with_new_status now to a) (stored_id id a e)))
  ]

  pub push-IsValid : (queue id : String) (p : ℤ) → IsValid (push_to_queue queue id p m).1
  unfolding push_to_queue
  push-IsValid queue id p = elim (Option-cases (lookup id m.ads)) [
    | inl e ↦ rw (e, push_to_queue) (ground arith)
    | inr (a, e) ↦
        rw (e, push_to_queue)
          (ground
            (arith, insert-IsValid id (record a { effective_priority = p }) (stored_id id a e)))
  ]

  pub acquire_lock-IsValid :
      (now : ℤ) (id owner : String) (ttl : ℤ) → IsValid (acquire_lock now id owner ttl m).1
  unfolding acquire_lock
  acquire_lock-IsValid now id owner ttl =
      ground (arith, lock-IsValid id (record { owner_id = owner; expires_at = now +ℤ ttl }))

  pub release_lock-IsValid : (id owner : String) → IsValid (release_lock id owner m).1
  unfolding release_lock
  release_lock-IsValid id owner = ground (arith, erase-IsUnique id m.locks v.unique_locks)

  delete-IsValid : (id : String) → IsValid (delete id m).1
  unfolding delete
  delete-IsValid id =
      ground (arith, erase-IsUnique id m.ads v.unique_ads, erase-Entries OwnId id m.ads v.own_ids)

  set-IsValid :
      (id : String) (ad : Option Ad) (ttl : ℤ)
      → IsKeyed (sets id ad ttl)
      → IsValid (set id ad ttl m).1
  unfolding set
  set-IsValid id none ttl k = v
  set-IsValid id (some ad) ttl k = ground (arith, insert-IsValid id ad k)

-- Every call keeps the repository valid.
pub step-IsValid : (c : Call) (m : MemoryRepository) → IsKeyed c → IsValid m → IsValid (step c m)
unfolding step delete_older_than assign_to_worker release_worker_assignments batch_update_status
step-IsValid (saves ad) m k v = save-IsValid m v ad
step-IsValid (updates ad) m k v = update-IsValid m v ad
step-IsValid (deletes id) m k v = delete-IsValid m v id
step-IsValid (deletes_older now days) m k v = record {
  unique_ads = drop_older-IsUnique (now -ℤ days *ℤ day) m.ads v.unique_ads;
  unique_locks = v.unique_locks;
  own_ids = drop_older-Entries OwnId (now -ℤ days *ℤ day) m.ads v.own_ids;
}
step-IsValid (assigns ids worker) m k v = record {
  unique_ads = change_each-IsUnique (assign worker) ids m.ads v.unique_ads;
  unique_locks = v.unique_locks;
  own_ids = change_each-OwnId (assign worker) ids m.ads (λ a. refl) v.own_ids;
}
step-IsValid (releases_worker worker) m k v = record {
  unique_ads = change_assigned-IsUnique worker (assign "") m.ads v.unique_ads;
  unique_locks = v.unique_locks;
  own_ids = change_assigned-OwnId worker (assign "") m.ads (λ a. refl) v.own_ids;
}
step-IsValid (changes_status now id n from to) m k v = status-IsValid m v now id n from to
step-IsValid (changes_statuses now ids to) m k v = record {
  unique_ads = change_each-IsUnique (with_new_status now to) ids m.ads v.unique_ads;
  unique_locks = v.unique_locks;
  own_ids = change_each-OwnId (with_new_status now to) ids m.ads (λ a. refl) v.own_ids;
}
step-IsValid (locks now id owner ttl) m k v = acquire_lock-IsValid m v now id owner ttl
step-IsValid (unlocks id owner) m k v = release_lock-IsValid m v id owner
step-IsValid (pushes queue id p) m k v = push-IsValid m v queue id p
step-IsValid (sets id ad ttl) m k v = set-IsValid m v id ad ttl k

abbrev pub AllKeyed : List Call → Type 0
AllKeyed [] = Unit
AllKeyed (c ∷ cs) = IsKeyed c × AllKeyed cs

pub run-IsValid :
    (cs : List Call) (m : MemoryRepository) → AllKeyed cs → IsValid m → IsValid (run cs m)
unfolding run
run-IsValid [] m k v = v
run-IsValid (c ∷ cs) m k v = run-IsValid cs (step c m) k.1 (step-IsValid c m k.0 v)

-- After any calls on a new repository, of which each `Set` stores an ad under its own id, no key
-- stands twice in its two maps and every ad stands under its own id.
run-new_memory_repository-IsValid :
    (cs : List Call) → AllKeyed cs → IsValid (run cs new_memory_repository)
unfolding new_memory_repository
run-new_memory_repository-IsValid cs k =
    run-IsValid cs _ k (record { unique_ads = tt; unique_locks = tt; own_ids = tt })
