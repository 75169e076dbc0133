-- ===== src/Memory/Locks.antt =====
-- The locks of the in-memory repository.
use game_ad_service.Common.{String, some, List, [], ◌∷◌, ◌≡◌, ◌≢◌, arith, true, false}
use game_ad_service.Common.Int.{ℤ, ◌+ℤ◌, ◌≤ℤ◌, ltb_ℤ}
use game_ad_service.Common.Dict.{lookup, insert, lookup-insert, lookup-insert_self, lookup-erase}
use game_ad_service.Storage.{ok}
use game_ad_service.Memory.State.{MemoryRepository, LockInfo}
use game_ad_service.Memory.{acquire_lock, release_lock}

-- The lock on `id` is the given owner's until the given time.
abbrev pub Holds : String → String → ℤ → MemoryRepository → Type 0
Holds id owner expires m =
    lookup id m.locks ≡ some (record { owner_id = owner; expires_at = expires })

-- Calls on locks.
pub data LockCall : Type 0 where
  acquires : (now : ℤ) → (id owner : String) → ℤ → LockCall
  releases : (id owner : String) → LockCall

pub lock_step : LockCall → MemoryRepository → MemoryRepository
lock_step (acquires now id owner ttl) m = (acquire_lock now id owner ttl m).1
lock_step (releases id owner) m = (release_lock id owner m).1

pub lock_run : List LockCall → MemoryRepository → MemoryRepository
lock_run [] m = m
lock_run (c ∷ cs) m = lock_run cs (lock_step c m)

-- The call is not by `owner`, and is made while a lock that expires at `expires` stands.
abbrev pub ByOther : String → ℤ → LockCall → Type 0
ByOther owner expires (acquires now _ other _) = (other ≢ owner) × (now ≤ℤ expires)
ByOther owner expires (releases _ other) = other ≢ owner

abbrev pub AllByOthers : String → ℤ → List LockCall → Type 0
AllByOthers owner expires [] = Unit
AllByOthers owner expires (c ∷ cs) = ByOther owner expires c × AllByOthers owner expires cs

lock_step-Holds :
    (id owner : String) (expires : ℤ) (c : LockCall) (m : MemoryRepository)
    → ByOther owner expires c
    → Holds id owner expires m
    → Holds id owner expires (lock_step c m)
unfolding lock_step acquire_lock release_lock
lock_step-Holds id owner expires (acquires now j other ttl) m h l =
    ground
      (arith, lookup-insert id j (record { owner_id = other; expires_at = now +ℤ ttl }) m.locks)
lock_step-Holds id owner expires (releases j other) m h l =
    ground (arith, lookup-erase id j m.locks)

lock_run-Holds :
    (id owner : String) (expires : ℤ) (cs : List LockCall) (m : MemoryRepository)
    → AllByOthers owner expires cs
    → Holds id owner expires m
    → Holds id owner expires (lock_run cs m)
unfolding lock_run
lock_run-Holds id owner expires [] m h l = l
lock_run-Holds id owner expires (c ∷ cs) m h l =
    lock_run-Holds id owner expires cs (lock_step c m) h.1
      (lock_step-Holds id owner expires c m h.0 l)

-- Once an owner has the lock on an ad, whatever locks others ask for or give back before it
-- expires, on any ads, every other owner is refused that lock up to the time of expiry, and a
-- refusal changes nothing.
pub acquire_lock-exclusive :
    (now ttl : ℤ) (id owner : String) (m : MemoryRepository) (cs : List LockCall) (later ttl' : ℤ)
    (other : String)
    → (acquire_lock now id owner ttl m).0 ≡ ok true
    → AllByOthers owner (now +ℤ ttl) cs
    → later ≤ℤ now +ℤ ttl
    → other ≢ owner
    → let m' = lock_run cs (acquire_lock now id owner ttl m).1 in
      acquire_lock later id other ttl' m' ≡ (ok false, m')
unfolding acquire_lock
acquire_lock-exclusive now ttl id owner m cs later ttl' other h hs hl ho =
    let mine : LockInfo = record { owner_id = owner; expires_at = now +ℤ ttl } in
    let held : Holds id owner (now +ℤ ttl) (acquire_lock now id owner ttl m).1 =
      ground (arith, lookup-insert_self id mine m.locks) in
    ground
      (arith, lock_run-Holds id owner (now +ℤ ttl) cs (acquire_lock now id owner ttl m).1 hs held)

-- Once an owner has got a lock, it can extend it at any time, another owner gets it just if it has
-- expired, and also as soon as the first has released it.
acquire_lock-free :
    (now ttl : ℤ) (id owner : String) (m : MemoryRepository) (other : String) (later ttl' : ℤ)
    → (acquire_lock now id owner ttl m).0 ≡ ok true
    → other ≢ owner
    → let m' = (acquire_lock now id owner ttl m).1 in
      ((acquire_lock later id owner ttl' m').0 ≡ ok true)
      × ((acquire_lock later id other ttl' m').0 ≡ ok (ltb_ℤ (now +ℤ ttl) later))
      × ((acquire_lock later id other ttl' (release_lock id owner m').1).0 ≡ ok true)
unfolding acquire_lock release_lock
acquire_lock-free now ttl id owner m other later ttl' h ho =
    let mine : LockInfo = record { owner_id = owner; expires_at = now +ℤ ttl } in
    let taken = insert id mine m.locks in
    let held = lookup-insert_self id mine m.locks in
    let freed = lookup-erase id id taken in
    (ground (arith, held), ground (arith, held), ground (arith, held, freed))
