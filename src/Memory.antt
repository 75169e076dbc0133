-- ===== src/Memory.antt =====
-- internal/storage/memory/memory_store.go: the in-memory repository. Each method holds the mutex
-- from its first read to its last write, so a call is one step of the state.
pub mod State
pub mod Loops
pub mod Invariant
pub mod Statuses
pub mod Claims
pub mod Versions
pub mod Find
pub mod Listing
pub mod Locks
pub mod Upkeep
use game_ad_service.Common.{
  ℕ, String, String-discrete, Bool, true, false, Option, none, some, List, [], ◌∷◌, ite,
  if◌then◌else◌, length, leb,
}
use game_ad_service.Common.Dict.{Dict, lookup, insert, erase, values}
use game_ad_service.Common.Sort.{sort_slice}
use game_ad_service.Common.Int.{ℤ, pos, negsuc, ltb_ℤ, leb_ℤ, eqb_ℤ, incr, ◌+ℤ◌, ◌-ℤ◌, ◌*ℤ◌, add64}
use game_ad_service.Errors.{Error, ad_not_found, concurrent_modification, invalid_ad_data, wrapped}
use game_ad_service.Ad.{Ad, AdStatus, status_completed, status_queued}
use game_ad_service.Storage.{Result, ok, err, panic, Action, slice, Repository, CacheRepository}
use State.{
  LockInfo, MemoryRepository, with_status, newer, before_by_priority, before_in_queue, change_each,
  change_assigned, drop_older,
}

unfoldable pub save : Option Ad → Action MemoryRepository String
save none m = (err (wrapped invalid_ad_data), m)
save (some ad) m =
    ite (String-discrete ad.ad_id "") (err (wrapped invalid_ad_data), m)
      (ok ad.ad_id, record m { ads = insert ad.ad_id ad m.ads })

unfoldable pub get : String → Action MemoryRepository Ad
get id m =
    ite (String-discrete id "") (err (wrapped invalid_ad_data), m)
      (elim (lookup id m.ads) [ none ↦ (err (wrapped ad_not_found), m) | some a ↦ (ok a, m) ])

-- The version check of `Update` against the stored ad, and the write.
unfoldable pub update_existing : Ad → Ad → Action MemoryRepository Ad
update_existing existing ad m =
    let ad' = record ad { version = incr ad.version } in
    if eqb_ℤ existing.version ad.version
    then (ok ad', record m { ads = insert ad.ad_id ad' m.ads })
    else (err (wrapped concurrent_modification), m)

unfoldable pub update : Option Ad → Action MemoryRepository Ad
unfolding update_existing
update none m = (err (wrapped invalid_ad_data), m)
update (some ad) m =
    ite (String-discrete ad.ad_id "") (err (wrapped invalid_ad_data), m)
      (elim (lookup ad.ad_id m.ads) [
        | none ↦ (err (wrapped ad_not_found), m)
        | some existing ↦ update_existing existing ad m
      ])

-- The page of a sorted result: what `FindByStatus` cuts out.
unfoldable pub page : List Ad → ℤ → ℤ → Result (List Ad)
page found limit offset =
    let size = pos (length found) in
    let end = add64 offset limit in
    if leb_ℤ size offset then ok [] else slice found offset (if ltb_ℤ size end then size else end)

unfoldable pub find_by_status : AdStatus → ℤ → ℤ → Action MemoryRepository (List Ad)
unfolding page
find_by_status st limit offset m =
    (page (sort_slice newer (with_status st (values m.ads))) limit offset, m)

unfoldable pub find_by_priority : AdStatus → ℤ → Action MemoryRepository (List Ad)
find_by_priority st limit m =
    let found = sort_slice before_by_priority (with_status st (values m.ads)) in
    let size = pos (length found) in
    (slice found (pos 0) (if ltb_ℤ size limit then size else limit), m)

unfoldable pub count_by_status : AdStatus → Action MemoryRepository ℤ
count_by_status st m = (ok (pos (length (with_status st (values m.ads)))), m)

-- `AddDate` by whole days, in a time zone that does not change its clock.
abbrev pub day : ℤ
day = pos 86_400_000_000_000

unfoldable pub delete_older_than : ℤ → ℤ → Action MemoryRepository ℤ
delete_older_than now days m =
    let (n, kept) = drop_older (now -ℤ days *ℤ day) m.ads in (ok (pos n), record m { ads = kept })

abbrev pub assign : String → Ad → Ad
assign worker a = record a { worker_id = worker; version = incr a.version }

unfoldable pub assign_to_worker : List String → String → Action MemoryRepository ℤ
assign_to_worker ids worker m =
    let (n, ads) = change_each (assign worker) ids m.ads in (ok (pos n), record m { ads = ads })

unfoldable pub release_worker_assignments : String → Action MemoryRepository ℤ
release_worker_assignments worker m =
    let (n, ads) = change_assigned worker (assign "") m.ads in (ok (pos n), record m { ads = ads })

-- The writes of a status update; reaching the completed status sets its time.
abbrev pub with_new_status : ℤ → AdStatus → Ad → Ad
with_new_status now to a = record a {
  status = to;
  version = incr a.version;
  completed_at = ite (String-discrete to status_completed) (some now) a.completed_at;
}

-- The two checks of `AtomicStatusUpdate` against the stored ad, and the write.
unfoldable pub status_update_existing :
    ℤ → String → ℤ → AdStatus → AdStatus → Ad → Action MemoryRepository (Unit {0})
status_update_existing now id current_version from to a m =
    if eqb_ℤ a.version current_version
    then (ite (String-discrete a.status from)
        (ok tt, record m { ads = insert id (with_new_status now to a) m.ads })
        (err concurrent_modification, m))
    else (err concurrent_modification, m)

unfoldable pub atomic_status_update :
    ℤ → String → ℤ → AdStatus → AdStatus → Action MemoryRepository (Unit {0})
unfolding status_update_existing
atomic_status_update now id current_version from to m = elim (lookup id m.ads) [
  | none ↦ (err ad_not_found, m)
  | some a ↦ status_update_existing now id current_version from to a m
]

unfoldable pub batch_update_status : ℤ → List String → AdStatus → Action MemoryRepository ℤ
batch_update_status now ids to m =
    let (n, ads) = change_each (with_new_status now to) ids m.ads in
    (ok (pos n), record m { ads = ads })

unfoldable pub acquire_lock : ℤ → String → String → ℤ → Action MemoryRepository Bool
acquire_lock now id owner ttl m =
    let taken = record m {
      locks = insert id (record { owner_id = owner; expires_at = now +ℤ ttl }) m.locks;
    } in
    elim (lookup id m.locks) [
      | none ↦ (ok true, taken)
      | some lock ↦
          if ltb_ℤ lock.expires_at now
          then (ok true, taken)
          else ite (String-discrete owner lock.owner_id) (ok true, taken) (ok false, m)
    ]

unfoldable pub release_lock : String → String → Action MemoryRepository Bool
release_lock id owner m = elim (lookup id m.locks) [
  | none ↦ (ok true, m)
  | some lock ↦
      ite (String-discrete lock.owner_id owner) (ok true, record m { locks = erase id m.locks })
        (ok false, m)
]

unfoldable pub delete : String → Action MemoryRepository (Unit {0})
delete id m =
    ite (String-discrete id "") (err (wrapped invalid_ad_data), m)
      (elim (lookup id m.ads) [
        | none ↦ (err (wrapped ad_not_found), m)
        | some _ ↦ (ok tt, record m { ads = erase id m.ads })
      ])

-- The queue's name is not read: the queued ads of the map are the one queue.
unfoldable pub push_to_queue : String → String → ℤ → Action MemoryRepository (Unit {0})
push_to_queue queue id priority m =
    ite (String-discrete id "") (err (wrapped invalid_ad_data), m)
      (elim (lookup id m.ads) [
        | none ↦ (err (wrapped ad_not_found), m)
        | some a ↦
            (ok tt, record m { ads = insert id (record a { effective_priority = priority }) m.ads })
      ])

abbrev pub first_id : List Ad → Result String
first_id [] = err ad_not_found
first_id (a ∷ _) = ok a.ad_id

unfoldable pub pop_from_queue : String → Action MemoryRepository String
pop_from_queue queue m =
    (first_id (sort_slice before_in_queue (with_status status_queued (values m.ads))), m)

unfoldable pub increment_counter : String → Action MemoryRepository ℤ
increment_counter key m = (ok (pos 1), m)

unfoldable pub get_gauge : String → Action MemoryRepository ℤ
get_gauge key m = (ok (pos 0), m)

unfoldable pub set_gauge : String → ℤ → Action MemoryRepository (Unit {0})
set_gauge key value m = (ok tt, m)

unfoldable pub set : String → Option Ad → ℤ → Action MemoryRepository (Unit {0})
set id none ttl m = (err (wrapped invalid_ad_data), m)
set id (some ad) ttl m =
    ite (String-discrete id "") (err (wrapped invalid_ad_data), m)
      (ok tt, record m { ads = insert id ad m.ads })

-- The repository behind the two interfaces.
abbrev pub memory_repository : Repository MemoryRepository
memory_repository = record {
  save = save;
  get = get;
  update = update;
  find_by_status = find_by_status;
  find_by_priority = find_by_priority;
  count_by_status = count_by_status;
  delete_older_than = delete_older_than;
  assign_to_worker = assign_to_worker;
  release_worker_assignments = release_worker_assignments;
  atomic_status_update = atomic_status_update;
  batch_update_status = batch_update_status;
  acquire_lock = acquire_lock;
  release_lock = release_lock;
}

abbrev pub memory_cache : CacheRepository MemoryRepository
memory_cache = record {
  set = set;
  get = get;
  delete = delete;
  push_to_queue = push_to_queue;
  pop_from_queue = pop_from_queue;
  increment_counter = increment_counter;
  get_gauge = get_gauge;
  set_gauge = set_gauge;
}
