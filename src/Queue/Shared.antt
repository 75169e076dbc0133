-- ===== src/Queue/Shared.antt =====
-- One in-memory repository behind many clients: between any two calls that one client makes of it,
-- and before the first, others may have made any calls. Each call holds the mutex of the repository,
-- so that calls do not overlap.
use game_ad_service.Common.{String, List, [], ◌∷◌, All}
use game_ad_service.Ad.{AdStatus}
use game_ad_service.Storage.{Action, Repository, CacheRepository}
use game_ad_service.Memory.State.{MemoryRepository}
use game_ad_service.Memory.Invariant.{Call, AllKeyed, run}
use game_ad_service.Memory.Statuses.{Spares}
use game_ad_service.Memory.{memory_repository, memory_cache}

-- The repository, what the others call before each of the calls to come, and what they called before
-- the calls that were made, with the repository that they found, the last first.
pub record World : Type 0 where
  pub memory : MemoryRepository
  pub others : List (List Call)
  pub past : List (MemoryRepository × List Call)

-- The others' calls do not put the ad with the id into the status, and each `Set` stores an ad under
-- its own id.
abbrev pub AllSpare : AdStatus → String → List (List Call) → Type 0
AllSpare st id [] = Unit
AllSpare st id (cs ∷ rest) = AllKeyed cs × All (Spares st id) cs × AllSpare st id rest

abbrev pub advance :
    MemoryRepository → List (List Call) → List (MemoryRepository × List Call) → World
advance m [] past = record { memory = m; others = []; past = past }
advance m (cs ∷ rest) past = record { memory = run cs m; others = rest; past = (m, cs) ∷ past }

module _ {A : Type 0} where
  -- The others make their calls, then the call is made.
  unfoldable pub interleaved : Action MemoryRepository A → Action World A
  interleaved act w =
      let w' = advance w.memory w.others w.past in
      let (r, m) = act w'.memory in (r, record w' { memory = m })

abbrev pub shared_repository : Repository World
shared_repository = record {
  save = λ ad. interleaved (memory_repository.save ad);
  get = λ id. interleaved (memory_repository.get id);
  update = λ ad. interleaved (memory_repository.update ad);
  find_by_status =
      λ st limit offset. interleaved (memory_repository.find_by_status st limit offset);
  find_by_priority = λ st limit. interleaved (memory_repository.find_by_priority st limit);
  count_by_status = λ st. interleaved (memory_repository.count_by_status st);
  delete_older_than = λ now days. interleaved (memory_repository.delete_older_than now days);
  assign_to_worker = λ ids worker. interleaved (memory_repository.assign_to_worker ids worker);
  release_worker_assignments =
      λ worker. interleaved (memory_repository.release_worker_assignments worker);
  atomic_status_update =
      λ now id v from to. interleaved (memory_repository.atomic_status_update now id v from to);
  batch_update_status =
      λ now ids to. interleaved (memory_repository.batch_update_status now ids to);
  acquire_lock = λ now id owner ttl. interleaved (memory_repository.acquire_lock now id owner ttl);
  release_lock = λ id owner. interleaved (memory_repository.release_lock id owner);
}

abbrev pub shared_cache : CacheRepository World
shared_cache = record {
  set = λ id ad ttl. interleaved (memory_cache.set id ad ttl);
  get = λ id. interleaved (memory_cache.get id);
  delete = λ id. interleaved (memory_cache.delete id);
  push_to_queue = λ queue id p. interleaved (memory_cache.push_to_queue queue id p);
  pop_from_queue = λ queue. interleaved (memory_cache.pop_from_queue queue);
  increment_counter = λ key. interleaved (memory_cache.increment_counter key);
  get_gauge = λ key. interleaved (memory_cache.get_gauge key);
  set_gauge = λ key value. interleaved (memory_cache.set_gauge key value);
}
