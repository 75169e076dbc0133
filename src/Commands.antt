-- ===== src/Commands.antt =====
-- cmd/server.go and cmd/worker.go: what the two processes build from the configuration. Either has a
-- memory of its own; Redis, if there is one, is what they share. `cpus` is `runtime.NumCPU()`, the
-- instance's id and the ids of the workers are arguments, and a fatal log entry is an error.
pub mod Pools
pub mod Workers
pub mod Shutdown
use game_ad_service.Common.{
  ℕ, String, String-discrete, Bool, true, false, Option, none, some, List, [], ◌∷◌, ite,
  if◌then◌else◌, ◌||◌, ◌&&◌,
}
use game_ad_service.Common.Int.{ℤ, pos, ltb_ℤ, ◌*ℤ◌}
use game_ad_service.Analyzer.{AnalyzerOptions}
use game_ad_service.Errors.{Error, wrapped}
use game_ad_service.Storage.{
  Result, ok, err, panic, Action, pure, ◌>>=◌, ◌>>◌, Repository, CacheRepository,
}
use game_ad_service.Memory.State.{MemoryRepository, new_memory_repository}
use game_ad_service.Memory.{memory_repository, memory_cache}
use game_ad_service.Queue.State.{
  QueueOptions, default_queue_options, DistributedPriorityQueue, new_distributed_priority_queue,
}
use game_ad_service.Pool.{
  WorkerPool, WorkerPoolOptions, default_worker_pool_options, new_worker_pool, start_pool,
}
use game_ad_service.Redis.{
  RedisClient, Codec, RedisOptions, RedisRepository, new_redis_repository, redis_cache,
}
use game_ad_service.Config.{Config, validate}
use game_ad_service.Config.Load.{Viper, load_config}

-- A duration that the configuration gives in seconds.
abbrev pub seconds : ℤ → ℤ
seconds n = n *ℤ pos 1_000_000_000

abbrev pub is_redis : String → Bool
is_redis s = ite (String-discrete s "redis") true false

unfoldable pub redis_options : Config → RedisOptions
redis_options c = record {
  address = c.storage.redis.address;
  password = c.storage.redis.password;
  db = c.storage.redis.db;
  default_ttl = seconds c.storage.cache_ttl;
}

-- Ageing is on by default, and the server sets it once more.
unfoldable pub queue_options : Config → QueueOptions
unfolding default_queue_options
queue_options c = record default_queue_options {
  max_capacity = c.processor.queue_capacity;
  processing_timeout = c.processor.processing_timeout;
  max_attempts = c.processor.max_attempts;
  lock_ttl = seconds c.processor.lock_ttl;
  enable_aging = true;
}

-- The scores are the `float64` values 1 and 10.
unfoldable pub analyzer_options : AnalyzerOptions
analyzer_options = record {
  min_score = record { bits = 0x3ff0000000000000 };
  max_score = record { bits = 0x4024000000000000 };
  analysis_delay = pos 0;
}

unfoldable pub configured_pool_options : Config → WorkerPoolOptions
configured_pool_options c = record {
  worker_options = record {
    max_concurrent = c.processor.worker.max_concurrent_jobs;
    process_time_avg = pos 2_000_000_000;
  };
  min_workers = c.processor.worker.min_workers;
  max_workers = c.processor.worker.max_workers;
  enable_auto_scale = c.processor.worker.enable_auto_scale;
  target_queue_size = c.processor.worker.target_queue_size;
}

-- The components that the others are made of; `redis_repo` is none if Redis is not configured or not
-- reached, and `service_pool` is the pool that the ad service was given.
pub record Components : Type 0 where
  pub redis_repo : Option RedisRepository
  pub cache_is_redis : Bool
  pub analyzer : AnalyzerOptions
  pub queue : DistributedPriorityQueue
  pub worker_pool : WorkerPool
  pub service_pool : WorkerPool

abbrev is_connected : Option RedisRepository → Bool
is_connected none = false
is_connected (some _) = true

-- What is made once Redis was tried.
unfoldable pub components_of : Config → String → Option RedisRepository → Components
unfolding queue_options analyzer_options configured_pool_options new_worker_pool
    new_distributed_priority_queue
components_of c instance_id repo = record {
  redis_repo = repo;
  cache_is_redis = is_redis c.storage.cache_type && is_connected repo;
  analyzer = analyzer_options;
  queue = new_distributed_priority_queue instance_id (queue_options c);
  worker_pool = new_worker_pool (configured_pool_options c);
  service_pool = new_worker_pool (configured_pool_options c);
}

module _ {S : Type 0} (client : RedisClient S) where
  -- A server goes on without Redis if it is not reached.
  unfoldable pub connect_redis : Config → Action S (Option RedisRepository)
  connect_redis c s =
      if is_redis c.storage.cache_type || is_redis c.storage.persistence_type
      then (let (r, s') = new_redis_repository client (redis_options c) s in
          elim r [ ok repo ↦ (ok (some repo), s') | err _ ↦ (ok none, s') | panic ↦ (panic, s') ])
      else (ok none, s)

  unfoldable pub initialize_components : Config → String → Action S Components
  unfolding connect_redis components_of ◌>>=◌ pure
  initialize_components c instance_id = do
    repo ← connect_redis c
    pure (components_of c instance_id repo)

  unfoldable pub server_pool_options : ℤ → WorkerPoolOptions
  unfolding default_worker_pool_options
  server_pool_options cpus = record (default_worker_pool_options cpus) {
    min_workers = pos 1;
    max_workers = pos 2;
    enable_auto_scale = false;
  }

  -- The pool of the server, if it is to have workers; the ad service keeps the one that it has. An
  -- error of `Start` is only logged.
  unfoldable pub start_server_pool : Config → ℤ → (ℕ → String) → Components → Result Components
  unfolding server_pool_options start_pool new_worker_pool
  start_server_pool c cpus ids components =
      if ltb_ℤ (pos 0) c.processor.worker.min_workers
      then (let (r, pool) = start_pool ids (new_worker_pool (server_pool_options cpus)) in
          let started = record components { worker_pool = pool } in
          elim r [ ok _ ↦ ok started | err _ ↦ ok started | panic ↦ panic ])
      else ok components

  -- `serverRun` up to the listening; the error of the components is fatal.
  unfoldable pub server_run : Config → String → ℤ → (ℕ → String) → Action S Components
  unfolding initialize_components start_server_pool ◌>>=◌
  server_run c instance_id cpus ids = initialize_components c instance_id >>= λ components s.
      (start_server_pool c cpus ids components, s)

  -- What the worker process has.
  pub record WorkerProcess : Type 0 where
    pub redis_repo : RedisRepository
    pub queue : DistributedPriorityQueue
    pub worker_pool : WorkerPool

  unfoldable pub worker_pool_options : Config → ℤ → WorkerPoolOptions
  unfolding default_worker_pool_options
  worker_pool_options c cpus = record (default_worker_pool_options cpus) {
    min_workers = c.processor.worker.min_workers;
    max_workers = c.processor.worker.max_workers;
    enable_auto_scale = c.processor.worker.enable_auto_scale;
    target_queue_size = c.processor.worker.target_queue_size;
  }

  -- `workerRun` up to the wait for a signal: without Redis it ends, whatever the cache is configured
  -- to be; an error of the pool's `Start` is only logged.
  unfoldable pub worker_run : Config → String → ℤ → (ℕ → String) → Action S WorkerProcess
  unfolding worker_pool_options queue_options start_pool new_worker_pool
      new_distributed_priority_queue ◌>>=◌
  worker_run c instance_id cpus ids = new_redis_repository client (redis_options c) >>= λ repo s.
      let (r, pool) = start_pool ids (new_worker_pool (worker_pool_options c cpus)) in
      let process : WorkerProcess = record {
        redis_repo = repo;
        queue = new_distributed_priority_queue instance_id (queue_options c);
        worker_pool = pool;
      } in
      elim r [ ok _ ↦ (ok process, s) | err _ ↦ (ok process, s) | panic ↦ (panic, s) ]

-- `initConfig` before either command: the result, where an error ends the process, and the
-- configuration; it is validated once more.
unfoldable pub init_config : {V : Type 0} → Viper V → Result Config
unfolding load_config validate
init_config viper =
    let (r, app) = load_config viper "config.yaml" none in
    elim r [
      | panic ↦ panic
      | err e ↦ err e
      | ok _ ↦ elim app [
        | none ↦ panic
        | some c ↦ elim (validate c) [ ok _ ↦ ok c | err e ↦ err e | panic ↦ panic ]
      ]
    ]
