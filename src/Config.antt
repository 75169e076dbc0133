-- ===== src/Config.antt =====
-- internal/config/config.go, lines 12 to 110 and 181 to 209: the configuration and its validation, and
-- the set-up of cmd/server.go that makes the queue and the pool from it. Reading files and the
-- environment is left to the library that does it.
pub mod Load
use game_ad_service.Common.{
  String, String-discrete, Bool, true, false, ◌≡◌, ◌≢◌, arith, ◌↔◌, ite, if◌then◌else◌, ◌||◌,
}
use game_ad_service.Common.Int.{ℤ, pos, ltb_ℤ, leb_ℤ, ◌≤ℤ◌, ◌<ℤ◌}
use game_ad_service.Errors.{other}
use game_ad_service.Storage.{Result, ok, err}

pub record ServerConfig : Type 0 where
  pub port : ℤ
  pub read_timeout : ℤ
  pub write_timeout : ℤ
  pub idle_timeout : ℤ

pub record RedisConfig : Type 0 where
  pub address : String
  pub password : String
  pub db : ℤ

pub record StorageConfig : Type 0 where
  pub redis : RedisConfig
  pub persistence_type : String
  pub cache_type : String
  pub cache_ttl : ℤ

pub record WorkerConfig : Type 0 where
  pub min_workers : ℤ
  pub max_workers : ℤ
  pub max_concurrent_jobs : ℤ
  pub enable_auto_scale : Bool
  pub target_queue_size : ℤ

pub record ProcessorConfig : Type 0 where
  pub queue_capacity : ℤ
  pub max_attempts : ℤ
  pub processing_timeout : ℤ
  pub lock_ttl : ℤ
  pub worker : WorkerConfig

pub record LoggingConfig : Type 0 where
  pub level : String
  pub format : String

pub record Config : Type 0 where
  pub server : ServerConfig
  pub storage : StorageConfig
  pub processor : ProcessorConfig
  pub logging : LoggingConfig

-- The checks in the order of the source; the messages are cut before the values.
unfoldable pub validate : Config → Result (Unit {0})
validate c =
    let p = c.processor in
    let w = p.worker in
    let no_address = ite (String-discrete c.storage.redis.address "") true false in
    let needs_address = ite (String-discrete c.storage.cache_type "redis") no_address false in
    if leb_ℤ c.server.port (pos 0) || ltb_ℤ (pos 65535) c.server.port
    then err (other "invalid port")
    else if ltb_ℤ p.queue_capacity (pos 0)
    then err (other "invalid queue capacity")
    else if leb_ℤ p.max_attempts (pos 0)
    then err (other "invalid max attempts")
    else if leb_ℤ w.min_workers (pos 0)
    then err (other "invalid min workers")
    else if ltb_ℤ w.max_workers w.min_workers
    then err (other "max workers must be >= min workers")
    else if needs_address
    then err (other "redis address is required when cache type is redis")
    else ok tt

-- What a server can run with.
pub record IsSound (c : Config) : Type 0 where
  pub port_pos : pos 0 <ℤ c.server.port
  pub port-le : c.server.port ≤ℤ pos 65535
  pub capacity : pos 0 ≤ℤ c.processor.queue_capacity
  pub attempts : pos 0 <ℤ c.processor.max_attempts
  pub workers : pos 0 <ℤ c.processor.worker.min_workers
  pub limits : c.processor.worker.min_workers ≤ℤ c.processor.worker.max_workers
  pub address : c.storage.cache_type ≡ "redis" → c.storage.redis.address ≢ ""

-- `Validate` accepts a configuration just if its port is a TCP port, the capacity is not negative, an ad
-- may be attempted, there is a worker and the limits on workers are in order, and the Redis
-- cache has an address.
pub validate_lem : (c : Config) → (validate c ≡ ok tt) ↔ IsSound c
unfolding validate
validate_lem c = (
  (λ h. record {
    port_pos = ground arith;
    port-le = ground arith;
    capacity = ground arith;
    attempts = ground arith;
    workers = ground arith;
    limits = ground arith;
    address = λ p q. ground arith;
  }),
  λ s.
      ground (arith, s.port_pos, s.port-le, s.capacity, s.attempts, s.workers, s.limits, s.address),
)
