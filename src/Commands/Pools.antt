-- ===== src/Commands/Pools.antt =====
-- The pools that the two processes start.
use game_ad_service.Common.{
  ℕ, String, Option, none, some, ◌≡◌, refl, arith, inl, inr, ◌⊎◌, Bool-cases, length, ◌||◌,
}
use game_ad_service.Common.Int.{ℤ, pos}
use game_ad_service.Common.Dict.{lookup}
use game_ad_service.Errors.{Error, wrapped, other}
use game_ad_service.Storage.{ok, err, ◌>>=◌, pure}
use game_ad_service.Pool.{
  WorkerPoolOptions, new_worker_pool, first_ids, start_pool, PoolStats, get_stats, sum_stats,
}
use game_ad_service.Queue.State.{new_distributed_priority_queue}
use game_ad_service.Pool.Bounds.{IsBounded}
use game_ad_service.Pool.Start.{start_pool-IsBounded, StartsFresh}
use game_ad_service.Redis.{
  RedisClient, RedisRepository, Reply, value, nil, failed, new_redis_repository, command,
}
use game_ad_service.Config.{Config, validate, validate_lem}
use game_ad_service.Commands.{
  Components, components_of, WorkerProcess, connect_redis, initialize_components, start_server_pool,
  server_run, worker_run, worker_pool_options, server_pool_options, queue_options, redis_options,
  is_redis,
}

Reply-cases :
    {A : Type 0} (r : Reply A)
    → ((a : A) × (r ≡ value a)) ⊎ ((r ≡ nil) ⊎ ((e : Error) × (r ≡ failed e)))
Reply-cases (value a) = inl (a, refl)
Reply-cases nil = inr (inl refl)
Reply-cases (failed e) = inr (inr (e, refl))

-- A pool that was never started.
abbrev pub no_stats : PoolStats
no_stats = record {
  worker_count = pos 0;
  total_processed = pos 0;
  total_errors = pos 0;
  total_active = pos 0;
}

get_stats-new_worker_pool : (o : WorkerPoolOptions) → get_stats (new_worker_pool o) ≡ no_stats
unfolding get_stats sum_stats new_worker_pool
get_stats-new_worker_pool o = refl

module _ {S : Type 0} (client : RedisClient S) (c : Config) (s : S) where
  -- Either Redis is reached, or the error is that of the command.
  reached :
      ((r : RedisRepository) × (s' : S) × (new_redis_repository client (redis_options c) s
          ≡ (ok r, s')))
      ⊎ ((e : Error) × (s' : S) × (new_redis_repository client (redis_options c) s ≡ (err e, s')))
  unfolding new_redis_repository command
  reached =
      let s' = (client.ping s).1 in
      elim (Reply-cases (client.ping s).0) [
        | inl (a, e) ↦ inl (record { ttl = (redis_options c).default_ttl }, s', ground (arith, e))
        | inr (inl e) ↦ inr (wrapped (other "redis: nil"), s', ground (arith, e))
        | inr (inr (x, e)) ↦ inr (wrapped x, s', ground (arith, e))
      ]

  connected : (o : Option RedisRepository) × (s' : S) × (connect_redis client c s ≡ (ok o, s'))
  unfolding connect_redis
  connected =
      elim (Bool-cases (is_redis c.storage.cache_type || is_redis c.storage.persistence_type)) [
        | inr n ↦ (none, s, ground (arith, n))
        | inl y ↦ elim reached [
          | inl (r, s', e) ↦ (some r, s', ground (arith, y, e))
          | inr (x, s', e) ↦ (none, s', ground (arith, y, e))
        ]
      ]

  -- On a configuration that `Validate` accepts, whether Redis is reached or not and whatever ids the
  -- workers get, a server starts up: its pool then has exactly one worker, within the limits 1 and 2,
  -- whatever limits are configured. The ad service however has another pool, which is never started:
  -- the statistics that it reports show no worker and count nothing.
  pub server_run-IsBounded :
      (instance_id : String) (cpus : ℤ) (ids : ℕ → String)
      → validate c ≡ ok tt
      → (p : Components) × (s' : S) × (server_run client c instance_id cpus ids s ≡ (ok p, s'))
        × IsBounded p.worker_pool
        × (length p.worker_pool.workers ≡ 1)
        × (get_stats p.service_pool ≡ no_stats)
  unfolding server_run initialize_components start_server_pool server_pool_options components_of
      new_worker_pool first_ids lookup ◌>>=◌ pure
  server_run-IsBounded instance_id cpus ids h =
      let sound = (validate_lem c).0 h in
      let (o, s', e) = connected in
      let options = server_pool_options client cpus in
      let (started, bounded, size) =
        start_pool-IsBounded options ids (omega arith) (omega arith) (refl, tt) in
      (
        record (components_of c instance_id o) {
          worker_pool = (start_pool ids (new_worker_pool options)).1;
        },
        s',
        ground (arith, e, sound.workers, started),
        bounded,
        ground (arith, size),
        get_stats-new_worker_pool _,
      )

  -- On a configuration that `Validate` accepts, with a different id for each of the smallest number
  -- of workers: a worker process ends with an error if Redis is not reached, whatever cache is
  -- configured, and otherwise starts up with that number of workers, within the configured limits.
  worker_run-IsBounded :
      (instance_id : String) (cpus : ℤ) (ids : ℕ → String)
      → validate c ≡ ok tt
      → StartsFresh ids (worker_pool_options client c cpus)
      → ((e : Error) × (s' : S) × (worker_run client c instance_id cpus ids s ≡ (err e, s')))
        ⊎ ((p : WorkerProcess client) × (s' : S) × (worker_run client c instance_id cpus ids s
              ≡ (ok p, s'))
            × IsBounded p.worker_pool
            × (pos (length p.worker_pool.workers) ≡ c.processor.worker.min_workers))
  unfolding worker_run worker_pool_options ◌>>=◌
  worker_run-IsBounded instance_id cpus ids h fresh =
      let sound = (validate_lem c).0 h in
      let options = worker_pool_options client c cpus in
      elim reached [
        | inr (x, s', e) ↦ inl (x, s', ground (arith, e))
        | inl (r, s', e) ↦
            let (started, bounded, size) =
              start_pool-IsBounded options ids (ground (arith, sound.workers)) sound.limits fresh in
            inr (
              record {
                redis_repo = r;
                queue = new_distributed_priority_queue instance_id (queue_options c);
                worker_pool = (start_pool ids (new_worker_pool options)).1;
              },
              s',
              ground (arith, e, started),
              bounded,
              size,
            )
      ]
