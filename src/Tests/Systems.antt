-- ===== src/Tests/Systems.antt =====
-- Histories of calls, rounds of workers, and the processes.
use game_ad_service.Common.{
  ℕ, suc, String-discrete, ne_of_test, none, some, List, [], ◌∷◌, ◌≡◌, ◌≢◌, refl, arith, length,
  true, ◌⊎◌,
}
use game_ad_service.Common.Int.{ℤ, pos}
use game_ad_service.Common.Dict.{lookup, IsUnique}
use game_ad_service.Float64.{Float64, FloatOps}
use game_ad_service.Analyzer.{AnalyzerOptions}
use game_ad_service.Pool.Process.{LoopEvent, round, ends, elapsed, shut_down, process_loop}
use game_ad_service.Errors.{Error, wrapped, queue_closed}
use game_ad_service.Ad.{Ad, AdAnalysis}
use game_ad_service.Memory.{memory_repository, memory_cache}
use game_ad_service.Queue.{
  enqueue, dequeue, complete, requeue_expired, boost_low_priority_items, update_queue_priorities,
}
use game_ad_service.Storage.{ok, err, panic}
use game_ad_service.Memory.State.{MemoryRepository, new_memory_repository, with_status}
use game_ad_service.Queue.State.{DistributedPriorityQueue, close}
use game_ad_service.Service.Waiting.{waiting}
use game_ad_service.Service.Refinement.{
  Call, submits, takes, completes, requeues, ages, boosts, perform_all, Steps,
  perform_all-new_memory_repository-Steps,
}
use game_ad_service.Pool.{Worker, new_worker, get_stats}
use game_ad_service.Pool.Drain.{Turn, work_turns, Drained, work_turns_lem}
use game_ad_service.Pool.Bounds.{IsBounded}
use game_ad_service.Config.{Config, validate, IsSound}
use game_ad_service.Config.Load.{Viper, load_config, load_config_lem}
use game_ad_service.Redis.{redis_cache}
use game_ad_service.Commands.{Components, components_of, server_run}
use game_ad_service.Commands.Pools.{no_stats, server_run-IsBounded}
use game_ad_service.Commands.Shutdown.{shut_down_server, shut_down_server_lem}
use game_ad_service.Commands.Workers.{worker_dequeue, worker_dequeue_none}
use game_ad_service.Tests.Toys.{Server, server, redis_client, codec}
use game_ad_service.Tests.Data.{
  fixed_ops, store-IsReady, config, store, small_queue, first_ad, new_one, good_analysis,
}

abbrev other_queue : DistributedPriorityQueue
other_queue = record small_queue { instance_id = "w2" }

-- Two submissions, of which the second gets a new id, maintenance, and a worker that comes too late.
abbrev calls : List (DistributedPriorityQueue × Call)
calls =
    (small_queue, submits "b1" (pos 100) (pos 110) new_one)
    ∷ (small_queue, submits "b2" (pos 120) (pos 130) (record new_one { ad_id = "" }))
    ∷ (small_queue, ages fixed_ops (pos 135))
    ∷ (small_queue, boosts (pos 137))
    ∷ (other_queue, takes 0 (λ _. pos 140))
    ∷ (small_queue, completes (pos 150) good_analysis new_one)
    ∷ (small_queue, requeues (pos 160))
    ∷ (small_queue, takes 1 (λ i. pos i))
    ∷ (record small_queue { closed = true }, takes 1 (λ _. pos 180))
    ∷ []

perform_all-new_memory_repository-Steps_example :
    Steps
      (perform_all calls new_memory_repository).0
      (λ j. none)
      (waiting (perform_all calls new_memory_repository).1)
unfolding String-discrete
perform_all-new_memory_repository-Steps_example = perform_all-new_memory_repository-Steps calls (
  (ne_of_test "a3" "" refl, refl),
  ((ne_of_test "b2" "" refl, refl), (tt, (tt, (tt, (tt, (tt, (tt, (tt, tt)))))))),
)

abbrev turns : List Turn
turns =
    record {
      queue = other_queue;
      worker = new_worker "x" (record { max_concurrent = pos 1; process_time_avg = pos 5 });
      clock = λ _. pos 200;
      later = pos 205;
    }
    ∷ record {
      queue = small_queue;
      worker = new_worker "y" (record { max_concurrent = pos 1; process_time_avg = pos 5 });
      clock = λ _. pos 210;
      later = pos 215;
    }
    ∷ []

work_turns_lem_example :
    (m' : MemoryRepository) × (work_turns (λ ad. good_analysis) turns store ≡ some m')
    × Drained (λ ad. good_analysis) store m'
unfolding with_status String-discrete
work_turns_lem_example =
    work_turns_lem (λ ad. good_analysis) turns store store-IsReady (refl, (refl, tt)) (omega arith)

config-IsValid : validate config ≡ ok tt
unfolding validate String-discrete
config-IsValid = refl

server_run-IsBounded_example :
    (p : Components) × (s' : Server) × (server_run redis_client config "api-1"
        (pos 8)
        (λ i. "u1")
        server
      ≡ (ok p, s'))
    × IsBounded p.worker_pool
    × (length p.worker_pool.workers ≡ 1)
    × (get_stats p.service_pool ≡ no_stats)
server_run-IsBounded_example =
    server_run-IsBounded redis_client config server "api-1" (pos 8) (λ i. "u1") config-IsValid

filled-IsUnique :
    IsUnique {V = Float64} (("a1", record { bits = 3 }) ∷ ("a2", record { bits = 5 }) ∷ [])
unfolding lookup String-discrete
filled-IsUnique = (refl, (refl, tt))

-- Two ids wait in Redis, pushed by a server.
abbrev filled : Server
filled = record server {
  members = ("a1", record { bits = 3 }) ∷ ("a2", record { bits = 5 }) ∷ [];
  unique = filled-IsUnique;
}

worker_dequeue_none_example :
    worker_dequeue
      (redis_cache redis_client codec (record { ttl = pos 1000 }))
      other_queue
      5
      (λ i. pos i)
      (new_memory_repository, filled)
    ≢ some (ok first_ad, (new_memory_repository, server))
worker_dequeue_none_example =
    worker_dequeue_none (redis_cache redis_client codec (record { ttl = pos 1000 })) other_queue 5
      (λ i. pos i) filled first_ad (new_memory_repository, server)

-- The server's components on this configuration, and the same after the shutdown.
abbrev running : Components
running = components_of config "api-1" none

abbrev stopped : Components
stopped = record running { queue = record running.queue { closed = true } }

stopped_lem : shut_down_server (ok tt) running ≡ ok stopped
unfolding shut_down_server close
stopped_lem = refl

-- A worker that goes on for two rounds.
abbrev late_rounds : List LoopEvent
late_rounds =
    round 1 (λ _. pos 300) (pos 305) elapsed (record { bits = 7 })
    ∷ round 2 (λ i. pos i) (pos 315) shut_down (record { bits = 9 })
    ∷ ends
    ∷ []

shut_down_server_lem_example :
    let q = stopped.queue in
    ((now : ℤ) (ad : Ad) (s : MemoryRepository)
      → enqueue memory_repository memory_cache q now ad s ≡ (err queue_closed, ad, s))
    × ((n : ℕ) (clock : ℕ → ℤ) (s : MemoryRepository)
        → dequeue memory_repository memory_cache (suc n) q clock s ≡ some (err queue_closed, s))
    × ((now : ℤ) (s : MemoryRepository)
        → requeue_expired memory_repository memory_cache q now s ≡ (err queue_closed, s))
    × ((now : ℤ) (s : MemoryRepository)
        → boost_low_priority_items memory_repository memory_cache q now s ≡ (err queue_closed, s))
    × ((F : FloatOps) (options : AnalyzerOptions) (w : Worker) (s : MemoryRepository)
        → (w' : Worker) × (process_loop memory_repository memory_cache F options q late_rounds w s
            ≡ some (ok w', s))
          × (w'.processed ≡ w.processed))
    × ((F : FloatOps) (now : ℤ)
        → update_queue_priorities memory_repository memory_cache F q now
          ≡ update_queue_priorities memory_repository memory_cache F running.queue now)
    × ((now : ℤ) (analysis : AdAnalysis) (ad : Ad)
        → complete memory_repository memory_cache q now analysis ad
          ≡ complete memory_repository memory_cache running.queue now analysis ad)
shut_down_server_lem_example =
    shut_down_server_lem memory_repository memory_cache running stopped late_rounds stopped_lem
      (omega arith, (omega arith, tt))

-- A configuration source that has what it is asked for.
abbrev viper : Viper ℕ
viper = record {
  new = 0;
  set_default = λ key setting n. suc n;
  read_in_config = λ path n. ok n;
  unmarshal = λ n. ok config;
}

load_config_lem_example :
    let (r, app) = load_config viper "config.yaml" none in
    ((r ≡ ok tt) × ((c : Config) × (app ≡ some c) × IsSound c))
    ⊎ ((((e : Error) × (r ≡ err (wrapped e))) ⊎ (r ≡ panic)) × (app ≡ none))
load_config_lem_example = load_config_lem viper "config.yaml" none
