-- ===== src/Pool/Process.antt =====
-- internal/processor/worker.go, lines 44 to 50, 102 to 216 and 404 to 421: what a worker's goroutine and the
-- scaler do over time. What a `select` meets is an event of a list; `random` is `rand.Float64()`.
use game_ad_service.Common.{ℕ, String, Bool, Option, none, some, List, [], ◌∷◌}
use game_ad_service.Common.Int.{ℤ, pos}
use game_ad_service.Float64.{Float64, FloatOps}
use game_ad_service.Ad.{Ad, AdAnalysis}
use game_ad_service.Analyzer.{AnalyzerOptions, analyze}
use game_ad_service.Storage.{Result, ok, err, panic, Repository, CacheRepository}
use game_ad_service.Queue.State.{DistributedPriorityQueue, Run}
use game_ad_service.Pool.{Worker, WorkerOptions, WorkerPool, scale}
use game_ad_service.Pool.Jobs.{work_round}

unfoldable pub default_worker_options : ℤ → WorkerOptions
default_worker_options cpus = record { max_concurrent = cpus; process_time_avg = pos 2_000_000_000 }

-- What `Stats` of one worker shows.
pub record WorkerStats : Type 0 where
  pub id : String
  pub processed : ℤ
  pub errors : ℤ
  pub active_jobs : ℤ
  pub max_concurrent : ℤ
  pub is_running : Bool

unfoldable pub worker_stats : Worker → WorkerStats
worker_stats w = record {
  id = w.id;
  processed = w.processed;
  errors = w.errors;
  active_jobs = w.active_jobs;
  max_concurrent = w.max_concurrent;
  is_running = w.is_running;
}

-- The time that `processAd` waits, 30 % around the configured one: 0.3 and 2 as `float64`.
unfoldable pub processing_time : FloatOps → ℤ → Float64 → ℤ
processing_time F process_time random =
    let average = F.of_int process_time in
    let variance = F.mul average (record { bits = 0x3fd3333333333333 }) in
    let half = F.div variance (record { bits = 0x4000000000000000 }) in
    F.to_int (F.sub (F.add average (F.mul random variance)) half)

-- What the `select` of `processAd` meets first.
pub data ProcessEvent : Type 0 where
  cancelled shut_down elapsed : ProcessEvent

-- The error is only counted, so that it is dropped here.
unfoldable pub process_ad :
    FloatOps → AnalyzerOptions → ProcessEvent → Float64 → Ad → Option AdAnalysis
process_ad F options cancelled random ad = none
process_ad F options shut_down random ad = none
process_ad F options elapsed random ad = some (analyze F options random ad)

-- A round of `processLoop` on the fuel of `Dequeue`, at the two times of the clock; or the end.
pub data LoopEvent : Type 0 where
  ends : LoopEvent
  round : (fuel : ℕ) (clock : ℕ → ℤ) (later : ℤ) → ProcessEvent → (random : Float64) → LoopEvent

unfoldable pub process_loop :
    {S : Type 0}
    → Repository S
    → CacheRepository S
    → FloatOps
    → AnalyzerOptions
    → DistributedPriorityQueue
    → List LoopEvent
    → Worker
    → Run S Worker
unfolding work_round process_ad
process_loop repo cache F options q [] w s = some (ok w, s)
process_loop repo cache F options q (ends ∷ es) w s = some (ok w, s)
process_loop repo cache F options q (round n clock later event random ∷ es) w s =
    elim (work_round repo cache n q clock later (process_ad F options event random) w s) [
      | none ↦ none
      | some (ok w', s') ↦ process_loop repo cache F options q es w' s'
      | some (err e, s') ↦ some (err e, s')
      | some (panic, s') ↦ some (panic, s')
    ]

-- What the scaler's `select` meets: a tick has the id of a worker that it may add, and the size of the
-- queue or the error of reading it.
pub data ScalerEvent : Type 0 where
  stops : ScalerEvent
  ticks : (fresh : String) → Result ℤ → ScalerEvent

unfoldable pub auto_scaler_loop : List ScalerEvent → WorkerPool → WorkerPool
unfolding scale
auto_scaler_loop [] p = p
auto_scaler_loop (stops ∷ es) p = p
auto_scaler_loop (ticks fresh (ok size) ∷ es) p = auto_scaler_loop es (scale fresh size p)
auto_scaler_loop (ticks fresh (err e) ∷ es) p = auto_scaler_loop es p
auto_scaler_loop (ticks fresh panic ∷ es) p = p
