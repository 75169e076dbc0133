-- ===== src/Pool.antt =====
-- internal/processor/worker.go, lines 16 to 117 and 218 to 459: the workers and the pool that holds them. The pool's mutex makes
-- each method one step; a worker's goroutines are counted, and what one of them does is in
-- Pool/Jobs.antt. `uuid.New()` is the argument `fresh`.
pub mod Bounds
pub mod Start
pub mod History
pub mod Jobs
pub mod Drain
pub mod Process
use game_ad_service.Common.{
  ℕ, zero, suc, ◌+◌, ◌/◌, String, String-discrete, Bool, true, false, Option, none, some, List, [],
  ◌∷◌, ite, if◌then◌else◌, length, map, ◌&&◌,
}
use game_ad_service.Common.Dict.{Dict, lookup, insert, erase}
use game_ad_service.Common.Int.{ℤ, pos, negsuc, ltb_ℤ, leb_ℤ, eqb_ℤ, add64, add32, sub_ℕ, pos_part}
use game_ad_service.Errors.{Error, other, wrapped}
use game_ad_service.Storage.{Result, ok, err, panic}

pub record Worker : Type 0 where
  pub id : String
  pub max_concurrent : ℤ
  pub process_time : ℤ
  pub is_running : Bool
  pub shut_down : Bool
  pub active_jobs : ℤ
  pub processed : ℤ
  pub errors : ℤ
  -- The goroutines that `Start` launched.
  pub loops : ℕ

pub record WorkerOptions : Type 0 where
  pub max_concurrent : ℤ
  pub process_time_avg : ℤ

unfoldable pub new_worker : String → WorkerOptions → Worker
new_worker id options = record {
  id = id;
  max_concurrent = options.max_concurrent;
  process_time = options.process_time_avg;
  is_running = false;
  shut_down = false;
  active_jobs = pos 0;
  processed = pos 0;
  errors = pos 0;
  loops = 0;
}

-- The rounds of `for i := 0; i < n; i++`.
abbrev pub rounds : ℤ → ℕ
rounds (pos n) = n
rounds (negsuc n) = 0

unfoldable pub start_worker : Worker → Result (Unit {0}) × Worker
start_worker w =
    if w.is_running
    then (err (other "worker is already running"), w)
    else (ok tt, record w { is_running = true; loops = w.loops + rounds w.max_concurrent })

-- A worker that is started again after a stop has closed its channel already: closing it twice
-- panics. Waiting for the goroutines is left out.
unfoldable pub stop_worker : Worker → Result (Unit {0}) × Worker
stop_worker w =
    if w.is_running
    then (if w.shut_down
        then (panic, record w { is_running = false })
        else (ok tt, record w { is_running = false; shut_down = true }))
    else (ok tt, w)

pub record WorkerPoolOptions : Type 0 where
  pub worker_options : WorkerOptions
  pub min_workers : ℤ
  pub max_workers : ℤ
  pub enable_auto_scale : Bool
  pub target_queue_size : ℤ

unfoldable pub default_worker_pool_options : ℤ → WorkerPoolOptions
default_worker_pool_options cpus = record {
  worker_options = record { max_concurrent = cpus; process_time_avg = pos 2_000_000_000 };
  min_workers = pos 2;
  max_workers = pos 10;
  enable_auto_scale = true;
  target_queue_size = pos 100;
}

pub record WorkerPool : Type 0 where
  pub options : WorkerPoolOptions
  pub open options use *
  pub workers : Dict Worker
  pub scaler_running : Bool
  pub shut_down : Bool

unfoldable pub new_worker_pool : WorkerPoolOptions → WorkerPool
new_worker_pool options = record {
  options = options;
  workers = [];
  scaler_running = false;
  shut_down = false;
}

-- A new worker is started and put into the map.
unfoldable pub start_new : String → WorkerPool → Result (Unit {0}) × WorkerPool
unfolding new_worker start_worker
start_new fresh p =
    let (r, w) = start_worker (new_worker fresh p.worker_options) in
    elim r [
      | ok _ ↦ (ok tt, record p { workers = insert fresh w p.workers })
      | err e ↦ (err e, p)
      | panic ↦ (panic, p)
    ]

-- The loop of `Start`, over the ids of the new workers. Its error branch is never taken, since a
-- new worker is not running.
unfoldable pub start_each : List String → WorkerPool → Result (Unit {0}) × WorkerPool
unfolding start_new
start_each [] p = (ok tt, p)
start_each (fresh ∷ rest) p =
    let (r, p') = start_new fresh p in
    let done = start_each rest p' in
    elim r [ ok _ ↦ done | err e ↦ (err (wrapped e), p') | panic ↦ (panic, p') ]

-- The ids that `uuid.New()` gives in as many rounds.
unfoldable pub first_ids : ℕ → (ℕ → String) → List String
first_ids zero ids = []
first_ids (suc n) ids = ids 0 ∷ first_ids n (λ i. ids (suc i))

-- The loop goes up to the smallest number of workers; a negative one is as 0.
unfoldable pub start_pool : (ℕ → String) → WorkerPool → Result (Unit {0}) × WorkerPool
unfolding start_each first_ids
start_pool ids p =
    let (r, p') = start_each (first_ids (pos_part p.min_workers) ids) p in
    elim r [
      | ok _ ↦ (ok tt, record p' { scaler_running = p.enable_auto_scale })
      | err e ↦ (err e, p')
      | panic ↦ (panic, p')
    ]

-- A worker of the pool is never started again after a stop, so that no stop panics.
unfoldable pub stop_each : Dict Worker → Dict Worker
unfolding stop_worker
stop_each [] = []
stop_each ((id, w) ∷ m) = (id, (stop_worker w).1) ∷ stop_each m

-- Closing the pool's channel a second time panics.
unfoldable pub stop_pool : Bool → WorkerPool → Result (Unit {0}) × WorkerPool
unfolding stop_each
stop_pool wait p =
    if p.shut_down
    then (panic, p)
    else (let stopped = stop_each p.workers in
        (
          ok tt,
          record p {
            workers = if wait then stopped else [];
            scaler_running = false;
            shut_down = true;
          },
        ))

unfoldable pub add_worker : String → WorkerPool → Result (Unit {0}) × WorkerPool
unfolding start_new
add_worker fresh p =
    if leb_ℤ p.max_workers (pos (length p.workers))
    then (err (other "maximum worker count reached"), p)
    else start_new fresh p

-- `RemoveWorker` on the worker that the map holds.
unfoldable pub remove_existing :
    String → Bool → Worker → WorkerPool → Result (Unit {0}) × WorkerPool
unfolding stop_worker
remove_existing id wait w p =
    if leb_ℤ (pos (length p.workers)) p.min_workers
    then (err (other "minimum worker count reached"), p)
    else (let (r, w') = stop_worker w in
        let stopped = insert id w' p.workers in
        elim r [
          | ok _ ↦ (ok tt, record p { workers = if wait then stopped else erase id stopped })
          | err e ↦ (err e, record p { workers = stopped })
          | panic ↦ (panic, record p { workers = stopped })
        ])

unfoldable pub remove_worker : String → Bool → WorkerPool → Result (Unit {0}) × WorkerPool
unfolding remove_existing
remove_worker id wait p = elim (lookup id p.workers) [
  | none ↦ (err (other "worker not found"), p)
  | some w ↦ remove_existing id wait w p
]

-- The loop of the scaler that looks for a worker without jobs, in the map's order; "" for none.
unfoldable pub find_inactive : Dict Worker → String
find_inactive [] = ""
find_inactive ((id, w) ∷ m) = if eqb_ℤ w.active_jobs (pos 0) then id else find_inactive m

-- Go's `n / 2` on `int` rounds towards zero.
abbrev pub half : ℤ → ℤ
half (pos n) = pos (n / 2)
half (negsuc n) = sub_ℕ 0 (suc n / 2)

-- The scaler stops the worker and takes it out of the map. The read of the map finds it.
unfoldable pub retire : String → WorkerPool → WorkerPool
unfolding stop_worker
retire id p = ite (String-discrete id "") p (elim (lookup id p.workers) [
  | none ↦ p
  | some w ↦ record p { workers = erase id (insert id (stop_worker w).1 p.workers) }
])

-- The first decision of a tick: one more worker if the queue is long.
unfoldable pub grow : String → ℤ → WorkerPool → WorkerPool
unfolding start_new
grow fresh queue_size p =
    if ltb_ℤ p.target_queue_size queue_size && ltb_ℤ (pos (length p.workers)) p.max_workers
    then (start_new fresh p).1
    else p

-- One tick of `autoScalerLoop` at a queue size that could be read: the number of workers is read
-- once, before both decisions.
unfoldable pub scale : String → ℤ → WorkerPool → WorkerPool
unfolding retire find_inactive grow
scale fresh queue_size p =
    let current = pos (length p.workers) in
    let grown = grow fresh queue_size p in
    if ltb_ℤ queue_size (half p.target_queue_size) && ltb_ℤ p.min_workers current
    then retire (find_inactive grown.workers) grown
    else grown

-- What `GetStats` adds up; the counters are 64-bit, and 32-bit for the active jobs.
pub record PoolStats : Type 0 where
  pub worker_count : ℤ
  pub total_processed : ℤ
  pub total_errors : ℤ
  pub total_active : ℤ

unfoldable pub sum_stats : Dict Worker → PoolStats → PoolStats
sum_stats [] s = s
sum_stats ((id, w) ∷ m) s = sum_stats m (record s {
  total_processed = add64 s.total_processed w.processed;
  total_errors = add64 s.total_errors w.errors;
  total_active = add32 s.total_active w.active_jobs;
})

unfoldable pub get_stats : WorkerPool → PoolStats
unfolding sum_stats
get_stats p = sum_stats p.workers (record {
  worker_count = pos (length p.workers);
  total_processed = pos 0;
  total_errors = pos 0;
  total_active = pos 0;
})
