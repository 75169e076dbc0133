-- ===== src/Pool/History.antt =====
-- A worker pool from `Start` on: calls of it, and stretches of the scaler's loop between them.
use game_ad_service.Common.{ℕ, String, none, List, [], ◌∷◌, ◌≡◌}
use game_ad_service.Common.Int.{pos, ◌≤ℤ◌}
use game_ad_service.Common.Dict.{lookup}
use game_ad_service.Storage.{ok, err, panic}
use game_ad_service.Pool.{WorkerPool, WorkerPoolOptions, new_worker_pool, start_pool, scale}
use game_ad_service.Pool.Process.{ScalerEvent, stops, ticks, auto_scaler_loop}
use game_ad_service.Pool.Bounds.{IsBounded, PoolCall, scales, apply, IsFresh, apply-IsBounded}
use game_ad_service.Pool.Start.{StartsFresh, start_pool-IsBounded}

pub data PoolStep : Type 0 where
  calls : PoolCall → PoolStep
  loops : List ScalerEvent → PoolStep

unfoldable pub pool_run : List PoolStep → WorkerPool → WorkerPool
unfolding auto_scaler_loop
pool_run [] p = p
pool_run (calls c ∷ steps) p = pool_run steps (apply c p)
pool_run (loops es ∷ steps) p = pool_run steps (auto_scaler_loop es p)

-- The id of a worker that a tick may add is not in use.
abbrev pub TicksFresh : List ScalerEvent → WorkerPool → Type 0
TicksFresh [] p = Unit
TicksFresh (stops ∷ es) p = Unit
TicksFresh (ticks fresh (ok size) ∷ es) p =
    (lookup fresh p.workers ≡ none) × TicksFresh es (scale fresh size p)
TicksFresh (ticks fresh (err e) ∷ es) p = TicksFresh es p
TicksFresh (ticks fresh panic ∷ es) p = Unit

abbrev pub StepsFresh : List PoolStep → WorkerPool → Type 0
StepsFresh [] p = Unit
StepsFresh (calls c ∷ steps) p = IsFresh c p × StepsFresh steps (apply c p)
StepsFresh (loops es ∷ steps) p = TicksFresh es p × StepsFresh steps (auto_scaler_loop es p)

auto_scaler_loop-IsBounded :
    (es : List ScalerEvent) (p : WorkerPool)
    → TicksFresh es p
    → IsBounded p
    → IsBounded (auto_scaler_loop es p)
unfolding auto_scaler_loop
auto_scaler_loop-IsBounded [] p f b = b
auto_scaler_loop-IsBounded (stops ∷ es) p f b = b
auto_scaler_loop-IsBounded (ticks fresh (ok size) ∷ es) p f b =
    auto_scaler_loop-IsBounded es (scale fresh size p) f.1
      (apply-IsBounded (scales fresh size) p f.0 b)
auto_scaler_loop-IsBounded (ticks fresh (err e) ∷ es) p f b = auto_scaler_loop-IsBounded es p f b
auto_scaler_loop-IsBounded (ticks fresh panic ∷ es) p f b = b

pool_run-IsBounded :
    (steps : List PoolStep) (p : WorkerPool)
    → StepsFresh steps p
    → IsBounded p
    → IsBounded (pool_run steps p)
unfolding pool_run
pool_run-IsBounded [] p f b = b
pool_run-IsBounded (calls c ∷ steps) p f b =
    pool_run-IsBounded steps (apply c p) f.1 (apply-IsBounded c p f.0 b)
pool_run-IsBounded (loops es ∷ steps) p f b =
    pool_run-IsBounded steps (auto_scaler_loop es p) f.1 (auto_scaler_loop-IsBounded es p f.0 b)

-- A new pool with limits of which the lower is not negative and not above the upper, and ids of new
-- workers that are not in use: `Start` succeeds, and whatever workers are then added and removed by
-- calls, by the ticks of the scaler and by any number of its loops, the number of workers stays
-- between the limits and no id stands twice.
pub pool_run-start_pool-IsBounded :
    (options : WorkerPoolOptions) (ids : ℕ → String) (steps : List PoolStep)
    → pos 0 ≤ℤ options.min_workers
    → options.min_workers ≤ℤ options.max_workers
    → StartsFresh ids options
    → StepsFresh steps (start_pool ids (new_worker_pool options)).1
    → let (r, p) = start_pool ids (new_worker_pool options) in
      (r ≡ ok tt) × IsBounded (pool_run steps p)
pool_run-start_pool-IsBounded options ids steps h k fresh f =
    let p = (start_pool ids (new_worker_pool options)).1 in
    let (started, bounded, _) = start_pool-IsBounded options ids h k fresh in
    (started, pool_run-IsBounded steps p f bounded)
