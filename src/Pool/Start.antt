-- ===== src/Pool/Start.antt =====
-- The workers that `Start` of the pool puts into its map.
use game_ad_service.Common.{
  ℕ, zero, suc, ◌+◌, String, List, [], ◌∷◌, none, ◌≡◌, refl, ap, arith, length,
}
use game_ad_service.Common.Dict.{lookup, insert, IsUnique, insert-IsUnique}
use game_ad_service.Common.Int.{pos, pos_part, ◌≤ℤ◌}
use game_ad_service.Storage.{Result, ok}
use game_ad_service.Pool.{
  WorkerPool, WorkerPoolOptions, new_worker_pool, start_each, first_ids, start_pool,
}
use game_ad_service.Pool.Bounds.{IsBounded, started, start_new_lem, start_new-length}

-- Each id is not in use when its turn comes.
abbrev pub AllFresh : List String → WorkerPool → Type 0
AllFresh [] p = Unit
AllFresh (fresh ∷ rest) p =
    (lookup fresh p.workers ≡ none)
    × AllFresh rest (record p { workers = insert fresh (started fresh p) p.workers })

-- What the loop leaves: as many workers more as there are ids, and the rest of the pool as it was.
record Started (n : ℕ) (p : WorkerPool) (done : Result (Unit {0}) × WorkerPool) : Type 0 where
  after : WorkerPool
  result : done ≡ (ok tt, after)
  options_kept : after.options ≡ p.options
  unique : IsUnique after.workers
  size : length after.workers ≡ n + length p.workers

start_each_lem :
    (ids : List String) (p : WorkerPool)
    → AllFresh ids p
    → IsUnique p.workers
    → Started (length ids) p (start_each ids p)
unfolding start_each
start_each_lem [] p h u = record {
  after = p;
  result = refl;
  options_kept = refl;
  unique = u;
  size = omega arith;
}
start_each_lem (fresh ∷ rest) p (h, hs) u =
    let w = started fresh p in
    let p' : WorkerPool = record p { workers = insert fresh w p.workers } in
    let tail = start_each_lem rest p' hs (insert-IsUnique fresh w p.workers u) in
    let longer = start_new-length fresh p h in
    record {
      after = tail.after;
      result = ground (arith, start_new_lem fresh p, tail.result);
      options_kept = tail.options_kept;
      unique = tail.unique;
      size = ground (arith, tail.size, longer, start_new_lem fresh p);
    }

length-first_ids : (n : ℕ) (ids : ℕ → String) → length (first_ids n ids) ≡ n
unfolding first_ids
length-first_ids zero ids = refl
length-first_ids (suc n) ids = ap suc (length-first_ids n (λ i. ids (suc i)))

-- The ids of the first workers of a new pool are not in use.
abbrev pub StartsFresh : (ℕ → String) → WorkerPoolOptions → Type 0
StartsFresh ids options =
    AllFresh (first_ids (pos_part options.min_workers) ids) (new_worker_pool options)

-- Starting a new pool whose limits are in order, with an id that is not in use for each of its
-- smallest number of workers, succeeds; the pool then has that number of workers, which lies between
-- the limits.
pub start_pool-IsBounded :
    (options : WorkerPoolOptions) (ids : ℕ → String)
    → pos 0 ≤ℤ options.min_workers
    → options.min_workers ≤ℤ options.max_workers
    → StartsFresh ids options
    → let (r, p) = start_pool ids (new_worker_pool options) in
      (r ≡ ok tt) × IsBounded p × (pos (length p.workers) ≡ options.min_workers)
unfolding start_pool new_worker_pool
start_pool-IsBounded options ids h k fresh =
    let p = new_worker_pool options in
    let first = first_ids (pos_part options.min_workers) ids in
    let count = length-first_ids (pos_part options.min_workers) ids in
    let s = start_each_lem first p fresh tt in
    let q : WorkerPool = record s.after { scaler_running = options.enable_auto_scale } in
    let run : start_pool ids p ≡ (ok tt, q) = ground (arith, s.result) in
    let min = ap (λ o. o.min_workers) s.options_kept in
    let max = ap (λ o. o.max_workers) s.options_kept in
    let size : pos (length q.workers) ≡ options.min_workers = ground (arith, s.size, count) in
    let bounded : IsBounded q = record {
      unique = s.unique;
      at_least = ground (arith, min, size);
      at_most = ground (arith, max, min, size);
    } in
    rw run (refl, bounded, size)
