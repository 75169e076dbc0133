-- ===== src/Tests/Services.antt =====
-- The service, its handlers and the worker pool.
use game_ad_service.Common.{
  String-discrete, ne_of_test, none, some, List, [], ◌∷◌, ◌≡◌, refl, arith, true, false, map, ◌++◌,
  take, drop,
}
use game_ad_service.Common.Int.{pos}
use game_ad_service.Common.Dict.{lookup, insert}
use game_ad_service.Mapper.{AdDto, map_ad_to_ad_dto}
use game_ad_service.Storage.{ok, err}
use game_ad_service.Errors.{queue_closed}
use game_ad_service.Memory.State.{MemoryRepository}
use game_ad_service.Memory.{memory_repository, memory_cache}
use game_ad_service.Service.{submitted, submit_ad, get_ad, list_ads}
use game_ad_service.Service.Submit.{Submitted, submit_ad-get_ad}
use game_ad_service.Service.Listing.{Page, list_ads_lem}
use game_ad_service.Memory.Listing.{IsListing}
use game_ad_service.Ad.{Ad, AdStatus}
use game_ad_service.Http.{value, submit_ad_handler, get_ad_handler}
use game_ad_service.Http.Replies.{Accepted, submit_ad_handler_lem}
use game_ad_service.Pool.{
  WorkerPoolOptions, new_worker_pool, start_pool, start_each, first_ids, scale,
}
use game_ad_service.Pool.Process.{stops, ticks, auto_scaler_loop}
use game_ad_service.Pool.History.{PoolStep, calls, loops, pool_run, pool_run-start_pool-IsBounded}
use game_ad_service.Pool.Bounds.{IsBounded, removes}
use game_ad_service.Tests.Data.{new_one, store, store-IsValid, small_queue, puzzle_dto}

submit_ad-get_ad_example :
    (d : AdDto) × (m' : MemoryRepository) × (submit_ad memory_repository memory_cache small_queue
        "g1"
        (pos 200)
        (pos 201)
        (some new_one)
        store
      ≡ (ok d, m'))
    × Submitted small_queue (pos 201) (submitted "g1" (pos 200) new_one) store m' d
    × (get_ad memory_repository memory_cache "a3" m' ≡ (ok d, m'))
unfolding String-discrete
submit_ad-get_ad_example =
    submit_ad-get_ad small_queue "g1" (pos 200) (pos 201) new_one store (ne_of_test "a3" "" refl)

list_ads_lem_example :
    (p : Page (pos 3) (pos 0)) × (listing : AdStatus → List Ad) × ((s : AdStatus)
      → IsListing s store (listing s))
    × let part = λ (s : AdStatus). take p.size (drop p.start (listing s)) in
      let all =
        part "submitted"
        ++ (part "queued" ++ (part "processing" ++ (part "completed" ++ (part "failed" ++ [])))) in
      (list_ads memory_repository memory_cache "" (pos 3) (pos 0) store
        ≡ (ok (map map_ad_to_ad_dto (take p.size all)), store))
unfolding String-discrete
list_ads_lem_example = list_ads_lem "" (pos 3) (pos 0) store store-IsValid (omega arith)

submit_ad_handler_lem_example :
    (d : AdDto) × (m' : MemoryRepository) × Accepted "h1" puzzle_dto d
    × (submit_ad_handler memory_repository memory_cache small_queue
          (λ _. none)
          (ok puzzle_dto)
          "h1"
          "g1"
          (pos 200)
          (pos 201)
          store
        ≡ (ok (record { status = 200; body = value d }), m'))
    × (get_ad_handler memory_repository memory_cache small_queue "h1" m'
        ≡ (ok (record { status = 200; body = value d }), m'))
submit_ad_handler_lem_example =
    submit_ad_handler_lem small_queue (λ _. none) puzzle_dto "h1" "g1" (pos 200) (pos 201) store
      (ne_of_test "h1" "" refl) refl

abbrev pool_options : WorkerPoolOptions
pool_options = record {
  worker_options = record { max_concurrent = pos 2; process_time_avg = pos 5 };
  min_workers = pos 1;
  max_workers = pos 3;
  enable_auto_scale = true;
  target_queue_size = pos 10;
}

-- The loop adds a worker for a queue that is longer than the target, and the first one is removed.
abbrev pool_steps : List PoolStep
pool_steps =
    loops (ticks "p2" (ok (pos 50)) ∷ ticks "p3" (err queue_closed) ∷ [])
    ∷ calls (removes "p1" false)
    ∷ calls (removes "p2" false)
    ∷ loops (stops ∷ [])
    ∷ []

pool_run-start_pool-IsBounded_example :
    let (r, p) = start_pool (λ i. "p1") (new_worker_pool pool_options) in
    (r ≡ ok tt) × IsBounded (pool_run pool_steps p)
unfolding lookup insert start_pool start_each first_ids new_worker_pool auto_scaler_loop scale
    String-discrete
pool_run-start_pool-IsBounded_example =
    pool_run-start_pool-IsBounded pool_options (λ i. "p1") pool_steps (omega arith) (omega arith)
      (refl, tt) ((refl, tt), (tt, (tt, (tt, tt))))
