-- ===== src/Service.antt =====
-- internal/service/ad_service.go: the service behind the HTTP handlers, over the repository, the
-- cache and the queue. `fresh` is what `utils.GenerateID` gives, and `now` and `later` are the
-- clock at the submission and at the change to the queued status. A cache that returns neither an ad
-- nor an error is left out.
pub mod Submit
pub mod Listing
pub mod Waiting
pub mod Rounds
pub mod Ready
pub mod Adjust
pub mod Fairness
pub mod Refinement
use game_ad_service.Common.{
  String, String-discrete, Bool, true, false, Option, none, some, List, [], ◌∷◌, ◌++◌, ite,
  if◌then◌else◌, length, map, ◌||◌,
}
use game_ad_service.Common.Int.{ℤ, pos, ltb_ℤ, leb_ℤ}
use game_ad_service.Float64.{FloatOps}
use game_ad_service.Errors.{
  Error, Error-discrete, ad_not_found, app, wrapped, err_invalid_request, err_not_found,
  err_internal_server,
}
use game_ad_service.Ad.{
  Ad, AdStatus, status_submitted, status_queued, status_processing, status_completed, status_failed,
}
use game_ad_service.Mapper.{AdDto, map_ad_to_ad_dto}
use game_ad_service.Storage.{
  Result, ok, err, panic, Action, pure, throw, ◌>>=◌, ◌>>◌, handle, ignore, slice, Repository,
  CacheRepository,
}
use game_ad_service.Queue.State.{DistributedPriorityQueue}
use game_ad_service.Queue.{enqueue, size}
use game_ad_service.Pool.{WorkerPool, PoolStats, get_stats as pool_stats}

-- The fields that `SubmitAd` sets itself, whatever the caller sent.
abbrev pub submitted : String → ℤ → Ad → Ad
submitted fresh now ad = record ad {
  ad_id = ite (String-discrete ad.ad_id "") fresh ad.ad_id;
  created_at = now;
  version = pos 1;
  status = status_submitted;
  attempts = pos 0;
}

abbrev pub all_statuses : List AdStatus
all_statuses =
    status_submitted ∷ status_queued ∷ status_processing ∷ status_completed ∷ status_failed ∷ []

-- The limit that `ListAds` uses, and its offset.
abbrev pub page_limit : ℤ → ℤ
page_limit limit = if leb_ℤ limit (pos 0) || ltb_ℤ (pos 100) limit then pos 10 else limit

abbrev pub page_offset : ℤ → ℤ
page_offset offset = if ltb_ℤ offset (pos 0) then pos 0 else offset

-- The map of `GetStats`, without its time of writing.
pub record ServiceStats : Type 0 where
  pub queue_size : ℤ
  pub workers : Option PoolStats
  pub status_counts : List (AdStatus × ℤ)

module _ {S : Type 0} (repo : Repository S) (cache : CacheRepository S) where
  -- A failing `Enqueue` is only printed; the ad is returned as `Enqueue` left it.
  unfoldable pub enqueue_submitted : DistributedPriorityQueue → ℤ → Ad → Action S AdDto
  enqueue_submitted q later ad s =
      let (r, ad', s') = enqueue repo cache q later ad s in
      elim r [
        | ok _ ↦ (ok (map_ad_to_ad_dto ad'), s')
        | err _ ↦ (ok (map_ad_to_ad_dto ad'), s')
        | panic ↦ (panic, s')
      ]

  unfoldable pub submit_ad : DistributedPriorityQueue → String → ℤ → ℤ → Option Ad → Action S AdDto
  unfolding enqueue_submitted
  submit_ad q fresh now later none = throw (app err_invalid_request)
  submit_ad q fresh now later (some ad) =
      let ad' = submitted fresh now ad in
      handle (repo.save (some ad')) (λ e. throw (wrapped e)) (λ _. enqueue_submitted q later ad')

  -- `GetAd` on a miss of the cache. The error is compared by `==`, not by `errors.Is`.
  unfoldable pub get_stored : String → Action S AdDto
  get_stored id =
      handle (repo.get id)
        (λ e. ite (Error-discrete e ad_not_found) (throw (app err_not_found)) (throw (wrapped e)))
        (λ ad. ignore (cache.set id (some ad) (pos 300)) >> pure (map_ad_to_ad_dto ad))

  unfoldable pub get_ad : String → Action S AdDto
  unfolding get_stored
  get_ad id =
      ite (String-discrete id "") (throw (app err_invalid_request))
        (handle (cache.get id) (λ _. get_stored id) (λ ad. pure (map_ad_to_ad_dto ad)))

  -- The loop of `ListAds` over the statuses, with the ads found so far.
  unfoldable pub collect : ℤ → ℤ → List AdStatus → List Ad → Action S (List Ad)
  collect limit offset [] ads = pure ads
  collect limit offset (st ∷ rest) ads =
      handle (repo.find_by_status st limit offset) (λ _. collect limit offset rest ads)
        (λ found.
          let all = ads ++ found in
          if leb_ℤ limit (pos (length all))
          then (λ s. (slice all (pos 0) limit, s))
          else collect limit offset rest all)

  unfoldable pub list_ads : AdStatus → ℤ → ℤ → Action S (List AdDto)
  unfolding collect
  list_ads st limit offset =
      let l = page_limit limit in
      let o = page_offset offset in
      let one = repo.find_by_status st l o in
      handle (ite (String-discrete st "") (collect l o all_statuses []) one)
        (λ _. throw (app err_internal_server)) (λ ads. pure (map map_ad_to_ad_dto ads))

  -- A count that fails is written as 0.
  unfoldable pub count_each : List AdStatus → Action S (List (AdStatus × ℤ))
  count_each [] = pure []
  count_each (st ∷ rest) = do
    n ← handle (repo.count_by_status st) (λ _. pure (pos 0)) pure
    counts ← count_each rest
    pure ((st, n) ∷ counts)

  unfoldable pub get_stats : Option WorkerPool → Action S ServiceStats
  unfolding count_each
  get_stats pool = do
    n ← handle (size repo cache) (λ _. pure (pos 0)) pure
    counts ← count_each all_statuses
    pure (record {
      queue_size = n;
      workers = elim pool [ none ↦ none | some p ↦ some (pool_stats p) ];
      status_counts = counts;
    })
