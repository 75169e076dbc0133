-- ===== src/Http.antt =====
-- pkg/utils/response/response.go and internal/api/handlers/ad_handler.go: the replies, and the
-- handlers that make them. Reading the JSON body and the validation by tags are done by other
-- packages: `decoded` is what the decoder gives, and `validate` the validator. The router and the
-- encoding of a reply are left out.
pub mod Replies
pub mod Middleware
pub mod Exchange
use game_ad_service.Common.{
  ℕ, String, String-discrete, Bool, true, false, Option, none, some, List, [], ◌∷◌, length, ite,
  if◌then◌else◌,
}
use game_ad_service.Common.Int.{ℤ, pos, ltb_ℤ}
use game_ad_service.Errors.{
  Error, ErrorCode, ad_not_found, app, other, wrapped, err_invalid_request, err_not_found,
  err_internal_server, err_no_response, queue_empty, queue_full, queue_closed, item_locked,
  concurrent_modification, invalid_ad_data,
}
use game_ad_service.Ad.{Ad, AdStatus, new_ad}
use game_ad_service.Mapper.{AdDto, AdSubmissionDto, map_ad_submission_to_ad_submission}
use game_ad_service.Storage.{
  Result, ok, err, panic, Action, pure, throw, handle, Repository, CacheRepository,
}
use game_ad_service.Queue.State.{DistributedPriorityQueue}
use game_ad_service.Pool.{WorkerPool}
use game_ad_service.Service.{submit_ad, get_ad, list_ads, get_stats, ServiceStats}

pub data Body (A : Type 0) : Type 0 where
  value : A → Body A
  failure : ErrorCode → Body A

pub record Reply (A : Type 0) : Type 0 where
  pub status : ℕ
  pub body : Body A

abbrev pub fail : {A : Type 0} → ErrorCode → Reply A
fail c = record { status = c.status; body = failure c }

-- `response.JSON`.
unfoldable pub json : {A : Type 0} → Option A → Reply A
json (some a) = record { status = 200; body = value a }
json none = fail err_no_response

-- `HandleError`: only an error that is an `AppError` itself, not one that is wrapped, keeps its code.
unfoldable pub handle_error : {A : Type 0} → Option Error → Reply A
handle_error none = fail err_no_response
handle_error (some (app c)) = fail c
handle_error (some _) = fail err_internal_server

-- `getIntQueryParam` over the values of the parameter; `scan` is `fmt.Sscanf` with `%d`.
unfoldable pub get_int_query_param : (String → Option ℤ) → List String → ℤ → ℤ
get_int_query_param scan [] default = default
get_int_query_param scan (v ∷ _) default = elim (scan v) [
  | none ↦ default
  | some n ↦ if ltb_ℤ n (pos 0) then default else n
]

-- What `listAds` and `listAdsByStatus` write; the second writes the status too.
pub record AdsPage : Type 0 where
  pub status : Option AdStatus
  pub ads : List AdDto
  pub limit : ℤ
  pub offset : ℤ
  pub count : ℤ

module _ {S : Type 0} where
  -- The end of each handler: the service's error or its value.
  unfoldable pub respond : {A : Type 0} → Action S A → Action S (Reply A)
  unfolding json handle_error
  respond m = handle m (λ e. pure (handle_error (some e))) (λ a. pure (json (some a)))

-- The ad of a submission: `id` is the handler's own id, and its times are both `now`.
abbrev pub submitted_ad : String → ℤ → AdSubmissionDto → Ad
submitted_ad id now dto = record (new_ad now (map_ad_submission_to_ad_submission dto)) {
  ad_id = id;
  created_at = now;
}

module _ {S : Type 0} (repo : Repository S) (cache : CacheRepository S)
    (q : DistributedPriorityQueue) where
  unfoldable pub submit_ad_handler :
      (AdSubmissionDto → Option Error)
      → Result AdSubmissionDto
      → String
      → String
      → ℤ
      → ℤ
      → Action S (Reply AdDto)
  unfolding respond
  submit_ad_handler validate (err e) id fresh now later = pure (handle_error (some e))
  submit_ad_handler validate panic id fresh now later = λ s. (panic, s)
  submit_ad_handler validate (ok dto) id fresh now later = elim (validate dto) [
    | some e ↦ pure (handle_error (some e))
    | none ↦ respond (submit_ad repo cache q fresh now later (some (submitted_ad id now dto)))
  ]

  unfoldable pub get_ad_handler : String → Action S (Reply AdDto)
  unfolding respond
  get_ad_handler id =
      ite (String-discrete id "") (pure (handle_error (some (app err_invalid_request))))
        (respond (get_ad repo cache id))

  unfoldable pub list_ads_handler :
      (String → Option ℤ)
      → Option AdStatus
      → AdStatus
      → List String
      → List String
      → Action S (Reply AdsPage)
  unfolding respond get_int_query_param
  list_ads_handler scan shown st limits offsets =
      let limit = get_int_query_param scan limits (pos 10) in
      let offset = get_int_query_param scan offsets (pos 0) in
      respond (
        handle (list_ads repo cache st limit offset) throw (λ ads. pure (record {
          status = shown;
          ads = ads;
          limit = limit;
          offset = offset;
          count = pos (length ads);
        })))

  -- `listAds`: the status is a query parameter, and the reply does not show it.
  unfoldable pub list_all_ads_handler :
      (String → Option ℤ) → AdStatus → List String → List String → Action S (Reply AdsPage)
  unfolding list_ads_handler
  list_all_ads_handler scan st limits offsets = list_ads_handler scan none st limits offsets

  unfoldable pub get_stats_handler : Option WorkerPool → Action S (Reply ServiceStats)
  unfolding respond
  get_stats_handler pool = respond (get_stats repo cache pool)
