-- ===== src/Http/Replies.antt =====
-- What a client of the handlers sees, over the in-memory repository.
use game_ad_service.Common.{
  String, String-discrete, Option, none, some, ◌≡◌, ◌≢◌, sym, subst, ◌∙◌, ap, arith, ite, inl, inr,
  ◌⊎◌,
}
use game_ad_service.Common.Int.{ℤ, pos, ◌≤ℤ◌, ◌<ℤ◌}
use game_ad_service.Common.Dict.{lookup}
use game_ad_service.Errors.{Error, err_invalid_request, err_internal_server}
use game_ad_service.Ad.{Ad, status_submitted, status_queued, new_ad}
use game_ad_service.Mapper.{
  AdDto, AdSubmissionDto, map_ad_to_ad_dto, map_ad_submission_to_ad_submission,
}
use game_ad_service.Storage.{ok, handle, pure}
use game_ad_service.Memory.State.{MemoryRepository}
use game_ad_service.Memory.{memory_repository, memory_cache}
use game_ad_service.Queue.State.{DistributedPriorityQueue}
use game_ad_service.Service.{submitted, get_ad}
use game_ad_service.Service.Submit.{Submitted, submit_ad-get_ad, get_ad_lem}
use game_ad_service.Http.{
  Reply, value, fail, json, handle_error, respond, submitted_ad, submit_ad_handler, get_ad_handler,
}

-- The reply to what is stored under an id.
abbrev pub found_reply : Option Ad → Reply AdDto
found_reply none = fail err_internal_server
found_reply (some a) = record { status = 200; body = value (map_ad_to_ad_dto a) }

-- A GET of an ad replies 400 to an empty id, and 200 with the ad to an id that is stored. To an id that
-- is not stored it replies 500, not 404. It changes nothing.
get_ad_handler_lem :
    (q : DistributedPriorityQueue) (id : String) (m : MemoryRepository)
    → get_ad_handler memory_repository memory_cache q id m ≡ (
      ok (ite (String-discrete id "") (fail err_invalid_request) (found_reply (lookup id m.ads))),
      m,
    )
unfolding get_ad_handler respond json handle_error handle pure
get_ad_handler_lem q id m = elim (String-discrete id "") [
  | yes e ↦ ground (arith, e)
  | no n ↦ ground (arith, n, (get_ad_lem id m n).0)
]

-- The fields of the submission in the reply, with the default priority of 5 in place of none or a
-- negative one, and one of the two first states.
pub record Accepted (id : String) (dto : AdSubmissionDto) (d : AdDto) : Type 0 where
  pub own_id : d.ad_id ≡ id
  pub title : d.title ≡ dto.title
  pub description : d.description ≡ dto.description
  pub genre : d.genre ≡ dto.genre
  pub target_audience : d.target_audience ≡ dto.target_audience
  pub visual_elements : d.visual_elements ≡ dto.visual_elements
  pub call_to_action : d.call_to_action ≡ dto.call_to_action
  pub duration : d.duration ≡ dto.duration
  pub priority_given : pos 0 <ℤ dto.priority → d.priority ≡ dto.priority
  pub priority_default : dto.priority ≤ℤ pos 0 → d.priority ≡ pos 5
  pub state : (d.status ≡ status_submitted) ⊎ (d.status ≡ status_queued)

Accepted-as :
    (id : String) (now : ℤ) (dto : AdSubmissionDto) (s : Ad)
    → s.ad_id ≡ id
    → s.submission ≡ (submitted_ad id now dto).submission
    → (s.status ≡ status_submitted) ⊎ (s.status ≡ status_queued)
    → Accepted id dto (map_ad_to_ad_dto s)
unfolding new_ad map_ad_to_ad_dto map_ad_submission_to_ad_submission
Accepted-as id now dto s e f h = record {
  own_id = e;
  title = ap (λ x. x.title) f;
  description = ap (λ x. x.description) f;
  genre = ap (λ x. x.genre) f;
  target_audience = ap (λ x. x.target_audience) f;
  visual_elements = ap (λ x. x.visual_elements) f;
  call_to_action = ap (λ x. x.call_to_action) f;
  duration = ap (λ x. x.duration) f;
  priority_given = λ p. ap (λ x. x.priority) f ∙ ground arith;
  priority_default = λ p. ap (λ x. x.priority) f ∙ ground arith;
  state = h;
}

-- The ad that a submission leaves in the store is the one that was sent.
Accepted-stored :
    (q : DistributedPriorityQueue) (id fresh : String) (now later : ℤ) (dto : AdSubmissionDto)
    (m m' : MemoryRepository) (d : AdDto)
    → id ≢ ""
    → Submitted q later (submitted fresh now (submitted_ad id now dto)) m m' d
    → Accepted id dto d
Accepted-stored q id fresh now later dto m m' d h s =
    let same : (submitted fresh now (submitted_ad id now dto)).ad_id ≡ id = ground (arith, h) in
    let a = s.stored_ad in
    let made = Accepted-as id now dto a (s.own_id ∙ same) in
    rw s.seen (elim s.state [
      | inl e ↦ made (ap (λ x. x.submission) e) (inl (ap (λ x. x.status) e))
      | inr e ↦ made (ap (λ x. x.submission) e) (inr (ap (λ x. x.status) e))
    ])

-- A POST of a submission that can be decoded and is valid, for which the handler makes an id that
-- is not empty, replies 200 with the ad: that id, the fields that were sent, the priority 5 if
-- none above 0 was sent, and the submitted or the queued status, whatever the state of the queue.
-- A GET with that id then gives the same reply.
pub submit_ad_handler_lem :
    (q : DistributedPriorityQueue) (validate : AdSubmissionDto → Option Error)
    (dto : AdSubmissionDto) (id fresh : String) (now later : ℤ) (m : MemoryRepository)
    → id ≢ ""
    → validate dto ≡ none
    → (d : AdDto) × (m' : MemoryRepository) × Accepted id dto d
      × (submit_ad_handler memory_repository memory_cache q validate (ok dto) id fresh now later m
          ≡ (ok (record { status = 200; body = value d }), m'))
      × (get_ad_handler memory_repository memory_cache q id m'
          ≡ (ok (record { status = 200; body = value d }), m'))
unfolding submit_ad_handler get_ad_handler respond json handle pure
submit_ad_handler_lem q validate dto id fresh now later m h valid =
    let ad = submitted_ad id now dto in
    let same : (submitted fresh now ad).ad_id ≡ id = ground (arith, h) in
    let (d, m', run, s, seen) =
      submit_ad-get_ad q fresh now later ad m (subst (λ x. x ≢ "") (sym same) h) in
    let found = subst (λ x. get_ad memory_repository memory_cache x m' ≡ (ok d, m')) same seen in
    (
      d,
      m',
      Accepted-stored q id fresh now later dto m m' d h s,
      ground (arith, valid, run),
      ground (arith, found, h),
    )
