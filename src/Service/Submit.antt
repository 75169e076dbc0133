-- ===== src/Service/Submit.antt =====
-- `SubmitAd` and `GetAd` over the in-memory repository.
use game_ad_service.Common.{
  String, Option, none, some, ◌≡◌, ◌≢◌, refl, arith, true, false, Bool-cases, inl, inr, length, ◌⊎◌,
  if◌then◌else◌,
}
use game_ad_service.Common.Int.{ℤ, pos, ◌≤ℤ◌, ◌<ℤ◌, ltb_ℤ, leb_ℤ}
use game_ad_service.Common.Dict.{lookup, insert, lookup-insert, lookup-insert_self, values}
use game_ad_service.Errors.{
  Error, ad_not_found, wrapped, queue_full, queue_closed, app, err_not_found,
}
use game_ad_service.Ad.{Ad, status_queued}
use game_ad_service.Mapper.{AdDto, map_ad_to_ad_dto}
use game_ad_service.Storage.{Result, ok, err, panic, handle, ◌>>=◌, ◌>>◌, pure, throw, ignore}
use game_ad_service.Memory.State.{MemoryRepository, with_status}
use game_ad_service.Memory.{memory_repository, memory_cache, save, get}
use game_ad_service.Queue.State.{DistributedPriorityQueue}
use game_ad_service.Queue.{enqueue}
use game_ad_service.Queue.Enqueue.{HasRoom, queued_ad, enqueue_success, enqueue_refused}
use game_ad_service.Service.{submitted, enqueue_submitted, submit_ad, get_stored, get_ad}

-- Either the queue takes the ad, or it is closed, or it is full.
data Room (q : DistributedPriorityQueue) (m : MemoryRepository) : Type 0 where
  room : HasRoom q m → Room q m
  closed : q.closed ≡ true → Room q m
  full :
      q.closed ≡ false
      → pos 0 <ℤ q.max_capacity
      → q.max_capacity ≤ℤ pos (length (with_status status_queued (values m.ads)))
      → Room q m

Room-cases : (q : DistributedPriorityQueue) (m : MemoryRepository) → Room q m
Room-cases q m =
    let n = pos (length (with_status status_queued (values m.ads))) in
    elim (Bool-cases q.closed) [
      | inl c ↦ closed c
      | inr o ↦ elim (Bool-cases (leb_ℤ q.max_capacity n)) [
        | inr h ↦ room (record { is_open = o; below = λ p. ground arith })
        | inl h ↦ elim (Bool-cases (ltb_ℤ (pos 0) q.max_capacity)) [
          | inl p ↦ full o (ground arith) (ground arith)
          | inr p ↦ room (record { is_open = o; below = λ k. ground arith })
        ]
      ]
    ]

-- What the client gets: the ad as it is stored now, in one of two states.
pub record Submitted (q : DistributedPriorityQueue) (later : ℤ) (ad : Ad) (m m' : MemoryRepository)
    (d : AdDto) : Type 0 where
  pub stored_ad : Ad
  pub seen : d ≡ map_ad_to_ad_dto stored_ad
  pub own_id : stored_ad.ad_id ≡ ad.ad_id
  pub stored : lookup ad.ad_id m'.ads ≡ some stored_ad
  pub state : (stored_ad ≡ ad) ⊎ (stored_ad ≡ queued_ad later ad)
  pub kept : (j : String) → ad.ad_id ≢ j → lookup j m'.ads ≡ lookup j m.ads
  pub locks : m'.locks ≡ m.locks

-- Whatever error `Enqueue` gives is dropped.
after_enqueue_lem :
    (q : DistributedPriorityQueue) (later : ℤ) (ad ad' : Ad) (m m' : MemoryRepository)
    (r : Result (Unit {0}))
    → r ≢ panic
    → enqueue memory_repository memory_cache q later ad m ≡ (r, ad', m')
    → enqueue_submitted memory_repository memory_cache q later ad m
      ≡ (ok (map_ad_to_ad_dto ad'), m')
unfolding enqueue_submitted
after_enqueue_lem q later ad ad' m m' (ok _) h e = ground arith
after_enqueue_lem q later ad ad' m m' (err _) h e = ground arith
after_enqueue_lem q later ad ad' m m' panic h e = absurd (h refl)

module _ (q : DistributedPriorityQueue) (later : ℤ) (ad : Ad) (m : MemoryRepository)
    (hid : ad.ad_id ≢ "") where
  enqueue_submitted_lem :
      let m1 = record m { ads = insert ad.ad_id ad m.ads } in
      (d : AdDto) × (m' : MemoryRepository) × (enqueue_submitted memory_repository memory_cache q
          later ad m1
        ≡ (ok d, m'))
      × Submitted q later ad m m' d
  enqueue_submitted_lem =
      let m1 : MemoryRepository = record m { ads = insert ad.ad_id ad m.ads } in
      let here = lookup-insert_self ad.ad_id ad m.ads in
      let refused = enqueue_refused q later ad m1 in
      let dto = map_ad_to_ad_dto ad in
      let unchanged : Submitted q later ad m m1 dto = record {
        stored_ad = ad;
        seen = refl;
        own_id = refl;
        stored = here;
        state = inl refl;
        kept = λ j h. ground (arith, lookup-insert j ad.ad_id ad m.ads);
        locks = refl;
      } in
      let dropped = after_enqueue_lem q later ad ad m1 m1 in
      elim (Room-cases q m1) [
        | closed c ↦ (
          dto,
          m1,
          dropped (err (if q.closed then queue_closed else queue_full)) (λ p. ground arith)
              (refused (inl c)),
          unchanged,
        )
        | full o p h ↦ (
          dto,
          m1,
          dropped (err (if q.closed then queue_closed else queue_full)) (λ p. ground arith)
              (refused (inr (p, h))),
          unchanged,
        )
        | room h ↦
            let queued = queued_ad later ad in
            let (done, same, found, locks) = enqueue_success q later ad ad m1 h hid here refl in
            let run = enqueue memory_repository memory_cache q later ad m1 in
            (
              map_ad_to_ad_dto queued,
              run.2,
              after_enqueue_lem q later ad queued m1 run.2 (ok tt) (λ p. ground arith)
                  (ground (arith, done, same)),
              record {
                stored_ad = queued;
                seen = refl;
                own_id = refl;
                stored = ground (arith, found ad.ad_id);
                state = inr refl;
                kept = λ j h. ground (arith, found j, lookup-insert j ad.ad_id ad m.ads);
                locks = locks;
              },
            )
      ]

wrapped_ne : (e : Error) → wrapped e ≢ ad_not_found
wrapped_ne e p = ground arith

-- What `GetAd` makes of what is stored under the id.
abbrev pub stored_reply : Option Ad → Result AdDto
stored_reply none = err (wrapped (wrapped ad_not_found))
stored_reply (some a) = ok (map_ad_to_ad_dto a)

-- On an id that is not empty, `GetAd` returns the ad that is stored under it. For an id that is not
-- stored it returns the repository's error in two wrappings, which is not the error for a missing
-- ad that the service has. It changes nothing either way.
pub get_ad_lem :
    (id : String) (m : MemoryRepository)
    → id ≢ ""
    → (get_ad memory_repository memory_cache id m ≡ (stored_reply (lookup id m.ads), m))
      × ((get_ad memory_repository memory_cache id m).0 ≢ err (app err_not_found))
unfolding get_ad get_stored get handle ◌>>=◌ ◌>>◌ pure throw ignore
get_ad_lem id m h =
    let outer = wrapped_ne (wrapped ad_not_found) in
    let inner = wrapped_ne ad_not_found in
    let gives : get_ad memory_repository memory_cache id m ≡ (stored_reply (lookup id m.ads), m) =
      ground (arith, outer, inner) in
    (gives, ground (arith, outer, inner))

-- An ad that is submitted with an id, or gets one that is not empty, is accepted whatever the state
-- of the queue: it is stored under its id, as a submitted ad of version 1 or as what the queue makes of
-- that, all other ads and the locks are kept, and `GetAd` with the id then returns what the submission returned.
pub submit_ad-get_ad :
    (q : DistributedPriorityQueue) (fresh : String) (now later : ℤ) (ad : Ad) (m : MemoryRepository)
    → let ad' = submitted fresh now ad in
      ad'.ad_id ≢ ""
      → (d : AdDto) × (m' : MemoryRepository) × (submit_ad memory_repository memory_cache q fresh
            now later
            (some ad)
            m
          ≡ (ok d, m'))
        × Submitted q later ad' m m' d
        × (get_ad memory_repository memory_cache ad'.ad_id m' ≡ (ok d, m'))
unfolding submit_ad save handle throw
submit_ad-get_ad q fresh now later ad m h =
    let ad' = submitted fresh now ad in
    let (d, m', e, s) = enqueue_submitted_lem q later ad' m h in
    (d, m', ground (arith, e), s, ground (arith, s.seen, s.stored, (get_ad_lem ad'.ad_id m' h).0))
