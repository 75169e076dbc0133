-- ===== src/Memory/Versions.antt =====
-- Optimistic concurrency control: `Save`, `Get`, `Update` and `AtomicStatusUpdate`.
use game_ad_service.Common.{
  String, String-discrete, none, some, ◌≡◌, ◌≢◌, refl, sym, ◌∙◌, arith, inl, inr, Option-cases, ite,
  true, ◌⊎◌, ap, Bool-cases,
}
use game_ad_service.Common.Int.{ℤ, incr, incr-ne, eqb_ℤ, eqb_ℤ→eq, eqb_ℤ-refl, ne→eqb_ℤ}
use game_ad_service.Common.Dict.{lookup, insert, lookup-insert, lookup-insert_self}
use game_ad_service.Errors.{Error, ad_not_found, concurrent_modification, wrapped}
use game_ad_service.Ad.{Ad, AdStatus}
use game_ad_service.Storage.{ok, err, panic, Action, errors_is}
use game_ad_service.Memory.State.{MemoryRepository}
use game_ad_service.Memory.{
  save, get, update, update_existing, atomic_status_update, status_update_existing, with_new_status,
}

-- Saving an ad with an id succeeds with that id; afterwards reading any id that is not empty gives
-- the saved ad under its own id and what was there before under every other, and reading changes
-- nothing.
get-save :
    (ad : Ad) (j : String) (m : MemoryRepository)
    → ad.ad_id ≢ ""
    → j ≢ ""
    → let (r, m') = save (some ad) m in
      (r ≡ ok ad.ad_id) × (get j m' ≡ (ite (String-discrete ad.ad_id j) (ok ad) (get j m).0, m'))
unfolding save get
get-save ad j m h k = ground (arith, lookup-insert j ad.ad_id ad m.ads)

-- When an update of an ad succeeds, the ad was stored with the version that the caller has; the
-- update returns the ad with the version counted up, stores that, and touches no other ad.
update_success :
    (ad r : Ad) (m : MemoryRepository)
    → (update (some ad) m).0 ≡ ok r
    → (existing : Ad) × (lookup ad.ad_id m.ads ≡ some existing)
      × (existing.version ≡ ad.version)
      × (r ≡ record ad { version = incr ad.version })
      × ((update (some ad) m).1 ≡ record m { ads = insert ad.ad_id r m.ads })
unfolding update update_existing
update_success ad r m h = elim (Option-cases (lookup ad.ad_id m.ads)) [
  | inl e ↦ ground arith
  | inr (existing, e) ↦
      (existing, e, eqb_ℤ→eq existing.version ad.version (ground arith), ground arith, ground arith)
]

-- The writes that check a version: replacing the ad by a changed copy, or changing its status.
pub data Write : Type 0 where
  replaces : Ad → Write
  changes : (now : ℤ) → (from to : AdStatus) → Write

-- A write to the ad with the given id by a caller that last saw the given version; only whether
-- it fails, and the state, are kept.
unfoldable pub write : String → ℤ → Write → Action MemoryRepository (Unit {0})
write id v (replaces ad) m =
    let (r, m') = update (some (record ad { ad_id = id; version = v })) m in
    (elim r [ ok _ ↦ ok tt | err e ↦ err e | panic ↦ panic ], m')
write id v (changes now from to) m = atomic_status_update now id v from to m

-- What a successful write leaves: the ad is stored with the next version.
write_next :
    (id : String) (v : ℤ) (w : Write) (m : MemoryRepository)
    → (write id v w m).0 ≡ ok tt
    → (a : Ad) × (lookup id (write id v w m).1.ads ≡ some a) × (a.version ≡ incr v)
unfolding write update update_existing atomic_status_update status_update_existing
write_next id v (replaces ad) m h =
    let stored = record ad { ad_id = id; version = incr v } in
    (stored, ground (arith, lookup-insert_self id stored m.ads), refl)
write_next id v (changes now from to) m h = elim (Option-cases (lookup id m.ads)) [
  | inl e ↦ ground arith
  | inr (a, e) ↦
      let stored = with_new_status now to a in
      (
        stored,
        ground (arith, lookup-insert_self id stored m.ads),
        ap incr (eqb_ℤ→eq a.version v (ground arith)),
      )
]

-- A write that saw another version than the stored one fails and changes nothing.
write_stale :
    (id : String) (v : ℤ) (w : Write) (m : MemoryRepository) (a : Ad)
    → id ≢ ""
    → lookup id m.ads ≡ some a
    → a.version ≢ v
    → (e : Error) × (write id v w m ≡ (err e, m)) × (errors_is e concurrent_modification ≡ true)
unfolding write update update_existing atomic_status_update status_update_existing errors_is
write_stale id v (replaces ad) m a hid e ne =
    (wrapped concurrent_modification, ground (arith, ne→eqb_ℤ a.version v ne), ground arith)
write_stale id v (changes now from to) m a hid e ne =
    (concurrent_modification, ground (arith, ne→eqb_ℤ a.version v ne), ground arith)

-- Of two writers that saw the same version of an ad with an id, whether they replace it or change
-- its status, the second fails with the concurrent-modification error once the first has
-- succeeded, and it changes nothing: no update is lost.
pub write-write :
    (id : String) (v : ℤ) (first second : Write) (m : MemoryRepository)
    → id ≢ ""
    → (write id v first m).0 ≡ ok tt
    → let m' = (write id v first m).1 in
      (e : Error) × (write id v second m' ≡ (err e, m'))
      × (errors_is e concurrent_modification ≡ true)
write-write id v first second m hid h =
    let (a, stored, next) = write_next id v first m h in
    write_stale id v second (write id v first m).1 a hid stored (λ p. incr-ne v (sym next ∙ p))

-- All outcomes of `AtomicStatusUpdate`. If no ad has the id, it reports that and changes nothing. If the
-- stored ad has the expected version and the expected status, it succeeds: the ad then has the new
-- status and the next version, as its time of completion the present if that status is `completed`
-- and what it was otherwise, all else as before, and no other ad and no lock is touched. In all other
-- cases it reports a concurrent modification and changes nothing.
pub atomic_status_update_lem :
    (now : ℤ) (id : String) (v : ℤ) (from to : AdStatus) (m : MemoryRepository)
    → let (r, m') = atomic_status_update now id v from to m in
      ((lookup id m.ads ≡ none) × (r ≡ err ad_not_found) × (m' ≡ m))
      ⊎ ((a : Ad) × (lookup id m.ads ≡ some a)
          × (((a.version ≡ v)
                × (a.status ≡ from)
                × (r ≡ ok tt)
                × (m'.locks ≡ m.locks)
                × ((j : String)
                    → lookup j m'.ads
                      ≡ ite
                          (String-discrete id j)
                          (some (record a {
                            status = to;
                            version = incr a.version;
                            completed_at =
                                ite (String-discrete to "completed") (some now) a.completed_at;
                          }))
                          (lookup j m.ads)))
              ⊎ (((a.version ≢ v) ⊎ (a.status ≢ from))
                  × (r ≡ err concurrent_modification)
                  × (m' ≡ m))))
unfolding atomic_status_update status_update_existing
atomic_status_update_lem now id v from to m = elim (Option-cases (lookup id m.ads)) [
  | inl e ↦ inl (e, ground arith, ground arith)
  | inr (a, e) ↦ inr (
    a,
    e,
    elim (Bool-cases (eqb_ℤ a.version v)) [
      | inr ne ↦ inr (inl (λ q. ground (arith, eqb_ℤ-refl v)), ground arith, ground arith)
      | inl eq ↦ elim (String-discrete a.status from) [
        | no n ↦ inr (inr n, ground arith, ground arith)
        | yes s ↦
            let written : (atomic_status_update now id v from to m).1
                ≡ record m { ads = insert id (with_new_status now to a) m.ads } =
              ground arith in
            inl (
              eqb_ℤ→eq a.version v eq,
              s,
              ground arith,
              ap (λ (x : MemoryRepository). x.locks) written,
              λ j.
                  ap (λ (x : MemoryRepository). lookup j x.ads) written
                  ∙ lookup-insert j id (with_new_status now to a) m.ads,
            )
      ]
    ],
  )
]
