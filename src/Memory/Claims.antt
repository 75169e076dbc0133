-- ===== src/Memory/Claims.antt =====
-- How often an ad is taken out of a status, whatever clients make the calls.
use game_ad_service.Common.{
  ℕ, ◌+◌, ◌≤◌, Bool-cases, String, String-discrete, none, List, [], ◌∷◌, All, ◌≡◌, ◌≢◌, refl, arith,
  ite, if_pos, if_neg, inl, inr, ◌⊎◌, Option-cases,
}
use game_ad_service.Common.Int.{ℤ, eqb_ℤ}
use game_ad_service.Common.Dict.{Dict, Entries, IsUnique, lookup, insert, lookup-Entries}
use game_ad_service.Ad.{Ad, AdStatus}
use game_ad_service.Storage.{Result, ok, err, panic}
use game_ad_service.Storage.Safe.{OnOk}
use game_ad_service.Memory.State.{MemoryRepository}
use game_ad_service.Memory.Invariant.{
  Call, saves, updates, deletes, deletes_older, assigns, releases_worker, changes_status,
  changes_statuses, locks, unlocks, pushes, sets, step, run, IsValid, AllKeyed, step-IsValid,
}
use game_ad_service.Memory.{atomic_status_update, status_update_existing, with_new_status}
use game_ad_service.Memory.Statuses.{UnlessIn, IsOutOf, Spares, step-IsOutOf, run-IsOutOf}

abbrev succeeded : {A : Type 0} → Result A → ℕ
succeeded (ok _) = 1
succeeded (err _) = 0
succeeded panic = 0

-- How many of the calls take the ad with the id out of the status and succeed: by such a call
-- `Dequeue` claims a queued ad, and `Complete` ends the processing of one.
claim : AdStatus → String → Call → MemoryRepository → ℕ
claim st id (changes_status now j v from to) m =
    ite (String-discrete j id)
      (ite (String-discrete from st) (succeeded (atomic_status_update now j v from to m).0) 0) 0
claim st id _ m = 0

unfoldable pub claims : AdStatus → String → List Call → MemoryRepository → ℕ
unfolding claim
claims st id [] m = 0
claims st id (c ∷ cs) m = claim st id c m + claims st id cs (step c m)

-- None succeeds while the ad does not have the status.
claim-IsOutOf :
    (st : AdStatus) (id : String) (c : Call) (m : MemoryRepository)
    → IsOutOf st id m
    → claim st id c m ≡ 0
unfolding claim atomic_status_update status_update_existing
claim-IsOutOf st id (changes_status now j v from to) m u = elim (Option-cases (lookup j m.ads)) [
  | inl e ↦ ground arith
  | inr (a, e) ↦ ground (arith, lookup-Entries (UnlessIn st id) j m.ads a u e)
]
claim-IsOutOf st id (saves ad) m u = refl
claim-IsOutOf st id (updates ad) m u = refl
claim-IsOutOf st id (deletes j) m u = refl
claim-IsOutOf st id (deletes_older now days) m u = refl
claim-IsOutOf st id (assigns ids worker) m u = refl
claim-IsOutOf st id (releases_worker worker) m u = refl
claim-IsOutOf st id (changes_statuses now ids to) m u = refl
claim-IsOutOf st id (locks now j owner ttl) m u = refl
claim-IsOutOf st id (unlocks j owner) m u = refl
claim-IsOutOf st id (pushes queue j p) m u = refl
claim-IsOutOf st id (sets j ad ttl) m u = refl

pub claims-IsOutOf :
    (st : AdStatus) (id : String) (cs : List Call) (m : MemoryRepository)
    → All (Spares st id) cs
    → IsOutOf st id m
    → claims st id cs m ≡ 0
unfolding claims
claims-IsOutOf st id [] m h u = refl
claims-IsOutOf st id (c ∷ cs) m h u = omega (
  arith,
  claim-IsOutOf st id c m u,
  claims-IsOutOf st id cs (step c m) h.1 (step-IsOutOf st id c m h.0 u),
)

absent-IsOutOf :
    (st : AdStatus) (id : String) (m : Dict Ad) → lookup id m ≡ none → Entries (UnlessIn st id) m
unfolding lookup
absent-IsOutOf st id [] e = tt
absent-IsOutOf st id ((j, a) ∷ m) e = elim (String-discrete j id) [
  | yes p ↦ ground arith
  | no n ↦ ((λ p. absurd (n p)), absent-IsOutOf st id m (ground arith))
]

insert-self-IsOutOf :
    (st : AdStatus) (id : String) (b : Ad) (m : Dict Ad)
    → IsUnique m
    → b.status ≢ st
    → Entries (UnlessIn st id) (insert id b m)
unfolding insert
insert-self-IsOutOf st id b [] u h = ((λ p. h), tt)
insert-self-IsOutOf st id b ((j, a) ∷ m) u h = elim (String-discrete j id) [
  | yes p ↦ rw (if_pos _ p) ((λ q. h), absent-IsOutOf st id m (ground (arith, u.0, p)))
  | no n ↦ rw (if_neg _ n) ((λ p. absurd (n p)), insert-self-IsOutOf st id b m u.1 h)
]

-- One that succeeds leaves the ad out of the status.
claim_cases :
    (st : AdStatus) (id : String) (c : Call) (m : MemoryRepository)
    → Spares st id c
    → IsValid m
    → (claim st id c m ≡ 0) ⊎ ((claim st id c m ≡ 1) × IsOutOf st id (step c m))
unfolding claim step atomic_status_update status_update_existing
claim_cases st id (changes_status now j v from to) m h valid = elim (String-discrete j id) [
  | no n ↦ inl (ground arith)
  | yes p ↦ elim (Option-cases (lookup j m.ads)) [
    | inl e ↦ inl (ground arith)
    | inr (a, e) ↦
        let b = with_new_status now to a in
        let left : IsOutOf st id (record m { ads = insert j b m.ads }) =
          rw p (insert-self-IsOutOf st id b m.ads valid.unique_ads (h p)) in
        elim (Bool-cases (eqb_ℤ a.version v)) [
          | inr stale ↦ inl (ground arith)
          | inl same ↦ elim (String-discrete a.status from) [
            | no other ↦ inl (ground arith)
            | yes s ↦ elim (String-discrete from st) [
              | no other ↦ inl (ground arith)
              | yes q ↦ inr (ground arith, ground (arith, left))
            ]
          ]
        ]
  ]
]
claim_cases st id (saves ad) m h valid = inl refl
claim_cases st id (updates ad) m h valid = inl refl
claim_cases st id (deletes j) m h valid = inl refl
claim_cases st id (deletes_older now days) m h valid = inl refl
claim_cases st id (assigns ids worker) m h valid = inl refl
claim_cases st id (releases_worker worker) m h valid = inl refl
claim_cases st id (changes_statuses now ids to) m h valid = inl refl
claim_cases st id (locks now j owner ttl) m h valid = inl refl
claim_cases st id (unlocks j owner) m h valid = inl refl
claim_cases st id (pushes queue j p) m h valid = inl refl
claim_cases st id (sets j ad ttl) m h valid = inl refl

-- One that succeeds is of an ad that has the status.
pub succeeded-Other :
    (st : AdStatus) (id : String) (now : ℤ) (j : String) (v : ℤ) (to : AdStatus)
    (m : MemoryRepository)
    → IsOutOf st id m
    → OnOk (λ _. j ≢ id) (atomic_status_update now j v st to m).0
unfolding atomic_status_update status_update_existing
succeeded-Other st id now j v to m u = elim (Option-cases (lookup j m.ads)) [
  | inl e ↦ ground arith
  | inr (a, e) ↦ ground (arith, lookup-Entries (UnlessIn st id) j m.ads a u e)
]

-- The same of a run of calls: if one of them succeeds, the ad is out of the status at the end.
pub claims_cases :
    (st : AdStatus) (id : String) (cs : List Call) (m : MemoryRepository)
    → All (Spares st id) cs
    → AllKeyed cs
    → IsValid m
    → (claims st id cs m ≡ 0) ⊎ IsOutOf st id (run cs m)
unfolding claims run
claims_cases st id [] m h k v = inl refl
claims_cases st id (c ∷ cs) m h k v = elim (claim_cases st id c m h.0 v) [
  | inl e ↦ elim (claims_cases st id cs (step c m) h.1 k.1 (step-IsValid c m k.0 v)) [
    | inl f ↦ inl (omega (arith, e, f))
    | inr u ↦ inr u
  ]
  | inr (e, u) ↦ inr (run-IsOutOf st id cs (step c m) h.1 u)
]

pub succeeded-IsOutOf :
    (st : AdStatus) (now : ℤ) (id : String) (v : ℤ) (from to : AdStatus) (m : MemoryRepository)
    → to ≢ st
    → IsValid m
    → (atomic_status_update now id v from to m).0 ≡ ok tt
    → IsOutOf st id (atomic_status_update now id v from to m).1
unfolding atomic_status_update status_update_existing
succeeded-IsOutOf st now id v from to m h valid e = elim (Option-cases (lookup id m.ads)) [
  | inl f ↦ absurd (ground (arith, e, f))
  | inr (a, f) ↦
      let b = with_new_status now to a in
      let left = insert-self-IsOutOf st id b m.ads valid.unique_ads h in ground (arith, e, f, left)
]

-- However the calls of any clients on a valid repository are interleaved, if each `Set` stores an ad
-- under its own id and none of the calls puts the ad with the given id into the given status, at most
-- one of them takes it out of that status: no two calls of `AtomicStatusUpdate` from the status
-- succeed, so that a queued ad is claimed once at most, and one in processing is completed once at
-- most.
pub claims-le-one :
    (st : AdStatus) (id : String) (cs : List Call) (m : MemoryRepository)
    → All (Spares st id) cs
    → AllKeyed cs
    → IsValid m
    → claims st id cs m ≤ 1
unfolding claims
claims-le-one st id [] m h k v = omega arith
claims-le-one st id (c ∷ cs) m h k v = elim (claim_cases st id c m h.0 v) [
  | inl e ↦ omega (arith, claims-le-one st id cs (step c m) h.1 k.1 (step-IsValid c m k.0 v))
  | inr (e, u) ↦ omega (arith, claims-IsOutOf st id cs (step c m) h.1 u)
]
