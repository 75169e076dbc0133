-- ===== src/Queue/Claiming.antt =====
-- A claim by `AtomicStatusUpdate` beside the calls of other clients, and what follows it.
use game_ad_service.Common.{
  ℕ, String, String-discrete, Bool, true, false, some, ◌≡◌, ◌≢◌, refl, sym, subst, arith, ite,
  if_pos, inl, inr, Option-cases,
}
use game_ad_service.Common.Int.{ℤ}
use game_ad_service.Common.Dict.{lookup, lookup-Entries}
use game_ad_service.Ad.{Ad, AdStatus}
use game_ad_service.Storage.{Result, ok, err, panic}
use game_ad_service.Storage.Safe.{Safe, OnOk}
use game_ad_service.Memory.State.{MemoryRepository}
use game_ad_service.Memory.Loops.{OwnId}
use game_ad_service.Memory.Invariant.{update-IsValid, status-IsValid}
use game_ad_service.Memory.Statuses.{UnlessIn, IsOutOf, update-IsOutOf, status-IsOutOf}
use game_ad_service.Memory.Claims.{succeeded-IsOutOf, succeeded-Other}
use game_ad_service.Memory.{get, update, update_existing, atomic_status_update}
use game_ad_service.Queue.Shared.{advance, interleaved, shared_repository}
use game_ad_service.Queue.Gives.{Gives}
use game_ad_service.Queue.Interleaved.{get-state}
use game_ad_service.Queue.Held.{
  taken, Fits, HeldBy, Fits-keep, advance-HeldBy, interleaved-HeldBy, Held,
}

module _ (st to : AdStatus) (left : to ≢ st) (id : String) where
  abbrev pub is_own : String → Bool
  is_own j = ite (String-discrete j id) true false

  -- An ad with the id that was read again after its claim.
  abbrev pub Reread : String → Ad → Type 0
  Reread j a = (a.ad_id ≡ j) × UnlessIn st id a.ad_id a

  -- A claim of an ad that another has taken fails, so that one that succeeds is the first.
  first_claim :
      (t : ℕ) (now v : ℤ) (m : MemoryRepository)
      → Held st id false t m
      → (atomic_status_update now id v st to m).0 ≡ ok tt
      → t ≡ 0
  first_claim t now v m o e = elim o.fits [
    | inl z ↦ z
    | inr u ↦ absurd (subst (OnOk (λ _. id ≢ id)) e (succeeded-Other st id now id v to m u) refl)
  ]

  claim-Fits :
      (t : ℕ) (now : ℤ) (j : String) (v : ℤ) (m : MemoryRepository)
      → Held st id false t m
      → (atomic_status_update now j v st to m).0 ≡ ok tt
      → Fits st id (is_own j) t (atomic_status_update now j v st to m).1
  claim-Fits t now j v m o e =
      let m' = (atomic_status_update now j v st to m).1 in
      elim (String-discrete j id) as (λ d. Fits st id (ite d true false) t m') [
        | no n ↦
            Fits-keep st id false t m m' (λ u. status-IsOutOf st id m u now j v st to (λ _. left))
              o.fits
        | yes p ↦
            let Wins = λ (k : String). (atomic_status_update now k v st to m).0 ≡ ok tt in
            (
              first_claim t now v m o (subst Wins p e),
              subst (λ k. IsOutOf st k m') p (succeeded-IsOutOf st now j v st to m left o.valid e),
            )
      ]

  own-IsOutOf :
      (own : Bool) (t : ℕ) (m : MemoryRepository)
      → own ≡ true
      → Fits st id own t m
      → IsOutOf st id m
  own-IsOutOf true t m h f = f.1
  own-IsOutOf false t m h f = absurd (ground (arith, h))

  get-Reread :
      (t : ℕ) (j : String) (m : MemoryRepository)
      → Held st id (is_own j) t m
      → OnOk (Reread j) (get j m).0
  unfolding get
  get-Reread t j m o = elim (Option-cases (lookup j m.ads)) [
    | inl e ↦ ground arith
    | inr (a, e) ↦
        let same : a.ad_id ≡ j = lookup-Entries OwnId j m.ads a o.valid.own_ids e in
        let out : UnlessIn st id j a = λ p.
          let u = own-IsOutOf (is_own j) t m (if_pos (String-discrete j id) p true false) o.fits in
          lookup-Entries (UnlessIn st id) j m.ads a u e p in
        let read : Reread j a = (same, λ p. out (ground (arith, same, p))) in
        ground (arith, e, read)
  ]

  update-Reread :
      (j : String) (a : Ad) (m : MemoryRepository)
      → Reread j a
      → OnOk (Reread j) (update (some a) m).0
  unfolding update update_existing
  update-Reread j a m h = ground (arith, h.0, h.1)

  on_ok : {J : Type 0} (r : Result (Unit {0})) → (r ≡ ok tt → J) → OnOk (λ _. J) r
  on_ok (ok _) h = h refl
  on_ok (err e) h = tt
  on_ok panic h = tt

  -- Reading the ad again after the claim, and writing it back.
  pub read_again-kept :
      (j : String) → Safe (HeldBy st id (is_own j)) (Reread j) (interleaved (get j))
  read_again-kept j = interleaved-HeldBy st id (is_own j) (Reread j) λ t. record {
    keep = λ m o. (subst (Held st id (is_own j) t) (sym (get-state id j m)) o, get-Reread t j m o);
  }

  pub update-kept :
      (j : String) (b : Ad)
      → Reread j b
      → Safe (HeldBy st id (is_own j)) (Reread j) (interleaved (update (some b)))
  update-kept j b same = interleaved-HeldBy st id (is_own j) (Reread j) λ t. record {
    keep = λ m o. (
      record {
        valid = update-IsValid m o.valid (some b);
        fits =
            Fits-keep st id (is_own j) t m (update (some b) m).1
              (λ u. update-IsOutOf st id m u b same.1) o.fits;
      },
      update-Reread j b m same,
    );
  }

  pub claim-Gives :
      (now : ℤ) (j : String) (v : ℤ)
      → Gives
          (HeldBy st id false)
          (λ _. HeldBy st id (is_own j))
          (shared_repository.atomic_status_update now j v st to)
  unfolding interleaved
  claim-Gives now j v = record {
    keep = λ w s.
        let w' = advance w.memory w.others w.past in
        let s' = advance-HeldBy st id false w.memory w.others w.past s.now s.later in
        let t = taken st id w'.past in
        let (r, m') = atomic_status_update now j v st to w'.memory in
        let valid = status-IsValid w'.memory s'.now.valid now j v st to in
        let fits =
          Fits-keep st id false t w'.memory m'
            (λ u. status-IsOutOf st id w'.memory u now j v st to (λ _. left)) s'.now.fits in
        (
          record { now = record { valid = valid; fits = fits }; later = s'.later },
          on_ok r λ e. record {
            now = record { valid = valid; fits = claim-Fits t now j v w'.memory s'.now e };
            later = s'.later;
          },
        );
  }
