-- ===== src/Queue/Held.antt =====
-- What keeps an ad from being taken out of a status twice: a claim of one client beside those of others.
use game_ad_service.Common.{
  ℕ, ◌+◌, String, Bool, true, false, List, [], ◌∷◌, All, ◌≡◌, sym, subst, arith, inl, inr, ◌⊎◌,
}
use game_ad_service.Ad.{AdStatus}
use game_ad_service.Storage.{Action}
use game_ad_service.Storage.Safe.{Safe, Any, any_result}
use game_ad_service.Memory.State.{MemoryRepository}
use game_ad_service.Memory.Invariant.{
  Call, IsValid, AllKeyed, run, run-IsValid, release_lock-IsValid,
}
use game_ad_service.Memory.Statuses.{IsOutOf, Spares, run-IsOutOf, release_lock-IsOutOf}
use game_ad_service.Memory.Claims.{claims, claims-IsOutOf, claims_cases}
use game_ad_service.Memory.{get, release_lock}
use game_ad_service.Queue.Shared.{World, AllSpare, advance, interleaved}
use game_ad_service.Queue.Interleaved.{get-state}

-- How often the others have taken the ad with the id out of the status.
abbrev pub taken : AdStatus → String → List (MemoryRepository × List Call) → ℕ
taken st id [] = 0
taken st id ((m, cs) ∷ past) = claims st id cs m + taken st id past

module _ (st : AdStatus) (id : String) where
  -- At `true`, the others have never claimed the ad and it does not have the status, so that they cannot;
  -- otherwise one of these, so that it can only be claimed while they have not.
  abbrev pub Fits : Bool → ℕ → MemoryRepository → Type 0
  Fits true t m = (t ≡ 0) × IsOutOf st id m
  Fits false t m = (t ≡ 0) ⊎ IsOutOf st id m

  pub record Held (own : Bool) (t : ℕ) (m : MemoryRepository) : Type 0 where
    pub valid : IsValid m
    pub fits : Fits own t m

  pub record HeldBy (own : Bool) (w : World) : Type 0 where
    pub now : Held own (taken st id w.past) w.memory
    pub later : AllSpare st id w.others

  pub Fits-keep :
      (own : Bool) (t : ℕ) (m m' : MemoryRepository)
      → (IsOutOf st id m → IsOutOf st id m')
      → Fits own t m
      → Fits own t m'
  Fits-keep true t m m' f (z, u) = (z, f u)
  Fits-keep false t m m' f (inl z) = inl z
  Fits-keep false t m m' f (inr u) = inr (f u)

  pub Fits-weaken : (own : Bool) (t : ℕ) (m : MemoryRepository) → Fits own t m → Fits false t m
  Fits-weaken true t m (z, u) = inl z
  Fits-weaken false t m f = f

  Fits-run :
      (own : Bool) (t : ℕ) (m : MemoryRepository) (cs : List Call)
      → AllKeyed cs
      → All (Spares st id) cs
      → IsValid m
      → Fits own t m
      → Fits own (claims st id cs m + t) (run cs m)
  Fits-run true t m cs k h v (z, u) =
      (omega (arith, claims-IsOutOf st id cs m h u, z), run-IsOutOf st id cs m h u)
  Fits-run false t m cs k h v (inl z) = elim (claims_cases st id cs m h k v) [
    | inl e ↦ inl (omega (arith, e, z))
    | inr u ↦ inr u
  ]
  Fits-run false t m cs k h v (inr u) = inr (run-IsOutOf st id cs m h u)

  pub advance-HeldBy :
      (own : Bool) (m : MemoryRepository) (cs : List (List Call))
      (past : List (MemoryRepository × List Call))
      → Held own (taken st id past) m
      → AllSpare st id cs
      → HeldBy own (advance m cs past)
  advance-HeldBy own m [] past o h = record { now = o; later = tt }
  advance-HeldBy own m (cs ∷ rest) past o h = record {
    now = record {
      valid = run-IsValid cs m h.0 o.valid;
      fits = Fits-run own (taken st id past) m cs h.0 h.1 o.valid o.fits;
    };
    later = h.2;
  }

  -- A call that keeps the claim at any number keeps it beside the others.
  pub interleaved-HeldBy :
      {A : Type 0} (own : Bool) (P : A → Type 0) {act : Action MemoryRepository A}
      → ((t : ℕ) → Safe (Held own t) P act)
      → Safe (HeldBy own) P (interleaved act)
  unfolding interleaved
  interleaved-HeldBy own P {act} sa = record {
    keep = λ w s.
        let w' = advance w.memory w.others w.past in
        let s' = advance-HeldBy own w.memory w.others w.past s.now s.later in
        let (o, p) = (sa (taken st id w'.past)).keep w'.memory s'.now in
        (record { now = o; later = s'.later }, p);
  }

  -- What a call does that leaves the ads as they are, or locks and unlocks one.
  pub kept :
      {A : Type 0} (own : Bool) (act : Action MemoryRepository A)
      → ((m : MemoryRepository) → IsValid m → IsValid (act m).1)
      → ((m : MemoryRepository) → IsOutOf st id m → IsOutOf st id (act m).1)
      → Safe (HeldBy own) Any (interleaved act)
  kept own act v u = interleaved-HeldBy own Any λ t. record {
    keep = λ m o. (
      record { valid = v m o.valid; fits = Fits-keep own t m (act m).1 (u m) o.fits },
      any_result _,
    );
  }

  pub release-kept :
      (own : Bool) (j owner : String) → Safe (HeldBy own) Any (interleaved (release_lock j owner))
  release-kept own j owner =
      kept own (release_lock j owner) (λ m v. release_lock-IsValid m v j owner)
        (release_lock-IsOutOf st id j owner)

  pub get-kept : (own : Bool) (j : String) → Safe (HeldBy own) Any (interleaved (get j))
  get-kept own j =
      kept own (get j) (λ m v. subst IsValid (sym (get-state id j m)) v)
        (λ m u. subst (IsOutOf st id) (sym (get-state id j m)) u)
