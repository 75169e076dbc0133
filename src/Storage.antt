-- ===== src/Storage.antt =====
-- internal/storage/repository.go: the interfaces of the stores, over a state `S` of the world. One
-- world may stand behind both interfaces, as the in-memory repository does in the default set-up.
pub mod Safe
use game_ad_service.Common.{
  ℕ, ◌-◌, String, Bool, true, false, Option, List, [], if◌then◌else◌, ite, leb, take, drop, ◌≡◌,
  refl, ◌⊎◌, inl, inr,
}
use game_ad_service.Common.Int.{ℤ, pos, negsuc}
use game_ad_service.Errors.{
  Error, Error-discrete, ad_not_found, concurrent_modification, invalid_ad_data, queue_empty,
  queue_full, queue_closed, item_locked, app, other, wrapped,
}
use game_ad_service.Ad.{Ad, AdStatus}

-- What a call gives back: a value, an error, or a run-time panic.
pub data Result (A : Type 0) : Type 0 where
  ok : A → Result A
  err : Error → Result A
  panic : Result A

-- To split on a result and keep the equation.
pub Result-cases :
    {A : Type 0} (r : Result A)
    → ((a : A) × (r ≡ ok a)) ⊎ (((e : Error) × (r ≡ err e)) ⊎ (r ≡ panic))
Result-cases (ok a) = inl (a, refl)
Result-cases (err e) = inr (inl (e, refl))
Result-cases panic = inr (inr refl)

abbrev pub Action : Type 0 → Type 0 → Type 0
Action S A = S → Result A × S

module _ {S A : Type 0} where
  unfoldable pub pure : A → Action S A
  pure a s = (ok a, s)

  unfoldable pub throw : Error → Action S A
  throw e s = (err e, s)

infixl 5 ◌>>=◌ ◌>>◌
unfoldable pub ◌>>=◌ : {S A B : Type 0} → Action S A → (A → Action S B) → Action S B
◌>>=◌ m f s =
    let (r, s') = m s in elim r [ ok a ↦ f a s' | err e ↦ (err e, s') | panic ↦ (panic, s') ]

unfoldable pub ◌>>◌ : {S A B : Type 0} → Action S A → Action S B → Action S B
unfolding ◌>>=◌
m >> k = m >>= λ _. k

-- `if err != nil` with both branches: the rest of the call after a value, and after an error.
unfoldable pub handle :
    {S A B : Type 0} → Action S A → (Error → Action S B) → (A → Action S B) → Action S B
handle m h f s =
    let (r, s') = m s in elim r [ ok a ↦ f a s' | err e ↦ h e s' | panic ↦ (panic, s') ]

-- A call whose result and error are dropped.
unfoldable pub ignore : {S A : Type 0} → Action S A → Action S (Unit {0})
ignore m = handle m (λ _. pure tt) (λ _. pure tt)

-- `defer d`: `d` runs when `body` has returned or panicked, and its result is dropped.
unfoldable pub deferring : {S A B : Type 0} → Action S B → Action S A → Action S A
deferring d body s = let (r, s') = body s in (r, (d s').1)

-- `errors.Is(e, target)`: `e` or an error that it wraps is the target.
unfoldable pub errors_is : Error → Error → Bool
errors_is (wrapped e) target = ite (Error-discrete (wrapped e) target) true (errors_is e target)
errors_is e target = ite (Error-discrete e target) true false

-- `xs[lo:hi]`, for `hi` at most the length: a negative or falling range panics.
unfoldable pub slice : {A : Type 0} → List A → ℤ → ℤ → Result (List A)
slice xs (pos lo) (pos hi) = if leb lo hi then ok (take (hi - lo) (drop lo xs)) else panic
slice xs (pos lo) (negsuc hi) = panic
slice xs (negsuc lo) hi = panic

-- An ad pointer that may be nil is an `Option`; a call that changes the ad it is given returns it.
pub record Repository (S : Type 0) : Type 0 where
  pub save : Option Ad → Action S String
  pub get : String → Action S Ad
  pub update : Option Ad → Action S Ad
  pub find_by_status : AdStatus → ℤ → ℤ → Action S (List Ad)
  pub find_by_priority : AdStatus → ℤ → Action S (List Ad)
  pub count_by_status : AdStatus → Action S ℤ
  pub delete_older_than : ℤ → ℤ → Action S ℤ
  pub assign_to_worker : List String → String → Action S ℤ
  pub release_worker_assignments : String → Action S ℤ
  pub atomic_status_update : ℤ → String → ℤ → AdStatus → AdStatus → Action S (Unit {0})
  pub batch_update_status : ℤ → List String → AdStatus → Action S ℤ
  pub acquire_lock : ℤ → String → String → ℤ → Action S Bool
  pub release_lock : String → String → Action S Bool

pub record CacheRepository (S : Type 0) : Type 0 where
  pub set : String → Option Ad → ℤ → Action S (Unit {0})
  pub get : String → Action S Ad
  pub delete : String → Action S (Unit {0})
  pub push_to_queue : String → String → ℤ → Action S (Unit {0})
  pub pop_from_queue : String → Action S String
  pub increment_counter : String → Action S ℤ
  pub get_gauge : String → Action S ℤ
  pub set_gauge : String → ℤ → Action S (Unit {0})

pub record RepositoryFactory (S : Type 0) : Type 0 where
  pub create_repository : Action S (Repository S)
  pub create_cache_repository : Action S (CacheRepository S)
