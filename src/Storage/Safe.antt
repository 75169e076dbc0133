-- ===== src/Storage/Safe.antt =====
-- Calls that keep an invariant of the world, and rules to compose them.
use game_ad_service.Common.{◌≡◌, arith, Bool, true, false, if◌then◌else◌}
use game_ad_service.Errors.{Error}
use game_ad_service.Storage.{
  Result, ok, err, panic, Action, pure, throw, ◌>>=◌, ◌>>◌, handle, ignore, deferring,
}

abbrev pub OnOk : {A : Type 0} → (A → Type 0) → Result A → Type 0
OnOk P (ok a) = P a
OnOk P (err e) = Unit
OnOk P panic = Unit

abbrev pub Any : {A : Type 0} → A → Type 0
Any _ = Unit

pub any_result : {A : Type 0} (r : Result A) → OnOk Any r
any_result (ok a) = tt
any_result (err e) = tt
any_result panic = tt

-- From a world with the invariant the call leads to one with it, and a value that it returns
-- satisfies `P`.
pub record Safe {S A : Type 0} (I : S → Type 0) (P : A → Type 0) (act : Action S A) : Type 0 where
  pub keep : (s : S) → I s → I (act s).1 × OnOk P (act s).0

-- The rest of a call after a value.
pub bind_ok :
    {S A B : Type 0} (act : Action S A) (f : A → Action S B) (s : S) (a : A)
    → (act s).0 ≡ ok a
    → (act >>= f) s ≡ f a (act s).1
unfolding ◌>>=◌
bind_ok act f s a e = ground (arith, e)

pub bind_err :
    {S A B : Type 0} (act : Action S A) (f : A → Action S B) (s : S) (e : Error)
    → (act s).0 ≡ err e
    → (act >>= f) s ≡ (err e, (act s).1)
unfolding ◌>>=◌
bind_err act f s e h = ground (arith, h)

pub bind_panic :
    {S A B : Type 0} (act : Action S A) (f : A → Action S B) (s : S)
    → (act s).0 ≡ panic
    → (act >>= f) s ≡ (panic, (act s).1)
unfolding ◌>>=◌
bind_panic act f s h = ground (arith, h)

module _ {S : Type 0} {I : S → Type 0} where
  pub pure-Safe : {A : Type 0} (P : A → Type 0) (a : A) → P a → Safe I P (pure a)
  unfolding pure
  pure-Safe P a h = record { keep = λ s i. (i, h) }

  pub throw-Safe : {A : Type 0} (P : A → Type 0) (e : Error) → Safe I P (throw e)
  unfolding throw
  throw-Safe P e = record { keep = λ s i. (i, tt) }

  handle_at :
      {A B : Type 0} (P : A → Type 0) (Q : B → Type 0) (r : Result A) (t : S)
      (h : Error → Action S B) (f : A → Action S B)
      → I t
      → OnOk P r
      → ((e : Error) → Safe I Q (h e))
      → ((a : A) → P a → Safe I Q (f a))
      → let act : Action S A = λ _. (r, t) in I (handle act h f t).1 × OnOk Q (handle act h f t).0
  unfolding handle
  handle_at P Q (ok a) t h f i o sh sf = (sf a o).keep t i
  handle_at P Q (err e) t h f i o sh sf = (sh e).keep t i
  handle_at P Q panic t h f i o sh sf = (i, tt)

  pub handle-Safe :
      {A B : Type 0} (P : A → Type 0) (Q : B → Type 0) {act : Action S A} {h : Error → Action S B}
      {f : A → Action S B}
      → Safe I P act
      → ((e : Error) → Safe I Q (h e))
      → ((a : A) → P a → Safe I Q (f a))
      → Safe I Q (handle act h f)
  unfolding handle
  handle-Safe P Q {act} {h} {f} sa sh sf = record {
    keep = λ s i. let (i', o) = sa.keep s i in handle_at P Q (act s).0 (act s).1 h f i' o sh sf;
  }

  bind_at :
      {A B : Type 0} (P : A → Type 0) (Q : B → Type 0) (r : Result A) (t : S) (f : A → Action S B)
      → I t
      → OnOk P r
      → ((a : A) → P a → Safe I Q (f a))
      → let act : Action S A = λ _. (r, t) in I ((act >>= f) t).1 × OnOk Q ((act >>= f) t).0
  unfolding ◌>>=◌
  bind_at P Q (ok a) t f i o sf = (sf a o).keep t i
  bind_at P Q (err e) t f i o sf = (i, tt)
  bind_at P Q panic t f i o sf = (i, tt)

  pub any-Safe : {A : Type 0} (P : A → Type 0) {act : Action S A} → Safe I P act → Safe I Any act
  any-Safe P {act} sa = record { keep = λ s i. ((sa.keep s i).0, any_result (act s).0) }

  pub bind-Safe :
      {A B : Type 0} (P : A → Type 0) (Q : B → Type 0) {act : Action S A} {f : A → Action S B}
      → Safe I P act
      → ((a : A) → P a → Safe I Q (f a))
      → Safe I Q (act >>= f)
  unfolding ◌>>=◌
  bind-Safe P Q {act} {f} sa sf = record {
    keep = λ s i. let (i', o) = sa.keep s i in bind_at P Q (act s).0 (act s).1 f i' o sf;
  }

  pub then-Safe :
      {A B : Type 0} (P : A → Type 0) (Q : B → Type 0) {act : Action S A} {next : Action S B}
      → Safe I P act
      → Safe I Q next
      → Safe I Q (act >> next)
  unfolding ◌>>◌
  then-Safe P Q sa sn = bind-Safe P Q sa (λ _ _. sn)

  pub ignore-Safe :
      {A : Type 0} (P : A → Type 0) {act : Action S A} → Safe I P act → Safe I Any (ignore act)
  unfolding ignore
  ignore-Safe P sa = handle-Safe P Any sa (λ e. pure-Safe Any tt tt) (λ a p. pure-Safe Any tt tt)

  pub deferring-Safe :
      {A B : Type 0} (P : A → Type 0) (Q : B → Type 0) {d : Action S B} {act : Action S A}
      → Safe I Q d
      → Safe I P act
      → Safe I P (deferring d act)
  unfolding deferring
  deferring-Safe P Q {act = act} sd sa = record {
    keep = λ s i. let (i', o) = sa.keep s i in ((sd.keep (act s).1 i').0, o);
  }

  pub if-Safe :
      {A : Type 0} (P : A → Type 0) (b : Bool) {x y : Action S A}
      → Safe I P x
      → Safe I P y
      → Safe I P (if b then x else y)
  if-Safe P true sx sy = sx
  if-Safe P false sx sy = sy
