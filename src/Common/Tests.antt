-- ===== src/Common/Tests.antt =====
-- Boolean tests on the native numbers, the conditional, and decisions on texts.
use Prim.Native.Nat.{ℕ, compare, Ordering}
use Prim.Native.String.{String}
use mathlib.Core.Path.{◌≡◌, refl}
use mathlib.Core.Logic.{◌⊎◌, inl, inr, ◌≢◌}
use mathlib.Core.Bool.{Bool, true, false}
use mathlib.Core.Option.{Option, none, some}
use text.Mathlib.Text.{◌==◌ as str_eq}
use text.Mathlib.TextEquality.{eq_iff}

abbrev pub ltb : ℕ → ℕ → Bool
ltb a b = elim (compare a b) [ Ordering.lt ↦ true | _ ↦ false ]

abbrev pub leb : ℕ → ℕ → Bool
leb a b = elim (compare a b) [ Ordering.gt ↦ false | _ ↦ true ]

infix 50 ◌==◌
abbrev pub ◌==◌ : ℕ → ℕ → Bool
a == b = elim (compare a b) [ Ordering.eq ↦ true | _ ↦ false ]

infix 1 if◌then◌else◌
abbrev pub if◌then◌else◌ {ℓ} : {A : Type ℓ} → Bool → A → A → A
if true then x else y = x
if false then x else y = y

-- To split on a computed value and keep the equation.
pub Bool-cases : (b : Bool) → (b ≡ true) ⊎ (b ≡ false)
Bool-cases true = inl refl
Bool-cases false = inr refl

pub Option-cases {ℓ} : {A : Type ℓ} (o : Option A) → (o ≡ none) ⊎ ((a : A) × (o ≡ some a))
Option-cases none = inl refl
Option-cases (some a) = inr (a, refl)

text_decision : (s t : String) (b : Bool) → str_eq s t ≡ b → Dec (s ≡ t)
text_decision s t true e = yes ((eq_iff s t).0 e)
text_decision s t false e = no λ p. cc (e, (eq_iff s t).1 p)

-- Equality of texts, as a decision.
unfoldable pub String-discrete : Discrete String
unfolding text_decision
String-discrete s t = text_decision s t (str_eq s t) refl

pub ne_of_test : (s t : String) → str_eq s t ≡ false → s ≢ t
ne_of_test s t e p = cc (e, (eq_iff s t).1 p)
