-- ===== src/Float64.antt =====
-- Go's `float64` values and the operations of the processor on them. A value is its IEEE-754 bit
-- pattern; the operations are no code of the repository, so they are a parameter of what uses them.
use game_ad_service.Common.{ℕ, Bool, false, ◌≡◌}
use game_ad_service.Common.Int.{ℤ, pos, ◌≤ℤ◌}

pub record Float64 : Type 0 where
  pub bits : ℕ

-- `float64(n)`, `/`, `*`, `+`, `-`, `a > b`, and the conversion `int(a)`.
pub record FloatOps : Type 0 where
  pub of_int : ℤ → Float64
  pub div : Float64 → Float64 → Float64
  pub mul : Float64 → Float64 → Float64
  pub add : Float64 → Float64 → Float64
  pub sub : Float64 → Float64 → Float64
  pub gt : Float64 → Float64 → Bool
  pub to_int : Float64 → ℤ

-- Integers up to this one are exact as `float64`.
abbrev pub max_exact : ℕ
max_exact = 9_007_199_254_740_992

-- What IEEE-754 arithmetic, rounding to nearest, gives for values between 0 and 1.
pub record FloatLaws (F : FloatOps) : Type 1 where
  pub IsUnit : Float64 → Type 0
  pub one_unit : IsUnit (F.of_int (pos 1))
  pub quotient_unit :
      (n d : ℤ)
      → pos 0 ≤ℤ n
      → pos 1 ≤ℤ d
      → F.gt (F.div (F.of_int n) (F.of_int d)) (F.of_int (pos 1)) ≡ false
      → IsUnit (F.div (F.of_int n) (F.of_int d))
  pub scaled :
      (p : ℤ) (u r : Float64)
      → pos 0 ≤ℤ p
      → p ≤ℤ pos max_exact
      → IsUnit u
      → IsUnit r
      → let b = F.to_int (F.mul (F.mul (F.of_int p) u) r) in (pos 0 ≤ℤ b) × (b ≤ℤ p)
