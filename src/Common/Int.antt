-- ===== src/Common/Int.antt =====
-- Signed integers over the native numbers, and the 64-bit counters of the source.
use Prim.Native.Nat.{ℕ, zero, suc, ◌+◌, ◌-◌, ◌*◌, ◌≤◌}
use mathlib.Core.Path.{◌≡◌}
use mathlib.Core.Logic.{◌≢◌}
use mathlib.Core.Bool.{Bool, true, false}
use native.Mathlib.Omega.{arith}
use native.Mathlib.Decide.{ℕ_discrete}
use game_ad_service.Common.Tests.{ltb, leb, ◌==◌, if◌then◌else◌}

-- `negsuc n` is -(n + 1).
pub data ℤ : Type 0 where
  pos : ℕ → ℤ
  negsuc : ℕ → ℤ

abbrev pub pos_part : ℤ → ℕ
pos_part (pos n) = n
pos_part (negsuc n) = 0

abbrev pub neg_part : ℤ → ℕ
neg_part (pos n) = 0
neg_part (negsuc n) = suc n

-- a - b, as an integer.
abbrev pub sub_ℕ : ℕ → ℕ → ℤ
sub_ℕ a b = if leb b a then pos (a - b) else negsuc (b - a - 1)

infixl 65 ◌+ℤ◌ ◌-ℤ◌
infix 50 ◌≤ℤ◌ ◌<ℤ◌
unfoldable pub ◌+ℤ◌ : ℤ → ℤ → ℤ
a +ℤ b = sub_ℕ (pos_part a + pos_part b) (neg_part a + neg_part b)

unfoldable pub ◌-ℤ◌ : ℤ → ℤ → ℤ
a -ℤ b = sub_ℕ (pos_part a + neg_part b) (neg_part a + pos_part b)

infixl 70 ◌*ℤ◌
unfoldable pub ◌*ℤ◌ : ℤ → ℤ → ℤ
a *ℤ b =
    sub_ℕ (pos_part a * pos_part b + neg_part a * neg_part b)
      (pos_part a * neg_part b + neg_part a * pos_part b)

abbrev pub ◌≤ℤ◌ : ℤ → ℤ → Type 0
a ≤ℤ b = pos_part a + neg_part b ≤ pos_part b + neg_part a

abbrev pub ◌<ℤ◌ : ℤ → ℤ → Type 0
a <ℤ b = suc (pos_part a + neg_part b) ≤ pos_part b + neg_part a

abbrev pub ltb_ℤ : ℤ → ℤ → Bool
ltb_ℤ a b = ltb (pos_part a + neg_part b) (pos_part b + neg_part a)

abbrev pub leb_ℤ : ℤ → ℤ → Bool
leb_ℤ a b = leb (pos_part a + neg_part b) (pos_part b + neg_part a)

abbrev pub eqb_ℤ : ℤ → ℤ → Bool
eqb_ℤ a b = (pos_part a + neg_part b) == (pos_part b + neg_part a)

-- One lemma for each operation lets `omega` work with the operations shut.
pub +ℤ_parts :
    (a b : ℤ)
    → pos_part (a +ℤ b) + neg_part a + neg_part b ≡ neg_part (a +ℤ b) + pos_part a + pos_part b
unfolding ◌+ℤ◌
+ℤ_parts a b = ground arith

pub -ℤ_parts :
    (a b : ℤ)
    → pos_part (a -ℤ b) + neg_part a + pos_part b ≡ neg_part (a -ℤ b) + pos_part a + neg_part b
unfolding ◌-ℤ◌
-ℤ_parts a b = ground arith

pub eq_of_parts : (a b : ℤ) → pos_part a + neg_part b ≡ pos_part b + neg_part a → a ≡ b
eq_of_parts a b h = ground arith

pub ruleset int_laws = (arith, +ℤ_parts, -ℤ_parts, eq_of_parts)

pub eqb_ℤ-refl : (a : ℤ) → eqb_ℤ a a ≡ true
eqb_ℤ-refl a = ground arith

pub eqb_ℤ→eq : (a b : ℤ) → eqb_ℤ a b ≡ true → a ≡ b
eqb_ℤ→eq a b h = eq_of_parts a b (ground arith)

pub ne→eqb_ℤ : (a b : ℤ) → a ≢ b → eqb_ℤ a b ≡ false
ne→eqb_ℤ a b h = ground (arith, eq_of_parts a b)

pub ℤ-discrete : Discrete ℤ
ℤ-discrete = hlevel ℕ_discrete

abbrev pub max_int64 : ℕ
max_int64 = 9_223_372_036_854_775_807

-- `x++` on an `int64` (and on an `int`, which has 64 bits on the supported platforms).
unfoldable pub incr : ℤ → ℤ
incr (pos n) = if n == max_int64 then negsuc max_int64 else pos (n + 1)
incr (negsuc zero) = pos 0
incr (negsuc (suc n)) = negsuc n

-- An increment always changes the value, also where it wraps round.
pub incr-ne : (a : ℤ) → incr a ≢ a
unfolding incr
incr-ne (pos n) = ground arith
incr-ne (negsuc zero) = ground arith
incr-ne (negsuc (suc n)) = ground arith

-- Below the largest value it adds one.
pub incr_lem : (a : ℤ) → a <ℤ pos max_int64 → incr a ≡ a +ℤ pos 1
unfolding incr ◌+ℤ◌
incr_lem (pos n) h = ground arith
incr_lem (negsuc zero) h = ground arith
incr_lem (negsuc (suc n)) h = ground arith

abbrev pub two_64 : ℕ
two_64 = 18_446_744_073_709_551_616

-- A sum or difference of two 64-bit values leaves the range by less than 2 ^ 64.
unfoldable pub wrap64 : ℤ → ℤ
wrap64 a =
    if ltb_ℤ (pos max_int64) a
    then a -ℤ pos two_64
    else if ltb_ℤ a (negsuc max_int64)
    then a +ℤ pos two_64
    else a

unfoldable pub sub64 : ℤ → ℤ → ℤ
unfolding wrap64
sub64 a b = wrap64 (a -ℤ b)

unfoldable pub add64 : ℤ → ℤ → ℤ
unfolding wrap64
add64 a b = wrap64 (a +ℤ b)

-- A difference of non-negative 64-bit values does not wrap.
pub sub64_lem :
    (a b : ℤ)
    → pos 0 ≤ℤ a
    → a ≤ℤ pos max_int64
    → pos 0 ≤ℤ b
    → b ≤ℤ pos max_int64
    → sub64 a b ≡ a -ℤ b
unfolding sub64
sub64_lem a b h k l m = ground (arith, -ℤ_parts a b)

-- `int32` addition.
unfoldable pub add32 : ℤ → ℤ → ℤ
add32 a b =
    let c = a +ℤ b in
    if ltb_ℤ (pos 2_147_483_647) c
    then c -ℤ pos 4_294_967_296
    else if ltb_ℤ c (negsuc 2_147_483_647)
    then c +ℤ pos 4_294_967_296
    else c
