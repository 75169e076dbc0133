-- ===== src/Errors/Codes.antt =====
-- Error codes as numbers: `Code` and `NewErrorCode` of pkg/errors/error.go.
use game_ad_service.Common.{
  ℕ, zero, suc, ◌/◌, ◌%◌, ◌≤◌, ◌≡◌, refl, arith, Bool-cases, inl, inr, ltb,
}
use game_ad_service.Errors.{ErrorCode, code, new_error_code, digits, padded_width}

digits_one : (n x : ℕ) → suc x ≤ 10 → digits n x ≡ 1
digits_one zero x h = refl
digits_one (suc n) x h = ground arith

-- A number below 100 is printed with two digits.
padded_width_small : (x : ℕ) → suc x ≤ 100 → padded_width x ≡ 2
padded_width_small zero h = refl
padded_width_small (suc n) h = elim (Bool-cases (ltb (suc n) 10)) [
  | inl e ↦ ground arith
  | inr e ↦ ground (arith, digits_one n (suc n / 10) (omega arith))
]

same_parts :
    (a b : ErrorCode)
    → a.status ≡ b.status
    → a.module_code ≡ b.module_code
    → a.detail_code ≡ b.detail_code
    → a ≡ b
same_parts a b e f g = ground arith

-- `NewErrorCode` and `Code` are inverse to one another: each number is the code of the error code
-- that is made of it, and an error code whose module and detail are below 100 is got back from its number.
new_error_code_inverse :
    (n : ℕ) (c : ErrorCode)
    → suc c.module_code ≤ 100
    → suc c.detail_code ≤ 100
    → (code (new_error_code n) ≡ n) × (new_error_code (code c) ≡ c)
unfolding code new_error_code
new_error_code_inverse n c h k =
    let w = padded_width_small (n / 100 % 100) (omega arith) in
    let v = padded_width_small (n % 100) (omega arith) in
    let w' = padded_width_small c.module_code h in
    let v' = padded_width_small c.detail_code k in
    (
      rw (w, v) (omega arith),
      rw (w', v') (same_parts _ c (omega arith) (omega arith) (omega arith)),
    )
