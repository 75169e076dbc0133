-- ===== src/Utils.antt =====
-- pkg/utils/id_generator.go and validate.go. Texts are their bytes; the random generator and the
-- libraries for identifiers and for validation are parameters.
pub mod Ids
use game_ad_service.Common.{
  ℕ, zero, suc, ◌+◌, Option, none, some, List, [], ◌∷◌, ◌++◌, length, String,
}
use game_ad_service.Common.Int.{ℤ, pos, negsuc}
use game_ad_service.Storage.{Result, ok, err, panic, Action, pure, throw, ◌>>=◌}

-- `lower` letters from `a` on, then the upper ones.
abbrev letters_from : ℕ → ℕ → List ℕ
letters_from zero c = []
letters_from (suc n) c = c ∷ letters_from n (suc c)

abbrev pub letters : List ℕ
letters = letters_from 26 97 ++ letters_from 26 65

-- An index that is out of range panics.
unfoldable pub letter_at : {S : Type 0} → List ℕ → ℕ → Action S ℕ
letter_at [] k s = (panic, s)
letter_at (c ∷ cs) zero s = (ok c, s)
letter_at (c ∷ cs) (suc k) s = letter_at cs k s

module _ {S : Type 0} (intn : ℕ → Action S ℕ) where
  -- The loop over the bytes that are left.
  unfoldable pub random_letters : ℕ → Action S (List ℕ)
  unfolding letter_at
  random_letters zero = pure []
  random_letters (suc n) = do
    k ← intn (length letters)
    c ← letter_at letters k
    cs ← random_letters n
    pure (c ∷ cs)

  -- `make` panics for a negative length.
  unfoldable pub random_string : ℤ → Action S (List ℕ)
  unfolding random_letters
  random_string (pos n) s = random_letters n s
  random_string (negsuc n) s = (panic, s)

  -- 45 is the hyphen.
  unfoldable pub generate_instance_id : List ℕ → Action S (List ℕ)
  unfolding random_string
  generate_instance_id name = do suffix ← random_string (pos 8); pure (name ++ (45 ∷ suffix))

-- `uuid.New().String()`
unfoldable pub generate_id : {S : Type 0} → (uuid : Action S String) → Action S String
generate_id uuid = uuid

-- The calls of the validation library on values `V`, with its custom functions `F`.
pub record ValidatorLibrary (S V F : Type 0) : Type 0 where
  pub struct : V → Action S (Unit {0})
  pub register_validation : String → F → Action S (Unit {0})

pub record Validator (S V F : Type 0) : Type 0 where
  pub validate_struct : V → Action S (Unit {0})
  pub register_custom_validation : String → F → Action S (Unit {0})

module _ {S V F : Type 0} (library : ValidatorLibrary S V F) where
  unfoldable pub new_validator : Validator S V F
  new_validator = record {
    validate_struct = λ v. library.struct v;
    register_custom_validation = λ tag fn. library.register_validation tag fn;
  }

  -- `Validate`, by the default instance.
  unfoldable pub validate_value : V → Action S (Unit {0})
  unfolding new_validator
  validate_value v = new_validator.validate_struct v
