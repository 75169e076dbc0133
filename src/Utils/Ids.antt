-- ===== src/Utils/Ids.antt =====
-- What the random identifiers are made of.
use game_ad_service.Common.{
  ℕ, zero, suc, ◌+◌, ◌<◌, ◌≤◌, List, [], ◌∷◌, ◌++◌, All, ◌≡◌, refl, ap, arith, length, ◌⊎◌, inl,
  inr,
}
use game_ad_service.Storage.{ok, Action, pure, ◌>>=◌}
use game_ad_service.Utils.{
  letters_from, letters, letter_at, random_letters, random_string, generate_instance_id,
}

abbrev pub IsLetter : ℕ → Type 0
IsLetter c = ((97 ≤ c) × (c ≤ 122)) ⊎ ((65 ≤ c) × (c ≤ 90))

All-++ : (P : ℕ → Type 0) (l m : List ℕ) → All P l → All P m → All P (l ++ m)
All-++ P [] m h k = k
All-++ P (c ∷ l) m h k = (h.0, All-++ P l m h.1 k)

letters_from-All :
    (P : ℕ → Type 0) (n c : ℕ) → ((d : ℕ) → c ≤ d → d < c + n → P d) → All P (letters_from n c)
letters_from-All P zero c h = tt
letters_from-All P (suc n) c h = (
  h c (omega arith) (omega arith),
  letters_from-All P n (suc c) λ d lo hi. h d (omega arith) (omega arith),
)

letters-All : All IsLetter letters
letters-All =
    All-++ IsLetter (letters_from 26 97) (letters_from 26 65)
      (letters_from-All IsLetter 26 97 λ d lo hi. inl (lo, omega arith))
      (letters_from-All IsLetter 26 65 λ d lo hi. inr (lo, omega arith))

letter_at_lem :
    {S : Type 0} (P : ℕ → Type 0) (cs : List ℕ) (k : ℕ) (s : S)
    → All P cs
    → k < length cs
    → (c : ℕ) × (letter_at cs k s ≡ (ok c, s)) × P c
unfolding letter_at
letter_at_lem P [] k s h l = absurd (omega arith)
letter_at_lem P (c ∷ cs) zero s h l = (c, refl, h.0)
letter_at_lem P (c ∷ cs) (suc k) s h l = letter_at_lem P cs k s h.1 (omega arith)

-- `Intn` returns a number below its argument.
abbrev pub IsIntn : {S : Type 0} → (ℕ → Action S ℕ) → Type 0
IsIntn {S} intn = (n : ℕ) (s : S) → (k : ℕ) × (s' : S) × (intn (suc n) s ≡ (ok k, s')) × (k < suc n)

module _ {S : Type 0} (intn : ℕ → Action S ℕ) (law : IsIntn intn) where
  random_letters_lem :
      (n : ℕ) (s : S)
      → (cs : List ℕ) × (s' : S) × (random_letters intn n s ≡ (ok cs, s'))
        × (length cs ≡ n)
        × All IsLetter cs
  unfolding random_letters ◌>>=◌ pure
  random_letters_lem zero s = ([], s, refl, refl, tt)
  random_letters_lem (suc n) s =
      let (k, s1, drawn, below) = law 51 s in
      let (c, found, h) = letter_at_lem IsLetter letters k s1 letters-All below in
      let (cs, s2, rest, size, all) = random_letters_lem n s1 in
      (c ∷ cs, s2, ground (arith, drawn, found, rest), ap suc size, (h, all))

  -- With random numbers in range, an instance's id is its name, a hyphen and eight letters: the index
  -- into the letters is never out of range.
  generate_instance_id_lem :
      (name : List ℕ) (s : S)
      → (suffix : List ℕ) × (s' : S) × (generate_instance_id intn name s
          ≡ (ok (name ++ (45 ∷ suffix)), s'))
        × (length suffix ≡ 8)
        × All IsLetter suffix
  unfolding generate_instance_id random_string ◌>>=◌ pure
  generate_instance_id_lem name s =
      let (cs, s', e, size, all) = random_letters_lem 8 s in (cs, s', ground (arith, e), size, all)
