-- ===== src/Common/Pairs.antt =====
-- A relation between all pairs of items of a list.
use game_ad_service.Common.Tests.{Bool-cases}
use game_ad_service.Common.Lists.{All, All-take, take}
use game_ad_service.Common.Sort.{insert_sorted, sort_slice, sort_slice-All, insert_sorted-All}
use Prim.Native.Nat.{ℕ, zero, suc}
use mathlib.Core.Bool.{Bool}
use mathlib.Core.Logic.{inl, inr}
use mathlib.Core.List.{List, [], ◌∷◌}

module _ {ℓ} {A : Type ℓ} where
  pub All-zip :
      {P Q R : A → Type 0} (xs : List A)
      → ((a : A) → P a → Q a → R a)
      → All P xs
      → All Q xs
      → All R xs
  All-zip [] f p q = tt
  All-zip (x ∷ xs) f p q = (f x p.0 q.0, All-zip xs f p.1 q.1)

  -- Each item is in the relation to those before it.
  abbrev pub AllPairs : (A → A → Type 0) → List A → Type 0
  AllPairs R [] = Unit
  AllPairs R (x ∷ xs) = All (λ y. R y x) xs × AllPairs R xs

  pub AllPairs-take :
      (R : A → A → Type 0) (n : ℕ) (xs : List A) → AllPairs R xs → AllPairs R (take n xs)
  AllPairs-take R zero xs h = tt
  AllPairs-take R (suc n) [] h = tt
  AllPairs-take R (suc n) (x ∷ xs) h = (All-take (λ y. R y x) n xs h.0, AllPairs-take R n xs h.1)

  -- Sorting keeps a relation that goes both ways.
  module _ (R : A → A → Type 0) (flip : (a b : A) → R a b → R b a) (less : A → A → Bool) where
    insert_sorted-AllPairs :
        (x : A) (ys : List A)
        → All (λ y. R y x) ys
        → AllPairs R ys
        → AllPairs R (insert_sorted less x ys)
    unfolding insert_sorted
    insert_sorted-AllPairs x [] h p = (tt, tt)
    insert_sorted-AllPairs x (y ∷ ys) h p = elim (Bool-cases (less y x)) [
      | inl e ↦ rw e (
        insert_sorted-All less (λ z. R z y) x ys (flip y x h.0) p.0,
        insert_sorted-AllPairs x ys h.1 p.1,
      )
      | inr e ↦ rw e (h, p)
    ]

    pub sort_slice-AllPairs : (xs : List A) → AllPairs R xs → AllPairs R (sort_slice less xs)
    unfolding sort_slice
    sort_slice-AllPairs [] h = tt
    sort_slice-AllPairs (x ∷ xs) h =
        insert_sorted-AllPairs x (sort_slice less xs) (sort_slice-All less (λ y. R y x) xs h.0)
          (sort_slice-AllPairs xs h.1)
