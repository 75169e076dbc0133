-- ===== src/Common/Sort.antt =====
-- `sort.Slice`, by insertion. The source's comparisons leave the order of equal items open; any
-- order of them is met by some order of the input, over which the theorems range.
use game_ad_service.Common.Tests.{if◌then◌else◌, Bool-cases}
use game_ad_service.Common.Lists.{All, length}
use Prim.Native.Nat.{suc}
use mathlib.Core.Path.{◌≡◌, refl}
use mathlib.Core.Bool.{Bool, true, false}
use mathlib.Core.Logic.{inl, inr}
use mathlib.Core.List.{List, [], ◌∷◌, Perm}
use mathlib.Core.List.Perm
use native.Mathlib.Omega.{arith}

-- A test by which one can sort: it orders no two items both ways, and "not before" is transitive.
pub record IsOrder {ℓ} {A : Type ℓ} (less : A → A → Bool) : Type ℓ where
  pub asymmetric : (a b : A) → less a b ≡ true → less b a ≡ false
  pub transitive : (a b c : A) → less b a ≡ false → less c b ≡ false → less c a ≡ false

module _ {ℓ} {A : Type ℓ} (less : A → A → Bool) where
  unfoldable pub insert_sorted : A → List A → List A
  insert_sorted x [] = x ∷ []
  insert_sorted x (y ∷ ys) = if less y x then y ∷ insert_sorted x ys else x ∷ y ∷ ys

  unfoldable pub sort_slice : List A → List A
  unfolding insert_sorted
  sort_slice [] = []
  sort_slice (x ∷ xs) = insert_sorted x (sort_slice xs)

  -- No item of the list is less than `x`.
  abbrev pub Behind : A → List A → Type 0
  Behind x = All (λ y. less y x ≡ false)

  -- No item stands behind one that it is less than.
  abbrev pub IsSorted : List A → Type 0
  IsSorted [] = Unit
  IsSorted (x ∷ xs) = Behind x xs × IsSorted xs

  insert_sorted-Behind :
      (o : IsOrder less) (x y : A) (ys : List A)
      → less x y ≡ false
      → Behind y ys
      → Behind y (insert_sorted x ys)
  unfolding insert_sorted
  insert_sorted-Behind o x y [] h b = (h, tt)
  insert_sorted-Behind o x y (z ∷ zs) h b = ground (arith, insert_sorted-Behind o x y zs h b.1)

  Behind-trans :
      (o : IsOrder less) (x y : A) (ys : List A) → less y x ≡ false → Behind y ys → Behind x ys
  Behind-trans o x y [] h b = tt
  Behind-trans o x y (z ∷ zs) h b = (o.transitive x y z h b.0, Behind-trans o x y zs h b.1)

  insert_sorted-IsSorted :
      (o : IsOrder less) (x : A) (ys : List A) → IsSorted ys → IsSorted (insert_sorted x ys)
  unfolding insert_sorted
  insert_sorted-IsSorted o x [] s = (tt, tt)
  insert_sorted-IsSorted o x (y ∷ ys) s = elim (Bool-cases (less y x)) [
    | inl e ↦
        rw e (
          insert_sorted-Behind o x y ys (o.asymmetric y x e) s.0,
          insert_sorted-IsSorted o x ys s.1,
        )
    | inr e ↦ rw e ((e, Behind-trans o x y ys e s.0), s)
  ]

  -- The result is sorted.
  pub sort_slice-IsSorted : (o : IsOrder less) (xs : List A) → IsSorted (sort_slice xs)
  unfolding sort_slice
  sort_slice-IsSorted o [] = tt
  sort_slice-IsSorted o (x ∷ xs) =
      insert_sorted-IsSorted o x (sort_slice xs) (sort_slice-IsSorted o xs)

  insert_sorted-perm : (x : A) (ys : List A) → Perm (insert_sorted x ys) (x ∷ ys)
  unfolding insert_sorted
  insert_sorted-perm x [] = Perm.refl (x ∷ [])
  insert_sorted-perm x (y ∷ ys) = elim (Bool-cases (less y x)) [
    | inl e ↦ rw e (Perm.trans (Perm.cons y (insert_sorted-perm x ys)) (Perm.swap x y ys))
    | inr e ↦ rw e (Perm.refl (x ∷ y ∷ ys))
  ]

  -- The result has the items of the input, each as often.
  pub sort_slice-perm : (xs : List A) → Perm (sort_slice xs) xs
  unfolding sort_slice
  sort_slice-perm [] = Perm.refl []
  sort_slice-perm (x ∷ xs) =
      Perm.trans (insert_sorted-perm x (sort_slice xs)) (Perm.cons x (sort_slice-perm xs))

  pub insert_sorted-All {κ} :
      (P : A → Type κ) (x : A) (ys : List A) → P x → All P ys → All P (insert_sorted x ys)
  unfolding insert_sorted
  insert_sorted-All P x [] p h = (p, tt)
  insert_sorted-All P x (y ∷ ys) p h = elim (Bool-cases (less y x)) [
    | inl e ↦ rw e (h.0, insert_sorted-All P x ys p h.1)
    | inr e ↦ rw e (p, h)
  ]

  pub sort_slice-All {κ} : (P : A → Type κ) (xs : List A) → All P xs → All P (sort_slice xs)
  unfolding sort_slice
  sort_slice-All P [] h = tt
  sort_slice-All P (x ∷ xs) h = insert_sorted-All P x (sort_slice xs) h.0 (sort_slice-All P xs h.1)

  length-insert_sorted : (x : A) (ys : List A) → length (insert_sorted x ys) ≡ suc (length ys)
  unfolding insert_sorted
  length-insert_sorted x [] = refl
  length-insert_sorted x (y ∷ ys) = ground (arith, length-insert_sorted x ys)

  pub length-sort_slice : (xs : List A) → length (sort_slice xs) ≡ length xs
  unfolding sort_slice
  length-sort_slice [] = refl
  length-sort_slice (x ∷ xs) =
      omega (arith, length-insert_sorted x (sort_slice xs), length-sort_slice xs)

  All-insert_sorted {κ} :
      (P : A → Type κ) (x : A) (ys : List A) → All P (insert_sorted x ys) → P x × All P ys
  unfolding insert_sorted
  All-insert_sorted P x [] h = (h.0, tt)
  All-insert_sorted P x (y ∷ ys) h = elim (Bool-cases (less y x)) [
    | inl e ↦
        let g : All P (y ∷ insert_sorted x ys) = rw e at h in
        let rest = All-insert_sorted P x ys g.1 in (rest.0, (g.0, rest.1))
    | inr e ↦ let g : All P (x ∷ y ∷ ys) = rw e at h in (g.0, g.1)
  ]

  -- What holds of every item of the result holds of every item of the input.
  pub All-sort_slice {κ} : (P : A → Type κ) (xs : List A) → All P (sort_slice xs) → All P xs
  unfolding sort_slice
  All-sort_slice P [] h = tt
  All-sort_slice P (x ∷ xs) h =
      let g = All-insert_sorted P x (sort_slice xs) h in (g.0, All-sort_slice P xs g.1)
