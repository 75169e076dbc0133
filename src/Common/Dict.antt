-- ===== src/Common/Dict.antt =====
-- A Go map with string keys, as an association list. The order of the entries is the order in which
-- a `range` loop happens to visit them.
use game_ad_service.Common.Tests.{String-discrete}
use game_ad_service.Common.Lists.{length}
use Prim.Native.Nat.{◌+◌}
use Prim.Native.String.{String}
use mathlib.Core.Path.{◌≡◌, refl}
use mathlib.Core.Logic.{◌≢◌, ite, if_pos, if_neg, inl, ◌⊎◌}
use mathlib.Core.Option.{Option, none, some}
use mathlib.Core.List.{List, [], ◌∷◌, map}
use native.Mathlib.Omega.{arith}

abbrev pub Dict {ℓ} : Type ℓ → Type ℓ
Dict V = List (String × V)

module _ {ℓ} {V : Type ℓ} where
  -- `m[k]`, with `none` for a missing key.
  unfoldable pub lookup : String → Dict V → Option V
  lookup k [] = none
  lookup k ((j, v) ∷ m) = ite (String-discrete j k) (some v) (lookup k m)

  -- `m[k] = v`
  unfoldable pub insert : String → V → Dict V → Dict V
  insert k v [] = (k, v) ∷ []
  insert k v ((j, w) ∷ m) = ite (String-discrete j k) ((j, v) ∷ m) ((j, w) ∷ insert k v m)

  -- `delete(m, k)`
  unfoldable pub erase : String → Dict V → Dict V
  erase k [] = []
  erase k ((j, w) ∷ m) = ite (String-discrete j k) (erase k m) ((j, w) ∷ erase k m)

  abbrev pub values : Dict V → List V
  values = map λ e. e.1

  -- No key twice.
  abbrev pub IsUnique : Dict V → Type ℓ
  IsUnique [] = Unit
  IsUnique ((k, v) ∷ m) = (lookup k m ≡ none) × IsUnique m

  -- A property of every entry.
  abbrev pub Entries {κ} : (String → V → Type κ) → Dict V → Type κ
  Entries P [] = Unit
  Entries P ((k, v) ∷ m) = P k v × Entries P m

  pub lookup-insert :
      (j k : String) (v : V) (m : Dict V)
      → lookup j (insert k v m) ≡ ite (String-discrete k j) (some v) (lookup j m)
  unfolding lookup insert
  lookup-insert j k v [] = refl
  lookup-insert j k v ((i, w) ∷ m) = ground (arith, lookup-insert j k v m)

  pub lookup-insert_self : (k : String) (v : V) (m : Dict V) → lookup k (insert k v m) ≡ some v
  lookup-insert_self k v m = ground (arith, lookup-insert k k v m)

  pub lookup-insert_ne :
      (j k : String) (v : V) (m : Dict V) → k ≢ j → lookup j (insert k v m) ≡ lookup j m
  lookup-insert_ne j k v m h = ground (arith, lookup-insert j k v m)

  pub lookup-erase :
      (j k : String) (m : Dict V)
      → lookup j (erase k m) ≡ ite (String-discrete k j) none (lookup j m)
  unfolding lookup erase
  lookup-erase j k [] = ground arith
  lookup-erase j k ((i, w) ∷ m) = ground (arith, lookup-erase j k m)

  -- A key that is set and then deleted.
  pub lookup-erase-insert :
      (j k : String) (v : V) (m : Dict V)
      → lookup j (erase k (insert k v m)) ≡ ite (String-discrete k j) none (lookup j m)
  lookup-erase-insert j k v m =
      ground (arith, lookup-erase j k (insert k v m), lookup-insert j k v m)

  pub insert-IsUnique : (k : String) (v : V) (m : Dict V) → IsUnique m → IsUnique (insert k v m)
  unfolding lookup insert
  insert-IsUnique k v [] h = (refl, tt)
  insert-IsUnique k v ((j, w) ∷ m) h =
      ground (arith, insert-IsUnique k v m h.1, lookup-insert j k v m)

  pub erase-IsUnique : (k : String) (m : Dict V) → IsUnique m → IsUnique (erase k m)
  unfolding erase
  erase-IsUnique k [] h = tt
  erase-IsUnique k ((j, w) ∷ m) h = ground (arith, erase-IsUnique k m h.1, lookup-erase j k m)

  pub insert-Entries {κ} :
      (P : String → V → Type κ) (k : String) (v : V) (m : Dict V)
      → P k v
      → Entries P m
      → Entries P (insert k v m)
  unfolding insert
  insert-Entries P k v [] p h = (p, tt)
  insert-Entries P k v ((j, w) ∷ m) p h = elim (String-discrete j k) [
    | yes e ↦ rw (if_pos _ e) (rw e p, h.1)
    | no n ↦ rw (if_neg _ n) (h.0, insert-Entries P k v m p h.1)
  ]

  pub erase-Entries {κ} :
      (P : String → V → Type κ) (k : String) (m : Dict V) → Entries P m → Entries P (erase k m)
  unfolding erase
  erase-Entries P k [] h = tt
  erase-Entries P k ((j, w) ∷ m) h = elim (String-discrete j k) [
    | yes e ↦ rw (if_pos _ e) (erase-Entries P k m h.1)
    | no n ↦ rw (if_neg _ n) (h.0, erase-Entries P k m h.1)
  ]

  pub lookup-Entries {κ} :
      (P : String → V → Type κ) (k : String) (m : Dict V) (v : V)
      → Entries P m
      → lookup k m ≡ some v
      → P k v
  unfolding lookup
  lookup-Entries P k [] v h e = cc
  lookup-Entries P k ((j, w) ∷ m) v h e = elim (String-discrete j k) [
    | yes p ↦ let q : w ≡ v = ground arith in rw (← p, ← q) h.0
    | no n ↦ lookup-Entries P k m v h.1 (ground arith)
  ]

  pub length-insert :
      (k : String) (v : V) (m : Dict V)
      → ((lookup k m ≡ none) × (length (insert k v m) ≡ length m + 1))
        ⊎ ((lookup k m ≢ none) × (length (insert k v m) ≡ length m))
  unfolding lookup insert
  length-insert k v [] = inl (refl, omega arith)
  length-insert k v ((j, w) ∷ m) = ground (arith, length-insert k v m)

  length-erase-none : (k : String) (m : Dict V) → lookup k m ≡ none → length (erase k m) ≡ length m
  unfolding lookup erase
  length-erase-none k [] h = refl
  length-erase-none k ((j, w) ∷ m) h = ground (arith, length-erase-none k m)

  pub length-erase :
      (k : String) (m : Dict V) → IsUnique m → lookup k m ≢ none → length (erase k m) + 1 ≡ length m
  unfolding lookup erase
  length-erase k [] u h = absurd (h refl)
  length-erase k ((j, w) ∷ m) u h = elim (String-discrete j k) [
    | yes p ↦ ground (arith, length-erase-none j m u.0)
    | no n ↦ ground (arith, length-erase k m u.1)
  ]
