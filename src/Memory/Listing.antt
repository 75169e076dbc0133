-- ===== src/Memory/Listing.antt =====
-- What a list of the ads with a status is, apart from how the repository makes it.
use game_ad_service.Common.{
  ℕ, ◌+◌, ◌≤◌, take, drop, length, String, String-discrete, some, List, [], ◌∷◌, All, All-weaken,
  ◌≡◌, ◌≢◌, refl, arith, inl, inr, ◌⊎◌, sym, if_pos, if_neg,
}
use game_ad_service.Common.Int.{pos, max_int64, ◌≤ℤ◌}
use game_ad_service.Common.Dict.{Dict, lookup, values, IsUnique, Entries}
use game_ad_service.Common.Pairs.{AllPairs, All-zip, sort_slice-AllPairs}
use game_ad_service.Common.Sort.{
  IsSorted, sort_slice, sort_slice-All, sort_slice-IsSorted, All-sort_slice, length-sort_slice,
}
use game_ad_service.Ad.{Ad, AdStatus}
use game_ad_service.Memory.State.{MemoryRepository, with_status, newer}
use game_ad_service.Memory.Loops.{OwnId, with_status-All}
use game_ad_service.Memory.Invariant.{IsValid}
use game_ad_service.Memory.{find_by_status, count_by_status}
use game_ad_service.Storage.{ok}
use game_ad_service.Memory.Find.{
  newer-IsOrder, stored-values, with_status-keeps, of_with_status, page_lem,
}

abbrev pub IsIn : Ad → List Ad → Type 0
IsIn a [] = ⊥
IsIn a (b ∷ l) = (b ≡ a) ⊎ IsIn a l

-- The list has each stored ad with the status once and no others, those that were created later
-- first.
pub record IsListing (st : AdStatus) (m : MemoryRepository) (found : List Ad) : Type 0 where
  pub sound : All (λ a. (lookup a.ad_id m.ads ≡ some a) × (a.status ≡ st)) found
  pub complete : (id : String) (a : Ad) → lookup id m.ads ≡ some a → a.status ≡ st → IsIn a found
  pub once : AllPairs (λ a b. a.ad_id ≢ b.ad_id) found
  pub newest_first : AllPairs (λ later first. later.created_at ≤ℤ first.created_at) found

All-IsIn : (l : List Ad) → All (λ a. IsIn a l) l
All-IsIn [] = tt
All-IsIn (a ∷ l) = (inl refl, All-weaken (λ b h. inr h) l (All-IsIn l))

-- A property of all values of a map holds of each that is found.
pub lookup-All :
    (P : Ad → Type 0) (k : String) (m : Dict Ad) (a : Ad)
    → All P (values m)
    → lookup k m ≡ some a
    → P a
unfolding lookup
lookup-All P k [] a h e = cc
lookup-All P k ((j, b) ∷ m) a h e = elim (String-discrete j k) [
  | yes p ↦ let q : b ≡ a = ground arith in rw (← q) h.0
  | no n ↦ lookup-All P k m a h.1 (ground arith)
]

abbrev pub OtherId : Ad → Ad → Type 0
OtherId a b = a.ad_id ≢ b.ad_id

pub OtherId-values : (m : Dict Ad) → IsUnique m → Entries OwnId m → AllPairs OtherId (values m)
unfolding lookup
OtherId-values [] u h = tt
OtherId-values ((k, v) ∷ m) u h = (
  All-weaken (λ a p q. ground arith) (values m) (stored-values m u.1 h.1),
  OtherId-values m u.1 h.1,
)

pub with_status-OtherId :
    (st : AdStatus) (l : List Ad) → AllPairs OtherId l → AllPairs OtherId (with_status st l)
unfolding with_status
with_status-OtherId st [] h = tt
with_status-OtherId st (a ∷ l) h = elim (String-discrete a.status st) [
  | yes p ↦
      rw (if_pos _ p) (with_status-keeps (λ b. OtherId b a) st l h.0, with_status-OtherId st l h.1)
  | no n ↦ rw (if_neg _ n) (with_status-OtherId st l h.1)
]

IsSorted-newest :
    (l : List Ad)
    → IsSorted newer l
    → AllPairs (λ later first. later.created_at ≤ℤ first.created_at) l
IsSorted-newest [] h = tt
IsSorted-newest (a ∷ l) h = (All-weaken (λ b n. ground (arith, n)) l h.0, IsSorted-newest l h.1)

pub sort_slice-IsListing :
    (st : AdStatus) (m : MemoryRepository)
    → IsValid m
    → IsListing st m (sort_slice newer (with_status st (values m.ads)))
sort_slice-IsListing st m v =
    let chosen = with_status st (values m.ads) in
    let found = sort_slice newer chosen in
    let stored =
      with_status-keeps _ st (values m.ads) (stored-values m.ads v.unique_ads v.own_ids) in
    let each = All-sort_slice newer (λ a. IsIn a found) chosen (All-IsIn found) in
    record {
      sound =
          sort_slice-All newer _ chosen
            (All-zip chosen (λ a h k. (h, k)) stored (with_status-All st (values m.ads)));
      complete = λ id a e s.
          lookup-All (λ b. b.status ≡ st → IsIn b found) id m.ads a
            (of_with_status (λ b. IsIn b found) st (values m.ads) each) e s;
      once =
          sort_slice-AllPairs OtherId (λ a b n p. n (sym p)) newer chosen
            (with_status-OtherId st (values m.ads) (OtherId-values m.ads v.unique_ads v.own_ids));
      newest_first = IsSorted-newest found (sort_slice-IsSorted newer newer-IsOrder chosen);
    }

-- On a valid repository, for a limit and an offset that are not negative and whose sum is a 64-bit
-- integer: `FindByStatus` returns the items from the offset on, at most the limit of them, of one
-- list, which has each ad with the status once and no other, and those that were created later
-- before the others. `CountByStatus` gives the length of that list. Neither changes anything.
pub find_by_status_lem :
    (st : AdStatus) (limit offset : ℕ) (m : MemoryRepository)
    → IsValid m
    → offset + limit ≤ max_int64
    → (found : List Ad) × IsListing st m found
      × (find_by_status st (pos limit) (pos offset) m ≡ (ok (take limit (drop offset found)), m))
      × (count_by_status st m ≡ (ok (pos (length found)), m))
unfolding find_by_status count_by_status
find_by_status_lem st limit offset m v h =
    let chosen = with_status st (values m.ads) in
    let found = sort_slice newer chosen in
    (
      found,
      sort_slice-IsListing st m v,
      rw (page_lem found limit offset h) refl,
      rw (length-sort_slice newer chosen) refl,
    )
