-- ===== src/Service/Listing.antt =====
-- `ListAds` over the in-memory repository.
use game_ad_service.Common.{
  ℕ, zero, suc, ◌+◌, ◌≤◌, String-discrete, List, [], ◌∷◌, ◌++◌, map, ◌≡◌, refl, ap, arith, ite,
  Bool-cases, inl, inr, length, take, drop, take_of_length-le, ltb, leb,
}
use game_ad_service.Common.Int.{ℤ, pos, negsuc, ◌≤ℤ◌, max_int64}
use game_ad_service.Common.Sort.{sort_slice}
use game_ad_service.Common.Dict.{values}
use game_ad_service.Ad.{Ad, AdStatus}
use game_ad_service.Mapper.{map_ad_to_ad_dto}
use game_ad_service.Storage.{ok, handle, pure, throw, slice}
use game_ad_service.Memory.State.{MemoryRepository, with_status, newer}
use game_ad_service.Memory.{memory_repository, memory_cache, find_by_status}
use game_ad_service.Memory.Find.{page_lem}
use game_ad_service.Memory.Invariant.{IsValid}
use game_ad_service.Memory.Listing.{IsListing, sort_slice-IsListing}
use game_ad_service.Service.{collect, list_ads, all_statuses, page_limit, page_offset}

-- The ads with a status, newest first, from the offset on and at most the limit of them.
abbrev pub status_page : ℕ → ℕ → MemoryRepository → AdStatus → List Ad
status_page limit offset m st =
    take limit (drop offset (sort_slice newer (with_status st (values m.ads))))

-- The pages of several statuses, one after the other.
abbrev pub status_pages : ℕ → ℕ → MemoryRepository → List AdStatus → List Ad
status_pages limit offset m [] = []
status_pages limit offset m (st ∷ rest) =
    status_page limit offset m st ++ status_pages limit offset m rest

find_page :
    (st : AdStatus) (limit offset : ℕ) (m : MemoryRepository)
    → offset + limit ≤ max_int64
    → find_by_status st (pos limit) (pos offset) m ≡ (ok (status_page limit offset m st), m)
unfolding find_by_status
find_page st limit offset m h =
    rw (page_lem (sort_slice newer (with_status st (values m.ads))) limit offset h) refl

append_assoc : {A : Type 0} (xs ys zs : List A) → (xs ++ ys) ++ zs ≡ xs ++ (ys ++ zs)
append_assoc [] ys zs = refl
append_assoc (x ∷ xs) ys zs = ap (◌∷◌ x) (append_assoc xs ys zs)

append_nil : {A : Type 0} (xs : List A) → xs ++ [] ≡ xs
append_nil [] = refl
append_nil (x ∷ xs) = ap (◌∷◌ x) (append_nil xs)

take-append : {A : Type 0} (n : ℕ) (xs ys : List A) → n ≤ length xs → take n (xs ++ ys) ≡ take n xs
take-append zero xs ys h = refl
take-append (suc n) [] ys h = absurd (omega arith)
take-append (suc n) (x ∷ xs) ys h = ap (◌∷◌ x) (take-append n xs ys (omega arith))

-- The loop gives the first ads of the pages that are left, behind those found so far.
collect_lem :
    (limit offset : ℕ) (sts : List AdStatus) (ads : List Ad) (m : MemoryRepository)
    → offset + limit ≤ max_int64
    → length ads ≤ limit
    → collect memory_repository memory_cache (pos limit) (pos offset) sts ads m
      ≡ (ok (take limit (ads ++ status_pages limit offset m sts)), m)
unfolding collect slice handle pure
collect_lem limit offset [] ads m h k =
    ground (arith, append_nil ads, take_of_length-le limit ads k)
collect_lem limit offset (st ∷ rest) ads m h k =
    let found = status_page limit offset m st in
    let all = ads ++ found in
    let tail = status_pages limit offset m rest in
    elim (Bool-cases (leb limit (length all))) [
      | inl e ↦ ground (
        arith,
        find_page st limit offset m h,
        append_assoc ads found tail,
        take-append limit all tail (ground arith),
      )
      | inr e ↦ ground (
        arith,
        find_page st limit offset m h,
        append_assoc ads found tail,
        collect_lem limit offset rest all m h (ground arith),
      )
    ]

-- The limit and the offset that `ListAds` works with, as natural numbers.
pub record Page (limit offset : ℤ) : Type 0 where
  pub size : ℕ
  pub start : ℕ
  pub size_asked : pos 1 ≤ℤ limit → limit ≤ℤ pos 100 → pos size ≡ limit
  pub size_small : limit ≤ℤ pos 0 → size ≡ 10
  pub size_large : pos 101 ≤ℤ limit → size ≡ 10
  pub start_asked : pos 0 ≤ℤ offset → pos start ≡ offset
  pub start_negative : offset ≤ℤ negsuc 0 → start ≡ 0

-- The code's limit and offset are those.
limit_part :
    (l : ℤ)
    → (n : ℕ) × (page_limit l ≡ pos n)
      × (n ≤ 100)
      × (pos 1 ≤ℤ l → l ≤ℤ pos 100 → pos n ≡ l)
      × (l ≤ℤ pos 0 → n ≡ 10)
      × (pos 101 ≤ℤ l → n ≡ 10)
limit_part (pos n) = elim (Bool-cases (leb n 0)) [
  | inl e ↦ (10, ground arith, omega arith, λ p q. ground arith, λ p. refl, λ p. refl)
  | inr e ↦ elim (Bool-cases (ltb 100 n)) [
    | inl f ↦ (10, ground arith, omega arith, λ p q. ground arith, λ p. refl, λ p. refl)
    | inr f ↦ (n, ground arith, ground arith, λ p q. refl, λ p. ground arith, λ p. ground arith)
  ]
]
limit_part (negsuc n) = (10, ground arith, omega arith, λ p q. ground arith, λ p. refl, λ p. refl)

offset_part :
    (o : ℤ) → (n : ℕ) × (page_offset o ≡ pos n) × (pos 0 ≤ℤ o → pos n ≡ o) × (o ≤ℤ negsuc 0 → n ≡ 0)
offset_part (pos n) = (n, ground arith, λ p. refl, λ p. ground arith)
offset_part (negsuc n) = (0, ground arith, λ p. ground arith, λ p. refl)

-- On a valid repository `ListAds` does not fail and changes nothing. There is for each status a
-- list, which has each ad with the status once and no other, and those that were created later
-- before the others. With a status the call returns the items of its list from the offset on, at
-- most the limit of them. Without one it takes such a part of the lists of the statuses submitted,
-- queued, processing, completed and failed, one after the other, and returns the first of all
-- these, at most the limit. The limit is the one asked for if that lies between 1 and 100, and 10
-- otherwise; offsets below 0 count as 0. The offset is at least 100 below the largest int.
pub list_ads_lem :
    (st : AdStatus) (limit offset : ℤ) (m : MemoryRepository)
    → IsValid m
    → offset ≤ℤ pos 9_223_372_036_854_775_707
    → (p : Page limit offset) × (listing : AdStatus → List Ad) × ((s : AdStatus)
        → IsListing s m (listing s))
      × let part = λ (s : AdStatus). take p.size (drop p.start (listing s)) in
        let all =
          part "submitted"
          ++ (part "queued"
              ++ (part "processing" ++ (part "completed" ++ (part "failed" ++ [])))) in
        let ads = ite (String-discrete st "") (take p.size all) (part st) in
        (list_ads memory_repository memory_cache st limit offset m
          ≡ (ok (map map_ad_to_ad_dto ads), m))
unfolding list_ads handle pure throw
list_ads_lem st limit offset m v h =
    let (n, e, hi, asked, small, large) = limit_part limit in
    let (o, f, from, negative) = offset_part offset in
    let bound : o + n ≤ max_int64 = ground (arith, hi, f) in
    let p : Page limit offset = record {
      size = n;
      start = o;
      size_asked = asked;
      size_small = small;
      size_large = large;
      start_asked = from;
      start_negative = negative;
    } in
    let loop = collect_lem n o all_statuses [] m bound (omega arith) in
    let found = find_page st n o m bound in
    (
      p,
      λ s. sort_slice newer (with_status s (values m.ads)),
      λ s. sort_slice-IsListing s m v,
      elim (String-discrete st "") [
        | yes q ↦ ground (arith, e, f, loop, q)
        | no q ↦ ground (arith, e, f, found, q)
      ],
    )
