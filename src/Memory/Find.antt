-- ===== src/Memory/Find.antt =====
-- What `FindByStatus`, `FindByPriority`, `CountByStatus` and `PopFromQueue` find.
use game_ad_service.Common.{
  ℕ, ◌+◌, ◌-◌, ◌≤◌, String, String-discrete, some, List, [], ◌∷◌, ◌≡◌, ◌≢◌, refl, sym, subst, arith,
  inl, inr, Bool, false, ◌⊎◌, Bool-cases, if_pos, if_neg, length, take, drop, All, All-weaken,
  take_of_length-le, drop_of_length-le, length-drop, if◌then◌else◌, leb,
}
use game_ad_service.Common.Int.{ℤ, pos, ltb_ℤ, eqb_ℤ, max_int64, add64, ◌+ℤ◌}
use game_ad_service.Common.Dict.{Dict, lookup, values, IsUnique, Entries}
use game_ad_service.Common.Sort.{
  IsOrder, IsSorted, sort_slice, sort_slice-IsSorted, sort_slice-perm, sort_slice-All,
  All-sort_slice,
}
use mathlib.Core.List.{Perm}
use game_ad_service.Errors.{ad_not_found}
use game_ad_service.Ad.{Ad, AdStatus, status_queued}
use game_ad_service.Storage.{ok, err, slice}
use game_ad_service.Memory.State.{
  MemoryRepository, with_status, newer, before_by_priority, before_in_queue,
}
use game_ad_service.Memory.Loops.{OwnId, with_status-All}
use game_ad_service.Memory.Invariant.{IsValid}
use game_ad_service.Memory.{page, find_by_status, find_by_priority, pop_from_queue, first_id}

pub newer-IsOrder : IsOrder newer
newer-IsOrder = record {
  asymmetric = λ a b h. ground arith;
  transitive = λ a b c h k. ground arith;
}

-- Comparing by a number first, and by another order where the numbers are equal.
then_by-IsOrder :
    (key : Ad → ℤ) {less : Ad → Ad → Bool}
    → IsOrder less
    → IsOrder (λ a b. if eqb_ℤ (key a) (key b) then less a b else ltb_ℤ (key a) (key b))
then_by-IsOrder key {less} o = record {
  asymmetric = λ a b h. ground (arith, o.asymmetric a b);
  transitive = λ a b c h k. ground (arith, o.transitive a b c);
}

older-IsOrder : IsOrder (λ (a b : Ad). ltb_ℤ a.created_at b.created_at)
older-IsOrder = record {
  asymmetric = λ a b h. ground arith;
  transitive = λ a b c h k. ground arith;
}

before_by_priority-IsOrder : IsOrder before_by_priority
before_by_priority-IsOrder =
    then_by-IsOrder (λ a. a.effective_priority) (then_by-IsOrder (λ a. a.priority) older-IsOrder)

pub before_in_queue-IsOrder : IsOrder before_in_queue
before_in_queue-IsOrder = then_by-IsOrder (λ a. a.effective_priority) older-IsOrder

add64_pos : (a b : ℕ) → a + b ≤ max_int64 → add64 (pos a) (pos b) ≡ pos (a + b)
unfolding add64 ◌+ℤ◌
add64_pos a b h = ground arith

-- A page in range is the items from the offset on, at most the limit of them.
pub page_lem :
    (xs : List Ad) (limit offset : ℕ)
    → offset + limit ≤ max_int64
    → page xs (pos limit) (pos offset) ≡ ok (take limit (drop offset xs))
unfolding page slice
page_lem xs limit offset h =
    let size = length xs in
    let kept = length-drop offset xs in
    elim (Bool-cases (leb size offset)) [
      | inl e ↦
          let none_left = drop_of_length-le offset xs (ground arith) in
          ground (arith, none_left, take_of_length-le limit (drop offset xs))
      | inr e ↦
          let all_left = take_of_length-le limit (drop offset xs) in
          let cut = take_of_length-le (size - offset) (drop offset xs) in
          ground (arith, all_left, cut, kept, add64_pos offset limit h)
    ]

-- For a limit and an offset that are not negative and whose sum is a 64-bit integer, `FindByStatus`
-- returns a part of a list of ads with the status, and changes nothing.
pub find_by_status-All :
    (st : AdStatus) (limit offset : ℕ) (m : MemoryRepository)
    → offset + limit ≤ max_int64
    → (found : List Ad) × All (λ a. a.status ≡ st) found
      × (find_by_status st (pos limit) (pos offset) m ≡ (ok (take limit (drop offset found)), m))
unfolding find_by_status
find_by_status-All st limit offset m h =
    let chosen = with_status st (values m.ads) in
    let found = sort_slice newer chosen in
    (
      found,
      sort_slice-All newer _ chosen (with_status-All st (values m.ads)),
      rw (page_lem found limit offset h) refl,
    )

-- For a limit that is not negative, `FindByPriority` returns at most the limit of the ads with the
-- status, those that come first by effective priority, then by priority, then by age, and changes
-- nothing.
find_by_priority_lem :
    (st : AdStatus) (limit : ℕ) (m : MemoryRepository)
    → (found : List Ad) × Perm found (with_status st (values m.ads))
      × IsSorted before_by_priority found
      × All (λ a. a.status ≡ st) found
      × (find_by_priority st (pos limit) m ≡ (ok (take limit found), m))
unfolding find_by_priority slice
find_by_priority_lem st limit m =
    let chosen = with_status st (values m.ads) in
    let found = sort_slice before_by_priority chosen in
    let whole = take_of_length-le (length found) found in
    (
      found,
      sort_slice-perm before_by_priority chosen,
      sort_slice-IsSorted before_by_priority before_by_priority-IsOrder chosen,
      sort_slice-All before_by_priority _ chosen (with_status-All st (values m.ads)),
      ground (arith, whole, take_of_length-le limit found),
    )

-- Every ad of a valid repository is found under its id.
pub stored-values :
    (m : Dict Ad) → IsUnique m → Entries OwnId m → All (λ a. lookup a.ad_id m ≡ some a) (values m)
unfolding lookup
stored-values [] u h = tt
stored-values ((k, v) ∷ m) u h =
    (ground arith, All-weaken (λ a p. ground arith) (values m) (stored-values m u.1 h.1))

pub with_status-keeps :
    (P : Ad → Type 0) (st : AdStatus) (l : List Ad) → All P l → All P (with_status st l)
unfolding with_status
with_status-keeps P st [] h = tt
with_status-keeps P st (a ∷ l) h = ground (arith, with_status-keeps P st l h.1)

pub of_with_status :
    (P : Ad → Type 0) (st : AdStatus) (l : List Ad)
    → All P (with_status st l)
    → All (λ a. a.status ≡ st → P a) l
unfolding with_status
of_with_status P st [] h = tt
of_with_status P st (a ∷ l) h = elim (String-discrete a.status st) [
  | yes e ↦
      let g : All P (a ∷ with_status st l) = rw (if_pos _ e) at h in
      ((λ _. g.0), of_with_status P st l g.1)
  | no n ↦
      let g : All P (with_status st l) = rw (if_neg _ n) at h in
      ((λ q. absurd (n q)), of_with_status P st l g)
]

-- `a` is stored under its id, is queued, and no queued ad of the map comes before it.
pub record IsNext (m : MemoryRepository) (a : Ad) : Type 0 where
  pub stored : lookup a.ad_id m.ads ≡ some a
  pub queued : a.status ≡ status_queued
  pub first : All (λ b. b.status ≡ status_queued → before_in_queue b a ≡ false) (values m.ads)

abbrev pub NoneQueued : MemoryRepository → Type 0
NoneQueued m = All (λ b. b.status ≢ status_queued) (values m.ads)

IsNext-of_sorted :
    (m : MemoryRepository) (found : List Ad)
    → found ≡ sort_slice before_in_queue (with_status status_queued (values m.ads))
    → IsValid m
    → (NoneQueued m × (first_id found ≡ err ad_not_found))
      ⊎ ((a : Ad) × IsNext m a × (first_id found ≡ ok a.ad_id))
IsNext-of_sorted m [] e v =
    let nothing = All-sort_slice before_in_queue (λ _. ⊥) _ (subst (All (λ _. ⊥)) e tt) in
    inl (of_with_status (λ _. ⊥) status_queued (values m.ads) nothing, refl)
IsNext-of_sorted m (a ∷ rest) e v =
    let chosen = with_status status_queued (values m.ads) in
    let sorted : IsSorted before_in_queue (a ∷ rest) =
      subst (IsSorted before_in_queue) (sym e)
        (sort_slice-IsSorted before_in_queue before_in_queue-IsOrder chosen) in
    let keep = λ (P : Ad → Type 0) (h : All P chosen).
      subst (All P) (sym e) (sort_slice-All before_in_queue P chosen h) in
    inr (
      a,
      record {
        stored =
            (keep _ (
              with_status-keeps _ status_queued (values m.ads)
                (stored-values m.ads v.unique_ads v.own_ids))).0;
        queued = (keep _ (with_status-All status_queued (values m.ads))).0;
        first =
            of_with_status _ status_queued (values m.ads)
              (All-sort_slice before_in_queue _ chosen (subst (All _) e (ground arith, sorted.0)));
      },
      refl,
    )

-- On a valid repository `PopFromQueue` reports that no ad is found if none is queued; otherwise it
-- returns the id of a stored, queued ad that no other queued ad comes before, by effective priority
-- and then by age. It removes nothing: the repository stays as it was.
pub pop_from_queue_lem :
    (queue : String) (m : MemoryRepository)
    → IsValid m
    → (NoneQueued m × (pop_from_queue queue m ≡ (err ad_not_found, m)))
      ⊎ ((a : Ad) × IsNext m a × (pop_from_queue queue m ≡ (ok a.ad_id, m)))
unfolding pop_from_queue
pop_from_queue_lem queue m v = elim (IsNext-of_sorted m _ refl v) [
  | inl (h, e) ↦ inl (h, rw e refl)
  | inr (a, h, e) ↦ inr (a, h, rw e refl)
]
