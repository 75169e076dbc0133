-- ===== src/Memory/Loops.antt =====
-- The loops of the in-memory repository over its map.
use game_ad_service.Common.{
  ◌+◌, ◌≤◌, ◌≡◌, refl, ◌∙◌, inl, inr, String, String-discrete, Option, none, some, List, [], ◌∷◌,
  ite, arith, length, Option-cases, All, if◌then◌else◌,
}
use game_ad_service.Common.Dict.{
  Dict, lookup, IsUnique, Entries, insert-IsUnique, insert-Entries, lookup-Entries,
}
use game_ad_service.Common.Int.{ℤ, ltb_ℤ}
use game_ad_service.Ad.{Ad, AdStatus}
use game_ad_service.Memory.State.{
  with_status, change_known, change_each, change_assigned, drop_older,
}

-- An ad stands under its own id.
abbrev pub OwnId : String → Ad → Type 0
OwnId k a = a.ad_id ≡ k

-- A change that leaves the id alone.
abbrev pub KeepsId : (Ad → Ad) → Type 0
KeepsId f = (a : Ad) → (f a).ad_id ≡ a.ad_id

change_known-IsUnique :
    (f : Ad → Ad) (id : String) (m : Dict Ad) → IsUnique m → IsUnique (change_known f id m).1
unfolding change_known
change_known-IsUnique f id m u = elim (Option-cases (lookup id m)) [
  | inl e ↦ rw (e, change_known) u
  | inr (a, e) ↦ rw (e, change_known) (insert-IsUnique id (f a) m u)
]

pub change_each-IsUnique :
    (f : Ad → Ad) (ids : List String) (m : Dict Ad) → IsUnique m → IsUnique (change_each f ids m).1
unfolding change_each
change_each-IsUnique f [] m u = u
change_each-IsUnique f (id ∷ ids) m u =
    change_each-IsUnique f ids (change_known f id m).1 (change_known-IsUnique f id m u)

-- A change that keeps `P` at an id keeps it of the whole map, whatever it does to other ids.
change_known-Entries :
    (P : String → Ad → Type 0) (f : Ad → Ad) (id : String) (m : Dict Ad)
    → ((a : Ad) → P id a → P id (f a))
    → Entries P m
    → Entries P (change_known f id m).1
unfolding change_known
change_known-Entries P f id m k h = elim (Option-cases (lookup id m)) [
  | inl e ↦ rw (e, change_known) h
  | inr (a, e) ↦
      rw (e, change_known) (insert-Entries P id (f a) m (k a (lookup-Entries P id m a h e)) h)
]

pub change_each-Entries :
    (P : String → Ad → Type 0) (f : Ad → Ad) (ids : List String) (m : Dict Ad)
    → All (λ id. (a : Ad) → P id a → P id (f a)) ids
    → Entries P m
    → Entries P (change_each f ids m).1
unfolding change_each
change_each-Entries P f [] m k h = h
change_each-Entries P f (id ∷ ids) m k h =
    change_each-Entries P f ids (change_known f id m).1 k.1 (change_known-Entries P f id m k.0 h)

pub All-of_every : {P : String → Type 0} (ids : List String) → ((id : String) → P id) → All P ids
All-of_every [] h = tt
All-of_every (id ∷ ids) h = (h id, All-of_every ids h)

pub change_each-OwnId :
    (f : Ad → Ad) (ids : List String) (m : Dict Ad)
    → KeepsId f
    → Entries OwnId m
    → Entries OwnId (change_each f ids m).1
change_each-OwnId f ids m k h =
    change_each-Entries OwnId f ids m (All-of_every ids (λ id a p. k a ∙ p)) h

change_known_count : (f : Ad → Ad) (id : String) (m : Dict Ad) → (change_known f id m).0 ≤ 1
unfolding change_known
change_known_count f id m = ground arith

-- Each id of the list counts at most once.
pub change_each_count :
    (f : Ad → Ad) (ids : List String) (m : Dict Ad) → (change_each f ids m).0 ≤ length ids
unfolding change_each
change_each_count f [] m = omega arith
change_each_count f (id ∷ ids) m =
    omega (arith, change_each_count f ids (change_known f id m).1, change_known_count f id m)

abbrev pub if_assigned : String → (Ad → Ad) → Option Ad → Option Ad
if_assigned worker f none = none
if_assigned worker f (some a) = some (ite (String-discrete a.worker_id worker) (f a) a)

-- The loop changes the ads of the worker and no others.
pub lookup-change_assigned :
    (worker : String) (f : Ad → Ad) (k : String) (m : Dict Ad)
    → lookup k (change_assigned worker f m).1 ≡ if_assigned worker f (lookup k m)
unfolding change_assigned lookup
lookup-change_assigned worker f k [] = refl
lookup-change_assigned worker f k ((j, a) ∷ m) = ground (arith, lookup-change_assigned worker f k m)

lookup-change_assigned-none :
    (worker : String) (f : Ad → Ad) (k : String) (m : Dict Ad)
    → lookup k m ≡ none
    → lookup k (change_assigned worker f m).1 ≡ none
unfolding change_assigned lookup
lookup-change_assigned-none worker f k [] h = refl
lookup-change_assigned-none worker f k ((j, a) ∷ m) h =
    ground (arith, lookup-change_assigned-none worker f k m)

pub change_assigned-IsUnique :
    (worker : String) (f : Ad → Ad) (m : Dict Ad)
    → IsUnique m
    → IsUnique (change_assigned worker f m).1
unfolding change_assigned
change_assigned-IsUnique worker f [] u = tt
change_assigned-IsUnique worker f ((j, a) ∷ m) u =
    ground
      (arith, change_assigned-IsUnique worker f m u.1, lookup-change_assigned-none worker f j m u.0)

pub change_assigned-Entries :
    (P : String → Ad → Type 0) (worker : String) (f : Ad → Ad) (m : Dict Ad)
    → ((id : String) (a : Ad) → P id a → P id (f a))
    → Entries P m
    → Entries P (change_assigned worker f m).1
unfolding change_assigned
change_assigned-Entries P worker f [] k h = tt
change_assigned-Entries P worker f ((j, a) ∷ m) k h =
    ground (arith, change_assigned-Entries P worker f m k h.1, k j a h.0)

pub change_assigned-OwnId :
    (worker : String) (f : Ad → Ad) (m : Dict Ad)
    → KeepsId f
    → Entries OwnId m
    → Entries OwnId (change_assigned worker f m).1
change_assigned-OwnId worker f m k h =
    change_assigned-Entries OwnId worker f m (λ id a p. k a ∙ p) h

lookup-drop_older-none :
    (cutoff : ℤ) (k : String) (m : Dict Ad)
    → lookup k m ≡ none
    → lookup k (drop_older cutoff m).1 ≡ none
unfolding drop_older lookup
lookup-drop_older-none cutoff k [] h = refl
lookup-drop_older-none cutoff k ((j, a) ∷ m) h = ground (arith, lookup-drop_older-none cutoff k m)

pub drop_older-IsUnique : (cutoff : ℤ) (m : Dict Ad) → IsUnique m → IsUnique (drop_older cutoff m).1
unfolding drop_older
drop_older-IsUnique cutoff [] u = tt
drop_older-IsUnique cutoff ((j, a) ∷ m) u =
    ground (arith, drop_older-IsUnique cutoff m u.1, lookup-drop_older-none cutoff j m u.0)

pub drop_older-Entries :
    (P : String → Ad → Type 0) (cutoff : ℤ) (m : Dict Ad)
    → Entries P m
    → Entries P (drop_older cutoff m).1
unfolding drop_older
drop_older-Entries P cutoff [] h = tt
drop_older-Entries P cutoff ((j, a) ∷ m) h = ground (arith, drop_older-Entries P cutoff m h.1)

-- The count and the entries that stay make up the map.
pub drop_older_count :
    (cutoff : ℤ) (m : Dict Ad) → (drop_older cutoff m).0 + length (drop_older cutoff m).1 ≡ length m
unfolding drop_older
drop_older_count cutoff [] = refl
drop_older_count cutoff ((j, a) ∷ m) = ground (arith, drop_older_count cutoff m)

abbrev pub keep_recent : ℤ → Option Ad → Option Ad
keep_recent cutoff none = none
keep_recent cutoff (some a) = if ltb_ℤ a.created_at cutoff then none else some a

-- Afterwards an ad is found just if it was there and is not older than the cutoff.
pub lookup-drop_older :
    (cutoff : ℤ) (k : String) (m : Dict Ad)
    → IsUnique m
    → lookup k (drop_older cutoff m).1 ≡ keep_recent cutoff (lookup k m)
unfolding drop_older lookup
lookup-drop_older cutoff k [] u = refl
lookup-drop_older cutoff k ((j, a) ∷ m) u = elim (String-discrete j k) [
  | yes p ↦ ground (arith, lookup-drop_older-none cutoff j m u.0)
  | no n ↦ ground (arith, lookup-drop_older cutoff k m u.1)
]

pub with_status-All : (st : AdStatus) (l : List Ad) → All (λ a. a.status ≡ st) (with_status st l)
unfolding with_status
with_status-All st [] = tt
with_status-All st (a ∷ l) = ground (arith, with_status-All st l)
