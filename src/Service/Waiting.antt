-- ===== src/Service/Waiting.antt =====
-- The abstract priority queue, and what it is for a repository: which ids wait, and by what they are
-- ordered. It has neither versions, nor locks, nor statuses, nor an order of entries.
use game_ad_service.Common.{
  String, String-discrete, Bool, Option, none, some, ◌≡◌, ◌≢◌, arith, ite, false, if◌then◌else◌,
  fun_ext, inl, inr, Option-cases,
}
use game_ad_service.Common.Int.{ℤ, ltb_ℤ, eqb_ℤ}
use game_ad_service.Common.Dict.{lookup}
use game_ad_service.Ad.{Ad, status_queued}
use game_ad_service.Memory.Listing.{lookup-All}
use game_ad_service.Memory.State.{MemoryRepository, before_in_queue}
use game_ad_service.Memory.Find.{IsNext, NoneQueued}

-- By what the queue orders an ad.
pub record Entry : Type 0 where
  pub effective_priority : ℤ
  pub created_at : ℤ

abbrev pub Waiting : Type 0
Waiting = String → Option Entry

abbrev pub put : String → Entry → Waiting → Waiting
put id e w j = ite (String-discrete id j) (some e) (w j)

abbrev pub remove : String → Waiting → Waiting
remove id w j = ite (String-discrete id j) none (w j)

-- The smaller effective priority goes first, and at the same one the older ad.
abbrev pub before : Entry → Entry → Bool
before a b =
    if eqb_ℤ a.effective_priority b.effective_priority
    then ltb_ℤ a.created_at b.created_at
    else ltb_ℤ a.effective_priority b.effective_priority

-- The id waits with the entry, and no waiting entry goes before that.
pub record IsFirst (w : Waiting) (id : String) (e : Entry) : Type 0 where
  pub waits : w id ≡ some e
  pub first : (j : String) (f : Entry) → w j ≡ some f → before f e ≡ false

abbrev pub entry_of : Ad → Entry
entry_of a = record { effective_priority = a.effective_priority; created_at = a.created_at }

abbrev pub entry_if_queued : Option Ad → Option Entry
entry_if_queued none = none
entry_if_queued (some a) = ite (String-discrete a.status status_queued) (some (entry_of a)) none

abbrev pub waiting : MemoryRepository → Waiting
waiting m j = entry_if_queued (lookup j m.ads)

-- What waits under an id comes from a queued ad.
pub waiting-inverse :
    (m : MemoryRepository) (j : String) (e : Entry)
    → waiting m j ≡ some e
    → (a : Ad) × (lookup j m.ads ≡ some a) × (a.status ≡ status_queued) × (e ≡ entry_of a)
waiting-inverse m j e h = elim (Option-cases (lookup j m.ads)) [
  | inl f ↦ ground arith
  | inr (a, f) ↦ elim (String-discrete a.status status_queued) [
    | yes s ↦ (a, f, s, ground arith)
    | no n ↦ ground arith
  ]
]

pub waiting-NoneQueued : (m : MemoryRepository) → NoneQueued m → (j : String) → waiting m j ≡ none
waiting-NoneQueued m h j = elim (Option-cases (lookup j m.ads)) [
  | inl f ↦ ground arith
  | inr (a, f) ↦
      let n = lookup-All (λ b. b.status ≢ status_queued) j m.ads a h f in ground (arith, n)
]

pub waiting-IsNext :
    (m : MemoryRepository) (a : Ad) → IsNext m a → IsFirst (waiting m) a.ad_id (entry_of a)
waiting-IsNext m a h = record {
  waits = ground (arith, h.stored, h.queued);
  first = λ j f e.
      let (b, stored, queued, same) = waiting-inverse m j f e in
      let least =
        lookup-All (λ b. b.status ≡ status_queued → before_in_queue b a ≡ false) j m.ads b h.first
          stored in
      ground (arith, least queued, same);
}

-- A repository in which one id has changed.
pub waiting_changed :
    (m m' : MemoryRepository) (id : String) (a : Ad)
    → ((j : String) → lookup j m'.ads ≡ ite (String-discrete id j) (some a) (lookup j m.ads))
    → a.status ≢ status_queued
    → waiting m' ≡ remove id (waiting m)
waiting_changed m m' id a h n = fun_ext λ j. ground (arith, h j, n)

pub waiting_queued :
    (m m' : MemoryRepository) (id : String) (a : Ad)
    → ((j : String) → lookup j m'.ads ≡ ite (String-discrete id j) (some a) (lookup j m.ads))
    → a.status ≡ status_queued
    → waiting m' ≡ put id (entry_of a) (waiting m)
waiting_queued m m' id a h s = fun_ext λ j. ground (arith, h j, s)

-- Removing what does not wait.
pub remove_idle : (w : Waiting) (id : String) → w id ≡ none → remove id w ≡ w
remove_idle w id h =
    fun_ext λ j. elim (String-discrete id j) [ yes p ↦ ground (arith, p, h) | no n ↦ ground arith ]
