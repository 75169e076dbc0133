-- ===== src/Memory/State.antt =====
-- internal/storage/memory/memory_store.go, lines 14 to 38 and the loops of its methods.
use game_ad_service.Common.{
  ℕ, suc, ◌+◌, String, String-discrete, Bool, none, some, List, [], ◌∷◌, ite, if◌then◌else◌,
}
use game_ad_service.Common.Dict.{Dict, lookup, insert}
use game_ad_service.Common.Int.{ℤ, ltb_ℤ, eqb_ℤ}
use game_ad_service.Ad.{Ad, AdStatus}

pub record LockInfo : Type 0 where
  pub owner_id : String
  pub expires_at : ℤ

-- The maps own their ads: `Save`, `Get`, `Update` and `Set` copy on the way in and out.
pub record MemoryRepository : Type 0 where
  pub ads : Dict Ad
  pub locks : Dict LockInfo

unfoldable pub new_memory_repository : MemoryRepository
new_memory_repository = record { ads = []; locks = [] }

-- The loop that collects copies of the ads with a status.
unfoldable pub with_status : AdStatus → List Ad → List Ad
with_status st [] = []
with_status st (a ∷ rest) =
    ite (String-discrete a.status st) (a ∷ with_status st rest) (with_status st rest)

-- The comparison of `FindByStatus`: newest first.
abbrev pub newer : Ad → Ad → Bool
newer a b = ltb_ℤ b.created_at a.created_at

-- The comparison of `FindByPriority`.
abbrev pub before_by_priority : Ad → Ad → Bool
before_by_priority a b =
    if eqb_ℤ a.effective_priority b.effective_priority
    then (if eqb_ℤ a.priority b.priority
        then ltb_ℤ a.created_at b.created_at
        else ltb_ℤ a.priority b.priority)
    else ltb_ℤ a.effective_priority b.effective_priority

-- The comparison of `PopFromQueue`.
abbrev pub before_in_queue : Ad → Ad → Bool
before_in_queue a b =
    if eqb_ℤ a.effective_priority b.effective_priority
    then ltb_ℤ a.created_at b.created_at
    else ltb_ℤ a.effective_priority b.effective_priority

-- A write through the pointer that the map holds, `if ad, exists := m.ads[id]; exists`: whether
-- the id was known, and the map.
unfoldable pub change_known : (Ad → Ad) → String → Dict Ad → ℕ × Dict Ad
change_known f id m = elim (lookup id m) [ none ↦ (0, m) | some a ↦ (1, insert id (f a) m) ]

-- The loop over ids that changes each known ad, and counts them.
unfoldable pub change_each : (Ad → Ad) → List String → Dict Ad → ℕ × Dict Ad
unfolding change_known
change_each f [] m = (0, m)
change_each f (id ∷ ids) m =
    let (hit, changed) = change_known f id m in
    let (n, done) = change_each f ids changed in (hit + n, done)

-- The loop over the whole map that changes the ads of one worker, and counts them.
unfoldable pub change_assigned : String → (Ad → Ad) → Dict Ad → ℕ × Dict Ad
change_assigned worker f [] = (0, [])
change_assigned worker f ((id, a) ∷ m) =
    let (n, done) = change_assigned worker f m in
    ite (String-discrete a.worker_id worker) (suc n, (id, f a) ∷ done) (n, (id, a) ∷ done)

-- The loop that deletes the ads created before the cutoff, and counts them.
unfoldable pub drop_older : ℤ → Dict Ad → ℕ × Dict Ad
drop_older cutoff [] = (0, [])
drop_older cutoff ((id, a) ∷ m) =
    let (n, kept) = drop_older cutoff m in
    if ltb_ℤ a.created_at cutoff then (suc n, kept) else (n, (id, a) ∷ kept)
