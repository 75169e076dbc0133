-- ===== src/Queue/Idle.antt =====
-- Repositories in which no stored ad has a time of processing: every call of the queue keeps that.
use game_ad_service.Common.{
  ◌-◌, String, String-discrete, none, some, List, [], ◌∷◌, ◌≡◌, sym, subst, arith, inl, inr,
  Option-cases, All, All-take, All-drop, Bool-cases, drop, leb, length,
}
use game_ad_service.Common.Int.{ℤ, pos, negsuc, incr, leb_ℤ}
use game_ad_service.Common.Dict.{
  Dict, lookup, insert, Entries, values, insert-Entries, lookup-Entries,
}
use game_ad_service.Common.Sort.{sort_slice-All}
use game_ad_service.Ad.{
  Ad, AdStatus, set_status, set_error, set_analysis_results, increment_attempts, assign_worker,
}
use game_ad_service.Storage.{slice}
use game_ad_service.Storage.Safe.{Safe, OnOk, Any, any_result}
use game_ad_service.Memory.State.{MemoryRepository, with_status, newer, before_by_priority}
use game_ad_service.Memory.{
  memory_repository, memory_cache, get, update, update_existing, find_by_status, find_by_priority,
  count_by_status, atomic_status_update, status_update_existing, acquire_lock, release_lock,
  push_to_queue, pop_from_queue, increment_counter, get_gauge, page, with_new_status, save,
}
use game_ad_service.Memory.Invariant.{
  IsValid, update-IsValid, status-IsValid, push-IsValid, acquire_lock-IsValid, release_lock-IsValid,
}
use game_ad_service.Queue.Safe.{Keeps, Stable}

-- No time of processing is set.
abbrev pub IsUnstarted : Ad → Type 0
IsUnstarted a = a.processing_started_at ≡ none

-- The repository is valid, and in no stored ad a time of processing is set.
pub record IsIdle (m : MemoryRepository) : Type 0 where
  pub valid : IsValid m
  pub unstarted : Entries (λ k a. IsUnstarted a) m.ads

values-IsUnstarted : (m : Dict Ad) → Entries (λ k a. IsUnstarted a) m → All IsUnstarted (values m)
values-IsUnstarted [] h = tt
values-IsUnstarted ((k, a) ∷ m) h = (h.0, values-IsUnstarted m h.1)

with_status-IsUnstarted :
    (st : AdStatus) (l : List Ad) → All IsUnstarted l → All IsUnstarted (with_status st l)
unfolding with_status
with_status-IsUnstarted st [] h = tt
with_status-IsUnstarted st (a ∷ l) h = ground (arith, with_status-IsUnstarted st l h.1)

slice-All : (P : Ad → Type 0) (xs : List Ad) (lo hi : ℤ) → All P xs → OnOk (All P) (slice xs lo hi)
unfolding slice
slice-All P xs (pos lo) (pos hi) h = elim (Bool-cases (leb lo hi)) [
  | inl e ↦ rw e (All-take P (hi - lo) (drop lo xs) (All-drop P lo xs h))
  | inr e ↦ rw e tt
]
slice-All P xs (pos lo) (negsuc hi) h = tt
slice-All P xs (negsuc lo) hi h = tt

page-All :
    (P : Ad → Type 0) (xs : List Ad) (limit offset : ℤ)
    → All P xs
    → OnOk (All P) (page xs limit offset)
unfolding page
page-All P xs limit offset h = elim (Bool-cases (leb_ℤ (pos (length xs)) offset)) [
  | inl e ↦ rw e tt
  | inr e ↦ rw e (slice-All P xs offset _ h)
]

module _ (m : MemoryRepository) (v : IsIdle m) where
  insert-IsUnstarted :
      (id : String) (a : Ad) → IsUnstarted a → Entries (λ k b. IsUnstarted b) (insert id a m.ads)
  insert-IsUnstarted id a u = insert-Entries (λ k b. IsUnstarted b) id a m.ads u v.unstarted

  stored-IsUnstarted : (id : String) (a : Ad) → lookup id m.ads ≡ some a → IsUnstarted a
  stored-IsUnstarted id a e = lookup-Entries (λ k b. IsUnstarted b) id m.ads a v.unstarted e

  pub save-IsUnstarted :
      (a : Ad) → IsUnstarted a → Entries (λ k b. IsUnstarted b) (save (some a) m).1.ads
  unfolding save
  save-IsUnstarted a u = ground (arith, insert-IsUnstarted a.ad_id a u)

  get-IsUnstarted : (id : String) → OnOk IsUnstarted (get id m).0
  unfolding get
  get-IsUnstarted id = elim (Option-cases (lookup id m.ads)) [
    | inl e ↦ ground arith
    | inr (a, e) ↦ ground (arith, stored-IsUnstarted id a e)
  ]

  update-IsUnstarted :
      (a : Ad)
      → IsUnstarted a
      → Entries (λ k b. IsUnstarted b) (update (some a) m).1.ads
        × OnOk IsUnstarted (update (some a) m).0
  unfolding update update_existing
  update-IsUnstarted a u =
      ground (arith, insert-IsUnstarted a.ad_id (record a { version = incr a.version }) u)

  status-IsUnstarted :
      (now : ℤ) (id : String) (n : ℤ) (from to : AdStatus)
      → Entries (λ k b. IsUnstarted b) (atomic_status_update now id n from to m).1.ads
  unfolding atomic_status_update status_update_existing
  status-IsUnstarted now id n from to = elim (Option-cases (lookup id m.ads)) [
    | inl e ↦ rw (e, atomic_status_update) v.unstarted
    | inr (a, e) ↦
        rw (e, atomic_status_update)
          (ground
            (arith, insert-IsUnstarted id (with_new_status now to a) (stored-IsUnstarted id a e)))
  ]

  push-IsUnstarted :
      (queue id : String) (p : ℤ)
      → Entries (λ k b. IsUnstarted b) (push_to_queue queue id p m).1.ads
  unfolding push_to_queue
  push-IsUnstarted queue id p = elim (Option-cases (lookup id m.ads)) [
    | inl e ↦ rw (e, push_to_queue) (ground arith)
    | inr (a, e) ↦
        rw (e, push_to_queue)
          (ground (
            arith,
            insert-IsUnstarted id (record a { effective_priority = p }) (stored-IsUnstarted id a e),
          ))
  ]

find-IsUnstarted :
    (m : MemoryRepository)
    → IsIdle m
    → (st : AdStatus) → All IsUnstarted (with_status st (values m.ads))
find-IsUnstarted m v st =
    with_status-IsUnstarted st (values m.ads) (values-IsUnstarted m.ads v.unstarted)

-- Reads and locks leave the ads alone.
get-state : (id : String) (m : MemoryRepository) → (get id m).1 ≡ m
unfolding get
get-state id m = ground arith

acquire_lock-ads :
    (now : ℤ) (id owner : String) (ttl : ℤ) (m : MemoryRepository)
    → (acquire_lock now id owner ttl m).1.ads ≡ m.ads
unfolding acquire_lock
acquire_lock-ads now id owner ttl m = ground arith

release_lock-ads :
    (id owner : String) (m : MemoryRepository) → (release_lock id owner m).1.ads ≡ m.ads
unfolding release_lock
release_lock-ads id owner m = ground arith

abbrev NoneStarted : Dict Ad → Type 0
NoneStarted = Entries (λ k b. IsUnstarted b)

get-Safe : (id : String) → Safe IsIdle IsUnstarted (get id)
get-Safe id = record {
  keep = λ m v. (subst IsIdle (sym (get-state id m)) v, get-IsUnstarted m v id);
}

update-Safe : (a : Ad) → IsUnstarted a → Safe IsIdle IsUnstarted (update (some a))
update-Safe a u = record {
  keep = λ m v.
      let (h, o) = update-IsUnstarted m v a u in
      (record { valid = update-IsValid m v.valid (some a); unstarted = h }, o);
}

pub find_by_status-Safe :
    (st : AdStatus) (limit offset : ℤ)
    → Safe IsIdle (All IsUnstarted) (find_by_status st limit offset)
unfolding find_by_status
find_by_status-Safe st limit offset = record {
  keep = λ m v.
      let chosen = find-IsUnstarted m v st in
      (v, page-All IsUnstarted _ limit offset (sort_slice-All newer IsUnstarted _ chosen));
}

find_by_priority-Safe :
    (st : AdStatus) (limit : ℤ) → Safe IsIdle (All IsUnstarted) (find_by_priority st limit)
unfolding find_by_priority
find_by_priority-Safe st limit = record {
  keep = λ m v.
      let chosen = find-IsUnstarted m v st in
      (
        v,
        slice-All IsUnstarted _ (pos 0) _ (sort_slice-All before_by_priority IsUnstarted _ chosen),
      );
}

atomic_status_update-Safe :
    (now : ℤ) (id : String) (n : ℤ) (from to : AdStatus)
    → Safe IsIdle Any (atomic_status_update now id n from to)
atomic_status_update-Safe now id n from to = record {
  keep = λ m v. (
    record {
      valid = status-IsValid m v.valid now id n from to;
      unstarted = status-IsUnstarted m v now id n from to;
    },
    any_result _,
  );
}

acquire_lock-Safe :
    (now : ℤ) (id owner : String) (ttl : ℤ) → Safe IsIdle Any (acquire_lock now id owner ttl)
acquire_lock-Safe now id owner ttl = record {
  keep = λ m v. (
    record {
      valid = acquire_lock-IsValid m v.valid now id owner ttl;
      unstarted = subst NoneStarted (sym (acquire_lock-ads now id owner ttl m)) v.unstarted;
    },
    any_result _,
  );
}

release_lock-Safe : (id owner : String) → Safe IsIdle Any (release_lock id owner)
release_lock-Safe id owner = record {
  keep = λ m v. (
    record {
      valid = release_lock-IsValid m v.valid id owner;
      unstarted = subst NoneStarted (sym (release_lock-ads id owner m)) v.unstarted;
    },
    any_result _,
  );
}

push_to_queue-Safe : (queue id : String) (p : ℤ) → Safe IsIdle Any (push_to_queue queue id p)
push_to_queue-Safe queue id p = record {
  keep = λ m v. (
    record {
      valid = push-IsValid m v.valid queue id p;
      unstarted = push-IsUnstarted m v queue id p;
    },
    any_result _,
  );
}

-- The calls of the in-memory repository keep it idle, and give out ads with no time of processing.
pub memory-Keeps : Keeps memory_repository memory_cache IsIdle IsUnstarted
unfolding count_by_status pop_from_queue increment_counter get_gauge
memory-Keeps = record {
  get = get-Safe;
  update = update-Safe;
  find_by_status = find_by_status-Safe;
  find_by_priority = find_by_priority-Safe;
  count_by_status = λ st. record { keep = λ m v. (v, tt) };
  atomic_status_update = atomic_status_update-Safe;
  acquire_lock = acquire_lock-Safe;
  release_lock = release_lock-Safe;
  push_to_queue = push_to_queue-Safe;
  pop_from_queue = λ queue. record { keep = λ m v. (v, any_result _) };
  increment_counter = λ key. record { keep = λ m v. (v, tt) };
  get_gauge = λ key. record { keep = λ m v. (v, tt) };
}

-- None of the queue's writes into an ad sets the time of processing.
pub IsUnstarted-Stable : Stable IsUnstarted
unfolding set_status set_error set_analysis_results increment_attempts assign_worker String-discrete
IsUnstarted-Stable = record {
  queued = λ now a u. u;
  failed = λ now message a u. u;
  assigned = λ q a u. u;
  analysed = λ r a u. u;
  prioritised = λ p a u. u;
}
