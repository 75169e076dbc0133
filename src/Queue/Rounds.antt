-- ===== src/Queue/Rounds.antt =====
-- What `updateQueuePriorities` and `BoostLowPriorityItems` write into the in-memory repository.
use game_ad_service.Common.{
  ℕ, ◌+◌, String, Option, none, some, List, [], ◌∷◌, All, ◌≡◌, ◌≢◌, refl, sym, ◌∙◌,
}
use game_ad_service.Common.Int.{ℤ}
use game_ad_service.Common.Dict.{lookup, insert, lookup-insert_self, lookup-insert_ne}
use game_ad_service.Common.Pairs.{All-zip, AllPairs}
use game_ad_service.Ad.{Ad}
use game_ad_service.Storage.{ok, Action, pure, ◌>>=◌}
use game_ad_service.Storage.Safe.{bind_ok}
use game_ad_service.Memory.State.{MemoryRepository}
use game_ad_service.Memory.{memory_repository, memory_cache}
use game_ad_service.Queue.Priority.{reprioritised, write_same}
use game_ad_service.Queue.{sum_rounds, write_priority}

-- What a round makes of an ad, and whether it counts it, by the priority that it chooses to write.
abbrev pub written : Option ℤ → Ad → Ad
written none a = a
written (some p) a = reprioritised p a

abbrev pub one_if : Option ℤ → ℕ
one_if none = 0
one_if (some p) = 1

-- The ad is stored as it is, under an id.
abbrev pub IsStored : MemoryRepository → Ad → Type 0
IsStored m a = (lookup a.ad_id m.ads ≡ some a) × (a.ad_id ≢ "")

abbrev pub OtherId : Ad → Ad → Type 0
OtherId b a = b.ad_id ≢ a.ad_id

abbrev pub by_choice : Option ℤ → Ad → Action MemoryRepository ℕ
by_choice none a = pure 0
by_choice (some p) a = write_priority memory_repository memory_cache a p

-- A round over one stored ad.
record Written (a b : Ad) (m m' : MemoryRepository) : Type 0 where
  pub self : lookup a.ad_id m'.ads ≡ some b
  pub others : (j : String) → a.ad_id ≢ j → lookup j m'.ads ≡ lookup j m.ads
  pub locks : m'.locks ≡ m.locks

by_choice_lem :
    (o : Option ℤ) (a : Ad) (m : MemoryRepository)
    → IsStored m a
    → ((by_choice o a m).0 ≡ ok (one_if o)) × Written a (written o a) m (by_choice o a m).1
unfolding pure
by_choice_lem none a m h = (refl, record { self = h.0; others = λ j n. refl; locks = refl })
by_choice_lem (some p) a m h =
    let b = reprioritised p a in
    let once = insert a.ad_id b m.ads in
    rw (write_same a p m a h.0 h.1 refl refl) (
      refl,
      record {
        self = lookup-insert_self a.ad_id b once;
        others = λ j n. lookup-insert_ne j a.ad_id b once n ∙ lookup-insert_ne j a.ad_id b m.ads n;
        locks = refl;
      },
    )

-- The rounds over a list of ads.
pub record AllWritten (f : Ad → Ad) (ads : List Ad) (m m' : MemoryRepository) : Type 0 where
  pub done : All (λ a. lookup a.ad_id m'.ads ≡ some (f a)) ads
  pub kept : (j : String) → All (λ a. a.ad_id ≢ j) ads → lookup j m'.ads ≡ lookup j m.ads
  pub locks : m'.locks ≡ m.locks

module _ (choice : Ad → Option ℤ) where
  abbrev pub chosen : Ad → Ad
  chosen a = written (choice a) a

  abbrev pub count_chosen : List Ad → ℕ
  count_chosen [] = 0
  count_chosen (a ∷ ads) = one_if (choice a) + count_chosen ads

module _ (choice : Ad → Option ℤ) (round : Ad → Action MemoryRepository ℕ)
    (rounds : (a : Ad) (m : MemoryRepository) → round a m ≡ by_choice (choice a) a m) where
  pub sum_rounds_lem :
      (ads : List Ad) (m : MemoryRepository)
      → All (IsStored m) ads
      → AllPairs OtherId ads
      → let (r, m') = sum_rounds memory_repository memory_cache round ads m in
        (r ≡ ok (count_chosen choice ads)) × AllWritten (chosen choice) ads m m'
  unfolding sum_rounds pure
  sum_rounds_lem [] m h d = (refl, record { done = tt; kept = λ j n. refl; locks = refl })
  sum_rounds_lem (a ∷ ads) m h d =
      let m1 = (round a m).1 in
      let (e', w') = by_choice_lem (choice a) a m h.0 in
      let e : (round a m).0 ≡ ok (one_if (choice a)) = rw (rounds a m) e' in
      let w : Written a (chosen choice a) m m1 = rw (rounds a m) w' in
      let still : All (IsStored m1) ads =
        All-zip ads (λ b s n. (w.others b.ad_id (λ p. n (sym p)) ∙ s.0, s.1)) h.1 d.0 in
      let rest = sum_rounds memory_repository memory_cache round ads in
      let (r, x) = sum_rounds_lem ads m1 still d.1 in
      rw
        (
          bind_ok (round a) (λ n. rest >>= λ k. pure (n + k)) m (one_if (choice a)) e,
          bind_ok rest (λ k. pure (one_if (choice a) + k)) m1 (count_chosen choice ads) r,
        )
        (
          refl,
          record {
            done = (x.kept a.ad_id d.0 ∙ w.self, x.done);
            kept = λ j n. x.kept j n.1 ∙ w.others j n.0;
            locks = x.locks ∙ w.locks;
          },
        )
