-- ===== src/Service/Rounds.antt =====
-- The rounds of the queue's maintenance over the in-memory repository: they return a count.
use game_ad_service.Common.{
  ℕ, ◌+◌, Option, none, some, Bool, if◌then◌else◌, List, [], ◌∷◌, All, ◌≡◌, refl, arith, true,
  false,
}
use game_ad_service.Common.Int.{ℤ, pos, ◌≤ℤ◌}
use game_ad_service.Float64.{FloatOps, Float64}
use game_ad_service.Ad.{Ad, status_queued, calculate_effective_priority}
use game_ad_service.Storage.{ok, Action, pure, ◌>>=◌}
use game_ad_service.Storage.Safe.{Any, bind_ok}
use game_ad_service.Memory.State.{MemoryRepository}
use game_ad_service.Memory.{memory_repository, memory_cache}
use game_ad_service.Queue.State.{DistributedPriorityQueue}
use game_ad_service.Queue.{sum_rounds, write_priority, age_round, boost_round}

-- From a state with the invariant the call returns a value with `P` and leads to a state with it.
pub record Returns {S A : Type 0} (I : S → Type 0) (P : A → Type 0) (act : Action S A)
    : Type 0 where
  pub return : (s : S) → I s → I (act s).1 × (a : A) × P a × ((act s).0 ≡ ok a)

module _ {S : Type 0} {I : S → Type 0} where
  pure-Returns : {A : Type 0} (a : A) → Returns I Any (pure a)
  unfolding pure
  pure-Returns a = record { return = λ s i. (i, a, tt, refl) }

  pub bind-Returns :
      {A B : Type 0} (P : A → Type 0) (Q : B → Type 0) {act : Action S A} {f : A → Action S B}
      → Returns I P act
      → ((a : A) → P a → Returns I Q (f a))
      → Returns I Q (act >>= f)
  bind-Returns P Q {act} {f} r h = record {
    return = λ s i.
        let (i', a, p, e) = r.return s i in rw (bind_ok act f s a e) ((h a p).return (act s).1 i');
  }

  if-Returns :
      {A : Type 0} (b : Bool) {x y : Action S A}
      → Returns I Any x
      → Returns I Any y
      → Returns I Any (if b then x else y)
  if-Returns true rx ry = rx
  if-Returns false rx ry = ry

abbrev pub IsPositive : ℤ → Type 0
IsPositive p = pos 1 ≤ℤ p

calculate_effective_priority-IsPositive :
    (F : FloatOps) (rate : Float64) (max_wait now queued : ℤ) (a : Ad)
    → a.status ≡ status_queued
    → a.queued_at ≡ some queued
    → IsPositive (calculate_effective_priority F rate max_wait now a).0
unfolding calculate_effective_priority
calculate_effective_priority-IsPositive F rate max_wait now queued a s e = ground (arith, s, e)

module _ (I : MemoryRepository → Type 0) where
  pub sum_rounds-Returns :
      (P : Ad → Type 0) (round : Ad → Action MemoryRepository ℕ) (ads : List Ad)
      → ((a : Ad) → P a → Returns I Any (round a))
      → All P ads
      → Returns I Any (sum_rounds memory_repository memory_cache round ads)
  unfolding sum_rounds
  sum_rounds-Returns P round [] h k = pure-Returns 0
  sum_rounds-Returns P round (a ∷ ads) h k = bind-Returns Any Any (h a k.0) λ n _.
      bind-Returns Any Any (sum_rounds-Returns P round ads h k.1) λ rest _. pure-Returns (n + rest)

  pub age_round-Returns :
      (F : FloatOps) (q : DistributedPriorityQueue) (now : ℤ) (ad : Ad) (o : Option ℤ)
      → ((p : ℤ)
          → IsPositive p
          → Returns I Any (write_priority memory_repository memory_cache ad p))
      → ad.status ≡ status_queued
      → ad.queued_at ≡ o
      → Returns I Any (age_round memory_repository memory_cache F q now ad)
  unfolding age_round
  age_round-Returns F q now ad none written s e = rw e (pure-Returns 0)
  age_round-Returns F q now ad (some t) written s e =
      let queued = record ad { queued_at = some t } in
      let positive =
        calculate_effective_priority-IsPositive F q.aging_rate q.max_wait_time now t queued s
          refl in
      rw e (if-Returns _ (pure-Returns 0) (written _ positive))

  pub boost_round-Returns :
      (q : DistributedPriorityQueue) (now : ℤ) (ad : Ad) (o : Option ℤ)
      → Returns I Any (write_priority memory_repository memory_cache ad (pos 1))
      → ad.queued_at ≡ o
      → Returns I Any (boost_round memory_repository memory_cache q now ad)
  unfolding boost_round
  boost_round-Returns q now ad none written e = rw e (pure-Returns 0)
  boost_round-Returns q now ad (some _) written e = rw e (if-Returns _ written (pure-Returns 0))
