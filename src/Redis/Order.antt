-- ===== src/Redis/Order.antt =====
-- The queue in a sorted set.
use game_ad_service.Common.{
  String, String-discrete, Option, none, some, List, [], ◌∷◌, ◌≡◌, ◌≢◌, sym, subst, arith, inl, inr,
  ◌⊎◌, ite,
}
use game_ad_service.Common.Int.{ℤ, pos, negsuc, ◌≤ℤ◌, ◌<ℤ◌}
use game_ad_service.Float64.{Float64}
use game_ad_service.Storage.{ok}
use game_ad_service.Redis.{RedisClient, Codec, value, push_to_queue, pop_from_queue, first_member}
use game_ad_service.Redis.Cache.{command_inverse}

-- What the server documents of sorted sets. `score s q m` is what member `m` of the set `q` has.
-- `ZADD` sets a score; `ZPOPMIN` with the count 1 takes out a member whose score is least, and gives
-- nothing just if the set is empty.
pub record SortedSets {S : Type 0} (client : RedisClient S) : Type 1 where
  pub score : S → String → String → Option Float64
  pub Le : Float64 → Float64 → Type 0
  pub added :
      (q m : String) (x : Float64) (n : ℤ) (s s' : S)
      → client.z_add q x m s ≡ (value n, s')
      → (j : String) → score s' q j ≡ ite (String-discrete m j) (some x) (score s q j)
  pub popped :
      (q : String) (l : List (Option String × Float64)) (s s' : S)
      → client.z_pop_min q (pos 1) s ≡ (value l, s')
      → ((l ≡ []) × ((j : String) → score s q j ≡ none))
        ⊎ ((m : String) × (x : Float64) × (l ≡ (some m, x) ∷ [])
            × (score s q m ≡ some x)
            × ((j : String) (y : Float64) → score s q j ≡ some y → Le x y)
            × ((j : String) → score s' q j ≡ ite (String-discrete m j) none (score s q j)))

-- `float64` has every integer up to 2 ^ 53.
abbrev pub IsExact : ℤ → Type 0
IsExact n = (negsuc 9_007_199_254_740_991 ≤ℤ n) × (n ≤ℤ pos 9_007_199_254_740_992)

module _ {S : Type 0} (client : RedisClient S) (J : Codec) (Z : SortedSets client) where
  -- The member that a pop has taken.
  record Taken (q id : String) (s s' : S) : Type 0 where
    pub least : Float64
    pub had : Z.score s q id ≡ some least
    pub first : (j : String) (y : Float64) → Z.score s q j ≡ some y → Z.Le least y
    pub left : (j : String) → Z.score s' q j ≡ ite (String-discrete id j) none (Z.score s q j)

  pop_inverse :
      (q id : String) (s s' : S) → pop_from_queue client J q s ≡ (ok id, s') → Taken q id s s'
  unfolding pop_from_queue
  pop_inverse q id s s' e =
      let (l, run, first) = command_inverse first_member (client.z_pop_min q (pos 1)) s s' id e in
      elim (Z.popped q l s s' run) [
        | inl (empty, _) ↦ absurd (ground (arith, first, empty))
        | inr (m, x, one, had, least, left) ↦
            let same : m ≡ id = ground (arith, first, one) in
            rw (← same) (record { least = x; had = had; first = least; left = left })
      ]

  push_inverse :
      (q id : String) (p : ℤ) (s s' : S)
      → push_to_queue client J q id p s ≡ (ok tt, s')
      → (j : String)
      → Z.score s' q j ≡ ite (String-discrete id j) (some (J.of_int p)) (Z.score s q j)
  unfolding push_to_queue
  push_inverse q id p s s' e =
      let (n, run, _) = command_inverse (λ _. ok tt) (client.z_add q (J.of_int p) id) s s' tt e in
      Z.added q id (J.of_int p) n s s' run

  -- The scores after two pushes to an empty queue.
  both_pushed :
      (q a b : String) (m n : ℤ) (s s1 s2 : S)
      → a ≢ b
      → ((j : String) → Z.score s q j ≡ none)
      → ((push_to_queue client J q a m s ≡ (ok tt, s1))
          × (push_to_queue client J q b n s1 ≡ (ok tt, s2)))
        ⊎ ((push_to_queue client J q b n s ≡ (ok tt, s1))
            × (push_to_queue client J q a m s1 ≡ (ok tt, s2)))
      → (j : String)
      → Z.score s2 q j
        ≡ ite
            (String-discrete a j)
            (some (J.of_int m))
            (ite (String-discrete b j) (some (J.of_int n)) none)
  both_pushed q a b m n s s1 s2 apart empty (inl (e, f)) j =
      ground (arith, push_inverse q a m s s1 e j, push_inverse q b n s1 s2 f j, empty j, apart)
  both_pushed q a b m n s s1 s2 apart empty (inr (e, f)) j =
      ground (arith, push_inverse q b n s s1 e j, push_inverse q a m s1 s2 f j, empty j)

  -- Two pops in a row that succeed give two different ids, the first of which had the smaller or the
  -- same score: unlike the pop of the in-memory repository, this one removes what it gives.
  pop_pop :
      (q a b : String) (s s1 s2 : S)
      → pop_from_queue client J q s ≡ (ok a, s1)
      → pop_from_queue client J q s1 ≡ (ok b, s2)
      → (a ≢ b)
        × ((x : Float64) × (y : Float64) × (Z.score s q a ≡ some x)
            × (Z.score s q b ≡ some y)
            × Z.Le x y)
  pop_pop q a b s s1 s2 e e' =
      let first = pop_inverse q a s s1 e in
      let second = pop_inverse q b s1 s2 e' in
      let apart : a ≢ b = λ p. ground (arith, second.had, first.left b, p) in
      let had : Z.score s q b ≡ some second.least =
        ground (arith, second.had, first.left b, apart) in
      (apart, (first.least, second.least, first.had, had, first.first b second.least had))

  -- Two different ids that are pushed to an empty queue with priorities that are exact as `float64`,
  -- in any order of the pushes, come out in the order of their priorities, the smaller one first, by
  -- two pops that succeed, where `float64` numbers made from different such integers are ordered as
  -- those.
  pub pop_pop-push-push :
      (q a b x y : String) (m n : ℤ) (s s1 s2 s3 s4 : S)
      → ((i j : ℤ) → IsExact i → IsExact j → i <ℤ j → ¬ Z.Le (J.of_int j) (J.of_int i))
      → IsExact m
      → IsExact n
      → m <ℤ n
      → a ≢ b
      → ((j : String) → Z.score s q j ≡ none)
      → ((push_to_queue client J q a m s ≡ (ok tt, s1))
          × (push_to_queue client J q b n s1 ≡ (ok tt, s2)))
        ⊎ ((push_to_queue client J q b n s ≡ (ok tt, s1))
            × (push_to_queue client J q a m s1 ≡ (ok tt, s2)))
      → pop_from_queue client J q s2 ≡ (ok x, s3)
      → pop_from_queue client J q s3 ≡ (ok y, s4)
      → (x ≡ a) × (y ≡ b)
  pop_pop-push-push q a b x y m n s s1 s2 s3 s4 law em en lt apart empty pushes e e' =
      let f = pop_inverse q x s2 s3 e in
      let g = pop_inverse q y s3 s4 e' in
      let scores = both_pushed q a b m n s s1 s2 apart empty pushes in
      let at_a : Z.score s2 q a ≡ some (J.of_int m) = ground (arith, scores a) in
      let first : x ≡ a = elim (String-discrete a x) [
        | yes p ↦ sym p
        | no other ↦ elim (String-discrete b x) [
          | no neither ↦ absurd (ground (arith, f.had, scores x, other, neither))
          | yes p ↦
              let least : f.least ≡ J.of_int n = ground (arith, f.had, scores x, other, p) in
              absurd (
                law m n em en lt
                  (subst (λ z. Z.Le z (J.of_int m)) least (f.first a (J.of_int m) at_a)))
        ]
      ] in
      (
        first,
        elim (String-discrete b y) [
          | yes p ↦ sym p
          | no n ↦ absurd (ground (arith, g.had, f.left y, scores y, first, n))
        ],
      )
