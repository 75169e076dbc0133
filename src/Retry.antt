-- ===== src/Retry.antt =====
-- pkg/utils/retry.go: calling a function again when it fails. The function acts on a state `S`; the
-- sleeps are left out of `Retry` and listed, latest last, by the other two, as their lengths are
-- computed there. `rand.Intn(1000)` is the next of a list of numbers, and 0 when the list is empty.
use game_ad_service.Common.{
  ℕ, zero, suc, ◌≤◌, List, [], ◌∷◌, ◌≡◌, ◌≢◌, refl, arith, inl, inr, ◌⊎◌, if◌then◌else◌,
}
use game_ad_service.Common.Int.{ℤ, pos, negsuc, ltb_ℤ, add64, ◌*ℤ◌}
use game_ad_service.Errors.{Error, other}
use game_ad_service.Storage.{Result, ok, err, panic, Action}

-- The rounds of `for i := 0; i < maxAttempts; i++`.
abbrev pub attempts : ℤ → ℕ
attempts (pos n) = n
attempts (negsuc n) = 0

-- The next random number, and those after it.
abbrev pub draw : List ℕ → ℕ × List ℕ
draw [] = (0, [])
draw (r ∷ rs) = (r, rs)

-- `delay *= 2`, cut at the longest delay.
abbrev pub next_delay : ℤ → ℤ → ℤ
next_delay max_delay delay =
    let twice = add64 delay delay in if ltb_ℤ max_delay twice then max_delay else twice

abbrev pub millisecond : ℤ
millisecond = pos 1_000_000

-- A panic of the function ends the call.
module _ {S : Type 0} (fn : Action S (Unit {0})) where
  unfoldable pub retry_loop : ℕ → Action S (Unit {0})
  retry_loop zero s = (err (other "failed to execute function"), s)
  retry_loop (suc n) s =
      let (r, s') = fn s in
      let again = retry_loop n s' in
      elim r [ ok _ ↦ (ok tt, s') | err _ ↦ again | panic ↦ (panic, s') ]

  unfoldable pub retry : ℤ → Action S (Unit {0})
  unfolding retry_loop
  retry max_attempts = retry_loop (attempts max_attempts)

  -- The loop goes on after a success, and its end returns no error.
  unfoldable pub backoff_loop : ℕ → ℤ → ℤ → S → Result (Unit {0}) × List ℤ × S
  backoff_loop zero delay max_delay s = (ok tt, [], s)
  backoff_loop (suc n) delay max_delay s =
      let (r, s') = fn s in
      let (after, slept, t) = backoff_loop n delay max_delay s' in
      let (after_wait, slept_wait, t_wait) =
        backoff_loop n (next_delay max_delay delay) max_delay s' in
      elim r [
        | ok _ ↦ (after, slept, t)
        | err _ ↦ (after_wait, delay ∷ slept_wait, t_wait)
        | panic ↦ (panic, [], s')
      ]

  unfoldable pub retry_with_backoff : ℤ → ℤ → ℤ → S → Result (Unit {0}) × List ℤ × S
  unfolding backoff_loop
  retry_with_backoff max_attempts initial_delay max_delay =
      backoff_loop (attempts max_attempts) initial_delay max_delay

  unfoldable pub jitter_loop : ℕ → List ℕ → ℤ → ℤ → S → Result (Unit {0}) × List ℤ × S
  jitter_loop zero rs delay max_delay s = (ok tt, [], s)
  jitter_loop (suc n) rs delay max_delay s =
      let (r, s') = fn s in
      let (random, rest) = draw rs in
      let longer = add64 (next_delay max_delay delay) (pos random *ℤ millisecond) in
      let (after, slept, t) = jitter_loop n rs delay max_delay s' in
      let (after_wait, slept_wait, t_wait) = jitter_loop n rest longer max_delay s' in
      elim r [
        | ok _ ↦ (after, slept, t)
        | err _ ↦ (after_wait, delay ∷ slept_wait, t_wait)
        | panic ↦ (panic, [], s')
      ]

  unfoldable pub retry_with_jitter : ℤ → List ℕ → ℤ → ℤ → S → Result (Unit {0}) × List ℤ × S
  unfolding jitter_loop
  retry_with_jitter max_attempts rs initial_delay max_delay =
      jitter_loop (attempts max_attempts) rs initial_delay max_delay

Result-cases : (r : Result (Unit {0})) → (r ≡ ok tt) ⊎ ((e : Error) × (r ≡ err e)) ⊎ (r ≡ panic)
Result-cases (ok tt) = inl refl
Result-cases (err e) = inr (inl (e, refl))
Result-cases panic = inr (inr refl)

module _ {S : Type 0} (fn : Action S (Unit {0})) where
  -- The state after the given number of calls.
  abbrev pub calls : ℕ → S → S
  calls zero s = s
  calls (suc n) s = calls n (fn s).1

  -- The given number of calls, one after the other, all fail.
  abbrev pub AllFail : ℕ → S → Type 0
  AllFail zero s = Unit
  AllFail (suc n) s = ((e : Error) × ((fn s).0 ≡ err e)) × AllFail n (fn s).1

  abbrev pub NoPanic : Type 0
  NoPanic = (s : S) → (fn s).0 ≢ panic

  retry_loop_lem :
      (n : ℕ) (s : S)
      → NoPanic
      → ((k : ℕ) × (suc k ≤ n)
          × AllFail k s
          × ((fn (calls k s)).0 ≡ ok tt)
          × (retry_loop fn n s ≡ (ok tt, calls (suc k) s)))
        ⊎ (AllFail n s × ((e : Error) × (retry_loop fn n s ≡ (err e, calls n s))))
  unfolding retry_loop
  retry_loop_lem zero s h = inr (tt, (_, refl))
  retry_loop_lem (suc n) s h = elim (Result-cases (fn s).0) [
    | inl e ↦ inl (0, omega arith, tt, e, ground arith)
    | inr (inl (x, e)) ↦ elim (retry_loop_lem n (fn s).1 h) [
      | inl (k, lt, fails, good, run) ↦
          inl (suc k, omega (arith, lt), ((x, e), fails), good, ground (arith, run, e))
      | inr (fails, (y, run)) ↦ inr (((x, e), fails), (y, ground (arith, run, e)))
    ]
    | inr (inr e) ↦ absurd (h s e)
  ]

  -- `Retry` of a function that does not panic calls it until it succeeds, and at most the given number of
  -- times: either the first calls fail, the next one, still within the number, succeeds, and
  -- `Retry` returns no error right after it; or all of that number of calls fail and `Retry`
  -- returns an error.
  pub retry_lem :
      (max_attempts : ℤ) (s : S)
      → NoPanic
      → let n = attempts max_attempts in
        ((k : ℕ) × (suc k ≤ n)
          × AllFail k s
          × ((fn (calls k s)).0 ≡ ok tt)
          × (retry fn max_attempts s ≡ (ok tt, calls (suc k) s)))
        ⊎ (AllFail n s × ((e : Error) × (retry fn max_attempts s ≡ (err e, calls n s))))
  unfolding retry
  retry_lem max_attempts s h = retry_loop_lem (attempts max_attempts) s h

  backoff_loop_lem :
      (n : ℕ) (delay max_delay : ℤ) (s : S)
      → NoPanic
      → let (r, slept, t) = backoff_loop fn n delay max_delay s in (r ≡ ok tt) × (t ≡ calls n s)
  unfolding backoff_loop
  backoff_loop_lem zero delay max_delay s h = (refl, refl)
  backoff_loop_lem (suc n) delay max_delay s h = ground (
    arith,
    h s,
    backoff_loop_lem n delay max_delay (fn s).1 h,
    backoff_loop_lem n (next_delay max_delay delay) max_delay (fn s).1 h,
  )

  jitter_loop_lem :
      (n : ℕ) (rs : List ℕ) (delay max_delay : ℤ) (s : S)
      → NoPanic
      → let (r, slept, t) = jitter_loop fn n rs delay max_delay s in (r ≡ ok tt) × (t ≡ calls n s)
  unfolding jitter_loop
  jitter_loop_lem zero rs delay max_delay s h = (refl, refl)
  jitter_loop_lem (suc n) rs delay max_delay s h =
      let (random, rest) = draw rs in
      let longer = add64 (next_delay max_delay delay) (pos random *ℤ millisecond) in
      ground (
        arith,
        h s,
        jitter_loop_lem n rs delay max_delay (fn s).1 h,
        jitter_loop_lem n rest longer max_delay (fn s).1 h,
      )

  -- `RetryWithBackoff` and `RetryWithJitter` of a function that does not panic call it the full number of
  -- times, also when a call has succeeded, and return no error, also when all calls have failed.
  pub retry_with_backoff_lem :
      (max_attempts initial_delay max_delay : ℤ) (rs : List ℕ) (s : S)
      → NoPanic
      → let (r, slept, t) = retry_with_backoff fn max_attempts initial_delay max_delay s in
        let (r', slept', t') = retry_with_jitter fn max_attempts rs initial_delay max_delay s in
        (r ≡ ok tt)
        × (t ≡ calls (attempts max_attempts) s)
        × (r' ≡ ok tt)
        × (t' ≡ calls (attempts max_attempts) s)
  unfolding retry_with_backoff retry_with_jitter
  retry_with_backoff_lem max_attempts initial_delay max_delay rs s h =
      let n = attempts max_attempts in
      let (a, b) = backoff_loop_lem n initial_delay max_delay s h in
      let (c, d) = jitter_loop_lem n rs initial_delay max_delay s h in (a, b, c, d)
