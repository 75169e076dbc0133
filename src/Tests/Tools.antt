-- ===== src/Tests/Tools.antt =====
-- Error codes, the configuration, retries and priorities.
use game_ad_service.Common.{
  ℕ, suc, ◌*◌, ◌/◌, ◌≤◌, [], ◌∷◌, ◌≡◌, ◌≢◌, refl, arith, if◌then◌else◌, ltb, ◌⊎◌, ◌↔◌, ite,
  String-discrete,
}
use game_ad_service.Common.Int.{pos, pos_part, ◌≤ℤ◌}
use game_ad_service.Float64.{Float64, FloatLaws}
use game_ad_service.Errors.{Error, other}
use game_ad_service.Ad.{calculate_effective_priority}
use game_ad_service.Ad.Priority.{calculate_effective_priority_bounds}
use game_ad_service.Storage.{ok, err, panic, Action, ◌>>◌, ignore}
use game_ad_service.Config.{IsSound, validate, validate_lem}
use game_ad_service.Retry.{
  retry, retry_with_backoff, retry_with_jitter, calls, AllFail, retry_lem, retry_with_backoff_lem,
}
use native.Mathlib.Nat.{mul-le-mul_left}
use game_ad_service.Events.{
  Event, EventHandler, new_event_bus, subscribe, publish, publish-subscribe,
}
use game_ad_service.Analyzer.{AnalyzerOptions}
use game_ad_service.Tests.Data.{config, first_ad, fixed_ops}

validate_lem_example : (validate config ≡ ok tt) ↔ IsSound config
validate_lem_example = validate_lem config

-- A function that fails until it has been called twice; the state counts the calls.
abbrev third_time : Action ℕ (Unit {0})
third_time n = (if ltb n 2 then err (other "not yet") else ok tt, suc n)

third_time_returns : (n : ℕ) → (third_time n).0 ≢ panic
third_time_returns n e = ground arith

retry_lem_example :
    ((k : ℕ) × (suc k ≤ 5)
      × AllFail third_time k 0
      × ((third_time (calls third_time k 0)).0 ≡ ok tt)
      × (retry third_time (pos 5) 0 ≡ (ok tt, calls third_time (suc k) 0)))
    ⊎ (AllFail third_time 5 0
        × ((e : Error) × (retry third_time (pos 5) 0 ≡ (err e, calls third_time 5 0))))
retry_lem_example = retry_lem third_time (pos 5) 0 third_time_returns

retry_with_backoff_lem_example :
    let (r, slept, t) = retry_with_backoff third_time (pos 5) (pos 10) (pos 100) 0 in
    let (r', slept', t') = retry_with_jitter third_time (pos 5) (7 ∷ []) (pos 10) (pos 100) 0 in
    (r ≡ ok tt) × (t ≡ calls third_time 5 0) × (r' ≡ ok tt) × (t' ≡ calls third_time 5 0)
retry_with_backoff_lem_example =
    retry_with_backoff_lem third_time (pos 5) (pos 10) (pos 100) (7 ∷ []) 0 third_time_returns

-- The fixed-point operations satisfy what is asked of the floating-point ones.
scale-le : (x u : ℕ) → u ≤ 1000 → x * u / 1000 ≤ x
scale-le x u h = omega (arith, mul-le-mul_left x h)

abbrev fixed_laws : FloatLaws fixed_ops
fixed_laws = record {
  IsUnit = λ x. x.bits ≤ 1000;
  one_unit = omega arith;
  quotient_unit = λ n d hn hd h. ground arith;
  scaled = λ p u r lo hi hu hr.
      let x = pos_part p * 1000 in
      let y = x * u.bits / 1000 in
      let first = scale-le x u.bits hu in
      let second = scale-le y r.bits hr in (omega arith, ground (arith, first, second));
}

calculate_effective_priority_bounds_example :
    let rate : Float64 = record { bits = 500 } in
    let (p, b) = calculate_effective_priority fixed_ops rate (pos 300) (pos 200) first_ad in
    (pos 1 ≤ℤ p) × (p ≤ℤ pos 3) × (b ≡ record first_ad { effective_priority = p })
calculate_effective_priority_bounds_example =
    calculate_effective_priority_bounds fixed_ops fixed_laws (record { bits = 500 }) (pos 300)
      (pos 200) (pos 110) first_ad (omega arith) (omega arith) refl refl (omega arith) (omega arith)
      (omega arith)

abbrev ad_done : Event
ad_done = record { id = "e1"; event_type = "ad.done"; created_at = pos 5; updated_at = pos 5 }

-- A handler that counts the events it gets.
abbrev count_events : EventHandler ℕ
count_events event n = (ok tt, suc n)

publish-subscribe_example :
    let bus = subscribe "ad.done" count_events new_event_bus in
    publish (subscribe "ad.done" count_events bus) ad_done 0
    ≡ ite
        (String-discrete "ad.done" "ad.done")
        ((publish bus ad_done >> ignore (count_events ad_done)) 0)
        (publish bus ad_done 0)
publish-subscribe_example =
    publish-subscribe "ad.done" count_events (subscribe "ad.done" count_events new_event_bus)
      ad_done 0

abbrev analyzer_options : AnalyzerOptions
analyzer_options = record {
  min_score = record { bits = 1000 };
  max_score = record { bits = 10000 };
  analysis_delay = pos 0;
}
