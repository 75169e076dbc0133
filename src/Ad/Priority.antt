-- ===== src/Ad/Priority.antt =====
-- Priorities and status changes of an advertisement.
use game_ad_service.Common.{◌≡◌, none, some, arith, ◌≢◌, Bool-cases, inl, inr, ◌⊎◌}
use game_ad_service.Common.Int.{ℤ, pos, ◌-ℤ◌, ◌≤ℤ◌, -ℤ_parts, sub64_lem}
use game_ad_service.Float64.{Float64, FloatOps, FloatLaws, max_exact}
use game_ad_service.Ad.{
  Ad, AdSubmission, status_queued, new_ad, calculate_effective_priority, priority_boost,
  waiting_ratio,
}

-- Whatever priority a submission carries, the ad made of it has a priority of at least 1, keeps a
-- positive one unchanged, and starts at version 1 with no attempt.
pub new_ad-priority :
    (now : ℤ) (s : AdSubmission)
    → let a = new_ad now s in
      (pos 1 ≤ℤ a.priority)
      × (pos 1 ≤ℤ s.priority → a.priority ≡ s.priority)
      × (a.version ≡ pos 1)
      × (a.attempts ≡ pos 0)
unfolding new_ad
new_ad-priority now s = ground arith

module _ (F : FloatOps) where
  -- An ad that is not queued, or has no time of queueing, is returned with its own priority.
  pub calculate_effective_priority-idle :
      (rate : Float64) (max_wait now : ℤ) (a : Ad)
      → (a.status ≢ status_queued) ⊎ (a.queued_at ≡ none)
      → calculate_effective_priority F rate max_wait now a ≡ (a.priority, a)
  unfolding calculate_effective_priority
  calculate_effective_priority-idle rate max_wait now a h = ground arith

  module _ (L : FloatLaws F) where
    waiting_ratio-IsUnit : (n d : ℤ) → pos 0 ≤ℤ n → pos 1 ≤ℤ d → L.IsUnit (waiting_ratio F n d)
    unfolding waiting_ratio
    waiting_ratio-IsUnit n d hn hd =
        let one = F.of_int (pos 1) in
        let q = F.div (F.of_int n) (F.of_int d) in
        elim (Bool-cases (F.gt q one)) [
          | inl e ↦ rw e L.one_unit
          | inr e ↦ rw e (L.quotient_unit n d hn hd e)
        ]

    -- With an ageing rate between 0 and 1, a positive longest wait, a time of queueing that is not
    -- in the future and a priority between 1 and 2 ^ 53, a queued ad's effective priority lies
    -- between 1 and its own priority, and it is also what the ad's field holds afterwards. The
    -- floating-point operations act as IEEE-754 says for values between 0 and 1.
    pub calculate_effective_priority_bounds :
        (rate : Float64) (max_wait now queued : ℤ) (a : Ad)
        → L.IsUnit rate
        → pos 1 ≤ℤ max_wait
        → a.status ≡ status_queued
        → a.queued_at ≡ some queued
        → queued ≤ℤ now
        → pos 1 ≤ℤ a.priority
        → a.priority ≤ℤ pos max_exact
        → let (p, b) = calculate_effective_priority F rate max_wait now a in
          (pos 1 ≤ℤ p) × (p ≤ℤ a.priority) × (b ≡ record a { effective_priority = p })
    unfolding calculate_effective_priority priority_boost
    calculate_effective_priority_bounds rate max_wait now queued a hr hm hs hq hn lo hi =
        let ratio = waiting_ratio F (now -ℤ queued) max_wait in
        let u =
          waiting_ratio-IsUnit (now -ℤ queued) max_wait (omega (arith, -ℤ_parts now queued)) hm in
        let s = L.scaled a.priority ratio rate (omega arith) hi u hr in
        let e =
          sub64_lem a.priority (priority_boost F a.priority ratio rate) (omega arith) (omega arith)
            s.0 (omega (arith, s.1)) in
        ground (arith, e, s, -ℤ_parts a.priority (priority_boost F a.priority ratio rate))
