-- ===== src/Ad.antt =====
-- internal/domain/models/ad.go and enum.go: the advertisement and its methods. A method with a
-- pointer receiver returns the new record; `time.Now()` is the argument `now`, in nanoseconds.
pub mod Priority
use game_ad_service.Common.{
  String, Bool, true, false, Option, none, some, List, ite, if◌then◌else◌, String-discrete, ◌&&◌,
  ◌||◌,
}
use game_ad_service.Common.Int.{ℤ, pos, ◌-ℤ◌, sub64, ltb_ℤ, leb_ℤ, incr}
use game_ad_service.Float64.{Float64, FloatOps}

abbrev pub AdStatus : Type 0
AdStatus = String

abbrev pub status_submitted : AdStatus
status_submitted = "submitted"

abbrev pub status_queued : AdStatus
status_queued = "queued"

abbrev pub status_processing : AdStatus
status_processing = "processing"

abbrev pub status_completed : AdStatus
status_completed = "completed"

abbrev pub status_failed : AdStatus
status_failed = "failed"

-- The levels of a priority, 1 the highest.
abbrev pub priority_highest : ℤ
priority_highest = pos 1

abbrev pub priority_high : ℤ
priority_high = pos 2

abbrev pub priority_medium : ℤ
priority_medium = pos 3

abbrev pub priority_low : ℤ
priority_low = pos 4

abbrev pub priority_lowest : ℤ
priority_lowest = pos 5

pub record AdSubmission : Type 0 where
  pub title : String
  pub description : String
  pub genre : String
  pub target_audience : List String
  pub visual_elements : List String
  pub call_to_action : String
  pub duration : ℤ
  pub priority : ℤ

pub record AdAnalysis : Type 0 where
  pub effectiveness_score : Float64
  pub strengths : List String
  pub improvement_suggestions : List String

pub record Ad : Type 0 where
  pub ad_id : String
  pub submission : AdSubmission
  pub open submission use *
  pub status : AdStatus
  pub created_at : ℤ
  pub queued_at : Option ℤ
  pub processing_started_at : Option ℤ
  pub completed_at : Option ℤ
  pub analysis : Option AdAnalysis
  pub error : String
  pub attempts : ℤ
  pub worker_id : String
  pub version : ℤ
  pub effective_priority : ℤ

unfoldable pub new_ad : ℤ → AdSubmission → Ad
new_ad now s = record {
  ad_id = "";
  submission = record s { priority = if leb_ℤ s.priority (pos 0) then pos 5 else s.priority };
  status = status_submitted;
  created_at = now;
  queued_at = none;
  processing_started_at = none;
  completed_at = none;
  analysis = none;
  error = "";
  attempts = pos 0;
  worker_id = "";
  version = pos 1;
  effective_priority = pos 0;
}

unfoldable pub set_status : ℤ → AdStatus → Ad → Ad
set_status now new_status a =
    let b = record a { status = new_status } in
    ite (String-discrete new_status status_queued)
      (record b { queued_at = some now; effective_priority = a.priority })
      (ite (String-discrete new_status status_processing)
        (record b { processing_started_at = some now })
        (ite (String-discrete new_status status_completed) (record b { completed_at = some now })
          b))

-- The Go method also returns the new counter; no caller reads it.
unfoldable pub increment_attempts : Ad → Ad
increment_attempts a = record a { attempts = incr a.attempts }

unfoldable pub assign_worker : String → Ad → Ad
assign_worker worker a = record a { worker_id = worker }

unfoldable pub set_analysis_results : AdAnalysis → Ad → Ad
set_analysis_results results a = record a { analysis = some results }

unfoldable pub set_error : ℤ → String → Ad → Ad
unfolding set_status
set_error now message a = set_status now status_failed (record a { error = message })

unfoldable pub is_processable : Ad → Bool
is_processable a =
    ite (String-discrete a.status status_submitted) true
      (ite (String-discrete a.status status_queued) true false)

unfoldable pub can_be_requeued : ℤ → Ad → Bool
can_be_requeued max_attempts a =
    ite (String-discrete a.status status_failed) (ltb_ℤ a.attempts max_attempts) false

-- `time.Since(*a.QueuedAt)`, or 0 if the ad was never queued.
unfoldable pub get_waiting_time : ℤ → Ad → ℤ
get_waiting_time now a = elim a.queued_at [ none ↦ pos 0 | some t ↦ now -ℤ t ]

unfoldable pub has_exceeded_max_wait_time : ℤ → ℤ → Ad → Bool
unfolding get_waiting_time
has_exceeded_max_wait_time now max_wait_time a = ltb_ℤ max_wait_time (get_waiting_time now a)

module _ (F : FloatOps) where
  -- The share of the longest wait that has passed, capped at 1.
  pub waiting_ratio : ℤ → ℤ → Float64
  waiting_ratio waiting_time max_wait_time =
      let ratio = F.div (F.of_int waiting_time) (F.of_int max_wait_time) in
      let one = F.of_int (pos 1) in if F.gt ratio one then one else ratio

  pub priority_boost : ℤ → Float64 → Float64 → ℤ
  priority_boost priority ratio aging_rate =
      F.to_int (F.mul (F.mul (F.of_int priority) ratio) aging_rate)

  -- The value returned, and the ad with the value in its field.
  unfoldable pub calculate_effective_priority : Float64 → ℤ → ℤ → Ad → ℤ × Ad
  calculate_effective_priority aging_rate max_wait_time now a =
      ite (String-discrete a.status status_queued)
        (elim a.queued_at [
          | none ↦ (a.priority, a)
          | some queued ↦
              let ratio = waiting_ratio (now -ℤ queued) max_wait_time in
              let effective = sub64 a.priority (priority_boost a.priority ratio aging_rate) in
              let capped = if ltb_ℤ effective (pos 1) then pos 1 else effective in
              (capped, record a { effective_priority = capped })
        ])
        (a.priority, a)
