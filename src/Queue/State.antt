-- ===== src/Queue/State.antt =====
-- internal/processor/queue.go, lines 29 to 99: the options and the queue's own fields.
use game_ad_service.Common.{String, Bool, true, false, Option, none, some}
use game_ad_service.Common.Int.{ℤ, pos}
use game_ad_service.Float64.{Float64}
use game_ad_service.Errors.{Error}
use game_ad_service.Storage.{Result, ok, err, panic, Action}

pub record QueueOptions : Type 0 where
  pub max_capacity : ℤ
  pub processing_timeout : ℤ
  pub lock_ttl : ℤ
  pub max_attempts : ℤ
  pub enable_aging : Bool
  pub aging_rate : Float64
  pub max_wait_time : ℤ

-- Durations in nanoseconds; the float64 0.5 is its bit pattern.
unfoldable pub default_queue_options : QueueOptions
default_queue_options = record {
  max_capacity = pos 10000;
  processing_timeout = pos 300_000_000_000;
  lock_ttl = pos 30_000_000_000;
  max_attempts = pos 3;
  enable_aging = true;
  aging_rate = record { bits = 0x3fe0000000000000 };
  max_wait_time = pos 300_000_000_000;
}

-- The two repositories are parameters of the operations; `queuedItems` and `batchSize` are read by
-- no method, and the shutdown channel is closed just when `closed` is set.
pub record DistributedPriorityQueue : Type 0 where
  pub instance_id : String
  pub options : QueueOptions
  pub open options use *
  pub closed : Bool

unfoldable pub new_distributed_priority_queue : String → QueueOptions → DistributedPriorityQueue
new_distributed_priority_queue instance_id options = record {
  instance_id = instance_id;
  options = options;
  closed = false;
}

unfoldable pub close : DistributedPriorityQueue → DistributedPriorityQueue
close q = record q { closed = true }

abbrev pub ads_queue : String
ads_queue = "ads:queue"

-- A call that may call itself again: `none` if it still does so when the fuel has run out.
abbrev pub Run : Type 0 → Type 0 → Type 0
Run S A = S → Option (Result A × S)

module _ {S A : Type 0} where
  unfoldable pub once : Action S A → Run S A
  once m s = some (m s)

  -- As `handle` of the storage module, and `deferring`.
  unfoldable pub handle_run :
      {B : Type 0} → Action S B → (Error → Run S A) → (B → Run S A) → Run S A
  handle_run m h f s =
      let (r, s') = m s in elim r [ ok b ↦ f b s' | err e ↦ h e s' | panic ↦ some (panic, s') ]

  unfoldable pub deferring_run : {B : Type 0} → Action S B → Run S A → Run S A
  deferring_run d body s = elim (body s) [ none ↦ none | some (r, s') ↦ some (r, (d s').1) ]
