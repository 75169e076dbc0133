-- ===== src/Tests/Data.antt =====
-- Ads, a queue and repositories for the tests. Instants and durations are small numbers.
use game_ad_service.Common.{
  String, none, some, [], ◌∷◌, ◌≡◌, ◌≢◌, refl, subst, String-discrete, true, false, arith, ℕ, inl,
  ltb, ◌+◌, ◌-◌, ◌*◌, ◌/◌,
}
use game_ad_service.Common.Int.{pos, pos_part}
use game_ad_service.Common.Dict.{lookup}
use game_ad_service.Float64.{FloatOps}
use game_ad_service.Ad.{
  Ad, AdAnalysis, AdSubmission, AdStatus, status_submitted, status_queued, status_processing,
}
use game_ad_service.Mapper.{AdSubmissionDto}
use game_ad_service.Memory.State.{MemoryRepository}
use game_ad_service.Memory.Invariant.{IsValid}
use game_ad_service.Memory.Find.{IsNext}
use game_ad_service.Queue.State.{DistributedPriorityQueue}
use game_ad_service.Queue.Store.{IsFree}
use game_ad_service.Service.Ready.{IsReady}
use game_ad_service.Config.{Config}

abbrev pub puzzle : AdSubmission
puzzle = record {
  title = "Puzzle";
  description = "A puzzle game";
  genre = "puzzle";
  target_audience = "casual" ∷ [];
  visual_elements = [];
  call_to_action = "Play now";
  duration = pos 30;
  priority = pos 3;
}

abbrev pub puzzle_dto : AdSubmissionDto
puzzle_dto = record {
  title = "Puzzle";
  description = "A puzzle game";
  genre = "puzzle";
  target_audience = "casual" ∷ [];
  visual_elements = [];
  call_to_action = "Play now";
  duration = pos 30;
  priority = pos 0;
}

-- An ad with this id, status, version and effective priority.
abbrev pub ad_with : String → AdStatus → ℕ → ℕ → Ad
ad_with id status version priority = record {
  ad_id = id;
  submission = puzzle;
  status = status;
  created_at = pos 100;
  queued_at = some (pos 110);
  processing_started_at = none;
  completed_at = none;
  analysis = none;
  error = "";
  attempts = pos 0;
  worker_id = "";
  version = pos version;
  effective_priority = pos priority;
}

abbrev pub first_ad : Ad
first_ad = ad_with "a1" status_queued 2 3

abbrev pub second_ad : Ad
second_ad = ad_with "a2" status_queued 2 5

abbrev pub new_one : Ad
new_one = ad_with "a3" status_submitted 1 0

abbrev pub running_ad : Ad
running_ad = ad_with "a4" status_processing 3 3

abbrev pub store : MemoryRepository
store = record {
  ads = ("a2", second_ad) ∷ ("a1", first_ad) ∷ ("a3", new_one) ∷ ("a4", running_ad) ∷ [];
  locks = [];
}

abbrev pub good_analysis : AdAnalysis
good_analysis = record {
  effectiveness_score = record { bits = 0 };
  strengths = "Strong call to action" ∷ [];
  improvement_suggestions = [];
}

abbrev pub small_queue : DistributedPriorityQueue
small_queue = record {
  instance_id = "w1";
  options = record {
    max_capacity = pos 3;
    processing_timeout = pos 50;
    lock_ttl = pos 30;
    max_attempts = pos 3;
    enable_aging = true;
    aging_rate = record { bits = 500 };
    max_wait_time = pos 300;
  };
  closed = false;
}

pub store-IsValid : IsValid store
unfolding lookup String-discrete
store-IsValid = record {
  unique_ads = (refl, (refl, (refl, (refl, tt))));
  unique_locks = tt;
  own_ids = (refl, (refl, (refl, (refl, tt))));
}

pub store-IsReady : IsReady store
unfolding lookup String-discrete
store-IsReady = record {
  idle = record { valid = store-IsValid; unstarted = (refl, (refl, (refl, (refl, tt)))) };
  unlocked = λ j. refl;
  named = refl;
}

-- In a repository without locks every lock is free, and no ad is stored under the empty id.
pub store-IsFree : (a : Ad) → IsNext store a → (a.ad_id ≢ "") × IsFree (pos 200) a.ad_id "w1" store
unfolding lookup String-discrete
store-IsFree a n = (
  (λ e.
      let found : none ≡ some a = subst (λ x. lookup x store.ads ≡ some a) e n.stored in
      ground arith),
  inl refl,
)

-- Fixed-point numbers in thousandths: one way in which the operations may act.
abbrev pub fixed_ops : FloatOps
fixed_ops = record {
  of_int = λ n. record { bits = pos_part n * 1000 };
  div = λ a b. record { bits = a.bits * 1000 / b.bits };
  mul = λ a b. record { bits = a.bits * b.bits / 1000 };
  add = λ a b. record { bits = a.bits + b.bits };
  sub = λ a b. record { bits = a.bits - b.bits };
  gt = λ a b. ltb b.bits a.bits;
  to_int = λ a. pos (a.bits / 1000);
}

abbrev pub config : Config
config = record {
  server = record {
    port = pos 8080;
    read_timeout = pos 15;
    write_timeout = pos 15;
    idle_timeout = pos 60;
  };
  storage = record {
    redis = record { address = ""; password = ""; db = pos 0 };
    persistence_type = "memory";
    cache_type = "memory";
    cache_ttl = pos 3600;
  };
  processor = record {
    queue_capacity = pos 10000;
    max_attempts = pos 3;
    processing_timeout = pos 300;
    lock_ttl = pos 30;
    worker = record {
      min_workers = pos 2;
      max_workers = pos 10;
      max_concurrent_jobs = pos 0;
      enable_auto_scale = true;
      target_queue_size = pos 100;
    };
  };
  logging = record { level = "info"; format = "json" };
}
