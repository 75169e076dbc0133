-- ===== src/Tests/Shared.antt =====
-- Many clients of one repository.
use game_ad_service.Common.{
  ◌≤◌, String-discrete, ne_of_test, Option, none, some, List, [], ◌∷◌, ◌≡◌, ◌≢◌, refl,
}
use game_ad_service.Common.Int.{pos, incr}
use game_ad_service.Common.Dict.{lookup, insert, erase}
use game_ad_service.Common.Sort.{sort_slice}
use game_ad_service.Ad.{
  Ad, status_queued, status_processing, status_completed, is_processable, increment_attempts,
  assign_worker, set_analysis_results,
}
use game_ad_service.Storage.{Result, handle, ◌>>=◌, ◌>>◌, pure, throw, ignore, deferring}
use game_ad_service.Memory.State.{with_status}
use game_ad_service.Memory.{
  delete, pop_from_queue, get, acquire_lock, release_lock, atomic_status_update,
  status_update_existing, update, update_existing, get_gauge, delete,
}
use game_ad_service.Memory.Invariant.{Call, changes_status, locks, unlocks, deletes, step, run}
use game_ad_service.Memory.Statuses.{IsOutOf}
use game_ad_service.Memory.Claims.{claims, claims-le-one}
use game_ad_service.Queue.State.{once, handle_run, deferring_run}
use game_ad_service.Queue.{dequeue, dequeue_fast, claim_fast, complete, complete_locked}
use game_ad_service.Queue.Shared.{World, interleaved, shared_repository, shared_cache}
use game_ad_service.Queue.Interleaved.{dequeue-IsOutOf}
use game_ad_service.Queue.Held.{taken}
use game_ad_service.Queue.Exclusive.{dequeue-exclusive}
use game_ad_service.Queue.Completion.{complete-exclusive}
use game_ad_service.Tests.Data.{
  ad_with, second_ad, store, store-IsValid, small_queue, good_analysis,
}

-- Two clients that claim the same ad, one of which takes the lock, and a third that completes it.
abbrev rivals : List Call
rivals =
    locks (pos 200) "a1" "w1" (pos 30)
    ∷ changes_status (pos 201) "a1" (pos 2) status_queued status_processing
    ∷ changes_status (pos 202) "a1" (pos 2) status_queued status_processing
    ∷ unlocks "a1" "w1"
    ∷ changes_status (pos 203) "a1" (pos 3) status_processing status_completed
    ∷ []

claims-le-one_example : claims status_queued "a1" rivals store ≤ 1
claims-le-one_example =
    claims-le-one status_queued "a1" rivals store
      (
        tt,
        (
          (λ _. ne_of_test "processing" "queued" refl),
          (
            (λ _. ne_of_test "processing" "queued" refl),
            (tt, ((λ _. ne_of_test "completed" "queued" refl), tt)),
          ),
        ),
      )
      (tt, (tt, (tt, (tt, (tt, tt))))) store-IsValid

one_claim : claims status_queued "a1" rivals store ≡ 1
unfolding claims incr step acquire_lock release_lock atomic_status_update status_update_existing
    lookup insert erase String-discrete
one_claim = refl

-- The first ad is in work and will be completed meanwhile.
abbrev world : World
world = record {
  memory = record {
    ads = ("a2", second_ad) ∷ ("a1", ad_with "a1" status_processing 3 3) ∷ [];
    locks = [];
  };
  others =
      []
      ∷ (changes_status (pos 203) "a1" (pos 3) status_processing status_completed ∷ [])
      ∷ (deletes "a1" ∷ [])
      ∷ [];
  past = [];
}

abbrev dequeued : Option (Result Ad × World)
dequeued = dequeue shared_repository shared_cache 2 small_queue (λ _. pos 200) world

abbrev world_of : Option (Result Ad × World) → World
world_of none = world
world_of (some (r, w)) = w

abbrev claimed_second : Ad
claimed_second = record second_ad {
  status = status_processing;
  worker_id = "w1";
  attempts = pos 1;
  version = pos 4;
}

dequeue-IsOutOf_example : claimed_second.ad_id ≢ "a1"
unfolding dequeue dequeue_fast claim_fast handle_run once deferring_run handle ◌>>=◌ ◌>>◌ pure throw
    ignore interleaved pop_from_queue get acquire_lock release_lock atomic_status_update
    status_update_existing update update_existing get_gauge sort_slice with_status lookup insert
    erase is_processable increment_attempts assign_worker run step delete incr String-discrete
dequeue-IsOutOf_example =
    dequeue-IsOutOf "a1" 2 small_queue (λ _. pos 200) world (world_of dequeued) claimed_second
      (record { unique_ads = (refl, (refl, tt)); unique_locks = tt; own_ids = (refl, (refl, tt)) })
      (
        (λ p. absurd (ne_of_test "a2" "a1" refl p)),
        ((λ _. ne_of_test "processing" "queued" refl), tt),
      )
      (
        tt,
        tt,
        ((tt, tt), ((λ _. ne_of_test "completed" "queued" refl), tt), ((tt, tt), (tt, tt), tt)),
      )
      refl

-- Another client has seen the second ad as well and claims it, but later.
abbrev raced : World
raced = record world {
  others =
      []
      ∷ []
      ∷ []
      ∷ []
      ∷ (changes_status (pos 201) "a2" (pos 2) status_queued status_processing ∷ [])
      ∷ [];
}

abbrev after_race : World
after_race = world_of (dequeue shared_repository shared_cache 1 small_queue (λ _. pos 200) raced)

dequeue-exclusive_example :
    (taken status_queued "a2" after_race.past ≡ 0) × IsOutOf status_queued "a2" after_race.memory
unfolding dequeue dequeue_fast claim_fast handle_run once deferring_run handle ◌>>=◌ ◌>>◌ pure throw
    ignore interleaved pop_from_queue get acquire_lock release_lock atomic_status_update
    status_update_existing update update_existing get_gauge sort_slice with_status lookup insert
    erase is_processable increment_attempts assign_worker run step delete incr String-discrete
dequeue-exclusive_example =
    dequeue-exclusive 1 small_queue (λ _. pos 200) raced after_race claimed_second
      (record { unique_ads = (refl, (refl, tt)); unique_locks = tt; own_ids = (refl, (refl, tt)) })
      refl
      (
        tt,
        tt,
        (
          tt,
          tt,
          (tt, tt, (tt, tt, ((tt, tt), ((λ _. ne_of_test "processing" "queued" refl), tt), tt))),
        ),
      )
      refl

-- The first ad is completed, and another client wants to requeue it, but later.
abbrev worked : World
worked = record world {
  others =
      [] ∷ [] ∷ (changes_status (pos 205) "a1" (pos 3) status_processing status_queued ∷ []) ∷ [];
}

abbrev after_work : World
after_work =
    (complete shared_repository shared_cache small_queue (pos 204) good_analysis
      (ad_with "a1" status_processing 3 3) worked).1

complete-exclusive_example :
    (taken status_processing "a1" after_work.past ≡ 0)
    × IsOutOf status_processing "a1" after_work.memory
unfolding complete complete_locked deferring ◌>>=◌ ◌>>◌ pure interleaved get acquire_lock
    release_lock atomic_status_update status_update_existing update update_existing lookup insert
    erase set_analysis_results run step incr String-discrete
complete-exclusive_example =
    complete-exclusive small_queue (pos 204) good_analysis (ad_with "a1" status_processing 3 3)
      worked after_work
      (record { unique_ads = (refl, (refl, tt)); unique_locks = tt; own_ids = (refl, (refl, tt)) })
      refl (tt, tt, (tt, tt, ((tt, tt), ((λ _. ne_of_test "queued" "processing" refl), tt), tt)))
      refl
