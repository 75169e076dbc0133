-- ===== src/Tests/Queues.antt =====
-- The queue and the workers.
use game_ad_service.Common.{
  ℕ, ◌+◌, ◌≢◌, sym, ◌∙◌, String, String-discrete, ne_of_test, none, some, List, [], ◌∷◌, ◌≡◌, refl,
  arith, ite, true, false, ◌⊎◌,
}
use game_ad_service.Common.Int.{ℤ, pos, incr, ◌+ℤ◌}
use game_ad_service.Common.Dict.{lookup, insert, erase}
use game_ad_service.Common.Sort.{sort_slice}
use game_ad_service.Errors.{queue_empty}
use game_ad_service.Ad.{
  Ad, AdAnalysis, status_queued, status_processing, is_processable, increment_attempts,
  assign_worker,
}
use game_ad_service.Storage.{ok, err, handle, ◌>>=◌, ◌>>◌, pure, throw, ignore, deferring}
use game_ad_service.Memory.State.{
  MemoryRepository, new_memory_repository, with_status, before_in_queue,
}
use game_ad_service.Memory.{
  memory_repository, memory_cache, pop_from_queue, get, acquire_lock, release_lock,
  atomic_status_update, status_update_existing, update, update_existing, get_gauge,
}
use game_ad_service.Memory.Find.{IsNext, NoneQueued}
use game_ad_service.Memory.Invariant.{IsValid}
use game_ad_service.Memory.Listing.{lookup-All}
use game_ad_service.Queue.State.{DistributedPriorityQueue, once, handle_run, deferring_run}
use game_ad_service.Queue.{enqueue, dequeue, dequeue_fast, claim_fast, complete, requeue_expired}
use game_ad_service.Queue.Enqueue.{queued_ad, enqueue_success}
use game_ad_service.Queue.Dequeue.{claimed_ad, dequeue-IsNext}
use game_ad_service.Queue.Blocked.{IsHeld, dequeue_blocked}
use game_ad_service.Queue.Complete.{completed_ad, complete-dequeue}
use game_ad_service.Queue.History.{
  QueueCall, saves, enqueues, dequeues, queue_run, requeue_expired-queue_run,
}
use game_ad_service.Pool.{Worker}
use game_ad_service.Pool.Jobs.{work_round, work_round_lem, count_error, count_processed}
use game_ad_service.Tests.Data.{
  first_ad, second_ad, new_one, running_ad, store, store-IsValid, store-IsFree, small_queue,
  good_analysis, fixed_ops,
}

dequeue-IsNext_example :
    (NoneQueued store
      × (dequeue memory_repository memory_cache 1 small_queue (λ _. pos 200) store
          ≡ some (err queue_empty, store)))
    ⊎ ((a : Ad) × (m' : MemoryRepository) × IsNext store a
        × (dequeue memory_repository memory_cache 1 small_queue (λ _. pos 200) store
            ≡ some (ok (claimed_ad small_queue a), m'))
        × ((j : String)
            → lookup j m'.ads
              ≡ ite
                  (String-discrete a.ad_id j)
                  (some (claimed_ad small_queue a))
                  (lookup j store.ads))
        × ((j : String)
            → lookup j m'.locks ≡ ite (String-discrete a.ad_id j) none (lookup j store.locks)))
dequeue-IsNext_example =
    dequeue-IsNext 0 small_queue (λ _. pos 200) store store-IsValid refl store-IsFree

abbrev idle_worker : Worker
idle_worker = record {
  id = "worker";
  max_concurrent = pos 1;
  process_time = pos 2;
  is_running = true;
  shut_down = false;
  active_jobs = pos 0;
  processed = pos 7;
  errors = pos 1;
  loops = 1;
}

work_round_lem_example :
    let round =
      work_round memory_repository memory_cache 1 small_queue
        (λ _. pos 200)
        (pos 210)
        (λ _. some good_analysis)
        idle_worker
        store in
    (NoneQueued store × (round ≡ some (ok idle_worker, store)))
    ⊎ ((a : Ad) × (m' : MemoryRepository) × IsNext store a
        × (((analysis : AdAnalysis) × (some good_analysis ≡ some analysis)
              × (round ≡ some (ok (count_processed idle_worker), m'))
              × (lookup a.ad_id m'.ads
                  ≡ some (completed_ad (pos 210) analysis (claimed_ad small_queue a))))
            ⊎ ((some good_analysis ≡ none)
                × (round ≡ some (ok (count_error idle_worker), m'))
                × (lookup a.ad_id m'.ads ≡ some (claimed_ad small_queue a)))))
work_round_lem_example =
    work_round_lem 0 small_queue (λ _. pos 200) (pos 210) (λ _. some good_analysis) idle_worker 0
      store store-IsValid refl store-IsFree refl (omega arith)

-- What the first `Dequeue` makes of `store`.
abbrev taken_ad : Ad
taken_ad = record first_ad {
  status = status_processing;
  version = pos 4;
  attempts = pos 1;
  worker_id = "w1";
}

abbrev taken_store : MemoryRepository
taken_store = record {
  ads = ("a2", second_ad) ∷ ("a1", taken_ad) ∷ ("a3", new_one) ∷ ("a4", running_ad) ∷ [];
  locks = [];
}

dequeue-store :
    dequeue memory_repository memory_cache 1 small_queue (λ _. pos 200) store
    ≡ some (ok taken_ad, taken_store)
unfolding dequeue dequeue_fast claim_fast handle_run once deferring_run handle ◌>>=◌ ◌>>◌ pure throw
    ignore deferring pop_from_queue get acquire_lock release_lock atomic_status_update
    status_update_existing update update_existing get_gauge lookup insert erase sort_slice
    with_status incr String-discrete is_processable increment_attempts assign_worker ◌+ℤ◌
dequeue-store = refl

complete-dequeue_example :
    let (done, m'') =
      complete memory_repository memory_cache small_queue
        (pos 210)
        good_analysis
        taken_ad
        taken_store in
    (a : Ad) × IsNext store a
    × (done ≡ ok tt)
    × (lookup a.ad_id m''.ads
        ≡ some (completed_ad (pos 210) good_analysis (claimed_ad small_queue a)))
complete-dequeue_example =
    complete-dequeue 0 small_queue (λ _. pos 200) (pos 210) good_analysis taken_ad store taken_store
      store-IsValid refl store-IsFree dequeue-store

enqueue_success_example :
    let (r, ad', m') = enqueue memory_repository memory_cache small_queue (pos 210) new_one store in
    (r ≡ ok tt)
    × (ad' ≡ queued_ad (pos 210) new_one)
    × ((j : String)
        → lookup j m'.ads
          ≡ ite (String-discrete "a3" j) (some (queued_ad (pos 210) new_one)) (lookup j store.ads))
    × (m'.locks ≡ store.locks)
unfolding lookup with_status String-discrete
enqueue_success_example =
    enqueue_success small_queue (pos 210) new_one new_one store
      (record { is_open = refl; below = λ _. omega arith }) (ne_of_test "a3" "" refl) refl refl

-- Another instance holds the lock of the first ad, and nobody that of the second.
abbrev locked_store : MemoryRepository
locked_store = record store {
  locks = ("a1", record { owner_id = "w2"; expires_at = pos 300 }) ∷ [];
}

locked_store-IsValid : IsValid locked_store
unfolding lookup String-discrete
locked_store-IsValid = record {
  unique_ads = store-IsValid.unique_ads;
  unique_locks = (refl, tt);
  own_ids = store-IsValid.own_ids;
}

-- The clock at 200, 201 and so on.
abbrev ticking : ℕ → ℤ
ticking i = pos (200 + i)

first_is_a1 : (a : Ad) → IsNext locked_store a → a.ad_id ≡ "a1"
unfolding String-discrete
first_is_a1 a n =
    lookup-All (λ b. b.status ≡ status_queued → before_in_queue first_ad b ≡ false → b.ad_id ≡ "a1")
      a.ad_id locked_store.ads a
      (
        (λ s b. ground (arith, b)),
        (
          (λ s b. refl),
          (
            (λ s b. absurd (ne_of_test "submitted" "queued" refl s)),
            ((λ s b. absurd (ne_of_test "processing" "queued" refl s)), tt),
          ),
        ),
      )
      n.stored n.queued (n.first.1.0 refl)

locked_store-IsHeld :
    (a : Ad) → IsNext locked_store a → (a.ad_id ≢ "") × IsHeld 100 "w1" ticking locked_store a
unfolding lookup String-discrete
locked_store-IsHeld a n =
    let e = first_is_a1 a n in
    (
      (λ f. ne_of_test "a1" "" refl (sym e ∙ f)),
      record {
        lock = record { owner_id = "w2"; expires_at = pos 300 };
        found = rw e refl;
        other = ne_of_test "w2" "w1" refl;
        lasts = λ i h. omega (arith, h);
      },
    )

dequeue_blocked_example :
    dequeue memory_repository memory_cache 100 small_queue ticking locked_store ≡ none
dequeue_blocked_example =
    dequeue_blocked 100 small_queue ticking locked_store locked_store-IsValid refl (λ h. h.0 refl)
      locked_store-IsHeld

-- A submission, the work of one worker, and an ad left in the processing state.
abbrev history : List (DistributedPriorityQueue × QueueCall)
history =
    (small_queue, saves new_one)
    ∷ (small_queue, enqueues (pos 210) new_one)
    ∷ (small_queue, dequeues 1 (λ _. pos 220))
    ∷ []

requeue_expired-queue_run_example :
    let m = queue_run fixed_ops history new_memory_repository in
    requeue_expired memory_repository memory_cache small_queue (pos 1_000_000) m ≡ (ok 0, m)
requeue_expired-queue_run_example =
    requeue_expired-queue_run fixed_ops history small_queue (pos 1_000_000) (refl, (refl, (tt, tt)))
      refl
