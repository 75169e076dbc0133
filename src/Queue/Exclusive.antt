-- ===== src/Queue/Exclusive.antt =====
-- No two clients get the same ad, however their calls of the repository interleave.
use game_ad_service.Common.{
  ℕ, String, String-discrete, true, false, some, [], ◌≡◌, ◌≢◌, refl, ap, subst, if_pos, inl,
  ne_of_test,
}
use game_ad_service.Common.Int.{ℤ}
use game_ad_service.Ad.{Ad, status_queued, status_processing, increment_attempts, assign_worker}
use game_ad_service.Storage.{ok}
use game_ad_service.Memory.Invariant.{IsValid, acquire_lock-IsValid}
use game_ad_service.Memory.Statuses.{IsOutOf, acquire_lock-IsOutOf}
use game_ad_service.Memory.{find_by_priority, acquire_lock, pop_from_queue, get_gauge}
use game_ad_service.Queue.Shared.{World, AllSpare, shared_repository, shared_cache}
use game_ad_service.Queue.State.{DistributedPriorityQueue}
use game_ad_service.Queue.Gives.{Leaves}
use game_ad_service.Queue.GivesDequeue.{Holds, dequeue-Gives}
use game_ad_service.Queue.Claiming.{is_own, Reread, read_again-kept, update-kept, claim-Gives}
use game_ad_service.Queue.{dequeue}
use game_ad_service.Queue.Held.{taken, Fits, HeldBy, Fits-weaken, kept, release-kept, get-kept}

not_queued : status_processing ≢ status_queued
not_queued = ne_of_test "processing" "queued" refl

module _ (id : String) where
  assigned-Reread :
      (j : String) (q : DistributedPriorityQueue) (a : Ad)
      → Reread status_queued status_processing not_queued id j a
      → Reread status_queued status_processing not_queued id j
          (increment_attempts (assign_worker q.instance_id a))
  unfolding increment_attempts assign_worker
  assigned-Reread j q a h = h

  shared-Holds :
      Holds shared_repository shared_cache
        (HeldBy status_queued id false)
        (λ j. HeldBy status_queued id (is_own status_queued status_processing not_queued id j))
        (Reread status_queued status_processing not_queued id)
  unfolding find_by_priority pop_from_queue get_gauge
  shared-Holds = record {
    find = λ j. get-kept status_queued id false j;
    find_by_priority =
        λ st limit. kept status_queued id false (find_by_priority st limit) (λ m v. v) (λ m u. u);
    acquire_lock = λ now j owner ttl.
        kept status_queued id false (acquire_lock now j owner ttl)
          (λ m v. acquire_lock-IsValid m v now j owner ttl)
          (acquire_lock-IsOutOf status_queued id now j owner ttl);
    release_lock = λ j owner. release-kept status_queued id false j owner;
    pop_from_queue =
        λ queue. kept status_queued id false (pop_from_queue queue) (λ m v. v) (λ m u. u);
    claim = claim-Gives status_queued status_processing not_queued id;
    weaken = λ j w s. record {
      now = record {
        valid = s.now.valid;
        fits =
            Fits-weaken status_queued id (is_own status_queued status_processing not_queued id j)
              (taken status_queued id w.past) w.memory s.now.fits;
      };
      later = s.later;
    };
    reread = read_again-kept status_queued status_processing not_queued id;
    assign = λ j q a h.
        update-kept status_queued status_processing not_queued id j
          (increment_attempts (assign_worker q.instance_id a)) (assigned-Reread j q a h);
    release_claimed = λ i j owner.
        release-kept status_queued id (is_own status_queued status_processing not_queued id i) j
          owner;
    get_gauge = λ j key.
        kept status_queued id (is_own status_queued status_processing not_queued id j)
          (get_gauge key) (λ m v. v) (λ m u. u);
    same_id = λ j a h. h.0;
  }

-- No two clients get the same ad. However the calls that `Dequeue` makes of a valid repository
-- interleave with those of other clients, if each `Set` stores an ad under its own id and none of the
-- others' calls queues the ad again that `Dequeue` hands out: none of their `AtomicStatusUpdate` calls
-- up to its last call has taken that ad out of the queue, and at the end the ad is not queued.
pub dequeue-exclusive :
    (n : ℕ) (q : DistributedPriorityQueue) (clock : ℕ → ℤ) (w w' : World) (a : Ad)
    → IsValid w.memory
    → w.past ≡ []
    → AllSpare status_queued a.ad_id w.others
    → dequeue shared_repository shared_cache n q clock w ≡ some (ok a, w')
    → (taken status_queued a.ad_id w'.past ≡ 0) × IsOutOf status_queued a.ad_id w'.memory
dequeue-exclusive n q clock w w' a v past h e =
    let id = a.ad_id in
    let I = HeldBy status_queued id false in
    let J = λ (j : String).
      HeldBy status_queued id (is_own status_queued status_processing not_queued id j) in
    let gives =
      dequeue-Gives shared_repository shared_cache I J
        (Reread status_queued status_processing not_queued id) (shared-Holds id) n q clock in
    let start : I w = record {
      now = record { valid = v; fits = inl (ap (taken status_queued id) past) };
      later = h;
    } in
    let (_, held) = subst (Leaves I (λ b. J b.ad_id)) e (gives.keep w start) in
    subst (λ own. Fits status_queued id own (taken status_queued id w'.past) w'.memory)
      (if_pos (String-discrete id id) refl true false) held.now.fits
