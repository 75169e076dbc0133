-- ===== src/Queue/Interleaved.antt =====
-- `Dequeue` on a repository that other clients use meanwhile.
use game_ad_service.Common.{
  ℕ, String, some, List, [], ◌∷◌, ◌≡◌, ◌≢◌, refl, sym, subst, arith, inl, inr, Option-cases,
  ne_of_test,
}
use game_ad_service.Common.Int.{ℤ}
use game_ad_service.Common.Dict.{lookup, lookup-Entries}
use game_ad_service.Ad.{Ad, status_queued, status_processing, increment_attempts, assign_worker}
use game_ad_service.Storage.{ok, Action}
use game_ad_service.Storage.Safe.{Safe, OnOk, Any, any_result}
use game_ad_service.Memory.State.{MemoryRepository}
use game_ad_service.Memory.Loops.{OwnId}
use game_ad_service.Memory.Invariant.{
  Call, IsValid, run-IsValid, update-IsValid, status-IsValid, acquire_lock-IsValid,
  release_lock-IsValid,
}
use game_ad_service.Memory.Statuses.{
  IsOutOf, run-IsOutOf, update-IsOutOf, status-IsOutOf, acquire_lock-IsOutOf, release_lock-IsOutOf,
}
use game_ad_service.Memory.Claims.{succeeded-Other}
use game_ad_service.Memory.{
  get, update, update_existing, find_by_priority, acquire_lock, release_lock, pop_from_queue,
  get_gauge,
}
use game_ad_service.Queue.Shared.{
  World, AllSpare, advance, interleaved, shared_repository, shared_cache,
}
use game_ad_service.Queue.State.{DistributedPriorityQueue}
use game_ad_service.Queue.SafeRun.{Ends}
use game_ad_service.Queue.SafeDequeue.{Grants, dequeue_granted}
use game_ad_service.Queue.{dequeue}

module _ (id : String) where
  -- The repository is valid, and the ad is not queued in it.
  record IsOut (m : MemoryRepository) : Type 0 where
    pub valid : IsValid m
    pub out : IsOutOf status_queued id m

  record StaysOut (w : World) : Type 0 where
    pub now : IsOut w.memory
    pub later : AllSpare status_queued id w.others

  advance-StaysOut :
      (m : MemoryRepository) (cs : List (List Call)) (past : List (MemoryRepository × List Call))
      → IsOut m
      → AllSpare status_queued id cs
      → StaysOut (advance m cs past)
  advance-StaysOut m [] past o h = record { now = o; later = tt }
  advance-StaysOut m (cs ∷ rest) past o h = record {
    now = record {
      valid = run-IsValid cs m h.0 o.valid;
      out = run-IsOutOf status_queued id cs m h.1 o.out;
    };
    later = h.2;
  }

  interleaved-Safe :
      {A : Type 0} (P : A → Type 0) {act : Action MemoryRepository A}
      → Safe IsOut P act
      → Safe StaysOut P (interleaved act)
  unfolding interleaved
  interleaved-Safe P {act} sa = record {
    keep = λ w s.
        let w' = advance w.memory w.others w.past in
        let s' = advance-StaysOut w.memory w.others w.past s.now s.later in
        let (o, p) = sa.keep w'.memory s'.now in (record { now = o; later = s'.later }, p);
  }

  abbrev pub Other : String → Type 0
  Other j = j ≢ id

  abbrev OtherAd : Ad → Type 0
  OtherAd a = a.ad_id ≢ id

  pub get-state : (j : String) (m : MemoryRepository) → (get j m).1 ≡ m
  unfolding get
  get-state j m = ground arith

  get-OtherAd : (j : String) (m : MemoryRepository) → Other j → IsValid m → OnOk OtherAd (get j m).0
  unfolding get
  get-OtherAd j m n v = elim (Option-cases (lookup j m.ads)) [
    | inl e ↦ ground arith
    | inr (a, e) ↦ ground (arith, lookup-Entries OwnId j m.ads a v.own_ids e, n)
  ]

  update-OtherAd : (a : Ad) (m : MemoryRepository) → OtherAd a → OnOk OtherAd (update (some a) m).0
  unfolding update update_existing
  update-OtherAd a m n = ground (arith, n)

  assigned-OtherAd :
      (q : DistributedPriorityQueue) (a : Ad)
      → OtherAd a
      → OtherAd (increment_attempts (assign_worker q.instance_id a))
  unfolding increment_attempts assign_worker
  assigned-OtherAd q a n = n

  release_lock-IsOut :
      (j owner : String) (m : MemoryRepository) → IsOut m → IsOut (release_lock j owner m).1
  release_lock-IsOut j owner m o = record {
    valid = release_lock-IsValid m o.valid j owner;
    out = release_lock-IsOutOf status_queued id j owner m o.out;
  }

  acquire_lock-IsOut :
      (now : ℤ) (j owner : String) (ttl : ℤ) (m : MemoryRepository)
      → IsOut m
      → IsOut (acquire_lock now j owner ttl m).1
  acquire_lock-IsOut now j owner ttl m o = record {
    valid = acquire_lock-IsValid m o.valid now j owner ttl;
    out = acquire_lock-IsOutOf status_queued id now j owner ttl m o.out;
  }

  shared-Grants : Grants shared_repository shared_cache StaysOut Other OtherAd
  unfolding find_by_priority pop_from_queue get_gauge
  shared-Grants = record {
    find = λ j.
        interleaved-Safe Any
          (record { keep = λ m o. (subst IsOut (sym (get-state j m)) o, any_result _) });
    find_by_priority =
        λ st limit. interleaved-Safe Any (record { keep = λ m o. (o, any_result _) });
    claim = λ now j v.
        interleaved-Safe (λ _. Other j)
          (record {
            keep = λ m o. (
              record {
                valid = status-IsValid m o.valid now j v status_queued status_processing;
                out =
                    status-IsOutOf status_queued id m o.out now j v status_queued status_processing
                      (λ _. ne_of_test "processing" "queued" refl);
              },
              succeeded-Other status_queued id now j v status_processing m o.out,
            );
          });
    reread = λ j n.
        interleaved-Safe OtherAd (record {
          keep = λ m o. (subst IsOut (sym (get-state j m)) o, get-OtherAd j m n o.valid);
        });
    assign = λ q a n.
        let b = increment_attempts (assign_worker q.instance_id a) in
        let other : OtherAd b = assigned-OtherAd q a n in
        interleaved-Safe OtherAd (record {
          keep = λ m o. (
            record {
              valid = update-IsValid m o.valid (some b);
              out = update-IsOutOf status_queued id m o.out b (λ p. absurd (other p));
            },
            update-OtherAd b m other,
          );
        });
    acquire_lock = λ now j owner ttl.
        interleaved-Safe Any
          (record { keep = λ m o. (acquire_lock-IsOut now j owner ttl m o, any_result _) });
    release_lock = λ j owner.
        interleaved-Safe Any
          (record { keep = λ m o. (release_lock-IsOut j owner m o, any_result _) });
    pop_from_queue = λ queue. interleaved-Safe Any (record { keep = λ m o. (o, any_result _) });
    get_gauge = λ key. interleaved-Safe Any (record { keep = λ m o. (o, tt) });
  }

  -- Once an ad is not queued, in a valid repository, and whatever the other clients call before and
  -- between the calls that `Dequeue` makes, if each `Set` stores an ad under its own id and none of
  -- their calls queues that ad again: `Dequeue` does not hand it out, to any worker, on any path and
  -- however often it calls itself.
  pub dequeue-IsOutOf :
      (n : ℕ) (q : DistributedPriorityQueue) (clock : ℕ → ℤ) (w w' : World) (a : Ad)
      → IsValid w.memory
      → IsOutOf status_queued id w.memory
      → AllSpare status_queued id w.others
      → dequeue shared_repository shared_cache n q clock w ≡ some (ok a, w')
      → a.ad_id ≢ id
  dequeue-IsOutOf n q clock w w' a v u h e =
      let safe = dequeue_granted _ _ StaysOut Other OtherAd shared-Grants n q clock in
      let start : StaysOut w = record { now = record { valid = v; out = u }; later = h } in
      (subst (Ends StaysOut OtherAd) e (safe.keep w start)).1
