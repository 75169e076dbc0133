-- ===== src/Memory/Upkeep.antt =====
-- `DeleteOlderThan` and `ReleaseWorkerAssignments`: the calls that go through the whole map.
use game_ad_service.Common.{ℕ, ◌+◌, String, ◌≡◌, ◌≢◌, refl, arith, length, [], ◌∷◌, All}
use game_ad_service.Common.Int.{ℤ, pos, incr, ◌-ℤ◌, ◌*ℤ◌}
use game_ad_service.Common.Dict.{Dict, lookup, values}
use game_ad_service.Ad.{Ad}
use game_ad_service.Storage.{ok}
use game_ad_service.Memory.State.{MemoryRepository, drop_older, change_assigned}
use game_ad_service.Memory.Loops.{
  keep_recent, lookup-drop_older, drop_older_count, if_assigned, lookup-change_assigned,
}
use game_ad_service.Memory.Invariant.{IsValid}
use game_ad_service.Memory.{day, delete_older_than, release_worker_assignments, assign}

-- On a valid repository `DeleteOlderThan` returns how many ads it has deleted. Afterwards what is found
-- under an id is the ad that was, unless that was created before the given number of days ago. The
-- locks stay as they were.
delete_older_than_lem :
    (now days : ℤ) (m : MemoryRepository)
    → IsValid m
    → let (r, m') = delete_older_than now days m in
      ((n : ℕ) × (r ≡ ok (pos n)) × (n + length m'.ads ≡ length m.ads))
      × ((id : String) → lookup id m'.ads ≡ keep_recent (now -ℤ days *ℤ day) (lookup id m.ads))
      × (m'.locks ≡ m.locks)
unfolding delete_older_than
delete_older_than_lem now days m v =
    let cutoff = now -ℤ days *ℤ day in
    (
      ((drop_older cutoff m.ads).0, refl, drop_older_count cutoff m.ads),
      (λ id. lookup-drop_older cutoff id m.ads v.unique_ads),
      refl,
    )

none_assigned :
    (worker : String) (m : Dict Ad)
    → worker ≢ ""
    → All (λ a. a.worker_id ≢ worker) (values (change_assigned worker (assign "") m).1)
unfolding change_assigned
none_assigned worker [] h = tt
none_assigned worker ((id, a) ∷ m) h = ground (arith, none_assigned worker m h)

-- After `ReleaseWorkerAssignments` of a worker whose id is not empty, no ad is assigned to the
-- worker; each of its ads is stored without a worker and with the next version, and every other ad
-- and the locks are as before.
release_worker_assignments_lem :
    (worker : String) (m : MemoryRepository)
    → worker ≢ ""
    → let m' = (release_worker_assignments worker m).1 in
      All (λ a. a.worker_id ≢ worker) (values m'.ads)
      × ((id : String)
          → lookup id m'.ads
            ≡ if_assigned worker
                (λ a. record a { worker_id = ""; version = incr a.version })
                (lookup id m.ads))
      × (m'.locks ≡ m.locks)
unfolding release_worker_assignments
release_worker_assignments_lem worker m h =
    (none_assigned worker m.ads h, (λ id. lookup-change_assigned worker (assign "") id m.ads), refl)
