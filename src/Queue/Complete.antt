-- ===== src/Queue/Complete.antt =====
-- `Complete` over the in-memory repository, alone and after `Dequeue`.
use game_ad_service.Common.{
  ℕ, suc, String, String-discrete, none, some, ◌≡◌, ◌≢◌, refl, sym, ◌∙◌, arith, ite, false, inl,
  inr, ◌⊎◌,
}
use game_ad_service.Common.Int.{ℤ, incr, ◌+ℤ◌, ne→eqb_ℤ}
use game_ad_service.Common.Dict.{
  lookup, insert, erase, lookup-insert, lookup-insert_self, lookup-erase-insert,
}
use game_ad_service.Errors.{concurrent_modification, ad_not_found}
use game_ad_service.Ad.{Ad, AdAnalysis, status_processing, status_completed, set_analysis_results}
use game_ad_service.Storage.{ok, err, ◌>>=◌, ◌>>◌, pure, throw, deferring}
use game_ad_service.Memory.State.{MemoryRepository, LockInfo}
use game_ad_service.Memory.{
  memory_repository, memory_cache, atomic_status_update, status_update_existing,
}
use game_ad_service.Queue.State.{DistributedPriorityQueue}
use game_ad_service.Queue.Store.{
  get_stored, update_current, status_update_current, IsFree, with_lock, acquire_free, release_held,
  with_new_status-completed,
}
use game_ad_service.Memory.Invariant.{IsValid}
use game_ad_service.Memory.Find.{IsNext}
use game_ad_service.Queue.Dequeue.{claimed_ad, dequeue-IsNext}
use game_ad_service.Queue.{complete, complete_locked, dequeue}

-- What `Complete` makes of the stored ad.
abbrev pub completed_ad : ℤ → AdAnalysis → Ad → Ad
completed_ad now analysis a = record a {
  status = status_completed;
  completed_at = some now;
  analysis = some analysis;
  version = incr (incr a.version);
}

module _ (q : DistributedPriorityQueue) (now : ℤ) (analysis : AdAnalysis) (ad a : Ad)
    (m : MemoryRepository) where
  abbrev done : Ad
  done = record a { status = status_completed; version = incr a.version; completed_at = some now }

  abbrev locked : MemoryRepository
  locked = with_lock now ad.ad_id q.instance_id q.lock_ttl m

  abbrev marked : MemoryRepository
  marked = record locked { ads = insert ad.ad_id done m.ads }

  abbrev written : MemoryRepository
  written = record locked {
    ads = insert ad.ad_id (completed_ad now analysis a) (insert ad.ad_id done m.ads);
  }

  complete_locked_lem :
      ad.ad_id ≢ ""
      → a.ad_id ≡ ad.ad_id
      → lookup ad.ad_id m.ads ≡ some a
      → a.version ≡ ad.version
      → a.status ≡ status_processing
      → complete_locked memory_repository memory_cache now analysis ad locked ≡ (ok tt, written)
  unfolding complete_locked set_analysis_results ◌>>=◌ ◌>>◌ pure throw deferring
  complete_locked_lem hid same e hv hs =
      let updated = record done { analysis = some analysis } in
      let here : lookup a.ad_id marked.ads ≡ some done =
        ground (arith, lookup-insert_self ad.ad_id done m.ads) in
      ground (
        arith,
        status_update_current now ad.ad_id ad.version status_processing status_completed a locked e
            hv hs,
        with_new_status-completed now a,
        get_stored ad.ad_id done marked hid (lookup-insert_self ad.ad_id done m.ads),
        update_current updated done marked (λ p. hid (sym same ∙ p)) here refl,
      )

  complete_run :
      ad.ad_id ≢ ""
      → a.ad_id ≡ ad.ad_id
      → lookup ad.ad_id m.ads ≡ some a
      → a.version ≡ ad.version
      → a.status ≡ status_processing
      → IsFree now ad.ad_id q.instance_id m
      → complete memory_repository memory_cache q now analysis ad m
        ≡ (ok tt, record written { locks = erase ad.ad_id locked.locks })
  unfolding complete ◌>>=◌ ◌>>◌ pure throw deferring
  complete_run hid same e hv hs free =
      let mine : LockInfo = record { owner_id = q.instance_id; expires_at = now +ℤ q.lock_ttl } in
      ground (
        arith,
        acquire_free now ad.ad_id q.instance_id q.lock_ttl m free,
        complete_locked_lem hid same e hv hs,
        release_held ad.ad_id mine written (lookup-insert_self ad.ad_id mine m.locks),
      )

-- `Complete` of an ad with an id that is stored under it, processing and at the version that the
-- caller has, and whose lock nobody else holds, succeeds: the ad is stored as completed at that
-- time with the analysis, no other ad is touched, the lock is given back, and no other lock is
-- touched.
pub complete_success :
    (q : DistributedPriorityQueue) (now : ℤ) (analysis : AdAnalysis) (ad a : Ad)
    (m : MemoryRepository)
    → ad.ad_id ≢ ""
    → a.ad_id ≡ ad.ad_id
    → lookup ad.ad_id m.ads ≡ some a
    → a.version ≡ ad.version
    → a.status ≡ status_processing
    → IsFree now ad.ad_id q.instance_id m
    → let (r, m') = complete memory_repository memory_cache q now analysis ad m in
      (r ≡ ok tt)
      × ((j : String)
          → lookup j m'.ads
            ≡ ite
                (String-discrete ad.ad_id j)
                (some (completed_ad now analysis a))
                (lookup j m.ads))
      × ((j : String)
          → lookup j m'.locks ≡ ite (String-discrete ad.ad_id j) none (lookup j m.locks))
complete_success q now analysis ad a m hid same e hv hs free =
    let c = completed_ad now analysis a in
    let d = done q now analysis ad a m in
    rw (complete_run q now analysis ad a m hid same e hv hs free) (
      refl,
      (λ j. ground (
        arith,
        lookup-insert j ad.ad_id c (insert ad.ad_id d m.ads),
        lookup-insert j ad.ad_id d m.ads,
      )),
      (λ j. lookup-erase-insert j ad.ad_id _ m.locks),
    )

stale_status_update :
    (now : ℤ) (id : String) (v : ℤ) (a : Ad) (m : MemoryRepository)
    → lookup id m.ads ≡ some a
    → (a.version ≢ v) ⊎ (a.status ≢ status_processing)
    → atomic_status_update now id v status_processing status_completed m
      ≡ (err concurrent_modification, m)
unfolding atomic_status_update status_update_existing
stale_status_update now id v a m e (inl h) = ground (arith, ne→eqb_ℤ a.version v h)
stale_status_update now id v a m e (inr h) = ground arith

-- `Complete` of a stored ad that has meanwhile been written by somebody else, or is no longer
-- processing, and whose lock nobody else holds, fails with the concurrent-modification error and
-- leaves every ad, and every lock but the given-back one, as it was.
pub complete_stale :
    (q : DistributedPriorityQueue) (now : ℤ) (analysis : AdAnalysis) (ad a : Ad)
    (m : MemoryRepository)
    → lookup ad.ad_id m.ads ≡ some a
    → (a.version ≢ ad.version) ⊎ (a.status ≢ status_processing)
    → IsFree now ad.ad_id q.instance_id m
    → let (r, m') = complete memory_repository memory_cache q now analysis ad m in
      (r ≡ err concurrent_modification)
      × (m'.ads ≡ m.ads)
      × ((j : String)
          → lookup j m'.locks ≡ ite (String-discrete ad.ad_id j) none (lookup j m.locks))
unfolding complete complete_locked ◌>>=◌ ◌>>◌ pure throw deferring
complete_stale q now analysis ad a m e h free =
    let mine : LockInfo = record { owner_id = q.instance_id; expires_at = now +ℤ q.lock_ttl } in
    let held = with_lock now ad.ad_id q.instance_id q.lock_ttl m in
    let run : complete memory_repository memory_cache q now analysis ad m
        ≡ (err concurrent_modification, record held { locks = erase ad.ad_id held.locks }) =
      ground (
        arith,
        acquire_free now ad.ad_id q.instance_id q.lock_ttl m free,
        stale_status_update now ad.ad_id ad.version a held e h,
        release_held ad.ad_id mine held (lookup-insert_self ad.ad_id mine m.locks),
      ) in
    rw run (refl, refl, (λ j. lookup-erase-insert j ad.ad_id mine m.locks))

missing_status_update :
    (now : ℤ) (id : String) (v : ℤ) (m : MemoryRepository)
    → lookup id m.ads ≡ none
    → atomic_status_update now id v status_processing status_completed m ≡ (err ad_not_found, m)
unfolding atomic_status_update
missing_status_update now id v m e = ground arith

-- `Complete` of an ad that is not stored, and whose lock nobody else holds, fails with the error for
-- a missing ad and leaves every ad, and every lock but the given-back one, as it was.
pub complete_missing :
    (q : DistributedPriorityQueue) (now : ℤ) (analysis : AdAnalysis) (ad : Ad)
    (m : MemoryRepository)
    → lookup ad.ad_id m.ads ≡ none
    → IsFree now ad.ad_id q.instance_id m
    → let (r, m') = complete memory_repository memory_cache q now analysis ad m in
      (r ≡ err ad_not_found)
      × (m'.ads ≡ m.ads)
      × ((j : String)
          → lookup j m'.locks ≡ ite (String-discrete ad.ad_id j) none (lookup j m.locks))
unfolding complete complete_locked ◌>>=◌ ◌>>◌ pure throw deferring
complete_missing q now analysis ad m e free =
    let mine : LockInfo = record { owner_id = q.instance_id; expires_at = now +ℤ q.lock_ttl } in
    let held = with_lock now ad.ad_id q.instance_id q.lock_ttl m in
    let run : complete memory_repository memory_cache q now analysis ad m
        ≡ (err ad_not_found, record held { locks = erase ad.ad_id held.locks }) =
      ground (
        arith,
        acquire_free now ad.ad_id q.instance_id q.lock_ttl m free,
        missing_status_update now ad.ad_id ad.version held e,
        release_held ad.ad_id mine held (lookup-insert_self ad.ad_id mine m.locks),
      ) in
    rw run (refl, refl, (λ j. lookup-erase-insert j ad.ad_id mine m.locks))

-- An ad that an open queue's `Dequeue` gave out, on a valid repository where nobody else held the
-- lock of the queued ad that comes first, can be completed by the same instance, at any time, as
-- long as nothing else has happened: that queued ad ends up completed, with the analysis, the
-- instance as its worker, one more attempt, and its version moved on by the four writes.
pub complete-dequeue :
    (n : ℕ) (q : DistributedPriorityQueue) (clock : ℕ → ℤ) (later : ℤ) (analysis : AdAnalysis)
    (r : Ad) (m m' : MemoryRepository)
    → IsValid m
    → q.closed ≡ false
    → ((a : Ad) → IsNext m a → (a.ad_id ≢ "") × IsFree (clock 0) a.ad_id q.instance_id m)
    → dequeue memory_repository memory_cache (suc n) q clock m ≡ some (ok r, m')
    → let (done, m'') = complete memory_repository memory_cache q later analysis r m' in
      (a : Ad) × IsNext m a
      × (done ≡ ok tt)
      × (lookup a.ad_id m''.ads ≡ some (completed_ad later analysis (claimed_ad q a)))
complete-dequeue n q clock later analysis r m m' v hc free h =
    elim (dequeue-IsNext n q clock m v hc free) [
      | inl (_, e) ↦ ground arith
      | inr (a, m1, next, e, stored, unlocked) ↦
          let same : r ≡ claimed_ad q a = ground arith in
          let world : m' ≡ m1 = ground arith in
          let here = stored a.ad_id in
          let c =
            complete_success q later analysis (claimed_ad q a) (claimed_ad q a) m1 (free a next).0
              refl (ground (arith, here)) refl refl (inl (ground (arith, unlocked a.ad_id))) in
          rw (same, world) (a, next, c.0, ground (arith, c.1 a.ad_id))
    ]
