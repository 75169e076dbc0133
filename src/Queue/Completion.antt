-- ===== src/Queue/Completion.antt =====
-- No two clients complete the same processing of an ad, however their calls interleave.
use game_ad_service.Common.{
  String, String-discrete, true, false, [], ◌≡◌, ◌≢◌, refl, ap, subst, if_pos, inl, ne_of_test,
}
use game_ad_service.Common.Int.{ℤ}
use game_ad_service.Ad.{Ad, AdAnalysis, status_completed, set_analysis_results, status_processing}
use game_ad_service.Errors.{item_locked}
use game_ad_service.Storage.{Result, ok}
use game_ad_service.Storage.Safe.{Any, bind-Safe, then-Safe, pure-Safe, OnOk}
use game_ad_service.Memory.Invariant.{IsValid, acquire_lock-IsValid}
use game_ad_service.Memory.Statuses.{IsOutOf, acquire_lock-IsOutOf}
use game_ad_service.Memory.{acquire_lock}
use game_ad_service.Queue.Shared.{World, AllSpare, shared_repository, shared_cache}
use game_ad_service.Queue.State.{DistributedPriorityQueue}
use game_ad_service.Queue.Gives.{
  throw-Gives, bind-Gives, if-Gives, then_claimed-Gives, deferring_action-Gives, Gives,
}
use game_ad_service.Queue.Claiming.{is_own, Reread, read_again-kept, update-kept, claim-Gives}
use game_ad_service.Queue.{complete, complete_locked}
use game_ad_service.Queue.Held.{taken, Fits, HeldBy, Fits-weaken, kept, release-kept}

not_processing : status_completed ≢ status_processing
not_processing = ne_of_test "completed" "processing" refl

module _ (id : String) where
  -- Before the claim, and after it.
  abbrev I : World → Type 0
  I = HeldBy status_processing id false

  abbrev J : World → Type 0
  J = HeldBy status_processing id (is_own status_processing status_completed not_processing id id)

  abbrev Done : Ad → Type 0
  Done = Reread status_processing status_completed not_processing id id

  analysed-Done : (analysis : AdAnalysis) (a : Ad) → Done a → Done (set_analysis_results analysis a)
  unfolding set_analysis_results
  analysed-Done analysis a h = h

  weaken : (w : World) → J w → I w
  weaken w s = record {
    now = record {
      valid = s.now.valid;
      fits =
          Fits-weaken status_processing id
            (is_own status_processing status_completed not_processing id id)
            (taken status_processing id w.past) w.memory s.now.fits;
    };
    later = s.later;
  }

  complete_locked-Gives :
      (now : ℤ) (analysis : AdAnalysis) (ad : Ad)
      → ad.ad_id ≡ id
      → Gives I (λ _. J) (complete_locked shared_repository shared_cache now analysis ad)
  unfolding complete_locked
  complete_locked-Gives now analysis ad e =
      let claim =
        claim-Gives status_processing status_completed not_processing id now id ad.version in
      let rest =
        bind-Safe Done Any (read_again-kept status_processing status_completed not_processing id id)
          λ a h.
            then-Safe Done Any
              (update-kept status_processing status_completed not_processing id id
                (set_analysis_results analysis a) (analysed-Done analysis a h))
              (pure-Safe Any tt tt) in
      rw e (then_claimed-Gives Any weaken (λ _ w s _. s) claim rest)

  complete-Gives :
      (q : DistributedPriorityQueue) (now : ℤ) (analysis : AdAnalysis) (ad : Ad)
      → ad.ad_id ≡ id
      → Gives I (λ _. J) (complete shared_repository shared_cache q now analysis ad)
  unfolding complete
  complete-Gives q now analysis ad e =
      let j = ad.ad_id in
      bind-Gives Any
        (kept status_processing id false (acquire_lock now j q.instance_id q.lock_ttl)
          (λ m v. acquire_lock-IsValid m v now j q.instance_id q.lock_ttl)
          (acquire_lock-IsOutOf status_processing id now j q.instance_id q.lock_ttl))
        λ locked _.
          if-Gives locked
            (deferring_action-Gives (release-kept status_processing id false j q.instance_id)
              (λ _. release-kept status_processing id _ j q.instance_id)
              (complete_locked-Gives now analysis ad e))
            (throw-Gives item_locked)

-- However the calls that `Complete` makes of a valid repository interleave with those of other
-- clients, if each `Set` stores an ad under its own id and none of the others' calls puts the ad into
-- the processing status again: when `Complete` succeeds, none of their `AtomicStatusUpdate` calls up to
-- its last call has taken the ad out of the processing status; and at the end it is not in that
-- status. Ads that others take out of it by `Update` are not counted.
pub complete-exclusive :
    (q : DistributedPriorityQueue) (now : ℤ) (analysis : AdAnalysis) (ad : Ad) (w w' : World)
    → IsValid w.memory
    → w.past ≡ []
    → AllSpare status_processing ad.ad_id w.others
    → complete shared_repository shared_cache q now analysis ad w ≡ (ok tt, w')
    → (taken status_processing ad.ad_id w'.past ≡ 0) × IsOutOf status_processing ad.ad_id w'.memory
complete-exclusive q now analysis ad w w' v past h e =
    let id = ad.ad_id in
    let start : I id w = record {
      now = record { valid = v; fits = inl (ap (taken status_processing id) past) };
      later = h;
    } in
    let kept_all = (complete-Gives id q now analysis ad refl).keep w start in
    let (_, held) =
      subst (λ (x : Result (Unit {0}) × World). I id x.1 × OnOk (λ _. J id x.1) x.0) e kept_all in
    subst (λ own. Fits status_processing id own (taken status_processing id w'.past) w'.memory)
      (if_pos (String-discrete id id) refl true false) held.now.fits
