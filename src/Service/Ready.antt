-- ===== src/Service/Ready.antt =====
-- Between two calls nobody holds a lock: what the calls that a client and the workers make do then.
use game_ad_service.Common.{
  ℕ, suc, String, String-discrete, none, some, ◌≡◌, ◌≢◌, refl, sym, ap, subst, arith, ite, true,
  false, inl, inr, ◌⊎◌, Option-cases, ne_of_test, ◌∙◌,
}
use game_ad_service.Common.Int.{ℤ, ℤ-discrete}
use game_ad_service.Common.Dict.{lookup, lookup-Entries}
use game_ad_service.Errors.{queue_closed, queue_empty}
use game_ad_service.Mapper.{AdDto, map_ad_to_ad_dto}
use game_ad_service.Ad.{Ad, AdAnalysis, status_queued, status_processing}
use game_ad_service.Storage.{Result, ok, err, panic, handle, throw}
use game_ad_service.Memory.State.{MemoryRepository}
use game_ad_service.Memory.{memory_repository, memory_cache, save}
use game_ad_service.Memory.Loops.{OwnId}
use game_ad_service.Memory.Invariant.{save-IsValid}
use game_ad_service.Memory.Find.{IsNext, NoneQueued}
use game_ad_service.Queue.State.{DistributedPriorityQueue}
use game_ad_service.Queue.Store.{IsFree}
use game_ad_service.Queue.Safe.{complete-Safe}
use game_ad_service.Queue.SafeRun.{Ends, enqueue-Safe}
use game_ad_service.Queue.SafeDequeue.{dequeue-Safe}
use game_ad_service.Queue.Idle.{
  IsUnstarted, IsIdle, memory-Keeps, IsUnstarted-Stable, save-IsUnstarted,
}
use game_ad_service.Queue.Dequeue.{claimed_ad, dequeue-IsNext}
use game_ad_service.Queue.Complete.{
  completed_ad, complete_success, complete_stale, complete_missing,
}
use game_ad_service.Queue.{enqueue, dequeue, complete}
use game_ad_service.Service.Submit.{submit_ad-get_ad}
use game_ad_service.Service.Waiting.{
  entry_if_queued, waiting, waiting_changed, waiting_queued, remove, put, remove_idle,
}
use game_ad_service.Service.{submitted, submit_ad, enqueue_submitted}

-- The repository is idle, no lock is held, and no ad stands under the empty id.
pub record IsReady (m : MemoryRepository) : Type 0 where
  pub idle : IsIdle m
  pub unlocked : (j : String) → lookup j m.locks ≡ none
  pub named : lookup "" m.ads ≡ none

pub IsReady-IsFree :
    (m : MemoryRepository)
    → IsReady m
    → (now : ℤ) (owner : String) (a : Ad) → IsNext m a
    → (a.ad_id ≢ "") × IsFree now a.ad_id owner m
IsReady-IsFree m r now owner a h =
    ((λ p. ground (arith, h.stored, r.named)), inl (r.unlocked a.ad_id))

module _ (m m' : MemoryRepository) (r : IsReady m) (i : IsIdle m') (id : String) where
  pub IsReady-changed :
      (a : Ad)
      → id ≢ ""
      → ((j : String) → lookup j m'.ads ≡ ite (String-discrete id j) (some a) (lookup j m.ads))
      → ((j : String) → lookup j m'.locks ≡ ite (String-discrete id j) none (lookup j m.locks))
      → IsReady m'
  IsReady-changed a h ads locks = record {
    idle = i;
    unlocked = λ j. ground (arith, locks j, r.unlocked j);
    named = ground (arith, ads "", r.named);
  }

  pub IsReady-same :
      m'.ads ≡ m.ads
      → ((j : String) → lookup j m'.locks ≡ ite (String-discrete id j) none (lookup j m.locks))
      → IsReady m'
  IsReady-same ads locks = record {
    idle = i;
    unlocked = λ j. ground (arith, locks j, r.unlocked j);
    named = ground (arith, ads, r.named);
  }

enqueue_submitted_at :
    (q : DistributedPriorityQueue) (later : ℤ) (ad ad' : Ad) (m m' : MemoryRepository)
    (r : Result (Unit {0}))
    → enqueue memory_repository memory_cache q later ad m ≡ (r, ad', m')
    → (enqueue_submitted memory_repository memory_cache q later ad m).1 ≡ m'
unfolding enqueue_submitted
enqueue_submitted_at q later ad ad' m m' (ok _) e = ground (arith, e)
enqueue_submitted_at q later ad ad' m m' (err _) e = ground (arith, e)
enqueue_submitted_at q later ad ad' m m' panic e = ground (arith, e)

-- `SubmitAd` ends in the state in which its call of `Enqueue` ends.
submit_ad-enqueue :
    (q : DistributedPriorityQueue) (fresh : String) (now later : ℤ) (ad : Ad) (m : MemoryRepository)
    → let ad' = submitted fresh now ad in
      ad'.ad_id ≢ ""
      → (submit_ad memory_repository memory_cache q fresh now later (some ad) m).1
        ≡ (enqueue memory_repository memory_cache q later ad' (save (some ad') m).1).2
unfolding submit_ad save handle throw
submit_ad-enqueue q fresh now later ad m h = ground (
  arith,
  enqueue_submitted_at q later (submitted fresh now ad) _ (save (some (submitted fresh now ad)) m).1
      _ _ refl,
)

submit_ad-IsIdle :
    (q : DistributedPriorityQueue) (fresh : String) (now later : ℤ) (ad : Ad) (m : MemoryRepository)
    → (submitted fresh now ad).ad_id ≢ ""
    → IsUnstarted ad
    → IsIdle m
    → IsIdle (submit_ad memory_repository memory_cache q fresh now later (some ad) m).1
submit_ad-IsIdle q fresh now later ad m h u v =
    let ad' = submitted fresh now ad in
    let saved : IsIdle (save (some ad') m).1 = record {
      valid = save-IsValid m v.valid (some ad');
      unstarted = save-IsUnstarted m v ad' u;
    } in
    subst IsIdle (sym (submit_ad-enqueue q fresh now later ad m h))
      (enqueue-Safe _ _ IsIdle IsUnstarted memory-Keeps IsUnstarted-Stable q later ad' _ u saved)

-- What a submission leaves, to a repository with no lock held: the reply says whether the ad waits.
pub submit_ad-IsReady :
    (q : DistributedPriorityQueue) (fresh : String) (now later : ℤ) (ad : Ad) (m : MemoryRepository)
    → (submitted fresh now ad).ad_id ≢ ""
    → IsUnstarted ad
    → IsReady m
    → (d : AdDto) × (m' : MemoryRepository) × (submit_ad memory_repository memory_cache q fresh now
          later
          (some ad)
          m
        ≡ (ok d, m'))
      × IsReady m'
      × (((d.status ≡ status_queued)
            × (waiting m'
                ≡ put d.ad_id
                    (record { effective_priority = d.priority; created_at = d.created_at })
                    (waiting m)))
          ⊎ ((d.status ≢ status_queued) × (waiting m' ≡ remove d.ad_id (waiting m))))
unfolding map_ad_to_ad_dto
submit_ad-IsReady q fresh now later ad m h u r =
    let (d, m', e, s, _) = submit_ad-get_ad q fresh now later ad m h in
    let ad' = submitted fresh now ad in
    let ended : (submit_ad memory_repository memory_cache q fresh now later (some ad) m).1 ≡ m' =
      ground (arith, e) in
    let idle = subst IsIdle ended (submit_ad-IsIdle q fresh now later ad m h u r.idle) in
    let ads : (j : String)
        → lookup j m'.ads ≡ ite (String-discrete ad'.ad_id j) (some s.stored_ad) (lookup j m.ads) =
      λ j. elim (String-discrete ad'.ad_id j) [
        | yes p ↦ ground (arith, s.stored, p)
        | no n ↦ ground (arith, s.kept j n)
      ] in
    (
      d,
      m',
      e,
      record {
        idle = idle;
        unlocked = λ j. ground (arith, s.locks, r.unlocked j);
        named = ground (arith, ads "", r.named);
      },
      elim s.state [
        | inl same ↦
            let id : d.ad_id ≡ ad'.ad_id = ground (arith, s.seen, same) in
            let other = ne_of_test "submitted" "queued" refl in
            inr (
              ground (arith, s.seen, same, other),
              rw id (waiting_changed m m' ad'.ad_id s.stored_ad ads (ground (arith, same, other))),
            )
        | inr same ↦
            let id : d.ad_id ≡ ad'.ad_id = ground (arith, s.seen, same) in
            let priority : s.stored_ad.effective_priority ≡ d.priority =
              ground (arith, s.seen, same) in
            let created_at : s.stored_ad.created_at ≡ d.created_at = ground (arith, s.seen, same) in
            inl (
              ground (arith, s.seen, same),
              rw (id, ← priority, ← created_at)
                  (waiting_queued m m' ad'.ad_id s.stored_ad ads (ground (arith, same))),
            )
      ],
    )

-- What a `Dequeue` leaves.
pub dequeue-IsReady :
    (n : ℕ) (q : DistributedPriorityQueue) (clock : ℕ → ℤ) (m : MemoryRepository)
    → IsReady m
    → q.closed ≡ false
    → (NoneQueued m
        × (dequeue memory_repository memory_cache (suc n) q clock m ≡ some (err queue_empty, m)))
      ⊎ ((a : Ad) × (m' : MemoryRepository) × IsNext m a
          × (dequeue memory_repository memory_cache (suc n) q clock m
              ≡ some (ok (claimed_ad q a), m'))
          × IsReady m'
          × ((j : String)
              → lookup j m'.ads
                ≡ ite (String-discrete a.ad_id j) (some (claimed_ad q a)) (lookup j m.ads))
          × (waiting m' ≡ remove a.ad_id (waiting m)))
dequeue-IsReady n q clock m r hc =
    let free = IsReady-IsFree m r (clock 0) q.instance_id in
    elim (dequeue-IsNext n q clock m r.idle.valid hc free) [
      | inl h ↦ inl h
      | inr (a, m', next, e, ads, locks) ↦
          let kept =
            (dequeue-Safe _ _ IsIdle IsUnstarted memory-Keeps IsUnstarted-Stable (suc n) q
                clock).keep
              m r.idle in
          let idle = (subst (Ends IsIdle IsUnstarted) e kept).0 in
          let c = claimed_ad q a in
          inr (
            a,
            m',
            next,
            e,
            IsReady-changed m m' r idle a.ad_id c (free a next).0 ads locks,
            ads,
            waiting_changed m m' a.ad_id c ads (ne_of_test "processing" "queued" refl),
          )
    ]

pub dequeue_closed :
    (n : ℕ) (q : DistributedPriorityQueue) (clock : ℕ → ℤ) (m : MemoryRepository)
    → q.closed ≡ true
    → dequeue memory_repository memory_cache (suc n) q clock m ≡ some (err queue_closed, m)
unfolding dequeue
dequeue_closed n q clock m h = ground (arith, h)

-- What a `Complete` leaves, of whatever ad: nothing that waits is touched.
pub complete-IsReady :
    (q : DistributedPriorityQueue) (now : ℤ) (analysis : AdAnalysis) (ad : Ad)
    (m : MemoryRepository)
    → IsReady m
    → let (r, m') = complete memory_repository memory_cache q now analysis ad m in
      (r ≢ panic) × IsReady m' × (waiting m' ≡ waiting m)
complete-IsReady q now analysis ad m r =
    let m' = (complete memory_repository memory_cache q now analysis ad m).1 in
    let idle =
      ((complete-Safe _ _ IsIdle IsUnstarted memory-Keeps IsUnstarted-Stable q now analysis ad).keep
        m r.idle).0 in
    let free = inl (r.unlocked ad.ad_id) in
    elim (Option-cases (lookup ad.ad_id m.ads)) [
      | inl e ↦
          let (f, ads, locks) = complete_missing q now analysis ad m e free in
          (
            (λ p. ground arith),
            IsReady-same m m' r idle ad.ad_id ads locks,
            ap (λ d j. entry_if_queued (lookup j d)) ads,
          )
      | inr (a, e) ↦ elim (ℤ-discrete a.version ad.version) [
        | no n ↦
            let (f, ads, locks) = complete_stale q now analysis ad a m e (inl n) free in
            (
              (λ p. ground arith),
              IsReady-same m m' r idle ad.ad_id ads locks,
              ap (λ d j. entry_if_queued (lookup j d)) ads,
            )
        | yes v ↦ elim (String-discrete a.status status_processing) [
          | no n ↦
              let (f, ads, locks) = complete_stale q now analysis ad a m e (inr n) free in
              (
                (λ p. ground arith),
                IsReady-same m m' r idle ad.ad_id ads locks,
                ap (λ d j. entry_if_queued (lookup j d)) ads,
              )
          | yes s ↦
              let own = lookup-Entries OwnId ad.ad_id m.ads a r.idle.valid.own_ids e in
              let hid : ad.ad_id ≢ "" = λ p. ground (arith, e, r.named) in
              let c = completed_ad now analysis a in
              let (f, ads, locks) = complete_success q now analysis ad a m hid own e v s free in
              let idle_before : waiting m ad.ad_id ≡ none =
                ground (arith, e, ne_of_test "processing" "queued" refl) in
              (
                (λ p. ground arith),
                IsReady-changed m m' r idle ad.ad_id c hid ads locks,
                waiting_changed m m' ad.ad_id c ads (ne_of_test "completed" "queued" refl)
                    ∙ remove_idle (waiting m) ad.ad_id idle_before,
              )
        ]
      ]
    ]
