-- ===== src/Service/Fairness.antt =====
-- Ads that have waited too long: boosting, and what `Dequeue` gives then.
use game_ad_service.Common.{
  ℕ, suc, ◌≤◌, some, length, take_of_length-le, All, ◌≡◌, ◌≢◌, subst, arith, false, inl, inr, ◌⊎◌,
}
use game_ad_service.Common.Int.{ℤ, pos, ◌<ℤ◌, ◌≤ℤ◌, ◌-ℤ◌}
use game_ad_service.Common.Dict.{lookup, values}
use game_ad_service.Common.Sort.{sort_slice, length-sort_slice, All-sort_slice}
use game_ad_service.Ad.{Ad, status_queued}
use game_ad_service.Storage.{ok}
use game_ad_service.Memory.State.{MemoryRepository, with_status, newer, before_in_queue}
use game_ad_service.Memory.Find.{of_with_status}
use game_ad_service.Memory.{memory_repository, memory_cache}
use game_ad_service.Queue.State.{DistributedPriorityQueue}
use game_ad_service.Queue.Priority.{reprioritised}
use game_ad_service.Queue.Rounds.{chosen}
use game_ad_service.Queue.Ageing.{boosted, looked_at, boost_looked_at}
use game_ad_service.Queue.Dequeue.{claimed_ad}
use game_ad_service.Queue.{dequeue, boost_low_priority_items}
use game_ad_service.Memory.Listing.{lookup-All}
use game_ad_service.Service.Ready.{IsReady, dequeue-IsReady}
use game_ad_service.Service.Adjust.{boost-IsReady}

-- The ad is stored, is queued, and has waited longer than the queue's longest wait.
pub record IsOverdue (q : DistributedPriorityQueue) (now : ℤ) (m : MemoryRepository) (a : Ad)
    : Type 0 where
  pub stored : lookup a.ad_id m.ads ≡ some a
  pub queued : a.status ≡ status_queued
  pub since : ℤ
  pub queued_at : a.queued_at ≡ some since
  pub late : q.max_wait_time <ℤ now -ℤ since

-- What may go before an overdue ad once it is boosted.
abbrev pub GoesBefore : Ad → Ad → Type 0
GoesBefore a b =
    (a.effective_priority <ℤ pos 1)
    ⊎ ((a.effective_priority ≡ pos 1) × (a.created_at ≤ℤ b.created_at))

overdue-boosted :
    (q : DistributedPriorityQueue) (now : ℤ) (m : MemoryRepository) (a : Ad)
    → IsOverdue q now m a
    → boosted q now a ≡ some (pos 1)
overdue-boosted q now m a o = ground (arith, o.queued_at, o.late)

-- With at most 100 queued ads boosting reaches every overdue one.
boost_overdue :
    (q : DistributedPriorityQueue) (now : ℤ) (m : MemoryRepository) (a : Ad)
    → IsReady m
    → q.closed ≡ false
    → length (with_status status_queued (values m.ads)) ≤ 100
    → IsOverdue q now m a
    → lookup a.ad_id (boost_low_priority_items memory_repository memory_cache q now m).1.ads
      ≡ some (reprioritised (pos 1) a)
boost_overdue q now m a r c few o =
    let m' = (boost_low_priority_items memory_repository memory_cache q now m).1 in
    let waiting = with_status status_queued (values m.ads) in
    let found = sort_slice newer waiting in
    let P = λ (b : Ad). lookup b.ad_id m'.ads ≡ some (chosen (boosted q now) b) in
    let (_, w) = boost_looked_at m r.idle.valid r.named q now c in
    let whole : looked_at m ≡ found =
      take_of_length-le 100 found (omega (arith, length-sort_slice newer waiting)) in
    let each : All P found = subst (All P) whole w.done in
    let all = of_with_status P status_queued (values m.ads) (All-sort_slice newer P waiting each) in
    let e =
      lookup-All (λ b. b.status ≡ status_queued → P b) a.ad_id m.ads a all o.stored o.queued in
    ground (arith, e, overdue-boosted q now m a o)

-- Nothing starves by its priority: with no lock held, at most 100 queued ads, and an ad that has
-- waited longer than the longest wait, `Dequeue` after `BoostLowPriorityItems` on an open queue hands
-- out an ad, and that one either has an effective priority below 1, or has 1 and is not younger than
-- the ad that waits.
pub boost-dequeue :
    (n : ℕ) (q : DistributedPriorityQueue) (now : ℤ) (later : ℕ → ℤ) (m : MemoryRepository) (a : Ad)
    → IsReady m
    → q.closed ≡ false
    → length (with_status status_queued (values m.ads)) ≤ 100
    → IsOverdue q now m a
    → let m' = (boost_low_priority_items memory_repository memory_cache q now m).1 in
      (b : Ad) × (m'' : MemoryRepository) × (dequeue memory_repository memory_cache
          (suc n)
          q
          later
          m'
        ≡ some (ok (claimed_ad q b), m''))
      × GoesBefore b a
boost-dequeue n q now later m a r c few o =
    let m' = (boost_low_priority_items memory_repository memory_cache q now m).1 in
    let e = boost_overdue q now m a r c few o in
    let a' = reprioritised (pos 1) a in
    let (_, ready, _) = boost-IsReady q now m r c in
    elim (dequeue-IsReady n q later m' ready c) [
      | inl (none_queued, _) ↦
          absurd
            (lookup-All (λ b. b.status ≢ status_queued) a.ad_id m'.ads a' none_queued e o.queued)
      | inr (b, m'', next, f, _, _, _) ↦
          let least =
            lookup-All (λ b'. b'.status ≡ status_queued → before_in_queue b' b ≡ false) a.ad_id
              m'.ads a' next.first e o.queued in
          (b, m'', f, ground (arith, least))
    ]
