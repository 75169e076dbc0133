-- ===== src/Tests/Ageing.antt =====
-- Ageing and boosting.
use game_ad_service.Common.{String-discrete, some, List, take, ◌≡◌, refl, arith}
use game_ad_service.Common.Int.{pos, ◌-ℤ◌}
use game_ad_service.Common.Dict.{lookup, values}
use game_ad_service.Common.Sort.{IsSorted}
use mathlib.Core.List.{Perm}
use game_ad_service.Ad.{Ad, status_queued}
use game_ad_service.Storage.{ok}
use game_ad_service.Memory.State.{MemoryRepository, with_status, newer}
use game_ad_service.Memory.{memory_repository, memory_cache}
use game_ad_service.Queue.Rounds.{chosen, count_chosen, AllWritten}
use game_ad_service.Queue.Ageing.{aged, update_queue_priorities_lem}
use game_ad_service.Queue.Dequeue.{claimed_ad}
use game_ad_service.Queue.{dequeue, update_queue_priorities, boost_low_priority_items}
use game_ad_service.Service.Fairness.{GoesBefore, boost-dequeue}
use game_ad_service.Tests.Data.{
  second_ad, store, store-IsValid, store-IsReady, small_queue, fixed_ops,
}

update_queue_priorities_lem_example :
    let (r, m') =
      update_queue_priorities memory_repository memory_cache fixed_ops small_queue
        (pos 260)
        store in
    (found : List Ad) × Perm found (with_status status_queued (values store.ads))
    × IsSorted newer found
    × (r ≡ ok (count_chosen (aged fixed_ops small_queue (pos 260)) (take 100 found)))
    × AllWritten (chosen (aged fixed_ops small_queue (pos 260))) (take 100 found) store m'
unfolding lookup String-discrete
update_queue_priorities_lem_example =
    update_queue_priorities_lem store store-IsValid refl fixed_ops small_queue (pos 260)

boost-dequeue_example :
    let m' =
      (boost_low_priority_items memory_repository memory_cache small_queue (pos 500) store).1 in
    (b : Ad) × (m'' : MemoryRepository) × (dequeue memory_repository memory_cache 1 small_queue
        (λ _. pos 510)
        m'
      ≡ some (ok (claimed_ad small_queue b), m''))
    × GoesBefore b second_ad
unfolding lookup with_status String-discrete ◌-ℤ◌
boost-dequeue_example =
    boost-dequeue 0 small_queue (pos 500) (λ _. pos 510) store second_ad store-IsReady refl
      (omega arith)
      (record {
        stored = refl;
        queued = refl;
        since = pos 110;
        queued_at = refl;
        late = omega arith;
      })
