-- ===== src/Tests/Stores.antt =====
-- The in-memory repository.
use game_ad_service.Common.{
  String-discrete, ne_of_test, none, some, List, [], ◌∷◌, ◌≡◌, ◌≢◌, refl, arith, true, false, ◌⊎◌,
  String, ite, take, drop, length,
}
use game_ad_service.Common.Int.{pos, incr, ◌+ℤ◌}
use game_ad_service.Common.Dict.{lookup}
use game_ad_service.Errors.{Error, ad_not_found, concurrent_modification}
use game_ad_service.Ad.{Ad, status_queued, status_processing, status_completed}
use game_ad_service.Storage.{ok, err, errors_is}
use game_ad_service.Memory.{
  atomic_status_update, find_by_status, count_by_status, pop_from_queue, acquire_lock,
}
use game_ad_service.Memory.Versions.{
  replaces, changes, write, write-write, atomic_status_update_lem,
}
use game_ad_service.Memory.Find.{IsNext, NoneQueued, pop_from_queue_lem}
use game_ad_service.Memory.Listing.{IsListing, find_by_status_lem}
use game_ad_service.Memory.Locks.{acquires, releases, lock_run, acquire_lock-exclusive}
use game_ad_service.Tests.Data.{second_ad, store, store-IsValid}

write-write_example :
    let m = (write "a1" (pos 2) (changes (pos 200) status_queued status_processing) store).1 in
    (e : Error) × (write "a1" (pos 2) (replaces second_ad) m ≡ (err e, m))
    × (errors_is e concurrent_modification ≡ true)
unfolding write atomic_status_update lookup String-discrete
write-write_example =
    write-write "a1" (pos 2) (changes (pos 200) status_queued status_processing)
      (replaces second_ad) store (ne_of_test "a1" "" refl) refl

acquire_lock-exclusive_example :
    let first = (acquire_lock (pos 10) "a1" "w1" (pos 30) store).1 in
    let m' = lock_run (acquires (pos 20) "a1" "w2" (pos 30) ∷ releases "a1" "w3" ∷ []) first in
    acquire_lock (pos 40) "a1" "w2" (pos 5) m' ≡ (ok false, m')
unfolding acquire_lock lookup ◌+ℤ◌
acquire_lock-exclusive_example =
    acquire_lock-exclusive (pos 10) (pos 30) "a1" "w1" store
      (acquires (pos 20) "a1" "w2" (pos 30) ∷ releases "a1" "w3" ∷ []) (pos 40) (pos 5) "w2" refl
      ((ne_of_test "w2" "w1" refl, omega arith), (ne_of_test "w3" "w1" refl, tt)) (omega arith)
      (ne_of_test "w2" "w1" refl)

atomic_status_update_lem_example :
    let (r, m') =
      atomic_status_update (pos 200) "a1" (pos 2) status_queued status_completed store in
    ((lookup "a1" store.ads ≡ none) × (r ≡ err ad_not_found) × (m' ≡ store))
    ⊎ ((a : Ad) × (lookup "a1" store.ads ≡ some a)
        × (((a.version ≡ pos 2)
              × (a.status ≡ status_queued)
              × (r ≡ ok tt)
              × (m'.locks ≡ store.locks)
              × ((j : String)
                  → lookup j m'.ads
                    ≡ ite
                        (String-discrete "a1" j)
                        (some (record a {
                          status = "completed";
                          version = incr a.version;
                          completed_at = some (pos 200);
                        }))
                        (lookup j store.ads)))
            ⊎ (((a.version ≢ pos 2) ⊎ (a.status ≢ status_queued))
                × (r ≡ err concurrent_modification)
                × (m' ≡ store))))
unfolding String-discrete
atomic_status_update_lem_example =
    atomic_status_update_lem (pos 200) "a1" (pos 2) status_queued status_completed store

find_by_status_lem_example :
    (found : List Ad) × IsListing status_queued store found
    × (find_by_status status_queued (pos 1) (pos 1) store ≡ (ok (take 1 (drop 1 found)), store))
    × (count_by_status status_queued store ≡ (ok (pos (length found)), store))
find_by_status_lem_example = find_by_status_lem status_queued 1 1 store store-IsValid (omega arith)

pop_from_queue_lem_example :
    (NoneQueued store × (pop_from_queue "ads:queue" store ≡ (err ad_not_found, store)))
    ⊎ ((a : Ad) × IsNext store a × (pop_from_queue "ads:queue" store ≡ (ok a.ad_id, store)))
pop_from_queue_lem_example = pop_from_queue_lem "ads:queue" store store-IsValid
