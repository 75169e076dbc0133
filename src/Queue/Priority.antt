-- ===== src/Queue/Priority.antt =====
-- A write of a new effective priority, of the queue's ageing and boosting, over the in-memory
-- repository.
use game_ad_service.Common.{none, some, ◌≡◌, ◌≢◌, refl, arith}
use game_ad_service.Common.Int.{ℤ, incr}
use game_ad_service.Common.Dict.{lookup, insert, lookup-insert_self}
use game_ad_service.Ad.{Ad}
use game_ad_service.Storage.{ok, handle, pure}
use game_ad_service.Memory.State.{MemoryRepository}
use game_ad_service.Memory.{memory_repository, memory_cache, get}
use game_ad_service.Queue.State.{ads_queue}
use game_ad_service.Queue.Store.{get_stored, update_current, push_stored}
use game_ad_service.Queue.{write_priority}

-- What a write leaves of the stored ad.
abbrev pub reprioritised : ℤ → Ad → Ad
reprioritised p a = record a { effective_priority = p; version = incr a.version }

module _ (ad : Ad) (p : ℤ) (m : MemoryRepository) where
  -- An ad that is not stored, or has changed since it was read, is left alone.
  pub write_missing :
      lookup ad.ad_id m.ads ≡ none
      → write_priority memory_repository memory_cache ad p m ≡ (ok 0, m)
  unfolding write_priority handle get pure
  write_missing e = ground arith

  module _ (a : Ad) (e : lookup ad.ad_id m.ads ≡ some a) (hid : ad.ad_id ≢ "") where
    pub write_changed :
        a.version ≢ ad.version → write_priority memory_repository memory_cache ad p m ≡ (ok 0, m)
    unfolding write_priority handle pure
    write_changed n = ground (arith, get_stored ad.ad_id a m hid e)

    pub write_same :
        a.version ≡ ad.version
        → a.ad_id ≡ ad.ad_id
        → let b = reprioritised p a in
          write_priority memory_repository memory_cache ad p m
          ≡ (ok 1, record m { ads = insert ad.ad_id b (insert ad.ad_id b m.ads) })
    unfolding write_priority handle pure
    write_same v same =
        let b = reprioritised p a in
        let stored : lookup a.ad_id m.ads ≡ some a = ground (arith, e, same) in
        let ready : a.ad_id ≢ "" = ground (arith, hid, same) in
        ground (
          arith,
          get_stored ad.ad_id a m hid e,
          update_current (record a { effective_priority = p }) a m ready stored refl,
          push_stored ads_queue p a.ad_id b (record m { ads = insert a.ad_id b m.ads }) ready
              (lookup-insert_self a.ad_id b m.ads),
        )
