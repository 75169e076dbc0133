-- ===== src/Commands/Shutdown.antt =====
-- cmd/server.go, lines 92 to 124, and cmd/worker.go, lines 98 to 115: what the two processes do after the
-- start. A fatal log entry ends the process: it is an error. `cancel` ends the loops that wait for the
-- context; they are not waited for.
use game_ad_service.Common.{ℕ, zero, suc, ◌<◌, String, List, [], ◌∷◌, some, ◌≡◌, refl, ◌∙◌, arith}
use game_ad_service.Common.Int.{ℤ}
use game_ad_service.Errors.{Error, queue_closed}
use game_ad_service.Ad.{Ad, AdAnalysis}
use game_ad_service.Storage.{
  Result, ok, err, panic, Action, Repository, CacheRepository, throw, ◌>>=◌,
}
use game_ad_service.Queue.State.{DistributedPriorityQueue, close}
use game_ad_service.Queue.{
  enqueue, dequeue, complete, requeue_expired, boost_low_priority_items, update_queue_priorities,
  age_round,
}
use game_ad_service.Float64.{FloatOps}
use game_ad_service.Analyzer.{AnalyzerOptions}
use game_ad_service.Pool.{Worker}
use game_ad_service.Pool.Jobs.{work_round, after_error}
use game_ad_service.Pool.Process.{LoopEvent, ends, round, process_loop}
use game_ad_service.Redis.{RedisClient}
use game_ad_service.Config.{Config}
use game_ad_service.Commands.{Components, WorkerProcess, server_run}

-- After a signal, by what `server.Shutdown` returns.
unfoldable pub shut_down_server : Result (Unit {0}) → Components → Result Components
unfolding close
shut_down_server (ok _) components = ok (record components { queue = close components.queue })
shut_down_server (err e) components = err e
shut_down_server panic components = panic

module _ {S : Type 0} (client : RedisClient S) where
  -- `serverRun` as a whole, if listening does not fail before the signal.
  unfoldable pub server_process :
      Config
      → String
      → ℤ
      → (ids : ℕ → String) → (shutdown : Result (Unit {0})) → Action S Components
  unfolding server_run shut_down_server ◌>>=◌
  server_process c instance_id cpus ids shutdown =
      server_run client c instance_id cpus ids >>= λ components s.
      (shut_down_server shutdown components, s)

  unfoldable pub shut_down_worker : WorkerProcess client → WorkerProcess client
  unfolding close
  shut_down_worker process = record process { queue = close process.queue }

-- The rounds of a worker may call `Dequeue`.
abbrev pub HasFuel : List LoopEvent → Type 0
HasFuel [] = Unit
HasFuel (ends ∷ es) = Unit
HasFuel (round n clock later event random ∷ es) = (0 < n) × HasFuel es

after_error-processed : (e : Error) (w : Worker) → (after_error e w).processed ≡ w.processed
unfolding after_error
after_error-processed e w = ground arith

module _ {S : Type 0} (repo : Repository S) (cache : CacheRepository S) where
  -- A worker on a closed queue: its loop takes no ad.
  closed_loop :
      (F : FloatOps) (options : AnalyzerOptions) (q : DistributedPriorityQueue)
      (es : List LoopEvent) (w : Worker) (s : S)
      → HasFuel es
      → (w' : Worker) × (process_loop repo cache F options (close q) es w s ≡ some (ok w', s))
        × (w'.processed ≡ w.processed)
  unfolding process_loop work_round dequeue close
  closed_loop F options q [] w s h = (w, refl, refl)
  closed_loop F options q (ends ∷ es) w s h = (w, refl, refl)
  closed_loop F options q (round zero clock later event random ∷ es) w s h = absurd (omega arith)
  closed_loop F options q (round (suc n) clock later event random ∷ es) w s h =
      let (w', e, same) = closed_loop F options q es (after_error queue_closed w) s h.1 in
      (w', e, same ∙ after_error-processed queue_closed w)

  -- What the shutdown of a server changes for the queue of its components, over any repositories:
  -- `Enqueue`, `Dequeue`, `RequeueExpired` and `BoostLowPriorityItems` report that it is closed and
  -- change nothing. However long the loop of a worker goes on, where each of its rounds may call
  -- `Dequeue`, it changes nothing and counts no ad as processed. `Complete` and the ageing of
  -- `updateQueuePriorities` do what they would do before the shutdown.
  pub shut_down_server_lem :
      (components after : Components) (es : List LoopEvent)
      → shut_down_server (ok tt) components ≡ ok after
      → HasFuel es
      → let q = after.queue in
        ((now : ℤ) (ad : Ad) (s : S) → enqueue repo cache q now ad s ≡ (err queue_closed, ad, s))
        × ((n : ℕ) (clock : ℕ → ℤ) (s : S)
            → dequeue repo cache (suc n) q clock s ≡ some (err queue_closed, s))
        × ((now : ℤ) (s : S) → requeue_expired repo cache q now s ≡ (err queue_closed, s))
        × ((now : ℤ) (s : S) → boost_low_priority_items repo cache q now s ≡ (err queue_closed, s))
        × ((F : FloatOps) (options : AnalyzerOptions) (w : Worker) (s : S)
            → (w' : Worker) × (process_loop repo cache F options q es w s ≡ some (ok w', s))
              × (w'.processed ≡ w.processed))
        × ((F : FloatOps) (now : ℤ)
            → update_queue_priorities repo cache F q now
              ≡ update_queue_priorities repo cache F components.queue now)
        × ((now : ℤ) (analysis : AdAnalysis) (ad : Ad)
            → complete repo cache q now analysis ad
              ≡ complete repo cache components.queue now analysis ad)
  unfolding shut_down_server enqueue dequeue requeue_expired boost_low_priority_items complete throw
      update_queue_priorities age_round close
  shut_down_server_lem components after es e h =
      let q : after.queue ≡ close components.queue = ground (arith, e) in
      rw q (
        (λ now ad s. refl),
        (λ n clock s. refl),
        (λ now s. refl),
        (λ now s. refl),
        (λ F options w s. closed_loop F options components.queue es w s h),
        (λ F now. refl),
        λ now analysis ad. refl,
      )
