-- ===== src/Scheduler/Safety.antt =====
-- The scheduler of task-maker-exec/src/scheduler.rs with the cache of task-maker-cache/src.
use task_maker_rust.Base.{ℕ, ◌≢◌, List, err}
use task_maker_rust.Base.Float.{Float}
use task_maker_rust.Cache.Key.{Names}
use task_maker_rust.Cache.Entry.{FileStore}
use task_maker_rust.Cache.Query.{CacheFile}
use task_maker_rust.Scheduler.State.{Scheduler, panic}
use task_maker_rust.Scheduler.Handlers.{SchedulerMessage, handle, run}
use task_maker_rust.Scheduler.Outcome.{Ends, Ends-ne}
use task_maker_rust.Scheduler.Soundness.Invariant.{IsSound}
use task_maker_rust.Scheduler.Soundness.Messages.{IsAllowed, AreAllowed, handle-Ends, run-found}
use task_maker_rust.Scheduler.Caching.{cache_of, complete_file, cache_of-CacheLaws}

module _ {F : Type 0} ⦃fl : Float F⦄ (names : Names) (stores : ℕ → FileStore) where
  -- With the modelled cache over any file store at each of its calls, every handler ends a message
  -- that is allowed in a sound state with a sound state or with an error that is no panic. In a
  -- sound state a group that is ready or runs is in the DAG of its client, with a handle of each
  -- file that it reads, a group that waits has a handle of each file that it does not wait for,
  -- and each entry of the cache has as many items as its key. Allowed is an evaluation by a client
  -- that is new and files each group under its own identifier, a result of a worker with a handle
  -- for each output of its group, and every other message.
  pub handle-IsSound :
      (m : SchedulerMessage F) (s : Scheduler F (CacheFile F × ℕ))
      → IsSound s
      → IsAllowed (cache_of names stores) (cache_of-CacheLaws names stores) m s
      → Ends panic IsSound (handle (cache_of names stores) m s)
  handle-IsSound = handle-Ends (cache_of names stores) (cache_of-CacheLaws names stores)

  -- From a sound state, with the modelled cache over any file store at each of its calls, and with
  -- messages that are each allowed where they are handled, the scheduler never panics: no `expect`
  -- and no index of a map in scheduler.rs fails. Allowed is an evaluation by a client that is new
  -- and files each group under its own identifier, a result of a worker with a handle for each
  -- output of its group, and every other message.
  pub run-ne-panic :
      (messages : List (ℕ × SchedulerMessage F)) (s : Scheduler F (CacheFile F × ℕ))
      → IsSound s
      → AreAllowed (cache_of names stores) (cache_of-CacheLaws names stores) messages s
      → run (cache_of names stores) messages s ≢ err panic
  run-ne-panic messages s h a =
      Ends-ne (run-found (cache_of names stores) (cache_of-CacheLaws names stores) messages s h a)
