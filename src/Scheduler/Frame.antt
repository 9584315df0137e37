-- ===== src/Scheduler/Frame.antt =====
-- What a message to a client leaves alone.
use task_maker_rust.Base.{ℕ, ◌≡◌, refl, Bool, true, false, arith, if◌then◌else◌}
use task_maker_rust.Scheduler.State.{Scheduler, ExecutorMessage, notify}
use task_maker_rust.Scheduler.Files.{send_file}

module _ {F C : Type 0} where
  pub notify-clients :
      (c : ℕ) (m : ExecutorMessage F) (s : Scheduler F C) → (notify c m s).clients ≡ s.clients
  unfolding notify
  notify-clients c m s = ground arith

  pub notify-ready_execs :
      (c : ℕ) (m : ExecutorMessage F) (s : Scheduler F C)
      → (notify c m s).ready_execs ≡ s.ready_execs
  unfolding notify
  notify-ready_execs c m s = ground arith

  pub send_file-clients :
      (c f : ℕ) (b : Bool) (s : Scheduler F C) → (send_file c f b s).clients ≡ s.clients
  unfolding send_file notify
  send_file-clients c f b s = ground arith

  pub send_file-ready_execs :
      (c f : ℕ) (b : Bool) (s : Scheduler F C) → (send_file c f b s).ready_execs ≡ s.ready_execs
  unfolding send_file notify
  send_file-ready_execs c f b s = ground arith

  pub notify-cache :
      (c : ℕ) (m : ExecutorMessage F) (s : Scheduler F C) → (notify c m s).cache ≡ s.cache
  unfolding notify
  notify-cache c m s = ground arith

  pub send_file-cache :
      (c f : ℕ) (b : Bool) (s : Scheduler F C) → (send_file c f b s).cache ≡ s.cache
  unfolding send_file notify
  send_file-cache c f b s = ground arith

  pub notify-connected_workers :
      (c : ℕ) (m : ExecutorMessage F) (s : Scheduler F C)
      → (notify c m s).connected_workers ≡ s.connected_workers
  unfolding notify
  notify-connected_workers c m s = ground arith

  pub send_file-connected_workers :
      (c f : ℕ) (b : Bool) (s : Scheduler F C)
      → (send_file c f b s).connected_workers ≡ s.connected_workers
  unfolding send_file notify
  send_file-connected_workers c f b s = ground arith

  pub notify_if-clients :
      (b : Bool) (c : ℕ) (m : ExecutorMessage F) (s : Scheduler F C)
      → (if b then notify c m s else s).clients ≡ s.clients
  notify_if-clients true c m s = notify-clients c m s
  notify_if-clients false c m s = refl

  pub notify_if-connected_workers :
      (b : Bool) (c : ℕ) (m : ExecutorMessage F) (s : Scheduler F C)
      → (if b then notify c m s else s).connected_workers ≡ s.connected_workers
  notify_if-connected_workers true c m s = notify-connected_workers c m s
  notify_if-connected_workers false c m s = refl
