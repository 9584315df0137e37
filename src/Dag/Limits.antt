-- ===== src/Dag/Limits.antt =====
-- task-maker-dag/src/execution.rs: the limits of an execution. `F` stands for `f64`, seconds.
use task_maker_rust.Base.{ℕ, ◌^◌, String, Bool, true, false, Option, none, some, List, []}

pub record ExecutionLimits (F : Type 0) : Type 0 where
  pub cpu_time : Option F
  pub sys_time : Option F
  pub wall_time : Option F
  pub memory : Option ℕ
  pub allow_multiprocess : Bool
  pub nofile : Option ℕ
  pub fsize : Option ℕ
  pub memlock : Option ℕ
  pub stack : Option ℕ
  pub read_only : Bool
  pub mount_tmpfs : Bool
  pub mount_proc : Bool
  pub extra_readable_dirs : List String
  pub permissive : Bool

unfoldable pub unrestricted : (F : Type 0) → ExecutionLimits F
unrestricted F = record {
  cpu_time = none;
  sys_time = none;
  wall_time = none;
  memory = none;
  allow_multiprocess = true;
  nofile = none;
  fsize = none;
  memlock = none;
  stack = none;
  read_only = false;
  mount_tmpfs = true;
  mount_proc = true;
  extra_readable_dirs = [];
  permissive = true;
}

-- `impl Default for ExecutionLimits`.
unfoldable pub default_limits : (F : Type 0) → ExecutionLimits F
default_limits F = record {
  cpu_time = none;
  sys_time = none;
  wall_time = none;
  memory = none;
  allow_multiprocess = false;
  nofile = none;
  fsize = some (1024 ^ 3);
  memlock = none;
  stack = none;
  read_only = true;
  mount_tmpfs = false;
  mount_proc = false;
  extra_readable_dirs = [];
  permissive = false;
}
