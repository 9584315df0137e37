-- ===== src/Scheduler/Termination/Count.antt =====
-- How the steps of the scheduler change the number of groups that are not completed.
use task_maker_rust.Base.{ℕ, ◌+◌, ◌<◌, ◌≡◌, refl, some, List, [], ◌∷◌, length, arith, if◌then◌else◌}
use task_maker_rust.Base.Tests.{nat_eq, nat_beq_iff}
use task_maker_rust.Base.HashMap
use task_maker_rust.Base.HashMap.{HashMap}
use task_maker_rust.Scheduler.Heap.{ReadyExec, pop, pop_max, less}
use task_maker_rust.Scheduler.State.{SchedulerClientData}
use task_maker_rust.Scheduler.Files.{waiting_groups}

pub waiting_groups-insert :
    {F : Type 0} (c : ℕ) (old new : SchedulerClientData F)
    (clients : HashMap ℕ (SchedulerClientData F))
    → HashMap.get c clients ≡ some old
    → waiting_groups (HashMap.insert c new clients) + length old.missing_deps
      ≡ waiting_groups clients + length new.missing_deps
unfolding waiting_groups HashMap.get HashMap.insert
waiting_groups-insert c old new [] h = cc
waiting_groups-insert c old new ((j, d) ∷ rest) h =
    ground (arith, nat_beq_iff j c, waiting_groups-insert c old new rest)

pub length-pop_max : (x : ReadyExec) (xs : List ReadyExec) → length (pop_max x xs).1 ≡ length xs
unfolding pop_max
length-pop_max x [] = refl
length-pop_max x (y ∷ ys) = ground (arith, length-pop_max (if less x y then y else x) ys)

pub length-pop :
    (xs rest : List ReadyExec) (e : ReadyExec) → pop xs ≡ some (e, rest) → length rest < length xs
unfolding pop
length-pop [] rest e h = cc
length-pop (x ∷ xs) rest e h = ground (arith, length-pop_max x xs)
