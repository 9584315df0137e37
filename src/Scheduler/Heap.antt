-- ===== src/Scheduler/Heap.antt =====
-- `BinaryHeap<(DagPriority, Priority, ExecutionGroupUuid, ClientUuid)>`: a list, of which `pop`
-- takes a greatest entry in the lexicographic order.
use task_maker_rust.Base.{
  ℕ, Bool, true, false, Option, none, some, List, [], ◌∷◌, if◌then◌else◌, ltb,
}
use task_maker_rust.Base.Int.{ℤ, int_ltb}

pub record ReadyExec : Type 0 where
  pub dag_priority : ℤ
  pub priority : ℤ
  pub group : ℕ
  pub client : ℕ

-- The order of tuples.
unfoldable pub less : ReadyExec → ReadyExec → Bool
less a b =
    if int_ltb a.dag_priority b.dag_priority
    then true
    else if int_ltb b.dag_priority a.dag_priority
    then false
    else if int_ltb a.priority b.priority
    then true
    else if int_ltb b.priority a.priority
    then false
    else if ltb a.group b.group
    then true
    else if ltb b.group a.group
    then false
    else ltb a.client b.client

unfoldable pub pop_max : ReadyExec → List ReadyExec → ReadyExec × List ReadyExec
pop_max x [] = (x, [])
pop_max x (y ∷ ys) =
    let (top, rest) = pop_max (if less x y then y else x) ys in
    (top, (if less x y then x else y) ∷ rest)

unfoldable pub pop : List ReadyExec → Option (ReadyExec × List ReadyExec)
unfolding pop_max
pop [] = none
pop (x ∷ xs) = some (pop_max x xs)
