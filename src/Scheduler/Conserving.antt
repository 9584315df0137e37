-- ===== src/Scheduler/Conserving.antt =====
-- Free workers and ready executions: what `assign_jobs` of scheduler.rs leaves of both.
pub mod Handling
use task_maker_rust.Base.{
  ℕ, ◌≡◌, refl, ◌∙◌, sym, ◌≢◌, Bool, true, false, Option, none, some, List, [], ◌∷◌, All, All-imp,
  arith, ◌⊎◌, inl, inr, subst, Result, ok, err, ◌>>=◌, if◌then◌else◌, is_some,
}
use mathlib.Core.Option.{some-injective}
use task_maker_rust.Base.Tests.{nat_eq, nat_beq, nat_beq_iff, Option-cases, Bool-cases}
use task_maker_rust.Base.HashMap
use task_maker_rust.Base.HashMap.{HashMap}
use task_maker_rust.Dag.Execution.{ExecutionResult}
use task_maker_rust.Scheduler.Heap.{ReadyExec, pop}
use task_maker_rust.Scheduler.State.{
  Scheduler, ConnectedWorker, CurrentJob, Cache, Error, SchedulerClientData, set_client,
  send_worker_manager, WorkerManagerMessage, or_panic, notify, execution_started,
}
use task_maker_rust.Scheduler.Jobs.{dep_keys, start_job, assign_each, assign_jobs}
use task_maker_rust.Scheduler.Frame.{notify_if-connected_workers}

-- What holds of the value of a call, if it returns one.
abbrev pub Gives : {A : Type 0} → (A → Type 0) → Result Error A → Type 0
Gives {A} P r = (a : A) → r ≡ ok a → P a

pub Gives-ok : {A : Type 0} (P : A → Type 0) (a : A) → P a → Gives P (ok a)
Gives-ok P a p b e = subst P (ground arith) p

pub Gives-err : {A : Type 0} (P : A → Type 0) (x : Error) → Gives P (err x)
Gives-err P x b e = cc

pub Gives-bind :
    {A B : Type 0} (P : A → Type 0) (Q : B → Type 0) (m : Result Error A) (f : A → Result Error B)
    → Gives P m
    → ((a : A) → P a → Gives Q (f a))
    → Gives Q (m >>= f)
unfolding ◌>>=◌
Gives-bind P Q (ok a) f p q b e = q a (p a refl) b e
Gives-bind P Q (err x) f p q b e = cc

-- The same, where nothing is needed of the first call.
pub Gives-then :
    {A B : Type 0} (Q : B → Type 0) (m : Result Error A) (f : A → Result Error B)
    → ((a : A) → m ≡ ok a → Gives Q (f a))
    → Gives Q (m >>= f)
Gives-then Q m f q = Gives-bind (λ a. m ≡ ok a) Q m f (λ a e. e) q

pub Gives-option :
    {A B : Type 0} (P : A → Type 0) (o : Option B) {x : Result Error A} {k : B → Result Error A}
    → (o ≡ none → Gives P x)
    → ((b : B) → o ≡ some b → Gives P (k b))
    → Gives P (elim o [ none ↦ x | some b ↦ k b ])
Gives-option P none p q = p refl
Gives-option P (some b) p q = q b refl

pub Gives-if :
    {A : Type 0} (P : A → Type 0) (b : Bool) {x y : Result Error A}
    → Gives P x
    → Gives P y
    → Gives P (if b then x else y)
Gives-if P true p q = p
Gives-if P false p q = q

pop-none : (xs : List ReadyExec) → pop xs ≡ none → xs ≡ []
unfolding pop
pop-none [] h = refl
pop-none (x ∷ xs) h = cc

-- The worker, if it is there, has a job.
abbrev pub HasJob : HashMap ℕ ConnectedWorker → ℕ → Type 0
HasJob workers u =
    (w : ConnectedWorker) → HashMap.get u workers ≡ some w → is_some w.current_job ≡ true

HasJob-insert :
    (workers : HashMap ℕ ConnectedWorker) (u v : ℕ) (w : ConnectedWorker)
    → is_some w.current_job ≡ true
    → HasJob workers v
    → HasJob (HashMap.insert u w workers) v
HasJob-insert workers u v w busy h x e = elim (HashMap.get-insert_cases u v w x workers e) [
  | inl (_, same) ↦ subst (λ (y : ConnectedWorker). is_some y.current_job ≡ true) same busy
  | inr before ↦ h x before
]

HasJob-insert_self :
    (workers : HashMap ℕ ConnectedWorker) (u : ℕ) (w : ConnectedWorker)
    → is_some w.current_job ≡ true
    → HasJob (HashMap.insert u w workers) u
HasJob-insert_self workers u w busy x e =
    subst (λ (y : ConnectedWorker). is_some y.current_job ≡ true)
      (some-injective _ _ (sym (HashMap.get-insert_self u w workers) ∙ e)) busy

-- What holds of each key that is found holds of all keys.
get-keys :
    (P : ℕ → Type 0) (workers : HashMap ℕ ConnectedWorker)
    → All P (HashMap.keys workers)
    → (u : ℕ) (w : ConnectedWorker) → HashMap.get u workers ≡ some w
    → P u
unfolding HashMap.get
get-keys P [] h u w e = cc
get-keys P ((v, x) ∷ rest) h u w e = elim (Bool-cases (nat_beq v u)) [
  | inl same ↦ subst P ((nat_beq_iff v u).0 same) h.0
  | inr other ↦ get-keys P rest h.1 u w (rw other at e)
]

module _ {F C : Type 0} where
  -- The step of the loop marks its worker as busy, and no other changes.
  start_job-workers :
      (u : ℕ) (w : ConnectedWorker) (e : ReadyExec) (s : Scheduler F C)
      → Gives
          (λ t.
            t.connected_workers
            ≡ HashMap.insert u
                (record w {
                  current_job = some (record { client = e.client; group = e.group; start = s.now });
                })
                s.connected_workers)
          (start_job u w e s)
  unfolding start_job set_client send_worker_manager
  start_job-workers u w e s =
      Gives-option _ (HashMap.get e.client s.clients) (λ _. Gives-ok _ _ refl)
        λ client here.
          Gives-then _ (or_panic (HashMap.get e.group client.dag.execution_groups)) _ λ group _.
            Gives-then _ (dep_keys client.file_handles _) _ λ keys _.
              Gives-bind (λ t. t.connected_workers ≡ _) _ _ _
                (Gives-if _ s.worker_manager_open (Gives-ok _ _ refl) (Gives-err _ _))
                λ t same. Gives-ok _ _ (notify_if-connected_workers _ e.client _ t ∙ same)

  -- What the loop over some of the workers leaves: nothing is ready, or they all have a job, and
  -- whoever had a job has one.
  record Assigned (us : List ℕ) (s t : Scheduler F C) : Type 0 where
    done : (t.ready_execs ≡ []) ⊎ All (HasJob t.connected_workers) us
    kept : (u : ℕ) → HasJob s.connected_workers u → HasJob t.connected_workers u

  Assigned-skip :
      (u : ℕ) (us : List ℕ) (s t : Scheduler F C)
      → HasJob s.connected_workers u
      → Assigned us s t
      → Assigned (u ∷ us) s t
  Assigned-skip u us s t busy a = record {
    done = elim a.done [ inl empty ↦ inl empty | inr all ↦ inr (a.kept u busy, all) ];
    kept = a.kept;
  }

  assign_each-Assigned :
      (us : List ℕ) (s : Scheduler F C) → Gives (Assigned us s) (assign_each us s)
  unfolding assign_each
  assign_each-Assigned [] s = Gives-ok _ s (record { done = inr tt; kept = λ u h. h })
  assign_each-Assigned (u ∷ us) s =
      Gives-option _ (HashMap.get u s.connected_workers)
        (λ gone t e. Assigned-skip u us s t (λ w at. ground arith) (assign_each-Assigned us s t e))
        λ w at.
          Gives-option _ w.current_job
            (λ free.
              Gives-option _ (pop s.ready_execs)
                (λ nothing.
                  Gives-ok _ s
                    (record { done = inl (pop-none s.ready_execs nothing); kept = λ v h. h }))
                λ p popped.
                  Gives-bind _ _ (start_job u w p.0 _) _ (start_job-workers u w p.0 _)
                    λ t1 same t e.
                      let a = assign_each-Assigned us t1 t e in
                      let busy : HasJob t1.connected_workers u =
                        rw same (HasJob-insert_self s.connected_workers u _ refl) in
                      record {
                        done = (Assigned-skip u us t1 t busy a).done;
                        kept = λ v h.
                            a.kept v (rw same (HasJob-insert s.connected_workers u v _ refl h));
                      })
            λ job busy t e.
              Assigned-skip u us s t (λ x found. ground arith) (assign_each-Assigned us s t e)

  -- Nothing is ready, or every worker has a job.
  abbrev pub IsBusy : Scheduler F C → Type 0
  IsBusy s = (s.ready_execs ≡ []) ⊎ ((u : ℕ) → HasJob s.connected_workers u)

  -- Nothing but the queue and the workers matters.
  pub IsBusy-same :
      (s t : Scheduler F C)
      → t.ready_execs ≡ s.ready_execs
      → t.connected_workers ≡ s.connected_workers
      → IsBusy s
      → IsBusy t
  IsBusy-same s t p q (inl empty) = inl (p ∙ empty)
  IsBusy-same s t p q (inr busy) = inr (rw q busy)

  pub assign_jobs-IsBusy : (s : Scheduler F C) → Gives IsBusy (assign_jobs s)
  unfolding assign_jobs
  assign_jobs-IsBusy s t e =
      let a = assign_each-Assigned (HashMap.keys s.connected_workers) s t e in
      elim a.done [
        | inl empty ↦ inl empty
        | inr all ↦ inr (λ u. elim (Option-cases (HashMap.get u s.connected_workers)) [
          | inl gone ↦ a.kept u (λ w at. cc)
          | inr (w, at) ↦ get-keys (HasJob t.connected_workers) s.connected_workers all u w at
        ])
      ]
