-- ===== src/Scheduler/Soundness/Update.antt =====
-- Changes of one client, of the queue and of the workers and the invariant.
use task_maker_rust.Base.{
  ℕ, ◌≡◌, refl, sym, ◌∙◌, Bool, true, false, some, List, [], ◌∷◌, All, All-imp, arith, inl, inr,
  subst, if◌then◌else◌,
}
use mathlib.Core.Option.{some-injective}
use task_maker_rust.Base.Tests.{nat_eq, nat_beq, nat_beq_iff, Bool-cases}
use task_maker_rust.Base.HashMap
use task_maker_rust.Base.HashMap.{HashMap}
use task_maker_rust.Scheduler.Heap.{ReadyExec, less, pop_max, pop}
use task_maker_rust.Scheduler.State.{
  Scheduler, SchedulerClientData, ConnectedWorker, ExecutorMessage, notify, set_client,
}
use task_maker_rust.Scheduler.Files.{send_file}
use task_maker_rust.Scheduler.Frame.{
  notify-clients, notify-cache, send_file-cache, notify-ready_execs, notify-connected_workers,
  send_file-clients, send_file-ready_execs, send_file-connected_workers,
}
use task_maker_rust.Scheduler.Soundness.Invariant.{
  CacheInvariant, Executable, Executable-Extends, IsClientSound, CanRun, Sound, Extends, IsSound,
  Grows, Stems, Extends-refl, clients-Keeps, Keeps, Keeps-trans,
}

module _ {F : Type 0} (clients : HashMap ℕ (SchedulerClientData F)) (c : ℕ)
    (old new : SchedulerClientData F) (here : HashMap.get c clients ≡ some old)
    (extends : Extends old new) where
  pub CanRun-insert : (d g : ℕ) → CanRun clients d g → CanRun (HashMap.insert c new clients) d g
  CanRun-insert d g run client h = elim (HashMap.get-insert_cases c d new client clients h) [
    | inl (same, e) ↦
        subst (λ x. Executable x g) e
          (Executable-Extends g extends
            (run old (subst (λ x. HashMap.get x clients ≡ some old) same here)))
    | inr before ↦ run client before
  ]

  pub Sound-insert :
      {ready : List ReadyExec} {workers : HashMap ℕ ConnectedWorker} {V : Type 0}
      → Sound clients ready workers V
      → IsClientSound new
      → Sound (HashMap.insert c new clients) ready workers V
  Sound-insert {ready} {workers} h sound = record {
    clients_sound = λ d client k. elim (HashMap.get-insert_cases c d new client clients k) [
      | inl (same, e) ↦ subst IsClientSound e sound
      | inr before ↦ h.clients_sound d client before
    ];
    ready_sound = All-imp ready (λ e r. CanRun-insert e.client e.group r) h.ready_sound;
    jobs_sound =
        All-imp workers (λ p r job j. CanRun-insert job.client job.group (r job j)) h.jobs_sound;
    cache_sound = h.cache_sound;
  }

module _ {F C : Type 0} ⦃inv : CacheInvariant C⦄ where
  pub set_client-Grows :
      (c : ℕ) (old new : SchedulerClientData F) (s : Scheduler F C)
      → HashMap.get c s.clients ≡ some old
      → Extends old new
      → Grows s (set_client c new s)
  unfolding set_client
  set_client-Grows c old new s here extends d client h = elim (Bool-cases (nat_beq c d)) [
    | inl same ↦ (
      new,
      rw (HashMap.get-insert c d new s.clients, same),
      subst (λ x. Extends x new) (ground (arith, nat_beq_iff c d)) extends,
    )
    | inr other ↦ (
      client,
      rw (HashMap.get-insert c d new s.clients, other) h,
      record { same_dag = refl; handles = λ f k. k },
    )
  ]

  pub set_client-Stems :
      (c : ℕ) (old new : SchedulerClientData F) (s : Scheduler F C)
      → HashMap.get c s.clients ≡ some old
      → Extends old new
      → Stems s (set_client c new s)
  unfolding set_client
  set_client-Stems c old new s here extends d later h =
      elim (HashMap.get-insert_cases c d new later s.clients h) [
        | inl (same, e) ↦ (
          old,
          subst (λ x. HashMap.get x s.clients ≡ some old) same here,
          subst (Extends old) e extends,
        )
        | inr before ↦ (later, before, Extends-refl later)
      ]

  pub set_client-Keeps :
      (c : ℕ) (old new : SchedulerClientData F) (s : Scheduler F C)
      → HashMap.get c s.clients ≡ some old
      → Extends old new
      → IsClientSound new
      → IsSound s
      → Keeps s (set_client c new s)
  unfolding set_client
  set_client-Keeps c old new s here extends sound h = record {
    sound = Sound-insert s.clients c old new here extends h sound;
    grows = unfold set_client in set_client-Grows c old new s here extends;
    stems = unfold set_client in set_client-Stems c old new s here extends;
  }

  -- A step that leaves the clients, the queue and the workers.
  pub same-Keeps :
      (s t : Scheduler F C)
      → t.clients ≡ s.clients
      → t.ready_execs ≡ s.ready_execs
      → t.connected_workers ≡ s.connected_workers
      → (inv.IsValid s.cache → inv.IsValid t.cache)
      → IsSound s
      → Keeps s t
  same-Keeps s t p q r v h = clients-Keeps s t p (record {
    clients_sound = rw p h.clients_sound;
    ready_sound = rw (p, q) h.ready_sound;
    jobs_sound = rw (p, r) h.jobs_sound;
    cache_sound = v h.cache_sound;
  })

  pub notify-Keeps :
      (c : ℕ) (m : ExecutorMessage F) (s : Scheduler F C) → IsSound s → Keeps s (notify c m s)
  notify-Keeps c m s h =
      same-Keeps s _ (notify-clients c m s) (notify-ready_execs c m s)
        (notify-connected_workers c m s) (λ v. rw (notify-cache c m s) v) h

  pub notify_if-Keeps :
      {s t : Scheduler F C} (b : Bool) (c : ℕ) (m : ExecutorMessage F)
      → Keeps s t
      → Keeps s (if b then notify c m t else t)
  notify_if-Keeps {s} {t} true c m k = Keeps-trans k (notify-Keeps c m t k.sound)
  notify_if-Keeps false c m k = k

  pub send_file-Keeps :
      (c f : ℕ) (b : Bool) (s : Scheduler F C) → IsSound s → Keeps s (send_file c f b s)
  send_file-Keeps c f b s h =
      same-Keeps s _ (send_file-clients c f b s) (send_file-ready_execs c f b s)
        (send_file-connected_workers c f b s) (λ v. rw (send_file-cache c f b s) v) h

module _ {F : Type 0} where
  pub CanRun-insert_self :
      (clients : HashMap ℕ (SchedulerClientData F)) (c g : ℕ) (new : SchedulerClientData F)
      → Executable new g
      → CanRun (HashMap.insert c new clients) c g
  CanRun-insert_self clients c g new run client h =
      subst (λ x. Executable x g)
        (some-injective _ _ (sym (HashMap.get-insert_self c new clients) ∙ h)) run

  pub Sound-cons :
      {clients : HashMap ℕ (SchedulerClientData F)} {ready : List ReadyExec}
      {workers : HashMap ℕ ConnectedWorker} {V : Type 0} (e : ReadyExec)
      → CanRun clients e.client e.group
      → Sound clients ready workers V
      → Sound clients (e ∷ ready) workers V
  Sound-cons e run h = record {
    clients_sound = h.clients_sound;
    ready_sound = (run, h.ready_sound);
    jobs_sound = h.jobs_sound;
    cache_sound = h.cache_sound;
  }

-- A client changes, and one of its groups is put in the queue.
pub push-Keeps :
    {F C : Type 0} ⦃inv : CacheInvariant C⦄ (e : ReadyExec) (old new : SchedulerClientData F)
    (s : Scheduler F C)
    → HashMap.get e.client s.clients ≡ some old
    → Extends old new
    → IsClientSound new
    → Executable new e.group
    → IsSound s
    → Keeps s (set_client e.client new (record s { ready_execs = e ∷ s.ready_execs }))
unfolding set_client
push-Keeps e old new s here extends sound run h = record {
  sound =
      Sound-cons e (CanRun-insert_self s.clients e.client e.group new run)
        (Sound-insert s.clients e.client old new here extends h sound);
  grows = unfold set_client in set_client-Grows e.client old new s here extends;
  stems = unfold set_client in set_client-Stems e.client old new s here extends;
}

-- The heap keeps its entries.
pub All-pop_max {κ} :
    (P : ReadyExec → Type κ) (x : ReadyExec) (xs : List ReadyExec)
    → P x
    → All P xs
    → P (pop_max x xs).0 × All P (pop_max x xs).1
unfolding pop_max
All-pop_max P x [] p ps = (p, tt)
All-pop_max P x (y ∷ ys) p ps = elim (Bool-cases (less x y)) [
  | inl e ↦ let r = All-pop_max P y ys ps.0 ps.1 in rw (e, pop_max) (r.0, (p, r.1))
  | inr e ↦ let r = All-pop_max P x ys p ps.1 in rw (e, pop_max) (r.0, (ps.0, r.1))
]

pub All-pop {κ} :
    (P : ReadyExec → Type κ) (xs rest : List ReadyExec) (e : ReadyExec)
    → pop xs ≡ some (e, rest)
    → All P xs
    → P e × All P rest
unfolding pop
All-pop P [] rest e h ps = cc
All-pop P (x ∷ xs) rest e h ps =
    subst (λ (p : ReadyExec × List ReadyExec). P p.0 × All P p.1) (some-injective _ _ h)
      (All-pop_max P x xs ps.0 ps.1)
