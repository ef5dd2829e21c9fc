-- ===== src/Rtos/Mutex.antt =====
-- `rt_mutex_lock` and `rt_mutex_unlock` of sched/rtos.c: who owns a mutex, who waits, and at which
-- priority the owner runs.
use cortex_forge_aarch64_bar.Prelude.{
  ℕ, ◌≡◌, ◌≤◌, ◌⊎◌, inl, inr, refl, ◌∙◌, ap, List, [], ◌∷◌, ◌==◌, arith, ==_refl, Bool, Bool-cases,
  true, false, some, none,
}
use cortex_forge_aarch64_bar.Sched.{State, ready, blocked}
use cortex_forge_aarch64_bar.Rtos.{
  RtTask, RtMutex, Store, put, put_task, put_mutex, wq_insert, pi_propagate, rt_mutex_init,
  hand_over, rt_mutex_unlock,
}
use cortex_forge_aarch64_bar.Rtos.Queue.{Each, Sorted, Inserted}

abbrev pub prio_in : Store → ℕ → ℕ
prio_in s i = (s.tasks i).priority

-- Free, with nobody waiting, or locked, with an owner.
abbrev pub MutexOk : RtMutex → Type 0
MutexOk x =
    ((x.locked ≡ false) × (x.owner ≡ none) × (x.waiters ≡ []))
    ⊎ ((x.locked ≡ true) × ((o : ℕ) × (x.owner ≡ some o)))

-- The caller got the mutex, which was free.
pub record Acquired (m me : ℕ) (s s' : Store) : Type 0 where
  pub was_free : (s.mutexes m).locked ≡ false
  pub owned : s'.mutexes m ≡ record { owner = some me; waiters = []; locked = true }
  pub same_tasks : s'.tasks ≡ s.tasks

-- The caller waits at its place in the queue; the owner stays, and runs at its priority or above.
pub record Blocked (m me : ℕ) (s s' : Store) : Type 0 where
  pub holder : ℕ
  pub was_held : (s.mutexes m).owner ≡ some holder
  pub still_held : ((s'.mutexes m).locked ≡ true) × ((s'.mutexes m).owner ≡ some holder)
  pub queued : Inserted (prio_in s) me (s.mutexes m).waiters (s'.mutexes m).waiters
  pub waits : ((s'.tasks me).state ≡ blocked) × ((s'.tasks me).blocked_on ≡ some m)
  pub inherits : prio_in s me ≤ prio_in s' holder
  pub none_lowered : (i : ℕ) → prio_in s i ≤ prio_in s' i

abbrev pub LockOutcome : ℕ → ℕ → Store → Bool × Store → Type 0
LockOutcome m me s (false, s') = Acquired m me s s'
LockOutcome m me s (true, s') = Blocked m me s s'

keeps_priority-state :
    (f : ℕ → RtTask) (me i : ℕ) (st : State)
    → (put me (record (f me) { state = st }) f i).priority ≡ (f i).priority
keeps_priority-state f me i st = elim (Bool-cases (me == i)) [
  | inl same ↦ let e : me ≡ i = ground arith in rw (← e, ==_refl me) refl
  | inr other ↦ rw other refl
]

module _ (m me : ℕ) (s : Store) where
  abbrev queue_of : List ℕ
  queue_of = wq_insert (prio_in s) me (s.mutexes m).waiters

  abbrev queued_in : Store
  queued_in =
      put_mutex m (record (s.mutexes m) { waiters = queue_of })
        (put_task me (record (s.tasks me) { blocked_on = some m }) s)

  abbrev raised_in : Store
  raised_in = pi_propagate (s.mutexes m).owner (prio_in s me) queued_in

  abbrev blocked_in : Store
  blocked_in = put_task me (record (raised_in.tasks me) { state = blocked }) raised_in

-- The mutex is free again.
pub record Released (m me : ℕ) (s s' : Store) : Type 0 where
  pub nobody_waited : (s.mutexes m).waiters ≡ []
  pub free : s'.mutexes m ≡ rt_mutex_init
  pub back_to_base : prio_in s' me ≡ (s.tasks me).base_priority

-- The first waiter, which has the highest priority, owns it.
pub record Handed (m me : ℕ) (s s' : Store) : Type 0 where
  pub heir : ℕ
  pub rest : List ℕ
  pub waited : (s.mutexes m).waiters ≡ heir ∷ rest
  pub owned : s'.mutexes m ≡ record (s.mutexes m) { owner = some heir; waiters = rest }
  pub wakes : (s'.tasks heir).state ≡ ready
  pub highest : Each (λ x. prio_in s x ≤ prio_in s heir) rest
  pub back_to_base : prio_in s' me ≡ (s.tasks me).base_priority

abbrev pub UnlockOutcome : ℕ → ℕ → Store → Bool × Store → Type 0
UnlockOutcome m me s (false, s') = Released m me s s'
UnlockOutcome m me s (true, s') = Handed m me s s'

abbrev restored : ℕ → Store → Store
restored me s = put_task me (record (s.tasks me) { priority = (s.tasks me).base_priority }) s

restored-priority : (me : ℕ) (s : Store) → prio_in (restored me s) me ≡ (s.tasks me).base_priority
restored-priority me s =
    let own : (restored me s).tasks me
        ≡ record (s.tasks me) { priority = (s.tasks me).base_priority } =
      rw (==_refl me) refl in
    ap (λ t. t.priority) own

hand_over-UnlockOutcome :
    (m me : ℕ) (s : Store) (q : List ℕ)
    → (s.mutexes m).waiters ≡ q
    → Sorted (prio_in s) q
    → UnlockOutcome m me s (hand_over m (s.mutexes m) q (restored me s))
unfolding hand_over
hand_over-UnlockOutcome m me s [] e sorted = record {
  nobody_waited = e;
  free = rw (==_refl m, e) refl;
  back_to_base = restored-priority me s;
}
hand_over-UnlockOutcome m me s (w ∷ rest) e (top, sorted) = record {
  heir = w;
  rest = rest;
  waited = e;
  owned = rw (==_refl m) refl;
  wakes = rw (==_refl w) refl;
  highest = top;
  back_to_base = keeps_priority-state (restored me s).tasks w me ready ∙ restored-priority me s;
}

-- `rt_mutex_unlock` takes the caller back to its base priority and either frees the mutex, when
-- nobody waits, or makes the waiter of the highest priority its owner and ready. The queue is sorted.
pub rt_mutex_unlock-UnlockOutcome :
    (m me : ℕ) (s : Store)
    → Sorted (prio_in s) (s.mutexes m).waiters
    → UnlockOutcome m me s (rt_mutex_unlock m me s)
unfolding rt_mutex_unlock
rt_mutex_unlock-UnlockOutcome m me s sorted =
    hand_over-UnlockOutcome m me s (s.mutexes m).waiters refl sorted
