-- ===== src/Sched/Kill.antt =====
-- `task_exit` and `sched_kill_task` of sched/sched.c: which task leaves the ring.
use cortex_forge_aarch64_bar.Prelude.{
  ℕ, ◌+◌, ◌≡◌, ◌≢◌, ◌⊎◌, inl, inr, refl, ◌∙◌, ap, List, [], ◌∷◌, ◌++◌, ◌==◌, if◌then◌else◌, arith,
  Option, some, none, Bool, Bool-cases, true, false,
}
use cortex_forge_aarch64_bar.Sched.{
  running, dead, is_dead, Task, Sched, Found, with_state, Choice, stay, switch, find_pid,
  runnable_prev, sched_reap, requeue, bury, switch_to, task_exit, kill_found, sched_kill_task,
}
use cortex_forge_aarch64_bar.Sched.Pick.{All}
use cortex_forge_aarch64_bar.Sched.Occurs.{
  occurs, occurs-append, occurs_cons, occurs_one, occurs_nil, FoundAt, find_pid-FoundAt,
}
use cortex_forge_aarch64_bar.Sched.Schedule.{ChoiceOk, SwitchOk-cut, schedule-Picked}
use cortex_forge_aarch64_bar.Sched.Valid.{
  IsValid, CanSchedule, switch_to-occurs, Waiting, All-behind,
}

-- A change of the current task alone, before `schedule` is called.
pub current-CanSchedule :
    (s : Sched) (t : Task)
    → IsValid s
    → t.pid ≡ s.current.pid
    → (is_dead t.state ≡ true → t.pid ≢ 0)
    → CanSchedule (record s { current = t })
current-CanSchedule s t ok same may =
    let one : (p : ℕ) → occurs p (t ∷ []) ≡ occurs p (s.current ∷ []) =
      λ p. rw (occurs_one p t, occurs_one p s.current, same) refl in
    record {
      idle =
          let a = one 0 in
          let b = occurs_cons 0 t s.others in
          let c = occurs_cons 0 s.current s.others in let d = ok.idle in omega arith;
      distinct = λ p. let a = one p in let b = ok.distinct p in omega arith;
      fresh = λ p le. let a = one p in let b = ok.fresh p le in omega arith;
      waiting = ok.waiting;
      not_idle = may;
    }

-- One task less in the ring, that of the pid.
abbrev pub Removed : ℕ → Sched → Sched → Type 0
Removed pid s s' =
    (q : ℕ)
    → occurs q (s'.current ∷ s'.others) + (if pid == q then 1 else 0)
      ≡ occurs q (s.current ∷ s.others)

bury-dead : (t : Task) (l : List Task) → is_dead t.state ≡ true → bury t l ≡ t ∷ l
unfolding bury
bury-dead t l h = rw h refl

exit_switch-Removed :
    (s : Sched) (f : Found)
    → is_dead s.current.state ≡ true
    → s.others ≡ f.before ++ f.task ∷ f.after
    → Removed s.current.pid s (switch_to (sched_reap s) (switch f))
unfolding switch_to sched_reap
exit_switch-Removed s f d cut q =
    let a = switch_to-occurs s f q cut in
    let b = ap (occurs q) (bury-dead s.current [] d) in
    let c = occurs_one q s.current in
    let e = occurs_cons q s.current s.others in
    let g =
      occurs_cons q (with_state running f.task) (f.after ++ (requeue s.current ++ f.before)) in
    omega arith

exit_choice-Removed :
    (s : Sched) (c : Choice)
    → is_dead s.current.state ≡ true
    → runnable_prev s.current ≡ false
    → s.current.pid ≢ 0
    → ChoiceOk s.current s.others c
    → Removed s.current.pid s (switch_to (sched_reap s) c)
exit_choice-Removed s stay d r ne (inl (r', h)) = absurd (ground arith)
exit_choice-Removed s stay d r ne (inr (r', h, e)) = absurd (ne e)
exit_choice-Removed s (switch f) d r ne why =
    exit_switch-Removed s f d (SwitchOk-cut s.current s.others f why)

pub task_exit-Removed :
    (s : Sched) → IsValid s → s.current.pid ≢ 0 → Removed s.current.pid s (task_exit s)
unfolding task_exit sched_reap
task_exit-Removed s ok ne =
    let s1 : Sched = record s { current = with_state dead s.current } in
    let can = current-CanSchedule s (with_state dead s.current) ok refl (λ e. ne) in
    let (c, done) = schedule-Picked s1 can.idle in
    λ q.
      let a = exit_choice-Removed s1 c refl refl ne done.why q in
      let b = occurs_cons q s.current s.others in
      let e = occurs_cons q (with_state dead s.current) s.others in
      let g = occurs_one q s.current in
      let h = occurs_one q (with_state dead s.current) in rw done.effect (omega arith)

-- What `sched_kill_task` did.
abbrev pub KillOutcome : ℕ → Sched → Bool × Sched → Type 0
KillOutcome pid s (true, s') = Removed pid s s'
KillOutcome pid s (false, s') = (s' ≡ s) × ((pid ≡ 0) ⊎ (occurs pid (s.current ∷ s.others) ≡ 0))

pub cut-Waiting :
    (s : Sched) (f : Found)
    → IsValid s
    → s.others ≡ f.before ++ f.task ∷ f.after
    → is_dead f.task.state ≡ false
cut-Waiting s f ok cut =
    let w : All Waiting (f.before ++ f.task ∷ f.after) = rw (← cut) ok.waiting in
    (All-behind Waiting f.before (f.task ∷ f.after) w).0.1

kill_found-KillOutcome :
    (pid : ℕ) (s : Sched) (o : Option Found)
    → IsValid s
    → (s.current.pid == pid) ≡ false
    → FoundAt pid s.others o
    → KillOutcome pid s (kill_found s o)
unfolding kill_found
kill_found-KillOutcome pid s none ok ne h =
    let a = occurs_cons pid s.current s.others in
    let b : occurs pid (s.current ∷ []) ≡ 0 = rw (occurs_one pid s.current, ne) refl in
    (refl, inr (omega arith))
kill_found-KillOutcome pid s (some f) ok ne (cut, e) = rw (cut-Waiting s f ok cut) λ q.
    let a = occurs_cons q s.current s.others in
    let b = occurs_cons q s.current (f.before ++ f.after) in
    let c = ap (occurs q) cut ∙ occurs-append q f.before (f.task ∷ f.after) in
    let d = occurs-append q f.before f.after in
    let g = occurs_cons q f.task f.after in
    let h : occurs q (f.task ∷ []) ≡ (if pid == q then 1 else 0) = rw (← e) (occurs_one q f.task) in
    omega arith

-- `sched_kill_task` takes the task of the pid out of the ring and no other; it refuses, without a
-- change, just the idle task and a pid that is not in the ring. The state is valid.
pub sched_kill_task-KillOutcome :
    (pid : ℕ) (s : Sched) → IsValid s → KillOutcome pid s (sched_kill_task pid s)
unfolding sched_kill_task
sched_kill_task-KillOutcome pid s ok = elim (Bool-cases (pid == 0)) [
  | inl z ↦ rw z (refl, inl (ground arith))
  | inr nz ↦ elim (Bool-cases (s.current.pid == pid)) [
    | inl self ↦
        let same : s.current.pid ≡ pid = ground arith in
        rw (nz, self, ok.alive) (rw (← same) (task_exit-Removed s ok (λ z. ground arith)))
    | inr other ↦
        rw (nz, other)
          (kill_found-KillOutcome pid s (find_pid pid s.others []) ok other
            (find_pid-FoundAt s.others [] pid (occurs_nil pid)))
  ]
]
