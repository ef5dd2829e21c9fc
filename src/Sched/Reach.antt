-- ===== src/Sched/Reach.antt =====
-- The runs of the scheduler of sched/sched.c: every state that its calls can reach from
-- `sched_init` is valid.
use cortex_forge_aarch64_bar.Prelude.{
  ℕ, ◌+◌, ◌/◌, ◌%◌, ◌^◌, ◌≡◌, ◌≢◌, ◌<◌, inl, inr, refl, ◌∙◌, ap, [], ◌∷◌, ◌++◌, map, ◌==◌,
  if◌then◌else◌, arith, Option, some, none, Bool, Bool-cases, false,
}
use cortex_forge_aarch64_bar.Sched.{
  sleeping, dead, blocked, is_dead, Task, Sched, Found, with_state, find_pid, wake, wake_other,
  sched_reap, schedule, task_exit, sched_block_current, sleep_ms, sched_wake_sleepers, kill_found,
  sched_kill_task, sched_create_kernel_task, sched_create_task, sched_create_rt_task, sched_fork,
  sched_make_ready, sched_set_priority, sched_init,
}
use cortex_forge_aarch64_bar.Sched.Pick.{All, All-append}
use cortex_forge_aarch64_bar.Sched.Occurs.{
  occurs, occurs-append, occurs-map, occurs_cons, occurs_one, occurs_nil, FoundAt, find_pid-FoundAt,
}
use cortex_forge_aarch64_bar.Sched.Valid.{
  IsValid, schedule-IsValid, Waiting, All-before, All-behind,
}
use cortex_forge_aarch64_bar.Sched.Create.{
  sched_create_kernel_task-IsValid, sched_create_task-IsValid, sched_fork-IsValid,
}
use cortex_forge_aarch64_bar.Sched.Priority.{
  All-map, sched_make_ready-IsValid, sched_set_priority-IsValid, sched_create_rt_task-IsValid,
}
use cortex_forge_aarch64_bar.Sched.Kill.{current-CanSchedule, cut-Waiting}

-- One call of the scheduler's interface, or the wake-up of the sleepers by the timer. `preempted` is
-- `schedule` itself, which `yield` and the handler of the timer call. A call is taken as a whole:
-- no tick of the timer comes inside it.
pub data Step : Sched → Sched → Type 0 where
  preempted : (s : Sched) → Step s (schedule s)
  exited : (s : Sched) → s.current.pid ≢ 0 → Step s (task_exit s)
  gave_way : (s : Sched) → Step s (sched_block_current s)
  slept : (now ms : ℕ) (s : Sched) → Step s (sleep_ms now ms s)
  ticked : (now : ℕ) (s : Sched) → Step s (sched_wake_sleepers now s)
  killed : (pid : ℕ) (s : Sched) → Step s (sched_kill_task pid s).1
  created :
      (has_memory : Bool) (s : Sched)
      → s.next_pid + 1 < 2 ^ 64
      → Step s (sched_create_kernel_task has_memory s).1
  created_task :
      (has_memory has_tables in_text has_stack : Bool) (s : Sched)
      → s.next_pid + 1 < 2 ^ 64
      → Step s (sched_create_task has_memory has_tables in_text has_stack s).1
  created_rt_task :
      (has_memory : Bool) (prio : ℕ) (s : Sched)
      → s.next_pid + 1 < 2 ^ 64
      → Step s (sched_create_rt_task has_memory prio s).1
  forked :
      (has_parent has_memory has_tables has_stack : Bool) (s : Sched)
      → s.next_pid + 1 < 2 ^ 64
      → Step s (sched_fork has_parent has_memory has_tables has_stack s).1
  readied : (task : Option ℕ) (s : Sched) → Step s (sched_make_ready task s)
  ranked : (task : Option ℕ) (prio : ℕ) (s : Sched) → Step s (sched_set_priority task prio s)
  cleaned : (s : Sched) → Step s (sched_reap s)

-- The states that calls lead to from boot on.
pub data Reachable : Sched → Type 0 where
  booted : Reachable sched_init
  next : {s s' : Sched} → Reachable s → Step s s' → Reachable s'

task_exit-IsValid : (s : Sched) → IsValid s → s.current.pid ≢ 0 → IsValid (task_exit s)
unfolding task_exit
task_exit-IsValid s ok ne =
    schedule-IsValid (record s { current = with_state dead s.current })
      (current-CanSchedule s (with_state dead s.current) ok refl (λ e. ne))

sched_block_current-IsValid : (s : Sched) → IsValid s → IsValid (sched_block_current s)
unfolding sched_block_current
sched_block_current-IsValid s ok =
    schedule-IsValid (record s { current = with_state blocked s.current })
      (current-CanSchedule s (with_state blocked s.current) ok refl (λ e. absurd (ground arith)))

pub schedule-IsValid_of_alive : (s : Sched) → IsValid s → IsValid (schedule s)
schedule-IsValid_of_alive s ok =
    schedule-IsValid s
      (current-CanSchedule s s.current ok refl (λ e. let a = ok.alive in absurd (ground arith)))

sleep_ms-IsValid : (now ms : ℕ) (s : Sched) → IsValid s → IsValid (sleep_ms now ms s)
unfolding sleep_ms
sleep_ms-IsValid now ms s ok =
    let ticks = if ms / 10 == 0 then 1 else ms / 10 in
    let t : Task = record (s.current) { sleep_until = (now + ticks) % 2 ^ 64; state = sleeping } in
    schedule-IsValid (record s { current = t })
      (current-CanSchedule s t ok refl (λ e. absurd (ground arith)))

wake_other-pid : (now : ℕ) (t : Task) → (wake_other now t).pid ≡ t.pid
unfolding wake_other wake
wake_other-pid now t = ground arith

wake_other-Waiting : (now : ℕ) (t : Task) → Waiting t → Waiting (wake_other now t)
unfolding wake_other wake
wake_other-Waiting now t w = ground arith

wake_other-alive :
    (now : ℕ) (t : Task) → is_dead t.state ≡ false → is_dead (wake_other now t).state ≡ false
unfolding wake_other wake
wake_other-alive now t w = ground arith

sched_wake_sleepers-IsValid :
    (now : ℕ) (s : Sched) → IsValid s → IsValid (sched_wake_sleepers now s)
unfolding sched_wake_sleepers
sched_wake_sleepers-IsValid now s ok =
    let one : (p : ℕ) → occurs p (wake_other now s.current ∷ []) ≡ occurs p (s.current ∷ []) = λ p.
      rw
        (
          occurs_one p s.current,
          occurs_one p (wake_other now s.current),
          wake_other-pid now s.current,
        )
        refl in
    let rest = λ (p : ℕ). occurs-map p (wake_other now) s.others (wake_other-pid now) in
    record {
      idle =
          let a = one 0 in
          let b = rest 0 in
          let c = occurs_cons 0 s.current s.others in
          let d = occurs_cons 0 (wake_other now s.current) (map (wake_other now) s.others) in
          let e = ok.idle in omega arith;
      distinct = λ p. let a = one p in let b = rest p in let c = ok.distinct p in omega arith;
      fresh = λ p le. let a = one p in let b = rest p in let c = ok.fresh p le in omega arith;
      waiting = All-map Waiting (wake_other now) s.others (wake_other-Waiting now) ok.waiting;
      buried = ok.buried;
      alive = wake_other-alive now s.current ok.alive;
    }

sched_reap-IsValid : (s : Sched) → IsValid s → IsValid (sched_reap s)
unfolding sched_reap
sched_reap-IsValid s ok = record {
  idle = ok.idle;
  distinct = λ p.
      let a = occurs-append p s.reaped s.dead_list in
      let b = ok.distinct p in omega (arith, occurs_nil p);
  fresh = λ p le.
      let a = occurs-append p s.reaped s.dead_list in
      let b = ok.fresh p le in omega (arith, occurs_nil p);
  waiting = ok.waiting;
  buried = tt;
  alive = ok.alive;
}

kill_found-IsValid :
    (pid : ℕ) (s : Sched) (o : Option Found)
    → IsValid s
    → (pid == 0) ≡ false
    → FoundAt pid s.others o
    → IsValid (kill_found s o).1
unfolding kill_found
kill_found-IsValid pid s none ok nz h = ok
kill_found-IsValid pid s (some f) ok nz (cut, e) =
    let waiting : All Waiting (f.before ++ f.task ∷ f.after) = rw (← cut) ok.waiting in
    let count : (q : ℕ)
        → occurs q s.others ≡ occurs q (f.before ++ f.after) + occurs q (f.task ∷ []) =
      λ q.
        let a = ap (occurs q) cut ∙ occurs-append q f.before (f.task ∷ f.after) in
        let b = occurs-append q f.before f.after in
        let c = occurs_cons q f.task f.after in omega arith in
    let grave : (q : ℕ)
        → occurs q (with_state dead f.task ∷ s.dead_list)
          ≡ occurs q (f.task ∷ []) + occurs q s.dead_list =
      λ q.
        rw
          (
            occurs_cons q (with_state dead f.task) s.dead_list,
            occurs_one q f.task,
            occurs_one q (with_state dead f.task),
          )
          refl in
    rw (cut-Waiting s f ok cut) (record {
      idle =
          let a = count 0 in
          let b = occurs_cons 0 s.current s.others in
          let c = occurs_cons 0 s.current (f.before ++ f.after) in
          let d : occurs 0 (f.task ∷ []) ≡ 0 = rw (occurs_one 0 f.task, e, nz) refl in
          let i = ok.idle in omega arith;
      distinct = λ q. let a = count q in let b = grave q in let c = ok.distinct q in omega arith;
      fresh = λ q le. let a = count q in let b = grave q in let c = ok.fresh q le in omega arith;
      waiting =
          All-append Waiting f.before f.after
            (All-before Waiting f.before (f.task ∷ f.after) waiting)
            (All-behind Waiting f.before (f.task ∷ f.after) waiting).1;
      buried = (refl, ok.buried);
      alive = ok.alive;
    })

sched_kill_task-IsValid : (pid : ℕ) (s : Sched) → IsValid s → IsValid (sched_kill_task pid s).1
unfolding sched_kill_task
sched_kill_task-IsValid pid s ok = elim (Bool-cases (pid == 0)) [
  | inl z ↦ rw z ok
  | inr nz ↦ elim (Bool-cases (s.current.pid == pid)) [
    | inl self ↦ rw (nz, self, ok.alive) (task_exit-IsValid s ok (λ z. ground arith))
    | inr other ↦
        rw (nz, other)
          (kill_found-IsValid pid s (find_pid pid s.others []) ok nz
            (find_pid-FoundAt s.others [] pid (occurs_nil pid)))
  ]
]

Step-IsValid : {s s' : Sched} → Step s s' → IsValid s → IsValid s'
Step-IsValid (preempted s) ok = schedule-IsValid_of_alive s ok
Step-IsValid (exited s ne) ok = task_exit-IsValid s ok ne
Step-IsValid (gave_way s) ok = sched_block_current-IsValid s ok
Step-IsValid (slept now ms s) ok = sleep_ms-IsValid now ms s ok
Step-IsValid (ticked now s) ok = sched_wake_sleepers-IsValid now s ok
Step-IsValid (killed pid s) ok = sched_kill_task-IsValid pid s ok
Step-IsValid (created has_memory s lt) ok = sched_create_kernel_task-IsValid has_memory s ok lt
Step-IsValid (created_task has_memory has_tables in_text has_stack s lt) ok =
    sched_create_task-IsValid has_memory has_tables in_text has_stack s ok lt
Step-IsValid (created_rt_task has_memory prio s lt) ok =
    sched_create_rt_task-IsValid has_memory prio s ok lt
Step-IsValid (forked has_parent has_memory has_tables has_stack s lt) ok =
    sched_fork-IsValid has_parent has_memory has_tables has_stack s ok lt
Step-IsValid (readied task s) ok = sched_make_ready-IsValid task s ok
Step-IsValid (ranked task prio s) ok = sched_set_priority-IsValid task prio s ok
Step-IsValid (cleaned s) ok = sched_reap-IsValid s ok

sched_init-IsValid : IsValid sched_init
unfolding occurs
sched_init-IsValid = record {
  idle = refl;
  distinct = λ p. ground arith;
  fresh = λ p le. ground arith;
  waiting = tt;
  buried = tt;
  alive = refl;
}

-- In every state that the calls of sched.h which change the scheduler's state reach from boot on, the
-- idle task is in the ring, a pid stands for one task in one place (current, ring, list of the dead,
-- or reaped, so that nothing is given back twice or given back while it is in the ring), no task of
-- the ring but the current one is running, and none is dead. A call is taken as a whole, with no
-- tick of the timer inside it, which the code does not ensure for every call. The idle task does not
-- exit, and fewer than 2^64 tasks are created.
pub Reachable-IsValid : {s : Sched} → Reachable s → IsValid s
Reachable-IsValid booted = sched_init-IsValid
Reachable-IsValid (next r st) = Step-IsValid st (Reachable-IsValid r)
