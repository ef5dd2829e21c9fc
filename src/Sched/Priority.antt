-- ===== src/Sched/Priority.antt =====
-- Writes to the tasks of the ring in sched/sched.c: `sched_make_ready`, `sched_set_priority` and
-- `sched_create_rt_task` keep the invariant.
use cortex_forge_aarch64_bar.Prelude.{
  ℕ, ◌+◌, ◌%◌, ◌^◌, ◌≡◌, ◌<◌, inl, inr, refl, List, [], ◌∷◌, map, ◌==◌, leb, arith, Option, some,
  none, Bool, Bool-cases, false,
}
use cortex_forge_aarch64_bar.Sched.{
  is_dead, Task, Sched, at_pid, write_ring, make_ready, sched_make_ready, sched_set_priority,
  rt_created, sched_create_kernel_task, sched_create_rt_task,
}
use cortex_forge_aarch64_bar.Sched.Pick.{All}
use cortex_forge_aarch64_bar.Sched.Occurs.{occurs, occurs-map, occurs_cons, occurs_one}
use cortex_forge_aarch64_bar.Sched.Valid.{IsValid, Waiting, Buried}
use cortex_forge_aarch64_bar.Sched.Create.{sched_create_kernel_task-IsValid}

pub All-map :
    (P : Task → Type 0) (f : Task → Task) (ts : List Task)
    → ((t : Task) → P t → P (f t))
    → All P ts
    → All P (map f ts)
All-map P f [] keep h = tt
All-map P f (t ∷ ts) keep (p, ps) = (keep t p, All-map P f ts keep ps)

-- A write that keeps the pid, brings no task to life or death, and makes none running.
record Harmless (change : Task → Task) : Type 0 where
  same_pid : (t : Task) → (change t).pid ≡ t.pid
  waits : (t : Task) → Waiting t → Waiting (change t)
  lives : (t : Task) → is_dead t.state ≡ false → is_dead (change t).state ≡ false

at_pid-pid :
    (pid : ℕ) (change : Task → Task) (t : Task)
    → (change t).pid ≡ t.pid
    → (at_pid pid change t).pid ≡ t.pid
at_pid-pid pid change t same = elim (Bool-cases (t.pid == pid)) [
  | inl e ↦ rw e same
  | inr e ↦ rw e refl
]

at_pid_keeps :
    (P : Task → Type 0) (pid : ℕ) (change : Task → Task) (t : Task)
    → (P t → P (change t))
    → P t
    → P (at_pid pid change t)
at_pid_keeps P pid change t keep h = elim (Bool-cases (t.pid == pid)) [
  | inl e ↦ rw e (keep h)
  | inr e ↦ rw e h
]

at_pid-occurs_one :
    (p pid : ℕ) (change : Task → Task) (t : Task)
    → (change t).pid ≡ t.pid
    → occurs p (at_pid pid change t ∷ []) ≡ occurs p (t ∷ [])
at_pid-occurs_one p pid change t same =
    let e = at_pid-pid pid change t same in
    rw (occurs_one p t, occurs_one p (at_pid pid change t), e) refl

write_ring-IsValid :
    (pid : ℕ) (change : Task → Task) (s : Sched)
    → Harmless change
    → IsValid s
    → IsValid (write_ring pid change s)
unfolding write_ring
write_ring-IsValid pid change s h ok =
    let f = at_pid pid change in
    let one = λ (p : ℕ). at_pid-occurs_one p pid change s.current (h.same_pid s.current) in
    let rest = λ (p : ℕ). occurs-map p f s.others (λ t. at_pid-pid pid change t (h.same_pid t)) in
    record {
      idle =
          let a = one 0 in
          let b = rest 0 in
          let c = occurs_cons 0 s.current s.others in
          let d = occurs_cons 0 (f s.current) (map f s.others) in let e = ok.idle in omega arith;
      distinct = λ p. let a = one p in let b = rest p in let c = ok.distinct p in omega arith;
      fresh = λ p le. let a = one p in let b = rest p in let c = ok.fresh p le in omega arith;
      waiting =
          All-map Waiting f s.others (λ t. at_pid_keeps Waiting pid change t (h.waits t))
            ok.waiting;
      buried = ok.buried;
      alive =
          at_pid_keeps (λ t. is_dead t.state ≡ false) pid change s.current (h.lives s.current)
            ok.alive;
    }

make_ready-Harmless : Harmless make_ready
make_ready-Harmless = record {
  same_pid = λ t. ground arith;
  waits = λ t w. ground arith;
  lives = λ t e. ground arith;
}

pub sched_make_ready-IsValid :
    (task : Option ℕ) (s : Sched) → IsValid s → IsValid (sched_make_ready task s)
unfolding sched_make_ready
sched_make_ready-IsValid none s ok = ok
sched_make_ready-IsValid (some pid) s ok =
    write_ring-IsValid pid make_ready s make_ready-Harmless ok

-- A write to the list of the dead that keeps pids and states.
dead_list-IsValid :
    (f : Task → Task) (s : Sched)
    → ((t : Task) → (f t).pid ≡ t.pid)
    → ((t : Task) → Buried t → Buried (f t))
    → IsValid s
    → IsValid (record s { dead_list = map f s.dead_list })
dead_list-IsValid f s same dead ok =
    let rest = λ (p : ℕ). occurs-map p f s.dead_list same in
    record {
      idle = ok.idle;
      distinct = λ p. let a = rest p in let b = ok.distinct p in omega arith;
      fresh = λ p le. let a = rest p in let b = ok.fresh p le in omega arith;
      waiting = ok.waiting;
      buried = All-map Buried f s.dead_list dead ok.buried;
      alive = ok.alive;
    }

pub sched_set_priority-IsValid :
    (task : Option ℕ) (prio : ℕ) (s : Sched) → IsValid s → IsValid (sched_set_priority task prio s)
unfolding sched_set_priority write_ring
sched_set_priority-IsValid none prio s ok = ok
sched_set_priority-IsValid (some pid) prio s ok =
    let change = λ (t : Task). record t { priority = prio } in
    let harmless : Harmless change = record {
      same_pid = λ t. refl;
      waits = λ t w. w;
      lives = λ t e. e;
    } in
    dead_list-IsValid (at_pid pid change) (write_ring pid change s)
      (λ t. at_pid-pid pid change t refl) (λ t d. at_pid_keeps Buried pid change t (λ e. e) d)
      (write_ring-IsValid pid change s harmless ok)

rt_created-IsValid :
    (prio : ℕ) (out : Option ℕ × Sched) → IsValid out.1 → IsValid (rt_created prio out).1
unfolding rt_created
rt_created-IsValid prio (none, s) ok = ok
rt_created-IsValid prio (some pid, s) ok = elim (Bool-cases (leb (2 ^ 31) (pid % 2 ^ 32))) [
  | inl negative ↦ rw negative ok
  | inr fine ↦
      let change = λ (t : Task). record t { priority = prio; base_priority = prio } in
      rw fine (
        write_ring-IsValid (pid % 2 ^ 32) change s
          (record { same_pid = λ t. refl; waits = λ t w. w; lives = λ t e. e }) ok)
]

pub sched_create_rt_task-IsValid :
    (has_memory : Bool) (prio : ℕ) (s : Sched)
    → IsValid s
    → s.next_pid + 1 < 2 ^ 64
    → IsValid (sched_create_rt_task has_memory prio s).1
unfolding sched_create_rt_task
sched_create_rt_task-IsValid has_memory prio s ok lt =
    rt_created-IsValid prio (sched_create_kernel_task has_memory s)
      (sched_create_kernel_task-IsValid has_memory s ok lt)
