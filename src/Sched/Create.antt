-- ===== src/Sched/Create.antt =====
-- The calls of sched/sched.c that create a task: they keep the invariant.
use cortex_forge_aarch64_bar.Prelude.{
  ℕ, ◌+◌, ◌%◌, ◌^◌, ◌≡◌, ◌<◌, inl, inr, refl, [], ◌∷◌, ◌++◌, ◌==◌, if◌then◌else◌, arith, Bool,
  Bool-cases, true, false,
}
use cortex_forge_aarch64_bar.Sched.{
  ready, Task, Sched, prio_default, add_task, sched_create_kernel_task, sched_create_task,
  sched_fork,
}
use cortex_forge_aarch64_bar.Sched.Pick.{All-append}
use cortex_forge_aarch64_bar.Sched.Occurs.{occurs, occurs-append, occurs_cons, occurs_one}
use cortex_forge_aarch64_bar.Sched.Valid.{IsValid, Waiting}

add_task-IsValid : (s : Sched) → IsValid s → s.next_pid + 1 < 2 ^ 64 → IsValid (add_task s).1
unfolding add_task
add_task-IsValid s ok lt =
    let t : Task = record {
      pid = s.next_pid;
      state = ready;
      sleep_until = 0;
      priority = prio_default;
      base_priority = prio_default;
      rt_period_cyc = 0;
    } in
    let count : (q : ℕ)
        → occurs q (s.others ++ t ∷ []) ≡ occurs q s.others + (if s.next_pid == q then 1 else 0) =
      λ q. let a = occurs-append q s.others (t ∷ []) in let b = occurs_one q t in omega arith in
    let wrap : (s.next_pid + 1) % 2 ^ 64 ≡ s.next_pid + 1 = omega arith in
    record {
      idle =
          let a = count 0 in
          let b = occurs_cons 0 s.current s.others in
          let c = occurs_cons 0 s.current (s.others ++ t ∷ []) in
          let i = ok.idle in
          elim (Bool-cases (s.next_pid == 0)) [
            | inl same ↦ let f = ok.fresh 0 (ground arith) in absurd (omega arith)
            | inr differ ↦ ground arith
          ];
      distinct = λ q. elim (Bool-cases (s.next_pid == q)) [
        | inl same ↦ let a = count q in let f = ok.fresh q (ground arith) in ground arith
        | inr differ ↦ let a = count q in let f = ok.distinct q in ground arith
      ];
      fresh = λ q le. let a = count q in let f = ok.fresh q (omega arith) in ground arith;
      waiting = All-append Waiting s.others (t ∷ []) ok.waiting ((refl, refl), tt);
      buried = ok.buried;
      alive = ok.alive;
    }

pub sched_create_kernel_task-IsValid :
    (has_memory : Bool) (s : Sched)
    → IsValid s
    → s.next_pid + 1 < 2 ^ 64
    → IsValid (sched_create_kernel_task has_memory s).1
unfolding sched_create_kernel_task
sched_create_kernel_task-IsValid false s ok lt = ok
sched_create_kernel_task-IsValid true s ok lt = add_task-IsValid s ok lt

pub sched_create_task-IsValid :
    (has_memory has_tables in_text has_stack : Bool) (s : Sched)
    → IsValid s
    → s.next_pid + 1 < 2 ^ 64
    → IsValid (sched_create_task has_memory has_tables in_text has_stack s).1
unfolding sched_create_task
sched_create_task-IsValid false _ _ _ s ok lt = ok
sched_create_task-IsValid true false _ _ s ok lt = ok
sched_create_task-IsValid true true false _ s ok lt = ok
sched_create_task-IsValid true true true false s ok lt = ok
sched_create_task-IsValid true true true true s ok lt = add_task-IsValid s ok lt

pub sched_fork-IsValid :
    (has_parent has_memory has_tables has_stack : Bool) (s : Sched)
    → IsValid s
    → s.next_pid + 1 < 2 ^ 64
    → IsValid (sched_fork has_parent has_memory has_tables has_stack s).1
unfolding sched_fork
sched_fork-IsValid false _ _ _ s ok lt = ok
sched_fork-IsValid true false _ _ s ok lt = ok
sched_fork-IsValid true true false _ s ok lt = ok
sched_fork-IsValid true true true false s ok lt = ok
sched_fork-IsValid true true true true s ok lt = add_task-IsValid s ok lt
