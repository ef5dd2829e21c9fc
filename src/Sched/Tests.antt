-- ===== src/Sched/Tests.antt =====
-- Runs and witnesses for sched/sched.c: two kernel tasks beside the idle task.
use cortex_forge_aarch64_bar.Prelude.{◌+◌, ◌<◌, ◌^◌, ◌≡◌, true, false, refl, arith, some}
use cortex_forge_aarch64_bar.Sched.{
  Sched, sched_init, add_task, sched_make_ready, write_ring, sched_create_rt_task, rt_created,
  sched_create_task, sched_fork, sched_set_priority, sched_create_kernel_task, schedule,
  sched_kill_task, sleep_ms, find_pid, kill_found, sched_wake_sleepers, scan_ready, consider,
  choose, switch_to, sched_reap, requeue, bury, task_exit, wake, wake_other,
}
use cortex_forge_aarch64_bar.Sched.Valid.{IsValid}
use cortex_forge_aarch64_bar.Sched.Kill.{KillOutcome, sched_kill_task-KillOutcome}
use cortex_forge_aarch64_bar.Sched.Wake.{Woken, sched_wake_sleepers-Woken}
use cortex_forge_aarch64_bar.Sched.Asid.{AsidOk, sched_asid_alloc-AsidOk}
use cortex_forge_aarch64_bar.Sched.Reach.{
  Reachable, booted, next, created, preempted, slept, readied, created_rt_task, created_task,
  forked, Reachable-IsValid,
}

abbrev two_tasks : Sched
two_tasks = (sched_create_kernel_task true (sched_create_kernel_task true sched_init).1).1

-- Task 1 runs, then sleeps, and task 2 takes over.
abbrev handed_over : Sched
handed_over = sleep_ms 100 25 (schedule two_tasks)

one_left : (sched_create_kernel_task true sched_init).1.next_pid + 1 < 2 ^ 64
unfolding sched_create_kernel_task add_task
one_left = omega arith

handed_over-Reachable : Reachable handed_over
handed_over-Reachable =
    next
      (next
        (next (next booted (created true sched_init (omega arith)))
          (created true (sched_create_kernel_task true sched_init).1 one_left))
        (preempted two_tasks))
      (slept 100 25 (schedule two_tasks))

runs :
    ((schedule two_tasks).current.pid ≡ 1)
    × (handed_over.current.pid ≡ 2)
    × ((schedule (sched_wake_sleepers 102 handed_over)).current.pid ≡ 1)
    × ((schedule (sched_wake_sleepers 101 handed_over)).current.pid ≡ 2)
    × ((sched_kill_task 1 handed_over).0 ≡ true)
    × ((sched_kill_task 2 handed_over).1.current.pid ≡ 0)
    × ((sched_kill_task 3 handed_over).0 ≡ false)
unfolding sched_create_kernel_task add_task schedule sleep_ms sched_wake_sleepers sched_kill_task
    scan_ready consider choose switch_to sched_reap requeue bury task_exit wake wake_other find_pid
    kill_found
runs = (refl, refl, refl, refl, refl, refl, refl)

sched_kill_task-KillOutcome_example : KillOutcome 1 handed_over (sched_kill_task 1 handed_over)
sched_kill_task-KillOutcome_example =
    sched_kill_task-KillOutcome 1 handed_over (Reachable-IsValid handed_over-Reachable)

sched_wake_sleepers-Woken_example : Woken 102 handed_over (sched_wake_sleepers 102 handed_over)
sched_wake_sleepers-Woken_example = sched_wake_sleepers-Woken 102 handed_over

sched_asid_alloc-AsidOk_example : AsidOk 3 65538
sched_asid_alloc-AsidOk_example = sched_asid_alloc-AsidOk 3 65538

-- Task 1 is made ready again, and tasks 3, 4 and 5 are created: one of real time, one of user mode
-- and a child.
abbrev made_ready : Sched
made_ready = sched_make_ready (some 1) handed_over

abbrev with_rt : Sched
with_rt = (sched_create_rt_task true 20 made_ready).1

abbrev crowded : Sched
crowded = (sched_fork true true true true (sched_create_task true true true true with_rt).1).1

crowd_runs :
    ((schedule made_ready).current.pid ≡ 1)
    × ((schedule with_rt).current.pid ≡ 3)
    × ((schedule (sched_set_priority (some 5) 30 crowded)).current.pid ≡ 5)
    × (made_ready.next_pid ≡ 3)
    × (with_rt.next_pid ≡ 4)
    × ((sched_create_task true true true true with_rt).1.next_pid ≡ 5)
unfolding sched_create_kernel_task add_task schedule sleep_ms sched_make_ready write_ring
    sched_create_rt_task rt_created sched_create_task sched_fork sched_set_priority scan_ready
    consider choose switch_to sched_reap requeue bury find_pid
crowd_runs = (refl, refl, refl, refl, refl, refl)

crowded-Reachable : Reachable crowded
crowded-Reachable =
    let (_, _, _, three, four, five) = crowd_runs in
    next
      (next
        (next (next handed_over-Reachable (readied (some 1) handed_over))
          (created_rt_task true 20 made_ready (omega arith)))
        (created_task true true true true with_rt (omega arith)))
      (forked true true true true (sched_create_task true true true true with_rt).1 (omega arith))

Reachable-IsValid_example : IsValid crowded
Reachable-IsValid_example = Reachable-IsValid crowded-Reachable
