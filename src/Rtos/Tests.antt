-- ===== src/Rtos/Tests.antt =====
-- Runs and witnesses for sched/rtos.c.
use cortex_forge_aarch64_bar.Prelude.{
  ℕ, ◌+◌, ◌≡◌, ◌<◌, inr, refl, List, [], ◌∷◌, none, some, arith, ◌^◌,
}
use cortex_forge_aarch64_bar.Sched.{ready, running, sleeping}
use cortex_forge_aarch64_bar.Rtos.{
  RtTask, Store, wq_insert, insert_behind, propagate, pi_propagate, rt_mutex_init, rt_mutex_lock,
  lock_contended, lock_free, rt_mutex_unlock, hand_over, RtSem, rt_sem_init, rt_sem_wait,
  rt_sem_post, Periodic, rt_tick_release, release_from, release,
}
use cortex_forge_aarch64_bar.Rtos.Queue.{Sorted, Inserted, wq_insert-Inserted}
use cortex_forge_aarch64_bar.Rtos.Inherit.{Inherits, pi_propagate-Inherits}
use cortex_forge_aarch64_bar.Rtos.Mutex.{prio_in, UnlockOutcome, rt_mutex_unlock-UnlockOutcome}
use cortex_forge_aarch64_bar.Rtos.Sem.{
  SemRun, started, waited, posted_to, passes_wait, passes_post, Permits, SemRun-Permits,
}
use cortex_forge_aarch64_bar.Rtos.Release.{Releases, rt_tick_release-Releases}

abbrev task_of : ℕ → RtTask
task_of p = record { priority = p; base_priority = p; state = ready; blocked_on = none }

-- Task i has the priority i. Task 12 holds mutex 0; tasks 20 and 16 come for it.
abbrev at_rest : Store
at_rest = record { tasks = task_of; mutexes = λ m. rt_mutex_init }

abbrev low_holds : Store
low_holds = (rt_mutex_lock 0 12 at_rest).1

abbrev med_waits : Store
med_waits = (rt_mutex_lock 0 16 low_holds).1

abbrev high_waits : Store
high_waits = (rt_mutex_lock 0 20 med_waits).1

inversion_runs :
    ((med_waits.tasks 12).priority ≡ 16)
    × ((high_waits.tasks 12).priority ≡ 20)
    × ((high_waits.mutexes 0).waiters ≡ 20 ∷ 16 ∷ [])
    × (((rt_mutex_unlock 0 12 high_waits).1.tasks 12).priority ≡ 12)
    × (((rt_mutex_unlock 0 12 high_waits).1.mutexes 0).owner ≡ some 20)
unfolding rt_mutex_lock rt_mutex_unlock lock_contended lock_free hand_over pi_propagate propagate
    wq_insert insert_behind
inversion_runs = (refl, refl, refl, refl, refl)

-- Tasks 12 and 14 wait for mutex 1, which task 5 holds, and 12 holds mutex 0. When task 20 blocks on
-- mutex 0, the boost of task 12 leaves it behind task 14 in the queue of mutex 1.
abbrev chained : Store
chained =
    (rt_mutex_lock 0 20
      (rt_mutex_lock 1 12 (rt_mutex_lock 1 14 (rt_mutex_lock 1 5 low_holds).1).1).1).1

unsorted_after_boost :
    ((chained.mutexes 1).waiters ≡ 14 ∷ 12 ∷ [])
    × ((chained.tasks 14).priority ≡ 14)
    × ((chained.tasks 12).priority ≡ 20)
unfolding rt_mutex_lock lock_contended lock_free pi_propagate propagate wq_insert insert_behind
unsorted_after_boost = (refl, refl, refl)

queue-Sorted : Sorted (λ i. i) (20 ∷ 16 ∷ 12 ∷ [])
queue-Sorted = ((omega arith, (omega arith, tt)), ((omega arith, tt), (tt, tt)))

wq_insert-Inserted_example :
    Inserted (λ i. i) 16 (20 ∷ 16 ∷ 12 ∷ []) (wq_insert (λ i. i) 16 (20 ∷ 16 ∷ 12 ∷ []))
wq_insert-Inserted_example = wq_insert-Inserted (λ i. i) 16 (20 ∷ 16 ∷ 12 ∷ []) queue-Sorted

pi_propagate-Inherits_example : Inherits 12 20 med_waits (pi_propagate (some 12) 20 med_waits)
pi_propagate-Inherits_example = pi_propagate-Inherits 12 20 med_waits

two_wait : Sorted (prio_in high_waits) (high_waits.mutexes 0).waiters
unfolding rt_mutex_lock lock_contended lock_free pi_propagate propagate wq_insert insert_behind
two_wait = ((omega arith, tt), (tt, tt))

rt_mutex_unlock-UnlockOutcome_example :
    UnlockOutcome 0 12 high_waits (rt_mutex_unlock 0 12 high_waits)
rt_mutex_unlock-UnlockOutcome_example = rt_mutex_unlock-UnlockOutcome 0 12 high_waits two_wait

-- A wait that takes the only permit, one that blocks, and a post that lets it go on.
abbrev one_permit : RtSem
one_permit = rt_sem_init 1

abbrev taken : RtSem
taken = (rt_sem_wait (λ i. i) 4 one_permit).1

abbrev contended : RtSem
contended = (rt_sem_wait (λ i. i) 5 taken).1

small : contended.count + 1 < 2 ^ 31
unfolding rt_sem_wait
small = omega arith

three_calls :
    SemRun 1
      (rt_sem_post contended).1
      (0
        + passes_wait (rt_sem_wait (λ i. i) 4 one_permit).0
        + passes_wait (rt_sem_wait (λ i. i) 5 taken).0
        + passes_post (rt_sem_post contended).0)
      (0 + 1)
three_calls = posted_to small (waited (λ i. i) 5 (waited (λ i. i) 4 started))

SemRun-Permits_example :
    Permits 1
      (rt_sem_post contended).1
      (0
        + passes_wait (rt_sem_wait (λ i. i) 4 one_permit).0
        + passes_wait (rt_sem_wait (λ i. i) 5 taken).0
        + passes_post (rt_sem_post contended).0)
      (0 + 1)
SemRun-Permits_example = SemRun-Permits three_calls

abbrev two_periodic : List Periodic
two_periodic =
    record {
      rt_state = sleeping;
      rt_period_cyc = 100;
      rt_deadline_cyc = 100;
      rt_next_release = 1000;
      rt_release_cyc = 900;
      rt_wcrt_cyc = 7;
      rt_last_resp_cyc = 5;
      rt_activations = 9;
      rt_deadline_misses = 0;
    }
    ∷ record {
      rt_state = running;
      rt_period_cyc = 30;
      rt_deadline_cyc = 30;
      rt_next_release = 1040;
      rt_release_cyc = 1010;
      rt_wcrt_cyc = 7;
      rt_last_resp_cyc = 5;
      rt_activations = 9;
      rt_deadline_misses = 0;
    }
    ∷ []

tick_runs :
    ((rt_tick_release 1005 two_periodic).0 ≡ 1040) × ((rt_tick_release 1050 two_periodic).0 ≡ 1070)
unfolding rt_tick_release release_from release
tick_runs = (refl, refl)

rt_tick_release-Releases_example :
    Releases 1005 two_periodic
      (rt_tick_release 1005 two_periodic).1
      (rt_tick_release 1005 two_periodic).0
rt_tick_release-Releases_example =
    rt_tick_release-Releases 1005 two_periodic (inr (omega arith), (inr (omega arith), tt))
