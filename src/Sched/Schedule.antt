-- ===== src/Sched/Schedule.antt =====
-- `schedule` of sched/sched.c as a whole: what it does with the task that it picks.
use cortex_forge_aarch64_bar.Prelude.{
  ◌≡◌, ◌≢◌, ◌≤◌, ◌⊎◌, inl, inr, refl, List, [], ◌∷◌, ◌++◌, ◌==◌, ltb, ltb→lt, arith, Option, some,
  none, Bool-cases, true, false,
}
use cortex_forge_aarch64_bar.Sched.{
  ready, running, dead, Task, Sched, Found, scan_ready, find_pid, Choice, stay, switch, to_idle,
  runnable_prev, choose, sched_reap, switch_to, schedule,
}
use cortex_forge_aarch64_bar.Sched.Pick.{
  All, NotReady, Below, BestOf, Scanned, scan_ready-Scanned, NotReady-Below, BestOf-Below,
}
use cortex_forge_aarch64_bar.Sched.Occurs.{occurs, FoundAt, find_pid-FoundAt}

-- The current task and the others hold the idle task.
abbrev pub HasIdle : Task → List Task → Type 0
HasIdle prev others = occurs 0 (prev ∷ others) ≡ 1

-- Why `prev` goes on: it outranks all candidates, or it is the idle task and there is none.
abbrev pub StayOk : Task → List Task → Type 0
StayOk prev others =
    ((runnable_prev prev ≡ true) × All (Below prev.priority) others)
    ⊎ ((runnable_prev prev ≡ false) × All NotReady others × (prev.pid ≡ 0))

-- Why another task is next: it is the best, or it is the idle task and there is no candidate.
abbrev pub SwitchOk : Task → List Task → Found → Type 0
SwitchOk prev others f =
    (BestOf others f × (runnable_prev prev ≡ true → prev.priority ≤ f.task.priority))
    ⊎ ((runnable_prev prev ≡ false)
        × All NotReady others
        × (others ≡ f.before ++ f.task ∷ f.after)
        × (f.task.pid ≡ 0))

abbrev pub ChoiceOk : Task → List Task → Choice → Type 0
ChoiceOk prev others stay = StayOk prev others
ChoiceOk prev others (switch f) = SwitchOk prev others f

to_idle-ChoiceOk :
    (prev : Task) (others : List Task) (o : Option Found)
    → HasIdle prev others
    → runnable_prev prev ≡ false
    → (prev.pid == 0) ≡ false
    → All NotReady others
    → FoundAt 0 others o
    → ChoiceOk prev others (to_idle o)
unfolding occurs
to_idle-ChoiceOk prev others none idle r e nr h = absurd (ground arith)
to_idle-ChoiceOk prev others (some f) idle r e nr (cut, zero_pid) = inr (r, nr, cut, zero_pid)

pub choose-ChoiceOk :
    (prev : Task) (others : List Task) (best : Option Found)
    → HasIdle prev others
    → Scanned others best
    → ChoiceOk prev others (choose prev others best)
unfolding choose
choose-ChoiceOk prev others none idle nr = elim (Bool-cases (runnable_prev prev)) [
  | inl r ↦ rw r (inl (r, NotReady-Below others prev.priority nr))
  | inr r ↦ elim (Bool-cases (prev.pid == 0)) [
    | inl e ↦ rw (r, e) (inr (r, nr, ground arith))
    | inr e ↦
        rw (r, e)
          (to_idle-ChoiceOk prev others (find_pid 0 others []) idle r e nr
            (find_pid-FoundAt others [] 0 (unfold occurs in refl)))
  ]
]
choose-ChoiceOk prev others (some f) idle b = elim (Bool-cases (runnable_prev prev)) [
  | inr r ↦ rw r (inl (b, λ q. absurd (ground arith)))
  | inl r ↦ elim (Bool-cases (ltb f.task.priority prev.priority)) [
    | inl lt ↦ rw (r, lt) (inl (r, BestOf-Below others f prev.priority b (ltb→lt _ _ lt)))
    | inr ge ↦ rw (r, ge) (inl (b, λ q. ground arith))
  ]
]

-- The choice of a call of `schedule`, and its state as `switch_to` leaves it.
pub record Picked (s s' : Sched) (c : Choice) : Type 0 where
  pub why : ChoiceOk s.current s.others c
  pub effect : s' ≡ switch_to (record s { dead_list = []; reaped = s.reaped ++ s.dead_list }) c

pub schedule-Picked :
    (s : Sched) → HasIdle s.current s.others → (c : Choice) × Picked s (schedule s) c
unfolding schedule sched_reap
schedule-Picked s idle =
    let best = scan_ready s.others [] none in
    (
      choose s.current s.others best,
      record {
        why = choose-ChoiceOk s.current s.others best idle (scan_ready-Scanned s.others [] none tt);
        effect = refl;
      },
    )

pub SwitchOk-cut :
    (prev : Task) (others : List Task) (f : Found)
    → SwitchOk prev others f
    → others ≡ f.before ++ f.task ∷ f.after
SwitchOk-cut prev others f (inl (b, le)) = b.cut
SwitchOk-cut prev others f (inr (r, nr, cut, zero_pid)) = cut

-- Where the task that was current goes when another one takes over: a dead task to the list of the
-- dead, and any other to the end of the ring, a running one as ready.
abbrev pub PutBack : Task → Found → List Task → List Task → Type 0
PutBack prev f others dead_list =
    ((prev.state ≡ dead) × (others ≡ f.after ++ f.before) × (dead_list ≡ prev ∷ []))
    ⊎ (((prev.state ≡ running)
          × (others ≡ f.after ++ (record prev { state = ready } ∷ f.before))
          × (dead_list ≡ []))
        ⊎ ((prev.state ≢ dead)
            × (prev.state ≢ running)
            × (others ≡ f.after ++ (prev ∷ f.before))
            × (dead_list ≡ [])))

-- The current task, the ring and the list of the dead after a call, by its choice.
abbrev pub GoesOn : Sched → Choice → Sched → Type 0
GoesOn s stay s' =
    (s'.current ≡ record (s.current) { state = running })
    × (s'.others ≡ s.others)
    × (s'.dead_list ≡ [])
GoesOn s (switch f) s' =
    (s.others ≡ f.before ++ f.task ∷ f.after)
    × (s'.current ≡ record (f.task) { state = running })
    × PutBack s.current f s'.others s'.dead_list

-- What a call of `schedule` does.
pub record Scheduled (s s' : Sched) (c : Choice) : Type 0 where
  pub why : ChoiceOk s.current s.others c
  pub reaps : s'.reaped ≡ s.reaped ++ s.dead_list
  pub no_new_pid : s'.next_pid ≡ s.next_pid
  pub goes_on : GoesOn s c s'
