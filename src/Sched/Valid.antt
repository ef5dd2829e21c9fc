-- ===== src/Sched/Valid.antt =====
-- The invariant of the scheduler's state in sched/sched.c, and that `schedule` keeps it.
use cortex_forge_aarch64_bar.Prelude.{
  ℕ, ◌+◌, ◌≡◌, ◌≢◌, ◌≤◌, inl, inr, refl, ◌∙◌, ap, List, [], ◌∷◌, ◌++◌, arith, Bool-cases, true,
  false,
}
use cortex_forge_aarch64_bar.Sched.{
  State, running, is_running, is_dead, Task, Sched, Found, with_state, Choice, stay, switch,
  sched_reap, requeue, bury, switch_to, schedule,
}
use cortex_forge_aarch64_bar.Sched.Pick.{All, All-append}
use cortex_forge_aarch64_bar.Sched.Occurs.{occurs, occurs-append, occurs_cons, occurs_nil}
use cortex_forge_aarch64_bar.Sched.Schedule.{HasIdle, ChoiceOk, SwitchOk-cut, schedule-Picked}

-- How often a pid stands in the ring, on the list of the dead, and among the reaped.
abbrev pub everywhere : ℕ → Sched → ℕ
everywhere p s =
    occurs p (s.current ∷ []) + occurs p s.others + occurs p s.dead_list + occurs p s.reaped

abbrev pub Waiting : Task → Type 0
Waiting t = (is_running t.state ≡ false) × (is_dead t.state ≡ false)

abbrev pub Buried : Task → Type 0
Buried t = is_dead t.state ≡ true

-- The idle task is in the ring; a pid stands for one task, in one place; those not yet given are
-- free; no task but the current one is running, and none of the ring is dead.
pub record IsValid (s : Sched) : Type 0 where
  pub idle : HasIdle s.current s.others
  pub distinct : (p : ℕ) → everywhere p s ≤ 1
  pub fresh : (p : ℕ) → s.next_pid ≤ p → everywhere p s ≡ 0
  pub waiting : All Waiting s.others
  pub buried : All Buried s.dead_list
  pub alive : is_dead s.current.state ≡ false

-- What `schedule` needs: the current task may be dead if it is not the idle task.
pub record CanSchedule (s : Sched) : Type 0 where
  pub idle : HasIdle s.current s.others
  pub distinct : (p : ℕ) → everywhere p s ≤ 1
  pub fresh : (p : ℕ) → s.next_pid ≤ p → everywhere p s ≡ 0
  pub waiting : All Waiting s.others
  pub not_idle : is_dead s.current.state ≡ true → s.current.pid ≢ 0

split_prev : (p : ℕ) (t : Task) → occurs p (requeue t) + occurs p (bury t []) ≡ occurs p (t ∷ [])
unfolding requeue bury occurs
split_prev p t = elim (Bool-cases (is_dead t.state)) [
  | inl d ↦ rw d (omega arith)
  | inr d ↦ elim (Bool-cases (is_running t.state)) [
    | inl r ↦ rw (d, r) (omega arith)
    | inr r ↦ rw (d, r) (omega arith)
  ]
]

requeue-Waiting : (t : Task) → All Waiting (requeue t)
unfolding requeue
requeue-Waiting t = elim (Bool-cases (is_dead t.state)) [
  | inl d ↦ rw d tt
  | inr d ↦ elim (Bool-cases (is_running t.state)) [
    | inl r ↦ rw (d, r) ((refl, refl), tt)
    | inr r ↦ rw (d, r) ((r, d), tt)
  ]
]

bury-Buried : (t : Task) → All Buried (bury t [])
unfolding bury
bury-Buried t = elim (Bool-cases (is_dead t.state)) [ inl d ↦ rw d (d, tt) | inr d ↦ rw d tt ]

occurs-with_state :
    (p : ℕ) (st : State) (t : Task) → occurs p (with_state st t ∷ []) ≡ occurs p (t ∷ [])
unfolding occurs
occurs-with_state p st t = refl

pub All-before : (P : Task → Type 0) (xs ys : List Task) → All P (xs ++ ys) → All P xs
All-before P [] ys h = tt
All-before P (x ∷ xs) ys (p, ps) = (p, All-before P xs ys ps)

pub All-behind : (P : Task → Type 0) (xs ys : List Task) → All P (xs ++ ys) → All P ys
All-behind P [] ys h = h
All-behind P (x ∷ xs) ys (p, ps) = All-behind P xs ys ps

abbrev after_switch : Sched → Found → Sched
after_switch s f = switch_to (sched_reap s) (switch f)

-- No task is lost and none is made twice.
pub switch_to-occurs :
    (s : Sched) (f : Found) (p : ℕ)
    → s.others ≡ f.before ++ f.task ∷ f.after
    → (occurs p ((after_switch s f).current ∷ [])
          + occurs p (after_switch s f).others
          + occurs p (after_switch s f).dead_list
        ≡ occurs p (s.current ∷ []) + occurs p s.others)
unfolding switch_to sched_reap
switch_to-occurs s f p cut =
    let prev = split_prev p s.current in
    let a = occurs-append p f.after (requeue s.current ++ f.before) in
    let b = occurs-append p (requeue s.current) f.before in
    let c = ap (occurs p) cut ∙ occurs-append p f.before (f.task ∷ f.after) in
    let d = occurs_cons p f.task f.after in
    let e = occurs-with_state p running f.task in omega arith

bury-idle : (t : Task) → (is_dead t.state ≡ true → t.pid ≢ 0) → occurs 0 (bury t []) ≡ 0
unfolding bury occurs
bury-idle t h = elim (Bool-cases (is_dead t.state)) [
  | inl d ↦ let k = h d in rw d (ground arith)
  | inr d ↦ rw d refl
]

after_switch-everywhere :
    (s : Sched) (f : Found) (p : ℕ)
    → s.others ≡ f.before ++ f.task ∷ f.after
    → everywhere p (after_switch s f) ≡ everywhere p s
unfolding switch_to sched_reap
after_switch-everywhere s f p cut =
    let a = switch_to-occurs s f p cut in
    let b = occurs-append p s.reaped s.dead_list in omega arith

after_switch-IsValid :
    (s : Sched) (f : Found)
    → CanSchedule s
    → s.others ≡ f.before ++ f.task ∷ f.after
    → IsValid (after_switch s f)
unfolding switch_to sched_reap
after_switch-IsValid s f ok cut =
    let waiting : All Waiting (f.before ++ f.task ∷ f.after) = rw (← cut) ok.waiting in
    record {
      idle =
          let a = switch_to-occurs s f 0 cut in
          let b = bury-idle s.current ok.not_idle in
          let c = occurs_cons 0 s.current s.others in
          let d = ok.idle in
          let e =
            occurs_cons 0 (with_state running f.task)
              (f.after ++ (requeue s.current ++ f.before)) in
          omega arith;
      distinct =
          λ p. let a = after_switch-everywhere s f p cut in let b = ok.distinct p in omega arith;
      fresh =
          λ p le. let a = after_switch-everywhere s f p cut in let b = ok.fresh p le in omega arith;
      waiting =
          All-append Waiting f.after (requeue s.current ++ f.before)
            (All-behind Waiting f.before (f.task ∷ f.after) waiting).1
            (All-append Waiting (requeue s.current) f.before (requeue-Waiting s.current)
              (All-before Waiting f.before (f.task ∷ f.after) waiting));
      buried = bury-Buried s.current;
      alive = refl;
    }

abbrev after_stay : Sched → Sched
after_stay s = switch_to (sched_reap s) stay

after_stay-everywhere : (s : Sched) (p : ℕ) → everywhere p (after_stay s) ≡ everywhere p s
unfolding switch_to sched_reap
after_stay-everywhere s p =
    let a = occurs-append p s.reaped s.dead_list in
    let b = occurs-with_state p running s.current in omega (arith, occurs_nil p)

after_stay-IsValid : (s : Sched) → CanSchedule s → IsValid (after_stay s)
unfolding switch_to sched_reap
after_stay-IsValid s ok = record {
  idle =
      let a = occurs-with_state 0 running s.current in
      let b = occurs_cons 0 s.current s.others in
      let c = occurs_cons 0 (with_state running s.current) s.others in
      let d = ok.idle in omega arith;
  distinct = λ p. let a = after_stay-everywhere s p in let b = ok.distinct p in omega arith;
  fresh = λ p le. let a = after_stay-everywhere s p in let b = ok.fresh p le in omega arith;
  waiting = ok.waiting;
  buried = tt;
  alive = refl;
}

switched :
    (s : Sched) (c : Choice)
    → CanSchedule s
    → ChoiceOk s.current s.others c
    → IsValid (switch_to (sched_reap s) c)
switched s stay ok why = after_stay-IsValid s ok
switched s (switch f) ok why = after_switch-IsValid s f ok (SwitchOk-cut s.current s.others f why)

pub schedule-IsValid : (s : Sched) → CanSchedule s → IsValid (schedule s)
unfolding sched_reap
schedule-IsValid s ok =
    let (c, done) = schedule-Picked s ok.idle in rw done.effect (switched s c ok done.why)
