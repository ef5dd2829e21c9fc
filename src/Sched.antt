-- ===== src/Sched.antt =====
-- sched/sched.c: the run queue, the choice of the next task, sleeping, killing and reaping.
--
-- The run queue is a ring. It is kept as the current task and the others in the order in which
-- `next` meets them from there, so that the place in front of `current`, where a task is inserted,
-- is the end of the list. A task is known by its pid; pid 0 is `idle_task`. The fields of a task
-- that hold memory are not kept: `reaped` lists the tasks whose memory `sched_reap` has given back,
-- and whether an allocation succeeds is an argument. A pointer to a task is its pid.
--
-- Each call is taken as a whole. The code masks interrupts only in parts of `sched_fork` and
-- `sched_kill_task`, so that the tick of the timer can interrupt `schedule`, `task_exit` and the
-- other calls that create a task when a task makes them with interrupts enabled; what comes of such
-- a tick inside a call is not modelled.
pub mod Pick
pub mod Schedule
pub mod Occurs
pub mod Valid
pub mod Kill
pub mod Wake
pub mod Create
pub mod Priority
pub mod Asid
pub mod Reach
mod Tests
use cortex_forge_aarch64_bar.Prelude.{
  ℕ, zero, suc, ◌+◌, ◌-◌, ◌*◌, ◌/◌, ◌%◌, ◌^◌, Bool, true, false, not, ◌&&◌, ◌||◌, List, [], ◌∷◌,
  ◌++◌, map, Option, none, some, ltb, leb, ◌==◌, if◌then◌else◌,
}

-- `task_state_t`
pub data State : Type 0 where
  ready : State
  running : State
  sleeping : State
  dead : State
  blocked : State

abbrev pub is_ready : State → Bool
is_ready ready = true
is_ready running = false
is_ready sleeping = false
is_ready dead = false
is_ready blocked = false

abbrev pub is_running : State → Bool
is_running ready = false
is_running running = true
is_running sleeping = false
is_running dead = false
is_running blocked = false

abbrev pub is_sleeping : State → Bool
is_sleeping ready = false
is_sleeping running = false
is_sleeping sleeping = true
is_sleeping dead = false
is_sleeping blocked = false

abbrev pub is_dead : State → Bool
is_dead ready = false
is_dead running = false
is_dead sleeping = false
is_dead dead = true
is_dead blocked = false

-- `task_t`
pub record Task : Type 0 where
  pub pid : ℕ
  pub state : State
  pub sleep_until : ℕ
  pub priority : ℕ
  pub base_priority : ℕ
  pub rt_period_cyc : ℕ

-- `current` and the ring behind it, `dead_list` and `next_pid`.
pub record Sched : Type 0 where
  pub current : Task
  pub others : List Task
  pub dead_list : List Task
  pub reaped : List Task
  pub next_pid : ℕ

abbrev pub with_state : State → Task → Task
with_state st t = record t { state = st }

-- A pointer into the ring, as the place where it cuts the list.
pub record Found : Type 0 where
  pub before : List Task
  pub task : Task
  pub after : List Task

-- One round of the scan in `schedule`: is this task better than the best before it?
unfoldable pub consider : Task → List Task → Option Found → Option Found
consider t seen none =
    if is_ready t.state then some (record { before = seen; task = t; after = [] }) else none
consider t seen (some f) =
    if is_ready t.state && ltb f.task.priority t.priority
    then some (record { before = seen; task = t; after = [] })
    else some (record f { after = f.after ++ t ∷ [] })

-- The scan over the tasks behind `prev`.
unfoldable pub scan_ready : List Task → List Task → Option Found → Option Found
scan_ready [] seen best = best
scan_ready (t ∷ ts) seen best = scan_ready ts (seen ++ t ∷ []) (consider t seen best)

-- The search for a pid among the tasks behind `current`. Pids are distinct, so it does not matter
-- that the code's searches start at the idle task.
unfoldable pub find_pid : ℕ → List Task → List Task → Option Found
find_pid pid [] seen = none
find_pid pid (t ∷ ts) seen =
    let rest = find_pid pid ts (seen ++ t ∷ []) in
    if t.pid == pid then some (record { before = seen; task = t; after = ts }) else rest

pub data Choice : Type 0 where
  stay : Choice
  switch : Found → Choice

-- The start value of `best`, `&idle_task`. The ring always holds the idle task, so the search finds it.
abbrev pub to_idle : Option Found → Choice
to_idle none = stay
to_idle (some f) = switch f

abbrev pub runnable_prev : Task → Bool
runnable_prev prev = is_ready prev.state || is_running prev.state

-- The last round of the scan, which looks at `prev` itself.
unfoldable pub choose : Task → List Task → Option Found → Choice
choose prev others none =
    let idle = to_idle (find_pid 0 others []) in
    if runnable_prev prev then stay else (if prev.pid == 0 then stay else idle)
choose prev others (some f) =
    if runnable_prev prev && ltb f.task.priority prev.priority then stay else switch f

unfoldable pub sched_reap : Sched → Sched
sched_reap s = record s { dead_list = []; reaped = s.reaped ++ s.dead_list }

-- What becomes of `prev` in the ring, and on the list of the dead.
unfoldable pub requeue : Task → List Task
requeue prev =
    if is_dead prev.state
    then []
    else (if is_running prev.state then with_state ready prev ∷ [] else prev ∷ [])

unfoldable pub bury : Task → List Task → List Task
bury prev dead_list = if is_dead prev.state then prev ∷ dead_list else dead_list

-- The end of `schedule`, up to `context_switch`.
unfoldable pub switch_to : Sched → Choice → Sched
switch_to s stay = record s { current = with_state running s.current }
switch_to s (switch f) = record s {
  current = with_state running f.task;
  others = f.after ++ (requeue s.current ++ f.before);
  dead_list = bury s.current s.dead_list;
}

unfoldable pub schedule : Sched → Sched
schedule s = switch_to (sched_reap s) (choose s.current s.others (scan_ready s.others [] none))

unfoldable pub task_exit : Sched → Sched
task_exit s = schedule (record s { current = with_state dead s.current })

unfoldable pub sched_block_current : Sched → Sched
sched_block_current s = schedule (record s { current = with_state blocked s.current })

abbrev pub timer_interval_ms : ℕ
timer_interval_ms = 10

-- `sleep_ms`, at the tick `now`.
unfoldable pub sleep_ms : ℕ → ℕ → Sched → Sched
sleep_ms now ms s =
    let ticks = ms / timer_interval_ms in
    let ticks_needed = if ticks == 0 then 1 else ticks in
    schedule (record s {
      current = record (s.current) {
        sleep_until = (now + ticks_needed) % 2 ^ 64;
        state = sleeping;
      };
    })

unfoldable pub wake : ℕ → Task → Task
wake now t =
    if is_sleeping t.state && t.rt_period_cyc == 0 && leb t.sleep_until now
    then record t { state = ready; sleep_until = 0 }
    else t

-- All tasks but the idle task.
unfoldable pub wake_other : ℕ → Task → Task
wake_other now t = if t.pid == 0 then t else wake now t

unfoldable pub sched_wake_sleepers : ℕ → Sched → Sched
sched_wake_sleepers now s = record s {
  current = wake_other now s.current;
  others = map (wake_other now) s.others;
}

-- The body of the loop in `sched_kill_task` for a task that is not the current one.
unfoldable pub kill_found : Sched → Option Found → Bool × Sched
kill_found s none = (false, s)
kill_found s (some f) = if is_dead f.task.state then (false, s) else (
  true,
  record s { others = f.before ++ f.after; dead_list = with_state dead f.task ∷ s.dead_list },
)

-- Whether it returns 0 or -1, and the new state.
unfoldable pub sched_kill_task : ℕ → Sched → Bool × Sched
sched_kill_task pid s =
    if pid == 0
    then (false, s)
    else if s.current.pid == pid
    then (if is_dead s.current.state then (false, s) else (true, task_exit s))
    else kill_found s (find_pid pid s.others [])

abbrev pub prio_default : ℕ
prio_default = 8

-- The common end of the calls that create a task: the new task, in front of `current` in the ring,
-- and its pid.
unfoldable pub add_task : Sched → Option ℕ × Sched
add_task s =
    let t : Task = record {
      pid = s.next_pid;
      state = ready;
      sleep_until = 0;
      priority = prio_default;
      base_priority = prio_default;
      rt_period_cyc = 0;
    } in
    (
      some s.next_pid,
      record s { others = s.others ++ t ∷ []; next_pid = (s.next_pid + 1) % 2 ^ 64 },
    )

-- `none` is the return of -1 when the memory for the task or its stack is not there.
unfoldable pub sched_create_kernel_task : Bool → Sched → Option ℕ × Sched
sched_create_kernel_task has_memory s = if has_memory then add_task s else (none, s)

-- `sched_create_task`, by whether there is memory for the task and its kernel stack, whether there
-- are page tables, whether the entry lies in the shared text, and whether there is a user stack.
unfoldable pub sched_create_task : Bool → Bool → Bool → Bool → Sched → Option ℕ × Sched
sched_create_task has_memory has_tables in_text has_stack s =
    if has_memory
    then if has_tables
      then if in_text then (if has_stack then add_task s else (none, s)) else (none, s)
      else (none, s)
    else (none, s)

-- `sched_fork`, by whether there are a parent and a frame, memory for the task and its kernel stack,
-- page tables, and a user stack. The child starts with the default priority.
unfoldable pub sched_fork : Bool → Bool → Bool → Bool → Sched → Option ℕ × Sched
sched_fork has_parent has_memory has_tables has_stack s =
    if has_parent
    then if has_memory
      then if has_tables then (if has_stack then add_task s else (none, s)) else (none, s)
      else (none, s)
    else (none, s)

-- A write to the task with this pid, of a list of tasks.
abbrev pub at_pid : ℕ → (Task → Task) → Task → Task
at_pid pid change t = if t.pid == pid then change t else t

-- A write to the task of the ring with this pid.
unfoldable pub write_ring : ℕ → (Task → Task) → Sched → Sched
write_ring pid change s = record s {
  current = at_pid pid change s.current;
  others = map (at_pid pid change) s.others;
}

abbrev pub make_ready : Task → Task
make_ready t = if is_dead t.state then t else with_state ready t

-- `sched_make_ready`, by the pid of its task; `none` is a null pointer. The tasks on the list of the
-- dead are dead, so that it leaves them.
unfoldable pub sched_make_ready : Option ℕ → Sched → Sched
sched_make_ready none s = s
sched_make_ready (some pid) s = write_ring pid make_ready s

-- `sched_set_priority`, in the same way; it writes to a dead task, too.
unfoldable pub sched_set_priority : Option ℕ → ℕ → Sched → Sched
sched_set_priority none prio s = s
sched_set_priority (some pid) prio s =
    let change = λ (t : Task). record t { priority = prio } in
    record (write_ring pid change s) { dead_list = map (at_pid pid change) s.dead_list }

-- The end of `sched_create_rt_task`. The pid is an `int`: from 2^31 on it is negative, and taken for
-- a failure.
unfoldable pub rt_created : ℕ → Option ℕ × Sched → Option ℕ × Sched
rt_created prio (none, s) = (none, s)
rt_created prio (some pid, s) =
    let low = pid % 2 ^ 32 in
    if leb (2 ^ 31) low
    then (none, s)
    else (some low, write_ring low (λ t. record t { priority = prio; base_priority = prio }) s)

unfoldable pub sched_create_rt_task : Bool → ℕ → Sched → Option ℕ × Sched
sched_create_rt_task has_memory prio s = rt_created prio (sched_create_kernel_task has_memory s)

-- `sched_init`, with the pid 0 that the first call gives.
abbrev pub idle_task : Task
idle_task = record {
  pid = 0;
  state = ready;
  sleep_until = 0;
  priority = 0;
  base_priority = 0;
  rt_period_cyc = 0;
}

abbrev pub sched_init : Sched
sched_init = record { current = idle_task; others = []; dead_list = []; reaped = []; next_pid = 1 }
