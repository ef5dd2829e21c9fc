-- ===== src/Rtos.antt =====
-- sched/rtos.c: the periodic tasks, and the mutex and the semaphore with their wait queues.
--
-- Tasks and mutexes are the entries of two stores, known by numbers, since the code shares them by
-- pointers: a boost of a task is seen wherever the task is waiting. A wait queue, linked through
-- `wait_next`, is the list of its tasks. Each operation runs with interrupts masked, up to its call
-- of `schedule` where it has one; what `schedule` does is in Sched.
pub mod Queue
pub mod Inherit
pub mod Mutex
pub mod Sem
pub mod Release
mod Tests
use cortex_forge_aarch64_bar.Prelude.{
  ℕ, zero, suc, ◌+◌, ◌-◌, ◌*◌, ◌/◌, ◌%◌, ◌^◌, Bool, true, false, not, ◌&&◌, ◌||◌, List, [], ◌∷◌,
  ◌++◌, map, Option, none, some, ltb, leb, ◌==◌, if◌then◌else◌,
}
use cortex_forge_aarch64_bar.Sched.{State, ready, sleeping, blocked, is_sleeping}

-- The fields of `task_t` that sched/rtos.c uses for blocking.
pub record RtTask : Type 0 where
  pub priority : ℕ
  pub base_priority : ℕ
  pub state : State
  pub blocked_on : Option ℕ

-- `rt_mutex_t`
pub record RtMutex : Type 0 where
  pub owner : Option ℕ
  pub waiters : List ℕ
  pub locked : Bool

pub record Store : Type 0 where
  pub tasks : ℕ → RtTask
  pub mutexes : ℕ → RtMutex

-- A write to one entry.
abbrev pub put {ℓ} : {A : Type ℓ} → ℕ → A → (ℕ → A) → ℕ → A
put i v f j = if i == j then v else f j

abbrev pub put_task : ℕ → RtTask → Store → Store
put_task i t s = record s { tasks = put i t s.tasks }

abbrev pub put_mutex : ℕ → RtMutex → Store → Store
put_mutex i m s = record s { mutexes = put i m s.mutexes }

-- The loop of `wq_insert`, behind the head of the queue.
unfoldable pub insert_behind : (ℕ → ℕ) → ℕ → List ℕ → List ℕ
insert_behind priority me [] = me ∷ []
insert_behind priority me (p ∷ rest) =
    if leb (priority me) (priority p) then p ∷ insert_behind priority me rest else me ∷ p ∷ rest

unfoldable pub wq_insert : (ℕ → ℕ) → ℕ → List ℕ → List ℕ
wq_insert priority me [] = me ∷ []
wq_insert priority me (head ∷ rest) =
    if ltb (priority head) (priority me)
    then me ∷ head ∷ rest
    else head ∷ insert_behind priority me rest

abbrev pub owner_of : Option ℕ → (ℕ → RtMutex) → Option ℕ
owner_of none mutexes = none
owner_of (some m) mutexes = (mutexes m).owner

-- The loop of `pi_propagate`, with so many rounds left.
unfoldable pub propagate : ℕ → Option ℕ → ℕ → Store → Store
propagate zero owner prio s = s
propagate (suc depth) none prio s = s
propagate (suc depth) (some owner) prio s =
    let t = s.tasks owner in
    let boosted = put_task owner (record t { priority = prio }) s in
    let rest = propagate depth (owner_of t.blocked_on s.mutexes) prio boosted in
    if leb prio t.priority then s else rest

unfoldable pub pi_propagate : Option ℕ → ℕ → Store → Store
pi_propagate owner prio s = propagate 8 owner prio s

abbrev pub rt_mutex_init : RtMutex
rt_mutex_init = record { owner = none; waiters = []; locked = false }

-- The contended half of `rt_mutex_lock`: enqueue, boost the owner, block.
unfoldable pub lock_contended : ℕ → ℕ → Store → Store
lock_contended m me s =
    let mutex = s.mutexes m in
    let t = s.tasks me in
    let marked = put_task me (record t { blocked_on = some m }) s in
    let queue = wq_insert (λ i. (s.tasks i).priority) me mutex.waiters in
    let queued = put_mutex m (record mutex { waiters = queue }) marked in
    let raised = pi_propagate mutex.owner t.priority queued in
    put_task me (record (raised.tasks me) { state = blocked }) raised

unfoldable pub lock_free : ℕ → ℕ → Store → Store
lock_free m me s = put_mutex m (record (s.mutexes m) { locked = true; owner = some me }) s

-- `rt_mutex_lock` by the task `me`. The Boolean says whether it blocks, that is, calls `schedule`;
-- when the task runs again it takes `blocked_on` back.
unfoldable pub rt_mutex_lock : ℕ → ℕ → Store → Bool × Store
rt_mutex_lock m me s =
    if (s.mutexes m).locked then (true, lock_contended m me s) else (false, lock_free m me s)

abbrev pub resumed_lock : ℕ → Store → Store
resumed_lock me s = put_task me (record (s.tasks me) { blocked_on = none }) s

-- What `rt_mutex_unlock` does with the queue.
unfoldable pub hand_over : ℕ → RtMutex → List ℕ → Store → Bool × Store
hand_over m mutex [] s = (false, put_mutex m (record mutex { locked = false; owner = none }) s)
hand_over m mutex (w ∷ rest) s = (
  true,
  put_task w (record (s.tasks w) { state = ready })
      (put_mutex m (record mutex { waiters = rest; owner = some w }) s),
)

unfoldable pub rt_mutex_unlock : ℕ → ℕ → Store → Bool × Store
rt_mutex_unlock m me s =
    let t = s.tasks me in
    hand_over m (s.mutexes m) (s.mutexes m).waiters
      (put_task me (record t { priority = t.base_priority }) s)

-- `rt_sem_t`; its count never goes below 0, and starts from a number that is not negative.
pub record RtSem : Type 0 where
  pub count : ℕ
  pub waiters : List ℕ

abbrev pub rt_sem_init : ℕ → RtSem
rt_sem_init initial = record { count = initial; waiters = [] }

-- `rt_sem_wait` by the task `me`, with the priorities of the tasks: whether it blocks.
unfoldable pub rt_sem_wait : (ℕ → ℕ) → ℕ → RtSem → Bool × RtSem
rt_sem_wait priority me s =
    if ltb 0 s.count
    then (false, record s { count = s.count - 1 })
    else (true, record s { waiters = wq_insert priority me s.waiters })

-- `rt_sem_post`: the task that it makes ready, if there is one. The count is an int.
unfoldable pub post_to : List ℕ → RtSem → Option ℕ × RtSem
post_to [] s = (none, record s { count = s.count + 1 })
post_to (w ∷ rest) s = (some w, record s { waiters = rest })

unfoldable pub rt_sem_post : RtSem → Option ℕ × RtSem
rt_sem_post s = post_to s.waiters s

-- The fields of `task_t` for periodic tasks, all times in ticks of the counter.
pub record Periodic : Type 0 where
  pub rt_state : State
  pub rt_period_cyc : ℕ
  pub rt_deadline_cyc : ℕ
  pub rt_next_release : ℕ
  pub rt_release_cyc : ℕ
  pub rt_wcrt_cyc : ℕ
  pub rt_last_resp_cyc : ℕ
  pub rt_activations : ℕ
  pub rt_deadline_misses : ℕ

abbrev add_u64 : ℕ → ℕ → ℕ
add_u64 a b = (a + b) % 2 ^ 64

abbrev add_u32 : ℕ → ℕ → ℕ
add_u32 a b = (a + b) % 2 ^ 32

-- `rt_wait_next_period` at the time `now`, up to `schedule`.
unfoldable pub rt_wait_next_period : ℕ → Periodic → Periodic
rt_wait_next_period now t =
    let resp = (now + (2 ^ 64 - t.rt_release_cyc)) % 2 ^ 64 in
    let wcrt = if ltb t.rt_wcrt_cyc resp then resp else t.rt_wcrt_cyc in
    let misses =
      if ltb t.rt_deadline_cyc resp then add_u32 t.rt_deadline_misses 1 else t.rt_deadline_misses in
    if t.rt_period_cyc == 0
    then t
    else if ltb 1 t.rt_activations
    then record t {
      rt_last_resp_cyc = resp;
      rt_wcrt_cyc = wcrt;
      rt_deadline_misses = misses;
      rt_state = sleeping;
    }
    else record t { rt_last_resp_cyc = resp; rt_state = sleeping }

-- The body of the loop of `rt_tick_release`, for one task.
unfoldable pub release : ℕ → Periodic → Periodic
release now t =
    let following = add_u64 t.rt_next_release t.rt_period_cyc in
    if ltb 0 t.rt_period_cyc && leb t.rt_next_release now
    then if is_sleeping t.rt_state
      then record t {
        rt_release_cyc = t.rt_next_release;
        rt_state = ready;
        rt_activations = add_u32 t.rt_activations 1;
        rt_next_release = following;
      }
      else record t {
        rt_deadline_misses = add_u32 t.rt_deadline_misses 1;
        rt_next_release = following;
      }
    else t

abbrev pub sooner : ℕ → Periodic → ℕ
sooner earliest t =
    if ltb 0 t.rt_period_cyc && (earliest == 0 || ltb t.rt_next_release earliest)
    then t.rt_next_release
    else earliest

-- The loop over the ring: the earliest release found, and the tasks.
unfoldable pub release_from : ℕ → ℕ → List Periodic → ℕ × List Periodic
release_from now earliest [] = (earliest, [])
release_from now earliest (t ∷ ts) =
    let (e, rest) = release_from now (sooner earliest (release now t)) ts in
    (e, release now t ∷ rest)

unfoldable pub rt_tick_release : ℕ → List Periodic → ℕ × List Periodic
rt_tick_release now ts = release_from now 0 ts
