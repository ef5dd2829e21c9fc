-- ===== src/Signal.antt =====
-- syscall/signal.c: the signals of a task, their delivery on the way back to EL0, and sigreturn.
--
-- A mask of 32 signals is a function from signal numbers to Booleans. User memory is the store of its
-- 64-bit words, known by their addresses; the stack pointer is a multiple of 8, as the processor
-- checks when it is used. Whether a user page is mapped is not modelled. `task_exit` of a terminated
-- task is in Sched: here the outcome says which signal ended it.
pub mod Pick
pub mod Deliver
pub mod Mask
pub mod Kill
pub mod Alarm
mod Tests
use cortex_forge_aarch64_bar.Prelude.{
  ℕ, zero, suc, ◌+◌, ◌-◌, ◌*◌, ◌/◌, ◌%◌, ◌^◌, Bool, true, false, not, ◌&&◌, ◌||◌, List, [], ◌∷◌,
  map, Option, none, some, get_or, set, ltb, leb, ◌==◌, if◌then◌else◌,
}

abbrev pub sig_max : ℕ
sig_max = 31

abbrev pub sigkill : ℕ
sigkill = 9

abbrev pub sigalrm : ℕ
sigalrm = 14

abbrev pub sig_dfl : ℕ
sig_dfl = 0

abbrev pub sig_ign : ℕ
sig_ign = 1

abbrev pub user_stack_top : ℕ
user_stack_top = 0x00800000

abbrev pub user_sigtramp_va : ℕ
user_sigtramp_va = 0x00300000

abbrev pub Mask : Type 0
Mask = ℕ → Bool

-- `mask & ~(1u << n)` and `mask | (1u << n)`
abbrev pub without : ℕ → Mask → Mask
without n mask b = if n == b then false else mask b

abbrev pub with_signal : ℕ → Mask → Mask
with_signal n mask b = if n == b then true else mask b

-- The fields of `task_t` for signals.
pub record SigTask : Type 0 where
  pub sig_handlers : ℕ → ℕ
  pub sig_pending : Mask
  pub sig_blocked : Mask
  pub sig_alarm_ticks : ℕ
  pub stack_grown_count : ℕ

-- `trap_frame_t`, with the SP_EL0 that stands behind it.
pub record TrapFrame : Type 0 where
  pub regs : ℕ → ℕ
  pub elr : ℕ
  pub spsr : ℕ
  pub sp : ℕ

abbrev pub Memory : Type 0
Memory = ℕ → ℕ

abbrev pub write : ℕ → ℕ → Memory → Memory
write a v mem b = if a == b then v else mem b

-- The loop that saves the registers, from x0 up to the count.
unfoldable pub save_regs : ℕ → ℕ → (ℕ → ℕ) → Memory → Memory
save_regs zero base regs mem = mem
save_regs (suc n) base regs mem = write (base + 8 * n) (regs n) (save_regs n base regs mem)

-- The writes of `deliver_one` to the `sigframe_t` at `base`.
unfoldable pub save_frame : ℕ → TrapFrame → Memory → Memory
save_frame base frame mem = write (base + 272) user_sigtramp_va (
    write (base + 264) frame.spsr (
      write (base + 256) frame.elr
        (write (base + 248) frame.sp (save_regs 31 base frame.regs mem))))

abbrev pub sigframe_reserve : ℕ
sigframe_reserve = 288

-- `new_sp`
unfoldable pub frame_base : ℕ → ℕ
frame_base old_sp = (old_sp + (2 ^ 64 - sigframe_reserve)) % 2 ^ 64 / 16 * 16

-- `stack_lo`
unfoldable pub stack_lo : SigTask → ℕ
stack_lo t = user_stack_top - (4 + t.stack_grown_count) * 4096

-- What comes of a trap frame on the way back to user mode.
pub data Outcome : Type 0 where
  nothing : Outcome
  terminated : ℕ → Outcome
  entered : TrapFrame → Memory → Outcome

unfoldable pub deliver_one : SigTask → TrapFrame → ℕ → ℕ → Memory → Outcome
deliver_one t frame sig handler mem =
    let new_sp = frame_base frame.sp in
    let reg =
      λ (i : ℕ). if i == 0 then sig else if i == 30 then user_sigtramp_va else frame.regs i in
    if ltb new_sp (stack_lo t) || ltb user_stack_top frame.sp
    then terminated sig
    else entered (record frame { regs = reg; elr = handler; sp = new_sp })
        (save_frame new_sp frame mem)

-- `t->sig_pending & ~t->sig_blocked`
abbrev pub active : SigTask → ℕ → Bool
active t n = t.sig_pending n && not (t.sig_blocked n)

-- The search for the lowest active signal, over so many numbers from `n` on; 0 when there is none.
unfoldable pub lowest : Mask → ℕ → ℕ → ℕ
lowest mask zero n = 0
lowest mask (suc count) n = let later = lowest mask count (suc n) in if mask n then n else later

abbrev pub take_signal : ℕ → SigTask → SigTask
take_signal sig t = record t { sig_pending = without sig t.sig_pending }

-- A round of `signal_check_and_deliver` for the signal that it found.
unfoldable pub deliver_found :
    SigTask → TrapFrame → Memory → ℕ → (SigTask → SigTask × Outcome) → SigTask × Outcome
deliver_found t frame mem sig again =
    let t' = take_signal sig t in
    let handler = t.sig_handlers sig in
    if sig == 0
    then (t, nothing)
    else if sig == sigkill
    then (t', terminated sig)
    else if handler == sig_ign
    then again t'
    else if handler == sig_dfl
    then (t', terminated sig)
    else (t', deliver_one t' frame sig handler mem)

-- Its loop, with fuel. Each round takes one signal, and there are 31. A mask with no signal from 1 on
-- leaves the loop, whether it is 0 or not.
unfoldable pub deliver_rounds : ℕ → SigTask → TrapFrame → Memory → SigTask × Outcome
deliver_rounds zero t frame mem = (t, nothing)
deliver_rounds (suc fuel) t frame mem =
    deliver_found t frame mem (lowest (active t) sig_max 1) λ u. deliver_rounds fuel u frame mem

unfoldable pub signal_check_and_deliver : SigTask → TrapFrame → Memory → SigTask × Outcome
signal_check_and_deliver t frame mem =
    if frame.spsr % 16 == 0 then deliver_rounds 32 t frame mem else (t, nothing)

-- The restored frame, or `none` for the end of the task.
unfoldable pub signal_sigreturn : TrapFrame → Memory → Option TrapFrame
signal_sigreturn frame mem =
    let user_sp = frame.sp in
    if leb user_stack_top user_sp || ltb user_stack_top ((user_sp + 280) % 2 ^ 64)
    then none
    else some (record {
      regs = λ i. if ltb i 31 then mem (user_sp + 8 * i) else frame.regs i;
      elr = mem (user_sp + 256);
      spsr = mem (user_sp + 264);
      sp = mem (user_sp + 248);
    })

-- Whether it returns 0 or -1, and the task.
unfoldable pub signal_sigaction : SigTask → ℕ → ℕ → Bool × SigTask
signal_sigaction t signum handler =
    if ltb signum 1 || ltb sig_max signum || signum == sigkill
    then (false, t)
    else (true, record t { sig_handlers = λ n. if signum == n then handler else t.sig_handlers n })

unfoldable pub u32_ptr_ok : ℕ → Bool
u32_ptr_ok ptr =
    let end = (ptr + 4) % 2 ^ 64 in
    if ptr == 0 then false else if ltb user_stack_top end || ltb end ptr then false else true

-- The new mask by `how`; `none` for a value that is none of the three.
unfoldable pub new_blocked : ℕ → Mask → Mask → Option Mask
new_blocked how old set =
    if how == 0
    then some (λ n. old n || set n)
    else if how == 1
    then some (λ n. old n && not (set n))
    else if how == 2
    then some set
    else none

unfoldable pub store_blocked : SigTask → Option Mask → Option SigTask
store_blocked t none = none
store_blocked t (some blocked) = some (record t { sig_blocked = without sigkill blocked })

-- The second half of `signal_sigprocmask`: the old mask goes to user memory, if it is asked for.
unfoldable pub old_to_user : ℕ → SigTask → Mask → Option SigTask → Bool × SigTask × Option Mask
old_to_user oldset_ptr t oldmask none = (false, t, none)
old_to_user oldset_ptr t oldmask (some t') =
    if oldset_ptr == 0
    then (true, t', none)
    else if u32_ptr_ok oldset_ptr
    then (true, t', some oldmask)
    else (false, t', none)

-- `signal_sigprocmask`, with `set` the word at `set_ptr`: whether it returns 0, the task, and what is
-- written at `oldset_ptr`.
unfoldable pub signal_sigprocmask : SigTask → ℕ → ℕ → Mask → ℕ → Bool × SigTask × Option Mask
signal_sigprocmask t how set_ptr set oldset_ptr =
    let changed =
      if u32_ptr_ok set_ptr then store_blocked t (new_blocked how t.sig_blocked set) else none in
    old_to_user oldset_ptr t t.sig_blocked (if set_ptr == 0 then some t else changed)

abbrev pub ticks_per_sec : ℕ
ticks_per_sec = 100

unfoldable pub signal_alarm : SigTask → ℕ → ℕ × SigTask
signal_alarm t seconds =
    let prev_seconds = (t.sig_alarm_ticks + ticks_per_sec - 1) % 2 ^ 64 / ticks_per_sec in
    (prev_seconds, record t { sig_alarm_ticks = seconds * ticks_per_sec % 2 ^ 64 })

-- The body of the loop of `signal_tick_alarms`.
unfoldable pub tick_alarm : SigTask → SigTask
tick_alarm t =
    let left = t.sig_alarm_ticks - 1 in
    if t.sig_alarm_ticks == 0
    then t
    else if left == 0
    then record t { sig_alarm_ticks = 0; sig_pending = with_signal sigalrm t.sig_pending }
    else record t { sig_alarm_ticks = left }

unfoldable pub signal_tick_alarms : List SigTask → List SigTask
signal_tick_alarms ts = map tick_alarm ts
