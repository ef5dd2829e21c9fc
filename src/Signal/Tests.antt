-- ===== src/Signal/Tests.antt =====
-- Runs of syscall/signal.c on a task with a handler for SIGALRM.
use cortex_forge_aarch64_bar.Prelude.{
  ℕ, ◌+◌, ◌*◌, ◌≡◌, refl, ◌==◌, ltb, if◌then◌else◌, arith, true, false, Option, none, some,
}
use cortex_forge_aarch64_bar.Signal.{
  SigTask, TrapFrame, Memory, Outcome, nothing, terminated, entered, sigalrm, with_signal,
  signal_check_and_deliver, deliver_rounds, deliver_found, deliver_one, lowest, frame_base,
  stack_lo, signal_sigreturn, signal_sigprocmask, signal_alarm, ticks_per_sec, save_frame,
}
use cortex_forge_aarch64_bar.Signal.Pick.{CheckOutcome, signal_check_and_deliver-CheckOutcome}
use cortex_forge_aarch64_bar.Signal.Deliver.{Restored, signal_sigreturn-deliver_one}
use cortex_forge_aarch64_bar.Signal.Alarm.{signal_alarm-scheduler_ticks, scheduler_ticks}

abbrev fresh : SigTask
fresh = record {
  sig_handlers = λ n. 0;
  sig_pending = λ n. false;
  sig_blocked = λ n. false;
  sig_alarm_ticks = 0;
  stack_grown_count = 0;
}

-- Signal 5 is ignored, SIGALRM has a handler, and both are pending.
abbrev two_pending : SigTask
two_pending = record fresh {
  sig_handlers = λ n. if n == 5 then 1 else if n == 14 then 0x400100 else 0;
  sig_pending = λ n. if n == 5 then true else n == 14;
}

abbrev running : TrapFrame
running = record { regs = λ i. 100 + i; elr = 0x400040; spsr = 0; sp = 0x7FFFF0 }

abbrev user_memory : Memory
user_memory a = 0

abbrev chosen_signal : SigTask × Outcome → Option (ℕ × ℕ)
chosen_signal (t, nothing) = none
chosen_signal (t, terminated n) = some (n, 0)
chosen_signal (t, entered f m) = some (f.regs 0, f.sp)

test_alarm :
    chosen_signal (signal_check_and_deliver two_pending running user_memory) ≡ some (14, 0x7FFED0)
unfolding signal_check_and_deliver deliver_rounds deliver_found deliver_one lowest frame_base
    stack_lo
test_alarm = refl

signal_check_and_deliver-CheckOutcome_example :
    CheckOutcome two_pending running user_memory
      (signal_check_and_deliver two_pending running user_memory)
signal_check_and_deliver-CheckOutcome_example =
    signal_check_and_deliver-CheckOutcome two_pending running user_memory

-- The frame in the handler, and when it calls sigreturn with other registers.
abbrev in_handler : TrapFrame
in_handler = record running {
  regs = λ i. if i == 0 then 14 else if i == 30 then 0x300000 else 100 + i;
  elr = 0x400100;
  sp = 0x7FFED0;
}

abbrev at_sigreturn : TrapFrame
at_sigreturn = record { regs = λ i. 7; elr = 0x300004; spsr = 0; sp = 0x7FFED0 }

test_entered :
    deliver_one two_pending running 14 0x400100 user_memory
    ≡ entered in_handler (save_frame 0x7FFED0 running user_memory)
unfolding deliver_one frame_base stack_lo
test_entered = refl

signal_sigreturn-deliver_one_example :
    Restored running (signal_sigreturn at_sigreturn (save_frame 0x7FFED0 running user_memory))
signal_sigreturn-deliver_one_example =
    signal_sigreturn-deliver_one two_pending running in_handler 14 0x400100 user_memory
      (save_frame 0x7FFED0 running user_memory) at_sigreturn
      (save_frame 0x7FFED0 running user_memory) (omega arith) test_entered refl (λ i lt. refl)

-- SIGKILL is raised behind an attempt to block every signal.
abbrev under_kill : SigTask
under_kill = record (signal_sigprocmask fresh 2 0x400000 (λ n. true) 0).1 {
  sig_pending = λ n.
      if 9 == n then true else (signal_sigprocmask fresh 2 0x400000 (λ n. true) 0).1.sig_pending n;
}

signal_alarm-scheduler_ticks_example :
    (scheduler_ticks 300 (signal_alarm fresh 3).1).sig_pending ≡ (
      if ltb 300 (3 * ticks_per_sec)
      then fresh.sig_pending
      else with_signal sigalrm fresh.sig_pending)
signal_alarm-scheduler_ticks_example =
    signal_alarm-scheduler_ticks 300 fresh 3 (omega arith) (omega arith)
