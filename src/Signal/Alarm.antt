-- ===== src/Signal/Alarm.antt =====
-- `signal_alarm` and `signal_tick_alarms` of syscall/signal.c over scheduler ticks.
use cortex_forge_aarch64_bar.Prelude.{
  ℕ, zero, suc, ◌-◌, ◌*◌, ◌%◌, ◌^◌, ◌≡◌, ◌<◌, inl, inr, refl, ◌==◌, ltb, if◌then◌else◌, arith,
  Bool-cases, true, false,
}
use cortex_forge_aarch64_bar.Signal.{
  SigTask, sigalrm, with_signal, ticks_per_sec, signal_alarm, tick_alarm,
}
use native.Mathlib.Nat.{mod-eq_of_lt}

-- So many scheduler ticks. The handler of the timer calls `signal_tick_alarms` in each, and not in the
-- interrupts before the next tick is due, which only release periodic tasks.
unfoldable pub scheduler_ticks : ℕ → SigTask → SigTask
scheduler_ticks zero t = t
scheduler_ticks (suc n) t = scheduler_ticks n (tick_alarm t)

scheduler_ticks-off :
    (n : ℕ) (t : SigTask)
    → t.sig_alarm_ticks ≡ 0
    → (scheduler_ticks n t).sig_pending ≡ t.sig_pending
unfolding scheduler_ticks tick_alarm
scheduler_ticks-off zero t off = refl
scheduler_ticks-off (suc n) t off =
    let e : (t.sig_alarm_ticks == 0) ≡ true = ground arith in
    rw (scheduler_ticks, e) (scheduler_ticks-off n t off)

scheduler_ticks-pending :
    (n : ℕ) (t : SigTask)
    → 0 < t.sig_alarm_ticks
    → (scheduler_ticks n t).sig_pending
      ≡ (if ltb n t.sig_alarm_ticks then t.sig_pending else with_signal sigalrm t.sig_pending)
unfolding scheduler_ticks tick_alarm
scheduler_ticks-pending zero t on =
    let e : ltb 0 t.sig_alarm_ticks ≡ true = ground arith in rw e refl
scheduler_ticks-pending (suc n) t on =
    let a : (t.sig_alarm_ticks == 0) ≡ false = ground arith in
    elim (Bool-cases (t.sig_alarm_ticks - 1 == 0)) [
      | inl over ↦
          let b : ltb (suc n) t.sig_alarm_ticks ≡ false = ground arith in
          rw (scheduler_ticks, a, over, b) (scheduler_ticks-off n _ refl)
      | inr left ↦
          let b : ltb (suc n) t.sig_alarm_ticks ≡ ltb n (t.sig_alarm_ticks - 1) = ground arith in
          rw (scheduler_ticks, a, left, b)
            (scheduler_ticks-pending n (record t { sig_alarm_ticks = t.sig_alarm_ticks - 1 })
              (ground arith))
    ]

-- An alarm of `seconds` seconds, at least one and few enough that its ticks fit 64 bits, leaves the
-- pending signals alone for fewer than `seconds` times 100 scheduler ticks. With the last of these
-- SIGALRM is added, and no later one adds anything else.
pub signal_alarm-scheduler_ticks :
    (n : ℕ) (t : SigTask) (seconds : ℕ)
    → 0 < seconds
    → seconds * ticks_per_sec < 2 ^ 64
    → (scheduler_ticks n (signal_alarm t seconds).1).sig_pending ≡ (
        if ltb n (seconds * ticks_per_sec)
        then t.sig_pending
        else with_signal sigalrm t.sig_pending)
unfolding signal_alarm
signal_alarm-scheduler_ticks n t seconds some_time fits =
    let e : seconds * ticks_per_sec % 2 ^ 64 ≡ seconds * ticks_per_sec = mod-eq_of_lt fits in
    rw e (
      scheduler_ticks-pending n (record t { sig_alarm_ticks = seconds * ticks_per_sec })
        (omega arith))
