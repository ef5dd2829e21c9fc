-- ===== src/Signal/Kill.antt =====
-- `signal_check_and_deliver` of syscall/signal.c on a task that SIGKILL is pending for.
use cortex_forge_aarch64_bar.Prelude.{ℕ, ◌≤◌, ◌⊎◌, ◌≡◌, ◌≢◌, ◌<◌, true}
use cortex_forge_aarch64_bar.Signal.{
  SigTask, Outcome, nothing, terminated, entered, sigkill, sig_ign, active, sig_dfl,
}

-- The lowest active signal of a task that is not ignored, up to SIGKILL.
pub record FirstSignal (t : SigTask) (n : ℕ) : Type 0 where
  pub from_one : 1 ≤ n
  pub to_kill : n ≤ sigkill
  pub was_active : active t n ≡ true
  pub not_ignored : (n ≡ sigkill) ⊎ (t.sig_handlers n ≢ sig_ign)
  pub lower_ignored : (i : ℕ) → 1 ≤ i → i < n → active t i ≡ true → t.sig_handlers i ≡ sig_ign

-- How a task that SIGKILL is pending for returns to user mode: never as it was, but ended by a signal
-- up to SIGKILL, or in the handler of a lower signal, with SIGKILL still pending. The signal is the
-- lowest active one that is not ignored.
abbrev pub KillOutcome : SigTask → SigTask × Outcome → Type 0
KillOutcome t (t', nothing) = ⊥
KillOutcome t (t', terminated n) = FirstSignal t n
KillOutcome t (t', entered f m) =
    FirstSignal t (f.regs 0)
    × (f.regs 0 < sigkill)
    × (t.sig_handlers (f.regs 0) ≢ sig_ign)
    × (t.sig_handlers (f.regs 0) ≢ sig_dfl)
    × (f.elr ≡ t.sig_handlers (f.regs 0))
    × (t'.sig_pending sigkill ≡ true)
