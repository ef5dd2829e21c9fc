-- ===== src/Signal/Mask.antt =====
-- The handlers and masks of syscall/signal.c: SIGKILL is never blocked and never has a handler.
use cortex_forge_aarch64_bar.Prelude.{
  ℕ, suc, ◌-◌, ◌≡◌, inl, inr, refl, ◌∙◌, ap, ◌==◌, ltb, arith, Bool-cases, false, ◌||◌, Option,
  none, some,
}
use cortex_forge_aarch64_bar.Signal.{
  SigTask, TrapFrame, Memory, Mask, Outcome, sigkill, sig_max, sig_dfl, without, with_signal,
  signal_sigaction, u32_ptr_ok, new_blocked, store_blocked, old_to_user, signal_sigprocmask,
  signal_alarm, tick_alarm, signal_check_and_deliver,
}
use cortex_forge_aarch64_bar.Signal.Pick.{
  Passed, CheckOutcome, signal_check_and_deliver-CheckOutcome,
}

-- SIGKILL is not blocked, and its action is the default one.
pub record Killable (t : SigTask) : Type 0 where
  pub unblocked : t.sig_blocked sigkill ≡ false
  pub default : t.sig_handlers sigkill ≡ sig_dfl

-- What is done to the signals of a task, in any order: the system calls of user mode, `kill` by
-- another task, the scheduler ticks, and the deliveries on the way back to user mode.
pub data SigReach : SigTask → Type 0 where
  started :
      (t : SigTask)
      → ((n : ℕ) → t.sig_handlers n ≡ sig_dfl)
      → ((n : ℕ) → t.sig_blocked n ≡ false)
      → SigReach t
  acted :
      {t : SigTask} (signum handler : ℕ)
      → SigReach t
      → SigReach (signal_sigaction t signum handler).1
  masked :
      {t : SigTask} (how set_ptr : ℕ) (set : Mask) (oldset_ptr : ℕ)
      → SigReach t
      → SigReach (signal_sigprocmask t how set_ptr set oldset_ptr).1
  killed :
      {t : SigTask} (n : ℕ)
      → SigReach t
      → SigReach (record t { sig_pending = with_signal n t.sig_pending })
  alarmed : {t : SigTask} (seconds : ℕ) → SigReach t → SigReach (signal_alarm t seconds).1
  ticked : {t : SigTask} → SigReach t → SigReach (tick_alarm t)
  delivered :
      {t : SigTask} (frame : TrapFrame) (mem : Memory)
      → SigReach t
      → SigReach (signal_check_and_deliver t frame mem).0

signal_sigaction-Killable :
    (t : SigTask) (signum handler : ℕ) → Killable t → Killable (signal_sigaction t signum handler).1
unfolding signal_sigaction
signal_sigaction-Killable t signum handler h =
    elim (Bool-cases (ltb signum 1 || ltb sig_max signum || signum == sigkill)) [
      | inl bad ↦ rw bad h
      | inr good ↦
          let e : (signum == sigkill) ≡ false = ground arith in
          rw good (record { unblocked = h.unblocked; default = rw e h.default })
    ]

store_blocked-Killable :
    (t : SigTask) (blocked : Mask)
    → Killable t
    → Killable (record t { sig_blocked = without sigkill blocked })
store_blocked-Killable t blocked h = record { unblocked = refl; default = h.default }

old_to_user-Killable :
    (oldset_ptr : ℕ) (t t' : SigTask) (old : Mask)
    → Killable t'
    → Killable (old_to_user oldset_ptr t old (some t')).1
unfolding old_to_user
old_to_user-Killable oldset_ptr t t' old h = elim (Bool-cases (oldset_ptr == 0)) [
  | inl null ↦ rw null h
  | inr asked ↦ elim (Bool-cases (u32_ptr_ok oldset_ptr)) [
    | inl good ↦ rw (asked, good) h
    | inr bad ↦ rw (asked, bad) h
  ]
]

stored-Killable :
    (oldset_ptr : ℕ) (t : SigTask) (blocked : Option Mask)
    → Killable t
    → Killable (old_to_user oldset_ptr t t.sig_blocked (store_blocked t blocked)).1
unfolding store_blocked old_to_user
stored-Killable oldset_ptr t none h = h
stored-Killable oldset_ptr t (some blocked) h =
    old_to_user-Killable oldset_ptr t (record t { sig_blocked = without sigkill blocked })
      t.sig_blocked (store_blocked-Killable t blocked h)

signal_sigprocmask-Killable :
    (t : SigTask) (how set_ptr : ℕ) (set : Mask) (oldset_ptr : ℕ)
    → Killable t
    → Killable (signal_sigprocmask t how set_ptr set oldset_ptr).1
unfolding signal_sigprocmask store_blocked
signal_sigprocmask-Killable t how set_ptr set oldset_ptr h = elim (Bool-cases (set_ptr == 0)) [
  | inl null ↦ rw null (old_to_user-Killable oldset_ptr t t t.sig_blocked h)
  | inr given ↦ elim (Bool-cases (u32_ptr_ok set_ptr)) [
    | inl good ↦
        rw (given, good) (stored-Killable oldset_ptr t (new_blocked how t.sig_blocked set) h)
    | inr bad ↦ rw (given, bad) (stored-Killable oldset_ptr t none h)
  ]
]

tick_alarm-Killable : (t : SigTask) → Killable t → Killable (tick_alarm t)
unfolding tick_alarm
tick_alarm-Killable t h = elim (Bool-cases (t.sig_alarm_ticks == 0)) [
  | inl off ↦ rw off h
  | inr on ↦ elim (Bool-cases (t.sig_alarm_ticks - 1 == 0)) [
    | inl over ↦ rw (on, over) (record { unblocked = h.unblocked; default = h.default })
    | inr left ↦ rw (on, left) (record { unblocked = h.unblocked; default = h.default })
  ]
]

Passed-Killable : (t t' : SigTask) (k : ℕ) → Passed t t' k → Killable t → Killable t'
Passed-Killable t t' k p h = record {
  unblocked = ap (λ f. f sigkill) p.blocked ∙ h.unblocked;
  default = ap (λ f. f sigkill) p.handlers ∙ h.default;
}

CheckOutcome-Killable :
    (t : SigTask) (frame : TrapFrame) (mem : Memory) (out : SigTask × Outcome)
    → CheckOutcome t frame mem out
    → Killable t
    → Killable out.0
CheckOutcome-Killable t frame mem out (inl (kernel, same)) h = rw same h
CheckOutcome-Killable t frame mem out (inr (user, inl (passed, e))) h =
    Passed-Killable t out.0 (suc sig_max) passed h
CheckOutcome-Killable t frame mem out (inr (user, inr chosen)) h =
    let k = Passed-Killable t chosen.ahead chosen.signal chosen.lower h in
    rw chosen.taken (record { unblocked = k.unblocked; default = k.default })

-- Whatever system calls, kills, scheduler ticks and deliveries have happened since a task started with default
-- actions and an empty mask, SIGKILL is not blocked and has its default action.
pub SigReach-Killable : (t : SigTask) → SigReach t → Killable t
unfolding signal_alarm
SigReach-Killable t (started _ dfl clear) = record {
  unblocked = clear sigkill;
  default = dfl sigkill;
}
SigReach-Killable t (acted {t = u} signum handler r) =
    signal_sigaction-Killable u signum handler (SigReach-Killable u r)
SigReach-Killable t (masked {t = u} how set_ptr set oldset_ptr r) =
    signal_sigprocmask-Killable u how set_ptr set oldset_ptr (SigReach-Killable u r)
SigReach-Killable t (killed {t = u} n r) =
    let h = SigReach-Killable u r in record { unblocked = h.unblocked; default = h.default }
SigReach-Killable t (alarmed {t = u} seconds r) =
    let h = SigReach-Killable u r in record { unblocked = h.unblocked; default = h.default }
SigReach-Killable t (ticked {t = u} r) = tick_alarm-Killable u (SigReach-Killable u r)
SigReach-Killable t (delivered {t = u} frame mem r) =
    CheckOutcome-Killable u frame mem (signal_check_and_deliver u frame mem)
      (signal_check_and_deliver-CheckOutcome u frame mem) (SigReach-Killable u r)
