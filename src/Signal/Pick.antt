-- ===== src/Signal/Pick.antt =====
-- The loop of `signal_check_and_deliver` of syscall/signal.c: which signal it takes.
use cortex_forge_aarch64_bar.Prelude.{
  ℕ, zero, suc, ◌+◌, ◌%◌, ◌≡◌, ◌≢◌, ◌≤◌, ◌<◌, ◌⊎◌, inl, inr, refl, sym, ◌∙◌, ap, ◌==◌, leb, ltb,
  if◌then◌else◌, arith, Bool-cases, true, false, ◌&&◌,
}
use cortex_forge_aarch64_bar.Signal.{
  SigTask, TrapFrame, Memory, Mask, Outcome, nothing, terminated, sig_max, sigkill, sig_ign,
  sig_dfl, take_signal, active, lowest, deliver_one, deliver_found, deliver_rounds,
  signal_check_and_deliver,
}

-- What `lowest` finds among the numbers from `n` on.
abbrev Lowest : Mask → ℕ → ℕ → ℕ → Type 0
Lowest mask count n r =
    ((r ≡ 0) × ((i : ℕ) → n ≤ i → i < n + count → mask i ≡ false))
    ⊎ ((n ≤ r) × (r < n + count) × (mask r ≡ true) × ((i : ℕ) → n ≤ i → i < r → mask i ≡ false))

Lowest-later :
    (mask : Mask) (count n r : ℕ)
    → mask n ≡ false
    → Lowest mask count (suc n) r
    → Lowest mask (suc count) n r
Lowest-later mask count n r out (inl (z, h)) = inl (
  z,
  λ i le lt. elim (Bool-cases (n == i)) [
    | inl same ↦ let e : n ≡ i = ground arith in rw (← e) out
    | inr other ↦ h i (ground arith) (omega arith)
  ],
)
Lowest-later mask count n r out (inr (le, lt, on, h)) = inr (
  omega arith,
  omega arith,
  on,
  λ i le' lt'. elim (Bool-cases (n == i)) [
    | inl same ↦ let e : n ≡ i = ground arith in rw (← e) out
    | inr other ↦ h i (ground arith) lt'
  ],
)

lowest-Lowest : (mask : Mask) (count n : ℕ) → Lowest mask count n (lowest mask count n)
unfolding lowest
lowest-Lowest mask zero n = inl (refl, λ i le lt. absurd (omega arith))
lowest-Lowest mask (suc count) n =
    let later = lowest-Lowest mask count (suc n) in
    elim (Bool-cases (mask n)) [
      | inl on ↦ rw on (inr (omega arith, omega arith, on, λ i le lt. absurd (omega arith)))
      | inr out ↦ rw out (Lowest-later mask count n (lowest mask count (suc n)) out later)
    ]

-- All active signals below `k` were ignored, and they alone are no longer pending.
pub record Passed (t t' : SigTask) (k : ℕ) : Type 0 where
  pub ignored :
      (n : ℕ) → 1 ≤ n → n < k → active t n ≡ true → (n ≢ sigkill) × (t.sig_handlers n ≡ sig_ign)
  pub pending :
      (n : ℕ)
      → t'.sig_pending n ≡ (if leb 1 n && (ltb n k && active t n) then false else t.sig_pending n)
  pub handlers : t'.sig_handlers ≡ t.sig_handlers
  pub blocked : t'.sig_blocked ≡ t.sig_blocked
  pub grown : t'.stack_grown_count ≡ t.stack_grown_count
  pub alarm : t'.sig_alarm_ticks ≡ t.sig_alarm_ticks

Passed-start : (t : SigTask) → Passed t t 1
Passed-start t = record {
  ignored = λ n le lt on. absurd (omega arith);
  pending = λ n. ground arith;
  handlers = refl;
  blocked = refl;
  grown = refl;
  alarm = refl;
}

Passed-skip :
    (t t' : SigTask) (k r : ℕ)
    → Passed t t' k
    → 1 ≤ k
    → k ≤ r
    → ((i : ℕ) → k ≤ i → i < r → active t' i ≡ false)
    → Passed t t' r
Passed-skip t t' k r h one le out =
    let same : (n : ℕ) → k ≤ n → active t' n ≡ active t n =
      λ n ge. let p = h.pending n in let q = ap (λ f. f n) h.blocked in ground arith in
    record {
      ignored = λ n le1 lt on. elim (Bool-cases (ltb n k)) [
        | inl below ↦ h.ignored n le1 (ground arith) on
        | inr above ↦
            let a = same n (ground arith) in
            let b = out n (ground arith) lt in absurd (ground arith)
      ];
      pending = λ n. elim (Bool-cases (ltb n k)) [
        | inl below ↦ let a = h.pending n in ground arith
        | inr above ↦ elim (Bool-cases (ltb n r)) [
          | inl inside ↦
              let a = same n (ground arith) in
              let b = out n (ground arith) (ground arith) in let c = h.pending n in ground arith
          | inr outside ↦ let c = h.pending n in ground arith
        ]
      ];
      handlers = h.handlers;
      blocked = h.blocked;
      grown = h.grown;
      alarm = h.alarm;
    }

Passed-take :
    (t t' : SigTask) (r : ℕ)
    → Passed t t' r
    → 1 ≤ r
    → active t' r ≡ true
    → r ≢ sigkill
    → t'.sig_handlers r ≡ sig_ign
    → Passed t (take_signal r t') (suc r)
Passed-take t t' r h one on ne ign = record {
  ignored = λ n le lt act. elim (Bool-cases (r == n)) [
    | inl same ↦ let e : r ≡ n = ground arith in rw (← e) (ne, sym (ap (λ f. f r) h.handlers) ∙ ign)
    | inr other ↦ h.ignored n le (ground arith) act
  ];
  pending = λ n.
      let p = h.pending n in
      let q = h.pending r in
      let b = ap (λ f. f r) h.blocked in
      elim (Bool-cases (r == n)) [
        | inl same ↦
            let e : r ≡ n = ground arith in
            let act : active t r ≡ true = ground arith in rw (← e) (ground arith)
        | inr other ↦ ground arith
      ];
  handlers = h.handlers;
  blocked = h.blocked;
  grown = h.grown;
  alarm = h.alarm;
}

-- What becomes of a signal that is not ignored.
abbrev pub final : SigTask → ℕ → TrapFrame → Memory → Outcome
final t n frame mem =
    if n == sigkill
    then terminated n
    else if t.sig_handlers n == sig_dfl
    then terminated n
    else deliver_one t frame n (t.sig_handlers n) mem

-- The signal that ends the loop: the lowest active one that is not ignored.
pub record Chosen (t : SigTask) (frame : TrapFrame) (mem : Memory) (t' : SigTask) (o : Outcome)
    : Type 0 where
  pub signal : ℕ
  pub in_range : (1 ≤ signal) × (signal ≤ sig_max)
  pub was_active : active t signal ≡ true
  pub not_ignored : (signal ≡ sigkill) ⊎ (t.sig_handlers signal ≢ sig_ign)
  pub ahead : SigTask
  pub lower : Passed t ahead signal
  pub taken : t' ≡ take_signal signal ahead
  pub result : o ≡ final t' signal frame mem

abbrev pub PickOutcome : SigTask → TrapFrame → Memory → SigTask × Outcome → Type 0
PickOutcome t frame mem (t', o) =
    (Passed t t' (suc sig_max) × (o ≡ nothing)) ⊎ Chosen t frame mem t' o

-- The facts about the signal that a round found.
module _ (t0 t : SigTask) (frame : TrapFrame) (mem : Memory) (r : ℕ) where
  abbrev Round : Type 0
  Round = (1 ≤ r) × (r ≤ sig_max) × Passed t0 t r × (active t r ≡ true)

  round-Chosen :
      (o : Outcome)
      → Round
      → (r ≡ sigkill) ⊎ (t.sig_handlers r ≢ sig_ign)
      → o ≡ final (take_signal r t) r frame mem
      → Chosen t0 frame mem (take_signal r t) o
  round-Chosen o (one, le, h, on) not_ign e =
      let p = h.pending r in
      let b = ap (λ f. f r) h.blocked in
      let c = ap (λ f. f r) h.handlers in
      record {
        signal = r;
        in_range = (one, le);
        was_active = ground arith;
        not_ignored = elim not_ign [ inl k ↦ inl k | inr ne ↦ inr (λ q. ne (c ∙ q)) ];
        ahead = t;
        lower = h;
        taken = refl;
        result = e;
      }

deliver_found-PickOutcome :
    (k : ℕ) (t0 t : SigTask) (frame : TrapFrame) (mem : Memory) (r : ℕ)
    (again : SigTask → SigTask × Outcome)
    → Passed t0 t k
    → 1 ≤ k
    → k ≤ suc sig_max
    → Lowest (active t) sig_max 1 r
    → (k ≤ r
        → r ≤ sig_max
        → Passed t0 (take_signal r t) (suc r)
        → PickOutcome t0 frame mem (again (take_signal r t)))
    → PickOutcome t0 frame mem (deliver_found t frame mem r again)
unfolding deliver_found
deliver_found-PickOutcome k t0 t frame mem r again h one le (inl (z, out)) more =
    let e : (r == 0) ≡ true = ground arith in
    rw e (
      inl (
        Passed-skip t0 t k (suc sig_max) h one le (λ i a b. out i (omega arith) (omega arith)),
        refl,
      ))
deliver_found-PickOutcome k t0 t frame mem r again h one le (inr (ge, lt, on, out)) more =
    let e : (r == 0) ≡ false = ground arith in
    let behind : k ≤ r = elim (Bool-cases (ltb r k)) [
      | inl below ↦ let p = h.pending r in let b = ap (λ f. f r) h.blocked in absurd (ground arith)
      | inr above ↦ ground arith
    ] in
    let at_r = Passed-skip t0 t k r h one behind (λ i a b. out i (omega arith) b) in
    let round : Round t0 t frame mem r = (ge, omega arith, at_r, on) in
    elim (Bool-cases (r == sigkill)) [
      | inl kill ↦
          let is_kill : r ≡ sigkill = ground arith in
          rw (e, kill)
            (inr (round-Chosen t0 t frame mem r (terminated r) round (inl is_kill) (rw kill refl)))
      | inr not_kill ↦ elim (Bool-cases (t.sig_handlers r == sig_ign)) [
        | inl ign ↦
            rw (e, not_kill, ign)
              (more behind (omega arith)
                (Passed-take t0 t r at_r ge on (λ q. ground arith) (ground arith)))
        | inr not_ign ↦ elim (Bool-cases (t.sig_handlers r == sig_dfl)) [
          | inl dfl ↦
              rw (e, not_kill, not_ign, dfl)
                (inr (
                  round-Chosen t0 t frame mem r (terminated r) round (inr (λ q. ground arith))
                    (rw (not_kill, dfl) refl)))
          | inr not_dfl ↦
              rw (e, not_kill, not_ign, not_dfl)
                (inr (
                  round-Chosen t0 t frame mem r
                    (deliver_one (take_signal r t) frame r (t.sig_handlers r) mem) round
                    (inr (λ q. ground arith)) (rw (not_kill, not_dfl) refl)))
        ]
      ]
    ]

deliver_rounds-PickOutcome :
    (fuel k : ℕ) (t0 t : SigTask) (frame : TrapFrame) (mem : Memory)
    → Passed t0 t k
    → 1 ≤ k
    → k ≤ suc sig_max
    → suc sig_max < k + fuel
    → PickOutcome t0 frame mem (deliver_rounds fuel t frame mem)
unfolding deliver_rounds
deliver_rounds-PickOutcome zero k t0 t frame mem h one le enough = absurd (omega arith)
deliver_rounds-PickOutcome (suc fuel) k t0 t frame mem h one le enough =
    let r = lowest (active t) sig_max 1 in
    let ih = deliver_rounds-PickOutcome fuel (suc r) t0 (take_signal r t) frame mem in
    deliver_found-PickOutcome k t0 t frame mem r (λ u. deliver_rounds fuel u frame mem) h one le
      (lowest-Lowest (active t) sig_max 1)
      λ behind small passed. ih passed (omega arith) (omega arith) (omega arith)

-- The outcomes of `signal_check_and_deliver`, by the mode that the frame returns to.
abbrev pub CheckOutcome : SigTask → TrapFrame → Memory → SigTask × Outcome → Type 0
CheckOutcome t frame mem out =
    ((frame.spsr % 16 ≢ 0) × (out ≡ (t, nothing)))
    ⊎ ((frame.spsr % 16 ≡ 0) × PickOutcome t frame mem out)

-- On the way back to kernel mode nothing happens. On the way back to user mode, either every active
-- signal was set to be ignored, all of them and no others are no longer pending, and nothing else
-- happens; or the lowest active signal that is SIGKILL or not ignored is taken, together with the
-- ignored ones below it, and it ends the task (SIGKILL, or the default action) or enters its handler,
-- whose frame overflows the stack or not as `deliver_one` says. The fuel of the loop is enough.
pub signal_check_and_deliver-CheckOutcome :
    (t : SigTask) (frame : TrapFrame) (mem : Memory)
    → CheckOutcome t frame mem (signal_check_and_deliver t frame mem)
unfolding signal_check_and_deliver
signal_check_and_deliver-CheckOutcome t frame mem = elim (Bool-cases (frame.spsr % 16 == 0)) [
  | inl user ↦ rw user (
      inr (
        ground arith,
        deliver_rounds-PickOutcome 32 1 t t frame mem (Passed-start t) (omega arith) (omega arith)
            (omega arith),
      ))
  | inr kernel ↦ rw kernel (inl ((λ q. ground arith), refl))
]
