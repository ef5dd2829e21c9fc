-- ===== src/Signal/Deliver.antt =====
-- The signal frame of syscall/signal.c: where `deliver_one` writes, and that `signal_sigreturn`
-- brings the interrupted context back.
use cortex_forge_aarch64_bar.Prelude.{
  ℕ, zero, suc, ◌+◌, ◌*◌, ◌%◌, ◌^◌, ◌≡◌, ◌≢◌, ◌≤◌, ◌<◌, ◌⊎◌, inl, inr, refl, ◌∙◌, ap, ◌==◌, leb,
  ltb, arith, Bool-cases, true, false, ◌||◌, Option, none, some,
}
use cortex_forge_aarch64_bar.Signal.{
  SigTask, TrapFrame, Memory, Outcome, nothing, terminated, entered, write, save_regs, save_frame,
  frame_base, stack_lo, user_stack_top, sigframe_reserve, deliver_one, signal_sigreturn,
}
use mathlib.Core.Path.{subst}

save_regs-inside :
    (n base : ℕ) (regs : ℕ → ℕ) (mem : Memory) (i : ℕ)
    → i < n
    → save_regs n base regs mem (base + 8 * i) ≡ regs i
unfolding save_regs
save_regs-inside zero base regs mem i lt = absurd (omega arith)
save_regs-inside (suc n) base regs mem i lt =
    let ih = save_regs-inside n base regs mem i in
    elim (Bool-cases (base + 8 * n == base + 8 * i)) [
      | inl same ↦ let e : n ≡ i = ground arith in rw same (ap regs e)
      | inr other ↦ rw other (ih (ground arith))
    ]

save_regs-outside :
    (n base : ℕ) (regs : ℕ → ℕ) (mem : Memory) (a : ℕ)
    → (a < base) ⊎ (base + 8 * n ≤ a)
    → save_regs n base regs mem a ≡ mem a
unfolding save_regs
save_regs-outside zero base regs mem a out = refl
save_regs-outside (suc n) base regs mem a out =
    let ih = save_regs-outside n base regs mem a (grind arith) in
    let e : (base + 8 * n == a) ≡ false = grind arith in rw e ih

write-other : (a v : ℕ) (mem : Memory) (b : ℕ) → a ≢ b → write a v mem b ≡ mem b
write-other a v mem b ne = let e : (a == b) ≡ false = ground arith in rw e refl

-- The words of a saved frame.
pub record Saved (base : ℕ) (frame : TrapFrame) (mem : Memory) : Type 0 where
  pub regs : (i : ℕ) → i < 31 → mem (base + 8 * i) ≡ frame.regs i
  pub sp : mem (base + 248) ≡ frame.sp
  pub elr : mem (base + 256) ≡ frame.elr
  pub spsr : mem (base + 264) ≡ frame.spsr

save_frame-Saved :
    (base : ℕ) (frame : TrapFrame) (mem : Memory) → Saved base frame (save_frame base frame mem)
unfolding save_frame
save_frame-Saved base frame mem = record {
  regs = λ i lt.
      let inside = save_regs-inside 31 base frame.regs mem i lt in
      let e1 : (base + 272 == base + 8 * i) ≡ false = ground arith in
      let e2 : (base + 264 == base + 8 * i) ≡ false = ground arith in
      let e3 : (base + 256 == base + 8 * i) ≡ false = ground arith in
      let e4 : (base + 248 == base + 8 * i) ≡ false = ground arith in rw (e1, e2, e3, e4) inside;
  sp = ground arith;
  elr = ground arith;
  spsr = ground arith;
}

save_frame-outside :
    (base : ℕ) (frame : TrapFrame) (mem : Memory) (a : ℕ)
    → (a < base) ⊎ (base + sigframe_reserve ≤ a)
    → save_frame base frame mem a ≡ mem a
unfolding save_frame
save_frame-outside base frame mem a out =
    let outside = save_regs-outside 31 base frame.regs mem a (grind arith) in
    let e1 : (base + 272 == a) ≡ false = grind arith in
    let e2 : (base + 264 == a) ≡ false = grind arith in
    let e3 : (base + 256 == a) ≡ false = grind arith in
    let e4 : (base + 248 == a) ≡ false = grind arith in rw (e1, e2, e3, e4) outside

frame_base-below :
    (old_sp : ℕ)
    → sigframe_reserve ≤ old_sp
    → old_sp ≤ user_stack_top
    → frame_base old_sp + sigframe_reserve ≤ old_sp
unfolding frame_base
frame_base-below old_sp enough small = omega arith

frame_base-aligned : (old_sp : ℕ) → frame_base old_sp % 16 ≡ 0
unfolding frame_base
frame_base-aligned old_sp = omega arith

-- What `deliver_one` does, by its outcome.
abbrev pub Delivers : SigTask → TrapFrame → ℕ → ℕ → Memory → Outcome → Type 0
Delivers t frame sig handler mem nothing = ⊥
Delivers t frame sig handler mem (terminated n) =
    (n ≡ sig) × ((frame_base frame.sp < stack_lo t) ⊎ (user_stack_top < frame.sp))
Delivers t frame sig handler mem (entered f m) =
    (stack_lo t ≤ frame_base frame.sp)
    × (frame.sp ≤ user_stack_top)
    × (f.sp ≡ frame_base frame.sp)
    × (m ≡ save_frame (frame_base frame.sp) frame mem)
    × (f.regs 0 ≡ sig)
    × (f.elr ≡ handler)

pub deliver_one-Delivers :
    (t : SigTask) (frame : TrapFrame) (sig handler : ℕ) (mem : Memory)
    → Delivers t frame sig handler mem (deliver_one t frame sig handler mem)
unfolding deliver_one
deliver_one-Delivers t frame sig handler mem =
    let low = ltb (frame_base frame.sp) (stack_lo t) in
    let high = ltb user_stack_top frame.sp in
    elim (Bool-cases (low || high)) [
      | inl over ↦ rw over (refl, grind arith)
      | inr fits ↦ rw fits (ground arith, ground arith, refl, refl, refl, refl)
    ]

-- The context that was interrupted.
abbrev pub Restored : TrapFrame → Option TrapFrame → Type 0
Restored frame none = ⊥
Restored frame (some f) =
    ((i : ℕ) → i < 31 → f.regs i ≡ frame.regs i)
    × (f.elr ≡ frame.elr)
    × (f.spsr ≡ frame.spsr)
    × (f.sp ≡ frame.sp)

sigreturn-Restored :
    (base : ℕ) (frame later : TrapFrame) (mem : Memory)
    → Saved base frame mem
    → later.sp ≡ base
    → base + sigframe_reserve ≤ user_stack_top
    → Restored frame (signal_sigreturn later mem)
unfolding signal_sigreturn
sigreturn-Restored base frame later mem saved at small =
    let e : (leb user_stack_top later.sp || ltb user_stack_top ((later.sp + 280) % 2 ^ 64))
        ≡ false =
      ground arith in
    rw (e, at)
      (
        (λ i lt. let q : ltb i 31 ≡ true = ground arith in rw q (saved.regs i lt)),
        saved.elr,
        saved.spsr,
        saved.sp,
      )

module _ (t : SigTask) (frame f : TrapFrame) (sig handler : ℕ) (mem m : Memory) where
  entered-Delivers :
      deliver_one t frame sig handler mem ≡ entered f m
      → Delivers t frame sig handler mem (entered f m)
  entered-Delivers e =
      subst (Delivers t frame sig handler mem) e (deliver_one-Delivers t frame sig handler mem)

  -- When a handler was entered from a stack pointer of at least 288, and the memory still holds the
  -- 35 words of the signal frame when sigreturn is called at the stack pointer that the handler
  -- started with, then sigreturn succeeds and restores x0 to x30, the program counter, the processor
  -- state and the stack pointer of the interrupted code.
  pub signal_sigreturn-deliver_one :
      (later : TrapFrame) (m' : Memory)
      → sigframe_reserve ≤ frame.sp
      → deliver_one t frame sig handler mem ≡ entered f m
      → later.sp ≡ f.sp
      → ((i : ℕ) → i < 35 → m' (f.sp + 8 * i) ≡ m (f.sp + 8 * i))
      → Restored frame (signal_sigreturn later m')
  signal_sigreturn-deliver_one later m' enough e at intact =
      let (low, high, sp, stored, number, pc) = entered-Delivers e in
      let base = frame_base frame.sp in
      let below = frame_base-below frame.sp enough high in
      let s = save_frame-Saved base frame mem in
      let kept : (i : ℕ) → i < 35 → m' (base + 8 * i) ≡ save_frame base frame mem (base + 8 * i) =
        λ i lt. rw (← stored, ← sp) (intact i lt) in
      sigreturn-Restored base frame later m'
        (record {
          regs = λ i lt. kept i (omega arith) ∙ s.regs i lt;
          sp = kept 31 (omega arith) ∙ s.sp;
          elr = kept 32 (omega arith) ∙ s.elr;
          spsr = kept 33 (omega arith) ∙ s.spsr;
        })
        (at ∙ sp) (omega arith)

  -- When a handler was entered from a stack pointer of at least 288, the kernel wrote only inside
  -- the mapped stack of the task: every word below its lowest address, or from the saved stack
  -- pointer on, is as before. The new stack pointer is a multiple of 16 that lies in the stack.
  pub deliver_one-outside :
      sigframe_reserve ≤ frame.sp
      → deliver_one t frame sig handler mem ≡ entered f m
      → ((a : ℕ) → (a < stack_lo t) ⊎ (frame.sp ≤ a) → m a ≡ mem a)
        × (f.sp % 16 ≡ 0)
        × (stack_lo t ≤ f.sp)
        × (f.sp + sigframe_reserve ≤ frame.sp)
  deliver_one-outside enough e =
      let (low, high, sp, stored, number, pc) = entered-Delivers e in
      let base = frame_base frame.sp in
      let below = frame_base-below frame.sp enough high in
      (
        (λ a out. ap (λ x. x a) stored ∙ save_frame-outside base frame mem a (grind arith)),
        rw sp (frame_base-aligned frame.sp),
        rw sp low,
        rw sp below,
      )
