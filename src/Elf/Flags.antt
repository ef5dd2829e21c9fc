-- ===== src/Elf/Flags.antt =====
-- The page flags that syscall/elf.c derives from the flags of a segment.
use cortex_forge_aarch64_bar.Prelude.{
  ℕ, ◌+◌, ◌*◌, ◌/◌, ◌%◌, ◌^◌, ◌≡◌, ◌⊎◌, inl, inr, refl, Bool, true, false, ◌&&◌, ◌==◌, Option, none,
  some, if◌then◌else◌,
}
use cortex_forge_aarch64_bar.Elf.{pf_x, pf_w, pf_r, parse_flags}

-- The access bits of a descriptor let user mode write; it may execute the page; kernel mode may not.
abbrev pub el0_writable : ℕ → Bool
el0_writable f = f / 2 ^ 6 % 4 == 1

abbrev pub el0_executable : ℕ → Bool
el0_executable f = f / 2 ^ 54 % 2 == 0

abbrev pub pxn : ℕ → Bool
pxn f = f / 2 ^ 53 % 2 == 1

-- The flags say what the segment's do, never write and execute at once, and the kernel never
-- executes; a segment with both, or without read, has none.
abbrev FlagsFor : Bool → Bool → Bool → Option ℕ → Type 0
FlagsFor w x r none = ((w && x) ≡ true) ⊎ (r ≡ false)
FlagsFor w x r (some f) =
    (el0_writable f ≡ w) × (el0_executable f ≡ x) × ((w && x) ≡ false) × (pxn f ≡ true)

abbrev pub FlagsOutcome : ℕ → Option ℕ → Type 0
FlagsOutcome pf o = FlagsFor (pf_w pf) (pf_x pf) (pf_r pf) o

flags_for :
    (w x r : Bool)
    → FlagsFor w x r (
        if w && x
        then none
        else if r
        then some (2 ^ 2 + 2 ^ 53 + (if w then 2 ^ 6 else 3 * 2 ^ 6) + (if x then 0 else 2 ^ 54))
        else none)
flags_for true true r = inl refl
flags_for true false true = (refl, refl, refl, refl)
flags_for true false false = inr refl
flags_for false true true = (refl, refl, refl, refl)
flags_for false true false = inr refl
flags_for false false true = (refl, refl, refl, refl)
flags_for false false false = inr refl

pub parse_flags-FlagsOutcome : (pf : ℕ) → FlagsOutcome pf (parse_flags pf)
unfolding parse_flags
parse_flags-FlagsOutcome pf = flags_for (pf_w pf) (pf_x pf) (pf_r pf)
