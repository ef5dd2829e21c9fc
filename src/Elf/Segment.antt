-- ===== src/Elf/Segment.antt =====
-- What the checks of syscall/elf.c make of a segment.
use cortex_forge_aarch64_bar.Prelude.{
  ℕ, zero, suc, ◌+◌, ◌-◌, ◌*◌, ◌^◌, ◌≡◌, ◌≢◌, ◌≤◌, ◌<◌, ◌⊎◌, inl, inr, refl, ◌∙◌, ap₂, Bool,
  Bool-cases, true, false, ◌&&◌, List, [], ◌∷◌, ◌++◌, length, ◌==◌, Option, none, some, arith,
}
use native.Mathlib.Nat.{pow-suc}
use cortex_forge_aarch64_bar.Pmm.{Pmm, pmm_allocate_pages}
use cortex_forge_aarch64_bar.Signal.{user_stack_top}
use cortex_forge_aarch64_bar.Elf.{
  Bytes, field, Phdr, read_phdr, read_phdrs, phdr_size, parse_flags, Loaded, Loader, va_lo_of,
  pages_of, pf_x, elf_max_regions, pt_load, segment_ok, load_at, load_with, load_segment,
}
use cortex_forge_aarch64_bar.Elf.Flags.{
  el0_writable, el0_executable, pxn, FlagsOutcome, parse_flags-FlagsOutcome,
}

field-lt : (n : ℕ) (kbuf : Bytes) (at : ℕ) → field n kbuf at < 256 ^ n
unfolding field
field-lt zero kbuf at = omega arith
field-lt (suc n) kbuf at = omega (arith, pow-suc 256 n, field-lt n kbuf (at + 1))

-- The fields fit their 64 bits.
pub record InWords (ph : Phdr) : Type 0 where
  pub offset : ph.p_offset < 2 ^ 64
  pub vaddr : ph.p_vaddr < 2 ^ 64
  pub filesz : ph.p_filesz < 2 ^ 64
  pub memsz : ph.p_memsz < 2 ^ 64

read_phdr-InWords : (kbuf : Bytes) (at : ℕ) → InWords (read_phdr kbuf at)
unfolding read_phdr
read_phdr-InWords kbuf at = record {
  offset = field-lt 8 kbuf (at + 8);
  vaddr = field-lt 8 kbuf (at + 16);
  filesz = field-lt 8 kbuf (at + 32);
  memsz = field-lt 8 kbuf (at + 40);
}

abbrev pub AllInWords : List Phdr → Type 0
AllInWords [] = Unit
AllInWords (ph ∷ phs) = InWords ph × AllInWords phs

pub read_phdrs-AllInWords : (kbuf : Bytes) (n at : ℕ) → AllInWords (read_phdrs kbuf at n)
unfolding read_phdrs
read_phdrs-AllInWords kbuf zero at = tt
read_phdrs-AllInWords kbuf (suc n) at =
    (read_phdr-InWords kbuf at, read_phdrs-AllInWords kbuf n (at + phdr_size))

-- A load that keeps to the file, to its pages and to the user's half.
pub record Safe (size : ℕ) (l : Loaded) : Type 0 where
  pub is_load : l.header.p_type ≡ pt_load
  pub from_file : l.header.p_offset + l.header.p_filesz ≤ size
  pub into_pages : l.intra + l.header.p_filesz ≤ l.pages * 4096
  pub begins : l.va_lo + l.intra ≡ l.header.p_vaddr
  pub covers : l.header.p_vaddr + l.header.p_memsz ≤ l.va_lo + l.pages * 4096
  pub below_top : l.va_lo + l.pages * 4096 ≤ user_stack_top
  pub not_both : (el0_writable l.pte_flags && el0_executable l.pte_flags) ≡ false
  pub executable : el0_executable l.pte_flags ≡ pf_x l.header.p_flags
  pub not_kernel : pxn l.pte_flags ≡ true
  pub has_pages : l.phys ≢ 0

-- A load was added to the state.
pub record Added (size : ℕ) (ph : Phdr) (s s' : Loader) : Type 0 where
  pub load : Loaded
  pub safe : Safe size load
  pub header : load.header ≡ ph
  pub loads : s'.loads ≡ s.loads ++ (load ∷ [])
  pub regions : s'.regions ≡ s.regions ++ ((load.phys, load.pages) ∷ [])
  pub room : length s.regions < elf_max_regions
  pub entry : s'.entry ≡ s.entry

abbrev pub SegmentOutcome : ℕ → Phdr → Loader → Bool × Loader → Type 0
SegmentOutcome size ph s (true, s') = ((ph.p_type ≢ pt_load) × (s' ≡ s)) ⊎ Added size ph s s'
SegmentOutcome size ph s (false, s') = (s'.loads ≡ s.loads) × (s'.regions ≡ s.regions)

module _ (size : ℕ) (ph : Phdr) (s : Loader) (w : InWords ph) (is_load : ph.p_type ≡ pt_load)
    (good : segment_ok size ph (length s.regions) ≡ true) where
  place :
      (ph.p_offset + ph.p_filesz ≤ size)
      × (ph.p_filesz ≤ ph.p_memsz)
      × (ph.p_vaddr + ph.p_memsz ≤ user_stack_top)
      × (length s.regions < elf_max_regions)
  unfolding segment_ok
  place =
      let o = w.offset in
      let f = w.filesz in
      let v = w.vaddr in let m = w.memsz in (ground arith, ground arith, ground arith, ground arith)

  -- The span of whole pages around the segment.
  pub span :
      (va_lo_of ph + (ph.p_vaddr - va_lo_of ph) ≡ ph.p_vaddr)
      × (ph.p_vaddr + ph.p_memsz ≤ va_lo_of ph + pages_of ph * 4096)
      × (va_lo_of ph + pages_of ph * 4096 ≤ user_stack_top)
  span = let (file, mem, top, room) = place in (omega arith, omega arith, omega arith)

  load_at-SegmentOutcome :
      (user_l0 : ℕ) (flags : ℕ) (r : ℕ × Pmm)
      → FlagsOutcome ph.p_flags (some flags)
      → SegmentOutcome size ph s (load_at user_l0 ph flags s r)
  unfolding load_at
  load_at-SegmentOutcome user_l0 flags (phys, pmm) (writable, executable, both, kernel) =
      let (file, mem, top, room) = place in
      let (begins, covers, below) = span in
      elim (Bool-cases (phys == 0)) [
        | inl failed ↦ rw failed (refl, refl)
        | inr found ↦ rw found (
            inr (record {
              load = record {
                header = ph;
                va_lo = va_lo_of ph;
                phys = phys;
                pages = pages_of ph;
                intra = ph.p_vaddr - va_lo_of ph;
                pte_flags = flags;
              };
              safe = record {
                is_load = is_load;
                from_file = file;
                into_pages = omega arith;
                begins = begins;
                covers = covers;
                below_top = below;
                not_both = ap₂ (λ a b. a && b) writable executable ∙ both;
                executable = executable;
                not_kernel = kernel;
                has_pages = λ e. ground arith;
              };
              header = refl;
              loads = refl;
              regions = refl;
              room = room;
              entry = refl;
            }))
      ]

  load_with-SegmentOutcome :
      (user_l0 : ℕ) (o : Option ℕ)
      → FlagsOutcome ph.p_flags o
      → SegmentOutcome size ph s (load_with user_l0 ph s o)
  unfolding load_with
  load_with-SegmentOutcome user_l0 none h = (refl, refl)
  load_with-SegmentOutcome user_l0 (some flags) h =
      load_at-SegmentOutcome user_l0 flags (pmm_allocate_pages s.mmu.pmm (pages_of ph)) h

pub load_segment-SegmentOutcome :
    (user_l0 : ℕ) (size : ℕ) (ph : Phdr) (s : Loader)
    → InWords ph
    → SegmentOutcome size ph s (load_segment user_l0 size ph s)
unfolding load_segment
load_segment-SegmentOutcome user_l0 size ph s w = elim (Bool-cases (ph.p_type == pt_load)) [
  | inr other ↦ rw other (inl ((λ e. ground arith), refl))
  | inl wanted ↦ elim (Bool-cases (segment_ok size ph (length s.regions))) [
    | inr bad ↦ rw (wanted, bad) (refl, refl)
    | inl good ↦
        rw (wanted, good)
          (load_with-SegmentOutcome size ph s w (ground arith) good user_l0 (parse_flags ph.p_flags)
            (parse_flags-FlagsOutcome ph.p_flags))
  ]
]
