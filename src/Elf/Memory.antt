-- ===== src/Elf/Memory.antt =====
-- The loop over the segments and `elf_load` of syscall/elf.c: what the hardware finds after them.
use cortex_forge_aarch64_bar.Prelude.{
  ℕ, ◌+◌, ◌-◌, ◌*◌, ◌^◌, ◌≡◌, ◌≤◌, ◌<◌, inl, inr, refl, Bool, Bool-cases, true, false, List, [],
  ◌∷◌, length, ◌==◌, Option, none, some, arith,
}
use native.Mathlib.Decide.{dec_lt}
use cortex_forge_aarch64_bar.Pmm.{Pmm, pmm_allocate_pages}
use cortex_forge_aarch64_bar.Pmm.AllocRun.Outcome.{RunOutcome, pmm_allocate_pages-RunOutcome}
use cortex_forge_aarch64_bar.Mmu.{Mmu}
use cortex_forge_aarch64_bar.Mmu.Tree.{Own, Tree}
use cortex_forge_aarch64_bar.Elf.{
  Phdr, Loaded, Loader, va_lo_of, pages_of, pt_load, parse_flags, segment_ok, load_at, load_with,
  load_segment, load_next, load_segments, Bytes, read_phdrs, e_entry, e_phoff, e_phnum, header_ok,
  entry_ok, check_entry, elf_load,
}
use cortex_forge_aarch64_bar.Elf.Segment.{InWords, AllInWords, read_phdrs-AllInWords, span}
use cortex_forge_aarch64_bar.Elf.Mapped.{MemoryOk, load-MemoryOk}

-- The tables after a part of the loading that goes on or succeeds.
abbrev pub MemoryAfter : ℕ → Mmu → Bool × Loader → Type 0
MemoryAfter l0 m (true, s') = MemoryOk l0 m s'.loads s'.mmu
MemoryAfter l0 m (false, s') = Unit

module _ (l0 : ℕ) (m : Mmu) (size : ℕ) where
  load_at-MemoryAfter :
      (ph : Phdr) (flags : ℕ) (s : Loader) (r : ℕ × Pmm)
      → MemoryOk l0 m s.loads s.mmu
      → 0 < pages_of ph
      → va_lo_of ph + pages_of ph * 4096 ≤ 2 ^ 48
      → RunOutcome s.mmu.pmm (pages_of ph) r
      → MemoryAfter l0 m (load_at l0 ph flags s r)
  unfolding load_at
  load_at-MemoryAfter ph flags s (phys, pmm) ok pos fits (inr ((failed, same), full)) =
      let e : (phys == 0) ≡ true = ground arith in rw e tt
  load_at-MemoryAfter ph flags s (phys, pmm) ok pos fits (inl (start, took)) =
      elim (Bool-cases (phys == 0)) [
        | inl failed ↦ rw failed tt
        | inr found ↦
            let load : Loaded = record {
              header = ph;
              va_lo = va_lo_of ph;
              phys = phys;
              pages = pages_of ph;
              intra = ph.p_vaddr - va_lo_of ph;
              pte_flags = flags;
            } in
            rw found
              (load-MemoryOk l0 m s.mmu s.loads load start pmm ok pos took (omega arith) fits)
      ]

  load_with-MemoryAfter :
      (ph : Phdr) (s : Loader) (o : Option ℕ)
      → MemoryOk l0 m s.loads s.mmu
      → va_lo_of ph + pages_of ph * 4096 ≤ 2 ^ 48
      → MemoryAfter l0 m (load_with l0 ph s o)
  unfolding load_with
  load_with-MemoryAfter ph s none ok fits = tt
  load_with-MemoryAfter ph s (some flags) ok fits = elim (dec_lt 0 (pages_of ph)) [
    | yes pos ↦
        load_at-MemoryAfter ph flags s (pmm_allocate_pages s.mmu.pmm (pages_of ph)) ok pos fits
          (pmm_allocate_pages-RunOutcome (pages_of ph) ok.tree.valid pos)
    | no none_asked ↦
        let e : (pages_of ph == 0) ≡ true = ground arith in
        unfold pmm_allocate_pages load_at in rw e tt
  ]

  load_segment-MemoryAfter :
      (ph : Phdr) (s : Loader)
      → InWords ph
      → MemoryOk l0 m s.loads s.mmu
      → MemoryAfter l0 m (load_segment l0 size ph s)
  unfolding load_segment
  load_segment-MemoryAfter ph s w ok = elim (Bool-cases (ph.p_type == pt_load)) [
    | inr other ↦ rw other ok
    | inl wanted ↦ elim (Bool-cases (segment_ok size ph (length s.regions))) [
      | inr bad ↦ rw (wanted, bad) tt
      | inl good ↦
          let (begins, covers, below) = span size ph s w (ground arith) good in
          rw (wanted, good) (load_with-MemoryAfter ph s (parse_flags ph.p_flags) ok (omega arith))
    ]
  ]

  load_next-MemoryAfter :
      (r : Bool × Loader) (again : Loader → Bool × Loader)
      → MemoryAfter l0 m r
      → ((s1 : Loader) → MemoryOk l0 m s1.loads s1.mmu → MemoryAfter l0 m (again s1))
      → MemoryAfter l0 m (load_next r again)
  unfolding load_next
  load_next-MemoryAfter (true, s1) again ok more = more s1 ok
  load_next-MemoryAfter (false, s1) again ok more = tt

  pub load_segments-MemoryAfter :
      (phs : List Phdr) (s : Loader)
      → AllInWords phs
      → MemoryOk l0 m s.loads s.mmu
      → MemoryAfter l0 m (load_segments l0 size phs s)
  unfolding load_segments
  load_segments-MemoryAfter [] s ws ok = ok
  load_segments-MemoryAfter (ph ∷ phs) s (w, ws) ok =
      let ih = λ (s1 : Loader). load_segments-MemoryAfter phs s1 ws in
      load_next-MemoryAfter (load_segment l0 size ph s) (λ s1. load_segments l0 size phs s1)
        (load_segment-MemoryAfter ph s w ok) ih

  check_entry-MemoryAfter :
      (entry : ℕ) (phs : List Phdr) (r : Bool × Loader)
      → MemoryAfter l0 m r
      → MemoryAfter l0 m (check_entry entry phs r)
  unfolding check_entry
  check_entry-MemoryAfter entry phs (false, s') h = tt
  check_entry-MemoryAfter entry phs (true, s') h = elim (Bool-cases (length s'.regions == 0)) [
    | inl bare ↦ rw bare tt
    | inr some_regions ↦ elim (Bool-cases (entry_ok entry phs)) [
      | inl inside ↦ rw (some_regions, inside) h
      | inr outside ↦ rw (some_regions, outside) tt
    ]
  ]

pub elf_load-MemoryAfter :
    (user_l0 : ℕ) (kbuf : Bytes) (s : Loader) (own : Own)
    → Tree s.mmu own
    → own user_l0 ≡ some []
    → MemoryAfter user_l0 s.mmu (elf_load user_l0 kbuf s)
unfolding elf_load
elf_load-MemoryAfter user_l0 kbuf s own tree root =
    let phs = read_phdrs kbuf (e_phoff kbuf) (e_phnum kbuf) in
    let start : Loader = record s { entry = e_entry kbuf; regions = []; loads = [] } in
    let fresh : MemoryOk user_l0 s.mmu [] s.mmu = record {
      own = own;
      tree = tree;
      root = root;
      each = λ p small. inl refl;
      complete = inl (λ p small inside. inside);
    } in
    elim (Bool-cases (header_ok kbuf)) [
      | inr bad ↦ rw bad tt
      | inl good ↦ rw good (
          check_entry-MemoryAfter user_l0 s.mmu (length kbuf) (e_entry kbuf) phs
            (load_segments user_l0 (length kbuf) phs start)
            (load_segments-MemoryAfter user_l0 s.mmu (length kbuf) phs start
              (read_phdrs-AllInWords kbuf (e_phnum kbuf) (e_phoff kbuf)) fresh))
    ]
