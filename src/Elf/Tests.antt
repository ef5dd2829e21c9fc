-- ===== src/Elf/Tests.antt =====
-- A run and the witness for the loader of syscall/elf.c, on a program of one segment.
use cortex_forge_aarch64_bar.Prelude.{
  ℕ, ◌*◌, ◌^◌, ◌≤◌, ◌≡◌, refl, inl, inr, arith, true, false, [], ◌∷◌, ◌++◌, replicate,
}
use mathlib.Core.Path.{subst}
use cortex_forge_aarch64_bar.Pmm.Invariant.{IsValid}
use cortex_forge_aarch64_bar.Pmm.Init.{IsLayout, pmm_init-Fresh}
use cortex_forge_aarch64_bar.Pmm.AllocPage.{TookPage, pmm_allocate_page-PageOutcome}
use cortex_forge_aarch64_bar.Mmu.{Mmu, zero_table}
use cortex_forge_aarch64_bar.Mmu.Tree.{Own, Tree}
use cortex_forge_aarch64_bar.Mmu.Level.{root_only, new_root-Tree}
use cortex_forge_aarch64_bar.Elf.Memory.{MemoryAfter}
use cortex_forge_aarch64_bar.Bitmap.{bitmap_test, bitmap_put, all_ones}
use cortex_forge_aarch64_bar.Pmm.{
  Pmm, pmm_init, scan_words, scan_bits, scan_run, mark_run, tail_word, pmm_allocate_page,
  pmm_allocate_pages,
}
use cortex_forge_aarch64_bar.Elf.{
  Bytes, Loader, field, read_phdr, read_phdrs, ident_ok, header_ok, parse_flags, segment_ok,
  load_at, load_with, load_segment, load_next, load_segments, entry_ok, check_entry, free_regions,
  free_each, elf_load,
}
use cortex_forge_aarch64_bar.Elf.Load.{LoadOutcome, elf_load-LoadOutcome}

-- The file header: entry 0x400000, one program header behind it.
abbrev file_header : Bytes
file_header =
    0x7F ∷ 0x45 ∷ 0x4C ∷ 0x46 ∷ 2 ∷ 1 ∷ 1 ∷ replicate 9 0
    ++ (2 ∷ 0 ∷ 0xB7 ∷ 0 ∷ 1 ∷ 0 ∷ 0 ∷ 0 ∷ 0 ∷ 0 ∷ 0x40 ∷ 0 ∷ 0 ∷ 0 ∷ 0 ∷ 0 ∷ 64 ∷ replicate 7 0)
    ++ replicate 14 0
    ++ (56 ∷ 0 ∷ 1 ∷ 0 ∷ replicate 6 0)

-- A segment of 4 bytes of code at 0x400000, with the flags `pf`.
abbrev program_header : ℕ → Bytes
program_header pf =
    (1 ∷ 0 ∷ 0 ∷ 0 ∷ pf ∷ 0 ∷ 0 ∷ 0 ∷ 120 ∷ replicate 7 0)
    ++ (0 ∷ 0 ∷ 0x40 ∷ replicate 5 0)
    ++ replicate 8 0
    ++ (4 ∷ replicate 7 0)
    ++ (4 ∷ replicate 7 0)
    ++ replicate 8 0

abbrev program : ℕ → Bytes
program pf = file_header ++ program_header pf ++ (1 ∷ 2 ∷ 3 ∷ 4 ∷ [])

abbrev at_boot : Loader
at_boot = record {
  entry = 0;
  regions = [];
  mmu = record { mem = λ t i. 0; pmm = pmm_init 0x40002010 0x40000000 (70 * 4096) };
  loads = [];
}

load_runs :
    ((elf_load 0x40003000 (program 5) at_boot).0 ≡ true)
    × ((elf_load 0x40003000 (program 7) at_boot).0 ≡ false)
    × ((elf_load 0x40003000 (program 6) at_boot).0 ≡ false)
    × ((elf_load 0x40003000 file_header at_boot).0 ≡ false)
    × ((elf_load 0x40003000 (program 5) at_boot).1.regions ≡ (0x40004000, 1) ∷ [])
unfolding elf_load field read_phdr read_phdrs ident_ok header_ok parse_flags segment_ok load_at
    load_with load_segment load_next load_segments entry_ok check_entry free_regions free_each
    pmm_init pmm_allocate_page pmm_allocate_pages bitmap_test scan_words all_ones mark_run
    bitmap_put scan_bits scan_run tail_word
load_runs = (refl, refl, refl, refl, refl)

-- The root of the tables is the first page, at 0x40004000.
abbrev pages_at_boot : Pmm
pages_at_boot = pmm_init 0x40002010 0x40000000 (70 * 4096)

boot-IsLayout : IsLayout 0x40002010 0x40000000 (70 * 4096)
boot-IsLayout = omega arith

pages_at_boot-IsValid : IsValid pages_at_boot
pages_at_boot-IsValid = (pmm_init-Fresh boot-IsLayout).valid

abbrev no_tables : Mmu
no_tables = record { mem = λ t i. 0; pmm = pages_at_boot }

abbrev with_root : Loader
with_root = record {
  entry = 0;
  regions = [];
  mmu = record {
    mem = zero_table 0x40004000 no_tables.mem;
    pmm = (pmm_allocate_page pages_at_boot).1;
  };
  loads = [];
}

root_page : (pmm_allocate_page pages_at_boot).0 ≡ 0x40004000
unfolding pmm_init pmm_allocate_page bitmap_test scan_words all_ones bitmap_put scan_bits tail_word
    mark_run
root_page = refl

boot_end : pages_at_boot.mem_region_end ≤ 2 ^ 48
unfolding pmm_init
boot_end = omega arith

took_root : (q : ℕ) × TookPage pages_at_boot q 0x40004000 (pmm_allocate_page pages_at_boot).1
took_root = elim (pmm_allocate_page-PageOutcome pages_at_boot-IsValid) [
  | inl (q, took) ↦ (
    q,
    subst (λ a. TookPage pages_at_boot q a (pmm_allocate_page pages_at_boot).1) root_page took,
  )
  | inr ((zero_page, same), all) ↦ absurd (omega (arith, root_page, zero_page))
]

abbrev root_own : Own
root_own =
    root_only no_tables 0x40004000 took_root.0 (pmm_allocate_page pages_at_boot).1
      pages_at_boot-IsValid boot_end took_root.1

root-Tree : Tree with_root.mmu root_own
root-Tree =
    new_root-Tree no_tables 0x40004000 took_root.0 (pmm_allocate_page pages_at_boot).1
      pages_at_boot-IsValid boot_end took_root.1

elf_load-LoadOutcome_example :
    LoadOutcome (program 5) with_root (elf_load 0x40004000 (program 5) with_root)
    × MemoryAfter 0x40004000 with_root.mmu (elf_load 0x40004000 (program 5) with_root)
elf_load-LoadOutcome_example =
    elf_load-LoadOutcome 0x40004000 (program 5) with_root root_own root-Tree refl
