-- ===== src/Mmu/Tests.antt =====
-- Runs and the witness for the page tables of mm/mmu/mmu.c, in a region of 70 pages.
use cortex_forge_aarch64_bar.Prelude.{◌*◌, ◌≡◌, refl}
use cortex_forge_aarch64_bar.Bitmap.{bitmap_test, bitmap_put, all_ones}
use cortex_forge_aarch64_bar.Pmm.{
  Pmm, pmm_init, scan_words, scan_bits, mark_run, tail_word, pmm_allocate_page,
}
use cortex_forge_aarch64_bar.Mmu.{
  Mmu, zero_table, alloc_at, alloc_table, enter_table, next_level, and_then, walk_levels,
  page_entry, map_found, map_pages, mmu_map_user_range,
}
use cortex_forge_aarch64_bar.Mmu.Tree.{Tree}
use cortex_forge_aarch64_bar.Mmu.Map.{lookup}

abbrev pages_at_boot : Pmm
pages_at_boot = pmm_init 0x40002010 0x40000000 (70 * 4096)

abbrev before : Mmu
before = record { mem = λ t i. 0; pmm = pages_at_boot }

-- The state behind `alloc_table` for the root, which is at 0x40004000.
abbrev fresh_tables : Mmu
fresh_tables = record {
  mem = zero_table 0x40004000 before.mem;
  pmm = (pmm_allocate_page pages_at_boot).1;
}

abbrev two_mapped : Mmu
two_mapped = mmu_map_user_range 0x40004000 0x400000 0x40010000 2 0x60 fresh_tables

map_runs :
    (lookup two_mapped 0x40004000 0x401000 ≡ page_entry 0x40011000 0x60)
    × (lookup two_mapped 0x40004000 0x402000 ≡ 0)
unfolding page_entry mmu_map_user_range map_pages map_found walk_levels and_then next_level
    enter_table alloc_table alloc_at pmm_init pmm_allocate_page bitmap_test scan_words all_ones
    bitmap_put scan_bits tail_word mark_run
map_runs = (refl, refl)
