-- ===== src/Pmm/Tests.antt =====
-- Runs and witnesses for mm/pmm/pmm.c: a region of 70 pages from 0x40000000 on.
use cortex_forge_aarch64_bar.Prelude.{
  ℕ, ◌+◌, ◌*◌, ◌/◌, ◌≡◌, ◌<◌, true, arith, refl, get_or, [], ◌∷◌, replicate, length,
}
use cortex_forge_aarch64_bar.Bitmap.{
  bitmap_test, bitmap_put, all_ones, count_used, bitmap_test-of_all_ones,
}
use cortex_forge_aarch64_bar.Pmm.{
  Pmm, pmm_init, scan_words, scan_bits, scan_run, mark_run, tail_word, pmm_allocate_page,
  pmm_allocate_pages, pmm_free_page, pmm_free_pages, not_aligned, freed, reserved_page,
}
use cortex_forge_aarch64_bar.Pmm.Invariant.{IsValid}
use cortex_forge_aarch64_bar.Pmm.Init.{IsLayout, Fresh, reserved_of, pmm_init-Fresh}
use cortex_forge_aarch64_bar.Pmm.AllocPage.{PageOutcome, pmm_allocate_page-PageOutcome}
use cortex_forge_aarch64_bar.Pmm.AllocRun.Outcome.{RunOutcome, pmm_allocate_pages-RunOutcome}
use cortex_forge_aarch64_bar.Pmm.Free.{FreeOutcome, pmm_free_page-FreeOutcome}
use cortex_forge_aarch64_bar.Pmm.FreePages.{SamePages, pmm_free_pages-pmm_allocate_pages}

-- A kernel of two pages and a bit; the bitmap takes the fourth page.
abbrev boot : Pmm
boot = pmm_init 0x40002010 0x40000000 (70 * 4096)

layout : IsLayout 0x40002010 0x40000000 (70 * 4096)
layout = omega arith

boot_runs : (boot.used_pages ≡ 4) × (boot.bitmap_size ≡ 2) × (boot.total_pages ≡ 70)
unfolding pmm_init
boot_runs = (refl, refl, refl)

allocate_runs :
    ((pmm_allocate_page boot).0 ≡ 0x40004000)
    × ((pmm_allocate_pages boot 64).0 ≡ 0x40004000)
    × ((pmm_allocate_pages boot 67).0 ≡ 0)
unfolding pmm_init pmm_allocate_page pmm_allocate_pages bitmap_test scan_words all_ones mark_run
    bitmap_put scan_bits scan_run tail_word
allocate_runs = (refl, refl, refl)

boot-IsValid : IsValid boot
boot-IsValid = (pmm_init-Fresh layout).valid

pmm_init-Fresh_example :
    Fresh
      (pmm_init 0x40002010 0x40000000 (70 * 4096))
      (reserved_of 0x40002010 0x40000000 (70 * 4096))
      (70 * 4096 / 4096)
pmm_init-Fresh_example = pmm_init-Fresh layout

pmm_allocate_page-PageOutcome_example : PageOutcome boot (pmm_allocate_page boot)
pmm_allocate_page-PageOutcome_example = pmm_allocate_page-PageOutcome boot-IsValid

pmm_allocate_pages-RunOutcome_example : RunOutcome boot 64 (pmm_allocate_pages boot 64)
pmm_allocate_pages-RunOutcome_example = pmm_allocate_pages-RunOutcome 64 boot-IsValid (omega arith)

pmm_free_page-FreeOutcome_example : FreeOutcome boot 0x40005000 (pmm_free_page boot 0x40005000)
pmm_free_page-FreeOutcome_example = pmm_free_page-FreeOutcome 0x40005000 boot-IsValid

take_three : (pmm_allocate_pages boot 3).0 ≡ 0x40004000
unfolding pmm_init pmm_allocate_page pmm_allocate_pages bitmap_test scan_words all_ones mark_run
    bitmap_put scan_bits scan_run tail_word
take_three = refl

pmm_free_pages-pmm_allocate_pages_example :
    SamePages boot (pmm_free_pages (pmm_allocate_pages boot 3).1 (pmm_allocate_pages boot 3).0 3)
pmm_free_pages-pmm_allocate_pages_example =
    pmm_free_pages-pmm_allocate_pages 3 boot-IsValid (omega arith) (omega (arith, take_three))

-- All of 64 pages used, the first four reserved.
abbrev crowded : Pmm
crowded = record {
  bitmap = replicate 64 true ∷ [];
  bitmap_size = 1;
  total_pages = 64;
  used_pages = 64;
  reserved_pages = 4;
  mem_region_start = 4096;
  mem_region_end = 65 * 4096;
}

crowded-words : (i : ℕ) → i < 1 → length (get_or crowded.bitmap i []) ≡ 64
crowded-words i lt = let e : i ≡ 0 = omega arith in rw e refl

crowded-used : (p : ℕ) → p < 64 → bitmap_test crowded.bitmap p ≡ true
unfolding all_ones
crowded-used p lt =
    bitmap_test-of_all_ones crowded.bitmap 0 p crowded-words (omega arith) refl (omega arith)

crowded-IsValid : IsValid crowded
unfolding count_used bitmap_test
crowded-IsValid = record {
  words = crowded-words;
  size = refl;
  covered = omega arith;
  counted = refl;
  reserved_fit = omega arith;
  reserved_used = λ p lt. crowded-used p (omega arith);
  aligned = refl;
  positive = omega arith;
  region = refl;
  no_wrap = omega arith;
}

free_runs :
    ((pmm_free_page crowded (4096 + 3 * 4096)).0 ≡ reserved_page)
    × ((pmm_free_page crowded (4096 + 5 * 4096)).0 ≡ freed)
    × ((pmm_free_page crowded 4097).0 ≡ not_aligned)
unfolding pmm_free_page bitmap_test
free_runs = (refl, refl, refl)
