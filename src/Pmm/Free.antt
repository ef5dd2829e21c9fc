-- ===== src/Pmm/Free.antt =====
-- `pmm_free_page` and `pmm_free_pages` of mm/pmm/pmm.c.
use cortex_forge_aarch64_bar.Prelude.{
  ◌-◌, ℕ, ◌+◌, ◌-◌, ◌*◌, ◌/◌, ◌%◌, ◌≡◌, ◌≢◌, ◌≤◌, ◌<◌, ◌⊎◌, inl, inr, true, false, arith, refl,
  ◌==◌, leb, ltb, if◌then◌else◌, Bool-cases, ◌||◌, ltb→lt,
}
use cortex_forge_aarch64_bar.Bitmap.{bitmap_test, bitmap_test-put}
use cortex_forge_aarch64_bar.Pmm.{
  Pmm, FreeLog, outside_region, not_aligned, reserved_page, unallocated_page, freed, pmm_free_page,
  sub64,
}
use cortex_forge_aarch64_bar.Pmm.Invariant.{IsValid, with_bit, clear-IsValid, in_words, used_drops}

-- The page is given back, and nothing else changes.
pub record GaveBack (s : Pmm) (pfn : ℕ) (s' : Pmm) : Type 0 where
  pub in_range : pfn < s.total_pages
  pub was_used : bitmap_test s.bitmap pfn ≡ true
  pub bits :
      (q : ℕ) → bitmap_test s'.bitmap q ≡ (if pfn == q then false else bitmap_test s.bitmap q)
  pub used : s'.used_pages + 1 ≡ s.used_pages
  pub total : s'.total_pages ≡ s.total_pages
  pub reserved : s'.reserved_pages ≡ s.reserved_pages
  pub region : s'.mem_region_start ≡ s.mem_region_start
  pub valid : IsValid s'

-- What each log line says of the address, and that all but the last leave the state alone.
abbrev pub FreeOutcome : Pmm → ℕ → FreeLog × Pmm → Type 0
FreeOutcome s a (outside_region, s') =
    ((a < s.mem_region_start) ⊎ (s.mem_region_start + s.total_pages * 4096 ≤ a)) × (s' ≡ s)
FreeOutcome s a (not_aligned, s') = (a % 4096 ≢ 0) × (s' ≡ s)
FreeOutcome s a (reserved_page, s') =
    (pfn : ℕ) × (a ≡ s.mem_region_start + pfn * 4096) × (pfn < s.reserved_pages) × (s' ≡ s)
FreeOutcome s a (unallocated_page, s') =
    (pfn : ℕ) × (a ≡ s.mem_region_start + pfn * 4096)
    × (bitmap_test s.bitmap pfn ≡ false)
    × (s' ≡ s)
FreeOutcome s a (freed, s') =
    (pfn : ℕ) × (a ≡ s.mem_region_start + pfn * 4096) × (s.reserved_pages ≤ pfn) × GaveBack s pfn s'

GaveBack-clear :
    {s : Pmm}
    → IsValid s
    → (p : ℕ) → p < s.total_pages
    → s.reserved_pages ≤ p
    → bitmap_test s.bitmap p ≡ true
    → GaveBack s p (with_bit s p false (sub64 s.used_pages 1))
GaveBack-clear {s} v p lt above was_used = record {
  in_range = lt;
  was_used = was_used;
  bits = λ q. bitmap_test-put s.bitmap p q false v.words (in_words v p lt);
  used = used_drops v p lt was_used;
  total = refl;
  reserved = refl;
  region = refl;
  valid = clear-IsValid v p lt was_used above;
}

module _ {s : Pmm} (a : ℕ) (v : IsValid s) where
  open v use {aligned, region}

  outside_cases :
      (ltb a s.mem_region_start || leb s.mem_region_end a) ≡ true
      → (a < s.mem_region_start) ⊎ (s.mem_region_start + s.total_pages * 4096 ≤ a)
  outside_cases h = ground arith

  page_at :
      (ltb a s.mem_region_start || leb s.mem_region_end a) ≡ false
      → (a % 4096 == 0) ≡ true
      → a ≡ s.mem_region_start + (a - s.mem_region_start) / 4096 * 4096
  page_at inside on = ground arith

  page_lt :
      (ltb a s.mem_region_start || leb s.mem_region_end a) ≡ false
      → (a - s.mem_region_start) / 4096 < s.total_pages
  page_lt inside = ground arith

-- In a valid state `pmm_free_page` gives back exactly the pages that are above the reserved ones
-- and used, by their aligned address; every other address it names the reason for, and then
-- changes nothing.
pub pmm_free_page-FreeOutcome : {s : Pmm} (a : ℕ) → IsValid s → FreeOutcome s a (pmm_free_page s a)
unfolding pmm_free_page
pmm_free_page-FreeOutcome {s} a v =
    elim (Bool-cases (ltb a s.mem_region_start || leb s.mem_region_end a)) [
      | inl out ↦ rw out (outside_cases a v out, refl)
      | inr inside ↦ elim (Bool-cases (a % 4096 == 0)) [
        | inr off ↦ rw (inside, off) (ground arith, refl)
        | inl on ↦
            let pfn = (a - s.mem_region_start) / 4096 in
            let at : a ≡ s.mem_region_start + pfn * 4096 = page_at a v inside on in
            elim (Bool-cases (ltb pfn s.reserved_pages)) [
              | inl low ↦ rw (inside, on, low) (pfn, at, ltb→lt _ _ low, refl)
              | inr above ↦ elim (Bool-cases (bitmap_test s.bitmap pfn)) [
                | inr free ↦ rw (inside, on, above, free) (pfn, at, free, refl)
                | inl used ↦
                    rw (inside, on, above, used)
                      (
                        pfn,
                        at,
                        ground arith,
                        GaveBack-clear v pfn (page_lt a v inside) (ground arith) used,
                      )
              ]
            ]
      ]
    ]
