-- ===== src/Pmm/Invariant.antt =====
-- The invariant of the allocator's state in mm/pmm/pmm.c, and what one write of the bitmap keeps.
use cortex_forge_aarch64_bar.Prelude.{
  ℕ, ◌+◌, ◌-◌, ◌*◌, ◌/◌, ◌%◌, ◌^◌, ◌≡◌, ◌≤◌, ◌<◌, Bool, true, false, length, arith,
}
use cortex_forge_aarch64_bar.Bitmap.{
  IsBitmap, bitmap_test, bitmap_put, count_used, count_used-set, count_used-clear, count_used-le,
  bitmap_test-put, bitmap_put-IsBitmap, length-bitmap_put,
}
use cortex_forge_aarch64_bar.Pmm.{Pmm, add64, sub64, pfn_to_phys}

-- The bitmap has a bit for each page, the counter counts the used ones, the reserved pages stay
-- used, and the region is page aligned, starts above 0 and does not wrap.
pub record IsValid (s : Pmm) : Type 0 where
  pub words : IsBitmap s.bitmap
  pub size : length s.bitmap ≡ s.bitmap_size
  pub covered : s.total_pages ≤ s.bitmap_size * 64
  pub counted : s.used_pages ≡ count_used s.bitmap s.total_pages
  pub reserved_fit : s.reserved_pages ≤ s.total_pages
  pub reserved_used : (p : ℕ) → p < s.reserved_pages → bitmap_test s.bitmap p ≡ true
  pub aligned : s.mem_region_start % 4096 ≡ 0
  pub positive : 0 < s.mem_region_start
  pub region : s.mem_region_end ≡ s.mem_region_start + s.total_pages * 4096
  pub no_wrap : s.mem_region_end < 2 ^ 64

-- The state after the bit of page `p` is written and the counter is changed.
abbrev pub with_bit : Pmm → ℕ → Bool → ℕ → Pmm
with_bit s p v used = record s { bitmap = bitmap_put s.bitmap p v; used_pages = used }

module _ {s : Pmm} (v : IsValid s) (p : ℕ) (lt : p < s.total_pages) where
  open v use {
    words, size, covered, counted, reserved_fit, reserved_used, aligned, positive, region, no_wrap,
  }

  pub in_words : p < length s.bitmap * 64
  in_words = omega arith

  pub used_fits : add64 s.used_pages 1 ≡ s.used_pages + 1
  used_fits = omega (arith, count_used-le s.bitmap s.total_pages)

  pub set-IsValid :
      bitmap_test s.bitmap p ≡ false → IsValid (with_bit s p true (add64 s.used_pages 1))
  set-IsValid free = record {
    words = bitmap_put-IsBitmap s.bitmap p true words in_words;
    size = omega (arith, length-bitmap_put s.bitmap p true);
    covered = covered;
    counted =
        omega (arith, count_used-set s.bitmap p words in_words s.total_pages lt free, used_fits);
    reserved_fit = reserved_fit;
    reserved_used =
        λ q h. ground (arith, bitmap_test-put s.bitmap p q true words in_words, reserved_used q h);
    aligned = aligned;
    positive = positive;
    region = region;
    no_wrap = no_wrap;
  }

  pub used_drops : bitmap_test s.bitmap p ≡ true → sub64 s.used_pages 1 + 1 ≡ s.used_pages
  used_drops used = omega (
    arith,
    count_used-clear s.bitmap p words in_words s.total_pages lt used,
    count_used-le s.bitmap s.total_pages,
  )

  pub clear-IsValid :
      bitmap_test s.bitmap p ≡ true
      → s.reserved_pages ≤ p
      → IsValid (with_bit s p false (sub64 s.used_pages 1))
  clear-IsValid used above = record {
    words = bitmap_put-IsBitmap s.bitmap p false words in_words;
    size = omega (arith, length-bitmap_put s.bitmap p false);
    covered = covered;
    counted =
        omega (
          arith,
          count_used-clear s.bitmap p words in_words s.total_pages lt used,
          used_drops used,
        );
    reserved_fit = reserved_fit;
    reserved_used =
        λ q h. ground (arith, bitmap_test-put s.bitmap p q false words in_words, reserved_used q h);
    aligned = aligned;
    positive = positive;
    region = region;
    no_wrap = no_wrap;
  }

  -- The address of a page lies in the region, is aligned and not 0, and gives the page back.
  pub pfn_to_phys_bounds :
      let a = pfn_to_phys s.mem_region_start p in
      (a ≡ s.mem_region_start + p * 4096)
      × (s.mem_region_start ≤ a)
      × (a + 4096 ≤ s.mem_region_end)
      × (a % 4096 ≡ 0)
      × ((a - s.mem_region_start) / 4096 ≡ p)
  pfn_to_phys_bounds = omega arith
