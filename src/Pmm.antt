-- ===== src/Pmm.antt =====
-- mm/pmm/pmm.c: the physical page allocator. The file's static variables are the record `Pmm`; a
-- function that changes them returns the new record. Addresses are uint64_t, and sums of them wrap.
-- What is only printed is left out; the message that tells the branches of `pmm_free_page` apart
-- is its result `FreeLog`. `&__kernel_end` is a symbol of the linker and an argument of `pmm_init`.
pub mod Invariant
pub mod AllocPage
pub mod AllocRun
pub mod Free
pub mod FreePages
pub mod Init
mod Tests
use cortex_forge_aarch64_bar.Prelude.{
  ℕ, zero, suc, ◌+◌, ◌-◌, ◌*◌, ◌/◌, ◌%◌, ◌^◌, Bool, true, false, not, ◌&&◌, ◌||◌, List, [], ◌∷◌,
  Option, none, some, get_or, set, replicate, ltb, leb, ◌==◌, if◌then◌else◌,
}
use cortex_forge_aarch64_bar.Bitmap.{Word, bitmap_test, bitmap_set, bitmap_clear, all_ones}

abbrev pub page_size : ℕ
page_size = 4096

-- uint64_t addition
abbrev pub add64 : ℕ → ℕ → ℕ
add64 a b = (a + b) % 2 ^ 64

abbrev pub sub64 : ℕ → ℕ → ℕ
sub64 a b = (a + 2 ^ 64 - b) % 2 ^ 64

-- `mem_region_start + PFN_TO_PHYS(pfn)`
abbrev pub pfn_to_phys : ℕ → ℕ → ℕ
pfn_to_phys start pfn = add64 start (pfn * 4096)

-- `PAGE_ALIGN_UP`
abbrev pub page_align_up : ℕ → ℕ
page_align_up a = add64 a 4095 / 4096 * 4096

pub record Pmm : Type 0 where
  pub bitmap : List Word
  pub bitmap_size : ℕ
  pub total_pages : ℕ
  pub used_pages : ℕ
  pub reserved_pages : ℕ
  pub mem_region_start : ℕ
  pub mem_region_end : ℕ

-- How a scan of `pmm_allocate_page` ends: at a free page, at a number that is out of range (both
-- return at once), or at the end of the loop.
pub data Scan : Type 0 where
  found : ℕ → Scan
  out_of_range : Scan
  full : Scan

-- The loop over the bits of word `i`; the first number is of the rounds left.
unfoldable pub scan_bits : Pmm → ℕ → ℕ → ℕ → Scan
scan_bits s zero i bit = full
scan_bits s (suc n) i bit =
    let rest = scan_bits s n i (bit + 1) in
    let pfn = i * 64 + bit in
    if leb s.total_pages pfn
    then out_of_range
    else if not (bitmap_test s.bitmap pfn)
    then found pfn
    else rest

-- What the body of the loop over the words does after its inner loop.
abbrev pub or_next : Scan → Scan → Scan
or_next full rest = rest
or_next (found pfn) rest = found pfn
or_next out_of_range rest = out_of_range

-- The loop over the words.
unfoldable pub scan_words : Pmm → ℕ → ℕ → Scan
scan_words s zero i = full
scan_words s (suc n) i =
    let rest = scan_words s n (i + 1) in
    if all_ones (get_or s.bitmap i []) then rest else or_next (scan_bits s 64 i 0) rest

-- The return value, a physical address or 0, and the new state.
abbrev pub take_page : Pmm → Scan → ℕ × Pmm
take_page s (found pfn) = (
  pfn_to_phys s.mem_region_start pfn,
  record s { bitmap = bitmap_set s.bitmap pfn; used_pages = add64 s.used_pages 1 },
)
take_page s out_of_range = (0, s)
take_page s full = (0, s)

unfoldable pub pmm_allocate_page : Pmm → ℕ × Pmm
pmm_allocate_page s = take_page s (scan_words s s.bitmap_size 0)

-- The loop over the pages: `none` if it ends, else the `run_start` at which it returns.
unfoldable pub scan_run : Pmm → ℕ → ℕ → ℕ → ℕ → ℕ → Option ℕ
scan_run s count zero pfn run_start run_length = none
scan_run s count (suc n) pfn run_start run_length =
    let run_start' = if run_length == 0 then pfn else run_start in
    let longer = scan_run s count n (pfn + 1) run_start' (run_length + 1) in
    let restart = scan_run s count n (pfn + 1) run_start 0 in
    if not (bitmap_test s.bitmap pfn)
    then (if run_length + 1 == count then some run_start' else longer)
    else restart

-- `for (i = 0; i < count; i++) bitmap_set(run_start + i)`
unfoldable pub mark_run : List Word → ℕ → ℕ → List Word
mark_run bm start zero = bm
mark_run bm start (suc n) = mark_run (bitmap_set bm start) (start + 1) n

abbrev pub take_run : Pmm → ℕ → Option ℕ → ℕ × Pmm
take_run s count none = (0, s)
take_run s count (some start) = (
  pfn_to_phys s.mem_region_start start,
  record s { bitmap = mark_run s.bitmap start count; used_pages = add64 s.used_pages count },
)

unfoldable pub pmm_allocate_pages : Pmm → ℕ → ℕ × Pmm
pmm_allocate_pages s count =
    if count == 0
    then (0, s)
    else if count == 1
    then pmm_allocate_page s
    else take_run s count (scan_run s count (s.total_pages - s.reserved_pages) s.reserved_pages 0 0)

-- What `pmm_free_page` prints, or that it frees the page.
pub data FreeLog : Type 0 where
  outside_region not_aligned reserved_page unallocated_page freed : FreeLog

unfoldable pub pmm_free_page : Pmm → ℕ → FreeLog × Pmm
pmm_free_page s phys_addr =
    let pfn = (phys_addr - s.mem_region_start) / 4096 in
    if ltb phys_addr s.mem_region_start || leb s.mem_region_end phys_addr
    then (outside_region, s)
    else if not (phys_addr % 4096 == 0)
    then (not_aligned, s)
    else if ltb pfn s.reserved_pages
    then (reserved_page, s)
    else if not (bitmap_test s.bitmap pfn)
    then (unallocated_page, s)
    else (freed, record s { bitmap = bitmap_clear s.bitmap pfn; used_pages = sub64 s.used_pages 1 })

-- The loop of `pmm_free_pages`, from index `i` on.
unfoldable pub free_from : Pmm → ℕ → ℕ → ℕ → Pmm
free_from s phys_addr i zero = s
free_from s phys_addr i (suc n) =
    free_from (pmm_free_page s (add64 phys_addr (i * 4096))).1 phys_addr (i + 1) n

unfoldable pub pmm_free_pages : Pmm → ℕ → ℕ → Pmm
pmm_free_pages s phys_addr count = free_from s phys_addr 0 count

-- `~((1ULL << real_bits) - 1)`: the bits from `real_bits` on.
unfoldable pub bits_from : ℕ → ℕ → ℕ → Word
bits_from real_bits zero b = []
bits_from real_bits (suc n) b = leb real_bits b ∷ bits_from real_bits n (b + 1)

unfoldable pub tail_word : ℕ → Word
unfolding bits_from
tail_word real_bits = bits_from real_bits 64 0

unfoldable pub pmm_init : ℕ → ℕ → ℕ → Pmm
pmm_init kernel_end mem_start mem_size =
    let total = mem_size / 4096 in
    let words = (total + 63) / 64 in
    let zeroed = replicate words (replicate 64 false) in
    let tailed =
      if total % 64 == 0 then zeroed else set zeroed (words - 1) (tail_word (total % 64)) in
    let reserved =
      sub64 (page_align_up (add64 (page_align_up kernel_end) (words * 8))) mem_start / 4096 in
    record {
      bitmap = mark_run tailed 0 reserved;
      bitmap_size = words;
      total_pages = total;
      used_pages = reserved;
      reserved_pages = reserved;
      mem_region_start = mem_start;
      mem_region_end = add64 mem_start mem_size;
    }

-- `pmm_get_free_pages`
unfoldable pub pmm_get_free_pages : Pmm → ℕ
pmm_get_free_pages s = sub64 s.total_pages s.used_pages
