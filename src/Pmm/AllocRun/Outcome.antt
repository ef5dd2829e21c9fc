-- ===== src/Pmm/AllocRun/Outcome.antt =====
-- What a call of `pmm_allocate_pages` does to the state.
use cortex_forge_aarch64_bar.Prelude.{
  ℕ, ◌+◌, ◌*◌, ◌≡◌, ◌≤◌, ◌<◌, ◌⊎◌, inl, inr, true, false, arith, refl, ◌==◌, if◌then◌else◌, Option,
  none, some,
}
use native.Mathlib.Decide.{dec_lt, ℕ_discrete}
use cortex_forge_aarch64_bar.Bitmap.{bitmap_test, count_used-le}
use cortex_forge_aarch64_bar.Pmm.{Pmm, mark_run, take_run, add64, pmm_allocate_pages}
use cortex_forge_aarch64_bar.Pmm.Invariant.{IsValid}
use cortex_forge_aarch64_bar.Pmm.AllocPage.{TookPage, PageOutcome, pmm_allocate_page-PageOutcome}
use cortex_forge_aarch64_bar.Pmm.AllocRun.Mark.{
  AllFree, in_run, length-mark_run, mark_run-IsBitmap, bitmap_test-mark_run, count_used-mark_run,
}
use cortex_forge_aarch64_bar.Pmm.AllocRun.Scan.{NoRun, RunOk, scan_run-RunOk}

-- The `count` pages from `start` on are handed out, and nothing else changes.
pub record TookRun (s : Pmm) (count start a : ℕ) (s' : Pmm) : Type 0 where
  pub above_reserved : s.reserved_pages ≤ start
  pub in_range : start + count ≤ s.total_pages
  pub were_free : AllFree s.bitmap start count
  pub address : a ≡ s.mem_region_start + start * 4096
  pub bits :
      (q : ℕ)
      → bitmap_test s'.bitmap q ≡ (if in_run start count q then true else bitmap_test s.bitmap q)
  pub used : s'.used_pages ≡ s.used_pages + count
  pub total : s'.total_pages ≡ s.total_pages
  pub reserved : s'.reserved_pages ≡ s.reserved_pages
  pub region : s'.mem_region_start ≡ s.mem_region_start
  pub valid : IsValid s'

abbrev pub RunOutcome : Pmm → ℕ → ℕ × Pmm → Type 0
RunOutcome s count (a, s') =
    ((start : ℕ) × TookRun s count start a s')
    ⊎ (((a ≡ 0) × (s' ≡ s)) × NoRun s count s.total_pages)

module _ {s : Pmm} (v : IsValid s) (count start : ℕ) (low : s.reserved_pages ≤ start)
    (high : start + count ≤ s.total_pages) (free : AllFree s.bitmap start count) where
  open v use {
    words, size, covered, counted, reserved_fit, reserved_used, aligned, positive, region, no_wrap,
  }

  used_sum : add64 s.used_pages count ≡ s.used_pages + count
  used_sum = omega (
    arith,
    count_used-mark_run s.bitmap start count s.total_pages words high (omega arith) free,
    count_used-le (mark_run s.bitmap start count) s.total_pages,
  )

  marked-IsValid :
      IsValid
        (record s { bitmap = mark_run s.bitmap start count; used_pages = add64 s.used_pages count })
  marked-IsValid = record {
    words = mark_run-IsBitmap s.bitmap start count words (omega arith);
    size = omega (arith, length-mark_run s.bitmap start count);
    covered = covered;
    counted = omega (
      arith,
      used_sum,
      count_used-mark_run s.bitmap start count s.total_pages words high (omega arith) free,
    );
    reserved_fit = reserved_fit;
    reserved_used = λ q h.
        ground (
          arith,
          bitmap_test-mark_run s.bitmap start count q words (omega arith),
          reserved_used q h,
        );
    aligned = aligned;
    positive = positive;
    region = region;
    no_wrap = no_wrap;
  }

  take_run-TookRun : RunOutcome s count (take_run s count (some start))
  take_run-TookRun = inl (
    start,
    record {
      above_reserved = low;
      in_range = high;
      were_free = free;
      address = omega arith;
      bits = λ q. bitmap_test-mark_run s.bitmap start count q words (omega arith);
      used = used_sum;
      total = refl;
      reserved = refl;
      region = refl;
      valid = marked-IsValid;
    },
  )

take_run-RunOutcome :
    {s : Pmm}
    → IsValid s
    → (count : ℕ) (r : Option ℕ) → RunOk s count s.total_pages r
    → RunOutcome s count (take_run s count r)
take_run-RunOutcome v count none h = inr ((refl, refl), h)
take_run-RunOutcome v count (some start) (low, high, free) =
    take_run-TookRun v count start low high free

-- A single page is a run of one.
module _ {s : Pmm} (v : IsValid s) where
  above : (p : ℕ) → bitmap_test s.bitmap p ≡ false → s.reserved_pages ≤ p
  above p free = elim (dec_lt p s.reserved_pages) [
    | yes lt ↦ ground (arith, v.reserved_used p lt)
    | no ge ↦ omega arith
  ]

  TookRun-page : {p a : ℕ} {s' : Pmm} → TookPage s p a s' → TookRun s 1 p a s'
  TookRun-page {p} t = record {
    above_reserved = above p was_free;
    in_range = omega arith;
    were_free = λ q lo hi. let e : q ≡ p = omega arith in rw e was_free;
    address = address;
    bits = λ q. ground (arith, bits q);
    used = used;
    total = total;
    reserved = reserved;
    region = region;
    valid = valid;
  }
    where
      open t use {in_range, was_free, address, bits, used, total, reserved, region, valid}

  RunOutcome-page : (r : ℕ × Pmm) → PageOutcome s r → RunOutcome s 1 r
  RunOutcome-page (a, s') (inl (p, t)) = inl (p, TookRun-page t)
  RunOutcome-page (a, s') (inr (same, all)) = inr (
    same,
    λ st lo hi free. ground (arith, all st (omega arith), free st (omega arith) (omega arith)),
  )

-- In a valid state `pmm_allocate_pages` with a positive count hands out that many free pages in a
-- row above the reserved ones, marks them and no others, counts them and keeps the invariant; it
-- returns 0 only when no such run exists, and then changes nothing.
pub pmm_allocate_pages-RunOutcome :
    {s : Pmm} (count : ℕ) → IsValid s → 0 < count → RunOutcome s count (pmm_allocate_pages s count)
unfolding pmm_allocate_pages
pmm_allocate_pages-RunOutcome {s} count v pos = elim (ℕ_discrete count 1) [
  | yes one ↦ rw one (RunOutcome-page v _ (pmm_allocate_page-PageOutcome v))
  | no more ↦
      let t0 : (count == 0) ≡ false = ground arith in
      let t1 : (count == 1) ≡ false = ground arith in
      rw (t0, t1) (take_run-RunOutcome v count _ (scan_run-RunOk s count pos v.reserved_fit))
]
