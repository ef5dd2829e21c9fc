-- ===== src/Pmm/FreePages.antt =====
-- `pmm_free_pages` of mm/pmm/pmm.c, and that it undoes `pmm_allocate_pages`.
use mathlib.Core.Bool.{false≢true}
use cortex_forge_aarch64_bar.Prelude.{
  sym, ◌∙◌, zero, suc, ℕ, ◌+◌, ◌*◌, ◌≡◌, ◌≢◌, ◌≤◌, ◌<◌, inl, inr, true, false, arith, if◌then◌else◌,
  Bool-cases,
}
use cortex_forge_aarch64_bar.Bitmap.{bitmap_test}
use cortex_forge_aarch64_bar.Pmm.{
  Pmm, FreeLog, outside_region, not_aligned, reserved_page, unallocated_page, freed, pmm_free_page,
  add64, free_from, pmm_free_pages, pmm_allocate_pages,
}
use cortex_forge_aarch64_bar.Pmm.Invariant.{IsValid}
use cortex_forge_aarch64_bar.Pmm.Free.{GaveBack, FreeOutcome, pmm_free_page-FreeOutcome}
use cortex_forge_aarch64_bar.Pmm.AllocRun.Mark.{in_run}
use cortex_forge_aarch64_bar.Pmm.AllocRun.Outcome.{
  TookRun, RunOutcome, pmm_allocate_pages-RunOutcome,
}

GaveBack-outcome :
    {s : Pmm}
    → IsValid s
    → (a p : ℕ) (r : FreeLog × Pmm) → FreeOutcome s a r
    → a ≡ s.mem_region_start + p * 4096
    → p < s.total_pages
    → s.reserved_pages ≤ p
    → bitmap_test s.bitmap p ≡ true
    → GaveBack s p r.1
GaveBack-outcome v a p (outside_region, s') (out, _) e lt above used = elim out [
  | inl h ↦ absurd (omega arith)
  | inr h ↦ absurd (omega arith)
]
GaveBack-outcome {s} v a p (not_aligned, s') (off, _) e lt above used =
    absurd (omega (arith, v.aligned))
GaveBack-outcome v a p (reserved_page, s') (q, eq, low, _) e lt above used = absurd (omega arith)
GaveBack-outcome v a p (unallocated_page, s') (q, eq, free, _) e lt above used =
    let same : q ≡ p = omega arith in absurd (false≢true (sym (rw same at free) ∙ used))
GaveBack-outcome v a p (freed, s') (q, eq, _, gave) e lt above used =
    let same : q ≡ p = omega arith in rw same at gave

-- The pages from `st` on, as many as `n`, are used.
abbrev RunUsed : Pmm → ℕ → ℕ → Type 0
RunUsed s st n = (q : ℕ) → st ≤ q → q < st + n → bitmap_test s.bitmap q ≡ true

-- The pages of a run are given back, and nothing else changes.
pub record GaveRun (s : Pmm) (start n : ℕ) (s' : Pmm) : Type 0 where
  pub bits :
      (q : ℕ)
      → bitmap_test s'.bitmap q ≡ (if in_run start n q then false else bitmap_test s.bitmap q)
  pub used : s'.used_pages + n ≡ s.used_pages
  pub valid : IsValid s'

GaveRun-suc :
    {s s1 s' : Pmm} (st n : ℕ)
    → GaveBack s st s1
    → GaveRun s1 (st + 1) n s'
    → GaveRun s st (suc n) s'
GaveRun-suc st n g r = record {
  bits = λ q. ground (arith, g.bits q, r.bits q);
  used = omega (arith, g.used, r.used);
  valid = r.valid;
}

free_from-GaveRun :
    (n : ℕ) {s : Pmm} (a i st : ℕ)
    → IsValid s
    → a + i * 4096 ≡ s.mem_region_start + st * 4096
    → s.reserved_pages ≤ st
    → st + n ≤ s.total_pages
    → RunUsed s st n
    → GaveRun s st n (free_from s a i n)
unfolding free_from
free_from-GaveRun zero a i st v e above fit used = record {
  bits = λ q. ground arith;
  used = omega arith;
  valid = v;
}
free_from-GaveRun (suc n) {s} a i st v e above fit used =
    let at : add64 a (i * 4096) ≡ s.mem_region_start + st * 4096 =
      omega (arith, v.region, v.no_wrap) in
    let gave =
      GaveBack-outcome v (add64 a (i * 4096)) st (pmm_free_page s (add64 a (i * 4096)))
        (pmm_free_page-FreeOutcome (add64 a (i * 4096)) v) at (omega arith) above
        (used st (omega arith) (omega arith)) in
    GaveRun-suc st n gave (
      free_from-GaveRun n a (i + 1) (st + 1) gave.valid (omega (arith, gave.region))
        (omega (arith, gave.reserved)) (omega (arith, gave.total))
        (λ q lo hi. ground (arith, gave.bits q, used q (omega arith) (omega arith))))

-- In a valid state, `pmm_free_pages` of a run of used pages above the reserved ones, by the address
-- of its first page, gives back exactly those pages and keeps the invariant.
pub pmm_free_pages-GaveRun :
    {s : Pmm} (start count : ℕ)
    → IsValid s
    → s.reserved_pages ≤ start
    → start + count ≤ s.total_pages
    → RunUsed s start count
    → GaveRun s start count (pmm_free_pages s (s.mem_region_start + start * 4096) count)
unfolding pmm_free_pages
pmm_free_pages-GaveRun {s} start count v above fit used =
    free_from-GaveRun count (s.mem_region_start + start * 4096) 0 start v (omega arith) above fit
      used

-- The same pages are used in both states, and as many.
pub record SamePages (s s' : Pmm) : Type 0 where
  pub bits : (q : ℕ) → bitmap_test s'.bitmap q ≡ bitmap_test s.bitmap q
  pub used : s'.used_pages ≡ s.used_pages
  pub valid : IsValid s'

pub SamePages-run :
    {s s1 : Pmm} {start count a : ℕ}
    → TookRun s count start a s1
    → SamePages s (pmm_free_pages s1 a count)
SamePages-run {s} {s1} {start} {count} {a} t =
    let at : a ≡ s1.mem_region_start + start * 4096 = omega (arith, t.address, t.region) in
    rw at (
      let gave =
        pmm_free_pages-GaveRun {s = s1} start count t.valid
          (omega (arith, t.above_reserved, t.reserved)) (omega (arith, t.in_range, t.total))
          (λ q lo hi. ground (arith, t.bits q)) in
      record {
        bits = λ q. elim (Bool-cases (in_run start count q)) [
          | inl c ↦ ground (arith, gave.bits q, t.were_free q (ground arith) (ground arith))
          | inr c ↦ ground (arith, gave.bits q, t.bits q)
        ];
        used = omega (arith, gave.used, t.used);
        valid = gave.valid;
      })

SamePages-outcome :
    {s : Pmm} (count : ℕ) (r : ℕ × Pmm)
    → RunOutcome s count r
    → r.0 ≢ 0
    → SamePages s (pmm_free_pages r.1 r.0 count)
SamePages-outcome count (a, s1) (inl (start, t)) ne = SamePages-run t
SamePages-outcome count (a, s1) (inr (same, _)) ne = absurd (ne same.0)

-- In a valid state, freeing the pages that `pmm_allocate_pages` just returned, by the address and
-- the count, leaves the same pages used as before, and as many, and keeps the invariant.
pub pmm_free_pages-pmm_allocate_pages :
    {s : Pmm} (count : ℕ)
    → IsValid s
    → 0 < count
    → (pmm_allocate_pages s count).0 ≢ 0
    → let r = pmm_allocate_pages s count in SamePages s (pmm_free_pages r.1 r.0 count)
pmm_free_pages-pmm_allocate_pages {s} count v pos ne =
    SamePages-outcome count (pmm_allocate_pages s count) (pmm_allocate_pages-RunOutcome count v pos)
      ne
