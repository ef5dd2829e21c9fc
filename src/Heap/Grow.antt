-- ===== src/Heap/Grow.antt =====
-- How the heap of mm/heap/heap.c grows by pages of mm/pmm/pmm.c.
use cortex_forge_aarch64_bar.Prelude.{
  ℕ, ◌+◌, ◌-◌, ◌*◌, ◌/◌, ◌%◌, ◌^◌, ◌≡◌, ◌≤◌, ◌<◌, inl, inr, refl, sym, ◌∙◌, ap, Bool, Bool-cases,
  true, false, ◌&&◌, ◌||◌, List, [], ◌∷◌, ◌++◌, length, ◌==◌, ltb, leb, arith,
}
use mathlib.Core.Bool.{false≢true}
use cortex_forge_aarch64_bar.Pmm.{Pmm, pmm_allocate_pages, pmm_free_pages}
use cortex_forge_aarch64_bar.Pmm.AllocRun.Mark.{in_run}
use cortex_forge_aarch64_bar.Pmm.AllocRun.Outcome.{
  TookRun, RunOutcome, pmm_allocate_pages-RunOutcome,
}
use cortex_forge_aarch64_bar.Pmm.FreePages.{SamePages-run}
use cortex_forge_aarch64_bar.Heap.{
  Block, Region, Heap, heap_max_regions, kernel_va_offset, phys_to_virt, register_region,
  addr_in_any_region, spanning, append_block, expand_at, pages_for, heap_expand,
}
use cortex_forge_aarch64_bar.Heap.Blocks.{
  block_end, Well, Covers, used_blocks, unless, Good-append, Covers-append,
}
use cortex_forge_aarch64_bar.Heap.Pages.{InUse, HeapOk, Grown, pmm_free_pages-SameRegion}

used_blocks-append :
    (bs : List Block) (b : Block) → b.is_free ≡ true → used_blocks (bs ++ (b ∷ [])) ≡ used_blocks bs
used_blocks-append [] b free = rw free refl
used_blocks-append (c ∷ bs) b free = ap (unless c.is_free c) (used_blocks-append bs b free)

right_of : (x y : Bool) → x ≡ false → (x || y) ≡ true → y ≡ true
right_of true y e h = absurd (false≢true (sym e))
right_of false y e h = h

addr_in_any_region-append_left :
    (rs : List Region) (r : Region) (a : ℕ)
    → addr_in_any_region rs a ≡ true
    → addr_in_any_region (rs ++ (r ∷ [])) a ≡ true
unfolding addr_in_any_region
addr_in_any_region-append_left [] r a h = absurd (false≢true h)
addr_in_any_region-append_left (q ∷ rs) r a h =
    elim (Bool-cases (leb q.va_start a && ltb a ((q.va_start + q.size_bytes) % 2 ^ 64))) [
      | inl here ↦ rw here refl
      | inr there ↦ rw there (addr_in_any_region-append_left rs r a (right_of _ _ there h))
    ]

addr_in_any_region-append_last :
    (rs : List Region) (r : Region) (a : ℕ)
    → r.va_start ≤ a
    → a < (r.va_start + r.size_bytes) % 2 ^ 64
    → addr_in_any_region (rs ++ (r ∷ [])) a ≡ true
unfolding addr_in_any_region
addr_in_any_region-append_last [] r a lo hi = ground arith
addr_in_any_region-append_last (q ∷ rs) r a lo hi =
    let ih = addr_in_any_region-append_last rs r a lo hi in
    elim (Bool-cases (leb q.va_start a && ltb a ((q.va_start + q.size_bytes) % 2 ^ 64))) [
      | inl here ↦ rw here refl
      | inr there ↦ rw there ih
    ]

-- The pages of a run, as a new block.
module _ {h : Heap} {pages st phys : ℕ} {p : Pmm} (ok : HeapOk h) (many : 64 ≤ pages)
    (t : TookRun h.pmm pages st phys p) where
  abbrev run_block : Block
  run_block = spanning (phys_to_virt phys) (pages * 4096 % 2 ^ 64)

  run_place :
      (phys_to_virt phys ≡ phys + kernel_va_offset)
      × (pages * 4096 % 2 ^ 64 ≡ pages * 4096)
      × (phys + pages * 4096 < 2 ^ 48)
      × (0 < phys)
  run_place =
      let fit = t.in_range in
      let at = t.address in
      let region = ok.valid.region in
      let low = ok.low in
      let pos = ok.valid.positive in (omega arith, omega arith, omega arith, omega arith)

  run_Well : Well run_block
  run_Well =
      let at = t.address in
      let al = ok.valid.aligned in
      let (virt, bytes, fit, pos) = run_place in
      record {
        agrees = refl;
        addr_aligned = omega arith;
        size_aligned = omega arith;
        no_wrap = omega arith;
      }

  -- A byte of the new block is in a page of the run.
  run_page :
      (a : ℕ)
      → (run_block.addr ≤ a) × (a < block_end run_block)
      → (kernel_va_offset + h.pmm.mem_region_start ≤ a)
        × (st ≤ (a - (kernel_va_offset + h.pmm.mem_region_start)) / 4096)
        × ((a - (kernel_va_offset + h.pmm.mem_region_start)) / 4096 < st + pages)
  run_page a (lo, hi) =
      let at = t.address in
      let (virt, bytes, fit, pos) = run_place in (omega arith, omega arith, omega arith)

  run_apart : (a : ℕ) → Covers h.blocks a → (run_block.addr ≤ a) × (a < block_end run_block) → ⊥
  run_apart a c in_run_block =
      let (above, lo, hi) = run_page a in_run_block in
      false≢true (sym (t.were_free _ lo hi) ∙ (ok.backed a c).1)

  kept_InUse : (a : ℕ) → InUse h.pmm a → InUse p a
  kept_InUse a (above, on) =
      let same = t.region in
      let q = (a - (kernel_va_offset + h.pmm.mem_region_start)) / 4096 in
      let bit = t.bits q in
      rw same (
        above,
        (elim (Bool-cases (in_run st pages q)) [
          | inl new ↦ bit ∙ rw new refl
          | inr old ↦ bit ∙ rw old on
        ]),
      )

  run_InUse : (a : ℕ) → (run_block.addr ≤ a) × (a < block_end run_block) → InUse p a
  run_InUse a in_run_block =
      let (above, lo, hi) = run_page a in_run_block in
      let same = t.region in
      let q = (a - (kernel_va_offset + h.pmm.mem_region_start)) / 4096 in
      let new : in_run st pages q ≡ true = ground arith in rw same (above, t.bits q ∙ rw new refl)

  still_low : p.mem_region_end < 2 ^ 48
  still_low =
      let r = t.region in
      let n = t.total in
      let e = t.valid.region in let e' = ok.valid.region in let low = ok.low in omega arith

  -- The table of regions is full: the run is given back.
  given_back-Grown : Grown (used_blocks h.blocks) (record h { pmm = pmm_free_pages p phys pages })
  given_back-Grown =
      let back = SamePages-run t in
      let (start, end) = pmm_free_pages-SameRegion p phys pages in
      let same : (pmm_free_pages p phys pages).mem_region_start ≡ h.pmm.mem_region_start =
        start ∙ t.region in
      record {
        ok = record {
          valid = back.valid;
          low = rw end still_low;
          good = ok.good;
          inside = ok.inside;
          backed = λ a c. let (above, on) = ok.backed a c in rw same (above, back.bits _ ∙ on);
        };
        same = refl;
      }

  append_block-Grown :
      Grown
        (used_blocks h.blocks)
        (append_block h phys pages p run_block
          (register_region (phys_to_virt phys) (pages * 4096 % 2 ^ 64) h.regions)).1
  unfolding append_block register_region
  append_block-Grown =
      let (virt, bytes, fit, pos) = run_place in
      elim (Bool-cases (leb heap_max_regions (length h.regions))) [
        | inl full ↦ rw full given_back-Grown
        | inr room ↦ rw room (record {
          ok = record {
            valid = t.valid;
            low = still_low;
            good = Good-append h.blocks run_block ok.good run_Well run_apart;
            inside = λ a c. elim (Covers-append h.blocks run_block a c) [
              | inl old ↦ addr_in_any_region-append_left h.regions _ a (ok.inside a old)
              | inr (lo, hi) ↦ addr_in_any_region-append_last h.regions _ a lo (omega arith)
            ];
            backed = λ a c. elim (Covers-append h.blocks run_block a c) [
              | inl old ↦ kept_InUse a (ok.backed a old)
              | inr new ↦ run_InUse a new
            ];
          };
          same = used_blocks-append h.blocks run_block refl;
        })
      ]

pub HeapOk-Grown : {h : Heap} → HeapOk h → Grown (used_blocks h.blocks) h
HeapOk-Grown ok = record { ok = ok; same = refl }

pub expand_at-Grown :
    {h : Heap} (pages : ℕ) (r : ℕ × Pmm)
    → HeapOk h
    → 64 ≤ pages
    → RunOutcome h.pmm pages r
    → Grown (used_blocks h.blocks) (expand_at h pages r).1
unfolding expand_at
expand_at-Grown {h = h} pages (phys, p) ok many (inl (st, t)) =
    let found : (phys == 0) ≡ false =
      (let e = t.address in let pos = ok.valid.positive in ground arith) in
    rw found (append_block-Grown ok many t)
expand_at-Grown {h = h} pages (phys, p) ok many (inr ((none_found, same), _)) =
    let e : (phys == 0) ≡ true = ground arith in rw (e, same) (HeapOk-Grown ok)

pages_for-many : (need : ℕ) → 64 ≤ pages_for need
unfolding pages_for
pages_for-many need = ground arith

-- The heap stays good when it grows, or fails to, and its used blocks are as before.
pub heap_expand-Grown :
    {h : Heap} (need : ℕ) → HeapOk h → Grown (used_blocks h.blocks) (heap_expand need h).1
unfolding heap_expand
heap_expand-Grown {h = h} need ok =
    let many = pages_for-many need in
    expand_at-Grown (pages_for need) (pmm_allocate_pages h.pmm (pages_for need)) ok many
      (pmm_allocate_pages-RunOutcome (pages_for need) ok.valid (omega arith))
