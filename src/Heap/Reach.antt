-- ===== src/Heap/Reach.antt =====
-- The calls of the heap in mm/heap/heap.c, in any order, beside other clients of the page allocator.
use cortex_forge_aarch64_bar.Prelude.{
  ℕ, ◌^◌, ◌≡◌, ◌<◌, inl, inr, refl, sym, Bool, Bool-cases, [], ◌==◌, arith,
}
use mathlib.Core.Path.{subst}
use cortex_forge_aarch64_bar.Pmm.{Pmm, pmm_allocate_pages}
use cortex_forge_aarch64_bar.Pmm.Invariant.{IsValid}
use cortex_forge_aarch64_bar.Pmm.AllocRun.Outcome.{pmm_allocate_pages-RunOutcome}
use cortex_forge_aarch64_bar.Heap.{
  Heap, heap_initial_pages, init_at, heap_init, expand_at, register_region, append_block, kmalloc,
  kfree,
}
use cortex_forge_aarch64_bar.Heap.Blocks.{Covers}
use cortex_forge_aarch64_bar.Heap.Pages.{HeapOk, InUse}
use cortex_forge_aarch64_bar.Heap.Grow.{expand_at-Grown}
use cortex_forge_aarch64_bar.Heap.Malloc.{kmalloc-MallocOutcome}
use cortex_forge_aarch64_bar.Heap.Free.{kfree-HeapOk}

abbrev pub no_heap : Pmm → Heap
no_heap pmm = record { blocks = []; regions = []; pmm = pmm }

no_heap-HeapOk : (pmm : Pmm) → IsValid pmm → pmm.mem_region_end < 2 ^ 48 → HeapOk (no_heap pmm)
no_heap-HeapOk pmm v low = record {
  valid = v;
  low = low;
  good = tt;
  inside = λ a c. absurd c;
  backed = λ a c. absurd c;
}

-- The first region is added to no region as any other is.
init_at-expand_at :
    (pmm : Pmm) (pages : ℕ) (r : ℕ × Pmm)
    → init_at (no_heap pmm) pages r ≡ (expand_at (no_heap pmm) pages r).1
unfolding init_at expand_at append_block register_region
init_at-expand_at pmm pages (phys, p) = elim (Bool-cases (phys == 0)) [
  | inl failed ↦ rw failed refl
  | inr found ↦ rw found refl
]

heap_init-HeapOk :
    (pmm : Pmm) → IsValid pmm → pmm.mem_region_end < 2 ^ 48 → HeapOk (heap_init (no_heap pmm))
unfolding heap_init
heap_init-HeapOk pmm v low =
    let r = pmm_allocate_pages pmm heap_initial_pages in
    let grown =
      expand_at-Grown heap_initial_pages r (no_heap-HeapOk pmm v low) (omega arith)
        (pmm_allocate_pages-RunOutcome heap_initial_pages v (omega arith)) in
    subst HeapOk (sym (init_at-expand_at pmm heap_initial_pages r)) grown.ok

-- The heap from its start, and what happens to it. Other clients of the page allocator leave it in
-- any valid state in which the pages below the blocks are still in use.
pub data HeapReach : Heap → Type 0 where
  started :
      (pmm : Pmm) → IsValid pmm → pmm.mem_region_end < 2 ^ 48 → HeapReach (heap_init (no_heap pmm))
  malloced : {h : Heap} (size : ℕ) → HeapReach h → HeapReach (kmalloc size h).1
  released :
      {h : Heap} (stray : ℕ → ℕ × Bool) (ptr : ℕ) → HeapReach h → HeapReach (kfree stray ptr h)
  others :
      {h : Heap} (pmm : Pmm)
      → IsValid pmm
      → pmm.mem_region_end < 2 ^ 48
      → ((a : ℕ) → Covers h.blocks a → InUse h.pmm a → InUse pmm a)
      → HeapReach h
      → HeapReach (record h { pmm = pmm })

-- After any sequence of allocations and frees, of any sizes and pointers, beside any other use of the
-- page allocator that leaves the heap's pages in use, no two blocks of the heap overlap, headers
-- included, each is aligned to 16 bytes with a magic that agrees with its flag, and each byte of a
-- block lies in a region of the heap and in a page that is in use.
pub HeapReach-HeapOk : (h : Heap) → HeapReach h → HeapOk h
HeapReach-HeapOk h (started pmm v low) = heap_init-HeapOk pmm v low
HeapReach-HeapOk h (malloced {h = g} size r) =
    (kmalloc-MallocOutcome g size (HeapReach-HeapOk g r)).0
HeapReach-HeapOk h (released {h = g} stray ptr r) = kfree-HeapOk stray ptr g (HeapReach-HeapOk g r)
HeapReach-HeapOk h (others {h = g} pmm v low kept r) =
    let ok = HeapReach-HeapOk g r in
    record {
      valid = v;
      low = low;
      good = ok.good;
      inside = ok.inside;
      backed = λ a c. kept a c (ok.backed a c);
    }
