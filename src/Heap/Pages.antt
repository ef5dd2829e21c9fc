-- ===== src/Heap/Pages.antt =====
-- The pages of mm/pmm/pmm.c that carry the heap of mm/heap/heap.c.
use cortex_forge_aarch64_bar.Prelude.{
  ℕ, zero, suc, ◌+◌, ◌-◌, ◌*◌, ◌/◌, ◌%◌, ◌^◌, ◌≡◌, ◌≤◌, ◌<◌, inl, inr, refl, ◌∙◌, Bool-cases, true,
  not, ◌||◌, List, ◌==◌, ltb, leb,
}
use cortex_forge_aarch64_bar.Bitmap.{bitmap_test}
use cortex_forge_aarch64_bar.Pmm.{Pmm, pmm_free_page, free_from, pmm_free_pages, add64}
use cortex_forge_aarch64_bar.Pmm.Invariant.{IsValid}
use cortex_forge_aarch64_bar.Heap.{Block, Heap, kernel_va_offset}
use cortex_forge_aarch64_bar.Heap.Blocks.{Good, Covers, used_blocks}
use cortex_forge_aarch64_bar.Heap.Release.{InRegions}

-- The byte at the virtual address `a` is in a page that the allocator has handed out.
abbrev pub InUse : Pmm → ℕ → Type 0
InUse p a =
    (kernel_va_offset + p.mem_region_start ≤ a)
    × (bitmap_test p.bitmap ((a - (kernel_va_offset + p.mem_region_start)) / 4096) ≡ true)

-- The blocks are good, in the regions of the heap and in pages that are in use.
pub record HeapOk (h : Heap) : Type 0 where
  pub valid : IsValid h.pmm
  pub low : h.pmm.mem_region_end < 2 ^ 48
  pub good : Good h.blocks
  pub inside : InRegions h.regions h.blocks
  pub backed : (a : ℕ) → Covers h.blocks a → InUse h.pmm a

-- The heap is good, and its used blocks are those.
pub record Grown (used : List Block) (h : Heap) : Type 0 where
  pub ok : HeapOk h
  pub same : used_blocks h.blocks ≡ used

-- Freeing leaves the region of the allocator alone.
abbrev pub SameRegion : Pmm → Pmm → Type 0
SameRegion s s' =
    (s'.mem_region_start ≡ s.mem_region_start) × (s'.mem_region_end ≡ s.mem_region_end)

pmm_free_page-SameRegion : (s : Pmm) (a : ℕ) → SameRegion s (pmm_free_page s a).1
unfolding pmm_free_page
pmm_free_page-SameRegion s a =
    let pfn = (a - s.mem_region_start) / 4096 in
    elim (Bool-cases (ltb a s.mem_region_start || leb s.mem_region_end a)) [
      | inl out ↦ rw out (refl, refl)
      | inr inside ↦ elim (Bool-cases (not (a % 4096 == 0))) [
        | inl crooked ↦ rw (inside, crooked) (refl, refl)
        | inr aligned ↦ elim (Bool-cases (ltb pfn s.reserved_pages)) [
          | inl low ↦ rw (inside, aligned, low) (refl, refl)
          | inr high ↦ elim (Bool-cases (not (bitmap_test s.bitmap pfn))) [
            | inl free ↦ rw (inside, aligned, high, free) (refl, refl)
            | inr used ↦ rw (inside, aligned, high, used) (refl, refl)
          ]
        ]
      ]
    ]

free_from-SameRegion : (n : ℕ) (s : Pmm) (a i : ℕ) → SameRegion s (free_from s a i n)
unfolding free_from
free_from-SameRegion zero s a i = (refl, refl)
free_from-SameRegion (suc n) s a i =
    let one = pmm_free_page-SameRegion s (add64 a (i * 4096)) in
    let rest = free_from-SameRegion n (pmm_free_page s (add64 a (i * 4096))).1 a (i + 1) in
    (rest.0 ∙ one.0, rest.1 ∙ one.1)

pub pmm_free_pages-SameRegion : (s : Pmm) (a n : ℕ) → SameRegion s (pmm_free_pages s a n)
unfolding pmm_free_pages
pmm_free_pages-SameRegion s a n = free_from-SameRegion n s a 0
