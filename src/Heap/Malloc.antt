-- ===== src/Heap/Malloc.antt =====
-- `kmalloc` of mm/heap/heap.c on a good heap.
use cortex_forge_aarch64_bar.Prelude.{
  ℕ, zero, suc, ◌-◌, ◌%◌, ◌^◌, ◌≡◌, ◌≤◌, ◌<◌, ◌⊎◌, inl, inr, refl, ◌∙◌, Bool, Bool-cases, true,
  false, List, Option, none, some, ◌==◌, ltb, arith,
}
use cortex_forge_aarch64_bar.Heap.{
  Block, Heap, heap_align_up, heap_expand, first_fit, fit_or, grown_or, attempts, kmalloc,
}
use cortex_forge_aarch64_bar.Heap.Blocks.{used_blocks}
use cortex_forge_aarch64_bar.Heap.Fit.{
  NoFit, FitOutcome, first_fit-FitOutcome, Taken-Good, Taken-Covers, NewUsed, Taken-NewUsed,
}
use cortex_forge_aarch64_bar.Heap.Pages.{HeapOk, Grown}
use cortex_forge_aarch64_bar.Heap.Grow.{heap_expand-Grown}

-- The payload that is returned is that of a new used block, or it is 0 and none is new.
abbrev Malloced : ℕ → List Block → List Block → ℕ × Heap → Type 0
Malloced size free_in used (p, h') =
    HeapOk h'
    × (((p ≡ 0) × (used_blocks h'.blocks ≡ used) × NoFit size free_in)
        ⊎ NewUsed size p used (used_blocks h'.blocks))

module _ (size : ℕ) (aligned : size % 16 ≡ 0) where
  fit_or-Malloced :
      (h : Heap) (o : Option (ℕ × List Block)) (later : ℕ × Heap)
      → HeapOk h
      → FitOutcome size h.blocks o
      → (NoFit size h.blocks → Malloced size h.blocks (used_blocks h.blocks) later)
      → Malloced size h.blocks (used_blocks h.blocks) (fit_or h o later)
  unfolding fit_or
  fit_or-Malloced h none later ok no_fit more = more no_fit
  fit_or-Malloced h (some (p, bs)) later ok taken more = (
    record {
      valid = ok.valid;
      low = ok.low;
      good = Taken-Good size p h.blocks bs aligned taken ok.good;
      inside = λ a c. ok.inside a (Taken-Covers size p h.blocks bs a taken c);
      backed = λ a c. ok.backed a (Taken-Covers size p h.blocks bs a taken c);
    },
    inr (Taken-NewUsed size p h.blocks bs taken),
  )

  grown_or-Malloced :
      (free_in used : List Block) (r : Bool × Heap) (again : Heap → ℕ × Heap)
      → NoFit size free_in
      → Grown used r.1
      → ((h : Heap) → Grown used h → Malloced size free_in used (again h))
      → Malloced size free_in used (grown_or r again)
  unfolding grown_or
  grown_or-Malloced free_in used (true, h) again no_fit g more = more h g
  grown_or-Malloced free_in used (false, h) again no_fit g more = (g.ok, inl (refl, g.same, no_fit))

  -- The reason of a failure is that of the first attempt.
  Malloced-earlier :
      (before now used used' : List Block) (r : ℕ × Heap)
      → NoFit size before
      → used ≡ used'
      → Malloced size now used r
      → Malloced size before used' r
  Malloced-earlier before now used used' (p, h') no_fit e (ok, inl (z, same, _)) =
      (ok, inl (z, same ∙ e, no_fit))
  Malloced-earlier before now used used' (p, h') no_fit e (ok, inr n) = (ok, inr (rw (← e) n))

  attempt-Malloced :
      (h : Heap) (again : Heap → ℕ × Heap)
      → HeapOk h
      → (NoFit size h.blocks
          → (h' : Heap) → Grown (used_blocks h.blocks) h'
          → Malloced size h.blocks (used_blocks h.blocks) (again h'))
      → Malloced size h.blocks
          (used_blocks h.blocks)
          (fit_or h (first_fit size h.blocks) (grown_or (heap_expand size h) again))
  attempt-Malloced h again ok more =
      fit_or-Malloced h (first_fit size h.blocks) (grown_or (heap_expand size h) again) ok
        (first_fit-FitOutcome size h.blocks ok.good)
        (λ no_fit.
          grown_or-Malloced h.blocks (used_blocks h.blocks) (heap_expand size h) again no_fit
            (heap_expand-Grown size ok) (more no_fit))

  attempts-Malloced :
      (n : ℕ) (h : Heap)
      → HeapOk h
      → Malloced size h.blocks (used_blocks h.blocks) (attempts (suc n) size h)
  unfolding attempts
  attempts-Malloced zero h ok =
      attempt-Malloced h (λ h'. attempts zero size h') ok
        (λ no_fit h' g. (g.ok, inl (refl, g.same, no_fit)))
  attempts-Malloced (suc n) h ok =
      attempt-Malloced h (λ h'. attempts (suc n) size h') ok
        (λ no_fit h' g.
          Malloced-earlier h.blocks h'.blocks (used_blocks h'.blocks) (used_blocks h.blocks)
            (attempts (suc n) size h') no_fit g.same (attempts-Malloced n h' g.ok))

-- The outcomes of `kmalloc` on the heap `h`.
abbrev pub MallocOutcome : Heap → ℕ → ℕ × Heap → Type 0
MallocOutcome h size (p, h') =
    HeapOk h'
    × (((p ≡ 0)
          × (used_blocks h'.blocks ≡ used_blocks h.blocks)
          × ((size ≡ 0) ⊎ ((2 ^ 64 - 16 < size) ⊎ NoFit (heap_align_up size) h.blocks)))
        ⊎ NewUsed size p (used_blocks h.blocks) (used_blocks h'.blocks))

heap_align_up-fits :
    (size : ℕ) → size ≤ 2 ^ 64 - 16 → (size ≤ heap_align_up size) × (heap_align_up size % 16 ≡ 0)
unfolding heap_align_up
heap_align_up-fits size le = (omega arith, omega arith)

NewUsed-smaller :
    (size size' p : ℕ) (us us' : List Block)
    → size ≤ size'
    → NewUsed size' p us us'
    → NewUsed size p us us'
NewUsed-smaller size size' p us us' le n = record {
  lower = n.lower;
  upper = n.upper;
  block = n.block;
  were = n.were;
  are = n.are;
  payload = n.payload;
  enough = (let e = n.enough in omega arith);
}

Malloced-MallocOutcome :
    (h : Heap) (size : ℕ) (r : ℕ × Heap)
    → size ≤ heap_align_up size
    → Malloced (heap_align_up size) h.blocks (used_blocks h.blocks) r
    → MallocOutcome h size r
Malloced-MallocOutcome h size (p, h') le (ok, inl (z, same, no_fit)) =
    (ok, inl (z, same, inr (inr no_fit)))
Malloced-MallocOutcome h size (p, h') le (ok, inr n) =
    (ok, inr (NewUsed-smaller size (heap_align_up size) p _ _ le n))

-- On a good heap kmalloc leaves a good heap, in which no two blocks overlap and every block lies in
-- pages that the page allocator has handed out. It returns the payload of a block that was not used,
-- of at least the size asked for, and the other used blocks are as before; or it returns 0 and the
-- used blocks are as before, for a size of 0, a size above 2^64 - 16, or when no free block had the
-- size, rounded up to 16, before the heap tried to grow.
pub kmalloc-MallocOutcome : (h : Heap) (size : ℕ) → HeapOk h → MallocOutcome h size (kmalloc size h)
unfolding kmalloc
kmalloc-MallocOutcome h size ok = elim (Bool-cases (size == 0)) [
  | inl empty ↦ rw empty (ok, inl (refl, refl, inl (ground arith)))
  | inr some_size ↦ elim (Bool-cases (ltb (2 ^ 64 - 1 - (16 - 1)) size)) [
    | inl huge ↦ rw (some_size, huge) (ok, inl (refl, refl, inr (inl (ground arith))))
    | inr fits ↦
        let (le, al) = heap_align_up-fits size (ground arith) in
        rw (some_size, fits)
          (Malloced-MallocOutcome h size (attempts 2 (heap_align_up size) h) le
            (attempts-Malloced (heap_align_up size) al 1 h ok))
  ]
]
