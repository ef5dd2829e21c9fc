-- ===== src/Heap/Tests.antt =====
-- Runs and witnesses for the heap of mm/heap/heap.c.
use cortex_forge_aarch64_bar.Prelude.{ℕ, ◌≡◌, refl, true, false, [], ◌∷◌, arith, Bool, length}
use cortex_forge_aarch64_bar.Pmm.{Pmm, pmm_init}
use cortex_forge_aarch64_bar.Pmm.Init.{IsLayout, pmm_init-Fresh}
use cortex_forge_aarch64_bar.Heap.{
  Heap, block_magic_alloc, block_magic_free, heap_init, kmalloc, kfree, attempts, fit_or, first_fit,
  take_block, heap_align_up, header_at, free_found, coalesce, coalesce_at, addr_in_any_region,
}
use cortex_forge_aarch64_bar.Heap.Blocks.{used_blocks}
use cortex_forge_aarch64_bar.Heap.Release.{drop_addr, header_addr, kfree-used_blocks}
use cortex_forge_aarch64_bar.Heap.Pages.{HeapOk}
use cortex_forge_aarch64_bar.Heap.Malloc.{MallocOutcome, kmalloc-MallocOutcome}
use cortex_forge_aarch64_bar.Heap.Reach.{
  no_heap, HeapReach, started, malloced, released, HeapReach-HeapOk,
}

-- 8 MiB of memory from 1 GiB on, with the kernel in the first 512 KiB.
abbrev pages_at_boot : Pmm
pages_at_boot = pmm_init 0x40080000 0x40000000 0x800000

boot-IsLayout : IsLayout 0x40080000 0x40000000 0x800000
boot-IsLayout = omega arith

boot_end : pages_at_boot.mem_region_end ≡ 0x40800000
unfolding pmm_init
boot_end = refl

abbrev heap_at_boot : Heap
heap_at_boot = heap_init (no_heap pages_at_boot)

abbrev no_stray : ℕ → ℕ × Bool
no_stray a = (0, false)

-- Two allocations, and the first is freed.
abbrev two_blocks : Heap
two_blocks = (kmalloc 100 (kmalloc 24 heap_at_boot).1).1

two_blocks-HeapReach : HeapReach two_blocks
two_blocks-HeapReach = malloced 100 (
    malloced 24
      (started pages_at_boot (pmm_init-Fresh boot-IsLayout).valid (omega (arith, boot_end))))

HeapReach-HeapOk_example : HeapOk (kfree no_stray 0xFFFF000040080020 two_blocks)
HeapReach-HeapOk_example =
    HeapReach-HeapOk (kfree no_stray 0xFFFF000040080020 two_blocks)
      (released no_stray 0xFFFF000040080020 two_blocks-HeapReach)

kmalloc-MallocOutcome_example : MallocOutcome two_blocks 5000 (kmalloc 5000 two_blocks)
kmalloc-MallocOutcome_example =
    kmalloc-MallocOutcome two_blocks 5000 (HeapReach-HeapOk two_blocks two_blocks-HeapReach)

kfree-used_blocks_example :
    used_blocks (kfree no_stray 0xFFFF000040081020 two_blocks).blocks
    ≡ drop_addr (header_addr 0xFFFF000040081020) (used_blocks two_blocks.blocks)
kfree-used_blocks_example =
    let ok = HeapReach-HeapOk two_blocks two_blocks-HeapReach in
    kfree-used_blocks no_stray 0xFFFF000040081020 two_blocks ok.good ok.inside

-- A heap of one region of 4 KiB, with two blocks in use.
abbrev small_heap : Heap
small_heap = record (no_heap pages_at_boot) {
  blocks =
      record { addr = 0x1000; size = 32; magic = block_magic_alloc; is_free = false }
      ∷ record { addr = 0x1040; size = 112; magic = block_magic_alloc; is_free = false }
      ∷ record { addr = 0x10D0; size = 3840; magic = block_magic_free; is_free = true }
      ∷ [];
  regions = record { va_start = 0x1000; size_bytes = 4096 } ∷ [];
}

abbrev freed_second : Heap
freed_second = kfree no_stray 0x1060 small_heap

heap_runs :
    ((kmalloc 100 small_heap).0 ≡ 0x10F0)
    × (length freed_second.blocks ≡ 2)
    × (length (kfree no_stray 0x1060 freed_second).blocks ≡ 2)
    × (length (kfree no_stray 0x1020 freed_second).blocks ≡ 1)
    × (length (kfree no_stray 0x1030 small_heap).blocks ≡ 3)
    × ((kmalloc 100 freed_second).0 ≡ 0x1060)
unfolding kmalloc attempts fit_or first_fit take_block heap_align_up kfree header_at free_found
    coalesce coalesce_at addr_in_any_region
heap_runs = (refl, refl, refl, refl, refl, refl)
