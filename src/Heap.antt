-- ===== src/Heap.antt =====
-- mm/heap/heap.c: the kernel heap, over the page allocator of Pmm.
--
-- The list of block headers is a list of blocks with their addresses; the payloads are not modelled.
-- What stands in memory where kfree reads a header that is none is an argument, and its write there
-- changes no header. kmalloc is called when heap_init has found memory; before that the C code
-- would follow the null pointer of the empty list.
pub mod Blocks
pub mod Fit
pub mod Merge
pub mod Release
pub mod Pages
pub mod Grow
pub mod Free
pub mod Malloc
pub mod Reach
mod Tests
use cortex_forge_aarch64_bar.Prelude.{
  ℕ, zero, suc, ◌+◌, ◌-◌, ◌*◌, ◌/◌, ◌%◌, ◌^◌, Bool, true, false, not, ◌&&◌, ◌||◌, List, [], ◌∷◌,
  ◌++◌, map, length, Option, none, some, ltb, leb, ◌==◌, if◌then◌else◌,
}
use cortex_forge_aarch64_bar.Pmm.{Pmm, pmm_allocate_pages, pmm_free_pages}

abbrev pub heap_initial_pages : ℕ
heap_initial_pages = 256

abbrev pub heap_min_block_size : ℕ
heap_min_block_size = 32

abbrev pub heap_align : ℕ
heap_align = 16

-- A header has 24 bytes, aligned up.
abbrev pub block_header_size : ℕ
block_header_size = 32

abbrev pub heap_max_regions : ℕ
heap_max_regions = 16

abbrev pub heap_expand_min_pages : ℕ
heap_expand_min_pages = 64

abbrev pub kernel_va_offset : ℕ
kernel_va_offset = 0xFFFF000000000000

abbrev pub block_magic_alloc : ℕ
block_magic_alloc = 0xA110CED

abbrev pub block_magic_free : ℕ
block_magic_free = 0xFEEDF1EE

-- `block_header_t`, and where it stands.
pub record Block : Type 0 where
  pub addr : ℕ
  pub size : ℕ
  pub magic : ℕ
  pub is_free : Bool

pub record Region : Type 0 where
  pub va_start : ℕ
  pub size_bytes : ℕ

pub record Heap : Type 0 where
  pub blocks : List Block
  pub regions : List Region
  pub pmm : Pmm

abbrev pub phys_to_virt : ℕ → ℕ
phys_to_virt pa = (pa + kernel_va_offset) % 2 ^ 64

-- Whether it is registered, and the table.
unfoldable pub register_region : ℕ → ℕ → List Region → Bool × List Region
register_region va bytes regions =
    if leb heap_max_regions (length regions)
    then (false, regions)
    else (true, regions ++ (record { va_start = va; size_bytes = bytes } ∷ []))

unfoldable pub addr_in_any_region : List Region → ℕ → Bool
addr_in_any_region [] addr = false
addr_in_any_region (r ∷ rs) addr =
    leb r.va_start addr && ltb addr ((r.va_start + r.size_bytes) % 2 ^ 64)
    || addr_in_any_region rs addr

-- The free block that spans a new region.
abbrev pub spanning : ℕ → ℕ → Block
spanning va bytes = record {
  addr = va;
  size = (bytes + (2 ^ 64 - block_header_size)) % 2 ^ 64;
  magic = block_magic_free;
  is_free = true;
}

unfoldable pub init_at : Heap → ℕ → ℕ × Pmm → Heap
init_at h pages (phys, pmm) =
    let va = phys_to_virt phys in
    let bytes = pages * 4096 % 2 ^ 64 in
    if phys == 0 then record h { pmm = pmm } else record {
      blocks = spanning va bytes ∷ [];
      regions = (register_region va bytes h.regions).1;
      pmm = pmm;
    }

unfoldable pub heap_init : Heap → Heap
heap_init h = init_at h heap_initial_pages (pmm_allocate_pages h.pmm heap_initial_pages)

-- The end of `heap_expand`, by what `register_region` says.
unfoldable pub append_block : Heap → ℕ → ℕ → Pmm → Block → Bool × List Region → Bool × Heap
append_block h phys pages pmm b (true, regions) =
    (true, record { blocks = h.blocks ++ (b ∷ []); regions = regions; pmm = pmm })
append_block h phys pages pmm b (false, regions) =
    (false, record h { pmm = pmm_free_pages pmm phys pages })

unfoldable pub expand_at : Heap → ℕ → ℕ × Pmm → Bool × Heap
expand_at h pages (phys, pmm) =
    let va = phys_to_virt phys in
    let bytes = pages * 4096 % 2 ^ 64 in
    if phys == 0
    then (false, record h { pmm = pmm })
    else append_block h phys pages pmm (spanning va bytes) (register_region va bytes h.regions)

unfoldable pub pages_for : ℕ → ℕ
pages_for need_bytes =
    let bytes_required = (need_bytes + block_header_size) % 2 ^ 64 in
    let pages = (bytes_required + 4095) % 2 ^ 64 / 4096 in
    if ltb pages heap_expand_min_pages then heap_expand_min_pages else pages

-- Whether it returns 0, and the heap.
unfoldable pub heap_expand : ℕ → Heap → Bool × Heap
heap_expand need_bytes h =
    expand_at h (pages_for need_bytes) (pmm_allocate_pages h.pmm (pages_for need_bytes))

abbrev pub mark_used : Block → Block
mark_used b = record b { magic = block_magic_alloc; is_free = false }

-- What stands in the place of the block that is found.
unfoldable pub take_block : ℕ → Block → List Block
take_block size b =
    let remaining = b.size - size in
    let new_block : Block = record {
      addr = (b.addr + block_header_size + size) % 2 ^ 64;
      size = remaining - block_header_size;
      magic = block_magic_free;
      is_free = true;
    } in
    if ltb (block_header_size + heap_min_block_size) remaining
    then mark_used (record b { size = size }) ∷ new_block ∷ []
    else mark_used b ∷ []

abbrev pub behind_block : Block → Option (ℕ × List Block) → Option (ℕ × List Block)
behind_block b none = none
behind_block b (some (p, bs)) = some (p, b ∷ bs)

-- The loop of `kmalloc` over the blocks: the payload's address and the blocks after it.
unfoldable pub first_fit : ℕ → List Block → Option (ℕ × List Block)
first_fit size [] = none
first_fit size (b ∷ bs) =
    let later = first_fit size bs in
    if b.is_free && leb size b.size
    then some ((b.addr + block_header_size) % 2 ^ 64, take_block size b ++ bs)
    else behind_block b later

unfoldable pub fit_or : Heap → Option (ℕ × List Block) → (ℕ × Heap) → ℕ × Heap
fit_or h (some (p, bs)) later = (p, record h { blocks = bs })
fit_or h none later = later

unfoldable pub grown_or : Bool × Heap → (Heap → ℕ × Heap) → ℕ × Heap
grown_or (true, h) again = again h
grown_or (false, h) again = (0, h)

-- The two attempts, of which so many are left.
unfoldable pub attempts : ℕ → ℕ → Heap → ℕ × Heap
attempts zero size h = (0, h)
attempts (suc n) size h =
    fit_or h (first_fit size h.blocks) (grown_or (heap_expand size h) λ h'. attempts n size h')

unfoldable pub heap_align_up : ℕ → ℕ
heap_align_up x = (x + heap_align - 1) % 2 ^ 64 / heap_align * heap_align

unfoldable pub kmalloc : ℕ → Heap → ℕ × Heap
kmalloc size h =
    if size == 0
    then (0, h)
    else if ltb (2 ^ 64 - 1 - (heap_align - 1)) size
    then (0, h)
    else attempts 2 (heap_align_up size) h

-- The header that kfree reads: a block's, or what is in memory.
unfoldable pub header_at : (ℕ → ℕ × Bool) → ℕ → List Block → ℕ × Bool
header_at stray addr [] = stray addr
header_at stray addr (b ∷ bs) =
    let later = header_at stray addr bs in if b.addr == addr then (b.magic, b.is_free) else later

abbrev pub free_one : ℕ → Block → Block
free_one addr b =
    if b.addr == addr then record b { magic = block_magic_free; is_free = true } else b

abbrev pub merge : Block → Block → Block
merge b c = record b { size = (b.size + (block_header_size + c.size)) % 2 ^ 64 }

-- The two loops of the coalescing, at the block `b` with those behind it.
unfoldable pub coalesce_at : Block → List Block → List Block
coalesce_at b [] = b ∷ []
coalesce_at b (c ∷ cs) =
    let grown = coalesce_at (merge b c) cs in
    let rest = b ∷ coalesce_at c cs in
    if b.is_free && (c.is_free && (b.addr + block_header_size + b.size) % 2 ^ 64 == c.addr)
    then grown
    else rest

unfoldable pub coalesce : List Block → List Block
coalesce [] = []
coalesce (b ∷ bs) = coalesce_at b bs

unfoldable pub free_found : ℕ → Heap → ℕ × Bool → Heap
free_found addr h (magic, is_free) =
    if not (magic == block_magic_alloc)
    then h
    else if is_free
    then h
    else record h { blocks = coalesce (map (free_one addr) h.blocks) }

unfoldable pub kfree : (ℕ → ℕ × Bool) → ℕ → Heap → Heap
kfree stray ptr h =
    let block_addr = (ptr + (2 ^ 64 - block_header_size)) % 2 ^ 64 in
    if ptr == 0
    then h
    else if addr_in_any_region h.regions block_addr
    then free_found block_addr h (header_at stray block_addr h.blocks)
    else h

-- `heap_used_bytes` and `heap_free_bytes`; a sum of 64 bits is the same in any order.
unfoldable pub heap_used_bytes : List Block → ℕ
heap_used_bytes [] = 0
heap_used_bytes (b ∷ bs) =
    let rest = heap_used_bytes bs in if b.is_free then rest else (rest + b.size) % 2 ^ 64

unfoldable pub heap_free_bytes : List Block → ℕ
heap_free_bytes [] = 0
heap_free_bytes (b ∷ bs) =
    let rest = heap_free_bytes bs in if b.is_free then (rest + b.size) % 2 ^ 64 else rest
