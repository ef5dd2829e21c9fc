-- ===== src/Elf.antt =====
-- syscall/elf.c: the checks and the layout of the program loader.
--
-- The file is the list of its bytes, from which the fields of the packed headers are read. The tables
-- behind `user_l0` are those of Mmu. The contents of pages are not modelled: for each segment whose
-- pages were taken, `loads` records which bytes are copied where. The caches are not modelled.
pub mod Flags
pub mod Segment
pub mod Mapped
pub mod Memory
pub mod Load
mod Tests
use cortex_forge_aarch64_bar.Prelude.{
  ℕ, zero, suc, ◌+◌, ◌-◌, ◌*◌, ◌/◌, ◌%◌, ◌^◌, Bool, true, false, not, ◌&&◌, ◌||◌, List, [], ◌∷◌,
  ◌++◌, length, get_or, Option, none, some, ltb, leb, ◌==◌, if◌then◌else◌,
}
use cortex_forge_aarch64_bar.Pmm.{Pmm, pmm_allocate_pages, pmm_free_pages}
use cortex_forge_aarch64_bar.Mmu.{Mmu, mmu_map_user_range}
use cortex_forge_aarch64_bar.Signal.{user_stack_top}

abbrev pub Bytes : Type 0
Bytes = List ℕ

abbrev pub ehdr_size : ℕ
ehdr_size = 64

abbrev pub phdr_size : ℕ
phdr_size = 56

abbrev pub max_phnum : ℕ
max_phnum = 32

abbrev pub elf_max_regions : ℕ
elf_max_regions = 4

abbrev pub pt_load : ℕ
pt_load = 1

-- A little-endian field of so many bytes.
unfoldable pub field : ℕ → Bytes → ℕ → ℕ
field zero kbuf at = 0
field (suc n) kbuf at = get_or kbuf at 0 % 2 ^ 8 + 2 ^ 8 * field n kbuf (at + 1)

-- The fields of `Elf64_Phdr` that the loader reads.
pub record Phdr : Type 0 where
  pub p_type : ℕ
  pub p_flags : ℕ
  pub p_offset : ℕ
  pub p_vaddr : ℕ
  pub p_filesz : ℕ
  pub p_memsz : ℕ

unfoldable pub read_phdr : Bytes → ℕ → Phdr
read_phdr kbuf at = record {
  p_type = field 4 kbuf at;
  p_flags = field 4 kbuf (at + 4);
  p_offset = field 8 kbuf (at + 8);
  p_vaddr = field 8 kbuf (at + 16);
  p_filesz = field 8 kbuf (at + 32);
  p_memsz = field 8 kbuf (at + 40);
}

-- `phs[0]` to `phs[n - 1]`
unfoldable pub read_phdrs : Bytes → ℕ → ℕ → List Phdr
read_phdrs kbuf at zero = []
read_phdrs kbuf at (suc n) = read_phdr kbuf at ∷ read_phdrs kbuf (at + phdr_size) n

-- `e_entry`, `e_phoff`, `e_phentsize` and `e_phnum`
abbrev pub e_entry : Bytes → ℕ
e_entry kbuf = field 8 kbuf 24

abbrev pub e_phoff : Bytes → ℕ
e_phoff kbuf = field 8 kbuf 32

abbrev pub e_phnum : Bytes → ℕ
e_phnum kbuf = field 2 kbuf 56

-- The tests of the magic, class, data and version.
unfoldable pub ident_ok : Bytes → Bool
ident_ok kbuf =
    field 1 kbuf 0 == 0x7F
    && (field 1 kbuf 1 == 0x45
        && (field 1 kbuf 2 == 0x4C
            && (field 1 kbuf 3 == 0x46
                && (field 1 kbuf 4 == 2 && (field 1 kbuf 5 == 1 && field 1 kbuf 6 == 1)))))

-- All the tests of the file header.
unfoldable pub header_ok : Bytes → Bool
header_ok kbuf =
    leb ehdr_size (length kbuf)
    && (ident_ok kbuf
        && (field 2 kbuf 16 == 2
            && (field 2 kbuf 18 == 0xB7
                && (field 2 kbuf 54 == phdr_size
                    && (not (e_phnum kbuf == 0 || ltb max_phnum (e_phnum kbuf))
                        && not (
                            ltb (length kbuf) (e_phoff kbuf)
                            || ltb (length kbuf)
                                ((e_phoff kbuf + e_phnum kbuf * phdr_size) % 2 ^ 64)))))))

abbrev pub pf_x : ℕ → Bool
pf_x pf = pf % 2 == 1

abbrev pub pf_w : ℕ → Bool
pf_w pf = pf / 2 % 2 == 1

abbrev pub pf_r : ℕ → Bool
pf_r pf = pf / 4 % 2 == 1

-- The bits do not overlap, so that the source's disjunctions are sums.
unfoldable pub parse_flags : ℕ → Option ℕ
parse_flags pf =
    let f = 2 ^ 2 + 2 ^ 53 in
    let f1 = f + (if pf_w pf then 2 ^ 6 else 3 * 2 ^ 6) in
    let f2 = f1 + (if pf_x pf then 0 else 2 ^ 54) in
    if pf_w pf && pf_x pf then none else if pf_r pf then some f2 else none

-- A segment whose pages were taken: `pages` pages at `phys` are cleared, `p_filesz` bytes from
-- `p_offset` of the file go to `intra` bytes behind their start, and mmu_map_user_range is called for
-- them from `va_lo` on with the flags.
pub record Loaded : Type 0 where
  pub header : Phdr
  pub va_lo : ℕ
  pub phys : ℕ
  pub pages : ℕ
  pub intra : ℕ
  pub pte_flags : ℕ

-- `elf_image_t`, the page tables with the allocator, and the record of the loads.
pub record Loader : Type 0 where
  pub entry : ℕ
  pub regions : List (ℕ × ℕ)
  pub mmu : Mmu
  pub loads : List Loaded

abbrev pub page_down : ℕ → ℕ
page_down x = x / 4096 * 4096

abbrev pub va_lo_of : Phdr → ℕ
va_lo_of ph = page_down ph.p_vaddr

abbrev pub pages_of : Phdr → ℕ
pages_of ph =
    (page_down ((ph.p_vaddr + ph.p_memsz + 4095) % 2 ^ 64) + (2 ^ 64 - va_lo_of ph)) % 2 ^ 64 / 4096

-- The sanity checks of a segment, up to the number of regions.
unfoldable pub segment_ok : ℕ → Phdr → ℕ → Bool
segment_ok size ph region_count =
    let file_end = (ph.p_offset + ph.p_filesz) % 2 ^ 64 in
    let mem_end = (ph.p_vaddr + ph.p_memsz) % 2 ^ 64 in
    not (ltb ph.p_memsz ph.p_filesz)
    && (not (ltb size file_end || ltb file_end ph.p_offset)
        && (not (
              leb user_stack_top ph.p_vaddr
              || (ltb user_stack_top mem_end || ltb mem_end ph.p_vaddr))
            && not (leb elf_max_regions region_count)))

unfoldable pub load_at : ℕ → Phdr → ℕ → Loader → ℕ × Pmm → Bool × Loader
load_at user_l0 ph flags s (phys, pmm) =
    let load : Loaded = record {
      header = ph;
      va_lo = va_lo_of ph;
      phys = phys;
      pages = pages_of ph;
      intra = ph.p_vaddr - va_lo_of ph;
      pte_flags = flags;
    } in
    if phys == 0 then (false, record s { mmu = record s.mmu { pmm = pmm } }) else (
      true,
      record s {
        regions = s.regions ++ ((phys, pages_of ph) ∷ []);
        mmu =
            mmu_map_user_range user_l0 (va_lo_of ph) phys (pages_of ph) flags
              (record s.mmu { pmm = pmm });
        loads = s.loads ++ (load ∷ []);
      },
    )

unfoldable pub load_with : ℕ → Phdr → Loader → Option ℕ → Bool × Loader
load_with user_l0 ph s none = (false, s)
load_with user_l0 ph s (some flags) =
    load_at user_l0 ph flags s (pmm_allocate_pages s.mmu.pmm (pages_of ph))

-- The body of the loop over the segments: whether it goes on, and the state.
unfoldable pub load_segment : ℕ → ℕ → Phdr → Loader → Bool × Loader
load_segment user_l0 size ph s =
    if not (ph.p_type == pt_load)
    then (true, s)
    else if segment_ok size ph (length s.regions)
    then load_with user_l0 ph s (parse_flags ph.p_flags)
    else (false, s)

-- The loop of `free_regions`.
unfoldable pub free_each : List (ℕ × ℕ) → Pmm → Pmm
free_each [] pmm = pmm
free_each ((phys, pages) ∷ rs) pmm =
    free_each rs (if phys == 0 || pages == 0 then pmm else pmm_free_pages pmm phys pages)

unfoldable pub free_regions : Loader → Loader
free_regions s = record s {
  regions = [];
  mmu = record s.mmu { pmm = free_each s.regions s.mmu.pmm };
}

unfoldable pub load_next : Bool × Loader → (Loader → Bool × Loader) → Bool × Loader
load_next (true, s) again = again s
load_next (false, s) again = (false, free_regions s)

unfoldable pub load_segments : ℕ → ℕ → List Phdr → Loader → Bool × Loader
load_segments user_l0 size [] s = (true, s)
load_segments user_l0 size (ph ∷ phs) s =
    load_next (load_segment user_l0 size ph s) λ s'. load_segments user_l0 size phs s'

-- The loop that looks for the segment of the entry.
unfoldable pub entry_ok : ℕ → List Phdr → Bool
entry_ok entry [] = false
entry_ok entry (ph ∷ phs) =
    ph.p_type == pt_load
      && (leb ph.p_vaddr entry
          && (ltb entry ((ph.p_vaddr + ph.p_memsz) % 2 ^ 64) && pf_x ph.p_flags))
    || entry_ok entry phs

unfoldable pub check_entry : ℕ → List Phdr → Bool × Loader → Bool × Loader
check_entry entry phs (false, s) = (false, s)
check_entry entry phs (true, s) =
    if length s.regions == 0
    then (false, s)
    else if entry_ok entry phs
    then (true, s)
    else (false, free_regions s)

-- Whether it returns 0, and the state.
unfoldable pub elf_load : ℕ → Bytes → Loader → Bool × Loader
elf_load user_l0 kbuf s =
    let phs = read_phdrs kbuf (e_phoff kbuf) (e_phnum kbuf) in
    let start = record s { entry = e_entry kbuf; regions = []; loads = [] } in
    if header_ok kbuf
    then check_entry (e_entry kbuf) phs (load_segments user_l0 (length kbuf) phs start)
    else (false, s)
