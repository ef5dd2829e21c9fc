-- ===== src/Mmu.antt =====
-- mm/mmu/mmu.c: the walk of the page tables of a user address space, which allocates the tables it
-- lacks, and the mapping of a range of pages.
--
-- The memory of the tables gives the entry of a table, named by its physical address, at an index
-- below 512. The tables are read and written through the kernel's own mapping of all memory, which
-- changes nothing here. The disjunctions of bits that do not overlap are sums; the flags of the
-- caller are or-ed.
pub mod Tree
pub mod Descend
pub mod Level
pub mod Put
pub mod Map
pub mod Range
mod Tests
use cortex_forge_aarch64_bar.Prelude.{
  ℕ, zero, suc, ◌+◌, ◌-◌, ◌*◌, ◌/◌, ◌%◌, ◌^◌, Bool, true, false, not, Option, none, some, ◌==◌,
  if◌then◌else◌,
}
use Prim.Native.Nat.{bit_or}
use cortex_forge_aarch64_bar.Pmm.{Pmm, pmm_allocate_page}
use cortex_forge_aarch64_bar.Signal.{user_sigtramp_va}

abbrev pub Tables : Type 0
Tables = ℕ → ℕ → ℕ

pub record Mmu : Type 0 where
  pub mem : Tables
  pub pmm : Pmm

abbrev pub pte_valid : ℕ → Bool
pte_valid e = e % 2 == 1

-- `pte & PTE_ADDR_MASK`
abbrev pub pte_next_table : ℕ → ℕ
pte_next_table e = e % 2 ^ 48 / 4096 * 4096

abbrev pub zero_table : ℕ → Tables → Tables
zero_table t mem a i = if t == a then 0 else mem a i

abbrev pub put_entry : ℕ → ℕ → ℕ → Tables → Tables
put_entry t i e mem a j = if t == a then if i == j then e else mem a j else mem a j

unfoldable pub alloc_at : Mmu → ℕ × Pmm → Option ℕ × Mmu
alloc_at s (phys, pmm) =
    if phys == 0
    then (none, record s { pmm = pmm })
    else (some phys, record { mem = zero_table phys s.mem; pmm = pmm })

unfoldable pub alloc_table : Mmu → Option ℕ × Mmu
alloc_table s = alloc_at s (pmm_allocate_page s.pmm)

-- A new table is entered with PTE_VALID and PTE_TABLE.
unfoldable pub enter_table : ℕ → ℕ → Option ℕ × Mmu → Option ℕ × Mmu
enter_table t i (none, s) = (none, s)
enter_table t i (some p, s) = (some p, record s { mem = put_entry t i (p + 3) s.mem })

-- One level of `walk_levels`: the table behind the entry `i` of the table `t`.
unfoldable pub next_level : Bool → ℕ → ℕ → Mmu → Option ℕ × Mmu
next_level alloc t i s =
    if pte_valid (s.mem t i)
    then (some (pte_next_table (s.mem t i)), s)
    else if alloc
    then enter_table t i (alloc_table s)
    else (none, s)

abbrev pub Slot : Type 0
Slot = ℕ × ℕ

unfoldable pub and_then : Option ℕ × Mmu → (ℕ → Mmu → Option Slot × Mmu) → Option Slot × Mmu
and_then (none, s) more = (none, s)
and_then (some t, s) more = more t s

abbrev pub l0_index : ℕ → ℕ
l0_index va = va / 2 ^ 39 % 512

abbrev pub l1_index : ℕ → ℕ
l1_index va = va / 2 ^ 30 % 512

abbrev pub l2_index : ℕ → ℕ
l2_index va = va / 2 ^ 21 % 512

abbrev pub l3_index : ℕ → ℕ
l3_index va = va / 2 ^ 12 % 512

-- The entry that is found is given by its table and index.
unfoldable pub walk_levels : ℕ → ℕ → ℕ → Bool → Mmu → Option Slot × Mmu
walk_levels l0 va target_level alloc s = and_then (next_level alloc l0 (l0_index va) s) λ l1 s1.
    and_then (next_level alloc l1 (l1_index va) s1) λ l2 s2.
      if target_level == 2
      then (some (l2, l2_index va), s2)
      else and_then (next_level alloc l2 (l2_index va) s2) λ l3 s3. (some (l3, l3_index va), s3)

-- The descriptor of a page, with PTE_VALID, PTE_TABLE, PTE_SH_INNER, PTE_AF and PTE_NG.
unfoldable pub page_entry : ℕ → ℕ → ℕ
page_entry pa flags =
    bit_or (pa % 2 ^ 48 / 4096 * 4096 + (2 ^ 0 + 2 ^ 1 + 3 * 2 ^ 8 + 2 ^ 10 + 2 ^ 11)) flags

-- The rest of a round of the loop of `mmu_map_user_range`, behind the walk.
unfoldable pub map_found : ℕ → Option Slot × Mmu → (Mmu → Mmu) → Mmu
map_found e (none, s) again = s
map_found e (some (t, i), s) again = again (record s { mem = put_entry t i e s.mem })

-- The loop, from the page `k` on.
unfoldable pub map_pages : ℕ → ℕ → ℕ → ℕ → ℕ → ℕ → Mmu → Mmu
map_pages l0 va pa flags k zero s = s
map_pages l0 va pa flags k (suc n) s =
    let v = (va + k * 4096) % 2 ^ 64 in
    let p = (pa + k * 4096) % 2 ^ 64 in
    map_found (page_entry p flags) (walk_levels l0 v 3 true s)
      λ s'. map_pages l0 va pa flags (k + 1) n s'

unfoldable pub mmu_map_user_range : ℕ → ℕ → ℕ → ℕ → ℕ → Mmu → Mmu
mmu_map_user_range l0 va pa pages flags s = map_pages l0 va pa flags 0 pages s

-- The shared page of the trampoline, which `g_sigtramp_phys` holds once it is there; 0 for none. The
-- two instructions in it are not modelled.
unfoldable pub mmu_sigtramp_page : ℕ → Mmu → ℕ × Mmu
mmu_sigtramp_page g_sigtramp_phys s =
    let page = pmm_allocate_page s.pmm in
    if g_sigtramp_phys == 0 then (page.0, record s { pmm = page.1 }) else (g_sigtramp_phys, s)

-- PTE_ATTRIDX(1), PTE_AP_RO_EL0 and PTE_PXN
abbrev pub tramp_flags : ℕ
tramp_flags = 2 ^ 2 + 3 * 2 ^ 6 + 2 ^ 53

unfoldable pub map_trampoline : ℕ → ℕ × Mmu → ℕ × Mmu
map_trampoline l0 (tramp, s) =
    if tramp == 0
    then (0, s)
    else (tramp, mmu_map_user_range l0 user_sigtramp_va tramp 1 tramp_flags s)

unfoldable pub create_at : ℕ → Option ℕ × Mmu → Option ℕ × (ℕ × Mmu)
create_at g_sigtramp_phys (none, s) = (none, (g_sigtramp_phys, s))
create_at g_sigtramp_phys (some l0, s) =
    (some l0, map_trampoline l0 (mmu_sigtramp_page g_sigtramp_phys s))

-- The root of the tables, if there is a page for it, with `g_sigtramp_phys` and the tables after it.
unfoldable pub mmu_create_user_tables : ℕ → Mmu → Option ℕ × (ℕ × Mmu)
mmu_create_user_tables g_sigtramp_phys s = create_at g_sigtramp_phys (alloc_table s)
