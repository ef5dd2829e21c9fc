-- ===== src/Mmu/Tree.antt =====
-- The page tables of mm/mmu/mmu.c as a tree, and what the hardware finds in it.
use cortex_forge_aarch64_bar.Prelude.{
  ℕ, ◌+◌, ◌*◌, ◌^◌, ◌≡◌, ◌≤◌, ◌<◌, refl, sym, ◌∙◌, ap, true, List, [], ◌∷◌, length, Option, none,
  some, if◌then◌else◌,
}
use cortex_forge_aarch64_bar.Bitmap.{bitmap_test}
use cortex_forge_aarch64_bar.Pmm.Invariant.{IsValid}
use cortex_forge_aarch64_bar.Mmu.{Tables, Mmu, pte_valid, pte_next_table}

-- The entry that the hardware finds from the table `t` by the index `i` and those behind it; 0 where
-- a table is missing.
abbrev pub look : Tables → ℕ → ℕ → List ℕ → ℕ
look mem t i [] = mem t i
look mem t i (j ∷ js) =
    let rest = look mem (pte_next_table (mem t i)) j js in if pte_valid (mem t i) then rest else 0

pub look-step :
    (mem : Tables) (t i n j : ℕ) (js : List ℕ)
    → pte_valid (mem t i) ≡ true
    → pte_next_table (mem t i) ≡ n
    → look mem t i (j ∷ js) ≡ look mem n j js
look-step mem t i n j js v e = rw v (ap (λ x. look mem x j js) e)

-- Which tables belong to the tree, and the indices that lead to each, the last one first.
abbrev pub Own : Type 0
Own = ℕ → Option (List ℕ)

pub record Tree (s : Mmu) (own : Own) : Type 0 where
  pub valid : IsValid s.pmm
  pub low : s.pmm.mem_region_end ≤ 2 ^ 48
  pub child :
      (t : ℕ) (path : List ℕ) (i : ℕ)
      → own t ≡ some path
      → length path < 3
      → pte_valid (s.mem t i) ≡ true
      → own (pte_next_table (s.mem t i)) ≡ some (i ∷ path)
  pub backed :
      (t : ℕ) (path : List ℕ)
      → own t ≡ some path
      → (q : ℕ) × (t ≡ s.pmm.mem_region_start + q * 4096) × (bitmap_test s.pmm.bitmap q ≡ true)

-- The tree has grown: its tables, their valid entries and all that is found in it are as before.
pub record Kept (s s' : Mmu) (own own' : Own) : Type 0 where
  pub tree : Tree s' own'
  pub extends : (t : ℕ) (path : List ℕ) → own t ≡ some path → own' t ≡ some path
  pub entries :
      (t : ℕ) (path : List ℕ) (i : ℕ)
      → own t ≡ some path
      → pte_valid (s.mem t i) ≡ true
      → s'.mem t i ≡ s.mem t i
  pub looks :
      (t : ℕ) (path : List ℕ) (i : ℕ) (is : List ℕ)
      → own t ≡ some path
      → length path + length is ≡ 3
      → look s'.mem t i is ≡ look s.mem t i is

pub Kept-refl : (s : Mmu) (own : Own) → Tree s own → Kept s s own own
Kept-refl s own tree = record {
  tree = tree;
  extends = λ t path o. o;
  entries = λ t path i o v. refl;
  looks = λ t path i is o l. refl;
}

pub Kept-trans :
    (s s1 s2 : Mmu) (own own1 own2 : Own)
    → Kept s s1 own own1
    → Kept s1 s2 own1 own2
    → Kept s s2 own own2
Kept-trans s s1 s2 own own1 own2 k l = record {
  tree = l.tree;
  extends = λ t path o. l.extends t path (k.extends t path o);
  entries = λ t path i o v.
      let same = k.entries t path i o v in
      l.entries t path i (k.extends t path o) (rw same v) ∙ same;
  looks = λ t path i is o e. l.looks t path i is (k.extends t path o) e ∙ k.looks t path i is o e;
}

abbrev path_or : Option (List ℕ) → List ℕ
path_or none = []
path_or (some path) = path

-- A table has one place in the tree.
pub one_place : (o : Option (List ℕ)) (p q : List ℕ) → o ≡ some p → o ≡ some q → p ≡ q
one_place o p q e f = ap path_or (sym e ∙ f)
