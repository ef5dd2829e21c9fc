-- ===== src/Mmu/Level.antt =====
-- The outcome of one level of `walk_levels` of mm/mmu/mmu.c.
use cortex_forge_aarch64_bar.Prelude.{
  ℕ, ◌^◌, ◌≡◌, ◌<◌, ◌≤◌, refl, ◌∙◌, ap, Bool-cases, true, false, ◌&&◌, inl, inr, List, [], ◌∷◌,
  length, Option, none, some, ◌==◌, if◌then◌else◌, arith,
}
use mathlib.Core.Path.{subst}
use mathlib.Core.Bool.{false≢true}
use mathlib.Core.Option.{none-ne-some}
use cortex_forge_aarch64_bar.Pmm.Invariant.{IsValid}
use cortex_forge_aarch64_bar.Pmm.{Pmm, pmm_allocate_page}
use cortex_forge_aarch64_bar.Pmm.AllocPage.{
  AllUsed, TookPage, PageOutcome, pmm_allocate_page-PageOutcome,
}
use cortex_forge_aarch64_bar.Mmu.{
  Mmu, pte_valid, pte_next_table, alloc_at, alloc_table, enter_table, next_level, zero_table,
}
use cortex_forge_aarch64_bar.Mmu.Tree.{Own, Tree, Kept, Kept-refl}
use cortex_forge_aarch64_bar.Mmu.Descend.{own_linked, place, mem-slot, own_linked-new, linked-Kept}

-- The table `n` is the one behind the entry `i` of `t`.
pub record Stepped (s : Mmu) (own : Own) (t i n : ℕ) (path : List ℕ) (s' : Mmu) : Type 0 where
  pub own' : Own
  pub kept : Kept s s' own own'
  pub owned : own' n ≡ some (i ∷ path)
  pub valid : pte_valid (s'.mem t i) ≡ true
  pub next : pte_next_table (s'.mem t i) ≡ n

-- No table is found only when no page is left.
abbrev pub LevelOutcome : Mmu → Own → ℕ → ℕ → List ℕ → Option ℕ × Mmu → Type 0
LevelOutcome s own t i path (none, s') =
    ((own' : Own) × Kept s s' own own') × AllUsed s'.pmm s'.pmm.total_pages
LevelOutcome s own t i path (some n, s') = Stepped s own t i n path s'

module _ (s : Mmu) (own : Own) (t i : ℕ) (path : List ℕ) (tree : Tree s own)
    (at : own t ≡ some path) (short : length path < 3) where
  enter_table-LevelOutcome :
      (r : ℕ × Pmm)
      → pte_valid (s.mem t i) ≡ false
      → PageOutcome s.pmm r
      → LevelOutcome s own t i path (enter_table t i (alloc_at s r))
  unfolding enter_table alloc_at
  enter_table-LevelOutcome (p, pmm) missing (inr ((failed, same), all)) =
      let e : (p == 0) ≡ true = ground arith in rw (e, same) ((own, Kept-refl s own tree), all)
  enter_table-LevelOutcome (p, pmm) missing (inl (q, took)) =
      let e : (p == 0) ≡ false =
        (let a = took.address in let pos = tree.valid.positive in ground arith) in
      let slot : (t == t && i == i) ≡ true = ground arith in
      let new = mem-slot s own t i p q path pmm tree at short missing took t i slot in
      let (valid, next) = place s own t i p q path pmm tree at short missing took in
      rw e (record {
        own' = own_linked s own t i p q path pmm tree at short missing took;
        kept = linked-Kept s own t i p q path pmm tree at short missing took;
        owned = own_linked-new s own t i p q path pmm tree at short missing took;
        valid = ap pte_valid new ∙ valid;
        next = ap pte_next_table new ∙ next;
      })

  pub next_level-LevelOutcome : LevelOutcome s own t i path (next_level true t i s)
  unfolding next_level alloc_table
  next_level-LevelOutcome = elim (Bool-cases (pte_valid (s.mem t i))) [
    | inl v ↦ rw v (record {
      own' = own;
      kept = Kept-refl s own tree;
      owned = tree.child t path i at short v;
      valid = v;
      next = refl;
    })
    | inr missing ↦ rw missing (
        enter_table-LevelOutcome (pmm_allocate_page s.pmm) missing
          (pmm_allocate_page-PageOutcome tree.valid))
  ]

-- A new root table, which is empty.
module _ (s : Mmu) (p q : ℕ) (pmm : Pmm) (v : IsValid s.pmm) (low : s.pmm.mem_region_end ≤ 2 ^ 48)
    (took : TookPage s.pmm q p pmm) where
  abbrev pub root_only : Own
  root_only u = if p == u then some [] else none

  abbrev pub new_root : Mmu
  new_root = record { mem = zero_table p s.mem; pmm = pmm }

  root_only-same : (u : ℕ) (path : List ℕ) → root_only u ≡ some path → (p == u) ≡ true
  root_only-same u path o = elim (Bool-cases (p == u)) [
    | inl same ↦ same
    | inr other ↦
        absurd (none-ne-some path (subst (λ b. (if b then some [] else none) ≡ some path) other o))
  ]

  pub new_root-Tree : Tree new_root root_only
  new_root-Tree = record {
    valid = took.valid;
    low =
        (let e = took.valid.region in
          let e' = v.region in let n = took.total in let r = took.region in omega arith);
    child = λ t path i o short valid.
        let same = root_only-same t path o in
        absurd (false≢true (subst (λ b. pte_valid (if b then 0 else s.mem t i) ≡ true) same valid));
    backed = λ t path o.
        let same = root_only-same t path o in
        let e : p ≡ t = ground arith in
        let addr = took.address in
        let region = took.region in
        let bit = took.bits q in
        let self : (q == q) ≡ true = ground arith in (q, omega arith, bit ∙ rw self refl);
  }
