-- ===== src/Mmu/Descend.antt =====
-- One level of `walk_levels` of mm/mmu/mmu.c keeps the tree.
use cortex_forge_aarch64_bar.Prelude.{
  ℕ, ◌+◌, ◌*◌, ◌≡◌, ◌<◌, refl, sym, ◌∙◌, ap, ap₂, Bool-cases, true, false, ◌&&◌, inl, inr, List, [],
  ◌∷◌, length, some, ◌==◌, if◌then◌else◌, arith,
}
use mathlib.Core.Bool.{false≢true}
use mathlib.Core.Path.{subst}
use cortex_forge_aarch64_bar.Bitmap.{bitmap_test}
use cortex_forge_aarch64_bar.Pmm.{Pmm}
use cortex_forge_aarch64_bar.Pmm.AllocPage.{TookPage}
use cortex_forge_aarch64_bar.Mmu.{Tables, Mmu, pte_valid, pte_next_table, zero_table, put_entry}
use cortex_forge_aarch64_bar.Mmu.Tree.{look, Own, Tree, Kept, one_place}

look-invalid :
    (mem : Tables) (t i j : ℕ) (js : List ℕ)
    → pte_valid (mem t i) ≡ false
    → look mem t i (j ∷ js) ≡ 0
look-invalid mem t i j js v = rw v refl

look-valid :
    (mem : Tables) (t i j : ℕ) (js : List ℕ)
    → pte_valid (mem t i) ≡ true
    → look mem t i (j ∷ js) ≡ look mem (pte_next_table (mem t i)) j js
look-valid mem t i j js v = rw v refl

-- A page is taken from the allocator for the missing table at index `i` of the table `t`.
module _ (s : Mmu) (own : Own) (t i p q : ℕ) (path : List ℕ) (pmm : Pmm) (tree : Tree s own)
    (at : own t ≡ some path) (short : length path < 3) (missing : pte_valid (s.mem t i) ≡ false)
    (took : TookPage s.pmm q p pmm) where
  abbrev pub linked : Mmu
  linked = record { mem = put_entry t i (p + 3) (zero_table p s.mem); pmm = pmm }

  abbrev pub own_linked : Own
  own_linked u = if p == u then some (i ∷ path) else own u

  own-of_old :
      (u : ℕ) (pth : List ℕ) → (p == u) ≡ false → own_linked u ≡ some pth → own u ≡ some pth
  own-of_old u pth other o = subst (λ b. (if b then some (i ∷ path) else own u) ≡ some pth) other o

  -- The page is none of the tables.
  fresh : (u : ℕ) (pth : List ℕ) → own u ≡ some pth → (p == u) ≡ false
  fresh u pth o = elim (Bool-cases (p == u)) [
    | inr other ↦ other
    | inl same ↦
        let (r, place, on) = tree.backed u pth o in
        let addr = took.address in
        let e : r ≡ q = ground arith in absurd (false≢true (sym took.was_free ∙ rw (← e) on))
  ]

  pub place : (pte_valid (p + 3) ≡ true) × (pte_next_table (p + 3) ≡ p)
  place =
      let al = took.page_aligned in
      let r = took.in_region in let low = tree.low in (ground arith, omega arith)

  mem-new : linked.mem t i ≡ p + 3
  mem-new = ground arith

  -- The other entries of the tables of the tree.
  mem-old :
      (u : ℕ) (pth : List ℕ) (j : ℕ)
      → own u ≡ some pth
      → (t == u && i == j) ≡ false
      → linked.mem u j ≡ s.mem u j
  mem-old u pth j o other =
      let f = fresh u pth o in
      elim (Bool-cases (t == u)) [
        | inr elsewhere ↦ rw (elsewhere, f) refl
        | inl same ↦ let e : (i == j) ≡ false = ground arith in rw (same, e, f) refl
      ]

  not_slot : (u j : ℕ) → pte_valid (s.mem u j) ≡ true → (t == u && i == j) ≡ false
  not_slot u j v = elim (Bool-cases (t == u && i == j)) [
    | inr other ↦ other
    | inl same ↦
        let e : t ≡ u = ground arith in
        let e' : i ≡ j = ground arith in absurd (false≢true (sym missing ∙ (rw (e, e') v)))
  ]

  pub mem-slot : (u j : ℕ) → (t == u && i == j) ≡ true → linked.mem u j ≡ p + 3
  mem-slot u j slot =
      let e : (t == u) ≡ true = ground arith in
      let e' : (i == j) ≡ true = ground arith in rw (e, e') refl

  mem-fresh : (u j : ℕ) → (p == u) ≡ true → linked.mem u j ≡ 0
  mem-fresh u j new =
      let f = fresh t path at in let e : (t == u) ≡ false = ground arith in rw (e, new) refl

  look-fresh : (j : ℕ) (js : List ℕ) → look linked.mem p j js ≡ 0
  look-fresh j [] = mem-fresh p j (ground arith)
  look-fresh j (k ∷ js) = look-invalid linked.mem p j k js (rw (mem-fresh p j (ground arith)) refl)

  own_linked-old : (u : ℕ) (pth : List ℕ) → own u ≡ some pth → own_linked u ≡ some pth
  own_linked-old u pth o = let f = fresh u pth o in rw f o

  pub own_linked-new : own_linked p ≡ some (i ∷ path)
  own_linked-new = let e : (p == p) ≡ true = ground arith in rw e refl

  linked-child :
      (u : ℕ) (pth : List ℕ) (j : ℕ)
      → own_linked u ≡ some pth
      → length pth < 3
      → pte_valid (linked.mem u j) ≡ true
      → own_linked (pte_next_table (linked.mem u j)) ≡ some (j ∷ pth)
  linked-child u pth j o len v = elim (Bool-cases (p == u)) [
    | inl new ↦ absurd (false≢true (ap pte_valid (sym (mem-fresh u j new)) ∙ v))
    | inr old ↦
        let o' : own u ≡ some pth = own-of_old u pth old o in
        elim (Bool-cases (t == u && i == j)) [
          | inr other ↦
              let same = mem-old u pth j o' other in
              let v' : pte_valid (s.mem u j) ≡ true = rw (← same) v in
              rw same (own_linked-old _ (j ∷ pth) (tree.child u pth j o' len v'))
          | inl slot ↦
              let e : t ≡ u = ground arith in
              let e' : i ≡ j = ground arith in
              let here = subst (λ x. own x ≡ some pth) (sym e) o' in
              ap (λ m. own_linked (pte_next_table m)) (mem-slot u j slot)
              ∙ ap own_linked place.1
              ∙ own_linked-new
              ∙ ap some (ap₂ (λ x y. x ∷ y) e' (one_place (own t) path pth at here))
        ]
  ]

  linked-backed :
      (u : ℕ) (pth : List ℕ)
      → own_linked u ≡ some pth
      → (r : ℕ) × (u ≡ pmm.mem_region_start + r * 4096) × (bitmap_test pmm.bitmap r ≡ true)
  linked-backed u pth o =
      let region = took.region in
      elim (Bool-cases (p == u)) [
        | inl new ↦
            let addr = took.address in
            let bit = took.bits q in
            let self : (q == q) ≡ true = ground arith in (q, ground arith, bit ∙ rw self refl)
        | inr old ↦
            let (r, at_page, on) = tree.backed u pth (own-of_old u pth old o) in
            let bit = took.bits r in
            (
              r,
              rw region at_page,
              elim (Bool-cases (q == r)) [
                | inl same ↦ bit ∙ rw same refl
                | inr other ↦ bit ∙ rw other on
              ],
            )
      ]

  -- Where a table was missing, the new table holds nothing.
  linked-none :
      (u : ℕ) (pth : List ℕ) (j k : ℕ) (js : List ℕ)
      → own u ≡ some pth
      → pte_valid (s.mem u j) ≡ false
      → look linked.mem u j (k ∷ js) ≡ 0
  linked-none u pth j k js o nv = elim (Bool-cases (t == u && i == j)) [
    | inr other ↦ look-invalid linked.mem u j k js (ap pte_valid (mem-old u pth j o other) ∙ nv)
    | inl slot ↦
        look-valid linked.mem u j k js (ap pte_valid (mem-slot u j slot) ∙ place.0)
        ∙ ap (λ m. look linked.mem (pte_next_table m) k js) (mem-slot u j slot)
        ∙ ap (λ x. look linked.mem x k js) place.1
        ∙ look-fresh k js
  ]

  linked-looks :
      (u : ℕ) (pth : List ℕ) (j : ℕ) (js : List ℕ)
      → own u ≡ some pth
      → length pth + length js ≡ 3
      → look linked.mem u j js ≡ look s.mem u j js
  linked-looks u pth j [] o len = elim (Bool-cases (t == u && i == j)) [
    | inr other ↦ mem-old u pth j o other
    | inl slot ↦
        let e : t ≡ u = ground arith in
        let same =
          ap length (one_place (own t) path pth at (subst (λ x. own x ≡ some pth) (sym e) o)) in
        absurd (omega arith)
  ]
  linked-looks u pth j (k ∷ js) o len = elim (Bool-cases (pte_valid (s.mem u j))) [
    | inl v ↦
        let same = mem-old u pth j o (not_slot u j v) in
        let v' : pte_valid (linked.mem u j) ≡ true = ap pte_valid same ∙ v in
        look-valid linked.mem u j k js v'
        ∙ ap (λ m. look linked.mem (pte_next_table m) k js) same
        ∙ linked-looks (pte_next_table (s.mem u j)) (j ∷ pth) k js
            (tree.child u pth j o (omega arith) v) (omega arith)
        ∙ sym (look-valid s.mem u j k js v)
    | inr nv ↦ linked-none u pth j k js o nv ∙ sym (look-invalid s.mem u j k js nv)
  ]

  pub linked-Kept : Kept s linked own own_linked
  linked-Kept = record {
    tree = record {
      valid = took.valid;
      low =
          (let e = took.valid.region in
            let e' = tree.valid.region in
            let n = took.total in let r = took.region in let l = tree.low in omega arith);
      child = linked-child;
      backed = linked-backed;
    };
    extends = own_linked-old;
    entries = λ u pth j o v. mem-old u pth j o (not_slot u j v);
    looks = linked-looks;
  }
