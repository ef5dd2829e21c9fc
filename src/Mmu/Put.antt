-- ===== src/Mmu/Put.antt =====
-- Writing an entry of a last-level table of mm/mmu/mmu.c.
use cortex_forge_aarch64_bar.Prelude.{
  ℕ, ◌+◌, ◌≡◌, ◌≢◌, ◌<◌, refl, sym, ◌∙◌, ap, ap₂, Bool-cases, false, ◌&&◌, inl, inr, List, [], ◌∷◌,
  length, some, ◌==◌, arith,
}
use mathlib.Core.Path.{subst}
use cortex_forge_aarch64_bar.Mmu.{Mmu, pte_valid, pte_next_table, put_entry}
use cortex_forge_aarch64_bar.Mmu.Tree.{look, Own, Tree, one_place}

-- The indices `i` and `is` behind those that lead to a table.
abbrev pub onto : ℕ → List ℕ → List ℕ → List ℕ
onto i [] path = i ∷ path
onto i (j ∷ is) path = onto j is (i ∷ path)

module _ (s : Mmu) (own : Own) (l k e : ℕ) (place : List ℕ) (tree : Tree s own)
    (at : own l ≡ some place) (last : length place ≡ 3) where
  abbrev pub stored : Mmu
  stored = record s { mem = put_entry l k e s.mem }

  elsewhere : (t : ℕ) (path : List ℕ) → own t ≡ some path → length path < 3 → (l == t) ≡ false
  elsewhere t path o short = elim (Bool-cases (l == t)) [
    | inr other ↦ other
    | inl same ↦
        let q : l ≡ t = ground arith in
        let p =
          ap length (one_place (own l) place path at (subst (λ x. own x ≡ some path) (sym q) o)) in
        absurd (omega arith)
  ]

  pub stored-upper :
      (t : ℕ) (path : List ℕ) (i : ℕ)
      → own t ≡ some path
      → length path < 3
      → stored.mem t i ≡ s.mem t i
  stored-upper t path i o short = let q = elsewhere t path o short in rw q refl

  pub stored-Tree : Tree stored own
  stored-Tree = record {
    valid = tree.valid;
    low = tree.low;
    child = λ t path i o short v.
        let same = stored-upper t path i o short in
        rw same (tree.child t path i o short (sym (ap pte_valid same) ∙ v));
    backed = tree.backed;
  }

  -- Everything else that is found in the tree is as before.
  pub stored-other :
      (t : ℕ) (path : List ℕ) (i : ℕ) (is : List ℕ)
      → own t ≡ some path
      → length path + length is ≡ 3
      → onto i is path ≢ k ∷ place
      → look stored.mem t i is ≡ look s.mem t i is
  stored-other t path i [] o len ne = elim (Bool-cases (l == t && k == i)) [
    | inl same ↦
        let q : l ≡ t = ground arith in
        let q' : k ≡ i = ground arith in
        let p = one_place (own l) place path at (subst (λ x. own x ≡ some path) (sym q) o) in
        absurd (ne (sym (ap₂ (λ x y. x ∷ y) q' p)))
    | inr other ↦ elim (Bool-cases (l == t)) [
      | inr away ↦ rw away refl
      | inl here ↦ let q : (k == i) ≡ false = ground arith in rw (here, q) refl
    ]
  ]
  stored-other t path i (j ∷ is) o len ne =
      let same = stored-upper t path i o (omega arith) in
      elim (Bool-cases (pte_valid (s.mem t i))) [
        | inl v ↦
            let rest =
              stored-other (pte_next_table (s.mem t i)) (i ∷ path) j is
                (tree.child t path i o (omega arith) v) (omega arith) ne in
            rw (same, v) rest
        | inr nv ↦ rw (same, nv) refl
      ]
