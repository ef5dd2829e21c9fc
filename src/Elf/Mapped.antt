-- ===== src/Elf/Mapped.antt =====
-- What the hardware finds behind the tables when the loads of syscall/elf.c have been mapped.
use cortex_forge_aarch64_bar.Prelude.{
  ℕ, ◌+◌, ◌-◌, ◌*◌, ◌/◌, ◌%◌, ◌^◌, ◌≡◌, ◌≤◌, ◌<◌, ◌⊎◌, inl, inr, refl, sym, ◌∙◌, ap, Bool-cases,
  List, [], ◌∷◌, ◌++◌, some, arith,
}
use mathlib.Core.Path.{subst}
use mathlib.Core.Bool.{false≢true}
use native.Mathlib.Decide.{dec_lt}
use cortex_forge_aarch64_bar.Pmm.{Pmm}
use cortex_forge_aarch64_bar.Pmm.AllocPage.{AllUsed}
use cortex_forge_aarch64_bar.Pmm.AllocRun.Mark.{in_run}
use cortex_forge_aarch64_bar.Pmm.AllocRun.Outcome.{TookRun}
use cortex_forge_aarch64_bar.Mmu.{Mmu, page_entry, mmu_map_user_range}
use cortex_forge_aarch64_bar.Mmu.Tree.{Own, Tree}
use cortex_forge_aarch64_bar.Mmu.Map.{lookup}
use cortex_forge_aarch64_bar.Mmu.Range.{RangeOutcome, mmu_map_user_range-RangeOutcome}
use cortex_forge_aarch64_bar.Elf.{Loaded}

-- The page number `p` lies in the range of the load.
abbrev pub Holds : Loaded → ℕ → Type 0
Holds l p = (l.va_lo ≤ p * 4096) × (p * 4096 < l.va_lo + l.pages * 4096)

abbrev pub InLoads : List Loaded → ℕ → Type 0
InLoads [] p = ⊥
InLoads (l ∷ ls) p = Holds l p ⊎ InLoads ls p

-- The descriptor `e` maps the page `p` to its place in the pages of a load that holds it, with the
-- flags of this load.
abbrev pub MappedBy : List Loaded → ℕ → ℕ → Type 0
MappedBy [] p e = ⊥
MappedBy (l ∷ ls) p e =
    (Holds l p × (e ≡ page_entry (l.phys + (p * 4096 - l.va_lo)) l.pte_flags)) ⊎ MappedBy ls p e

-- The tables `m'` behind `l0`, when they were `m` before the loads: the descriptor of each page is the
-- one of before, or that of a load; and all pages of the loads are mapped, or no page is left.
pub record MemoryOk (l0 : ℕ) (m : Mmu) (loads : List Loaded) (m' : Mmu) : Type 0 where
  pub own : Own
  pub tree : Tree m' own
  pub root : own l0 ≡ some []
  pub each :
      (p : ℕ)
      → p < 2 ^ 36
      → (lookup m' l0 (p * 4096) ≡ lookup m l0 (p * 4096))
        ⊎ MappedBy loads p (lookup m' l0 (p * 4096))
  pub complete :
      ((p : ℕ) → p < 2 ^ 36 → InLoads loads p → MappedBy loads p (lookup m' l0 (p * 4096)))
      ⊎ AllUsed m'.pmm m'.pmm.total_pages

MappedBy-earlier :
    (ls : List Loaded) (l : Loaded) (p e : ℕ) → MappedBy ls p e → MappedBy (ls ++ (l ∷ [])) p e
MappedBy-earlier [] l p e h = absurd h
MappedBy-earlier (k ∷ ls) l p e (inl h) = inl h
MappedBy-earlier (k ∷ ls) l p e (inr h) = inr (MappedBy-earlier ls l p e h)

MappedBy-last :
    (ls : List Loaded) (l : Loaded) (p e : ℕ)
    → Holds l p
    → e ≡ page_entry (l.phys + (p * 4096 - l.va_lo)) l.pte_flags
    → MappedBy (ls ++ (l ∷ [])) p e
MappedBy-last [] l p e h same = inl (h, same)
MappedBy-last (k ∷ ls) l p e h same = inr (MappedBy-last ls l p e h same)

InLoads-split :
    (ls : List Loaded) (l : Loaded) (p : ℕ) → InLoads (ls ++ (l ∷ [])) p → InLoads ls p ⊎ Holds l p
InLoads-split [] l p (inl h) = inr h
InLoads-split [] l p (inr h) = absurd h
InLoads-split (k ∷ ls) l p (inl h) = inl (inl h)
InLoads-split (k ∷ ls) l p (inr h) = elim (InLoads-split ls l p h) [
  | inl there ↦ inl (inr there)
  | inr last ↦ inr last
]

-- The pages that are taken for a load are no tables.
TookRun-Tree :
    (m : Mmu) (own : Own) (count start a : ℕ) (pmm : Pmm)
    → Tree m own
    → TookRun m.pmm count start a pmm
    → Tree (record m { pmm = pmm }) own
TookRun-Tree m own count start a pmm tree took = record {
  valid = took.valid;
  low =
      (let e = took.valid.region in
        let e' = tree.valid.region in
        let n = took.total in let r = took.region in let b = tree.low in omega arith);
  child = tree.child;
  backed = λ t path o.
      let (q, at, used) = tree.backed t path o in
      let r = took.region in
      let bit = took.bits q in
      (
        q,
        omega arith,
        elim (Bool-cases (in_run start count q)) [
          | inl inside ↦ rw (bit, inside) refl
          | inr outside ↦ rw (bit, outside) used
        ],
      );
}

module _ (l0 : ℕ) (m m1 : Mmu) (l : Loaded)
    (r : RangeOutcome m1 l0 l.va_lo l.phys l.pte_flags 0 l.pages m) (al : l.va_lo % 4096 ≡ 0)
    (fits : l.va_lo + l.pages * 4096 ≤ 2 ^ 48) where
  -- A page is one of those that were mapped, or it is as before.
  abbrev PageCase : ℕ → Type 0
  PageCase p =
      (Holds l p
        × (lookup m l0 (p * 4096) ≡ page_entry (l.phys + (p * 4096 - l.va_lo)) l.pte_flags))
      ⊎ ((lookup m l0 (p * 4096) ≡ lookup m1 l0 (p * 4096))
          × ((p * 4096 < l.va_lo) ⊎ (l.va_lo + r.done * 4096 ≤ p * 4096)))

  done_le : r.done ≤ l.pages
  done_le = elim r.enough [ inl full ↦ omega arith | inr (short, all) ↦ omega arith ]

  page_PageCase : (p : ℕ) → p < 2 ^ 36 → PageCase p
  page_PageCase p small = elim (dec_lt (p * 4096) l.va_lo) [
    | yes below ↦ inr (r.others (p * 4096) (omega arith) (inl (omega arith)), inl below)
    | no above ↦ elim (dec_lt (p * 4096) (l.va_lo + r.done * 4096)) [
      | no behind ↦ inr (r.others (p * 4096) (omega arith) (inr (omega arith)), inr (omega arith))
      | yes inside ↦
          let j = p - l.va_lo / 4096 in
          let le = done_le in
          let at : l.va_lo + j * 4096 ≡ p * 4096 = omega arith in
          let to : l.phys + j * 4096 ≡ l.phys + (p * 4096 - l.va_lo) = omega arith in
          inl (
            (omega arith, omega arith),
            ap (λ w. lookup m l0 w) (sym at)
                ∙ r.mapped j (omega arith) (omega arith)
                ∙ ap (λ x. page_entry x l.pte_flags) to,
          )
    ]
  ]

module _ (l0 : ℕ) (m m1 : Mmu) (loads : List Loaded) (l : Loaded) (start : ℕ) (pmm : Pmm)
    (ok : MemoryOk l0 m loads m1) (some_pages : 0 < l.pages)
    (took : TookRun m1.pmm l.pages start l.phys pmm) (al : l.va_lo % 4096 ≡ 0)
    (fits : l.va_lo + l.pages * 4096 ≤ 2 ^ 48) where
  abbrev m2 : Mmu
  m2 = mmu_map_user_range l0 l.va_lo l.phys l.pages l.pte_flags (record m1 { pmm = pmm })

  range : RangeOutcome (record m1 { pmm = pmm }) l0 l.va_lo l.phys l.pte_flags 0 l.pages m2
  range =
      let at = took.address in
      let inside = took.in_range in
      let low = ok.tree.low in
      let region = ok.tree.valid.region in
      mmu_map_user_range-RangeOutcome l0 l.va_lo l.phys l.pages l.pte_flags
        (record m1 { pmm = pmm }) ok.own
        (TookRun-Tree m1 ok.own l.pages start l.phys pmm ok.tree took) ok.root al fits (omega arith)

  page_case : (p : ℕ) → p < 2 ^ 36 → PageCase l0 m2 (record m1 { pmm = pmm }) l range al fits p
  page_case p small = page_PageCase l0 m2 (record m1 { pmm = pmm }) l range al fits p small

  -- A page was free, so that no table was missing before.
  was_complete : (p : ℕ) → p < 2 ^ 36 → InLoads loads p → MappedBy loads p (lookup m1 l0 (p * 4096))
  was_complete = elim ok.complete [
    | inl all ↦ all
    | inr full ↦
        let inside = took.in_range in
        absurd (
          false≢true
            (sym (took.were_free start (omega arith) (omega arith)) ∙ full start (omega arith)))
  ]

  still_mapped :
      (p : ℕ)
      → lookup m2 l0 (p * 4096) ≡ lookup m1 l0 (p * 4096)
      → MappedBy loads p (lookup m1 l0 (p * 4096))
      → MappedBy (loads ++ (l ∷ [])) p (lookup m2 l0 (p * 4096))
  still_mapped p same h =
      MappedBy-earlier loads l p (lookup m2 l0 (p * 4096)) (subst (MappedBy loads p) (sym same) h)

  pub load-MemoryOk : MemoryOk l0 m (loads ++ (l ∷ [])) m2
  load-MemoryOk = record {
    own = range.own;
    tree = range.tree;
    root = range.root;
    each = λ p small. elim (page_case p small) [
      | inl (holds, e) ↦ inr (MappedBy-last loads l p (lookup m2 l0 (p * 4096)) holds e)
      | inr (same, out) ↦ elim (ok.each p small) [
        | inl before ↦ inl (same ∙ before)
        | inr mapped ↦ inr (still_mapped p same mapped)
      ]
    ];
    complete = elim range.enough [
      | inr (short, all) ↦ inr all
      | inl full ↦ inl (λ p small inside. elim (page_case p small) [
        | inl (holds, e) ↦ MappedBy-last loads l p (lookup m2 l0 (p * 4096)) holds e
        | inr (same, out) ↦ elim (InLoads-split loads l p inside) [
          | inl old ↦ still_mapped p same (was_complete p small old)
          | inr (low, high) ↦ elim out [
            | inl below ↦ absurd (omega arith)
            | inr behind ↦ absurd (omega arith)
          ]
        ]
      ])
    ];
  }
