-- ===== src/Mmu/Map.antt =====
-- `mmu_map_user_range` of mm/mmu/mmu.c: what the hardware finds after it.
use cortex_forge_aarch64_bar.Prelude.{
  ℕ, ◌/◌, ◌^◌, ◌≡◌, ◌≢◌, ◌<◌, refl, ◌∙◌, ap, true, List, [], ◌∷◌, length, get_or, Option, none,
  some, arith,
}
use cortex_forge_aarch64_bar.Pmm.AllocPage.{AllUsed}
use cortex_forge_aarch64_bar.Mmu.{
  Tables, Mmu, pte_valid, pte_next_table, Slot, and_then, l0_index, l1_index, l2_index, l3_index,
  walk_levels, put_entry,
}
use cortex_forge_aarch64_bar.Mmu.Tree.{look, look-step, Own, Tree, Kept, Kept-refl, Kept-trans}
use cortex_forge_aarch64_bar.Mmu.Level.{Stepped, LevelOutcome, next_level-LevelOutcome}
use cortex_forge_aarch64_bar.Mmu.Put.{stored-Tree, stored-other, stored-upper}

-- The descriptor that the hardware finds for an address, from the table `l0`; 0 where a table is
-- missing.
abbrev pub lookup : Mmu → ℕ → ℕ → ℕ
lookup s l0 va = look s.mem l0 (l0_index va) (l1_index va ∷ l2_index va ∷ l3_index va ∷ [])

pub Kept-lookup :
    (s s' : Mmu) (own own' : Own) (l0 va : ℕ)
    → Kept s s' own own'
    → own l0 ≡ some []
    → lookup s' l0 va ≡ lookup s l0 va
Kept-lookup s s' own own' l0 va kept root =
    kept.looks l0 [] (l0_index va) (l1_index va ∷ l2_index va ∷ l3_index va ∷ []) root refl

-- The slot of an address was found, or made.
pub record Walked (s : Mmu) (own : Own) (l0 va t i : ℕ) (s' : Mmu) : Type 0 where
  own' : Own
  pub kept : Kept s s' own own'
  l1 : ℕ
  l2 : ℕ
  owned1 : own' l1 ≡ some (l0_index va ∷ [])
  owned2 : own' l2 ≡ some (l1_index va ∷ l0_index va ∷ [])
  owned3 : own' t ≡ some (l2_index va ∷ l1_index va ∷ l0_index va ∷ [])
  index : i ≡ l3_index va
  valid0 : pte_valid (s'.mem l0 (l0_index va)) ≡ true
  valid1 : pte_valid (s'.mem l1 (l1_index va)) ≡ true
  valid2 : pte_valid (s'.mem l2 (l2_index va)) ≡ true
  next0 : pte_next_table (s'.mem l0 (l0_index va)) ≡ l1
  next1 : pte_next_table (s'.mem l1 (l1_index va)) ≡ l2
  next2 : pte_next_table (s'.mem l2 (l2_index va)) ≡ t

-- The walk fails only when no page is left.
abbrev pub WalkOutcome : Mmu → Own → ℕ → ℕ → Option Slot × Mmu → Type 0
WalkOutcome s own l0 va (none, s') =
    ((own' : Own) × Kept s s' own own') × AllUsed s'.pmm s'.pmm.total_pages
WalkOutcome s own l0 va (some (t, i), s') = Walked s own l0 va t i s'

and_then-WalkOutcome :
    (s s1 : Mmu) (own own1 : Own) (l0 va t i : ℕ) (path : List ℕ) (r : Option ℕ × Mmu)
    (more : ℕ → Mmu → Option Slot × Mmu)
    → Kept s s1 own own1
    → LevelOutcome s1 own1 t i path r
    → ((n : ℕ) (s2 : Mmu) → Stepped s1 own1 t i n path s2 → WalkOutcome s own l0 va (more n s2))
    → WalkOutcome s own l0 va (and_then r more)
unfolding and_then
and_then-WalkOutcome s s1 own own1 l0 va t i path (none, s2) more k ((own2, k2), all) h =
    ((own2, Kept-trans s s1 s2 own own1 own2 k k2), all)
and_then-WalkOutcome s s1 own own1 l0 va t i path (some n, s2) more k step h = h n s2 step

module _ (s : Mmu) (own : Own) (l0 va : ℕ) (tree : Tree s own) (root : own l0 ≡ some []) where
  walked :
      (l1 l2 l3 : ℕ) (s1 s2 s3 : Mmu) (a : Stepped s own l0 (l0_index va) l1 [] s1)
      (b : Stepped s1 a.own' l1 (l1_index va) l2 (l0_index va ∷ []) s2)
      → Stepped s2 b.own' l2 (l2_index va) l3 (l1_index va ∷ l0_index va ∷ []) s3
      → Walked s own l0 va l3 (l3_index va) s3
  walked l1 l2 l3 s1 s2 s3 a b c =
      let ab = Kept-trans s s1 s2 own a.own' b.own' a.kept b.kept in
      let root1 = a.kept.extends l0 [] root in
      let root2 = b.kept.extends l0 [] root1 in
      let l1_2 = b.kept.extends l1 _ a.owned in
      let same0 = b.kept.entries l0 [] (l0_index va) root1 a.valid in
      let same0' = c.kept.entries l0 [] (l0_index va) root2 (ap pte_valid same0 ∙ a.valid) in
      let same1 = c.kept.entries l1 _ (l1_index va) l1_2 b.valid in
      record {
        own' = c.own';
        kept = Kept-trans s s2 s3 own b.own' c.own' ab c.kept;
        l1 = l1;
        l2 = l2;
        owned1 = c.kept.extends l1 _ l1_2;
        owned2 = c.kept.extends l2 _ b.owned;
        owned3 = c.owned;
        index = refl;
        valid0 = ap pte_valid (same0' ∙ same0) ∙ a.valid;
        valid1 = ap pte_valid same1 ∙ b.valid;
        valid2 = c.valid;
        next0 = ap pte_next_table (same0' ∙ same0) ∙ a.next;
        next1 = ap pte_next_table same1 ∙ b.next;
        next2 = c.next;
      }

  pub walk_levels-WalkOutcome : WalkOutcome s own l0 va (walk_levels l0 va 3 true s)
  unfolding walk_levels
  walk_levels-WalkOutcome =
      and_then-WalkOutcome s s own own l0 va l0 (l0_index va) [] _ _ (Kept-refl s own tree)
        (next_level-LevelOutcome s own l0 (l0_index va) [] tree root (omega arith))
        λ l1 s1 a.
          and_then-WalkOutcome s s1 own a.own' l0 va l1 (l1_index va) (l0_index va ∷ []) _ _ a.kept
            (next_level-LevelOutcome s1 a.own' l1 (l1_index va) (l0_index va ∷ []) a.kept.tree
              a.owned (omega arith))
            λ l2 s2 b.
              and_then-WalkOutcome s s2 own b.own' l0 va l2 (l2_index va)
                (l1_index va ∷ l0_index va ∷ []) _ _
                (Kept-trans s s1 s2 own a.own' b.own' a.kept b.kept)
                (next_level-LevelOutcome s2 b.own' l2 (l2_index va) (l1_index va ∷ l0_index va ∷ [])
                  b.kept.tree b.owned (omega arith))
                λ l3 s3 c. walked l1 l2 l3 s1 s2 s3 a b c

-- Addresses of different pages have different indices.
abbrev indices : ℕ → List ℕ
indices va = l3_index va ∷ l2_index va ∷ l1_index va ∷ l0_index va ∷ []

indices-page : (v w : ℕ) → v < 2 ^ 48 → w < 2 ^ 48 → indices v ≡ indices w → v / 4096 ≡ w / 4096
indices-page v w lv lw e =
    let e3 : l3_index v ≡ l3_index w = ap (λ l. get_or l 0 0) e in
    let e2 : l2_index v ≡ l2_index w = ap (λ l. get_or l 1 0) e in
    let e1 : l1_index v ≡ l1_index w = ap (λ l. get_or l 2 0) e in
    let e0 : l0_index v ≡ l0_index w = ap (λ l. get_or l 3 0) e in omega arith

-- One page was mapped: the entry is found for all addresses of its page, and nothing else changes.
pub record Mapped (s : Mmu) (own : Own) (l0 va e : ℕ) (s' : Mmu) : Type 0 where
  pub own' : Own
  pub tree : Tree s' own'
  pub root : own' l0 ≡ some []
  pub found : lookup s' l0 va ≡ e
  pub others : (w : ℕ) → w < 2 ^ 48 → w / 4096 ≢ va / 4096 → lookup s' l0 w ≡ lookup s l0 w

put_entry_self : (t i j e : ℕ) (mem : Tables) → i ≡ j → put_entry t i e mem t j ≡ e
put_entry_self t i j e mem same = ground arith

pub Walked-Mapped :
    (s : Mmu) (own : Own) (l0 va t i e : ℕ) (s' : Mmu)
    → own l0 ≡ some []
    → va < 2 ^ 48
    → Walked s own l0 va t i s'
    → Mapped s own l0 va e (record s' { mem = put_entry t i e s'.mem })
Walked-Mapped s own l0 va t i e s' root small w =
    let m : Tables = put_entry t i e s'.mem in
    let o = w.own' in
    let tree = w.kept.tree in
    let root' = w.kept.extends l0 [] root in
    let last : length (l2_index va ∷ l1_index va ∷ l0_index va ∷ []) ≡ 3 = refl in
    let up0 =
      stored-upper s' o t i e _ tree w.owned3 last l0 [] (l0_index va) root' (omega arith) in
    let up1 =
      stored-upper s' o t i e _ tree w.owned3 last w.l1 _ (l1_index va) w.owned1 (omega arith) in
    let up2 =
      stored-upper s' o t i e _ tree w.owned3 last w.l2 _ (l2_index va) w.owned2 (omega arith) in
    let index = w.index in
    record {
      own' = o;
      tree = stored-Tree s' o t i e _ tree w.owned3 last;
      root = root';
      found =
          look-step m l0 (l0_index va) w.l1 (l1_index va) (l2_index va ∷ l3_index va ∷ [])
            (ap pte_valid up0 ∙ w.valid0) (ap pte_next_table up0 ∙ w.next0)
          ∙ look-step m w.l1 (l1_index va) w.l2 (l2_index va) (l3_index va ∷ [])
              (ap pte_valid up1 ∙ w.valid1) (ap pte_next_table up1 ∙ w.next1)
          ∙ look-step m w.l2 (l2_index va) t (l3_index va) [] (ap pte_valid up2 ∙ w.valid2)
              (ap pte_next_table up2 ∙ w.next2)
          ∙ put_entry_self t i (l3_index va) e s'.mem index;
      others = λ x lx ne.
          stored-other s' o t i e _ tree w.owned3 last l0 [] (l0_index x)
            (l1_index x ∷ l2_index x ∷ l3_index x ∷ []) root' refl
            (λ same. ne (
              indices-page x va lx small
                (same ∙ ap (λ y. y ∷ l2_index va ∷ l1_index va ∷ l0_index va ∷ []) index)))
          ∙ Kept-lookup s s' own o l0 x w.kept root;
    }
