-- ===== src/Mmu/Range.antt =====
-- `mmu_map_user_range` of mm/mmu/mmu.c over a range of pages.
use cortex_forge_aarch64_bar.Prelude.{
  ℕ, zero, suc, ◌+◌, ◌*◌, ◌/◌, ◌%◌, ◌^◌, ◌≡◌, ◌≢◌, ◌≤◌, ◌<◌, ◌⊎◌, refl, ◌∙◌, true, inl, inr, [],
  Option, none, some, arith,
}
use native.Mathlib.Decide.{dec_lt}
use cortex_forge_aarch64_bar.Pmm.AllocPage.{AllUsed}
use cortex_forge_aarch64_bar.Mmu.{
  Mmu, Slot, put_entry, walk_levels, page_entry, map_found, map_pages, mmu_map_user_range,
}
use cortex_forge_aarch64_bar.Mmu.Tree.{Own, Tree}
use cortex_forge_aarch64_bar.Mmu.Map.{
  lookup, Kept-lookup, WalkOutcome, walk_levels-WalkOutcome, Walked-Mapped,
}

-- The pages of the range from the page `k` on were mapped, so many of them, and nothing else was
-- changed; fewer than `n` only when the allocator has no page left.
pub record RangeOutcome (s : Mmu) (l0 va pa flags k n : ℕ) (s' : Mmu) : Type 0 where
  pub own : Own
  pub tree : Tree s' own
  pub root : own l0 ≡ some []
  pub done : ℕ
  pub enough : (done ≡ n) ⊎ ((done < n) × AllUsed s'.pmm s'.pmm.total_pages)
  pub mapped :
      (j : ℕ)
      → k ≤ j
      → j < k + done
      → lookup s' l0 (va + j * 4096) ≡ page_entry (pa + j * 4096) flags
  pub others :
      (w : ℕ)
      → w < 2 ^ 48
      → ((w < va + k * 4096) ⊎ (va + (k + done) * 4096 ≤ w))
      → lookup s' l0 w ≡ lookup s l0 w

-- The address lies before the page `k` of the range or behind `done` more.
abbrev Outside : ℕ → ℕ → ℕ → ℕ → Type 0
Outside va k done w = (w < va + k * 4096) ⊎ (va + (k + done) * 4096 ≤ w)

Outside-later : (va k d w : ℕ) → Outside va k (suc d) w → Outside va (suc k) d w
Outside-later va k d w (inl lt) = inl (omega arith)
Outside-later va k d w (inr ge) = inr (omega arith)

Outside-page :
    (va k d w : ℕ) → va % 4096 ≡ 0 → Outside va k (suc d) w → w / 4096 ≢ (va + k * 4096) / 4096
Outside-page va k d w al (inl lt) q = omega arith
Outside-page va k d w al (inr ge) q = omega arith

module _ (l0 va pa flags : ℕ) (al : va % 4096 ≡ 0) where
  map_found-RangeOutcome :
      (k n : ℕ) (s : Mmu) (own : Own) (r : Option Slot × Mmu) (again : Mmu → Mmu)
      → own l0 ≡ some []
      → va + (k + suc n) * 4096 ≤ 2 ^ 48
      → WalkOutcome s own l0 (va + k * 4096) r
      → ((s1 : Mmu) (own1 : Own)
          → Tree s1 own1
          → own1 l0 ≡ some []
          → RangeOutcome s1 l0 va pa flags (suc k) n (again s1))
      → RangeOutcome s l0 va pa flags k
          (suc n)
          (map_found (page_entry (pa + k * 4096) flags) r again)
  unfolding map_found
  map_found-RangeOutcome k n s own (none, s') again root fits ((own', kept), all) more = record {
    own = own';
    tree = kept.tree;
    root = kept.extends l0 [] root;
    done = 0;
    enough = inr (omega arith, all);
    mapped = λ j ge lt. absurd (omega arith);
    others = λ w lw out. Kept-lookup s s' own own' l0 w kept root;
  }
  map_found-RangeOutcome k n s own (some (t, i), s') again root fits w more =
      let e = page_entry (pa + k * 4096) flags in
      let m = Walked-Mapped s own l0 (va + k * 4096) t i e s' root (omega arith) w in
      let rest = more (record s' { mem = put_entry t i e s'.mem }) m.own' m.tree m.root in
      record {
        own = rest.own;
        tree = rest.tree;
        root = rest.root;
        done = suc rest.done;
        enough = elim rest.enough [
          | inl full ↦ inl (omega arith)
          | inr (short, all) ↦ inr (omega arith, all)
        ];
        mapped = λ j ge lt. elim (dec_lt k j) [
          | yes later ↦ rest.mapped j (omega arith) (omega arith)
          | no now ↦
              let same : j ≡ k = omega arith in
              rw same (rest.others (va + k * 4096) (omega arith) (inl (omega arith)) ∙ m.found)
        ];
        others = λ x lx out.
            rest.others x lx (Outside-later va k rest.done x out)
            ∙ m.others x lx (Outside-page va k rest.done x al out);
      }

  map_pages-RangeOutcome :
      (n k : ℕ) (s : Mmu) (own : Own)
      → Tree s own
      → own l0 ≡ some []
      → va + (k + n) * 4096 ≤ 2 ^ 48
      → pa + (k + n) * 4096 ≤ 2 ^ 48
      → RangeOutcome s l0 va pa flags k n (map_pages l0 va pa flags k n s)
  unfolding map_pages
  map_pages-RangeOutcome zero k s own tree root fits fits' = record {
    own = own;
    tree = tree;
    root = root;
    done = 0;
    enough = inl refl;
    mapped = λ j ge lt. absurd (omega arith);
    others = λ w lw out. refl;
  }
  map_pages-RangeOutcome (suc n) k s own tree root fits fits' =
      let v : (va + k * 4096) % 2 ^ 64 ≡ va + k * 4096 = omega arith in
      let p : (pa + k * 4096) % 2 ^ 64 ≡ pa + k * 4096 = omega arith in
      let ih = map_pages-RangeOutcome n (suc k) in
      let next : k + 1 ≡ suc k = omega arith in
      rw (v, p, next)
        (map_found-RangeOutcome k n s own (walk_levels l0 (va + k * 4096) 3 true s)
          (λ s1. map_pages l0 va pa flags (suc k) n s1) root fits
          (walk_levels-WalkOutcome s own l0 (va + k * 4096) tree root)
          (λ s1 own1 tree1 root1. ih s1 own1 tree1 root1 (omega arith) (omega arith)))

pub mmu_map_user_range-RangeOutcome :
    (l0 va pa pages flags : ℕ) (s : Mmu) (own : Own)
    → Tree s own
    → own l0 ≡ some []
    → va % 4096 ≡ 0
    → va + pages * 4096 ≤ 2 ^ 48
    → pa + pages * 4096 ≤ 2 ^ 48
    → RangeOutcome s l0 va pa flags 0 pages (mmu_map_user_range l0 va pa pages flags s)
unfolding mmu_map_user_range
mmu_map_user_range-RangeOutcome l0 va pa pages flags s own tree root al fits fits' =
    map_pages-RangeOutcome l0 va pa flags al pages 0 s own tree root (omega arith) (omega arith)
