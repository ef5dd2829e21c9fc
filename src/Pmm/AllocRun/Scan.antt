-- ===== src/Pmm/AllocRun/Scan.antt =====
-- The loop that looks for a run of free pages.
use cortex_forge_aarch64_bar.Prelude.{
  ℕ, zero, suc, ◌+◌, ◌-◌, ◌≡◌, ◌≤◌, ◌<◌, ◌⊎◌, inl, inr, true, false, arith, refl, ◌==◌,
  if◌then◌else◌, Option, none, some, Bool-cases,
}
use native.Mathlib.Decide.{dec_lt, ℕ_discrete}
use cortex_forge_aarch64_bar.Bitmap.{bitmap_test}
use cortex_forge_aarch64_bar.Pmm.{Pmm, scan_run}
use cortex_forge_aarch64_bar.Pmm.AllocRun.Mark.{AllFree}

-- No `count` free pages in a row stand between the reserved pages and page `n`.
abbrev pub NoRun : Pmm → ℕ → ℕ → Type 0
NoRun s count n = (st : ℕ) → s.reserved_pages ≤ st → st + count ≤ n → ¬ AllFree s.bitmap st count

-- What the loop has seen at page `pfn`: no long enough run, and the free run that ends here.
record Seen (s : Pmm) (count pfn run_start run_length : ℕ) : Type 0 where
  none_yet : NoRun s count pfn
  begun : s.reserved_pages + run_length ≤ pfn
  short : run_length < count
  start : (run_length ≡ 0) ⊎ (run_start + run_length ≡ pfn)
  run : AllFree s.bitmap (pfn - run_length) run_length
  maximal :
      (pfn ≡ s.reserved_pages + run_length) ⊎ (bitmap_test s.bitmap (pfn - run_length - 1) ≡ true)

abbrev pub RunOk : Pmm → ℕ → ℕ → Option ℕ → Type 0
RunOk s count n none = NoRun s count n
RunOk s count n (some st) = (s.reserved_pages ≤ st) × (st + count ≤ n) × AllFree s.bitmap st count

module _ (s : Pmm) (count pfn run_start run_length : ℕ)
    (h : Seen s count pfn run_start run_length) where
  open h use {none_yet, begun, short, start, run, maximal}

  NoRun-used : bitmap_test s.bitmap pfn ≡ true → NoRun s count (pfn + 1)
  NoRun-used used st lo hi all = elim (dec_lt pfn (st + count)) [
    | yes c ↦ ground (arith, all pfn (omega arith) c)
    | no c ↦ none_yet st lo (omega arith) all
  ]

  restart : bitmap_test s.bitmap pfn ≡ true → Seen s count (pfn + 1) run_start 0
  restart used = record {
    none_yet = NoRun-used used;
    begun = omega arith;
    short = omega arith;
    start = inl refl;
    run = λ q a b. absurd (omega arith);
    maximal = inr (let e : pfn + 1 - 0 - 1 ≡ pfn = omega arith in rw e used);
  }

  extended :
      bitmap_test s.bitmap pfn ≡ false
      → AllFree s.bitmap (pfn + 1 - (run_length + 1)) (run_length + 1)
  extended free q a b = elim (ℕ_discrete q pfn) [
    | yes e ↦ rw e free
    | no n ↦ run q (omega arith) (omega arith)
  ]

  -- A run that ended here would reach back over the page before the current run.
  NoRun-free : run_length + 1 < count → NoRun s count (pfn + 1)
  NoRun-free longer st lo hi all = elim (dec_lt pfn (st + count)) [
    | no c ↦ none_yet st lo (omega arith) all
    | yes c ↦ elim maximal [
      | inl e ↦ omega arith
      | inr used ↦ ground (arith, all (pfn - run_length - 1) (omega arith) (omega arith))
    ]
  ]

  longer :
      bitmap_test s.bitmap pfn ≡ false
      → (rs : ℕ) → rs + run_length ≡ pfn
      → run_length + 1 < count
      → Seen s count (pfn + 1) rs (run_length + 1)
  longer free rs e lt = record {
    none_yet = NoRun-free lt;
    begun = omega arith;
    short = lt;
    start = inr (omega arith);
    run = extended free;
    maximal = elim maximal [
      | inl d ↦ inl (omega arith)
      | inr used ↦
          inr (
            let d : pfn + 1 - (run_length + 1) - 1 ≡ pfn - run_length - 1 = omega arith in
            rw d used)
    ];
  }

  -- The `run_start` of the next round.
  start_eq : (if run_length == 0 then pfn else run_start) + run_length ≡ pfn
  start_eq = elim start [ inl e ↦ ground arith | inr e ↦ ground arith ]

scan_run-RunOk_of_Seen :
    (s : Pmm) (count n pfn run_start run_length m : ℕ)
    → pfn + n ≡ m
    → Seen s count pfn run_start run_length
    → RunOk s count m (scan_run s count n pfn run_start run_length)
unfolding scan_run
scan_run-RunOk_of_Seen s count zero pfn rs rl m e h =
    λ st lo hi all. h.none_yet st lo (omega arith) all
scan_run-RunOk_of_Seen s count (suc n) pfn rs rl m e h =
    elim (Bool-cases (bitmap_test s.bitmap pfn)) [
      | inl used ↦ rw used (
          scan_run-RunOk_of_Seen s count n (pfn + 1) rs 0 m (omega arith)
            (restart s count pfn rs rl h used))
      | inr free ↦ elim (ℕ_discrete (rl + 1) count) [
        | yes done ↦
            let t : ((rl + 1) == count) ≡ true = ground arith in
            rw (free, t)
              (
                omega (arith, h.begun, start_eq s count pfn rs rl h),
                omega (arith, start_eq s count pfn rs rl h),
                λ q a b.
                    extended s count pfn rs rl h free q
                      (omega (arith, start_eq s count pfn rs rl h))
                      (omega (arith, start_eq s count pfn rs rl h)),
              )
        | no more ↦
            let t : ((rl + 1) == count) ≡ false = ground arith in
            rw (free, t)
              (scan_run-RunOk_of_Seen s count n (pfn + 1) (if rl == 0 then pfn else rs) (rl + 1) m
                (omega arith)
                (longer s count pfn rs rl h free _ (start_eq s count pfn rs rl h)
                  (omega (arith, h.short))))
      ]
    ]

Seen-start : (s : Pmm) (count : ℕ) → 0 < count → Seen s count s.reserved_pages 0 0
Seen-start s count pos = record {
  none_yet = λ st lo hi all. omega arith;
  begun = omega arith;
  short = pos;
  start = inl refl;
  run = λ q a b. absurd (omega arith);
  maximal = inl (omega arith);
}

-- The whole loop: a free run of `count` pages above the reserved ones, or none if there is none.
pub scan_run-RunOk :
    (s : Pmm) (count : ℕ)
    → 0 < count
    → s.reserved_pages ≤ s.total_pages
    → RunOk s count s.total_pages
        (scan_run s count (s.total_pages - s.reserved_pages) s.reserved_pages 0 0)
scan_run-RunOk s count pos fit =
    scan_run-RunOk_of_Seen s count (s.total_pages - s.reserved_pages) s.reserved_pages 0 0
      s.total_pages (omega arith) (Seen-start s count pos)
