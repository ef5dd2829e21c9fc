-- ===== src/Pmm/AllocRun/Mark.antt =====
-- The loop that marks a run of pages used.
use cortex_forge_aarch64_bar.Prelude.{
  ℕ, zero, suc, ◌+◌, ◌*◌, ◌≡◌, ◌≤◌, ◌<◌, Bool, true, false, ◌&&◌, List, length, arith, refl, leb,
  ltb, if◌then◌else◌,
}
use cortex_forge_aarch64_bar.Bitmap.{
  Word, IsBitmap, bitmap_test, bitmap_put, bitmap_test-put, bitmap_put-IsBitmap, length-bitmap_put,
  count_used, count_used-set,
}
use cortex_forge_aarch64_bar.Pmm.{mark_run}

-- The `n` pages from `st` on are free.
abbrev pub AllFree : List Word → ℕ → ℕ → Type 0
AllFree bm st n = (q : ℕ) → st ≤ q → q < st + n → bitmap_test bm q ≡ false

abbrev pub in_run : ℕ → ℕ → ℕ → Bool
in_run st n q = leb st q && ltb q (st + n)

pub length-mark_run : (bm : List Word) (st n : ℕ) → length (mark_run bm st n) ≡ length bm
unfolding mark_run
length-mark_run bm st zero = refl
length-mark_run bm st (suc n) =
    omega (arith, length-mark_run (bitmap_put bm st true) (st + 1) n, length-bitmap_put bm st true)

pub mark_run-IsBitmap :
    (bm : List Word) (st n : ℕ)
    → IsBitmap bm
    → st + n ≤ length bm * 64
    → IsBitmap (mark_run bm st n)
unfolding mark_run
mark_run-IsBitmap bm st zero v h = v
mark_run-IsBitmap bm st (suc n) v h =
    mark_run-IsBitmap (bitmap_put bm st true) (st + 1) n
      (bitmap_put-IsBitmap bm st true v (omega arith)) (omega (arith, length-bitmap_put bm st true))

pub bitmap_test-mark_run :
    (bm : List Word) (st n q : ℕ)
    → IsBitmap bm
    → st + n ≤ length bm * 64
    → bitmap_test (mark_run bm st n) q ≡ (if in_run st n q then true else bitmap_test bm q)
unfolding mark_run
bitmap_test-mark_run bm st zero q v h = ground arith
bitmap_test-mark_run bm st (suc n) q v h = ground (
  arith,
  bitmap_test-mark_run (bitmap_put bm st true) (st + 1) n q
      (bitmap_put-IsBitmap bm st true v (omega arith))
      (omega (arith, length-bitmap_put bm st true)),
  bitmap_test-put bm st q true v (omega arith),
)

pub count_used-mark_run :
    (bm : List Word) (st n total : ℕ)
    → IsBitmap bm
    → st + n ≤ total
    → total ≤ length bm * 64
    → AllFree bm st n
    → count_used (mark_run bm st n) total ≡ count_used bm total + n
unfolding mark_run
count_used-mark_run bm st zero total v h k free = omega arith
count_used-mark_run bm st (suc n) total v h k free = omega (
  arith,
  count_used-mark_run (bitmap_put bm st true) (st + 1) n total
      (bitmap_put-IsBitmap bm st true v (omega arith)) (omega arith)
      (omega (arith, length-bitmap_put bm st true))
      (λ q a b.
        ground (
          arith,
          bitmap_test-put bm st q true v (omega arith),
          free q (omega arith) (omega arith),
        )),
  count_used-set bm st v (omega arith) total (omega arith) (free st (omega arith) (omega arith)),
)
