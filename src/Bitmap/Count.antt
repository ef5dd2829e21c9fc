-- ===== src/Bitmap/Count.antt =====
-- How a write of one bit changes the number of used pages.
use cortex_forge_aarch64_bar.Prelude.{
  ℕ, zero, suc, ◌+◌, ◌*◌, ◌≡◌, ◌≤◌, ◌<◌, Bool, true, false, List, length, arith, refl,
}
use native.Mathlib.Decide.{dec_lt}
use cortex_forge_aarch64_bar.Bitmap.Defs.{Word, bitmap_test, bitmap_put, count_used, IsBitmap}
use cortex_forge_aarch64_bar.Bitmap.Laws.{bitmap_test-put}

-- The count depends on the tests alone.
pub count_used-ext :
    (bm bm' : List Word) (n : ℕ)
    → ((q : ℕ) → q < n → bitmap_test bm q ≡ bitmap_test bm' q)
    → count_used bm n ≡ count_used bm' n
unfolding count_used
count_used-ext bm bm' zero h = refl
count_used-ext bm bm' (suc n) h =
    rw (count_used-ext bm bm' n (λ q lt. h q (omega arith)), h n (omega arith))

module _ (bm : List Word) (p : ℕ) (valid : IsBitmap bm) (lt : p < length bm * 64) where
  count_used-put_of_le :
      (n : ℕ) (v : Bool) → n ≤ p → count_used (bitmap_put bm p v) n ≡ count_used bm n
  unfolding count_used
  count_used-put_of_le zero v h = refl
  count_used-put_of_le (suc n) v h =
      ground (arith, count_used-put_of_le n v, bitmap_test-put bm p n v valid lt)

  pub count_used-set :
      (n : ℕ)
      → p < n
      → bitmap_test bm p ≡ false
      → count_used (bitmap_put bm p true) n ≡ count_used bm n + 1
  unfolding count_used
  count_used-set zero h e = absurd (omega arith)
  count_used-set (suc n) h e = elim (dec_lt p n) [
    | yes b ↦ ground (arith, count_used-set n b e, bitmap_test-put bm p n true valid lt)
    | no b ↦ ground (arith, count_used-put_of_le n true, bitmap_test-put bm p n true valid lt)
  ]

  pub count_used-clear :
      (n : ℕ)
      → p < n
      → bitmap_test bm p ≡ true
      → count_used (bitmap_put bm p false) n + 1 ≡ count_used bm n
  unfolding count_used
  count_used-clear zero h e = absurd (omega arith)
  count_used-clear (suc n) h e = elim (dec_lt p n) [
    | yes b ↦ ground (arith, count_used-clear n b e, bitmap_test-put bm p n false valid lt)
    | no b ↦ ground (arith, count_used-put_of_le n false, bitmap_test-put bm p n false valid lt)
  ]

pub count_used-le : (bm : List Word) (n : ℕ) → count_used bm n ≤ n
unfolding count_used
count_used-le bm zero = omega arith
count_used-le bm (suc n) = ground (arith, count_used-le bm n)

pub count_used-eq-zero :
    (bm : List Word) (n : ℕ) → ((q : ℕ) → q < n → bitmap_test bm q ≡ false) → count_used bm n ≡ 0
unfolding count_used
count_used-eq-zero bm zero h = refl
count_used-eq-zero bm (suc n) h =
    rw (count_used-eq-zero bm n (λ q lt. h q (omega arith)), h n (omega arith))
