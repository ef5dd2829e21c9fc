-- ===== src/Bitmap/Laws.antt =====
-- Reading after writing a bit of the bitmap of mm/pmm/pmm.c.
use cortex_forge_aarch64_bar.Prelude.{
  ℕ, zero, suc, ◌*◌, ◌/◌, ◌%◌, ◌≡◌, ◌≢◌, ◌<◌, Bool, true, false, List, [], ◌∷◌, length, get_or, set,
  arith, refl, ◌==◌, if◌then◌else◌, get_or-set_self, get_or-set_ne, length-set, ==_iff,
}
use cortex_forge_aarch64_bar.Bitmap.Defs.{Word, bitmap_test, bitmap_put, all_ones, IsBitmap}
use native.Mathlib.Decide.{ℕ_discrete}

all_ones-get_or : (w : Word) (i : ℕ) → all_ones w ≡ true → i < length w → get_or w i false ≡ true
unfolding all_ones
all_ones-get_or [] i h lt = absurd (omega arith)
all_ones-get_or (b ∷ w) zero h lt = ground arith
all_ones-get_or (b ∷ w) (suc i) h lt = all_ones-get_or w i (ground arith) (omega arith)

-- A word that equals ~0 has every page of its 64 used.
pub bitmap_test-of_all_ones :
    (bm : List Word) (i pfn : ℕ)
    → IsBitmap bm
    → i < length bm
    → all_ones (get_or bm i []) ≡ true
    → pfn / 64 ≡ i
    → bitmap_test bm pfn ≡ true
unfolding bitmap_test
bitmap_test-of_all_ones bm i pfn v lt ones e =
    rw e (all_ones-get_or (get_or bm i []) (pfn % 64) ones (omega (arith, v i lt)))

pub length-bitmap_put : (bm : List Word) (p : ℕ) (v : Bool) → length (bitmap_put bm p v) ≡ length bm
unfolding bitmap_put
length-bitmap_put bm p v = length-set bm (p / 64) _

bitmap_test-put_self :
    (bm : List Word) (p : ℕ) (v : Bool)
    → IsBitmap bm
    → p < length bm * 64
    → bitmap_test (bitmap_put bm p v) p ≡ v
unfolding bitmap_test bitmap_put
bitmap_test-put_self bm p v valid lt =
    rw (get_or-set_self bm (p / 64) (set (get_or bm (p / 64) []) (p % 64) v) [] (omega arith)) (
      get_or-set_self (get_or bm (p / 64) []) (p % 64) v false
        (omega (arith, valid (p / 64) (omega arith))))

bitmap_test-put_ne :
    (bm : List Word) (p q : ℕ) (v : Bool)
    → p < length bm * 64
    → p ≢ q
    → bitmap_test (bitmap_put bm p v) q ≡ bitmap_test bm q
unfolding bitmap_test bitmap_put
bitmap_test-put_ne bm p q v lt ne = elim (ℕ_discrete (p / 64) (q / 64)) [
  | yes e ↦ rw (
    ← e,
    get_or-set_self bm (p / 64) (set (get_or bm (p / 64) []) (p % 64) v) [] (omega arith),
    get_or-set_ne (get_or bm (p / 64) []) (p % 64) (q % 64) v false (omega arith),
  )
  | no n ↦ rw (get_or-set_ne bm (p / 64) (q / 64) (set (get_or bm (p / 64) []) (p % 64) v) [] n)
]

pub bitmap_test-put :
    (bm : List Word) (p q : ℕ) (v : Bool)
    → IsBitmap bm
    → p < length bm * 64
    → bitmap_test (bitmap_put bm p v) q ≡ (if p == q then v else bitmap_test bm q)
bitmap_test-put bm p q v valid lt = elim (ℕ_discrete p q) [
  | yes e ↦ rw (← e) (rw ((==_iff p p).1 refl) (bitmap_test-put_self bm p v valid lt))
  | no n ↦ ground (arith, bitmap_test-put_ne bm p q v lt n)
]

pub bitmap_put-IsBitmap :
    (bm : List Word) (p : ℕ) (v : Bool)
    → IsBitmap bm
    → p < length bm * 64
    → IsBitmap (bitmap_put bm p v)
unfolding bitmap_put
bitmap_put-IsBitmap bm p v valid lt i h = elim (ℕ_discrete (p / 64) i) [
  | yes e ↦
      rw
        (
          ← e,
          get_or-set_self bm (p / 64) (set (get_or bm (p / 64) []) (p % 64) v) [] (omega arith),
          length-set (get_or bm (p / 64) []) (p % 64) v,
        )
        (valid (p / 64) (omega arith))
  | no n ↦
      rw (get_or-set_ne bm (p / 64) i (set (get_or bm (p / 64) []) (p % 64) v) [] n)
        (valid i (omega (arith, length-set bm (p / 64) (set (get_or bm (p / 64) []) (p % 64) v))))
]
