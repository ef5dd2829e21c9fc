-- ===== src/Bitmap/Defs.antt =====
-- The helpers of mm/pmm/pmm.c on its bitmap.
use cortex_forge_aarch64_bar.Prelude.{
  ℕ, ◌+◌, ◌/◌, ◌%◌, ◌≡◌, ◌<◌, Bool, true, false, ◌&&◌, List, [], ◌∷◌, length, get_or, set, zero,
  suc, if◌then◌else◌,
}

-- A uint64_t as its 64 bits.
abbrev pub Word : Type 0
Word = List Bool

-- `(bitmap[BITMAP_INDEX(pfn)] >> BITMAP_BIT(pfn)) & 1`
unfoldable pub bitmap_test : List Word → ℕ → Bool
bitmap_test bm pfn = get_or (get_or bm (pfn / 64) []) (pfn % 64) false

unfoldable pub bitmap_put : List Word → ℕ → Bool → List Word
bitmap_put bm pfn v = set bm (pfn / 64) (set (get_or bm (pfn / 64) []) (pfn % 64) v)

-- `bitmap[i] |= 1 << b`
abbrev pub bitmap_set : List Word → ℕ → List Word
bitmap_set bm pfn = bitmap_put bm pfn true

-- `bitmap[i] &= ~(1 << b)`
abbrev pub bitmap_clear : List Word → ℕ → List Word
bitmap_clear bm pfn = bitmap_put bm pfn false

-- `w == ~0ULL`
unfoldable pub all_ones : Word → Bool
all_ones [] = true
all_ones (b ∷ w) = b && all_ones w

-- Pages from the first to before the last that are marked used.
unfoldable pub count_used : List Word → ℕ → ℕ
count_used bm zero = 0
count_used bm (suc n) = count_used bm n + (if bitmap_test bm n then 1 else 0)

-- Every word has its 64 bits.
abbrev pub IsBitmap : List Word → Type 0
IsBitmap bm = (i : ℕ) → i < length bm → length (get_or bm i []) ≡ 64
