-- ===== src/Pmm/Init.antt =====
-- `pmm_init` of mm/pmm/pmm.c sets up a valid state.
use cortex_forge_aarch64_bar.Prelude.{
  sym, ◌∙◌, zero, suc, ℕ, ◌+◌, ◌-◌, ◌*◌, ◌/◌, ◌%◌, ◌^◌, ◌≡◌, ◌≢◌, ◌≤◌, ◌<◌, ◌⊎◌, inl, inr, false,
  arith, refl, ◌==◌, leb, ltb, if◌then◌else◌, Bool-cases, lt→ltb, List, get_or, replicate, set,
  length, [], length-replicate, get_or-replicate, length-set, get_or-set_self, get_or-set_ne,
}
use native.Mathlib.Decide.{ℕ_discrete}
use cortex_forge_aarch64_bar.Bitmap.{Word, IsBitmap, bitmap_test, count_used, count_used-eq-zero}
use cortex_forge_aarch64_bar.Pmm.{
  Pmm, sub64, add64, page_align_up, mark_run, pmm_init, bits_from, tail_word,
}
use cortex_forge_aarch64_bar.Pmm.Invariant.{IsValid}
use cortex_forge_aarch64_bar.Pmm.AllocRun.Mark.{
  mark_run-IsBitmap, length-mark_run, bitmap_test-mark_run, count_used-mark_run,
}

length-bits_from : (r n b : ℕ) → length (bits_from r n b) ≡ n
unfolding bits_from
length-bits_from r zero b = refl
length-bits_from r (suc n) b = omega (arith, length-bits_from r n (b + 1))

get_or-bits_from : (r n b j : ℕ) → j < n → get_or (bits_from r n b) j false ≡ leb r (b + j)
unfolding bits_from
get_or-bits_from r zero b j h = absurd (omega arith)
get_or-bits_from r (suc n) b zero h = ground arith
get_or-bits_from r (suc n) b (suc j) h =
    ground (arith, get_or-bits_from r n (b + 1) j (omega arith))

-- The bitmap after `memset`, and after the pages that do not exist are marked.
abbrev zeroed : ℕ → List Word
zeroed words = replicate words (replicate 64 false)

abbrev tailed : ℕ → ℕ → List Word
tailed total words =
    if total % 64 == 0
    then zeroed words
    else set (zeroed words) (words - 1) (tail_word (total % 64))

module _ (total words : ℕ) (e : words ≡ (total + 63) / 64) where
  length-tailed : length (tailed total words) ≡ words
  length-tailed = elim (Bool-cases (total % 64 == 0)) [
    | inl h ↦ rw h (length-replicate words (replicate 64 false))
    | inr h ↦ rw h (
        length-set (zeroed words) (words - 1) (tail_word (total % 64))
        ∙ length-replicate words (replicate 64 false))
  ]

  zeroed-word : (i : ℕ) → i < words → get_or (zeroed words) i [] ≡ replicate 64 false
  zeroed-word i lt = get_or-replicate words i (replicate 64 false) [] lt

  -- The last word, where the pages do not fill it.
  last-word :
      (total % 64 == 0) ≡ false
      → get_or (tailed total words) (words - 1) [] ≡ tail_word (total % 64)
  last-word h = rw h (
      get_or-set_self (zeroed words) (words - 1) (tail_word (total % 64)) []
        (ground (arith, length-replicate words (replicate 64 false))))

  other-word :
      (i : ℕ)
      → i < words
      → (total % 64 ≡ 0) ⊎ (i ≢ words - 1)
      → get_or (tailed total words) i [] ≡ replicate 64 false
  other-word i lt (inl h) = rw h (zeroed-word i lt)
  other-word i lt (inr ne) = elim (Bool-cases (total % 64 == 0)) [
    | inl h ↦ rw h (zeroed-word i lt)
    | inr h ↦ rw h (
        get_or-set_ne (zeroed words) (words - 1) i (tail_word (total % 64)) [] (λ eq. ne (sym eq))
        ∙ zeroed-word i lt)
  ]

  tailed-IsBitmap : IsBitmap (tailed total words)
  unfolding tail_word
  tailed-IsBitmap i lt = elim (ℕ_discrete i (words - 1)) [
    | no ne ↦ rw (other-word i (omega (arith, length-tailed)) (inr ne)) refl
    | yes same ↦ elim (ℕ_discrete (total % 64) 0) [
      | yes z ↦ rw (other-word i (omega (arith, length-tailed)) (inl z)) refl
      | no nz ↦ rw same (rw (last-word (ground arith)) (length-bits_from (total % 64) 64 0))
    ]
  ]

  tailed-free : (q : ℕ) → q < total → bitmap_test (tailed total words) q ≡ false
  unfolding bitmap_test tail_word
  tailed-free q lt = elim (ℕ_discrete (q / 64) (words - 1)) [
    | no ne ↦
        rw (other-word (q / 64) (omega arith) (inr ne))
          (get_or-replicate 64 (q % 64) false false (omega arith))
    | yes same ↦ elim (ℕ_discrete (total % 64) 0) [
      | yes z ↦
          rw (other-word (q / 64) (omega arith) (inl z))
            (get_or-replicate 64 (q % 64) false false (omega arith))
      | no nz ↦ rw same (
          rw (last-word (ground arith))
            (get_or-bits_from (total % 64) 64 0 (q % 64) (omega arith) ∙ ground arith))
    ]
  ]

-- What the linker and the board give: an aligned region above 0 that does not wrap, of whole pages,
-- with the kernel's end and the bitmap after it inside.
pub record IsLayout (kernel_end mem_start mem_size : ℕ) : Type 0 where
  pub start_aligned : mem_start % 4096 ≡ 0
  pub start_positive : 0 < mem_start
  pub whole_pages : mem_size % 4096 ≡ 0
  pub no_wrap : mem_start + mem_size < 2 ^ 64
  pub kernel_above : mem_start ≤ kernel_end
  pub bitmap_fits :
      kernel_end + 4095 + (mem_size / 4096 + 63) / 64 * 8 + 4095 ≤ mem_start + mem_size

-- The pages that hold the kernel and the bitmap, rounded up.
abbrev pub reserved_of : ℕ → ℕ → ℕ → ℕ
reserved_of kernel_end mem_start mem_size =
    ((kernel_end + 4095) / 4096 * 4096 + (mem_size / 4096 + 63) / 64 * 8 + 4095) / 4096
    - mem_start / 4096

pub record Fresh (s : Pmm) (res all : ℕ) : Type 0 where
  pub valid : IsValid s
  pub reserved : s.reserved_pages ≡ res
  pub total : s.total_pages ≡ all
  pub used : s.used_pages ≡ res
  pub bits : (q : ℕ) → q < all → bitmap_test s.bitmap q ≡ ltb q res

module _ {ke ms sz : ℕ} (l : IsLayout ke ms sz) where
  open l use {start_aligned, start_positive, whole_pages, no_wrap, kernel_above, bitmap_fits}

  reserved_eq :
      sub64 (page_align_up (add64 (page_align_up ke) ((sz / 4096 + 63) / 64 * 8))) ms / 4096
      ≡ reserved_of ke ms sz
  reserved_eq = omega arith

  reserved_le : reserved_of ke ms sz ≤ sz / 4096
  reserved_le = omega arith

module _ (total words res : ℕ) (e : words ≡ (total + 63) / 64) (fit : res ≤ total) where
  bits-init : (q : ℕ) → q < total → bitmap_test (mark_run (tailed total words) 0 res) q ≡ ltb q res
  bits-init q lt = ground (
    arith,
    bitmap_test-mark_run (tailed total words) 0 res q (tailed-IsBitmap total words e)
        (omega (arith, length-tailed total words e)),
    tailed-free total words e q lt,
  )

  counted-init : res ≡ count_used (mark_run (tailed total words) 0 res) total
  counted-init = omega (
    arith,
    count_used-mark_run (tailed total words) 0 res total (tailed-IsBitmap total words e)
        (omega arith) (omega (arith, length-tailed total words e))
        (λ q a b. tailed-free total words e q (omega arith)),
    count_used-eq-zero (tailed total words) total (tailed-free total words e),
  )

  Fresh-init :
      (ms : ℕ)
      → ms % 4096 ≡ 0
      → 0 < ms
      → (sz : ℕ) → sz ≡ total * 4096
      → ms + sz < 2 ^ 64
      → Fresh
          (record {
            bitmap = mark_run (tailed total words) 0 res;
            bitmap_size = words;
            total_pages = total;
            used_pages = res;
            reserved_pages = res;
            mem_region_start = ms;
            mem_region_end = add64 ms sz;
          })
          res
          total
  Fresh-init ms aligned positive sz whole no_wrap = record {
    valid = record {
      words =
          mark_run-IsBitmap (tailed total words) 0 res (tailed-IsBitmap total words e)
            (omega (arith, length-tailed total words e));
      size = omega (arith, length-tailed total words e, length-mark_run (tailed total words) 0 res);
      covered = omega arith;
      counted = counted-init;
      reserved_fit = fit;
      reserved_used = λ p lt. bits-init p (omega arith) ∙ lt→ltb p res lt;
      aligned = aligned;
      positive = positive;
      region = omega arith;
      no_wrap = omega arith;
    };
    reserved = refl;
    total = refl;
    used = refl;
    bits = bits-init;
  }

-- For a region of whole pages that starts aligned above 0, does not wrap and holds the end of the
-- kernel with the bitmap behind it, `pmm_init` sets up a valid state in which exactly the pages that hold what lies
-- below the end of the bitmap are reserved and used, and all others are free.
pub pmm_init-Fresh :
    {kernel_end mem_start mem_size : ℕ}
    → IsLayout kernel_end mem_start mem_size
    → Fresh
        (pmm_init kernel_end mem_start mem_size)
        (reserved_of kernel_end mem_start mem_size)
        (mem_size / 4096)
unfolding pmm_init
pmm_init-Fresh {kernel_end = ke} {mem_start = ms} {mem_size = sz} l = rw (reserved_eq l) (
    Fresh-init (sz / 4096) ((sz / 4096 + 63) / 64) (reserved_of ke ms sz) refl (reserved_le l) ms
      l.start_aligned l.start_positive sz (omega (arith, l.whole_pages)) l.no_wrap)
