-- ===== src/Pmm/AllocPage.antt =====
-- `pmm_allocate_page` of mm/pmm/pmm.c: which page it takes, and when it takes none.
use cortex_forge_aarch64_bar.Prelude.{
  ℕ, zero, suc, ◌+◌, ◌*◌, ◌%◌, ◌≡◌, ◌≤◌, ◌<◌, ◌⊎◌, inl, inr, refl, true, false, arith, ◌==◌, leb,
  if◌then◌else◌, Bool-cases, get_or, [],
}
use cortex_forge_aarch64_bar.Bitmap.{
  bitmap_test, all_ones, bitmap_test-of_all_ones, bitmap_test-put,
}
use native.Mathlib.Decide.{dec_lt}
use cortex_forge_aarch64_bar.Pmm.{
  Pmm, Scan, found, out_of_range, full, scan_bits, or_next, scan_words, take_page,
  pmm_allocate_page,
}
use cortex_forge_aarch64_bar.Pmm.Invariant.{
  IsValid, set-IsValid, used_fits, in_words, pfn_to_phys_bounds,
}

-- Every page below `n` is used.
abbrev pub AllUsed : Pmm → ℕ → Type 0
AllUsed s n = (q : ℕ) → q < n → bitmap_test s.bitmap q ≡ true

-- What a scan says, where the loop would end having seen all pages below `n`.
abbrev ScanOk : Pmm → ℕ → Scan → Type 0
ScanOk s n (found p) = (p < s.total_pages) × (bitmap_test s.bitmap p ≡ false) × AllUsed s p
ScanOk s n out_of_range = AllUsed s s.total_pages
ScanOk s n full = AllUsed s n

AllUsed-suc : (s : Pmm) (n : ℕ) → AllUsed s n → bitmap_test s.bitmap n ≡ true → AllUsed s (suc n)
AllUsed-suc s n below here q lt = elim (dec_lt q n) [
  | yes h ↦ below q h
  | no h ↦ let e : q ≡ n = omega arith in rw e here
]

-- The loop over the bits, at its start having seen all pages below `k`, and at its end below `m`.
scan_bits-ScanOk :
    (s : Pmm) (n i bit m : ℕ)
    → i * 64 + bit + n ≡ m
    → AllUsed s (i * 64 + bit)
    → ScanOk s m (scan_bits s n i bit)
unfolding scan_bits
scan_bits-ScanOk s zero i bit m em h = λ q lt. h q (omega arith)
scan_bits-ScanOk s (suc n) i bit m em h = elim (dec_lt (i * 64 + bit) s.total_pages) [
  | no past ↦
      let e : leb s.total_pages (i * 64 + bit) ≡ true = ground arith in
      rw e (λ q lt. h q (omega arith))
  | yes inside ↦
      let e : leb s.total_pages (i * 64 + bit) ≡ false = ground arith in
      elim (Bool-cases (bitmap_test s.bitmap (i * 64 + bit))) [
        | inr free ↦ rw (e, free) (inside, free, h)
        | inl used ↦
            rw (e, used)
              (scan_bits-ScanOk s n i (bit + 1) m (omega arith)
                (λ q lt. AllUsed-suc s (i * 64 + bit) h used q (omega arith)))
      ]
]

ScanOk-or_next :
    (s : Pmm) (n m : ℕ) (r rest : Scan)
    → ScanOk s n r
    → (AllUsed s n → ScanOk s m rest)
    → ScanOk s m (or_next r rest)
ScanOk-or_next s n m (found p) rest h next = h
ScanOk-or_next s n m out_of_range rest h next = h
ScanOk-or_next s n m full rest h next = next h

AllUsed-word :
    {s : Pmm} (v : IsValid s) (i : ℕ)
    → i < s.bitmap_size
    → all_ones (get_or s.bitmap i []) ≡ true
    → AllUsed s (i * 64)
    → AllUsed s ((i + 1) * 64)
AllUsed-word {s} v i lt ones h q b = elim (dec_lt q (i * 64)) [
  | yes c ↦ h q c
  | no c ↦ bitmap_test-of_all_ones s.bitmap i q v.words (omega (arith, v.size)) ones (omega arith)
]

scan_words-ScanOk :
    {s : Pmm} (v : IsValid s) (n i : ℕ)
    → i + n ≡ s.bitmap_size
    → AllUsed s (i * 64)
    → ScanOk s (s.bitmap_size * 64) (scan_words s n i)
unfolding scan_words
scan_words-ScanOk v zero i e h = λ q lt. h q (omega arith)
scan_words-ScanOk {s} v (suc n) i e h = elim (Bool-cases (all_ones (get_or s.bitmap i []))) [
  | inl ones ↦
      rw ones (scan_words-ScanOk v n (i + 1) (omega arith) (AllUsed-word v i (omega arith) ones h))
  | inr some_free ↦ rw some_free (
      ScanOk-or_next s ((i + 1) * 64) (s.bitmap_size * 64) _ _
        (scan_bits-ScanOk s 64 i 0 ((i + 1) * 64) (omega arith) (λ q lt. h q (omega arith)))
        (λ all. scan_words-ScanOk v n (i + 1) (omega arith) all))
]

-- A page is handed out: the first free one, and nothing else changes.
pub record TookPage (s : Pmm) (pfn a : ℕ) (s' : Pmm) : Type 0 where
  pub in_range : pfn < s.total_pages
  pub was_free : bitmap_test s.bitmap pfn ≡ false
  pub first : AllUsed s pfn
  pub address : a ≡ s.mem_region_start + pfn * 4096
  pub in_region : a + 4096 ≤ s.mem_region_end
  pub page_aligned : a % 4096 ≡ 0
  pub bits : (q : ℕ) → bitmap_test s'.bitmap q ≡ (if pfn == q then true else bitmap_test s.bitmap q)
  pub used : s'.used_pages ≡ s.used_pages + 1
  pub total : s'.total_pages ≡ s.total_pages
  pub reserved : s'.reserved_pages ≡ s.reserved_pages
  pub region : s'.mem_region_start ≡ s.mem_region_start
  pub valid : IsValid s'

-- The outcomes of `pmm_allocate_page`.
abbrev pub PageOutcome : Pmm → ℕ × Pmm → Type 0
PageOutcome s (a, s') =
    ((pfn : ℕ) × TookPage s pfn a s') ⊎ (((a ≡ 0) × (s' ≡ s)) × AllUsed s s.total_pages)

take_page-PageOutcome :
    {s : Pmm} (v : IsValid s) (r : Scan)
    → ScanOk s (s.bitmap_size * 64) r
    → PageOutcome s (take_page s r)
take_page-PageOutcome {s} v (found p) (lt, free, below) = inl (
  p,
  record {
    in_range = lt;
    was_free = free;
    first = below;
    address = (pfn_to_phys_bounds v p lt).0;
    in_region = (pfn_to_phys_bounds v p lt).2;
    page_aligned = (pfn_to_phys_bounds v p lt).3;
    bits = λ q. bitmap_test-put s.bitmap p q true v.words (in_words v p lt);
    used = used_fits v p lt;
    total = refl;
    reserved = refl;
    region = refl;
    valid = set-IsValid v p lt free;
  },
)
take_page-PageOutcome {s} v out_of_range all = inr ((refl, refl), all)
take_page-PageOutcome {s} v full all = inr ((refl, refl), λ q lt. all q (omega (arith, v.covered)))

-- In a valid state `pmm_allocate_page` hands out the first free page, at its aligned address in the
-- region, marks that page and no other, counts it and keeps the invariant; it returns 0 only when
-- every page is used, and then changes nothing.
pub pmm_allocate_page-PageOutcome : {s : Pmm} → IsValid s → PageOutcome s (pmm_allocate_page s)
unfolding pmm_allocate_page
pmm_allocate_page-PageOutcome {s} v =
    take_page-PageOutcome v (scan_words s s.bitmap_size 0)
      (scan_words-ScanOk v s.bitmap_size 0 (omega arith) (λ q lt. absurd (omega arith)))
