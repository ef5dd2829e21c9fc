-- ===== src/Heap/Fit.antt =====
-- The search of `kmalloc` in mm/heap/heap.c, and what taking a block keeps.
use cortex_forge_aarch64_bar.Prelude.{
  ℕ, ◌+◌, ◌-◌, ◌%◌, ◌^◌, ◌≡◌, ◌≤◌, ◌<◌, ◌⊎◌, inl, inr, refl, ap, Bool, Bool-cases, true, false,
  ◌&&◌, List, [], ◌∷◌, ◌++◌, Option, none, some, ltb, leb, arith,
}
use cortex_forge_aarch64_bar.Heap.{
  Block, block_header_size, block_magic_free, mark_used, take_block, behind_block, first_fit,
}
use cortex_forge_aarch64_bar.Heap.Blocks.{
  Well, AllApart, Good, Covers, unless, used_blocks, AllApart-inside,
}

-- What is left of a block behind the first `size` bytes of its payload.
abbrev rest_of : ℕ → Block → Block
rest_of size b = record {
  addr = b.addr + block_header_size + size;
  size = b.size - size - block_header_size;
  magic = block_magic_free;
  is_free = true;
}

-- The first block that fits is taken, whole or in part.
pub data Taken (size : ℕ) : List Block → ℕ → List Block → Type 0 where
  whole :
      {b : Block} {bs : List Block}
      → b.is_free ≡ true
      → size ≤ b.size
      → Taken size (b ∷ bs) (b.addr + block_header_size) (mark_used b ∷ bs)
  part :
      {b : Block} {bs : List Block}
      → b.is_free ≡ true
      → size + 64 < b.size
      → Taken size
          (b ∷ bs)
          (b.addr + block_header_size)
          (mark_used (record b { size = size }) ∷ rest_of size b ∷ bs)
  later :
      {b : Block} {bs bs' : List Block} {p : ℕ}
      → Taken size bs p bs'
      → Taken size (b ∷ bs) p (b ∷ bs')

-- No free block is large enough.
abbrev pub NoFit : ℕ → List Block → Type 0
NoFit size [] = Unit
NoFit size (b ∷ bs) = ((b.is_free ≡ false) ⊎ (b.size < size)) × NoFit size bs

abbrev pub FitOutcome : ℕ → List Block → Option (ℕ × List Block) → Type 0
FitOutcome size bs none = NoFit size bs
FitOutcome size bs (some (p, bs')) = Taken size bs p bs'

behind_block-FitOutcome :
    (size : ℕ) (b : Block) (bs : List Block) (o : Option (ℕ × List Block))
    → (b.is_free ≡ false) ⊎ (b.size < size)
    → FitOutcome size bs o
    → FitOutcome size (b ∷ bs) (behind_block b o)
behind_block-FitOutcome size b bs none small h = (small, h)
behind_block-FitOutcome size b bs (some (p, bs')) small h = later h

take_block-Taken :
    (size : ℕ) (b : Block) (bs : List Block)
    → Well b
    → b.is_free ≡ true
    → size ≤ b.size
    → Taken size (b ∷ bs) ((b.addr + block_header_size) % 2 ^ 64) (take_block size b ++ bs)
unfolding take_block
take_block-Taken size b bs w free fits =
    let fit = w.no_wrap in
    let e : (b.addr + block_header_size) % 2 ^ 64 ≡ b.addr + block_header_size = omega arith in
    elim (Bool-cases (ltb 64 (b.size - size))) [
      | inl large ↦
          let e' : (b.addr + block_header_size + size) % 2 ^ 64
              ≡ b.addr + block_header_size + size =
            omega arith in
          rw (e, large, e') (part free (ground arith))
      | inr small ↦ rw (e, small) (whole free fits)
    ]

pub first_fit-FitOutcome :
    (size : ℕ) (bs : List Block) → Good bs → FitOutcome size bs (first_fit size bs)
unfolding first_fit
first_fit-FitOutcome size [] h = tt
first_fit-FitOutcome size (b ∷ bs) (w, a, h) =
    let ih = first_fit-FitOutcome size bs h in
    elim (Bool-cases (b.is_free && leb size b.size)) [
      | inl found ↦ rw found (take_block-Taken size b bs w (ground arith) (ground arith))
      | inr other ↦
          rw other (behind_block-FitOutcome size b bs (first_fit size bs) (grind arith) ih)
    ]

Taken-AllApart :
    (size p : ℕ) (x : Block) (bs bs' : List Block)
    → Taken size bs p bs'
    → AllApart x bs
    → AllApart x bs'
Taken-AllApart size p x bs bs' (whole free fits) (a, h) = (a, h)
Taken-AllApart size p x bs bs' (part free fits) (a, h) = (grind arith, (grind arith, h))
Taken-AllApart size p x bs bs' (later t) (a, h) = (a, Taken-AllApart size p x _ _ t h)

pub Taken-Good :
    (size p : ℕ) (bs bs' : List Block) → size % 16 ≡ 0 → Taken size bs p bs' → Good bs → Good bs'
Taken-Good size p bs bs' al (whole {b = b} {bs = cs} free fits) (w, a, h) = (
  record {
    agrees = refl;
    addr_aligned = w.addr_aligned;
    size_aligned = w.size_aligned;
    no_wrap = w.no_wrap;
  },
  AllApart-inside b (mark_used b) cs (omega arith) (omega arith) a,
  h,
)
Taken-Good size p bs bs' al (part {b = b} {bs = cs} free fits) (w, a, h) =
    let e1 = w.addr_aligned in
    let e2 = w.size_aligned in
    let e3 = w.no_wrap in
    (
      record { agrees = refl; addr_aligned = e1; size_aligned = al; no_wrap = omega arith },
      (
        inl (omega arith),
        AllApart-inside b (mark_used (record b { size = size })) cs (omega arith) (omega arith) a,
      ),
      (
        record {
          agrees = refl;
          addr_aligned = omega arith;
          size_aligned = omega arith;
          no_wrap = omega arith;
        },
        AllApart-inside b (rest_of size b) cs (omega arith) (omega arith) a,
        h,
      ),
    )
Taken-Good size p bs bs' al (later {b = b} t) (w, a, h) =
    (w, Taken-AllApart size p b _ _ t a, Taken-Good size p _ _ al t h)

pub Taken-Covers :
    (size p : ℕ) (bs bs' : List Block) (a : ℕ) → Taken size bs p bs' → Covers bs' a → Covers bs a
Taken-Covers size p bs bs' a (whole free fits) h = h
Taken-Covers size p bs bs' a (part free fits) (inl (lo, hi)) = inl (lo, omega arith)
Taken-Covers size p bs bs' a (part free fits) (inr (inl (lo, hi))) = inl (omega arith, omega arith)
Taken-Covers size p bs bs' a (part free fits) (inr (inr h)) = inr h
Taken-Covers size p bs bs' a (later t) (inl h) = inl h
Taken-Covers size p bs bs' a (later t) (inr h) = inr (Taken-Covers size p _ _ a t h)

-- A used block is new, and the other used blocks are as before.
pub record NewUsed (size p : ℕ) (before after : List Block) : Type 0 where
  pub lower : List Block
  pub upper : List Block
  pub block : Block
  pub were : before ≡ lower ++ upper
  pub are : after ≡ lower ++ (block ∷ upper)
  pub payload : p ≡ block.addr + block_header_size
  pub enough : size ≤ block.size

NewUsed-later :
    (size p : ℕ) (free : Bool) (b : Block) (us us' : List Block)
    → NewUsed size p us us'
    → NewUsed size p (unless free b us) (unless free b us')
NewUsed-later size p true b us us' n = n
NewUsed-later size p false b us us' n = record {
  lower = b ∷ n.lower;
  upper = n.upper;
  block = n.block;
  were = ap (λ l. b ∷ l) n.were;
  are = ap (λ l. b ∷ l) n.are;
  payload = n.payload;
  enough = n.enough;
}

pub Taken-NewUsed :
    (size p : ℕ) (bs bs' : List Block)
    → Taken size bs p bs'
    → NewUsed size p (used_blocks bs) (used_blocks bs')
Taken-NewUsed size p bs bs' (whole {b = b} {bs = cs} free fits) = rw free (record {
  lower = [];
  upper = used_blocks cs;
  block = mark_used b;
  were = refl;
  are = refl;
  payload = refl;
  enough = fits;
})
Taken-NewUsed size p bs bs' (part {b = b} {bs = cs} free fits) = rw free (record {
  lower = [];
  upper = used_blocks cs;
  block = mark_used (record b { size = size });
  were = refl;
  are = refl;
  payload = refl;
  enough = omega arith;
})
Taken-NewUsed size p bs bs' (later {b = b} t) =
    NewUsed-later size p b.is_free b _ _ (Taken-NewUsed size p _ _ t)
