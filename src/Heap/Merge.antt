-- ===== src/Heap/Merge.antt =====
-- `kfree` of mm/heap/heap.c: the block that it frees, and the merging of free blocks.
use cortex_forge_aarch64_bar.Prelude.{
  ℕ, ◌+◌, ◌%◌, ◌^◌, ◌≡◌, ◌≢◌, ◌⊎◌, inl, inr, refl, ◌∙◌, ap, Bool-cases, true, false, ◌&&◌, List, [],
  ◌∷◌, ◌==◌, ltb, arith,
}
use cortex_forge_aarch64_bar.Heap.{Block, block_header_size, coalesce_at, coalesce}
use cortex_forge_aarch64_bar.Heap.Blocks.{
  block_end, AllApart, Good, Covers, unless, used_blocks, AllApart-union,
}

-- Some free blocks have taken in the free blocks that begin where they end, until none is left.
pub data Merged : List Block → List Block → Type 0 where
  empty : Merged [] []
  alone : {b : Block} → Merged (b ∷ []) (b ∷ [])
  kept :
      {b c : Block} {cs out : List Block}
      → (b.is_free ≡ false) ⊎ ((c.is_free ≡ false) ⊎ (block_end b ≢ c.addr))
      → Merged (c ∷ cs) out
      → Merged (b ∷ c ∷ cs) (b ∷ out)
  merged :
      {b c : Block} {cs out : List Block}
      → b.is_free ≡ true
      → c.is_free ≡ true
      → block_end b ≡ c.addr
      → Merged (record b { size = b.size + (block_header_size + c.size) } ∷ cs) out
      → Merged (b ∷ c ∷ cs) out

-- The block over `b` and the block `c` that begins where `b` ends.
abbrev both : Block → Block → Block
both b c = record b { size = b.size + (block_header_size + c.size) }

both-Good :
    (b c : Block) (cs : List Block)
    → block_end b ≡ c.addr
    → Good (b ∷ c ∷ cs)
    → Good (both b c ∷ cs)
both-Good b c cs touch (w, (a, h), (w', h', g)) =
    let s = w.size_aligned in
    let s' = w'.size_aligned in
    let n = w'.no_wrap in
    (
      record {
        agrees = w.agrees;
        addr_aligned = w.addr_aligned;
        size_aligned = omega arith;
        no_wrap = omega arith;
      },
      AllApart-union b c (both b c) cs touch refl (omega arith) h h',
      g,
    )

coalesce_at-Merged :
    (b : Block) (bs : List Block) → Good (b ∷ bs) → Merged (b ∷ bs) (coalesce_at b bs)
unfolding coalesce_at
coalesce_at-Merged b [] g = alone
coalesce_at-Merged b (c ∷ cs) g =
    let touch = (b.addr + block_header_size + b.size) % 2 ^ 64 in
    let n = g.0.no_wrap in
    let n' = g.2.0.no_wrap in
    let same : touch ≡ block_end b = omega arith in
    elim (Bool-cases (b.is_free && (c.is_free && touch == c.addr))) [
      | inl joined ↦
          let at : block_end b ≡ c.addr = ground arith in
          let size : (b.size + (block_header_size + c.size)) % 2 ^ 64
              ≡ b.size + (block_header_size + c.size) =
            omega arith in
          rw (joined, size)
            (merged (ground arith) (ground arith) at
              (coalesce_at-Merged (both b c) cs (both-Good b c cs at g)))
      | inr apart ↦ rw apart (kept (grind arith) (coalesce_at-Merged c cs (g.2)))
    ]

pub coalesce-Merged : (bs : List Block) → Good bs → Merged bs (coalesce bs)
unfolding coalesce
coalesce-Merged [] g = empty
coalesce-Merged (b ∷ bs) g = coalesce_at-Merged b bs g

Merged-AllApart :
    (x : Block) (bs out : List Block) → Merged bs out → Good bs → AllApart x bs → AllApart x out
Merged-AllApart x bs out empty g h = h
Merged-AllApart x bs out alone g h = h
Merged-AllApart x bs out (kept _ m) (w, a, g) (p, h) = (p, Merged-AllApart x _ _ m g h)
Merged-AllApart x bs out (merged {b = b} {c = c} {cs = cs} _ _ touch m) g (p, (q, h)) =
    Merged-AllApart x _ _ m (both-Good b c cs touch g) (grind arith, h)

pub Merged-Good : (bs out : List Block) → Merged bs out → Good bs → Good out
Merged-Good bs out empty g = g
Merged-Good bs out alone g = g
Merged-Good bs out (kept {b = b} _ m) (w, a, g) =
    (w, Merged-AllApart b _ _ m g a, Merged-Good _ _ m g)
Merged-Good bs out (merged {b = b} {c = c} {cs = cs} _ _ touch m) g =
    Merged-Good _ _ m (both-Good b c cs touch g)

pub Merged-Covers : (bs out : List Block) (a : ℕ) → Merged bs out → Covers out a → Covers bs a
Merged-Covers bs out a empty h = h
Merged-Covers bs out a alone h = h
Merged-Covers bs out a (kept _ m) (inl h) = inl h
Merged-Covers bs out a (kept _ m) (inr h) = inr (Merged-Covers _ _ a m h)
Merged-Covers bs out a (merged {b = b} {c = c} _ _ touch m) h = elim (Merged-Covers _ _ a m h) [
  | inl (lo, hi) ↦ elim (Bool-cases (ltb a c.addr)) [
    | inl first ↦ inl (lo, ground arith)
    | inr second ↦ inr (inl (ground arith, omega arith))
  ]
  | inr rest ↦ inr (inr rest)
]

-- Merging leaves the used blocks alone.
pub Merged-used_blocks : (bs out : List Block) → Merged bs out → used_blocks out ≡ used_blocks bs
Merged-used_blocks bs out empty = refl
Merged-used_blocks bs out alone = refl
Merged-used_blocks bs out (kept {b = b} _ m) = ap (unless b.is_free b) (Merged-used_blocks _ _ m)
Merged-used_blocks bs out (merged {b = b} {c = c} free free' touch m) =
    Merged-used_blocks _ _ m ∙ (rw (free, free') refl)
