-- ===== src/Heap/Blocks.antt =====
-- What a good list of blocks of mm/heap/heap.c is.
use cortex_forge_aarch64_bar.Prelude.{
  ℕ, ◌+◌, ◌%◌, ◌^◌, ◌≡◌, ◌≤◌, ◌<◌, ◌⊎◌, inl, inr, Bool, true, false, List, [], ◌∷◌, ◌++◌,
  if◌then◌else◌, arith,
}
use native.Mathlib.Decide.{dec_lt}
use cortex_forge_aarch64_bar.Heap.{Block, block_header_size, block_magic_alloc, block_magic_free}

-- The address behind the payload.
abbrev pub block_end : Block → ℕ
block_end b = b.addr + block_header_size + b.size

pub record Well (b : Block) : Type 0 where
  pub agrees : b.magic ≡ (if b.is_free then block_magic_free else block_magic_alloc)
  pub addr_aligned : b.addr % 16 ≡ 0
  pub size_aligned : b.size % 16 ≡ 0
  pub no_wrap : block_end b < 2 ^ 64

-- Two blocks have no byte in common, headers included.
abbrev pub Apart : Block → Block → Type 0
Apart b c = (block_end b ≤ c.addr) ⊎ (block_end c ≤ b.addr)

abbrev pub AllApart : Block → List Block → Type 0
AllApart b [] = Unit
AllApart b (c ∷ cs) = Apart b c × AllApart b cs

-- Good blocks, each of them apart from the others.
abbrev pub Good : List Block → Type 0
Good [] = Unit
Good (b ∷ bs) = Well b × AllApart b bs × Good bs

-- A byte of one of the blocks.
abbrev pub Covers : List Block → ℕ → Type 0
Covers [] a = ⊥
Covers (b ∷ bs) a = ((b.addr ≤ a) × (a < block_end b)) ⊎ Covers bs a

abbrev pub unless : Bool → Block → List Block → List Block
unless true b bs = bs
unless false b bs = b ∷ bs

abbrev pub used_blocks : List Block → List Block
used_blocks [] = []
used_blocks (b ∷ bs) = unless b.is_free b (used_blocks bs)

pub AllApart-inside :
    (b s : Block) (cs : List Block)
    → b.addr ≤ s.addr
    → block_end s ≤ block_end b
    → AllApart b cs
    → AllApart s cs
AllApart-inside b s [] lo hi h = tt
AllApart-inside b s (c ∷ cs) lo hi (a, h) = (grind arith, AllApart-inside b s cs lo hi h)

-- A block over two that touch.
pub AllApart-union :
    (b c u : Block) (ds : List Block)
    → block_end b ≡ c.addr
    → u.addr ≡ b.addr
    → block_end u ≡ block_end c
    → AllApart b ds
    → AllApart c ds
    → AllApart u ds
AllApart-union b c u [] touch lo hi h h' = tt
AllApart-union b c u (d ∷ ds) touch lo hi (a, h) (a', h') =
    (grind arith, AllApart-union b c u ds touch lo hi h h')

AllApart-append :
    (c : Block) (bs : List Block) (b : Block)
    → AllApart c bs
    → Apart c b
    → AllApart c (bs ++ (b ∷ []))
AllApart-append c [] b h a = (a, tt)
AllApart-append c (d ∷ bs) b (x, h) a = (x, AllApart-append c bs b h a)

-- Blocks with no common byte are one behind the other.
Apart-common :
    (c b : Block)
    → ((a : ℕ) → (c.addr ≤ a) × (a < block_end c) → (b.addr ≤ a) × (a < block_end b) → ⊥)
    → Apart c b
Apart-common c b no_common = elim (dec_lt c.addr b.addr) [
  | yes before ↦ elim (dec_lt b.addr (block_end c)) [
    | yes inside ↦ absurd (no_common b.addr (omega arith, inside) (omega arith, omega arith))
    | no behind ↦ inl (omega arith)
  ]
  | no after ↦ elim (dec_lt c.addr (block_end b)) [
    | yes inside ↦ absurd (no_common c.addr (omega arith, omega arith) (omega arith, inside))
    | no behind ↦ inr (omega arith)
  ]
]

pub Good-append :
    (bs : List Block) (b : Block)
    → Good bs
    → Well b
    → ((a : ℕ) → Covers bs a → (b.addr ≤ a) × (a < block_end b) → ⊥)
    → Good (bs ++ (b ∷ []))
Good-append [] b h w new = (w, tt, tt)
Good-append (c ∷ bs) b (wc, ac, h) w new = (
  wc,
  AllApart-append c bs b ac (Apart-common c b (λ a x y. new a (inl x) y)),
  Good-append bs b h w (λ a x y. new a (inr x) y),
)

pub Covers-append :
    (bs : List Block) (b : Block) (a : ℕ)
    → Covers (bs ++ (b ∷ [])) a
    → Covers bs a ⊎ ((b.addr ≤ a) × (a < block_end b))
Covers-append [] b a (inl h) = inr h
Covers-append [] b a (inr h) = elim h [ ]
Covers-append (c ∷ bs) b a (inl h) = inl (inl h)
Covers-append (c ∷ bs) b a (inr h) = elim (Covers-append bs b a h) [
  | inl x ↦ inl (inr x)
  | inr y ↦ inr y
]
