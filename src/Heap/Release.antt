-- ===== src/Heap/Release.antt =====
-- The block that `kfree` of mm/heap/heap.c frees.
use cortex_forge_aarch64_bar.Prelude.{
  ℕ, ◌+◌, ◌-◌, ◌%◌, ◌^◌, ◌≡◌, ◌⊎◌, inl, inr, refl, sym, ◌∙◌, ap, Bool, Bool-cases, true, false,
  List, [], ◌∷◌, map, ◌==◌, if◌then◌else◌, arith,
}
use mathlib.Core.Path.{subst}
use mathlib.Core.Bool.{false≢true}
use cortex_forge_aarch64_bar.Heap.{
  Block, Heap, Region, block_header_size, block_magic_alloc, free_one, coalesce, header_at,
  free_found, kfree, addr_in_any_region,
}
use cortex_forge_aarch64_bar.Heap.Blocks.{Well, AllApart, Good, Covers, unless, used_blocks}
use cortex_forge_aarch64_bar.Heap.Merge.{coalesce-Merged, Merged-used_blocks}

-- The blocks without those whose header is at `addr`.
abbrev pub drop_addr : ℕ → List Block → List Block
drop_addr addr [] = []
drop_addr addr (b ∷ bs) = if b.addr == addr then drop_addr addr bs else b ∷ drop_addr addr bs

abbrev pub freed_at : ℕ → List Block → List Block
freed_at addr bs = map (free_one addr) bs

free_one-place :
    (addr : ℕ) (b : Block) → ((free_one addr b).addr ≡ b.addr) × ((free_one addr b).size ≡ b.size)
free_one-place addr b = elim (Bool-cases (b.addr == addr)) [
  | inl same ↦ rw same (refl, refl)
  | inr other ↦ rw other (refl, refl)
]

free_one-Well : (addr : ℕ) (b : Block) → Well b → Well (free_one addr b)
free_one-Well addr b w = elim (Bool-cases (b.addr == addr)) [
  | inl same ↦ rw same (record {
    agrees = refl;
    addr_aligned = w.addr_aligned;
    size_aligned = w.size_aligned;
    no_wrap = w.no_wrap;
  })
  | inr other ↦ rw other w
]

free_one-AllApart :
    (addr : ℕ) (b : Block) (bs : List Block)
    → AllApart b bs
    → AllApart (free_one addr b) (freed_at addr bs)
free_one-AllApart addr b [] h = tt
free_one-AllApart addr b (c ∷ bs) (a, h) =
    let p = free_one-place addr b in
    let q = free_one-place addr c in (grind arith, free_one-AllApart addr b bs h)

pub free_one-Good : (addr : ℕ) (bs : List Block) → Good bs → Good (freed_at addr bs)
free_one-Good addr [] g = tt
free_one-Good addr (b ∷ bs) (w, a, g) =
    (free_one-Well addr b w, free_one-AllApart addr b bs a, free_one-Good addr bs g)

pub free_one-Covers :
    (addr : ℕ) (bs : List Block) (a : ℕ) → Covers (freed_at addr bs) a → Covers bs a
free_one-Covers addr [] a h = h
free_one-Covers addr (b ∷ bs) a (inl (lo, hi)) =
    let p = free_one-place addr b in inl (omega arith, omega arith)
free_one-Covers addr (b ∷ bs) a (inr h) = inr (free_one-Covers addr bs a h)

drop_addr-unless :
    (addr : ℕ) (free : Bool) (b : Block) (us : List Block)
    → (b.addr == addr) ≡ false
    → drop_addr addr (unless free b us) ≡ unless free b (drop_addr addr us)
drop_addr-unless addr true b us other = refl
drop_addr-unless addr false b us other = rw other refl

drop_addr-unless_same :
    (addr : ℕ) (free : Bool) (b : Block) (us : List Block)
    → (b.addr == addr) ≡ true
    → drop_addr addr (unless free b us) ≡ drop_addr addr us
drop_addr-unless_same addr true b us same = refl
drop_addr-unless_same addr false b us same = rw same refl

free_one-used_blocks :
    (addr : ℕ) (bs : List Block) → used_blocks (freed_at addr bs) ≡ drop_addr addr (used_blocks bs)
free_one-used_blocks addr [] = refl
free_one-used_blocks addr (b ∷ bs) = elim (Bool-cases (b.addr == addr)) [
  | inl same ↦ rw same (
      free_one-used_blocks addr bs
      ∙ sym (drop_addr-unless_same addr b.is_free b (used_blocks bs) same))
  | inr other ↦ rw other (
      ap (unless b.is_free b) (free_one-used_blocks addr bs)
      ∙ sym (drop_addr-unless addr b.is_free b (used_blocks bs) other))
]

-- No block is there.
abbrev NoneAt : ℕ → List Block → Type 0
NoneAt addr bs = drop_addr addr (used_blocks bs) ≡ used_blocks bs

AllApart-NoneAt :
    (addr : ℕ) (b : Block) (bs : List Block) → b.addr ≡ addr → AllApart b bs → NoneAt addr bs
AllApart-NoneAt addr b [] e h = refl
AllApart-NoneAt addr b (c ∷ bs) e (a, h) =
    let other : (c.addr == addr) ≡ false = grind arith in
    drop_addr-unless addr c.is_free c (used_blocks bs) other
    ∙ ap (unless c.is_free c) (AllApart-NoneAt addr b bs e h)

-- A header that kfree refuses.
abbrev Refused : ℕ × Bool → Type 0
Refused (magic, free) = ((magic == block_magic_alloc) ≡ false) ⊎ (free ≡ true)

header_at-same :
    (stray : ℕ → ℕ × Bool) (addr : ℕ) (b : Block) (bs : List Block)
    → (b.addr == addr) ≡ true
    → header_at stray addr (b ∷ bs) ≡ (b.magic, b.is_free)
unfolding header_at
header_at-same stray addr b bs same = rw same refl

header_at-other :
    (stray : ℕ → ℕ × Bool) (addr : ℕ) (b : Block) (bs : List Block)
    → (b.addr == addr) ≡ false
    → header_at stray addr (b ∷ bs) ≡ header_at stray addr bs
unfolding header_at
header_at-other stray addr b bs other = rw other refl

Refused-is_free : (b : Block) → Well b → Refused (b.magic, b.is_free) → b.is_free ≡ true
Refused-is_free b w (inr free) = free
Refused-is_free b w (inl wrong) =
    let m = w.agrees in elim (Bool-cases b.is_free) [ inl free ↦ free | inr used ↦ ground arith ]

header_at-NoneAt :
    (stray : ℕ → ℕ × Bool) (addr : ℕ) (bs : List Block)
    → Good bs
    → Refused (header_at stray addr bs)
    → NoneAt addr bs
header_at-NoneAt stray addr [] g h = refl
header_at-NoneAt stray addr (b ∷ bs) (w, a, g) h = elim (Bool-cases (b.addr == addr)) [
  | inl same ↦
      let free = Refused-is_free b w (subst Refused (header_at-same stray addr b bs same) h) in
      rw free (AllApart-NoneAt addr b bs (ground arith) a)
  | inr other ↦
      drop_addr-unless addr b.is_free b (used_blocks bs) other
      ∙ ap (unless b.is_free b) (
          header_at-NoneAt stray addr bs g
            (subst Refused (header_at-other stray addr b bs other) h))
]

-- Where the header of a payload stands.
abbrev pub header_addr : ℕ → ℕ
header_addr ptr = (ptr + (2 ^ 64 - block_header_size)) % 2 ^ 64

-- The blocks lie in the regions of the heap.
abbrev pub InRegions : List Region → List Block → Type 0
InRegions regions bs = (a : ℕ) → Covers bs a → addr_in_any_region regions a ≡ true

InRegions-NoneAt :
    (regions : List Region) (bs : List Block) (addr : ℕ)
    → InRegions regions bs
    → addr_in_any_region regions addr ≡ false
    → NoneAt addr bs
InRegions-NoneAt regions [] addr h out = refl
InRegions-NoneAt regions (b ∷ bs) addr h out = elim (Bool-cases (b.addr == addr)) [
  | inl same ↦
      let e : b.addr ≡ addr = ground arith in
      absurd (false≢true (sym out ∙ h addr (inl (omega arith, omega arith))))
  | inr other ↦
      drop_addr-unless addr b.is_free b (used_blocks bs) other
      ∙ ap (unless b.is_free b) (InRegions-NoneAt regions bs addr (λ a c. h a (inr c)) out)
]

-- No header is in the last 32 bytes of the address space.
Good-NoneAt : (bs : List Block) → Good bs → NoneAt (2 ^ 64 - block_header_size) bs
Good-NoneAt [] g = refl
Good-NoneAt (b ∷ bs) (w, a, g) =
    let n = w.no_wrap in
    let other : (b.addr == 2 ^ 64 - block_header_size) ≡ false = ground arith in
    drop_addr-unless (2 ^ 64 - block_header_size) b.is_free b (used_blocks bs) other
    ∙ ap (unless b.is_free b) (Good-NoneAt bs g)

free_found-used_blocks :
    (addr : ℕ) (h : Heap) (hd : ℕ × Bool)
    → Good h.blocks
    → (Refused hd → NoneAt addr h.blocks)
    → used_blocks (free_found addr h hd).blocks ≡ drop_addr addr (used_blocks h.blocks)
unfolding free_found
free_found-used_blocks addr h (magic, free) g out = elim (Bool-cases (magic == block_magic_alloc)) [
  | inr wrong ↦ rw wrong (sym (out (inl wrong)))
  | inl right ↦ elim (Bool-cases free) [
    | inl twice ↦ rw (right, twice) (sym (out (inr twice)))
    | inr used ↦
        rw (right, used)
          (Merged-used_blocks (freed_at addr h.blocks) (coalesce (freed_at addr h.blocks))
              (coalesce-Merged (freed_at addr h.blocks) (free_one-Good addr h.blocks g))
            ∙ free_one-used_blocks addr h.blocks)
  ]
]

-- kfree frees the used block whose payload begins at the pointer, and no other: the used blocks after
-- it are those before it without that block, when there is one, and the same ones when there is none,
-- for the null pointer, a block that is already free and a pointer to anything else, whatever the
-- memory in front of such a pointer holds.
pub kfree-used_blocks :
    (stray : ℕ → ℕ × Bool) (ptr : ℕ) (h : Heap)
    → Good h.blocks
    → InRegions h.regions h.blocks
    → used_blocks (kfree stray ptr h).blocks ≡ drop_addr (header_addr ptr) (used_blocks h.blocks)
unfolding kfree
kfree-used_blocks stray ptr h g inside = elim (Bool-cases (ptr == 0)) [
  | inl null ↦
      let e : header_addr ptr ≡ 2 ^ 64 - block_header_size = ground arith in
      rw (null, e) (sym (Good-NoneAt h.blocks g))
  | inr given ↦ elim (Bool-cases (addr_in_any_region h.regions (header_addr ptr))) [
    | inl known ↦
        rw (given, known)
          (free_found-used_blocks (header_addr ptr) h (header_at stray (header_addr ptr) h.blocks) g
            (header_at-NoneAt stray (header_addr ptr) h.blocks g))
    | inr unknown ↦
        rw (given, unknown)
          (sym (InRegions-NoneAt h.regions h.blocks (header_addr ptr) inside unknown))
  ]
]
