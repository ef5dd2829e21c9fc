-- ===== src/Heap/Free.antt =====
-- What `kfree` of mm/heap/heap.c keeps.
use cortex_forge_aarch64_bar.Prelude.{ℕ, ◌≡◌, inl, inr, refl, Bool, Bool-cases, List, ◌==◌}
use cortex_forge_aarch64_bar.Heap.{
  Block, Heap, block_magic_alloc, coalesce, header_at, free_found, kfree, addr_in_any_region,
}
use cortex_forge_aarch64_bar.Heap.Blocks.{Good, Covers}
use cortex_forge_aarch64_bar.Heap.Merge.{coalesce-Merged, Merged-Good, Merged-Covers}
use cortex_forge_aarch64_bar.Heap.Release.{freed_at, free_one-Good, free_one-Covers, header_addr}
use cortex_forge_aarch64_bar.Heap.Pages.{HeapOk}

-- The blocks after kfree are good, and have no byte that was in none before.
pub record Shrunk (before after : List Block) : Type 0 where
  pub good : Good after
  pub covers : (a : ℕ) → Covers after a → Covers before a

free_found-Shrunk :
    (addr : ℕ) (h : Heap) (hd : ℕ × Bool)
    → Good h.blocks
    → Shrunk h.blocks (free_found addr h hd).blocks
unfolding free_found
free_found-Shrunk addr h (magic, free) g =
    let same : Shrunk h.blocks h.blocks = record { good = g; covers = λ a c. c } in
    let fs = freed_at addr h.blocks in
    let good = free_one-Good addr h.blocks g in
    let m = coalesce-Merged fs good in
    elim (Bool-cases (magic == block_magic_alloc)) [
      | inr wrong ↦ rw wrong same
      | inl right ↦ elim (Bool-cases free) [
        | inl twice ↦ rw (right, twice) same
        | inr used ↦
            rw (right, used)
              (record {
                good = Merged-Good fs (coalesce fs) m good;
                covers =
                    λ a c. free_one-Covers addr h.blocks a (Merged-Covers fs (coalesce fs) a m c);
              })
      ]
    ]

pub kfree-Shrunk :
    (stray : ℕ → ℕ × Bool) (ptr : ℕ) (h : Heap)
    → Good h.blocks
    → Shrunk h.blocks (kfree stray ptr h).blocks
unfolding kfree
kfree-Shrunk stray ptr h g =
    let same : Shrunk h.blocks h.blocks = record { good = g; covers = λ a c. c } in
    elim (Bool-cases (ptr == 0)) [
      | inl null ↦ rw null same
      | inr given ↦ elim (Bool-cases (addr_in_any_region h.regions (header_addr ptr))) [
        | inl known ↦
            rw (given, known)
              (free_found-Shrunk (header_addr ptr) h (header_at stray (header_addr ptr) h.blocks) g)
        | inr unknown ↦ rw (given, unknown) same
      ]
    ]

free_found-rest :
    (addr : ℕ) (h : Heap) (hd : ℕ × Bool)
    → ((free_found addr h hd).pmm ≡ h.pmm) × ((free_found addr h hd).regions ≡ h.regions)
unfolding free_found
free_found-rest addr h (magic, free) = elim (Bool-cases (magic == block_magic_alloc)) [
  | inr wrong ↦ rw wrong (refl, refl)
  | inl right ↦ elim (Bool-cases free) [
    | inl twice ↦ rw (right, twice) (refl, refl)
    | inr used ↦ rw (right, used) (refl, refl)
  ]
]

kfree-rest :
    (stray : ℕ → ℕ × Bool) (ptr : ℕ) (h : Heap)
    → ((kfree stray ptr h).pmm ≡ h.pmm) × ((kfree stray ptr h).regions ≡ h.regions)
unfolding kfree
kfree-rest stray ptr h = elim (Bool-cases (ptr == 0)) [
  | inl null ↦ rw null (refl, refl)
  | inr given ↦ elim (Bool-cases (addr_in_any_region h.regions (header_addr ptr))) [
    | inl known ↦
        rw (given, known)
          (free_found-rest (header_addr ptr) h (header_at stray (header_addr ptr) h.blocks))
    | inr unknown ↦ rw (given, unknown) (refl, refl)
  ]
]

pub kfree-HeapOk :
    (stray : ℕ → ℕ × Bool) (ptr : ℕ) (h : Heap) → HeapOk h → HeapOk (kfree stray ptr h)
kfree-HeapOk stray ptr h ok =
    let (pages, table) = kfree-rest stray ptr h in
    let s = kfree-Shrunk stray ptr h ok.good in
    record {
      valid = rw pages ok.valid;
      low = rw pages ok.low;
      good = s.good;
      inside = λ a c. rw table (ok.inside a (s.covers a c));
      backed = λ a c. rw pages (ok.backed a (s.covers a c));
    }
