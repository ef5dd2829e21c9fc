-- ===== src/Virtq.antt =====
-- pci/virtio/virtqueue.c: the descriptors of a virtio queue and their free list, which runs through
-- the `next` fields of the free descriptors. Addresses, lengths and flags are numbers; what the
-- device writes to its used ring is an argument. The set-up of the device's registers, the barriers
-- and the doorbell are not modelled.
pub mod FreeList
pub mod Submit
mod Tests
use cortex_forge_aarch64_bar.Prelude.{
  ℕ, zero, suc, ◌+◌, ◌-◌, ◌%◌, ◌^◌, Bool, true, false, List, [], ◌∷◌, Option, none, some, length,
  get_or, set, ltb, leb, ◌==◌, if◌then◌else◌,
}

-- `struct virtq_desc`
pub record Desc : Type 0 where
  pub addr : ℕ
  pub len : ℕ
  pub flags : ℕ
  pub next : ℕ

-- `struct virtqueue`, with the driver's half of the rings.
pub record Virtqueue : Type 0 where
  pub size : ℕ
  pub free_head : ℕ
  pub num_free : ℕ
  pub last_used : ℕ
  pub desc : List Desc
  pub avail_idx : ℕ
  pub avail_ring : List ℕ

abbrev pub virtq_no_desc : ℕ
virtq_no_desc = 0xffff

abbrev pub virtq_max_size : ℕ
virtq_max_size = 128

abbrev pub zero_desc : Desc
zero_desc = record { addr = 0; len = 0; flags = 0; next = 0 }

abbrev pub desc_at : List Desc → ℕ → Desc
desc_at d i = get_or d i zero_desc

-- `flags & VIRTQ_DESC_F_NEXT`
abbrev pub has_next : ℕ → Bool
has_next flags = flags % 2 == 1

-- The loop of `virtqueue_init_free_list`, from descriptor `i` on.
unfoldable pub link_from : ℕ → ℕ → List Desc → List Desc
link_from size i [] = []
link_from size i (d ∷ rest) =
    record d { next = if ltb (i + 1) size then i + 1 else virtq_no_desc }
    ∷ link_from size (i + 1) rest

unfoldable pub virtqueue_init_free_list : Virtqueue → Virtqueue
virtqueue_init_free_list vq = record vq {
  desc = link_from vq.size 0 vq.desc;
  free_head = if ltb 0 vq.size then 0 else virtq_no_desc;
  num_free = vq.size;
}

-- The descriptor, or `none` for VIRTQ_NO_DESC.
unfoldable pub virtqueue_alloc_desc : Virtqueue → Option ℕ × Virtqueue
virtqueue_alloc_desc vq = if vq.free_head == virtq_no_desc then (none, vq) else (
  some vq.free_head,
  record vq {
    free_head = (desc_at vq.desc vq.free_head).next;
    num_free = (vq.num_free + (2 ^ 16 - 1)) % 2 ^ 16;
  },
)

-- One round of `virtqueue_free_chain` for a descriptor of the table.
unfoldable pub push_free : Virtqueue → ℕ → Virtqueue
push_free vq idx = record vq {
  desc = set vq.desc idx (record { addr = 0; len = 0; flags = 0; next = vq.free_head });
  free_head = idx;
  num_free = (vq.num_free + 1) % 2 ^ 16;
}

-- Its loop, with fuel. A round clears the flags of its descriptor, so that a second visit ends the
-- loop: one round more than there are descriptors is enough.
unfoldable pub free_rounds : ℕ → Virtqueue → ℕ → Virtqueue
free_rounds zero vq idx = vq
free_rounds (suc fuel) vq idx =
    let d = desc_at vq.desc idx in
    let pushed = push_free vq idx in
    let rest = free_rounds fuel pushed d.next in
    if leb vq.size idx then vq else (if has_next d.flags then rest else pushed)

unfoldable pub virtqueue_free_chain : Virtqueue → ℕ → Virtqueue
virtqueue_free_chain vq head = free_rounds (suc vq.size) vq head

-- The part of `virtqueue_submit` that writes the descriptor and publishes it.
unfoldable pub publish : Virtqueue → ℕ → Desc → Virtqueue
publish vq idx d = record vq {
  desc = set vq.desc idx d;
  avail_ring = set vq.avail_ring (vq.avail_idx % vq.size) idx;
  avail_idx = (vq.avail_idx + 1) % 2 ^ 16;
}

-- `flags & ~VIRTQ_DESC_F_NEXT` is `flags - flags % 2`.
unfoldable pub submit_at : ℕ → ℕ → ℕ → Option ℕ × Virtqueue → Option ℕ × Virtqueue
submit_at buf_pa len flags (none, vq) = (none, vq)
submit_at buf_pa len flags (some idx, vq) = (
  some idx,
  publish vq idx (record { addr = buf_pa; len = len; flags = flags - flags % 2; next = 0 }),
)

unfoldable pub virtqueue_submit : Virtqueue → ℕ → ℕ → ℕ → Option ℕ × Virtqueue
virtqueue_submit vq buf_pa len flags = submit_at buf_pa len flags (virtqueue_alloc_desc vq)

-- `virtqueue_get_used`, with the device's index and the id and length that it wrote in the slot.
unfoldable pub virtqueue_get_used : Virtqueue → ℕ → ℕ → ℕ → Option (ℕ × ℕ) × Virtqueue
virtqueue_get_used vq used_idx id written =
    let seen = record vq { last_used = (vq.last_used + 1) % 2 ^ 16 } in
    if used_idx == vq.last_used
    then (none, vq)
    else if leb vq.size id
    then (none, seen)
    else (some (id, written), virtqueue_free_chain seen id)
