-- ===== src/Virtq/Submit.antt =====
-- `virtqueue_submit` and `virtqueue_get_used` of pci/virtio/virtqueue.c.
use cortex_forge_aarch64_bar.Prelude.{
  ℕ, zero, suc, ◌+◌, ◌-◌, ◌%◌, ◌^◌, ◌≡◌, ◌≢◌, ◌<◌, refl, ◌∙◌, List, [], ◌∷◌, length, get_or, set,
  length-set, get_or-set_self, ◌==◌, ==_ne, leb, arith, Bool-cases, inl, inr, true, false, Option,
  some, none,
}
use mathlib.Core.Path.{subst}
use native.Mathlib.Nat.{mod-lt}
use cortex_forge_aarch64_bar.Virtq.{
  Desc, Virtqueue, virtq_no_desc, virtq_max_size, zero_desc, desc_at, has_next,
  virtqueue_alloc_desc, publish, submit_at, virtqueue_submit, push_free, free_rounds,
  virtqueue_free_chain, virtqueue_get_used,
}
use cortex_forge_aarch64_bar.Virtq.FreeList.{
  FreeOf, Threaded-set, Linked, virtqueue_free_chain-FreeOf,
}

abbrev pub buffer_desc : ℕ → ℕ → ℕ → Desc
buffer_desc buf_pa len flags = record {
  addr = buf_pa;
  len = len;
  flags = flags - flags % 2;
  next = 0;
}

-- The head of the free list holds the buffer, as a chain of one, and is the newest entry of the ring.
pub record Submitted (vq vq' : Virtqueue) (l : List ℕ) (d : Desc) (idx : ℕ) : Type 0 where
  pub rest : List ℕ
  pub was_free : l ≡ idx ∷ rest
  pub still_free : FreeOf vq' rest
  pub written : desc_at vq'.desc idx ≡ d
  pub single : Linked vq'.desc idx []
  pub newest : get_or vq'.avail_ring (vq.avail_idx % vq.size) 0 ≡ idx
  pub announced : vq'.avail_idx ≡ (vq.avail_idx + 1) % 2 ^ 16
  pub same_used : vq'.last_used ≡ vq.last_used
  pub same_size : vq'.size ≡ vq.size

abbrev pub SubmitOutcome : Virtqueue → List ℕ → Desc → Option ℕ × Virtqueue → Type 0
SubmitOutcome vq l d (none, vq') = (l ≡ []) × (vq' ≡ vq)
SubmitOutcome vq l d (some idx, vq') = Submitted vq vq' l d idx

-- The ring has its 128 entries.
abbrev pub RingOk : Virtqueue → Type 0
RingOk vq = length vq.avail_ring ≡ virtq_max_size

popped :
    (vq : Virtqueue) (x : ℕ) (l : List ℕ) (buf_pa len flags : ℕ)
    → FreeOf vq (x ∷ l)
    → RingOk vq
    → SubmitOutcome vq (x ∷ l) (buffer_desc buf_pa len flags) (virtqueue_submit vq buf_pa len flags)
unfolding virtqueue_submit virtqueue_alloc_desc submit_at publish
popped vq x l buf_pa len flags ok ring =
    let (head, (lt, threaded)) = ok.threaded in
    let (out, distinct) = ok.distinct in
    let table = ok.table in
    let bounded = ok.bounded in
    let counted = ok.counted in
    let fits = ok.fits in
    let d = buffer_desc buf_pa len flags in
    let some_left : (x == virtq_no_desc) ≡ false = ground arith in
    let size = length-set vq.desc x d in
    let slot : vq.avail_idx % vq.size < length vq.avail_ring =
      let below : vq.avail_idx % vq.size < vq.size = mod-lt vq.avail_idx (omega arith) in
      omega arith in
    let even : ((flags - flags % 2) % 2 == 1) ≡ false = ground arith in
    let here : desc_at (set vq.desc x d) x ≡ d = get_or-set_self vq.desc x d zero_desc lt in
    rw (head, some_left)
      (record {
        rest = l;
        was_free = refl;
        still_free = record {
          threaded = Threaded-set l vq.desc (desc_at vq.desc x).next x d out threaded;
          distinct = distinct;
          counted = omega arith;
          fits = omega arith;
          table = omega arith;
          bounded = bounded;
        };
        written = here;
        single = rw here even;
        newest = get_or-set_self vq.avail_ring (vq.avail_idx % vq.size) x 0 slot;
        announced = refl;
        same_used = refl;
        same_size = refl;
      })

-- `virtqueue_submit` takes the head of the free list for the buffer, without a NEXT flag, publishes
-- it in the next slot of the available ring, and keeps the rest of the free list; when the list is
-- empty it fails and changes nothing.
pub virtqueue_submit-SubmitOutcome :
    (vq : Virtqueue) (l : List ℕ) (buf_pa len flags : ℕ)
    → FreeOf vq l
    → RingOk vq
    → SubmitOutcome vq l (buffer_desc buf_pa len flags) (virtqueue_submit vq buf_pa len flags)
unfolding virtqueue_submit virtqueue_alloc_desc submit_at
virtqueue_submit-SubmitOutcome vq [] buf_pa len flags ok ring =
    let e : (vq.free_head == virtq_no_desc) ≡ true = let h = ok.threaded in ground arith in
    rw e (refl, refl)
virtqueue_submit-SubmitOutcome vq (x ∷ l) buf_pa len flags ok ring =
    popped vq x l buf_pa len flags ok ring

marked-FreeOf :
    (vq : Virtqueue) (l : List ℕ) (n : ℕ) → FreeOf vq l → FreeOf (record vq { last_used = n }) l
marked-FreeOf vq l n ok = record {
  threaded = ok.threaded;
  distinct = ok.distinct;
  counted = ok.counted;
  fits = ok.fits;
  table = ok.table;
  bounded = ok.bounded;
}

-- The device's completion is reported, and all of `l` is free again.
pub record Returned (vq' vq'' : Virtqueue) (l : List ℕ) (r o : Option (ℕ × ℕ)) : Type 0 where
  pub reported : r ≡ o
  pub free_again : FreeOf vq'' l
  pub consumed : vq''.last_used ≡ (vq'.last_used + 1) % 2 ^ 16

free_rounds-last_used :
    (fuel : ℕ) (vq : Virtqueue) (x : ℕ) → (free_rounds fuel vq x).last_used ≡ vq.last_used
unfolding free_rounds push_free
free_rounds-last_used zero vq x = refl
free_rounds-last_used (suc fuel) vq x =
    let d = desc_at vq.desc x in
    let ih = free_rounds-last_used fuel (push_free vq x) d.next in
    elim (Bool-cases (leb vq.size x)) [
      | inl far ↦ rw far refl
      | inr near ↦ elim (Bool-cases (has_next d.flags)) [
        | inl more ↦ rw (near, more) ih
        | inr last ↦ rw (near, last) refl
      ]
    ]

completed :
    (vq vq' : Virtqueue) (l : List ℕ) (d : Desc) (idx used_idx written : ℕ)
    → FreeOf vq l
    → Submitted vq vq' l d idx
    → used_idx ≢ vq.last_used
    → Returned vq'
        (virtqueue_get_used vq' used_idx idx written).1
        l
        (virtqueue_get_used vq' used_idx idx written).0
        (some (idx, written))
unfolding virtqueue_get_used virtqueue_free_chain
completed vq vq' l d idx used_idx written ok sub news =
    let ok1 : FreeOf vq (idx ∷ sub.rest) = subst (λ k. FreeOf vq k) sub.was_free ok in
    let (head, (lt, threaded)) = ok1.threaded in
    let (out, distinct) = ok1.distinct in
    let fits = ok1.fits in
    let table = ok1.table in
    let same_size = sub.same_size in
    let same_used = sub.same_used in
    let new : (used_idx == vq'.last_used) ≡ false = ==_ne _ _ (λ e. news (e ∙ same_used)) in
    let seen : Virtqueue = record vq' { last_used = (vq'.last_used + 1) % 2 ^ 16 } in
    let inside : leb vq'.size idx ≡ false = ground arith in
    rw (new, inside)
      (record {
        reported = refl;
        free_again = rw sub.was_free (
            virtqueue_free_chain-FreeOf seen sub.rest idx []
              (marked-FreeOf vq' sub.rest ((vq'.last_used + 1) % 2 ^ 16) sub.still_free) sub.single
              (omega arith, (out, (tt, tt))) (omega arith));
        consumed = free_rounds-last_used (suc vq'.size) seen idx;
      })

-- When the device has finished a buffer that `virtqueue_submit` accepted, `virtqueue_get_used`
-- reports it, consumes one used entry, and the free list is what it was before the submission.
pub virtqueue_get_used-virtqueue_submit :
    (vq vq' : Virtqueue) (l : List ℕ) (buf_pa len flags idx used_idx written : ℕ)
    → FreeOf vq l
    → RingOk vq
    → virtqueue_submit vq buf_pa len flags ≡ (some idx, vq')
    → used_idx ≢ vq.last_used
    → Returned vq'
        (virtqueue_get_used vq' used_idx idx written).1
        l
        (virtqueue_get_used vq' used_idx idx written).0
        (some (idx, written))
virtqueue_get_used-virtqueue_submit vq vq' l buf_pa len flags idx used_idx written ok ring e news =
    let d = buffer_desc buf_pa len flags in
    let sub : SubmitOutcome vq l d (some idx, vq') =
      subst (λ o. SubmitOutcome vq l d o) e
        (virtqueue_submit-SubmitOutcome vq l buf_pa len flags ok ring) in
    completed vq vq' l d idx used_idx written ok sub news
