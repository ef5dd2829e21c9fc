-- ===== src/Virtq/Tests.antt =====
-- Runs and witnesses for pci/virtio/virtqueue.c: a queue of three descriptors.
use cortex_forge_aarch64_bar.Prelude.{
  ℕ, ◌≡◌, ◌≢◌, refl, [], ◌∷◌, some, replicate, arith, length-replicate,
}
use cortex_forge_aarch64_bar.Virtq.{
  Virtqueue, zero_desc, link_from, virtqueue_init_free_list, virtqueue_alloc_desc,
  virtqueue_free_chain, publish, submit_at, virtqueue_submit, virtqueue_get_used,
}
use cortex_forge_aarch64_bar.Virtq.FreeList.{FreeOf, virtqueue_free_chain-FreeOf}
use cortex_forge_aarch64_bar.Virtq.Submit.{
  SubmitOutcome, RingOk, Returned, buffer_desc, virtqueue_submit-SubmitOutcome,
  virtqueue_get_used-virtqueue_submit,
}

abbrev three : Virtqueue
three = virtqueue_init_free_list (record {
  size = 3;
  free_head = 0;
  num_free = 0;
  last_used = 0;
  desc = zero_desc ∷ zero_desc ∷ zero_desc ∷ [];
  avail_idx = 0;
  avail_ring = replicate 128 0;
})

abbrev one_out : Virtqueue
one_out = (virtqueue_submit three 0x4000 512 2).1

three-FreeOf : FreeOf three (0 ∷ 1 ∷ 2 ∷ [])
unfolding virtqueue_init_free_list link_from
three-FreeOf = record {
  threaded = (refl, (omega arith, (refl, (omega arith, (refl, (omega arith, refl))))));
  distinct = (((λ e. omega arith), ((λ e. omega arith), tt)), (((λ e. omega arith), tt), (tt, tt)));
  counted = refl;
  fits = omega arith;
  table = refl;
  bounded = omega arith;
}

three-RingOk : RingOk three
unfolding virtqueue_init_free_list
three-RingOk = let z : ℕ = 0 in length-replicate 128 z

takes_first : virtqueue_submit three 0x4000 512 2 ≡ (some 0, one_out)
unfolding virtqueue_submit virtqueue_alloc_desc submit_at publish virtqueue_init_free_list link_from
takes_first = refl

not_seen : 1 ≢ three.last_used
unfolding virtqueue_init_free_list
not_seen e = absurd (omega arith)

-- A chain of descriptors 2 and 0 in flight, with descriptor 1 free.
abbrev in_flight : Virtqueue
in_flight = record {
  size = 3;
  free_head = 1;
  num_free = 1;
  last_used = 0;
  desc =
      record { addr = 9; len = 4; flags = 2; next = 0 }
      ∷ record { addr = 0; len = 0; flags = 0; next = 0xffff }
      ∷ record { addr = 8; len = 4; flags = 1; next = 0 }
      ∷ [];
  avail_idx = 1;
  avail_ring = replicate 128 0;
}

one_free : FreeOf in_flight (1 ∷ [])
one_free = record {
  threaded = (refl, (omega arith, refl));
  distinct = (tt, tt);
  counted = refl;
  fits = omega arith;
  table = refl;
  bounded = omega arith;
}

virtqueue_free_chain-FreeOf_example : FreeOf (virtqueue_free_chain in_flight 2) (0 ∷ 2 ∷ 1 ∷ [])
virtqueue_free_chain-FreeOf_example =
    virtqueue_free_chain-FreeOf in_flight (1 ∷ []) 2 (0 ∷ []) one_free (refl, (refl, refl))
      (
        omega arith,
        (
          ((λ e. omega arith), tt),
          (((λ e. omega arith), tt), (omega arith, (((λ e. omega arith), tt), (tt, tt)))),
        ),
      )
      (omega arith)

virtqueue_submit-SubmitOutcome_example :
    SubmitOutcome three
      (0 ∷ 1 ∷ 2 ∷ [])
      (buffer_desc 0x4000 512 2)
      (virtqueue_submit three 0x4000 512 2)
virtqueue_submit-SubmitOutcome_example =
    virtqueue_submit-SubmitOutcome three (0 ∷ 1 ∷ 2 ∷ []) 0x4000 512 2 three-FreeOf three-RingOk

virtqueue_get_used-virtqueue_submit_example :
    Returned one_out
      (virtqueue_get_used one_out 1 0 512).1
      (0 ∷ 1 ∷ 2 ∷ [])
      (virtqueue_get_used one_out 1 0 512).0
      (some (0, 512))
virtqueue_get_used-virtqueue_submit_example =
    virtqueue_get_used-virtqueue_submit three one_out (0 ∷ 1 ∷ 2 ∷ []) 0x4000 512 2 0 1 512
      three-FreeOf three-RingOk takes_first not_seen
