-- ===== src/Virtq/FreeList.antt =====
-- The free list of pci/virtio/virtqueue.c: taking a descriptor off it, and putting a chain back.
use cortex_forge_aarch64_bar.Prelude.{
  ℕ, zero, suc, ◌+◌, ◌≡◌, ◌≢◌, ◌≤◌, ◌<◌, refl, sym, List, [], ◌∷◌, length, set, length-set,
  get_or-set_self, get_or-set_ne, leb, arith, true, false,
}
use cortex_forge_aarch64_bar.Virtq.{
  Desc, Virtqueue, virtq_no_desc, virtq_max_size, zero_desc, desc_at, has_next, push_free,
  free_rounds, virtqueue_free_chain,
}

abbrev pub NotIn : ℕ → List ℕ → Type 0
NotIn i [] = Unit
NotIn i (x ∷ l) = (i ≢ x) × NotIn i l

abbrev pub Distinct : List ℕ → Type 0
Distinct [] = Unit
Distinct (x ∷ l) = NotIn x l × Distinct l

-- The list that the `next` fields thread from `head`.
abbrev pub Threaded : List Desc → ℕ → List ℕ → Type 0
Threaded d head [] = head ≡ virtq_no_desc
Threaded d head (x ∷ l) = (head ≡ x) × ((x < length d) × Threaded d (desc_at d x).next l)

-- The queue's free descriptors are those of the list, each once, and `num_free` counts them.
pub record FreeOf (vq : Virtqueue) (l : List ℕ) : Type 0 where
  pub threaded : Threaded vq.desc vq.free_head l
  pub distinct : Distinct l
  pub counted : vq.num_free ≡ length l
  pub fits : length l ≤ vq.size
  pub table : length vq.desc ≡ vq.size
  pub bounded : vq.size ≤ virtq_max_size

-- A chain that is in flight: the links of the descriptors behind `x`.
abbrev pub Linked : List Desc → ℕ → List ℕ → Type 0
Linked d x [] = has_next (desc_at d x).flags ≡ false
Linked d x (y ∷ c) =
    (has_next (desc_at d x).flags ≡ true) × (((desc_at d x).next ≡ y) × Linked d y c)

-- The descriptors of a chain are of the table, distinct, and not of the list.
abbrev pub Apart : ℕ → List ℕ → List ℕ → Type 0
Apart size [] l = Unit
Apart size (y ∷ c) l = (y < size) × (NotIn y l × (NotIn y c × Apart size c l))

-- The list with the chain pushed on it, the last descriptor first.
abbrev pub pushed_on : List ℕ → List ℕ → List ℕ
pushed_on [] l = l
pushed_on (x ∷ c) l = pushed_on c (x ∷ l)

pub Threaded-set :
    (l : List ℕ) (d : List Desc) (head i : ℕ) (v : Desc)
    → NotIn i l
    → Threaded d head l
    → Threaded (set d i v) head l
Threaded-set [] d head i v out h = h
Threaded-set (x ∷ l) d head i v (ne, out) (e, (lt, h)) =
    let same : desc_at (set d i v) x ≡ desc_at d x = get_or-set_ne d i x v zero_desc ne in
    let len = length-set d i v in
    let rest = Threaded-set l d (desc_at d x).next i v out h in (e, (omega arith, rw same rest))

Linked-set :
    (c : List ℕ) (d : List Desc) (y x : ℕ) (v : Desc)
    → x ≢ y
    → NotIn x c
    → Linked d y c
    → Linked (set d x v) y c
Linked-set [] d y x v ne out h = rw (get_or-set_ne d x y v zero_desc ne) h
Linked-set (z ∷ c) d y x v ne (ne', out) (flag, (next, h)) =
    rw (get_or-set_ne d x y v zero_desc ne) (flag, (next, Linked-set c d z x v ne' out h))

Apart-push : (c l : List ℕ) (size x : ℕ) → NotIn x c → Apart size c l → Apart size c (x ∷ l)
Apart-push [] l size x out h = tt
Apart-push (y ∷ c) l size x (ne, out) (lt, (free, (single, h))) =
    (lt, ((((λ e. ne (sym e)), free)), (single, Apart-push c l size x out h)))

pub push_free-FreeOf :
    (vq : Virtqueue) (l : List ℕ) (x : ℕ)
    → FreeOf vq l
    → x < vq.size
    → NotIn x l
    → length l < vq.size
    → FreeOf (push_free vq x) (x ∷ l)
unfolding push_free
push_free-FreeOf vq l x ok lt out room =
    let v : Desc = record { addr = 0; len = 0; flags = 0; next = vq.free_head } in
    let table = ok.table in
    let bounded = ok.bounded in
    let counted = ok.counted in
    let len = length-set vq.desc x v in
    let here : desc_at (set vq.desc x v) x ≡ v =
      get_or-set_self vq.desc x v zero_desc (omega arith) in
    record {
      threaded =
          (refl, (omega arith, rw here (Threaded-set l vq.desc vq.free_head x v out ok.threaded)));
      distinct = (out, ok.distinct);
      counted = omega arith;
      fits = omega arith;
      table = omega arith;
      bounded = bounded;
    }

free_rounds-FreeOf :
    (c : List ℕ) (fuel : ℕ) (vq : Virtqueue) (l : List ℕ) (x : ℕ)
    → FreeOf vq l
    → Linked vq.desc x c
    → Apart vq.size (x ∷ c) l
    → length c < fuel
    → length l + length c < vq.size
    → FreeOf (free_rounds fuel vq x) (pushed_on (x ∷ c) l)
unfolding free_rounds
free_rounds-FreeOf c zero vq l x ok linked apart enough room = absurd (omega arith)
free_rounds-FreeOf [] (suc fuel) vq l x ok last (lt, (free, (single, apart))) enough room =
    let inside : leb vq.size x ≡ false = ground arith in
    rw (inside, last) (push_free-FreeOf vq l x ok lt free (omega arith))
free_rounds-FreeOf (y ∷ c) (suc fuel) vq l x ok (flag, (next, linked))
      (lt, (free, ((ne, single), apart))) enough room =
    let inside : leb vq.size x ≡ false = ground arith in
    let v : Desc = record { addr = 0; len = 0; flags = 0; next = vq.free_head } in
    let ih =
      free_rounds-FreeOf c fuel (push_free vq x) (x ∷ l) y
        (push_free-FreeOf vq l x ok lt free (omega arith))
        (unfold push_free in Linked-set c vq.desc y x v ne single linked)
        (unfold push_free in Apart-push (y ∷ c) l vq.size x (ne, single) apart) (omega arith)
        (unfold push_free in omega arith) in
    rw (inside, flag, next) ih

-- `virtqueue_free_chain` puts every descriptor of a chain in flight back on the free list, whatever
-- the order of completion, and loses and repeats none. The chain is apart from the free list.
pub virtqueue_free_chain-FreeOf :
    (vq : Virtqueue) (l : List ℕ) (x : ℕ) (c : List ℕ)
    → FreeOf vq l
    → Linked vq.desc x c
    → Apart vq.size (x ∷ c) l
    → length l + length c < vq.size
    → FreeOf (virtqueue_free_chain vq x) (pushed_on (x ∷ c) l)
unfolding virtqueue_free_chain
virtqueue_free_chain-FreeOf vq l x c ok linked apart room =
    free_rounds-FreeOf c (suc vq.size) vq l x ok linked apart (omega arith) room
