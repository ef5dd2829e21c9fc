-- ===== src/Uart/Refine.antt =====
-- The receive ring of lib/uart/uart.c against a bounded queue.
use cortex_forge_aarch64_bar.Prelude.{
  ℕ, ◌+◌, ◌%◌, ◌^◌, ◌≡◌, ◌≤◌, ◌<◌, refl, sym, ◌∙◌, ap, ap₂, List, [], ◌∷◌, ◌++◌, length,
  length-append, length-set, length-replicate, get_or, set, get_or-set_self, get_or-set_ne, Option,
  none, some, ◌==◌, ltb, if◌then◌else◌, Bool-cases, inl, inr, true, false, arith,
}
use cortex_forge_aarch64_bar.Uart.{
  RxRing, uart1_ring_sz, u1_static, uart1_init, receive, uart1_rx_isr, uart1_getc_nonblock,
  uart1_rx_available,
}

-- The queue that the ring stands for: it holds 255 bytes, and drops what comes when it is full.
abbrev pub put : ℕ → List ℕ → List ℕ
put w q = if ltb (length q) 255 then q ++ (w % 2 ^ 8 ∷ []) else q

abbrev pub put_all : List ℕ → List ℕ → List ℕ
put_all [] q = q
put_all (w ∷ ws) q = put_all ws (put w q)

abbrev pub get : List ℕ → Option ℕ × List ℕ
get [] = (none, [])
get (b ∷ q) = (some b, q)

-- What happens to the ring, and what the caller sees.
pub data Call : Type 0 where
  interrupt : List ℕ → Call
  getc : Call
  available : Call

pub data Answer : Type 0 where
  quiet : Answer
  got : Option ℕ → Answer
  count : ℕ → Answer

abbrev pub call : Call → RxRing → Answer × RxRing
call (interrupt ws) s = (quiet, uart1_rx_isr ws s)
call getc s = (got (uart1_getc_nonblock s).0, (uart1_getc_nonblock s).1)
call available s = (count (uart1_rx_available s), s)

abbrev pub queue_call : Call → List ℕ → Answer × List ℕ
queue_call (interrupt ws) q = (quiet, put_all ws q)
queue_call getc q = (got (get q).0, (get q).1)
queue_call available q = (count (length q), q)

abbrev pub answers {ℓ} : {S : Type ℓ} → (Call → S → Answer × S) → List Call → S → List Answer
answers step [] s = []
answers step (c ∷ cs) s = (step c s).0 ∷ answers step cs (step c s).1

-- The bytes of the queue stand in the ring from `t` on.
abbrev Holds : List ℕ → ℕ → List ℕ → Type 0
Holds ring t [] = Unit
Holds ring t (b ∷ q) = (get_or ring t 0 ≡ b) × Holds ring ((t + 1) % uart1_ring_sz) q

record Represents (s : RxRing) (q : List ℕ) : Type 0 where
  size : length s.u1_ring ≡ uart1_ring_sz
  tail : s.u1_tail < uart1_ring_sz
  head : s.u1_head ≡ (s.u1_tail + length q) % uart1_ring_sz
  room : length q ≤ 255
  content : Holds s.u1_ring s.u1_tail q

Holds-set :
    (ring q : List ℕ) (t i v : ℕ)
    → t < uart1_ring_sz
    → length q ≤ 255
    → i ≡ (t + length q) % uart1_ring_sz
    → Holds ring t q
    → Holds (set ring i v) t q
Holds-set ring [] t i v lt room e h = tt
Holds-set ring (b ∷ q) t i v lt room e (at, h) = (
  get_or-set_ne ring i t v 0 (λ same. omega arith) ∙ at,
  Holds-set ring q ((t + 1) % uart1_ring_sz) i v (omega arith) (omega arith) (omega arith) h,
)

Holds-append :
    (ring q : List ℕ) (t i v : ℕ)
    → t < uart1_ring_sz
    → i ≡ (t + length q) % uart1_ring_sz
    → get_or ring i 0 ≡ v
    → Holds ring t q
    → Holds ring t (q ++ (v ∷ []))
Holds-append ring [] t i v lt e at h =
    let same : i ≡ t = omega arith in (ap (λ j. get_or ring j 0) (sym same) ∙ at, tt)
Holds-append ring (b ∷ q) t i v lt e at (first, h) =
    (first, Holds-append ring q ((t + 1) % uart1_ring_sz) i v (omega arith) (omega arith) at h)

receive-Represents :
    (w : ℕ) (s : RxRing) (q : List ℕ) → Represents s q → Represents (receive w s) (put w q)
unfolding receive
receive-Represents w s q h =
    let head = h.head in
    let tail = h.tail in
    let room = h.room in
    let size = h.size in
    let b = w % 2 ^ 8 in
    elim (Bool-cases (ltb (length q) 255)) [
      | inl free ↦
          let e : ((s.u1_head + 1) % 2 ^ 32 % uart1_ring_sz == s.u1_tail) ≡ false = ground arith in
          rw (e, free)
            (record {
              size = length-set s.u1_ring s.u1_head b ∙ size;
              tail = tail;
              head = omega (arith, length-append q (b ∷ []));
              room =
                  (let lt : length q < 255 = ground arith in
                    omega (arith, length-append q (b ∷ [])));
              content =
                  Holds-append (set s.u1_ring s.u1_head b) q s.u1_tail s.u1_head b tail head
                    (get_or-set_self s.u1_ring s.u1_head b 0 (omega arith))
                    (Holds-set s.u1_ring q s.u1_tail s.u1_head b tail room head h.content);
            })
      | inr full ↦
          let e : ((s.u1_head + 1) % 2 ^ 32 % uart1_ring_sz == s.u1_tail) ≡ true = ground arith in
          rw (e, full) h
    ]

uart1_rx_isr-Represents :
    (ws : List ℕ) (s : RxRing) (q : List ℕ)
    → Represents s q
    → Represents (uart1_rx_isr ws s) (put_all ws q)
unfolding uart1_rx_isr
uart1_rx_isr-Represents [] s q h = h
uart1_rx_isr-Represents (w ∷ ws) s q h =
    uart1_rx_isr-Represents ws (receive w s) (put w q) (receive-Represents w s q h)

-- A call of both gives the same answer, and the ring still represents the queue.
abbrev Simulates : Answer × RxRing → Answer × List ℕ → Type 0
Simulates (a, s) (a', q) = (a ≡ a') × Represents s q

uart1_getc_nonblock-Simulates :
    (s : RxRing) (q : List ℕ) → Represents s q → Simulates (call getc s) (queue_call getc q)
unfolding uart1_getc_nonblock
uart1_getc_nonblock-Simulates s [] h =
    let head = h.head in
    let tail = h.tail in let e : (s.u1_tail == s.u1_head) ≡ true = ground arith in rw e (refl, h)
uart1_getc_nonblock-Simulates s (b ∷ q) h =
    let head = h.head in
    let tail = h.tail in
    let room = h.room in
    let e : (s.u1_tail == s.u1_head) ≡ false = ground arith in
    let narrow : (s.u1_tail + 1) % 2 ^ 32 % uart1_ring_sz ≡ (s.u1_tail + 1) % uart1_ring_sz =
      omega arith in
    rw e (
      ap (λ x. got (some x)) h.content.0,
      record {
        size = h.size;
        tail = omega arith;
        head = omega arith;
        room = omega arith;
        content = rw narrow h.content.1;
      },
    )

uart1_rx_available_lem :
    (s : RxRing) (q : List ℕ) → Represents s q → uart1_rx_available s ≡ length q
unfolding uart1_rx_available
uart1_rx_available_lem s q h =
    let head = h.head in let tail = h.tail in let room = h.room in omega arith

call-Simulates :
    (c : Call) (s : RxRing) (q : List ℕ) → Represents s q → Simulates (call c s) (queue_call c q)
call-Simulates (interrupt ws) s q h = (refl, uart1_rx_isr-Represents ws s q h)
call-Simulates getc s q h = uart1_getc_nonblock-Simulates s q h
call-Simulates available s q h = (ap count (uart1_rx_available_lem s q h), h)

answers-Represents :
    (cs : List Call) (s : RxRing) (q : List ℕ)
    → Represents s q
    → answers call cs s ≡ answers queue_call cs q
answers-Represents [] s q h = refl
answers-Represents (c ∷ cs) s q h =
    let (same, after) = call-Simulates c s q h in
    ap₂ (λ a l. a ∷ l) same (answers-Represents cs (call c s).1 (queue_call c q).1 after)

-- Every sequence of receive interrupts, reads and counts after `uart1_init` gives the answers that a
-- queue of at most 255 bytes gives, which drops the bytes that come when it is full: bytes are read
-- once each, in the order in which they came, and the count is the length of the queue.
pub answers-uart1_init :
    (cs : List Call) → answers call cs (uart1_init u1_static) ≡ answers queue_call cs []
unfolding uart1_init
answers-uart1_init cs = answers-Represents cs (uart1_init u1_static) [] (record {
  size = length-replicate {A = ℕ} uart1_ring_sz 0;
  tail = omega arith;
  head = refl;
  room = omega arith;
  content = tt;
})
