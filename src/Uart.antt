-- ===== src/Uart.antt =====
-- lib/uart/uart.c: the receive ring of UART1, which the interrupt handler fills and the framing layer
-- reads. The registers of the device are not modelled: the handler is given the words that the
-- data register returns while the receive FIFO is not empty. Interrupts are masked in the reader, so
-- each operation is one step.
pub mod Refine
mod Tests
use cortex_forge_aarch64_bar.Prelude.{
  ℕ, ◌+◌, ◌-◌, ◌%◌, ◌^◌, List, [], ◌∷◌, replicate, get_or, set, Option, none, some, ◌==◌,
  if◌then◌else◌,
}

abbrev pub uart1_ring_sz : ℕ
uart1_ring_sz = 256

pub record RxRing : Type 0 where
  pub u1_ring : List ℕ
  pub u1_head : ℕ
  pub u1_tail : ℕ

-- The ring as the program starts with it: static data is zero.
abbrev pub u1_static : RxRing
u1_static = record { u1_ring = replicate uart1_ring_sz 0; u1_head = 0; u1_tail = 0 }

-- The writes of `uart1_init` to the ring.
unfoldable pub uart1_init : RxRing → RxRing
uart1_init s = record s { u1_head = 0; u1_tail = 0 }

-- The body of the loop of `uart1_rx_isr`, for a word from the data register.
unfoldable pub receive : ℕ → RxRing → RxRing
receive word s =
    let b = word % 2 ^ 8 in
    let next = (s.u1_head + 1) % 2 ^ 32 % uart1_ring_sz in
    if next == s.u1_tail
    then s
    else record s { u1_ring = set s.u1_ring s.u1_head b; u1_head = next }

unfoldable pub uart1_rx_isr : List ℕ → RxRing → RxRing
uart1_rx_isr [] s = s
uart1_rx_isr (w ∷ ws) s = uart1_rx_isr ws (receive w s)

-- The byte, or `none` for -1.
unfoldable pub uart1_getc_nonblock : RxRing → Option ℕ × RxRing
uart1_getc_nonblock s = if s.u1_tail == s.u1_head then (none, s) else (
  some (get_or s.u1_ring s.u1_tail 0),
  record s { u1_tail = (s.u1_tail + 1) % 2 ^ 32 % uart1_ring_sz },
)

unfoldable pub uart1_rx_available : RxRing → ℕ
uart1_rx_available s = (s.u1_head + (2 ^ 32 - s.u1_tail)) % 2 ^ 32 % uart1_ring_sz
