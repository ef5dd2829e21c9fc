-- ===== src/Uart/Tests.antt =====
-- Runs of the receive ring of UART1.
use cortex_forge_aarch64_bar.Prelude.{◌≡◌, refl, List, [], ◌∷◌, none, some}
use cortex_forge_aarch64_bar.Uart.{
  u1_static, uart1_init, receive, uart1_rx_isr, uart1_getc_nonblock, uart1_rx_available,
}
use cortex_forge_aarch64_bar.Uart.Refine.{
  Call, interrupt, getc, available, quiet, got, count, call, answers, queue_call,
  answers-uart1_init,
}

abbrev calls : List Call
calls = interrupt (65 ∷ 322 ∷ []) ∷ getc ∷ available ∷ interrupt (67 ∷ []) ∷ getc ∷ getc ∷ getc ∷ []

test_answers :
    answers call calls (uart1_init u1_static)
    ≡ (quiet ∷ got (some 65) ∷ count 1 ∷ quiet ∷ got (some 66) ∷ got (some 67) ∷ got none ∷ [])
unfolding uart1_init receive uart1_rx_isr uart1_getc_nonblock uart1_rx_available
test_answers = refl

answers-uart1_init_example : answers call calls (uart1_init u1_static) ≡ answers queue_call calls []
answers-uart1_init_example = answers-uart1_init calls
