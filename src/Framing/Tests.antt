-- ===== src/Framing/Tests.antt =====
-- Runs and witnesses for lib/uart/framing.c.
use cortex_forge_aarch64_bar.Prelude.{
  ℕ, ◌≢◌, ◌≡◌, true, false, refl, arith, List, [], ◌∷◌, ◌++◌, none, some, if◌then◌else◌, ◌==◌,
}
use cortex_forge_aarch64_bar.Framing.{
  crc_bit, crc_bits, crc_byte, crc_from, crc16_ccitt, stuff, body_of, framing_encode, decoded,
  crc_mismatch, framing_decode, type_data,
}
use cortex_forge_aarch64_bar.Framing.Link.{
  Link, framing_recv, framing_send, framing_send_reliable, received, sync_start, attempts_from,
  attempt_send, put_on_wire, recv_bytes, read_logical, after_sync, have_type, finish, read_bytes,
  count_received, is_ack, out_of_fuel, add32,
}
use cortex_forge_aarch64_bar.Framing.RoundTrip.{frame_bytes, crc_of, framing_decode-framing_encode}
use cortex_forge_aarch64_bar.Framing.Wire.{WireOutcome, framing_encode-WireOutcome}
use cortex_forge_aarch64_bar.Framing.Detect.{wire_before, wire_behind, framing_decode-corrupted}
use cortex_forge_aarch64_bar.Framing.Receive.{framing_recv-frame}
use cortex_forge_aarch64_bar.Framing.Ends.{framing_recv-ends}
use cortex_forge_aarch64_bar.Framing.Reliable.{Delivery, framing_send_reliable-Delivery}

-- The published check value of CRC-16/CCITT-FALSE, of the digits 1 to 9.
crc_check : crc16_ccitt (0x31 ∷ 0x32 ∷ 0x33 ∷ 0x34 ∷ 0x35 ∷ 0x36 ∷ 0x37 ∷ 0x38 ∷ 0x39 ∷ []) ≡ 0x29b1
unfolding crc16_ccitt crc_from crc_byte crc_bits crc_bit
crc_check = refl

abbrev three_bytes : List ℕ
three_bytes = 7 ∷ 0xaa ∷ 0 ∷ []

abbrev quiet_line : Link
quiet_line = record {
  stats = record { frames_sent = 0; frames_recv = 0; retransmits = 0; crc_errors = 0 };
  rx = [];
  tx = [];
}

-- The line holds noise, a frame and another byte.
abbrev busy_line : Link
busy_line = record quiet_line {
  rx = (1 ∷ 2 ∷ []) ++ (frame_bytes type_data 5 3 three_bytes ++ 9 ∷ []);
}

-- A delimiter that noise left directly before a frame takes the frame's delimiter for a type, and the
-- frame is lost.
stray_start : sync_start (0xaa ∷ 0xaa ∷ 1 ∷ 5 ∷ 0 ∷ 0 ∷ []) ≡ none
unfolding sync_start
stray_start = refl

framing_decode-framing_encode_example :
    (bytes : List ℕ) × (framing_encode 1 5 three_bytes 3 ≡ some bytes)
    × (framing_decode bytes
        ≡ decoded (record { type = 1; seq = 5; len = 3; payload = three_bytes }))
framing_decode-framing_encode_example =
    framing_decode-framing_encode 1 5 3 three_bytes (omega arith, refl)

framing_encode-WireOutcome_example : WireOutcome 3 (framing_encode 1 5 three_bytes 3)
framing_encode-WireOutcome_example = framing_encode-WireOutcome 1 5 3 three_bytes

-- The first byte of the payload changes from 7 to 8.
framing_decode-corrupted_example :
    (framing_encode 1 5 three_bytes 3
      ≡ some (wire_before 1 5 3 [] ++ 7 ∷ wire_behind (crc_of 1 5 3 three_bytes) (0xaa ∷ 0 ∷ [])))
    × (framing_decode
          (wire_before 1 5 3 [] ++ 8 ∷ wire_behind (crc_of 1 5 3 three_bytes) (0xaa ∷ 0 ∷ []))
        ≡ crc_mismatch (record { type = 1; seq = 5; len = 3; payload = 8 ∷ 0xaa ∷ 0 ∷ [] }))
framing_decode-corrupted_example =
    framing_decode-corrupted 1 5 3 [] (0xaa ∷ 0 ∷ []) 7 8 (omega arith, refl) (omega arith)
      (omega arith) (λ e. omega arith) (λ e. omega arith) (λ e. omega arith)

framing_recv-frame_example : framing_recv busy_line ≡ (
  received (record { type = 1; seq = 5; len = 3; payload = three_bytes }),
  record busy_line { stats = record (busy_line.stats) { frames_recv = add32 0 1 }; rx = 9 ∷ [] },
)
framing_recv-frame_example =
    framing_recv-frame busy_line (1 ∷ 2 ∷ []) (9 ∷ []) 1 5 3 three_bytes
      ((λ e. omega arith), ((λ e. omega arith), tt)) refl (omega arith, refl) refl

framing_recv-ends_example : (framing_recv busy_line).0 ≢ out_of_fuel
framing_recv-ends_example = framing_recv-ends busy_line

-- The acknowledgement comes while the second attempt waits.
abbrev late_ack : ℕ → List ℕ
late_ack i = if i == 1 then frame_bytes 2 5 0 [] else []

late_ack_runs :
    ((framing_send_reliable quiet_line 5 three_bytes 3 late_ack).0 ≡ true)
    × ((framing_send_reliable quiet_line 5 three_bytes 3 late_ack).1.stats.retransmits ≡ 1)
    × ((framing_send_reliable quiet_line 5 three_bytes 3 (λ i. [])).0 ≡ false)
unfolding framing_send_reliable attempts_from attempt_send framing_send put_on_wire framing_encode
    framing_recv recv_bytes after_sync have_type finish read_bytes read_logical count_received
    is_ack sync_start body_of stuff crc16_ccitt crc_from crc_byte crc_bits crc_bit
late_ack_runs = (refl, refl, refl)

framing_send_reliable-Delivery_example :
    Delivery 5
      (frame_bytes 1 5 3 three_bytes)
      late_ack
      quiet_line
      (framing_send_reliable quiet_line 5 three_bytes 3 late_ack).1
      (framing_send_reliable quiet_line 5 three_bytes 3 late_ack).0
framing_send_reliable-Delivery_example =
    framing_send_reliable-Delivery 5 3 three_bytes (omega arith, refl) quiet_line late_ack
      (omega arith, omega arith)
