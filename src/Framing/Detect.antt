-- ===== src/Framing/Detect.antt =====
-- The CRC of lib/uart/framing.c detects every error that is confined to one byte.

use cortex_forge_aarch64_bar.Prelude.{
  ℕ, zero, suc, ◌*◌, ◌/◌, ◌%◌, ◌^◌, ◌≡◌, ◌≢◌, ◌<◌, false, List, [], ◌∷◌, ◌++◌, ◌==◌, arith,
  length-append, length, append_assoc, ==_ne, some, ap, sym, ◌∙◌,
}
use native.Mathlib.Decide.{ℕ_discrete}
use cortex_forge_aarch64_bar.Bits.{
  bit_xor_step, bit_xor-cancel_low, bit_xor-cancel_left, bit_xor-cancel_right, bit_xor-lt,
}
use cortex_forge_aarch64_bar.Framing.{
  frame_start, crc_bit, crc_bits, crc_byte, crc_from, crc16_ccitt, stuff, framing_encode,
  framing_decode, crc_mismatch,
}
use cortex_forge_aarch64_bar.Framing.RoundTrip.{
  crc_bit-lt, crc_byte-lt, linear, parse_linear_lem, unstuff-stuff, crc_of, FrameFits,
  framing_encode_lem,
}
use cortex_forge_aarch64_bar.Framing.Receive.{stuff-append, stuff-plain}

crc_bit_odd : (crc : ℕ) → crc / 2 ^ 15 % 2 ≡ 1 → crc_bit crc % 2 ≡ 1
unfolding crc_bit
crc_bit_odd crc h = ground (arith, bit_xor_step (crc * 2) 0x1021)

crc_bit_even : (crc : ℕ) → crc / 2 ^ 15 % 2 ≢ 1 → crc_bit crc % 2 ≡ 0
unfolding crc_bit
crc_bit_even crc h = ground arith

-- One step of the CRC register loses nothing.
crc_bit-injective : (x y : ℕ) → x < 2 ^ 16 → y < 2 ^ 16 → crc_bit x ≡ crc_bit y → x ≡ y
unfolding crc_bit
crc_bit-injective x y p q e = elim (ℕ_discrete (x / 2 ^ 15 % 2) 1) [
  | yes a ↦ elim (ℕ_discrete (y / 2 ^ 15 % 2) 1) [
    | yes b ↦ ground (arith, bit_xor-cancel_low 16 (x * 2) (y * 2) 0x1021)
    | no b ↦ absurd (omega (arith, crc_bit_odd x a, crc_bit_even y b))
  ]
  | no a ↦ elim (ℕ_discrete (y / 2 ^ 15 % 2) 1) [
    | yes b ↦ absurd (omega (arith, crc_bit_odd y b, crc_bit_even x a))
    | no b ↦ ground arith
  ]
]

crc_bits-injective : (n x y : ℕ) → x < 2 ^ 16 → y < 2 ^ 16 → crc_bits n x ≡ crc_bits n y → x ≡ y
unfolding crc_bits
crc_bits-injective zero x y p q e = e
crc_bits-injective (suc n) x y p q e =
    crc_bit-injective x y p q
      (crc_bits-injective n (crc_bit x) (crc_bit y) (crc_bit-lt x) (crc_bit-lt y) e)

crc_byte-crc_injective : (x y b : ℕ) → x < 2 ^ 16 → y < 2 ^ 16 → crc_byte x b ≡ crc_byte y b → x ≡ y
unfolding crc_byte
crc_byte-crc_injective x y b p q e = bit_xor-cancel_right x y (b * 2 ^ 8 % 2 ^ 16) (
    crc_bits-injective 8 _ _ (bit_xor-lt 16 x _ p (omega arith)) (bit_xor-lt 16 y _ q (omega arith))
      e)

crc_byte-byte_injective :
    (crc x y : ℕ) → crc < 2 ^ 16 → x < 256 → y < 256 → crc_byte crc x ≡ crc_byte crc y → x ≡ y
unfolding crc_byte
crc_byte-byte_injective crc x y h p q e = omega (
  arith,
  bit_xor-cancel_left (x * 2 ^ 8 % 2 ^ 16) (y * 2 ^ 8 % 2 ^ 16) crc (
      crc_bits-injective 8 _ _ (bit_xor-lt 16 crc _ h (omega arith))
        (bit_xor-lt 16 crc _ h (omega arith)) e),
)

crc_from-injective :
    (l : List ℕ) (x y : ℕ) → x < 2 ^ 16 → y < 2 ^ 16 → crc_from x l ≡ crc_from y l → x ≡ y
unfolding crc_from
crc_from-injective [] x y p q e = e
crc_from-injective (b ∷ l) x y p q e =
    crc_byte-crc_injective x y b p q
      (crc_from-injective l (crc_byte x b) (crc_byte y b) (crc_byte-lt x b) (crc_byte-lt y b) e)

crc_from-single :
    (pre suf : List ℕ) (crc x y : ℕ)
    → crc < 2 ^ 16
    → x < 256
    → y < 256
    → crc_from crc (pre ++ x ∷ suf) ≡ crc_from crc (pre ++ y ∷ suf)
    → x ≡ y
unfolding crc_from
crc_from-single [] suf crc x y h p q e = crc_byte-byte_injective crc x y h p q (
    crc_from-injective suf (crc_byte crc x) (crc_byte crc y) (crc_byte-lt crc x) (crc_byte-lt crc y)
      e)
crc_from-single (b ∷ pre) suf crc x y h p q e =
    crc_from-single pre suf (crc_byte crc b) x y (crc_byte-lt crc b) p q e

-- Two messages that differ in exactly one byte, at any place, have different checksums.
pub crc16_ccitt-single_byte :
    (pre suf : List ℕ) (x y : ℕ)
    → x < 256
    → y < 256
    → x ≢ y
    → crc16_ccitt (pre ++ x ∷ suf) ≢ crc16_ccitt (pre ++ y ∷ suf)
unfolding crc16_ccitt
crc16_ccitt-single_byte pre suf x y p q ne e =
    ne (crc_from-single pre suf 0xffff x y (omega arith) p q e)

-- A frame whose checksum is that of another payload, which differs in one byte.
framing_decode_changed :
    (type seq len : ℕ) (pre suf : List ℕ) (x y : ℕ)
    → FrameFits len (pre ++ y ∷ suf)
    → x < 256
    → y < 256
    → x ≢ y
    → framing_decode (
        frame_start
        ∷ stuff (linear type seq len (pre ++ y ∷ suf) (crc_of type seq len (pre ++ x ∷ suf))))
      ≡ crc_mismatch (record { type = type; seq = seq; len = len; payload = pre ++ y ∷ suf })
unfolding framing_decode
framing_decode_changed type seq len pre suf x y (fits, whole) p q ne =
    let crc = crc_of type seq len (pre ++ x ∷ suf) in
    let payload = pre ++ y ∷ suf in
    let differ : (crc_of type seq len payload == crc) ≡ false = ==_ne _ _ (λ e.
      crc16_ccitt-single_byte (type ∷ seq ∷ len / 2 ^ 8 ∷ len % 2 ^ 8 ∷ pre) suf y x q p
        (λ eq. ne (omega arith)) e) in
    rw
      (unstuff-stuff 262 (linear type seq len payload crc)
        (omega (arith, length-append payload (crc / 2 ^ 8 ∷ crc % 2 ^ 8 ∷ []))))
      (rw (parse_linear_lem type seq len crc payload fits whole, differ))

-- The bytes on the wire in front of a payload byte that is no delimiter, by the payload before it,
-- and those behind it, by the payload after it and the checksum.
abbrev pub wire_before : ℕ → ℕ → ℕ → List ℕ → List ℕ
wire_before type seq len pre = frame_start ∷ stuff (type ∷ seq ∷ len / 2 ^ 8 ∷ len % 2 ^ 8 ∷ pre)

abbrev pub wire_behind : ℕ → List ℕ → List ℕ
wire_behind crc suf = stuff (suf ++ crc / 2 ^ 8 ∷ crc % 2 ^ 8 ∷ [])

-- Stuffing does not touch a byte that is no delimiter.
frame-wire :
    (type seq len crc : ℕ) (pre suf : List ℕ) (b : ℕ)
    → b ≢ frame_start
    → frame_start ∷ stuff (linear type seq len (pre ++ b ∷ suf) crc)
      ≡ wire_before type seq len pre ++ b ∷ wire_behind crc suf
frame-wire type seq len crc pre suf b ne =
    let tail : List ℕ = crc / 2 ^ 8 ∷ crc % 2 ^ 8 ∷ [] in
    let head : List ℕ = type ∷ seq ∷ len / 2 ^ 8 ∷ len % 2 ^ 8 ∷ pre in
    let plain = stuff-plain b (suf ++ tail) (==_ne b frame_start ne) in
    ap (λ l. frame_start ∷ stuff (type ∷ seq ∷ len / 2 ^ 8 ∷ len % 2 ^ 8 ∷ l))
      (append_assoc pre (b ∷ suf) tail)
    ∙ ap (λ l. frame_start ∷ l) (stuff-append head (b ∷ suf ++ tail))
    ∙ ap (λ l. frame_start ∷ stuff head ++ l) plain

-- When one payload byte of the bytes that `framing_encode` made is changed on the wire, and neither
-- it nor what it is changed to is the delimiter 0xAA, `framing_decode` of the changed bytes reports a
-- CRC error, and leaves the changed frame in its output.
pub framing_decode-corrupted :
    (type seq len : ℕ) (pre suf : List ℕ) (x y : ℕ)
    → FrameFits len (pre ++ x ∷ suf)
    → x < 256
    → y < 256
    → x ≢ y
    → x ≢ frame_start
    → y ≢ frame_start
    → (framing_encode type seq (pre ++ x ∷ suf) len
        ≡ some (
            wire_before type seq len pre
            ++ x ∷ wire_behind (crc_of type seq len (pre ++ x ∷ suf)) suf))
      × (framing_decode (
            wire_before type seq len pre
            ++ y ∷ wire_behind (crc_of type seq len (pre ++ x ∷ suf)) suf)
          ≡ crc_mismatch (record { type = type; seq = seq; len = len; payload = pre ++ y ∷ suf }))
framing_decode-corrupted type seq len pre suf x y (fits, whole) p q ne x_plain y_plain =
    let crc = crc_of type seq len (pre ++ x ∷ suf) in
    let same : length (pre ++ y ∷ suf) ≡ len =
      omega (arith, length-append pre (x ∷ suf), length-append pre (y ∷ suf)) in
    (
      framing_encode_lem type seq len (pre ++ x ∷ suf) (fits, whole)
          ∙ ap some (frame-wire type seq len crc pre suf x x_plain),
      ap framing_decode (sym (frame-wire type seq len crc pre suf y y_plain))
          ∙ framing_decode_changed type seq len pre suf x y (fits, same) p q ne,
    )
