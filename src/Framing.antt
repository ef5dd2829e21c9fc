-- ===== src/Framing.antt =====
-- lib/uart/framing.c: the frames on the second UART, with CRC-16, byte stuffing, acknowledgement and
-- retransmission. Bytes are numbers; a buffer is a list of those that are valid. The receiver reads
-- from the list of the bytes that come in before its deadline: when that is used up, `recv_byte`
-- times out. What `uart1_putc` puts on the wire is a list too. The probe of the hardware and its
-- initialisation are not modelled.
pub mod RoundTrip
pub mod Wire
pub mod Detect
pub mod Link
pub mod Receive
pub mod Ends
pub mod Reliable
mod Tests
use Prim.Native.Nat.{bit_xor}
use cortex_forge_aarch64_bar.Prelude.{
  ℕ, zero, suc, ◌+◌, ◌-◌, ◌*◌, ◌/◌, ◌%◌, ◌^◌, Bool, true, false, not, ◌&&◌, ◌||◌, List, [], ◌∷◌,
  ◌++◌, Option, none, some, length, get_or, take, drop, ltb, leb, ◌==◌, if◌then◌else◌,
}

abbrev pub frame_start : ℕ
frame_start = 0xaa

abbrev pub type_data : ℕ
type_data = 1

abbrev pub type_ack : ℕ
type_ack = 2

abbrev pub type_nack : ℕ
type_nack = 3

abbrev pub max_payload : ℕ
max_payload = 256

abbrev pub max_retries : ℕ
max_retries = 3

-- `frame_t`; the payload holds its first `len` bytes.
pub record Frame : Type 0 where
  pub type : ℕ
  pub seq : ℕ
  pub len : ℕ
  pub payload : List ℕ

-- One round of the inner loop of `crc16_ccitt`.
unfoldable pub crc_bit : ℕ → ℕ
crc_bit crc = if crc / 2 ^ 15 % 2 == 1 then bit_xor (crc * 2) 0x1021 % 2 ^ 16 else crc * 2 % 2 ^ 16

unfoldable pub crc_bits : ℕ → ℕ → ℕ
crc_bits zero crc = crc
crc_bits (suc n) crc = crc_bits n (crc_bit crc)

-- One round of the outer loop.
unfoldable pub crc_byte : ℕ → ℕ → ℕ
crc_byte crc b = crc_bits 8 (bit_xor crc (b * 2 ^ 8 % 2 ^ 16))

unfoldable pub crc_from : ℕ → List ℕ → ℕ
crc_from crc [] = crc
crc_from crc (b ∷ rest) = crc_from (crc_byte crc b) rest

unfoldable pub crc16_ccitt : List ℕ → ℕ
crc16_ccitt bytes = crc_from 0xffff bytes

-- `out[k++] = b; if (b == FRAME_START) out[k++] = 0x00;`
unfoldable pub stuff : List ℕ → List ℕ
stuff [] = []
stuff (b ∷ rest) = if b == frame_start then b ∷ 0 ∷ stuff rest else b ∷ stuff rest

-- The input of the CRC: type, seq, both bytes of the length, payload.
unfoldable pub body_of : ℕ → ℕ → List ℕ → ℕ → List ℕ
body_of type seq payload len = type ∷ seq ∷ len / 2 ^ 8 ∷ len % 2 ^ 8 ∷ take len payload

unfoldable pub framing_encode : ℕ → ℕ → List ℕ → ℕ → Option (List ℕ)
unfolding body_of
framing_encode type seq payload len =
    let body = body_of type seq payload len in
    let crc = crc16_ccitt body in
    if ltb max_payload len
    then none
    else some (frame_start ∷ stuff (body ++ crc / 2 ^ 8 ∷ crc % 2 ^ 8 ∷ []))

abbrev pub prepend : ℕ → Option (List ℕ) → Option (List ℕ)
prepend b none = none
prepend b (some l) = some (b ∷ l)

-- The un-stuffing loop of `framing_decode`, with so many bytes of `lin` left. `none` is its return
-- of FRAMING_ERR_BADLEN.
unfoldable pub unstuff : ℕ → List ℕ → Option (List ℕ)
unstuff zero buf = some []
unstuff (suc room) [] = some []
unstuff (suc room) (b ∷ []) = if b == frame_start then none else some (b ∷ [])
unstuff (suc room) (b ∷ n ∷ rest) =
    let literal = prepend frame_start (unstuff room rest) in
    let plain = prepend b (unstuff room (n ∷ rest)) in
    if b == frame_start then (if n == 0 then literal else none) else plain

-- The return code of `framing_decode`, with what it leaves in `*out`.
pub data Decoded : Type 0 where
  decoded : Frame → Decoded
  crc_mismatch : Frame → Decoded
  bad_length : Decoded

-- What `framing_decode` does with the linear buffer.
unfoldable pub parse_linear : List ℕ → Decoded
parse_linear lin =
    let plen = get_or lin 2 0 * 2 ^ 8 + get_or lin 3 0 in
    let rx_crc = get_or lin (4 + plen) 0 * 2 ^ 8 + get_or lin (4 + plen + 1) 0 in
    let calc = crc16_ccitt (take (4 + plen) lin) in
    let frame : Frame = record {
      type = get_or lin 0 0;
      seq = get_or lin 1 0;
      len = plen;
      payload = take plen (drop 4 lin);
    } in
    if ltb (length lin) 6
    then bad_length
    else if ltb max_payload plen || not (length lin == 4 + plen + 2)
    then bad_length
    else if calc == rx_crc
    then decoded frame
    else crc_mismatch frame

abbrev pub parse_unstuffed : Option (List ℕ) → Decoded
parse_unstuffed none = bad_length
parse_unstuffed (some lin) = parse_linear lin

unfoldable pub framing_decode : List ℕ → Decoded
framing_decode [] = bad_length
framing_decode (b ∷ rest) =
    let lin = parse_unstuffed (unstuff (4 + max_payload + 2) rest) in
    if b == frame_start then lin else bad_length
