-- ===== src/Framing/RoundTrip.antt =====
-- Encoding and then decoding a frame of lib/uart/framing.c.
use cortex_forge_aarch64_bar.Prelude.{
  ℕ, zero, suc, ◌+◌, ◌*◌, ◌/◌, ◌%◌, ◌^◌, ◌≡◌, ◌≤◌, ◌<◌, inl, inr, refl, ap, false, List, [], ◌∷◌,
  ◌++◌, Bool-cases, some, length, get_or, take, ltb, ◌==◌, if◌then◌else◌, arith, length-append,
  take-append, le→ltb, ==_refl,
}
use cortex_forge_aarch64_bar.Framing.{
  Frame, frame_start, max_payload, crc_bit, crc_bits, crc_byte, crc_from, crc16_ccitt, stuff,
  framing_encode, unstuff, prepend, decoded, crc_mismatch, parse_linear, framing_decode,
}

pub crc_bit-lt : (crc : ℕ) → crc_bit crc < 2 ^ 16
unfolding crc_bit
crc_bit-lt crc = ground arith

crc_bits-lt : (n crc : ℕ) → crc < 2 ^ 16 → crc_bits n crc < 2 ^ 16
unfolding crc_bits
crc_bits-lt zero crc h = h
crc_bits-lt (suc n) crc h = crc_bits-lt n (crc_bit crc) (crc_bit-lt crc)

pub crc_byte-lt : (crc b : ℕ) → crc_byte crc b < 2 ^ 16
unfolding crc_byte crc_bits
crc_byte-lt crc b = crc_bit-lt _

pub crc_from-lt : (crc : ℕ) (l : List ℕ) → crc < 2 ^ 16 → crc_from crc l < 2 ^ 16
unfolding crc_from
crc_from-lt crc [] h = h
crc_from-lt crc (b ∷ l) h = crc_from-lt (crc_byte crc b) l (crc_byte-lt crc b)

-- The CRC is a uint16_t.
pub crc16_ccitt-lt : (l : List ℕ) → crc16_ccitt l < 2 ^ 16
unfolding crc16_ccitt
crc16_ccitt-lt l = crc_from-lt 0xffff l (omega arith)

unstuff-nil : (room : ℕ) → unstuff room [] ≡ some []
unfolding unstuff
unstuff-nil zero = refl
unstuff-nil (suc room) = refl

pub unstuff-plain :
    (room b : ℕ) (t : List ℕ)
    → (b == frame_start) ≡ false
    → unstuff (suc room) (b ∷ t) ≡ prepend b (unstuff room t)
unfolding unstuff
unstuff-plain room b [] h = rw (h, unstuff-nil room)
unstuff-plain room b (n ∷ t) h = rw h

pub unstuff-literal :
    (room : ℕ) (t : List ℕ)
    → unstuff (suc room) (frame_start ∷ 0 ∷ t) ≡ prepend frame_start (unstuff room t)
unfolding unstuff
unstuff-literal room t = refl

-- Un-stuffing what was stuffed, where the buffer has room.
pub unstuff-stuff : (room : ℕ) (l : List ℕ) → length l ≤ room → unstuff room (stuff l) ≡ some l
unfolding stuff
unstuff-stuff room [] h = unstuff-nil room
unstuff-stuff zero (b ∷ l) h = absurd (omega arith)
unstuff-stuff (suc room) (b ∷ l) h = elim (Bool-cases (b == frame_start)) [
  | inr plain ↦
      rw plain (rw (unstuff-plain room b (stuff l) plain, unstuff-stuff room l (omega arith)))
  | inl start ↦
      let e : b ≡ frame_start = ground arith in
      rw e (rw (unstuff-literal room (stuff l), unstuff-stuff room l (omega arith)))
]

module _ (xs ys : List ℕ) (y z d : ℕ) where
  get_or-append_at : get_or (xs ++ y ∷ ys) (length xs) d ≡ y
  get_or-append_at = go xs
    where
      go : (l : List ℕ) → get_or (l ++ y ∷ ys) (length l) d ≡ y
      go [] = refl
      go (x ∷ l) = go l

  get_or-append_next : get_or (xs ++ y ∷ z ∷ ys) (suc (length xs)) d ≡ z
  get_or-append_next = go xs
    where
      go : (l : List ℕ) → get_or (l ++ y ∷ z ∷ ys) (suc (length l)) d ≡ z
      go [] = refl
      go (x ∷ l) = go l

-- The first four bytes are passed over.
module _ (a b c d : ℕ) (l : List ℕ) (k : ℕ) where
  get_or-header : (x : ℕ) → get_or (a ∷ b ∷ c ∷ d ∷ l) (4 + k) x ≡ get_or l k x
  get_or-header x = let e : 4 + k ≡ suc (suc (suc (suc k))) = omega arith in rw e refl

  take-header : take (4 + k) (a ∷ b ∷ c ∷ d ∷ l) ≡ a ∷ b ∷ c ∷ d ∷ take k l
  take-header = let e : 4 + k ≡ suc (suc (suc (suc k))) = omega arith in rw e refl

abbrev pub linear : ℕ → ℕ → ℕ → List ℕ → ℕ → List ℕ
linear type seq len payload crc =
    type ∷ seq ∷ len / 2 ^ 8 ∷ len % 2 ^ 8 ∷ (payload ++ crc / 2 ^ 8 ∷ crc % 2 ^ 8 ∷ [])

-- The linear buffer of a frame with the checksum `crc` is parsed back: the checksum decides.
pub parse_linear_lem :
    (type seq len crc : ℕ) (payload : List ℕ)
    → len ≤ max_payload
    → length payload ≡ len
    → let frame : Frame = record { type = type; seq = seq; len = len; payload = payload } in
      parse_linear (linear type seq len payload crc) ≡ (
        if crc16_ccitt (type ∷ seq ∷ len / 2 ^ 8 ∷ len % 2 ^ 8 ∷ payload) == crc
        then decoded frame
        else crc_mismatch frame)
unfolding parse_linear
parse_linear_lem type seq len crc payload fits whole =
    let pl : len / 2 ^ 8 * 2 ^ 8 + len % 2 ^ 8 ≡ len = omega arith in
    let cr : crc / 2 ^ 8 * 2 ^ 8 + crc % 2 ^ 8 ≡ crc = omega arith in
    let tl : List ℕ = crc / 2 ^ 8 ∷ crc % 2 ^ 8 ∷ [] in
    let body : take len (payload ++ tl) ≡ payload = take-append len payload tl whole in
    let size : length (payload ++ tl) ≡ len + 2 = omega (arith, length-append payload tl) in
    let hi : get_or (payload ++ tl) len 0 ≡ crc / 2 ^ 8 =
      rw (← whole) (get_or-append_at payload (crc % 2 ^ 8 ∷ []) (crc / 2 ^ 8) 0 0) in
    let lo : get_or (payload ++ tl) (len + 1) 0 ≡ crc % 2 ^ 8 =
      let e : len + 1 ≡ suc (length payload) = omega arith in
      rw e (get_or-append_next payload [] (crc / 2 ^ 8) (crc % 2 ^ 8) 0) in
    let e : 4 + len + 1 ≡ 4 + (len + 1) = omega arith in
    rw
      (
        pl,
        e,
        take-header type seq (len / 2 ^ 8) (len % 2 ^ 8) (payload ++ tl) len,
        get_or-header type seq (len / 2 ^ 8) (len % 2 ^ 8) (payload ++ tl) len 0,
        get_or-header type seq (len / 2 ^ 8) (len % 2 ^ 8) (payload ++ tl) (len + 1) 0,
        body,
        hi,
        lo,
        cr,
      )
      (ground arith)

-- A frame that fits the protocol: the length is the payload's.
abbrev pub FrameFits : ℕ → List ℕ → Type 0
FrameFits len payload = (len ≤ max_payload) × (length payload ≡ len)

take-length : (l : List ℕ) → take (length l) l ≡ l
take-length [] = refl
take-length (x ∷ l) = ap (λ t. x ∷ t) (take-length l)

pub take_whole : {len : ℕ} (l : List ℕ) → length l ≡ len → take len l ≡ l
take_whole l e = rw (← e) (take-length l)

abbrev pub crc_of : ℕ → ℕ → ℕ → List ℕ → ℕ
crc_of type seq len payload = crc16_ccitt (type ∷ seq ∷ len / 2 ^ 8 ∷ len % 2 ^ 8 ∷ payload)

-- What goes on the wire.
abbrev pub frame_bytes : ℕ → ℕ → ℕ → List ℕ → List ℕ
frame_bytes type seq len payload =
    frame_start ∷ stuff (linear type seq len payload (crc_of type seq len payload))

pub framing_encode_lem :
    (type seq len : ℕ) (payload : List ℕ)
    → FrameFits len payload
    → framing_encode type seq payload len ≡ some (frame_bytes type seq len payload)
unfolding framing_encode
framing_encode_lem type seq len payload (fits, whole) =
    let t : ltb max_payload len ≡ false = le→ltb _ _ fits in rw (t, take_whole payload whole)

-- Decoding what `framing_encode` makes of a frame gives the frame back, for every type, sequence
-- number and payload, delimiter bytes included.
pub framing_decode-framing_encode :
    (type seq len : ℕ) (payload : List ℕ)
    → FrameFits len payload
    → (bytes : List ℕ) × (framing_encode type seq payload len ≡ some bytes)
      × (framing_decode bytes
          ≡ decoded (record { type = type; seq = seq; len = len; payload = payload }))
unfolding framing_decode
framing_decode-framing_encode type seq len payload (fits, whole) = (
  frame_bytes type seq len payload,
  framing_encode_lem type seq len payload (fits, whole),
  rw
      (unstuff-stuff 262 (linear type seq len payload (crc_of type seq len payload)) (
        omega (
          arith,
          length-append payload
              (crc_of type seq len payload / 2 ^ 8 ∷ crc_of type seq len payload % 2 ^ 8 ∷ []),
        )))
      (rw (
        parse_linear_lem type seq len (crc_of type seq len payload) payload fits whole,
        ==_refl (crc_of type seq len payload),
      )),
)
