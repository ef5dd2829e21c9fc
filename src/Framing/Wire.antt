-- ===== src/Framing/Wire.antt =====
-- What `framing_encode` of lib/uart/framing.c puts on the wire.
use cortex_forge_aarch64_bar.Prelude.{
  ℕ, ◌+◌, ◌*◌, ◌/◌, ◌%◌, ◌^◌, ◌≡◌, ◌≢◌, ◌≤◌, ◌<◌, inl, inr, refl, List, [], ◌∷◌, ◌++◌, false,
  Bool-cases, Option, none, some, length, take, ltb, ◌==◌, arith, length-append, length-take,
  lt→ltb,
}
use native.Mathlib.Decide.{dec_lt}
use cortex_forge_aarch64_bar.Framing.{
  frame_start, max_payload, crc16_ccitt, stuff, body_of, framing_encode,
}

-- Every delimiter byte is followed by a 0.
abbrev pub Escaped : List ℕ → Type 0
Escaped [] = Unit
Escaped (b ∷ []) = b ≢ frame_start
Escaped (b ∷ n ∷ rest) = (b ≡ frame_start → n ≡ 0) × Escaped (n ∷ rest)

Escaped-cons : (b : ℕ) (l : List ℕ) → b ≢ frame_start → Escaped l → Escaped (b ∷ l)
Escaped-cons b [] ne h = ne
Escaped-cons b (n ∷ l) ne h = (λ e. absurd (ne e), h)

stuff-Escaped : (l : List ℕ) → Escaped (stuff l)
unfolding stuff
stuff-Escaped [] = tt
stuff-Escaped (b ∷ l) = elim (Bool-cases (b == frame_start)) [
  | inl start ↦ rw start ((λ _. refl), Escaped-cons 0 (stuff l) (omega arith) (stuff-Escaped l))
  | inr plain ↦ rw plain (Escaped-cons b (stuff l) (ground arith) (stuff-Escaped l))
]

length-stuff : (l : List ℕ) → length (stuff l) ≤ 2 * length l
unfolding stuff
length-stuff [] = omega arith
length-stuff (b ∷ l) = ground (arith, length-stuff l)

-- A delimiter, then bytes in which every delimiter is escaped, in all at most 525.
pub record OnWire (bytes : List ℕ) : Type 0 where
  pub rest : List ℕ
  pub starts : bytes ≡ frame_start ∷ rest
  pub escaped : Escaped rest
  pub bounded : length bytes ≤ 525

abbrev pub WireOutcome : ℕ → Option (List ℕ) → Type 0
WireOutcome len none = max_payload < len
WireOutcome len (some bytes) = (len ≤ max_payload) × OnWire bytes

abbrev wire_body : ℕ → ℕ → ℕ → List ℕ → List ℕ
unfolding body_of
wire_body type seq len payload =
    let body = body_of type seq payload len in
    body ++ crc16_ccitt body / 2 ^ 8 ∷ crc16_ccitt body % 2 ^ 8 ∷ []

length-wire_body :
    (type seq len : ℕ) (payload : List ℕ) → length (wire_body type seq len payload) ≤ 6 + len
unfolding body_of
length-wire_body type seq len payload =
    let crc = crc16_ccitt (body_of type seq payload len) in
    omega (
      arith,
      length-append (take len payload) (crc / 2 ^ 8 ∷ crc % 2 ^ 8 ∷ []),
      length-take len payload,
    )

-- `framing_encode` refuses exactly the lengths over 256; else it writes at most the 525 bytes of its
-- buffer, and after the first byte every delimiter byte is escaped by a 0.
pub framing_encode-WireOutcome :
    (type seq len : ℕ) (payload : List ℕ) → WireOutcome len (framing_encode type seq payload len)
unfolding framing_encode
framing_encode-WireOutcome type seq len payload = elim (dec_lt max_payload len) [
  | yes long ↦ rw (lt→ltb _ _ long) long
  | no short ↦
      let t : ltb max_payload len ≡ false = ground arith in
      rw t (
        omega arith,
        record {
          rest = stuff (wire_body type seq len payload);
          starts = refl;
          escaped = stuff-Escaped (wire_body type seq len payload);
          bounded = omega (
            arith,
            length-stuff (wire_body type seq len payload),
            length-wire_body type seq len payload,
          );
        },
      )
]
