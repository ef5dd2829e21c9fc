-- ===== src/Framing/Receive.antt =====
-- `framing_recv` of lib/uart/framing.c: it takes a frame from the wire, past noise, and ends.
use cortex_forge_aarch64_bar.Prelude.{
  false, ℕ, zero, suc, ◌+◌, ◌*◌, ◌/◌, ◌%◌, ◌^◌, ◌≡◌, ◌≢◌, inl, inr, refl, ◌∙◌, true, false, List,
  [], ◌∷◌, ◌++◌, Bool-cases, length, ◌==◌, arith, ==_refl, some, append_assoc, le→ltb,
}
use cortex_forge_aarch64_bar.Framing.{frame_start, max_payload, stuff}
use cortex_forge_aarch64_bar.Framing.Link.{
  Link, byte, read_logical, valid_type, sync_start, got, read_bytes, received, finish, have_type,
  after_sync, recv_bytes, framing_recv, count_received, add32,
}
use cortex_forge_aarch64_bar.Framing.RoundTrip.{crc_of, FrameFits, frame_bytes}

pub stuff-append : (xs ys : List ℕ) → stuff (xs ++ ys) ≡ stuff xs ++ stuff ys
unfolding stuff
stuff-append [] ys = refl
stuff-append (b ∷ xs) ys = elim (Bool-cases (b == frame_start)) [
  | inl h ↦ rw (h, stuff-append xs ys)
  | inr h ↦ rw (h, stuff-append xs ys)
]

read_logical-plain :
    (b : ℕ) (rx : List ℕ) → (b == frame_start) ≡ false → read_logical (b ∷ rx) ≡ (byte b, rx)
unfolding read_logical
read_logical-plain b [] h = rw h
read_logical-plain b (n ∷ rx) h = rw h

read_logical-stuffed :
    (b : ℕ) (l rx : List ℕ) → read_logical (stuff (b ∷ l) ++ rx) ≡ (byte b, stuff l ++ rx)
unfolding stuff
read_logical-stuffed b l rx = elim (Bool-cases (b == frame_start)) [
  | inr plain ↦ rw plain (read_logical-plain b (stuff l ++ rx) plain)
  | inl start ↦ let e : b ≡ frame_start = ground arith in rw e (unfold read_logical in refl)
]

-- Reading as many bytes as were stuffed gives them back.
pub read_bytes-stuff :
    (l rx : List ℕ) (n : ℕ) → length l ≡ n → read_bytes n (stuff l ++ rx) ≡ (got l, rx)
unfolding read_bytes
read_bytes-stuff [] rx zero e = unfold stuff in refl
read_bytes-stuff [] rx (suc n) e = absurd (omega arith)
read_bytes-stuff (b ∷ l) rx zero e = absurd (omega arith)
read_bytes-stuff (b ∷ l) rx (suc n) e =
    rw (read_logical-stuffed b l rx, read_bytes-stuff l rx n (omega arith))

-- Bytes that hold no delimiter.
abbrev pub NoStart : List ℕ → Type 0
NoStart [] = Unit
NoStart (b ∷ l) = (b ≢ frame_start) × NoStart l

sync_start-plain : (b : ℕ) (rx : List ℕ) → b ≢ frame_start → sync_start (b ∷ rx) ≡ sync_start rx
unfolding sync_start
sync_start-plain b [] h = refl
sync_start-plain b (t ∷ rx) h = ground arith

sync_start-noise : (noise rx : List ℕ) → NoStart noise → sync_start (noise ++ rx) ≡ sync_start rx
sync_start-noise [] rx h = refl
sync_start-noise (b ∷ noise) rx h =
    sync_start-plain b (noise ++ rx) h.0 ∙ sync_start-noise noise rx h.1

sync_start-found :
    (t : ℕ) (rx : List ℕ) → valid_type t ≡ true → sync_start (frame_start ∷ t ∷ rx) ≡ some (t, rx)
unfolding sync_start
sync_start-found t rx h = rw h

-- The end of a frame behind its type.
have_type-frame :
    (fuel type seq len : ℕ) (payload rest : List ℕ)
    → FrameFits len payload
    → have_type (suc fuel) type (
        stuff (
          seq
          ∷ len / 2 ^ 8
          ∷ len % 2 ^ 8
          ∷ (payload
              ++ crc_of type seq len payload / 2 ^ 8 ∷ crc_of type seq len payload % 2 ^ 8 ∷ []))
        ++ rest)
      ≡ (received (record { type = type; seq = seq; len = len; payload = payload }), rest)
unfolding have_type finish
have_type-frame fuel type seq len payload rest (fits, whole) =
    let crc = crc_of type seq len payload in
    let crcb : List ℕ = crc / 2 ^ 8 ∷ crc % 2 ^ 8 ∷ [] in
    let hdr : List ℕ = seq ∷ len / 2 ^ 8 ∷ len % 2 ^ 8 ∷ [] in
    let pl : len / 2 ^ 8 * 2 ^ 8 + len % 2 ^ 8 ≡ len = omega arith in
    let cr : crc / 2 ^ 8 * 2 ^ 8 + crc % 2 ^ 8 ≡ crc = omega arith in
    rw (
      stuff-append hdr (payload ++ crcb),
      stuff-append payload crcb,
      append_assoc (stuff hdr) (stuff payload ++ stuff crcb) rest,
      append_assoc (stuff payload) (stuff crcb) rest,
      read_bytes-stuff hdr (stuff payload ++ (stuff crcb ++ rest)) 3 refl,
      pl,
      le→ltb max_payload len fits,
      read_bytes-stuff payload (stuff crcb ++ rest) len whole,
      read_bytes-stuff crcb rest 2 refl,
      cr,
      ==_refl crc,
    )

pub stuff-plain : (b : ℕ) (l : List ℕ) → (b == frame_start) ≡ false → stuff (b ∷ l) ≡ b ∷ stuff l
unfolding stuff
stuff-plain b l h = rw h

recv_bytes-frame :
    (noise rest : List ℕ) (type seq len : ℕ) (payload : List ℕ)
    → NoStart noise
    → valid_type type ≡ true
    → FrameFits len payload
    → recv_bytes (noise ++ (frame_bytes type seq len payload ++ rest))
      ≡ (received (record { type = type; seq = seq; len = len; payload = payload }), rest)
unfolding recv_bytes after_sync
recv_bytes-frame noise rest type seq len payload quiet valid fits =
    let crc = crc_of type seq len payload in
    let behind : List ℕ =
      stuff (seq ∷ len / 2 ^ 8 ∷ len % 2 ^ 8 ∷ (payload ++ crc / 2 ^ 8 ∷ crc % 2 ^ 8 ∷ []))
      ++ rest in
    let synced : sync_start (noise ++ (frame_bytes type seq len payload ++ rest))
        ≡ some (type, behind) =
      sync_start-noise noise (frame_bytes type seq len payload ++ rest) quiet
      ∙ rw
          (stuff-plain type
            (seq ∷ len / 2 ^ 8 ∷ len % 2 ^ 8 ∷ (payload ++ crc / 2 ^ 8 ∷ crc % 2 ^ 8 ∷ []))
            (ground arith))
          (sync_start-found type behind valid) in
    rw synced (have_type-frame (length behind) type seq len payload rest fits)

-- `framing_recv` gets a frame of one of the three types from the wire whatever noise without a
-- delimiter comes before it, counts it, and leaves the bytes behind it to the next call.
pub framing_recv-frame :
    (l : Link) (noise rest : List ℕ) (type seq len : ℕ) (payload : List ℕ)
    → NoStart noise
    → valid_type type ≡ true
    → FrameFits len payload
    → l.rx ≡ noise ++ (frame_bytes type seq len payload ++ rest)
    → framing_recv l ≡ (
      received (record { type = type; seq = seq; len = len; payload = payload }),
      record l {
        stats = record (l.stats) { frames_recv = add32 l.stats.frames_recv 1 };
        rx = rest;
      },
    )
unfolding framing_recv count_received
framing_recv-frame l noise rest type seq len payload quiet valid fits e =
    rw (e, recv_bytes-frame noise rest type seq len payload quiet valid fits)
