-- ===== src/Framing/Link.antt =====
-- lib/uart/framing.c: the functions that read from and write to the second UART.
use cortex_forge_aarch64_bar.Prelude.{
  ℕ, zero, suc, ◌+◌, ◌*◌, ◌%◌, ◌^◌, Bool, true, false, ◌&&◌, ◌||◌, List, [], ◌∷◌, ◌++◌, Option,
  none, some, length, get_or, ltb, ◌==◌, if◌then◌else◌,
}
use cortex_forge_aarch64_bar.Framing.{
  Frame, frame_start, type_data, type_ack, type_nack, max_payload, max_retries, crc16_ccitt,
  framing_encode,
}

-- uint32_t addition
abbrev pub add32 : ℕ → ℕ → ℕ
add32 a b = (a + b) % 2 ^ 32

-- `framing_stats_t`
pub record Stats : Type 0 where
  pub frames_sent : ℕ
  pub frames_recv : ℕ
  pub retransmits : ℕ
  pub crc_errors : ℕ

-- The file's counters, the bytes that `recv_byte` has still to give before the deadline, and those
-- that were put on the wire.
pub record Link : Type 0 where
  pub stats : Stats
  pub rx : List ℕ
  pub tx : List ℕ

-- What `read_logical` returns: a byte, -1, or -2 with the type behind the new delimiter.
pub data Logical : Type 0 where
  byte : ℕ → Logical
  timed_out : Logical
  restart : ℕ → Logical

unfoldable pub read_logical : List ℕ → Logical × List ℕ
read_logical [] = (timed_out, [])
read_logical (b ∷ []) = if b == frame_start then (timed_out, []) else (byte b, [])
read_logical (b ∷ n ∷ rx) =
    if b == frame_start
    then (if n == 0 then (byte frame_start, rx) else (restart n, rx))
    else (byte b, n ∷ rx)

abbrev pub valid_type : ℕ → Bool
valid_type t = t == type_data || t == type_ack || t == type_nack

-- The type of the frame that starts, and the bytes behind it; `none` is the time-out.
unfoldable pub sync_start : List ℕ → Option (ℕ × List ℕ)
sync_start [] = none
sync_start (b ∷ []) = none
sync_start (b ∷ t ∷ rx) =
    let behind = sync_start rx in
    let next = sync_start (t ∷ rx) in
    if b == frame_start then (if valid_type t then some (t, rx) else behind) else next

-- A row of calls of `read_logical` that fills an array.
pub data Read : Type 0 where
  got : List ℕ → Read
  stopped : Read
  again : ℕ → Read

abbrev pub keep_byte : ℕ → Read × List ℕ → Read × List ℕ
keep_byte b (got l, rx) = (got (b ∷ l), rx)
keep_byte b (stopped, rx) = (stopped, rx)
keep_byte b (again t, rx) = (again t, rx)

abbrev pub read_next : Logical × List ℕ → (List ℕ → Read × List ℕ) → Read × List ℕ
read_next (byte b, rx) more = keep_byte b (more rx)
read_next (timed_out, rx) more = (stopped, rx)
read_next (restart t, rx) more = (again t, rx)

unfoldable pub read_bytes : ℕ → List ℕ → Read × List ℕ
read_bytes zero rx = (got [], rx)
read_bytes (suc n) rx = read_next (read_logical rx) (read_bytes n)

-- What `framing_recv` returns, with what it leaves in `*out`.
pub data Received : Type 0 where
  received : Frame → Received
  crc_error : Frame → Received
  bad_len : Received
  timeout : Received
  out_of_fuel : Received

-- The end of an array: go on, return, or `goto have_type`.
abbrev pub on_read :
    Read × List ℕ
    → (ℕ → List ℕ → Received × List ℕ)
    → (List ℕ → List ℕ → Received × List ℕ)
    → Received × List ℕ
on_read (got l, rx) restarted next = next l rx
on_read (stopped, rx) restarted next = (timeout, rx)
on_read (again t, rx) restarted next = restarted t rx

-- The checksum's comparison, and the return.
unfoldable pub finish : ℕ → List ℕ → List ℕ → List ℕ → Received
finish type hdr payload crcb =
    let len = get_or hdr 1 0 * 2 ^ 8 + get_or hdr 2 0 in
    let frame : Frame = record {
      type = type;
      seq = get_or hdr 0 0;
      len = len;
      payload = payload;
    } in
    let calc = crc16_ccitt (type ∷ get_or hdr 0 0 ∷ get_or hdr 1 0 ∷ get_or hdr 2 0 ∷ payload) in
    if calc == get_or crcb 0 0 * 2 ^ 8 + get_or crcb 1 0 then received frame else crc_error frame

-- The body of `framing_recv` from the label `have_type` on, with fuel for the jumps to it.
unfoldable pub have_type : ℕ → ℕ → List ℕ → Received × List ℕ
have_type zero type rx = (out_of_fuel, rx)
have_type (suc fuel) type rx = on_read (read_bytes 3 rx) (have_type fuel) λ hdr rx1.
    let len = get_or hdr 1 0 * 2 ^ 8 + get_or hdr 2 0 in
    if ltb max_payload len
    then (bad_len, rx1)
    else on_read (read_bytes len rx1) (have_type fuel) λ payload rx2.
      on_read (read_bytes 2 rx2) (have_type fuel) λ crcb rx3. (finish type hdr payload crcb, rx3)

-- What `framing_recv` does after the search for a start. Every jump follows at least two more
-- bytes, so one round for each byte is enough.
unfoldable pub after_sync : Option (ℕ × List ℕ) → Received × List ℕ
after_sync none = (timeout, [])
after_sync (some (type, rest)) = have_type (suc (length rest)) type rest

unfoldable pub recv_bytes : List ℕ → Received × List ℕ
recv_bytes rx = after_sync (sync_start rx)

-- The counter that a reception changes.
unfoldable pub count_received : Stats → Received → Stats
count_received s (received f) = record s { frames_recv = add32 s.frames_recv 1 }
count_received s (crc_error f) = record s { crc_errors = add32 s.crc_errors 1 }
count_received s bad_len = s
count_received s timeout = s
count_received s out_of_fuel = s

unfoldable pub framing_recv : Link → Received × Link
framing_recv l =
    let (r, rx) = recv_bytes l.rx in (r, record l { stats = count_received l.stats r; rx = rx })

-- What `framing_send` does with the result of `framing_encode`.
unfoldable pub put_on_wire : Link → Option (List ℕ) → Bool × Link
put_on_wire l none = (false, l)
put_on_wire l (some bytes) = (
  true,
  record l {
    stats = record (l.stats) { frames_sent = add32 l.stats.frames_sent 1 };
    tx = l.tx ++ bytes;
  },
)

-- The return code, FRAMING_OK or FRAMING_ERR_BADLEN, and the new state.
unfoldable pub framing_send : Link → ℕ → ℕ → List ℕ → ℕ → Bool × Link
framing_send l type seq payload len = put_on_wire l (framing_encode type seq payload len)

unfoldable pub framing_send_ack : Link → ℕ → Bool × Link
framing_send_ack l seq = framing_send l type_ack seq [] 0

unfoldable pub framing_send_nack : Link → ℕ → Bool × Link
framing_send_nack l seq = framing_send l type_nack seq [] 0

-- `r == FRAMING_OK && f.type == FRAME_TYPE_ACK && f.seq == seq`
unfoldable pub is_ack : ℕ → Received → Bool
is_ack seq (received f) = f.type == type_ack && f.seq == seq
is_ack seq (crc_error f) = false
is_ack seq bad_len = false
is_ack seq timeout = false
is_ack seq out_of_fuel = false

-- More bytes come in.
abbrev pub arrive : Link → List ℕ → Link
arrive l bytes = record l { rx = l.rx ++ bytes }

abbrev pub count_retransmit : ℕ → Link → Link
count_retransmit zero l = l
count_retransmit (suc attempt) l = record l {
  stats = record (l.stats) { retransmits = add32 l.stats.retransmits 1 };
}

-- One attempt: count, send, and wait, while `incoming` comes in.
unfoldable pub attempt_send : ℕ → Link → ℕ → List ℕ → ℕ → List ℕ → Received × Link
attempt_send attempt l seq payload len incoming =
    framing_recv
      (arrive (framing_send (count_retransmit attempt l) type_data seq payload len).1 incoming)

-- The loop over the attempts; `incoming i` is what comes in while attempt `i` waits. A NACK, a
-- time-out, a CRC error and any other frame all lead to the next attempt.
unfoldable pub attempts_from : ℕ → ℕ → Link → ℕ → List ℕ → ℕ → (ℕ → List ℕ) → Bool × Link
attempts_from zero attempt l seq payload len incoming = (false, l)
attempts_from (suc n) attempt l seq payload len incoming =
    let (r, l') = attempt_send attempt l seq payload len (incoming attempt) in
    let more = attempts_from n (suc attempt) l' seq payload len incoming in
    if is_ack seq r then (true, l') else more

-- FRAMING_OK or FRAMING_ERR_TIMEOUT, and the new state.
unfoldable pub framing_send_reliable : Link → ℕ → List ℕ → ℕ → (ℕ → List ℕ) → Bool × Link
framing_send_reliable l seq payload len incoming =
    attempts_from (max_retries + 1) 0 l seq payload len incoming
