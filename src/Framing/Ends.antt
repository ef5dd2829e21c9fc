-- ===== src/Framing/Ends.antt =====
-- The jumps back in `framing_recv` of lib/uart/framing.c end: each uses up bytes.
use cortex_forge_aarch64_bar.Prelude.{
  ℕ, zero, suc, ◌+◌, ◌*◌, ◌^◌, ◌≢◌, ◌≤◌, ◌<◌, List, [], ◌∷◌, length, arith, some, none, Option, ltb,
  get_or, Bool-cases, inl, inr,
}
use cortex_forge_aarch64_bar.Framing.{max_payload}
use cortex_forge_aarch64_bar.Framing.Link.{
  Link, Logical, byte, timed_out, restart, read_logical, sync_start, Read, got, stopped, again,
  keep_byte, read_next, read_bytes, Received, out_of_fuel, on_read, finish, have_type, after_sync,
  recv_bytes, framing_recv,
}

-- What is left of `n` bytes; a jump back has used some.
abbrev LogicalLeft : ℕ → Logical × List ℕ → Type 0
LogicalLeft n (byte b, rx) = length rx ≤ n
LogicalLeft n (timed_out, rx) = length rx ≤ n
LogicalLeft n (restart t, rx) = length rx < n

abbrev ReadLeft : ℕ → Read × List ℕ → Type 0
ReadLeft n (got l, rx) = length rx ≤ n
ReadLeft n (stopped, rx) = length rx ≤ n
ReadLeft n (again t, rx) = length rx < n

read_logical-LogicalLeft : (rx : List ℕ) → LogicalLeft (length rx) (read_logical rx)
unfolding read_logical
read_logical-LogicalLeft [] = omega arith
read_logical-LogicalLeft (b ∷ []) = ground arith
read_logical-LogicalLeft (b ∷ n ∷ rx) = ground arith

keep_byte-ReadLeft :
    (n m b : ℕ) (r : Read × List ℕ) → m ≤ n → ReadLeft m r → ReadLeft n (keep_byte b r)
keep_byte-ReadLeft n m b (got l, rx) le h = omega arith
keep_byte-ReadLeft n m b (stopped, rx) le h = omega arith
keep_byte-ReadLeft n m b (again t, rx) le h = omega arith

read_next-ReadLeft :
    (n : ℕ) (r : Logical × List ℕ) (more : List ℕ → Read × List ℕ)
    → LogicalLeft n r
    → ((rx : List ℕ) → ReadLeft (length rx) (more rx))
    → ReadLeft n (read_next r more)
read_next-ReadLeft n (byte b, rx) more h k = keep_byte-ReadLeft n (length rx) b (more rx) h (k rx)
read_next-ReadLeft n (timed_out, rx) more h k = h
read_next-ReadLeft n (restart t, rx) more h k = h

read_bytes-ReadLeft : (n : ℕ) (rx : List ℕ) → ReadLeft (length rx) (read_bytes n rx)
unfolding read_bytes
read_bytes-ReadLeft zero rx = omega arith
read_bytes-ReadLeft (suc n) rx =
    read_next-ReadLeft (length rx) (read_logical rx) (read_bytes n) (read_logical-LogicalLeft rx)
      (read_bytes-ReadLeft n)

abbrev Ended : Received × List ℕ → Type 0
Ended r = r.0 ≢ out_of_fuel

on_read-Ended :
    (n : ℕ) (r : Read × List ℕ) (restarted : ℕ → List ℕ → Received × List ℕ)
    (next : List ℕ → List ℕ → Received × List ℕ)
    → ReadLeft n r
    → ((t : ℕ) (rx : List ℕ) → length rx < n → Ended (restarted t rx))
    → ((l rx : List ℕ) → length rx ≤ n → Ended (next l rx))
    → Ended (on_read r restarted next)
on_read-Ended n (got l, rx) restarted next h a b = b l rx h
on_read-Ended n (stopped, rx) restarted next h a b = λ e. cc
on_read-Ended n (again t, rx) restarted next h a b = a t rx h

finish-ne-out_of_fuel :
    (type : ℕ) (hdr payload crcb : List ℕ) → finish type hdr payload crcb ≢ out_of_fuel
unfolding finish
finish-ne-out_of_fuel type hdr payload crcb = ground arith

ReadLeft-mono : (n m : ℕ) (r : Read × List ℕ) → m ≤ n → ReadLeft m r → ReadLeft n r
ReadLeft-mono n m (got l, rx) le h = omega arith
ReadLeft-mono n m (stopped, rx) le h = omega arith
ReadLeft-mono n m (again t, rx) le h = omega arith

have_type-Ended : (fuel type : ℕ) (rx : List ℕ) → length rx < fuel → Ended (have_type fuel type rx)
unfolding have_type
have_type-Ended zero type rx h = absurd (omega arith)
have_type-Ended (suc fuel) type rx h =
    let restarted : (t : ℕ) (rx' : List ℕ) → length rx' < length rx → Ended (have_type fuel t rx') =
      λ t rx' lt. have_type-Ended fuel t rx' (omega arith) in
    on_read-Ended (length rx) (read_bytes 3 rx) (have_type fuel) _ (read_bytes-ReadLeft 3 rx)
      restarted
      λ hdr rx1 le1. elim (Bool-cases (ltb max_payload (get_or hdr 1 0 * 2 ^ 8 + get_or hdr 2 0))) [
        | inl long ↦ rw long (λ e. cc)
        | inr short ↦ rw short (
            on_read-Ended (length rx) (read_bytes _ rx1) (have_type fuel) _
              (ReadLeft-mono (length rx) (length rx1) _ le1 (read_bytes-ReadLeft _ rx1)) restarted
              λ payload rx2 le2.
                on_read-Ended (length rx) (read_bytes 2 rx2) (have_type fuel) _
                  (ReadLeft-mono (length rx) (length rx2) _ le2 (read_bytes-ReadLeft 2 rx2))
                  restarted λ crcb rx3 le3. finish-ne-out_of_fuel type hdr payload crcb)
      ]

after_sync-Ended : (o : Option (ℕ × List ℕ)) → Ended (after_sync o)
unfolding after_sync
after_sync-Ended none = λ e. cc
after_sync-Ended (some (type, rest)) = have_type-Ended (suc (length rest)) type rest (omega arith)

-- `framing_recv` always returns one of its four codes: on any bytes, however often a delimiter
-- restarts the frame, the model's fuel is not used up.
pub framing_recv-ends : (l : Link) → (framing_recv l).0 ≢ out_of_fuel
unfolding framing_recv recv_bytes
framing_recv-ends l = after_sync-Ended (sync_start l.rx)
