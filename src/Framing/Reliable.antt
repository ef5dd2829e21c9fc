-- ===== src/Framing/Reliable.antt =====
-- `framing_send_reliable` of lib/uart/framing.c: attempts, counters, and what a success means.
use cortex_forge_aarch64_bar.Prelude.{
  ℕ, zero, suc, ◌+◌, ◌-◌, ◌^◌, ◌≡◌, ◌≤◌, ◌<◌, inl, inr, refl, sym, ◌∙◌, ap, List, [], ◌++◌, arith,
  Bool, Bool-cases, true, false, append_assoc, append-nil,
}
use mathlib.Core.Path.{subst}
use cortex_forge_aarch64_bar.Framing.{type_data, type_ack, max_retries}
use cortex_forge_aarch64_bar.Framing.RoundTrip.{FrameFits, frame_bytes, framing_encode_lem}
use cortex_forge_aarch64_bar.Framing.Link.{
  Link, Stats, Received, received, crc_error, bad_len, timeout, out_of_fuel, framing_recv,
  count_received, recv_bytes, framing_send, put_on_wire, is_ack, arrive, add32, count_retransmit,
  attempt_send, attempts_from, framing_send_reliable,
}

-- A reception changes neither what was sent nor its counters.
record KeepsSent (l l' : Link) : Type 0 where
  sent : l'.stats.frames_sent ≡ l.stats.frames_sent
  resent : l'.stats.retransmits ≡ l.stats.retransmits
  wire : l'.tx ≡ l.tx

count_received-sent :
    (s : Stats) (r : Received)
    → ((count_received s r).frames_sent ≡ s.frames_sent)
      × ((count_received s r).retransmits ≡ s.retransmits)
unfolding count_received
count_received-sent s (received f) = (refl, refl)
count_received-sent s (crc_error f) = (refl, refl)
count_received-sent s bad_len = (refl, refl)
count_received-sent s timeout = (refl, refl)
count_received-sent s out_of_fuel = (refl, refl)

framing_recv-KeepsSent : (l : Link) → KeepsSent l (framing_recv l).1
unfolding framing_recv
framing_recv-KeepsSent l = record {
  sent = (count_received-sent l.stats (recv_bytes l.rx).0).0;
  resent = (count_received-sent l.stats (recv_bytes l.rx).0).1;
  wire = refl;
}

-- `n` copies on the wire.
abbrev pub copies : ℕ → List ℕ → List ℕ
copies zero bytes = []
copies (suc n) bytes = bytes ++ copies n bytes

-- The counter of retransmissions in attempt `k`: the first attempt is none.
abbrev pub resent_in : ℕ → ℕ → ℕ
resent_in zero count = count
resent_in (suc k) count = add32 count 1

-- The link when attempt `k` has sent its frame and `incoming` has come in.
abbrev pub waiting_for_ack : ℕ → List ℕ → List ℕ → Link → Link
waiting_for_ack k bytes incoming l = record l {
  stats = record (l.stats) {
    frames_sent = add32 l.stats.frames_sent 1;
    retransmits = resent_in k l.stats.retransmits;
  };
  rx = l.rx ++ incoming;
  tx = l.tx ++ bytes;
}

-- The acknowledgement of the frame, and of no other.
abbrev pub IsAckOf : ℕ → Received → Type 0
IsAckOf seq (received f) = (f.type ≡ type_ack) × (f.seq ≡ seq)
IsAckOf seq (crc_error f) = ⊥
IsAckOf seq bad_len = ⊥
IsAckOf seq timeout = ⊥
IsAckOf seq out_of_fuel = ⊥

-- The attempts from number `k` on: how many there were, the link before and after, and whether the
-- last one was acknowledged.
pub data Attempts (seq : ℕ) (bytes : List ℕ) (incoming : ℕ → List ℕ)
    : ℕ → ℕ → Link → Link → Bool → Type 0 where
  acked :
      {k : ℕ} {l l' : Link} {r : Received}
      → framing_recv (waiting_for_ack k bytes (incoming k) l) ≡ (r, l')
      → IsAckOf seq r
      → Attempts seq bytes incoming k 1 l l' true
  tried :
      {k n : ℕ} {l l1 l' : Link} {r : Received} {ok : Bool}
      → framing_recv (waiting_for_ack k bytes (incoming k) l) ≡ (r, l1)
      → (IsAckOf seq r → ⊥)
      → Attempts seq bytes incoming (suc k) n l1 l' ok
      → Attempts seq bytes incoming k (suc n) l l' ok
  gave_up : {k : ℕ} {l : Link} → k ≡ max_retries + 1 → Attempts seq bytes incoming k 0 l l false

-- What `framing_send_reliable` did: the attempts it made, and why it stopped.
pub record Delivery (seq : ℕ) (bytes : List ℕ) (incoming : ℕ → List ℕ) (l l' : Link) (ok : Bool)
    : Type 0 where
  pub attempts : ℕ
  pub at_least_one : 1 ≤ attempts
  pub at_most_four : attempts ≤ max_retries + 1
  pub failed_after_all : ok ≡ false → attempts ≡ max_retries + 1
  pub counted_sent : l'.stats.frames_sent ≡ add32 l.stats.frames_sent attempts
  pub counted_resent : l'.stats.retransmits ≡ add32 l.stats.retransmits (attempts - 1)
  pub on_the_wire : l'.tx ≡ l.tx ++ copies attempts bytes
  pub each : Attempts seq bytes incoming 0 attempts l l' ok

-- The counters are uint32_t.
abbrev pub CountersFit : Link → Type 0
CountersFit l = (l.stats.frames_sent < 2 ^ 32) × (l.stats.retransmits < 2 ^ 32)

-- Which of `n` attempts from number `k` on are retransmissions.
abbrev resends : ℕ → ℕ → ℕ
resends zero n = n - 1
resends (suc k) n = n

-- What `n` attempts from number `k` on count and send.
record Counted (k n : ℕ) (bytes : List ℕ) (l l' : Link) : Type 0 where
  sent : l'.stats.frames_sent ≡ add32 l.stats.frames_sent n
  resent : l'.stats.retransmits ≡ add32 l.stats.retransmits (resends k n)
  wire : l'.tx ≡ l.tx ++ copies n bytes

recv-KeepsSent : (l l' : Link) (r : Received) → framing_recv l ≡ (r, l') → KeepsSent l l'
recv-KeepsSent l l' r e = subst (KeepsSent l) (ap (λ p. p.1) e) (framing_recv-KeepsSent l)

resent_in-lt : (k count : ℕ) → count < 2 ^ 32 → resent_in k count < 2 ^ 32
resent_in-lt zero count lt = lt
resent_in-lt (suc k) count lt = omega arith

resends-one : (k count : ℕ) → count < 2 ^ 32 → resent_in k count ≡ add32 count (resends k 1)
resends-one zero count lt = omega arith
resends-one (suc k) count lt = refl

resends-suc : (k n count : ℕ) → add32 (resent_in k count) n ≡ add32 count (resends k (suc n))
resends-suc zero n count = omega arith
resends-suc (suc k) n count = omega arith

module _ (seq : ℕ) (bytes : List ℕ) (incoming : ℕ → List ℕ) where
  Attempts-Counted :
      {k n : ℕ} {l l' : Link} {ok : Bool}
      → Attempts seq bytes incoming k n l l' ok
      → CountersFit l
      → Counted k n bytes l l'
  Attempts-Counted (gave_up {l = l} last) (sent_fits, resent_fits) = record {
    sent = omega arith;
    resent = rw last (omega arith);
    wire = sym (append-nil l.tx);
  }
  Attempts-Counted (acked {k = k} {l = l} {l' = l'} {r = r} e ack) (sent_fits, resent_fits) =
      let kept = recv-KeepsSent (waiting_for_ack k bytes (incoming k) l) l' r e in
      record {
        sent = kept.sent;
        resent = kept.resent ∙ resends-one k l.stats.retransmits resent_fits;
        wire = kept.wire ∙ ap (λ x. l.tx ++ x) (sym (append-nil bytes));
      }
  Attempts-Counted (tried {k = k} {n = n} {l = l} {l1 = l1} {r = r} e other more) fit =
      let (sent_fits, resent_fits) = fit in
      let kept = recv-KeepsSent (waiting_for_ack k bytes (incoming k) l) l1 r e in
      let kept_sent = kept.sent in
      let kept_resent = kept.resent in
      let in_range = resent_in-lt k l.stats.retransmits resent_fits in
      let rest = Attempts-Counted more (omega arith, rw kept_resent in_range) in
      let rest_sent = rest.sent in
      record {
        sent = omega arith;
        resent =
            rest.resent ∙ ap (λ x. add32 x n) kept_resent ∙ resends-suc k n l.stats.retransmits;
        wire =
            rest.wire
            ∙ ap (λ x. x ++ copies n bytes) kept.wire
            ∙ append_assoc l.tx bytes (copies n bytes);
      }

-- What the loop did with `n` attempts left, from number `k` on.
record Looped (k n seq : ℕ) (bytes : List ℕ) (incoming : ℕ → List ℕ) (l l' : Link) (ok : Bool)
    : Type 0 where
  made : ℕ
  at_most : made ≤ n
  one_if_any : 1 ≤ n → 1 ≤ made
  all_failed : ok ≡ false → made ≡ n
  each : Attempts seq bytes incoming k made l l' ok

is_ack-true : (seq : ℕ) (r : Received) → is_ack seq r ≡ true → IsAckOf seq r
unfolding is_ack
is_ack-true seq (received f) h = (ground arith, ground arith)
is_ack-true seq (crc_error f) h = absurd (ground arith)
is_ack-true seq bad_len h = absurd (ground arith)
is_ack-true seq timeout h = absurd (ground arith)
is_ack-true seq out_of_fuel h = absurd (ground arith)

is_ack-false : (seq : ℕ) (r : Received) → is_ack seq r ≡ false → IsAckOf seq r → ⊥
unfolding is_ack
is_ack-false seq (received f) h (type, same) = absurd (ground arith)
is_ack-false seq (crc_error f) h a = a
is_ack-false seq bad_len h a = a
is_ack-false seq timeout h a = a
is_ack-false seq out_of_fuel h a = a

module _ (seq len : ℕ) (payload : List ℕ) (fits : FrameFits len payload) where
  abbrev bytes_sent : List ℕ
  bytes_sent = frame_bytes type_data seq len payload

  framing_send-ok :
      (l : Link)
      → (framing_send l type_data seq payload len).1 ≡ record l {
        stats = record (l.stats) { frames_sent = add32 l.stats.frames_sent 1 };
        tx = l.tx ++ bytes_sent;
      }
  unfolding framing_send put_on_wire
  framing_send-ok l = rw (framing_encode_lem type_data seq len payload fits)

  attempt_send_lem :
      (k : ℕ) (l : Link) (incoming : List ℕ)
      → framing_recv (waiting_for_ack k bytes_sent incoming l)
        ≡ attempt_send k l seq payload len incoming
  unfolding attempt_send
  attempt_send_lem zero l incoming =
      ap (λ x. framing_recv (arrive x incoming)) (sym (framing_send-ok l))
  attempt_send_lem (suc k) l incoming =
      ap (λ x. framing_recv (arrive x incoming))
        (sym (framing_send-ok (count_retransmit (suc k) l)))

  attempts_from-Looped :
      (n k : ℕ) (l : Link) (incoming : ℕ → List ℕ)
      → n + k ≡ max_retries + 1
      → Looped k n seq bytes_sent incoming l
          (attempts_from n k l seq payload len incoming).1
          (attempts_from n k l seq payload len incoming).0
  unfolding attempts_from
  attempts_from-Looped zero k l incoming total = record {
    made = 0;
    at_most = omega arith;
    one_if_any = λ le. le;
    all_failed = λ e. refl;
    each = gave_up {k = k} (omega arith);
  }
  attempts_from-Looped (suc n) k l incoming total =
      let sent = attempt_send k l seq payload len (incoming k) in
      let e = attempt_send_lem k l (incoming k) in
      let rest = attempts_from-Looped n (suc k) sent.1 incoming (omega arith) in
      let up = rest.at_most in
      elim (Bool-cases (is_ack seq sent.0)) [
        | inl yes_ack ↦ rw yes_ack (record {
          made = 1;
          at_most = omega arith;
          one_if_any = λ le. omega arith;
          all_failed = λ q. absurd (ground arith);
          each = acked e (is_ack-true seq sent.0 yes_ack);
        })
        | inr no_ack ↦ rw no_ack (record {
          made = suc rest.made;
          at_most = omega arith;
          one_if_any = λ le. omega arith;
          all_failed = λ q. ap suc (rest.all_failed q);
          each = tried e (is_ack-false seq sent.0 no_ack) rest.each;
        })
      ]

  -- `framing_send_reliable` makes one to four attempts whatever comes in. Each puts the same frame on
  -- the wire and counts it, each after the first counts as a retransmission, and then it receives
  -- once from what is left of the input and what has come in. It stops with success at the first
  -- attempt whose reception is the acknowledgement of the sequence number, and with failure when none
  -- of the four is. The frame fits, and the counters are in the range of uint32_t.
  pub framing_send_reliable-Delivery :
      (l : Link) (incoming : ℕ → List ℕ)
      → CountersFit l
      → Delivery seq
          (frame_bytes type_data seq len payload)
          incoming
          l
          (framing_send_reliable l seq payload len incoming).1
          (framing_send_reliable l seq payload len incoming).0
  unfolding framing_send_reliable
  framing_send_reliable-Delivery l incoming fit =
      let run = attempts_from-Looped (max_retries + 1) 0 l incoming refl in
      let counted = Attempts-Counted seq bytes_sent incoming run.each fit in
      record {
        attempts = run.made;
        at_least_one = run.one_if_any (omega arith);
        at_most_four = run.at_most;
        failed_after_all = run.all_failed;
        counted_sent = counted.sent;
        counted_resent = counted.resent;
        on_the_wire = counted.wire;
        each = run.each;
      }
