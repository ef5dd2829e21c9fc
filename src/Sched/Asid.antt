-- ===== src/Sched/Asid.antt =====
-- `sched_asid_alloc` of sched/sched.c: the numbers of user address spaces.
use cortex_forge_aarch64_bar.Prelude.{
  ℕ, zero, suc, ◌+◌, ◌/◌, ◌%◌, ◌^◌, ◌≡◌, ◌≢◌, ◌⊎◌, ◌≤◌, inl, inr, refl, ◌==◌, if◌then◌else◌, arith,
  Bool-cases,
}

-- `next_asid`, with the number of flushes of the whole TLB so far.
pub record Asids : Type 0 where
  pub next_asid : ℕ
  pub flushes : ℕ

abbrev pub asids_init : Asids
asids_init = record { next_asid = 1; flushes = 0 }

unfoldable pub sched_asid_alloc : Asids → ℕ × Asids
sched_asid_alloc s =
    let next = (s.next_asid + 1) % 2 ^ 16 in
    (
      s.next_asid,
      if next == 0
          then record { next_asid = 1; flushes = s.flushes + 1 }
          else record s { next_asid = next },
    )

-- The state after `n` calls.
unfoldable pub after_calls : ℕ → Asids
after_calls zero = asids_init
after_calls (suc n) = (sched_asid_alloc (after_calls n)).1

-- The number that the call behind `n` others returns, and the flushes before it.
abbrev pub nth_asid : ℕ → ℕ
nth_asid n = (sched_asid_alloc (after_calls n)).0

abbrev pub nth_flushes : ℕ → ℕ
nth_flushes n = (after_calls n).flushes

after_calls-closed :
    (n : ℕ) → ((after_calls n).next_asid ≡ 1 + n % 65535) × ((after_calls n).flushes ≡ n / 65535)
unfolding after_calls sched_asid_alloc
after_calls-closed zero = (refl, refl)
after_calls-closed (suc n) =
    let (a, f) = after_calls-closed n in
    elim (Bool-cases (((after_calls n).next_asid + 1) % 2 ^ 16 == 0)) [
      | inl wrapped ↦ rw wrapped (ground arith, ground arith)
      | inr not_wrapped ↦ rw not_wrapped (ground arith, ground arith)
    ]

-- What two calls of `sched_asid_alloc` after boot promise: a number from 1 to 65535, and different
-- numbers unless the TLB was flushed between them.
pub record AsidOk (m n : ℕ) : Type 0 where
  pub positive : 1 ≤ nth_asid m
  pub in_range : nth_asid m ≤ 65535
  pub no_alias : (m ≡ n) ⊎ ((nth_flushes m ≢ nth_flushes n) ⊎ (nth_asid m ≢ nth_asid n))

-- Every number that `sched_asid_alloc` gives is from 1 to 65535, never the kernel's 0, and two calls
-- give the same number only if the whole TLB was flushed between them.
pub sched_asid_alloc-AsidOk : (m n : ℕ) → AsidOk m n
unfolding sched_asid_alloc
sched_asid_alloc-AsidOk m n =
    let (a, f) = after_calls-closed m in
    let (b, g) = after_calls-closed n in
    record {
      positive = omega arith;
      in_range = omega arith;
      no_alias = elim (Bool-cases (nth_asid m == nth_asid n)) [
        | inr differ ↦ inr (inr (λ e. ground arith))
        | inl same ↦ elim (Bool-cases (m / 65535 == n / 65535)) [
          | inl together ↦ inl (ground arith)
          | inr apart ↦ inr (inl (λ e. ground arith))
        ]
      ];
    }
