-- ===== src/Bits.antt =====
-- Laws of exclusive or at variables, for the CRC of lib/uart/framing.c: it can be cancelled, also in
-- the low bits alone, and keeps a width.
use Prim.Native.Nat.{bit_xor, bit_xor-bitwise, digits, differ}
use native.Mathlib.Nat.{pow-suc, mod-add-div', add-mul-mod_self_right, mod-eq_of_lt, mod-lt}
use cortex_forge_aarch64_bar.Prelude.{
  ℕ, zero, suc, ◌+◌, ◌*◌, ◌/◌, ◌%◌, ◌^◌, ◌≡◌, ◌≤◌, ◌<◌, refl, ap, ◌∙◌, arith,
}

abbrev xor_digits : ℕ → ℕ → ℕ → ℕ
xor_digits n a b = digits (λ b. b) differ n a b

xor_digits_fuel : (n m a b : ℕ) → a ≤ n → a ≤ m → xor_digits n a b ≡ xor_digits m a b
xor_digits_fuel zero zero a b p q = refl
xor_digits_fuel zero (suc m) zero b p q = refl
xor_digits_fuel zero (suc m) (suc a) b p q = absurd (omega arith)
xor_digits_fuel (suc n) zero zero b p q = refl
xor_digits_fuel (suc n) zero (suc a) b p q = absurd (omega arith)
xor_digits_fuel (suc n) (suc m) zero b p q = refl
xor_digits_fuel (suc n) (suc m) (suc a) b p q =
    omega (arith, xor_digits_fuel n m (suc a / 2) (b / 2) (omega arith) (omega arith))

differ-mod : (x y : ℕ) → x < 2 → y < 2 → differ x y ≡ (x + y) % 2
differ-mod zero zero p q = refl
differ-mod zero (suc zero) p q = refl
differ-mod (suc zero) zero p q = refl
differ-mod (suc zero) (suc zero) p q = refl
differ-mod zero (suc (suc y)) p q = absurd (omega arith)
differ-mod (suc zero) (suc (suc y)) p q = absurd (omega arith)
differ-mod (suc (suc x)) y p q = absurd (omega arith)

zero-bit_xor : (b : ℕ) → bit_xor 0 b ≡ b
zero-bit_xor b = bit_xor-bitwise 0 b

-- The lowest digit.
pub bit_xor_step : (a b : ℕ) → bit_xor a b ≡ bit_xor (a / 2) (b / 2) * 2 + (a % 2 + b % 2) % 2
bit_xor_step zero b = omega (arith, zero-bit_xor b, zero-bit_xor (b / 2))
bit_xor_step (suc a) b = omega (
  arith,
  bit_xor-bitwise (suc a) b,
  bit_xor-bitwise (suc a / 2) (b / 2),
  xor_digits_fuel a (suc a / 2) (suc a / 2) (b / 2) (omega arith) (omega arith),
  differ-mod (suc a % 2) (b % 2) (omega arith) (omega arith),
)

bit_xor-cancel_fuel : (n a b c : ℕ) → a ≤ n → b ≤ n → bit_xor a c ≡ bit_xor b c → a ≡ b
bit_xor-cancel_fuel zero a b c p q e = omega arith
bit_xor-cancel_fuel (suc n) a b c p q e =
    let half : bit_xor (a / 2) (c / 2) ≡ bit_xor (b / 2) (c / 2) =
      omega (arith, bit_xor_step a c, bit_xor_step b c) in
    omega (
      arith,
      bit_xor_step a c,
      bit_xor_step b c,
      bit_xor-cancel_fuel n (a / 2) (b / 2) (c / 2) (omega arith) (omega arith) half,
    )

pub bit_xor-cancel_right : (a b c : ℕ) → bit_xor a c ≡ bit_xor b c → a ≡ b
bit_xor-cancel_right a b c e = bit_xor-cancel_fuel (a + b) a b c (omega arith) (omega arith) e

bit_xor-comm_fuel : (n a b : ℕ) → a ≤ n → b ≤ n → bit_xor a b ≡ bit_xor b a
bit_xor-comm_fuel zero a b p q =
    let e : a ≡ 0 = omega arith in let d : b ≡ 0 = omega arith in rw (e, d)
bit_xor-comm_fuel (suc n) a b p q = omega (
  arith,
  bit_xor_step a b,
  bit_xor_step b a,
  bit_xor-comm_fuel n (a / 2) (b / 2) (omega arith) (omega arith),
)

pub bit_xor_comm : (a b : ℕ) → bit_xor a b ≡ bit_xor b a
bit_xor_comm a b = bit_xor-comm_fuel (a + b) a b (omega arith) (omega arith)

pub bit_xor-cancel_left : (a b c : ℕ) → bit_xor c a ≡ bit_xor c b → a ≡ b
bit_xor-cancel_left a b c e = bit_xor-cancel_right a b c (bit_xor_comm a c ∙ e ∙ bit_xor_comm c b)

pub bit_xor-lt : (k a b : ℕ) → a < 2 ^ k → b < 2 ^ k → bit_xor a b < 2 ^ k
bit_xor-lt zero a b p q =
    let e : a ≡ 0 = omega arith in let d : b ≡ 0 = omega arith in rw (e, d) (omega arith)
bit_xor-lt (suc k) a b p q = omega (
  arith,
  pow-suc 2 k,
  bit_xor_step a b,
  bit_xor-lt k (a / 2) (b / 2) (omega (arith, pow-suc 2 k)) (omega (arith, pow-suc 2 k)),
)

mod-digit : (x d p : ℕ) → d < 2 → 0 < p → (x * 2 + d) % (p * 2) ≡ x % p * 2 + d
mod-digit x d p small pos =
    ap (λ n. n % (p * 2)) whole
    ∙ add-mul-mod_self_right (x % p * 2 + d) (x / p) (p * 2)
    ∙ mod-eq_of_lt (omega (arith, mod-lt x pos))
  where
    whole : x * 2 + d ≡ x % p * 2 + d + x / p * (p * 2)
    whole = omega (arith, ap (λ n. n * 2) (mod-add-div' x p))

pow_pos : (j : ℕ) → 0 < 2 ^ j
pow_pos zero = omega arith
pow_pos (suc j) = omega (arith, pow-suc 2 j, pow_pos j)

low-digit : (k x : ℕ) → x % 2 ^ suc k ≡ x / 2 % 2 ^ k * 2 + x % 2
low-digit k x =
    ap (λ n. n % 2 ^ suc k) digits_of
    ∙ rw (pow-suc 2 k) (mod-digit (x / 2) (x % 2) (2 ^ k) (omega arith) (pow_pos k))
  where
    digits_of : x ≡ x / 2 * 2 + x % 2
    digits_of = omega arith

low-bit_xor :
    (k a c : ℕ)
    → bit_xor a c % 2 ^ suc k ≡ bit_xor (a / 2) (c / 2) % 2 ^ k * 2 + (a % 2 + c % 2) % 2
low-bit_xor k a c =
    rw (bit_xor_step a c, pow-suc 2 k)
      (mod-digit (bit_xor (a / 2) (c / 2)) ((a % 2 + c % 2) % 2) (2 ^ k) (omega arith) (pow_pos k))

-- Cancelling in the low `k` bits.
pub bit_xor-cancel_low :
    (k a b c : ℕ) → bit_xor a c % 2 ^ k ≡ bit_xor b c % 2 ^ k → a % 2 ^ k ≡ b % 2 ^ k
bit_xor-cancel_low zero a b c e = omega arith
bit_xor-cancel_low (suc k) a b c e =
    let halves : bit_xor (a / 2) (c / 2) % 2 ^ k ≡ bit_xor (b / 2) (c / 2) % 2 ^ k =
      omega (arith, low-bit_xor k a c, low-bit_xor k b c) in
    omega (
      arith,
      low-bit_xor k a c,
      low-bit_xor k b c,
      low-digit k a,
      low-digit k b,
      bit_xor-cancel_low k (a / 2) (b / 2) (c / 2) halves,
    )
