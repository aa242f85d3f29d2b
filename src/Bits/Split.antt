-- ===== src/Bits/Split.antt =====
-- An operation that works digit by digit splits at every bit position and keeps a width; then the
-- consequences that the code relies on: masks, disjoint fields, cleared fields, `^` twice.
use Prim.Native.Nat.{bit_and-bitwise, bit_or-bitwise}
use native.Mathlib.Nat.{
  add-zero, add-suc, pow-suc, one-le-pow, mod-lt, pow-le-pow_right, div-eq_of_lt-le,
}
use ikpir.Prelude.{
  ℕ, zero, suc, ◌+◌, ◌-◌, ◌*◌, ◌/◌, ◌%◌, ◌^◌, ◌≤◌, ◌<◌, min, max, bit_and, bit_or, bit_xor, ◌≡◌,
  refl, ap, arith,
}
use ikpir.Bits.Step.{bit_and_step, bit_or_step, bit_xor_step}

double_weight : (k high : ℕ) → high * 2 ^ suc k ≡ 2 * (high * 2 ^ k)
double_weight k high = omega (arith, ap (λ (weight : ℕ). high * weight) (pow-suc 2 k))

pub two_pow_mono : (i j : ℕ) → i ≤ j → 2 ^ i ≤ 2 ^ j
two_pow_mono i j h = pow-le-pow_right {n = 2} (omega arith) {i = i} {j = j} h

pub two_pow_add : (i j : ℕ) → 2 ^ (i + j) ≡ 2 ^ i * 2 ^ j
two_pow_add i zero = simp add-zero (omega arith)
two_pow_add i (suc j) =
    let up : 2 ^ suc (i + j) ≡ 2 ^ (i + j) * 2 = pow-suc 2 (i + j) in
    rw (add-suc, up, two_pow_add i j, pow-suc 2 j) (omega arith)

pub two_pow_pos : (k : ℕ) → 0 < 2 ^ k
two_pow_pos k = one-le-pow k 2 (omega arith)

pub split_number : (k a : ℕ) → a ≡ (a / 2 ^ k) * 2 ^ k + a % 2 ^ k
split_number k a = ground arith

-- The part of a number above a position, and the part below it.
pub fields : (k q r : ℕ) → r < 2 ^ k → ((q * 2 ^ k + r) / 2 ^ k ≡ q) × ((q * 2 ^ k + r) % 2 ^ k ≡ r)
fields k q r h =
    let quotient : (q * 2 ^ k + r) / 2 ^ k ≡ q =
      div-eq_of_lt-le (2 ^ k) (omega arith) (omega arith) in
    (quotient, omega (arith, split_number k (q * 2 ^ k + r), ap (λ (t : ℕ). t * 2 ^ k) quotient))

pub mod-lt-two-pow : (k a : ℕ) → a % 2 ^ k < 2 ^ k
mod-lt-two-pow k a = mod-lt a (one-le-pow k 2 (omega arith))

module _ (op d : ℕ → ℕ → ℕ) (step : (a b : ℕ) → op a b ≡ op (a / 2) (b / 2) * 2 + d (a % 2) (b % 2))
    (zeros : op 0 0 ≡ 0) where
  split_at :
      (k a b r s : ℕ)
      → r < 2 ^ k
      → s < 2 ^ k
      → op (a * 2 ^ k + r) (b * 2 ^ k + s) ≡ op a b * 2 ^ k + op r s
  split_at zero a b r s p q = ground (arith, zeros)
  split_at (suc k) a b r s p q = ground (
    arith,
    step (a * 2 ^ suc k + r) (b * 2 ^ suc k + s),
    step r s,
    double_weight k a,
    double_weight k b,
    double_weight k (op a b),
    pow-suc 2 k,
    split_at k a b (r / 2) (s / 2),
  )

  width :
      ((x y : ℕ) → x < 2 → y < 2 → d x y < 2) → (k r s : ℕ) → r < 2 ^ k → s < 2 ^ k → op r s < 2 ^ k
  width small zero r s p q = ground (arith, zeros)
  width small (suc k) r s p q = ground (
    arith,
    step r s,
    pow-suc 2 k,
    small (r % 2) (s % 2) (omega arith) (omega arith),
    width small k (r / 2) (s / 2),
  )

pub bit_and_split :
    (k a b r s : ℕ)
    → r < 2 ^ k
    → s < 2 ^ k
    → bit_and (a * 2 ^ k + r) (b * 2 ^ k + s) ≡ bit_and a b * 2 ^ k + bit_and r s
bit_and_split = split_at bit_and min bit_and_step refl

pub bit_or_split :
    (k a b r s : ℕ)
    → r < 2 ^ k
    → s < 2 ^ k
    → bit_or (a * 2 ^ k + r) (b * 2 ^ k + s) ≡ bit_or a b * 2 ^ k + bit_or r s
bit_or_split = split_at bit_or max bit_or_step refl

pub bit_xor-lt : (k r s : ℕ) → r < 2 ^ k → s < 2 ^ k → bit_xor r s < 2 ^ k
bit_xor-lt = width bit_xor (λ x y. (x + y) % 2) bit_xor_step refl (λ x y p q. omega arith)

pub bit_and-lt : (k r s : ℕ) → r < 2 ^ k → s < 2 ^ k → bit_and r s < 2 ^ k
bit_and-lt = width bit_and min bit_and_step refl (λ x y p q. omega arith)

pub bit_or-lt : (k r s : ℕ) → r < 2 ^ k → s < 2 ^ k → bit_or r s < 2 ^ k
bit_or-lt = width bit_or max bit_or_step refl (λ x y p q. omega arith)

xor_twice_below : (n a b : ℕ) → a ≤ n → b ≤ n → bit_xor (bit_xor a b) b ≡ a
xor_twice_below zero zero zero p q = refl
xor_twice_below zero (suc a) b p q = absurd (omega arith)
xor_twice_below zero zero (suc b) p q = absurd (omega arith)
xor_twice_below (suc n) a b p q =
    ground
      (arith, bit_xor_step a b, bit_xor_step (bit_xor a b) b, xor_twice_below n (a / 2) (b / 2))

pub bit_xor_twice : (a b : ℕ) → bit_xor (bit_xor a b) b ≡ a
bit_xor_twice a b = xor_twice_below (max a b) a b (omega arith) (omega arith)

zero-bit_or : (a : ℕ) → bit_or 0 a ≡ a
zero-bit_or a = bit_or-bitwise 0 a

zero-bit_and : (a : ℕ) → bit_and 0 a ≡ 0
zero-bit_and a = bit_and-bitwise 0 a

bit_or-zero_below : (n a : ℕ) → a ≤ n → bit_or a 0 ≡ a
bit_or-zero_below zero zero h = refl
bit_or-zero_below zero (suc a) h = absurd (omega arith)
bit_or-zero_below (suc n) a h =
    omega (arith, bit_or_step a 0, bit_or-zero_below n (a / 2) (omega arith))

pub bit_or-zero : (a : ℕ) → bit_or a 0 ≡ a
bit_or-zero a = bit_or-zero_below a a (omega arith)

bit_and-zero_below : (n a : ℕ) → a ≤ n → bit_and a 0 ≡ 0
bit_and-zero_below zero zero h = refl
bit_and-zero_below zero (suc a) h = absurd (omega arith)
bit_and-zero_below (suc n) a h =
    omega (arith, bit_and_step a 0, bit_and-zero_below n (a / 2) (omega arith))

pub bit_and-zero : (a : ℕ) → bit_and a 0 ≡ 0
bit_and-zero a = bit_and-zero_below a a (omega arith)

-- A mask of ones keeps a number that fits.
bit_and-ones : (k r : ℕ) → r < 2 ^ k → bit_and r (2 ^ k - 1) ≡ r
bit_and-ones zero r h = ground (arith, bit_and-zero r)
bit_and-ones (suc k) r h = ground (
  arith,
  bit_and_step r (2 ^ suc k - 1),
  pow-suc 2 k,
  one-le-pow k 2 (omega arith),
  bit_and-ones k (r / 2),
)

-- A mask of `k` low ones is the remainder by `2 ^ k`.
pub bit_and_mask : (k a : ℕ) → bit_and a (2 ^ k - 1) ≡ a % 2 ^ k
bit_and_mask k a = ground (
  arith,
  split_number k a,
  one-le-pow k 2 (omega arith),
  bit_and_split k (a / 2 ^ k) 0 (a % 2 ^ k) (2 ^ k - 1),
  mod-lt-two-pow k a,
  bit_and-zero (a / 2 ^ k),
  bit_and-ones k (a % 2 ^ k),
)

-- Disjoint fields add up.
pub bit_or_fields : (k q r : ℕ) → r < 2 ^ k → bit_or r (q * 2 ^ k) ≡ q * 2 ^ k + r
bit_or_fields k q r h = ground (arith, bit_or_split k 0 q r 0, zero-bit_or q, bit_or-zero r)
