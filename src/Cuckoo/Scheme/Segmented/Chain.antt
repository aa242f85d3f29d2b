-- ===== src/Cuckoo/Scheme/Segmented/Chain.antt =====
-- The chain of local indices that every segmented scheme walks, forward from the first segment
-- and back to it, and where an index of the table stands.
use ikpir.Prelude.{
  ℕ, zero, suc, ◌+◌, ◌*◌, ◌/◌, ◌^◌, ◌≤◌, ◌<◌, bit_xor, ◌≡◌, refl, arith, add32, sub32, mul32,
}
use ikpir.Bits.{fields, bit_xor-lt, bit_xor_twice}
use ikpir.Cuckoo.Hash.{fingerprint_hash1, fingerprint_hash2, fingerprint_hash3}
use ikpir.Cuckoo.Hash.Fingerprint.{fingerprint_hash1-lt, fingerprint_hash2-lt, fingerprint_hash3-lt}

-- The local index in segment `j`, from the one in segment 0.
unfoldable pub local : ℕ → ℕ → ℕ → ℕ → ℕ
local size f i1 zero = i1
local size f i1 (suc zero) = bit_xor i1 (fingerprint_hash1 f size)
local size f i1 (suc (suc zero)) =
    bit_xor (bit_xor i1 (fingerprint_hash1 f size)) (fingerprint_hash2 f size)
local size f i1 (suc (suc (suc _))) =
    bit_xor (bit_xor (bit_xor i1 (fingerprint_hash1 f size)) (fingerprint_hash2 f size))
      (fingerprint_hash3 f size)

-- The local index in segment 0, from the one in segment `j`.
unfoldable pub back : ℕ → ℕ → ℕ → ℕ → ℕ
back size f l zero = l
back size f l (suc zero) = bit_xor l (fingerprint_hash1 f size)
back size f l (suc (suc zero)) =
    bit_xor (bit_xor l (fingerprint_hash2 f size)) (fingerprint_hash1 f size)
back size f l (suc (suc (suc _))) =
    bit_xor (bit_xor (bit_xor l (fingerprint_hash3 f size)) (fingerprint_hash2 f size))
      (fingerprint_hash1 f size)

pub local-back : (size f l j : ℕ) → local size f (back size f l j) j ≡ l
unfolding local back
local-back size f l zero = refl
local-back size f l (suc zero) = simp bit_xor_twice
local-back size f l (suc (suc zero)) = simp bit_xor_twice
local-back size f l (suc (suc (suc _))) = simp bit_xor_twice

module _ (k : ℕ) (k_small : k < 32) where
  hop_1 : (f l : ℕ) → l < 2 ^ k → bit_xor l (fingerprint_hash1 f (2 ^ k)) < 2 ^ k
  hop_1 f l h = bit_xor-lt k _ _ h (fingerprint_hash1-lt k f k_small)

  hop_2 : (f l : ℕ) → l < 2 ^ k → bit_xor l (fingerprint_hash2 f (2 ^ k)) < 2 ^ k
  hop_2 f l h = bit_xor-lt k _ _ h (fingerprint_hash2-lt k f k_small)

  hop_3 : (f l : ℕ) → l < 2 ^ k → bit_xor l (fingerprint_hash3 f (2 ^ k)) < 2 ^ k
  hop_3 f l h = bit_xor-lt k _ _ h (fingerprint_hash3-lt k f k_small)

  pub local-lt : (f i1 j : ℕ) → i1 < 2 ^ k → local (2 ^ k) f i1 j < 2 ^ k
  unfolding local
  local-lt f i1 zero h = h
  local-lt f i1 (suc zero) h = hop_1 f _ h
  local-lt f i1 (suc (suc zero)) h = hop_2 f _ (hop_1 f _ h)
  local-lt f i1 (suc (suc (suc _))) h = hop_3 f _ (hop_2 f _ (hop_1 f _ h))

  pub back-lt : (f l j : ℕ) → l < 2 ^ k → back (2 ^ k) f l j < 2 ^ k
  unfolding back
  back-lt f l zero h = h
  back-lt f l (suc zero) h = hop_1 f _ h
  back-lt f l (suc (suc zero)) h = hop_1 f _ (hop_2 f _ h)
  back-lt f l (suc (suc (suc _))) h = hop_1 f _ (hop_2 f _ (hop_3 f _ h))

-- The segment and the offset that the code computes for an index.
pub locate :
    (k j l : ℕ)
    → l < 2 ^ k
    → (j + 1) * 2 ^ k ≤ 2 ^ 32
    → ((j * 2 ^ k + l) / 2 ^ k ≡ j)
      × (sub32 (j * 2 ^ k + l) (mul32 ((j * 2 ^ k + l) / 2 ^ k) (2 ^ k)) ≡ l)
locate k j l h small =
    let at : (j * 2 ^ k + l) / 2 ^ k ≡ j = (fields k j l h).0 in (at, rw at (grind arith))

-- The code's sums do not wrap.
pub sum_1 : (k l : ℕ) → l < 2 ^ k → 2 * 2 ^ k ≤ 2 ^ 32 → add32 (2 ^ k) l ≡ 1 * 2 ^ k + l
sum_1 k l h small = omega arith

pub sum_2 : (k l : ℕ) → l < 2 ^ k → 3 * 2 ^ k ≤ 2 ^ 32 → add32 (mul32 2 (2 ^ k)) l ≡ 2 * 2 ^ k + l
sum_2 k l h small = omega arith

pub sum_3 : (k l : ℕ) → l < 2 ^ k → 4 * 2 ^ k ≤ 2 ^ 32 → add32 (mul32 3 (2 ^ k)) l ≡ 3 * 2 ^ k + l
sum_3 k l h small = omega arith
