-- ===== src/Cuckoo/Hash/Fingerprint.antt =====
-- hash.rs: the ranges of the fingerprint and of the fingerprint hashes.
use native.Mathlib.Nat.{one-le-pow}
use ikpir.Prelude.{
  ℕ, ◌-◌, ◌%◌, ◌^◌, ◌≤◌, ◌<◌, bit_and, ◌≡◌, List, arith, sub32, ◌≢◌, if◌then◌else◌, ◌==◌,
}
use ikpir.Bits.{bit_and_mask, mod-lt-two-pow, two_pow_mono}
use ikpir.Cuckoo.Hash.{
  fingerprint_hash1, fingerprint_hash2, fingerprint_hash3, extract_fingerprint, hash_and_i1,
}

pub two-pow-lt-word : (k : ℕ) → k < 32 → 2 ^ k ≤ 2 ^ 31
two-pow-lt-word k h = two_pow_mono k 31 (omega arith)

-- A range of `2 ^ k`, `k < 32`, masks with `2 ^ k - 1`.
pub and-range : (k x : ℕ) → k < 32 → bit_and x (sub32 (2 ^ k) 1) ≡ x % 2 ^ k
and-range k x h =
    let one_less : sub32 (2 ^ k) 1 ≡ 2 ^ k - 1 =
      omega (arith, one-le-pow k 2 (omega arith), two-pow-lt-word k h) in
    rw one_less (bit_and_mask k x)

pub and-range-lt : (k x : ℕ) → k < 32 → bit_and x (sub32 (2 ^ k) 1) < 2 ^ k
and-range-lt k x h = rw (and-range k x h) (mod-lt-two-pow k x)

pub fingerprint_hash1-lt : (k f : ℕ) → k < 32 → fingerprint_hash1 f (2 ^ k) < 2 ^ k
unfolding fingerprint_hash1
fingerprint_hash1-lt k f h = and-range-lt k _ h

pub fingerprint_hash2-lt : (k f : ℕ) → k < 32 → fingerprint_hash2 f (2 ^ k) < 2 ^ k
unfolding fingerprint_hash2
fingerprint_hash2-lt k f h = and-range-lt k _ h

pub fingerprint_hash3-lt : (k f : ℕ) → k < 32 → fingerprint_hash3 f (2 ^ k) < 2 ^ k
unfolding fingerprint_hash3
fingerprint_hash3-lt k f h = and-range-lt k _ h

pub hash_and_i1-lt :
    (xxh3_128 : List ℕ → ℕ) (item : List ℕ) (b k : ℕ)
    → k < 32
    → (hash_and_i1 xxh3_128 item b (2 ^ k)).2 < 2 ^ k
unfolding hash_and_i1
hash_and_i1-lt xxh3_128 item b k h = and-range-lt k _ h

-- The low bits of the digest, but 1 in place of 0.
nonzero : ℕ → ℕ
nonzero x = if x == 0 then 1 else x

extract-eq : (h b : ℕ) → b ≤ 64 → extract_fingerprint h b ≡ nonzero (h % 2 ^ b)
unfolding extract_fingerprint nonzero
extract-eq h b le = ground (arith, bit_and_mask b h, bit_and_mask 64 h)

-- For a width of 1 to 64 bits the fingerprint is the digest's low bits, except that the value 0,
-- which marks an empty slot, becomes 1; so it is never 0 and always fits the width.
pub extract_fingerprint_lem :
    (h b : ℕ)
    → 1 ≤ b
    → b ≤ 64
    → (1 ≤ extract_fingerprint h b)
      × (extract_fingerprint h b < 2 ^ b)
      × (h % 2 ^ b ≢ 0 → extract_fingerprint h b ≡ h % 2 ^ b)
unfolding nonzero
extract_fingerprint_lem h b pos le =
    rw (extract-eq h b le) ground (arith, mod-lt-two-pow b h, two_pow_mono 1 b)
