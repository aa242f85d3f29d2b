-- ===== src/Cuckoo/Hash.antt =====
-- crates/segmented-cuckoo/src/hash.rs: fingerprints, fingerprint hashes and the digit-wise sums.
-- A `u64` product and the casts wrap; `xxh3_128` is the third-party digest, a parameter.
pub mod Fingerprint
use ikpir.Prelude.{
  ℕ, ◌+◌, ◌-◌, ◌*◌, ◌/◌, ◌%◌, ◌^◌, bit_and, bit_or, bit_xor, List, zero, suc, u32, u64, sub32,
  mul64, ◌>>>◌, leb, ◌==◌, if◌then◌else◌, get_or, [], ◌∷◌,
}

-- `(fingerprint.wrapping_mul(c) >> 32) as u32`
mix : ℕ → ℕ → ℕ
mix multiplier fingerprint = u32 (mul64 fingerprint multiplier >>> 32)

unfoldable pub fingerprint_hash1 : ℕ → ℕ → ℕ
unfolding mix
fingerprint_hash1 fingerprint range = bit_and (mix 0xff51afd7ed558ccd fingerprint) (sub32 range 1)

unfoldable pub fingerprint_hash2 : ℕ → ℕ → ℕ
unfolding mix
fingerprint_hash2 fingerprint range = bit_and (mix 0xc4ceb9fe1a85ec53 fingerprint) (sub32 range 1)

unfoldable pub fingerprint_hash3 : ℕ → ℕ → ℕ
unfolding mix
fingerprint_hash3 fingerprint range = bit_and (mix 0x9e3779b97f4a7c15 fingerprint) (sub32 range 1)

unfoldable pub fingerprint_hash_mod : ℕ → ℕ → ℕ
unfolding mix
fingerprint_hash_mod fingerprint range = mix 0xff51afd7ed558ccd fingerprint % range

unfoldable pub extract_fingerprint : ℕ → ℕ → ℕ
extract_fingerprint h fingerprint_bits =
    let mask = if leb 64 fingerprint_bits then 2 ^ 64 - 1 else 2 ^ fingerprint_bits - 1 in
    let fingerprint = bit_and h mask in if fingerprint == 0 then 1 else fingerprint

-- The digest, the fingerprint from its low half and the primary index from its high half.
unfoldable pub hash_and_i1 : (List ℕ → ℕ) → List ℕ → ℕ → ℕ → ℕ × ℕ × ℕ
hash_and_i1 xxh3_128 item fingerprint_bits range =
    let h = xxh3_128 item in
    (h, extract_fingerprint (u64 h) fingerprint_bits, bit_and (u32 (h >>> 64)) (sub32 range 1))

-- Base-4 digit-wise sum, by one addition of the low bits and one of the high bits of each digit.
unfoldable pub xor4 : ℕ → ℕ → ℕ
xor4 a b =
    let lo_mask : ℕ = 0x55555555 in
    let a_lo = bit_and a lo_mask in
    let b_lo = bit_and b lo_mask in
    let a_hi = bit_and (a >>> 1) lo_mask in
    let b_hi = bit_and (b >>> 1) lo_mask in
    let sum_lo = bit_xor a_lo b_lo in
    let carry = bit_and a_lo b_lo in
    let sum_hi = bit_xor (bit_xor a_hi b_hi) carry in bit_or sum_lo (u32 (sum_hi * 2 ^ 1))

-- The inner loop of `build_xor3_t81`: `XOR3_CHUNK_DIGITS - d` digits to go at weight `place`.
xor3_digits : ℕ → ℕ → ℕ → ℕ → ℕ → ℕ
xor3_digits zero x y r place = r
xor3_digits (suc d) x y r place =
    xor3_digits d x y (r + ((x / place) % 3 + (y / place) % 3) % 3 * place) (place * 3)

-- The entry `XOR3_T81[x][y]`, which is stored in a byte.
unfoldable pub xor3_t81 : ℕ → ℕ → ℕ
unfolding xor3_digits
xor3_t81 x y = xor3_digits 4 x y 0 1 % 2 ^ 8

-- Base-3 digit-wise sum of the low twenty digits, four at a time.
unfoldable pub xor3 : ℕ → ℕ → ℕ
xor3 a b =
    let c0 = xor3_t81 (a % 81) (b % 81) in
    let c1 = xor3_t81 ((a / 81) % 81) ((b / 81) % 81) in
    let c2 = xor3_t81 ((a / 6561) % 81) ((b / 6561) % 81) in
    let c3 = xor3_t81 ((a / 531441) % 81) ((b / 531441) % 81) in
    let c4 = xor3_t81 ((a / 43046721) % 81) ((b / 43046721) % 81) in
    c0 + c1 * 81 + c2 * 6561 + c3 * 531441 + c4 * 43046721
