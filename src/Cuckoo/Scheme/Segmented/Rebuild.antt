-- ===== src/Cuckoo/Scheme/Segmented/Rebuild.antt =====
-- The three `all_indices_segmented_*` functions, called on candidate `j` of a chain, return the
-- chain.
use ikpir.Prelude.{
  ℕ, zero, suc, ◌*◌, ◌^◌, ◌≤◌, ◌<◌, ◌≡◌, List, [], ◌∷◌, some, arith, add32, mul32, get_or,
}
use ikpir.Bits.{bit_xor_twice}
use ikpir.Cuckoo.Hash.{fingerprint_hash1, fingerprint_hash2, fingerprint_hash3}
use ikpir.Cuckoo.Scheme.{
  all_indices_segmented_2ary, all_indices_segmented_3ary, all_indices_segmented_4ary,
}
use ikpir.Cuckoo.Scheme.Segmented.Chain.{local, local-lt, locate, sum_1, sum_2, sum_3}

-- The candidates with their local indices on one chain, for each arity.
abbrev pub chain_2ary : ℕ → ℕ → ℕ → List ℕ
chain_2ary size f i1 = i1 ∷ add32 size (local size f i1 1) ∷ 0 ∷ 0 ∷ []

abbrev pub chain_3ary : ℕ → ℕ → ℕ → List ℕ
chain_3ary size f i1 =
    i1 ∷ add32 size (local size f i1 1) ∷ add32 (mul32 2 size) (local size f i1 2) ∷ 0 ∷ []

abbrev pub chain_4ary : ℕ → ℕ → ℕ → List ℕ
chain_4ary size f i1 =
    i1
    ∷ add32 size (local size f i1 1)
    ∷ add32 (mul32 2 size) (local size f i1 2)
    ∷ add32 (mul32 3 size) (local size f i1 3)
    ∷ []

module _ (k : ℕ) (k_small : k < 32) (f : ℕ) (i1 : ℕ) (h : i1 < 2 ^ k) where
  l1 : ℕ
  l1 = local (2 ^ k) f i1 1

  l2 : ℕ
  l2 = local (2 ^ k) f i1 2

  l3 : ℕ
  l3 = local (2 ^ k) f i1 3

  pub rebuild_2ary :
      (j : ℕ)
      → j < 2
      → 2 * 2 ^ k ≤ 2 ^ 32
      → all_indices_segmented_2ary (get_or (chain_2ary (2 ^ k) f i1) j 0) f (2 ^ k)
        ≡ chain_2ary (2 ^ k) f i1
  unfolding all_indices_segmented_2ary local
  rebuild_2ary zero p small = ground arith
  rebuild_2ary (suc zero) p small =
      ground (arith, local-lt k k_small f i1 1 h, bit_xor_twice i1 (fingerprint_hash1 f (2 ^ k)))
  rebuild_2ary (suc (suc j)) p small = absurd (omega arith)

  pub rebuild_3ary :
      (j : ℕ)
      → j < 3
      → 3 * 2 ^ k ≤ 2 ^ 32
      → all_indices_segmented_3ary (get_or (chain_3ary (2 ^ k) f i1) j 0) f (2 ^ k)
        ≡ some (chain_3ary (2 ^ k) f i1)
  unfolding all_indices_segmented_3ary local l1 l2
  rebuild_3ary zero p small =
      ground (arith, locate k 0 i1, bit_xor_twice i1 (fingerprint_hash1 f (2 ^ k)))
  rebuild_3ary (suc zero) p small = ground (
    arith,
    locate k 1 l1,
    sum_1 k l1,
    local-lt k k_small f i1 1 h,
    bit_xor_twice i1 (fingerprint_hash1 f (2 ^ k)),
  )
  rebuild_3ary (suc (suc zero)) p small = ground (
    arith,
    locate k 2 l2,
    sum_2 k l2,
    local-lt k k_small f i1 2 h,
    bit_xor_twice i1 (fingerprint_hash1 f (2 ^ k)),
    bit_xor_twice l1 (fingerprint_hash2 f (2 ^ k)),
  )
  rebuild_3ary (suc (suc (suc j))) p small = absurd (omega arith)

  pub rebuild_4ary :
      (j : ℕ)
      → j < 4
      → 4 * 2 ^ k ≤ 2 ^ 32
      → all_indices_segmented_4ary (get_or (chain_4ary (2 ^ k) f i1) j 0) f (2 ^ k)
        ≡ some (chain_4ary (2 ^ k) f i1)
  unfolding all_indices_segmented_4ary local l1 l2 l3
  rebuild_4ary zero p small = ground (arith, locate k 0 i1)
  rebuild_4ary (suc zero) p small = ground (
    arith,
    locate k 1 l1,
    sum_1 k l1,
    local-lt k k_small f i1 1 h,
    bit_xor_twice i1 (fingerprint_hash1 f (2 ^ k)),
  )
  rebuild_4ary (suc (suc zero)) p small = ground (
    arith,
    locate k 2 l2,
    sum_2 k l2,
    local-lt k k_small f i1 2 h,
    bit_xor_twice i1 (fingerprint_hash1 f (2 ^ k)),
    bit_xor_twice l1 (fingerprint_hash2 f (2 ^ k)),
  )
  rebuild_4ary (suc (suc (suc zero))) p small = ground (
    arith,
    locate k 3 l3,
    sum_3 k l3,
    local-lt k k_small f i1 3 h,
    bit_xor_twice i1 (fingerprint_hash1 f (2 ^ k)),
    bit_xor_twice l1 (fingerprint_hash2 f (2 ^ k)),
    bit_xor_twice l2 (fingerprint_hash3 f (2 ^ k)),
  )
  rebuild_4ary (suc (suc (suc (suc j)))) p small = absurd (omega arith)
