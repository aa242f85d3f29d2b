-- ===== src/Cuckoo/Scheme/Segmented.antt =====
-- scheme.rs, the contract of `IndexScheme` for the segmented schemes: each candidate lies in its
-- own segment, and every candidate rebuilds the whole set in the same order.
mod Chain
mod Rebuild
use native.Mathlib.Nat.{one-le-pow, div-lt_iff_lt-mul}
use ikpir.Prelude.{
  ℕ, zero, suc, ◌+◌, ◌*◌, ◌/◌, ◌%◌, ◌^◌, ◌≤◌, ◌<◌, ◌≡◌, ◌⊎◌, refl, sym, ap, ◌∙◌, List, Option, some,
  arith, get_or, length,
}
use ikpir.Bits.{fields, split_number, two_pow_mono, mod-lt-two-pow}
use ikpir.Cuckoo.Hash.{hash_and_i1}
use ikpir.Cuckoo.Hash.Fingerprint.{hash_and_i1-lt}
use ikpir.Cuckoo.Scheme.{
  IndexScheme, SchemeKind, segmented_2ary, segmented_3ary, segmented_4ary, segmented_scheme,
  hash_item_segmented_2ary, hash_item_segmented_3ary, hash_item_segmented_4ary,
}
use Chain.{local, back, local-lt, back-lt, local-back, sum_1, sum_2, sum_3}
use Rebuild.{chain_2ary, chain_3ary, chain_4ary, rebuild_2ary, rebuild_3ary, rebuild_4ary}

-- `idx` is a candidate set of `fingerprint` over segments of `segment_size` buckets: candidate `j`
-- lies in segment `j`, and from it the scheme rebuilds the whole of `idx`.
pub record IsCandidates (s : IndexScheme) (segment_size fingerprint : ℕ) (idx : List ℕ)
    : Type 0 where
  pub four : length idx ≡ 4
  pub segment : (j : ℕ) → j < s.arity → get_or idx j 0 / segment_size ≡ j
  pub rebuild : (j : ℕ) → j < s.arity → s.all_indices (get_or idx j 0) fingerprint ≡ some idx

abbrev pub arity_of : SchemeKind → ℕ
arity_of segmented_2ary = 2
arity_of segmented_3ary = 3
arity_of segmented_4ary = 4

chain : SchemeKind → ℕ → ℕ → ℕ → List ℕ
chain segmented_2ary = chain_2ary
chain segmented_3ary = chain_3ary
chain segmented_4ary = chain_4ary

-- The number of buckets is a `u32`, so the exponent of the segment size is below 32.
exponent-lt : (kind : SchemeKind) (k : ℕ) → arity_of kind * 2 ^ k < 2 ^ 32 → k < 32
exponent-lt kind k small = ground (arith, two_pow_mono 32 k)

-- Candidate `j` stands in segment `j`, at its local index.
chain-index :
    (k : ℕ) (kind : SchemeKind) (f i1 j : ℕ)
    → arity_of kind * 2 ^ k < 2 ^ 32
    → i1 < 2 ^ k
    → j < arity_of kind
    → get_or (chain kind (2 ^ k) f i1) j 0 ≡ j * 2 ^ k + local (2 ^ k) f i1 j
unfolding chain local
chain-index k kind f i1 zero small h p = ground arith
chain-index k kind f i1 (suc zero) small h p =
    ground (arith, sum_1 k (local (2 ^ k) f i1 1), local-lt k (exponent-lt kind k small) f i1 1 h)
chain-index k kind f i1 (suc (suc zero)) small h p =
    ground (arith, sum_2 k (local (2 ^ k) f i1 2), local-lt k (exponent-lt kind k small) f i1 2 h)
chain-index k kind f i1 (suc (suc (suc zero))) small h p =
    ground (arith, sum_3 k (local (2 ^ k) f i1 3), local-lt k (exponent-lt kind k small) f i1 3 h)
chain-index k kind f i1 (suc (suc (suc (suc j)))) small h p = absurd (ground arith)

module _ (xxh3_128 : List ℕ → ℕ) (k : ℕ) (kind : SchemeKind)
    (small : arity_of kind * 2 ^ k < 2 ^ 32) where
  k_small : k < 32
  k_small = exponent-lt kind k small

  arity-scheme : (segmented_scheme xxh3_128 kind (2 ^ k)).arity ≡ arity_of kind
  unfolding segmented_scheme
  arity-scheme = ground arith

  rebuild_chain :
      (f i1 j : ℕ)
      → i1 < 2 ^ k
      → j < arity_of kind
      → (segmented_scheme xxh3_128 kind (2 ^ k)).all_indices
          (get_or (chain kind (2 ^ k) f i1) j 0)
          f
        ≡ some (chain kind (2 ^ k) f i1)
  unfolding segmented_scheme chain k_small
  rebuild_chain f i1 j h p = ground (
    arith,
    k_small,
    rebuild_2ary k k_small f i1 h j,
    rebuild_3ary k k_small f i1 h j,
    rebuild_4ary k k_small f i1 h j,
  )

  chain-IsCandidates :
      (f i1 : ℕ)
      → i1 < 2 ^ k
      → IsCandidates (segmented_scheme xxh3_128 kind (2 ^ k)) (2 ^ k) f (chain kind (2 ^ k) f i1)
  chain-IsCandidates f i1 h = record {
    four = unfold chain in ground arith;
    segment = λ j p.
        let p' : j < arity_of kind = rw arity-scheme at p in
        rw (chain-index k kind f i1 j small h p') (fields k j _ (local-lt k k_small f i1 j h)).0;
    rebuild = λ j p. let p' : j < arity_of kind = rw arity-scheme at p in rebuild_chain f i1 j h p';
  }

  hash_item-chain :
      (item : List ℕ) (b : ℕ)
      → let r = (segmented_scheme xxh3_128 kind (2 ^ k)).hash_item item b in
        r.1 ≡ chain kind (2 ^ k) r.0 (hash_and_i1 xxh3_128 item b (2 ^ k)).2
  unfolding segmented_scheme chain local hash_item_segmented_2ary hash_item_segmented_3ary
      hash_item_segmented_4ary
  hash_item-chain item b = ground arith

  -- Whatever an item hashes to is a candidate set of its fingerprint.
  pub hash_item-IsCandidates :
      (item : List ℕ) (b : ℕ)
      → let r = (segmented_scheme xxh3_128 kind (2 ^ k)).hash_item item b in
        IsCandidates (segmented_scheme xxh3_128 kind (2 ^ k)) (2 ^ k) r.0 r.1
  hash_item-IsCandidates item b =
      rw (hash_item-chain item b)
        (chain-IsCandidates _ _ (hash_and_i1-lt xxh3_128 item b k k_small))

  -- From every bucket of the table and every fingerprint, the scheme rebuilds a candidate set that
  -- has this bucket at the place of its own segment.
  pub all_indices-IsCandidates :
      (cur f : ℕ)
      → cur < arity_of kind * 2 ^ k
      → (idx : List ℕ) × ((segmented_scheme xxh3_128 kind (2 ^ k)).all_indices cur f ≡ some idx)
        × IsCandidates (segmented_scheme xxh3_128 kind (2 ^ k)) (2 ^ k) f idx
        × (get_or idx (cur / 2 ^ k) 0 ≡ cur)
  all_indices-IsCandidates cur f h =
      let j = cur / 2 ^ k in
      let i1 = back (2 ^ k) f (cur % 2 ^ k) j in
      let i1-lt = back-lt k k_small f (cur % 2 ^ k) j (mod-lt-two-pow k cur) in
      let j-lt : j < arity_of kind = (div-lt_iff_lt-mul (one-le-pow k 2 (omega arith))).1 h in
      let here : get_or (chain kind (2 ^ k) f i1) j 0 ≡ cur =
        rw (chain-index k kind f i1 j small i1-lt j-lt, local-back) (sym (split_number k cur)) in
      (
        chain kind (2 ^ k) f i1,
        rw here at (rebuild_chain f i1 j i1-lt j-lt),
        chain-IsCandidates f i1 i1-lt,
        here,
      )
