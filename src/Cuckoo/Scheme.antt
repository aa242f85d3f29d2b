-- ===== src/Cuckoo/Scheme.antt =====
-- crates/segmented-cuckoo/src/scheme.rs with the `hash_item_*` and `all_indices_*` functions of
-- hash.rs: the candidate buckets of an item, and their reconstruction from one of them. An array
-- `[u32; 4]` is a list of four; `none` is the panic of `unreachable!()`.
pub mod Segmented
use ikpir.Prelude.{
  ℕ, zero, suc, ◌+◌, ◌-◌, ◌*◌, ◌/◌, ◌%◌, ◌^◌, bit_xor, List, [], ◌∷◌, Option, none, some, u32, u64,
  add32, sub32, mul32, ◌>>>◌, ltb, if◌then◌else◌,
}
use ikpir.Cuckoo.Hash.{
  fingerprint_hash1, fingerprint_hash2, fingerprint_hash3, fingerprint_hash_mod,
  extract_fingerprint, hash_and_i1, xor3, xor4,
}

-- The trait `IndexScheme`, as its three operations.
pub record IndexScheme : Type 0 where
  pub arity : ℕ
  pub hash_item : List ℕ → ℕ → ℕ × List ℕ
  pub all_indices : ℕ → ℕ → Option (List ℕ)

module _ (xxh3_128 : List ℕ → ℕ) where
  unfoldable pub hash_item_segmented_2ary : List ℕ → ℕ → ℕ → ℕ × List ℕ
  hash_item_segmented_2ary item segment_size fingerprint_bits =
      let (_, fingerprint, i1) = hash_and_i1 xxh3_128 item fingerprint_bits segment_size in
      let i2 = add32 segment_size (bit_xor i1 (fingerprint_hash1 fingerprint segment_size)) in
      (fingerprint, i1 ∷ i2 ∷ 0 ∷ 0 ∷ [])

  unfoldable pub hash_item_segmented_3ary : List ℕ → ℕ → ℕ → ℕ × List ℕ
  hash_item_segmented_3ary item segment_size fingerprint_bits =
      let (_, fingerprint, i1) = hash_and_i1 xxh3_128 item fingerprint_bits segment_size in
      let h1 = fingerprint_hash1 fingerprint segment_size in
      let h2 = fingerprint_hash2 fingerprint segment_size in
      let i2_local = bit_xor i1 h1 in
      let i3_local = bit_xor i2_local h2 in
      (
        fingerprint,
        i1 ∷ add32 segment_size i2_local ∷ add32 (mul32 2 segment_size) i3_local ∷ 0 ∷ [],
      )

  unfoldable pub hash_item_segmented_4ary : List ℕ → ℕ → ℕ → ℕ × List ℕ
  hash_item_segmented_4ary item segment_size fingerprint_bits =
      let (_, fingerprint, i1) = hash_and_i1 xxh3_128 item fingerprint_bits segment_size in
      let h1 = fingerprint_hash1 fingerprint segment_size in
      let h2 = fingerprint_hash2 fingerprint segment_size in
      let h3 = fingerprint_hash3 fingerprint segment_size in
      let i2_local = bit_xor i1 h1 in
      let i3_local = bit_xor i2_local h2 in
      let i4_local = bit_xor i3_local h3 in
      (
        fingerprint,
        i1
            ∷ add32 segment_size i2_local
            ∷ add32 (mul32 2 segment_size) i3_local
            ∷ add32 (mul32 3 segment_size) i4_local
            ∷ [],
      )

  unfoldable pub hash_item_standard_2ary : List ℕ → ℕ → ℕ → ℕ × List ℕ
  hash_item_standard_2ary item num_buckets fingerprint_bits =
      let (_, fingerprint, i1) = hash_and_i1 xxh3_128 item fingerprint_bits num_buckets in
      let i2 = bit_xor i1 (fingerprint_hash1 fingerprint num_buckets) in
      (fingerprint, i1 ∷ i2 ∷ 0 ∷ 0 ∷ [])

  unfoldable pub hash_item_standard_3ary : List ℕ → ℕ → ℕ → ℕ × List ℕ
  hash_item_standard_3ary item num_buckets fingerprint_bits =
      let raw = xxh3_128 item in
      let fingerprint = extract_fingerprint (u64 raw) fingerprint_bits in
      let i1 = u32 (raw >>> 64) % num_buckets in
      let h = fingerprint_hash_mod fingerprint num_buckets in
      let i2 = xor3 i1 h in let i3 = xor3 i2 h in (fingerprint, i1 ∷ i2 ∷ i3 ∷ 0 ∷ [])

  unfoldable pub hash_item_standard_4ary : List ℕ → ℕ → ℕ → ℕ × List ℕ
  hash_item_standard_4ary item num_buckets fingerprint_bits =
      let (_, fingerprint, i1) = hash_and_i1 xxh3_128 item fingerprint_bits num_buckets in
      let h = fingerprint_hash1 fingerprint num_buckets in
      let i2 = xor4 i1 h in
      let i3 = xor4 i2 h in let i4 = xor4 i3 h in (fingerprint, i1 ∷ i2 ∷ i3 ∷ i4 ∷ [])

unfoldable pub all_indices_segmented_2ary : ℕ → ℕ → ℕ → List ℕ
all_indices_segmented_2ary cur_index fingerprint segment_size =
    let h1 = fingerprint_hash1 fingerprint segment_size in
    if ltb cur_index segment_size
    then cur_index ∷ add32 segment_size (bit_xor cur_index h1) ∷ 0 ∷ 0 ∷ []
    else bit_xor (sub32 cur_index segment_size) h1 ∷ cur_index ∷ 0 ∷ 0 ∷ []

-- The middle segment's local index, from the local index in the segment `position`.
hub_3ary : ℕ → ℕ → ℕ → ℕ → Option ℕ
hub_3ary zero local h1 h2 = some (bit_xor local h1)
hub_3ary (suc zero) local h1 h2 = some local
hub_3ary (suc (suc zero)) local h1 h2 = some (bit_xor local h2)
hub_3ary (suc (suc (suc _))) local h1 h2 = none

unfoldable pub all_indices_segmented_3ary : ℕ → ℕ → ℕ → Option (List ℕ)
unfolding hub_3ary
all_indices_segmented_3ary cur_index fingerprint segment_size =
    let h1 = fingerprint_hash1 fingerprint segment_size in
    let h2 = fingerprint_hash2 fingerprint segment_size in
    let position = cur_index / segment_size in
    let local = sub32 cur_index (mul32 position segment_size) in
    elim (hub_3ary position local h1 h2) [
      | none ↦ none
      | some i2_local ↦
          let i1 = bit_xor i2_local h1 in
          let i3_local = bit_xor i2_local h2 in
          some (i1 ∷ add32 segment_size i2_local ∷ add32 (mul32 2 segment_size) i3_local ∷ 0 ∷ [])
    ]

-- The first segment's local index, walked back from the segment `position`.
first_4ary : ℕ → ℕ → ℕ → ℕ → ℕ → Option ℕ
first_4ary zero local h1 h2 h3 = some local
first_4ary (suc zero) local h1 h2 h3 = some (bit_xor local h1)
first_4ary (suc (suc zero)) local h1 h2 h3 = some (bit_xor (bit_xor local h2) h1)
first_4ary (suc (suc (suc zero))) local h1 h2 h3 = some (bit_xor (bit_xor (bit_xor local h3) h2) h1)
first_4ary (suc (suc (suc (suc _)))) local h1 h2 h3 = none

unfoldable pub all_indices_segmented_4ary : ℕ → ℕ → ℕ → Option (List ℕ)
unfolding first_4ary
all_indices_segmented_4ary cur_index fingerprint segment_size =
    let h1 = fingerprint_hash1 fingerprint segment_size in
    let h2 = fingerprint_hash2 fingerprint segment_size in
    let h3 = fingerprint_hash3 fingerprint segment_size in
    let position = cur_index / segment_size in
    let local = sub32 cur_index (mul32 position segment_size) in
    elim (first_4ary position local h1 h2 h3) [
      | none ↦ none
      | some i1 ↦
          let i2_local = bit_xor i1 h1 in
          let i3_local = bit_xor i2_local h2 in
          let i4_local = bit_xor i3_local h3 in
          some (
            i1
            ∷ add32 segment_size i2_local
            ∷ add32 (mul32 2 segment_size) i3_local
            ∷ add32 (mul32 3 segment_size) i4_local
            ∷ [])
    ]

unfoldable pub all_indices_standard_2ary : ℕ → ℕ → ℕ → List ℕ
all_indices_standard_2ary cur_index fingerprint num_buckets =
    let h1 = fingerprint_hash1 fingerprint num_buckets in
    cur_index ∷ bit_xor cur_index h1 ∷ 0 ∷ 0 ∷ []

unfoldable pub all_indices_standard_3ary : ℕ → ℕ → ℕ → List ℕ
all_indices_standard_3ary cur_index fingerprint num_buckets =
    let h = fingerprint_hash_mod fingerprint num_buckets in
    let alt1 = xor3 cur_index h in let alt2 = xor3 alt1 h in cur_index ∷ alt1 ∷ alt2 ∷ 0 ∷ []

unfoldable pub all_indices_standard_4ary : ℕ → ℕ → ℕ → List ℕ
all_indices_standard_4ary cur_index fingerprint num_buckets =
    let h = fingerprint_hash1 fingerprint num_buckets in
    let alt1 = xor4 cur_index h in
    let alt2 = xor4 alt1 h in let alt3 = xor4 alt2 h in cur_index ∷ alt1 ∷ alt2 ∷ alt3 ∷ []

pub data SchemeKind : Type 0 where
  segmented_2ary segmented_3ary segmented_4ary : SchemeKind

module _ (xxh3_128 : List ℕ → ℕ) where
  -- `Segmented2aryScheme { segment_size }` and its two siblings.
  unfoldable pub segmented_scheme : SchemeKind → ℕ → IndexScheme
  segmented_scheme segmented_2ary segment_size = record {
    arity = 2;
    hash_item = λ item b. hash_item_segmented_2ary xxh3_128 item segment_size b;
    all_indices = λ cur f. some (all_indices_segmented_2ary cur f segment_size);
  }
  segmented_scheme segmented_3ary segment_size = record {
    arity = 3;
    hash_item = λ item b. hash_item_segmented_3ary xxh3_128 item segment_size b;
    all_indices = λ cur f. all_indices_segmented_3ary cur f segment_size;
  }
  segmented_scheme segmented_4ary segment_size = record {
    arity = 4;
    hash_item = λ item b. hash_item_segmented_4ary xxh3_128 item segment_size b;
    all_indices = λ cur f. all_indices_segmented_4ary cur f segment_size;
  }

  -- `Standard2aryScheme { num_buckets }` and its two siblings.
  unfoldable pub standard_2ary_scheme : ℕ → IndexScheme
  standard_2ary_scheme num_buckets = record {
    arity = 2;
    hash_item = λ item b. hash_item_standard_2ary xxh3_128 item num_buckets b;
    all_indices = λ cur f. some (all_indices_standard_2ary cur f num_buckets);
  }

  unfoldable pub standard_3ary_scheme : ℕ → IndexScheme
  standard_3ary_scheme num_buckets = record {
    arity = 3;
    hash_item = λ item b. hash_item_standard_3ary xxh3_128 item num_buckets b;
    all_indices = λ cur f. some (all_indices_standard_3ary cur f num_buckets);
  }

  unfoldable pub standard_4ary_scheme : ℕ → IndexScheme
  standard_4ary_scheme num_buckets = record {
    arity = 4;
    hash_item = λ item b. hash_item_standard_4ary xxh3_128 item num_buckets b;
    all_indices = λ cur f. some (all_indices_standard_4ary cur f num_buckets);
  }
