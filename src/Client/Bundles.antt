-- ===== src/Client/Bundles.antt =====
-- The messages between the server and the clients (crates/ikpir-common/src/wire.rs), the errors of
-- the clients (error.rs) and the outcome of a delta (outcome.rs).
use ikpir.Prelude.{ℕ, ◌≡◌, Bool, true, false, ◌&&◌, List, arith, ◌==◌}
use ikpir.Cuckoo.Scheme.{SchemeKind, segmented_2ary, segmented_3ary, segmented_4ary}
use ikpir.Cuckoo.Store.Build.{CuckooParams}
use ikpir.Backend.Deltas.{SegmentRowDeltas}
use ikpir.Backend.Interface.{IncrementalPirBackend}

pub record HintDeltaBundle : Type 0 where
  pub epoch : ℕ
  pub per_segment_row_deltas : List SegmentRowDeltas
  pub params : CuckooParams

pub record ServerSetupBundle (B : IncrementalPirBackend) : Type 0 where
  pub params : CuckooParams
  pub backend_params : List B.ServerParams
  pub hints : List B.Hint
  pub epoch : ℕ

-- `IkpirError` of crates/ikpir-common/src/error.rs, which a client forwards.
pub data IkpirError : Type 0 where
  stale_epoch : ℕ → ℕ → IkpirError
  malformed_query server_full key_not_found invalid_input : IkpirError

pub data IkpirClientError : Type 0 where
  stale_delta future_delta epoch_mismatch : ℕ → ℕ → IkpirClientError
  malformed_bundle : IkpirClientError
  cell_out_of_range : ℕ → ℕ → ℕ → IkpirClientError
  server : IkpirError → IkpirClientError

pub data Applied : Type 0 where
  ok : Applied
  err : IkpirClientError → Applied

pub data DeltaApplyOutcome : Type 0 where
  synced resynced : DeltaApplyOutcome
  failed : IkpirClientError → DeltaApplyOutcome

-- `==` on `SchemeKind` and on `CuckooParams`, field by field.
abbrev pub same_kind : SchemeKind → SchemeKind → Bool
same_kind segmented_2ary segmented_2ary = true
same_kind segmented_3ary segmented_3ary = true
same_kind segmented_4ary segmented_4ary = true
same_kind _ _ = false

unfoldable pub same_params : CuckooParams → CuckooParams → Bool
same_params p q =
    same_kind p.scheme_kind q.scheme_kind
    && (p.num_buckets == q.num_buckets)
    && (p.bucket_size == q.bucket_size)
    && (p.fingerprint_bits == q.fingerprint_bits)
    && (p.value_bits == q.value_bits)
    && (p.plaintext_bits == q.plaintext_bits)

same_kind_sound : (a b : SchemeKind) → same_kind a b ≡ true → a ≡ b
same_kind_sound a b h = ground arith

pub same_params_sound : (p q : CuckooParams) → same_params p q ≡ true → p ≡ q
unfolding same_params
same_params_sound p q h = ground (arith, same_kind_sound p.scheme_kind q.scheme_kind)
