-- ===== src/Client/RunTests.antt =====
-- A run of a client of two segments over the FrodoPIR back end, and the witnesses of the clients.
use ikpir.Prelude.{
  ℕ, zero, suc, ◌+◌, ◌*◌, ◌≡◌, refl, sym, true, none, some, List, [], ◌∷◌, arith, u32, negsuc,
}
use ikpir.TreeMap.{cell_order}
use ikpir.Cuckoo.Scheme.{segmented_2ary}
use ikpir.Cuckoo.Store.Build.{CuckooParams}
use ikpir.Backend.Accumulate.{add_at}
use ikpir.Backend.Deltas.{SegmentRowDeltas, no_offset, offset, no_row, row, change, AreWithin}
use ikpir.Backend.Interface.{IncrementalPirBackend, IsUpdated}
use ikpir.Backend.Frodo.{FrodoServerParams, FrodoClientState, compute_hint}
use ikpir.Backend.Frodo.Rewind.{pending_change, no_pending}
use ikpir.Backend.Frodo.Setup.{
  ServesFrodo, frodo_pir_backend, frodo_laws, client_setup, expand_hint_material, sample_a,
}
use ikpir.Client.Bundles.{HintDeltaBundle, ServerSetupBundle, ok, same_params}
use ikpir.Client.Pending.{CellMap, merge, merge_all, merge_segment, merge_row, merge_cell}
use ikpir.Client.Pending.Merge.{IsPending}
use ikpir.Client.Pending.Change.{merge_segment-pending_change}
use ikpir.Client.Rewind.{RewindClient, accumulate_delta, fold_delta, reset_from}
use ikpir.Client.Rewind.Fresh
use ikpir.Client.Rewind.Fresh.{IsFresh, all_fresh}
use ikpir.Client.Rewind.Epochs.{IsOutcome, accumulate_delta-IsOutcome}
use ikpir.Client.Rewind.Sync.{
  IsSynced, IsSegmentSynced, all_synced, synced_segment, AreDeltas, all_deltas, segment_deltas,
}
use ikpir.Client.Rewind.Run.{here, next, folded, collected, reset, Reach-IsSynced}

abbrev pub geometry : CuckooParams
geometry = record {
  scheme_kind = segmented_2ary;
  num_buckets = 4;
  bucket_size = 1;
  fingerprint_bits = 4;
  value_bits = 4;
  plaintext_bits = 8;
}

abbrev pub words : ℕ → ℕ → ℕ
words seed i = 3 + 2 * i

abbrev pub backend : IncrementalPirBackend
backend = frodo_pir_backend words

-- Only the first segment changes, at epoch 1, where 9 becomes 4.
abbrev pub history : ℕ → ℕ → List ℕ
history zero zero = 7 ∷ 9 ∷ []
history (suc t) zero = 7 ∷ 4 ∷ []
history t (suc j) = 1 ∷ 2 ∷ []

abbrev changed : SegmentRowDeltas
changed = (1, (0, negsuc 4) ∷ []) ∷ []

abbrev pub segment_params : FrodoServerParams
segment_params = record {
  params = record { lwe_dim = 1; plaintext_bits = 8; seed = 0 };
  n_rows = 2;
  row_width = 1;
}

abbrev pub state_of : List ℕ → FrodoClientState
state_of hint = record {
  params = segment_params;
  hint_material = 3 ∷ 5 ∷ [];
  hint = hint;
  prepared = [];
  in_flight = none;
}

abbrev client_at : ℕ → CellMap → RewindClient backend
client_at epoch first = record {
  params = geometry;
  states = state_of (66 ∷ []) ∷ state_of (13 ∷ []) ∷ [];
  epoch = epoch;
  pending = record { per_segment = first ∷ [] ∷ [] };
  pin_epoch = 0;
}

abbrev pub first_delta : HintDeltaBundle
first_delta = record { epoch = 1; per_segment_row_deltas = changed ∷ [] ∷ []; params = geometry }

abbrev pending_cell : CellMap
pending_cell = ((1, 0), negsuc 4) ∷ []

pub hint_of_segment :
    (compute_hint (3 ∷ 5 ∷ []) (7 ∷ 9 ∷ []) 2 1 1 ≡ 66 ∷ [])
    × (compute_hint (3 ∷ 5 ∷ []) (1 ∷ 2 ∷ []) 2 1 1 ≡ 13 ∷ [])
unfolding compute_hint add_at
hint_of_segment = (refl, refl)

first_accumulate :
    accumulate_delta backend (client_at 0 []) first_delta ≡ some (client_at 1 pending_cell, ok)
unfolding accumulate_delta fold_delta merge merge_all merge_segment merge_row merge_cell same_params
first_accumulate = refl

empty-IsPending : IsPending []
empty-IsPending = record { sorted = tt; nonzero = λ k v e. absurd cc }

first_merged : (merge_segment changed []).1 ≡ true
unfolding merge_segment merge_row merge_cell
first_merged = refl

merge_segment_example :
    IsPending (merge_segment changed []).0
    × ((i j : ℕ)
        → u32 (pending_change (merge_segment changed []).0 i j)
          ≡ u32 (pending_change [] i j + change changed i j))
merge_segment_example = merge_segment-pending_change [] changed empty-IsPending first_merged

accumulate_delta_example :
    IsOutcome backend (client_at 0 []) first_delta (client_at 1 pending_cell, ok)
accumulate_delta_example =
    accumulate_delta-IsOutcome backend (client_at 0 []) first_delta (client_at 1 pending_cell, ok)
      first_accumulate

changed_within : AreWithin 2 1 changed
changed_within = row (omega arith) (offset (omega arith) no_offset) no_row

first-IsUpdated : IsUpdated 2 1 (history 0 0) changed (history 1 0)
first-IsUpdated zero zero hi hj = refl
first-IsUpdated (suc zero) zero hi hj = refl
first-IsUpdated (suc (suc i)) j hi hj = absurd (omega arith)
first-IsUpdated i (suc j) hi hj = absurd (omega arith)

pub segment_serves :
    (j : ℕ) (hint : List ℕ)
    → hint ≡ compute_hint (3 ∷ 5 ∷ []) (history 0 j) 2 1 1
    → ServesFrodo 2 1 (state_of hint) (history 0 j)
segment_serves j hint e = record {
  width = refl;
  rows = refl;
  hint_of = e;
  prepared = tt;
  in_flight = λ slot idle. absurd cc;
}

fresh_segment :
    (j : ℕ) (hint : List ℕ)
    → hint ≡ compute_hint (3 ∷ 5 ∷ []) (history 0 j) 2 1 1
    → IsSegmentSynced backend 2 1 (frodo_laws words 2 1) history 0 0 j (state_of hint) []
fresh_segment j hint e = record {
  serves = segment_serves j hint e;
  sparse = empty-IsPending;
  keys = no_pending;
  drift = λ i k li lk. omega arith;
}

fresh_client : IsSynced backend 2 1 (frodo_laws words 2 1) history (client_at 0 [])
fresh_client = (
  synced_segment (fresh_segment 0 (66 ∷ []) (sym hint_of_segment.0))
      (synced_segment (fresh_segment 1 (13 ∷ []) (sym hint_of_segment.1)) all_synced),
  refl,
)

pub first_deltas : AreDeltas backend 2 1 (frodo_laws words 2 1) history 0 0 (changed ∷ [] ∷ [])
first_deltas =
    segment_deltas changed_within first-IsUpdated
      (segment_deltas no_row (λ i j hi hj. omega arith) all_deltas)

abbrev pub fresh_bundle : ServerSetupBundle backend
fresh_bundle = record {
  params = geometry;
  backend_params = segment_params ∷ segment_params ∷ [];
  hints = (66 ∷ []) ∷ (13 ∷ []) ∷ [];
  epoch = 0;
}

pub fresh_bundle-IsFresh : IsFresh backend 2 1 (frodo_laws words 2 1) history fresh_bundle
unfolding client_setup expand_hint_material sample_a
fresh_bundle-IsFresh = (
  Fresh.fresh_segment (segment_serves 0 (66 ∷ []) (sym hint_of_segment.0))
      (Fresh.fresh_segment (segment_serves 1 (13 ∷ []) (sym hint_of_segment.1)) all_fresh),
  refl,
)

-- A delta is folded and collected, and the client is reset to a bundle.
Reach-IsSynced_example :
    IsSynced backend 2 1 (frodo_laws words 2 1) history (reset_from backend fresh_bundle)
Reach-IsSynced_example =
    Reach-IsSynced backend 2 1 (frodo_laws words 2 1) history (client_at 0 [])
      (reset_from backend fresh_bundle)
      (next (folded first_delta 0 refl first_deltas first_accumulate)
        (next collected (next (reset fresh_bundle fresh_bundle-IsFresh) here)))
      fresh_client
