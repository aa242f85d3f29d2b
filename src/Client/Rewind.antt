-- ===== src/Client/Rewind.antt =====
-- crates/ikpir-client/src/client_rewind.rs: the client that pins its hint and keeps the deltas
-- since. `none` is a panic. The state of a segment is the back end's.
pub mod Sync
pub mod Epochs
pub mod Fresh
pub mod Run
use ikpir.Prelude.{
  ℕ, suc, ◌+◌, ◌-◌, ◌*◌, ◌/◌, not, Option, none, some, List, [], ◌∷◌, map, ltb, ◌==◌, if◌then◌else◌,
  length, set, ◌>>=◌, ◌>>◌, true, false,
}
use ikpir.Cuckoo.Store.Build.{CuckooParams, arity, params}
use ikpir.Backend.Deltas.{SegmentRowDeltas, HintPatchMode, entry_level}
use ikpir.Backend.Interface.{IncrementalPirBackend}
use ikpir.Client.Pending.{PendingDelta, merge, clear, cells, as_row_deltas, segment}
use ikpir.Client.Pending
use ikpir.Client.Bundles.{
  HintDeltaBundle, ServerSetupBundle, stale_delta, future_delta, malformed_bundle, Applied, ok, err,
  DeltaApplyOutcome, synced, resynced, failed, same_params,
}

pub record RewindClient (B : IncrementalPirBackend) : Type 0 where
  pub params : CuckooParams
  pub states : List B.ClientState
  pub epoch : ℕ
  pub pending : PendingDelta
  pub pin_epoch : ℕ

module _ (B : IncrementalPirBackend) where
  -- `backend_params.iter().zip(hints).map(client_setup)`
  unfoldable pub setup_states : List B.ServerParams → List B.Hint → List B.ClientState
  setup_states [] hints = []
  setup_states (p ∷ ps) [] = []
  setup_states (p ∷ ps) (h ∷ hints) = B.client_setup p h ∷ setup_states ps hints

  unfoldable pub from_setup : ServerSetupBundle B → RewindClient B
  from_setup bundle = record {
    params = bundle.params;
    states = setup_states bundle.backend_params bundle.hints;
    epoch = bundle.epoch;
    pending = Pending.new (arity bundle.params.scheme_kind);
    pin_epoch = bundle.epoch;
  }

  -- The fold of a delta that the guards let through.
  unfoldable pub fold_delta : RewindClient B → HintDeltaBundle → Option (RewindClient B × Applied)
  fold_delta c delta = do
    (pending, merged) ← merge c.pending delta.per_segment_row_deltas
    elim merged [
      | true ↦ some (record c { pending = pending; epoch = delta.epoch }, ok)
      | false ↦ some (record c { pending = pending }, err malformed_bundle)
    ]

  unfoldable pub accumulate_delta :
      RewindClient B → HintDeltaBundle → Option (RewindClient B × Applied)
  accumulate_delta c delta =
      let expected = c.epoch + 1 in
      let folded = fold_delta c delta in
      if ltb delta.epoch expected
      then some (c, err (stale_delta expected delta.epoch))
      else if ltb expected delta.epoch
      then some (c, err (future_delta expected delta.epoch))
      else if not (same_params delta.params c.params)
      then some (c, err malformed_bundle)
      else if not (length delta.per_segment_row_deltas == arity c.params.scheme_kind)
      then some (c, err malformed_bundle)
      else folded

  -- `for (j, state) in states.iter_mut().enumerate()`
  unfoldable pub patch_states : ℕ → List B.ClientState → PendingDelta → List B.ClientState
  patch_states j [] p = []
  patch_states j (s ∷ ss) p =
      elim (as_row_deltas p j) [ [] ↦ s | r ∷ rs ↦ B.client_patch_state s (r ∷ rs) entry_level ]
      ∷ patch_states (suc j) ss p

  unfoldable pub collect_garbage : RewindClient B → RewindClient B
  collect_garbage c = if c.pin_epoch == c.epoch then c else record c {
    states = patch_states 0 c.states c.pending;
    pin_epoch = c.epoch;
    pending = clear c.pending;
  }

  unfoldable pub pending_cells : RewindClient B → ℕ
  pending_cells c = cells c.pending

  unfoldable pub reset_from : ServerSetupBundle B → RewindClient B
  reset_from bundle = from_setup bundle

  abbrev pub resync :
      ServerSetupBundle B → RewindClient B × Applied → RewindClient B × DeltaApplyOutcome
  resync bundle (c, ok) = (c, synced)
  resync bundle (c, err (future_delta expected got)) = (reset_from bundle, resynced)
  resync bundle (c, err e) = (c, failed e)

  unfoldable pub try_accumulate_delta_or_resync :
      RewindClient B
      → HintDeltaBundle
      → ServerSetupBundle B
      → Option (RewindClient B × DeltaApplyOutcome)
  try_accumulate_delta_or_resync c delta bundle =
      accumulate_delta c delta >>= λ r. some (resync bundle r)
