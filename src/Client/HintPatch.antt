-- ===== src/Client/HintPatch.antt =====
-- crates/ikpir-client/src/client_hint_patch.rs: the client that patches its states with every delta
-- that it accepts. `none` is a panic. The state of a segment is the back end's.
pub mod Serving
pub mod Resync
use ikpir.Prelude.{
  ℕ, suc, ◌+◌, not, Option, none, some, List, [], ◌∷◌, ltb, ◌==◌, if◌then◌else◌, length, ◌>>=◌,
}
use ikpir.Cuckoo.Store.Build.{CuckooParams, arity}
use ikpir.Backend.Deltas.{SegmentRowDeltas, HintPatchMode, entry_level}
use ikpir.Backend.Interface.{IncrementalPirBackend}
use ikpir.Client.Bundles.{
  HintDeltaBundle, ServerSetupBundle, stale_delta, future_delta, malformed_bundle, Applied, ok, err,
  DeltaApplyOutcome, synced, resynced, failed, same_params,
}
use ikpir.Client.Rewind.{setup_states}

pub record HintPatchClient (B : IncrementalPirBackend) : Type 0 where
  pub params : CuckooParams
  pub states : List B.ClientState
  pub epoch : ℕ
  pub hint_patch_mode : HintPatchMode

module _ (B : IncrementalPirBackend) where
  unfoldable pub from_setup : ServerSetupBundle B → HintPatchClient B
  from_setup bundle = record {
    params = bundle.params;
    states = setup_states B bundle.backend_params bundle.hints;
    epoch = bundle.epoch;
    hint_patch_mode = entry_level;
  }

  -- The mode is the client's choice and survives the reset.
  unfoldable pub reset_from : HintPatchClient B → ServerSetupBundle B → HintPatchClient B
  reset_from c bundle = record (from_setup bundle) { hint_patch_mode = c.hint_patch_mode }

  unfoldable pub set_hint_patch_mode : HintPatchClient B → HintPatchMode → HintPatchClient B
  set_hint_patch_mode c mode = record c { hint_patch_mode = mode }

  abbrev pub patch_segment : HintPatchMode → SegmentRowDeltas → B.ClientState → B.ClientState
  patch_segment mode [] s = s
  patch_segment mode (r ∷ rs) s = B.client_patch_state s (r ∷ rs) mode

  -- `for (j, deltas) in per_segment_row_deltas.iter().enumerate()`, on the states from `j` on.
  unfoldable pub patch_segments :
      HintPatchMode → List SegmentRowDeltas → List B.ClientState → Option (List B.ClientState)
  patch_segments mode [] ss = some ss
  patch_segments mode (deltas ∷ rest) (s ∷ ss) = do
    patched ← patch_segments mode rest ss
    some (patch_segment mode deltas s ∷ patched)
  patch_segments mode ([] ∷ rest) [] = patch_segments mode rest []
  patch_segments mode ((r ∷ rs) ∷ rest) [] = none

  unfoldable pub apply_delta :
      HintPatchClient B → HintDeltaBundle → Option (HintPatchClient B × Applied)
  apply_delta c delta =
      let expected = c.epoch + 1 in
      if ltb delta.epoch expected
      then some (c, err (stale_delta expected delta.epoch))
      else if ltb expected delta.epoch
      then some (c, err (future_delta expected delta.epoch))
      else if not (same_params delta.params c.params)
      then some (c, err malformed_bundle)
      else if not (length delta.per_segment_row_deltas == arity c.params.scheme_kind)
      then some (c, err malformed_bundle)
      else (do
        states ← patch_segments c.hint_patch_mode delta.per_segment_row_deltas c.states
        some (record c { states = states; epoch = delta.epoch }, ok))

  abbrev pub resync :
      ServerSetupBundle B → HintPatchClient B × Applied → HintPatchClient B × DeltaApplyOutcome
  resync bundle (c, ok) = (c, synced)
  resync bundle (c, err (future_delta expected got)) = (reset_from c bundle, resynced)
  resync bundle (c, err e) = (c, failed e)

  unfoldable pub try_apply_delta_or_resync :
      HintPatchClient B
      → HintDeltaBundle
      → ServerSetupBundle B
      → Option (HintPatchClient B × DeltaApplyOutcome)
  try_apply_delta_or_resync c delta bundle = apply_delta c delta >>= λ r. some (resync bundle r)
