-- ===== src/Client/PatchTests.antt =====
-- The patching client of two segments over the FrodoPIR back end, with the deltas of the other
-- client's run.
use ikpir.Prelude.{◌≡◌, refl, sym, arith, some, [], ◌∷◌, true}
use ikpir.Backend.Deltas.{entry_level}
use ikpir.Backend.Frodo.Setup.{frodo_laws}
use ikpir.Client.Bundles.{HintDeltaBundle, Applied, DeltaApplyOutcome, same_params}
use ikpir.Client.HintPatch.{HintPatchClient, apply_delta, try_apply_delta_or_resync}
use ikpir.Client.HintPatch.Serving.{serving, all_serving, IsServing, apply_delta-IsServing}
use ikpir.Client.HintPatch.Resync.{IsResolved, try_apply_delta_or_resync-IsServing}
use ikpir.Client.RunTests.{
  fresh_bundle, fresh_bundle-IsFresh, segment_serves, words, backend, history, first_delta,
  state_of, geometry, hint_of_segment, first_deltas,
}

abbrev patching : HintPatchClient backend
patching = record {
  params = geometry;
  states = state_of (66 ∷ []) ∷ state_of (13 ∷ []) ∷ [];
  epoch = 0;
  hint_patch_mode = entry_level;
}

patching-IsServing : IsServing backend 2 1 (frodo_laws words 2 1) history patching
patching-IsServing = (
  serving (segment_serves 0 (66 ∷ []) (sym hint_of_segment.0))
      (serving (segment_serves 1 (13 ∷ []) (sym hint_of_segment.1)) all_serving),
  refl,
)

apply_delta_example :
    (r : HintPatchClient backend × Applied) × ((apply_delta backend patching first_delta ≡ some r)
      × IsServing backend 2 1 (frodo_laws words 2 1) history r.0)
apply_delta_example =
    apply_delta-IsServing backend 2 1 (frodo_laws words 2 1) history patching first_delta
      patching-IsServing (λ _. first_deltas)

-- A delta of epoch 3, which the client at epoch 0 cannot fold.
abbrev late_delta : HintDeltaBundle
late_delta = record first_delta { epoch = 3 }

geometry_same : same_params geometry geometry ≡ true
unfolding same_params
geometry_same = refl

try_apply_delta_or_resync_example :
    (r : HintPatchClient backend × DeltaApplyOutcome) × (try_apply_delta_or_resync backend patching
        late_delta fresh_bundle
      ≡ some r)
    × IsServing backend 2 1 (frodo_laws words 2 1) history r.0
    × IsResolved backend 2 1 (frodo_laws words 2 1) history patching late_delta fresh_bundle r
try_apply_delta_or_resync_example =
    try_apply_delta_or_resync-IsServing backend 2 1 (frodo_laws words 2 1) history patching
      late_delta fresh_bundle patching-IsServing fresh_bundle-IsFresh (λ e. absurd (omega arith))
      geometry_same refl
