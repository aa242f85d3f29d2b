-- ===== src/Client/HintPatch/Resync.antt =====
-- A patching client that is offered a delta with a setup bundle to fall back on.
use ikpir.Prelude.{
  ℕ, suc, ◌+◌, ◌≤◌, ◌<◌, ◌≡◌, ◌⊎◌, inl, inr, refl, ap, ◌∙◌, some, Option, List, length, ltb, arith,
  true, if_cases,
}
use ikpir.Cuckoo.Store.Build.{arity}
use ikpir.Backend.Interface.{IncrementalPirBackend, HintLaws}
use ikpir.Client.Bundles.{
  HintDeltaBundle, ServerSetupBundle, Applied, err, stale_delta, future_delta, same_params,
  DeltaApplyOutcome, synced, resynced, failed,
}
use ikpir.Client.HintPatch.{
  HintPatchClient, apply_delta, from_setup, reset_from, try_apply_delta_or_resync,
}
use ikpir.Client.HintPatch.Serving.{IsServing, AreServing, all_serving, serving, apply_delta_next}
use ikpir.Client.Rewind.{setup_states}
use ikpir.Client.Rewind.Fresh.{AreFresh, all_fresh, fresh_segment, IsFresh}
use ikpir.Client.Rewind.Sync.{AreDeltas}

module _ (B : IncrementalPirBackend) (n w : ℕ) (laws : HintLaws B n w) (db : ℕ → ℕ → List ℕ) where
  setup_states-AreServing :
      (t j : ℕ) {ps : List B.ServerParams} {hs : List B.Hint}
      → AreFresh B n w laws db t j ps hs
      → AreServing B n w laws db t j (setup_states B ps hs)
        × (length (setup_states B ps hs) ≡ length hs)
  unfolding setup_states
  setup_states-AreServing t j all_fresh = (all_serving, refl)
  setup_states-AreServing t j (fresh_segment serves rest) =
      let more = setup_states-AreServing t (suc j) rest in (serving serves more.0, ap suc more.1)

  reset_from-IsServing :
      (c : HintPatchClient B) (bundle : ServerSetupBundle B)
      → IsFresh B n w laws db bundle
      → IsServing B n w laws db (reset_from B c bundle)
  unfolding reset_from from_setup
  reset_from-IsServing c bundle (fresh, count) =
      let made = setup_states-AreServing bundle.epoch 0 fresh in (made.0, made.1 ∙ count)

  reset_facts :
      (c : HintPatchClient B) (bundle : ServerSetupBundle B)
      → ((reset_from B c bundle).epoch ≡ bundle.epoch)
        × ((reset_from B c bundle).params ≡ bundle.params)
        × ((reset_from B c bundle).hint_patch_mode ≡ c.hint_patch_mode)
  unfolding reset_from from_setup
  reset_facts c bundle = (refl, refl, refl)

  -- An older or a later delta is refused.
  refused_stale :
      (c : HintPatchClient B) (delta : HintDeltaBundle)
      → delta.epoch ≤ c.epoch
      → apply_delta B c delta ≡ some (c, err (stale_delta (c.epoch + 1) delta.epoch))
  unfolding apply_delta
  refused_stale c delta h =
      let P : Option (HintPatchClient B × Applied) → Type 0 =
        λ o. o ≡ some (c, err (stale_delta (c.epoch + 1) delta.epoch)) in
      if_cases P (ltb delta.epoch (c.epoch + 1)) (λ _. refl)
        (λ nlt. absurd (ground (arith, nlt, h)))

  refused_future :
      (c : HintPatchClient B) (delta : HintDeltaBundle)
      → c.epoch + 1 < delta.epoch
      → apply_delta B c delta ≡ some (c, err (future_delta (c.epoch + 1) delta.epoch))
  unfolding apply_delta
  refused_future c delta h =
      let P : Option (HintPatchClient B × Applied) → Type 0 =
        λ o. o ≡ some (c, err (future_delta (c.epoch + 1) delta.epoch)) in
      if_cases P (ltb delta.epoch (c.epoch + 1)) (λ lt. absurd (ground (arith, lt, h)))
        λ _.
          if_cases P (ltb (c.epoch + 1) delta.epoch) (λ _. refl)
            (λ ngt. absurd (ground (arith, ngt, h)))

  -- What the gap between the epochs of the delta and of the client makes of the call.
  abbrev pub IsResolved :
      HintPatchClient B
      → HintDeltaBundle
      → ServerSetupBundle B
      → HintPatchClient B × DeltaApplyOutcome
      → Type 0
  IsResolved c delta bundle r =
      ((delta.epoch ≡ c.epoch + 1)
        × (r.1 ≡ synced)
        × (r.0.epoch ≡ delta.epoch)
        × (r.0.params ≡ c.params))
      ⊎ (((c.epoch + 1 < delta.epoch)
            × (r.1 ≡ resynced)
            × (r.0.epoch ≡ bundle.epoch)
            × (r.0.params ≡ bundle.params)
            × (r.0.hint_patch_mode ≡ c.hint_patch_mode))
          ⊎ ((delta.epoch ≤ c.epoch) × (r ≡ (c, failed (stale_delta (c.epoch + 1) delta.epoch)))))

  -- A serving client is offered a delta of its geometry, which leads to the database of the client's
  -- next epoch if it is that epoch's, with a bundle that has the hints of the server's database at
  -- the bundle's epoch. The delta of its next epoch takes the client to that epoch, a later one to
  -- the bundle's epoch and geometry with its own patch mode, and an older one is refused and
  -- changes nothing. In each case the client serves the database of the epoch that it ends at.
  pub try_apply_delta_or_resync-IsServing :
      (c : HintPatchClient B) (delta : HintDeltaBundle) (bundle : ServerSetupBundle B)
      → IsServing B n w laws db c
      → IsFresh B n w laws db bundle
      → (delta.epoch ≡ c.epoch + 1 → AreDeltas B n w laws db c.epoch 0 delta.per_segment_row_deltas)
      → same_params delta.params c.params ≡ true
      → length delta.per_segment_row_deltas ≡ arity c.params.scheme_kind
      → (r : HintPatchClient B × DeltaApplyOutcome) × (try_apply_delta_or_resync B c delta bundle
          ≡ some r)
        × IsServing B n w laws db r.0
        × IsResolved c delta bundle r
  unfolding try_apply_delta_or_resync
  try_apply_delta_or_resync-IsServing c delta bundle is fresh leads same counted = elim cases [
    | inl next ↦
        let (c', eq, is', at, params) =
          apply_delta_next B n w laws db c delta is (leads next) next same counted in
        ((c', synced), rw eq refl, is', inl (next, refl, at, params))
    | inr (inl later) ↦ (
      (reset_from B c bundle, resynced),
      rw (refused_future c delta later) refl,
      reset_from-IsServing c bundle fresh,
      inr (inl (let (at, params, mode) = reset_facts c bundle in (later, refl, at, params, mode))),
    )
    | inr (inr older) ↦ (
      (c, failed (stale_delta (c.epoch + 1) delta.epoch)),
      rw (refused_stale c delta older) refl,
      is,
      inr (inr (older, refl)),
    )
  ]
    where
      cases : (delta.epoch ≡ c.epoch + 1) ⊎ ((c.epoch + 1 < delta.epoch) ⊎ (delta.epoch ≤ c.epoch))
      cases = omega arith
