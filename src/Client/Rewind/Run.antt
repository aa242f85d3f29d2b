-- ===== src/Client/Rewind/Run.antt =====
-- The runs of a rewinding client: deltas folded or refused, garbage collected, and resets and resyncs
-- from a fresh bundle, in any order.
use ikpir.Prelude.{
  ℕ, ◌+◌, ◌≡◌, ap, ap₂, ◌∙◌, Bool, true, false, ◌⊎◌, ◌≢◌, length, some, List, some-injective,
  >>=-some, sym, arith,
}
use ikpir.Cuckoo.Store.Build.{arity}
use ikpir.Backend.Deltas.{SegmentRowDeltas}
use ikpir.Backend.Interface.{IncrementalPirBackend, HintLaws}
use ikpir.Client.Bundles.{
  HintDeltaBundle, ServerSetupBundle, Applied, ok, err, stale_delta, future_delta, epoch_mismatch,
  malformed_bundle, cell_out_of_range, server, IkpirClientError, DeltaApplyOutcome, synced,
  resynced, failed, same_params,
}
use ikpir.Client.Pending.{PendingDelta, merge, merge_all}
use ikpir.Client.Rewind.{
  RewindClient, from_setup, reset_from, resync, accumulate_delta, collect_garbage,
  try_accumulate_delta_or_resync,
}
use ikpir.Client.Rewind.Fresh.{IsFresh, from_setup-IsSynced}
use ikpir.Client.Rewind.Epochs.{accumulate_delta-IsOutcome, accumulate_delta-misfit, IsOutcome}
use ikpir.Client.Rewind.Sync.{
  AreDeltas, IsSynced, collect_garbage-IsSynced, synced_length, all_merge,
}

module _ (B : IncrementalPirBackend) (n w : ℕ) (laws : HintLaws B n w) (db : ℕ → ℕ → List ℕ) where
  -- One event of a client's life. The deltas and the bundles come from the server: those of epoch
  -- `t + 1` lead from its database at `t`, and a bundle has the hints of the database of its epoch.
  -- A merge that overflows is no step: it leaves a part of the delta pending.
  pub data Step : RewindClient B → RewindClient B → Type 0 where
    folded :
        {c c' : RewindClient B} (delta : HintDeltaBundle) (t : ℕ)
        → delta.epoch ≡ t + 1
        → AreDeltas B n w laws db t 0 delta.per_segment_row_deltas
        → accumulate_delta B c delta ≡ some (c', ok)
        → Step c c'
    stale :
        {c c' : RewindClient B} (delta : HintDeltaBundle) (expected got : ℕ)
        → accumulate_delta B c delta ≡ some (c', err (stale_delta expected got))
        → Step c c'
    future :
        {c c' : RewindClient B} (delta : HintDeltaBundle) (expected got : ℕ)
        → accumulate_delta B c delta ≡ some (c', err (future_delta expected got))
        → Step c c'
    collected : {c : RewindClient B} → Step c (collect_garbage B c)
    misfit :
        {c c' : RewindClient B} (delta : HintDeltaBundle)
        → (same_params delta.params c.params ≡ false)
          ⊎ (length delta.per_segment_row_deltas ≢ arity c.params.scheme_kind)
        → accumulate_delta B c delta ≡ some (c', err malformed_bundle)
        → Step c c'
    reset :
        {c : RewindClient B} (bundle : ServerSetupBundle B)
        → IsFresh B n w laws db bundle
        → Step c (reset_from B bundle)
    caught_up :
        {c c' : RewindClient B} (delta : HintDeltaBundle) (bundle : ServerSetupBundle B)
        → IsFresh B n w laws db bundle
        → try_accumulate_delta_or_resync B c delta bundle ≡ some (c', resynced)
        → Step c c'

  pub data Reach : RewindClient B → RewindClient B → Type 0 where
    here : {c : RewindClient B} → Reach c c
    next : {c d e : RewindClient B} → Step c d → Reach d e → Reach c e

  merge-all :
      (p q : PendingDelta) (rows : List SegmentRowDeltas)
      → merge p rows ≡ some (q, true)
      → merge_all rows p.per_segment ≡ some (q.per_segment, true)
  unfolding merge
  merge-all p q rows e = >>=-some (merge_all rows p.per_segment) _ e (λ r er last.
      let pair = some-injective last in
      er
      ∙ ap₂ (λ ms b. some (ms, b)) (ap (λ (x : PendingDelta × Bool). x.0.per_segment) pair)
          (ap (λ (x : PendingDelta × Bool). x.1) pair))

  folded-IsSynced :
      (c c' : RewindClient B) (delta : HintDeltaBundle) (t : ℕ)
      → delta.epoch ≡ t + 1
      → AreDeltas B n w laws db t 0 delta.per_segment_row_deltas
      → IsOutcome B c delta (c', ok)
      → IsSynced B n w laws db c
      → IsSynced B n w laws db c'
  folded-IsSynced c c' delta t et ds (en, ee, ep, _, el, eq, es, em) (h, ea) =
      let at : t ≡ c.epoch = omega (arith, et, en) in
      let deltas : AreDeltas B n w laws db c.epoch 0 delta.per_segment_row_deltas =
        rw (sym at) ds in
      let merged =
        all_merge B n w laws db c.pin_epoch c.epoch 0 delta.per_segment_row_deltas c.states
          c.pending.per_segment c'.pending.per_segment h deltas (el ∙ sym ea)
          (merge-all c.pending c'.pending delta.per_segment_row_deltas em) in
      let same_count =
        sym (
          synced_length B n w laws db c.pin_epoch (c.epoch + 1) 0 c.states c'.pending.per_segment
            merged)
        ∙ synced_length B n w laws db c.pin_epoch c.epoch 0 c.states c.pending.per_segment h in
      (rw (ep, es, ee ∙ en) merged, same_count ∙ ea ∙ ap (λ q. arity q.scheme_kind) (sym eq))

  outcome :
      {c c' : RewindClient B} {o o' : DeltaApplyOutcome}
      → Path (RewindClient B × DeltaApplyOutcome) (c, o) (c', o')
      → o ≡ o'
  outcome e = ap (λ (p : RewindClient B × DeltaApplyOutcome). p.1) e

  failed≢resynced : (x : IkpirClientError) → failed x ≢ resynced
  failed≢resynced x e = cc

  synced≢resynced : synced ≢ resynced
  synced≢resynced e = cc

  resync-resynced :
      (bundle : ServerSetupBundle B) (x : RewindClient B × Applied) (c' : RewindClient B)
      → resync B bundle x ≡ (c', resynced)
      → c' ≡ reset_from B bundle
  resync-resynced bundle (c, ok) c' e = absurd (synced≢resynced (outcome e))
  resync-resynced bundle (c, err (stale_delta x y)) c' e = absurd (failed≢resynced _ (outcome e))
  resync-resynced bundle (c, err (future_delta x y)) c' e =
      sym (ap (λ (p : RewindClient B × DeltaApplyOutcome). p.0) e)
  resync-resynced bundle (c, err (epoch_mismatch x y)) c' e = absurd (failed≢resynced _ (outcome e))
  resync-resynced bundle (c, err malformed_bundle) c' e = absurd (failed≢resynced _ (outcome e))
  resync-resynced bundle (c, err (cell_out_of_range x y z)) c' e =
      absurd (failed≢resynced _ (outcome e))
  resync-resynced bundle (c, err (server x)) c' e = absurd (failed≢resynced _ (outcome e))

  -- A resync leaves the client of the bundle.
  try-resynced :
      (c c' : RewindClient B) (delta : HintDeltaBundle) (bundle : ServerSetupBundle B)
      → try_accumulate_delta_or_resync B c delta bundle ≡ some (c', resynced)
      → c' ≡ from_setup B bundle
  unfolding try_accumulate_delta_or_resync reset_from
  try-resynced c c' delta bundle e =
      >>=-some (accumulate_delta B c delta) _ e
        (λ x _ last. resync-resynced bundle x c' (some-injective last))

  Step-IsSynced :
      (c c' : RewindClient B) → Step c c' → IsSynced B n w laws db c → IsSynced B n w laws db c'
  unfolding reset_from
  Step-IsSynced c c' (folded delta t et ds e) h =
      folded-IsSynced c c' delta t et ds (accumulate_delta-IsOutcome B c delta (c', ok) e) h
  Step-IsSynced c c' (stale delta x y e) h =
      let (_, same) = accumulate_delta-IsOutcome B c delta (c', err (stale_delta x y)) e in
      rw same h
  Step-IsSynced c c' (future delta x y e) h =
      let (_, same) = accumulate_delta-IsOutcome B c delta (c', err (future_delta x y)) e in
      rw same h
  Step-IsSynced c c' collected h = collect_garbage-IsSynced B n w laws db c h
  Step-IsSynced c c' (misfit delta bad e) h =
      rw (accumulate_delta-misfit B c delta bad (c', err malformed_bundle) e) h
  Step-IsSynced c c' (reset bundle fresh) h = from_setup-IsSynced B n w laws db bundle fresh
  Step-IsSynced c c' (caught_up delta bundle fresh e) h =
      rw (try-resynced c c' delta bundle e) (from_setup-IsSynced B n w laws db bundle fresh)

  -- Whatever deltas of the server a client folds, or refuses as stale, as future or for their geometry,
  -- whenever it collects, and whichever bundle of the server it resets to or resyncs from, its
  -- states serve the database at its pin, and that database with the pending sum is the server's at
  -- the client's epoch.
  pub Reach-IsSynced :
      (c c' : RewindClient B) → Reach c c' → IsSynced B n w laws db c → IsSynced B n w laws db c'
  Reach-IsSynced c c' here h = h
  Reach-IsSynced c c' (next {d = d} s r) h = Reach-IsSynced d c' r (Step-IsSynced c d s h)
