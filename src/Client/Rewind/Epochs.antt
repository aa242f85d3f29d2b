-- ===== src/Client/Rewind/Epochs.antt =====
-- The epochs of a rewinding client.
use ikpir.Prelude.{
  ◌+◌, ◌≤◌, ◌<◌, ◌≡◌, true, not, some, refl, sym, Option, arith, ltb, ◌==◌, if_cases, length,
  some-injective, >>=-some, Bool, false, ◌⊎◌, ◌≢◌, ap,
}
use ikpir.Cuckoo.Store.Build.{arity}
use ikpir.Backend.Interface.{IncrementalPirBackend}
use ikpir.Client.Bundles.{
  HintDeltaBundle, stale_delta, future_delta, Applied, ok, err, same_params, malformed_bundle,
}
use ikpir.Client.Pending.{PendingDelta, merge}
use ikpir.Client.Rewind.{RewindClient, accumulate_delta, fold_delta}

-- Every outcome of `accumulate_delta`: the delta of the next epoch moves the client to it, an older
-- or a later one is refused and changes nothing, and any other refusal keeps the epoch.
abbrev pub IsOutcome :
    (B : IncrementalPirBackend)
    → RewindClient B
    → HintDeltaBundle
    → RewindClient B × Applied
    → Type 0
IsOutcome B c delta r = elim r.1 [
  | ok ↦
      (delta.epoch ≡ c.epoch + 1)
      × (r.0.epoch ≡ delta.epoch)
      × (r.0.pin_epoch ≡ c.pin_epoch)
      × (same_params delta.params c.params ≡ true)
      × (length delta.per_segment_row_deltas ≡ arity c.params.scheme_kind)
      × (r.0.params ≡ c.params)
      × (r.0.states ≡ c.states)
      × (merge c.pending delta.per_segment_row_deltas ≡ some (r.0.pending, true))
  | err (stale_delta expected got) ↦ (delta.epoch ≤ c.epoch) × (r.0 ≡ c)
  | err (future_delta expected got) ↦ (c.epoch + 1 < delta.epoch) × (r.0 ≡ c)
  | err e ↦ (delta.epoch ≡ c.epoch + 1) × (r.0.epoch ≡ c.epoch)
]

abbrev Holds :
    (B : IncrementalPirBackend)
    → RewindClient B
    → HintDeltaBundle
    → Option (RewindClient B × Applied)
    → Type 0
Holds B c delta o = (r : RewindClient B × Applied) → o ≡ some r → IsOutcome B c delta r

held :
    (B : IncrementalPirBackend) (c : RewindClient B) (delta : HintDeltaBundle)
    (x : RewindClient B × Applied)
    → IsOutcome B c delta x
    → Holds B c delta (some x)
held B c delta x h r e = rw (sym (some-injective e)) h

module _ (B : IncrementalPirBackend) (c : RewindClient B) (delta : HintDeltaBundle)
    (next : delta.epoch ≡ c.epoch + 1) (same : same_params delta.params c.params ≡ true)
    (segments : length delta.per_segment_row_deltas ≡ arity c.params.scheme_kind) where
  merged_case :
      (p : PendingDelta) (merged : Bool)
      → merge c.pending delta.per_segment_row_deltas ≡ some (p, merged)
      → Holds B c delta (elim merged [
        | true ↦ some (record c { pending = p; epoch = delta.epoch }, ok)
        | false ↦ some (record c { pending = p }, err malformed_bundle)
      ])
  merged_case p true em = held B c delta _ (next, refl, refl, same, segments, refl, refl, em)
  merged_case p false em = held B c delta _ (next, refl)

  fold_delta-Holds : Holds B c delta (fold_delta B c delta)
  unfolding fold_delta
  fold_delta-Holds r e =
      >>=-some (merge c.pending delta.per_segment_row_deltas) _ e
        (λ m em rest. merged_case m.0 m.1 em r rest)

-- Every outcome of `accumulate_delta`: the delta of the next epoch moves the client to it with the
-- merged pending sum and the same pin; an older or a later one is refused and changes nothing; any
-- other refusal is of the next epoch's delta, and keeps the client's epoch.
pub accumulate_delta-IsOutcome :
    (B : IncrementalPirBackend) (c : RewindClient B) (delta : HintDeltaBundle)
    (r : RewindClient B × Applied)
    → accumulate_delta B c delta ≡ some r
    → IsOutcome B c delta r
unfolding accumulate_delta
accumulate_delta-IsOutcome B c delta =
    let P : Option (RewindClient B × Applied) → Type 0 = Holds B c delta in
    if_cases P (ltb delta.epoch (c.epoch + 1)) (λ lt. held B c delta _ (ground (arith, lt), refl))
      λ nlt.
        if_cases P (ltb (c.epoch + 1) delta.epoch)
          (λ gt. held B c delta _ (ground (arith, gt), refl))
          λ ngt.
            let next : delta.epoch ≡ c.epoch + 1 = ground (arith, nlt, ngt) in
            if_cases P (not (same_params delta.params c.params))
              (λ _. held B c delta _ (next, refl))
              λ same.
                if_cases P (not (length delta.per_segment_row_deltas == arity c.params.scheme_kind))
                  (λ _. held B c delta _ (next, refl))
                  (λ counted.
                    fold_delta-Holds B c delta next (ground (arith, same))
                      (ground (arith, counted)))

-- A delta of another geometry is refused, and changes nothing.
pub accumulate_delta-misfit :
    (B : IncrementalPirBackend) (c : RewindClient B) (delta : HintDeltaBundle)
    → (same_params delta.params c.params ≡ false)
      ⊎ (length delta.per_segment_row_deltas ≢ arity c.params.scheme_kind)
    → (r : RewindClient B × Applied) → accumulate_delta B c delta ≡ some r
    → r.0 ≡ c
unfolding accumulate_delta
accumulate_delta-misfit B c delta bad =
    let P : Option (RewindClient B × Applied) → Type 0 =
      λ o. (r : RewindClient B × Applied) → o ≡ some r → r.0 ≡ c in
    let kept : (a : Applied) → P (some (c, a)) =
      λ a r e. sym (ap (λ (x : RewindClient B × Applied). x.0) (some-injective e)) in
    if_cases P (ltb delta.epoch (c.epoch + 1)) (λ _. kept _)
      λ _.
        if_cases P (ltb (c.epoch + 1) delta.epoch) (λ _. kept _)
          λ _.
            if_cases P (not (same_params delta.params c.params)) (λ _. kept _)
              λ same.
                if_cases P (not (length delta.per_segment_row_deltas == arity c.params.scheme_kind))
                  (λ _. kept _) (λ counted. absurd (ground (arith, bad, same, counted)))
