-- ===== src/Client/HintPatch/Serving.antt =====
-- A patching client serves the server's database at its epoch, whatever deltas it is offered.
use ikpir.Prelude.{
  ℕ, suc, ◌+◌, ◌≡◌, refl, sym, ap, ◌∙◌, not, Option, some, List, [], ◌∷◌, ltb, ◌==◌, length, arith,
  if_cases, ◌>>=◌, true,
}
use ikpir.Cuckoo.Store.Build.{arity}
use ikpir.Backend.Deltas.{SegmentRowDeltas, HintPatchMode, AreWithin}
use ikpir.Backend.Interface.{IncrementalPirBackend, HintLaws, IsUpdated}
use ikpir.Client.Bundles.{HintDeltaBundle, Applied, ok, same_params}
use ikpir.Client.HintPatch.{HintPatchClient, patch_segment, patch_segments, apply_delta}
use ikpir.Client.Rewind.Sync.{AreDeltas, segment_deltas}

module _ (B : IncrementalPirBackend) (n w : ℕ) (laws : HintLaws B n w) (db : ℕ → ℕ → List ℕ) where
  -- The states from segment `j` on serve the databases of epoch `t`.
  pub data AreServing (t : ℕ) : ℕ → List B.ClientState → Type 0 where
    all_serving : {j : ℕ} → AreServing t j []
    serving :
        {j : ℕ} {s : B.ClientState} {ss : List B.ClientState}
        → laws.Serves s (db t j)
        → AreServing t (suc j) ss
        → AreServing t j (s ∷ ss)

  abbrev pub IsServing : HintPatchClient B → Type 0
  IsServing c = AreServing c.epoch 0 c.states × (length c.states ≡ arity c.params.scheme_kind)

  segment_patched :
      (mode : HintPatchMode) (t j : ℕ) (s : B.ClientState) (deltas : SegmentRowDeltas)
      → laws.Serves s (db t j)
      → AreWithin n w deltas
      → IsUpdated n w (db t j) deltas (db (t + 1) j)
      → laws.Serves (patch_segment B mode deltas s) (db (t + 1) j)
  segment_patched mode t j s [] h within u = laws.unchanged s (db t j) (db (t + 1) j) h u
  segment_patched mode t j s (r ∷ rs) h within u =
      laws.patched s (db t j) (db (t + 1) j) (r ∷ rs) mode h within u

  all_patched :
      (mode : HintPatchMode) (t j : ℕ) (rows : List SegmentRowDeltas) (ss : List B.ClientState)
      → AreServing t j ss
      → AreDeltas B n w laws db t j rows
      → length rows ≡ length ss
      → (ss' : List B.ClientState) × ((patch_segments B mode rows ss ≡ some ss')
          × (AreServing (t + 1) j ss' × (length ss' ≡ length ss)))
  unfolding patch_segments
  all_patched mode t j [] [] h d e = ([], (refl, (all_serving, refl)))
  all_patched mode t j [] (s ∷ ss) h d e = absurd (omega arith)
  all_patched mode t j (rows ∷ rest) [] h d e = absurd (omega arith)
  all_patched mode t j (rows ∷ rest) (s ∷ ss) (serving h hs) (segment_deltas within u ds) e =
      let (ss', (es, (served, el))) = all_patched mode t (suc j) rest ss hs ds (omega (arith, e)) in
      (
        _,
        (
          ap (λ o. o >>= λ patched. some (patch_segment B mode rows s ∷ patched)) es,
          (serving (segment_patched mode t j s rows h within u) served, ap suc el),
        ),
      )

  abbrev Kept : Option (HintPatchClient B × Applied) → Type 0
  Kept o = (r : HintPatchClient B × Applied) × ((o ≡ some r) × IsServing r.0)

  -- A client with a state for each segment, serving the database of its epoch, returns from
  -- `apply_delta` and still does so, when the server's delta of the client's next epoch leads to
  -- that epoch's database.
  pub apply_delta-IsServing :
      (c : HintPatchClient B) (delta : HintDeltaBundle)
      → IsServing c
      → (delta.epoch ≡ c.epoch + 1 → AreDeltas B n w laws db c.epoch 0 delta.per_segment_row_deltas)
      → (r : HintPatchClient B × Applied) × ((apply_delta B c delta ≡ some r) × IsServing r.0)
  unfolding apply_delta
  apply_delta-IsServing c delta (h, ec) leads =
      if_cases Kept (ltb delta.epoch (c.epoch + 1)) (λ _. (_, (refl, (h, ec))))
        λ nlt.
          if_cases Kept (ltb (c.epoch + 1) delta.epoch) (λ _. (_, (refl, (h, ec))))
            λ ngt.
              let at : delta.epoch ≡ c.epoch + 1 = ground (arith, nlt, ngt) in
              if_cases Kept (not (same_params delta.params c.params)) (λ _. (_, (refl, (h, ec))))
                λ _.
                  if_cases Kept
                    (not (length delta.per_segment_row_deltas == arity c.params.scheme_kind))
                    (λ _. (_, (refl, (h, ec))))
                    λ counted.
                      let (ss, (es, (served, el))) =
                        all_patched c.hint_patch_mode c.epoch 0 delta.per_segment_row_deltas
                          c.states h (leads at) (ground (arith, counted, ec)) in
                      (
                        _,
                        (
                          ap
                              (λ o. o >>= λ states.
                                some (record c { states = states; epoch = delta.epoch }, ok))
                              es,
                          (rw at served, el ∙ ec),
                        ),
                      )

  -- The delta of the next epoch is accepted.
  pub apply_delta_next :
      (c : HintPatchClient B) (delta : HintDeltaBundle)
      → IsServing c
      → AreDeltas B n w laws db c.epoch 0 delta.per_segment_row_deltas
      → delta.epoch ≡ c.epoch + 1
      → same_params delta.params c.params ≡ true
      → length delta.per_segment_row_deltas ≡ arity c.params.scheme_kind
      → (c' : HintPatchClient B) × (apply_delta B c delta ≡ some (c', ok))
        × IsServing c'
        × (c'.epoch ≡ delta.epoch)
        × (c'.params ≡ c.params)
  unfolding apply_delta
  apply_delta_next c delta (h, ec) leads next same counted =
      let P : Option (HintPatchClient B × Applied) → Type 0 = λ o.
        (c' : HintPatchClient B) × (o ≡ some (c', ok))
        × IsServing c'
        × (c'.epoch ≡ delta.epoch)
        × (c'.params ≡ c.params) in
      let (ss, (es, (served, el))) =
        all_patched c.hint_patch_mode c.epoch 0 delta.per_segment_row_deltas c.states h leads
          (counted ∙ sym ec) in
      if_cases P (ltb delta.epoch (c.epoch + 1)) (λ lt. absurd (ground (arith, lt, next)))
        λ _.
          if_cases P (ltb (c.epoch + 1) delta.epoch) (λ gt. absurd (ground (arith, gt, next)))
            λ _.
              if_cases P (not (same_params delta.params c.params))
                (λ bad. absurd (ground (arith, bad, same)))
                λ _.
                  if_cases P
                    (not (length delta.per_segment_row_deltas == arity c.params.scheme_kind))
                    (λ bad. absurd (ground (arith, bad, counted)))
                    λ _. (
                      record c { states = ss; epoch = delta.epoch },
                      ap
                          (λ o. o >>= λ states.
                            some (record c { states = states; epoch = delta.epoch }, ok))
                          es,
                      (rw next served, el ∙ ec),
                      refl,
                      refl,
                    )

-- Databases that agree are served by the same states.
pub AreServing-same :
    (B : IncrementalPirBackend) (n w : ℕ) (laws : HintLaws B n w) (db db' : ℕ → ℕ → List ℕ)
    (t t' j : ℕ) {ss : List B.ClientState}
    → ((k : ℕ) → db t k ≡ db' t' k)
    → AreServing B n w laws db t j ss
    → AreServing B n w laws db' t' j ss
AreServing-same B n w laws db db' t t' j e all_serving = all_serving
AreServing-same B n w laws db db' t t' j e (serving {s = s} h rest) =
    serving (rw (← e j) h) (AreServing-same B n w laws db db' t t' (suc j) e rest)
