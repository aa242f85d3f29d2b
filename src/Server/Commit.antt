-- ===== src/Server/Commit.antt =====
-- `commit_mutations`: the hints of the segments follow the database, in either patch mode and with
-- dropped materials expanded again.
use ikpir.Prelude.{
  ℕ, suc, ◌+◌, ◌≡◌, refl, sym, ap, ◌∙◌, Option, none, some, List, [], ◌∷◌, arith, length, get_or,
}
use ikpir.Cuckoo.Scheme.{SchemeKind}
use ikpir.Cuckoo.Table.{FingerprintValueTable}
use ikpir.Cuckoo.Table.Slot.{IsTable}
use ikpir.Cuckoo.Store.{SlotMutation, CuckooKvStore}
use ikpir.Cuckoo.Store.Build.{arity, drain_mutations}
use ikpir.Cuckoo.Store.Payload.Change.{of_table}
use ikpir.Cuckoo.Store.History.{IsClean, IsHistory, IsHistory-Kept}
use ikpir.Backend.Deltas.{SegmentRowDeltas, HintPatchMode, AreWithin}
use ikpir.Backend.Interface.{
  IncrementalPirBackend, IndexPirBackend, HintLaws, ServerLaws, IsUpdated,
}
use ikpir.Client.Bundles.{HintDeltaBundle}
use ikpir.Server.{IkpirServer, expanded, expand_segments, patched, patch_hints, commit_mutations}
use ikpir.Server.Fold.Step.{IsSegmented}
use ikpir.Server.Fold.Updated.{segment_of, fold_mutations-IsUpdated}

module _ (B : IncrementalPirBackend) (P : IndexPirBackend B) (kind : SchemeKind) (n w : ℕ)
    (laws : HintLaws B n w) (promise : ServerLaws B P n w laws) where
  -- A material is dropped, or it is the one that the parameters stand for.
  abbrev pub IsMaterial : B.ServerParams → Option B.HintMaterial → Type 0
  IsMaterial p none = Unit {0}
  IsMaterial p (some m) = Path B.HintMaterial m (B.expand_hint_material p)

  -- The segments from `j` on, with a hint of the database each.
  pub data AreHints (cells : List ℕ)
      : ℕ → List B.ServerParams → List (Option B.HintMaterial) → List B.Hint → Type 0 where
    all_hints : {j : ℕ} → AreHints cells j [] [] []
    hint :
        {j : ℕ} {p : B.ServerParams} {m : Option B.HintMaterial} {h : B.Hint}
        {ps : List B.ServerParams} {ms : List (Option B.HintMaterial)} {hs : List B.Hint}
        → promise.IsHintOf p h (segment_of n w cells j)
        → IsMaterial p m
        → AreHints cells (suc j) ps ms hs
        → AreHints cells j (p ∷ ps) (m ∷ ms) (h ∷ hs)

  expanded-IsMaterial :
      (deltas : SegmentRowDeltas) (p : B.ServerParams) (m : Option B.HintMaterial)
      → IsMaterial p m
      → IsMaterial p (expanded B P kind deltas p m)
  expanded-IsMaterial [] p m e = e
  expanded-IsMaterial (_ ∷ _) p none e = refl
  expanded-IsMaterial (_ ∷ _) p (some m) e = e

  -- A touched segment is patched with its own material.
  patched_segment :
      (mode : HintPatchMode) (deltas : SegmentRowDeltas) (p : B.ServerParams)
      (m : Option B.HintMaterial) (h : B.Hint) (db db' : List ℕ)
      → promise.IsHintOf p h db
      → IsMaterial p m
      → AreWithin n w deltas
      → IsUpdated n w db deltas db'
      → (h' : B.Hint) × (patched B P kind mode deltas p (expanded B P kind deltas p m) h ≡ some h')
        × promise.IsHintOf p h' db'
  patched_segment mode [] p m h db db' is e within u = (h, refl, promise.unchanged p h db db' is u)
  patched_segment mode (r ∷ rs) p none h db db' is e within u =
      (_, refl, promise.patched p h db db' (r ∷ rs) mode is within u)
  patched_segment mode (r ∷ rs) p (some m) h db db' is e within u = (
    _,
    ap (λ x. some (B.server_patch_hint p x h (r ∷ rs) mode)) e,
    promise.patched p h db db' (r ∷ rs) mode is within u,
  )

  pub all_patched :
      (cells cells' : List ℕ) (mode : HintPatchMode) (rows : List SegmentRowDeltas) (j : ℕ)
      {ps : List B.ServerParams} {ms : List (Option B.HintMaterial)} {hs : List B.Hint}
      → AreHints cells j ps ms hs
      → length rows ≡ length ps
      → ((k : ℕ) → AreWithin n w (get_or rows k []))
      → ((k : ℕ)
          → IsUpdated n w
              (segment_of n w cells (j + k))
              (get_or rows k [])
              (segment_of n w cells' (j + k)))
      → (ms' : List (Option B.HintMaterial)) × (hs' : List B.Hint) × (expand_segments B P kind rows
            ps ms
          ≡ some ms')
        × (patch_hints B P kind mode rows ps ms' hs ≡ some hs')
        × AreHints cells' j ps ms' hs'
  unfolding expand_segments patch_hints
  all_patched cells cells' mode [] j all_hints e within u = ([], [], refl, refl, all_hints)
  all_patched cells cells' mode (_ ∷ _) j all_hints e within u = absurd (omega arith)
  all_patched cells cells' mode [] j (hint is own rest) e within u = absurd (omega arith)
  all_patched cells cells' mode (deltas ∷ rows) j (hint {p = p} {m = m} {h = h} is own rest) e
        within u =
      let here : IsUpdated n w (segment_of n w cells j) deltas (segment_of n w cells' j) =
        let at : j + 0 ≡ j = omega arith in rw at at (u 0) in
      let there : (k : ℕ)
          → IsUpdated n w (segment_of n w cells (suc j + k)) (get_or rows k [])
              (segment_of n w cells' (suc j + k)) =
        λ k. let at : j + suc k ≡ suc j + k = omega arith in rw at at (u (suc k)) in
      let (h', eh, is') =
        patched_segment mode deltas p m h (segment_of n w cells j) (segment_of n w cells' j) is own
          (within 0) here in
      let (ms', hs', em, ehs, rest') =
        all_patched cells cells' mode rows (suc j) rest (omega (arith, e)) (λ k. within (suc k))
          there in
      (
        expanded B P kind deltas p m ∷ ms',
        h' ∷ hs',
        rw em refl,
        rw (eh, ehs) refl,
        hint is' (expanded-IsMaterial deltas p m own) rest',
      )

  -- A server over a well-formed table whose empty slots hold zeros, in segments of `n` buckets with
  -- rows of `w` cells, at most 2^16. Its hints are those of its database, its materials are dropped
  -- or those of its parameters, and its log is on and drained.
  pub record IsServer (s : IkpirServer B P kind) : Type 0 where
    pub table : IsTable s.store.table
    pub clean : IsClean s.store.table
    pub shape : IsSegmented kind n w s.store.table
    pub params : s.params ≡ of_table kind s.store.table
    pub drained : s.store.mutation_log ≡ some []
    pub hints : AreHints s.store.table.cells 0 s.backend_params s.backend_hint_material s.hints
    pub count : length s.backend_params ≡ arity kind

  -- What a bundle tells of the step between two servers.
  pub record IsPublished (s : IkpirServer B P kind) (bundle : HintDeltaBundle)
      (s' : IkpirServer B P kind) : Type 0 where
    pub next : s'.epoch ≡ s.epoch + 1
    pub epoch : bundle.epoch ≡ s'.epoch
    pub params : bundle.params ≡ s.params
    pub same : s'.params ≡ s.params
    pub count : length bundle.per_segment_row_deltas ≡ arity kind
    pub within : (j : ℕ) → AreWithin n w (get_or bundle.per_segment_row_deltas j [])
    pub updated :
        (j : ℕ)
        → IsUpdated n w
            (segment_of n w s.store.table.cells j)
            (get_or bundle.per_segment_row_deltas j [])
            (segment_of n w s'.store.table.cells j)

  -- When the log of the new store is the history of its table, the commit returns, with the hints of
  -- the new database.
  pub commit_mutations-IsServer :
      (s : IkpirServer B P kind) (store : CuckooKvStore) (muts : List SlotMutation)
      → IsServer s
      → store.mutation_log ≡ some muts
      → IsHistory s.store.table muts store.table
      → (s' : IkpirServer B P kind) × (bundle : HintDeltaBundle) × (commit_mutations B P kind
            (record s { store = store })
          ≡ some (s', bundle))
        × IsServer s'
        × IsPublished s bundle s'
  unfolding commit_mutations drain_mutations
  commit_mutations-IsServer s store muts is logged history =
      let kept = IsHistory-Kept s.store.table store.table muts history is.table is.clean in
      let folded =
        fold_mutations-IsUpdated kind n w s.store.table is.shape muts store.table is.table is.clean
          history in
      let (ms', hs', em, eh, hints) =
        all_patched s.store.table.cells store.table.cells s.hint_patch_mode folded.0 0 is.hints
          (folded.2 ∙ sym is.count) folded.3
          λ k. let at : 0 + k ≡ k = omega arith in rw at (folded.4 k) in
      (
        record s {
          store = record store { mutation_log = some [] };
          backend_hint_material = ms';
          hints = hs';
          epoch = s.epoch + 1;
        },
        record { epoch = s.epoch + 1; per_segment_row_deltas = folded.0; params = s.params },
        rw logged (rw is.params (rw folded.1 (rw em (rw eh refl)))),
        record {
          table = kept.0;
          clean = kept.1;
          shape = rw kept.2 (reshaped s.store.table store.table.cells is.shape);
          params = is.params ∙ sym (ap (of_table kind) kept.2);
          drained = refl;
          hints = hints;
          count = is.count;
        },
        record {
          next = refl;
          epoch = refl;
          params = refl;
          same = refl;
          count = folded.2;
          within = folded.3;
          updated = folded.4;
        },
      )
    where
      reshaped :
          (t : FingerprintValueTable) (cells : List ℕ)
          → IsSegmented kind n w t
          → IsSegmented kind n w (record t { cells = cells })
      reshaped t cells h = record {
        described = h.described;
        rows = h.rows;
        buckets = h.buckets;
        width = h.width;
        small = h.small;
      }
