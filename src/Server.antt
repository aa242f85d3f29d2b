-- ===== src/Server.antt =====
-- crates/ikpir-server/src/server.rs: the server, which keeps a store, the hint of each segment of
-- its cells, and an epoch that counts the published changes. `none` is a panic; a `u64` epoch is
-- not driven past its end. The lists of a server have an entry for each segment, and a list that is
-- shorter is a panic of an index here.
pub mod Fold
pub mod Commit
pub mod Served
pub mod Run
pub mod Trace
mod Tests
use ikpir.Prelude.{
  ℕ, zero, suc, ◌+◌, ◌*◌, not, Option, none, some, List, [], ◌∷◌, map, ◌==◌, if◌then◌else◌, length,
  ◌>>=◌, ◌>>◌, u32, assert, leb,
}
use ikpir.Cuckoo.Scheme.{SchemeKind}
use ikpir.Cuckoo.Store.{
  CuckooKvStore, CuckooError, table_full, not_found, invalid_params, Outcome, ok, err,
}
use ikpir.Cuckoo.Store.Build.{
  CuckooParams, arity, segment_size, cells_per_slot, params, enable_mutation_log, drain_mutations,
}
use ikpir.Cuckoo.Store.Insert
use ikpir.Cuckoo.Store.Access
use ikpir.Backend.Accumulate.{slice}
use ikpir.Backend.Deltas.{SegmentRowDeltas, HintPatchMode, entry_level}
use ikpir.Backend.Interface.{IncrementalPirBackend, IndexPirBackend}
use ikpir.Client.Bundles.{
  HintDeltaBundle, ServerSetupBundle, IkpirError, stale_epoch, malformed_query, server_full,
  key_not_found, invalid_input,
}
use ikpir.Server.Fold.{fold_mutations_into_row_deltas}

pub data Published : Type 0 where
  published : HintDeltaBundle → Published
  rejected : IkpirError → Published

unfoldable pub map_cuckoo_err : CuckooError → IkpirError
map_cuckoo_err table_full = server_full
map_cuckoo_err not_found = key_not_found
map_cuckoo_err invalid_params = invalid_input

-- The width of a database row, a product in `u32`.
unfoldable pub row_width : CuckooParams → ℕ
row_width p = u32 (p.bucket_size * cells_per_slot p)

-- `PirQueryBundle` and `PirResponseBundle` of crates/ikpir-common/src/wire.rs.
pub record PirQueryBundle (Query : Type 0) : Type 0 where
  pub epoch : ℕ
  pub queries : List Query

pub record PirResponseBundle (Response : Type 0) : Type 0 where
  pub epoch : ℕ
  pub responses : List Response

pub data Answered (Response : Type 0) : Type 0 where
  answered : PirResponseBundle Response → Answered Response
  refused : IkpirError → Answered Response

module _ (B : IncrementalPirBackend) (P : IndexPirBackend B) (kind : SchemeKind) where
  pub record IkpirServer : Type 0 where
    pub store : CuckooKvStore
    pub params : CuckooParams
    pub backend_config : P.Config
    pub backend_params : List B.ServerParams
    pub backend_hint_material : List (Option B.HintMaterial)
    pub hints : List B.Hint
    pub epoch : ℕ
    pub hint_patch_mode : HintPatchMode

  -- What the loop over the segments builds.
  pub record Segments : Type 0 where
    pub backend_params : List B.ServerParams
    pub backend_hint_material : List (Option B.HintMaterial)
    pub hints : List B.Hint

  -- `for j in 0..arity`, from `j` on, by the segments left; setup `draw + j` draws the seed of
  -- segment `j`.
  unfoldable pub setup_segments : ℕ → P.Config → List ℕ → ℕ → ℕ → ℕ → ℕ → ℕ → Option Segments
  setup_segments draw config cells n w plaintext_bits zero j =
      some (record { backend_params = []; backend_hint_material = []; hints = [] })
  setup_segments draw config cells n w plaintext_bits (suc left) j = do
    let start = j * (n * w)
    assert (leb (start + n * w) (length cells))
    (sp, mat, h) ← P.server_setup (draw + j) config (slice cells start (n * w)) n w plaintext_bits
    rest ← setup_segments draw config cells n w plaintext_bits left (suc j)
    some (record {
      backend_params = sp ∷ rest.backend_params;
      backend_hint_material = some mat ∷ rest.backend_hint_material;
      hints = h ∷ rest.hints;
    })

  unfoldable pub build : ℕ → CuckooKvStore → P.Config → Option IkpirServer
  build draw store config = do
    let p = params kind store
    made ←
        setup_segments draw config store.table.cells (segment_size p) (row_width p) p.plaintext_bits
          (arity kind) 0
    let (_, store) = drain_mutations (enable_mutation_log store)
    some (record {
      store = store;
      params = p;
      backend_config = config;
      backend_params = made.backend_params;
      backend_hint_material = made.backend_hint_material;
      hints = made.hints;
      epoch = 0;
      hint_patch_mode = entry_level;
    })

  unfoldable pub setup : IkpirServer → ServerSetupBundle B
  setup s = record {
    params = s.params;
    backend_params = s.backend_params;
    hints = s.hints;
    epoch = s.epoch;
  }

  unfoldable pub rebuild_with : ℕ → IkpirServer → Option (IkpirServer × ServerSetupBundle B)
  rebuild_with draw s = do
    made ←
        setup_segments draw s.backend_config s.store.table.cells (segment_size s.params)
          (row_width s.params) s.params.plaintext_bits (arity s.params.scheme_kind) 0
    let (_, store) = drain_mutations s.store
    let next : IkpirServer = record s {
      store = store;
      backend_params = made.backend_params;
      backend_hint_material = made.backend_hint_material;
      hints = made.hints;
      epoch = s.epoch + 1;
    }
    some (next, setup next)

  unfoldable pub drop_hint_material : IkpirServer → IkpirServer
  drop_hint_material s = record s {
    backend_hint_material = map (λ _. none) s.backend_hint_material;
  }

  unfoldable pub set_hint_patch_mode : IkpirServer → HintPatchMode → IkpirServer
  set_hint_patch_mode s mode = record s { hint_patch_mode = mode }

  unfoldable pub reset_for_replay : IkpirServer → CuckooKvStore → List B.Hint → IkpirServer
  reset_for_replay s store hints0 =
      let (_, store) = drain_mutations (enable_mutation_log store) in
      record s { store = store; hints = hints0; epoch = 0 }

  -- The segments of an answer, from `j` on.
  unfoldable pub answer_segments :
      List ℕ → ℕ → ℕ → List B.ServerParams → List P.Query → ℕ → Option (List P.Response)
  answer_segments cells n w ps [] j = some []
  answer_segments cells n w [] (q ∷ queries) j = none
  answer_segments cells n w (p ∷ ps) (q ∷ queries) j = do
    let start = j * (n * w)
    assert (leb (start + n * w) (length cells))
    rest ← answer_segments cells n w ps queries (suc j)
    some (P.server_answer p (slice cells start (n * w)) n w q ∷ rest)

  unfoldable pub answer : IkpirServer → PirQueryBundle P.Query → Option (Answered P.Response)
  answer s q =
      if not (q.epoch == s.epoch)
      then some (refused (stale_epoch s.epoch q.epoch))
      else if not (length q.queries == arity s.params.scheme_kind)
      then some (refused malformed_query)
      else do
        responses ←
            answer_segments s.store.table.cells (segment_size s.params) (row_width s.params)
              s.backend_params q.queries 0
        some (answered (record { epoch = s.epoch; responses = responses }))

  -- Phase 1 of `commit_mutations`: the material of a touched segment that was dropped is expanded.
  abbrev pub expanded :
      SegmentRowDeltas → B.ServerParams → Option B.HintMaterial → Option B.HintMaterial
  expanded [] p m = m
  expanded (_ ∷ _) p none = some (B.expand_hint_material p)
  expanded (_ ∷ _) p (some m) = some m

  unfoldable pub expand_segments :
      List SegmentRowDeltas
      → List B.ServerParams
      → List (Option B.HintMaterial)
      → Option (List (Option B.HintMaterial))
  expand_segments [] ps ms = some ms
  expand_segments (deltas ∷ rest) (p ∷ ps) (m ∷ ms) = do
    done ← expand_segments rest ps ms
    some (expanded deltas p m ∷ done)
  expand_segments (deltas ∷ rest) _ _ = none

  -- Phase 2: the hint of a touched segment is patched.
  abbrev pub patched :
      HintPatchMode
      → SegmentRowDeltas
      → B.ServerParams
      → Option B.HintMaterial
      → B.Hint
      → Option B.Hint
  patched mode [] p m h = some h
  patched mode (r ∷ rs) p none h = none
  patched mode (r ∷ rs) p (some m) h = some (B.server_patch_hint p m h (r ∷ rs) mode)

  unfoldable pub patch_hints :
      HintPatchMode
      → List SegmentRowDeltas
      → List B.ServerParams
      → List (Option B.HintMaterial)
      → List B.Hint
      → Option (List B.Hint)
  patch_hints mode [] ps ms hs = some hs
  patch_hints mode (deltas ∷ rest) (p ∷ ps) (m ∷ ms) (h ∷ hs) = do
    h ← patched mode deltas p m h
    done ← patch_hints mode rest ps ms hs
    some (h ∷ done)
  patch_hints mode (deltas ∷ rest) _ _ _ = none

  unfoldable pub commit_mutations : IkpirServer → Option (IkpirServer × HintDeltaBundle)
  commit_mutations s = do
    let (muts, store) = drain_mutations s.store
    row_deltas ← fold_mutations_into_row_deltas muts s.params
    materials ← expand_segments row_deltas s.backend_params s.backend_hint_material
    hints ← patch_hints s.hint_patch_mode row_deltas s.backend_params materials s.hints
    let epoch = s.epoch + 1
    some (
      record s { store = store; backend_hint_material = materials; hints = hints; epoch = epoch },
      record { epoch = epoch; per_segment_row_deltas = row_deltas; params = s.params },
    )

  -- What follows a call of the store: `map_err(map_cuckoo_err)?`, then the commit.
  abbrev pub publish : IkpirServer → Outcome × CuckooKvStore → Option (IkpirServer × Published)
  publish s (err e, store) = some (record s { store = store }, rejected (map_cuckoo_err e))
  publish s (ok, store) =
      commit_mutations (record s { store = store }) >>= λ (s', bundle). some (s', published bundle)

  unfoldable pub insert :
      (ℕ → ℕ → ℕ) → IkpirServer → List ℕ → List ℕ → Option (IkpirServer × Published)
  insert random_range s key value =
      Insert.insert random_range s.store key value >>= λ r. publish s r

  unfoldable pub update : IkpirServer → List ℕ → List ℕ → Option (IkpirServer × Published)
  update s key value = Access.update s.store key value >>= λ r. publish s r

  unfoldable pub delete : IkpirServer → List ℕ → Option (IkpirServer × Published)
  delete s key = Access.delete s.store key >>= λ r. publish s r
