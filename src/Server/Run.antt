-- ===== src/Server/Run.antt =====
-- A server and its clients: a server that is built has the hints of its store, a client that is set
-- up from it follows it, and follows it on with each published bundle.
use ikpir.Prelude.{
  ℕ, zero, suc, ◌+◌, ◌*◌, ◌≡◌, refl, sym, ap, ◌∙◌, Option, some, List, [], ◌∷◌, arith, length,
  get_or, >>=-some, some-injective, assert, leb, u32, ◌==◌, if◌then◌else◌, true, Option-cases, inl,
  inr,
}
use ikpir.Cuckoo.Scheme.{SchemeKind, segmented_2ary, segmented_3ary, segmented_4ary}
use ikpir.Cuckoo.Table.Slot.{IsTable}
use ikpir.Cuckoo.Store.{CuckooKvStore}
use ikpir.Cuckoo.Store.Build.{
  CuckooParams, arity, cells_per_slot, params, enable_mutation_log, drain_mutations,
}
use ikpir.Cuckoo.Store.Payload.Change.{of_table}
use ikpir.Cuckoo.Store.History.{IsClean}
use ikpir.Backend.Accumulate.{slice}
use ikpir.Backend.Deltas.{SegmentRowDeltas, AreWithin}
use ikpir.Backend.Interface.{
  IncrementalPirBackend, IndexPirBackend, HintLaws, ServerLaws, IsUpdated,
}
use ikpir.Client.Bundles.{HintDeltaBundle, ok, same_params}
use ikpir.Client.Bundles
use ikpir.Client.Rewind.{setup_states}
use ikpir.Client.Rewind.Sync.{AreDeltas, all_deltas, segment_deltas}
use ikpir.Client.HintPatch.{HintPatchClient, from_setup, apply_delta}
use ikpir.Client.HintPatch.Serving.{
  AreServing, all_serving, serving, AreServing-same, apply_delta_next,
}
use ikpir.Server.{IkpirServer, Segments, setup_segments, build, setup, row_width}
use ikpir.Server.Fold.Step.{IsSegmented}
use ikpir.Server.Fold.Updated.{segment_of}
use ikpir.Server.Commit.{IsServer, IsPublished, AreHints, all_hints, hint}

same_kind_refl : (k : SchemeKind) → Bundles.same_kind k k ≡ true
same_kind_refl segmented_2ary = refl
same_kind_refl segmented_3ary = refl
same_kind_refl segmented_4ary = refl

same_params_refl : (p : CuckooParams) → same_params p p ≡ true
unfolding same_params
same_params_refl p = ground (arith, same_kind_refl p.scheme_kind)

module _ (B : IncrementalPirBackend) (P : IndexPirBackend B) (kind : SchemeKind) (n w : ℕ)
    (laws : HintLaws B n w) (promise : ServerLaws B P n w laws) where
  setup_segments-AreHints :
      (draw : ℕ) (config : P.Config) (cells : List ℕ) (pb left j : ℕ) (made : Segments B P kind)
      → setup_segments B P kind draw config cells n w pb left j ≡ some made
      → AreHints B P kind n w laws promise cells j made.backend_params made.backend_hint_material
          made.hints
        × (length made.backend_params ≡ left)
  unfolding setup_segments
  setup_segments-AreHints draw config cells pb zero j made h =
      rw (← some-injective h) (all_hints, refl)
  setup_segments-AreHints draw config cells pb (suc left) j made h =
      >>=-some (assert (leb (j * (n * w) + n * w) (length cells))) _ h (λ _ _ h1.
        >>=-some (P.server_setup (draw + j) config (slice cells (j * (n * w)) (n * w)) n w pb) _ h1
          (λ x one h2.
            >>=-some (setup_segments B P kind draw config cells n w pb left (suc j)) _ h2
              (λ rest more h3.
                let own = promise.set_up (draw + j) config (segment_of n w cells j) pb x one in
                let others = setup_segments-AreHints draw config cells pb left (suc j) rest more in
                rw (← some-injective h3) (hint own.0 own.1 others.0, ap suc others.1))))

  -- A server that is built from a well-formed, clean and segmented table has the hints of its
  -- database and nothing left to publish.
  pub build-IsServer :
      (draw : ℕ) (store : CuckooKvStore) (config : P.Config) (s : IkpirServer B P kind)
      → IsTable store.table
      → IsClean store.table
      → IsSegmented kind n w store.table
      → build B P kind draw store config ≡ some s
      → IsServer B P kind n w laws promise s
  unfolding build params row_width enable_mutation_log drain_mutations
  build-IsServer draw store config s valid clean shape h =
      let t = store.table in
      let width : u32 (t.bucket_size * cells_per_slot (of_table kind t)) ≡ w =
        rw shape.described (omega (arith, shape.width, shape.small)) in
      let loop = setup_segments B P kind draw config t.cells n w t.plaintext_bits (arity kind) 0 in
      >>=-some loop _ (rw (shape.rows, width) at h) (λ made one h1.
        let hints =
          setup_segments-AreHints draw config t.cells t.plaintext_bits (arity kind) 0 made one in
        elim (Option-cases store.mutation_log) [
          | inl e ↦ rw (← some-injective (rw e at h1)) (record {
            table = valid;
            clean = clean;
            shape = shape;
            params = refl;
            drained = refl;
            hints = hints.0;
            count = hints.1;
          })
          | inr (log, e) ↦ rw (← some-injective (rw e at h1)) (record {
            table = valid;
            clean = clean;
            shape = shape;
            params = refl;
            drained = refl;
            hints = hints.0;
            count = hints.1;
          })
        ])

  -- The states of a patching client serve the database of a server at the same epoch.
  pub record Follows (c : HintPatchClient B) (s : IkpirServer B P kind) : Type 0 where
    pub epoch : c.epoch ≡ s.epoch
    pub params : c.params ≡ s.params
    pub states :
        AreServing B n w laws (λ _ j. segment_of n w s.store.table.cells j) s.epoch 0 c.states
    pub count : length c.states ≡ arity kind

  setup_states-AreServing :
      (cells : List ℕ) (t j : ℕ) {ps : List B.ServerParams} {ms : List (Option B.HintMaterial)}
      {hs : List B.Hint}
      → AreHints B P kind n w laws promise cells j ps ms hs
      → AreServing B n w laws (λ _ k. segment_of n w cells k) t j (setup_states B ps hs)
        × (length (setup_states B ps hs) ≡ length ps)
  unfolding setup_states
  setup_states-AreServing cells t j all_hints = (all_serving, refl)
  setup_states-AreServing cells t j (hint {p = p} {h = h} is own rest) =
      let more = setup_states-AreServing cells t (suc j) rest in
      (serving (promise.served p h (segment_of n w cells j) is) more.0, ap suc more.1)

  -- A client that is set up from a server follows it.
  pub from_setup-Follows :
      (s : IkpirServer B P kind)
      → IsServer B P kind n w laws promise s
      → Follows (from_setup B (setup B P kind s)) s
  unfolding from_setup setup
  from_setup-Follows s is =
      let made = setup_states-AreServing s.store.table.cells s.epoch 0 is.hints in
      record { epoch = refl; params = refl; states = made.0; count = made.1 ∙ is.count }

  -- The database before and after one epoch.
  abbrev history : ℕ → List ℕ → List ℕ → ℕ → ℕ → List ℕ
  history t cells cells' u j = if u == t then segment_of n w cells j else segment_of n w cells' j

  bundle-AreDeltas :
      (db : ℕ → ℕ → List ℕ) (t : ℕ) (rows : List SegmentRowDeltas) (j : ℕ)
      → ((k : ℕ) → AreWithin n w (get_or rows k []))
      → ((k : ℕ) → IsUpdated n w (db t (j + k)) (get_or rows k []) (db (t + 1) (j + k)))
      → AreDeltas B n w laws db t j rows
  bundle-AreDeltas db t [] j within u = all_deltas
  bundle-AreDeltas db t (deltas ∷ rows) j within u =
      let first : j + 0 ≡ j = omega arith in
      segment_deltas (within 0) (rw first at (u 0)) (
        bundle-AreDeltas db t rows (suc j) (λ k. within (suc k))
          λ k. let at : j + suc k ≡ suc j + k = omega arith in rw at at (u (suc k)))

  -- A client that follows a server accepts the bundle that the server publishes, and then follows
  -- the server at its new epoch.
  pub apply_delta-Follows :
      (c : HintPatchClient B) (s s' : IkpirServer B P kind) (bundle : HintDeltaBundle)
      → IsServer B P kind n w laws promise s
      → Follows c s
      → IsPublished B P kind n w laws promise s bundle s'
      → (c' : HintPatchClient B) × (apply_delta B c bundle ≡ some (c', ok)) × Follows c' s'
  apply_delta-Follows c s s' bundle is f told =
      let cells = s.store.table.cells in
      let cells' = s'.store.table.cells in
      let db = history s.epoch cells cells' in
      let before : (k : ℕ) → segment_of n w cells k ≡ db c.epoch k =
        λ k. let e = f.epoch in ground (arith, e) in
      let after : (t : ℕ) → t ≡ s.epoch + 1 → (k : ℕ) → segment_of n w cells' k ≡ db t k =
        λ t e k. ground (arith, e) in
      let kind_eq : c.params.scheme_kind ≡ kind =
        ap (λ (p : CuckooParams). p.scheme_kind) (f.params ∙ is.params) in
      let next : c.epoch + 1 ≡ s.epoch + 1 = ap (λ x. x + 1) f.epoch in
      let leads = bundle-AreDeltas db c.epoch bundle.per_segment_row_deltas 0 told.within λ k.
        let at : 0 + k ≡ k = omega arith in
        rw (at, ← before k, ← after (c.epoch + 1) next k) (told.updated k) in
      let same : same_params bundle.params c.params ≡ true =
        rw (told.params, f.params) (same_params_refl s.params) in
      let (c', eq, (states, count), epoch, params) =
        apply_delta_next B n w laws db c bundle
          (
            AreServing-same B n w laws _ db s.epoch c.epoch 0 before f.states,
            f.count ∙ ap arity (sym kind_eq),
          )
          leads (told.epoch ∙ told.next ∙ sym next) same (told.count ∙ ap arity (sym kind_eq)) in
      (
        c',
        eq,
        record {
          epoch = epoch ∙ told.epoch;
          params = params ∙ f.params ∙ sym told.same;
          states =
              AreServing-same B n w laws db _ c'.epoch s'.epoch 0
                (λ k. sym (after c'.epoch (epoch ∙ told.epoch ∙ told.next) k)) states;
          count =
              count
              ∙ ap (λ (p : CuckooParams). arity p.scheme_kind) (params ∙ f.params ∙ is.params);
        },
      )
