-- ===== src/Client/Rewind/Sync.antt =====
-- A rewinding client stays in step with the server: whatever deltas it folds and whenever it
-- collects garbage, its states serve the pinned database, and the pinned database with the pending
-- sum is the server's database at the client's epoch.
use ikpir.Prelude.{
  ℕ, suc, ◌+◌, ◌*◌, ◌<◌, ◌≡◌, true, some, List, [], ◌∷◌, map, arith, length, get_or, u32, sym, ap,
  Bool, if_cases, ◌>>=◌, some-injective, refl, false, Option, none, if◌then◌else◌, ◌∙◌, ◌==◌,
}
use ikpir.Cuckoo.Store.Build.{arity}
use ikpir.Backend.Deltas.{SegmentRowDeltas, entry_level, AreWithin, change, no_row}
use ikpir.Backend.Interface.{IncrementalPirBackend, HintLaws, IsUpdated}
use ikpir.Backend.Frodo.Rewind.{pending_change, AreKeys, no_pending}
use ikpir.Client.Pending.{
  with_head, CellMap, PendingDelta, merge_all, merge_segment, clear, as_row_deltas, segment,
  rows_of,
}
use ikpir.Client.Pending.Merge.{IsPending}
use ikpir.Client.Pending.Change.{merge_segment-pending_change}
use ikpir.Client.Pending.Rows.{rows_of-pending_change, rows_of-AreWithin, merge_segment-AreKeys}
use ikpir.Client.Rewind.{RewindClient, patch_states, collect_garbage}

-- A merge of several segments that succeeds has a first and a rest that do.
merged_head :
    (first : CellMap × Bool) (rest : Option (List CellMap × Bool)) (ms ms' : List CellMap)
    → (if first.1 then rest >>= with_head first.0 else some (first.0 ∷ ms, false))
      ≡ some (ms', true)
    → (first.1 ≡ true)
      × ((tail : List CellMap) × ((rest ≡ some (tail, true)) × (first.0 ∷ tail ≡ ms')))
merged_head (m, false) rest ms ms' e =
    absurd (let f = ap (λ (p : List CellMap × Bool). p.1) (some-injective e) in cc)
merged_head (m, true) none ms ms' e = absurd cc
merged_head (m, true) (some (tail, good)) ms ms' e =
    let pair = some-injective e in
    (
      refl,
      (
        tail,
        (
          ap (λ b. some (tail, b)) (ap (λ (p : List CellMap × Bool). p.1) pair),
          ap (λ (p : List CellMap × Bool). p.0) pair,
        ),
      ),
    )

module _ (B : IncrementalPirBackend) (n w : ℕ) (laws : HintLaws B n w) (db : ℕ → ℕ → List ℕ) where
  -- `db t j` is segment `j` of the server's database at epoch `t`. A segment of the client:
  pub record IsSegmentSynced (pin head j : ℕ) (s : B.ClientState) (m : CellMap) : Type 0 where
    pub serves : laws.Serves s (db pin j)
    pub sparse : IsPending m
    pub keys : AreKeys n w m
    pub drift :
        (i k : ℕ)
        → i < n
        → k < w
        → u32 (get_or (db head j) (i * w + k) 0)
          ≡ u32 (get_or (db pin j) (i * w + k) 0 + pending_change m i k)

  -- The segments from `j` on, each with its state and its pending map.
  pub data AreSynced (pin head : ℕ) : ℕ → List B.ClientState → List CellMap → Type 0 where
    all_synced : {j : ℕ} → AreSynced pin head j [] []
    synced_segment :
        {j : ℕ} {s : B.ClientState} {ss : List B.ClientState} {m : CellMap} {ms : List CellMap}
        → IsSegmentSynced pin head j s m
        → AreSynced pin head (suc j) ss ms
        → AreSynced pin head j (s ∷ ss) (m ∷ ms)

  -- The deltas of the segments from `j` on lead from the database of one epoch to the next.
  pub data AreDeltas (t : ℕ) : ℕ → List SegmentRowDeltas → Type 0 where
    all_deltas : {j : ℕ} → AreDeltas t j []
    segment_deltas :
        {j : ℕ} {rows : SegmentRowDeltas} {rest : List SegmentRowDeltas}
        → AreWithin n w rows
        → IsUpdated n w (db t j) rows (db (t + 1) j)
        → AreDeltas t (suc j) rest
        → AreDeltas t j (rows ∷ rest)

  abbrev pub IsSynced : RewindClient B → Type 0
  IsSynced c =
      AreSynced c.pin_epoch c.epoch 0 c.states c.pending.per_segment
      × (length c.pending.per_segment ≡ arity c.params.scheme_kind)

  pub synced_length :
      (pin head j : ℕ) (ss : List B.ClientState) (ms : List CellMap)
      → AreSynced pin head j ss ms
      → length ss ≡ length ms
  synced_length pin head j [] [] all_synced = refl
  synced_length pin head j [] (m ∷ ms) h = elim h [ ]
  synced_length pin head j (s ∷ ss) [] h = elim h [ ]
  synced_length pin head j (s ∷ ss) (m ∷ ms) (synced_segment _ h) =
      ap suc (synced_length pin head (suc j) ss ms h)

  segment_merge :
      (pin t j : ℕ) (s : B.ClientState) (m : CellMap) (rows : SegmentRowDeltas)
      → IsSegmentSynced pin t j s m
      → AreWithin n w rows
      → IsUpdated n w (db t j) rows (db (t + 1) j)
      → (merge_segment rows m).1 ≡ true
      → IsSegmentSynced pin (t + 1) j s (merge_segment rows m).0
  segment_merge pin t j s m rows h within u good =
      let (sparse, sums) = merge_segment-pending_change m rows h.sparse good in
      record {
        serves = h.serves;
        sparse = sparse;
        keys = merge_segment-AreKeys n w rows m within h.keys;
        drift = λ i k li lk. omega (arith, u i k li lk, h.drift i k li lk, sums i k);
      }

  pub all_merge :
      (pin t j : ℕ) (rows : List SegmentRowDeltas) (ss : List B.ClientState) (ms ms' : List CellMap)
      → AreSynced pin t j ss ms
      → AreDeltas t j rows
      → length rows ≡ length ms
      → merge_all rows ms ≡ some (ms', true)
      → AreSynced pin (t + 1) j ss ms'
  unfolding merge_all
  all_merge pin t j [] ss [] ms' all_synced d e em =
      rw (ap (λ (r : List CellMap × Bool). r.0) (some-injective (sym em))) all_synced
  all_merge pin t j [] ss (m ∷ ms) ms' h d e em = absurd (omega arith)
  all_merge pin t j (rows ∷ rest) ss [] ms' h d e em = absurd (omega arith)
  all_merge pin t j (rows ∷ rest) [] (m ∷ ms) ms' h d e em = elim h [ ]
  all_merge pin t j (rows ∷ rest) (s ∷ ss) (m ∷ ms) ms' (synced_segment h hs)
        (segment_deltas within u ds) e em =
      let (good, (tail, (et, et'))) =
        merged_head (merge_segment rows m) (merge_all rest ms) ms ms' em in
      rw (sym et') (
        synced_segment (segment_merge pin t j s m rows h within u good)
          (all_merge pin t (suc j) rest ss ms tail hs ds (omega (arith, e)) et))

  -- Collecting garbage: each state is patched by its pending map, if that is not empty.
  segment_collect :
      (pin head j : ℕ) (s : B.ClientState) (m : CellMap) (rows : SegmentRowDeltas)
      → rows ≡ rows_of m []
      → IsSegmentSynced pin head j s m
      → laws.Serves
          (elim rows [ [] ↦ s | r ∷ rs ↦ B.client_patch_state s (r ∷ rs) entry_level ])
          (db head j)
  segment_collect pin head j s m [] e h =
      laws.unchanged s (db pin j) (db head j) h.serves λ i k li lk.
        let empty : pending_change m i k ≡ 0 =
          sym (rows_of-pending_change m i k) ∙ ap (λ r. change r i k) (sym e) in
        omega (arith, h.drift i k li lk, empty)
  segment_collect pin head j s m (r ∷ rs) e h =
      laws.patched s (db pin j) (db head j) (r ∷ rs) entry_level h.serves
        (rw e (rows_of-AreWithin n w m [] no_row h.keys))
        λ i k li lk.
          let made : change (r ∷ rs) i k ≡ pending_change m i k =
            ap (λ x. change x i k) e ∙ rows_of-pending_change m i k in
          omega (arith, h.drift i k li lk, made)

  -- A segment that serves the present database, with nothing pending.
  pub collected :
      (head j : ℕ) (s : B.ClientState)
      → laws.Serves s (db head j)
      → IsSegmentSynced head head j s []
  collected head j s h = record {
    serves = h;
    sparse = record { sorted = tt; nonzero = λ k v e. absurd cc };
    keys = no_pending;
    drift = λ i k li lk. omega arith;
  }

  all_collect :
      (pin head j : ℕ) (ss : List B.ClientState) (ms : List CellMap) (p : PendingDelta)
      → AreSynced pin head j ss ms
      → ((k : ℕ) → segment p (j + k) ≡ get_or ms k [])
      → AreSynced head head j (patch_states B j ss p) (map (λ _. []) ms)
  unfolding patch_states as_row_deltas
  all_collect pin head j [] [] p all_synced at = all_synced
  all_collect pin head j [] (m ∷ ms) p h at = elim h [ ]
  all_collect pin head j (s ∷ ss) [] p h at = elim h [ ]
  all_collect pin head j (s ∷ ss) (m ∷ ms) p (synced_segment h hs) at =
      synced_segment
        (collected head j _ (
          segment_collect pin head j s m (as_row_deltas p j)
            (ap (λ k. rows_of k []) (ap (segment p) (omega arith) ∙ at 0)) h))
        (all_collect pin head (suc j) ss ms p hs (λ k. ap (segment p) (omega arith) ∙ at (suc k)))

  segment_of : (p : PendingDelta) (k : ℕ) → segment p (0 + k) ≡ get_or p.per_segment k []
  unfolding segment
  segment_of p k = ap (λ i. get_or p.per_segment i []) (omega arith)

  cleared_length : (ms : List CellMap) → length {A = CellMap} (map (λ _. []) ms) ≡ length ms
  cleared_length [] = refl
  cleared_length (m ∷ ms) = ap suc (cleared_length ms)

  pub collect_garbage-IsSynced : (c : RewindClient B) → IsSynced c → IsSynced (collect_garbage B c)
  unfolding collect_garbage clear
  collect_garbage-IsSynced c (h, e) =
      if_cases IsSynced (c.pin_epoch == c.epoch) (λ _. (h, e))
        (λ _. (
          all_collect c.pin_epoch c.epoch 0 c.states c.pending.per_segment c.pending h
              (segment_of c.pending),
          cleared_length c.pending.per_segment ∙ e,
        ))
