-- ===== src/Server/Fold/Updated.antt =====
-- The row deltas of a log are exactly the difference between the databases before and after it.
use ikpir.Prelude.{
  ℕ, zero, suc, ◌+◌, ◌*◌, ◌<◌, ◌≡◌, refl, ap, ◌∙◌, List, [], ◌∷◌, map, some, arith, length, get_or,
  replicate, length-replicate,
}
use ikpir.Cuckoo.Scheme.{SchemeKind}
use ikpir.Cuckoo.Table.{FingerprintValueTable, with_cells}
use ikpir.Cuckoo.Table.Slot.{IsTable, room_lem}
use ikpir.Cuckoo.Store.{SlotMutation}
use ikpir.Cuckoo.Store.Build.{arity}
use ikpir.Cuckoo.Store.Payload.Change.{of_table}
use ikpir.Cuckoo.Store.History.{IsClean, IsHistory, unchanged, mutated, write-Kept}
use ikpir.Backend.Accumulate.{slice, get_or-slice}
use ikpir.Backend.Deltas.{SegmentRowDeltas, AreWithin, no_row, change}
use ikpir.Backend.Interface.{IsUpdated}
use ikpir.Server.Fold.{fold_all, nonempty_rows, fold_mutations_into_row_deltas}
use ikpir.Server.Fold.Output.{at, nonempty_rows-change, nonempty_rows-AreWithin}
use ikpir.Server.Fold.Step.{IsSegmented, IsFolded, fold_mutation-IsFolded}

get_or-map :
    (xs : List SegmentRowDeltas) (j : ℕ)
    → get_or (map nonempty_rows xs) j [] ≡ nonempty_rows (get_or xs j [])
get_or-map [] j = refl
get_or-map (x ∷ xs) zero = refl
get_or-map (x ∷ xs) (suc j) = get_or-map xs j

length-map : (xs : List SegmentRowDeltas) → length (map nonempty_rows xs) ≡ length xs
length-map [] = refl
length-map (x ∷ xs) = ap suc (length-map xs)

get_or-replicate : (k j : ℕ) → get_or {A = SegmentRowDeltas} (replicate k []) j [] ≡ []
get_or-replicate zero j = refl
get_or-replicate (suc k) zero = refl
get_or-replicate (suc k) (suc j) = get_or-replicate k j

-- The segment `j` of a database of segments of `n` rows, `w` cells wide.
abbrev pub segment_of : ℕ → ℕ → List ℕ → ℕ → List ℕ
segment_of n w cells j = slice cells (j * (n * w)) (n * w)

module _ (kind : SchemeKind) (n w : ℕ) (t0 : FingerprintValueTable)
    (shape : IsSegmented kind n w t0) where
  fold_all-IsFolded :
      (log : List SlotMutation) (cells : List ℕ) (u : FingerprintValueTable)
      (acc : List SegmentRowDeltas)
      → IsTable (with_cells t0 cells)
      → IsClean (with_cells t0 cells)
      → IsHistory (with_cells t0 cells) log u
      → IsFolded kind n w t0 shape cells acc
      → (acc' : List SegmentRowDeltas) × (fold_all (of_table kind t0) log acc ≡ some acc')
        × IsFolded kind n w t0 shape u.cells acc'
  unfolding fold_all
  fold_all-IsFolded [] cells u acc valid clean unchanged f = (acc, refl, f)
  fold_all-IsFolded (m ∷ log) cells u acc valid clean (mutated {u = t1} one rest) f =
      let t = with_cells t0 cells in
      let kept =
        write-Kept t t1 m.bucket m.slot m.new_fingerprint m.new_value_cells valid clean one.range
          one.pair one.wrote in
      let first = fold_mutation-IsFolded kind n w t0 shape cells t1 m acc valid one f in
      let last =
        fold_all-IsFolded log t1.cells u first.0 (rw kept.shape at kept.table)
          (rw kept.shape at kept.clean) (rw kept.shape at rest) first.2 in
      (last.0, rw first.1 last.1, last.2)

  no_sums : IsFolded kind n w t0 shape t0.cells (replicate (arity kind) [])
  no_sums = record {
    count = length-replicate (arity kind) [];
    sorted = λ j. rw (get_or-replicate (arity kind) j) (tt, λ i. tt);
    within = λ j. rw (get_or-replicate (arity kind) j) no_row;
    sums = λ j i off lti lto.
        let none : at (get_or (replicate (arity kind) []) j []) i off ≡ at [] i off =
          ap (λ (s : SegmentRowDeltas). at s i off) (get_or-replicate (arity kind) j) in
        rw none (omega arith);
  }

  -- For a well-formed table whose empty slots hold zeros, in segments of `n` buckets with rows of `w`
  -- cells, at most 2^16, so that an offset in a row is a `u16`: folding a true log of the table
  -- returns a list of rows for each segment, inside it, and they change every cell of the segment
  -- by what the log changed there.
  pub fold_mutations-IsUpdated :
      (log : List SlotMutation) (u : FingerprintValueTable)
      → IsTable t0
      → IsClean t0
      → IsHistory t0 log u
      → (rows : List SegmentRowDeltas) × (fold_mutations_into_row_deltas log (of_table kind t0)
          ≡ some rows)
        × (length rows ≡ arity kind)
        × ((j : ℕ) → AreWithin n w (get_or rows j []))
        × ((j : ℕ)
            → IsUpdated n w
                (segment_of n w t0.cells j)
                (get_or rows j [])
                (segment_of n w u.cells j))
  unfolding fold_mutations_into_row_deltas
  fold_mutations-IsUpdated log u valid clean h =
      let r = fold_all-IsFolded log t0.cells u (replicate (arity kind) []) valid clean h no_sums in
      let acc = r.0 in
      (
        map nonempty_rows acc,
        rw r.1 refl,
        length-map acc ∙ r.2.count,
        λ j. rw (get_or-map acc j) (nonempty_rows-AreWithin n w (get_or acc j []) (r.2.within j)),
        λ j i off lti lto.
            let room : i * w + off < n * w = omega (arith, room_lem i n w lti) in
            omega (
              arith,
              get_or-slice (j * (n * w)) (n * w) (i * w + off) t0.cells 0 room,
              get_or-slice (j * (n * w)) (n * w) (i * w + off) u.cells 0 room,
              r.2.sums j i off lti lto,
              ap (λ s. change s i off) (get_or-map acc j),
              nonempty_rows-change (get_or acc j []) i off (r.2.sorted j),
            ),
      )
