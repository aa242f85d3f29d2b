-- ===== src/Server/Fold.antt =====
-- crates/ikpir-server/src/hint_patch.rs: the mutations of a log folded into the row deltas of each
-- segment. `none` is a panic. The `i64` sums are exact: they are sums of differences of `u32` cells,
-- which the mutations of a log in memory are too few to take past 2^63.
pub mod Cells
pub mod Output
pub mod Step
pub mod Updated
use ikpir.Prelude.{
  ℕ, zero, suc, ◌+◌, ◌-◌, ◌*◌, ◌/◌, ◌%◌, ◌^◌, true, false, not, Option, none, some, List, [], ◌∷◌,
  map, ltb, if◌then◌else◌, length, get_or, set, replicate, ◌>>=◌, ◌>>◌, assert, ℤ, pos, ◌+ℤ◌, sub_ℕ,
  is_zero,
}
use ikpir.TreeMap.{number_order, get, put}
use ikpir.Cuckoo.Store.{SlotMutation}
use ikpir.Cuckoo.Store.Build.{CuckooParams, arity, segment_size, cells_per_slot}
use ikpir.Cuckoo.Store.Payload.{pack_slot_cells}
use ikpir.Backend.Deltas.{SegmentRowDeltas}

-- `BTreeMap<u16, i64>`
abbrev pub RowMap : Type 0
RowMap = List (ℕ × ℤ)

-- `.or_insert(0)`
abbrev pub or_zero : Option ℤ → ℤ
or_zero none = pos 0
or_zero (some d) = d

-- `.or_default()`
abbrev pub or_empty : Option RowMap → RowMap
or_empty none = []
or_empty (some m) = m

abbrev pub add_cell : ℕ → ℤ → RowMap → RowMap
add_cell off d m = put off (or_zero (get off m) +ℤ d) m

-- `for c in 0..cps`, from `c` on, by the cells left; `first` is the offset of the slot in its row.
unfoldable pub fold_cells : ℕ → ℕ → ℕ → List ℕ → List ℕ → RowMap → Option RowMap
fold_cells zero c first old_buf new_buf row = some row
fold_cells (suc left) c first old_buf new_buf row =
    let delta = sub_ℕ (get_or new_buf c 0) (get_or old_buf c 0) in
    elim (is_zero delta) [
      | true ↦ fold_cells left (suc c) first old_buf new_buf row
      | false ↦ do
        assert (ltb (first + c) (2 ^ 16))
        fold_cells left (suc c) first old_buf new_buf (add_cell (first + c) delta row)
    ]

unfoldable pub fold_mutation :
    CuckooParams → List SegmentRowDeltas → SlotMutation → Option (List SegmentRowDeltas)
fold_mutation p acc m = do
  let cps = cells_per_slot p
  let seg_idx = m.bucket / segment_size p
  let bucket_in_seg = m.bucket % segment_size p
  old_buf ← pack_slot_cells p m.old_fingerprint m.old_value_cells
  new_buf ← pack_slot_cells p m.new_fingerprint m.new_value_cells
  assert (ltb seg_idx (length acc))
  let seg = get_or acc seg_idx []
  row ← fold_cells cps 0 (m.slot * cps) old_buf new_buf (or_empty (get bucket_in_seg seg))
  some (set acc seg_idx (put bucket_in_seg row seg))

-- `for m in muts`
unfoldable pub fold_all :
    CuckooParams → List SlotMutation → List SegmentRowDeltas → Option (List SegmentRowDeltas)
fold_all p [] acc = some acc
fold_all p (m ∷ muts) acc = fold_mutation p acc m >>= λ acc. fold_all p muts acc

-- `cells.into_iter().filter(|(_, d)| *d != 0).collect()`
abbrev pub nonzero_cells : RowMap → List (ℕ × ℤ)
nonzero_cells [] = []
nonzero_cells ((off, d) ∷ cells) =
    let rest = nonzero_cells cells in if is_zero d then rest else (off, d) ∷ rest

abbrev pub keep_row : ℕ → List (ℕ × ℤ) → SegmentRowDeltas → SegmentRowDeltas
keep_row row [] rest = rest
keep_row row (c ∷ cells) rest = (row, c ∷ cells) ∷ rest

-- `seg.into_iter().filter_map(…).collect()`
abbrev pub nonempty_rows : SegmentRowDeltas → SegmentRowDeltas
nonempty_rows [] = []
nonempty_rows ((row, cells) ∷ seg) = keep_row row (nonzero_cells cells) (nonempty_rows seg)

unfoldable pub fold_mutations_into_row_deltas :
    List SlotMutation → CuckooParams → Option (List SegmentRowDeltas)
fold_mutations_into_row_deltas muts p = do
  acc ← fold_all p muts (replicate (arity p.scheme_kind) [])
  some (map nonempty_rows acc)
