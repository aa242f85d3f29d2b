-- ===== src/Client/Pending.antt =====
-- crates/ikpir-client/src/pending.rs: the rolling sum of the deltas since the pinned hint.
pub mod Merge
pub mod Change
pub mod Rows
use ikpir.Prelude.{
  ℕ, ◌+◌, ◌-◌, ◌*◌, ◌/◌, false, not, Option, none, some, List, [], ◌∷◌, ◌++◌, map, ◌==◌,
  if◌then◌else◌, length, get_or, replicate, ◌>>=◌, ◌>>◌, for_each, sum_list, ℤ, ◌+ℤ◌, is_zero,
  fits_i64, Bool, true,
}
use ikpir.TreeMap.{cell_order, get, put, remove}
use ikpir.Backend.Deltas.{SegmentRowDeltas, offset}

abbrev pub CellMap : Type 0
CellMap = List ((ℕ × ℕ) × ℤ)

pub record PendingDelta : Type 0 where
  pub per_segment : List CellMap

unfoldable pub new : ℕ → PendingDelta
new arity = record { per_segment = replicate arity [] }

unfoldable pub cells : PendingDelta → ℕ
cells p = sum_list p.per_segment (λ m. length m)

unfoldable pub clear : PendingDelta → PendingDelta
clear p = record { per_segment = map (λ _. []) p.per_segment }

-- An index out of range panics in the source; the models of the callers test it before.
unfoldable pub segment : PendingDelta → ℕ → CellMap
segment p seg = get_or p.per_segment seg []

-- The entries of one row, in the order of their offsets.
unfoldable pub row : PendingDelta → ℕ → ℕ → List (ℕ × ℤ)
row p seg r = row_of (segment p seg)
  where
    row_of : CellMap → List (ℕ × ℤ)
    row_of [] = []
    row_of (((i, off), d) ∷ m) = let rest = row_of m in if i == r then (off, d) ∷ rest else rest

-- One entry of the walk over the map: `match out.last_mut() { … }`.
abbrev pub push_cell : SegmentRowDeltas → ℕ → ℕ → ℤ → SegmentRowDeltas
push_cell [] r off d = (r, (off, d) ∷ []) ∷ []
push_cell ((last, cs) ∷ []) r off d =
    if last == r then (last, cs ++ ((off, d) ∷ [])) ∷ [] else (last, cs) ∷ (r, (off, d) ∷ []) ∷ []
push_cell (x ∷ y ∷ out) r off d = x ∷ push_cell (y ∷ out) r off d

abbrev pub rows_of : CellMap → SegmentRowDeltas → SegmentRowDeltas
rows_of m = for_each m (λ e out. push_cell out e.0.0 e.0.1 e.1)

unfoldable pub as_row_deltas : PendingDelta → ℕ → SegmentRowDeltas
as_row_deltas p seg = rows_of (segment p seg) []

-- `checked_add` on `i64`
abbrev pub checked_add : ℤ → ℤ → Option ℤ
checked_add a b = let c = a +ℤ b in if fits_i64 c then some c else none

-- `Entry::Occupied`: the checked sum replaces the entry, or removes it at 0; `false` on overflow.
abbrev pub store_sum : CellMap → ℕ × ℕ → Option ℤ → CellMap × Bool
store_sum m k none = (m, false)
store_sum m k (some sum) = (if is_zero sum then remove k m else put k sum m, true)

abbrev pub merge_entry : CellMap → ℕ × ℕ → ℤ → Option ℤ → CellMap × Bool
merge_entry m k d none = (if is_zero d then m else put k d m, true)
merge_entry m k d (some v) = store_sum m k (checked_add v d)

-- `match self.per_segment[seg].entry((row, off)) { … }`
unfoldable pub merge_cell : CellMap → ℕ × ℕ → ℤ → CellMap × Bool
merge_cell m k d = merge_entry m k d (get k m)

-- The loops return `false` at once, with what has been merged so far.
unfoldable pub merge_row : ℕ → List (ℕ × ℤ) → CellMap → CellMap × Bool
merge_row r [] m = (m, true)
merge_row r ((off, d) ∷ cs) m =
    let (m', ok) = merge_cell m (r, off) d in
    let rest = merge_row r cs m' in if ok then rest else (m', false)

unfoldable pub merge_segment : SegmentRowDeltas → CellMap → CellMap × Bool
merge_segment [] m = (m, true)
merge_segment ((r, cs) ∷ rows) m =
    let (m', ok) = merge_row r cs m in
    let rest = merge_segment rows m' in if ok then rest else (m', false)

abbrev pub with_head : CellMap → List CellMap × Bool → Option (List CellMap × Bool)
with_head m (ms, ok) = some (m ∷ ms, ok)

-- More deltas than segments are a panic, `none`.
unfoldable pub merge_all : List SegmentRowDeltas → List CellMap → Option (List CellMap × Bool)
merge_all [] ms = some (ms, true)
merge_all (rows ∷ deltas) [] = none
merge_all (rows ∷ deltas) (m ∷ ms) =
    let (m', ok) = merge_segment rows m in
    let rest = merge_all deltas ms >>= with_head m' in if ok then rest else some (m' ∷ ms, false)

unfoldable pub merge : PendingDelta → List SegmentRowDeltas → Option (PendingDelta × Bool)
merge p deltas =
    merge_all deltas p.per_segment >>= λ (ms, ok). some (record { per_segment = ms }, ok)
