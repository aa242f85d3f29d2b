-- ===== src/Client/Pending/Rows.antt =====
-- The row deltas that are made of a pending map make the same change, inside the same segment; and
-- merging keeps the keys of a map inside the segment.
use ikpir.Prelude.{
  ℕ, ◌+◌, ◌<◌, ◌≡◌, ◌∙◌, Bool, Option, none, some, List, [], ◌∷◌, ◌++◌, arith, ◌==◌, if◌then◌else◌,
  if_cases, ℤ, ◌+ℤ◌, is_zero, fits_i64, u32_of_ℤ,
}
use ikpir.TreeMap.{cell_order, put, remove, get}
use ikpir.Backend.Deltas.{
  SegmentRowDeltas, row_change, change, AreOffsets, no_offset, offset, AreWithin, no_row,
}
use ikpir.Backend.Deltas
use ikpir.Backend.Frodo.Rewind.{pending_change, AreKeys, no_pending, pending}
use ikpir.Client.Pending.{
  PendingDelta, as_row_deltas, segment, CellMap, push_cell, rows_of, merge_segment, merge_row,
  merge_cell, merge_entry, store_sum, segment,
}

row_change-append :
    (cs : List (ℕ × ℤ)) (off : ℕ) (d : ℤ) (j : ℕ)
    → row_change (cs ++ ((off, d) ∷ [])) j ≡ row_change cs j + (if j == off then u32_of_ℤ d else 0)
row_change-append [] off d j = omega arith
row_change-append ((o, e) ∷ cs) off d j = omega (arith, row_change-append cs off d j)

-- What one cell changes.
abbrev cell_change : ℕ → ℕ → ℤ → ℕ → ℕ → ℕ
cell_change r off d i j = if i == r then (if j == off then u32_of_ℤ d else 0) else 0

push_cell-change :
    (out : SegmentRowDeltas) (r off : ℕ) (d : ℤ) (i j : ℕ)
    → change (push_cell out r off d) i j ≡ change out i j + cell_change r off d i j
push_cell-change [] r off d i j = ground arith
push_cell-change ((last, cs) ∷ []) r off d i j =
    if_cases (λ o. change o i j ≡ change ((last, cs) ∷ []) i j + cell_change r off d i j)
      (last == r) (λ e. ground (arith, row_change-append cs off d j, e)) (λ _. ground arith)
push_cell-change (x ∷ y ∷ out) r off d i j = omega (arith, push_cell-change (y ∷ out) r off d i j)

rows_of-change :
    (m : CellMap) (out : SegmentRowDeltas) (i j : ℕ)
    → change (rows_of m out) i j ≡ change out i j + pending_change m i j
rows_of-change [] out i j = omega arith
rows_of-change (((r, off), d) ∷ m) out i j =
    rows_of-change m (push_cell out r off d) i j ∙ omega (arith, push_cell-change out r off d i j)

pub rows_of-pending_change :
    (m : CellMap) (i j : ℕ) → change (rows_of m []) i j ≡ pending_change m i j
rows_of-pending_change m i j = rows_of-change m [] i j ∙ omega arith

-- The row deltas that `as_row_deltas` makes of a segment's map change every cell by exactly what is
-- pending for it.
pub as_row_deltas-pending_change :
    (p : PendingDelta) (seg i j : ℕ)
    → change (as_row_deltas p seg) i j ≡ pending_change (segment p seg) i j
unfolding as_row_deltas
as_row_deltas-pending_change p seg i j = rows_of-pending_change (segment p seg) i j

AreOffsets-append :
    (w : ℕ) (cs : List (ℕ × ℤ)) (off : ℕ) (d : ℤ)
    → AreOffsets w cs
    → off < w
    → AreOffsets w (cs ++ ((off, d) ∷ []))
AreOffsets-append w [] off d no_offset lt = offset lt no_offset
AreOffsets-append w (_ ∷ cs) off d (offset b h) lt = offset b (AreOffsets-append w cs off d h lt)

push_cell-AreWithin :
    (n w : ℕ) (out : SegmentRowDeltas) (r off : ℕ) (d : ℤ)
    → AreWithin n w out
    → r < n
    → off < w
    → AreWithin n w (push_cell out r off d)
push_cell-AreWithin n w [] r off d h lr lo = Deltas.row lr (offset lo no_offset) no_row
push_cell-AreWithin n w ((last, cs) ∷ []) r off d (Deltas.row ll os h) lr lo =
    if_cases (AreWithin n w) (last == r)
      (λ _. Deltas.row ll (AreOffsets-append w cs off d os lo) no_row)
      (λ _. Deltas.row ll os (Deltas.row lr (offset lo no_offset) no_row))
push_cell-AreWithin n w (x ∷ y ∷ out) r off d (Deltas.row ll os h) lr lo =
    Deltas.row ll os (push_cell-AreWithin n w (y ∷ out) r off d h lr lo)

pub rows_of-AreWithin :
    (n w : ℕ) (m : CellMap) (out : SegmentRowDeltas)
    → AreWithin n w out
    → AreKeys n w m
    → AreWithin n w (rows_of m out)
rows_of-AreWithin n w [] out h no_pending = h
rows_of-AreWithin n w (((r, off), d) ∷ m) out h (pending lr lo k) =
    rows_of-AreWithin n w m _ (push_cell-AreWithin n w out r off d h lr lo) k

-- The keys of a map that is merged into.
module _ (n w : ℕ) where
  put-AreKeys :
      (k : ℕ × ℕ) (v : ℤ) (m : CellMap)
      → k.0 < n
      → k.1 < w
      → AreKeys n w m
      → AreKeys n w (put k v m)
  put-AreKeys k v [] lr lo no_pending = pending lr lo no_pending
  put-AreKeys k v ((j, u) ∷ m) lr lo (pending a b h) =
      let rest = put-AreKeys k v m lr lo h in
      if_cases (AreKeys n w) (cell_order.eq k j) (λ _. pending lr lo h)
        λ _.
          if_cases (AreKeys n w) (cell_order.lt k j) (λ _. pending lr lo (pending a b h))
            (λ _. pending a b rest)

  remove-AreKeys : (k : ℕ × ℕ) (m : CellMap) → AreKeys n w m → AreKeys n w (remove k m)
  remove-AreKeys k [] no_pending = no_pending
  remove-AreKeys k ((j, u) ∷ m) (pending a b h) =
      let rest = remove-AreKeys k m h in
      if_cases (AreKeys n w) (cell_order.eq k j) (λ _. h) (λ _. pending a b rest)

  merge_entry-AreKeys :
      (m : CellMap) (k : ℕ × ℕ) (d : ℤ) (o : Option ℤ)
      → k.0 < n
      → k.1 < w
      → AreKeys n w m
      → AreKeys n w (merge_entry m k d o).0
  merge_entry-AreKeys m k d none lr lo h =
      if_cases (AreKeys n w) (is_zero d) (λ _. h) (λ _. put-AreKeys k d m lr lo h)
  merge_entry-AreKeys m k d (some v) lr lo h =
      if_cases (λ s. AreKeys n w (store_sum m k s).0) (fits_i64 (v +ℤ d))
        (λ _.
          if_cases (AreKeys n w) (is_zero (v +ℤ d)) (λ _. remove-AreKeys k m h)
            (λ _. put-AreKeys k (v +ℤ d) m lr lo h))
        (λ _. h)

  merge_row-AreKeys :
      (r : ℕ) (cs : List (ℕ × ℤ)) (m : CellMap)
      → r < n
      → AreOffsets w cs
      → AreKeys n w m
      → AreKeys n w (merge_row r cs m).0
  unfolding merge_row merge_cell
  merge_row-AreKeys r [] m lr no_offset h = h
  merge_row-AreKeys r ((off, d) ∷ cs) m lr (offset lo os) h =
      let next = merge_entry-AreKeys m (r, off) d (get (r, off) m) lr lo h in
      if_cases (λ (p : CellMap × Bool). AreKeys n w p.0) _
        (λ _. merge_row-AreKeys r cs _ lr os next) (λ _. next)

  pub merge_segment-AreKeys :
      (rows : SegmentRowDeltas) (m : CellMap)
      → AreWithin n w rows
      → AreKeys n w m
      → AreKeys n w (merge_segment rows m).0
  unfolding merge_segment
  merge_segment-AreKeys [] m no_row h = h
  merge_segment-AreKeys ((r, cs) ∷ rows) m (Deltas.row lr os rest) h =
      let next = merge_row-AreKeys r cs m lr os h in
      if_cases (λ (p : CellMap × Bool). AreKeys n w p.0) _
        (λ _. merge_segment-AreKeys rows _ rest next) (λ _. next)
