-- ===== src/Server/Fold/Output.antt =====
-- The rows that leave the fold: without the entries and the rows that came to nothing, the same
-- change.
use ikpir.Prelude.{
  ℕ, ◌+◌, ◌<◌, ◌≡◌, refl, ap₂, ◌∙◌, true, Option, none, some, List, [], ◌∷◌, arith, ◌==◌,
  if◌then◌else◌, if_cases, ltb, ℤ, pos, negsuc, is_zero, u32_of_ℤ,
}
use ikpir.TreeMap.{number_order, get, put, IsSorted, of_value, sum_at_key}
use ikpir.Backend.Deltas.{
  SegmentRowDeltas, AreOffsets, AreWithin, offset, no_offset, row, no_row, row_change, change,
}
use ikpir.Server.Fold.{RowMap, or_zero, or_empty, nonzero_cells, keep_row, nonempty_rows}
use ikpir.Server.Fold.Cells.{value, word}

-- The sum of a segment at a row and an offset.
abbrev pub at : SegmentRowDeltas → ℕ → ℕ → ℤ
at seg i off = value (or_empty (get i seg)) off

-- Rows in ascending order, each with its offsets in ascending order.
abbrev pub AreSorted : SegmentRowDeltas → Type 0
AreSorted seg = IsSorted seg × ((i : ℕ) → IsSorted (or_empty (get i seg)))

word_zero : (d : ℤ) → is_zero d ≡ true → u32_of_ℤ d ≡ 0
word_zero (pos n) h = ground (arith, h)
word_zero (negsuc n) h = absurd cc

nonzero_cells-row_change :
    (cells : RowMap) (j : ℕ) → row_change (nonzero_cells cells) j ≡ row_change cells j
nonzero_cells-row_change [] j = refl
nonzero_cells-row_change ((off, d) ∷ cells) j =
    let rest = nonzero_cells-row_change cells j in
    if_cases (λ c. row_change c j ≡ row_change ((off, d) ∷ cells) j) (is_zero d)
      (λ z. ground (arith, rest, word_zero d z)) (λ _. omega (arith, rest))

keep_row-change :
    (r : ℕ) (cells : List (ℕ × ℤ)) (rest : SegmentRowDeltas) (i j : ℕ)
    → change (keep_row r cells rest) i j
      ≡ (if i == r then row_change cells j else 0) + change rest i j
keep_row-change r [] rest i j = ground arith
keep_row-change r (c ∷ cells) rest i j = refl

nonempty_rows-same :
    (seg : SegmentRowDeltas) (i j : ℕ) → change (nonempty_rows seg) i j ≡ change seg i j
nonempty_rows-same [] i j = refl
nonempty_rows-same ((r, cells) ∷ seg) i j =
    keep_row-change r (nonzero_cells cells) (nonempty_rows seg) i j
    ∙ ap₂ (λ a b. (if i == r then a else 0) + b) (nonzero_cells-row_change cells j)
        (nonempty_rows-same seg i j)

row_change-word : (cells : RowMap) (j : ℕ) → IsSorted cells → row_change cells j ≡ word cells j
row_change-word cells j h = sum_at_key j u32_of_ℤ cells h ∙ word_of (get j cells)
  where
    word_of : (o : Option ℤ) → of_value u32_of_ℤ o ≡ u32_of_ℤ (or_zero o)
    word_of none = refl
    word_of (some d) = refl

-- The rows change each cell by its sum.
pub nonempty_rows-change :
    (seg : SegmentRowDeltas) (i j : ℕ)
    → AreSorted seg
    → change (nonempty_rows seg) i j ≡ u32_of_ℤ (at seg i j)
nonempty_rows-change seg i j (h, hs) =
    nonempty_rows-same seg i j
    ∙ sum_at_key i (λ cells. row_change cells j) seg h
    ∙ change_of (get i seg)
    ∙ row_change-word (or_empty (get i seg)) j (hs i)
  where
    change_of :
        (o : Option RowMap) → of_value (λ cells. row_change cells j) o ≡ row_change (or_empty o) j
    change_of none = refl
    change_of (some cells) = refl

nonzero_cells-AreOffsets :
    (w : ℕ) (cells : RowMap) → AreOffsets w cells → AreOffsets w (nonzero_cells cells)
nonzero_cells-AreOffsets w [] no_offset = no_offset
nonzero_cells-AreOffsets w ((off, d) ∷ cells) (offset lt h) =
    let rest = nonzero_cells-AreOffsets w cells h in
    if_cases (AreOffsets w) (is_zero d) (λ _. rest) (λ _. offset lt rest)

keep_row-AreWithin :
    (n w r : ℕ) (cells : List (ℕ × ℤ)) (rest : SegmentRowDeltas)
    → r < n
    → AreOffsets w cells
    → AreWithin n w rest
    → AreWithin n w (keep_row r cells rest)
keep_row-AreWithin n w r [] rest lt o h = h
keep_row-AreWithin n w r (c ∷ cells) rest lt o h = row lt o h

pub nonempty_rows-AreWithin :
    (n w : ℕ) (seg : SegmentRowDeltas) → AreWithin n w seg → AreWithin n w (nonempty_rows seg)
nonempty_rows-AreWithin n w [] no_row = no_row
nonempty_rows-AreWithin n w ((r, cells) ∷ seg) (row lt o h) =
    keep_row-AreWithin n w r _ _ lt (nonzero_cells-AreOffsets w cells o)
      (nonempty_rows-AreWithin n w seg h)

-- A row of a segment, and a row put into it.
pub get-AreOffsets :
    (n w i : ℕ) (seg : SegmentRowDeltas) → AreWithin n w seg → AreOffsets w (or_empty (get i seg))
get-AreOffsets n w i [] no_row = no_offset
get-AreOffsets n w i ((r, cells) ∷ seg) (row lt o h) =
    let rest = get-AreOffsets n w i seg h in
    if_cases (λ x. AreOffsets w (or_empty x)) (i == r) (λ _. o) (λ _. rest)

pub put-AreWithin :
    (n w r : ℕ) (cells : RowMap) (seg : SegmentRowDeltas)
    → r < n
    → AreOffsets w cells
    → AreWithin n w seg
    → AreWithin n w (put r cells seg)
put-AreWithin n w r cells [] lt o no_row = row lt o no_row
put-AreWithin n w r cells ((q, other) ∷ seg) lt o (row ql qo h) =
    let rest = put-AreWithin n w r cells seg lt o h in
    if_cases (AreWithin n w) (r == q) (λ _. row lt o h)
      λ _. if_cases (AreWithin n w) (ltb r q) (λ _. row lt o (row ql qo h)) (λ _. row ql qo rest)
