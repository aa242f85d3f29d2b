-- ===== src/Server/Fold/Cells.antt =====
-- The loop over the cells of a slot: each offset of the slot gains the difference of the payloads.
use ikpir.Prelude.{
  ℕ, zero, suc, ◌+◌, ◌^◌, ◌≤◌, ◌<◌, ◌≡◌, ◌≢◌, ◌⊎◌, inl, inr, refl, ap, ◌∙◌, List, [], ◌∷◌, some,
  arith, ltb, lt→ltb, ◌==◌, if◌then◌else◌, if_cases, Bool, true, false, get_or, Bool-cases,
  eq_or_ne, ℤ, ◌+ℤ◌, sub_ℕ, is_zero, u32, u32_of_ℤ, u32_of_ℤ-+ℤ, u32_of_ℤ-sub_ℕ, Option,
}
use ikpir.TreeMap.{number_order, get, put, IsSorted, get-put, put-IsSorted}
use ikpir.Backend.Deltas.{AreOffsets, offset, no_offset}
use ikpir.Server.Fold.{RowMap, or_zero, add_cell, fold_cells}

-- The sum at an offset, and as a word.
abbrev pub value : RowMap → ℕ → ℤ
value m off = or_zero (get off m)

abbrev pub word : RowMap → ℕ → ℕ
word m off = u32_of_ℤ (value m off)

put-AreOffsets :
    (w off : ℕ) (d : ℤ) (m : RowMap) → off < w → AreOffsets w m → AreOffsets w (put off d m)
put-AreOffsets w off d [] lt no_offset = offset lt no_offset
put-AreOffsets w off d ((o, e) ∷ m) lt (offset lo h) =
    let rest = put-AreOffsets w off d m lt h in
    if_cases (AreOffsets w) (off == o) (λ _. offset lt h)
      λ _. if_cases (AreOffsets w) (ltb off o) (λ _. offset lt (offset lo h)) (λ _. offset lo rest)

or_zero-if :
    (b : Bool) (d : ℤ) (o : Option ℤ)
    → or_zero (if b then some d else o) ≡ (if b then d else or_zero o)
or_zero-if true d o = refl
or_zero-if false d o = refl

add_cell-value :
    (off : ℕ) (d : ℤ) (m : RowMap) (j : ℕ)
    → value (add_cell off d m) j ≡ (if j == off then value m off +ℤ d else value m j)
add_cell-value off d m j =
    ap or_zero (get-put off j (value m off +ℤ d) m) ∙ or_zero-if (j == off) _ (get j m)

add_cell_same : (off : ℕ) (d : ℤ) (m : RowMap) → value (add_cell off d m) off ≡ value m off +ℤ d
add_cell_same off d m = let e = add_cell-value off d m off in ground (arith, e)

add_cell_other :
    (off : ℕ) (d : ℤ) (m : RowMap) (j : ℕ) → j ≢ off → value (add_cell off d m) j ≡ value m j
add_cell_other off d m j ne = let e = add_cell-value off d m j in ground (arith, e, ne)

-- What the loop over the cells from `c` on leaves of a row.
pub record Folded (left c first : ℕ) (old new : List ℕ) (w : ℕ) (row row' : RowMap) : Type 0 where
  pub sorted : IsSorted row'
  pub within : AreOffsets w row'
  pub changed :
      (k : ℕ)
      → c ≤ k
      → k < c + left
      → u32 (word row' (first + k) + get_or old k 0) ≡ u32 (word row (first + k) + get_or new k 0)
  pub others :
      (off : ℕ) → (off < first + c) ⊎ (first + (c + left) ≤ off) → value row' off ≡ value row off

pub fold_cells-Folded :
    (left c first : ℕ) (old new : List ℕ) (w : ℕ) (row : RowMap)
    → first + (c + left) ≤ w
    → w ≤ 2 ^ 16
    → IsSorted row
    → AreOffsets w row
    → (row' : RowMap) × (fold_cells left c first old new row ≡ some row')
      × Folded left c first old new w row row'
unfolding fold_cells
fold_cells-Folded zero c first old new w row room small s o = (
  row,
  refl,
  record {
    sorted = s;
    within = o;
    changed = λ k lo hi. absurd (omega arith);
    others = λ off _. refl;
  },
)
fold_cells-Folded (suc left) c first old new w row room small s o =
    let delta = sub_ℕ (get_or new c 0) (get_or old c 0) in
    elim (Bool-cases (is_zero delta)) [
      | inl none_changed ↦
          let same : get_or new c 0 ≡ get_or old c 0 = ground (arith, none_changed) in
          let r = fold_cells-Folded left (suc c) first old new w row (omega arith) small s o in
          (
            r.0,
            rw (fold_cells, none_changed) r.1,
            record {
              sorted = r.2.sorted;
              within = r.2.within;
              changed = λ k lo hi. elim (eq_or_ne k c) [
                | inl e ↦
                    let kept = ap u32_of_ℤ (r.2.others (first + c) (inl (omega arith))) in
                    rw e (omega (arith, same, kept))
                | inr ne ↦ r.2.changed k (omega arith) (omega arith)
              ];
              others = λ off out. r.2.others off (omega (arith, out));
            },
          )
      | inr some_changed ↦
          let next = add_cell (first + c) delta row in
          let inside : first + c < w = omega arith in
          let r =
            fold_cells-Folded left (suc c) first old new w next (omega arith) small
              (put-IsSorted (first + c) _ row s) (put-AreOffsets w (first + c) _ row inside o) in
          let fits : ltb (first + c) (2 ^ 16) ≡ true = lt→ltb _ _ (omega arith) in
          (
            r.0,
            rw (fold_cells, some_changed, fits) r.1,
            record {
              sorted = r.2.sorted;
              within = r.2.within;
              changed = λ k lo hi. elim (eq_or_ne k c) [
                | inl e ↦
                    let kept = ap u32_of_ℤ (r.2.others (first + c) (inl (omega arith))) in
                    let added = ap u32_of_ℤ (add_cell_same (first + c) delta row) in
                    rw e (
                      omega (
                        arith,
                        kept,
                        added,
                        u32_of_ℤ-+ℤ (value row (first + c)) delta,
                        u32_of_ℤ-sub_ℕ (get_or new c 0) (get_or old c 0),
                      ))
                | inr ne ↦
                    let kept =
                      ap u32_of_ℤ
                        (add_cell_other (first + c) delta row (first + k) (omega arith)) in
                    omega (arith, r.2.changed k (omega arith) (omega arith), kept)
              ];
              others = λ off out.
                  r.2.others off (omega (arith, out))
                  ∙ add_cell_other (first + c) delta row off (omega (arith, out));
            },
          )
    ]
