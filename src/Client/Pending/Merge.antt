-- ===== src/Client/Pending/Merge.antt =====
-- Merging an epoch's deltas adds them to the pending sum, cell by cell, and keeps the map sparse.
use ikpir.Prelude.{
  ℕ, ◌≡◌, ap, true, false, none, some, List, [], ◌∷◌, arith, ◌==◌, if◌then◌else◌, ℤ, pos, negsuc,
  ◌+ℤ◌, int_laws, is_zero, refl, sym, ◌∙◌, Bool, Option, some-injective, if_cases, +ℤ_assoc,
  fits_i64, ◌&&◌,
}
use ikpir.TreeMap.{
  cell_order, get, put, remove, IsSorted, put-IsSorted, remove-IsSorted, get-put, get-remove,
}
use ikpir.Backend.Deltas.{SegmentRowDeltas}
use ikpir.Client.Pending.{
  CellMap, merge_cell, checked_add, store_sum, merge_entry, merge_row, merge_segment,
}

-- The pending sum of a cell; a missing entry is 0.
abbrev pub entry : Option ℤ → ℤ
entry none = pos 0
entry (some v) = v

abbrev pub value : CellMap → ℕ × ℕ → ℤ
value m k = entry (get k m)

-- What the deltas of a row, and of a segment, add to a cell.
abbrev pub row_delta : List (ℕ × ℤ) → ℕ → ℤ
row_delta [] j = pos 0
row_delta ((off, d) ∷ cs) j = (if j == off then d else pos 0) +ℤ row_delta cs j

abbrev pub segment_delta : SegmentRowDeltas → ℕ → ℕ → ℤ
segment_delta [] i j = pos 0
segment_delta ((r, cs) ∷ rows) i j =
    (if i == r then row_delta cs j else pos 0) +ℤ segment_delta rows i j

-- The keys ascend, and no entry is 0.
pub record IsPending (m : CellMap) : Type 0 where
  pub sorted : IsSorted m
  pub nonzero : (k : ℕ × ℕ) (v : ℤ) → get k m ≡ some v → is_zero v ≡ false

zero_value : (d : ℤ) → is_zero d ≡ true → d ≡ pos 0
zero_value (pos n) h = ap pos (ground (arith, h))
zero_value (negsuc n) h = absurd cc

sum_zero : (d : ℤ) → d ≡ pos 0 +ℤ d
sum_zero d = omega int_laws

zero_sum : (d : ℤ) → d ≡ d +ℤ pos 0
zero_sum d = omega int_laws

put_entry :
    (b : Bool) (v : ℤ) (o : Option ℤ) → entry (if b then some v else o) ≡ (if b then v else entry o)
put_entry true v o = refl
put_entry false v o = refl

removed_entry :
    (b : Bool) (o : Option ℤ) → entry (if b then none else o) ≡ (if b then pos 0 else entry o)
removed_entry true o = refl
removed_entry false o = refl

put_nonzero :
    (b : Bool) (v u : ℤ) (o : Option ℤ)
    → is_zero v ≡ false
    → ((w : ℤ) → o ≡ some w → is_zero w ≡ false)
    → (if b then some v else o) ≡ some u
    → is_zero u ≡ false
put_nonzero true v u o nz old e = ap is_zero (some-injective (sym e)) ∙ nz
put_nonzero false v u o nz old e = old u e

removed_nonzero :
    (b : Bool) (u : ℤ) (o : Option ℤ)
    → ((w : ℤ) → o ≡ some w → is_zero w ≡ false)
    → (if b then none else o) ≡ some u
    → is_zero u ≡ false
removed_nonzero true u o old e = absurd cc
removed_nonzero false u o old e = old u e

-- One cell.
module _ (m : CellMap) (k : ℕ × ℕ) (h : IsPending m) where
  put-IsPending : (v : ℤ) → is_zero v ≡ false → IsPending (put k v m)
  put-IsPending v nz = record {
    sorted = put-IsSorted k v m h.sorted;
    nonzero =
        λ j u e. put_nonzero (cell_order.eq j k) v u _ nz (h.nonzero j) (sym (get-put k j v m) ∙ e);
  }

  remove-IsPending : IsPending (remove k m)
  remove-IsPending = record {
    sorted = remove-IsSorted k m h.sorted;
    nonzero = λ j u e.
        removed_nonzero (cell_order.eq j k) u _ (h.nonzero j) (sym (get-remove k j m h.sorted) ∙ e);
  }

  put-value :
      (v : ℤ) (j : ℕ × ℕ) → value (put k v m) j ≡ (if cell_order.eq j k then v else value m j)
  put-value v j = ap entry (get-put k j v m) ∙ put_entry (cell_order.eq j k) v (get j m)

  remove-value :
      (j : ℕ × ℕ) → value (remove k m) j ≡ (if cell_order.eq j k then pos 0 else value m j)
  remove-value j =
      ap entry (get-remove k j m h.sorted) ∙ removed_entry (cell_order.eq j k) (get j m)

-- What a loop that returns `true` has done: the map is sparse, and `f` is added to each cell.
abbrev pub HasAdded : CellMap → CellMap × Bool → (ℕ × ℕ → ℤ) → Type 0
HasAdded m r f = r.1 ≡ true → IsPending r.0 × ((j : ℕ × ℕ) → value r.0 j ≡ value m j +ℤ f j)

at_key :
    (b : Bool) (x y z : ℤ)
    → (b ≡ true → x ≡ y +ℤ z)
    → (b ≡ false → x ≡ y)
    → x ≡ y +ℤ (if b then z else pos 0)
at_key true x y z f g = f refl
at_key false x y z f g = g refl ∙ zero_sum y

module _ (m : CellMap) (k : ℕ × ℕ) (d : ℤ) (h : IsPending m) where
  abbrev here : ℕ × ℕ → ℤ
  here j = if cell_order.eq j k then d else pos 0

  abbrev HasCell : CellMap → Type 0
  HasCell n = IsPending n × ((j : ℕ × ℕ) → value n j ≡ value m j +ℤ here j)

  at_same :
      (o : Option ℤ) → get k m ≡ o → (j : ℕ × ℕ) → cell_order.eq j k ≡ true → value m j ≡ entry o
  at_same o g j e = ap (value m) (cell_order.eq_sound j k e) ∙ ap entry g

  put_sum :
      (sum : ℤ) (o : Option ℤ)
      → get k m ≡ o
      → sum ≡ entry o +ℤ d
      → is_zero sum ≡ false
      → HasCell (put k sum m)
  put_sum sum o g e nz = (
    put-IsPending m k h sum nz,
    λ j.
        put-value m k h sum j
        ∙ at_key (cell_order.eq j k) _ (value m j) d
            (λ same.
              ap (λ b. if b then sum else value m j) same
              ∙ e
              ∙ ap (λ x. x +ℤ d) (sym (at_same o g j same)))
            (λ other. ap (λ b. if b then sum else value m j) other),
  )

  remove_sum :
      (sum : ℤ) (o : Option ℤ)
      → get k m ≡ o
      → sum ≡ entry o +ℤ d
      → is_zero sum ≡ true
      → HasCell (remove k m)
  remove_sum sum o g e z = (
    remove-IsPending m k h,
    λ j.
        remove-value m k h j
        ∙ at_key (cell_order.eq j k) _ (value m j) d
            (λ same.
              ap (λ b. if b then pos 0 else value m j) same
              ∙ sym (zero_value sum z)
              ∙ e
              ∙ ap (λ x. x +ℤ d) (sym (at_same o g j same)))
            (λ other. ap (λ b. if b then pos 0 else value m j) other),
  )

  store_sum-HasAdded :
      (v : ℤ) → get k m ≡ some v → HasAdded m (store_sum m k (checked_add v d)) here
  store_sum-HasAdded v g =
      if_cases (λ o. HasAdded m (store_sum m k o) here) (fits_i64 (v +ℤ d))
        (λ _ _.
          if_cases HasCell (is_zero (v +ℤ d)) (remove_sum (v +ℤ d) (some v) g refl)
            (put_sum (v +ℤ d) (some v) g refl))
        (λ _ e. absurd cc)

  merge_entry-HasAdded : (o : Option ℤ) → get k m ≡ o → HasAdded m (merge_entry m k d o) here
  merge_entry-HasAdded none g = λ _.
      if_cases HasCell (is_zero d)
        (λ z. (
          h,
          λ j.
              at_key (cell_order.eq j k) _ (value m j) d
                (λ _. rw (zero_value d z) (zero_sum (value m j))) (λ _. refl),
        ))
        (put_sum d none g (sum_zero d))
  merge_entry-HasAdded (some v) g = store_sum-HasAdded v g

merge_cell-HasAdded :
    (m : CellMap) (k : ℕ × ℕ) (d : ℤ)
    → IsPending m
    → HasAdded m (merge_cell m k d) (λ j. if cell_order.eq j k then d else pos 0)
unfolding merge_cell
merge_cell-HasAdded m k d h = merge_entry-HasAdded m k d h (get k m) refl

-- Two steps in turn, of which the first may stop the loop.
then_HasAdded :
    (m : CellMap) (first : CellMap × Bool) (rest : CellMap × Bool) (f g total : ℕ × ℕ → ℤ)
    → HasAdded m first f
    → (IsPending first.0 → HasAdded first.0 rest g)
    → ((j : ℕ × ℕ) → total j ≡ f j +ℤ g j)
    → HasAdded m (if first.1 then rest else (first.0, false)) total
then_HasAdded m first rest f g total hf hg e =
    if_cases (λ r. HasAdded m r total) first.1
      (λ ok ok'.
        let (p, vf) = hf ok in
        let (q, vg) = hg p ok' in
        (
          q,
          λ j.
              vg j
              ∙ ap (λ x. x +ℤ g j) (vf j)
              ∙ +ℤ_assoc (value m j) (f j) (g j)
              ∙ ap (λ x. value m j +ℤ x) (sym (e j)),
        ))
      (λ _ bad. absurd cc)

split_row :
    (b c : Bool) (d rest : ℤ)
    → (if b then (if c then d else pos 0) +ℤ rest else pos 0)
      ≡ (if b && c then d else pos 0) +ℤ (if b then rest else pos 0)
split_row true true d rest = refl
split_row true false d rest = refl
split_row false c d rest = zero_sum (pos 0)

merge_row-HasAdded :
    (r : ℕ) (cs : List (ℕ × ℤ)) (m : CellMap)
    → IsPending m
    → HasAdded m (merge_row r cs m) (λ j. if j.0 == r then row_delta cs j.1 else pos 0)
unfolding merge_row
merge_row-HasAdded r [] m h =
    λ _. (h, λ j. at_key (j.0 == r) _ (value m j) (pos 0) (λ _. zero_sum (value m j)) (λ _. refl))
merge_row-HasAdded r ((off, d) ∷ cs) m h =
    then_HasAdded m (merge_cell m (r, off) d) _ _
      (λ j. if j.0 == r then row_delta cs j.1 else pos 0) _ (merge_cell-HasAdded m (r, off) d h)
      (λ p. merge_row-HasAdded r cs (merge_cell m (r, off) d).0 p)
      (λ j. split_row (j.0 == r) (j.1 == off) d (row_delta cs j.1))

pub merge_segment-HasAdded :
    (rows : SegmentRowDeltas) (m : CellMap)
    → IsPending m
    → HasAdded m (merge_segment rows m) (λ j. segment_delta rows j.0 j.1)
unfolding merge_segment
merge_segment-HasAdded [] m h = λ _. (h, λ j. zero_sum (value m j))
merge_segment-HasAdded ((r, cs) ∷ rows) m h =
    then_HasAdded m (merge_row r cs m) _ _ (λ j. segment_delta rows j.0 j.1) _
      (merge_row-HasAdded r cs m h) (λ p. merge_segment-HasAdded rows (merge_row r cs m).0 p)
      (λ j. refl)
