-- ===== src/Client/Pending/Change.antt =====
-- The pending map as the words that a back end reads: merging adds the change of the deltas, and
-- the row deltas made of the map are the same change.
use ikpir.Prelude.{
  ℕ, ◌+◌, ◌≡◌, refl, ap, ap₂, ◌∙◌, Bool, true, false, ◌&&◌, Option, none, some, List, [], ◌∷◌,
  arith, ◌==◌, if◌then◌else◌, u32, sum_list, ℤ, pos, u32_of_ℤ, u32_of_ℤ-+ℤ,
}
use ikpir.TreeMap.{cell_order, IsSorted, of_value, sum_at_key, get}
use ikpir.Backend.Deltas.{SegmentRowDeltas, row_change, change}
use ikpir.Backend.Frodo.Rewind.{pending_change}
use ikpir.Client.Pending.{CellMap, merge_segment}
use ikpir.Client.Pending.Merge.{
  entry, value, row_delta, segment_delta, IsPending, merge_segment-HasAdded,
}

nested_if :
    (b c : Bool) (x : ℕ) → (if b then (if c then x else 0) else 0) ≡ (if b && c then x else 0)
nested_if true c x = refl
nested_if false c x = refl

sum_list_same {ℓ} :
    {A : Type ℓ} (xs : List A) (f g : A → ℕ) → ((x : A) → f x ≡ g x) → sum_list xs f ≡ sum_list xs g
sum_list_same [] f g h = refl
sum_list_same (x ∷ xs) f g h = ap₂ ◌+◌ (h x) (sum_list_same xs f g h)

pending_change-value :
    (m : CellMap) (i j : ℕ) → IsSorted m → pending_change m i j ≡ u32_of_ℤ (value m (i, j))
pending_change-value m i j h =
    sum_list_same m _ (λ e. if cell_order.eq (i, j) e.0 then u32_of_ℤ e.1 else 0)
      (λ e. nested_if (i == e.0.0) (j == e.0.1) (u32_of_ℤ e.1))
    ∙ sum_at_key ⦃o = cell_order⦄ (i, j) u32_of_ℤ m h
    ∙ word_of (get (i, j) m)
  where
    word_of : (o : Option ℤ) → of_value u32_of_ℤ o ≡ u32_of_ℤ (entry o)
    word_of none = refl
    word_of (some v) = refl

word_if : (b : Bool) (d : ℤ) → u32_of_ℤ (if b then d else pos 0) ≡ (if b then u32_of_ℤ d else 0)
word_if true d = refl
word_if false d = refl

row_change-row_delta :
    (cs : List (ℕ × ℤ)) (j : ℕ) → u32 (row_change cs j) ≡ u32_of_ℤ (row_delta cs j)
row_change-row_delta [] j = refl
row_change-row_delta ((off, d) ∷ cs) j = omega (
  arith,
  row_change-row_delta cs j,
  word_if (j == off) d,
  u32_of_ℤ-+ℤ (if j == off then d else pos 0) (row_delta cs j),
)

pub change-segment_delta :
    (rows : SegmentRowDeltas) (i j : ℕ) → u32 (change rows i j) ≡ u32_of_ℤ (segment_delta rows i j)
change-segment_delta [] i j = refl
change-segment_delta ((r, cs) ∷ rows) i j = omega (
  arith,
  change-segment_delta rows i j,
  row_word (i == r) cs j,
  u32_of_ℤ-+ℤ (if i == r then row_delta cs j else pos 0) (segment_delta rows i j),
)
  where
    row_word :
        (b : Bool) (cs : List (ℕ × ℤ)) (j : ℕ)
        → u32 (if b then row_change cs j else 0) ≡ u32_of_ℤ (if b then row_delta cs j else pos 0)
    row_word true cs j = row_change-row_delta cs j
    row_word false cs j = refl

-- Merging the deltas of an epoch into a sparse map keeps it sparse, and adds to the word of every
-- cell what the deltas change there.
pub merge_segment-pending_change :
    (m : CellMap) (rows : SegmentRowDeltas)
    → IsPending m
    → (merge_segment rows m).1 ≡ true
    → IsPending (merge_segment rows m).0
      × ((i j : ℕ)
          → u32 (pending_change (merge_segment rows m).0 i j)
            ≡ u32 (pending_change m i j + change rows i j))
merge_segment-pending_change m rows h ok =
    let (p, values) = merge_segment-HasAdded rows m h ok in
    (
      p,
      λ i j. omega (
        arith,
        pending_change-value (merge_segment rows m).0 i j p.sorted,
        pending_change-value m i j h.sorted,
        ap u32_of_ℤ (values (i, j)),
        u32_of_ℤ-+ℤ (value m (i, j)) (segment_delta rows i j),
        change-segment_delta rows i j,
      ),
    )
