-- ===== src/Backend/Deltas.antt =====
-- Sparse changes to a database segment, as crates/ikpir-common/src/backend/mod.rs passes them to
-- the back ends, and what they add to each cell of the database.
use native.Mathlib.Nat.{mul-add}
use ikpir.Prelude.{
  ℕ, ◌+◌, ◌*◌, ◌<◌, ◌≡◌, refl, sym, ap, ap₂, ◌∙◌, List, [], ◌∷◌, arith, ◌==◌, if◌then◌else◌, u32,
  sum_range, sum_list, sum_range_ext, sum_range-zero, ℤ, u32_of_ℤ, sum_range-add, sum_range_pick,
  inl, inr, eq_or_ne,
}

-- The rows touched, each with `(cell_offset, new − old)` of its cells.
abbrev pub SegmentRowDeltas : Type 0
SegmentRowDeltas = List (ℕ × List (ℕ × ℤ))

pub data HintPatchMode : Type 0 where
  row_level entry_level : HintPatchMode

-- What the edits of one row add to column `j`, as a sum of `u32` words.
abbrev pub row_change : List (ℕ × ℤ) → ℕ → ℕ
row_change cells j = sum_list cells (λ e. if j == e.0 then u32_of_ℤ e.1 else 0)

-- What the deltas of a segment add to cell `(i, j)`.
abbrev pub change : SegmentRowDeltas → ℕ → ℕ → ℕ
change deltas i j = sum_list deltas (λ r. if i == r.0 then row_change r.1 j else 0)

-- The offsets lie inside a row of width `w`.
pub data AreOffsets (w : ℕ) : List (ℕ × ℤ) → Type 0 where
  no_offset : AreOffsets w []
  offset :
      {off : ℕ} {d : ℤ} {rest : List (ℕ × ℤ)}
      → off < w
      → AreOffsets w rest
      → AreOffsets w ((off, d) ∷ rest)

-- The rows and the offsets lie inside an `n × w` database.
pub data AreWithin (n w : ℕ) : SegmentRowDeltas → Type 0 where
  no_row : AreWithin n w []
  row :
      {i : ℕ} {cells : List (ℕ × ℤ)} {rest : SegmentRowDeltas}
      → i < n
      → AreOffsets w cells
      → AreWithin n w rest
      → AreWithin n w ((i, cells) ∷ rest)

pub sum_list_ext {ℓ} :
    {A : Type ℓ} (xs : List A) (f g : A → ℕ) → ((x : A) → f x ≡ g x) → sum_list xs f ≡ sum_list xs g
sum_list_ext [] f g h = refl
sum_list_ext (x ∷ xs) f g h = ap₂ ◌+◌ (h x) (sum_list_ext xs f g h)

pub sum_list-mul {ℓ} :
    {A : Type ℓ} (k : ℕ) (xs : List A) (f : A → ℕ) → sum_list xs (λ x. k * f x) ≡ k * sum_list xs f
sum_list-mul k [] f = grind arith
sum_list-mul k (x ∷ xs) f = ap (λ y. k * f x + y) (sum_list-mul k xs f) ∙ sym (mul-add k _ _)

pub weigh :
    (k x y i r : ℕ) → k * ((if i == r then x else 0) + y) ≡ (if r == i then k * x else 0) + k * y
weigh k x y i r =
    mul-add k _ y ∙ elim (eq_or_ne i r) [ inl e ↦ ground (arith, e) | inr ne ↦ ground (arith, ne) ]

-- The sum over the rows of a weight times the change is the weighted sum of the changed rows.
pub weighted_change :
    (n w : ℕ) (deltas : SegmentRowDeltas) (weight : ℕ → ℕ) (j : ℕ)
    → AreWithin n w deltas
    → sum_range n (λ i. weight i * change deltas i j)
      ≡ sum_list deltas (λ r. weight r.0 * row_change r.1 j)
weighted_change n w [] weight j no_row =
    sum_range_ext n _ (λ i. 0) (λ i lt. grind arith) ∙ sum_range-zero n
weighted_change n w ((r, cells) ∷ rest) weight j (row lt offs h) =
    sum_range_ext n _
      (λ i. (if r == i then weight i * row_change cells j else 0) + weight i * change rest i j)
      (λ i lt. weigh (weight i) (row_change cells j) (change rest i j) i r)
    ∙ sum_range-add n _ _
    ∙ ap₂ ◌+◌ (sum_range_pick n r (λ i. weight i * row_change cells j) lt)
        (weighted_change n w rest weight j h)

pub sum_list_cong {ℓ} :
    {A : Type ℓ} (xs : List A) (f g : A → ℕ)
    → ((x : A) → u32 (f x) ≡ u32 (g x))
    → u32 (sum_list xs f) ≡ u32 (sum_list xs g)
sum_list_cong [] f g h = refl
sum_list_cong (x ∷ xs) f g h = omega (arith, h x, sum_list_cong xs f g h)

pub sum_list-swap {ℓ} :
    {A : Type ℓ} (n : ℕ) (xs : List A) (f : ℕ → A → ℕ)
    → sum_range n (λ k. sum_list xs (f k)) ≡ sum_list xs (λ x. sum_range n (λ k. f k x))
sum_list-swap n [] f = sum_range-zero n
sum_list-swap n (x ∷ xs) f =
    sum_range-add n (λ k. f k x) (λ k. sum_list xs (f k))
    ∙ ap (λ y. sum_range n (λ k. f k x) + y) (sum_list-swap n xs f)
