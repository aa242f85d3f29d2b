-- ===== src/Backend/Matrix.antt =====
-- Row-major matrices in flat buffers: the loop over rows and columns that adds to every cell.
use ikpir.Prelude.{
  ℕ, ◌+◌, ◌*◌, ◌/◌, ◌%◌, ◌<◌, ◌≡◌, ap, List, arith, ◌==◌, if◌then◌else◌, length, u32, for_range,
  sum_range, ◌&&◌, ◌∙◌, ◌↔◌, sum_range_ext, sum_range_pick,
}
use ikpir.Backend.Accumulate.{add_at, Adds, Adds-cong, Adds-for_range, add_at-Adds}

-- The row and the column of a cell.
pub cell_at : (c k w : ℕ) → c / w ≡ k → 0 < w → c ≡ k * w + c % w
cell_at c k w e h = grind (arith, e)

pub row_lt : (c n w : ℕ) → c < n * w → c / w < n
row_lt c n w h = grind arith

pub col_lt : (c n w : ℕ) → c < n * w → c % w < w
col_lt c n w h = grind (arith, h)

pub div_of : (k w j : ℕ) → j < w → (k * w + j) / w ≡ k
div_of k w j h = grind arith

pub mod_of : (k w j : ℕ) → j < w → (k * w + j) % w ≡ j
mod_of k w j h = grind arith

div_mod : (c w k j : ℕ) → j < w → (c ≡ k * w + j) ↔ ((c / w ≡ k) × (c % w ≡ j))
div_mod c w k j h = (
  (λ e. (ap (λ x. x / w) e ∙ div_of k w j h, ap (λ x. x % w) e ∙ mod_of k w j h)),
  (λ (e, f). cell_at c k w e (omega arith) ∙ ap (λ x. k * w + x) f),
)

-- A double sum whose terms are zero but at the cell `c`.
module _ (w c : ℕ) (v : ℕ → ℕ → ℕ) where
  pub same_cell : (k j : ℕ) → j < w → (c == k * w + j) ≡ (c / w == k) && (c % w == j)
  same_cell k j h = ground (arith, div_mod c w k j h)

  sum_row :
      (k : ℕ)
      → 0 < w
      → sum_range w (λ j. if c == k * w + j then v k j else 0)
        ≡ (if c / w == k then v k (c % w) else 0)
  sum_row k hw =
      sum_range_ext w _ (λ j. if c % w == j then (if c / w == k then v k j else 0) else 0)
        (λ j lt. ground (arith, same_cell k j lt))
      ∙ sum_range_pick w (c % w) (λ j. if c / w == k then v k j else 0) (grind (arith, hw))

  pub sum_cell :
      (n : ℕ)
      → c < n * w
      → sum_range n (λ k. sum_range w (λ j. if c == k * w + j then v k j else 0))
        ≡ v (c / w) (c % w)
  sum_cell n h =
      sum_range_ext n _ (λ k. if c / w == k then v k (c % w) else 0)
        (λ k lt. sum_row k (grind (arith, h)))
      ∙ sum_range_pick n (c / w) (λ k. v k (c % w)) (row_lt c n w h)

-- `for k in 0..n { for j in 0..w { h[k * w + j] += v(k, j) } }`
abbrev pub for_cells : ℕ → ℕ → (ℕ → ℕ → ℕ) → List ℕ → List ℕ
for_cells n w v h = for_range n (λ k. for_range w (λ j. add_at (k * w + j) (v k j))) h

pub for_cells-Adds :
    (n w : ℕ) (v : ℕ → ℕ → ℕ) (h : List ℕ)
    → length h ≡ n * w
    → Adds h (for_cells n w v h) (λ c. v (c / w) (c % w))
for_cells-Adds n w v h e =
    Adds-cong h _ _ _
      (Adds-for_range n _ _ h
        λ k l _ _. Adds-for_range w _ _ l λ j m _ _. add_at-Adds m (k * w + j) (v k j))
      (λ c lt. ap u32 (sum_cell w c v n (omega (arith, e))))
