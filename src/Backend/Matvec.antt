-- ===== src/Backend/Matvec.antt =====
-- The blocked matrix-vector kernel of crates/ikpir-common/src/backend/matvec.rs: `qᵀ · D` folded
-- into an accumulator, several rows of the row-major matrix in each pass.
pub mod Blocked
use native.Mathlib.Nat.{zero-mul, suc-mul}
use ikpir.Prelude.{
  ℕ, zero, suc, ◌+◌, ◌-◌, ◌*◌, ◌/◌, ◌%◌, ◌^◌, ◌≤◌, ◌<◌, min, ◌≡◌, refl, sym, ap, ap₂, ◌∙◌, ◌⊎◌, inl,
  inr, Bool, true, ◌||◌, List, arith, ltb, leb, ◌==◌, if◌then◌else◌, tests, length, get_or, set,
  take, drop, u32, add32, mul32, for_range, sum_range, sum_range_append, sum_range_miss,
  sum_range_pick, not,
}
use ikpir.Backend.Accumulate.{add_at, slice, Adds, Adds-cong, Adds-for_range, set-Adds, add_at-Adds}

-- One block of `R` rows: `x` runs through the rows for each cell of the accumulator.
unfoldable pub block_rows : ℕ → ℕ → List ℕ → List ℕ → List ℕ → List ℕ
block_rows R width block qs acc =
    for_range width
      (λ j acc. set acc j (
        for_range R (λ r x. add32 x (mul32 (get_or qs r 0) (get_or block (r * width + j) 0)))
          (get_or acc j 0)))
      acc

-- One tail row: `for (x, &cell) in acc.iter_mut().zip(row)`.
unfoldable pub tail_row : ℕ → List ℕ → List ℕ → List ℕ
tail_row qi row acc =
    for_range (min (length acc) (length row)) (λ j. add_at j (mul32 qi (get_or row j 0))) acc

-- The passes over the blocks and then over the tail rows, of a matrix that is not empty.
-- `chunks_exact(n)` yields the chunks `xs[b * n..(b + 1) * n]`, and `zip` stops at the shorter.
unfoldable pub passes : ℕ → List ℕ → List ℕ → List ℕ → List ℕ
passes R acc d q =
    let width = length acc in
    let n = length q in
    let full = n - n % R in
    let head_d = take (full * width) d in
    let head_q = take full q in
    let tail_d = drop (full * width) d in
    let tail_q = drop full q in
    let acc' =
      for_range (min (length head_d / (R * width)) (length head_q / R))
        (λ b.
          block_rows R width (slice head_d (b * (R * width)) (R * width)) (slice head_q (b * R) R))
        acc in
    for_range (min (length tail_d / width) (length tail_q))
      (λ i. tail_row (get_or tail_q i 0) (slice tail_d (i * width) width)) acc'

unfoldable pub block_pass : ℕ → List ℕ → List ℕ → List ℕ → List ℕ
block_pass R acc d q = if (length acc == 0) || (length q == 0) then acc else passes R acc d q

-- The rows in a block for a width, by the table for x86-64 (`true`) or for other targets.
unfoldable pub blocking : Bool → ℕ → ℕ
blocking x86_64 width =
    if leb width 128
    then 16
    else if x86_64
    then (if leb width 4096 then 1 else 8)
    else if leb width 256
    then 8
    else if leb width 512
    then 4
    else if leb width 1024
    then 2
    else 1

unfoldable pub matvec_accumulate : Bool → List ℕ → List ℕ → List ℕ → List ℕ
matvec_accumulate x86_64 acc d q =
    if length acc == 0 then acc else block_pass (blocking x86_64 (length acc)) acc d q

-- The reference that the unit tests of the kernel compare with: row by row, cell by cell.
unfoldable pub naive : List ℕ → List ℕ → List ℕ → List ℕ
naive acc d q =
    let width = length acc in
    for_range (length q)
      (λ i. for_range width (λ j. add_at j (mul32 (get_or q i 0) (get_or d (i * width + j) 0)))) acc

-- The exact sum that a kernel adds to cell `j`.
abbrev pub product : ℕ → List ℕ → List ℕ → ℕ → ℕ
product width d q j = sum_range (length q) (λ i. get_or q i 0 * get_or d (i * width + j) 0)

-- Rounds that each add to a cell of their own.
pub Adds-cells :
    (w : ℕ) (v : ℕ → ℕ) (h : List ℕ)
    → Adds h (for_range w (λ j. add_at j (v j)) h) (λ c. if ltb c w then v c else 0)
Adds-cells w v h =
    Adds-cong h _ (λ c. sum_range w (λ j. if c == j then v j else 0)) _
      (Adds-for_range w (λ j. add_at j (v j)) (λ j c. if c == j then v j else 0) h
        (λ j k lt e. add_at-Adds k j (v j)))
      (λ c lt. elim (eq_or_lt c w) [
        | inl in_range ↦ ground (arith, in_range, sum_range_pick w c v in_range)
        | inr out ↦ ground (arith, out, sum_range_miss w c v out)
      ])
  where
    eq_or_lt : (c w : ℕ) → (c < w) ⊎ (w ≤ c)
    eq_or_lt c w = omega arith

pub naive-Adds : (acc d q : List ℕ) → Adds acc (naive acc d q) (product (length acc) d q)
unfolding naive
naive-Adds acc d q =
    Adds-for_range (length q) _ (λ i j. get_or q i 0 * get_or d (i * length acc + j) 0) acc
      (λ i k lt e. Adds-cong k _ _ _ (Adds-cells (length acc) _ k) (λ c lt. ground (arith, e)))

pub tail_row-Adds :
    (qi : ℕ) (row acc : List ℕ)
    → length acc ≡ length row
    → Adds acc (tail_row qi row acc) (λ j. qi * get_or row j 0)
unfolding tail_row
tail_row-Adds qi row acc e = Adds-cong acc _ _ _ (Adds-cells _ _ acc) (λ c lt. ground (arith, e))

-- Folding the rows of a block into one cell.
fold_rows :
    (R x : ℕ) (f : ℕ → ℕ)
    → u32 (for_range R (λ r x. add32 x (u32 (f r))) x) ≡ u32 (x + sum_range R f)
fold_rows zero x f = omega arith
fold_rows (suc R) x f = omega (arith, fold_rows R x f)

fold_rows-word :
    (R x : ℕ) (f : ℕ → ℕ) → x < 2 ^ 32 → for_range R (λ r x. add32 x (u32 (f r))) x < 2 ^ 32
fold_rows-word zero x f h = h
fold_rows-word (suc R) x f h = omega arith

set_folded-Adds :
    (R : ℕ) (f : ℕ → ℕ) (j : ℕ) (h : List ℕ)
    → Adds h
        (set h j (for_range R (λ r x. add32 x (u32 (f r))) (get_or h j 0)))
        (λ c. if c == j then sum_range R f else 0)
set_folded-Adds R f j h =
    set-Adds h j _ (sum_range R f) (fold_rows R (get_or h j 0) f)
      (λ w. fold_rows-word R (get_or h j 0) f (w j))

pub block_rows-Adds :
    (R width : ℕ) (block qs acc : List ℕ)
    → width ≡ length acc
    → Adds acc
        (block_rows R width block qs acc)
        (λ j. sum_range R (λ r. get_or qs r 0 * get_or block (r * width + j) 0))
unfolding block_rows
block_rows-Adds R width block qs acc e =
    Adds-cong acc _ _ _
      (Adds-for_range width _
        (λ j c.
          if c == j then sum_range R (λ r. get_or qs r 0 * get_or block (r * width + j) 0) else 0)
        acc (λ j k lt e. set_folded-Adds R _ j k))
      (λ c lt. ap u32 (sum_range_pick width c _ (omega arith)))

-- Sums over `k` blocks of `R` terms.
pub sum_range_blocks :
    (k R : ℕ) (f : ℕ → ℕ)
    → sum_range k (λ b. sum_range R (λ r. f (b * R + r))) ≡ sum_range (k * R) f
sum_range_blocks zero R f = rw zero-mul refl
sum_range_blocks (suc k) R f =
    ap₂ ◌+◌ (sum_range_blocks k R f) refl
    ∙ sym (sum_range_append (k * R) R f)
    ∙ ap (λ n. sum_range n f) (omega (arith, suc-mul k R))
