-- ===== src/Backend/Patch/Sweep.antt =====
-- The buffer that `rebuild` leaves, and the one sweep of the hint that `apply` makes.
use native.Mathlib.Nat.{mul-add}
use ikpir.Prelude.{
  ℕ, ◌+◌, ◌*◌, ◌<◌, ◌≡◌, refl, ap, ◌∙◌, Option, none, List, [], ◌∷◌, arith, leb, ◌==◌,
  if◌then◌else◌, if_cases, u32, for_each, sum_list, ℤ, is_zero, ◌/◌, ◌%◌, ◌≤◌, get_or, mul32,
  for_range, sum_range, sym, Bool, true, false, ◌&&◌, length, sum_range-zero, sum_range-mul,
  sum_range_pick, sum_range_cong,
}
use ikpir.Backend.Accumulate.{
  add_at, Adds, Adds-refl, Adds-trans, Adds-cong, Adds-for_range, add_at-Adds,
}
use ikpir.Backend.Deltas.{row_change, AreOffsets, no_offset, offset}
use ikpir.Backend.Patch
use ikpir.Backend.Matrix.{row_lt, same_cell}
use ikpir.Backend.Patch.{
  TouchedRuns, new, insert_by_key, sort_by_key, scratch_of, coalesce, rebuild, run_sum, apply_row,
}
use ikpir.Backend.Patch.Coalesce.{Coalesced, coalesce-IsRound, AreRuns, coalesce-AreRuns, nothing}

-- What the edits of a scratch buffer add to column `c`.
abbrev scratch_sum : List (ℕ × ℕ) → ℕ → ℕ
scratch_sum xs c = sum_list xs (λ x. if c == x.0 then x.1 else 0)

insert_by_key-scratch_sum :
    (x : ℕ × ℕ) (xs : List (ℕ × ℕ)) (c : ℕ)
    → scratch_sum (insert_by_key x xs) c ≡ scratch_sum (x ∷ xs) c
insert_by_key-scratch_sum x [] c = refl
insert_by_key-scratch_sum x (y ∷ ys) c =
    if_cases (λ k. scratch_sum k c ≡ scratch_sum (x ∷ y ∷ ys) c) (leb x.0 y.0) (λ _. refl)
      (λ _. omega (arith, insert_by_key-scratch_sum x ys c))

sort_by_key-scratch_sum :
    (xs : List (ℕ × ℕ)) (c : ℕ) → scratch_sum (sort_by_key xs) c ≡ scratch_sum xs c
sort_by_key-scratch_sum [] c = refl
sort_by_key-scratch_sum (x ∷ xs) c =
    insert_by_key-scratch_sum x (sort_by_key xs) c
    ∙ ap (λ k. (if c == x.0 then x.1 else 0) + k) (sort_by_key-scratch_sum xs c)

scratch_of-scratch_sum :
    (cells : List (ℕ × ℤ)) (c : ℕ)
    → scratch_sum (scratch_of (λ off. off) cells) c ≡ row_change cells c
unfolding scratch_of
scratch_of-scratch_sum [] c = refl
scratch_of-scratch_sum ((off, d) ∷ cells) c =
    let rest = scratch_of-scratch_sum cells c in
    if_cases (λ k. scratch_sum k c ≡ row_change ((off, d) ∷ cells) c) (is_zero d)
      (λ z. ground (arith, rest, z)) (λ _. omega (arith, rest))

-- Columns of a scratch buffer inside a row of width `w`.
abbrev AreColumns : ℕ → List (ℕ × ℕ) → Type 0
AreColumns w [] = Unit
AreColumns w (x ∷ xs) = (x.0 < w) × AreColumns w xs

insert_by_key-AreColumns :
    (w : ℕ) (x : ℕ × ℕ) (xs : List (ℕ × ℕ))
    → x.0 < w
    → AreColumns w xs
    → AreColumns w (insert_by_key x xs)
insert_by_key-AreColumns w x [] h k = (h, tt)
insert_by_key-AreColumns w x (y ∷ ys) h (k, ks) =
    if_cases (AreColumns w) (leb x.0 y.0) (λ _. (h, (k, ks)))
      (λ _. (k, insert_by_key-AreColumns w x ys h ks))

sort_by_key-AreColumns :
    (w : ℕ) (xs : List (ℕ × ℕ)) → AreColumns w xs → AreColumns w (sort_by_key xs)
sort_by_key-AreColumns w [] h = tt
sort_by_key-AreColumns w (x ∷ xs) (h, hs) =
    insert_by_key-AreColumns w x _ h (sort_by_key-AreColumns w xs hs)

scratch_of-AreColumns :
    (w : ℕ) (cells : List (ℕ × ℤ))
    → AreOffsets w cells
    → AreColumns w (scratch_of (λ off. off) cells)
unfolding scratch_of
scratch_of-AreColumns w [] no_offset = tt
scratch_of-AreColumns w ((off, d) ∷ cells) (offset lt h) =
    let rest = scratch_of-AreColumns w cells h in
    if_cases (AreColumns w) (is_zero d) (λ _. rest) (λ _. (lt, rest))

-- The loop of `rebuild` over a scratch buffer.
coalesce_all :
    (w : ℕ) (xs : List (ℕ × ℕ)) (t : TouchedRuns) (last : Option ℕ)
    → Coalesced t last
    → AreRuns w t.runs
    → AreColumns w xs
    → let r = (for_each xs coalesce (t, last)).0 in
      AreRuns w r.runs
      × ((c : ℕ)
          → u32 (run_sum r.deltas 0 r.runs c)
            ≡ u32 (run_sum t.deltas 0 t.runs c + scratch_sum xs c))
coalesce_all w [] t last h k cs = (k, λ c. omega arith)
coalesce_all w ((col, delta) ∷ xs) t last h k (lt, cs) =
    let (next, sums) = coalesce-IsRound col delta t last h in
    let (runs, rest) =
      coalesce_all w xs (coalesce (col, delta) (t, last)).0 (coalesce (col, delta) (t, last)).1 next
        (coalesce-AreRuns w col delta t last h lt k) cs in
    (runs, λ c. omega (arith, sums c, rest c))

-- For edits inside a row, the runs that `rebuild` coalesces end inside the row, and their deltas
-- add to every column what the edits add.
pub rebuild_lem :
    (w : ℕ) (cells : List (ℕ × ℤ))
    → AreOffsets w cells
    → let r = rebuild (λ off. off) cells in
      AreRuns w r.runs × ((c : ℕ) → u32 (run_sum r.deltas 0 r.runs c) ≡ u32 (row_change cells c))
unfolding rebuild new
rebuild_lem w cells h =
    let xs = scratch_of (λ off. off) cells in
    let (runs, sums) =
      coalesce_all w (sort_by_key xs) (record { deltas = []; runs = [] }) none nothing tt
        (sort_by_key-AreColumns w xs (scratch_of-AreColumns w cells h)) in
    (
      runs,
      λ c. sums c ∙ omega (arith, sort_by_key-scratch_sum xs c, scratch_of-scratch_sum cells c),
    )

sum_range_if :
    (n : ℕ) (b : Bool) (f : ℕ → ℕ)
    → sum_range n (λ i. if b then f i else 0) ≡ (if b then sum_range n f else 0)
sum_range_if n true f = refl
sum_range_if n false f = sum_range-zero n

if_and :
    (a b : Bool) (k d : ℕ)
    → u32 (if a && b then mul32 k d else 0) ≡ u32 (if a then k * (if b then d else 0) else 0)
if_and false b k d = refl
if_and true false k d = grind arith
if_and true true k d = omega arith

if_same : (b : Bool) {y : ℕ} → 0 ≡ y → 0 ≡ (if b then y else 0)
if_same true e = e
if_same false e = refl

if_add :
    (b : Bool) (k x y : ℕ)
    → (if b then k * x else 0) + (if b then k * y else 0) ≡ (if b then k * (x + y) else 0)
if_add true k x y = sym (mul-add k x y)
if_add false k x y = omega arith

module _ (aik k w : ℕ) where
  cell_term :
      (d c start m : ℕ)
      → start + m < w
      → u32 (if c == k * w + start + m then mul32 aik d else 0)
        ≡ u32 (if c / w == k then aik * (if c % w == start + m then d else 0) else 0)
  cell_term d c start m h =
      let at : k * w + start + m ≡ k * w + (start + m) = omega arith in
      ap (λ x. u32 (if c == x then mul32 aik d else 0)) at
      ∙ ap (λ b. u32 (if b then mul32 aik d else 0)) (same_cell w c (λ _ _. 0) k (start + m) h)
      ∙ if_and (c / w == k) (c % w == start + m) aik d

  run-Adds :
      (ds : List ℕ) (fed start len : ℕ) (h : List ℕ)
      → start + len ≤ w
      → Adds h
          (for_range len (λ m. add_at (k * w + start + m) (mul32 aik (get_or ds (fed + m) 0))) h)
          (λ c.
            if c / w == k
            then aik * sum_range len (λ m. if c % w == start + m then get_or ds (fed + m) 0 else 0)
            else 0)
  run-Adds ds fed start len h b =
      Adds-cong h _ _ _ (Adds-for_range len _ _ h λ m l lt _. add_at-Adds l _ _) (λ c lt.
        sum_range_cong len _
          (λ m.
            if c / w == k
            then aik * (if c % w == start + m then get_or ds (fed + m) 0 else 0)
            else 0)
          (λ m lm. cell_term (get_or ds (fed + m) 0) c start m (omega (arith, lm, b)))
        ∙ ap u32 (
            sum_range_if len (c / w == k) _
            ∙ ap (λ x. if c / w == k then x else 0) (sum_range-mul len aik _)))

  apply_row-Adds :
      (ds : List ℕ) (fed : ℕ) (rs : List (ℕ × ℕ)) (h : List ℕ)
      → AreRuns w rs
      → Adds h
          (apply_row aik (k * w) ds fed rs h)
          (λ c. if c / w == k then aik * run_sum ds fed rs (c % w) else 0)
  unfolding apply_row
  apply_row-Adds ds fed [] h _ =
      Adds-cong h _ _ _ (Adds-refl h) (λ c lt. ap u32 (if_same (c / w == k) (grind arith)))
  apply_row-Adds ds fed ((start, len) ∷ rs) h (b, bs) =
      Adds-cong h _ _ _
        (Adds-trans h _ _ _ _ (run-Adds ds fed start len h b)
          (apply_row-Adds ds (fed + len) rs _ bs))
        (λ c lt. ap u32 (if_add (c / w == k) aik _ _))

pub apply-Adds :
    (t : TouchedRuns) (a_row : List ℕ) (w : ℕ) (hint : List ℕ)
    → length hint ≡ length a_row * w
    → AreRuns w t.runs
    → Adds hint
        (Patch.apply t a_row w hint)
        (λ c. get_or a_row (c / w) 0 * run_sum t.deltas 0 t.runs (c % w))
unfolding Patch.apply
apply-Adds t a_row w hint e h =
    Adds-cong hint _ _ _
      (Adds-for_range (length a_row) _ _ hint
        λ k l _ _. apply_row-Adds (get_or a_row k 0) k w t.deltas 0 t.runs l h)
      (λ c lt.
        ap u32
          (sum_range_pick (length a_row) (c / w) _ (row_lt c (length a_row) w (omega (arith, e)))))
