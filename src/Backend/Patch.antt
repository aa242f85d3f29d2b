-- ===== src/Backend/Patch.antt =====
-- The inner loop of the entry-level hint patch, crates/ikpir-common/src/backend/patch.rs: the edits
-- of one row are sorted by hint column, coalesced into runs, and applied in one sweep of the hint.
pub mod Coalesce
pub mod Sweep
use ikpir.Prelude.{
  ℕ, zero, suc, ◌+◌, ◌-◌, ◌*◌, ◌/◌, ◌<◌, ◌≡◌, refl, ap, ap₂, Bool, true, false, not, Option, none,
  some, List, [], ◌∷◌, ◌++◌, arith, leb, ◌==◌, if◌then◌else◌, length, get_or, u32, add32, mul32,
  for_range, for_each, sum_range, sum_range_ext, ℤ, is_zero, u32_of_ℤ,
}
use ikpir.Backend.Accumulate.{add_at}
use ikpir.Backend.Deltas.{change, row}

-- The runs are `(first hint column, run length)`; `scratch` lives in `rebuild` only.
pub record TouchedRuns : Type 0 where
  pub deltas : List ℕ
  pub runs : List (ℕ × ℕ)

unfoldable pub new : TouchedRuns
new = record { deltas = []; runs = [] }

-- `if let Some(x) = xs.last_mut() { *x = f(x) }`
abbrev pub change_last {ℓ} : {A : Type ℓ} → (A → A) → List A → List A
change_last f [] = []
change_last f (x ∷ []) = f x ∷ []
change_last f (x ∷ y ∷ xs) = x ∷ change_last f (y ∷ xs)

-- `sort_unstable_by_key` on the column; equal columns keep their order here.
abbrev pub insert_by_key : ℕ × ℕ → List (ℕ × ℕ) → List (ℕ × ℕ)
insert_by_key x [] = x ∷ []
insert_by_key x (y ∷ ys) =
    let rest = insert_by_key x ys in if leb x.0 y.0 then x ∷ y ∷ ys else y ∷ rest

abbrev pub sort_by_key : List (ℕ × ℕ) → List (ℕ × ℕ)
sort_by_key [] = []
sort_by_key (x ∷ xs) = insert_by_key x (sort_by_key xs)

-- The edits that are not zero, with the hint column of each.
unfoldable pub scratch_of : (ℕ → ℕ) → List (ℕ × ℤ) → List (ℕ × ℕ)
scratch_of column_of [] = []
scratch_of column_of ((off, d) ∷ cells) =
    let rest = scratch_of column_of cells in
    if is_zero d then rest else (column_of off, u32_of_ℤ d) ∷ rest

-- A gap, or the first column: open a new run.
abbrev pub open_run : ℕ → ℕ → TouchedRuns → TouchedRuns × Option ℕ
open_run col delta t =
    (record { deltas = t.deltas ++ (delta ∷ []); runs = t.runs ++ ((col, 1) ∷ []) }, some col)

-- One round of the coalescing loop, on the buffer and the last column.
unfoldable pub coalesce : ℕ × ℕ → TouchedRuns × Option ℕ → TouchedRuns × Option ℕ
coalesce (col, delta) (t, last_col) = elim last_col [
  | none ↦ open_run col delta t
  | some prev ↦
      if prev == col
      then (record t { deltas = change_last (λ x. add32 x delta) t.deltas }, some prev)
      else if prev + 1 == col
      then (
        record {
          deltas = t.deltas ++ (delta ∷ []);
          runs = change_last (λ r. (r.0, r.1 + 1)) t.runs;
        },
        some col,
      )
      else open_run col delta t
]

unfoldable pub rebuild : (ℕ → ℕ) → List (ℕ × ℤ) → TouchedRuns
rebuild column_of cells =
    (for_each (sort_by_key (scratch_of column_of cells)) coalesce (new, none)).0

unfoldable pub is_empty : TouchedRuns → Bool
is_empty t = elim t.runs [ [] ↦ true | _ ∷ _ ↦ false ]

-- The runs of one hint row that starts at `base`, from the `fed`-th delta on.
unfoldable pub apply_row : ℕ → ℕ → List ℕ → ℕ → List (ℕ × ℕ) → List ℕ → List ℕ
apply_row aik base deltas fed [] hint = hint
apply_row aik base deltas fed ((start, len) ∷ runs) hint =
    apply_row aik base deltas (fed + len) runs
      (for_range len (λ m. add_at (base + start + m) (mul32 aik (get_or deltas (fed + m) 0))) hint)

unfoldable pub apply : TouchedRuns → List ℕ → ℕ → List ℕ → List ℕ
apply t a_row hint_row_width hint =
    for_range (length a_row)
      (λ k. apply_row (get_or a_row k 0) (k * hint_row_width) t.deltas 0 t.runs) hint

-- What the runs add to column `c`, for the deltas from the `fed`-th on.
abbrev pub run_sum : List ℕ → ℕ → List (ℕ × ℕ) → ℕ → ℕ
run_sum deltas fed [] c = 0
run_sum deltas fed ((start, len) ∷ runs) c =
    sum_range len (λ m. if c == start + m then get_or deltas (fed + m) 0 else 0)
    + run_sum deltas (fed + len) runs c

abbrev pub total : List (ℕ × ℕ) → ℕ
total [] = 0
total ((_, len) ∷ runs) = len + total runs
