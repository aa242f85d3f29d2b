-- ===== src/Backend/Frodo/Modes.antt =====
-- The two modes of the FrodoPIR hint patch leave the same hint.
use native.Mathlib.Nat.{mul-zero}
use ikpir.Prelude.{
  ℕ, ◌+◌, ◌*◌, ◌/◌, ◌%◌, ◌<◌, ◌≡◌, refl, ap, ◌∙◌, true, List, [], ◌∷◌, if◌then◌else◌, if_cases,
  length, get_or, for_each, sum_list, ℤ, sym, Bool, false, arith, u32, u32_mul,
}
use ikpir.Backend.Matrix.{row_lt}
use ikpir.Backend.Accumulate.{
  length-slice, slice, IsWords, Adds, Adds-refl, Adds-trans, Adds-cong, Adds-unique,
}
use ikpir.Backend.Deltas.{
  SegmentRowDeltas, row_level, entry_level, row_change, AreOffsets, AreWithin, no_row, row,
}
use ikpir.Backend.Patch
use ikpir.Backend.Patch.{run_sum, TouchedRuns, TouchedRuns, rebuild, is_empty, apply}
use ikpir.Backend.Patch.Sweep.{rebuild_lem, apply-Adds}
use ikpir.Backend.Frodo.Patch.{
  apply_patch_entry_level, apply_patch, apply_patch_row_level-Adds, slice_row,
}

-- What one changed row adds to the hint.
abbrev row_effect : List ℕ → ℕ → ℕ → ℕ × List (ℕ × ℤ) → ℕ → ℕ
row_effect a L w r c = get_or a (r.0 * L + c / w) 0 * row_change r.1 (c % w)

abbrev entry_step : List ℕ → ℕ → ℕ → ℕ × List (ℕ × ℤ) → List ℕ → List ℕ
entry_step a L w r h =
    let touched = rebuild (λ off. off) r.1 in
    if is_empty touched then h else Patch.apply touched (slice a (r.0 * L) L) w h

no_runs :
    (rs : List (ℕ × ℕ)) → (elim rs as (λ _. Bool) [ [] ↦ true | _ ∷ _ ↦ false ]) ≡ true → rs ≡ []
no_runs [] h = refl
no_runs (_ ∷ _) h = absurd cc

is_empty-run_sum : (t : TouchedRuns) (c : ℕ) → is_empty t ≡ true → run_sum t.deltas 0 t.runs c ≡ 0
unfolding is_empty
is_empty-run_sum t c h = ap (λ rs. run_sum t.deltas 0 rs c) (no_runs t.runs h)

entry_step-Adds :
    (a : List ℕ) (n L w : ℕ) (r : ℕ × List (ℕ × ℤ)) (h : List ℕ)
    → length a ≡ n * L
    → r.0 < n
    → AreOffsets w r.1
    → length h ≡ L * w
    → Adds h (entry_step a L w r h) (row_effect a L w r)
entry_step-Adds a n L w r h ea lt offs e =
    let t = rebuild (λ off. off) r.1 in
    let (runs, sums) = rebuild_lem w r.1 offs in
    if_cases (λ k. Adds h k (row_effect a L w r)) (is_empty t)
      (λ z. Adds-cong h h _ (row_effect a L w r) (Adds-refl h) λ c lc.
        ap u32 (sym (mul-zero (get_or a (r.0 * L + c / w) 0)))
        ∙ u32_mul (get_or a (r.0 * L + c / w) 0) _ 0 (row_change r.1 (c % w)) refl
            (ap u32 (sym (is_empty-run_sum t (c % w) z)) ∙ sums (c % w)))
      (λ _.
        Adds-cong h _ _ _
          (apply-Adds t (slice a (r.0 * L) L) w h
            (e ∙ ap (λ x. x * w) (sym (length-slice a n r.0 L ea lt))) runs)
          λ c lc.
            u32_mul _ _ _ _ (ap u32 (slice_row a r.0 L (c / w) (row_lt c L w (omega (arith, e)))))
              (sums (c % w)))

entry_level-Adds :
    (a : List ℕ) (n L w : ℕ) (deltas : SegmentRowDeltas) (hint : List ℕ)
    → length a ≡ n * L
    → AreWithin n w deltas
    → length hint ≡ L * w
    → Adds hint
        (for_each deltas (entry_step a L w) hint)
        (λ c. sum_list deltas (λ r. row_effect a L w r c))
entry_level-Adds a n L w [] hint ea no_row e = Adds-refl hint
entry_level-Adds a n L w ((i, cells) ∷ rest) hint ea (row lt offs h) e =
    let first = entry_step-Adds a n L w (i, cells) hint ea lt offs e in
    Adds-trans hint _ _ _ _ first
      (entry_level-Adds a n L w rest (entry_step a L w (i, cells) hint) ea h (first.length_eq ∙ e))

-- For a hint of machine words, a matrix `A` with a row for each database row, and edits inside the
-- segment, the entry-level patch leaves exactly the hint of the row-level patch.
pub apply_patch_modes :
    (a hint : List ℕ) (n L w : ℕ) (deltas : SegmentRowDeltas)
    → IsWords hint
    → length a ≡ n * L
    → length hint ≡ L * w
    → AreWithin n w deltas
    → apply_patch a L w hint deltas entry_level ≡ apply_patch a L w hint deltas row_level
unfolding apply_patch apply_patch_entry_level
apply_patch_modes a hint n L w deltas words ea e within =
    Adds-unique hint _ _ _ _ words (entry_level-Adds a n L w deltas hint ea within e)
      (apply_patch_row_level-Adds a hint L w deltas e) (λ c lt. refl)
