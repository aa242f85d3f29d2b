-- ===== src/Backend/Frodo/Patch.antt =====
-- The patches of the FrodoPIR back end: of the hint in the row-level mode, of the cached part `c`
-- of prepared slots, and of a response that is rewound to the pinned database.
use native.Mathlib.Nat.{mul-add}
use ikpir.Prelude.{
  ℕ, ◌+◌, ◌*◌, ◌/◌, ◌%◌, ◌<◌, min, ◌≡◌, ap, ◌∙◌, none, some, List, map, if◌then◌else◌, length,
  get_or, set, replicate, length-replicate, u32, add32, sub32, mul32, for_range, for_each,
  sum_range, sum_list, ℤ, is_zero, u32_of_ℤ, zero, suc, refl, ap₂, arith, u32_mul, sum_range_cong,
  sym, sum_range-add,
}
use ikpir.Backend.Patch
use ikpir.Backend.Patch.{rebuild, is_empty, apply}
use ikpir.Backend.Accumulate.{
  add_at, slice, get_or-slice, Adds, Adds-cong, Adds-for_range, Adds-for_each, add_at-Adds, IsWords,
  Adds-trans, Adds-unique,
}
use ikpir.Backend.Matrix.{for_cells, for_cells-Adds, row_lt, col_lt}
use ikpir.Backend.Deltas.{
  SegmentRowDeltas, row_change, AreWithin, weighted_change, HintPatchMode, row_level, entry_level,
}
use ikpir.Backend.Interface.{IsUpdated}
use ikpir.Backend.Frodo.{PreparedSlot, compute_hint, FrodoClientState}

-- The dense row of the summed edits of one database row.
unfoldable pub delta_row : ℕ → List (ℕ × ℤ) → List ℕ
delta_row row_width cells = for_each cells (λ e. add_at e.0 (u32_of_ℤ e.1)) (replicate row_width 0)

unfoldable pub apply_patch_row_level : List ℕ → ℕ → ℕ → List ℕ → SegmentRowDeltas → List ℕ
apply_patch_row_level a lwe_dim row_width hint row_deltas =
    for_each row_deltas
      (λ r hint.
        let d = delta_row row_width r.1 in
        let a_row = slice a (r.0 * lwe_dim) lwe_dim in
        for_cells lwe_dim row_width (λ k j. mul32 (get_or a_row k 0) (get_or d j 0)) hint)
      hint

unfoldable pub apply_patch_entry_level : List ℕ → ℕ → ℕ → List ℕ → SegmentRowDeltas → List ℕ
apply_patch_entry_level a lwe_dim row_width hint row_deltas =
    for_each row_deltas
      (λ r hint.
        let touched = rebuild (λ off. off) r.1 in
        if is_empty touched
        then hint
        else Patch.apply touched (slice a (r.0 * lwe_dim) lwe_dim) row_width hint)
      hint

unfoldable pub apply_patch : List ℕ → ℕ → ℕ → List ℕ → SegmentRowDeltas → HintPatchMode → List ℕ
apply_patch a lwe_dim row_width hint row_deltas mode = elim mode [
  | row_level ↦ apply_patch_row_level a lwe_dim row_width hint row_deltas
  | entry_level ↦ apply_patch_entry_level a lwe_dim row_width hint row_deltas
]

-- `Σ_k secret[k] · A[row, k]`
unfoldable pub dot : List ℕ → List ℕ → ℕ
dot secret a_row =
    for_range (min (length secret) (length a_row))
      (λ k acc. add32 acc (mul32 (get_or secret k 0) (get_or a_row k 0))) 0

unfoldable pub patch_c : List ℕ → ℕ → List ℕ → SegmentRowDeltas → List ℕ → List ℕ
patch_c a lwe_dim secret row_deltas c =
    for_each row_deltas
      (λ r c.
        let d = dot secret (slice a (r.0 * lwe_dim) lwe_dim) in
        for_each r.1 (λ e c. if is_zero e.1 then c else add_at e.0 (mul32 d (u32_of_ℤ e.1)) c) c)
      c

unfoldable pub patch_slot_c : List ℕ → ℕ → SegmentRowDeltas → PreparedSlot → PreparedSlot
patch_slot_c a lwe_dim row_deltas slot = elim slot.c [
  | none ↦ slot
  | some c ↦ record slot { c = some (patch_c a lwe_dim slot.secret row_deltas c) }
]

unfoldable pub client_patch_state :
    FrodoClientState → SegmentRowDeltas → HintPatchMode → FrodoClientState
client_patch_state state row_deltas mode =
    let a = state.hint_material in
    let lwe_dim = state.params.params.lwe_dim in
    record state {
      hint = apply_patch a lwe_dim state.params.row_width state.hint row_deltas mode;
      prepared = map (patch_slot_c a lwe_dim row_deltas) state.prepared;
      in_flight = elim state.in_flight [
        | none ↦ none
        | some slot ↦ some (patch_slot_c a lwe_dim row_deltas slot)
      ];
    }

-- `resp.a[off] -= query.b[row] · d` over the map of pending deltas, in key order.
unfoldable pub rewind_response : List ℕ → List ((ℕ × ℕ) × ℤ) → List ℕ → List ℕ
rewind_response b deltas resp =
    for_each deltas
      (λ e resp.
        let term = mul32 (get_or b e.0.0 0) (u32_of_ℤ e.1) in
        set resp e.0.1 (sub32 (get_or resp e.0.1 0) term))
      resp

pub slice_row :
    (xs : List ℕ) (i w j : ℕ) → j < w → get_or (slice xs (i * w) w) j 0 ≡ get_or xs (i * w + j) 0
slice_row xs i w j h = get_or-slice (i * w) w j xs 0 h

pub length-zeros : (n : ℕ) → length {A = ℕ} (replicate n 0) ≡ n
length-zeros n = length-replicate {A = ℕ} n 0

pub zeros_cell : (n c : ℕ) → get_or {A = ℕ} (replicate n 0) c 0 ≡ 0
zeros_cell zero c = refl
zeros_cell (suc n) zero = refl
zeros_cell (suc n) (suc c) = zeros_cell n c

pub zeros-IsWords : (n : ℕ) → IsWords (replicate n 0)
zeros-IsWords n c = omega (arith, zeros_cell n c)

cast_product : {x y : ℕ} → x ≡ y → u32 (u32 x) ≡ u32 y
cast_product e = omega (arith, e)

pub compute_hint-Adds :
    (a db : List ℕ) (n L w : ℕ)
    → Adds
        (replicate (L * w) 0)
        (compute_hint a db n L w)
        (λ c. sum_range n (λ i. get_or a (i * L + c / w) 0 * get_or db (i * w + c % w) 0))
unfolding compute_hint
compute_hint-Adds a db n L w =
    Adds-cong _ _ _ _
      (Adds-for_range n _ _ _ λ i k _ e. for_cells-Adds L w _ k (e ∙ length-zeros (L * w)))
      (λ c lt.
        let in_range : c < L * w = omega (arith, length-zeros (L * w)) in
        sum_range_cong n _ _ λ i _. cast_product (
          ap₂ ◌*◌ (slice_row a i L (c / w) (row_lt c L w in_range))
            (slice_row db i w (c % w) (col_lt c L w in_range))))

delta_row-Adds :
    (w : ℕ) (cells : List (ℕ × ℤ)) → Adds (replicate w 0) (delta_row w cells) (row_change cells)
unfolding delta_row
delta_row-Adds w cells = Adds-for_each cells _ _ _ (λ e k _. add_at-Adds k e.0 (u32_of_ℤ e.1))

delta_row_cell :
    (w : ℕ) (cells : List (ℕ × ℤ)) (j : ℕ)
    → j < w
    → u32 (get_or (delta_row w cells) j 0) ≡ u32 (row_change cells j)
delta_row_cell w cells j h =
    omega (arith, (delta_row-Adds w cells).cell j (omega (arith, length-zeros w)), zeros_cell w j)

pub apply_patch_row_level-Adds :
    (a hint : List ℕ) (L w : ℕ) (deltas : SegmentRowDeltas)
    → length hint ≡ L * w
    → Adds hint
        (apply_patch_row_level a L w hint deltas)
        (λ c. sum_list deltas (λ r. get_or a (r.0 * L + c / w) 0 * row_change r.1 (c % w)))
unfolding apply_patch_row_level
apply_patch_row_level-Adds a hint L w deltas e = Adds-for_each deltas _ _ hint λ r k ek.
    Adds-cong k _ _ _ (for_cells-Adds L w _ k (ek ∙ e)) (λ c lt.
      let in_range : c < L * w = omega (arith, ek, e) in
      cast_product (
        ap (λ x. x * get_or (delta_row w r.1) (c % w) 0)
          (slice_row a r.0 L (c / w) (row_lt c L w in_range)))
      ∙ u32_mul _ _ _ _ refl (delta_row_cell w r.1 (c % w) (col_lt c L w in_range)))

patched_sum :
    (a db db' : List ℕ) (n L w : ℕ) (deltas : SegmentRowDeltas) (k j : ℕ)
    → IsUpdated n w db deltas db'
    → AreWithin n w deltas
    → j < w
    → u32 (
        sum_range n (λ i. get_or a (i * L + k) 0 * get_or db (i * w + j) 0)
        + sum_list deltas (λ r. get_or a (r.0 * L + k) 0 * row_change r.1 j))
      ≡ u32 (sum_range n (λ i. get_or a (i * L + k) 0 * get_or db' (i * w + j) 0))
patched_sum a db db' n L w deltas k j u within hj =
    ap (λ x. u32 (sum_range n (λ i. get_or a (i * L + k) 0 * get_or db (i * w + j) 0) + x))
      (sym (weighted_change n w deltas (λ i. get_or a (i * L + k) 0) j within))
    ∙ ap u32 (sym (sum_range-add n _ _))
    ∙ sum_range_cong n _ _ λ i lt.
      ap u32 (sym (mul-add (get_or a (i * L + k) 0) _ _)) ∙ u32_mul _ _ _ _ refl (sym (u i j lt hj))

-- Patching the hint in the row-level mode gives the hint of the updated database.
pub apply_patch_row_level-compute_hint :
    (a db db' : List ℕ) (n L w : ℕ) (deltas : SegmentRowDeltas)
    → IsUpdated n w db deltas db'
    → AreWithin n w deltas
    → apply_patch_row_level a L w (compute_hint a db n L w) deltas ≡ compute_hint a db' n L w
apply_patch_row_level-compute_hint a db db' n L w deltas u within =
    let before = compute_hint-Adds a db n L w in
    Adds-unique (replicate (L * w) 0) _ _ _ _ (zeros-IsWords (L * w))
      (Adds-trans _ _ _ _ _ before (
        apply_patch_row_level-Adds a (compute_hint a db n L w) L w deltas
          (before.length_eq ∙ length-zeros (L * w))))
      (compute_hint-Adds a db' n L w)
      (λ c lt.
        patched_sum a db db' n L w deltas (c / w) (c % w) u within
          (col_lt c L w (omega (arith, length-zeros (L * w)))))
