-- ===== src/Backend/Frodo/PatchCached.antt =====
-- Patching the cached part `c = sᵀ · H` of a slot along with the hint.
use native.Mathlib.Nat.{mul-add, mul_comm, mul-zero}
use ikpir.Prelude.{
  ℕ, ◌+◌, ◌*◌, ◌<◌, min, ◌≡◌, refl, sym, ap, ap₂, ◌∙◌, Bool, List, [], ◌∷◌, arith, ◌==◌,
  if◌then◌else◌, if_cases, length, get_or, replicate, u32, mul32, for_each, sum_range, sum_list,
  u32_mul, sum_range_ext, sum_range-add, sum_range_cong, ℤ, is_zero, u32_of_ℤ, true, false,
  sum_range-mul, pos, negsuc,
}
use ikpir.Backend.Accumulate.{
  add_at, slice, length-slice, IsWords, Adds, Adds-refl, Adds-trans, Adds-cong, Adds-for_each,
  add_at-Adds, Adds-unique,
}
use ikpir.Backend.Matrix.{div_of, mod_of}
use ikpir.Backend.Deltas.{
  SegmentRowDeltas, HintPatchMode, row_level, row_change, AreWithin, no_row, row, sum_list_ext,
  sum_list-mul, sum_list_cong, sum_list-swap, entry_level,
}
use ikpir.Backend.Matvec.Blocked.{cell_lt}
use ikpir.Backend.Frodo.{compute_c}
use ikpir.Backend.Frodo.Patch.{
  apply_patch_row_level, apply_patch, dot, patch_c, slice_row, length-zeros, zeros-IsWords,
  apply_patch_row_level-Adds,
}
use ikpir.Backend.Frodo.Modes.{apply_patch_modes}
use ikpir.Backend.Frodo.Decode.{fold_sum}
use ikpir.Backend.Frodo.Answer.{hint_part}
use ikpir.Backend.Frodo.Cached.{compute_c-Adds}

-- `Σ_k s_k · A_rk`
abbrev row_dot : List ℕ → List ℕ → ℕ → ℕ → ℕ
row_dot a secret L r = sum_range L (λ k. get_or secret k 0 * get_or a (r * L + k) 0)

dot_lem :
    (a secret : List ℕ) (n L r : ℕ)
    → length secret ≡ L
    → length a ≡ n * L
    → r < n
    → u32 (dot secret (slice a (r * L) L)) ≡ u32 (row_dot a secret L r)
unfolding dot
dot_lem a secret n L r es ea lt =
    let a_row = slice a (r * L) L in
    let count : min (length secret) (length a_row) ≡ L =
      omega (arith, es, length-slice a n r L ea lt) in
    fold_sum (min (length secret) (length a_row)) 0 (λ k. get_or secret k 0 * get_or a_row k 0)
    ∙ ap (λ m. u32 (0 + sum_range m (λ k. get_or secret k 0 * get_or a_row k 0))) count
    ∙ ap (λ x. u32 (0 + x))
        (sum_range_ext L _ _ (λ k lk. ap (λ x. get_or secret k 0 * x) (slice_row a r L k lk)))
    ∙ omega arith

zero_word : (x : ℤ) → is_zero x ≡ true → u32_of_ℤ x ≡ 0
zero_word (pos n) h = ground (arith, h)
zero_word (negsuc n) h = absurd cc

if_zero : (b : Bool) (d x : ℕ) → x ≡ 0 → 0 ≡ (if b then mul32 d x else 0)
if_zero true d x e = sym (ap (λ y. mul32 d y) e ∙ ap u32 (mul-zero d))
if_zero false d x e = refl

cast_if : (b : Bool) (d x : ℕ) → u32 (if b then mul32 d x else 0) ≡ u32 (d * (if b then x else 0))
cast_if true d x = omega arith
cast_if false d x = sym (ap u32 (mul-zero d))

abbrev edit : ℕ → ℕ × ℤ → List ℕ → List ℕ
edit d e c = if is_zero e.1 then c else add_at e.0 (mul32 d (u32_of_ℤ e.1)) c

edit-Adds :
    (d : ℕ) (e : ℕ × ℤ) (c : List ℕ)
    → Adds c (edit d e c) (λ j. if j == e.0 then mul32 d (u32_of_ℤ e.1) else 0)
edit-Adds d e c =
    if_cases (λ k. Adds c k (λ j. if j == e.0 then mul32 d (u32_of_ℤ e.1) else 0)) (is_zero e.1)
      (λ z.
        Adds-cong c c _ _ (Adds-refl c)
          (λ j lt. ap u32 (if_zero (j == e.0) d (u32_of_ℤ e.1) (zero_word e.1 z))))
      (λ _. add_at-Adds c e.0 _)

patch_c-Adds :
    (a secret : List ℕ) (n L w : ℕ) (deltas : SegmentRowDeltas) (c : List ℕ)
    → length secret ≡ L
    → length a ≡ n * L
    → AreWithin n w deltas
    → Adds c
        (patch_c a L secret deltas c)
        (λ j. sum_list deltas (λ r. row_dot a secret L r.0 * row_change r.1 j))
unfolding patch_c
patch_c-Adds a secret n L w [] c es ea no_row = Adds-refl c
patch_c-Adds a secret n L w ((i, cells) ∷ rest) c es ea (row lt offs h) =
    let d = dot secret (slice a (i * L) L) in
    Adds-trans c (for_each cells (edit d) c) _ (λ j. row_dot a secret L i * row_change cells j) _
      (Adds-cong c _ _ _ (Adds-for_each cells (edit d) _ c (λ e k _. edit-Adds d e k)) (λ j lj.
        sum_list_cong cells _ (λ e. d * (if j == e.0 then u32_of_ℤ e.1 else 0))
          (λ e. cast_if (j == e.0) d (u32_of_ℤ e.1))
        ∙ ap u32 (sum_list-mul d cells _)
        ∙ u32_mul _ _ (row_change cells j) _ (dot_lem a secret n L i es ea lt) refl))
      (patch_c-Adds a secret n L w rest (for_each cells (edit d) c) es ea h)

module _ (a secret hint : List ℕ) (L w : ℕ) (deltas : SegmentRowDeltas)
    (eh : length hint ≡ L * w) where
  patched_cell :
      (k j : ℕ)
      → k < L
      → j < w
      → u32 (get_or (apply_patch_row_level a L w hint deltas) (k * w + j) 0)
        ≡ u32 (
            get_or hint (k * w + j) 0
            + sum_list deltas (λ r. get_or a (r.0 * L + k) 0 * row_change r.1 j))
  patched_cell k j hk hj =
      (apply_patch_row_level-Adds a hint L w deltas eh).cell (k * w + j)
        (omega (arith, eh, cell_lt k j L w hk hj))
      ∙ ap₂
          (λ x y. u32 (
            get_or hint (k * w + j) 0
            + sum_list deltas (λ r. get_or a (r.0 * L + x) 0 * row_change r.1 y)))
          (div_of k w j hj) (mod_of k w j hj)

  dot_times :
      (r x : ℕ)
      → sum_range L (λ k. get_or secret k 0 * (get_or a (r * L + k) 0 * x))
        ≡ row_dot a secret L r * x
  dot_times r x =
      sum_range_ext L _ (λ k. x * (get_or secret k 0 * get_or a (r * L + k) 0))
        (λ k lk. grind arith)
      ∙ sum_range-mul L x _
      ∙ mul_comm x (row_dot a secret L r)

  hint_part_patched :
      (j : ℕ)
      → j < w
      → u32 (hint_part secret (apply_patch_row_level a L w hint deltas) L w j)
        ≡ u32 (
            hint_part secret hint L w j
            + sum_list deltas (λ r. row_dot a secret L r.0 * row_change r.1 j))
  hint_part_patched j hj =
      sum_range_cong L _
        (λ k.
          get_or secret k 0 * get_or hint (k * w + j) 0
          + sum_list deltas
              (λ r. get_or secret k 0 * (get_or a (r.0 * L + k) 0 * row_change r.1 j)))
        (λ k lk.
          u32_mul (get_or secret k 0) _ _ _ refl (patched_cell k j lk hj)
          ∙ ap u32 (
              mul-add (get_or secret k 0) _ _
              ∙ ap (λ x. get_or secret k 0 * get_or hint (k * w + j) 0 + x)
                  (sym (sum_list-mul (get_or secret k 0) deltas _))))
      ∙ ap u32 (
          sum_range-add L _ _
          ∙ ap (λ x. hint_part secret hint L w j + x)
              (sum_list-swap L deltas _
                ∙ sum_list_ext deltas _ _ (λ r. dot_times r.0 (row_change r.1 j))))

  patched_row_level :
      (x86_64 : Bool) (n : ℕ)
      → length secret ≡ L
      → length a ≡ n * L
      → AreWithin n w deltas
      → patch_c a L secret deltas (compute_c x86_64 secret hint w)
        ≡ compute_c x86_64 secret (apply_patch_row_level a L w hint deltas) w
  patched_row_level x86_64 n es ea within =
      let c = compute_c-Adds x86_64 secret hint L w es eh in
      let patched = apply_patch_row_level-Adds a hint L w deltas eh in
      Adds-unique (replicate w 0) _ _ _ _ (zeros-IsWords w)
        (Adds-trans _ _ _ _ _ c (patch_c-Adds a secret n L w deltas _ es ea within))
        (compute_c-Adds x86_64 secret _ L w es (patched.length_eq ∙ eh))
        (λ j lt. sym (hint_part_patched j (omega (arith, length-zeros w))))

-- Patching the cached `c` of a slot gives the `c` of the patched hint, in either mode.
pub patch_c-compute_c :
    (x86_64 : Bool) (a secret hint : List ℕ) (n L w : ℕ) (deltas : SegmentRowDeltas)
    (mode : HintPatchMode)
    → IsWords hint
    → length secret ≡ L
    → length a ≡ n * L
    → length hint ≡ L * w
    → AreWithin n w deltas
    → patch_c a L secret deltas (compute_c x86_64 secret hint w)
      ≡ compute_c x86_64 secret (apply_patch a L w hint deltas mode) w
unfolding apply_patch
patch_c-compute_c x86_64 a secret hint n L w deltas row_level wh es ea eh within =
    patched_row_level a secret hint L w deltas eh x86_64 n es ea within
patch_c-compute_c x86_64 a secret hint n L w deltas entry_level wh es ea eh within =
    patched_row_level a secret hint L w deltas eh x86_64 n es ea within
    ∙ ap (λ h. compute_c x86_64 secret h w)
        (sym (apply_patch_modes a hint n L w deltas wh ea eh within))
