-- ===== src/Backend/Matvec/Blocked.antt =====
-- The blocked pass of matvec.rs adds to each cell what the plain loop adds.
use native.Mathlib.Nat.{mul-div_cancel, mul-sub, mul_comm, mul_assoc}
use ikpir.Prelude.{
  ℕ, ◌+◌, ◌-◌, ◌*◌, ◌<◌, ◌≡◌, sym, ap, ap₂, ◌∙◌, List, arith, length, get_or, take, drop,
  length-take, length-drop, u32, for_range, sum_range, sum_range_ext, ◌/◌, ◌%◌, ◌≤◌, min, refl, ◌⊎◌,
  inl, inr, if_cases, Bool, sum_range_append, ◌==◌,
}
use ikpir.Backend.Accumulate.{
  slice, Adds, Adds-cong, Adds-for_range, get_or-drop, get_or-take, get_or-slice, Adds-refl,
  IsWords, Adds-trans, Adds-unique,
}
use ikpir.Backend.Matvec.{
  block_rows, tail_row, tail_row-Adds, block_rows-Adds, sum_range_blocks, block_pass, product,
  passes, matvec_accumulate, naive, naive-Adds, blocking,
}

-- The cell `(i, j)` of a row-major matrix lies inside it.
pub cell_lt : (i j n w : ℕ) → i < n → j < w → i * w + j < n * w
cell_lt i j n w hi hj = grind arith

block_index : (b R r w j : ℕ) → b * (R * w) + (r * w + j) ≡ (b * R + r) * w + j
block_index b R r w j = grind arith

get_or-slice-take :
    (from n m i : ℕ) (xs : List ℕ)
    → i < n
    → from + i < m
    → get_or (slice (take m xs) from n) i 0 ≡ get_or xs (from + i) 0
get_or-slice-take from n m i xs h k =
    get_or-slice from n i (take m xs) 0 h ∙ get_or-take m (from + i) xs 0 k

module _ (R w full : ℕ) (d q : List ℕ) where
  block_term :
      (k b r j : ℕ)
      → k * R ≡ full
      → b < k
      → r < R
      → j < w
      → get_or (slice (take full q) (b * R) R) r 0
          * get_or (slice (take (full * w) d) (b * (R * w)) (R * w)) (r * w + j) 0
        ≡ get_or q (b * R + r) 0 * get_or d ((b * R + r) * w + j) 0
  block_term k b r j ek hb hr hj =
      let row : b * R + r < full = omega (arith, ek, cell_lt b r k R hb hr) in
      let at : b * (R * w) + (r * w + j) ≡ (b * R + r) * w + j = block_index b R r w j in
      ap₂ ◌*◌ (get_or-slice-take (b * R) R full r q hr row) (
        get_or-slice-take (b * (R * w)) (R * w) (full * w) (r * w + j) d (cell_lt r j R w hr hj)
          (omega (arith, at, cell_lt (b * R + r) j full w row hj))
        ∙ ap (λ i. get_or d i 0) at)

  tail_term :
      (i j : ℕ) {t : ℕ}
      → i < t
      → j < w
      → get_or (drop full q) i 0 * get_or (slice (drop (full * w) d) (i * w) w) j 0
        ≡ get_or q (full + i) 0 * get_or d ((full + i) * w + j) 0
  tail_term i j hi hj = ap₂ ◌*◌ (get_or-drop full i q 0) (
      get_or-slice (i * w) w j (drop (full * w) d) 0 hj
      ∙ get_or-drop (full * w) (i * w + j) d 0
      ∙ ap (λ m. get_or d m 0) (grind arith))

  tail_length :
      (i t : ℕ)
      → i < t
      → length d ≡ (full + t) * w
      → length (slice (drop (full * w) d) (i * w) w) ≡ w
  tail_length i t lt e =
      length-take w (drop (i * w) (drop (full * w) d))
      ∙ grind (arith, length-drop (i * w) (drop (full * w) d), length-drop (full * w) d)

  blocks-Adds :
      (k : ℕ) (acc : List ℕ)
      → w ≡ length acc
      → k * R ≡ full
      → Adds acc
          (for_range k
            (λ b.
              block_rows R w
                (slice (take (full * w) d) (b * (R * w)) (R * w))
                (slice (take full q) (b * R) R))
            acc)
          (λ j. sum_range full (λ i. get_or q i 0 * get_or d (i * w + j) 0))
  blocks-Adds k acc e ek =
      Adds-cong acc _ _ _
        (Adds-for_range k _ _ acc (λ b h lt eh. block_rows-Adds R w _ _ h (e ∙ sym eh)))
        (λ j lt. ap u32 (
          sum_range_ext k _ _
            (λ b hb. sum_range_ext R _ _ (λ r hr. block_term k b r j ek hb hr (omega (arith, e))))
          ∙ sum_range_blocks k R (λ i. get_or q i 0 * get_or d (i * w + j) 0)
          ∙ ap (λ n. sum_range n (λ i. get_or q i 0 * get_or d (i * w + j) 0)) ek))

  tails-Adds :
      (t : ℕ) (acc : List ℕ)
      → w ≡ length acc
      → length d ≡ (full + t) * w
      → Adds acc
          (for_range t
            (λ i. tail_row (get_or (drop full q) i 0) (slice (drop (full * w) d) (i * w) w))
            acc)
          (λ j. sum_range t (λ i. get_or q (full + i) 0 * get_or d ((full + i) * w + j) 0))
  tails-Adds t acc e ed =
      Adds-cong acc _ _ _
        (Adds-for_range t _ _ acc
          (λ i h lt eh. tail_row-Adds _ _ h (eh ∙ sym e ∙ sym (tail_length i t lt ed))))
        (λ j lt. ap u32 (sum_range_ext t _ _ (λ i hi. tail_term i j hi (omega (arith, e)))))

-- The whole blocks of `R` rows, and what is left of them.
module _ (R w n full : ℕ) (d q : List ℕ) (hR : 0 < R) (hw : 0 < w) where
  module _ (eq : length q ≡ n) (ed : length d ≡ n * w) (ef : full ≡ n - n % R) where
    whole : n / R * R ≡ full
    whole = grind (arith, hR, ef)

    full_le : full ≤ n
    full_le = omega (arith, ef)

    rows_le : full * w ≤ n * w
    rows_le = grind (arith, full_le)

    head_length : length (take (full * w) d) ≡ n / R * (R * w)
    head_length =
        length-take (full * w) d
        ∙ omega (arith, ed, rows_le)
        ∙ ap (λ x. x * w) (sym whole)
        ∙ mul_assoc (n / R) R w

    tail_length' : length (drop (full * w) d) ≡ (n - full) * w
    tail_length' =
        length-drop (full * w) d
        ∙ ap (λ x. x - full * w) ed
        ∙ ap₂ ◌-◌ (mul_comm n w) (mul_comm full w)
        ∙ sym (mul-sub w n full)
        ∙ mul_comm w (n - full)

    blocks_count : min (length (take (full * w) d) / (R * w)) (length (take full q) / R) ≡ n / R
    blocks_count =
        ap₂ min (ap (λ x. x / (R * w)) head_length ∙ mul-div_cancel (n / R) (grind (arith, hR, hw)))
          (ap (λ x. x / R) (length-take full q ∙ omega (arith, eq, full_le) ∙ sym whole)
            ∙ mul-div_cancel (n / R) hR)
        ∙ omega arith

    tails_count : min (length (drop (full * w) d) / w) (length (drop full q)) ≡ n - full
    tails_count =
        ap₂ min (ap (λ x. x / w) tail_length' ∙ mul-div_cancel (n - full) hw)
          (length-drop full q ∙ ap (λ x. x - full) eq)
        ∙ omega arith

    tails_rows : length d ≡ (full + (n - full)) * w
    tails_rows = ed ∙ ap (λ x. x * w) (omega (arith, full_le))

empty_pass :
    (acc d q : List ℕ) → (length acc ≡ 0) ⊎ (length q ≡ 0) → Adds acc acc (product (length acc) d q)
empty_pass acc d q e = Adds-cong acc acc _ _ (Adds-refl acc) λ c lt. elim e [
  | inl w0 ↦ absurd (omega (arith, w0))
  | inr n0 ↦
      ap u32 (sym (ap (λ n. sum_range n (λ i. get_or q i 0 * get_or d (i * length acc + c) 0)) n0))
]

passes-Adds :
    (R : ℕ) (acc d q : List ℕ)
    → 0 < R
    → 0 < length acc
    → length d ≡ length q * length acc
    → Adds acc (passes R acc d q) (product (length acc) d q)
unfolding passes
passes-Adds R acc d q hR hw ed =
    let w = length acc in
    let n = length q in
    let full = n - n % R in
    let after_blocks =
      blocks-Adds R w full d q (n / R) acc refl (whole R w n full d q hR hw refl ed refl) in
    rw
      (
        blocks_count R w n full d q hR hw refl ed refl,
        tails_count R w n full d q hR hw refl ed refl,
      )
      (Adds-cong acc _ _ _
        (Adds-trans acc _ _ _ _ after_blocks (
          tails-Adds R w full d q (n - full) _ (sym after_blocks.length_eq)
            (tails_rows R w n full d q hR hw refl ed refl)))
        (λ j lt. ap u32 (
          sym (sum_range_append full (n - full) _)
          ∙ ap (λ m. sum_range m (λ i. get_or q i 0 * get_or d (i * w + j) 0)) (omega arith))))

pub block_pass-Adds :
    (R : ℕ) (acc d q : List ℕ)
    → 0 < R
    → length d ≡ length q * length acc
    → Adds acc (block_pass R acc d q) (product (length acc) d q)
unfolding block_pass
block_pass-Adds R acc d q hR ed =
    if_cases (λ k. Adds acc k (product (length acc) d q)) _ (λ e. empty_pass acc d q (ground arith))
      (λ e. passes-Adds R acc d q hR (ground arith) ed)

blocking_positive : (x86_64 : Bool) (width : ℕ) → 0 < blocking x86_64 width
unfolding blocking
blocking_positive x86_64 width = ground arith

pub matvec_accumulate-Adds :
    (x86_64 : Bool) (acc d q : List ℕ)
    → length d ≡ length q * length acc
    → Adds acc (matvec_accumulate x86_64 acc d q) (product (length acc) d q)
unfolding matvec_accumulate
matvec_accumulate-Adds x86_64 acc d q ed =
    if_cases (λ k. Adds acc k (product (length acc) d q)) (length acc == 0)
      (λ e. empty_pass acc d q (inl (ground arith)))
      (λ e. block_pass-Adds _ acc d q (blocking_positive x86_64 (length acc)) ed)

-- On machine words, and for a matrix of the shape that the kernel asks for, the blocked kernel of
-- either target leaves exactly the cells that the plain loop over rows and columns leaves.
pub matvec_accumulate-naive :
    (x86_64 : Bool) (acc d q : List ℕ)
    → IsWords acc
    → length d ≡ length q * length acc
    → matvec_accumulate x86_64 acc d q ≡ naive acc d q
matvec_accumulate-naive x86_64 acc d q w ed =
    Adds-unique acc _ _ _ _ w (matvec_accumulate-Adds x86_64 acc d q ed) (naive-Adds acc d q)
      (λ c lt. refl)
