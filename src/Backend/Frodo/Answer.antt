-- ===== src/Backend/Frodo/Answer.antt =====
-- The round trip of a query: the client decodes the row that it asked for.
use ikpir.Prelude.{
  ℕ, ◌+◌, ◌*◌, ◌<◌, ◌≡◌, ap, ap₂, ◌∙◌, Bool, List, arith, length, get_or, replicate, u32, sum_range,
  sym, map, ◌==◌, if◌then◌else◌, set, add32, sum_range_ext, refl, u32_mul, sum_range_cong,
}
use ikpir.Backend.Accumulate.{IsWords, Adds, Adds-trans, Adds-cong, set-Adds}
use ikpir.Backend.Matrix.{div_of, mod_of}
use ikpir.Backend.Matvec.{matvec_accumulate, product}
use ikpir.Backend.Matvec.Blocked.{matvec_accumulate-Adds, cell_lt}
use ikpir.Backend.Frodo.{compute_hint, FrodoServerParams, sample_slot, server_answer, neg32}
use ikpir.Backend.Frodo.Patch.{length-zeros, zeros_cell, compute_hint-Adds}
use ikpir.Backend.Frodo.Decode.{
  asked, masked, sample_slot-Adds, noise, get_or-map, length-map, negated_sum, secret_swap,
  asked_sum,
}

-- A cell of the hint of a database.
compute_hint_cell :
    (a db : List ℕ) (n L w k j : ℕ)
    → k < L
    → j < w
    → u32 (get_or (compute_hint a db n L w) (k * w + j) 0)
      ≡ u32 (sum_range n (λ i. get_or a (i * L + k) 0 * get_or db (i * w + j) 0))
compute_hint_cell a db n L w k j hk hj =
    let inside : k * w + j < length {A = ℕ} (replicate (L * w) 0) =
      omega (arith, length-zeros (L * w), cell_lt k j L w hk hj) in
    (compute_hint-Adds a db n L w).cell (k * w + j) inside
    ∙ omega (
      arith,
      zeros_cell (L * w) (k * w + j),
      ap₂ (λ x y. sum_range n (λ i. get_or a (i * L + x) 0 * get_or db (i * w + y) 0))
          (div_of k w j hj) (mod_of k w j hj),
    )

-- The secret's part of column `j` of an answer, by the hint.
abbrev pub hint_part : List ℕ → List ℕ → ℕ → ℕ → ℕ → ℕ
hint_part secret hint L w j = sum_range L (λ k. get_or secret k 0 * get_or hint (k * w + j) 0)

module _ (x86_64 : Bool) (resp hint secret : List ℕ) (L w : ℕ) (words : IsWords secret)
    (es : length secret ≡ L) (eh : length hint ≡ L * w) (er : length resp ≡ w) where
  neg_length : length (map neg32 secret) ≡ L
  neg_length = length-map neg32 secret ∙ es

  shape : length hint ≡ length (map neg32 secret) * length resp
  shape = eh ∙ ap₂ ◌*◌ (sym neg_length) (sym er)

  pub cold-Adds :
      Adds resp
        (matvec_accumulate x86_64 resp hint (map neg32 secret))
        (λ j. sum_range L (λ k. neg32 (get_or secret k 0) * get_or hint (k * w + j) 0))
  cold-Adds =
      Adds-cong resp _ _ _ (matvec_accumulate-Adds x86_64 resp hint (map neg32 secret) shape)
        (λ j lt. ap u32 (
          ap₂ (λ n v. sum_range n (λ k. get_or (map neg32 secret) k 0 * get_or hint (k * v + j) 0))
            neg_length er
          ∙ sum_range_ext L _ _ (λ k lk.
            ap (λ x. x * get_or hint (k * w + j) 0)
              (get_or-map neg32 secret k (omega (arith, es))))))

  -- Without a cached `c` the residual is the response less the secret's part of it.
  pub cold_cell :
      (j : ℕ)
      → j < w
      → u32 (
          get_or (matvec_accumulate x86_64 resp hint (map neg32 secret)) j 0
          + hint_part secret hint L w j)
        ≡ u32 (get_or resp j 0)
  cold_cell j hj =
      let cancels =
        negated_sum L (λ k. get_or secret k 0) (λ k. get_or hint (k * w + j) 0) (λ k _. words k) in
      omega (arith, cold-Adds.cell j (omega (arith, er)), cancels)

-- The query's part of the answer, for the slot of a secret and a noise.
module _ (a secret e db : List ℕ) (n L w row step : ℕ) (p : FrodoServerParams) (en : p.n_rows ≡ n)
    (eL : p.params.lwe_dim ≡ L) (ee : length e ≡ n) (lt : row < n) where
  abbrev pub query : List ℕ
  query = let b = (sample_slot p a secret e).b in set b row (add32 (get_or b row 0) step)

  query-Adds : Adds e query (λ i. masked a secret L i + (if i == row then step else 0))
  query-Adds =
      let slot = sample_slot-Adds p a secret e in
      Adds-cong e _ _ _
        (Adds-trans e _ _ _ _ slot (set-Adds _ row _ step (omega arith) (λ _. omega arith)))
        (λ i li. ground (arith, en, ee, ap (λ x. masked a secret x i) eL))

  query_cell : (i : ℕ) → i < n → u32 (get_or query i 0) ≡ u32 (asked a secret e db n L w row step i)
  query_cell i hi = query-Adds.cell i (omega (arith, ee)) ∙ ground arith

  hint_part_swap :
      (j : ℕ)
      → j < w
      → u32 (hint_part secret (compute_hint a db n L w) L w j)
        ≡ u32 (sum_range n (λ i. masked a secret L i * get_or db (i * w + j) 0))
  hint_part_swap j hj =
      sum_range_cong L _ _
        (λ k lk. u32_mul (get_or secret k 0) _ _ _ refl (compute_hint_cell a db n L w k j lk hj))
      ∙ ap u32 (secret_swap a secret db n L w j)

  query_shape : length db ≡ n * w → length db ≡ length query * length {A = ℕ} (replicate w 0)
  query_shape ed = ed ∙ ap₂ ◌*◌ (sym (query-Adds.length_eq ∙ ee)) (sym (length-zeros w))

  pub answer_length :
      (x86_64 : Bool) → length db ≡ n * w → length (server_answer x86_64 db w query) ≡ w
  unfolding server_answer
  answer_length x86_64 ed =
      (matvec_accumulate-Adds x86_64 (replicate w 0) db query (query_shape ed)).length_eq
      ∙ length-zeros w

  pub answer_cell :
      (x86_64 : Bool) (j : ℕ)
      → length db ≡ n * w
      → j < w
      → u32 (get_or (server_answer x86_64 db w query) j 0)
        ≡ u32 (
            noise e db n w j
            + hint_part secret (compute_hint a db n L w) L w j
            + step * get_or db (row * w + j) 0)
  unfolding server_answer
  answer_cell x86_64 j ed hj =
      let zeros : List ℕ = replicate w 0 in
      let rows : length query ≡ n = query-Adds.length_eq ∙ ee in
      let sums : product (length zeros) db query j
          ≡ sum_range n (λ i. get_or query i 0 * get_or db (i * w + j) 0) =
        ap₂ (λ r v. sum_range r (λ i. get_or query i 0 * get_or db (i * v + j) 0)) rows
          (length-zeros w) in
      let terms =
        sum_range_cong n _ _
          (λ i li. u32_mul _ _ (get_or db (i * w + j) 0) _ (query_cell i li) refl) in
      omega (
        arith,
        zeros_cell w j,
        sums,
        terms,
        hint_part_swap j hj,
        (matvec_accumulate-Adds x86_64 zeros db query (query_shape ed)).cell j
            (omega (arith, length-zeros w)),
        asked_sum a secret e db n L w row step j lt,
      )
