-- ===== src/Backend/Frodo/Cached.antt =====
-- The cached part `c = sᵀ · H` of a slot: decoding with it, and patching it along with the hint.
use ikpir.Prelude.{
  ℕ, ◌+◌, ◌-◌, ◌*◌, ◌^◌, ◌≡◌, refl, sym, ap, ap₂, ◌∙◌, Bool, some, List, map, arith, ◌==◌,
  if◌then◌else◌, length, get_or, replicate, u32, sum_range, sum_range_pick, inl, inr, Option-cases,
}
use ikpir.Backend.Accumulate.{IsWords, Adds, Adds-cong, Adds-for_range, set-Adds, Adds-unique}
use ikpir.Backend.Matvec.{matvec_accumulate}
use ikpir.Backend.Matvec.Blocked.{matvec_accumulate-Adds}
use ikpir.Backend.Frodo.{
  PreparedSlot, FrodoClientState, compute_c, subtract_c, neg32, residual, client_decode, fill_c,
  client_precompute_decodes, round_q_to_p,
}
use ikpir.Backend.Frodo.Patch.{length-zeros, zeros_cell, zeros-IsWords}
use ikpir.Backend.Frodo.Decode.{negated_sum}
use ikpir.Backend.Frodo.Answer.{hint_part, cold-Adds}

pub compute_c-Adds :
    (x86_64 : Bool) (secret hint : List ℕ) (L w : ℕ)
    → length secret ≡ L
    → length hint ≡ L * w
    → Adds (replicate w 0) (compute_c x86_64 secret hint w) (hint_part secret hint L w)
unfolding compute_c
compute_c-Adds x86_64 secret hint L w es eh =
    let zeros : List ℕ = replicate w 0 in
    Adds-cong zeros _ _ _
      (matvec_accumulate-Adds x86_64 zeros hint secret
        (eh ∙ ap₂ ◌*◌ (sym es) (sym (length-zeros w))))
      (λ j lt. ap u32 (
        ap₂ (λ n v. sum_range n (λ k. get_or secret k 0 * get_or hint (k * v + j) 0)) es
          (length-zeros w)))

subtract_c-Adds :
    (w : ℕ) (c resp : List ℕ)
    → IsWords c
    → Adds resp
        (subtract_c w c resp)
        (λ j. sum_range w (λ i. if j == i then 2 ^ 32 - get_or c i 0 else 0))
unfolding subtract_c
subtract_c-Adds w c resp words =
    Adds-for_range w _ _ resp
      λ j r _ _. set-Adds r j _ (2 ^ 32 - get_or c j 0) (omega (arith, words j)) (λ _. omega arith)

-- A residual with the cached `c` is the residual without it.
subtract_c-cold :
    (x86_64 : Bool) (secret hint resp : List ℕ) (L w : ℕ)
    → IsWords secret
    → IsWords resp
    → length secret ≡ L
    → length hint ≡ L * w
    → length resp ≡ w
    → subtract_c w (compute_c x86_64 secret hint w) resp
      ≡ matvec_accumulate x86_64 resp hint (map neg32 secret)
subtract_c-cold x86_64 secret hint resp L w ws wr es eh er =
    let c = compute_c-Adds x86_64 secret hint L w es eh in
    let c_words : IsWords (compute_c x86_64 secret hint w) = c.words (zeros-IsWords w) in
    Adds-unique resp _ _ _ _ wr (subtract_c-Adds w (compute_c x86_64 secret hint w) resp c_words)
      (cold-Adds x86_64 resp hint secret L w ws es eh er)
      (λ j lt. omega (
        arith,
        c_words j,
        zeros_cell w j,
        c.cell j (omega (arith, er, length-zeros w)),
        sum_range_pick w j (λ i. 2 ^ 32 - get_or (compute_c x86_64 secret hint w) i 0)
            (omega (arith, er)),
        negated_sum L (λ k. get_or secret k 0) (λ k. get_or hint (k * w + j) 0) (λ k _. ws k),
      ))

residual-fill_c :
    (x86_64 : Bool) (st : FrodoClientState) (slot : PreparedSlot) (resp : List ℕ)
    → IsWords resp
    → length resp ≡ st.params.row_width
    → length st.hint ≡ st.params.params.lwe_dim * st.params.row_width
    → IsWords slot.secret
    → length slot.secret ≡ st.params.params.lwe_dim
    → residual x86_64 st (fill_c x86_64 st slot) resp ≡ residual x86_64 st slot resp
unfolding residual fill_c
residual-fill_c x86_64 st slot resp wr er eh ws es = elim (Option-cases slot.c) [
  | inl e ↦ rw e (
      subtract_c-cold x86_64 slot.secret st.hint resp st.params.params.lwe_dim st.params.row_width
        ws wr es eh er)
  | inr (c, e) ↦ rw e refl
]

-- Precomputing the decoding parts changes no decoded row: for a response of machine words as wide
-- as a row, and a slot in flight whose secret has the length and the words of one.
pub client_precompute_decodes-client_decode :
    (x86_64 : Bool) (st : FrodoClientState) (resp : List ℕ)
    → IsWords resp
    → length resp ≡ st.params.row_width
    → length st.hint ≡ st.params.params.lwe_dim * st.params.row_width
    → ((slot : PreparedSlot)
        → st.in_flight ≡ some slot
        → IsWords slot.secret × (length slot.secret ≡ st.params.params.lwe_dim))
    → client_decode x86_64 (client_precompute_decodes x86_64 st) resp ≡ client_decode x86_64 st resp
unfolding client_precompute_decodes client_decode residual
client_precompute_decodes-client_decode x86_64 st resp wr er eh ok =
    elim (Option-cases st.in_flight) [
      | inl e ↦ rw e refl
      | inr (slot, e) ↦ rw e (
          ap (λ r. some (map (λ y. round_q_to_p y st.params.params.plaintext_bits) r))
            (residual-fill_c x86_64 st slot resp wr er eh (ok slot e).0 (ok slot e).1))
    ]
