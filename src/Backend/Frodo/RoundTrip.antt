-- ===== src/Backend/Frodo/RoundTrip.antt =====
-- A FrodoPIR client decodes the row that it asked for, with or without a cached `c`.
use native.Mathlib.Nat.{mul_comm}
use ikpir.Bits.{two_pow_mono}
use ikpir.Prelude.{
  ℕ, ◌+◌, ◌-◌, ◌*◌, ◌^◌, ◌≤◌, ◌<◌, ◌≡◌, sym, ap, ◌∙◌, ◌⊎◌, Bool, none, List, map, arith, length,
  get_or, set, u32, add32, refl, ap₂, get_or_ext, some,
}
use ikpir.Backend.Accumulate.{slice, IsWords, length-slice}
use ikpir.Backend.Matvec.Blocked.{matvec_accumulate-Adds}
use ikpir.Backend.Frodo.{
  round_p_to_q, round_q_to_p, PreparedSlot, FrodoClientState, compute_hint, sample_slot,
  server_answer, neg32, residual, take_slot, client_query, client_decode,
}
use ikpir.Backend.Frodo.Patch.{slice_row, length-zeros, compute_hint-Adds}
use ikpir.Backend.Frodo.Decode.{noise, length-map, round_q_to_p_lem, get_or-map}
use ikpir.Backend.Frodo.Answer.{hint_part, cold_cell, answer_cell, answer_length, query}

-- Below half a step on either side of zero, modulo 2 ^ 32.
abbrev pub IsSmall : ℕ → ℕ → Type 0
IsSmall pb t = (u32 t < 2 ^ (31 - pb)) ⊎ (2 ^ 32 - 2 ^ (31 - pb) ≤ u32 t)

step_word : (pb : ℕ) → 1 ≤ pb → round_p_to_q 1 pb ≡ 2 ^ (32 - pb)
unfolding round_p_to_q
step_word pb h = omega (arith, two_pow_mono (32 - pb) 31 (omega (arith, h)))

length-residual :
    (x86_64 : Bool) (st : FrodoClientState) (slot : PreparedSlot) (resp : List ℕ)
    → slot.c ≡ none
    → length st.hint ≡ length slot.secret * length resp
    → length (residual x86_64 st slot resp) ≡ length resp
unfolding residual
length-residual x86_64 st slot resp ec e = rw ec (
    (matvec_accumulate-Adds x86_64 resp st.hint (map neg32 slot.secret)
      (e ∙ ap (λ x. x * length resp) (sym (length-map neg32 slot.secret)))).length_eq)

module _ (x86_64 : Bool) (st : FrodoClientState) (a secret e db : List ℕ) (row : ℕ) where
  abbrev n : ℕ
  n = st.params.n_rows

  abbrev L : ℕ
  L = st.params.params.lwe_dim

  abbrev w : ℕ
  w = st.params.row_width

  abbrev pb : ℕ
  pb = st.params.params.plaintext_bits

  abbrev slot : PreparedSlot
  slot = sample_slot st.params a secret e

  none_cached : slot.c ≡ none
  unfolding sample_slot
  none_cached = refl

  slot_secret : length slot.secret ≡ length secret
  unfolding sample_slot
  slot_secret = refl

  cold_residual :
      (resp : List ℕ) (j : ℕ)
      → IsWords secret
      → length secret ≡ L
      → length st.hint ≡ L * w
      → length resp ≡ w
      → j < w
      → u32 (get_or (residual x86_64 st slot resp) j 0 + hint_part secret st.hint L w j)
        ≡ u32 (get_or resp j 0)
  unfolding residual sample_slot
  cold_residual resp j words es eh er hj =
      cold_cell x86_64 resp st.hint secret L w words es eh er j hj

  module _ (ehint : st.hint ≡ compute_hint a db n L w) (words : IsWords secret)
      (es : length secret ≡ L) (ee : length e ≡ n) (ed : length db ≡ n * w) (lt : row < n)
      (h1 : 1 ≤ pb) (h31 : pb ≤ 31) (plain : (c : ℕ) → get_or db c 0 < 2 ^ pb)
      (small : (j : ℕ) → j < w → IsSmall pb (noise e db n w j)) where
    abbrev response : List ℕ
    response =
        server_answer x86_64 db w (set slot.b row (add32 (get_or slot.b row 0) (round_p_to_q 1 pb)))

    response-length : length response ≡ w
    response-length =
        answer_length a secret e db n L w row (round_p_to_q 1 pb) st.params refl refl ee lt x86_64
          ed

    hint_length : length st.hint ≡ L * w
    hint_length = ap length ehint ∙ (compute_hint-Adds a db n L w).length_eq ∙ length-zeros (L * w)

    decoded_length : length (residual x86_64 st slot response) ≡ w
    decoded_length =
        length-residual x86_64 st slot response none_cached
          (hint_length ∙ ap₂ ◌*◌ (sym (slot_secret ∙ es)) (sym response-length))
        ∙ response-length

    residual_cell :
        (j : ℕ)
        → j < w
        → u32 (get_or (residual x86_64 st slot response) j 0)
          ≡ u32 (noise e db n w j + get_or db (row * w + j) 0 * 2 ^ (32 - pb))
    residual_cell j hj =
        let D = get_or db (row * w + j) 0 in
        let scaled : round_p_to_q 1 pb * D ≡ D * 2 ^ (32 - pb) =
          ap (λ x. x * D) (step_word pb h1) ∙ mul_comm (2 ^ (32 - pb)) D in
        omega (
          arith,
          scaled,
          cold_residual response j words es hint_length response-length hj,
          answer_cell a secret e db n L w row (round_p_to_q 1 pb) st.params refl refl ee lt x86_64 j
              ed hj,
          ap (λ h. hint_part secret h L w j) ehint,
        )

    pub decoded_row :
        map (λ y. round_q_to_p y pb) (residual x86_64 st slot response) ≡ slice db (row * w) w
    decoded_row =
        get_or_ext 0 _ _ (length-map _ _ ∙ decoded_length ∙ sym (length-slice db n row w ed lt))
          λ j lj.
            let hj : j < w = omega (
              arith,
              length-map (λ y. round_q_to_p y pb) (residual x86_64 st slot response),
              decoded_length,
            ) in
            get_or-map _ (residual x86_64 st slot response) j (omega (arith, decoded_length))
            ∙ round_q_to_p_lem _ (noise e db n w j) (get_or db (row * w + j) 0) pb h1 h31
                (plain (row * w + j)) (small j hj) (residual_cell j hj)
            ∙ sym (slice_row db row w j hj)

-- A client whose hint is that of the database, with a query slot of the secret and the noise `e`,
-- decodes exactly the row that it asked for, when every cell of the database is a plaintext and
-- the noise of each column is below half a step.
pub client_decode-server_answer :
    (x86_64 : Bool) (st : FrodoClientState) (fresh : PreparedSlot) (a secret e db : List ℕ)
    (row : ℕ)
    → (take_slot st fresh).0 ≡ sample_slot st.params a secret e
    → st.hint ≡ compute_hint a db st.params.n_rows st.params.params.lwe_dim st.params.row_width
    → IsWords secret
    → length secret ≡ st.params.params.lwe_dim
    → length e ≡ st.params.n_rows
    → length db ≡ st.params.n_rows * st.params.row_width
    → row < st.params.n_rows
    → 1 ≤ st.params.params.plaintext_bits
    → st.params.params.plaintext_bits ≤ 31
    → ((c : ℕ) → get_or db c 0 < 2 ^ st.params.params.plaintext_bits)
    → ((j : ℕ)
        → j < st.params.row_width
        → IsSmall st.params.params.plaintext_bits
            (noise e db st.params.n_rows st.params.row_width j))
    → let (st', query) = client_query st fresh row in
      client_decode x86_64 st' (server_answer x86_64 db st.params.row_width query)
      ≡ some (slice db (row * st.params.row_width) st.params.row_width)
unfolding client_query client_decode residual
client_decode-server_answer x86_64 st fresh a secret e db row es h words el ee ed lt h1 h31 plain
      small =
    rw es (ap some (decoded_row x86_64 st a secret e db row h words el ee ed lt h1 h31 plain small))
