-- ===== src/Backend/Frodo.antt =====
-- The FrodoPIR back end of crates/ikpir-common/src/backend/frodo: the matrix `A`, the hint
-- `H = Aᵀ · D`, queries, answers, decoding, and the patches of the hint and of prepared slots.
pub mod Patch
pub mod Modes
pub mod Rewind
pub mod Decode
pub mod Answer
pub mod RoundTrip
pub mod Cached
pub mod PatchCached
pub mod Setup
pub mod Promise
use ikpir.Prelude.{
  ℕ, ◌+◌, ◌-◌, ◌*◌, ◌/◌, ◌^◌, ◌<◌, Bool, ◌&&◌, Option, none, some, List, [], ◌∷◌, map, ltb, leb,
  get_or, set, take, replicate, u32, add32, sub32, mul32, ◌>>>◌, ◌>>◌, assert, for_range, ◌++◌,
}
use ikpir.Backend.Accumulate.{slice}
use ikpir.Backend.Matvec.{matvec_accumulate}
use ikpir.Backend.Matrix.{for_cells}

-- Δ-scaling: `x << (32 - plaintext_bits)` and the rounding back.
unfoldable pub round_p_to_q : ℕ → ℕ → ℕ
round_p_to_q x plaintext_bits = u32 (x * 2 ^ (32 - plaintext_bits))

unfoldable pub round_q_to_p : ℕ → ℕ → ℕ
round_q_to_p y plaintext_bits =
    let shift = 32 - plaintext_bits in add32 y (2 ^ (shift - 1)) >>> shift

pub record FrodoParams : Type 0 where
  pub lwe_dim : ℕ
  pub plaintext_bits : ℕ
  pub seed : ℕ

-- `FrodoParams::new` panics on parameters out of range.
unfoldable pub frodo_params : ℕ → ℕ → ℕ → Option FrodoParams
frodo_params lwe_dim plaintext_bits seed = do
  assert (leb 1 plaintext_bits && leb plaintext_bits 31)
  assert (ltb 0 lwe_dim)
  some (record { lwe_dim = lwe_dim; plaintext_bits = plaintext_bits; seed = seed })

pub record FrodoServerParams : Type 0 where
  pub params : FrodoParams
  pub n_rows : ℕ
  pub row_width : ℕ

pub record PreparedSlot : Type 0 where
  pub secret : List ℕ
  pub b : List ℕ
  pub c : Option (List ℕ)

pub record FrodoClientState : Type 0 where
  pub params : FrodoServerParams
  pub hint_material : List ℕ
  pub hint : List ℕ
  pub prepared : List PreparedSlot
  pub in_flight : Option PreparedSlot

-- `H[k, j] += A[i, k] · D[i, j]`, row by row of the database.
unfoldable pub compute_hint : List ℕ → List ℕ → ℕ → ℕ → ℕ → List ℕ
compute_hint a db n_rows lwe_dim row_width =
    for_range n_rows
      (λ i.
        let a_row = slice a (i * lwe_dim) lwe_dim in
        let d_row = slice db (i * row_width) row_width in
        for_cells lwe_dim row_width (λ k j. mul32 (get_or a_row k 0) (get_or d_row j 0)))
      (replicate (lwe_dim * row_width) 0)

-- The client's slot for the sampled secret and noise: `b = A · s + e`.
unfoldable pub sample_slot : FrodoServerParams → List ℕ → List ℕ → List ℕ → PreparedSlot
sample_slot params a secret e =
    let lwe_dim = params.params.lwe_dim in
    record {
      secret = secret;
      b =
          for_range params.n_rows
            (λ i b. set b i (
              for_range lwe_dim
                (λ k acc. add32 acc (mul32 (get_or a (i * lwe_dim + k) 0) (get_or secret k 0)))
                (get_or b i 0)))
            e;
      c = none;
    }

unfoldable pub compute_c : Bool → List ℕ → List ℕ → ℕ → List ℕ
compute_c x86_64 secret hint row_width =
    matvec_accumulate x86_64 (replicate row_width 0) hint secret

-- The query for a row, with the slot that the client took from its queue, or sampled.
unfoldable pub take_slot : FrodoClientState → PreparedSlot → PreparedSlot × List PreparedSlot
take_slot state fresh = elim state.prepared [ [] ↦ (fresh, []) | s ∷ rest ↦ (s, rest) ]

unfoldable pub client_query : FrodoClientState → PreparedSlot → ℕ → FrodoClientState × List ℕ
client_query state fresh row =
    let (slot, rest) = take_slot state fresh in
    let delta = round_p_to_q 1 state.params.params.plaintext_bits in
    (
      record state { prepared = rest; in_flight = some slot },
      set slot.b row (add32 (get_or slot.b row 0) delta),
    )

unfoldable pub server_answer : Bool → List ℕ → ℕ → List ℕ → List ℕ
server_answer x86_64 db row_width query = matvec_accumulate x86_64 (replicate row_width 0) db query

-- `residual[j] = residual[j].wrapping_sub(c[j])`
unfoldable pub subtract_c : ℕ → List ℕ → List ℕ → List ℕ
subtract_c row_width c residual =
    for_range row_width (λ j r. set r j (sub32 (get_or r j 0) (get_or c j 0))) residual

-- `s.wrapping_neg()`
abbrev pub neg32 : ℕ → ℕ
neg32 s = sub32 0 s

unfoldable pub residual : Bool → FrodoClientState → PreparedSlot → List ℕ → List ℕ
residual x86_64 state slot response = elim slot.c [
  | some c ↦ subtract_c state.params.row_width c response
  | none ↦ matvec_accumulate x86_64 response state.hint (map neg32 slot.secret)
]

-- Decoding panics when no query is in flight.
unfoldable pub client_decode : Bool → FrodoClientState → List ℕ → Option (List ℕ)
client_decode x86_64 state response = elim state.in_flight [
  | none ↦ none
  | some slot ↦ some (
      map (λ y. round_q_to_p y state.params.params.plaintext_bits)
        (residual x86_64 state slot response))
]

-- The slots sampled by `client_precompute_queries` join the back of the queue.
unfoldable pub client_precompute_queries : FrodoClientState → List PreparedSlot → FrodoClientState
client_precompute_queries state sampled = record state { prepared = state.prepared ++ sampled }

unfoldable pub fill_c : Bool → FrodoClientState → PreparedSlot → PreparedSlot
fill_c x86_64 state slot = elim slot.c [
  | some _ ↦ slot
  | none ↦ record slot { c = some (compute_c x86_64 slot.secret state.hint state.params.row_width) }
]

unfoldable pub client_precompute_decodes : Bool → FrodoClientState → FrodoClientState
client_precompute_decodes x86_64 state = record state {
  prepared = map (fill_c x86_64 state) state.prepared;
  in_flight = elim state.in_flight [ none ↦ none | some slot ↦ some (fill_c x86_64 state slot) ];
}
