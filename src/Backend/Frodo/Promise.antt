-- ===== src/Backend/Frodo/Promise.antt =====
-- The FrodoPIR back end, as an implementation of what the server asks.
use ikpir.Prelude.{ℕ, ◌*◌, ◌≡◌, refl, ap₂, Bool, some, List, >>=-some, some-injective, arith}
use ikpir.Backend.Deltas.{SegmentRowDeltas, HintPatchMode, AreWithin}
use ikpir.Backend.Interface.{IndexPirBackend, ServerLaws, IsUpdated}
use ikpir.Backend.Frodo.{FrodoParams, FrodoServerParams, frodo_params, server_answer, compute_hint}
use ikpir.Backend.Frodo.Patch.{client_patch_state}
use ikpir.Backend.Frodo.Setup.{
  frodo_pir_backend, frodo_laws, ServesFrodo, client_setup, server_setup, expand_hint_material,
  server_patch_hint, sample_a, stream, length-stream, client_patch_state-ServesFrodo,
}

params_of :
    (lwe_dim plaintext_bits seed : ℕ) (p : FrodoParams)
    → frodo_params lwe_dim plaintext_bits seed ≡ some p
    → (lwe_dim ≡ p.lwe_dim) × (seed ≡ p.seed)
unfolding frodo_params
params_of lwe_dim plaintext_bits seed p h = ground (arith, h)

module _ (next_u32 : ℕ → ℕ → ℕ) (x86_64 : Bool) where
  -- The configuration is the LWE dimension, and what a setup draws is the seed.
  abbrev pub frodo_index_backend : IndexPirBackend (frodo_pir_backend next_u32)
  frodo_index_backend = record {
    Config = ℕ;
    Query = List ℕ;
    Response = List ℕ;
    server_setup = λ draw config. server_setup next_u32 draw config;
    server_answer = λ p db n_rows row_width query. server_answer x86_64 db row_width query;
  }

  module _ (n w : ℕ) where
    -- The hint of a client that is set up with it.
    abbrev pub IsFrodoHint : FrodoServerParams → List ℕ → List ℕ → Type 0
    IsFrodoHint p h db = ServesFrodo n w (client_setup next_u32 p h) db

    pub set_up-IsFrodoHint :
        (draw config : ℕ) (db : List ℕ) (plaintext_bits : ℕ)
        (made : FrodoServerParams × List ℕ × List ℕ)
        → server_setup next_u32 draw config db n w plaintext_bits ≡ some made
        → IsFrodoHint made.0 made.2 db × (made.1 ≡ expand_hint_material next_u32 made.0)
    unfolding server_setup client_setup expand_hint_material sample_a frodo_params
    set_up-IsFrodoHint draw config db plaintext_bits made h =
        >>=-some (frodo_params config plaintext_bits draw) _ h (λ p made_params h1.
          let e = params_of config plaintext_bits draw p made_params in
          rw (← some-injective h1) (
            record {
              width = refl;
              rows = length-stream (next_u32 p.seed) 0 (n * p.lwe_dim);
              hint_of = ap₂ (λ d m. compute_hint (stream (next_u32 m) 0 (n * d)) db n d w) e.0 e.1;
              prepared = tt;
              in_flight = λ slot none_yet. absurd cc;
            },
            ap₂ (λ d m. stream (next_u32 m) 0 (n * d)) e.0 e.1,
          ))

    pub patched-IsFrodoHint :
        (p : FrodoServerParams) (h db db' : List ℕ) (deltas : SegmentRowDeltas)
        (mode : HintPatchMode)
        → IsFrodoHint p h db
        → AreWithin n w deltas
        → IsUpdated n w db deltas db'
        → IsFrodoHint p
            (server_patch_hint next_u32 p (expand_hint_material next_u32 p) h deltas mode)
            db'
    unfolding server_patch_hint client_setup client_patch_state
    patched-IsFrodoHint p h db db' deltas mode is within u =
        let s =
          client_patch_state-ServesFrodo n w (client_setup next_u32 p h) db db' deltas mode is
            within u in
        record {
          width = s.width;
          rows = s.rows;
          hint_of = s.hint_of;
          prepared = tt;
          in_flight = λ slot none_yet. absurd cc;
        }

    abbrev pub frodo_server_laws :
        ServerLaws (frodo_pir_backend next_u32) frodo_index_backend n w (frodo_laws next_u32 n w)
    frodo_server_laws = record {
      IsHintOf = IsFrodoHint;
      set_up = set_up-IsFrodoHint;
      patched = patched-IsFrodoHint;
      unchanged = λ p h db db' is u.
          (frodo_laws next_u32 n w).unchanged (client_setup next_u32 p h) db db' is u;
      served = λ p h db is. is;
    }
