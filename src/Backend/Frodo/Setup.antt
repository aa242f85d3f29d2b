-- ===== src/Backend/Frodo/Setup.antt =====
-- Setting up the FrodoPIR back end (frodo/backend.rs, frodo/sampler.rs): the public matrix from its
-- seed, the server's hint, the client's state; and the back end as the clients and the server see
-- it. `next_u32 seed i` is the `i`-th word of the third-party ChaCha20 stream of a seed.
use ikpir.Prelude.{
  Bool, map, sym, some-injective, ◌>>=◌, ℕ, zero, suc, ◌*◌, ◌≡◌, refl, ap, ◌∙◌, Option, none, some,
  List, [], ◌∷◌, length,
}
use ikpir.Backend.Deltas.{
  SegmentRowDeltas, HintPatchMode, row_level, entry_level, AreWithin, no_row,
}
use ikpir.Backend.Interface.{IncrementalPirBackend, HintLaws, IsUpdated}
use ikpir.Backend.Accumulate.{IsWords}
use ikpir.Backend.Frodo.{
  frodo_params, FrodoServerParams, FrodoClientState, PreparedSlot, compute_hint, compute_c,
}
use ikpir.Backend.Frodo.PatchCached.{patch_c-compute_c}
use ikpir.Backend.Frodo.Patch.{
  patch_c, patch_slot_c, apply_patch, apply_patch_row_level, client_patch_state,
  apply_patch_row_level-compute_hint, compute_hint-Adds, zeros-IsWords, length-zeros,
}
use ikpir.Backend.Frodo.Modes.{apply_patch_modes}

-- `count` words of the stream from position `at` on.
abbrev pub stream : (ℕ → ℕ) → ℕ → ℕ → List ℕ
stream next at zero = []
stream next at (suc count) = next at ∷ stream next (suc at) count

pub length-stream : (next : ℕ → ℕ) (at count : ℕ) → length (stream next at count) ≡ count
length-stream next at zero = refl
length-stream next at (suc count) = ap suc (length-stream next (suc at) count)

module _ (next_u32 : ℕ → ℕ → ℕ) where
  -- Two `u32` dimensions do not overflow a 64-bit `usize`, so the checked product never panics.
  unfoldable pub sample_a : ℕ → ℕ → ℕ → List ℕ
  sample_a seed n_rows lwe_dim = stream (next_u32 seed) 0 (n_rows * lwe_dim)

  unfoldable pub expand_hint_material : FrodoServerParams → List ℕ
  expand_hint_material p = sample_a p.params.seed p.n_rows p.params.lwe_dim

  -- `seed` is the one that the server drew.
  unfoldable pub server_setup :
      ℕ → ℕ → List ℕ → ℕ → ℕ → ℕ → Option (FrodoServerParams × List ℕ × List ℕ)
  server_setup seed lwe_dim db n_rows row_width plaintext_bits = do
    params ← frodo_params lwe_dim plaintext_bits seed
    let a = sample_a seed n_rows lwe_dim
    some (
      record { params = params; n_rows = n_rows; row_width = row_width },
      a,
      compute_hint a db n_rows lwe_dim row_width,
    )

  unfoldable pub client_setup : FrodoServerParams → List ℕ → FrodoClientState
  client_setup p hint = record {
    params = p;
    hint_material = expand_hint_material p;
    hint = hint;
    prepared = [];
    in_flight = none;
  }

  unfoldable pub server_patch_hint :
      FrodoServerParams → List ℕ → List ℕ → SegmentRowDeltas → HintPatchMode → List ℕ
  server_patch_hint p a hint row_deltas mode =
      apply_patch a p.params.lwe_dim p.row_width hint row_deltas mode

  abbrev pub frodo_pir_backend : IncrementalPirBackend
  frodo_pir_backend = record {
    ServerParams = FrodoServerParams;
    HintMaterial = List ℕ;
    Hint = List ℕ;
    ClientState = FrodoClientState;
    client_setup = client_setup;
    expand_hint_material = expand_hint_material;
    server_patch_hint = server_patch_hint;
    client_patch_state = client_patch_state;
  }

-- A slot whose part `c` is cached has the `c` of the hint, which both kernels compute alike.
abbrev pub IsCached : ℕ → ℕ → List ℕ → PreparedSlot → Type 0
IsCached L w hint slot =
    (c : List ℕ)
    → slot.c ≡ some c
    → (length slot.secret ≡ L) × ((x86_64 : Bool) → c ≡ compute_c x86_64 slot.secret hint w)

abbrev pub AreCached : ℕ → ℕ → List ℕ → List PreparedSlot → Type 0
AreCached L w hint [] = Unit
AreCached L w hint (slot ∷ slots) = IsCached L w hint slot × AreCached L w hint slots

-- The state of a client for an `n × w` database: its matrix has a row for each database row, its
-- hint is that of the database, and so is what the prepared slots and the one in flight cache.
pub record ServesFrodo (n w : ℕ) (s : FrodoClientState) (db : List ℕ) : Type 0 where
  pub width : s.params.row_width ≡ w
  pub rows : length s.hint_material ≡ n * s.params.params.lwe_dim
  pub hint_of : s.hint ≡ compute_hint s.hint_material db n s.params.params.lwe_dim w
  pub prepared : AreCached s.params.params.lwe_dim w s.hint s.prepared
  pub in_flight :
      (slot : PreparedSlot)
      → s.in_flight ≡ some slot
      → IsCached s.params.params.lwe_dim w s.hint slot

patched_hint :
    (a db db' : List ℕ) (n L w : ℕ) (deltas : SegmentRowDeltas) (mode : HintPatchMode)
    → length a ≡ n * L
    → IsUpdated n w db deltas db'
    → AreWithin n w deltas
    → apply_patch a L w (compute_hint a db n L w) deltas mode ≡ compute_hint a db' n L w
unfolding apply_patch
patched_hint a db db' n L w deltas row_level ea u within =
    apply_patch_row_level-compute_hint a db db' n L w deltas u within
patched_hint a db db' n L w deltas entry_level ea u within =
    let hint = compute_hint-Adds a db n L w in
    apply_patch_modes a (compute_hint a db n L w) n L w deltas (hint.words (zeros-IsWords (L * w)))
      ea (hint.length_eq ∙ length-zeros (L * w)) within
    ∙ apply_patch_row_level-compute_hint a db db' n L w deltas u within

-- A patch without deltas is none.
pub no_patch :
    (a db db' : List ℕ) (n L w : ℕ)
    → IsUpdated n w db [] db'
    → compute_hint a db n L w ≡ compute_hint a db' n L w
unfolding apply_patch_row_level
no_patch a db db' n L w u = apply_patch_row_level-compute_hint a db db' n L w [] u no_row

module _ (a hint : List ℕ) (n L w : ℕ) (deltas : SegmentRowDeltas) (mode : HintPatchMode)
    (words : IsWords hint) (ea : length a ≡ n * L) (eh : length hint ≡ L * w)
    (within : AreWithin n w deltas) where
  patched_part :
      (secret b : List ℕ) (cached : Option (List ℕ))
      → IsCached L w hint (record { secret = secret; b = b; c = cached })
      → IsCached L w
          (apply_patch a L w hint deltas mode)
          (patch_slot_c a L deltas (record { secret = secret; b = b; c = cached }))
  unfolding patch_slot_c
  patched_part secret b none h c e = absurd cc
  patched_part secret b (some old) h c e =
      let (len, same) = h old refl in
      (
        len,
        λ x86_64.
            sym (some-injective e)
            ∙ ap (patch_c a L secret deltas) (same x86_64)
            ∙ patch_c-compute_c x86_64 a secret hint n L w deltas mode words len ea eh within,
      )

  patch_slot_c-IsCached :
      (slot : PreparedSlot)
      → IsCached L w hint slot
      → IsCached L w (apply_patch a L w hint deltas mode) (patch_slot_c a L deltas slot)
  patch_slot_c-IsCached slot h = patched_part slot.secret slot.b slot.c h

  patched-AreCached :
      (slots : List PreparedSlot)
      → AreCached L w hint slots
      → AreCached L w (apply_patch a L w hint deltas mode) (map (patch_slot_c a L deltas) slots)
  patched-AreCached [] h = tt
  patched-AreCached (slot ∷ slots) h = (patch_slot_c-IsCached slot h.0, patched-AreCached slots h.1)

  patched_in_flight :
      (flying : Option PreparedSlot)
      → ((slot : PreparedSlot) → flying ≡ some slot → IsCached L w hint slot)
      → (slot : PreparedSlot)
      → elim flying [ none ↦ none | some x ↦ some (patch_slot_c a L deltas x) ] ≡ some slot
      → IsCached L w (apply_patch a L w hint deltas mode) slot
  patched_in_flight none h slot e = absurd cc
  patched_in_flight (some x) h slot e = rw (← some-injective e) (patch_slot_c-IsCached x (h x refl))

-- In either mode the patch of a client's state that serves a database, with deltas inside the
-- segment, leaves a state that serves the updated database, with its slots: what a slot caches is
-- patched along with the hint.
pub client_patch_state-ServesFrodo :
    (n w : ℕ) (s : FrodoClientState) (db db' : List ℕ) (deltas : SegmentRowDeltas)
    (mode : HintPatchMode)
    → ServesFrodo n w s db
    → AreWithin n w deltas
    → IsUpdated n w db deltas db'
    → ServesFrodo n w (client_patch_state s deltas mode) db'
unfolding client_patch_state
client_patch_state-ServesFrodo n w s db db' deltas mode h within u =
    let L = s.params.params.lwe_dim in
    let a = s.hint_material in
    let made = compute_hint-Adds a db n L w in
    let words : IsWords s.hint = rw h.hint_of (made.words (zeros-IsWords (L * w))) in
    let size : length s.hint ≡ L * w =
      ap length h.hint_of ∙ made.length_eq ∙ length-zeros (L * w) in
    let at : apply_patch a L s.params.row_width s.hint deltas mode
        ≡ apply_patch a L w s.hint deltas mode =
      ap (λ v. apply_patch a L v s.hint deltas mode) h.width in
    record {
      width = h.width;
      rows = h.rows;
      hint_of =
          at
          ∙ ap (λ x. apply_patch a L w x deltas mode) h.hint_of
          ∙ patched_hint a db db' n L w deltas mode h.rows u within;
      prepared = rw at (
          patched-AreCached a s.hint n L w deltas mode words h.rows size within s.prepared
            h.prepared);
      in_flight = λ slot e. rw at (
          patched_in_flight a s.hint n L w deltas mode words h.rows size within s.in_flight
            h.in_flight slot e);
    }

-- The FrodoPIR back end, as an implementation of what the clients ask.
abbrev pub frodo_laws : (next_u32 : ℕ → ℕ → ℕ) (n w : ℕ) → HintLaws (frodo_pir_backend next_u32) n w
frodo_laws next_u32 n w = record {
  Serves = ServesFrodo n w;
  patched = client_patch_state-ServesFrodo n w;
  unchanged = λ s db db' h u. record {
    width = h.width;
    rows = h.rows;
    hint_of = h.hint_of ∙ no_patch s.hint_material db db' n s.params.params.lwe_dim w u;
    prepared = h.prepared;
    in_flight = h.in_flight;
  };
}
