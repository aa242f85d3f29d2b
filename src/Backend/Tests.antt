-- ===== src/Backend/Tests.antt =====
-- Tests of the back ends on a database of two rows and one column, and the witnesses.
use ikpir.Prelude.{
  Bool, ap, ◌∙◌, length, false, ℕ, zero, suc, ◌+◌, ◌-◌, ◌*◌, ◌^◌, ◌<◌, ◌≡◌, refl, sym, inl, true,
  none, some, List, [], ◌∷◌, arith, ◌==◌, if◌then◌else◌, get_or, u32, some-injective, pos, negsuc,
  u32_of_ℤ,
}
use ikpir.Backend.Accumulate.{IsWords}
use ikpir.Backend.Deltas.{
  SegmentRowDeltas, AreWithin, no_offset, offset, no_row, row, row_level, entry_level, row_change,
}
use ikpir.Backend.Interface.{IsUpdated}
use ikpir.Backend.Matvec.{matvec_accumulate, naive, block_pass, passes, blocking, tail_row}
use ikpir.Backend.Accumulate.{add_at}
use ikpir.Backend.Matvec.Blocked.{matvec_accumulate-naive}
use ikpir.Backend.Patch.{rebuild, run_sum}
use ikpir.Backend.Patch.Coalesce.{AreRuns}
use ikpir.Backend.Patch.Sweep.{rebuild_lem}
use ikpir.Backend.Frodo.{
  FrodoServerParams, FrodoClientState, PreparedSlot, compute_hint, sample_slot, client_query,
  client_decode, server_answer, take_slot, client_precompute_decodes, compute_c,
}
use ikpir.Backend.Frodo.Patch.{
  apply_patch, apply_patch_row_level, apply_patch_row_level-compute_hint, client_patch_state,
  patch_c, rewind_response,
}
use ikpir.Backend.Frodo.Modes.{apply_patch_modes}
use ikpir.Backend.Frodo.Rewind.{no_pending, pending, rewind_response-server_answer}
use ikpir.Backend.Frodo.RoundTrip.{client_decode-server_answer}
use ikpir.Backend.Frodo.Cached.{client_precompute_decodes-client_decode}
use ikpir.Backend.Frodo.PatchCached.{patch_c-compute_c}
use ikpir.Backend.Frodo.Setup.{ServesFrodo, client_patch_state-ServesFrodo}

abbrev a_matrix : List ℕ
a_matrix = 3 ∷ 5 ∷ []

abbrev database : List ℕ
database = 7 ∷ 9 ∷ []

-- The second row changed from 9 to 4.
abbrev updated : List ℕ
updated = 7 ∷ 4 ∷ []

abbrev edits : SegmentRowDeltas
edits = (1, (0, negsuc 4) ∷ []) ∷ []

abbrev server_params : FrodoServerParams
server_params = record {
  params = record { lwe_dim = 1; plaintext_bits = 8; seed = 0 };
  n_rows = 2;
  row_width = 1;
}

abbrev hint : List ℕ
hint = 66 ∷ []

abbrev client : FrodoClientState
client = record {
  params = server_params;
  hint_material = a_matrix;
  hint = hint;
  prepared = [];
  in_flight = none;
}

abbrev small_slot : PreparedSlot
small_slot = record { secret = 2 ∷ []; b = 6 ∷ 11 ∷ []; c = none }

hint_of_database : compute_hint a_matrix database 2 1 1 ≡ hint
unfolding compute_hint add_at
hint_of_database = refl

slot_of_secret : sample_slot server_params a_matrix (2 ∷ []) (0 ∷ 1 ∷ []) ≡ small_slot
unfolding sample_slot
slot_of_secret = refl

edits_within : AreWithin 2 1 edits
edits_within = row (omega arith) (offset (omega arith) no_offset) no_row

is_updated : IsUpdated 2 1 database edits updated
is_updated zero zero hi hj = refl
is_updated (suc zero) zero hi hj = refl
is_updated (suc (suc i)) j hi hj = absurd (omega arith)
is_updated i (suc j) hi hj = absurd (omega arith)

short_words : (x : ℕ) → x < 2 ^ 32 → IsWords (x ∷ [])
short_words x h zero = h
short_words x h (suc c) = omega arith

matvec_accumulate_example :
    matvec_accumulate true (1 ∷ []) (7 ∷ 9 ∷ []) (2 ∷ 3 ∷ [])
    ≡ naive (1 ∷ []) (7 ∷ 9 ∷ []) (2 ∷ 3 ∷ [])
matvec_accumulate_example =
    matvec_accumulate-naive true (1 ∷ []) (7 ∷ 9 ∷ []) (2 ∷ 3 ∷ []) (short_words 1 (omega arith))
      refl

rebuild_example :
    let r = rebuild (λ off. off) ((0, pos 3) ∷ (1, pos 4) ∷ []) in
    AreRuns 2 r.runs
    × ((c : ℕ)
        → u32 (run_sum r.deltas 0 r.runs c) ≡ u32 (row_change ((0, pos 3) ∷ (1, pos 4) ∷ []) c))
rebuild_example =
    rebuild_lem 2 ((0, pos 3) ∷ (1, pos 4) ∷ [])
      (offset (omega arith) (offset (omega arith) no_offset))

apply_patch_row_level_example :
    apply_patch_row_level a_matrix 1 1 (compute_hint a_matrix database 2 1 1) edits
    ≡ compute_hint a_matrix updated 2 1 1
apply_patch_row_level_example =
    apply_patch_row_level-compute_hint a_matrix database updated 2 1 1 edits is_updated edits_within

apply_patch_modes_example :
    apply_patch a_matrix 1 1 hint edits entry_level ≡ apply_patch a_matrix 1 1 hint edits row_level
apply_patch_modes_example =
    apply_patch_modes a_matrix hint 2 1 1 edits (short_words 66 (omega arith)) refl refl
      edits_within

rewind_response_example :
    rewind_response
      (2 ∷ 3 ∷ [])
      (((1, 0), negsuc 4) ∷ [])
      (server_answer true updated 1 (2 ∷ 3 ∷ []))
    ≡ server_answer true database 1 (2 ∷ 3 ∷ [])
rewind_response_example =
    rewind_response-server_answer true database updated (2 ∷ 3 ∷ []) 1 (((1, 0), negsuc 4) ∷ [])
      refl refl (pending (omega arith) (omega arith) no_pending) is_rewound
  where
    is_rewound :
        (i j : ℕ)
        → i < 2
        → j < 1
        → u32 (get_or updated (i * 1 + j) 0)
          ≡ u32 (
              get_or database (i * 1 + j) 0
              + ((if i == 1 then (if j == 0 then u32_of_ℤ (negsuc 4) else 0) else 0) + 0))
    is_rewound zero zero hi hj = refl
    is_rewound (suc zero) zero hi hj = refl
    is_rewound (suc (suc i)) j hi hj = absurd (omega arith)
    is_rewound i (suc j) hi hj = absurd (omega arith)

taken : (take_slot client small_slot).0 ≡ sample_slot server_params a_matrix (2 ∷ []) (0 ∷ 1 ∷ [])
unfolding take_slot
taken = sym slot_of_secret

plain : (c : ℕ) → get_or database c 0 < 2 ^ 8
plain zero = omega arith
plain (suc zero) = omega arith
plain (suc (suc c)) = omega arith

quiet :
    (j : ℕ)
    → j < 1
    → u32 (0 + 0 * get_or database (0 * 1 + j) 0 + 1 * get_or database (1 * 1 + j) 0) < 2 ^ (31 - 8)
quiet zero h = omega arith
quiet (suc j) h = absurd (omega arith)

client_decode_example :
    let (st', query) = client_query client small_slot 1 in
    client_decode true st' (server_answer true database 1 query) ≡ some (9 ∷ [])
client_decode_example =
    client_decode-server_answer true client small_slot a_matrix (2 ∷ []) (0 ∷ 1 ∷ []) database 1
      taken (sym hint_of_database) (short_words 2 (omega arith)) refl refl refl (omega arith)
      (omega arith) (omega arith) plain (λ j h. inl (quiet j h))

client_precompute_decodes_example :
    let st = record client { in_flight = some small_slot } in
    client_decode true (client_precompute_decodes true st) (70 ∷ [])
    ≡ client_decode true st (70 ∷ [])
client_precompute_decodes_example =
    client_precompute_decodes-client_decode true (record client { in_flight = some small_slot })
      (70 ∷ []) (short_words 70 (omega arith)) refl refl
      (λ slot e.
        let same : small_slot ≡ slot = some-injective e in
        rw (sym same) (short_words 2 (omega arith), refl))

patch_c_example :
    patch_c a_matrix 1 (2 ∷ []) edits (compute_c true (2 ∷ []) hint 1)
    ≡ compute_c true (2 ∷ []) (apply_patch a_matrix 1 1 hint edits entry_level) 1
patch_c_example =
    patch_c-compute_c true a_matrix (2 ∷ []) hint 2 1 1 edits entry_level
      (short_words 66 (omega arith)) refl refl refl edits_within

-- A slot in flight with its part `c` cached.
abbrev flying : FrodoClientState
flying = record client { in_flight = some (record small_slot { c = some (132 ∷ []) }) }

flying_c : (x86_64 : Bool) → 132 ∷ [] ≡ compute_c x86_64 (2 ∷ []) hint 1
unfolding compute_c matvec_accumulate block_pass passes blocking tail_row add_at
flying_c true = refl
flying_c false = refl

client_patch_state_example : ServesFrodo 2 1 (client_patch_state flying edits row_level) updated
client_patch_state_example =
    client_patch_state-ServesFrodo 2 1 flying database updated edits row_level
      (record {
        width = refl;
        rows = refl;
        hint_of = sym hint_of_database;
        prepared = tt;
        in_flight = λ slot e c ec.
            let same : record small_slot { c = some (132 ∷ []) } ≡ slot = some-injective e in
            let cached : some (132 ∷ []) ≡ some c = ap (λ (s : PreparedSlot). s.c) same ∙ ec in
            (
              ap (λ (s : PreparedSlot). length s.secret) (sym same),
              λ x86_64.
                  sym (some-injective cached)
                  ∙ flying_c x86_64
                  ∙ ap (λ (s : PreparedSlot). compute_c x86_64 s.secret hint 1) same,
            );
      })
      edits_within is_updated
