-- ===== src/Server/Tests.antt =====
-- A server of two segments of one bucket over the FrodoPIR back end, and a client that follows it.
use ikpir.Prelude.{ℕ, ◌+◌, ◌*◌, ◌≡◌, refl, some, List, [], ◌∷◌, arith, true, get_or, length}
use ikpir.Cuckoo.Hash.{hash_and_i1, extract_fingerprint}
use ikpir.Cuckoo.Scheme.{segmented_2ary, segmented_scheme, hash_item_segmented_2ary}
use ikpir.Cuckoo.Sample.{
  first_byte, zero_draw, tiny_table, tiny_store, empty_cells-IsTable, stored, insert_empty,
}
use ikpir.Cuckoo.Store.{CuckooKvStore, ok}
use ikpir.Cuckoo.Store.Build.{
  segment_size, cells_per_slot, params, enable_mutation_log, drain_mutations,
}
use ikpir.Cuckoo.Store.History.{IsClean}
use ikpir.Cuckoo.Store.History.Fresh.{zero_cells-IsClean}
use ikpir.Cuckoo.Store.History.Insert.{IsFingerprint, HasLogged, insert-HasLogged}
use ikpir.Backend.Accumulate.{add_at}
use ikpir.Backend.Deltas.{SegmentRowDeltas, AreWithin, entry_level}
use ikpir.Backend.Interface.{IncrementalPirBackend, IndexPirBackend, IsUpdated}
use ikpir.Backend.Frodo.{compute_hint, frodo_params}
use ikpir.Backend.Frodo.Setup.{frodo_pir_backend, frodo_laws, server_setup, sample_a}
use ikpir.Backend.Frodo.Promise.{frodo_index_backend, frodo_server_laws}
use ikpir.Client.HintPatch.{HintPatchClient, from_setup}
use ikpir.Client.Bundles.{HintDeltaBundle}
use ikpir.Server.{
  published, IkpirServer, Published, setup_segments, build, setup, row_width, insert,
  commit_mutations,
}
use ikpir.Server.Fold.{fold_mutations_into_row_deltas}
use ikpir.Server.Fold.Step.{IsSegmented}
use ikpir.Server.Fold.Updated.{segment_of, fold_mutations-IsUpdated}
use ikpir.Server.Commit.{IsServer, IsPublished, commit_mutations-IsServer}
use ikpir.Server.Served.{Serves, insert-Serves}
use ikpir.Server.Run.{build-IsServer, Follows, from_setup-Follows}
use ikpir.Server.Trace.{
  Applies, Calls, no_call, then_published, inserted as insert_call, Calls-Follows,
}

abbrev words : ℕ → ℕ → ℕ
words seed i = 3 + 2 * i + seed

abbrev backend : IncrementalPirBackend
backend = frodo_pir_backend words

abbrev index_backend : IndexPirBackend backend
index_backend = frodo_index_backend words true

abbrev empty_store : CuckooKvStore
empty_store = tiny_store (0 ∷ 0 ∷ 0 ∷ 0 ∷ [])

abbrev server : IkpirServer backend index_backend segmented_2ary
server = record {
  store = empty_store;
  params = record {
    scheme_kind = segmented_2ary;
    num_buckets = 2;
    bucket_size = 1;
    fingerprint_bits = 4;
    value_bits = 8;
    plaintext_bits = 8;
  };
  backend_config = 1;
  backend_params =
      record {
        params = record { lwe_dim = 1; plaintext_bits = 8; seed = 5 };
        n_rows = 1;
        row_width = 2;
      }
      ∷ record {
        params = record { lwe_dim = 1; plaintext_bits = 8; seed = 6 };
        n_rows = 1;
        row_width = 2;
      }
      ∷ [];
  backend_hint_material = some (8 ∷ []) ∷ some (9 ∷ []) ∷ [];
  hints = (0 ∷ 0 ∷ []) ∷ (0 ∷ 0 ∷ []) ∷ [];
  epoch = 0;
  hint_patch_mode = entry_level;
}

empty-IsClean : IsClean (tiny_table (0 ∷ 0 ∷ 0 ∷ 0 ∷ []))
empty-IsClean = zero_cells-IsClean _ empty_cells-IsTable refl

empty-IsSegmented : IsSegmented segmented_2ary 1 2 (tiny_table (0 ∷ 0 ∷ 0 ∷ 0 ∷ []))
unfolding cells_per_slot segment_size
empty-IsSegmented = record {
  described = refl;
  rows = refl;
  buckets = refl;
  width = refl;
  small = omega arith;
}

server_built : build backend index_backend segmented_2ary 5 empty_store 1 ≡ some server
unfolding build setup_segments params row_width cells_per_slot segment_size enable_mutation_log
    drain_mutations server_setup frodo_params sample_a compute_hint add_at
server_built = refl

is_server :
    IsServer backend index_backend segmented_2ary 1 2
      (frodo_laws words 1 2)
      (frodo_server_laws words true 1 2)
      server
is_server =
    build-IsServer backend index_backend segmented_2ary 1 2 (frodo_laws words 1 2)
      (frodo_server_laws words true 1 2) 5 empty_store 1 server empty_cells-IsTable empty-IsClean
      empty-IsSegmented server_built

build-IsServer_example :
    IsServer backend index_backend segmented_2ary 1 2
      (frodo_laws words 1 2)
      (frodo_server_laws words true 1 2)
      server
build-IsServer_example =
    build-IsServer backend index_backend segmented_2ary 1 2 (frodo_laws words 1 2)
      (frodo_server_laws words true 1 2) 5 empty_store 1 server empty_cells-IsTable empty-IsClean
      empty-IsSegmented server_built

key-IsFingerprint : IsFingerprint empty_store (3 ∷ [])
unfolding segmented_scheme hash_item_segmented_2ary hash_and_i1 extract_fingerprint first_byte
key-IsFingerprint = (ground arith, ground arith)

inserted : HasLogged empty_store stored
inserted =
    insert-HasLogged zero_draw empty_store stored (3 ∷ []) (7 ∷ []) empty_cells-IsTable
      empty-IsClean key-IsFingerprint (ground arith, tt) insert_empty

insert-Serves_example :
    (r : IkpirServer backend index_backend segmented_2ary × Published) × ((insert backend
          index_backend segmented_2ary zero_draw server
          (3 ∷ [])
          (7 ∷ [])
        ≡ some r)
      × Serves backend index_backend segmented_2ary 1 2
          (frodo_laws words 1 2)
          (frodo_server_laws words true 1 2)
          server
          r)
insert-Serves_example =
    insert-Serves backend index_backend segmented_2ary 1 2 (frodo_laws words 1 2)
      (frodo_server_laws words true 1 2) zero_draw server (3 ∷ []) (7 ∷ []) (ok, stored) is_server
      key-IsFingerprint (ground arith, tt) insert_empty

fold_mutations_example :
    (rows : List SegmentRowDeltas) × (fold_mutations_into_row_deltas inserted.0 server.params
      ≡ some rows)
    × (length rows ≡ 2)
    × ((j : ℕ) → AreWithin 1 2 (get_or rows j []))
    × ((j : ℕ)
        → IsUpdated 1 2
            (segment_of 1 2 (0 ∷ 0 ∷ 0 ∷ 0 ∷ []) j)
            (get_or rows j [])
            (segment_of 1 2 (115 ∷ 0 ∷ 0 ∷ 0 ∷ []) j))
fold_mutations_example =
    fold_mutations-IsUpdated segmented_2ary 1 2 (tiny_table (0 ∷ 0 ∷ 0 ∷ 0 ∷ [])) empty-IsSegmented
      inserted.0 stored.table empty_cells-IsTable empty-IsClean inserted.2

abbrev step :
    (s' : IkpirServer backend index_backend segmented_2ary) × (bundle : HintDeltaBundle)
    × (commit_mutations backend index_backend segmented_2ary (record server { store = stored })
        ≡ some (s', bundle))
    × IsServer backend index_backend segmented_2ary 1 2
        (frodo_laws words 1 2)
        (frodo_server_laws words true 1 2)
        s'
    × IsPublished backend index_backend segmented_2ary 1 2
        (frodo_laws words 1 2)
        (frodo_server_laws words true 1 2)
        server
        bundle
        s'
step =
    commit_mutations-IsServer backend index_backend segmented_2ary 1 2 (frodo_laws words 1 2)
      (frodo_server_laws words true 1 2) server stored inserted.0 is_server inserted.1 inserted.2

inserted_call :
    insert backend index_backend segmented_2ary zero_draw server (3 ∷ []) (7 ∷ [])
    ≡ some (step.0, published step.1)
unfolding insert
inserted_call = rw insert_empty (rw step.2 refl)

abbrev one_call : Calls backend index_backend segmented_2ary server (step.1 ∷ []) step.0
one_call =
    then_published
      (insert_call zero_draw (3 ∷ []) (7 ∷ []) key-IsFingerprint (ground arith, tt) inserted_call)
      no_call

abbrev client : HintPatchClient backend
client = from_setup backend (setup backend index_backend segmented_2ary server)

Calls-Follows_example :
    (c' : HintPatchClient backend) × Applies backend client (step.1 ∷ []) c'
    × Follows backend index_backend segmented_2ary 1 2
        (frodo_laws words 1 2)
        (frodo_server_laws words true 1 2)
        c'
        step.0
    × IsServer backend index_backend segmented_2ary 1 2
        (frodo_laws words 1 2)
        (frodo_server_laws words true 1 2)
        step.0
Calls-Follows_example =
    Calls-Follows backend index_backend segmented_2ary 1 2 (frodo_laws words 1 2)
      (frodo_server_laws words true 1 2) client server step.0 (step.1 ∷ []) is_server
      (from_setup-Follows backend index_backend segmented_2ary 1 2 (frodo_laws words 1 2)
        (frodo_server_laws words true 1 2) server is_server)
      one_call
