-- ===== src/Cuckoo/HistoryTests.antt =====
-- The history of an insertion into a small empty table.
use ikpir.Prelude.{refl, [], ◌∷◌, arith}
use ikpir.Cuckoo.Hash.{hash_and_i1, extract_fingerprint}
use ikpir.Cuckoo.Scheme.{segmented_scheme, hash_item_segmented_2ary}
use ikpir.Cuckoo.Sample.{
  first_byte, zero_draw, tiny_store, empty_cells-IsTable, stored, insert_empty,
}
use ikpir.Cuckoo.Store.History.Fresh.{zero_cells-IsClean}
use ikpir.Cuckoo.Store.History.Insert.{IsFingerprint, HasLogged, insert-HasLogged}

key-IsFingerprint : IsFingerprint (tiny_store (0 ∷ 0 ∷ 0 ∷ 0 ∷ [])) (3 ∷ [])
unfolding segmented_scheme hash_item_segmented_2ary hash_and_i1 extract_fingerprint first_byte
key-IsFingerprint = (ground arith, ground arith)

insert-HasLogged_example : HasLogged (tiny_store (0 ∷ 0 ∷ 0 ∷ 0 ∷ [])) stored
insert-HasLogged_example =
    insert-HasLogged zero_draw (tiny_store (0 ∷ 0 ∷ 0 ∷ 0 ∷ [])) stored (3 ∷ []) (7 ∷ [])
      empty_cells-IsTable (zero_cells-IsClean _ empty_cells-IsTable refl) key-IsFingerprint
      (ground arith, tt) insert_empty
