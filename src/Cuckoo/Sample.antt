-- ===== src/Cuckoo/Sample.antt =====
-- Small tables for the tests: a digest that reads the first byte, a generator that always draws 0,
-- and segments of one bucket with one slot.
use ikpir.Prelude.{ℕ, ◌≡◌, refl, List, [], ◌∷◌, some, arith, get_or}
use ikpir.Cuckoo.CellStream.{
  slot_read_bits, slot_write_bits, read_loop, write_loop, write_cell, read_values, write_values,
}
use ikpir.Cuckoo.Hash.{hash_and_i1, extract_fingerprint, fingerprint_hash1}
use ikpir.Cuckoo.Scheme.{
  segmented_2ary, segmented_scheme, hash_item_segmented_2ary, all_indices_segmented_2ary,
}
use ikpir.Cuckoo.Table
use ikpir.Cuckoo.Table.{FingerprintValueTable, with_cells, value_size_in_cells}
use ikpir.Cuckoo.Table.Slot.{IsTable}
use ikpir.Cuckoo.Store
use ikpir.Cuckoo.Store.{SlotMutation, CuckooKvStore, Outcome, ok, err, table_full}
use ikpir.Cuckoo.Store.Insert

unfoldable pub first_byte : List ℕ → ℕ
first_byte item = get_or item 0 0

abbrev pub zero_draw : ℕ → ℕ → ℕ
zero_draw k n = 0

abbrev pub tiny_table : List ℕ → FingerprintValueTable
tiny_table cells = record {
  cells = cells;
  num_buckets = 2;
  bucket_size = 1;
  fingerprint_bits = 4;
  value_bits = 8;
  plaintext_bits = 8;
  cells_per_slot = 2;
}

abbrev pub full_cells : List ℕ
full_cells = 1 ∷ 0 ∷ 2 ∷ 0 ∷ []

abbrev pub tiny_store : List ℕ → CuckooKvStore
tiny_store cells = record {
  table = tiny_table cells;
  scheme = segmented_scheme first_byte segmented_2ary 1;
  num_items = 2;
  max_kicks = 2;
  mutation_log = some [];
}

pub full-IsTable : IsTable (tiny_table full_cells)
full-IsTable = record {
  fb_pos = ground arith;
  fb_le = ground arith;
  vb_pos = ground arith;
  pb_pos = ground arith;
  pb_le = ground arith;
  slot_room = ground arith;
  size = refl;
  small = ground arith;
  fits = (ground arith, (ground arith, (ground arith, (ground arith, tt))));
}

pub empty_cells-IsTable : IsTable (tiny_table (0 ∷ 0 ∷ 0 ∷ 0 ∷ []))
empty_cells-IsTable = record {
  fb_pos = ground arith;
  fb_le = ground arith;
  vb_pos = ground arith;
  pb_pos = ground arith;
  pb_le = ground arith;
  slot_room = ground arith;
  size = refl;
  small = ground arith;
  fits = (ground arith, (ground arith, (ground arith, (ground arith, tt))));
}

abbrev pub stored : CuckooKvStore
stored = record (tiny_store (115 ∷ 0 ∷ 0 ∷ 0 ∷ [])) {
  num_items = 3;
  mutation_log = some (
      record {
        bucket = 0;
        slot = 0;
        old_fingerprint = 0;
        new_fingerprint = 3;
        old_value_cells = 0 ∷ [];
        new_value_cells = 7 ∷ [];
      }
      ∷ []);
}

pub insert_empty :
    Insert.insert zero_draw (tiny_store (0 ∷ 0 ∷ 0 ∷ 0 ∷ [])) (3 ∷ []) (7 ∷ []) ≡ some (ok, stored)
unfolding first_byte Insert.insert Store.value_size_in_bytes Insert.try_place segmented_scheme
    Table.insert hash_item_segmented_2ary hash_and_i1 extract_fingerprint fingerprint_hash1
    Store.pack_value_bytes_to_cells value_size_in_cells Table.insert_from Table.read_fingerprint
    Table.read_bits slot_read_bits Table.slot_bit_offset Insert.kick_loop Insert.kick_once read_loop
    read_values slot_write_bits write_cell write_loop write_values all_indices_segmented_2ary
    Insert.alternatives Insert.evicted_position Insert.rollback Table.assert_in_range
    Table.read_value Table.write Table.write_bits Table.write_fingerprint Table.write_value
insert_empty = refl
