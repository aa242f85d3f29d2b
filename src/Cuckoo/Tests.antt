-- ===== src/Cuckoo/Tests.antt =====
-- The theorems at work on the small tables of the sample.
use ikpir.Prelude.{
  ℕ, ◌+◌, ◌*◌, ◌^◌, ◌≤◌, ◌<◌, ◌≡◌, ◌≢◌, ◌⊎◌, inl, refl, List, [], ◌∷◌, none, some, arith, length,
  replicate,
}
use ikpir.Cuckoo.Sample.{
  first_byte, zero_draw, tiny_table, full_cells, tiny_store, full-IsTable, stored, insert_empty,
}
use ikpir.Cuckoo.CellStream.Number.{number}
use ikpir.Cuckoo.CellStream.{
  slot_read_bits, slot_write_bits, read_loop, write_loop, write_cell, read_values, write_values,
}
use ikpir.Cuckoo.Hash.{hash_and_i1, extract_fingerprint, fingerprint_hash1}
use ikpir.Cuckoo.Scheme.{
  segmented_2ary, segmented_scheme, hash_item_segmented_2ary, all_indices_segmented_2ary,
}
use ikpir.Cuckoo.Table
use ikpir.Cuckoo.Table.{FingerprintValueTable, with_cells, value_size_in_cells}
use ikpir.Cuckoo.Table.Slot.{IsTable, IsValue, InRange}
use ikpir.Cuckoo.Table.Build.{from_cells, loaded, from_cells-IsTable}
use ikpir.Cuckoo.Store.Build
use ikpir.Cuckoo.Store.Build.{CuckooParams, slot_cell_range, cells_per_slot, size_in_cells, built}
use ikpir.Cuckoo.Store.Build.Geometry.{slot_cell_range-disjoint, new-IsTable_store}
use ikpir.Cuckoo.Store
use ikpir.Cuckoo.Store.{SlotMutation, CuckooKvStore, Outcome, ok, err, table_full}
use ikpir.Cuckoo.Store.Insert
use ikpir.Cuckoo.Store.Insert.TableFull.{insert-table_full}
use ikpir.Cuckoo.Store.Insert.Logged.{insert-replay}
use ikpir.Cuckoo.Store.Pack.{pack-IsValue}
use ikpir.Cuckoo.Table.Write.{write-read, write-restore, write-frame}

insert_full :
    Insert.insert zero_draw (tiny_store full_cells) (3 ∷ []) (7 ∷ [])
    ≡ some (err table_full, tiny_store full_cells)
unfolding first_byte Insert.insert Store.value_size_in_bytes Insert.try_place segmented_scheme
    Table.insert hash_item_segmented_2ary hash_and_i1 extract_fingerprint fingerprint_hash1
    Store.pack_value_bytes_to_cells value_size_in_cells Table.insert_from Table.read_fingerprint
    Table.read_bits slot_read_bits Table.slot_bit_offset Insert.kick_loop Insert.kick_once read_loop
    read_values slot_write_bits write_cell write_loop write_values all_indices_segmented_2ary
    Insert.alternatives Insert.evicted_position Insert.rollback Table.assert_in_range
    Table.read_value Table.write Table.write_bits Table.write_fingerprint Table.write_value
insert_full = refl

insert-table_full_example : tiny_store full_cells ≡ tiny_store full_cells
insert-table_full_example =
    insert-table_full zero_draw (tiny_store full_cells) (tiny_store full_cells) (3 ∷ []) (7 ∷ [])
      full-IsTable (ground arith, tt) insert_full

insert-replay_example :
    (stored.num_items ≡ 3)
    × (muts : List SlotMutation) × (stored.mutation_log ≡ some muts)
    × (Store.replay (tiny_table (0 ∷ 0 ∷ 0 ∷ 0 ∷ [])) muts ≡ some stored.table)
insert-replay_example =
    insert-replay zero_draw (tiny_store (0 ∷ 0 ∷ 0 ∷ 0 ∷ [])) stored (3 ∷ []) (7 ∷ []) insert_empty

written :
    Table.write (tiny_table full_cells) 0 0 5 (9 ∷ []) ≡ some (tiny_table (149 ∷ 0 ∷ 2 ∷ 0 ∷ []))
unfolding first_byte Insert.insert Store.value_size_in_bytes Insert.try_place segmented_scheme
    Table.insert hash_item_segmented_2ary hash_and_i1 extract_fingerprint fingerprint_hash1
    Store.pack_value_bytes_to_cells value_size_in_cells Table.insert_from Table.read_fingerprint
    Table.read_bits slot_read_bits Table.slot_bit_offset Insert.kick_loop Insert.kick_once read_loop
    read_values slot_write_bits write_cell write_loop write_values all_indices_segmented_2ary
    Insert.alternatives Insert.evicted_position Insert.rollback Table.assert_in_range
    Table.read_value Table.write Table.write_bits Table.write_fingerprint Table.write_value
written = refl

first_slot-InRange : InRange (tiny_table full_cells) 0 0
first_slot-InRange = record { bucket_lt = ground arith; slot_lt = ground arith }

other_slot-InRange : InRange (tiny_table full_cells) 1 0
other_slot-InRange = record { bucket_lt = ground arith; slot_lt = ground arith }

nine-IsValue : IsValue (tiny_table full_cells) (9 ∷ [])
unfolding value_size_in_cells
nine-IsValue = record { fits = (ground arith, tt); size = refl }

fit_nine : number 8 (9 ∷ []) < 2 ^ 8
unfolding number
fit_nine = ground arith

fit_five : 5 < 2 ^ 4
fit_five = ground arith

write-read_example :
    (Table.read_fingerprint (tiny_table (149 ∷ 0 ∷ 2 ∷ 0 ∷ [])) 0 0 ≡ some 5)
    × (Table.read_value (tiny_table (149 ∷ 0 ∷ 2 ∷ 0 ∷ [])) 0 0 ≡ some (9 ∷ []))
write-read_example =
    write-read (tiny_table full_cells) (tiny_table (149 ∷ 0 ∷ 2 ∷ 0 ∷ [])) 0 0 5 (9 ∷ [])
      full-IsTable first_slot-InRange nine-IsValue written fit_five fit_nine

old_fp : Table.read_fingerprint (tiny_table full_cells) 0 0 ≡ some 1
unfolding first_byte Insert.insert Store.value_size_in_bytes Insert.try_place segmented_scheme
    Table.insert hash_item_segmented_2ary hash_and_i1 extract_fingerprint fingerprint_hash1
    Store.pack_value_bytes_to_cells value_size_in_cells Table.insert_from Table.read_fingerprint
    Table.read_bits slot_read_bits Table.slot_bit_offset Insert.kick_loop Insert.kick_once read_loop
    read_values slot_write_bits write_cell write_loop write_values all_indices_segmented_2ary
    Insert.alternatives Insert.evicted_position Insert.rollback Table.assert_in_range
    Table.read_value Table.write Table.write_bits Table.write_fingerprint Table.write_value
old_fp = refl

old_value : Table.read_value (tiny_table full_cells) 0 0 ≡ some (0 ∷ [])
unfolding first_byte Insert.insert Store.value_size_in_bytes Insert.try_place segmented_scheme
    Table.insert hash_item_segmented_2ary hash_and_i1 extract_fingerprint fingerprint_hash1
    Store.pack_value_bytes_to_cells value_size_in_cells Table.insert_from Table.read_fingerprint
    Table.read_bits slot_read_bits Table.slot_bit_offset Insert.kick_loop Insert.kick_once read_loop
    read_values slot_write_bits write_cell write_loop write_values all_indices_segmented_2ary
    Insert.alternatives Insert.evicted_position Insert.rollback Table.assert_in_range
    Table.read_value Table.write Table.write_bits Table.write_fingerprint Table.write_value
old_value = refl

write-restore_example :
    Table.write (tiny_table (149 ∷ 0 ∷ 2 ∷ 0 ∷ [])) 0 0 1 (0 ∷ []) ≡ some (tiny_table full_cells)
write-restore_example =
    write-restore (tiny_table full_cells) (tiny_table (149 ∷ 0 ∷ 2 ∷ 0 ∷ [])) 0 0 5 (9 ∷ [])
      full-IsTable first_slot-InRange nine-IsValue written 1 (0 ∷ []) old_fp old_value

zero≢one : ◌≢◌ {A = ℕ} 0 1
zero≢one = λ e. ground (arith, e)

write-frame_example :
    (Table.read_fingerprint (tiny_table (149 ∷ 0 ∷ 2 ∷ 0 ∷ [])) 1 0
      ≡ Table.read_fingerprint (tiny_table full_cells) 1 0)
    × (Table.read_value (tiny_table (149 ∷ 0 ∷ 2 ∷ 0 ∷ [])) 1 0
        ≡ Table.read_value (tiny_table full_cells) 1 0)
write-frame_example =
    write-frame (tiny_table full_cells) (tiny_table (149 ∷ 0 ∷ 2 ∷ 0 ∷ [])) 0 0 5 (9 ∷ [])
      full-IsTable first_slot-InRange nine-IsValue written 1 0 other_slot-InRange (inl zero≢one)

pack-IsValue_example :
    IsValue (tiny_table full_cells) (Store.pack_value_bytes_to_cells (9 ∷ []) 8 8)
pack-IsValue_example = pack-IsValue (tiny_table full_cells) (9 ∷ []) (ground arith, tt) refl

insert_first :
    Table.insert (tiny_table (0 ∷ 0 ∷ 0 ∷ 0 ∷ [])) 1 5 (9 ∷ [])
    ≡ some (some 0, tiny_table (0 ∷ 0 ∷ 149 ∷ 0 ∷ []))
unfolding first_byte Insert.insert Store.value_size_in_bytes Insert.try_place segmented_scheme
    Table.insert hash_item_segmented_2ary hash_and_i1 extract_fingerprint fingerprint_hash1
    Store.pack_value_bytes_to_cells value_size_in_cells Table.insert_from Table.read_fingerprint
    Table.read_bits slot_read_bits Table.slot_bit_offset Insert.kick_loop Insert.kick_once read_loop
    read_values slot_write_bits write_cell write_loop write_values all_indices_segmented_2ary
    Insert.alternatives Insert.evicted_position Insert.rollback Table.assert_in_range
    Table.read_value Table.write Table.write_bits Table.write_fingerprint Table.write_value
insert_first = refl

abbrev tiny_params : CuckooParams
tiny_params = record {
  scheme_kind = segmented_2ary;
  num_buckets = 2;
  bucket_size = 1;
  fingerprint_bits = 4;
  value_bits = 8;
  plaintext_bits = 8;
}

range_0 : slot_cell_range tiny_params 0 0 ≡ some (0, 2)
unfolding slot_cell_range cells_per_slot
range_0 = refl

range_1 : slot_cell_range tiny_params 1 0 ≡ some (2, 4)
unfolding slot_cell_range cells_per_slot
range_1 = refl

few_cells : 2 * 1 * cells_per_slot tiny_params < 2 ^ 64
unfolding cells_per_slot
few_cells = ground arith

slot_cell_range-disjoint_example :
    (2 ≡ 0 + cells_per_slot tiny_params) × (2 ≤ size_in_cells tiny_params) × ((2 ≤ 2) ⊎ (4 ≤ 0))
slot_cell_range-disjoint_example =
    slot_cell_range-disjoint tiny_params 0 0 1 0 (0, 2) (2, 4) few_cells range_0 range_1
      (inl zero≢one)

abbrev new_store : CuckooKvStore
new_store = record (tiny_store (0 ∷ 0 ∷ 0 ∷ 0 ∷ [])) {
  num_items = 0;
  max_kicks = 500;
  mutation_log = none;
}

new_tiny : Build.new first_byte segmented_2ary 2 1 4 8 8 ≡ some (built new_store)
unfolding Build.new Build.validate_common_params Table.new value_size_in_cells segmented_scheme
new_tiny = refl

new-IsTable_store_example :
    IsTable new_store.table
    × (new_store.table.cells ≡ replicate (length new_store.table.cells) 0)
    × (new_store.num_items ≡ 0)
    × (new_store.mutation_log ≡ none)
new-IsTable_store_example =
    new-IsTable_store first_byte segmented_2ary 2 1 4 8 8 new_store (ground arith) (ground arith)
      new_tiny

loaded_tiny : from_cells full_cells 2 1 4 8 8 ≡ loaded (tiny_table full_cells)
unfolding from_cells
loaded_tiny = refl

from_cells-IsTable_example :
    IsTable (tiny_table full_cells) × ((tiny_table full_cells).cells ≡ full_cells)
from_cells-IsTable_example =
    from_cells-IsTable full_cells 2 1 4 8 8 (tiny_table full_cells)
      (ground arith, (ground arith, (ground arith, (ground arith, tt)))) (ground arith)
      (ground arith) (ground arith) (ground arith) (ground arith) loaded_tiny
