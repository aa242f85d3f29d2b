-- ===== src/Cuckoo/Table.antt =====
-- crates/segmented-cuckoo/src/fingerprint_value_table.rs: the bit-packed table of
-- `fingerprint ‖ value` slots over cells. `none` is a panic of an assertion; offsets are `u64`, a
-- product of which wraps; `read_bits` and `write_bits` are the stream operations of CellStream on
-- the table's own cells.
pub mod Slot
pub mod Write
pub mod Probe
pub mod Build
use ikpir.Prelude.{
  ℕ, zero, suc, ◌+◌, ◌-◌, ◌*◌, ◌%◌, ◌^◌, min, List, Bool, true, false, not, ◌&&◌, ◌||◌, Option,
  none, some, u32, u64, ltb, leb, ◌==◌, length, replicate, ◌>>=◌, ◌>>◌, assert, bit_and, [], ◌∷◌,
}
use ikpir.Cuckoo.CellStream.{div_ceil, slot_read_bits, slot_write_bits, write_values, read_values}

pub record FingerprintValueTable : Type 0 where
  pub cells : List ℕ
  pub num_buckets : ℕ
  pub bucket_size : ℕ
  pub fingerprint_bits : ℕ
  pub value_bits : ℕ
  pub plaintext_bits : ℕ
  pub cells_per_slot : ℕ

abbrev pub with_cells : FingerprintValueTable → List ℕ → FingerprintValueTable
with_cells t cells = record t { cells = cells }

-- The `u32` sum of the two widths wraps in a release build; the `checked_mul` and the `try_from`
-- panic.
unfoldable pub new : ℕ → ℕ → ℕ → ℕ → ℕ → Option FingerprintValueTable
new num_buckets bucket_size fingerprint_bits value_bits plaintext_bits = do
  assert (leb 1 fingerprint_bits && leb fingerprint_bits 64)
  assert (leb 1 value_bits)
  assert (leb 1 plaintext_bits && leb plaintext_bits 32)
  let cells_per_slot = div_ceil (u32 (fingerprint_bits + value_bits)) plaintext_bits
  let num_slots = num_buckets * bucket_size
  assert (ltb num_slots (2 ^ 64))
  let total_cells = num_slots * cells_per_slot
  assert (ltb total_cells (2 ^ 64))
  some (record {
    cells = replicate total_cells 0;
    num_buckets = num_buckets;
    bucket_size = bucket_size;
    fingerprint_bits = fingerprint_bits;
    value_bits = value_bits;
    plaintext_bits = plaintext_bits;
    cells_per_slot = cells_per_slot;
  })

unfoldable pub value_size_in_cells : FingerprintValueTable → ℕ
value_size_in_cells t = div_ceil t.value_bits t.plaintext_bits

unfoldable pub slot_bit_offset : FingerprintValueTable → ℕ → ℕ → ℕ
slot_bit_offset t bucket slot =
    u64 ((bucket * t.bucket_size + slot) * t.cells_per_slot * t.plaintext_bits)

unfoldable pub assert_in_range : FingerprintValueTable → ℕ → ℕ → Option (Unit {0})
assert_in_range t bucket slot = assert (ltb bucket t.num_buckets && ltb slot t.bucket_size)

unfoldable pub read_bits : FingerprintValueTable → ℕ → ℕ → ℕ
read_bits t bit_offset n_bits = slot_read_bits t.cells bit_offset n_bits t.plaintext_bits

unfoldable pub write_bits : FingerprintValueTable → ℕ → ℕ → ℕ → FingerprintValueTable
write_bits t bit_offset n_bits value =
    with_cells t (slot_write_bits t.cells bit_offset n_bits value t.plaintext_bits)

unfoldable pub read_fingerprint : FingerprintValueTable → ℕ → ℕ → Option ℕ
unfolding assert_in_range
read_fingerprint t bucket slot = do
  assert_in_range t bucket slot
  some (read_bits t (slot_bit_offset t bucket slot) t.fingerprint_bits)

unfoldable pub write_fingerprint : FingerprintValueTable → ℕ → ℕ → ℕ → Option FingerprintValueTable
write_fingerprint t bucket slot fp = do
  assert_in_range t bucket slot
  some (write_bits t (slot_bit_offset t bucket slot) t.fingerprint_bits fp)

-- `read_value` fills a buffer of the right length, which is its result here; `read_value_to_box`
-- allocates that buffer.
unfoldable pub read_value : FingerprintValueTable → ℕ → ℕ → Option (List ℕ)
read_value t bucket slot = do
  assert_in_range t bucket slot
  let off0 = slot_bit_offset t bucket slot + t.fingerprint_bits
  some (read_values (value_size_in_cells t) t.cells t.plaintext_bits t.value_bits off0 0)

unfoldable pub write_value : FingerprintValueTable → ℕ → ℕ → List ℕ → Option FingerprintValueTable
write_value t bucket slot value = do
  assert_in_range t bucket slot
  assert (length value == value_size_in_cells t)
  let off0 = slot_bit_offset t bucket slot + t.fingerprint_bits
  some (
      with_cells t
        (write_values (value_size_in_cells t) t.cells t.plaintext_bits t.value_bits value off0 0))

unfoldable pub write : FingerprintValueTable → ℕ → ℕ → ℕ → List ℕ → Option FingerprintValueTable
write t bucket slot fp value = do
  t ← write_fingerprint t bucket slot fp
  write_value t bucket slot value

-- `(slot..bucket_size).find(…)`, by the number of slots still to be probed.
unfoldable pub find_from : FingerprintValueTable → ℕ → ℕ → ℕ → ℕ → Option (Option ℕ)
find_from t bucket fp zero slot = some none
find_from t bucket fp (suc left) slot = do
  x ← read_fingerprint t bucket slot
  elim (x == fp) [ true ↦ some (some slot) | false ↦ find_from t bucket fp left (slot + 1) ]

unfoldable pub find : FingerprintValueTable → ℕ → ℕ → Option (Option ℕ)
find t bucket fp = find_from t bucket fp t.bucket_size 0

-- `(slot..bucket_size).any(…)`, likewise.
unfoldable pub contain_from : FingerprintValueTable → ℕ → ℕ → ℕ → ℕ → Option Bool
contain_from t bucket fp zero slot = some false
contain_from t bucket fp (suc left) slot = do
  x ← read_fingerprint t bucket slot
  elim (x == fp) [ true ↦ some true | false ↦ contain_from t bucket fp left (slot + 1) ]

unfoldable pub contain : FingerprintValueTable → ℕ → ℕ → Option Bool
contain t bucket fp = contain_from t bucket fp t.bucket_size 0

-- The loop of `insert`: the first free slot takes the pair.
unfoldable pub insert_from :
    FingerprintValueTable → ℕ → ℕ → List ℕ → ℕ → ℕ → Option (Option ℕ × FingerprintValueTable)
insert_from t bucket fp value zero slot = some (none, t)
insert_from t bucket fp value (suc left) slot = do
  x ← read_fingerprint t bucket slot
  elim (x == 0) [
    | true ↦ write t bucket slot fp value >>= λ t'. some (some slot, t')
    | false ↦ insert_from t bucket fp value left (slot + 1)
  ]

unfoldable pub insert :
    FingerprintValueTable → ℕ → ℕ → List ℕ → Option (Option ℕ × FingerprintValueTable)
insert t bucket fp value = do
  assert (not (fp == 0))
  assert (length value == value_size_in_cells t)
  insert_from t bucket fp value t.bucket_size 0

-- The loop of `delete`.
unfoldable pub delete_from :
    FingerprintValueTable → ℕ → ℕ → ℕ → ℕ → Option (Bool × FingerprintValueTable)
delete_from t bucket fp zero slot = some (false, t)
delete_from t bucket fp (suc left) slot = do
  x ← read_fingerprint t bucket slot
  elim (x == fp) [
    | true ↦ write_fingerprint t bucket slot 0 >>= λ t'.
        write_value t' bucket slot (replicate (value_size_in_cells t) 0) >>= λ t''. some (true, t'')
    | false ↦ delete_from t bucket fp left (slot + 1)
  ]

unfoldable pub delete : FingerprintValueTable → ℕ → ℕ → Option (Bool × FingerprintValueTable)
delete t bucket fp = do assert (not (fp == 0)); delete_from t bucket fp t.bucket_size 0

unfoldable pub update_value :
    FingerprintValueTable → ℕ → ℕ → List ℕ → Option (Bool × FingerprintValueTable)
update_value t bucket fp new_value = do
  assert (length new_value == value_size_in_cells t)
  r ← find t bucket fp
  elim r [
    | none ↦ some (false, t)
    | some slot ↦ write_value t bucket slot new_value >>= λ t'. some (true, t')
  ]
