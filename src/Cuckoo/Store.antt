-- ===== src/Cuckoo/Store.antt =====
-- crates/segmented-cuckoo/src/store.rs: the key-value store over the table, with its kick loop,
-- rollback and mutation log. `none` is a panic. The scratch buffers of the struct (`chain_meta`,
-- `chain_values`, `cur_value`, `pending_mutations`) are filled anew by every call, so they are
-- local here: the chain holds the latest kick first, and mutations pend whether or not a log is on.
-- `random_range k n` is the `k`-th draw of the third-party generator from `0..n`.
pub mod Insert
pub mod Access
pub mod Pack
pub mod Build
pub mod Payload
pub mod Replay
pub mod Unpack
pub mod History
use ikpir.Prelude.{
  ℕ, zero, suc, ◌+◌, ◌-◌, ◌*◌, ◌/◌, ◌%◌, ◌^◌, min, bit_and, bit_or, List, [], ◌∷◌, ◌++◌, true,
  false, ◌&&◌, Option, none, some, u32, u64, ltb, ◌==◌, if◌then◌else◌, ◌>>=◌,
}
use ikpir.Cuckoo.CellStream.{div_ceil}
use ikpir.Cuckoo.Scheme.{IndexScheme}
use ikpir.Cuckoo.Table
use ikpir.Cuckoo.Table.{FingerprintValueTable}

pub record SlotMutation : Type 0 where
  pub bucket : ℕ
  pub slot : ℕ
  pub old_fingerprint : ℕ
  pub new_fingerprint : ℕ
  pub old_value_cells : List ℕ
  pub new_value_cells : List ℕ

pub record CuckooKvStore : Type 0 where
  pub table : FingerprintValueTable
  pub scheme : IndexScheme
  pub num_items : ℕ
  pub max_kicks : ℕ
  pub mutation_log : Option (List SlotMutation)

pub data CuckooError : Type 0 where
  table_full not_found invalid_params : CuckooError

pub data Outcome : Type 0 where
  ok : Outcome
  err : CuckooError → Outcome

-- `while bits_in_acc < pb { match byte_iter.next() … }`: the accumulator, its bits, what is left.
unfoldable pub fill_acc : List ℕ → ℕ → ℕ → ℕ → ℕ × ℕ × List ℕ
fill_acc [] acc bits_in_acc pb = (acc, bits_in_acc, [])
fill_acc (b ∷ bytes) acc bits_in_acc pb = elim (ltb bits_in_acc pb) [
  | false ↦ (acc, bits_in_acc, b ∷ bytes)
  | true ↦ fill_acc bytes (bit_or acc (u64 (b * 2 ^ bits_in_acc))) (bits_in_acc + 8) pb
]

-- The general path of `pack_value_bytes_to_cells`, by the number of cells still to be filled.
unfoldable pub pack_cells : ℕ → ℕ → List ℕ → ℕ → ℕ → ℕ → ℕ → List ℕ
pack_cells zero i bytes acc bits_in_acc value_bits pb = []
pack_cells (suc left) i bytes acc bits_in_acc value_bits pb =
    let (acc, bits_in_acc, bytes) = fill_acc bytes acc bits_in_acc pb in
    let n = min (value_bits - i * pb) pb in
    u32 (bit_and acc (2 ^ n - 1))
    ∷ pack_cells left (i + 1) bytes (acc / 2 ^ n) (bits_in_acc - n) value_bits pb

unfoldable pub pack_value_bytes_to_cells : List ℕ → ℕ → ℕ → List ℕ
pack_value_bytes_to_cells bytes value_bits pb =
    if pb == 8 && (value_bits % 8 == 0)
    then bytes
    else pack_cells (div_ceil value_bits pb) 0 bytes 0 0 value_bits pb

-- The log after the mutations of a committed call.
abbrev pub log_extend : Option (List SlotMutation) → List SlotMutation → Option (List SlotMutation)
log_extend none muts = none
log_extend (some log) muts = some (log ++ muts)

unfoldable pub value_size_in_bytes : CuckooKvStore → ℕ
value_size_in_bytes s = div_ceil s.table.value_bits 8

unfoldable pub apply_mutation : FingerprintValueTable → SlotMutation → Option FingerprintValueTable
apply_mutation t m = do
  t ← Table.write_fingerprint t m.bucket m.slot m.new_fingerprint
  Table.write_value t m.bucket m.slot m.new_value_cells

-- A log replayed from a table.
unfoldable pub replay : FingerprintValueTable → List SlotMutation → Option FingerprintValueTable
unfolding apply_mutation
replay t [] = some t
replay t (m ∷ log) = apply_mutation t m >>= λ t'. replay t' log
