-- ===== src/Cuckoo/CellStream.antt =====
-- The bit stream that a slice of cells holds, `plaintext_bits` bits to a cell, low bits first:
-- `FingerprintValueTable::{read_bits, write_bits}` of
-- crates/segmented-cuckoo/src/fingerprint_value_table.rs and `slot_read_bits`, `slot_write_bits` of
-- store.rs, whose bodies agree. An index past the cells, where
-- the code panics, is a read of 0 here, and every theorem keeps the bits within the cells. A `while` loop takes fuel, one unit for each bit still to be read.
pub mod Number
pub mod Cell
pub mod Read
pub mod Write
pub mod Values
use ikpir.Prelude.{
  ℕ, zero, suc, ◌+◌, ◌-◌, ◌*◌, ◌/◌, ◌%◌, ◌^◌, min, bit_and, bit_or, List, [], ◌∷◌, true, false, u32,
  u64, ◌>>>◌, ltb, if◌then◌else◌, get_or, set,
}

-- `a.div_ceil(b)`
abbrev pub div_ceil : ℕ → ℕ → ℕ
div_ceil a b = (a + b - 1) / b

-- `while filled < n_bits { acc |= cells[cell_idx] << filled; … }`
unfoldable pub read_loop : ℕ → List ℕ → ℕ → ℕ → ℕ → ℕ → ℕ → ℕ
read_loop zero cells pb n_bits cell_idx acc filled = acc
read_loop (suc fuel) cells pb n_bits cell_idx acc filled = elim (ltb filled n_bits) [
  | false ↦ acc
  | true ↦
      read_loop fuel cells pb n_bits (cell_idx + 1)
        (bit_or acc (u64 (get_or cells cell_idx 0 * 2 ^ filled))) (filled + pb)
]

unfoldable pub slot_read_bits : List ℕ → ℕ → ℕ → ℕ → ℕ
unfolding read_loop
slot_read_bits cells bit_offset n_bits pb =
    let cell_idx = bit_offset / pb in
    let intra_start = bit_offset % pb in
    let acc = get_or cells cell_idx 0 >>> intra_start in
    let filled = pb - intra_start in
    bit_and (read_loop n_bits cells pb n_bits (cell_idx + 1) acc filled)
      ((2 ^ 64 - 1) >>> (64 - n_bits))

-- One cell of the write loop: bits `[lo, lo + n)` of the cell are replaced.
unfoldable pub write_cell : ℕ → ℕ → ℕ → ℕ → ℕ
write_cell cell lo n value =
    let mask = 2 ^ n - 1 in
    let placed = u32 (u32 (bit_and value mask) * 2 ^ lo) in
    let cell_mask = u32 (u32 mask * 2 ^ lo) in bit_or (bit_and cell (2 ^ 32 - 1 - cell_mask)) placed

-- `for cell_idx in first_cell..last_cell`, by the number of cells still to be written.
unfoldable pub write_loop : ℕ → List ℕ → ℕ → ℕ → ℕ → ℕ → ℕ → ℕ → List ℕ
unfolding write_cell
write_loop zero cells pb bit_offset n_bits value cell_idx value_bit_pos = cells
write_loop (suc left) cells pb bit_offset n_bits value cell_idx value_bit_pos =
    let cell_base_bit = cell_idx * pb in
    let lo = if ltb cell_base_bit bit_offset then bit_offset - cell_base_bit else 0 in
    let hi = min (bit_offset + n_bits) (cell_base_bit + pb) - cell_base_bit in
    let n = hi - lo in
    write_loop left
      (set cells cell_idx (write_cell (get_or cells cell_idx 0) lo n (value >>> value_bit_pos))) pb
      bit_offset n_bits value (cell_idx + 1) (value_bit_pos + n)

unfoldable pub slot_write_bits : List ℕ → ℕ → ℕ → ℕ → ℕ → List ℕ
unfolding write_loop
slot_write_bits cells bit_offset n_bits value pb =
    let first_cell = bit_offset / pb in
    let last_cell = div_ceil (bit_offset + n_bits) pb in
    write_loop (last_cell - first_cell) cells pb bit_offset n_bits value first_cell 0

-- The loop of `write_value` and of `pack_slot_cells` over the cells of a value, by the number of
-- cells still to be written: `n` bits of each, which are `plaintext_bits` but for the last one.
unfoldable pub write_values : ℕ → List ℕ → ℕ → ℕ → List ℕ → ℕ → ℕ → List ℕ
write_values zero cells pb value_bits value off0 i = cells
write_values (suc left) cells pb value_bits value off0 i =
    let n = min (value_bits - i * pb) pb in
    let masked = bit_and (get_or value i 0) (u32 (2 ^ n - 1)) in
    write_values left (slot_write_bits cells (off0 + i * pb) n masked pb) pb value_bits value off0
      (i + 1)

-- The loop of `read_value`, likewise.
unfoldable pub read_values : ℕ → List ℕ → ℕ → ℕ → ℕ → ℕ → List ℕ
read_values zero cells pb value_bits off0 i = []
read_values (suc left) cells pb value_bits off0 i =
    let n = min (value_bits - i * pb) pb in
    u32 (slot_read_bits cells (off0 + i * pb) n pb)
    ∷ read_values left cells pb value_bits off0 (i + 1)
