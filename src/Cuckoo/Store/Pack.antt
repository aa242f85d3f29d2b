-- ===== src/Cuckoo/Store/Pack.antt =====
-- store.rs, `pack_value_bytes_to_cells`: bytes of the right number become cells of the right
-- number, each within its width.
pub mod Number
use native.Mathlib.Nat.{mod-lt}
use ikpir.Prelude.{
  ℕ, zero, suc, ◌+◌, ◌-◌, ◌*◌, ◌/◌, ◌%◌, ◌^◌, ◌<◌, ◌≡◌, refl, ap, List, arith, Bool-cases, inl, inr,
  ◌==◌, ◌&&◌, length, u32, min, bit_and,
}
use ikpir.Bits.{bit_and_mask, two_pow_pos, two_pow_mono}
use ikpir.Cuckoo.CellStream.{div_ceil}
use ikpir.Cuckoo.CellStream.Number.{Fits}
use ikpir.Cuckoo.Table.{FingerprintValueTable, value_size_in_cells}
use ikpir.Cuckoo.Table.Slot.{IsValue}
use ikpir.Cuckoo.Store.{fill_acc, pack_cells, pack_value_bytes_to_cells}

pub pack_cells-Fits :
    (left i : ℕ) (bytes : List ℕ) (acc bits_in_acc value_bits pb : ℕ)
    → Fits pb (pack_cells left i bytes acc bits_in_acc value_bits pb)
      × (length (pack_cells left i bytes acc bits_in_acc value_bits pb) ≡ left)
unfolding pack_cells
pack_cells-Fits zero i bytes acc bits value_bits pb = (tt, refl)
pack_cells-Fits (suc left) i bytes acc bits value_bits pb =
    let f = fill_acc bytes acc bits pb in
    let n = min (value_bits - i * pb) pb in
    let rest = pack_cells-Fits left (i + 1) f.2 (f.0 / 2 ^ n) (f.1 - n) value_bits pb in
    let cell-lt : u32 (bit_and f.0 (2 ^ n - 1)) < 2 ^ pb =
      omega
        (arith, bit_and_mask n f.0, mod-lt f.0 (two_pow_pos n), two_pow_mono n pb (omega arith)) in
    ((cell-lt, rest.0), ap suc rest.1)

-- The cells are within their width, and as many as hold `vb` bits.
pub pack-Fits :
    (bytes : List ℕ) (vb pb : ℕ)
    → Fits 8 bytes
    → length bytes ≡ div_ceil vb 8
    → Fits pb (pack_value_bytes_to_cells bytes vb pb)
      × (length (pack_value_bytes_to_cells bytes vb pb) ≡ div_ceil vb pb)
unfolding pack_value_bytes_to_cells
pack-Fits bytes vb pb fit len = elim (Bool-cases (pb == 8 && (vb % 8 == 0))) [
  | inl fast ↦ let e : pb ≡ 8 = ground (arith, fast) in rw fast (rw e fit, rw e len)
  | inr slow ↦ rw slow (pack_cells-Fits (div_ceil vb pb) 0 bytes 0 0 vb pb)
]

-- The cells of a value that `insert` and `update` hand to the table.
pub pack-IsValue :
    (t : FingerprintValueTable) (bytes : List ℕ)
    → Fits 8 bytes
    → length bytes ≡ div_ceil t.value_bits 8
    → IsValue t (pack_value_bytes_to_cells bytes t.value_bits t.plaintext_bits)
unfolding value_size_in_cells
pack-IsValue t bytes fit len =
    let r = pack-Fits bytes t.value_bits t.plaintext_bits fit len in
    record { fits = r.0; size = r.1 }
