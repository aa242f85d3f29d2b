-- ===== src/Cuckoo/Store/Unpack.antt =====
-- store.rs, `unpack_slot_cells`: a slot's cells back into the fingerprint and the bytes of the value.
pub mod Drain
pub mod Bytes
pub mod RoundTrip
use native.Mathlib.Nat.{mod-lt, mod-eq_of_lt, div-eq_of_lt, div-div-eq-div-mul}
use ikpir.Prelude.{
  ℕ, zero, suc, ◌+◌, ◌-◌, ◌*◌, ◌/◌, ◌%◌, ◌^◌, ◌≤◌, ◌<◌, min, ◌≡◌, refl, sym, ap, ap₂, ◌∙◌, ◌⊎◌, inl,
  inr, List, [], ◌∷◌, ◌++◌, Bool, Bool-cases, ◌&&◌, bit_and, bit_or, u64, u32, ltb, leb, ◌==◌,
  if◌then◌else◌, arith, length, length-append, replicate,
}
use ikpir.Bits.{two_pow_add, two_pow_pos, two_pow_mono, bit_or_fields, bit_and_mask}
use ikpir.Bits.Field.{field, split}
use ikpir.Bits.Power.{mod-div, mod_mod_le}
use ikpir.Cuckoo.CellStream.{div_ceil, slot_read_bits}
use ikpir.Cuckoo.CellStream.Number.{Fits, number}
use ikpir.Cuckoo.CellStream.Read.{slot_read_bits_lem}
use ikpir.Cuckoo.Store.Build.{CuckooParams}
use ikpir.Cuckoo.Store.Payload.{value_cells}

-- `while bits_in_acc >= 8 && byte_off < vbytes`: the bytes written, then the accumulator, its bits
-- and the bytes still to be written. Each round takes 8 of the bits, which are the fuel.
unfoldable pub drain_bytes : ℕ → ℕ → ℕ → ℕ → List ℕ × ℕ × ℕ × ℕ
drain_bytes zero acc bits left = ([], acc, bits, left)
drain_bytes (suc fuel) acc bits left =
    let (bytes, acc', bits', left') = drain_bytes fuel (acc / 2 ^ 8) (bits - 8) (left - 1) in
    if leb 8 bits && ltb 0 left
    then (acc % 2 ^ 8 ∷ bytes, acc', bits', left')
    else ([], acc, bits, left)

-- After the last cell: the bits left over make a byte, and the rest of `out` is zero.
unfoldable pub last_bytes : ℕ → ℕ → ℕ → List ℕ
last_bytes acc bits zero = []
last_bytes acc bits (suc left) = (if ltb 0 bits then acc % 2 ^ 8 else 0) ∷ replicate left 0

-- `for ci in 0..v_cells`, from `ci` on, by the cells left.
unfoldable pub unpack_cells : CuckooParams → List ℕ → ℕ → ℕ → ℕ → ℕ → ℕ → List ℕ
unpack_cells p slot zero ci acc bits left = last_bytes acc bits left
unpack_cells p slot (suc cells) ci acc bits left =
    let n = min (p.value_bits - ci * p.plaintext_bits) p.plaintext_bits in
    let c = slot_read_bits slot (p.fingerprint_bits + ci * p.plaintext_bits) n p.plaintext_bits in
    let (bytes, acc, bits, left) =
      drain_bytes (bits + n) (bit_or acc (u64 (c * 2 ^ bits))) (bits + n) left in
    bytes ++ unpack_cells p slot cells (suc ci) acc bits left

-- `*last &= mask`
unfoldable pub mask_last : ℕ → List ℕ → List ℕ
mask_last mask [] = []
mask_last mask (b ∷ []) = bit_and b mask ∷ []
mask_last mask (b ∷ c ∷ bytes) = b ∷ mask_last mask (c ∷ bytes)

unfoldable pub unpack_slot_cells : CuckooParams → List ℕ → ℕ × List ℕ
unpack_slot_cells p slot =
    let out = unpack_cells p slot (value_cells p) 0 0 0 (div_ceil p.value_bits 8) in
    (
      slot_read_bits slot 0 p.fingerprint_bits p.plaintext_bits,
      if p.value_bits % 8 == 0 then out else mask_last (2 ^ (p.value_bits % 8) - 1) out,
    )
