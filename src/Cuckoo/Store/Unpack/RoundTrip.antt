-- ===== src/Cuckoo/Store/Unpack/RoundTrip.antt =====
-- store.rs: a value packed into a slot by `pack_value_bytes_to_cells` and `pack_slot_cells`, and
-- taken out again by `unpack_slot_cells`.
use native.Mathlib.Nat.{mod-lt, mod-eq_of_lt}
use ikpir.Prelude.{
  arith, ℕ, ◌+◌, ◌*◌, ◌/◌, ◌%◌, ◌^◌, ◌≤◌, ◌<◌, ◌≡◌, ap, ap₂, ◌∙◌, sym, List, Option, some, ◌>>=◌,
  length,
}
use ikpir.Bits.{two_pow_pos}
use ikpir.Bits.Field.{divmod_unique}
use ikpir.Cuckoo.CellStream.{div_ceil}
use ikpir.Cuckoo.CellStream.Number.{Fits, number, number-injective}
use ikpir.Cuckoo.Store.{pack_value_bytes_to_cells}
use ikpir.Cuckoo.Store.Build.{CuckooParams, cells_per_slot}
use ikpir.Cuckoo.Store.Pack.{pack-Fits}
use ikpir.Cuckoo.Store.Pack.Number.{pack-number}
use ikpir.Cuckoo.Store.Payload.{pack_slot_cells, pack_slot_cells_lem, value_cells}
use ikpir.Cuckoo.Store.Unpack.{unpack_slot_cells}
use ikpir.Cuckoo.Store.Unpack.Bytes.{unpack_slot_cells_lem}

-- The slot of a value, from its bytes, and what it unpacks into.
abbrev pub unpack_packed : CuckooParams → ℕ → List ℕ → Option (ℕ × List ℕ)
unpack_packed p fingerprint bytes = do
  let value = pack_value_bytes_to_cells bytes p.value_bits p.plaintext_bits
  slot ← pack_slot_cells p fingerprint value
  some (unpack_slot_cells p slot)

-- For cells of 1 to 32 bits and a slot with enough of them, a fingerprint of 1 to 64 bits within
-- its width, and bytes in the number that `value_bits` asks for and with no bit above it, packing
-- the bytes into a slot succeeds and the slot unpacks into the same fingerprint and bytes.
pub unpack-pack :
    (p : CuckooParams) (fingerprint : ℕ) (bytes : List ℕ)
    → 1 ≤ p.plaintext_bits
    → p.plaintext_bits ≤ 32
    → 1 ≤ p.fingerprint_bits
    → p.fingerprint_bits ≤ 64
    → p.fingerprint_bits + p.value_bits ≤ cells_per_slot p * p.plaintext_bits
    → fingerprint < 2 ^ p.fingerprint_bits
    → Fits 8 bytes
    → length bytes ≡ div_ceil p.value_bits 8
    → number 8 bytes < 2 ^ p.value_bits
    → unpack_packed p fingerprint bytes ≡ some (fingerprint, bytes)
unfolding value_cells
unpack-pack p fp bytes pos small fb_pos fb_small room fp_lt fit len lt =
    let pb = p.plaintext_bits in
    let fb = p.fingerprint_bits in
    let vb = p.value_bits in
    let value = pack_value_bytes_to_cells bytes vb pb in
    let cells = pack-Fits bytes vb pb fit len in
    let packed = pack_slot_cells_lem p fp value pos small room cells.0 cells.1 in
    let slot = packed.0 in
    let stored : number pb slot ≡ number 8 bytes * 2 ^ fb + fp =
      packed.4
      ∙ ap₂ (λ x y. x * 2 ^ fb + y)
          (ap (λ x. x % 2 ^ vb) (pack-number bytes vb pb pos small fit len)
            ∙ mod-eq_of_lt (mod-lt _ (two_pow_pos vb))
            ∙ mod-eq_of_lt lt)
          (mod-eq_of_lt fp_lt) in
    let digits = divmod_unique (2 ^ fb) (number 8 bytes) fp fp_lt in
    let out =
      unpack_slot_cells_lem p slot packed.2 pos small fb_pos fb_small
        (omega (arith, room, ap (λ k. k * pb) packed.3)) in
    let same_fp : (unpack_slot_cells p slot).0 ≡ fp =
      out.0 ∙ ap (λ x. x % 2 ^ fb) stored ∙ digits.1 in
    let same_value : number 8 (unpack_slot_cells p slot).1 ≡ number 8 bytes =
      out.3
      ∙ ap (λ x. x / 2 ^ fb % 2 ^ vb) stored
      ∙ ap (λ x. x % 2 ^ vb) digits.0
      ∙ mod-eq_of_lt lt in
    let same_bytes : (unpack_slot_cells p slot).1 ≡ bytes =
      number-injective 8 _ bytes out.1 fit (out.2 ∙ sym len) same_value in
    rw packed.1 (ap some (ap₂ (λ x y. (x, y)) same_fp same_bytes))
