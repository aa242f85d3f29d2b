-- ===== src/Cuckoo/Store/Payload.antt =====
-- store.rs, `pack_slot_cells`: the payload of a slot, built off the store.
pub mod Change
use native.Mathlib.Nat.{mod-lt, div-eq_of_lt, mod-eq_of_lt}
use ikpir.Prelude.{
  ℕ, zero, suc, ◌+◌, ◌*◌, ◌/◌, ◌%◌, ◌^◌, ◌≤◌, ◌<◌, List, Option, some, arith, ◌≡◌, refl, ap, ◌∙◌,
  length, replicate, length-replicate, ◌==◌, ==_iff, assert, true, ◌>>◌,
}
use ikpir.Bits.{two_pow_pos}
use ikpir.Bits.Field.{put}
use ikpir.Cuckoo.CellStream.{div_ceil, slot_write_bits, write_values}
use ikpir.Cuckoo.CellStream.Number.{Fits, number}
use ikpir.Cuckoo.CellStream.Write.{slot_write_bits_lem}
use ikpir.Cuckoo.CellStream.Values.{write_values_all}
use ikpir.Cuckoo.Store.Build.{CuckooParams, cells_per_slot}

unfoldable pub value_cells : CuckooParams → ℕ
value_cells p = div_ceil p.value_bits p.plaintext_bits

-- The buffer `out`, of the right length, is zeroed and filled.
unfoldable pub pack_slot_cells : CuckooParams → ℕ → List ℕ → Option (List ℕ)
pack_slot_cells p fingerprint value = do
  assert (length value == value_cells p)
  let pb = p.plaintext_bits
  let out = slot_write_bits (replicate (cells_per_slot p) 0) 0 p.fingerprint_bits fingerprint pb
  some (write_values (value_cells p) out pb p.value_bits value p.fingerprint_bits 0)

pub zeros : (pb n : ℕ) → Fits pb (replicate n 0) × (number pb (replicate n 0) ≡ 0)
unfolding number
zeros pb zero = (tt, refl)
zeros pb (suc n) =
    let rest = zeros pb n in
    ((two_pow_pos pb, rest.0), omega (arith, ap (λ (t : ℕ). t * 2 ^ pb) rest.1))

put_small : (m p q v : ℕ) → m < p → 0 < q → put m p q v ≡ v % q * p + m
put_small m p q v h i =
    let none_above : m / p ≡ 0 = div-eq_of_lt h in
    let zero_above : 0 / q ≡ 0 = div-eq_of_lt i in
    rw (none_above, zero_above, mod-eq_of_lt h) (omega arith)

pub pack_slot_cells_lem :
    (p : CuckooParams) (fingerprint : ℕ) (value : List ℕ)
    → 1 ≤ p.plaintext_bits
    → p.plaintext_bits ≤ 32
    → p.fingerprint_bits + p.value_bits ≤ cells_per_slot p * p.plaintext_bits
    → Fits p.plaintext_bits value
    → length value ≡ value_cells p
    → (cells : List ℕ) × (pack_slot_cells p fingerprint value ≡ some cells)
      × Fits p.plaintext_bits cells
      × (length cells ≡ cells_per_slot p)
      × (number p.plaintext_bits cells
          ≡ number p.plaintext_bits value % 2 ^ p.value_bits * 2 ^ p.fingerprint_bits
            + fingerprint % 2 ^ p.fingerprint_bits)
unfolding pack_slot_cells value_cells
pack_slot_cells_lem p fp value pos small room fit len =
    let pb = p.plaintext_bits in
    let fb = p.fingerprint_bits in
    let vb = p.value_bits in
    let blank = replicate (cells_per_slot p) 0 in
    let z = zeros pb (cells_per_slot p) in
    let size : length blank ≡ cells_per_slot p = length-replicate (cells_per_slot p) 0 in
    let room1 : 0 + fb ≤ length blank * pb = rw size (omega arith) in
    let first = slot_write_bits_lem pb pos small blank 0 fb fp z.0 room1 in
    let out = slot_write_bits blank 0 fb fp pb in
    let room2 : fb + vb ≤ length out * pb = rw (first.1, size) room in
    let second = write_values_all pb pos small vb fb out value first.0 fit room2 in
    let low : number pb out ≡ fp % 2 ^ fb =
      first.2
      ∙ ap (λ (n : ℕ). put n (2 ^ 0) (2 ^ fb) fp) z.1
      ∙ put_small 0 (2 ^ 0) (2 ^ fb) fp (two_pow_pos 0) (two_pow_pos fb)
      ∙ omega arith in
    let whole = second.2 ∙ ap (λ (n : ℕ). put n (2 ^ fb) (2 ^ vb) (number pb value)) low in
    let checked : (length value == div_ceil vb pb) ≡ true = (==_iff _ _).1 len in
    (
      _,
      rw checked refl,
      second.0,
      second.1 ∙ first.1 ∙ size,
      whole
          ∙ put_small (fp % 2 ^ fb) (2 ^ fb) (2 ^ vb) (number pb value) (mod-lt fp (two_pow_pos fb))
              (two_pow_pos vb),
    )
