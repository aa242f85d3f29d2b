-- ===== src/Cuckoo/Store/History/Fresh.antt =====
-- The store that a constructor builds is clean: all its cells are zero.
use native.Mathlib.Nat.{div-eq_of_lt, mod-eq_of_lt}
use ikpir.Prelude.{◌^◌, ◌≡◌, ◌%◌, ◌+◌, sym, ap, ◌∙◌, some, length, replicate, ℕ}
use ikpir.Bits.{two_pow_pos}
use ikpir.Bits.Field.{field}
use ikpir.Cuckoo.CellStream.Number.{number, number-injective}
use ikpir.Cuckoo.Table.{FingerprintValueTable}
use ikpir.Cuckoo.Table.Slot.{IsTable, content, position, read_value_lem}
use ikpir.Cuckoo.Store.Payload.{zeros}
use ikpir.Cuckoo.Store.History.{IsClean, zero_value, zero-IsPair}

zero_field : (p q : ℕ) → field 0 (2 ^ p) (2 ^ q) ≡ 0
zero_field p q = ap (λ x. x % 2 ^ q) (div-eq_of_lt (two_pow_pos p)) ∙ mod-eq_of_lt (two_pow_pos q)

pub zero_cells-IsClean :
    (t : FingerprintValueTable) → IsTable t → t.cells ≡ replicate (length t.cells) 0 → IsClean t
zero_cells-IsClean t w e bucket slot r h =
    let got = read_value_lem t bucket slot w r in
    let none : content t ≡ 0 =
      ap (number t.plaintext_bits) e ∙ (zeros t.plaintext_bits (length t.cells)).1 in
    let z = zero-IsPair t in
    let value_zero : number t.plaintext_bits got.0 ≡ 0 =
      got.3
      ∙ ap (λ x. field x (2 ^ (position t bucket slot + t.fingerprint_bits)) (2 ^ t.value_bits))
          none
      ∙ zero_field _ _ in
    let same : got.0 ≡ zero_value t =
      number-injective t.plaintext_bits got.0 (zero_value t) (got.2).fits z.valid.fits
        ((got.2).size ∙ sym z.valid.size) (value_zero ∙ sym (zeros t.plaintext_bits _).1) in
    got.1 ∙ ap some same
