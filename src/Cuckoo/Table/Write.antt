-- ===== src/Cuckoo/Table/Write.antt =====
-- What a write of a slot does to the reads of this slot and of every other one, and how it is undone.
use native.Mathlib.Nat.{mod-lt, mod-eq_of_lt, div-div-eq-div-mul}
use ikpir.Prelude.{
  ℕ, ◌+◌, ◌*◌, ◌/◌, ◌%◌, ◌^◌, ◌≤◌, ◌<◌, ◌≡◌, ◌≢◌, ◌⊎◌, inl, inr, sym, ap, ap₂, ◌∙◌, List, some,
  arith, some-injective,
}
use ikpir.Bits.{two_pow_add, two_pow_pos}
use ikpir.Bits.Field.{field, put, put-field, field-put, divmod_unique}
use ikpir.Bits.Power.{field-put_disjoint, mod_glue, mod_mod_le, mod-div}
use ikpir.Cuckoo.CellStream.Number.{number, number-injective}
use ikpir.Cuckoo.Table.{
  FingerprintValueTable, with_cells, value_size_in_cells, read_fingerprint, read_value, write,
}
use ikpir.Cuckoo.Table.Slot.{
  IsTable, IsValue, InRange, content, position, entry, read_fingerprint_lem, read_value_lem,
  write_lem,
}

-- The width of an entry.
abbrev width : FingerprintValueTable → ℕ
width t = t.fingerprint_bits + t.value_bits

pub index-apart : (k k' W E : ℕ) → E ≤ W → k ≢ k' → (k * W + E ≤ k' * W) ⊎ (k' * W + E ≤ k * W)
index-apart k k' W E h ne = elim cases [ inl lt ↦ inl grind arith | inr gt ↦ inr grind arith ]
  where
    cases : (k < k') ⊎ (k' < k)
    cases = omega arith

-- Two slots share no bit.
apart_lem :
    (t : FingerprintValueTable) (bucket slot bucket' slot' : ℕ)
    → IsTable t
    → InRange t bucket slot
    → InRange t bucket' slot'
    → (bucket ≢ bucket') ⊎ (slot ≢ slot')
    → (position t bucket slot + width t ≤ position t bucket' slot')
      ⊎ (position t bucket' slot' + width t ≤ position t bucket slot)
apart_lem t bucket slot bucket' slot' w r r' other =
    let k = bucket * t.bucket_size + slot in
    let k' = bucket' * t.bucket_size + slot' in
    let differ : k ≢ k' = λ e.
      let one = divmod_unique t.bucket_size bucket slot r.slot_lt in
      let two = divmod_unique t.bucket_size bucket' slot' r'.slot_lt in
      let b : bucket ≡ bucket' = sym one.0 ∙ ap (λ (x : ℕ). x / t.bucket_size) e ∙ two.0 in
      let s : slot ≡ slot' = sym one.1 ∙ ap (λ (x : ℕ). x % t.bucket_size) e ∙ two.1 in
      elim other [ inl ne ↦ ne b | inr ne ↦ ne s ] in
    let W = t.cells_per_slot * t.plaintext_bits in
    omega (arith, index-apart k k' W (width t) w.slot_room differ)

module _ (t t' : FingerprintValueTable) (bucket slot fp : ℕ) (value : List ℕ) (w : IsTable t)
    (r : InRange t bucket slot) (v : IsValue t value)
    (h : write t bucket slot fp value ≡ some t') where
  -- What is known of the table that a write returns.
  pub record Result : Type 0 where
    pub cells : List ℕ
    pub table : t' ≡ with_cells t cells
    pub valid : IsTable (with_cells t cells)
    pub bits :
        content (with_cells t cells)
        ≡ put (content t) (2 ^ position t bucket slot) (2 ^ width t) (entry t fp value)

  pub result : Result
  result =
      let x = write_lem t bucket slot w r fp value v in
      record { cells = x.0; table = some-injective (sym h ∙ x.1); valid = x.2; bits = x.3 }

  slot_written :
      content (with_cells t result.cells) / 2 ^ position t bucket slot % 2 ^ width t
      ≡ entry t fp value % 2 ^ width t
  slot_written =
      ap (λ (x : ℕ). field x (2 ^ position t bucket slot) (2 ^ width t)) result.bits
      ∙ field-put (content t) (2 ^ position t bucket slot) (2 ^ width t) _
          (two_pow_pos (position t bucket slot)) (two_pow_pos (width t))

  in_range : InRange (with_cells t result.cells) bucket slot
  in_range = record { bucket_lt = r.bucket_lt; slot_lt = r.slot_lt }

  -- The slot reads as the fingerprint written.
  pub read_fingerprint-write :
      fp < 2 ^ t.fingerprint_bits → read_fingerprint t' bucket slot ≡ some fp
  read_fingerprint-write fp_lt =
      let res = result in
      let u = with_cells t res.cells in
      let at = position t bucket slot in
      let fb = t.fingerprint_bits in
      let N' = content u in
      let parts =
        divmod_unique (2 ^ fb) (number t.plaintext_bits value) (fp % 2 ^ fb)
          (mod-lt fp (two_pow_pos fb)) in
      let low : N' / 2 ^ at % 2 ^ fb ≡ fp =
        sym (mod_mod_le _ fb (width t) (omega arith))
        ∙ ap (λ (x : ℕ). x % 2 ^ fb) slot_written
        ∙ mod_mod_le _ fb (width t) (omega arith)
        ∙ parts.1
        ∙ mod-eq_of_lt fp_lt in
      rw res.table (read_fingerprint_lem u bucket slot res.valid in_range ∙ ap some low)

  -- After a write that returns, of a value with the right number of cells to a slot of a well-formed
  -- table, the slot reads as the fingerprint and the value written, when both fit their widths.
  pub write-read :
      fp < 2 ^ t.fingerprint_bits
      → number t.plaintext_bits value < 2 ^ t.value_bits
      → (read_fingerprint t' bucket slot ≡ some fp) × (read_value t' bucket slot ≡ some value)
  unfolding value_size_in_cells
  write-read fp_lt value_lt =
      let res = result in
      let u = with_cells t res.cells in
      let at = position t bucket slot in
      let fb = t.fingerprint_bits in
      let vb = t.value_bits in
      let N' = content u in
      let V = number t.plaintext_bits value in
      let parts = divmod_unique (2 ^ fb) V (fp % 2 ^ fb) (mod-lt fp (two_pow_pos fb)) in
      let high : N' / 2 ^ (at + fb) % 2 ^ vb ≡ V =
        ap (λ (x : ℕ). N' / x % 2 ^ vb) (two_pow_add at fb)
        ∙ ap (λ (x : ℕ). x % 2 ^ vb) (sym (div-div-eq-div-mul N' (2 ^ at) (2 ^ fb)))
        ∙ sym (mod-div _ fb vb)
        ∙ ap (λ (x : ℕ). x / 2 ^ fb) slot_written
        ∙ mod-div _ fb vb
        ∙ ap (λ (x : ℕ). x % 2 ^ vb) parts.0
        ∙ mod-eq_of_lt value_lt in
      let got = read_value_lem u bucket slot res.valid in_range in
      let same : got.0 ≡ value =
        number-injective t.plaintext_bits got.0 value (got.2).fits v.fits
          ((got.2).size ∙ sym v.size) (got.3 ∙ high) in
      (read_fingerprint-write fp_lt, rw res.table (got.1 ∙ ap some same))

  -- After a write that returns, of a value with the right number of cells to a slot of a well-formed
  -- table, writing back what the slot read before gives the table before the write, cell for cell.
  pub write-restore :
      (old_fp : ℕ) (old_value : List ℕ)
      → read_fingerprint t bucket slot ≡ some old_fp
      → read_value t bucket slot ≡ some old_value
      → write t' bucket slot old_fp old_value ≡ some t
  unfolding value_size_in_cells
  write-restore old_fp old_value hf hv =
      let res = result in
      let u = with_cells t res.cells in
      let at = position t bucket slot in
      let fb = t.fingerprint_bits in
      let vb = t.value_bits in
      let N = content t in
      let F = field N (2 ^ at) (2 ^ fb) in
      let got = read_value_lem t bucket slot w r in
      let fp_eq : F ≡ old_fp = some-injective (sym (read_fingerprint_lem t bucket slot w r) ∙ hf) in
      let value_eq : got.0 ≡ old_value = some-injective (sym got.1 ∙ hv) in
      let r' : InRange u bucket slot = record { bucket_lt = r.bucket_lt; slot_lt = r.slot_lt } in
      let v' : IsValue u got.0 = record { fits = (got.2).fits; size = (got.2).size } in
      let back = write_lem u bucket slot res.valid r' F got.0 v' in
      let old : entry t F got.0 ≡ field N (2 ^ at) (2 ^ (fb + vb)) =
        ap₂ (λ (x y : ℕ). x * 2 ^ fb + y)
          (got.3
            ∙ ap (λ (x : ℕ). N / x % 2 ^ vb) (two_pow_add at fb)
            ∙ ap (λ (x : ℕ). x % 2 ^ vb) (sym (div-div-eq-div-mul N (2 ^ at) (2 ^ fb))))
          (mod-eq_of_lt (mod-lt _ (two_pow_pos fb)))
        ∙ mod_glue (N / 2 ^ at) fb vb in
      let bits : number t.plaintext_bits back.0 ≡ N =
        back.3
        ∙ ap₂ (λ (x y : ℕ). put x (2 ^ at) (2 ^ (fb + vb)) y) res.bits old
        ∙ put-field N (2 ^ at) (2 ^ (fb + vb)) _ (two_pow_pos at) (two_pow_pos (fb + vb)) in
      let same : back.0 ≡ t.cells =
        number-injective t.plaintext_bits back.0 t.cells (back.2).fits w.fits
          ((back.2).size ∙ sym w.size) bits in
      rw (← fp_eq, ← value_eq, res.table) (back.1 ∙ ap (λ (c : List ℕ). some (with_cells t c)) same)

  -- After a write that returns, of a value with the right number of cells to a slot of a well-formed
  -- table, every other slot of the table reads as before.
  pub write-frame :
      (bucket' slot' : ℕ)
      → InRange t bucket' slot'
      → (bucket ≢ bucket') ⊎ (slot ≢ slot')
      → (read_fingerprint t' bucket' slot' ≡ read_fingerprint t bucket' slot')
        × (read_value t' bucket' slot' ≡ read_value t bucket' slot')
  unfolding value_size_in_cells
  write-frame bucket' slot' r' other =
      let res = result in
      let u = with_cells t res.cells in
      let at = position t bucket slot in
      let at' = position t bucket' slot' in
      let fb = t.fingerprint_bits in
      let vb = t.value_bits in
      let apart : (at + (fb + vb) ≤ at') ⊎ (at' + (fb + vb) ≤ at) =
        apart_lem t bucket slot bucket' slot' w r r' other in
      let r'' : InRange u bucket' slot' = record {
        bucket_lt = r'.bucket_lt;
        slot_lt = r'.slot_lt;
      } in
      let same : (p n : ℕ)
          → at' ≤ p
          → p + n ≤ at' + (fb + vb)
          → field (content u) (2 ^ p) (2 ^ n) ≡ field (content t) (2 ^ p) (2 ^ n) =
        λ p n lo hi.
          ap (λ (x : ℕ). field x (2 ^ p) (2 ^ n)) res.bits
          ∙ field-put_disjoint (content t) at (fb + vb) p n _ (grind arith) in
      let was = read_value_lem t bucket' slot' w r' in
      let is = read_value_lem u bucket' slot' res.valid r'' in
      let value : is.0 ≡ was.0 =
        number-injective t.plaintext_bits is.0 was.0 (is.2).fits (was.2).fits
          ((is.2).size ∙ sym (was.2).size)
          (is.3 ∙ same (at' + fb) vb (omega arith) (omega arith) ∙ sym was.3) in
      rw res.table (
        read_fingerprint_lem u bucket' slot' res.valid r''
            ∙ ap some (same at' fb (omega arith) (omega arith))
            ∙ sym (read_fingerprint_lem t bucket' slot' w r'),
        is.1 ∙ ap some value ∙ sym was.1,
      )
