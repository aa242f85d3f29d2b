-- ===== src/Cuckoo/Store/Unpack/Bytes.antt =====
-- store.rs, `unpack_slot_cells`: the bytes that it writes, as the bits of the value's number.
use native.Mathlib.Nat.{
  div-one, mul-zero, mul_comm, suc-mul, mul-le-mul_right, mod-lt, mod-eq_of_lt, div-eq_of_lt,
  div-div-eq-div-mul,
}
use ikpir.Prelude.{
  ℕ, zero, suc, ◌+◌, ◌-◌, ◌*◌, ◌/◌, ◌%◌, ◌^◌, ◌≤◌, ◌<◌, min, ◌≡◌, refl, sym, ap, ap₂, ◌∙◌, inl, inr,
  List, [], ◌∷◌, Bool-cases, bit_or, u64, ◌==◌, arith, length, length-append,
}
use ikpir.Bits.{two_pow_add, two_pow_pos, two_pow_mono, bit_or_fields, bit_and_mask}
use ikpir.Bits.Field.{field, split}
use ikpir.Bits.Power.{mod-div, mod_mod_le}
use ikpir.Cuckoo.CellStream.{div_ceil, slot_read_bits}
use ikpir.Cuckoo.CellStream.Number.{Fits, number}
use ikpir.Cuckoo.CellStream.Read.{slot_read_bits_lem}
use ikpir.Cuckoo.Store.Build.{CuckooParams}
use ikpir.Cuckoo.Store.Payload.{value_cells}
use ikpir.Cuckoo.Store.Unpack.{drain_bytes, unpack_cells, mask_last, unpack_slot_cells}
use ikpir.Cuckoo.Store.Unpack.Drain.{drain_bytes-Drained, last_bytes_lem, Fits-append}

regroup : (a c n B T : ℕ) → a + c * B + B * n * T ≡ a + B * (c + n * T)
regroup a c n B T = grind arith

cells_between : (a b q : ℕ) → (a + suc b) * q ≡ a * q + b * q + q
cells_between a b q = grind arith

-- A cell of `n` bits above `bits` bits.
pub cell_above :
    (acc bits c n : ℕ) → acc < 2 ^ bits → c < 2 ^ n → acc + c * 2 ^ bits < 2 ^ (bits + n)
cell_above acc bits c n acc_lt c_lt = omega (
  arith,
  acc_lt,
  two_pow_add bits n,
  mul-le-mul_right (2 ^ bits) c_lt,
  suc-mul c (2 ^ bits),
  mul_comm (2 ^ bits) (2 ^ n),
)

module _ (p : CuckooParams) (slot : List ℕ) (fit : Fits p.plaintext_bits slot)
    (pos : 1 ≤ p.plaintext_bits) (small : p.plaintext_bits ≤ 32)
    (inside : p.fingerprint_bits + p.value_bits ≤ length slot * p.plaintext_bits) where
  -- The number of the value.
  abbrev pub value_number : ℕ
  value_number = field (number p.plaintext_bits slot) (2 ^ p.fingerprint_bits) (2 ^ p.value_bits)

  -- `n` bits of the value from bit `m` on.
  value_bits :
      (m n : ℕ)
      → m + n ≤ p.value_bits
      → 1 ≤ n
      → n ≤ 64
      → slot_read_bits slot (p.fingerprint_bits + m) n p.plaintext_bits
        ≡ value_number / 2 ^ m % 2 ^ n
  value_bits m n room one word =
      let S = number p.plaintext_bits slot in
      let X = S / 2 ^ p.fingerprint_bits in
      let e : m + (p.value_bits - m) ≡ p.value_bits = omega (arith, room) in
      slot_read_bits_lem slot p.plaintext_bits fit pos (p.fingerprint_bits + m) n
        (omega (arith, small)) one word (omega (arith, room, inside))
      ∙ ap (λ x. S / x % 2 ^ n) (two_pow_add p.fingerprint_bits m)
      ∙ ap (λ x. x % 2 ^ n) (sym (div-div-eq-div-mul S (2 ^ p.fingerprint_bits) (2 ^ m)))
      ∙ sym (mod_mod_le (X / 2 ^ m) n (p.value_bits - m) (omega (arith, room)))
      ∙ ap (λ x. x % 2 ^ n) (sym (mod-div X m (p.value_bits - m)))
      ∙ ap (λ x. X % 2 ^ x / 2 ^ m % 2 ^ n) e

  -- The loop from cell `ci` on, which has taken `m` bits and holds back fewer than 8 of them.
  unpack_cells_lem :
      (cells ci acc bits left : ℕ)
      → acc < 2 ^ bits
      → bits < 8
      → p.value_bits ≤ (ci + cells) * p.plaintext_bits
      → (1 ≤ cells → (ci + cells) * p.plaintext_bits < p.value_bits + p.plaintext_bits)
      → bits + (p.value_bits - ci * p.plaintext_bits) ≤ 8 * left
      → let out = unpack_cells p slot cells ci acc bits left in
        Fits 8 out
        × (length out ≡ left)
        × (number 8 out
            ≡ acc + 2 ^ bits * (value_number / 2 ^ min (ci * p.plaintext_bits) p.value_bits))
  unfolding unpack_cells
  unpack_cells_lem zero ci acc bits left lt few enough needed room =
      let all : min (ci * p.plaintext_bits) p.value_bits ≡ p.value_bits = omega (arith, enough) in
      let none : value_number / 2 ^ p.value_bits ≡ 0 =
        div-eq_of_lt (mod-lt _ (two_pow_pos p.value_bits)) in
      let last = last_bytes_lem acc bits left lt few (omega (arith, room)) in
      (last.0, last.1, last.2 ∙ rw (all, none) (omega (arith, mul-zero (2 ^ bits))))
  unpack_cells_lem (suc cells) ci acc bits left lt few enough needed room =
      let pb = p.plaintext_bits in
      let m = ci * pb in
      let n = min (p.value_bits - m) pb in
      let more : m < p.value_bits =
        omega (arith, needed (omega arith), cells_between ci cells pb) in
      let c = slot_read_bits slot (p.fingerprint_bits + m) n pb in
      let T = value_number / 2 ^ (m + n) in
      let c_eq : c ≡ value_number / 2 ^ m % 2 ^ n =
        value_bits m n (omega arith) (omega (arith, more, pos)) (omega (arith, small)) in
      let c_lt : c < 2 ^ n = rw c_eq (mod-lt _ (two_pow_pos n)) in
      let above = cell_above acc bits c n lt c_lt in
      let word : u64 (c * 2 ^ bits) ≡ c * 2 ^ bits =
        mod-eq_of_lt
          (omega (arith, above, two_pow_mono (bits + n) 64 (omega (arith, few, small)))) in
      let acc' = bit_or acc (u64 (c * 2 ^ bits)) in
      let acc_eq : acc' ≡ acc + c * 2 ^ bits =
        ap (bit_or acc) word ∙ bit_or_fields bits c acc lt ∙ omega arith in
      let acc_lt : acc' < 2 ^ (bits + n) = omega (arith, acc_eq, above) in
      let moved : suc ci + cells ≡ ci + suc cells = omega arith in
      let d = drain_bytes-Drained (bits + n) acc' (bits + n) left acc_lt (omega arith) in
      let r = drain_bytes (bits + n) acc' (bits + n) left in
      let next : suc ci * pb ≡ m + pb = omega arith in
      let step : min (suc ci * pb) p.value_bits ≡ m + n = omega (arith, next, more) in
      let ih =
        unpack_cells_lem cells (suc ci) r.1 r.2 r.3 d.acc_lt
          (omega (arith, d.stopped, d.bits_eq, d.left_eq, room, next, more)) (rw moved enough)
          (λ one. rw moved (needed (omega arith)))
          (omega (arith, d.bits_eq, d.left_eq, room, next, more)) in
      let later : value_number / 2 ^ m / 2 ^ n ≡ T =
        div-div-eq-div-mul value_number (2 ^ m) (2 ^ n)
        ∙ ap (λ x. value_number / x) (sym (two_pow_add m n)) in
      let quotient : value_number / 2 ^ m / 2 ^ n * 2 ^ n ≡ 2 ^ n * T =
        ap (λ x. x * 2 ^ n) later ∙ mul_comm T (2 ^ n) in
      let here : min m p.value_bits ≡ m = omega (arith, more) in
      let whole : value_number / 2 ^ m ≡ c + 2 ^ n * T =
        omega (arith, split (2 ^ n) (value_number / 2 ^ m), c_eq, quotient) in
      (
        Fits-append r.0 _ d.fits ih.0,
        length-append r.0 _ ∙ omega (arith, ih.1, d.left_eq),
        d.value _ T (ih.2 ∙ ap (λ x. r.1 + 2 ^ r.2 * (value_number / 2 ^ x)) step)
            ∙ ap₂ (λ x y. x + y * T) acc_eq (two_pow_add bits n)
            ∙ regroup acc c (2 ^ n) (2 ^ bits) T
            ∙ ap (λ x. acc + 2 ^ bits * x) (sym whole ∙ ap (λ x. value_number / 2 ^ x) (sym here)),
      )

-- The cells of a value hold its bits, and the last of them is needed.
pub cells_cover : (vb pb : ℕ) → 1 ≤ pb → vb ≤ (0 + div_ceil vb pb) * pb
cells_cover vb pb pos = ground (arith, split pb (vb + pb - 1), mod-lt (vb + pb - 1) pos)

cells_tight : (vb pb : ℕ) → 1 ≤ pb → (0 + div_ceil vb pb) * pb < vb + pb
cells_tight vb pb pos = ground (arith, split pb (vb + pb - 1), mod-lt (vb + pb - 1) pos)

-- The mask of the last byte clears nothing when the number is within the bits it keeps.
mask_last_lem :
    (r : ℕ) (bytes : List ℕ)
    → number 8 bytes < 2 ^ (8 * (length bytes - 1) + r)
    → mask_last (2 ^ r - 1) bytes ≡ bytes
unfolding mask_last number
mask_last_lem r [] lt = refl
mask_last_lem r (b ∷ []) lt =
    let width : 8 * (length {A = ℕ} (b ∷ []) - 1) + r ≡ r = omega arith in
    ap (λ x. x ∷ []) (bit_and_mask r b ∙ mod-eq_of_lt (omega (arith, lt, ap (λ x. 2 ^ x) width)))
mask_last_lem r (b ∷ c ∷ bytes) lt =
    let e : 8 * (length {A = ℕ} (b ∷ c ∷ bytes) - 1) + r ≡ 8 + (8 * (length (c ∷ bytes) - 1) + r) =
      omega arith in
    let pow = two_pow_add 8 (8 * (length (c ∷ bytes) - 1) + r) in
    ap (λ x. b ∷ x) (mask_last_lem r (c ∷ bytes) (omega (arith, lt, ap (λ x. 2 ^ x) e, pow)))

-- For cells of 1 to 32 bits that keep their high bits zero and a fingerprint of 1 to 64 bits, a
-- slot unpacks into the fingerprint's bits, and into bytes within their width, as many as hold
-- `value_bits`, whose number is the value's bits.
pub unpack_slot_cells_lem :
    (p : CuckooParams) (slot : List ℕ)
    → Fits p.plaintext_bits slot
    → 1 ≤ p.plaintext_bits
    → p.plaintext_bits ≤ 32
    → 1 ≤ p.fingerprint_bits
    → p.fingerprint_bits ≤ 64
    → p.fingerprint_bits + p.value_bits ≤ length slot * p.plaintext_bits
    → let out = unpack_slot_cells p slot in
      let stored = number p.plaintext_bits slot in
      (out.0 ≡ stored % 2 ^ p.fingerprint_bits)
      × Fits 8 out.1
      × (length out.1 ≡ div_ceil p.value_bits 8)
      × (number 8 out.1 ≡ field stored (2 ^ p.fingerprint_bits) (2 ^ p.value_bits))
unfolding unpack_slot_cells value_cells
unpack_slot_cells_lem p slot fit pos small fb_pos fb_small inside =
    let vb = p.value_bits in
    let pb = p.plaintext_bits in
    let S = number pb slot in
    let r =
      unpack_cells_lem p slot fit pos small inside (value_cells p) 0 0 0 (div_ceil vb 8)
        (two_pow_pos 0) (omega arith) (cells_cover vb pb pos) (λ one. cells_tight vb pb pos)
        (omega arith) in
    let V = field S (2 ^ p.fingerprint_bits) (2 ^ vb) in
    let V_lt : V < 2 ^ vb = mod-lt _ (two_pow_pos vb) in
    let none : min (0 * pb) vb ≡ 0 = omega arith in
    let whole : number 8 (unpack_cells p slot (value_cells p) 0 0 0 (div_ceil vb 8)) ≡ V =
      r.2 ∙ ap (λ x. 0 + 2 ^ 0 * (V / 2 ^ x)) none ∙ omega arith in
    let kept : (unpack_slot_cells p slot).1
        ≡ unpack_cells p slot (value_cells p) 0 0 0 (div_ceil vb 8) =
      elim (Bool-cases (vb % 8 == 0)) [
        | inl e ↦ rw e refl
        | inr e ↦
            let ragged : (1 ≤ vb % 8) = ground (arith, e) in
            let width : 8 * (div_ceil vb 8 - 1) + vb % 8 ≡ vb = ground (arith, ragged) in
            rw e (mask_last_lem (vb % 8) _ (rw (r.1, whole, width) V_lt))
      ] in
    (
      slot_read_bits_lem slot pb fit pos 0 p.fingerprint_bits (omega (arith, small)) fb_pos fb_small
            (omega (arith, inside))
          ∙ ap (λ x. x % 2 ^ p.fingerprint_bits) (div-one S),
      rw kept r.0,
      ap length kept ∙ r.1,
      ap (number 8) kept ∙ whole,
    )
