-- ===== src/Cuckoo/Store/Payload/Change.antt =====
-- What a write of a slot does to the cells of the table: a cell of the slot changes by the
-- difference of the payloads that `pack_slot_cells` builds off the table, and no other changes.
use native.Mathlib.Nat.{mod-lt, mod-eq_of_lt, div-div-eq-div-mul}
use ikpir.Prelude.{
  ℕ, ◌+◌, ◌*◌, ◌/◌, ◌%◌, ◌^◌, ◌≤◌, ◌<◌, ◌≡◌, sym, ap, ap₂, ◌∙◌, List, some, arith, get_or, length,
  some-injective, inl, inr, zero, suc, ◌-◌, ◌⊎◌, refl, [], ◌∷◌,
}
use ikpir.Bits.{two_pow_add, two_pow_pos}
use ikpir.Bits.Digit.{field-add}
use ikpir.Bits.Field.{field, field-put, split, divmod_unique, put-high}
use ikpir.Bits.Power.{mod_glue, field-put_disjoint}
use ikpir.Cuckoo.CellStream.Number.{Fits, number, cell-field}
use ikpir.Cuckoo.Scheme.{SchemeKind}
use ikpir.Cuckoo.Table.{
  FingerprintValueTable, value_size_in_cells, with_cells, read_fingerprint, read_value, write,
}
use ikpir.Cuckoo.Table.Slot.{
  IsTable, IsValue, InRange, content, position, entry, read_fingerprint_lem, read_value_lem,
  room_lem,
}
use ikpir.Cuckoo.Table.Write.{result}
use ikpir.Cuckoo.Store.Build.{CuckooParams, cells_per_slot}
use ikpir.Cuckoo.Store.Payload.{value_cells, pack_slot_cells, pack_slot_cells_lem}

-- `params()` of a store with this table.
abbrev pub of_table : SchemeKind → FingerprintValueTable → CuckooParams
of_table kind t = record {
  scheme_kind = kind;
  num_buckets = t.num_buckets;
  bucket_size = t.bucket_size;
  fingerprint_bits = t.fingerprint_bits;
  value_bits = t.value_bits;
  plaintext_bits = t.plaintext_bits;
}

-- The table's slots are as wide as its parameters say.
abbrev pub IsDescribed : SchemeKind → FingerprintValueTable → Type 0
IsDescribed kind t = cells_per_slot (of_table kind t) ≡ t.cells_per_slot

-- The first cell of a slot.
abbrev pub base : FingerprintValueTable → ℕ → ℕ → ℕ
base t bucket slot = (bucket * t.bucket_size + slot) * t.cells_per_slot

abbrev pub digit : ℕ → ℕ → ℕ → ℕ
digit pb n k = field n (2 ^ (k * pb)) (2 ^ pb)

-- The packed payload is the entry's digits.
pub payload_digit :
    (kind : SchemeKind) (t : FingerprintValueTable) (fp : ℕ) (value : List ℕ)
    → IsDescribed kind t
    → IsTable t
    → IsValue t value
    → (buf : List ℕ) × (pack_slot_cells (of_table kind t) fp value ≡ some buf)
      × (length buf ≡ t.cells_per_slot)
      × Fits t.plaintext_bits buf
      × ((k : ℕ)
          → get_or buf k 0
            ≡ digit t.plaintext_bits (entry t fp value % 2 ^ (t.fingerprint_bits + t.value_bits)) k)
unfolding value_cells value_size_in_cells
payload_digit kind t fp value d w v =
    let fb = t.fingerprint_bits in
    let vb = t.value_bits in
    let pb = t.plaintext_bits in
    let room : fb + vb ≤ cells_per_slot (of_table kind t) * pb = rw d w.slot_room in
    let x = pack_slot_cells_lem (of_table kind t) fp value w.pb_pos w.pb_le room v.fits v.size in
    let fits : Fits pb x.0 = x.2 in
    let V = number pb value in
    let parts = divmod_unique (2 ^ fb) V (fp % 2 ^ fb) (mod-lt fp (two_pow_pos fb)) in
    let low : entry t fp value % 2 ^ (fb + vb) ≡ V % 2 ^ vb * 2 ^ fb + fp % 2 ^ fb =
      sym (mod_glue (entry t fp value) fb vb)
      ∙ ap₂ (λ a b. a % 2 ^ vb * 2 ^ fb + b) parts.0 parts.1 in
    let bits : number pb x.0 ≡ entry t fp value % 2 ^ (fb + vb) = x.4 ∙ sym low in
    (x.0, x.1, x.3 ∙ d, fits, λ k. sym (cell-field pb x.0 k fits) ∙ ap (λ n. digit pb n k) bits)

module _ (t : FingerprintValueTable) (bucket slot : ℕ) (w : IsTable t) where
  -- The cells from a slot on, as a number.
  abbrev above : ℕ
  above = content t / 2 ^ position t bucket slot

  cell-digit : (k : ℕ) → get_or t.cells (base t bucket slot + k) 0 ≡ digit t.plaintext_bits above k
  cell-digit k =
      let pb = t.plaintext_bits in
      let at = position t bucket slot in
      let e : (base t bucket slot + k) * pb ≡ at + k * pb = grind arith in
      sym (cell-field pb t.cells (base t bucket slot + k) w.fits)
      ∙ ap (λ n. content t / 2 ^ n % 2 ^ pb) e
      ∙ ap (λ n. content t / n % 2 ^ pb) (two_pow_add at (k * pb))
      ∙ ap (λ n. n % 2 ^ pb) (sym (div-div-eq-div-mul (content t) (2 ^ at) (2 ^ (k * pb))))

  split-digit :
      (E k : ℕ)
      → digit t.plaintext_bits above k
        ≡ digit t.plaintext_bits (above % 2 ^ E) k
          + digit t.plaintext_bits (above / 2 ^ E * 2 ^ E) k
  split-digit E k =
      let pb = t.plaintext_bits in
      let parts : above ≡ above % 2 ^ E + above / 2 ^ E * 2 ^ E =
        omega (arith, split (2 ^ E) above) in
      ap (λ n. digit pb n k) parts
      ∙ field-add (above % 2 ^ E) (above / 2 ^ E) E (k * pb) pb (mod-lt above (two_pow_pos E))

  -- What the slot reads as is its low bits.
  held_entry :
      (fp : ℕ) (value : List ℕ)
      → InRange t bucket slot
      → read_fingerprint t bucket slot ≡ some fp
      → read_value t bucket slot ≡ some value
      → (entry t fp value % 2 ^ (t.fingerprint_bits + t.value_bits)
          ≡ above % 2 ^ (t.fingerprint_bits + t.value_bits))
        × IsValue t value
  held_entry fp value r hf hv =
      let fb = t.fingerprint_bits in
      let vb = t.value_bits in
      let at = position t bucket slot in
      let got = read_value_lem t bucket slot w r in
      let same : got.0 ≡ value = some-injective (sym got.1 ∙ hv) in
      let fp_eq : above % 2 ^ fb ≡ fp =
        some-injective (sym (read_fingerprint_lem t bucket slot w r) ∙ hf) in
      let V = number t.plaintext_bits value in
      let v_eq : V ≡ above / 2 ^ fb % 2 ^ vb =
        ap (number t.plaintext_bits) (sym same)
        ∙ got.3
        ∙ ap (λ (x : ℕ). content t / x % 2 ^ vb) (two_pow_add at fb)
        ∙ ap (λ (x : ℕ). x % 2 ^ vb) (sym (div-div-eq-div-mul (content t) (2 ^ at) (2 ^ fb))) in
      let parts = divmod_unique (2 ^ fb) V (fp % 2 ^ fb) (mod-lt fp (two_pow_pos fb)) in
      let high : entry t fp value / 2 ^ fb % 2 ^ vb ≡ above / 2 ^ fb % 2 ^ vb =
        ap (λ x. x % 2 ^ vb) (parts.0 ∙ v_eq)
        ∙ mod-eq_of_lt (mod-lt (above / 2 ^ fb) (two_pow_pos vb)) in
      let low : entry t fp value % 2 ^ fb ≡ above % 2 ^ fb =
        parts.1 ∙ ap (λ x. x % 2 ^ fb) (sym fp_eq) ∙ mod-eq_of_lt (mod-lt above (two_pow_pos fb)) in
      (
        sym (mod_glue (entry t fp value) fb vb)
            ∙ ap₂ (λ a b. a * 2 ^ fb + b) high low
            ∙ mod_glue above fb vb,
        rw (← same) got.2,
      )

-- A write of a slot that held a pair: with the payloads of the pair held and of the pair written,
-- `after + old = before + new` at each cell of the slot, and the other cells are as before.
pub record IsChange (t t' : FingerprintValueTable) (bucket slot : ℕ) (old new : List ℕ)
    : Type 0 where
  pub old_length : length old ≡ t.cells_per_slot
  pub new_length : length new ≡ t.cells_per_slot
  pub old_fits : Fits t.plaintext_bits old
  pub new_fits : Fits t.plaintext_bits new
  pub inside :
      (k : ℕ)
      → get_or t'.cells (base t bucket slot + k) 0 + get_or old k 0
        ≡ get_or t.cells (base t bucket slot + k) 0 + get_or new k 0
  pub before : (c : ℕ) → c < base t bucket slot → get_or t'.cells c 0 ≡ get_or t.cells c 0

pub write-IsChange :
    (kind : SchemeKind) (t t' : FingerprintValueTable) (bucket slot old_fp new_fp : ℕ)
    (old_value new_value : List ℕ)
    → IsDescribed kind t
    → IsTable t
    → InRange t bucket slot
    → read_fingerprint t bucket slot ≡ some old_fp
    → read_value t bucket slot ≡ some old_value
    → IsValue t new_value
    → write t bucket slot new_fp new_value ≡ some t'
    → (old : List ℕ) × (new : List ℕ) × (pack_slot_cells (of_table kind t) old_fp old_value
        ≡ some old)
      × (pack_slot_cells (of_table kind t) new_fp new_value ≡ some new)
      × IsChange t t' bucket slot old new
write-IsChange kind t t' bucket slot old_fp new_fp old_value new_value d w r hf hv v h =
    let pb = t.plaintext_bits in
    let E = t.fingerprint_bits + t.value_bits in
    let at = position t bucket slot in
    let N = content t in
    let held = held_entry t bucket slot w old_fp old_value r hf hv in
    let old = payload_digit kind t old_fp old_value d w held.1 in
    let new = payload_digit kind t new_fp new_value d w v in
    let res = result t t' bucket slot new_fp new_value w r v h in
    let u = with_cells t res.cells in
    let cells : t'.cells ≡ res.cells = ap (λ (x : FingerprintValueTable). x.cells) res.table in
    let H = N / 2 ^ at in
    let H' = content u / 2 ^ at in
    let high : H' / 2 ^ E ≡ H / 2 ^ E =
      ap (λ x. x / 2 ^ at / 2 ^ E) res.bits
      ∙ put-high N (2 ^ at) (2 ^ E) _ (two_pow_pos at) (two_pow_pos E) in
    let low : H' % 2 ^ E ≡ entry t new_fp new_value % 2 ^ E =
      ap (λ x. x / 2 ^ at % 2 ^ E) res.bits
      ∙ field-put N (2 ^ at) (2 ^ E) _ (two_pow_pos at) (two_pow_pos E) in
    (
      old.0,
      new.0,
      old.1,
      new.1,
      record {
        old_length = old.2;
        new_length = new.2;
        old_fits = old.3;
        new_fits = new.3;
        inside = λ k. omega (
          arith,
          ap (λ (c : List ℕ). get_or c (base t bucket slot + k) 0) cells,
          cell-digit u bucket slot res.valid k,
          cell-digit t bucket slot w k,
          split-digit u bucket slot res.valid E k,
          split-digit t bucket slot w E k,
          ap (λ x. digit pb (x * 2 ^ E) k) high,
          ap (λ x. digit pb x k) low,
          ap (λ x. digit pb x k) held.0,
          old.4 k,
          new.4 k,
        );
        before = λ c lt.
            let room : c * pb + pb ≤ at = room_lem c (base t bucket slot) pb lt in
            ap (λ (c' : List ℕ). get_or c' c 0) cells
            ∙ sym (cell-field pb res.cells c (res.valid).fits)
            ∙ ap (λ x. field x (2 ^ (c * pb)) (2 ^ pb)) res.bits
            ∙ field-put_disjoint N at E (c * pb) pb _ (inr room)
            ∙ cell-field pb t.cells c w.fits;
      },
    )

past_end : (xs : List ℕ) (i : ℕ) → length xs ≤ i → get_or xs i 0 ≡ 0
past_end [] i h = refl
past_end (x ∷ xs) zero h = absurd (omega arith)
past_end (x ∷ xs) (suc i) h = past_end xs i (omega arith)

-- The cells outside the slot are as before.
pub unchanged_cell :
    (t t' : FingerprintValueTable) (bucket slot : ℕ) (old new : List ℕ) (c : ℕ)
    → IsChange t t' bucket slot old new
    → (c < base t bucket slot) ⊎ (base t bucket slot + t.cells_per_slot ≤ c)
    → get_or t'.cells c 0 ≡ get_or t.cells c 0
unchanged_cell t t' bucket slot old new c h (inl lt) = h.before c lt
unchanged_cell t t' bucket slot old new c h (inr le) =
    let k = c - base t bucket slot in
    let e : base t bucket slot + k ≡ c = omega arith in
    omega (
      arith,
      h.inside k,
      past_end old k (omega (arith, h.old_length)),
      past_end new k (omega (arith, h.new_length)),
      ap (λ x. get_or t'.cells x 0) e,
      ap (λ x. get_or t.cells x 0) e,
    )
