-- ===== src/Cuckoo/Table/Slot.antt =====
-- The slots of a well-formed table as disjoint bit fields of one number: what a read yields and
-- what a write leaves.
use native.Mathlib.Nat.{mod-lt, mod-eq_of_lt}
use ikpir.Prelude.{
  ℕ, ◌+◌, ◌*◌, ◌%◌, ◌^◌, ◌≤◌, ◌<◌, ◌≡◌, refl, sym, ap, ap₂, ◌∙◌, List, some, arith, length, ==_iff,
  lt→ltb, ◌==◌, true, u64,
}
use ikpir.Bits.{two_pow_add, two_pow_pos}
use ikpir.Bits.Field.{field, put, put-put, divmod_unique}
use ikpir.Cuckoo.CellStream.{div_ceil, slot_write_bits, write_values}
use ikpir.Cuckoo.CellStream.Number.{Fits, number}
use ikpir.Cuckoo.CellStream.Read.{slot_read_bits_lem}
use ikpir.Cuckoo.CellStream.Write.{slot_write_bits_lem}
use ikpir.Cuckoo.CellStream.Values.{write_values_all, read_values_all}
use ikpir.Cuckoo.Table.{
  FingerprintValueTable, with_cells, value_size_in_cells, slot_bit_offset, assert_in_range,
  read_bits, write_bits, read_fingerprint, write_fingerprint, read_value, write_value, write,
}

-- A table as the constructors build it and every operation keeps it.
pub record IsTable (t : FingerprintValueTable) : Type 0 where
  pub fb_pos : 1 ≤ t.fingerprint_bits
  pub fb_le : t.fingerprint_bits ≤ 64
  pub vb_pos : 1 ≤ t.value_bits
  pub pb_pos : 1 ≤ t.plaintext_bits
  pub pb_le : t.plaintext_bits ≤ 32
  pub slot_room : t.fingerprint_bits + t.value_bits ≤ t.cells_per_slot * t.plaintext_bits
  pub size : length t.cells ≡ t.num_buckets * t.bucket_size * t.cells_per_slot
  pub small : t.num_buckets * t.bucket_size * t.cells_per_slot * t.plaintext_bits < 2 ^ 64
  pub fits : Fits t.plaintext_bits t.cells

-- All the cells as one number, and the position of a slot in it.
abbrev pub content : FingerprintValueTable → ℕ
content t = number t.plaintext_bits t.cells

abbrev pub position : FingerprintValueTable → ℕ → ℕ → ℕ
position t bucket slot = (bucket * t.bucket_size + slot) * t.cells_per_slot * t.plaintext_bits

-- The bits of a slot, the fingerprint lowest.
abbrev pub entry : FingerprintValueTable → ℕ → List ℕ → ℕ
entry t fp value =
    number t.plaintext_bits value * 2 ^ t.fingerprint_bits + fp % 2 ^ t.fingerprint_bits

pub record InRange (t : FingerprintValueTable) (bucket slot : ℕ) : Type 0 where
  pub bucket_lt : bucket < t.num_buckets
  pub slot_lt : slot < t.bucket_size

-- A value as a caller must hand it over: a cell for each `plaintext_bits` of it.
pub record IsValue (t : FingerprintValueTable) (value : List ℕ) : Type 0 where
  pub fits : Fits t.plaintext_bits value
  pub size : length value ≡ value_size_in_cells t

pub room_lem : (k K w : ℕ) → k < K → k * w + w ≤ K * w
room_lem k K w h = grind arith

module _ (t : FingerprintValueTable) (bucket slot : ℕ) (w : IsTable t)
    (r : InRange t bucket slot) where
  asserted : assert_in_range t bucket slot ≡ some tt
  unfolding assert_in_range
  asserted = rw (lt→ltb _ _ r.bucket_lt, lt→ltb _ _ r.slot_lt)

  index-lt : bucket * t.bucket_size + slot < t.num_buckets * t.bucket_size
  index-lt = grind (arith, r.bucket_lt, r.slot_lt)

  pub room :
      position t bucket slot + (t.fingerprint_bits + t.value_bits)
      ≤ length t.cells * t.plaintext_bits
  room = omega (
    arith,
    w.slot_room,
    ap (λ (n : ℕ). n * t.plaintext_bits) w.size,
    room_lem _ _ (t.cells_per_slot * t.plaintext_bits) index-lt,
  )

  offset : slot_bit_offset t bucket slot ≡ position t bucket slot
  unfolding slot_bit_offset
  offset = mod-eq_of_lt (omega (arith, room, w.small, ap (λ (n : ℕ). n * t.plaintext_bits) w.size))

  pub read_fingerprint_lem :
      read_fingerprint t bucket slot
      ≡ some (field (content t) (2 ^ position t bucket slot) (2 ^ t.fingerprint_bits))
  unfolding read_fingerprint read_bits
  read_fingerprint_lem =
      rw (asserted, offset)
        (ap some (
          slot_read_bits_lem t.cells t.plaintext_bits w.fits w.pb_pos _ _ (omega (arith, w.pb_le))
            w.fb_pos w.fb_le (omega (arith, room))))

  -- The bits of the value, as cells.
  pub read_value_lem :
      (value : List ℕ) × (read_value t bucket slot ≡ some value)
      × IsValue t value
      × (number t.plaintext_bits value
          ≡ field
              (content t)
              (2 ^ (position t bucket slot + t.fingerprint_bits))
              (2 ^ t.value_bits))
  unfolding read_value value_size_in_cells
  read_value_lem =
      let all =
        read_values_all t.plaintext_bits w.pb_pos w.pb_le t.value_bits
          (position t bucket slot + t.fingerprint_bits) t.cells w.fits (omega (arith, room)) in
      (_, rw (asserted, offset) refl, record { fits = all.0; size = all.1 }, all.2)

  pub write_fingerprint-eq :
      (fp : ℕ)
      → write_fingerprint t bucket slot fp
        ≡ some (
            with_cells t (
              slot_write_bits t.cells
                (position t bucket slot)
                t.fingerprint_bits
                fp
                t.plaintext_bits))
  unfolding write_fingerprint write_bits
  write_fingerprint-eq fp = rw (asserted, offset) refl

  write_value-eq :
      (cells value : List ℕ)
      → length value ≡ value_size_in_cells t
      → write_value (with_cells t cells) bucket slot value
        ≡ some (
            with_cells t (
              write_values
                (div_ceil t.value_bits t.plaintext_bits)
                cells
                t.plaintext_bits
                t.value_bits
                value
                (position t bucket slot + t.fingerprint_bits)
                0))
  unfolding write_value value_size_in_cells assert_in_range slot_bit_offset
  write_value-eq cells value h =
      let len : (length value == div_ceil t.value_bits t.plaintext_bits) ≡ true =
        (==_iff _ _).1 h in
      let in_bucket = lt→ltb _ _ r.bucket_lt in
      let in_slots = lt→ltb _ _ r.slot_lt in
      let at : u64 (position t bucket slot) ≡ position t bucket slot = offset in
      rw (in_bucket, in_slots) (rw (len, at) refl)

  module _ (fp : ℕ) (value : List ℕ) (v : IsValue t value) where
    pub write_lem :
        (cells : List ℕ) × (write t bucket slot fp value ≡ some (with_cells t cells))
        × IsTable (with_cells t cells)
        × (content (with_cells t cells)
            ≡ put
                (content t)
                (2 ^ position t bucket slot)
                (2 ^ (t.fingerprint_bits + t.value_bits))
                (entry t fp value))
    unfolding write
    write_lem =
        let pb = t.plaintext_bits in
        let fb = t.fingerprint_bits in
        let vb = t.value_bits in
        let at = position t bucket slot in
        let V = number pb value in
        let room1 : at + fb ≤ length t.cells * pb = omega (arith, room) in
        let first = slot_write_bits_lem pb w.pb_pos w.pb_le t.cells at fb fp w.fits room1 in
        let cells1 = slot_write_bits t.cells at fb fp pb in
        let room2 : at + fb + vb ≤ length cells1 * pb =
          omega (arith, room, ap (λ (n : ℕ). n * pb) first.1) in
        let second =
          write_values_all pb w.pb_pos w.pb_le vb (at + fb) cells1 value first.0 v.fits room2 in
        let cells2 = write_values (div_ceil vb pb) cells1 pb vb value (at + fb) 0 in
        let e = entry t fp value in
        let parts = divmod_unique (2 ^ fb) V (fp % 2 ^ fb) (mod-lt fp (two_pow_pos fb)) in
        let low : put (content t) (2 ^ at) (2 ^ fb) fp ≡ put (content t) (2 ^ at) (2 ^ fb) e =
          rw parts.1 refl in
        let bits : number pb cells2 ≡ put (content t) (2 ^ at) (2 ^ (fb + vb)) e =
          second.2
          ∙ ap₂ (λ (x y : ℕ). put x y (2 ^ vb) V) (first.2 ∙ low) (two_pow_add at fb)
          ∙ ap (λ (x : ℕ). put (put (content t) (2 ^ at) (2 ^ fb) e) (2 ^ at * 2 ^ fb) (2 ^ vb) x)
              (sym parts.0)
          ∙ put-put (content t) (2 ^ at) (2 ^ fb) (2 ^ vb) e (two_pow_pos at) (two_pow_pos fb)
              (two_pow_pos vb)
          ∙ ap (λ (x : ℕ). put (content t) (2 ^ at) x e) (sym (two_pow_add fb vb)) in
        (
          cells2,
          rw (write_fingerprint-eq fp) (write_value-eq cells1 value v.size),
          record {
            fb_pos = w.fb_pos;
            fb_le = w.fb_le;
            vb_pos = w.vb_pos;
            pb_pos = w.pb_pos;
            pb_le = w.pb_le;
            slot_room = w.slot_room;
            size = second.1 ∙ first.1 ∙ w.size;
            small = w.small;
            fits = second.0;
          },
          bits,
        )
