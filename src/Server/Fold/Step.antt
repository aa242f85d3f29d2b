-- ===== src/Server/Fold/Step.antt =====
-- One mutation folded: the sums of the accumulator still lead from the first database to the present
-- one.
use native.Mathlib.Nat.{mod-lt, div-lt_iff_lt-mul, mul-zero}
use ikpir.Prelude.{
  ℕ, zero, suc, ◌+◌, ◌-◌, ◌*◌, ◌/◌, ◌%◌, ◌^◌, ◌≤◌, ◌<◌, ◌≡◌, ◌≢◌, ◌⊎◌, inl, inr, refl, sym, ap, ap₂,
  ◌∙◌, List, [], some, arith, true, false, ℤ, ltb, lt→ltb, ◌==◌, length, get_or, set, length-set,
  get_or-set_self, get_or-set_ne, eq_or_ne, u32, u32_of_ℤ,
}
use ikpir.Bits.Field.{split, divmod_unique}
use ikpir.TreeMap.{number_order, get, put, get-put, put-IsSorted, IsSorted}
use ikpir.Cuckoo.Scheme.{SchemeKind}
use ikpir.Cuckoo.Table.{FingerprintValueTable, with_cells}
use ikpir.Cuckoo.Table.Slot.{IsTable, room_lem}
use ikpir.Cuckoo.Store.{SlotMutation}
use ikpir.Cuckoo.Store.Build.{arity, segment_size}
use ikpir.Cuckoo.Store.Payload.Change.{
  of_table, IsDescribed, base, IsChange, write-IsChange, unchanged_cell,
}
use ikpir.Cuckoo.Store.History.{Mutated}
use ikpir.Backend.Deltas.{SegmentRowDeltas, AreWithin}
use ikpir.Server.Fold.{or_empty, fold_mutation}
use ikpir.Server.Fold.Cells.{value, word, Folded, fold_cells-Folded}
use ikpir.Server.Fold.Output.{at, AreSorted, get-AreOffsets, put-AreWithin}

regroup : (j n w i off : ℕ) → j * (n * w) + (i * w + off) ≡ (j * n + i) * w + off
regroup j n w i off = grind arith

slot_base : (b s slot cps : ℕ) → (b * s + slot) * cps ≡ b * (s * cps) + slot * cps
slot_base b s slot cps = grind arith

-- Two offsets of rows of a width, in different rows.
apart : (a b w : ℕ) → a ≢ b → (a * w + w ≤ b * w) ⊎ (b * w + w ≤ a * w)
apart a b w ne = elim cases [ inl lt ↦ inl grind arith | inr gt ↦ inr grind arith ]
  where
    cases : (a < b) ⊎ (b < a)
    cases = omega arith

-- The segment of a bucket, and its row there.
seg_row : (n x j i : ℕ) → i < n → x ≡ j * n + i → (x / n ≡ j) × (x % n ≡ i)
seg_row n x j i h e = let d = divmod_unique n j i h in rw e d

factor_pos : (a n x : ℕ) → x < a * n → 0 < n
factor_pos a zero x h = absurd (omega (arith, mul-zero a, h))
factor_pos a (suc n) x h = omega arith

-- The shape of a segmented table: segments of `n` buckets, whose rows are `w` cells wide, at most
-- 2^16, so that an offset in a row is a `u16`.
pub record IsSegmented (kind : SchemeKind) (n w : ℕ) (t : FingerprintValueTable) : Type 0 where
  pub described : IsDescribed kind t
  pub rows : segment_size (of_table kind t) ≡ n
  pub buckets : t.num_buckets ≡ arity kind * n
  pub width : w ≡ t.bucket_size * t.cells_per_slot
  pub small : w ≤ 2 ^ 16

-- A cell of the row that a mutation changed: the sums still lead to the present cells.
cell_sum :
    (t0 t u : FingerprintValueTable) (bucket slot w : ℕ) (old new : List ℕ)
    → IsChange t u bucket slot old new
    → (row row' : List (ℕ × ℤ))
    → Folded t.cells_per_slot 0 (slot * t.cells_per_slot) old new w row row'
    → (c off : ℕ) {now was : ℕ} → base t bucket slot ≡ bucket * w + slot * t.cells_per_slot
    → c ≡ bucket * w + off
    → u32 (get_or t.cells c 0) ≡ u32 (get_or t0.cells c 0 + was)
    → now ≡ word row' off
    → was ≡ word row off
    → u32 (get_or u.cells c 0) ≡ u32 (get_or t0.cells c 0 + now)
cell_sum t0 t u bucket slot w old new x row row' r c off start address sums now was =
    let first = slot * t.cells_per_slot in
    let outside : (off < first) ⊎ (first + t.cells_per_slot ≤ off)
        → u32 (get_or u.cells c 0) ≡ u32 (get_or t0.cells c 0 + _) =
      λ out.
        let cell : get_or u.cells c 0 ≡ get_or t.cells c 0 =
          unchanged_cell t u bucket slot old new c x (omega (arith, start, address, out)) in
        omega (arith, cell, sums, now, was, ap u32_of_ℤ (r.others off (omega (arith, out)))) in
    elim place [
      | inl out ↦ outside out
      | inr (lo, hi) ↦
          let k = off - first in
          let e : first + k ≡ off = omega arith in
          let at_cell : base t bucket slot + k ≡ c = omega (arith, start, address) in
          omega (
            arith,
            x.inside k,
            r.changed k (omega arith) (omega arith),
            ap (λ y. get_or u.cells y 0) at_cell,
            ap (λ y. get_or t.cells y 0) at_cell,
            ap (word row) e,
            ap (word row') e,
            sums,
            now,
            was,
          )
    ]
  where
    place :
        ((off < slot * t.cells_per_slot) ⊎ (slot * t.cells_per_slot + t.cells_per_slot ≤ off))
        ⊎ ((slot * t.cells_per_slot ≤ off) × (off < slot * t.cells_per_slot + t.cells_per_slot))
    place = omega arith

module _ (kind : SchemeKind) (n w : ℕ) (t0 : FingerprintValueTable)
    (shape : IsSegmented kind n w t0) where
  -- The sums in the accumulator lead from the cells of `t0` to the present ones.
  pub record IsFolded (cells : List ℕ) (acc : List SegmentRowDeltas) : Type 0 where
    pub count : length acc ≡ arity kind
    pub sorted : (j : ℕ) → AreSorted (get_or acc j [])
    pub within : (j : ℕ) → AreWithin n w (get_or acc j [])
    pub sums :
        (j i off : ℕ)
        → i < n
        → off < w
        → u32 (get_or cells (j * (n * w) + (i * w + off)) 0)
          ≡ u32 (
              get_or t0.cells (j * (n * w) + (i * w + off)) 0
              + u32_of_ℤ (at (get_or acc j []) i off))

  module _ (acc : List SegmentRowDeltas) (seg b : ℕ) (row : List (ℕ × ℤ)) where
    abbrev stored : List SegmentRowDeltas
    stored = set acc seg (put b row (get_or acc seg []))

    stored_here : seg < length acc → get_or stored seg [] ≡ put b row (get_or acc seg [])
    stored_here lt = get_or-set_self acc seg _ [] lt

    stored_at :
        (j : ℕ)
        → seg < length acc
        → (P : SegmentRowDeltas → Type 0) → P (put b row (get_or acc seg []))
        → P (get_or acc j [])
        → P (get_or stored j [])
    stored_at j lt P here there = elim (eq_or_ne seg j) [
      | inl e ↦ rw (← e, stored_here lt) here
      | inr ne ↦ rw (get_or-set_ne acc seg j _ [] ne) there
    ]

    row_here : seg < length acc → or_empty (get b (get_or stored seg [])) ≡ row
    row_here lt =
        ap (λ s. or_empty (get b s)) (stored_here lt)
        ∙ ap or_empty (get-put b b row (get_or acc seg []))
        ∙ ground arith

    row_there :
        (j i : ℕ)
        → (seg ≢ j) ⊎ (b ≢ i)
        → seg < length acc
        → or_empty (get i (get_or stored j [])) ≡ or_empty (get i (get_or acc j []))
    row_there j i other lt = elim (eq_or_ne seg j) [
      | inr ne ↦ ap (λ s. or_empty (get i s)) (get_or-set_ne acc seg j _ [] ne)
      | inl e ↦ elim other [
        | inl ne ↦ absurd (ne e)
        | inr ne ↦
            let miss : (i == b) ≡ false = ground (arith, ne) in
            rw (← e, stored_here lt)
              (ap or_empty (get-put b i row (get_or acc seg [])) ∙ rw miss refl)
      ]
    ]

  pub fold_mutation-IsFolded :
      (cells : List ℕ) (u : FingerprintValueTable) (m : SlotMutation) (acc : List SegmentRowDeltas)
      → IsTable (with_cells t0 cells)
      → Mutated (with_cells t0 cells) m u
      → IsFolded cells acc
      → (acc' : List SegmentRowDeltas) × (fold_mutation (of_table kind t0) acc m ≡ some acc')
        × IsFolded u.cells acc'
  unfolding fold_mutation
  fold_mutation-IsFolded cells u m acc valid one f =
      let t = with_cells t0 cells in
      let cps = t0.cells_per_slot in
      let seg = m.bucket / n in
      let b = m.bucket % n in
      let bucket_lt : m.bucket < arity kind * n = rw (sym shape.buckets) one.range.bucket_lt in
      let n_pos = factor_pos (arity kind) n m.bucket bucket_lt in
      let seg_lt : seg < arity kind = (div-lt_iff_lt-mul n_pos).1 bucket_lt in
      let b_lt : b < n = mod-lt m.bucket n_pos in
      let parts : m.bucket ≡ seg * n + b = split n m.bucket in
      let x =
        write-IsChange kind t u m.bucket m.slot m.old_fingerprint m.new_fingerprint
          m.old_value_cells m.new_value_cells shape.described valid one.range one.held_fp
          one.held_value one.pair.valid one.wrote in
      let room : m.slot * cps + (0 + cps) ≤ w =
        omega (arith, shape.width, room_lem m.slot t0.bucket_size cps one.range.slot_lt) in
      let segment = get_or acc seg [] in
      let r =
        fold_cells-Folded cps 0 (m.slot * cps) x.0 x.1 w (or_empty (get b segment)) room shape.small
          ((f.sorted seg).1 b) (get-AreOffsets n w b segment (f.within seg)) in
      let lt : seg < length acc = rw f.count seg_lt in
      let found : ltb seg (length acc) ≡ true = lt→ltb _ _ lt in
      let acc' = stored acc seg b r.0 in
      let start : base t m.bucket m.slot ≡ m.bucket * w + m.slot * cps =
        slot_base m.bucket t0.bucket_size m.slot cps
        ∙ ap (λ x. m.bucket * x + m.slot * cps) (sym shape.width) in
      let others : (j i off : ℕ)
          → i < n
          → off < w
          → m.bucket ≢ j * n + i
          → or_empty (get i (get_or acc' j [])) ≡ or_empty (get i (get_or acc j []))
          → u32 (get_or u.cells (j * (n * w) + (i * w + off)) 0)
            ≡ u32 (
                get_or t0.cells (j * (n * w) + (i * w + off)) 0
                + u32_of_ℤ (at (get_or acc' j []) i off)) =
        λ j i off lti lto ne same.
          let c = j * (n * w) + (i * w + off) in
          let cell : get_or u.cells c 0 ≡ get_or cells c 0 =
            unchanged_cell t u m.bucket m.slot x.0 x.1 c x.4
              (omega (arith, regroup j n w i off, start, room, apart m.bucket (j * n + i) w ne)) in
          ap u32 cell
          ∙ f.sums j i off lti lto
          ∙ ap (λ row. u32 (get_or t0.cells c 0 + word row off)) (sym same) in
      (
        acc',
        rw (shape.rows, shape.described) (rw (x.2, x.3) (rw found (rw r.1 refl))),
        record {
          count = length-set acc seg _ ∙ f.count;
          sorted = λ j. (
            stored_at acc seg b r.0 j lt IsSorted (put-IsSorted b r.0 segment (f.sorted seg).0)
                (f.sorted j).0,
            λ i. elim (eq_or_ne seg j) [
              | inr ne ↦ rw (row_there acc seg b r.0 j i (inl ne) lt) ((f.sorted j).1 i)
              | inl ej ↦ elim (eq_or_ne b i) [
                | inr ne ↦ rw (row_there acc seg b r.0 j i (inr ne) lt) ((f.sorted j).1 i)
                | inl ei ↦ rw (← ej, ← ei, row_here acc seg b r.0 lt) r.2.sorted
              ]
            ],
          );
          within = λ j.
              stored_at acc seg b r.0 j lt (AreWithin n w)
                (put-AreWithin n w b r.0 segment b_lt r.2.within (f.within seg)) (f.within j);
          sums = λ j i off lti lto. elim (eq_or_ne seg j) [
            | inr ne ↦
                others j i off lti lto (λ e. ne (seg_row n m.bucket j i lti e).0)
                  (row_there acc seg b r.0 j i (inl ne) lt)
            | inl ej ↦ elim (eq_or_ne b i) [
              | inr ne ↦
                  others j i off lti lto (λ e. ne (seg_row n m.bucket j i lti e).1)
                    (row_there acc seg b r.0 j i (inr ne) lt)
              | inl ei ↦
                  let c = j * (n * w) + (i * w + off) in
                  let address : c ≡ m.bucket * w + off =
                    regroup j n w i off
                    ∙ ap (λ (y : ℕ). y * w + off)
                        (sym (parts ∙ ap₂ (λ (p q : ℕ). p * n + q) ej ei)) in
                  let now : at (get_or acc' j []) i off ≡ value r.0 off =
                    rw (← ej, ← ei) (ap (λ row. value row off) (row_here acc seg b r.0 lt)) in
                  let was : at (get_or acc j []) i off ≡ value (or_empty (get b segment)) off =
                    rw (← ej, ← ei) refl in
                  cell_sum t0 t u m.bucket m.slot w x.0 x.1 x.4 _ r.0 r.2 c off start address
                    (f.sums j i off lti lto) (ap u32_of_ℤ now) (ap u32_of_ℤ was)
            ]
          ];
        },
      )
