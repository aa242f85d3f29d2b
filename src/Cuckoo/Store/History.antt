-- ===== src/Cuckoo/Store/History.antt =====
-- store.rs: a log that tells the truth. Each mutation names a slot with the pair that it held and
-- the pair that was written there, and an empty slot holds no bits of a value.
pub mod Insert
pub mod Update
pub mod Refused
pub mod Fresh
use native.Mathlib.Nat.{mod-lt}
use ikpir.Prelude.{
  ℕ, zero, suc, ◌+◌, ◌*◌, ◌/◌, ◌%◌, ◌^◌, ◌≤◌, ◌<◌, ◌≡◌, ◌≢◌, ◌⊎◌, inl, inr, refl, sym, ap, ◌∙◌,
  List, [], ◌∷◌, ◌++◌, some, arith, some-injective, replicate, length-replicate, eq_or_ne, length,
}
use ikpir.Bits.{two_pow_pos}
use ikpir.Bits.Field.{field, put, split}
use ikpir.Cuckoo.CellStream.Number.{Fits, number, number-injective}
use ikpir.Cuckoo.CellStream.Write.{slot_write_bits_lem}
use ikpir.Cuckoo.Table
use ikpir.Cuckoo.Table.{
  FingerprintValueTable, with_cells, value_size_in_cells, read_fingerprint, read_value, write,
}
use ikpir.Cuckoo.Table.Slot.{IsTable, IsValue, InRange, read_fingerprint_lem}
use ikpir.Cuckoo.Table.Write.{result, write-read, write-frame, read_fingerprint-write}
use ikpir.Cuckoo.Store.{SlotMutation}
use ikpir.Cuckoo.Store.Payload.{zeros}
use ikpir.Cuckoo.Store.Insert.Rollback.{write-IsTable, read_value-IsValue}

abbrev pub zero_value : FingerprintValueTable → List ℕ
zero_value t = replicate (value_size_in_cells t) 0

-- An empty slot holds zeros.
abbrev pub IsClean : FingerprintValueTable → Type 0
IsClean t =
    (bucket slot : ℕ)
    → InRange t bucket slot
    → read_fingerprint t bucket slot ≡ some 0
    → read_value t bucket slot ≡ some (zero_value t)

-- A pair that may be written to a slot.
pub record IsPair (t : FingerprintValueTable) (fp : ℕ) (value : List ℕ) : Type 0 where
  pub valid : IsValue t value
  pub fp_lt : fp < 2 ^ t.fingerprint_bits
  pub empty : fp ≡ 0 → value ≡ zero_value t

pub record Mutated (t : FingerprintValueTable) (m : SlotMutation) (t' : FingerprintValueTable)
    : Type 0 where
  pub range : InRange t m.bucket m.slot
  pub held_fp : read_fingerprint t m.bucket m.slot ≡ some m.old_fingerprint
  pub held_value : read_value t m.bucket m.slot ≡ some m.old_value_cells
  pub pair : IsPair t m.new_fingerprint m.new_value_cells
  pub wrote : write t m.bucket m.slot m.new_fingerprint m.new_value_cells ≡ some t'

-- The log leads from one table to the other.
pub data IsHistory
    : FingerprintValueTable → List SlotMutation → FingerprintValueTable → Type 0 where
  unchanged : {t : FingerprintValueTable} → IsHistory t [] t
  mutated :
      {t u v : FingerprintValueTable} {m : SlotMutation} {log : List SlotMutation}
      → Mutated t m u
      → IsHistory u log v
      → IsHistory t (m ∷ log) v

pub append-IsHistory :
    (t u v : FingerprintValueTable) (log : List SlotMutation) (m : SlotMutation)
    → IsHistory t log u
    → Mutated u m v
    → IsHistory t (log ++ (m ∷ [])) v
append-IsHistory t u v [] m unchanged h = mutated h unchanged
append-IsHistory t u v (x ∷ log) m (mutated {u = t1} one rest) h =
    mutated one (append-IsHistory t1 u v log m rest h)

zero_number :
    (t : FingerprintValueTable)
    → (number t.plaintext_bits (zero_value t) ≡ 0) × IsValue t (zero_value t)
zero_number t =
    let z = zeros t.plaintext_bits (value_size_in_cells t) in
    (z.1, record { fits = z.0; size = length-replicate (value_size_in_cells t) 0 })

pub zero-IsPair : (t : FingerprintValueTable) → IsPair t 0 (zero_value t)
zero-IsPair t = record {
  valid = (zero_number t).1;
  fp_lt = two_pow_pos t.fingerprint_bits;
  empty = λ _. refl;
}

-- What a slot of a clean table holds may be written elsewhere.
pub held-IsPair :
    (t : FingerprintValueTable) (bucket slot fp : ℕ) (value : List ℕ)
    → IsTable t
    → IsClean t
    → InRange t bucket slot
    → read_fingerprint t bucket slot ≡ some fp
    → read_value t bucket slot ≡ some value
    → IsPair t fp value
held-IsPair t bucket slot fp value w clean r hf hv =
    let e = some-injective (sym (read_fingerprint_lem t bucket slot w r) ∙ hf) in
    record {
      valid = read_value-IsValue t bucket slot value w r hv;
      fp_lt = rw (← e) (mod-lt _ (two_pow_pos t.fingerprint_bits));
      empty = λ z. some-injective (sym hv ∙ clean bucket slot r (hf ∙ ap some z));
    }

-- A write of a valid pair keeps a table valid and clean, with the same pairs valid for it.
pub record Kept (t u : FingerprintValueTable) : Type 0 where
  pub table : IsTable u
  pub clean : IsClean u
  pub pairs : (fp : ℕ) (value : List ℕ) → IsPair t fp value → IsPair u fp value
  pub shape : u ≡ with_cells t u.cells

pub write-Kept :
    (t u : FingerprintValueTable) (bucket slot fp : ℕ) (value : List ℕ)
    → IsTable t
    → IsClean t
    → InRange t bucket slot
    → IsPair t fp value
    → write t bucket slot fp value ≡ some u
    → Kept t u
unfolding value_size_in_cells
write-Kept t u bucket slot fp value w clean r p h =
    let v = p.valid in
    let res = result t u bucket slot fp value w r v h in
    let shape : u ≡ with_cells t u.cells = rw res.table refl in
    let same_zeros : zero_value t ≡ zero_value u = rw shape refl in
    let frame : (b s : ℕ)
        → InRange u b s
        → (bucket ≢ b) ⊎ (slot ≢ s)
        → read_fingerprint u b s ≡ some 0
        → read_value u b s ≡ some (zero_value u) =
      λ b s r' other z.
        let there : InRange (with_cells t u.cells) b s = rw shape at r' in
        let was : InRange t b s = record { bucket_lt = there.bucket_lt; slot_lt = there.slot_lt } in
        let both = write-frame t u bucket slot fp value w r v h b s was other in
        both.1 ∙ clean b s was (sym both.0 ∙ z) ∙ ap some same_zeros in
    let here : read_fingerprint u bucket slot ≡ some 0
        → read_value u bucket slot ≡ some (zero_value u) =
      λ z.
        let got = read_fingerprint-write t u bucket slot fp value w r v h p.fp_lt in
        let fp_zero : fp ≡ 0 = some-injective (sym got ∙ z) in
        let value_zero = p.empty fp_zero in
        let small : number t.plaintext_bits value < 2 ^ t.value_bits =
          rw value_zero (rw (zero_number t).0 (two_pow_pos t.value_bits)) in
        (write-read t u bucket slot fp value w r v h p.fp_lt small).1
        ∙ ap some (value_zero ∙ same_zeros) in
    record {
      table = (write-IsTable t u bucket slot fp value w v h).0;
      clean = λ b s r' z. elim (eq_or_ne bucket b) [
        | inr nb ↦ frame b s r' (inl nb) z
        | inl eb ↦ elim (eq_or_ne slot s) [
          | inr ns ↦ frame b s r' (inr ns) z
          | inl es ↦ rw (← eb, ← es) (here (rw (← eb, ← es) at z))
        ]
      ];
      pairs = λ f x q. rw shape (record {
        valid = record { fits = (q.valid).fits; size = (q.valid).size };
        fp_lt = q.fp_lt;
        empty = q.empty;
      });
      shape = shape;
    }

pub value_size_in_cells-Kept :
    (t u : FingerprintValueTable) → Kept t u → value_size_in_cells t ≡ value_size_in_cells u
unfolding value_size_in_cells
value_size_in_cells-Kept t u k = rw k.shape refl

-- A history that starts at a valid and clean table ends at one, of the same dimensions.
pub IsHistory-Kept :
    (t u : FingerprintValueTable) (log : List SlotMutation)
    → IsHistory t log u
    → IsTable t
    → IsClean t
    → IsTable u × IsClean u × (u ≡ with_cells t u.cells)
IsHistory-Kept t u [] unchanged w c = (w, c, refl)
IsHistory-Kept t u (m ∷ log) (mutated {u = t1} one rest) w c =
    let k =
      write-Kept t t1 m.bucket m.slot m.new_fingerprint m.new_value_cells w c one.range one.pair
        one.wrote in
    let last = IsHistory-Kept t1 u log rest k.table k.clean in
    (last.0, last.1, last.2 ∙ ap (λ (x : FingerprintValueTable). with_cells x u.cells) k.shape)
