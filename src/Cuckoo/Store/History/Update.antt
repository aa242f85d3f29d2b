-- ===== src/Cuckoo/Store/History/Update.antt =====
-- store.rs: an `update` that returns `Ok` writes only the value, beside a fingerprint that stays.
use native.Mathlib.Nat.{mod-lt, mod-eq_of_lt}
use ikpir.Prelude.{
  ℕ, ◌+◌, ◌*◌, ◌/◌, ◌%◌, ◌^◌, ◌<◌, ◌≡◌, refl, sym, ap, ◌∙◌, List, some, arith, Bool-cases,
  Option-cases, inl, inr, length, ◌==◌, ==_iff, >>=-some, some-injective, ◌>>=◌,
}
use ikpir.Bits.{two_pow_pos}
use ikpir.Bits.Field.{field, put, split}
use ikpir.Cuckoo.CellStream.{slot_write_bits}
use ikpir.Cuckoo.CellStream.Number.{Fits, number-injective}
use ikpir.Cuckoo.CellStream.Write.{slot_write_bits_lem}
use ikpir.Cuckoo.Table
use ikpir.Cuckoo.Table.{
  FingerprintValueTable, with_cells, read_fingerprint, write_fingerprint, write_value, write,
  assert_in_range,
}
use ikpir.Cuckoo.Table.Slot.{
  IsTable, InRange, content, position, room, read_fingerprint_lem, write_fingerprint-eq,
}
use ikpir.Cuckoo.Store.{CuckooKvStore, Outcome, ok, pack_value_bytes_to_cells, value_size_in_bytes}
use ikpir.Cuckoo.Store.Pack.{pack-IsValue}
use ikpir.Cuckoo.Store.Access.{update, locate}
use ikpir.Cuckoo.Store.Access.Locate.{locate-some}
use ikpir.Cuckoo.Store.History.{Mutated, unchanged, mutated}
use ikpir.Cuckoo.Store.History.Insert.{IsFingerprint, HasLogged}

put_same : (n p q : ℕ) → 0 < p → 0 < q → put n p q (field n p q) ≡ n
put_same n p q p_pos q_pos =
    ap (λ x. (n / p / q * q + x) * p + n % p) (mod-eq_of_lt (mod-lt (n / p) q_pos))
    ∙ ap (λ x. x * p + n % p) (sym (split q (n / p)))
    ∙ sym (split p n)

-- Writing the fingerprint that a slot holds changes nothing.
write_held_fingerprint :
    (t : FingerprintValueTable) (bucket slot fp : ℕ)
    → IsTable t
    → InRange t bucket slot
    → read_fingerprint t bucket slot ≡ some fp
    → write_fingerprint t bucket slot fp ≡ some t
write_held_fingerprint t bucket slot fp w r h =
    let pb = t.plaintext_bits in
    let fb = t.fingerprint_bits in
    let at = position t bucket slot in
    let held : field (content t) (2 ^ at) (2 ^ fb) ≡ fp =
      some-injective (sym (read_fingerprint_lem t bucket slot w r) ∙ h) in
    let wrote =
      slot_write_bits_lem pb w.pb_pos w.pb_le t.cells at fb fp w.fits
        (omega (arith, room t bucket slot w r)) in
    let cells = slot_write_bits t.cells at fb fp pb in
    let same : cells ≡ t.cells = number-injective pb cells t.cells wrote.0 w.fits wrote.1 (
      wrote.2
      ∙ ap (put (content t) (2 ^ at) (2 ^ fb)) (sym held)
      ∙ put_same (content t) (2 ^ at) (2 ^ fb) (two_pow_pos at) (two_pow_pos fb)) in
    write_fingerprint-eq t bucket slot w r fp ∙ ap (λ (c : List ℕ). some (with_cells t c)) same

value_bounds :
    (t t' : FingerprintValueTable) (bucket slot : ℕ) (value : List ℕ)
    → write_value t bucket slot value ≡ some t'
    → InRange t bucket slot
unfolding write_value assert_in_range
value_bounds t t' bucket slot value h = record { bucket_lt = ground arith; slot_lt = ground arith }

write_value-write :
    (t t' : FingerprintValueTable) (bucket slot fp : ℕ) (value : List ℕ)
    → IsTable t
    → read_fingerprint t bucket slot ≡ some fp
    → write_value t bucket slot value ≡ some t'
    → write t bucket slot fp value ≡ some t'
unfolding write
write_value-write t t' bucket slot fp value w h hw =
    ap (λ o. o >>= λ u. write_value u bucket slot value)
      (write_held_fingerprint t bucket slot fp w (value_bounds t t' bucket slot value hw) h)
    ∙ hw

-- An `update` that returns `Ok` logs the history of the table: its table is well formed, and the
-- value is made of bytes.
pub update-HasLogged :
    (s s' : CuckooKvStore) (key value : List ℕ)
    → IsTable s.table
    → IsFingerprint s key
    → Fits 8 value
    → update s key value ≡ some (ok, s')
    → HasLogged s s'
unfolding update value_size_in_bytes
update-HasLogged s s' key value w f fit h =
    elim (Bool-cases (length value == value_size_in_bytes s)) [
      | inr wrong ↦ absurd (ground (arith, wrong, h))
      | inl right ↦
          let t = s.table in
          let (fp, indices) = s.scheme.hash_item key t.fingerprint_bits in
          let cells = pack_value_bytes_to_cells value t.value_bits t.plaintext_bits in
          >>=-some (locate s.scheme.arity 0 t indices fp) _ (rw right at h) (λ r found h1.
            elim (Option-cases r) [
              | inl none_found ↦ absurd ground (arith, none_found, h1)
              | inr (p, e) ↦
                  let held =
                    locate-some s.scheme.arity 0 t indices fp p.0 p.1 (found ∙ ap some e) in
                  >>=-some (Table.read_value t p.0 p.1) _ (rw e at h1) (λ old read h2.
                    >>=-some (write_value t p.0 p.1 cells) _ h2 (λ t' wrote h3.
                      let same = ap (λ (x : Outcome × CuckooKvStore). x.1) (some-injective h3) in
                      let one : Mutated t _ t' = record {
                        range = value_bounds t t' p.0 p.1 cells wrote;
                        held_fp = held;
                        held_value = read;
                        pair = record {
                          valid = pack-IsValue t value fit ((==_iff _ _).0 right);
                          fp_lt = f.1;
                          empty = λ z. absurd (f.0 z);
                        };
                        wrote = write_value-write t t' p.0 p.1 fp cells w held wrote;
                      } in
                      rw (← same) (_, refl, mutated one unchanged, refl)))
            ])
    ]
