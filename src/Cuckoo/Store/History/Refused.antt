-- ===== src/Cuckoo/Store/History/Refused.antt =====
-- store.rs: a call that returns an error leaves the store as it was.
use ikpir.Prelude.{
  ◌≡◌, ◌≢◌, sym, ap, ◌∙◌, ℕ, List, some, arith, Bool-cases, Option-cases, inl, inr, get_or, length,
  ◌==◌, >>=-some, some-injective, [],
}
use ikpir.Cuckoo.CellStream.Number.{Fits}
use ikpir.Cuckoo.Table
use ikpir.Cuckoo.Table.{FingerprintValueTable, value_size_in_cells, write_value}
use ikpir.Cuckoo.Table.Slot.{IsTable}
use ikpir.Cuckoo.Store.{
  CuckooKvStore, CuckooError, Outcome, ok, err, pack_value_bytes_to_cells, value_size_in_bytes,
}
use ikpir.Cuckoo.Store.Insert.{insert, try_place, kick_loop, rollback}
use ikpir.Cuckoo.Store.Insert.TableFull.{insert-table_full, KickResult-cases}
use ikpir.Cuckoo.Store.Access.{delete, update, locate}
use ikpir.Cuckoo.Store.History.{zero_value}

err-injective :
    {e e' : CuckooError} {s s' : CuckooKvStore}
    → ◌≡◌ {A = Outcome × CuckooKvStore} (err e, s) (err e', s')
    → (e ≡ e') × (s ≡ s')
err-injective h =
    let o = ap (λ (x : Outcome × CuckooKvStore). x.0) h in
    (cc, ap (λ (x : Outcome × CuckooKvStore). x.1) h)

ok-ne_err :
    {e : CuckooError} {s s' : CuckooKvStore} → ◌≢◌ {A = Outcome × CuckooKvStore} (ok, s) (err e, s')
ok-ne_err h = let o = ap (λ (x : Outcome × CuckooKvStore). x.0) h in cc

-- An `insert` that is refused for the length of the value, or that ran out of kicks.
pub insert-refused :
    (random_range : ℕ → ℕ → ℕ) (s s' : CuckooKvStore) (key value : List ℕ) (e : CuckooError)
    → IsTable s.table
    → Fits 8 value
    → insert random_range s key value ≡ some (err e, s')
    → s' ≡ s
unfolding insert value_size_in_bytes
insert-refused random_range s s' key value e w fit h =
    elim (Bool-cases (length value == value_size_in_bytes s)) [
      | inr wrong ↦ ground (arith, wrong, h)
      | inl right ↦
          let t = s.table in
          let (fp, indices) = s.scheme.hash_item key t.fingerprint_bits in
          let cells = pack_value_bytes_to_cells value t.value_bits t.plaintext_bits in
          >>=-some (try_place s.scheme.arity 0 t indices s.scheme.arity fp cells) _ (rw right at h)
            (λ r tried h1. elim (Option-cases r.0) [
              | inr (p, taken) ↦ absurd (ok-ne_err (some-injective (rw taken at h1)))
              | inl none_placed ↦
                  let start = get_or indices (random_range 0 s.scheme.arity) 0 in
                  >>=-some (kick_loop random_range s.scheme s.max_kicks 0 r.1 start fp cells [] [])
                    _ (rw none_placed at h1)
                    (λ k looped h2. elim (KickResult-cases k) [
                      | inl (t2, muts, ek) ↦ absurd (ok-ne_err (some-injective (rw ek at h2)))
                      | inr (t2, chain, ek) ↦
                          >>=-some (rollback t2 chain) _ (rw ek at h2) (λ t3 _ h3.
                            let full = (err-injective (some-injective h3)).0 in
                            insert-table_full random_range s s' key value w fit
                              (h ∙ ap (λ x. some (err x, s')) (sym full)))
                    ])
            ])
    ]

pub delete-refused :
    (s s' : CuckooKvStore) (key : List ℕ) (e : CuckooError)
    → delete s key ≡ some (err e, s')
    → s' ≡ s
unfolding delete
delete-refused s s' key e h =
    let (fp, indices) = s.scheme.hash_item key s.table.fingerprint_bits in
    >>=-some (locate s.scheme.arity 0 s.table indices fp) _ h (λ r found h1. elim (Option-cases r) [
      | inl none_found ↦ sym (err-injective (some-injective (rw none_found at h1))).1
      | inr (p, at) ↦ >>=-some (Table.read_value s.table p.0 p.1) _ (rw at at h1) (λ old _ h2.
          >>=-some (Table.write s.table p.0 p.1 0 (zero_value s.table)) _ h2
            (λ t _ h3. absurd (ok-ne_err (some-injective h3))))
    ])

pub update-refused :
    (s s' : CuckooKvStore) (key value : List ℕ) (e : CuckooError)
    → update s key value ≡ some (err e, s')
    → s' ≡ s
unfolding update value_size_in_bytes
update-refused s s' key value e h = elim (Bool-cases (length value == value_size_in_bytes s)) [
  | inr wrong ↦ ground (arith, wrong, h)
  | inl right ↦
      let t = s.table in
      let (fp, indices) = s.scheme.hash_item key t.fingerprint_bits in
      let cells = pack_value_bytes_to_cells value t.value_bits t.plaintext_bits in
      >>=-some (locate s.scheme.arity 0 t indices fp) _ (rw right at h) (λ r _ h1.
        elim (Option-cases r) [
          | inl none_found ↦ sym (err-injective (some-injective (rw none_found at h1))).1
          | inr (p, at) ↦ >>=-some (Table.read_value t p.0 p.1) _ (rw at at h1) (λ old _ h2.
              >>=-some (write_value t p.0 p.1 cells) _ h2
                (λ t' _ h3. absurd (ok-ne_err (some-injective h3))))
        ])
]
