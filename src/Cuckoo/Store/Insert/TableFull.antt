-- ===== src/Cuckoo/Store/Insert/TableFull.antt =====
-- store.rs, `insert` on a table that stays full: the store is observably unchanged.
use ikpir.Prelude.{
  ℕ, ◌≡◌, ◌⊎◌, refl, sym, ap, ◌∙◌, List, [], some, arith, Bool-cases, Option-cases, inl, inr,
  get_or, length, ◌==◌, ==_iff, >>=-some, some-injective,
}
use ikpir.Cuckoo.CellStream.Number.{Fits}
use ikpir.Cuckoo.Table.Slot.{IsTable, IsValue}
use ikpir.Cuckoo.Store.{
  SlotMutation, CuckooKvStore, Outcome, err, table_full, pack_value_bytes_to_cells,
  value_size_in_bytes,
}
use ikpir.Cuckoo.Store.Pack.{pack-IsValue}
use ikpir.Cuckoo.Store.Insert.{
  insert, try_place, kick_loop, rollback, placed, exhausted, KickResult, Kick,
}
use ikpir.Cuckoo.Table.{FingerprintValueTable}
use ikpir.Cuckoo.Store.Insert.Rollback.{try_place-none, kick_loop-rollback}

pub pair_eq : {A B : Type 0} {a : A} (r : A × B) → r.0 ≡ a → r ≡ (a, r.1)
pair_eq r e = ap (λ x. (x, r.1)) e

pub KickResult-cases :
    (k : KickResult)
    → ((t : FingerprintValueTable) × (muts : List SlotMutation) × (k ≡ placed t muts))
      ⊎ ((t : FingerprintValueTable) × (chain : List Kick) × (k ≡ exhausted t chain))
KickResult-cases (placed t muts) = inl (t, muts, refl)
KickResult-cases (exhausted t chain) = inr (t, chain, refl)

-- When the kicks run out, `insert` returns the very store that it was called on: the table, the
-- count and the log. The table is well formed and the value is made of bytes.
pub insert-table_full :
    (random_range : ℕ → ℕ → ℕ) (s s' : CuckooKvStore) (key value : List ℕ)
    → IsTable s.table
    → Fits 8 value
    → insert random_range s key value ≡ some (err table_full, s')
    → s' ≡ s
unfolding insert value_size_in_bytes rollback
insert-table_full random_range s s' key value w fit h =
    elim (Bool-cases (length value == value_size_in_bytes s)) [
      | inr wrong ↦ absurd ground (arith, wrong, h)
      | inl right ↦
          let t = s.table in
          let (fp, indices) = s.scheme.hash_item key t.fingerprint_bits in
          let cells = pack_value_bytes_to_cells value t.value_bits t.plaintext_bits in
          let v : IsValue t cells = pack-IsValue t value fit ((==_iff _ _).0 right) in
          >>=-some (try_place s.scheme.arity 0 t indices s.scheme.arity fp cells) _ (rw right at h)
            (λ r tried h1. elim (Option-cases r.0) [
              | inr (p, taken) ↦ absurd ground (arith, taken, h1)
              | inl none_placed ↦
                  let same : r.1 ≡ t =
                    try_place-none s.scheme.arity 0 t indices s.scheme.arity fp cells r.1
                      (tried ∙ ap some (pair_eq r none_placed)) in
                  let start = get_or indices (random_range 0 s.scheme.arity) 0 in
                  let loop =
                    kick_loop random_range s.scheme s.max_kicks 0 r.1 start fp cells [] [] in
                  >>=-some loop _ (rw none_placed at h1) (λ k looped h2. elim (KickResult-cases k) [
                    | inl (t2, muts, e) ↦ absurd (ground (arith, e, h2))
                    | inr (t2, chain, e) ↦
                        let undone : rollback t2 chain ≡ some t =
                          kick_loop-rollback random_range s.scheme s.max_kicks 0 r.1 start fp cells
                            [] [] t2 chain t (rw same w) (rw same v) (looped ∙ ap some e)
                            (ap some same) in
                        let last = some-injective (rw (e, undone) at h2) in
                        sym (ap (λ (x : Outcome × CuckooKvStore). x.1) last)
                  ])
            ])
    ]
