-- ===== src/Cuckoo/Store/Access/Logged.antt =====
-- store.rs, the `delete` that succeeds: what the log gains replays to the new table.
use ikpir.Prelude.{
  ℕ, ◌+◌, ◌-◌, ◌^◌, ◌≡◌, refl, ap, ◌∙◌, List, [], ◌∷◌, some, arith, >>=-some, Option-cases,
  replicate, inl, inr, u64, some-injective,
}
use ikpir.Cuckoo.Table
use ikpir.Cuckoo.Table.{FingerprintValueTable, value_size_in_cells}
use ikpir.Cuckoo.Store.{SlotMutation, CuckooKvStore, Outcome, ok, replay, log_extend}
use ikpir.Cuckoo.Store.Replay.{replay-one}
use ikpir.Cuckoo.Store.Access.{locate, delete}
use ikpir.Cuckoo.Store.Access.Locate.{locate-some}

-- A `delete` that returns `Ok` takes one from the count, and the one mutation that it logs names a
-- slot with the fingerprint and the value that it held, empties it, and replays from the old table
-- to the new one.
pub delete-replay :
    (s s' : CuckooKvStore) (key : List ℕ)
    → delete s key ≡ some (ok, s')
    → (s'.num_items ≡ u64 (s.num_items + 2 ^ 64 - 1))
      × (m : SlotMutation) × (s'.mutation_log ≡ log_extend s.mutation_log (m ∷ []))
      × (Table.read_fingerprint s.table m.bucket m.slot ≡ some m.old_fingerprint)
      × (Table.read_value s.table m.bucket m.slot ≡ some m.old_value_cells)
      × (m.new_fingerprint ≡ 0)
      × (replay s.table (m ∷ []) ≡ some s'.table)
unfolding delete
delete-replay s s' key h =
    let (fp, indices) = s.scheme.hash_item key s.table.fingerprint_bits in
    >>=-some (locate s.scheme.arity 0 s.table indices fp) _ h (λ r found h1. elim (Option-cases r) [
      | inl none_found ↦ absurd ground (arith, none_found, h1)
      | inr (p, e) ↦
          let held = locate-some s.scheme.arity 0 s.table indices fp p.0 p.1 (found ∙ ap some e) in
          >>=-some (Table.read_value s.table p.0 p.1) _ (rw e at h1) (λ old read h2.
            >>=-some (Table.write s.table p.0 p.1 0 (replicate (value_size_in_cells s.table) 0)) _
              h2
              (λ t wrote h3.
                let same = ap (λ (x : Outcome × CuckooKvStore). x.1) (some-injective h3) in
                rw (← same) (refl, _, refl, held, read, refl, replay-one s.table t _ wrote)))
    ])
