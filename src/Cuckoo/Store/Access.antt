-- ===== src/Cuckoo/Store/Access.antt =====
-- store.rs: the look-ups of `CuckooKVStore` and its other writes, and the replay of a mutation.
pub mod Locate
pub mod Logged
use ikpir.Prelude.{
  ℕ, zero, suc, ◌+◌, ◌-◌, ◌^◌, List, [], ◌∷◌, Bool, true, false, not, Option, none, some, u64, ◌==◌,
  if◌then◌else◌, length, get_or, replicate, ◌>>=◌,
}
use ikpir.Cuckoo.Table
use ikpir.Cuckoo.Table.{FingerprintValueTable, value_size_in_cells}
use ikpir.Cuckoo.Store.{
  SlotMutation, CuckooKvStore, Outcome, ok, err, not_found, invalid_params, log_extend,
  value_size_in_bytes, pack_value_bytes_to_cells,
}

-- The first candidate bucket and slot that hold the fingerprint: the probe of `get_into`,
-- `delete` and `update`.
unfoldable pub locate : ℕ → ℕ → FingerprintValueTable → List ℕ → ℕ → Option (Option (ℕ × ℕ))
locate zero p t indices fp = some none
locate (suc left) p t indices fp = do
  r ← Table.find t (get_or indices p 0) fp
  elim r [
    | some slot ↦ some (some (get_or indices p 0, slot))
    | none ↦ locate left (p + 1) t indices fp
  ]

-- `(0..arity).any(…)`
unfoldable pub contain_any : ℕ → ℕ → FingerprintValueTable → List ℕ → ℕ → Option Bool
contain_any zero p t indices fp = some false
contain_any (suc left) p t indices fp = do
  r ← Table.contain t (get_or indices p 0) fp
  elim r [ true ↦ some true | false ↦ contain_any left (p + 1) t indices fp ]

unfoldable pub contain : CuckooKvStore → List ℕ → Option Bool
contain s key =
    let (fingerprint, indices) = s.scheme.hash_item key s.table.fingerprint_bits in
    contain_any s.scheme.arity 0 s.table indices fingerprint

unfoldable pub delete : CuckooKvStore → List ℕ → Option (Outcome × CuckooKvStore)
delete s key = do
  let (fingerprint, indices) = s.scheme.hash_item key s.table.fingerprint_bits
  r ← locate s.scheme.arity 0 s.table indices fingerprint
  elim r [
    | none ↦ some (err not_found, s)
    | some (bucket, slot) ↦ do
      old_value ← Table.read_value s.table bucket slot
      let zeros = replicate (value_size_in_cells s.table) 0
      t ← Table.write s.table bucket slot 0 zeros
      let mutation : SlotMutation = record {
        bucket = bucket;
        slot = slot;
        old_fingerprint = fingerprint;
        new_fingerprint = 0;
        old_value_cells = old_value;
        new_value_cells = zeros;
      }
      some (
        ok,
        record s {
          table = t;
          num_items = u64 (s.num_items + 2 ^ 64 - 1);
          mutation_log = log_extend s.mutation_log (mutation ∷ []);
        },
      )
  ]

unfoldable pub update : CuckooKvStore → List ℕ → List ℕ → Option (Outcome × CuckooKvStore)
update s key new_value =
    if not (length new_value == value_size_in_bytes s) then some (err invalid_params, s) else do
      let t = s.table
      let cur_value = pack_value_bytes_to_cells new_value t.value_bits t.plaintext_bits
      let (fingerprint, indices) = s.scheme.hash_item key t.fingerprint_bits
      r ← locate s.scheme.arity 0 t indices fingerprint
      elim r [
        | none ↦ some (err not_found, s)
        | some (bucket, slot) ↦ do
          old_value ← Table.read_value t bucket slot
          t' ← Table.write_value t bucket slot cur_value
          let mutation : SlotMutation = record {
            bucket = bucket;
            slot = slot;
            old_fingerprint = fingerprint;
            new_fingerprint = fingerprint;
            old_value_cells = old_value;
            new_value_cells = cur_value;
          }
          some (
            ok,
            record s { table = t'; mutation_log = log_extend s.mutation_log (mutation ∷ []) },
          )
      ]
