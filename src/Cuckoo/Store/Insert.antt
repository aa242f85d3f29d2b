-- ===== src/Cuckoo/Store/Insert.antt =====
-- store.rs: `CuckooKVStore::insert`, its probe loops, the kick loop and the rollback.
pub mod Rollback
pub mod TableFull
pub mod Logged
use ikpir.Prelude.{
  ℕ, zero, suc, ◌+◌, ◌*◌, ◌^◌, List, [], ◌∷◌, ◌++◌, true, false, not, Option, none, some, u64, ltb,
  ◌==◌, if◌then◌else◌, length, get_or, replicate, ◌>>=◌, ◌>>◌, assert,
}
use ikpir.Cuckoo.Scheme.{IndexScheme}
use ikpir.Cuckoo.Table
use ikpir.Cuckoo.Table.{FingerprintValueTable, value_size_in_cells}
use ikpir.Cuckoo.Store.{
  SlotMutation, CuckooKvStore, Outcome, ok, err, table_full, invalid_params, log_extend,
  value_size_in_bytes, pack_value_bytes_to_cells,
}

-- The probe loops of `insert`: each candidate in turn but the one at `skip`, which is `arity`
-- where the source skips none. The bucket and slot that took the pair, if any.
unfoldable pub try_place :
    ℕ
    → ℕ
    → FingerprintValueTable
    → List ℕ
    → ℕ
    → ℕ
    → List ℕ
    → Option (Option (ℕ × ℕ) × FingerprintValueTable)
try_place zero p t indices skip fp value = some (none, t)
try_place (suc left) p t indices skip fp value = elim (p == skip) [
  | true ↦ try_place left (p + 1) t indices skip fp value
  | false ↦ do
    (r, t) ← Table.insert t (get_or indices p 0) fp value
    elim r [
      | some slot ↦ some (some (get_or indices p 0, slot), t)
      | none ↦ try_place left (p + 1) t indices skip fp value
    ]
]

-- `(0..arity).find(|&p| all[p] == cur_index).unwrap_or(0)`
unfoldable pub evicted_position : ℕ → ℕ → List ℕ → ℕ → ℕ
evicted_position zero p all cur_index = 0
evicted_position (suc left) p all cur_index =
    if get_or all p 0 == cur_index then p else evicted_position left (p + 1) all cur_index

-- The positions `0..arity` without `evicted_pos`.
unfoldable pub alternatives : ℕ → ℕ → ℕ → List ℕ
alternatives zero p evicted_pos = []
alternatives (suc left) p evicted_pos =
    let rest = alternatives left (p + 1) evicted_pos in if p == evicted_pos then rest else p ∷ rest

-- One kick as the rollback needs it: the slot and what it held.
pub record Kick : Type 0 where
  pub bucket : ℕ
  pub slot : ℕ
  pub original_fp : ℕ
  pub original_value : List ℕ

pub data KickResult : Type 0 where
  placed : FingerprintValueTable → List SlotMutation → KickResult
  exhausted : FingerprintValueTable → List Kick → KickResult

unfoldable pub rollback : FingerprintValueTable → List Kick → Option FingerprintValueTable
rollback t [] = some t
rollback t (k ∷ chain) =
    Table.write t k.bucket k.slot k.original_fp k.original_value >>= λ t'. rollback t' chain

abbrev pub placement : FingerprintValueTable → ℕ → ℕ → ℕ → List ℕ → SlotMutation
placement t bucket slot fp value = record {
  bucket = bucket;
  slot = slot;
  old_fingerprint = 0;
  new_fingerprint = fp;
  old_value_cells = replicate (value_size_in_cells t) 0;
  new_value_cells = value;
}

-- What one pass of the loop body leaves: the kick, its mutation, the evicted pair's candidates,
-- the place among them that it came from, and the bucket and slot that took it, if any.
pub record Kicked : Type 0 where
  pub kick : Kick
  pub mutation : SlotMutation
  pub table : FingerprintValueTable
  pub all : List ℕ
  pub evicted_pos : ℕ
  pub final : Option (ℕ × ℕ)

-- The loop body up to the choice of the next bucket: evict from `(cur_index, slot)`, write the pair
-- in flight there, and probe the other candidates of the evicted pair.
unfoldable pub kick_once : IndexScheme → FingerprintValueTable → ℕ → ℕ → ℕ → List ℕ → Option Kicked
kick_once scheme t cur_index slot cur_fp cur_value = do
  evicted_fp ← Table.read_fingerprint t cur_index slot
  evicted_value ← Table.read_value t cur_index slot
  t ← Table.write t cur_index slot cur_fp cur_value
  all ← scheme.all_indices cur_index evicted_fp
  let evicted_pos = evicted_position scheme.arity 0 all cur_index
  (r, t) ← try_place scheme.arity 0 t all evicted_pos evicted_fp evicted_value
  some (record {
    kick = record {
      bucket = cur_index;
      slot = slot;
      original_fp = evicted_fp;
      original_value = evicted_value;
    };
    mutation = record {
      bucket = cur_index;
      slot = slot;
      old_fingerprint = evicted_fp;
      new_fingerprint = cur_fp;
      old_value_cells = evicted_value;
      new_value_cells = cur_value;
    };
    table = t;
    all = all;
    evicted_pos = evicted_pos;
    final = r;
  })

module _ (random_range : ℕ → ℕ → ℕ) (scheme : IndexScheme) where
  -- `for _ in 0..max_kicks`, by the kicks left; kick `k` makes the draws `2k + 1` and `2k + 2`.
  unfoldable pub kick_loop :
      ℕ
      → ℕ
      → FingerprintValueTable
      → ℕ
      → ℕ
      → List ℕ
      → List Kick
      → List SlotMutation
      → Option KickResult
  kick_loop zero k t cur_index cur_fp cur_value chain pending = some (exhausted t chain)
  kick_loop (suc left) k t cur_index cur_fp cur_value chain pending = do
    x ← kick_once scheme t cur_index (random_range (2 * k + 1) t.bucket_size) cur_fp cur_value
    let fp = (x.kick).original_fp
    let value = (x.kick).original_value
    let pending = pending ++ (x.mutation ∷ [])
    elim (x.final) [
      | some (bucket, slot) ↦
          some (placed x.table (pending ++ (placement t bucket slot fp value ∷ [])))
      | none ↦ do
        let alts = alternatives scheme.arity 0 x.evicted_pos
        assert (ltb 0 (length alts))
        let next_pos = get_or alts (random_range (2 * k + 2) (length alts)) 0
        kick_loop left (k + 1) x.table (get_or x.all next_pos 0) fp value (x.kick ∷ chain) pending
    ]

-- The store after a placement that the log records as `muts`.
abbrev pub committed : CuckooKvStore → FingerprintValueTable → List SlotMutation → CuckooKvStore
committed s t muts = record s {
  table = t;
  num_items = u64 (s.num_items + 1);
  mutation_log = log_extend s.mutation_log muts;
}

unfoldable pub insert :
    (ℕ → ℕ → ℕ) → CuckooKvStore → List ℕ → List ℕ → Option (Outcome × CuckooKvStore)
insert random_range s key value =
    if not (length value == value_size_in_bytes s) then some (err invalid_params, s) else do
      let t = s.table
      let (fingerprint, indices) = s.scheme.hash_item key t.fingerprint_bits
      let arity = s.scheme.arity
      let cur_value = pack_value_bytes_to_cells value t.value_bits t.plaintext_bits
      (r, t1) ← try_place arity 0 t indices arity fingerprint cur_value
      elim r [
        | some (bucket, slot) ↦
            some (ok, committed s t1 (placement t1 bucket slot fingerprint cur_value ∷ []))
        | none ↦ do
          let start_pos = random_range 0 arity
          k ←
              kick_loop random_range s.scheme s.max_kicks 0 t1 (get_or indices start_pos 0)
                fingerprint cur_value [] []
          elim k [
            | placed t2 muts ↦ some (ok, committed s t2 muts)
            | exhausted t2 chain ↦
                rollback t2 chain >>= λ t3. some (err table_full, record s { table = t3 })
          ]
      ]
