-- ===== src/Cuckoo/Store/History/Insert.antt =====
-- store.rs: `insert`, `delete` and `update` that return `Ok` append a true history to the log.
use ikpir.Prelude.{
  ℕ, zero, suc, ◌+◌, ◌*◌, ◌^◌, ◌<◌, ◌≡◌, ◌≢◌, refl, sym, ap, ◌∙◌, List, [], ◌∷◌, ◌++◌, some, arith,
  Bool-cases, Option-cases, inl, inr, get_or, length, ◌==◌, ==_iff, >>=-some, some-injective,
  assert, ltb,
}
use ikpir.Cuckoo.CellStream.Number.{Fits}
use ikpir.Cuckoo.Scheme.{IndexScheme}
use ikpir.Cuckoo.Table
use ikpir.Cuckoo.Table.{FingerprintValueTable, value_size_in_cells, with_cells}
use ikpir.Cuckoo.Table.Slot.{IsTable}
use ikpir.Cuckoo.Table.Probe.{write-InRange}
use ikpir.Cuckoo.Store.{
  SlotMutation, CuckooKvStore, Outcome, ok, pack_value_bytes_to_cells, value_size_in_bytes,
  log_extend,
}
use ikpir.Cuckoo.Store.Pack.{pack-IsValue}
use ikpir.Cuckoo.Store.Insert.{
  insert, try_place, kick_once, Kicked, kick_loop, Kick, placed, alternatives, placement, committed,
}
use ikpir.Cuckoo.Store.Insert.Rollback.{Steps, kick_once-Steps, try_place-none}
use ikpir.Cuckoo.Store.Insert.TableFull.{pair_eq, KickResult-cases}
use ikpir.Cuckoo.Store.Insert.Logged.{try_place-some, placed-injective}
use ikpir.Cuckoo.Store.Access.{delete, locate}
use ikpir.Cuckoo.Store.Access.Locate.{locate-some}
use ikpir.Cuckoo.Store.History.{
  IsClean, IsPair, Mutated, IsHistory, unchanged, mutated, append-IsHistory, zero_value,
  zero-IsPair, held-IsPair, write-Kept, value_size_in_cells-Kept,
}

-- The probe that places a pair is one true mutation.
try_place-Mutated :
    (left p : ℕ) (t : FingerprintValueTable) (indices : List ℕ) (skip fp : ℕ) (value : List ℕ)
    (bucket slot : ℕ) (u t' : FingerprintValueTable)
    → IsClean t
    → IsPair t fp value
    → value_size_in_cells u ≡ value_size_in_cells t
    → try_place left p t indices skip fp value ≡ some (some (bucket, slot), t')
    → Mutated t (placement u bucket slot fp value) t'
try_place-Mutated left p t indices skip fp value bucket slot u t' clean pair same h =
    let put = try_place-some left p t indices skip fp value bucket slot t' h in
    let r = write-InRange t bucket slot fp value t' put.1 in
    record {
      range = r;
      held_fp = put.0;
      held_value = rw same (clean bucket slot r put.0);
      pair = pair;
      wrote = put.1;
    }

kick-Mutated :
    (scheme : IndexScheme) (t : FingerprintValueTable) (cur_index slot cur_fp : ℕ)
    (cur_value : List ℕ) (x : Kicked)
    → IsPair t cur_fp cur_value
    → (s : Steps scheme t cur_index slot cur_fp cur_value x) → Mutated t x.mutation s.middle
kick-Mutated scheme t cur_index slot cur_fp cur_value x pair s =
    let r = write-InRange t cur_index slot cur_fp cur_value s.middle s.wrote in
    rw (s.logged.0, s.logged.1, s.logged.2, s.logged.3, s.logged_old.0, s.logged_old.1)
      (record {
        range = r;
        held_fp = s.read_fp;
        held_value = s.read_value;
        pair = pair;
        wrote = s.wrote;
      })

module _ (random_range : ℕ → ℕ → ℕ) (scheme : IndexScheme) (t0 : FingerprintValueTable) where
  -- If the pending mutations are the history up to the present table, those of the whole loop are
  -- that up to the last.
  kick_loop-IsHistory :
      (left k : ℕ) (t : FingerprintValueTable) (cur_index cur_fp : ℕ) (cur_value : List ℕ)
      (chain : List Kick) (pending : List SlotMutation) (t2 : FingerprintValueTable)
      (muts : List SlotMutation)
      → IsTable t
      → IsClean t
      → IsPair t cur_fp cur_value
      → kick_loop random_range scheme left k t cur_index cur_fp cur_value chain pending
        ≡ some (placed t2 muts)
      → IsHistory t0 pending t
      → IsHistory t0 muts t2
  unfolding kick_loop
  kick_loop-IsHistory zero k t cur_index cur_fp cur_value chain pending t2 muts w c p h done =
      absurd (ground (arith, h))
  kick_loop-IsHistory (suc left) k t cur_index cur_fp cur_value chain pending t2 muts w c p h done =
      >>=-some
        (kick_once scheme t cur_index (random_range (2 * k + 1) t.bucket_size) cur_fp cur_value) _ h
        (λ x once h1.
          let s = kick_once-Steps scheme t cur_index _ cur_fp cur_value x once in
          let one = kick-Mutated scheme t cur_index _ cur_fp cur_value x p s in
          let r = write-InRange t cur_index _ cur_fp cur_value s.middle s.wrote in
          let kept = write-Kept t s.middle cur_index _ cur_fp cur_value w c r p s.wrote in
          let evicted =
            kept.pairs _ _ (held-IsPair t cur_index _ _ _ w c r s.read_fp s.read_value) in
          let first = append-IsHistory t0 t s.middle pending x.mutation done one in
          elim (Option-cases x.final) [
            | inl e ↦
                let same : x.table ≡ s.middle =
                  try_place-none _ 0 s.middle x.all _ _ _ x.table (rw e at s.probed) in
                >>=-some (assert (ltb 0 (length (alternatives scheme.arity 0 x.evicted_pos)))) _
                  (rw e at h1)
                  (λ _ _ h2.
                    kick_loop-IsHistory left (k + 1) x.table _ _ _ _ _ t2 muts (rw same kept.table)
                      (rw same kept.clean) (rw same evicted) h2 (rw same first))
            | inr (q, e) ↦
                let last = placed-injective (some-injective (rw e at h1)) in
                let two =
                  try_place-Mutated _ 0 s.middle x.all _ _ _ q.0 q.1 t x.table kept.clean evicted
                    (value_size_in_cells-Kept t s.middle kept) (rw e at s.probed) in
                rw (← last.0, ← last.1)
                  (append-IsHistory t0 s.middle x.table (pending ++ (x.mutation ∷ [])) _ first two)
          ])

-- The fingerprint that a store gives a key is not the empty one and fits its width.
abbrev pub IsFingerprint : CuckooKvStore → List ℕ → Type 0
IsFingerprint s key =
    let fp = (s.scheme.hash_item key s.table.fingerprint_bits).0 in
    (fp ≢ 0) × (fp < 2 ^ s.table.fingerprint_bits)

-- What a call that returns `Ok` leaves: a log with the history of the table appended.
abbrev pub HasLogged : CuckooKvStore → CuckooKvStore → Type 0
HasLogged s s' =
    (muts : List SlotMutation) × (s'.mutation_log ≡ log_extend s.mutation_log muts)
    × IsHistory s.table muts s'.table
    × (s'.scheme ≡ s.scheme)

committed-HasLogged :
    (s s' : CuckooKvStore) (t : FingerprintValueTable) (muts : List SlotMutation)
    → ◌≡◌ {A = Outcome × CuckooKvStore} (ok, committed s t muts) (ok, s')
    → IsHistory s.table muts t
    → HasLogged s s'
committed-HasLogged s s' t muts h r =
    let e : committed s t muts ≡ s' = ap (λ (x : Outcome × CuckooKvStore). x.1) h in
    rw (← e) (muts, refl, r, refl)

-- An `insert` that returns `Ok` logs the history of the table: its table is well formed and clean,
-- and the value is made of bytes.
pub insert-HasLogged :
    (random_range : ℕ → ℕ → ℕ) (s s' : CuckooKvStore) (key value : List ℕ)
    → IsTable s.table
    → IsClean s.table
    → IsFingerprint s key
    → Fits 8 value
    → insert random_range s key value ≡ some (ok, s')
    → HasLogged s s'
unfolding insert value_size_in_bytes
insert-HasLogged random_range s s' key value w c f fit h =
    elim (Bool-cases (length value == value_size_in_bytes s)) [
      | inr wrong ↦ absurd (ground (arith, wrong, h))
      | inl right ↦
          let t = s.table in
          let (fp, indices) = s.scheme.hash_item key t.fingerprint_bits in
          let cells = pack_value_bytes_to_cells value t.value_bits t.plaintext_bits in
          let pair : IsPair t fp cells = record {
            valid = pack-IsValue t value fit ((==_iff _ _).0 right);
            fp_lt = f.1;
            empty = λ z. absurd (f.0 z);
          } in
          >>=-some (try_place s.scheme.arity 0 t indices s.scheme.arity fp cells) _ (rw right at h)
            (λ r tried h1. elim (Option-cases r.0) [
              | inr (p, taken) ↦
                  let placed_at = tried ∙ ap some (pair_eq r taken) in
                  let put = try_place-some _ 0 t indices _ fp cells p.0 p.1 r.1 placed_at in
                  let range = write-InRange t p.0 p.1 fp cells r.1 put.1 in
                  let kept = write-Kept t r.1 p.0 p.1 fp cells w c range pair put.1 in
                  let one =
                    try_place-Mutated _ 0 t indices _ fp cells p.0 p.1 r.1 r.1 c pair
                      (sym (value_size_in_cells-Kept t r.1 kept)) placed_at in
                  committed-HasLogged s s' r.1 _ (some-injective (rw taken at h1))
                    (mutated one unchanged)
              | inl none_placed ↦
                  let same : r.1 ≡ t =
                    try_place-none s.scheme.arity 0 t indices s.scheme.arity fp cells r.1
                      (tried ∙ ap some (pair_eq r none_placed)) in
                  let start = get_or indices (random_range 0 s.scheme.arity) 0 in
                  let loop =
                    kick_loop random_range s.scheme s.max_kicks 0 r.1 start fp cells [] [] in
                  >>=-some loop _ (rw none_placed at h1) (λ k looped h2. elim (KickResult-cases k) [
                    | inr (t2, chain, e) ↦ absurd ground (arith, e, h2)
                    | inl (t2, muts, e) ↦
                        let logged =
                          kick_loop-IsHistory random_range s.scheme t s.max_kicks 0 r.1 start fp
                            cells [] [] t2 muts (rw same w) (rw same c) (rw same pair)
                            (looped ∙ ap some e) (rw same unchanged) in
                        committed-HasLogged s s' t2 muts (some-injective (rw e at h2)) logged
                  ])
            ])
    ]

-- A `delete` that returns `Ok` likewise.
pub delete-HasLogged :
    (s s' : CuckooKvStore) (key : List ℕ) → delete s key ≡ some (ok, s') → HasLogged s s'
unfolding delete
delete-HasLogged s s' key h =
    let (fp, indices) = s.scheme.hash_item key s.table.fingerprint_bits in
    >>=-some (locate s.scheme.arity 0 s.table indices fp) _ h (λ r found h1. elim (Option-cases r) [
      | inl none_found ↦ absurd ground (arith, none_found, h1)
      | inr (p, e) ↦
          let held = locate-some s.scheme.arity 0 s.table indices fp p.0 p.1 (found ∙ ap some e) in
          >>=-some (Table.read_value s.table p.0 p.1) _ (rw e at h1) (λ old read h2.
            >>=-some (Table.write s.table p.0 p.1 0 (zero_value s.table)) _ h2 (λ t wrote h3.
              let same = ap (λ (x : Outcome × CuckooKvStore). x.1) (some-injective h3) in
              let one : Mutated s.table _ t = record {
                range = write-InRange s.table p.0 p.1 0 (zero_value s.table) t wrote;
                held_fp = held;
                held_value = read;
                pair = zero-IsPair s.table;
                wrote = wrote;
              } in
              rw (← same) (_, refl, mutated one unchanged, refl)))
    ])
