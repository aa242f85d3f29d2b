-- ===== src/Cuckoo/Store/Insert/Logged.antt =====
-- store.rs, the `insert` that succeeds: what the log gains replays to the new table.
use ikpir.Prelude.{
  ℕ, zero, suc, ◌+◌, ◌*◌, ◌≡◌, refl, sym, ap, ◌∙◌, List, [], ◌∷◌, ◌++◌, some, arith, Bool-cases,
  Option-cases, inl, inr, get_or, length, ◌==◌, >>=-some, some-injective, assert, ltb, u64,
}
use ikpir.Cuckoo.Scheme.{IndexScheme}
use ikpir.Cuckoo.Table
use ikpir.Cuckoo.Table.{FingerprintValueTable}
use ikpir.Cuckoo.Table.Probe.{insert-some, insert-none}
use ikpir.Cuckoo.Store.{
  SlotMutation, CuckooKvStore, Outcome, ok, pack_value_bytes_to_cells, value_size_in_bytes, replay,
  log_extend,
}
use ikpir.Cuckoo.Store.Replay.{replay-append, replay-one}
use ikpir.Cuckoo.Store.Insert.{
  insert, try_place, kick_once, kick_loop, Kick, placed, alternatives, placement, committed,
}
use ikpir.Cuckoo.Store.Insert.Rollback.{kick_once-Steps, try_place-none}
use ikpir.Cuckoo.Store.Insert.TableFull.{pair_eq, KickResult-cases}

-- The probe that places the pair found the slot empty, and wrote the pair there and nothing else.
pub try_place-some :
    (left p : ℕ) (t : FingerprintValueTable) (indices : List ℕ) (skip fp : ℕ) (value : List ℕ)
    (bucket slot : ℕ) (t' : FingerprintValueTable)
    → try_place left p t indices skip fp value ≡ some (some (bucket, slot), t')
    → (Table.read_fingerprint t bucket slot ≡ some 0)
      × (Table.write t bucket slot fp value ≡ some t')
unfolding try_place
try_place-some zero p t indices skip fp value bucket slot t' h = absurd (ground (arith, h))
try_place-some (suc left) p t indices skip fp value bucket slot t' h =
    elim (Bool-cases (p == skip)) [
      | inl e ↦
          try_place-some left (p + 1) t indices skip fp value bucket slot t'
            (rw (e, try_place) at h)
      | inr e ↦
          >>=-some (Table.insert t (get_or indices p 0) fp value) _ (rw (e, try_place) at h)
            (λ r one two. elim (Option-cases r.0) [
              | inl empty ↦
                  let same =
                    insert-none t (get_or indices p 0) fp value r.1
                      (one ∙ ap some (pair_eq r empty)) in
                  rw same at (
                    try_place-some left (p + 1) r.1 indices skip fp value bucket slot t'
                      (rw empty at two))
              | inr (found, taken) ↦
                  let w =
                    insert-some t (get_or indices p 0) fp value found r.1
                      (one ∙ ap some (pair_eq r taken)) in
                  ground (arith, taken, two, w)
            ])
    ]

pub placed-injective :
    {t t' : FingerprintValueTable} {muts muts' : List SlotMutation}
    → placed t muts ≡ placed t' muts'
    → (t ≡ t') × (muts ≡ muts')
placed-injective e = (cc, cc)

module _ (random_range : ℕ → ℕ → ℕ) (scheme : IndexScheme) (t0 : FingerprintValueTable) where
  -- If the pending mutations replay to the present table, those of the whole loop replay to the last.
  pub kick_loop-replay :
      (left k : ℕ) (t : FingerprintValueTable) (cur_index cur_fp : ℕ) (cur_value : List ℕ)
      (chain : List Kick) (pending : List SlotMutation) (t2 : FingerprintValueTable)
      (muts : List SlotMutation)
      → kick_loop random_range scheme left k t cur_index cur_fp cur_value chain pending
        ≡ some (placed t2 muts)
      → replay t0 pending ≡ some t
      → replay t0 muts ≡ some t2
  unfolding kick_loop
  kick_loop-replay zero k t cur_index cur_fp cur_value chain pending t2 muts h done =
      absurd (ground (arith, h))
  kick_loop-replay (suc left) k t cur_index cur_fp cur_value chain pending t2 muts h done =
      >>=-some
        (kick_once scheme t cur_index (random_range (2 * k + 1) t.bucket_size) cur_fp cur_value) _ h
        (λ x once h1.
          let s = kick_once-Steps scheme t cur_index _ cur_fp cur_value x once in
          let first : replay t0 (pending ++ (x.mutation ∷ [])) ≡ some s.middle =
            replay-append t0 t pending _ done
            ∙ replay-one t s.middle x.mutation
                (rw (s.logged.0, s.logged.1, s.logged.2, s.logged.3) s.wrote) in
          elim (Option-cases x.final) [
            | inl e ↦
                let same : x.table ≡ s.middle =
                  try_place-none _ 0 s.middle x.all _ _ _ x.table (rw e at s.probed) in
                >>=-some (assert (ltb 0 (length (alternatives scheme.arity 0 x.evicted_pos)))) _
                  (rw e at h1)
                  (λ _ _ h2.
                    kick_loop-replay left (k + 1) x.table _ _ _ _ _ t2 muts h2
                      (first ∙ ap some (sym same)))
            | inr (p, e) ↦
                let put =
                  try_place-some _ 0 s.middle x.all _ _ _ p.0 p.1 x.table (rw e at s.probed) in
                let last = some-injective (rw e at h1) in
                let m = placement t p.0 p.1 (x.kick).original_fp (x.kick).original_value in
                let whole : replay t0 ((pending ++ (x.mutation ∷ [])) ++ (m ∷ [])) ≡ some x.table =
                  replay-append t0 s.middle _ _ first ∙ replay-one s.middle x.table m put.1 in
                let same = placed-injective last in rw (← same.0, ← same.1) whole
          ])

committed-replay :
    (s s' : CuckooKvStore) (t : FingerprintValueTable) (muts : List SlotMutation)
    → ◌≡◌ {A = Outcome × CuckooKvStore} (ok, committed s t muts) (ok, s')
    → replay s.table muts ≡ some t
    → (s'.num_items ≡ u64 (s.num_items + 1))
      × (muts : List SlotMutation) × (s'.mutation_log ≡ log_extend s.mutation_log muts)
      × (replay s.table muts ≡ some s'.table)
committed-replay s s' t muts h r =
    let e : committed s t muts ≡ s' = ap (λ (x : Outcome × CuckooKvStore). x.1) h in
    rw (← e) (refl, muts, refl, r)

-- An `insert` that returns `Ok` adds one to the count, and what it appends to the log replays from
-- the table before the call to the table after it.
pub insert-replay :
    (random_range : ℕ → ℕ → ℕ) (s s' : CuckooKvStore) (key value : List ℕ)
    → insert random_range s key value ≡ some (ok, s')
    → (s'.num_items ≡ u64 (s.num_items + 1))
      × (muts : List SlotMutation) × (s'.mutation_log ≡ log_extend s.mutation_log muts)
      × (replay s.table muts ≡ some s'.table)
unfolding insert value_size_in_bytes replay
insert-replay random_range s s' key value h =
    elim (Bool-cases (length value == value_size_in_bytes s)) [
      | inr wrong ↦ absurd (ground (arith, wrong, h))
      | inl right ↦
          let t = s.table in
          let (fp, indices) = s.scheme.hash_item key t.fingerprint_bits in
          let cells = pack_value_bytes_to_cells value t.value_bits t.plaintext_bits in
          >>=-some (try_place s.scheme.arity 0 t indices s.scheme.arity fp cells) _ (rw right at h)
            (λ r tried h1. elim (Option-cases r.0) [
              | inr (p, taken) ↦
                  let put =
                    try_place-some s.scheme.arity 0 t indices s.scheme.arity fp cells p.0 p.1 r.1
                      (tried ∙ ap some (pair_eq r taken)) in
                  committed-replay s s' r.1 _ (some-injective (rw taken at h1))
                    (replay-one t r.1 (placement r.1 p.0 p.1 fp cells) put.1)
              | inl none_placed ↦
                  let same : r.1 ≡ t =
                    try_place-none s.scheme.arity 0 t indices s.scheme.arity fp cells r.1
                      (tried ∙ ap some (pair_eq r none_placed)) in
                  let start = get_or indices (random_range 0 s.scheme.arity) 0 in
                  let loop =
                    kick_loop random_range s.scheme s.max_kicks 0 r.1 start fp cells [] [] in
                  >>=-some loop _ (rw none_placed at h1) (λ k looped h2. elim (KickResult-cases k) [
                    | inr (t2, chain, e) ↦ absurd ground (arith, e, h2)
                    | inl (t2, muts, e) ↦
                        let logged =
                          kick_loop-replay random_range s.scheme t s.max_kicks 0 r.1 start fp cells
                            [] [] t2 muts (looped ∙ ap some e) (ap some (sym same)) in
                        committed-replay s s' t2 muts (some-injective (rw e at h2)) logged
                  ])
            ])
    ]
