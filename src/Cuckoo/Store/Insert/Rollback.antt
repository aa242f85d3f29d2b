-- ===== src/Cuckoo/Store/Insert/Rollback.antt =====
-- store.rs, the failed `insert`: undoing the chain gives the table before the first kick.
use ikpir.Prelude.{
  ℕ, zero, suc, ◌+◌, ◌*◌, ◌≡◌, refl, sym, ◌∙◌, List, none, some, arith, Bool-cases, Option-cases,
  inl, inr, get_or, length, ◌==◌, >>=-some, some-injective, assert, ltb,
}
use ikpir.Cuckoo.Scheme.{IndexScheme}
use ikpir.Cuckoo.Table
use ikpir.Cuckoo.Table.{FingerprintValueTable, with_cells, value_size_in_cells}
use ikpir.Cuckoo.Table.Slot.{IsTable, IsValue, InRange, read_value_lem}
use ikpir.Cuckoo.Table.Write.{result, write-restore}
use ikpir.Cuckoo.Table.Probe.{write-InRange, insert-none}
use ikpir.Cuckoo.Store.{SlotMutation}
use ikpir.Cuckoo.Store.Insert.{
  try_place, kick_once, Kicked, kick_loop, rollback, Kick, exhausted, evicted_position,
  alternatives,
}

-- The probe that places nothing leaves the table as it is.
pub try_place-none :
    (left p : ℕ) (t : FingerprintValueTable) (indices : List ℕ) (skip fp : ℕ) (value : List ℕ)
    (t' : FingerprintValueTable)
    → try_place left p t indices skip fp value ≡ some (none, t')
    → t' ≡ t
unfolding try_place
try_place-none zero p t indices skip fp value t' h = ground arith
try_place-none (suc left) p t indices skip fp value t' h = elim (Bool-cases (p == skip)) [
  | inl e ↦ try_place-none left (p + 1) t indices skip fp value t' (rw (e, try_place) at h)
  | inr e ↦
      >>=-some (Table.insert t (get_or indices p 0) fp value) _ (rw (e, try_place) at h)
        (λ r one two. elim (Option-cases r.0) [
          | inl empty ↦
              try_place-none left (p + 1) r.1 indices skip fp value t' (rw empty at two)
              ∙ insert-none t (get_or indices p 0) fp value r.1 cc
          | inr (slot, taken) ↦ absurd ground (arith, taken, two)
        ])
]

-- A write of a valid table gives a valid table of the same dimensions.
pub write-IsTable :
    (t t' : FingerprintValueTable) (bucket slot fp : ℕ) (value : List ℕ)
    → IsTable t
    → IsValue t value
    → Table.write t bucket slot fp value ≡ some t'
    → IsTable t' × ((v : List ℕ) → IsValue t v → IsValue t' v)
unfolding value_size_in_cells
write-IsTable t t' bucket slot fp value w v h =
    let r = write-InRange t bucket slot fp value t' h in
    let res = result t t' bucket slot fp value w r v h in
    rw res.table (res.valid, λ u f. record { fits = f.fits; size = f.size })

-- What is read is a value.
pub read_value-IsValue :
    (t : FingerprintValueTable) (bucket slot : ℕ) (value : List ℕ)
    → IsTable t
    → InRange t bucket slot
    → Table.read_value t bucket slot ≡ some value
    → IsValue t value
read_value-IsValue t bucket slot value w r h =
    let got = read_value_lem t bucket slot w r in
    let e : got.0 ≡ value = some-injective (sym got.1 ∙ h) in rw (← e) got.2

-- The steps of a kick that returns.
pub record Steps (scheme : IndexScheme) (t : FingerprintValueTable) (cur_index slot cur_fp : ℕ)
    (cur_value : List ℕ) (x : Kicked) : Type 0 where
  pub middle : FingerprintValueTable
  pub at : ((x.kick).bucket ≡ cur_index) × ((x.kick).slot ≡ slot)
  pub read_fp : Table.read_fingerprint t cur_index slot ≡ some (x.kick).original_fp
  pub read_value : Table.read_value t cur_index slot ≡ some (x.kick).original_value
  pub wrote : Table.write t cur_index slot cur_fp cur_value ≡ some middle
  pub logged :
      ((x.mutation).bucket ≡ cur_index)
      × ((x.mutation).slot ≡ slot)
      × ((x.mutation).new_fingerprint ≡ cur_fp)
      × ((x.mutation).new_value_cells ≡ cur_value)
  pub logged_old :
      ((x.mutation).old_fingerprint ≡ (x.kick).original_fp)
      × ((x.mutation).old_value_cells ≡ (x.kick).original_value)
  pub probed :
      try_place scheme.arity 0 middle x.all x.evicted_pos
        (x.kick).original_fp
        (x.kick).original_value
      ≡ some (x.final, x.table)

pub kick_once-Steps :
    (scheme : IndexScheme) (t : FingerprintValueTable) (cur_index slot cur_fp : ℕ)
    (cur_value : List ℕ) (x : Kicked)
    → kick_once scheme t cur_index slot cur_fp cur_value ≡ some x
    → Steps scheme t cur_index slot cur_fp cur_value x
unfolding kick_once
kick_once-Steps scheme t cur_index slot cur_fp cur_value x h =
    >>=-some (Table.read_fingerprint t cur_index slot) _ h (λ fp read_fp h1.
      >>=-some (Table.read_value t cur_index slot) _ h1 (λ value read_value h2.
        >>=-some (Table.write t cur_index slot cur_fp cur_value) _ h2 (λ t' wrote h3.
          >>=-some (scheme.all_indices cur_index fp) _ h3 (λ all indices h4.
            >>=-some
              (try_place scheme.arity 0 t' all (evicted_position scheme.arity 0 all cur_index) fp
                value)
              _ h4
              (λ r probed h5.
                let e = some-injective h5 in
                rw (← e) (record {
                  middle = t';
                  at = (refl, refl);
                  read_fp = read_fp;
                  read_value = read_value;
                  wrote = wrote;
                  logged = (refl, refl, refl, refl);
                  logged_old = (refl, refl);
                  probed = probed;
                }))))))

-- A kick that places nothing is undone by writing back what it evicted, and it keeps the table valid.
pub kick_once-undo :
    (scheme : IndexScheme) (t : FingerprintValueTable) (cur_index slot cur_fp : ℕ)
    (cur_value : List ℕ) (x : Kicked)
    → IsTable t
    → IsValue t cur_value
    → Steps scheme t cur_index slot cur_fp cur_value x
    → x.final ≡ none
    → IsTable x.table
      × IsValue x.table (x.kick).original_value
      × (Table.write x.table
            (x.kick).bucket
            (x.kick).slot
            (x.kick).original_fp
            (x.kick).original_value
          ≡ some t)
kick_once-undo scheme t cur_index slot cur_fp cur_value x w v s none_placed =
    let same : x.table ≡ s.middle =
      try_place-none _ 0 s.middle x.all _ _ _ x.table (rw none_placed at s.probed) in
    let range = write-InRange t cur_index slot cur_fp cur_value s.middle s.wrote in
    let v' = read_value-IsValue t cur_index slot _ w range s.read_value in
    let kept = write-IsTable t s.middle cur_index slot cur_fp cur_value w v s.wrote in
    rw (same, s.at.0, s.at.1)
      (
        kept.0,
        kept.1 _ v',
        write-restore t s.middle cur_index slot cur_fp cur_value w range v s.wrote _ _ s.read_fp
            s.read_value,
      )

module _ (random_range : ℕ → ℕ → ℕ) (scheme : IndexScheme) where
  -- If undoing the chain gives `t0`, then after more kicks undoing the longer chain still does.
  pub kick_loop-rollback :
      (left k : ℕ) (t : FingerprintValueTable) (cur_index cur_fp : ℕ) (cur_value : List ℕ)
      (chain : List Kick) (pending : List SlotMutation) (t2 : FingerprintValueTable)
      (chain2 : List Kick) (t0 : FingerprintValueTable)
      → IsTable t
      → IsValue t cur_value
      → kick_loop random_range scheme left k t cur_index cur_fp cur_value chain pending
        ≡ some (exhausted t2 chain2)
      → rollback t chain ≡ some t0
      → rollback t2 chain2 ≡ some t0
  unfolding kick_loop rollback
  kick_loop-rollback zero k t cur_index cur_fp cur_value chain pending t2 chain2 t0 w v h undo =
      ground arith
  kick_loop-rollback (suc left) k t cur_index cur_fp cur_value chain pending t2 chain2 t0 w v h
        undo =
      >>=-some
        (kick_once scheme t cur_index (random_range (2 * k + 1) t.bucket_size) cur_fp cur_value) _ h
        (λ x once h1. elim (Option-cases x.final) [
          | inr (p, e) ↦ absurd ground (arith, e, h1)
          | inl e ↦
              >>=-some (assert (ltb 0 (length (alternatives scheme.arity 0 x.evicted_pos)))) _
                (rw e at h1)
                (λ _ _ h2.
                  let s = kick_once-Steps scheme t cur_index _ cur_fp cur_value x once in
                  let u = kick_once-undo scheme t cur_index _ cur_fp cur_value x w v s e in
                  kick_loop-rollback left (k + 1) x.table _ _ _ _ _ t2 chain2 t0 u.0 u.1 h2
                    (rw (rollback, u.2) undo))
        ])
