-- ===== src/Client/Rewind/Fresh.antt =====
-- A setup bundle as a server sends it, and the rewinding client that is made from it.
use ikpir.Prelude.{ℕ, suc, ◌≡◌, List, [], ◌∷◌, length, replicate, length-replicate}
use ikpir.Cuckoo.Store.Build.{arity}
use ikpir.Backend.Interface.{IncrementalPirBackend, HintLaws}
use ikpir.Client.Bundles.{ServerSetupBundle}
use ikpir.Client.Pending
use ikpir.Client.Pending.{CellMap}
use ikpir.Client.Rewind.{from_setup, setup_states}
use ikpir.Client.Rewind.Sync.{IsSynced, AreSynced, all_synced, synced_segment, collected}

module _ (B : IncrementalPirBackend) (n w : ℕ) (laws : HintLaws B n w) (db : ℕ → ℕ → List ℕ) where
  -- The hints of the segments from `j` on: a state that the back end sets up with one serves the
  -- segment of the database at epoch `t`.
  pub data AreFresh (t : ℕ) : ℕ → List B.ServerParams → List B.Hint → Type 0 where
    all_fresh : {j : ℕ} → AreFresh t j [] []
    fresh_segment :
        {j : ℕ} {p : B.ServerParams} {ps : List B.ServerParams} {h : B.Hint} {hs : List B.Hint}
        → laws.Serves (B.client_setup p h) (db t j)
        → AreFresh t (suc j) ps hs
        → AreFresh t j (p ∷ ps) (h ∷ hs)

  -- A bundle has a hint for each segment of the database at its epoch.
  abbrev pub IsFresh : ServerSetupBundle B → Type 0
  IsFresh bundle =
      AreFresh bundle.epoch 0 bundle.backend_params bundle.hints
      × (length bundle.hints ≡ arity bundle.params.scheme_kind)

  setup_states-AreSynced :
      (t j : ℕ) {ps : List B.ServerParams} {hs : List B.Hint}
      → AreFresh t j ps hs
      → AreSynced B n w laws db t t j (setup_states B ps hs) (replicate (length hs) [])
  unfolding setup_states
  setup_states-AreSynced t j all_fresh = all_synced
  setup_states-AreSynced t j (fresh_segment serves rest) =
      synced_segment (collected B n w laws db t j _ serves) (setup_states-AreSynced t (suc j) rest)

  -- A client that is made from such a bundle is in step with the server at the bundle's epoch.
  pub from_setup-IsSynced :
      (bundle : ServerSetupBundle B) → IsFresh bundle → IsSynced B n w laws db (from_setup B bundle)
  unfolding from_setup Pending.new
  from_setup-IsSynced bundle (fresh, count) = (
    rw (← count) (setup_states-AreSynced bundle.epoch 0 fresh),
    length-replicate {A = CellMap} (arity bundle.params.scheme_kind) [],
  )
