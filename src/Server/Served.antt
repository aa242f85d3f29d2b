-- ===== src/Server/Served.antt =====
-- The three calls that change the database, in full: the store's call, then the commit or the error.
use ikpir.Prelude.{ℕ, ◌≡◌, refl, ap, ◌∙◌, some, List, ◌>>=◌}
use ikpir.Cuckoo.CellStream.Number.{Fits}
use ikpir.Cuckoo.Scheme.{SchemeKind}
use ikpir.Cuckoo.Store.{CuckooKvStore, Outcome, ok, err, log_extend}
use ikpir.Cuckoo.Store.Insert
use ikpir.Cuckoo.Store.Access
use ikpir.Cuckoo.Store.History.Insert.{IsFingerprint, HasLogged, insert-HasLogged, delete-HasLogged}
use ikpir.Cuckoo.Store.History.Update.{update-HasLogged}
use ikpir.Cuckoo.Store.History.Refused.{insert-refused, delete-refused, update-refused}
use ikpir.Backend.Interface.{IncrementalPirBackend, IndexPirBackend, HintLaws, ServerLaws}
use ikpir.Server.{IkpirServer, Published, published, rejected, publish, insert, update, delete}
use ikpir.Server.Commit.{IsServer, IsPublished, commit_mutations-IsServer}

-- What the store's call tells of the store that it leaves.
abbrev Told : CuckooKvStore → Outcome → CuckooKvStore → Type 0
Told s ok s' = HasLogged s s'
Told s (err e) s' = s' ≡ s

module _ (B : IncrementalPirBackend) (P : IndexPirBackend B) (kind : SchemeKind) (n w : ℕ)
    (laws : HintLaws B n w) (promise : ServerLaws B P n w laws) where
  -- A published change leads to the next epoch and its database; a rejected one changes nothing.
  abbrev pub Leaves : IkpirServer B P kind → IkpirServer B P kind × Published → Type 0
  Leaves s (s', published bundle) = IsPublished B P kind n w laws promise s bundle s'
  Leaves s (s', rejected e) = s' ≡ s

  -- A call returns, with a server whose hints are those of its database.
  abbrev pub Serves : IkpirServer B P kind → IkpirServer B P kind × Published → Type 0
  Serves s r = IsServer B P kind n w laws promise r.0 × Leaves s r

  publish-Serves :
      (s : IkpirServer B P kind) (o : Outcome) (store : CuckooKvStore)
      → IsServer B P kind n w laws promise s
      → Told s.store o store
      → (r : IkpirServer B P kind × Published) × ((publish B P kind s (o, store) ≡ some r)
          × Serves s r)
  publish-Serves s (err e) store is same =
      (_, (refl, (rw same is, ap (λ x. record s { store = x }) same)))
  publish-Serves s ok store is (muts, logged, history, _) =
      let log = logged ∙ ap (λ l. log_extend l muts) is.drained in
      let (s', bundle, eq, is', told) =
        commit_mutations-IsServer B P kind n w laws promise s store muts is log history in
      (
        (s', published bundle),
        (ap (λ o. o >>= λ (s', bundle). some (s', published bundle)) eq, (is', told)),
      )

  -- For a server with the hints of its database and a drained log, over a well-formed table whose
  -- empty slots hold zeros and whose rows have at most 2^16 cells: when the store's `insert` of bytes
  -- under a proper fingerprint returns, the server's returns, and leaves such a server. What it
  -- publishes is the change of the database at the next epoch; what it rejects changes nothing.
  pub insert-Serves :
      (random_range : ℕ → ℕ → ℕ) (s : IkpirServer B P kind) (key value : List ℕ)
      (done : Outcome × CuckooKvStore)
      → IsServer B P kind n w laws promise s
      → IsFingerprint s.store key
      → Fits 8 value
      → Insert.insert random_range s.store key value ≡ some done
      → (r : IkpirServer B P kind × Published) × ((insert B P kind random_range s key value
            ≡ some r)
          × Serves s r)
  unfolding insert
  insert-Serves random_range s key value (ok, store) is f fit h = rw h (
      publish-Serves s ok store is
        (insert-HasLogged random_range s.store store key value is.table is.clean f fit h))
  insert-Serves random_range s key value (err e, store) is f fit h = rw h (
      publish-Serves s (err e) store is
        (insert-refused random_range s.store store key value e is.table fit h))

  -- Likewise for `update`.
  pub update-Serves :
      (s : IkpirServer B P kind) (key value : List ℕ) (done : Outcome × CuckooKvStore)
      → IsServer B P kind n w laws promise s
      → IsFingerprint s.store key
      → Fits 8 value
      → Access.update s.store key value ≡ some done
      → (r : IkpirServer B P kind × Published) × ((update B P kind s key value ≡ some r)
          × Serves s r)
  unfolding update
  update-Serves s key value (ok, store) is f fit h =
      rw h
        (publish-Serves s ok store is (update-HasLogged s.store store key value is.table f fit h))
  update-Serves s key value (err e, store) is f fit h =
      rw h (publish-Serves s (err e) store is (update-refused s.store store key value e h))

  -- Likewise for `delete`.
  pub delete-Serves :
      (s : IkpirServer B P kind) (key : List ℕ) (done : Outcome × CuckooKvStore)
      → IsServer B P kind n w laws promise s
      → Access.delete s.store key ≡ some done
      → (r : IkpirServer B P kind × Published) × ((delete B P kind s key ≡ some r) × Serves s r)
  unfolding delete
  delete-Serves s key (ok, store) is h =
      rw h (publish-Serves s ok store is (delete-HasLogged s.store store key h))
  delete-Serves s key (err e, store) is h =
      rw h (publish-Serves s (err e) store is (delete-refused s.store store key e h))
