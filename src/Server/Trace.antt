-- ===== src/Server/Trace.antt =====
-- A server and a patching client over a sequence of calls: the client applies the bundles of the
-- calls that the server published, in their order.
use ikpir.Client.Rewind.Fresh.{AreFresh, all_fresh, fresh_segment, IsFresh}
use ikpir.Cuckoo.Store.Build.{CuckooParams, arity}
use ikpir.Server.Fold.Updated.{segment_of}
use ikpir.Prelude.{
  suc, ap, refl, length, Option, ℕ, ◌≡◌, sym, ◌∙◌, some, List, [], ◌∷◌, some-injective, >>=-some,
}
use ikpir.Cuckoo.CellStream.Number.{Fits}
use ikpir.Cuckoo.Scheme.{SchemeKind}
use ikpir.Cuckoo.Store.Insert
use ikpir.Cuckoo.Store.Access
use ikpir.Cuckoo.Store.History.Insert.{IsFingerprint}
use ikpir.Backend.Interface.{IncrementalPirBackend, IndexPirBackend, HintLaws, ServerLaws}
use ikpir.Client.Bundles.{HintDeltaBundle, IkpirError, ok}
use ikpir.Client.HintPatch.{HintPatchClient, apply_delta}
use ikpir.Server.{IkpirServer, setup, Published, published, rejected, insert, update, delete}
use ikpir.Server.Commit.{IsServer, AreHints, all_hints, hint}
use ikpir.Server.Served.{Serves, insert-Serves, update-Serves, delete-Serves}
use ikpir.Server.Run.{Follows, apply_delta-Follows}

module _ (B : IncrementalPirBackend) where
  -- The client applies every bundle of a list, and each is accepted.
  pub data Applies : HintPatchClient B → List HintDeltaBundle → HintPatchClient B → Type 0 where
    applied_all : {c : HintPatchClient B} → Applies c [] c
    applied :
        {c c₁ c' : HintPatchClient B} {bundle : HintDeltaBundle} {bundles : List HintDeltaBundle}
        → apply_delta B c bundle ≡ some (c₁, ok)
        → Applies c₁ bundles c'
        → Applies c (bundle ∷ bundles) c'

module _ (B : IncrementalPirBackend) (P : IndexPirBackend B) (kind : SchemeKind) where
  -- A call of the server that returns: its bytes are bytes, and its key has a proper fingerprint.
  pub data Call : IkpirServer B P kind → IkpirServer B P kind × Published → Type 0 where
    inserted :
        {s : IkpirServer B P kind} {r : IkpirServer B P kind × Published} (random_range : ℕ → ℕ → ℕ)
        (key value : List ℕ)
        → IsFingerprint s.store key
        → Fits 8 value
        → insert B P kind random_range s key value ≡ some r
        → Call s r
    updated :
        {s : IkpirServer B P kind} {r : IkpirServer B P kind × Published} (key value : List ℕ)
        → IsFingerprint s.store key
        → Fits 8 value
        → update B P kind s key value ≡ some r
        → Call s r
    deleted :
        {s : IkpirServer B P kind} {r : IkpirServer B P kind × Published} (key : List ℕ)
        → delete B P kind s key ≡ some r
        → Call s r

  -- A sequence of calls, with the bundles that they publish.
  pub data Calls : IkpirServer B P kind → List HintDeltaBundle → IkpirServer B P kind → Type 0 where
    no_call : {s : IkpirServer B P kind} → Calls s [] s
    then_published :
        {s s₁ s' : IkpirServer B P kind} {bundle : HintDeltaBundle} {bundles : List HintDeltaBundle}
        → Call s (s₁, published bundle)
        → Calls s₁ bundles s'
        → Calls s (bundle ∷ bundles) s'
    then_rejected :
        {s s₁ s' : IkpirServer B P kind} {e : IkpirError} {bundles : List HintDeltaBundle}
        → Call s (s₁, rejected e)
        → Calls s₁ bundles s'
        → Calls s bundles s'

  module _ (n w : ℕ) (laws : HintLaws B n w) (promise : ServerLaws B P n w laws) where
    Call-Serves :
        {s : IkpirServer B P kind} {r : IkpirServer B P kind × Published}
        → IsServer B P kind n w laws promise s
        → Call s r
        → Serves B P kind n w laws promise s r
    unfolding insert update delete
    Call-Serves {s = s} is (inserted random_range key value f fit h) =
        >>=-some (Insert.insert random_range s.store key value) _ h (λ done e _.
          let (r', (h', served)) =
            insert-Serves B P kind n w laws promise random_range s key value done is f fit e in
          rw (some-injective (sym h ∙ h')) served)
    Call-Serves {s = s} is (updated key value f fit h) =
        >>=-some (Access.update s.store key value) _ h (λ done e _.
          let (r', (h', served)) =
            update-Serves B P kind n w laws promise s key value done is f fit e in
          rw (some-injective (sym h ∙ h')) served)
    Call-Serves {s = s} is (deleted key h) = >>=-some (Access.delete s.store key) _ h (λ done e _.
        let (r', (h', served)) = delete-Serves B P kind n w laws promise s key done is e in
        rw (some-injective (sym h ∙ h')) served)

    -- For a server with the hints of its database and a drained log, over a well-formed table whose
    -- empty slots hold zeros and whose rows have at most 2^16 cells: whatever sequence of calls it
    -- serves, inserts and updates of bytes under a proper fingerprint and deletes, a patching client
    -- that follows it accepts the published bundles in their order, and then follows the server as
    -- the calls left it, which is again such a server. Its states serve the new database.
    pub Calls-Follows :
        (c : HintPatchClient B) (s s' : IkpirServer B P kind) (bundles : List HintDeltaBundle)
        → IsServer B P kind n w laws promise s
        → Follows B P kind n w laws promise c s
        → Calls s bundles s'
        → (c' : HintPatchClient B) × Applies B c bundles c'
          × Follows B P kind n w laws promise c' s'
          × IsServer B P kind n w laws promise s'
    Calls-Follows c s s' [] is f no_call = (c, applied_all, f, is)
    Calls-Follows c s s' (b ∷ bs) is f (then_published call more) =
        let (is₁, told) = Call-Serves is call in
        let (c₁, accepted, f₁) = apply_delta-Follows B P kind n w laws promise c s _ b is f told in
        let (c', rest, f', is') = Calls-Follows c₁ _ s' bs is₁ f₁ more in
        (c', applied accepted rest, f', is')
    Calls-Follows c s s' bs is f (then_rejected call more) =
        let (is₁, same) = Call-Serves is call in Calls-Follows c _ s' bs is₁ (rw same f) more

    setup-AreFresh :
        (db : ℕ → ℕ → List ℕ) (cells : List ℕ) (t j : ℕ) {ps : List B.ServerParams}
        {ms : List (Option B.HintMaterial)} {hs : List B.Hint}
        → ((k : ℕ) → segment_of n w cells k ≡ db t k)
        → AreHints B P kind n w laws promise cells j ps ms hs
        → AreFresh B n w laws db t j ps hs × (length hs ≡ length ps)
    setup-AreFresh db cells t j at all_hints = (all_fresh, refl)
    setup-AreFresh db cells t j at (hint {p = p} {h = h} is own rest) =
        let more = setup-AreFresh db cells t (suc j) at rest in
        (
          fresh_segment (rw (← at j) (promise.served p h (segment_of n w cells j) is)) more.0,
          ap suc more.1,
        )

    -- The setup bundle of such a server has the hints of its database, as a client that is set up
    -- from it or resyncs from it asks.
    setup-IsFresh :
        (db : ℕ → ℕ → List ℕ) (s : IkpirServer B P kind)
        → IsServer B P kind n w laws promise s
        → ((k : ℕ) → segment_of n w s.store.table.cells k ≡ db s.epoch k)
        → IsFresh B n w laws db (setup B P kind s)
    unfolding setup
    setup-IsFresh db s is at =
        let made = setup-AreFresh db s.store.table.cells s.epoch 0 at is.hints in
        (made.0, made.1 ∙ is.count ∙ ap (λ (p : CuckooParams). arity p.scheme_kind) (sym is.params))
