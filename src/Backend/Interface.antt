-- ===== src/Backend/Interface.antt =====
-- The part of the back end traits of crates/ikpir-common/src/backend/mod.rs that the clients and the
-- server call, and the law of hints that their correctness rests on.
use ikpir.Prelude.{ℕ, List, [], ◌+◌, ◌*◌, ◌<◌, ◌≡◌, get_or, u32, Option, some}
use ikpir.Backend.Deltas.{SegmentRowDeltas, HintPatchMode, AreWithin, change}

pub record IncrementalPirBackend : Type 1 where
  pub ServerParams : Type 0
  pub HintMaterial : Type 0
  pub Hint : Type 0
  pub ClientState : Type 0
  pub client_setup : ServerParams → Hint → ClientState
  pub expand_hint_material : ServerParams → HintMaterial
  pub server_patch_hint :
      ServerParams → HintMaterial → Hint → SegmentRowDeltas → HintPatchMode → Hint
  pub client_patch_state : ClientState → SegmentRowDeltas → HintPatchMode → ClientState

-- `db'` is the `n × w` database `db` with the deltas of a segment added, cell by cell.
abbrev pub IsUpdated : ℕ → ℕ → List ℕ → SegmentRowDeltas → List ℕ → Type 0
IsUpdated n w db deltas db' =
    (i j : ℕ)
    → i < n
    → j < w
    → u32 (get_or db' (i * w + j) 0) ≡ u32 (get_or db (i * w + j) 0 + change deltas i j)

-- A back end's promise to a client: a state that serves a database serves the updated database
-- after the patch with the deltas between them.
pub record HintLaws (B : IncrementalPirBackend) (n w : ℕ) : Type 1 where
  pub Serves : B.ClientState → List ℕ → Type 0
  pub patched :
      (s : B.ClientState) (db db' : List ℕ) (deltas : SegmentRowDeltas) (mode : HintPatchMode)
      → Serves s db
      → AreWithin n w deltas
      → IsUpdated n w db deltas db'
      → Serves (B.client_patch_state s deltas mode) db'
  pub unchanged :
      (s : B.ClientState) (db db' : List ℕ) → Serves s db → IsUpdated n w db [] db' → Serves s db'

-- The rest of the traits, which only the server calls. `server_setup` draws a seed, which its first
-- argument stands for.
pub record IndexPirBackend (B : IncrementalPirBackend) : Type 1 where
  pub Config : Type 0
  pub Query : Type 0
  pub Response : Type 0
  pub server_setup :
      ℕ → Config → List ℕ → ℕ → ℕ → ℕ → Option (B.ServerParams × B.HintMaterial × B.Hint)
  pub server_answer : B.ServerParams → List ℕ → ℕ → ℕ → Query → Response

-- A back end's promise to the server: the hint of a setup is one of the database, a patched hint is
-- one of the updated database, and a client that is set up with a hint of a database is served it.
pub record ServerLaws (B : IncrementalPirBackend) (P : IndexPirBackend B) (n w : ℕ)
    (laws : HintLaws B n w) : Type 1 where
  pub IsHintOf : B.ServerParams → B.Hint → List ℕ → Type 0
  pub set_up :
      (draw : ℕ) (config : P.Config) (db : List ℕ) (plaintext_bits : ℕ)
      (made : B.ServerParams × B.HintMaterial × B.Hint)
      → P.server_setup draw config db n w plaintext_bits ≡ some made
      → IsHintOf made.0 made.2 db × (made.1 ≡ B.expand_hint_material made.0)
  pub patched :
      (p : B.ServerParams) (h : B.Hint) (db db' : List ℕ) (deltas : SegmentRowDeltas)
      (mode : HintPatchMode)
      → IsHintOf p h db
      → AreWithin n w deltas
      → IsUpdated n w db deltas db'
      → IsHintOf p (B.server_patch_hint p (B.expand_hint_material p) h deltas mode) db'
  pub unchanged :
      (p : B.ServerParams) (h : B.Hint) (db db' : List ℕ)
      → IsHintOf p h db
      → IsUpdated n w db [] db'
      → IsHintOf p h db'
  pub served :
      (p : B.ServerParams) (h : B.Hint) (db : List ℕ)
      → IsHintOf p h db
      → laws.Serves (B.client_setup p h) db
