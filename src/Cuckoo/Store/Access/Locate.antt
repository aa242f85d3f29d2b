-- ===== src/Cuckoo/Store/Access/Locate.antt =====
-- store.rs: the probe that `get_into`, `delete` and `update` share, and `contain` beside it.
use mathlib.Core.Option
use ikpir.Prelude.{
  ℕ, zero, suc, ◌+◌, ◌≡◌, refl, List, some, is_some, arith, get_or, >>=-some, Option-cases, inl,
  inr,
}
use ikpir.Cuckoo.Table
use ikpir.Cuckoo.Table.{FingerprintValueTable}
use ikpir.Cuckoo.Table.Probe.{find-some, contain-find}
use ikpir.Cuckoo.Store.{CuckooKvStore}
use ikpir.Cuckoo.Store.Access.{locate, contain_any, contain}

-- The probe stops at a slot that holds the fingerprint.
pub locate-some :
    (left p : ℕ) (t : FingerprintValueTable) (indices : List ℕ) (fp bucket slot : ℕ)
    → locate left p t indices fp ≡ some (some (bucket, slot))
    → Table.read_fingerprint t bucket slot ≡ some fp
unfolding locate
locate-some zero p t indices fp bucket slot h = absurd (ground (arith, h))
locate-some (suc left) p t indices fp bucket slot h =
    >>=-some (Table.find t (get_or indices p 0) fp) _ h (λ r one two. elim (Option-cases r) [
      | inl empty ↦ locate-some left (p + 1) t indices fp bucket slot (rw empty at two)
      | inr (found, here) ↦
          let w = find-some t (get_or indices p 0) fp found cc in ground (arith, here, two, w)
    ])

contain_any-locate :
    (left p : ℕ) (t : FingerprintValueTable) (indices : List ℕ) (fp : ℕ)
    → contain_any left p t indices fp ≡ Option.map is_some (locate left p t indices fp)
unfolding contain_any locate
contain_any-locate zero p t indices fp = refl
contain_any-locate (suc left) p t indices fp =
    ground
      (arith, contain-find t (get_or indices p 0) fp, contain_any-locate left (p + 1) t indices fp)

-- `contain` answers whether the probe of the other operations finds a slot.
pub contain-locate :
    (s : CuckooKvStore) (key : List ℕ)
    → contain s key
      ≡ Option.map is_some (
          locate s.scheme.arity 0 s.table
            (s.scheme.hash_item key s.table.fingerprint_bits).1
            (s.scheme.hash_item key s.table.fingerprint_bits).0)
unfolding contain
contain-locate s key = contain_any-locate s.scheme.arity 0 s.table _ _
