-- ===== src/Cuckoo/Table/Probe.antt =====
-- What the table's operations tell of their arguments and results.
use mathlib.Core.Option
use ikpir.Prelude.{ℕ, zero, suc, ◌+◌, ◌≡◌, refl, List, none, some, is_some, arith}
use ikpir.Cuckoo.Table.{
  FingerprintValueTable, read_fingerprint, write_fingerprint, write, insert_from, insert, find_from,
  contain_from, find, contain, assert_in_range,
}
use ikpir.Cuckoo.Table.Slot.{InRange}

-- A write that returns was in range.
pub write-InRange :
    (t : FingerprintValueTable) (bucket slot fp : ℕ) (value : List ℕ) (t' : FingerprintValueTable)
    → write t bucket slot fp value ≡ some t'
    → InRange t bucket slot
unfolding write write_fingerprint assert_in_range
write-InRange t bucket slot fp value t' h = record {
  bucket_lt = ground arith;
  slot_lt = ground arith;
}

-- The probe that finds no free slot leaves the table as it is.
pub insert_from-none :
    (t : FingerprintValueTable) (bucket fp : ℕ) (value : List ℕ) (left slot : ℕ)
    (t' : FingerprintValueTable)
    → insert_from t bucket fp value left slot ≡ some (none, t')
    → t' ≡ t
unfolding insert_from
insert_from-none t bucket fp value zero slot t' h = ground arith
insert_from-none t bucket fp value (suc left) slot t' h =
    ground (arith, insert_from-none t bucket fp value left (slot + 1) t')

pub insert-none :
    (t : FingerprintValueTable) (bucket fp : ℕ) (value : List ℕ) (t' : FingerprintValueTable)
    → insert t bucket fp value ≡ some (none, t')
    → t' ≡ t
unfolding insert
insert-none t bucket fp value t' h =
    ground (arith, insert_from-none t bucket fp value t.bucket_size 0 t')

-- The probe that finds a slot found it empty, and wrote the pair there.
pub insert_from-some :
    (t : FingerprintValueTable) (bucket fp : ℕ) (value : List ℕ) (left slot found : ℕ)
    (t' : FingerprintValueTable)
    → insert_from t bucket fp value left slot ≡ some (some found, t')
    → (read_fingerprint t bucket found ≡ some 0) × (write t bucket found fp value ≡ some t')
unfolding insert_from
insert_from-some t bucket fp value zero slot found t' h = absurd (ground (arith, h))
insert_from-some t bucket fp value (suc left) slot found t' h =
    ground (arith, insert_from-some t bucket fp value left (slot + 1) found t')

pub insert-some :
    (t : FingerprintValueTable) (bucket fp : ℕ) (value : List ℕ) (found : ℕ)
    (t' : FingerprintValueTable)
    → insert t bucket fp value ≡ some (some found, t')
    → (read_fingerprint t bucket found ≡ some 0) × (write t bucket found fp value ≡ some t')
unfolding insert
insert-some t bucket fp value found t' h =
    ground (arith, insert_from-some t bucket fp value t.bucket_size 0 found t')

-- The probe for a fingerprint stops at a slot that holds it.
pub find_from-some :
    (t : FingerprintValueTable) (bucket fp left slot found : ℕ)
    → find_from t bucket fp left slot ≡ some (some found)
    → read_fingerprint t bucket found ≡ some fp
unfolding find_from
find_from-some t bucket fp zero slot found h = absurd (ground (arith, h))
find_from-some t bucket fp (suc left) slot found h =
    ground (arith, find_from-some t bucket fp left (slot + 1) found)

-- `contain` answers what `find` finds.
pub contain_from-find_from :
    (t : FingerprintValueTable) (bucket fp left slot : ℕ)
    → contain_from t bucket fp left slot ≡ Option.map is_some (find_from t bucket fp left slot)
unfolding contain_from find_from
contain_from-find_from t bucket fp zero slot = refl
contain_from-find_from t bucket fp (suc left) slot =
    ground (arith, contain_from-find_from t bucket fp left (slot + 1))

pub find-some :
    (t : FingerprintValueTable) (bucket fp found : ℕ)
    → find t bucket fp ≡ some (some found)
    → read_fingerprint t bucket found ≡ some fp
unfolding find
find-some t bucket fp found h = find_from-some t bucket fp t.bucket_size 0 found h

pub contain-find :
    (t : FingerprintValueTable) (bucket fp : ℕ)
    → contain t bucket fp ≡ Option.map is_some (find t bucket fp)
unfolding contain find
contain-find t bucket fp = contain_from-find_from t bucket fp t.bucket_size 0
