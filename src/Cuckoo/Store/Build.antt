-- ===== src/Cuckoo/Store/Build.antt =====
-- store.rs: `CuckooParams`, the constructors `new` and `from_cells` of the three segmented stores,
-- the accessors that describe a store, and the switches of its log. The three constructors differ
-- in the test of `num_buckets` and in the arity, which are functions of the scheme's kind here.
pub mod Geometry
use ikpir.Prelude.{
  ℕ, zero, suc, ◌+◌, ◌-◌, ◌*◌, ◌/◌, ◌%◌, ◌^◌, bit_and, List, [], Bool, true, false, not, ◌&&◌, ◌||◌,
  Option, none, some, ltb, leb, ◌==◌, if◌then◌else◌, ◌>>=◌, ◌>>◌, assert, u32, u64,
}
use ikpir.Cuckoo.CellStream.{div_ceil}
use ikpir.Cuckoo.Scheme.{
  IndexScheme, SchemeKind, segmented_2ary, segmented_3ary, segmented_4ary, segmented_scheme,
}
use ikpir.Cuckoo.Table
use ikpir.Cuckoo.Table.{FingerprintValueTable}
use ikpir.Cuckoo.Table.Build.{
  Loaded, loaded, bad_fingerprint_bits, bad_length, high_bits_set, from_cells,
}
use ikpir.Cuckoo.Store.{SlotMutation, CuckooKvStore, CuckooError, invalid_params}

pub record CuckooParams : Type 0 where
  pub scheme_kind : SchemeKind
  pub num_buckets : ℕ
  pub bucket_size : ℕ
  pub fingerprint_bits : ℕ
  pub value_bits : ℕ
  pub plaintext_bits : ℕ

abbrev pub arity : SchemeKind → ℕ
arity segmented_2ary = 2
arity segmented_3ary = 3
arity segmented_4ary = 4

unfoldable pub segment_size : CuckooParams → ℕ
segment_size p = p.num_buckets / arity p.scheme_kind

unfoldable pub cells_per_slot : CuckooParams → ℕ
cells_per_slot p = div_ceil (u32 (p.fingerprint_bits + p.value_bits)) p.plaintext_bits

-- The products of a 64-bit `usize` wrap, as a release build has it.
unfoldable pub size_in_cells : CuckooParams → ℕ
size_in_cells p = u64 (u64 (p.num_buckets * p.bucket_size) * cells_per_slot p)

-- The range as its two ends.
unfoldable pub slot_cell_range : CuckooParams → ℕ → ℕ → Option (ℕ × ℕ)
slot_cell_range p bucket slot = do
  assert (ltb bucket p.num_buckets && ltb slot p.bucket_size)
  let cps = cells_per_slot p
  let off = u64 (u64 (u64 (bucket * p.bucket_size) + slot) * cps)
  some (off, u64 (off + cps))

unfoldable pub candidate_buckets : (List ℕ → ℕ) → CuckooParams → List ℕ → ℕ × List ℕ
candidate_buckets xxh3_128 p key =
    (segmented_scheme xxh3_128 p.scheme_kind (segment_size p)).hash_item key p.fingerprint_bits

-- `n.is_power_of_two()`
abbrev pub is_power_of_two : ℕ → Bool
is_power_of_two n = not (n == 0) && (bit_and n (n - 1) == 0)

-- `n.ilog2()` for `n` up to the fuel.
ilog2 : ℕ → ℕ → ℕ
ilog2 zero n = 0
ilog2 (suc fuel) n = let rest = ilog2 fuel (n / 2) in if ltb n 2 then 0 else rest + 1

unfoldable pub validate_common_params : ℕ → ℕ → ℕ → Bool
unfolding ilog2
validate_common_params arity bucket_size fingerprint_bits =
    (arity == 2 || arity == 3 || arity == 4)
    && (leb 1 bucket_size && leb bucket_size 4)
    && let min_fingerprint_bits = ilog2 (arity * bucket_size) (arity * bucket_size) + 1 in
      leb min_fingerprint_bits fingerprint_bits && leb fingerprint_bits 64

abbrev pub valid_num_buckets : SchemeKind → ℕ → Bool
valid_num_buckets segmented_2ary n = is_power_of_two n && leb 2 n
valid_num_buckets segmented_3ary n = leb 3 n && (n % 3 == 0) && is_power_of_two (n / 3)
valid_num_buckets segmented_4ary n = is_power_of_two n && leb 4 n

pub data Built : Type 0 where
  built : CuckooKvStore → Built
  refused : CuckooError → Built

-- `MAX_KICKS_DEFAULT`
abbrev pub max_kicks_default : ℕ
max_kicks_default = 500

-- A store around a table; the `expect` on the size of the scratch slab panics.
around : (List ℕ → ℕ) → SchemeKind → FingerprintValueTable → ℕ → Option Built
around xxh3_128 kind table num_items = do
  assert (ltb (max_kicks_default * Table.value_size_in_cells table) (2 ^ 64))
  some (
      built (record {
        table = table;
        scheme = segmented_scheme xxh3_128 kind (table.num_buckets / arity kind);
        num_items = num_items;
        max_kicks = max_kicks_default;
        mutation_log = none;
      }))

unfoldable pub new : (List ℕ → ℕ) → SchemeKind → ℕ → ℕ → ℕ → ℕ → ℕ → Option Built
unfolding around
new xxh3_128 kind num_buckets bucket_size fingerprint_bits value_bits plaintext_bits =
    if not (valid_num_buckets kind num_buckets)
    then some (refused invalid_params)
    else if not (validate_common_params (arity kind) bucket_size fingerprint_bits)
    then some (refused invalid_params)
    else if value_bits == 0
    then some (refused invalid_params)
    else if not (leb 1 plaintext_bits && leb plaintext_bits 32)
    then some (refused invalid_params)
    else do
      table ← Table.new num_buckets bucket_size fingerprint_bits value_bits plaintext_bits
      around xxh3_128 kind table 0

same_kind : SchemeKind → SchemeKind → Bool
same_kind a b = arity a == arity b

-- `from_cells` of the store of a kind; a width of 0 panics in the division.
unfoldable pub store_from_cells :
    (List ℕ → ℕ) → SchemeKind → List ℕ → CuckooParams → ℕ → Option Built
unfolding around same_kind
store_from_cells xxh3_128 kind cells p num_items =
    if not (same_kind p.scheme_kind kind)
    then some (refused invalid_params)
    else if not (valid_num_buckets kind p.num_buckets)
    then some (refused invalid_params)
    else elim (from_cells cells p.num_buckets p.bucket_size p.fingerprint_bits p.value_bits
        p.plaintext_bits) [
          | loaded table ↦ around xxh3_128 kind table num_items
          | bad_fingerprint_bits ↦ some (refused invalid_params)
          | bad_length ↦ some (refused invalid_params)
          | high_bits_set ↦ some (refused invalid_params)
        ]

-- `params()`, of a store of a kind.
unfoldable pub params : SchemeKind → CuckooKvStore → CuckooParams
params kind s = record {
  scheme_kind = kind;
  num_buckets = s.table.num_buckets;
  bucket_size = s.table.bucket_size;
  fingerprint_bits = s.table.fingerprint_bits;
  value_bits = s.table.value_bits;
  plaintext_bits = s.table.plaintext_bits;
}

-- The chain's buffer of `max_kicks` values has a checked length.
unfoldable pub set_max_kicks : CuckooKvStore → ℕ → Option CuckooKvStore
set_max_kicks s max_kicks = do
  assert (ltb (max_kicks * Table.value_size_in_cells s.table) (2 ^ 64))
  some (record s { max_kicks = max_kicks })

unfoldable pub enable_mutation_log : CuckooKvStore → CuckooKvStore
enable_mutation_log s = elim (s.mutation_log) [
  | none ↦ record s { mutation_log = some [] }
  | some _ ↦ s
]

unfoldable pub disable_mutation_log : CuckooKvStore → CuckooKvStore
disable_mutation_log s = record s { mutation_log = none }

unfoldable pub drain_mutations : CuckooKvStore → List SlotMutation × CuckooKvStore
drain_mutations s = elim (s.mutation_log) [
  | none ↦ ([], s)
  | some log ↦ (log, record s { mutation_log = some [] })
]

-- The constructors by their stores' kinds.
module _ (xxh3_128 : List ℕ → ℕ) where
  abbrev pub new_segmented_2ary : ℕ → ℕ → ℕ → ℕ → ℕ → Option Built
  new_segmented_2ary = new xxh3_128 segmented_2ary

  abbrev pub new_segmented_3ary : ℕ → ℕ → ℕ → ℕ → ℕ → Option Built
  new_segmented_3ary = new xxh3_128 segmented_3ary

  abbrev pub new_segmented_4ary : ℕ → ℕ → ℕ → ℕ → ℕ → Option Built
  new_segmented_4ary = new xxh3_128 segmented_4ary

  abbrev pub from_cells_segmented_2ary : List ℕ → CuckooParams → ℕ → Option Built
  from_cells_segmented_2ary = store_from_cells xxh3_128 segmented_2ary

  abbrev pub from_cells_segmented_3ary : List ℕ → CuckooParams → ℕ → Option Built
  from_cells_segmented_3ary = store_from_cells xxh3_128 segmented_3ary

  abbrev pub from_cells_segmented_4ary : List ℕ → CuckooParams → ℕ → Option Built
  from_cells_segmented_4ary = store_from_cells xxh3_128 segmented_4ary
