-- ===== src/Cuckoo/Store/Build/Geometry.antt =====
-- store.rs: what the constructors build, and where the cells of a slot lie.
use native.Mathlib.Nat.{mul-zero, mod-eq_of_lt}
use ikpir.Prelude.{
  zero, suc, u64, ℕ, ◌+◌, ◌*◌, ◌/◌, ◌%◌, ◌^◌, ◌≤◌, ◌<◌, ◌≡◌, ◌≢◌, ◌⊎◌, inl, inr, sym, ap, ◌∙◌, List,
  none, some, arith, length, replicate, Option-cases,
}
use ikpir.Bits.Field.{divmod_unique}
use ikpir.Cuckoo.CellStream.{div_ceil}
use ikpir.Cuckoo.Scheme.{SchemeKind}
use ikpir.Cuckoo.Table
use ikpir.Cuckoo.Table.{FingerprintValueTable}
use ikpir.Cuckoo.Table.Slot.{IsTable}
use ikpir.Cuckoo.Table.Write.{index-apart}
use ikpir.Cuckoo.Table.Build.{new-IsTable}
use ikpir.Cuckoo.Store.{CuckooKvStore}
use ikpir.Cuckoo.Store.Build.{
  CuckooParams, cells_per_slot, size_in_cells, slot_cell_range, new, around, built,
}

around-table :
    (xxh3_128 : List ℕ → ℕ) (kind : SchemeKind) (t : FingerprintValueTable) (n : ℕ)
    (s : CuckooKvStore)
    → around xxh3_128 kind t n ≡ some (built s)
    → (s.table ≡ t) × (s.num_items ≡ n) × (s.mutation_log ≡ none)
unfolding around
around-table xxh3_128 kind t n s h = ground (arith, h)

new-from-table :
    (xxh3_128 : List ℕ → ℕ) (kind : SchemeKind)
    (num_buckets bucket_size fingerprint_bits value_bits plaintext_bits : ℕ) (s : CuckooKvStore)
    → new xxh3_128 kind num_buckets bucket_size fingerprint_bits value_bits plaintext_bits
      ≡ some (built s)
    → (Table.new num_buckets bucket_size fingerprint_bits value_bits plaintext_bits ≡ some s.table)
      × (s.num_items ≡ 0)
      × (s.mutation_log ≡ none)
unfolding new
new-from-table xxh3_128 kind nb bs fb vb pb s h = elim (Option-cases (Table.new nb bs fb vb pb)) [
  | inl e ↦ absurd ground (arith, h, e)
  | inr (t, e) ↦
      let last : around xxh3_128 kind t 0 ≡ some (built s) = ground (arith, h, e) in
      let a = around-table xxh3_128 kind t 0 s last in (e ∙ ap some (sym a.0), a.1, a.2)
]

-- For widths whose sum is a `u32` and dimensions whose bits a `u64` counts, a constructor that
-- accepts its parameters builds a store with a well-formed table of zero cells, no items and no log.
pub new-IsTable_store :
    (xxh3_128 : List ℕ → ℕ) (kind : SchemeKind)
    (num_buckets bucket_size fingerprint_bits value_bits plaintext_bits : ℕ) (s : CuckooKvStore)
    → fingerprint_bits + value_bits < 2 ^ 32
    → num_buckets
        * bucket_size
        * div_ceil (fingerprint_bits + value_bits) plaintext_bits
        * plaintext_bits
      < 2 ^ 64
    → new xxh3_128 kind num_buckets bucket_size fingerprint_bits value_bits plaintext_bits
      ≡ some (built s)
    → IsTable s.table
      × (s.table.cells ≡ replicate (length s.table.cells) 0)
      × (s.num_items ≡ 0)
      × (s.mutation_log ≡ none)
new-IsTable_store xxh3_128 kind nb bs fb vb pb s sum small h =
    let parts = new-from-table xxh3_128 kind nb bs fb vb pb s h in
    let t = new-IsTable nb bs fb vb pb s.table sum small parts.0 in (t.0, t.1, parts.1, parts.2)

module _ (p : CuckooParams) (b s b' s' : ℕ) where
  index-ne :
      s < p.bucket_size
      → s' < p.bucket_size
      → (b ≢ b') ⊎ (s ≢ s')
      → b * p.bucket_size + s ≢ b' * p.bucket_size + s'
  index-ne h h' other e =
      let one = divmod_unique p.bucket_size b s h in
      let two = divmod_unique p.bucket_size b' s' h' in
      let bucket : b ≡ b' = sym one.0 ∙ ap (λ (x : ℕ). x / p.bucket_size) e ∙ two.0 in
      let slot : s ≡ s' = sym one.1 ∙ ap (λ (x : ℕ). x % p.bucket_size) e ∙ two.1 in
      elim other [ inl ne ↦ ne bucket | inr ne ↦ ne slot ]

range-le : (k K w : ℕ) → k < K → k * w + w ≤ K * w
range-le k K w h = grind arith

-- What a slot's range is, when it does not panic.
range-facts :
    (p : CuckooParams) (b s : ℕ) (r : ℕ × ℕ)
    → slot_cell_range p b s ≡ some r
    → (b < p.num_buckets)
      × (s < p.bucket_size)
      × (r.0 ≡ u64 (u64 (u64 (b * p.bucket_size) + s) * cells_per_slot p))
      × (r.1 ≡ u64 (r.0 + cells_per_slot p))
unfolding slot_cell_range
range-facts p b s r h = (ground (arith, h), ground (arith, h), ground (arith, h), ground (arith, h))

-- A factor of a product that fits a word fits it too, unless the other factor is 0.
product-fits : (x c : ℕ) → x * c < 2 ^ 64 → u64 (u64 x * c) ≡ x * c
product-fits x zero h = omega (arith, mul-zero (u64 x), mul-zero x)
product-fits x (suc c) h =
    let e : x * suc c ≡ x * c + x = grind arith in
    let word : u64 x ≡ x = mod-eq_of_lt (omega (arith, h, e)) in
    ap (λ y. u64 (y * suc c)) word ∙ mod-eq_of_lt h

-- Without a wrap the range of a slot is the product that it is meant to be.
exact-range :
    (p : CuckooParams) (b s : ℕ) (r : ℕ × ℕ)
    → p.num_buckets * p.bucket_size * cells_per_slot p < 2 ^ 64
    → slot_cell_range p b s ≡ some r
    → (b < p.num_buckets)
      × (s < p.bucket_size)
      × (r.0 ≡ (b * p.bucket_size + s) * cells_per_slot p)
      × (r.1 ≡ r.0 + cells_per_slot p)
      × (r.1 ≤ p.num_buckets * p.bucket_size * cells_per_slot p)
exact-range p b s r small h =
    let f = range-facts p b s r h in
    let cps = cells_per_slot p in
    let index = b * p.bucket_size + s in
    let inside : index < p.num_buckets * p.bucket_size = grind (arith, f.0, f.1) in
    let le = range-le index (p.num_buckets * p.bucket_size) cps inside in
    let sum : u64 (u64 (b * p.bucket_size) + s) ≡ u64 index = omega arith in
    let first : r.0 ≡ index * cps =
      f.2 ∙ ap (λ x. u64 (x * cps)) sum ∙ product-fits index cps (omega (arith, le, small)) in
    let last : r.1 ≡ r.0 + cps = f.3 ∙ mod-eq_of_lt (omega (arith, first, le, small)) in
    (f.0, f.1, first, last, omega (arith, first, last, le))

-- Where the table has fewer than 2^64 cells and the ranges of two different slots do not panic, a
-- range is `cells_per_slot` cells of the table, and the two are disjoint.
pub slot_cell_range-disjoint :
    (p : CuckooParams) (bucket slot bucket' slot' : ℕ) (r r' : ℕ × ℕ)
    → p.num_buckets * p.bucket_size * cells_per_slot p < 2 ^ 64
    → slot_cell_range p bucket slot ≡ some r
    → slot_cell_range p bucket' slot' ≡ some r'
    → (bucket ≢ bucket') ⊎ (slot ≢ slot')
    → (r.1 ≡ r.0 + cells_per_slot p) × (r.1 ≤ size_in_cells p) × ((r.1 ≤ r'.0) ⊎ (r'.1 ≤ r.0))
unfolding size_in_cells
slot_cell_range-disjoint p b s b' s' r r' small h h' other =
    let f = exact-range p b s r small h in
    let f' = exact-range p b' s' r' small h' in
    let cps = cells_per_slot p in
    let whole : size_in_cells p ≡ p.num_buckets * p.bucket_size * cps =
      product-fits (p.num_buckets * p.bucket_size) cps small in
    let apart =
      index-apart (b * p.bucket_size + s) (b' * p.bucket_size + s') cps cps (omega arith)
        (index-ne p b s b' s' f.1 f'.1 other) in
    (f.3, omega (arith, f.4, whole), ground (arith, f, f', apart))
