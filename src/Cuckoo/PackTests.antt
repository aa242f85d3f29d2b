-- ===== src/Cuckoo/PackTests.antt =====
-- The packing of store.rs at concrete values.
use ikpir.Prelude.{◌+◌, ◌*◌, ◌^◌, ◌≤◌, ◌<◌, ◌≡◌, refl, some, arith, [], ◌∷◌}
use ikpir.Cuckoo.Scheme.{segmented_2ary}
use ikpir.Cuckoo.CellStream.Number.{number}
use ikpir.Cuckoo.Store.Build.{CuckooParams, cells_per_slot}
use ikpir.Cuckoo.Store.Unpack.RoundTrip.{unpack_packed, unpack-pack}

-- A fingerprint of 9 bits and a value of 12 bits over cells of 5.
abbrev ragged_params : CuckooParams
ragged_params = record {
  scheme_kind = segmented_2ary;
  num_buckets = 2;
  bucket_size = 1;
  fingerprint_bits = 9;
  value_bits = 12;
  plaintext_bits = 5;
}

room_ragged : 9 + 12 ≤ cells_per_slot ragged_params * 5
unfolding cells_per_slot
room_ragged = ground arith

within_ragged : number 8 (200 ∷ 9 ∷ []) < 2 ^ 12
unfolding number
within_ragged = ground arith

unpack-pack_example : unpack_packed ragged_params 300 (200 ∷ 9 ∷ []) ≡ some (300, 200 ∷ 9 ∷ [])
unpack-pack_example =
    unpack-pack ragged_params 300 (200 ∷ 9 ∷ []) (ground arith) (ground arith) (ground arith)
      (ground arith) room_ragged (ground arith) (ground arith, (ground arith, tt)) refl
      within_ragged
