-- ===== src/Cuckoo/StreamTests.antt =====
-- The theorems on hashing, schemes and the cell stream at concrete values.
use ikpir.Prelude.{ℕ, ◌/◌, ◌%◌, ◌^◌, ◌≤◌, ◌<◌, ◌≡◌, ◌≢◌, List, [], ◌∷◌, some, arith, get_or, length}
use ikpir.Bits.Field.{field, put}
use ikpir.Cuckoo.Hash.{extract_fingerprint}
use ikpir.Cuckoo.Hash.Fingerprint.{extract_fingerprint_lem}
use ikpir.Cuckoo.Scheme.{segmented_3ary, segmented_4ary, segmented_scheme}
use ikpir.Cuckoo.Scheme.Segmented.{IsCandidates, hash_item-IsCandidates, all_indices-IsCandidates}
use ikpir.Cuckoo.CellStream.{slot_read_bits, write_values, read_values, div_ceil}
use ikpir.Cuckoo.CellStream.Number.{Fits, number}
use ikpir.Cuckoo.CellStream.Read.{slot_read_bits_lem}
use ikpir.Cuckoo.CellStream.Values.{write_values_all, read_values_all}

first_byte_digest : List ℕ → ℕ
first_byte_digest item = get_or item 0 0

extract_fingerprint_example :
    (1 ≤ extract_fingerprint 0x1234 8)
    × (extract_fingerprint 0x1234 8 < 2 ^ 8)
    × (0x1234 % 2 ^ 8 ≢ 0 → extract_fingerprint 0x1234 8 ≡ 0x1234 % 2 ^ 8)
extract_fingerprint_example = extract_fingerprint_lem 0x1234 8 (ground arith) (ground arith)

hash_item-IsCandidates_example :
    let r = (segmented_scheme first_byte_digest segmented_3ary (2 ^ 4)).hash_item (7 ∷ []) 12 in
    IsCandidates (segmented_scheme first_byte_digest segmented_3ary (2 ^ 4)) (2 ^ 4) r.0 r.1
hash_item-IsCandidates_example =
    hash_item-IsCandidates first_byte_digest 4 segmented_3ary (ground arith) (7 ∷ []) 12

all_indices-IsCandidates_example :
    (idx : List ℕ) × ((segmented_scheme first_byte_digest segmented_4ary (2 ^ 4)).all_indices 37 5
      ≡ some idx)
    × IsCandidates (segmented_scheme first_byte_digest segmented_4ary (2 ^ 4)) (2 ^ 4) 5 idx
    × (get_or idx (37 / 2 ^ 4) 0 ≡ 37)
all_indices-IsCandidates_example =
    all_indices-IsCandidates first_byte_digest 4 segmented_4ary (ground arith) 37 5 (ground arith)

abbrev two_cells : List ℕ
two_cells = 255 ∷ 3 ∷ []

two_cells-Fits : Fits 8 two_cells
two_cells-Fits = (ground arith, (ground arith, tt))

slot_read_bits_example : slot_read_bits two_cells 4 6 8 ≡ field (number 8 two_cells) (2 ^ 4) (2 ^ 6)
slot_read_bits_example =
    slot_read_bits_lem two_cells 8 two_cells-Fits (ground arith) 4 6 (ground arith) (ground arith)
      (ground arith) (ground arith)

write_values_all_example :
    let r = write_values (div_ceil 12 8) (0 ∷ 0 ∷ 0 ∷ []) 8 12 two_cells 4 0 in
    Fits 8 r
    × (length r ≡ 3)
    × (number 8 r ≡ put (number 8 (0 ∷ 0 ∷ 0 ∷ [])) (2 ^ 4) (2 ^ 12) (number 8 two_cells))
write_values_all_example =
    write_values_all 8 (ground arith) (ground arith) 12 4 (0 ∷ 0 ∷ 0 ∷ []) two_cells
      (ground arith, (ground arith, (ground arith, tt))) two_cells-Fits (ground arith)

read_values_all_example :
    let r = read_values (div_ceil 12 8) (255 ∷ 3 ∷ 9 ∷ []) 8 12 4 0 in
    Fits 8 r
    × (length r ≡ div_ceil 12 8)
    × (number 8 r ≡ field (number 8 (255 ∷ 3 ∷ 9 ∷ [])) (2 ^ 4) (2 ^ 12))
read_values_all_example =
    read_values_all 8 (ground arith) (ground arith) 12 4 (255 ∷ 3 ∷ 9 ∷ [])
      (ground arith, (ground arith, (ground arith, tt))) (ground arith)
