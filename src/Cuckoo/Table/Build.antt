-- ===== src/Cuckoo/Table/Build.antt =====
-- fingerprint_value_table.rs, `from_cells`, and what both constructors build: a well-formed table.
use native.Mathlib.Nat.{mod-lt, div-lt_iff_lt-mul, mod-eq_of_lt}
use ikpir.Prelude.{
  ℕ, zero, suc, ◌+◌, ◌-◌, ◌*◌, ◌/◌, ◌%◌, ◌^◌, ◌≤◌, ◌<◌, min, bit_and, List, [], ◌∷◌, Bool, false,
  not, ◌&&◌, ◌||◌, some, arith, ◌≡◌, ◌⊎◌, refl, sym, ap, ◌∙◌, ltb, leb, ◌==◌, u32, length,
  replicate, length-replicate, if◌then◌else◌, inl, inr,
}
use ikpir.Bits.{bit_and_split, bit_and-zero, bit_and_mask, two_pow_add, two_pow_pos}
use ikpir.Bits.Field.{split}
use ikpir.Cuckoo.CellStream.{div_ceil}
use ikpir.Cuckoo.CellStream.Number.{Fits}
use ikpir.Cuckoo.Table.{FingerprintValueTable, new}
use ikpir.Cuckoo.Table.Slot.{IsTable}

-- The three messages of `from_cells`, and its success.
pub data Loaded : Type 0 where
  loaded : FingerprintValueTable → Loaded
  bad_fingerprint_bits bad_length high_bits_set : Loaded

-- `cells.iter().any(|&c| c & hi_mask != 0)`
any_high : List ℕ → ℕ → Bool
any_high [] hi_mask = false
any_high (c ∷ cells) hi_mask = not (bit_and c hi_mask == 0) || any_high cells hi_mask

unfoldable pub from_cells : List ℕ → ℕ → ℕ → ℕ → ℕ → ℕ → Loaded
unfolding any_high
from_cells cells num_buckets bucket_size fingerprint_bits value_bits plaintext_bits =
    let max64 = 2 ^ 64 - 1 in
    let cells_per_slot = div_ceil (u32 (fingerprint_bits + value_bits)) plaintext_bits in
    let expected = min (min (num_buckets * bucket_size) max64 * cells_per_slot) max64 in
    if not (leb 1 fingerprint_bits && leb fingerprint_bits 64)
    then bad_fingerprint_bits
    else if not (length cells == expected)
    then bad_length
    else if ltb plaintext_bits 32 && any_high cells (2 ^ 32 - 1 - (2 ^ plaintext_bits - 1))
    then high_bits_set
    else loaded (record {
      cells = cells;
      num_buckets = num_buckets;
      bucket_size = bucket_size;
      fingerprint_bits = fingerprint_bits;
      value_bits = value_bits;
      plaintext_bits = plaintext_bits;
      cells_per_slot = cells_per_slot;
    })

grows : (x pb : ℕ) → 1 ≤ pb → x ≤ x * pb
grows x pb h = grind arith

saturated :
    (K cps pb : ℕ)
    → 1 ≤ cps
    → 1 ≤ pb
    → K * cps * pb < 2 ^ 64
    → min (min K (2 ^ 64 - 1) * cps) (2 ^ 64 - 1) ≡ K * cps
saturated K cps pb c_pos p_pos h =
    let one : K ≤ K * cps = grind arith in
    let two : K * cps ≤ K * cps * pb = grows (K * cps) pb p_pos in
    let e : min K (2 ^ 64 - 1) ≡ K = omega arith in rw e (omega arith)

replicate-Fits : (pb n : ℕ) → Fits pb (replicate n 0)
replicate-Fits pb zero = tt
replicate-Fits pb (suc n) = (two_pow_pos pb, replicate-Fits pb n)

ceil-room : (n pb : ℕ) → 1 ≤ pb → n ≤ div_ceil n pb * pb
ceil-room n pb h = omega (arith, split pb (n + pb - 1), mod-lt (n + pb - 1) h)

mask_lem :
    (p above whole : ℕ)
    → 0 < p
    → 0 < above
    → whole ≡ p * above
    → whole - 1 - (p - 1) ≡ (above - 1) * p + 0
mask_lem p zero whole h i e = absurd (omega arith)
mask_lem p (suc above) whole h i e =
    let f : suc above - 1 ≡ above = omega arith in rw (e, f) (omega arith)

-- A cell that is zero under the mask of the high bits is within its width.
no_high_bits :
    (pb c : ℕ) → pb ≤ 32 → c < 2 ^ 32 → bit_and c (2 ^ 32 - 1 - (2 ^ pb - 1)) ≡ 0 → c < 2 ^ pb
no_high_bits pb c small word h =
    let above = 2 ^ (32 - pb) in
    let width : pb + (32 - pb) ≡ 32 = omega arith in
    let parts : 2 ^ pb * above ≡ 2 ^ 32 =
      sym (two_pow_add pb (32 - pb)) ∙ ap (λ (t : ℕ). 2 ^ t) width in
    let mask : 2 ^ 32 - 1 - (2 ^ pb - 1) ≡ (above - 1) * 2 ^ pb + 0 =
      mask_lem (2 ^ pb) above (2 ^ 32) (two_pow_pos pb) (two_pow_pos (32 - pb)) (sym parts) in
    let high-lt : c / 2 ^ pb < above =
      (div-lt_iff_lt-mul (two_pow_pos pb)).1 (omega (arith, parts)) in
    let kept : bit_and c (2 ^ 32 - 1 - (2 ^ pb - 1)) ≡ c / 2 ^ pb * 2 ^ pb =
      ap (λ (t : ℕ). bit_and c t) mask
      ∙ ap (λ (t : ℕ). bit_and t ((above - 1) * 2 ^ pb + 0)) (split (2 ^ pb) c)
      ∙ bit_and_split pb (c / 2 ^ pb) (above - 1) (c % 2 ^ pb) 0 (mod-lt c (two_pow_pos pb))
          (two_pow_pos pb)
      ∙ omega (
        arith,
        bit_and-zero (c % 2 ^ pb),
        ap (λ (t : ℕ). t * 2 ^ pb) (bit_and_mask (32 - pb) (c / 2 ^ pb) ∙ mod-eq_of_lt high-lt),
      ) in
    let none_high : c / 2 ^ pb * 2 ^ pb ≡ 0 = sym kept ∙ h in
    omega (arith, split (2 ^ pb) c, mod-lt c (two_pow_pos pb))

any_high-Fits :
    (pb : ℕ) (cells : List ℕ)
    → pb ≤ 32
    → Fits 32 cells
    → any_high cells (2 ^ 32 - 1 - (2 ^ pb - 1)) ≡ false
    → Fits pb cells
unfolding any_high
any_high-Fits pb [] small words h = tt
any_high-Fits pb (c ∷ cells) small words h = (
  no_high_bits pb c small words.0 ground (arith, h),
  any_high-Fits pb cells small words.1 ground (arith, h),
)

-- For widths whose sum is a `u32` and dimensions whose bits a `u64` counts, `from_cells` of words
-- for cells of 1 to 32 bits and values of at least one bit, when it accepts them, builds a
-- well-formed table of these cells.
pub from_cells-IsTable :
    (cells : List ℕ) (num_buckets bucket_size fingerprint_bits value_bits plaintext_bits : ℕ)
    (t : FingerprintValueTable)
    → Fits 32 cells
    → 1 ≤ value_bits
    → 1 ≤ plaintext_bits
    → plaintext_bits ≤ 32
    → fingerprint_bits + value_bits < 2 ^ 32
    → num_buckets
        * bucket_size
        * div_ceil (fingerprint_bits + value_bits) plaintext_bits
        * plaintext_bits
      < 2 ^ 64
    → from_cells cells num_buckets bucket_size fingerprint_bits value_bits plaintext_bits ≡ loaded t
    → IsTable t × (t.cells ≡ cells)
unfolding from_cells
from_cells-IsTable cells nb bs fb vb pb t words vb_pos pb_pos pb_le sum small h =
    let cps = div_ceil (u32 (fb + vb)) pb in
    let same : u32 (fb + vb) ≡ fb + vb = mod-eq_of_lt sum in
    let T : FingerprintValueTable = record {
      cells = cells;
      num_buckets = nb;
      bucket_size = bs;
      fingerprint_bits = fb;
      value_bits = vb;
      plaintext_bits = pb;
      cells_per_slot = cps;
    } in
    let e : T ≡ t = ground (arith, h) in
    let expected : length cells ≡ min (min (nb * bs) (2 ^ 64 - 1) * cps) (2 ^ 64 - 1) =
      ground (arith, h) in
    let cps_pos : 1 ≤ cps = rw same grind (arith, ceil-room (fb + vb) pb pb_pos) in
    let narrow : pb < 32 → any_high cells (2 ^ 32 - 1 - (2 ^ pb - 1)) ≡ false =
      λ lt. ground (arith, h, lt) in
    let widths : (pb < 32) ⊎ (pb ≡ 32) = omega arith in
    let fits : Fits pb cells = elim widths [
      | inl lt ↦ any_high-Fits pb cells pb_le words (narrow lt)
      | inr wide ↦ rw wide words
    ] in
    let len : length cells ≡ nb * bs * cps =
      expected ∙ saturated (nb * bs) cps pb cps_pos pb_pos (rw same small) in
    rw (← e) (
      record {
        fb_pos = ground (arith, h);
        fb_le = ground (arith, h);
        vb_pos = vb_pos;
        pb_pos = pb_pos;
        pb_le = pb_le;
        slot_room = rw same (ceil-room (fb + vb) pb pb_pos);
        size = len;
        small = rw same small;
        fits = fits;
      },
      refl,
    )

-- For widths whose sum is a `u32` and dimensions whose bits a `u64` counts, `new` of accepted
-- parameters builds a well-formed table whose cells are all zero.
pub new-IsTable :
    (num_buckets bucket_size fingerprint_bits value_bits plaintext_bits : ℕ)
    (t : FingerprintValueTable)
    → fingerprint_bits + value_bits < 2 ^ 32
    → num_buckets
        * bucket_size
        * div_ceil (fingerprint_bits + value_bits) plaintext_bits
        * plaintext_bits
      < 2 ^ 64
    → new num_buckets bucket_size fingerprint_bits value_bits plaintext_bits ≡ some t
    → IsTable t × (t.cells ≡ replicate (length t.cells) 0)
unfolding new
new-IsTable nb bs fb vb pb t sum small h =
    let cps = div_ceil (u32 (fb + vb)) pb in
    let same : u32 (fb + vb) ≡ fb + vb = mod-eq_of_lt sum in
    let T : FingerprintValueTable = record {
      cells = replicate (nb * bs * cps) 0;
      num_buckets = nb;
      bucket_size = bs;
      fingerprint_bits = fb;
      value_bits = vb;
      plaintext_bits = pb;
      cells_per_slot = cps;
    } in
    let e : T ≡ t = ground (arith, h) in
    let pb_pos : 1 ≤ pb = ground (arith, h) in
    rw (← e) (
      record {
        fb_pos = ground (arith, h);
        fb_le = ground (arith, h);
        vb_pos = ground (arith, h);
        pb_pos = pb_pos;
        pb_le = ground (arith, h);
        slot_room = rw same (ceil-room (fb + vb) pb pb_pos);
        size = length-replicate _ 0;
        small = rw same small;
        fits = replicate-Fits pb _;
      },
      ap (λ (n : ℕ). replicate n 0) (sym (length-replicate _ 0)),
    )
