-- ===== src/Prelude/Words.antt =====
-- Machine words as numbers: the casts, and the wrapping operations of Rust's `u8`, `u32`, `u64`
-- and `u128`. Subtraction adds the modulus first, since `-` on ℕ stops at 0.
use Prim.Native.Nat.{ℕ, ◌+◌, ◌-◌, ◌*◌, ◌/◌, ◌%◌, ◌^◌}

-- `x as u8`
abbrev pub u8 : ℕ → ℕ
u8 n = n % 2 ^ 8

-- `x as u32`
abbrev pub u32 : ℕ → ℕ
u32 n = n % 2 ^ 32

-- `x as u64`
abbrev pub u64 : ℕ → ℕ
u64 n = n % 2 ^ 64

-- `a + b`, `a - b` and `a * b` on `u32`, with the wrap of a release build.
abbrev pub add32 : ℕ → ℕ → ℕ
add32 a b = u32 (a + b)

abbrev pub sub32 : ℕ → ℕ → ℕ
sub32 a b = u32 (a + 2 ^ 32 - b)

abbrev pub mul32 : ℕ → ℕ → ℕ
mul32 a b = u32 (a * b)

-- `a.wrapping_mul(b)` on `u64`.
abbrev pub mul64 : ℕ → ℕ → ℕ
mul64 a b = u64 (a * b)

-- `x >> k` on any unsigned width.
infixl 75 ◌>>>◌
abbrev pub ◌>>>◌ : ℕ → ℕ → ℕ
x >>> k = x / 2 ^ k
