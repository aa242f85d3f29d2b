-- ===== src/Bits.antt =====
-- Laws of `&`, `|` and `^` at variables: each splits at a bit position, whence masks are remainders,
-- disjoint fields add up, `^` is an involution and keeps a width.
mod Step
mod Split
pub mod Field
pub mod Power
pub mod Digit
pub use Step.{bit_and_step, bit_or_step, bit_xor_step}
pub use Split.*
