-- ===== src/Prelude/Bits.antt =====
-- The bit operations of the native numbers at variables, for every width.
mod Step
mod Bounds
mod Xor
pub use Step.*
pub use Bounds.*
pub use Xor.*
