-- ===== src/Bits.antt =====
-- `^`, `|` and `&` of C on unsigned words, as laws at every width. The checksums and the base64
-- routines rest on them.
mod Digits
mod Xor
mod Fields
pub use Digits.*
pub use Xor.*
pub use Fields.*
pub use Prim.Native.Nat.{bit_and, bit_or, bit_xor}
