-- ===== src/Prelude/Bits.antt =====
-- Bit operations at variables: one equation for the lowest digit of each native operation, the
-- laws of exclusive or, and masks and disjoint fields as arithmetic.
mod Digit
mod Xor
mod Fields
mod Table
pub use Digit.*
pub use Xor.*
pub use Fields.*
pub use Table.{at_below, eq_by_table}
unfoldable pub use Table.{every_below}
