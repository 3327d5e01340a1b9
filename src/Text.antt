-- ===== src/Text.antt =====
-- Go's `string`: a list of bytes. The functions of Go's standard library that the operator calls on
-- strings are in the modules below; the operator's own code is in the modules beside this one.
mod Base
pub mod Search
pub mod Decimal
pub mod Rune
pub mod PathItems
pub mod PathMatch
pub mod Itoa
pub mod Separators
unfoldable pub use Base.*
