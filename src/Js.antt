-- ===== src/Js.antt =====
-- The values that the action's JavaScript passes around, and what the language does with them.
mod Values
mod Json
mod Decimal
mod Members
unfoldable pub use Values.*
unfoldable pub use Json.*
unfoldable pub use Decimal.{print_nat}
unfoldable pub use Members.*
