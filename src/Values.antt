-- ===== src/Values.antt =====
-- The keys of PHP arrays, as lib.rs makes them of texts.
pub mod Decimal
pub mod NumericKey
pub mod Canonical
pub mod Value
pub mod Aero
pub mod Store
pub mod Zval
pub mod FromZval
pub mod Sample
pub mod Tests
