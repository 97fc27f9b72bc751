-- ===== src/StoreCheck.antt =====
-- prison-store-check: does the running store view serve the closure that a unit was built for?
pub mod Units
pub mod Argv
pub mod Decimal
pub mod Utf8
pub mod Check
pub mod System
pub mod Main
mod Examples
