-- ===== src/Dem.antt =====
-- The diagnostic event manager.
pub mod Types
pub mod Debounce
pub mod Status
pub mod State
pub mod Memory
pub mod Dtc
pub mod Filter
pub mod Event
pub mod Cycle
mod Tests
