-- ===== src/Dcm.antt =====
-- The diagnostic communication manager.
pub mod Dsd
pub mod External
pub mod Dsl
pub mod Dsp
mod Tests
