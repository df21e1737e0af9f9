-- ===== src/Dcm/Dsp.antt =====
-- Diagnostic services of the program itself, core/dcm/src/Dcm_Dsp.c.
pub mod Security
pub mod Periodic
pub mod Memory
