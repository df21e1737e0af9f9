-- ===== src/Dcm/Dsp/Memory/Calls.antt =====
-- The calls of the integrator's memory functions that the services and the main function make,
-- core/dcm/src/Dcm_Dsp.c.
use plug_and_play_autosar.Common.{◌≡◌, ◌∷◌}
use plug_and_play_autosar.Dcm.Dsp.Memory.{MemoryConfig, MemoryCall, Memory}
use plug_and_play_autosar.Dcm.Dsp.Memory.Ranges.{IsAllowed}

-- At most one call is made, and it is allowed.
pub data Calls (c : MemoryConfig) (s t : Memory) : Type 0 where
  calls_none : t.accesses ≡ s.accesses → Calls c s t
  calls_one : (k : MemoryCall) → IsAllowed c s.now k → t.accesses ≡ k ∷ s.accesses → Calls c s t
