-- ===== src/Dcm/Dsp/Security.antt =====
-- Security access, service 0x27 of core/dcm/src/Dcm_Dsp.c: the request of a seed, the comparison of a
-- key, the delay after wrong keys, and the repetition of a request that is pending. The security level
-- is that of the session layer. The callbacks of the application are in the configuration.
pub mod Access
pub mod Timers
pub mod Unlock
pub mod Guessing
pub mod Attempts
use plug_and_play_autosar.Common.{
  ℕ, zero, suc, ◌+◌, ◌-◌, ◌/◌, ◌%◌, Bool, true, false, not, ◌&&◌, Option, none, some, List, [], ◌∷◌,
  ltb, leb, ◌==◌, if◌then◌else◌, get_or, get_elem?, drop, length, set,
}
use plug_and_play_autosar.Dcm.External.{copy_to}
use plug_and_play_autosar.Dcm.Dsl.{Dsl, update}
use plug_and_play_autosar.Dcm.Dsl.Session.{get_security_level, set_security_level}

-- The negative response codes of the service; 0 is DCM_E_POSITIVERESPONSE.
abbrev pub accepted : ℕ
accepted = 0

abbrev pub response_pending_code : ℕ
response_pending_code = 0x78

abbrev pub reject : ℕ
reject = 16

abbrev pub sub_function_unknown : ℕ
sub_function_unknown = 18

abbrev pub wrong_length : ℕ
wrong_length = 19

abbrev pub response_too_long : ℕ
response_too_long = 20

abbrev pub conditions_not_correct : ℕ
conditions_not_correct = 34

abbrev pub request_sequence_error : ℕ
request_sequence_error = 36

abbrev pub invalid_key : ℕ
invalid_key = 53

abbrev pub exceed_number_of_attempts : ℕ
exceed_number_of_attempts = 54

abbrev pub required_time_delay_not_expired : ℕ
required_time_delay_not_expired = 55

-- Dcm_OpStatusType, as far as it is passed.
pub data OpStatus : Type 0 where
  dcm_initial dcm_pending dcm_cancel : OpStatus

-- What GetSeed returns: E_OK with a seed, E_PENDING, or E_NOT_OK with a code.
pub data SeedResult : Type 0 where
  seed_ok : List ℕ → SeedResult
  seed_pending : SeedResult
  seed_not_ok : ℕ → SeedResult

-- What CompareKey returns.
pub data KeyResult : Type 0 where
  key_ok key_pending key_wrong : KeyResult

-- Dcm_DspSecurityRowType; `get_seed` takes the record of the request, which is empty where none is
-- configured. The answers may depend on the number of calls made before.
pub record SecurityRow : Type 0 where
  pub level : ℕ
  pub adr_size : ℕ
  pub seed_size : ℕ
  pub key_size : ℕ
  pub num_att_delay : ℕ
  pub delay_time : ℕ
  pub delay_time_on_boot : ℕ
  pub get_seed : Option (ℕ → List ℕ → OpStatus → SeedResult)
  pub compare_key : Option (ℕ → List ℕ → OpStatus → KeyResult)

-- DelayTimerActivation
pub data DelayTimer : Type 0 where
  delay_timer_deactive delay_timer_on_boot_active delay_timer_on_exceeding_limit_active : DelayTimer

-- DspUdsSecurityAccessChkParam
pub record FalseAttempts : Type 0 where
  pub attempts : ℕ
  pub timer : ℕ
  pub delay : DelayTimer

-- DspUdsSecurityAccessDataType and dspUdsSecurityAccessPending, with the session layer, the buffer of
-- the response with its length, and the codes that DsdDspProcessingDone was called with, the newest
-- first. `backed` counts the calls of the application.
pub record SecurityAccess : Type 0 where
  pub req_in_progress : Bool
  pub req_sec_level : ℕ
  pub req_sec_level_ref : Option SecurityRow
  pub curr_sec_lev_idx : ℕ
  pub false_attempts : ℕ → FalseAttempts
  pub pending : Bool
  pub dsl : Dsl
  pub tx_data : List ℕ
  pub tx_length : ℕ
  pub done : List ℕ
  pub backed : ℕ

-- DCM_MAIN_FUNCTION_PERIOD_TIME_MS and DcmDspSecurity.
pub record SecurityConfig : Type 0 where
  pub rows : List SecurityRow
  pub main_period : ℕ

abbrev pub is_deactive : DelayTimer → Bool
is_deactive delay_timer_deactive = true
is_deactive _ = false
