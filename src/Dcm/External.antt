-- ===== src/Dcm/External.antt =====
-- Diagnostic services that the application implements, core/dcm/src/Dcm_Dsd.c: their start, the main
-- function, cancellation, the calls that the application makes back, and the response that
-- DsdDspProcessingDone makes of a result. The message context only carries pointers to the
-- application, and is left out; `for_us` is the test that a call back is for the current PDU.
pub mod Responses
use plug_and_play_autosar.Common.{
  ℕ, zero, suc, ◌+◌, ◌-◌, ◌/◌, ◌%◌, ◌^◌, ◌≡◌, Bool, true, false, not, ◌&&◌, ◌||◌, Option, none,
  some, List, [], ◌∷◌, ◌++◌, ltb, leb, ◌==◌, if◌then◌else◌, set, length,
}
use plug_and_play_autosar.Dcm.Dsd.{positive_response, is_suppressed_nrc, sid_negative_response}

-- ServicePendingStateType
pub data ServiceState : Type 0 where
  idle pending wait_done done wait_tx_confirm : ServiceState

-- Dcm_ConfirmationStatusType
pub data Confirmation : Type 0 where
  res_pos_ok res_pos_not_ok res_neg_ok res_neg_not_ok : Confirmation

-- The calls that leave the dispatcher, in order.
pub data Call : Type 0 where
  -- DslDsdProcessingDone
  response_suppressed response_ready : Call
  -- DspDcmConfirmation
  dsp_confirmation : Call
  -- Dcm_Confirmation
  dcm_confirmation : Confirmation → Call

-- ExternalService, with the response buffer and its length, what the dispatcher knows of the request,
-- and the calls made so far.
pub record External : Type 0 where
  pub nrc : ℕ
  pub state : ServiceState
  pub is_sub_fnc : Bool
  pub sub_fnc_id : ℕ
  pub tx_data : List ℕ
  pub tx_length : ℕ
  pub current_sid : ℕ
  pub suppress_pos_rsp_msg : Bool
  pub functional : Bool
  pub type2 : Bool
  pub calls : List Call

abbrev log : Call → External → External
log k x = record x { calls = k ∷ x.calls }

abbrev is_wait_done : ServiceState → Bool
is_wait_done wait_done = true
is_wait_done _ = false

abbrev is_pending : ServiceState → Bool
is_pending pending = true
is_pending _ = false

-- memcpy of `bytes` to the position `i` of the buffer.
unfoldable pub copy_to : ℕ → List ℕ → List ℕ → List ℕ
copy_to i [] tx = tx
copy_to i (b ∷ bs) tx = copy_to (suc i) bs (set tx i b)

-- DsdExternalSetNegResponse
unfoldable pub external_set_neg_response : Bool → ℕ → External → External
external_set_neg_response for_us code x = if for_us then record x { nrc = code } else x

-- The response that DsdExternalProcessingDone takes over; a length is a `uint16`.
unfoldable pub take_response : List ℕ → External → External
take_response res x =
    if x.is_sub_fnc
    then record x {
      tx_data = set (copy_to 2 res x.tx_data) 1 x.sub_fnc_id;
      tx_length = (length res + 1) % 2 ^ 16;
    }
    else record x { tx_data = copy_to 1 res x.tx_data; tx_length = length res % 2 ^ 16 }

-- DsdExternalProcessingDone
unfoldable pub external_processing_done : Bool → List ℕ → External → External
external_processing_done for_us res x =
    if for_us
    then (let x1 = record x { state = done } in
        if x1.nrc == positive_response then take_response res x1 else x1)
    else x

-- A call that the application makes back while its service function runs.
pub data CallBack : Type 0 where
  set_neg_response : ℕ → CallBack
  processing_done : List ℕ → CallBack

-- A run of a service function: what it calls, and whether it returns E_PENDING. Where no function is
-- found the run makes no call and is not pending.
pub record Run : Type 0 where
  pub call_backs : List CallBack
  pub returns_pending : Bool

unfoldable pub call_back : CallBack → External → External
call_back (set_neg_response code) x = external_set_neg_response true code x
call_back (processing_done res) x = external_processing_done true res x

unfoldable pub make_calls : List CallBack → External → External
make_calls [] x = x
make_calls (k ∷ ks) x = make_calls ks (call_back k x)

-- What startExternalServiceProcessing and startExternalSubServiceProcessing, with the id of the
-- latter, write before the call of the service.
unfoldable pub begin_service : Option ℕ → External → External
begin_service none x = record x { nrc = positive_response; state = wait_done; is_sub_fnc = false }
begin_service (some id) x = record x {
  nrc = positive_response;
  state = wait_done;
  is_sub_fnc = true;
  sub_fnc_id = id;
}

abbrev await : Bool → External → External
await is_pending_now x =
    if is_pending_now && is_wait_done x.state then record x { state = pending } else x

unfoldable pub start_external : Option ℕ → Run → External → External
start_external sub run x =
    await run.returns_pending (make_calls run.call_backs (begin_service sub x))

abbrev status_of : Bool → ℕ → Confirmation
status_of true code = if code == positive_response then res_pos_ok else res_neg_ok
status_of false code = if code == positive_response then res_pos_not_ok else res_neg_not_ok

abbrev confirm_in : ServiceState → Bool → External → External
confirm_in wait_tx_confirm ok x = record x {
  calls = dcm_confirmation (status_of ok x.nrc) ∷ x.calls;
  state = idle;
}
confirm_in _ ok x = x

-- DcmConfirmation; `ok` for NTFRSLT_OK.
unfoldable pub dcm_confirm : Bool → External → External
dcm_confirm ok x = confirm_in x.state ok x

-- createAndSendNcr
unfoldable pub send_ncr : ℕ → External → External
send_ncr code x =
    if (x.functional && is_suppressed_nrc code) || (not (code == positive_response) && x.type2)
    then log response_suppressed x
    else record x {
      calls = response_ready ∷ x.calls;
      tx_data = set (set (set x.tx_data 0 sid_negative_response) 1 x.current_sid) 2 code;
      tx_length = 3;
    }

-- `x | SID_RESPONSE_BIT`, of a `uint8`.
abbrev with_response_bit : ℕ → ℕ
with_response_bit x = if x / 64 % 2 == 1 then x else x + 64

-- DsdDspProcessingDone
unfoldable pub dsp_processing_done : ℕ → External → External
dsp_processing_done code x =
    if code == positive_response
    then (if not x.suppress_pos_rsp_msg
        then record x {
          calls = response_ready ∷ x.calls;
          tx_data =
              if x.type2 then x.tx_data else set x.tx_data 0 (with_response_bit x.current_sid);
        }
        else dcm_confirm true (log response_suppressed (log dsp_confirmation x)))
    else send_ncr code x

-- The response to a service that is done, in externalServiceMainFunction.
unfoldable pub respond_done : External → External
respond_done x =
    let x1 =
      if x.nrc == positive_response
      then dsp_processing_done positive_response
          (record x { tx_length = (x.tx_length + 1) % 2 ^ 16 })
      else dsp_processing_done x.nrc x in
    record x1 { state = wait_tx_confirm }

abbrev respond_if_done : ServiceState → External → External
respond_if_done done x = respond_done x
respond_if_done _ x = x

-- The call of the service in externalServiceMainFunction.
unfoldable pub poll_service : Run → External → External
poll_service run x =
    let x1 = make_calls run.call_backs x in
    if not run.returns_pending && is_pending x1.state then record x1 { state = wait_done } else x1

-- externalServiceMainFunction
unfoldable pub external_main : Run → External → External
external_main run x =
    let x1 = if is_pending x.state then poll_service run x else x in respond_if_done x1.state x1

-- DsdCancelPendingExternalServices
unfoldable pub cancel_external : Run → External → External
cancel_external run x =
    let x1 =
      if is_pending x.state || is_wait_done x.state then make_calls run.call_backs x else x in
    record x1 { state = idle }
