-- ===== src/Dcm/Dsd.antt =====
-- The dispatcher of diagnostic requests, core/dcm/src/Dcm_Dsd.c, and the checks of the session and the
-- security level in core/dcm/src/Dcm_Dsp.c. The diagnostic services themselves are not modelled: the
-- outcome of a request names the one that is called.
pub mod Access
pub mod Negative
use plug_and_play_autosar.Common.{
  ℕ, zero, suc, ◌+◌, ◌-◌, ◌*◌, ◌/◌, ◌%◌, ◌≡◌, Bool, true, false, not, ◌&&◌, ◌||◌, Option, none,
  some, List, [], ◌∷◌, ltb, leb, ◌==◌, if◌then◌else◌, get_or, set, length,
}

-- The negative response codes that the dispatcher sends.
abbrev pub positive_response : ℕ
positive_response = 0

abbrev pub service_not_supported : ℕ
service_not_supported = 17

abbrev pub subfunction_not_supported : ℕ
subfunction_not_supported = 18

abbrev pub incorrect_message_length : ℕ
incorrect_message_length = 19

abbrev pub request_out_of_range : ℕ
request_out_of_range = 49

abbrev pub security_access_denied : ℕ
security_access_denied = 51

abbrev pub subfunction_not_supported_in_active_session : ℕ
subfunction_not_supported_in_active_session = 126

abbrev pub service_not_supported_in_active_session : ℕ
service_not_supported_in_active_session = 127

-- SID_NEGATIVE_RESPONSE, SID_RESPONSE_ON_EVENT, DCM_ALL_SESSION_LEVEL
abbrev pub sid_negative_response : ℕ
sid_negative_response = 0x7F

abbrev pub sid_response_on_event : ℕ
sid_response_on_event = 0x86

abbrev pub all_session_level : ℕ
all_session_level = 0xFF

-- Dcm_DsdSubServiceType, with whether it has a function; a table ends before its end mark.
pub record SubService : Type 0 where
  pub sub_service_id : ℕ
  pub has_function : Bool
  pub security_levels : List ℕ
  pub session_levels : List ℕ

-- Dcm_DsdServiceType, with whether it has a function.
pub record Service : Type 0 where
  pub service_id : ℕ
  pub subfunc_avail : Bool
  pub security_levels : List ℕ
  pub session_levels : List ℕ
  pub has_function : Bool
  pub sub_service_list : Option (List SubService)

-- MsgDataType, as far as the dispatcher reads it: the buffer of the request with the length of the
-- request, and whether DslPduRPduUsedForType2Tx holds of the PDU for the response.
pub record MsgData : Type 0 where
  pub rx_data : List ℕ
  pub rx_length : ℕ
  pub functional : Bool
  pub type2 : Bool
  pub service_table : Option (List Service)
  pub startup_response_request : Bool

-- What DslGetSesCtrlType and DslGetSecurityLevel give, where they return E_OK.
pub record Levels : Type 0 where
  pub session : Option ℕ
  pub security : Option ℕ

-- What the dispatcher does for a request.
pub data Outcome : Type 0 where
  -- DslDsdProcessingDone with DSD_TX_RESPONSE_SUPPRESSED
  suppressed : Outcome
  -- DslDsdProcessingDone with DSD_TX_RESPONSE_READY, and the bytes of the response
  response_ready : List ℕ → Outcome
  -- runInternalService
  internal_service : ℕ → Outcome
  -- startExternalServiceProcessing
  external_service : Service → Outcome
  -- startExternalSubServiceProcessing
  external_sub_service : SubService → Outcome

unfoldable pub is_suppressed_nrc : ℕ → Bool
is_suppressed_nrc code =
    code == service_not_supported
    || (code == subfunction_not_supported || code == request_out_of_range)

-- createAndSendNcr; `sid` is currentSid.
unfoldable pub create_and_send_ncr : MsgData → ℕ → ℕ → Outcome
create_and_send_ncr m sid code =
    if (m.functional && is_suppressed_nrc code) || (not (code == positive_response) && m.type2)
    then suppressed
    else response_ready (sid_negative_response ∷ sid ∷ code ∷ [])

-- The loop of DspCheckSessionLevel.
unfoldable pub session_found : ℕ → List ℕ → Bool
session_found current [] = false
session_found current (l ∷ ls) =
    l == all_session_level || (l == current || session_found current ls)

abbrev level_allowed : (ℕ → List ℕ → Bool) → Option ℕ → List ℕ → Bool
level_allowed found none ls = false
level_allowed found (some current) [] = true
level_allowed found (some current) (l ∷ ls) = found current (l ∷ ls)

-- DspCheckSessionLevel
unfoldable pub check_session_level : Levels → List ℕ → Bool
check_session_level v ls = level_allowed session_found v.session ls

-- The loop of DspCheckSecurityLevel.
unfoldable pub security_found : ℕ → List ℕ → Bool
security_found current [] = false
security_found current (l ∷ ls) = l == current || security_found current ls

-- DspCheckSecurityLevel
unfoldable pub check_security_level : Levels → List ℕ → Bool
check_security_level v ls = level_allowed security_found v.security ls

-- The loop of lookupSid.
unfoldable pub find_service : ℕ → List Service → Option Service
find_service sid [] = none
find_service sid (s ∷ ss) = if s.service_id == sid then some s else find_service sid ss

abbrev table_service : ℕ → Option (List Service) → Option Service
table_service sid none = none
table_service sid (some ss) = find_service sid ss

-- lookupSid
unfoldable pub lookup_sid : MsgData → ℕ → Option Service
lookup_sid m sid = table_service sid m.service_table

-- `x | ROE_STORAGE_STATE`, of a `uint8`.
abbrev with_storage_state : ℕ → ℕ
with_storage_state x = if x / 64 % 2 == 1 then x else x + 64

unfoldable pub matches_sub_service : ℕ → ℕ → SubService → Bool
matches_sub_service sid sub s =
    sub == s.sub_service_id
    || (sid == sid_response_on_event && sub == with_storage_state s.sub_service_id)

-- The loop of DsdLookupSubService, from what it has found: the last match and *respCode.
unfoldable pub search_sub_service :
    Levels → ℕ → ℕ → List SubService → Option SubService × ℕ → Option SubService × ℕ
search_sub_service v sid sub [] f = f
search_sub_service v sid sub (s ∷ ss) (found, code) = search_sub_service v sid sub ss (
    if matches_sub_service sid sub s
    then (
      some s,
      if check_session_level v s.session_levels
          then (if check_security_level v s.security_levels then code else security_access_denied)
          else subfunction_not_supported_in_active_session,
    )
    else (found, code))

-- DsdLookupSubService for a service with a list of sub-services.
unfoldable pub lookup_sub_service : Levels → ℕ → ℕ → List SubService → Option SubService × ℕ
lookup_sub_service v sid sub ss = search_sub_service v sid sub ss (none, positive_response)

-- What selectServiceFunction does with the result of DsdLookupSubService.
unfoldable pub select_sub_service : MsgData → ℕ → Option SubService × ℕ → Outcome
select_sub_service m sid (none, code) = create_and_send_ncr m sid subfunction_not_supported
select_sub_service m sid (some s, code) =
    if code == positive_response
    then (if s.has_function then external_sub_service s else internal_service sid)
    else create_and_send_ncr m sid code

abbrev select_listed : Levels → MsgData → ℕ → ℕ → Option (List SubService) → Outcome
select_listed v m sid sub none = internal_service sid
select_listed v m sid sub (some ss) = select_sub_service m sid (lookup_sub_service v sid sub ss)

-- selectServiceFunction; `sub` is the second byte of the request.
unfoldable pub select_service_function : Levels → MsgData → ℕ → ℕ → Service → Outcome
select_service_function v m sid sub s =
    if s.subfunc_avail
    then (if ltb 1 m.rx_length
        then select_listed v m sid sub s.sub_service_list
        else create_and_send_ncr m sid incorrect_message_length)
    else internal_service s.service_id

-- currentSid, suppressPosRspMsg and the buffer of the request, which DsdHandleRequest changes.
pub record Dsd : Type 0 where
  pub current_sid : ℕ
  pub suppress_pos_rsp_msg : Bool
  pub rx_data : List ℕ

-- Whether the SUPPRESS_POS_RESP_BIT of the second byte is set, and the byte without it. Of a request
-- of one byte, the program reads what stands behind it in the buffer.
abbrev has_suppress_bit : ℕ → Bool
has_suppress_bit x = x / 128 % 2 == 1

abbrev clear_suppress_bit : ℕ → ℕ
clear_suppress_bit x = if has_suppress_bit x then x - 128 else x

-- The part of DsdHandleRequest for a service that may run.
unfoldable pub run_service : Levels → MsgData → Service → Dsd → Outcome × Dsd
run_service v m s d =
    let sub = get_or d.rx_data 1 0 in
    let suppress = s.subfunc_avail && has_suppress_bit sub in
    let sub1 = if suppress then clear_suppress_bit sub else sub in
    let d1 = record d {
      suppress_pos_rsp_msg = suppress;
      rx_data = if suppress then set d.rx_data 1 sub1 else d.rx_data;
    } in
    (
      if s.has_function
          then external_service s
          else select_service_function v m d.current_sid sub1 s,
      d1,
    )

-- The checks of DsdHandleRequest on a service of the table.
unfoldable pub check_service : Levels → MsgData → Service → Dsd → Outcome × Dsd
check_service v m s d =
    let skip = m.startup_response_request && not s.has_function in
    if skip || check_session_level v s.session_levels
    then (if skip || check_security_level v s.security_levels
        then run_service v m s d
        else (create_and_send_ncr m d.current_sid security_access_denied, d))
    else (create_and_send_ncr m d.current_sid service_not_supported_in_active_session, d)

abbrev dispatch : Levels → MsgData → Option Service → Dsd → Outcome × Dsd
dispatch v m none d = (create_and_send_ncr m d.current_sid service_not_supported, d)
dispatch v m (some s) d = check_service v m s d

-- The Std_ReturnType of an indication: E_OK, E_NOT_OK, E_REQUEST_NOT_ACCEPTED or another value.
pub data Verdict : Type 0 where
  accepted not_ok not_accepted other : Verdict

-- The effect of a round of ServiceIndication on returnCode.
abbrev judge : Verdict → Verdict → Verdict
judge not_ok ret = not_ok
judge not_accepted ret = not_accepted
judge _ ret = ret

-- The loop of ServiceIndication, with returnCode and *errorCode. A callback of the application gives
-- its result for the value of *errorCode that it finds, and the value that it leaves.
unfoldable pub service_indication : List (ℕ → Verdict × ℕ) → Verdict × ℕ → Verdict × ℕ
service_indication [] v = v
service_indication (f ∷ fs) (not_accepted, code) = (not_accepted, code)
service_indication (f ∷ fs) (ret, code) =
    let (result, code1) = f code in service_indication fs (judge result ret, code1)

-- DsdHandleRequest for a request that ServiceIndication judged so; the first argument is
-- DCM_RESPOND_ALL_REQUEST.
unfoldable pub handle_indicated : Bool → Levels → MsgData → Verdict × ℕ → Dsd → Outcome × Dsd
handle_indicated respond_all v m (not_accepted, code) d = (suppressed, d)
handle_indicated respond_all v m (accepted, code) d =
    if respond_all || ltb (d.current_sid % 128) 64
    then dispatch v m (lookup_sid m d.current_sid) d
    else (suppressed, d)
handle_indicated respond_all v m (_, code) d = (create_and_send_ncr m d.current_sid code, d)

-- DsdHandleRequest; `callbacks` are the indications for the service id, none where
-- DCM_MANUFACTURER_NOTIFICATION is off or the connection of the PDU is not known.
unfoldable pub handle_request :
    Bool → (ℕ → List (ℕ → Verdict × ℕ)) → Levels → MsgData → Dsd → Outcome × Dsd
handle_request respond_all callbacks v m d =
    if m.rx_length == 0
    then (suppressed, record d { rx_data = m.rx_data })
    else (let sid = get_or m.rx_data 0 0 in
        handle_indicated respond_all v m
          (service_indication (callbacks sid) (accepted, positive_response))
          (record d { current_sid = sid; rx_data = m.rx_data }))
