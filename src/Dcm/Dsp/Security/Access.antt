-- ===== src/Dcm/Dsp/Security/Access.antt =====
-- The requests of a seed and of the comparison of a key, with their repetition and cancellation,
-- DspUdsSecurityAccess of core/dcm/src/Dcm_Dsp.c.
use plug_and_play_autosar.Common.{
  ℕ, zero, suc, ◌+◌, ◌/◌, ◌%◌, Bool, true, false, ◌&&◌, Option, none, some, List, [], ◌∷◌, ltb, leb,
  ◌==◌, if◌then◌else◌, get_or, get_elem?, drop, length, set,
}
use plug_and_play_autosar.Dcm.External.{copy_to}
use plug_and_play_autosar.Dcm.Dsl.{update}
use plug_and_play_autosar.Dcm.Dsl.Session.{get_security_level, set_security_level}
use plug_and_play_autosar.Dcm.Dsp.Security.{
  accepted, response_pending_code, reject, sub_function_unknown, wrong_length, response_too_long,
  conditions_not_correct, request_sequence_error, invalid_key, exceed_number_of_attempts,
  required_time_delay_not_expired, is_deactive, OpStatus, SeedResult, KeyResult, SecurityRow,
  SecurityAccess, SecurityConfig, seed_ok, seed_not_ok, dcm_initial, dcm_pending, dcm_cancel,
  seed_pending, key_ok, key_pending, key_wrong, delay_timer_on_exceeding_limit_active,
}

abbrev pub op_status : Bool → Bool → OpStatus
op_status false cancel = dcm_initial
op_status true true = dcm_cancel
op_status true false = dcm_pending

-- The loop over the security table: the index of the row and the row.
unfoldable pub find_security_row : ℕ → ℕ → List SecurityRow → Option (ℕ × SecurityRow)
find_security_row level i [] = none
find_security_row level i (r ∷ rs) =
    if r.level == level then some (i, r) else find_security_row level (suc i) rs

-- A request is `rx`, its bytes, the first being the service.
abbrev pub zeros : ℕ → List ℕ
zeros zero = []
zeros (suc n) = 0 ∷ zeros n

abbrev pub respond_seed : List ℕ → SecurityRow → List ℕ → SecurityAccess → SecurityAccess
respond_seed rx row seed a = record a {
  tx_data = copy_to 2 seed (set a.tx_data 1 (get_or rx 1 0));
  tx_length = 2 + row.seed_size;
}

-- The answer of GetSeed.
unfoldable pub take_seed :
    List ℕ → ℕ → SecurityRow → SeedResult → SecurityAccess → SecurityAccess × ℕ
take_seed rx level row (seed_ok seed) a = (
  record (respond_seed rx row seed a) {
    req_sec_level = level;
    req_sec_level_ref = some row;
    req_in_progress = true;
  },
  accepted,
)
take_seed rx level row seed_pending a = (a, response_pending_code)
take_seed rx level row (seed_not_ok code) a = (a, code)

abbrev pub ask_seed :
    List ℕ
    → ℕ
    → SecurityRow
    → OpStatus
    → Option (ℕ → List ℕ → OpStatus → SeedResult)
    → SecurityAccess
    → SecurityAccess × ℕ
ask_seed rx level row st none a = (a, wrong_length)
ask_seed rx level row st (some f) a =
    take_seed rx level row (f a.backed (drop 2 rx) st) (record a { backed = suc a.backed })

-- The level that is unlocked already has a seed of zeros.
abbrev pub seed_for :
    List ℕ → ℕ → SecurityRow → OpStatus → Option ℕ → SecurityAccess → SecurityAccess × ℕ
seed_for rx level row st none a = (a, reject)
seed_for rx level row st (some current) a =
    if leb (2 + row.seed_size) a.tx_length
    then if level == current
      then (respond_seed rx row (zeros row.seed_size) a, accepted)
      else ask_seed rx level row st row.get_seed a
    else (a, response_too_long)

abbrev pub seed_at :
    List ℕ → ℕ → OpStatus → Option (ℕ × SecurityRow) → SecurityAccess → SecurityAccess × ℕ
seed_at rx level st none a = (a, sub_function_unknown)
seed_at rx level st (some (i, row)) a =
    let a1 = record a { curr_sec_lev_idx = i } in
    if is_deactive (a.false_attempts i).delay
    then if length rx == 2 + row.adr_size
      then seed_for rx level row st (get_security_level a.dsl) a1
      else (a1, wrong_length)
    else (a1, required_time_delay_not_expired)

-- DspUdsSecurityAccessGetSeedSubFnc: the state and the response code.
unfoldable pub get_seed_sub_fnc :
    SecurityConfig → List ℕ → ℕ → Bool → SecurityAccess → SecurityAccess × ℕ
get_seed_sub_fnc c rx level cancel a =
    seed_at rx level (op_status a.pending cancel) (find_security_row level 0 c.rows) a

-- The answer of CompareKey.
unfoldable pub take_key :
    List ℕ → SecurityRow → Bool → KeyResult → SecurityAccess → SecurityAccess × ℕ
take_key rx row true k a = (a, accepted)
take_key rx row false key_pending a = (a, response_pending_code)
take_key rx row false key_ok a = (
  record a {
    req_in_progress = false;
    dsl = set_security_level row.level a.dsl;
    tx_data = set a.tx_data 1 (get_or rx 1 0);
    tx_length = 2;
  },
  accepted,
)
take_key rx row false key_wrong a = (record a { req_in_progress = false }, invalid_key)

abbrev pub compare :
    List ℕ
    → SecurityRow
    → Bool
    → OpStatus
    → Option (ℕ → List ℕ → OpStatus → KeyResult)
    → SecurityAccess
    → SecurityAccess × ℕ
compare rx row cancel st none a = (a, conditions_not_correct)
compare rx row cancel st (some f) a =
    take_key rx row cancel (f a.backed (drop 2 rx) st) (record a { backed = suc a.backed })

abbrev pub delay_time_of : SecurityConfig → ℕ → ℕ
delay_time_of c i = elim (get_elem? c.rows i) [ none ↦ 0 | some r ↦ r.delay_time ]

-- A wrong key is counted on the row of the current index; a `uint8` counts.
unfoldable pub count_attempt : SecurityConfig → SecurityRow → SecurityAccess → SecurityAccess × ℕ
count_attempt c row a =
    let i = a.curr_sec_lev_idx in
    let k = a.false_attempts i in
    let n = (k.attempts + 1) % 256 in
    if ltb n row.num_att_delay
    then (
      record a { false_attempts = update a.false_attempts i (record k { attempts = n }) },
      invalid_key,
    )
    else (let k1 =
          if ltb (delay_time_of c i) c.main_period then record k { attempts = 0 } else record k {
            attempts = 0;
            delay = delay_timer_on_exceeding_limit_active;
            timer = delay_time_of c i;
          } in
        (
          record a { false_attempts = update a.false_attempts i k1 },
          if ltb 0 (delay_time_of c i) then exceed_number_of_attempts else invalid_key,
        ))

abbrev pub count_if_invalid : SecurityConfig → SecurityRow → SecurityAccess × ℕ → SecurityAccess × ℕ
count_if_invalid c row (a, code) = if code == invalid_key then count_attempt c row a else (a, code)

abbrev pub key_for :
    SecurityConfig → List ℕ → Bool → Option SecurityRow → SecurityAccess → SecurityAccess × ℕ
key_for c rx cancel none a = (a, request_sequence_error)
key_for c rx cancel (some row) a = count_if_invalid c row (
    if length rx == 2 + row.key_size
    then compare rx row cancel (op_status a.pending cancel) row.compare_key a
    else (a, wrong_length))

-- DspUdsSecurityAccessCompareKeySubFnc: the state and the response code.
unfoldable pub compare_key_sub_fnc :
    SecurityConfig → List ℕ → ℕ → Bool → SecurityAccess → SecurityAccess × ℕ
compare_key_sub_fnc c rx level cancel a =
    if level == a.req_sec_level
    then if a.req_in_progress
      then if is_deactive (a.false_attempts a.curr_sec_lev_idx).delay
        then key_for c rx cancel a.req_sec_level_ref a
        else (a, required_time_delay_not_expired)
      else (a, request_sequence_error)
    else (a, request_sequence_error)

-- The level that a sub-function asks for, and whether it asks for a seed.
abbrev pub requested_level : ℕ → ℕ
requested_level sub = (sub + 1) / 2

abbrev pub is_request_seed : ℕ → Bool
is_request_seed sub = sub % 2 == 1

abbrev pub in_range : ℕ → Bool
in_range sub = leb 0x01 sub && leb sub 0x42

-- The choice of DspUdsSecurityAccess and DspCancelPendingSecurityAccess.
unfoldable pub security_sub_fnc :
    SecurityConfig → List ℕ → Bool → SecurityAccess → SecurityAccess × ℕ
security_sub_fnc c rx cancel a =
    let sub = get_or rx 1 0 in
    if is_request_seed sub
    then get_seed_sub_fnc c rx (requested_level sub) cancel a
    else compare_key_sub_fnc c rx (requested_level sub) cancel a

abbrev pub finish : SecurityAccess × ℕ → SecurityAccess
finish (a, code) =
    if code == response_pending_code
    then record a { pending = true }
    else record a { pending = false; done = code ∷ a.done }

-- DspUdsSecurityAccess
unfoldable pub security_access : SecurityConfig → List ℕ → SecurityAccess → SecurityAccess
security_access c rx a = finish (
    if leb 2 (length rx)
    then if in_range (get_or rx 1 0)
      then security_sub_fnc c rx false a
      else (a, sub_function_unknown)
    else (a, wrong_length))

-- DspCancelPendingSecurityAccess
unfoldable pub cancel_pending_security_access :
    SecurityConfig → List ℕ → SecurityAccess → SecurityAccess
cancel_pending_security_access c rx a =
    if in_range (get_or rx 1 0) then (security_sub_fnc c rx true a).0 else a

-- DspSecurityAccessMainFunction, for the request that is pending.
unfoldable pub security_access_main : SecurityConfig → List ℕ → SecurityAccess → SecurityAccess
security_access_main c rx a = if a.pending then security_access c rx a else a
