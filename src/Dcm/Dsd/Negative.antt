-- ===== src/Dcm/Dsd/Negative.antt =====
-- The negative responses of the dispatcher.
use plug_and_play_autosar.Common.{
  ℕ, ◌≡◌, inl, inr, Bool, true, false, not, ◌&&◌, ◌||◌, Option, none, some, List, [], ◌∷◌, arith,
  Bool-cases, if◌then◌else◌, ltb, ◌==◌, ◌%◌, get_or,
}
use plug_and_play_autosar.Dcm.Dsd.{
  MsgData, Levels, Service, SubService, Dsd, Outcome, suppressed, response_ready, internal_service,
  external_service, external_sub_service, Verdict, accepted, not_ok, not_accepted, other,
  create_and_send_ncr, is_suppressed_nrc, sid_negative_response, positive_response,
  select_sub_service, select_listed, select_service_function, lookup_sub_service, run_service,
  check_service, check_session_level, check_security_level, dispatch, lookup_sid, handle_indicated,
  handle_request, service_indication,
}

-- The outcomes for a message with the service id `sid`: no response, a negative response that may be
-- sent, or a service that is called.
pub data Answers (m : MsgData) (sid : ℕ) : Outcome → Type 0 where
  keeps_quiet : Answers m sid suppressed
  refuses :
      (code : ℕ)
      → (m.functional ≡ true → is_suppressed_nrc code ≡ false)
      → (m.type2 ≡ true → code ≡ positive_response)
      → Answers m sid (response_ready (sid_negative_response ∷ sid ∷ code ∷ []))
  calls_internal : (id : ℕ) → Answers m sid (internal_service id)
  calls_external : (s : Service) → Answers m sid (external_service s)
  calls_sub_service : (s : SubService) → Answers m sid (external_sub_service s)

module _ (m : MsgData) (sid : ℕ) where
  if-Answers :
      (b : Bool) {x y : Outcome}
      → Answers m sid x
      → Answers m sid y
      → Answers m sid (if b then x else y)
  if-Answers true p q = p
  if-Answers false p q = q

  -- createAndSendNcr never answers a functional request with serviceNotSupported,
  -- subFunctionNotSupported or requestOutOfRange, nor a type 2 transmission with an error.
  create_and_send_ncr-Answers : (code : ℕ) → Answers m sid (create_and_send_ncr m sid code)
  unfolding create_and_send_ncr
  create_and_send_ncr-Answers code =
      let b =
        (m.functional && is_suppressed_nrc code) || (not (code == positive_response) && m.type2) in
      elim (Bool-cases b) [
        | inl y ↦ rw (y, create_and_send_ncr) keeps_quiet
        | inr n ↦ rw (n, create_and_send_ncr) (refuses code (λ h. ground arith) (λ h. ground arith))
      ]

  select_sub_service-Answers :
      (f : Option SubService × ℕ) → Answers m sid (select_sub_service m sid f)
  unfolding select_sub_service
  select_sub_service-Answers (none, code) = create_and_send_ncr-Answers _
  select_sub_service-Answers (some s, code) =
      if-Answers (code == positive_response)
        (if-Answers s.has_function (calls_sub_service s) (calls_internal sid))
        (create_and_send_ncr-Answers code)

  select_listed-Answers :
      (v : Levels) (sub : ℕ) (ss : Option (List SubService))
      → Answers m sid (select_listed v m sid sub ss)
  select_listed-Answers v sub none = calls_internal sid
  select_listed-Answers v sub (some ss) =
      select_sub_service-Answers (lookup_sub_service v sid sub ss)

  select_service_function-Answers :
      (v : Levels) (sub : ℕ) (s : Service) → Answers m sid (select_service_function v m sid sub s)
  unfolding select_service_function
  select_service_function-Answers v sub s =
      if-Answers s.subfunc_avail
        (if-Answers (ltb 1 m.rx_length) (select_listed-Answers v sub s.sub_service_list)
          (create_and_send_ncr-Answers _))
        (calls_internal s.service_id)

-- The same on an outcome with the state that is left.
abbrev AnswersAt : MsgData → ℕ → Outcome × Dsd → Type 0
AnswersAt m sid x = Answers m sid x.0

if-AnswersAt :
    (m : MsgData) (sid : ℕ) (b : Bool) (x y : Outcome × Dsd)
    → AnswersAt m sid x
    → AnswersAt m sid y
    → AnswersAt m sid (if b then x else y)
if-AnswersAt m sid true x y p q = p
if-AnswersAt m sid false x y p q = q

module _ (v : Levels) (m : MsgData) where
  run_service-Answers : (s : Service) (d : Dsd) → AnswersAt m d.current_sid (run_service v m s d)
  unfolding run_service
  run_service-Answers s d =
      if-Answers m d.current_sid s.has_function (calls_external s)
        (select_service_function-Answers m d.current_sid v _ s)

  check_service-Answers :
      (s : Service) (d : Dsd) → AnswersAt m d.current_sid (check_service v m s d)
  unfolding check_service
  check_service-Answers s d =
      let skip = m.startup_response_request && not s.has_function in
      if-AnswersAt m d.current_sid (skip || check_session_level v s.session_levels) _ _
        (if-AnswersAt m d.current_sid (skip || check_security_level v s.security_levels) _ _
          (run_service-Answers s d) (create_and_send_ncr-Answers m d.current_sid _))
        (create_and_send_ncr-Answers m d.current_sid _)

  dispatch-Answers : (s : Option Service) (d : Dsd) → AnswersAt m d.current_sid (dispatch v m s d)
  dispatch-Answers none d = create_and_send_ncr-Answers m d.current_sid _
  dispatch-Answers (some s) d = check_service-Answers s d

  handle_indicated-Answers :
      (respond_all : Bool) (r : Verdict × ℕ) (d : Dsd)
      → AnswersAt m d.current_sid (handle_indicated respond_all v m r d)
  unfolding handle_indicated
  handle_indicated-Answers respond_all (not_accepted, code) d = keeps_quiet
  handle_indicated-Answers respond_all (accepted, code) d =
      if-AnswersAt m d.current_sid (respond_all || ltb (d.current_sid % 128) 64) _ _
        (dispatch-Answers (lookup_sid m d.current_sid) d) keeps_quiet
  handle_indicated-Answers respond_all (not_ok, code) d =
      create_and_send_ncr-Answers m d.current_sid code
  handle_indicated-Answers respond_all (other, code) d =
      create_and_send_ncr-Answers m d.current_sid code

  -- Whatever the request, the dispatcher stays quiet, calls a service, or has a response ready that
  -- carries 0x7F, the service id and a code. The code is none of serviceNotSupported,
  -- subFunctionNotSupported and requestOutOfRange if the request is functionally addressed, and none
  -- but that of a positive response if it is sent as type 2.
  pub handle_request-Answers :
      (respond_all : Bool) (callbacks : ℕ → List (ℕ → Verdict × ℕ)) (d : Dsd)
      → Answers m (get_or m.rx_data 0 0) (handle_request respond_all callbacks v m d).0
  unfolding handle_request
  handle_request-Answers respond_all callbacks d =
      let sid = get_or m.rx_data 0 0 in
      if-AnswersAt m sid (m.rx_length == 0) _ _ keeps_quiet (
        handle_indicated-Answers respond_all
          (service_indication (callbacks sid) (accepted, positive_response))
          (record d { current_sid = sid; rx_data = m.rx_data }))
