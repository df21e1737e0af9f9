-- ===== src/Dcm/Dsd/Access.antt =====
-- A diagnostic service is called only if it is in the table and allowed in the session and at the
-- security level.
use plug_and_play_autosar.Common.{
  ℕ, ◌≡◌, refl, sym, subst, ◌⊎◌, inl, inr, Bool, true, false, not, ◌&&◌, ◌||◌, Option, none, some,
  List, [], ◌∷◌, arith, Bool-cases, if◌then◌else◌, ltb, ◌==◌, ◌%◌, get_or, ==_iff,
}
use plug_and_play_autosar.Dcm.Dsd.{
  MsgData, Levels, Service, SubService, Dsd, Outcome, suppressed, response_ready, internal_service,
  external_service, external_sub_service, Verdict, accepted, not_ok, not_accepted, other,
  create_and_send_ncr, positive_response, select_sub_service, select_listed,
  select_service_function, lookup_sub_service, search_sub_service, matches_sub_service, run_service,
  check_service, check_session_level, check_security_level, security_access_denied,
  subfunction_not_supported_in_active_session, dispatch, lookup_sid, find_service, table_service,
  handle_indicated, handle_request, service_indication,
}

-- The sub-service is allowed in the session and at the security level.
pub record IsAllowed (v : Levels) (t : SubService) : Type 0 where
  pub in_session : check_session_level v t.session_levels ≡ true
  pub at_security : check_security_level v t.security_levels ≡ true

abbrev Allows : Levels → Option SubService × ℕ → Type 0
Allows v f = (t : SubService) → f.0 ≡ some t → f.1 ≡ positive_response → IsAllowed v t

-- What the loop has after the entry `s`.
abbrev next_found : Levels → ℕ → ℕ → SubService → Option SubService → ℕ → Option SubService × ℕ
next_found v sid sub s found code =
    if matches_sub_service sid sub s
    then (
      some s,
      if check_session_level v s.session_levels
          then (if check_security_level v s.security_levels then code else security_access_denied)
          else subfunction_not_supported_in_active_session,
    )
    else (found, code)

some_injective : (s t : SubService) → some s ≡ some t → s ≡ t
some_injective s t e = ground arith

code-IsAllowed :
    (v : Levels) (s : SubService) (code : ℕ)
    → (if check_session_level v s.session_levels
        then (if check_security_level v s.security_levels then code else security_access_denied)
        else subfunction_not_supported_in_active_session)
      ≡ positive_response
    → IsAllowed v s
code-IsAllowed v s code h = record { in_session = ground arith; at_security = ground arith }

choose-Allows :
    (v : Levels) (b : Bool) (s : SubService) (code : ℕ) (f : Option SubService × ℕ)
    → (code ≡ positive_response → IsAllowed v s)
    → Allows v f
    → Allows v (if b then (some s, code) else f)
choose-Allows v true s code f k h = λ t e p. subst (λ x. IsAllowed v x) (some_injective s t e) (k p)
choose-Allows v false s code f k h = h

next_found-Allows :
    (v : Levels) (sid sub : ℕ) (s : SubService) (found : Option SubService) (code : ℕ)
    → Allows v (found, code)
    → Allows v (next_found v sid sub s found code)
next_found-Allows v sid sub s found code h =
    choose-Allows v (matches_sub_service sid sub s) s _ (found, code) (code-IsAllowed v s code) h

search_sub_service-Allows :
    (v : Levels) (sid sub : ℕ) (ss : List SubService) (f : Option SubService × ℕ)
    → Allows v f
    → Allows v (search_sub_service v sid sub ss f)
unfolding search_sub_service
search_sub_service-Allows v sid sub [] f h = h
search_sub_service-Allows v sid sub (s ∷ ss) (found, code) h =
    search_sub_service-Allows v sid sub ss (next_found v sid sub s found code)
      (next_found-Allows v sid sub s found code h)

-- A sub-service that DsdLookupSubService finds with a positive response is allowed.
lookup_sub_service-Allows :
    (v : Levels) (sid sub : ℕ) (ss : List SubService) → Allows v (lookup_sub_service v sid sub ss)
unfolding lookup_sub_service
lookup_sub_service-Allows v sid sub ss =
    search_sub_service-Allows v sid sub ss (none, positive_response) (λ t e p. ground arith)

chosen_id :
    (b : Bool) (sid : ℕ) (x s : Service) (rest : Option Service)
    → (b ≡ true → x.service_id ≡ sid)
    → (rest ≡ some s → s.service_id ≡ sid)
    → (if b then some x else rest) ≡ some s
    → s.service_id ≡ sid
chosen_id true sid x s rest h k e = ground (arith, h refl)
chosen_id false sid x s rest h k e = k e

find_service_id :
    (sid : ℕ) (ss : List Service) (s : Service) → find_service sid ss ≡ some s → s.service_id ≡ sid
unfolding find_service
find_service_id sid [] s h = ground arith
find_service_id sid (x ∷ ss) s h =
    chosen_id (x.service_id == sid) sid x s (find_service sid ss) ((==_iff x.service_id sid).0)
      (find_service_id sid ss s) h

found_in_table :
    (sid : ℕ) (t : Option (List Service)) (s : Service)
    → table_service sid t ≡ some s
    → s.service_id ≡ sid
found_in_table sid none s h = ground arith
found_in_table sid (some ss) s h = find_service_id sid ss s h

lookup_sid_id :
    (m : MsgData) (sid : ℕ) (s : Service) → lookup_sid m sid ≡ some s → s.service_id ≡ sid
unfolding lookup_sid
lookup_sid_id m sid s h = found_in_table sid m.service_table s h

-- The checks of the session and the security level, or the case that leaves them out: a request
-- that is answered at startup and that the program handles itself.
abbrev pub IsOpen : Levels → MsgData → Service → Type 0
IsOpen v m s =
    ((m.startup_response_request && not s.has_function) ≡ true)
    ⊎ ((check_session_level v s.session_levels ≡ true)
        × (check_security_level v s.security_levels ≡ true))

-- What a call of a service presupposes.
pub data Permitted (v : Levels) (m : MsgData) (sid : ℕ) : Outcome → Type 0 where
  no_call : Permitted v m sid suppressed
  response : (bytes : List ℕ) → Permitted v m sid (response_ready bytes)
  internal :
      (s : Service)
      → lookup_sid m sid ≡ some s
      → IsOpen v m s
      → Permitted v m sid (internal_service sid)
  external :
      (s : Service)
      → lookup_sid m sid ≡ some s
      → IsOpen v m s
      → Permitted v m sid (external_service s)
  sub_service :
      (s : Service) (t : SubService)
      → lookup_sid m sid ≡ some s
      → IsOpen v m s
      → IsAllowed v t
      → Permitted v m sid (external_sub_service t)

module _ (v : Levels) (m : MsgData) (sid : ℕ) where
  if-Permitted :
      (b : Bool) (x y : Outcome)
      → Permitted v m sid x
      → Permitted v m sid y
      → Permitted v m sid (if b then x else y)
  if-Permitted true x y p q = p
  if-Permitted false x y p q = q

  ncr-Permitted : (code : ℕ) → Permitted v m sid (create_and_send_ncr m sid code)
  unfolding create_and_send_ncr
  ncr-Permitted code = if-Permitted _ suppressed _ no_call (response _)

  module _ (s : Service) (found : lookup_sid m sid ≡ some s) (checked : IsOpen v m s) where
    select_sub_service-Permitted :
        (f : Option SubService × ℕ) → Allows v f → Permitted v m sid (select_sub_service m sid f)
    unfolding select_sub_service
    select_sub_service-Permitted (none, code) h = ncr-Permitted _
    select_sub_service-Permitted (some t, code) h = elim (Bool-cases (code == positive_response)) [
      | inl y ↦
          rw (y, select_sub_service)
            (if-Permitted t.has_function _ _
              (sub_service s t found checked (h t refl ((==_iff code positive_response).0 y)))
              (internal s found checked))
      | inr n ↦ rw (n, select_sub_service) (ncr-Permitted code)
    ]

    select_listed-Permitted :
        (sub : ℕ) (ss : Option (List SubService)) → Permitted v m sid (select_listed v m sid sub ss)
    select_listed-Permitted sub none = internal s found checked
    select_listed-Permitted sub (some ss) =
        select_sub_service-Permitted (lookup_sub_service v sid sub ss)
          (lookup_sub_service-Allows v sid sub ss)

    internal-Permitted : Permitted v m sid (internal_service s.service_id)
    internal-Permitted =
        subst (λ x. Permitted v m sid (internal_service x)) (sym (lookup_sid_id m sid s found))
          (internal s found checked)

    select_service_function-Permitted :
        (sub : ℕ) → Permitted v m sid (select_service_function v m sid sub s)
    unfolding select_service_function
    select_service_function-Permitted sub =
        if-Permitted s.subfunc_avail _ _
          (if-Permitted (ltb 1 m.rx_length) _ _ (select_listed-Permitted sub s.sub_service_list)
            (ncr-Permitted _))
          internal-Permitted

abbrev PermittedAt : Levels → MsgData → ℕ → Outcome × Dsd → Type 0
PermittedAt v m sid x = Permitted v m sid x.0

module _ (v : Levels) (m : MsgData) where
  run_service-Permitted :
      (s : Service) (d : Dsd)
      → lookup_sid m d.current_sid ≡ some s
      → IsOpen v m s
      → PermittedAt v m d.current_sid (run_service v m s d)
  unfolding run_service
  run_service-Permitted s d found checked =
      if-Permitted v m d.current_sid s.has_function _ _ (external s found checked)
        (select_service_function-Permitted v m d.current_sid s found checked _)

  check_service-Permitted :
      (s : Service) (d : Dsd)
      → lookup_sid m d.current_sid ≡ some s
      → PermittedAt v m d.current_sid (check_service v m s d)
  unfolding check_service
  check_service-Permitted s d found =
      let skip = m.startup_response_request && not s.has_function in
      elim (Bool-cases (skip || check_session_level v s.session_levels)) [
        | inr n ↦ rw (n, check_service) (ncr-Permitted v m d.current_sid _)
        | inl y ↦ elim (Bool-cases (skip || check_security_level v s.security_levels)) [
          | inr n ↦ rw (y, n, check_service) (ncr-Permitted v m d.current_sid _)
          | inl z ↦ rw (y, z, check_service) (run_service-Permitted s d found (ground arith))
        ]
      ]

  dispatch-Permitted :
      (s : Option Service) (d : Dsd)
      → lookup_sid m d.current_sid ≡ s
      → PermittedAt v m d.current_sid (dispatch v m s d)
  dispatch-Permitted none d h = ncr-Permitted v m d.current_sid _
  dispatch-Permitted (some s) d h = check_service-Permitted s d h

  handle_indicated-Permitted :
      (respond_all : Bool) (r : Verdict × ℕ) (d : Dsd)
      → PermittedAt v m d.current_sid (handle_indicated respond_all v m r d)
  unfolding handle_indicated
  handle_indicated-Permitted respond_all (not_accepted, code) d = no_call
  handle_indicated-Permitted respond_all (accepted, code) d =
      elim (Bool-cases (respond_all || ltb (d.current_sid % 128) 64)) [
        | inl y ↦ rw (y, handle_indicated) (dispatch-Permitted (lookup_sid m d.current_sid) d refl)
        | inr n ↦ rw (n, handle_indicated) no_call
      ]
  handle_indicated-Permitted respond_all (not_ok, code) d = ncr-Permitted v m d.current_sid code
  handle_indicated-Permitted respond_all (other, code) d = ncr-Permitted v m d.current_sid code

  -- Whatever the request, the dispatcher calls a service only if the service is in the table of the
  -- protocol and allowed in the current session and at the current security level, unless the request
  -- is answered at startup and handled by the program itself; a sub-service with a function of its
  -- own also has to be allowed in the session and at the security level.
  pub handle_request-Permitted :
      (respond_all : Bool) (callbacks : ℕ → List (ℕ → Verdict × ℕ)) (d : Dsd)
      → Permitted v m (get_or m.rx_data 0 0) (handle_request respond_all callbacks v m d).0
  unfolding handle_request
  handle_request-Permitted respond_all callbacks d =
      let sid = get_or m.rx_data 0 0 in
      elim (Bool-cases (m.rx_length == 0)) [
        | inl y ↦ rw (y, handle_request) no_call
        | inr n ↦
            rw (n, handle_request)
              (handle_indicated-Permitted respond_all
                (service_indication (callbacks sid) (accepted, positive_response))
                (record d { current_sid = sid; rx_data = m.rx_data }))
      ]
