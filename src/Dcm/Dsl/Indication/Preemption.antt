-- ===== src/Dcm/Dsl/Indication/Preemption.antt =====
-- Which protocol becomes the active one, DslTpRxIndicationFromPduR of core/dcm/src/Dcm_Dsl.c.
use plug_and_play_autosar.Common.{
  ℕ, ◌<◌, ◌≡◌, ◌⊎◌, refl, sym, ap, subst, ◌∙◌, Bool, true, false, ◌||◌, Option, none, some, List,
  [], ◌∷◌, ltb, ◌==◌, Bool-cases, inl, inr, arith,
}
use plug_and_play_autosar.Dcm.Dsl.{
  BufferUser, not_in_use, ProtocolRx, Answer, e_ok, e_not_ok, e_protocol_not_allowed, DslCall,
  start_protocol, stop_protocol, call, DslConfig, Dsl, find_rx, default_session, set_runtime,
  PeriodicTransmission,
}
use plug_and_play_autosar.Dcm.Dsl.Session.{
  change_diagnostic_session, leave_session, change_com_m, leave_com_m, enter_com_m,
}
use plug_and_play_autosar.Dcm.Dsl.Buffers.{make_available}
use plug_and_play_autosar.Dcm.Dsl.Reception.{is_not_in_use}
use plug_and_play_autosar.Dcm.Dsl.Indication.{
  all_accept, start_protocol_helper, stop_protocol_helper, starts, stops, start_first, take_over,
  begin_preemption, preempt, acquire_protocol, acquire_protocol_of, obd_default, set_started,
  hand_over, hand_over_type2, process_request, in_default_session,
}

-- The callbacks change nothing but the list of calls.
all_accept_keeps :
    (k : ℕ → DslCall) (fs : List (Option (List DslCall → ℕ → Answer))) (id : ℕ) (s : Dsl)
    → ((all_accept k fs id s).0.active ≡ s.active) × ((all_accept k fs id s).0.runtime ≡ s.runtime)
unfolding all_accept
all_accept_keeps k [] id s = (refl, refl)
all_accept_keeps k (none ∷ fs) id s = all_accept_keeps k fs id s
all_accept_keeps k (some f ∷ fs) id s =
    elim (f s.calls id)
      as (λ a.
        ((elim a as (λ _. Dsl × Bool) [
          | e_ok ↦ all_accept k fs id (call (k id) s)
          | e_not_ok ↦ (call (k id) s, false)
          | e_protocol_not_allowed ↦ (call (k id) s, false)
        ]).0.active
          ≡ s.active)
        × ((elim a as (λ _. Dsl × Bool) [
          | e_ok ↦ all_accept k fs id (call (k id) s)
          | e_not_ok ↦ (call (k id) s, false)
          | e_protocol_not_allowed ↦ (call (k id) s, false)
        ]).0.runtime
            ≡ s.runtime)) [
              | e_ok ↦ all_accept_keeps k fs id (call (k id) s)
              | e_not_ok ↦ (refl, refl)
              | e_protocol_not_allowed ↦ (refl, refl)
            ]

leave_com_m_active :
    (c : DslConfig) (p : ℕ) (rx : Option ProtocolRx) (s : Dsl)
    → (leave_com_m c p rx s).active ≡ s.active
unfolding leave_com_m
leave_com_m_active c p none s = refl
leave_com_m_active c p (some rx) s = ground arith

enter_com_m_active :
    (c : DslConfig) (p : ℕ) (rx : Option ProtocolRx) (s : Dsl)
    → (enter_com_m c p rx s).active ≡ s.active
unfolding enter_com_m
enter_com_m_active c p none s = refl
enter_com_m_active c p (some rx) s = ground arith

-- A change of the session does not change the active protocol.
change_diagnostic_session_active :
    (c : DslConfig) (p new : ℕ) (s : Dsl) → (change_diagnostic_session c p new s).active ≡ s.active
unfolding change_diagnostic_session change_com_m leave_session
change_diagnostic_session_active c p new s =
    let s0 = leave_session p s in
    let rx = find_rx c (s0.runtime p).diag_request_rx_pdu_id in
    ground (arith, leave_com_m_active c p rx s0, enter_com_m_active c p rx s0)

obd_default_active : (c : DslConfig) (p : ℕ) (s : Dsl) → (obd_default c p s).active ≡ s.active
obd_default_active c p s = ground arith

-- The protocol `p` becomes the active one, or the active one stays.
abbrev Activates : ℕ → Dsl → Dsl → Type 0
Activates p s t = (t.active ≡ some p) ⊎ (t.active ≡ s.active)

start_helper_keeps :
    (c : DslConfig) (id : ℕ) (s : Dsl)
    → ((start_protocol_helper c id s).0.active ≡ s.active)
      × ((start_protocol_helper c id s).0.runtime ≡ s.runtime)
unfolding start_protocol_helper
start_helper_keeps c id s = all_accept_keeps start_protocol (starts c.callbacks) id s

stop_helper_keeps :
    (c : DslConfig) (id : ℕ) (s : Dsl)
    → ((stop_protocol_helper c id s).0.active ≡ s.active)
      × ((stop_protocol_helper c id s).0.runtime ≡ s.runtime)
unfolding stop_protocol_helper
stop_helper_keeps c id s = all_accept_keeps stop_protocol (stops c.callbacks) id s

start_first-Activates : (c : DslConfig) (p : ℕ) (s : Dsl) → Activates p s (start_first c p s)
unfolding start_first
start_first-Activates c p s =
    let h = start_protocol_helper c (c.row p).protocol_id s in
    let s2 = set_started p true (change_diagnostic_session c p default_session h.0) in
    elim (Bool-cases h.1) [
      | inl y ↦ rw y (inl (obd_default_active c p (record s2 { active = some p })))
      | inr n ↦ rw n (inr (start_helper_keeps c (c.row p).protocol_id s).0)
    ]

take_over-Activates : (c : DslConfig) (p a : ℕ) (s : Dsl) → Activates p s (take_over c p a s)
unfolding take_over
take_over-Activates c p a s =
    let h = start_protocol_helper c (c.row p).protocol_id s in
    let s2 = set_started p true (set_started a false h.0) in
    let s3 = record s2 { active = some p } in
    elim (Bool-cases h.1) [
      | inl y ↦ rw y (
          inl (
            obd_default_active c p (change_diagnostic_session c p default_session s3)
            ∙ change_diagnostic_session_active c p default_session s3))
      | inr n ↦ rw n (inr (start_helper_keeps c (c.row p).protocol_id s).0)
    ]

make_available_active : (b : Option ℕ) (s : Dsl) → (make_available b s).active ≡ s.active
make_available_active none s = refl
make_available_active (some b) s = refl

-- What has to hold of the active protocol `a` before the protocol `p` takes its place: it is of lower
-- priority or in its default session, and it has no response under way.
pub record GivesWay (c : DslConfig) (p a : ℕ) (s : Dsl) : Type 0 where
  pub ranked :
      ((c.row p).priority < (c.row a).priority) ⊎ ((s.runtime a).session_control ≡ default_session)
  pub idle : (s.runtime a).external_tx_buffer_status ≡ not_in_use

ranked_of :
    (c : DslConfig) (p a : ℕ) (s : Dsl)
    → (ltb (c.row p).priority (c.row a).priority
        || (s.runtime a).session_control == default_session)
      ≡ true
    → ((c.row p).priority < (c.row a).priority) ⊎ ((s.runtime a).session_control ≡ default_session)
ranked_of c p a s h = elim (Bool-cases (ltb (c.row p).priority (c.row a).priority)) [
  | inl y ↦ inl (ground (arith, y))
  | inr n ↦ inr (ground (arith, rw n at h))
]

not_in_use_of : (u : BufferUser) → is_not_in_use u ≡ true → u ≡ not_in_use
not_in_use_of not_in_use e = refl
not_in_use_of _ e = cc

-- The active protocol stays, or it gives way.
abbrev pub Preempts : DslConfig → ℕ → ℕ → Dsl → Dsl → Type 0
Preempts c p a s t = (t.active ≡ s.active) ⊎ ((t.active ≡ some p) × GivesWay c p a s)

preempt-Preempts : (c : DslConfig) (p a id : ℕ) (s : Dsl) → Preempts c p a s (preempt c p a id s)
unfolding preempt begin_preemption
preempt-Preempts c p a id s =
    let h = stop_protocol_helper c (c.row a).protocol_id s in
    let k = stop_helper_keeps c (c.row a).protocol_id s in
    elim (Bool-cases (
      ltb (c.row p).priority (c.row a).priority
      || (s.runtime a).session_control == default_session)) [
        | inl y ↦ elim (Bool-cases h.1) [
          | inl z ↦ elim (Bool-cases (is_not_in_use (h.0.runtime a).external_tx_buffer_status)) [
            | inl w ↦
                rw (y, z, w)
                  (elim (take_over-Activates c p a h.0) [
                    | inl e ↦ inr (
                      e,
                      record {
                        ranked = ranked_of c p a s y;
                        idle =
                            sym (ap (λ f. (f a).external_tx_buffer_status) k.1)
                            ∙ not_in_use_of (h.0.runtime a).external_tx_buffer_status w;
                      },
                    )
                    | inr e ↦ inl (e ∙ k.0)
                  ])
            | inr w ↦ rw (y, z, w) (inl k.0)
          ]
          | inr z ↦ rw (y, z) (inl k.0)
        ]
        | inr n ↦ rw n (
            inl (
              make_available_active (c.row p).rx_buffer (
                set_runtime p (record (s.runtime p) { external_rx_buffer_status = not_in_use }) s)))
      ]

acquire_protocol-Preempts :
    (c : DslConfig) (p a id : ℕ) (s : Dsl)
    → s.active ≡ some a
    → Preempts c p a s (acquire_protocol c p id s)
unfolding acquire_protocol
acquire_protocol-Preempts c p a id s e = elim (Bool-cases (s.runtime p).protocol_started) [
  | inl y ↦ rw y (inl refl)
  | inr n ↦ rw n (
      subst (λ o. Preempts c p a s (acquire_protocol_of c p id o s)) (sym e)
        (preempt-Preempts c p a id s))
]

hand_over_type2_active :
    (c : DslConfig) (rx : ProtocolRx) (t : Option PeriodicTransmission) (tx_id id : ℕ)
    (internal startup : Bool) (s : Dsl)
    → (hand_over_type2 c rx t tx_id id internal startup s).active ≡ s.active
hand_over_type2_active c rx none tx_id id internal startup s = refl
hand_over_type2_active c rx (some t) tx_id id internal startup s = refl

hand_over_active :
    (c : DslConfig) (rx : ProtocolRx) (type2 : Option ℕ) (id : ℕ) (internal startup : Bool)
    (s : Dsl)
    → (hand_over c rx type2 id internal startup s).active ≡ s.active
unfolding hand_over
hand_over_active c rx none id internal startup s = refl
hand_over_active c rx (some tx_id) id internal startup s =
    hand_over_type2_active c rx rx.main_connection.periodic_transmission tx_id id internal startup s

process_request_active :
    (c : DslConfig) (rx : ProtocolRx) (type2 : Option ℕ) (id : ℕ) (internal startup : Bool)
    (s : Dsl)
    → (process_request c rx type2 id internal startup s).active
      ≡ (acquire_protocol c rx.main_connection.protocol id s).active
unfolding process_request
process_request_active c rx type2 id internal startup s =
    let p = rx.main_connection.protocol in
    let s1 = acquire_protocol c p id s in
    let s2 = enter_com_m c p (some rx) s1 in
    elim (Bool-cases (s1.runtime p).protocol_started) [
      | inl y ↦ elim (Bool-cases (in_default_session p s1)) [
        | inl z ↦
            rw (y, z)
              (hand_over_active c rx type2 id internal startup s2
                ∙ enter_com_m_active c p (some rx) s1)
        | inr z ↦ rw (y, z) (hand_over_active c rx type2 id internal startup s1)
      ]
      | inr n ↦ rw n
    ]

-- A request of a protocol, while another protocol is active, leaves that protocol active, unless that
-- one is of lower priority or in its default session, and has no response under way; then the protocol
-- of the request may become the active one, and no third one does.
pub process_request-Preempts :
    (c : DslConfig) (rx : ProtocolRx) (type2 : Option ℕ) (id a : ℕ) (internal startup : Bool)
    (s : Dsl)
    → s.active ≡ some a
    → Preempts c rx.main_connection.protocol a s (process_request c rx type2 id internal startup s)
process_request-Preempts c rx type2 id a internal startup s e =
    let q = process_request_active c rx type2 id internal startup s in
    elim (acquire_protocol-Preempts c rx.main_connection.protocol a id s e) [
      | inl same ↦ inl (q ∙ same)
      | inr (taken, g) ↦ inr (q ∙ taken, g)
    ]
