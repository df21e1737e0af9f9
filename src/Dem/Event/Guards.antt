-- ===== src/Dem/Event/Guards.antt =====
-- What makes handleEvent and the functions above it refuse a report.
use plug_and_play_autosar.Common.{
  ℕ, ◌≡◌, inl, inr, true, ◌&&◌, Option, none, some, arith, Bool-cases, Option-cases,
}
use plug_and_play_autosar.Dem.Types.{
  EventStatus, EventStatusRec, EventParameter, StdReturn, e_ok, e_not_ok,
}
use plug_and_play_autosar.Dem.Status.{operation_cycle_is_started}
use plug_and_play_autosar.Dem.State.{
  Config, Dem, lookup_event_status_rec, lookup_event_id_parameter,
}
use plug_and_play_autosar.Dem.Memory.{is_initialized}
use plug_and_play_autosar.Dem.Dtc.{event_processing_allowed}
use plug_and_play_autosar.Dem.Event.{
  accept, handle_accepted, handle_event, dem_set_event_status, is_valid_event_status, process_event,
}

-- The conditions under which a report is processed.
pub record Accepts (c : Config) (id : ℕ) (s : EventStatus) (d : Dem) (p : EventParameter)
    (r : EventStatusRec) : Type 0 where
  pub ready : (is_initialized d.dem_state && is_valid_event_status s) ≡ true
  pub configured : lookup_event_id_parameter c id ≡ some p
  pub recorded : lookup_event_status_rec c d id ≡ some r
  pub available : r.is_available ≡ true
  pub cycle_started :
      operation_cycle_is_started d.operation_cycle_state_list p.event_class.operation_cycle ≡ true
  pub allowed : event_processing_allowed c d p ≡ true

pub accept-some :
    (c : Config) (d : Dem) (po : Option EventParameter) (ro : Option EventStatusRec)
    (p : EventParameter) (r : EventStatusRec)
    → accept c d po ro ≡ some (p, r)
    → (po ≡ some p)
      × (ro ≡ some r)
      × (r.is_available ≡ true)
      × (operation_cycle_is_started d.operation_cycle_state_list p.event_class.operation_cycle
          ≡ true)
      × (event_processing_allowed c d p ≡ true)
unfolding accept
accept-some c d (some q) (some t) p r h = ground arith
accept-some c d none ro p r h = ground arith
accept-some c d (some q) none p r h = ground arith

-- What Dem_SetEventStatus returns and leaves: nothing happened, or the report was processed under
-- all the conditions.
pub data Guarded (c : Config) (id : ℕ) (s : EventStatus) (d : Dem) : StdReturn × Dem → Type 0 where
  refused :
      ((p : EventParameter) (r : EventStatusRec) → Accepts c id s d p r → ⊥)
      → Guarded c id s d (e_not_ok, d)
  processed :
      (p : EventParameter) (r : EventStatusRec)
      → Accepts c id s d p r
      → Guarded c id s d (e_ok, (process_event c id p r s d).1)

accept_found :
    (c : Config) (d : Dem) (p : EventParameter) (r : EventStatusRec)
    → r.is_available ≡ true
    → operation_cycle_is_started d.operation_cycle_state_list p.event_class.operation_cycle ≡ true
    → event_processing_allowed c d p ≡ true
    → accept c d (some p) (some r) ≡ some (p, r)
unfolding accept
accept_found c d p r a b e = ground arith

accept_lem :
    (c : Config) (id : ℕ) (s : EventStatus) (d : Dem) (p : EventParameter) (r : EventStatusRec)
    → Accepts c id s d p r
    → accept c d (lookup_event_id_parameter c id) (lookup_event_status_rec c d id) ≡ some (p, r)
unfolding accept
accept_lem c id s d p r a =
    rw (a.configured, a.recorded) (accept_found c d p r a.available a.cycle_started a.allowed)

-- Dem_SetEventStatus returns E_OK and processes the report exactly where the event manager is
-- initialized, the reported status is a valid one, the event is configured, has a record and is
-- available, its operation cycle has started, and neither a disabled DTC setting nor an enable
-- condition forbids it. Otherwise it returns E_NOT_OK and changes nothing.
pub dem_set_event_status-Guarded :
    (c : Config) (id : ℕ) (s : EventStatus) (d : Dem)
    → Guarded c id s d (dem_set_event_status c id s d)
unfolding dem_set_event_status handle_event handle_accepted
dem_set_event_status-Guarded c id s d =
    let found = accept c d (lookup_event_id_parameter c id) (lookup_event_status_rec c d id) in
    elim (Bool-cases (is_initialized d.dem_state && is_valid_event_status s)) [
      | inr n ↦
          rw (n, dem_set_event_status) (refused (λ p r a. absurd (ground (arith, a.ready, n))))
      | inl y ↦ elim (Option-cases found) [
        | inl z ↦
            rw (y, z, dem_set_event_status, handle_event, handle_accepted)
              (refused (λ p r a. absurd (ground (arith, accept_lem c id s d p r a, z))))
        | inr ((p, r), z) ↦
            (let (configured, recorded, available, cycle_started, allowed) =
                accept-some c d _ _ p r z in
              rw (y, z, dem_set_event_status, handle_event, handle_accepted)
                (processed p r (record {
                  ready = y;
                  configured = configured;
                  recorded = recorded;
                  available = available;
                  cycle_started = cycle_started;
                  allowed = allowed;
                })))
      ]
    ]
