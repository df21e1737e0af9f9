-- ===== src/Dem/Status/Invariant.antt =====
-- The UDS status byte is consistent: what its bits say of the current cycle, of the time since the
-- last clear and of the last test agree. Every operation on a status record keeps it so.
use plug_and_play_autosar.Common.{
  ℕ, ◌+◌, ◌%◌, ◌^◌, ◌<◌, ◌≡◌, ◌∙◌, ◌⊎◌, Bool, true, false, some, List, arith, Byte,
}
use plug_and_play_autosar.Dem.Types.{CycleState, EventParameter, EventStatusRec, EventRec}
use plug_and_play_autosar.Dem.Status.{
  AgingCounterClear, failed_bits, passed_bits, cycle_start_bits, cycle_end_bits, reset_bits,
  merge_bits, update_event_on_failed, update_event_on_passed, clear_event_status,
  set_default_event_status, merge_event_status_rec, fault_confirmation_criteria_fulfilled,
  displace_status, heal_status, add_saturated, merge_confirmed, confirms,
}

-- b0 testFailed, b1 testFailedThisOperationCycle, b2 pendingDTC, b3 confirmedDTC,
-- b4 testNotCompletedSinceLastClear, b5 testFailedSinceLastClear,
-- b6 testNotCompletedThisOperationCycle
pub record IsConsistent (s : Byte) : Type 0 where
  pub failed_since_clear : s.b0 ≡ true → s.b5 ≡ true
  pub failed_this_cycle_completed : s.b1 ≡ true → s.b6 ≡ false
  pub failed_this_cycle_since_clear : s.b1 ≡ true → s.b5 ≡ true
  pub pending_since_clear : s.b2 ≡ true → s.b5 ≡ true
  pub confirmed_since_clear : s.b3 ≡ true → s.b5 ≡ true
  pub failed_completed : s.b5 ≡ true → s.b4 ≡ false
  pub completed_failed_now : s.b0 ≡ true → s.b6 ≡ false → s.b1 ≡ true
  pub completed_this_cycle : s.b6 ≡ false → s.b4 ≡ false

failed_bits-IsConsistent : (s : Byte) → IsConsistent (failed_bits s)
unfolding failed_bits
failed_bits-IsConsistent s = ground arith

passed_bits-IsConsistent : (s : Byte) → IsConsistent s → IsConsistent (passed_bits s)
unfolding passed_bits
passed_bits-IsConsistent s h = ground arith

cycle_start_bits-IsConsistent : (s : Byte) → IsConsistent s → IsConsistent (cycle_start_bits s)
unfolding cycle_start_bits
cycle_start_bits-IsConsistent s h = ground arith

cycle_end_bits-IsConsistent : (s : Byte) → IsConsistent s → IsConsistent (cycle_end_bits s)
unfolding cycle_end_bits
cycle_end_bits-IsConsistent s h = ground arith

reset_bits-IsConsistent : (s : Byte) → IsConsistent s → IsConsistent (reset_bits s)
unfolding reset_bits
reset_bits-IsConsistent s h = ground arith

merge_bits-IsConsistent :
    (e s : Byte) → IsConsistent e → IsConsistent s → IsConsistent (merge_bits e s)
unfolding merge_bits
merge_bits-IsConsistent e s h k = ground arith

-- Failures are counted only of a test that failed since the last clear.
pub record IsConsistentRec (r : EventStatusRec) : Type 0 where
  pub bits : IsConsistent r.status
  pub counted : 0 < r.failure_counter → r.status.b5 ≡ true

-- One operation on the record of an event `p`, with `stored` an entry of event memory.
pub data StatusStep (a : AgingCounterClear) (cs : List CycleState) (p : EventParameter)
    (r : EventStatusRec) : EventStatusRec → Type 0 where
  fail : StatusStep a cs p r (update_event_on_failed a cs p r)
  pass : StatusStep a cs p r (update_event_on_passed cs p r)
  start_cycle : StatusStep a cs p r (record r { status = cycle_start_bits r.status })
  end_cycle : StatusStep a cs p r (record r { status = cycle_end_bits r.status })
  forget_failures : StatusStep a cs p r (record r { failure_counter = 0 })
  reset : StatusStep a cs p r (record r { status = reset_bits r.status })
  clear : StatusStep a cs p r (clear_event_status r)
  displace : StatusStep a cs p r (displace_status r)
  heal : StatusStep a cs p r (heal_status r)
  merge :
      (storage : Bool) (stored : EventRec)
      → IsConsistent stored.status
      → (0 < stored.failure_counter → stored.status.b5 ≡ true)
      → StatusStep a cs p r (merge_event_status_rec storage (some p) stored r).0

fail-IsConsistentRec :
    (a : AgingCounterClear) (cs : List CycleState) (p : EventParameter) (r : EventStatusRec)
    → IsConsistentRec (update_event_on_failed a cs p r)
unfolding update_event_on_failed failed_bits
fail-IsConsistentRec a cs p r = record { bits = ground arith; counted = λ h. ground arith }

merge_confirmed-IsConsistent :
    (storage confirmed : Bool) (e s : Byte)
    → IsConsistent s
    → (confirmed ≡ true → s.b5 ≡ true)
    → (e.b0 ≡ true → s.b5 ≡ true)
    → IsConsistent (merge_confirmed storage confirmed e s)
unfolding merge_confirmed
merge_confirmed-IsConsistent storage confirmed e s h k l = ground arith

merge_bits_failed :
    (e s : Byte)
    → (e.b5 ≡ true → (merge_bits e s).b5 ≡ true) × (s.b5 ≡ true → (merge_bits e s).b5 ≡ true)
unfolding merge_bits
merge_bits_failed e s = ground arith

merge_confirmed_failed :
    (storage confirmed : Bool) (e s : Byte) → (merge_confirmed storage confirmed e s).b5 ≡ s.b5
unfolding merge_confirmed
merge_confirmed_failed storage confirmed e s = ground arith

add_saturated_pos : (m c : ℕ) → 0 < add_saturated 255 m c → (0 < m) ⊎ (0 < c)
unfolding add_saturated
add_saturated_pos m c h = ground arith

confirms_pos :
    (p : EventParameter) (r : EventStatusRec)
    → 0 < p.event_class.failure_cycle_counter_threshold
    → confirms (some p) r ≡ true
    → 0 < r.failure_counter
unfolding confirms fault_confirmation_criteria_fulfilled
confirms_pos p r t h = ground arith

merge-IsConsistentRec :
    (storage : Bool) (p : EventParameter) (e : EventRec) (r : EventStatusRec)
    → IsConsistent e.status
    → (0 < e.failure_counter → e.status.b5 ≡ true)
    → 0 < p.event_class.failure_cycle_counter_threshold
    → IsConsistentRec r
    → IsConsistentRec (merge_event_status_rec storage (some p) e r).0
unfolding merge_event_status_rec
merge-IsConsistentRec storage p e r he hc t h =
    let m = merge_bits e.status r.status in
    let r1 = record r {
      occurrence = (r.occurrence + e.occurrence) % 2 ^ 16;
      failure_counter = add_saturated 255 e.failure_counter r.failure_counter;
      aging_counter = add_saturated 255 e.aging_counter r.aging_counter;
      status = m;
    } in
    let failed = merge_bits_failed e.status r.status in
    let counted : (0 < r1.failure_counter → m.b5 ≡ true) = λ k.
      ground
        (arith, add_saturated_pos e.failure_counter r.failure_counter k, hc, h.counted, failed) in
    record {
      bits =
          merge_confirmed-IsConsistent storage (confirms (some p) r1) e.status m
            (merge_bits-IsConsistent e.status r.status he h.bits)
            (λ k. counted (confirms_pos p r1 t k)) (λ k. failed.0 (he.failed_since_clear k));
      counted = λ k. merge_confirmed_failed storage (confirms (some p) r1) e.status m ∙ counted k;
    }

step-IsConsistentRec :
    (a : AgingCounterClear) (cs : List CycleState) (p : EventParameter) {r r' : EventStatusRec}
    → 0 < p.event_class.failure_cycle_counter_threshold
    → StatusStep a cs p r r'
    → IsConsistentRec r
    → IsConsistentRec r'
step-IsConsistentRec a cs p t fail h = fail-IsConsistentRec a cs p _
step-IsConsistentRec a cs p t pass h =
    unfold update_event_on_passed in
    record {
      bits = passed_bits-IsConsistent _ h.bits;
      counted = λ k. unfold passed_bits in ground (arith, h.counted k);
    }
step-IsConsistentRec a cs p t start_cycle h = record {
  bits = cycle_start_bits-IsConsistent _ h.bits;
  counted = λ k. unfold cycle_start_bits in ground (arith, h.counted k);
}
step-IsConsistentRec a cs p t end_cycle h = record {
  bits = cycle_end_bits-IsConsistent _ h.bits;
  counted = λ k. unfold cycle_end_bits in ground (arith, h.counted k);
}
step-IsConsistentRec a cs p t forget_failures h = record {
  bits = h.bits;
  counted = λ k. absurd (omega arith);
}
step-IsConsistentRec a cs p t reset h = record {
  bits = reset_bits-IsConsistent _ h.bits;
  counted = λ k. unfold reset_bits in ground (arith, h.counted k);
}
step-IsConsistentRec a cs p t clear h = unfold clear_event_status in ground arith
step-IsConsistentRec a cs p t displace h = unfold displace_status in ground arith
step-IsConsistentRec a cs p t heal h = unfold heal_status in ground arith
step-IsConsistentRec a cs p t (merge storage e he hc) h =
    merge-IsConsistentRec storage p e _ he hc t h

-- A record that a sequence of operations makes of the record of an event without a report.
pub data IsReachable (a : AgingCounterClear) (cs : List CycleState) (p : EventParameter)
    (r : EventStatusRec) : EventStatusRec → Type 0 where
  unreported : IsReachable a cs p r (set_default_event_status r)
  then_step :
      {s s' : EventStatusRec}
      → IsReachable a cs p r s
      → StatusStep a cs p s s'
      → IsReachable a cs p r s'

-- Any sequence of failed and passed results, starts and ends of cycles, resets, clearings,
-- displacements, healings and merges with consistent stored entries, from the default record,
-- leaves a consistent UDS status, and a failure counter above 0 only where the test has failed
-- since the last clear. The threshold of the failure counter is not 0.
pub reachable-IsConsistentRec :
    (a : AgingCounterClear) (cs : List CycleState) (p : EventParameter) (r : EventStatusRec)
    {s : EventStatusRec}
    → 0 < p.event_class.failure_cycle_counter_threshold
    → IsReachable a cs p r s
    → IsConsistentRec s
reachable-IsConsistentRec a cs p r t unreported = unfold set_default_event_status in ground arith
reachable-IsConsistentRec a cs p r t (then_step h e) =
    step-IsConsistentRec a cs p t e (reachable-IsConsistentRec a cs p r t h)
