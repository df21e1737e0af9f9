-- ===== src/Dem/Status/Confirmation.antt =====
-- Fault confirmation counts failing failure cycles.
use plug_and_play_autosar.Common.{
  ℕ, zero, suc, ◌≤◌, ◌<◌, ◌≡◌, ◌↔◌, true, false, ◌||◌, List, arith, ltb, leb, ◌==◌, if◌then◌else◌,
}
use Prim.Native.Nat.{min}
use plug_and_play_autosar.Dem.Types.{CycleState, EventParameter, EventStatusRec}
use plug_and_play_autosar.Dem.Status.{
  AgingCounterClear, operation_cycle_is_started, start_failure_cycle, update_event_on_failed,
  handle_fault_confirmation, count_failure, fault_confirmation_criteria_fulfilled,
  failure_cycle_is_started, count_occurrence, handle_aging_counter_on_failed, failed_bits,
  operation_cycle_id_endmark,
}

-- `n` failure cycles in a row, in each of which the test fails.
abbrev pub failing_cycles :
    AgingCounterClear → List CycleState → EventParameter → ℕ → EventStatusRec → EventStatusRec
failing_cycles a cs p zero r = r
failing_cycles a cs p (suc n) r =
    update_event_on_failed a cs p (start_failure_cycle (failing_cycles a cs p n r))

module _ (a : AgingCounterClear) (cs : List CycleState) (p : EventParameter)
    (running : operation_cycle_is_started cs p.event_class.failure_cycle ≡ true) where
  not_endmark : (p.event_class.failure_cycle == operation_cycle_id_endmark) ≡ false
  unfolding operation_cycle_is_started
  not_endmark = ground arith

  fail_once :
      (r : EventStatusRec)
      → let r' = update_event_on_failed a cs p (start_failure_cycle r) in
        (r'.failure_counter
          ≡ (if ltb r.failure_counter 255 then suc r.failure_counter else r.failure_counter))
        × (r'.status.b3
            ≡ (leb p.event_class.failure_cycle_counter_threshold r'.failure_counter || r.status.b3))
  unfolding update_event_on_failed start_failure_cycle handle_fault_confirmation count_failure
      fault_confirmation_criteria_fulfilled failure_cycle_is_started count_occurrence
      handle_aging_counter_on_failed failed_bits
  fail_once r = ground (arith, not_endmark)

  failing_cycles_lem :
      (n : ℕ) (r : EventStatusRec)
      → r.failure_counter ≡ 0
      → r.status.b3 ≡ false
      → 0 < p.event_class.failure_cycle_counter_threshold
      → p.event_class.failure_cycle_counter_threshold ≤ 255
      → let r' = failing_cycles a cs p n r in
        (r'.failure_counter ≡ min n 255)
        × (r'.status.b3 ≡ leb p.event_class.failure_cycle_counter_threshold n)
  failing_cycles_lem zero r c b t u = ground arith
  failing_cycles_lem (suc n) r c b t u =
      ground (arith, failing_cycles_lem n r c b t u, fail_once (failing_cycles a cs p n r))

  -- A fault is confirmed by exactly as many failing failure cycles in a row as the threshold says:
  -- not by fewer, and by every further one. The failure counter counts them up to 255.
  pub failing_cycles_confirm :
      (n : ℕ) (r : EventStatusRec)
      → r.failure_counter ≡ 0
      → r.status.b3 ≡ false
      → 0 < p.event_class.failure_cycle_counter_threshold
      → p.event_class.failure_cycle_counter_threshold ≤ 255
      → let r' = failing_cycles a cs p n r in
        (r'.failure_counter ≡ min n 255)
        × ((r'.status.b3 ≡ true) ↔ (p.event_class.failure_cycle_counter_threshold ≤ n))
  failing_cycles_confirm n r c b t u = let l = failing_cycles_lem n r c b t u in (l.0, ground arith)
