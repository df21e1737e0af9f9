-- ===== src/Dem/Cycle/Aging.antt =====
-- Aging: a confirmed event that passes in enough aging cycles is healed, and leaves event memory.
use plug_and_play_autosar.Common.{
  ℕ, zero, suc, ◌+◌, ◌≤◌, ◌<◌, ◌≡◌, refl, ap, ◌∙◌, ◌≢◌, inl, inr, Bool, true, false, not, ◌||◌,
  none, some, List, arith, Bool-cases, if◌then◌else◌, leb, ◌==◌, Byte,
}
use plug_and_play_autosar.Dem.Types.{
  EventStatusRec, EventParameter, CycleState, Origin, primary_memory, secondary_memory,
}
use plug_and_play_autosar.Dem.Status.{
  heal_status, update_event_on_passed, start_aging_cycle, passed_bits, operation_cycle_is_started,
}
use plug_and_play_autosar.Dem.State.{
  Config, Dem, entries_of, notify_event_data_changed, notify_event_status_change,
}
use plug_and_play_autosar.Dem.Memory.{find_entry, delete_event_mem}
use plug_and_play_autosar.Dem.Memory.Entries.{IsUnique}
use plug_and_play_autosar.Dem.Memory.Store.{
  SameEntries, delete_event_mem_deletes, notify_event_data_changed_same,
  set_event_block_changed_same,
}
use plug_and_play_autosar.Dem.Cycle.{
  age_record, age_event, reached, delete_from, delete_dtc_data, finish_aging, write_entry_at,
}
use plug_and_play_autosar.Dem.Event.{notify_changed}

-- An aging cycle from its start to its end, in which the event passes once and does not fail.
abbrev pub passed_in_cycle : List CycleState → EventParameter → EventStatusRec → EventStatusRec
passed_in_cycle cs p r = update_event_on_passed cs p (start_aging_cycle r)

-- `n` such aging cycles in a row, each with the aging at its end.
abbrev pub passing_cycles : List CycleState → EventParameter → ℕ → EventStatusRec → EventStatusRec
passing_cycles cs p zero r = r
passing_cycles cs p (suc n) r = (age_record p (passed_in_cycle cs p (passing_cycles cs p n r))).0

module _ (cs : List CycleState) (p : EventParameter) (t : ℕ)
    (runs : operation_cycle_is_started cs p.event_class.aging_cycle ≡ true)
    (threshold : p.event_class.aging_cycle_counter_threshold ≡ some t) (fits : t ≤ 255) where
  reached_lem : (n : ℕ) → reached p.event_class.aging_cycle_counter_threshold n ≡ leb t n
  reached_lem n = rw threshold refl

  ages_below :
      (r : EventStatusRec)
      → r.status.b3 ≡ true
      → suc r.aging_counter < t
      → let (r', counted, healed) = age_record p (passed_in_cycle cs p r) in
        (r'.aging_counter ≡ suc r.aging_counter) × (r'.status.b3 ≡ true) × (healed ≡ false)
  unfolding age_record update_event_on_passed start_aging_cycle passed_bits
  ages_below r b h = ground (arith, reached_lem (r.aging_counter + 1), b, runs)

  heals_at :
      (r : EventStatusRec)
      → r.status.b3 ≡ true
      → suc r.aging_counter ≡ t
      → let (r', counted, healed) = age_record p (passed_in_cycle cs p r) in
        (r'.status.b3 ≡ false)
        × (r'.status.b2 ≡ false)
        × (r'.aging_counter ≡ 0)
        × (r'.failure_counter ≡ 0)
        × (healed ≡ true)
  unfolding age_record heal_status update_event_on_passed start_aging_cycle passed_bits
  heals_at r b h = ground (arith, reached_lem (r.aging_counter + 1), b, runs)

  passing_cycles_below :
      (n : ℕ) (r : EventStatusRec)
      → r.status.b3 ≡ true
      → r.aging_counter ≡ 0
      → n < t
      → let r' = passing_cycles cs p n r in (r'.aging_counter ≡ n) × (r'.status.b3 ≡ true)
  passing_cycles_below zero r b z h = (z, b)
  passing_cycles_below (suc n) r b z h =
      let (count, confirmed) = passing_cycles_below n r b z (omega arith) in
      let (next, still, unhealed) = ages_below (passing_cycles cs p n r) confirmed (omega arith) in
      (next ∙ ap suc count, still)

  -- A confirmed event whose aging counter is 0 and that passes in one aging cycle after the other,
  -- each started and run to its end, without failing, stays confirmed for as many cycles as are below the threshold and counts them.
  -- In the cycle that makes up the threshold, and in none before, it is healed: the confirmed bit and
  -- the aging counter are cleared. The threshold is configured and fits the counter.
  pub passing_cycles_heal :
      (n : ℕ) (r : EventStatusRec)
      → r.status.b3 ≡ true
      → r.aging_counter ≡ 0
      → n < t
      → let r' = passing_cycles cs p n r in
        let (r'', counted, healed) = age_record p (passed_in_cycle cs p r') in
        (r'.aging_counter ≡ n)
        × (r'.status.b3 ≡ true)
        × (healed ≡ (suc n == t))
        × (r''.status.b3 ≡ not (suc n == t))
        × (r''.aging_counter ≡ (if suc n == t then 0 else suc n))
  passing_cycles_heal n r b z h =
      let (count, confirmed) = passing_cycles_below n r b z h in
      elim (Bool-cases (suc n == t)) [
        | inl y ↦
            (let (cleared, pending, counter, failures, healed) =
                heals_at (passing_cycles cs p n r) confirmed (ground arith) in
              (count, confirmed, rw y healed, rw y cleared, rw y counter))
        | inr other ↦
            (let (next, still, unhealed) =
                ages_below (passing_cycles cs p n r) confirmed (ground arith) in
              (count, confirmed, rw other unhealed, rw other still, rw other (next ∙ ap suc count)))
      ]

delete_memory_lem :
    (o : Origin) (c : Config) (p : EventParameter) (k : ℕ) (d : Dem)
    → IsUnique (entries_of o d)
    → p.event_id ≢ 0
    → find_entry p.event_id (entries_of o d) ≡ some k
    → let (deleted, d') = delete_event_mem c p o d in
      (deleted ≡ true) × (find_entry p.event_id (entries_of o d') ≡ none)
delete_memory_lem o c p k d u n h =
    let (gone, unique, absent) = delete_event_mem_deletes c p o d u n in
    (
      elim (Bool-cases (delete_event_mem c p o d).0) [
        | inl y ↦ y
        | inr f ↦ absurd (ground (arith, absent.0 f, h))
      ],
      gone,
    )

delete_from_lem :
    (o : Origin) (c : Config) (p : EventParameter) (k : ℕ) (d : Dem)
    → IsUnique (entries_of o d)
    → p.event_id ≢ 0
    → find_entry p.event_id (entries_of o d) ≡ some k
    → let (deleted, found, d') = delete_from o c p false d in
      (deleted ≡ true) × (find_entry p.event_id (entries_of o d') ≡ none)
unfolding delete_from find_entry
delete_from_lem primary_memory c p k d u n h = delete_memory_lem primary_memory c p k d u n h
delete_from_lem secondary_memory c p k d u n h = delete_memory_lem secondary_memory c p k d u n h
delete_from_lem Origin.not_used c p k d u n h = absurd (ground arith)
delete_from_lem Origin.mirror_memory c p k d u n h = absurd (ground arith)
delete_from_lem Origin.permanent_memory c p k d u n h = absurd (ground arith)

finish_aging_same :
    (updated deleted : Bool) (c : Config) (p : EventParameter) (r : EventStatusRec) (d : Dem)
    → deleted ≡ true
    → SameEntries d (finish_aging updated deleted c p r d)
finish_aging_same updated true c p r d h = λ o.
    set_event_block_changed_same c p.event_class.event_destination false
      (notify_event_data_changed p d) o
    ∙ notify_event_data_changed_same p d o
finish_aging_same updated false c p r d h = absurd (ground arith)

pub notify_changed_same :
    (old : Byte) (r : EventStatusRec) (d : Dem) → SameEntries d (notify_changed old r d)
unfolding notify_event_status_change
notify_changed_same old r d o = ground arith

pub write_entry_at_same :
    (i : ℕ) (r : EventStatusRec) (d : Dem) → SameEntries d (write_entry_at i r d)
write_entry_at_same i r d o = ground arith

-- A stored event that is healed at the end of an aging cycle is deleted from its event memory. The
-- memory holds no event twice, and the event has an id.
pub age_event_deletes :
    (c : Config) (p : EventParameter) (i k : ℕ) (r : EventStatusRec) (d : Dem)
    → IsUnique (entries_of p.event_class.event_destination d)
    → p.event_id ≢ 0
    → find_entry p.event_id (entries_of p.event_class.event_destination d) ≡ some k
    → (age_record p r).2 ≡ true
    → find_entry p.event_id (entries_of p.event_class.event_destination (age_event c p i r d).1)
      ≡ none
unfolding age_event delete_dtc_data
age_event_deletes c p i k r d u n h healed =
    let o = p.event_class.event_destination in
    let (r1, counted, heals) = age_record p r in
    let d0 = write_entry_at i r1 d in
    let same0 = write_entry_at_same i r1 d o in
    let (deleted, gone) = delete_from_lem o c p k d0 (rw same0 u) n (rw same0 h) in
    let d1 = (delete_from o c p false d0).2 in
    let b = (delete_from o c p false d0).0 in
    rw (healed, age_event)
      (rw
        (
          finish_aging_same (counted || b) b c p r1 (notify_changed r.status r1 d1) deleted o,
          notify_changed_same r.status r1 d1 o,
        )
        gone)
