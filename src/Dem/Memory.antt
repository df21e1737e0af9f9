-- ===== src/Dem/Memory.antt =====
-- Event memory, dem/src/impl/Dem_Private_impl.c: storing an event with displacement of a less
-- significant one, deletion, the overflow indication and the time stamps.
-- The status record that is stored is passed by value: it is that of another event than the
-- displaced one, whose id is in the buffer.
pub mod Entries
pub mod Store
pub mod Displacement
pub mod Rearrange
pub mod Frame
pub mod Unique
use plug_and_play_autosar.Common.{
  ℕ, zero, suc, ◌+◌, ◌-◌, ◌%◌, ◌^◌, length, ◌≡◌, Bool, true, false, ◌&&◌, ◌||◌, Option, none, some,
  List, [], ◌∷◌, leb, ltb, ◌==◌, if◌then◌else◌, get_elem?, set, Byte, zero_byte, bor, band,
  non_zero, eq_byte, not,
}
use plug_and_play_autosar.Dem.Types.{
  StdReturn, e_ok, e_not_ok, Origin, primary_memory, secondary_memory, CycleState, DemState,
  initialized, EventParameter, EventStatusRec, EventRec, EventMemory, test_failed, confirmed_dtc,
  test_not_completed_this_operation_cycle,
}
use plug_and_play_autosar.Dem.Status.{displace_status}
use plug_and_play_autosar.Dem.State.{
  Config, Dem, lookup_event_status_rec, lookup_event_id_parameter, write_event_status_rec,
  get_event_status_rec, notify_event_status_change, notify_event_data_changed,
  set_event_block_changed, entries_of, with_entries,
}

-- DEM_MAX_TIMESTAMP_FOR_REARRANGEMENT, UINT32_MAX
abbrev pub max_timestamp_for_rearrangement : ℕ
max_timestamp_for_rearrangement = 0xFFFFFFFF

-- NO_DTC_DISABLED
abbrev pub no_dtc_disabled : ℕ
no_dtc_disabled = 0xFFFFFFFF

-- DEM_NO_DTC
abbrev pub no_dtc : ℕ
no_dtc = 0

abbrev pub is_initialized : DemState → Bool
is_initialized initialized = true
is_initialized _ = false

-- An entry after memset with 0.
abbrev pub empty_entry : EventRec
empty_entry = record {
  time_stamp = 0;
  event_id = 0;
  occurrence = 0;
  status = zero_byte;
  failure_counter = 0;
  aging_counter = 0;
}

-- The first position that holds `id`.
unfoldable pub find_entry : ℕ → List EventRec → Option ℕ
find_entry id [] = none
find_entry id (e ∷ es) =
    if e.event_id == id
    then some 0
    else elim (find_entry id es) [ none ↦ none | some i ↦ some (suc i) ]

unfoldable pub get_event_priority : Config → ℕ → ℕ
get_event_priority c id = elim (lookup_event_id_parameter c id) [
  | none ↦ 0xFF
  | some p ↦ p.event_class.event_priority
]

unfoldable pub get_event_passive : Config → Dem → ℕ → Bool
get_event_passive c d id = elim (get_event_status_rec c d id) [
  | none ↦ false
  | some r ↦
      let passive =
        if c.test_failed_storage
        then not (non_zero (band test_failed r.status))
        else not
            (non_zero (band (bor test_failed test_not_completed_this_operation_cycle) r.status)) in
      if c.treat_confirmed_events_as_active
      then (if non_zero (band confirmed_dtc r.status) then false else passive)
      else passive
]

abbrev pub eq_origin : Origin → Origin → Bool
eq_origin Origin.not_used Origin.not_used = true
eq_origin primary_memory primary_memory = true
eq_origin Origin.mirror_memory Origin.mirror_memory = true
eq_origin Origin.permanent_memory Origin.permanent_memory = true
eq_origin secondary_memory secondary_memory = true
eq_origin _ _ = false

unfoldable pub event_dtc_record_data_update_disabled : Dem → Option EventParameter → Bool
event_dtc_record_data_update_disabled d none = false
event_dtc_record_data_update_disabled d (some p) = elim p.dtc_class [
  | none ↦ false
  | some k ↦
      not (d.dtc_record_disabled == no_dtc_disabled)
      && (not (k.dtc_ref.uds_dtc == no_dtc)
          && (d.dtc_record_disabled == k.dtc_ref.uds_dtc
              && eq_origin d.dtc_record_disabled_origin p.event_class.event_destination))
]

-- The locals of getEventForDisplacement.
pub record Candidate : Type 0 where
  pub remove_candidate_index : ℕ
  pub oldest_passive_time_stamp : ℕ
  pub oldest_active_time_stamp : ℕ
  pub passive_candidate_found : Bool
  pub active_candidate_found : Bool

-- The tests of the loop that do not depend on the locals. OBD displacement support is off.
unfoldable pub may_remove : Config → Dem → EventRec → Bool
may_remove c d e =
    not (e.event_id == 0)
    && not (
        not (d.dtc_record_disabled == no_dtc_disabled)
        && event_dtc_record_data_update_disabled d (lookup_event_id_parameter c e.event_id))

-- One round of the loop of getEventForDisplacement, for the entry `e` at the index `i`.
unfoldable pub consider : Config → Dem → EventParameter → EventRec → ℕ → Candidate → Candidate
consider c d p e i k =
    if may_remove c d e
    then (let prio = get_event_priority c e.event_id in
        let passive = get_event_passive c d e.event_id in
        let k1 =
          if leb p.event_class.event_priority prio
            && (passive && ltb e.time_stamp k.oldest_passive_time_stamp)
          then record k {
            oldest_passive_time_stamp = e.time_stamp;
            remove_candidate_index = i;
            passive_candidate_found = true;
          }
          else k in
        if not k1.passive_candidate_found
          && (ltb p.event_class.event_priority prio && ltb e.time_stamp k1.oldest_active_time_stamp)
        then record k1 {
          oldest_active_time_stamp = e.time_stamp;
          remove_candidate_index = i;
          active_candidate_found = true;
        }
        else k1)
    else k

-- The rounds from the index `i` on.
unfoldable pub search_candidate :
    Config → Dem → EventParameter → List EventRec → ℕ → Candidate → Candidate
search_candidate c d p [] i k = k
search_candidate c d p (e ∷ es) i k = search_candidate c d p es (suc i) (consider c d p e i k)

abbrev pub no_candidate : Candidate
no_candidate = record {
  remove_candidate_index = 0;
  oldest_passive_time_stamp = max_timestamp_for_rearrangement;
  oldest_active_time_stamp = max_timestamp_for_rearrangement;
  passive_candidate_found = false;
  active_candidate_found = false;
}

-- *eventToRemove after the loop.
abbrev pub chosen_event : Bool → List EventRec → ℕ → Option ℕ
chosen_event true es i = elim (get_elem? es i) [ none ↦ none | some e ↦ some e.event_id ]
chosen_event false es i = none

-- getEventForDisplacement: `some` of *eventToRemove where it returns E_OK.
unfoldable pub get_event_for_displacement : Config → Dem → EventParameter → List EventRec → Option ℕ
get_event_for_displacement c d p es =
    let k = search_candidate c d p es 0 no_candidate in
    chosen_event (k.passive_candidate_found || k.active_candidate_found) es k.remove_candidate_index

-- The status record of a displaced event, with the notification.
unfoldable pub reset_displaced : Config → EventParameter → Dem → Dem
reset_displaced c p d = elim (lookup_event_status_rec c d p.event_id) [
  | none ↦ d
  | some r ↦
      let r' = displace_status r in
      let d1 = write_event_status_rec p.event_id r' d in
      if eq_byte r.status r'.status
      then d1
      else notify_event_status_change (some p) r.status r'.status d1
]

abbrev pub clear_entry : Origin → Option ℕ → Dem → Dem
clear_entry origin none d = d
clear_entry origin (some i) d = with_entries origin (set (entries_of origin d) i empty_entry) d

-- findAndDisplaceEvent: the freed position, if the event was in the buffer.
unfoldable pub find_and_displace_event : Config → EventParameter → Origin → Dem → Option ℕ × Dem
find_and_displace_event c p origin d =
    let found = find_entry p.event_id (entries_of origin d) in
    (found, notify_event_data_changed p (reset_displaced c p (clear_entry origin found d)))

-- lookupEventForDisplacement: the freed position where it returns E_OK.
unfoldable pub lookup_event_for_displacement :
    Config → EventParameter → Origin → Dem → Option ℕ × Dem
lookup_event_for_displacement c p origin d =
    elim (get_event_for_displacement c d p (entries_of origin d)) [
      | none ↦ (none, d)
      | some id ↦ if id == 0 then (none, d) else elim (lookup_event_id_parameter c id) [
        | none ↦ (none, d)
        | some q ↦ find_and_displace_event c q origin d
      ]
    ]

-- ADMIN_MAGIC
abbrev pub admin_magic_value : ℕ
admin_magic_value = 0xBABE

abbrev differs : Bool → Bool → Bool
differs true b = not b
differs false b = b

abbrev write_overflow : Bool → EventMemory → EventMemory
write_overflow o m = record m {
  overflow = o;
  admin_magic = if differs m.admin_overflow o then admin_magic_value else m.admin_magic;
  admin_overflow = o;
}

-- setOverflowIndication
unfoldable pub set_overflow_indication : Config → Origin → Bool → Dem → Dem
set_overflow_indication c primary_memory o d =
    let d1 = record d { primary = write_overflow o d.primary } in
    if differs d.primary.admin_overflow o
    then set_event_block_changed c primary_memory false d1
    else d1
set_overflow_indication c secondary_memory o d =
    let d1 = record d { secondary = write_overflow o d.secondary } in
    if differs d.secondary.admin_overflow o
    then set_event_block_changed c secondary_memory false d1
    else d1
set_overflow_indication c _ o d = d

-- getOverflowIndication: `some` of *Overflow where it returns E_OK.
unfoldable pub get_overflow_indication : Origin → Dem → Option Bool
get_overflow_indication primary_memory d = some d.primary.overflow
get_overflow_indication secondary_memory d = some d.secondary.overflow
get_overflow_indication _ d = none

abbrev indicate_failure : Config → EventParameter → Option ℕ → Dem → Option ℕ × Dem
indicate_failure c p none d =
    (none, set_overflow_indication c p.event_class.event_destination true d)
indicate_failure c p (some i) d = (some i, d)

-- The two sides of `#if (DEM_EVENT_DISPLACEMENT_SUPPORT == STD_ON)` in storeEventMem.
unfoldable pub displace_or_fail : Bool → Config → EventParameter → Origin → Dem → Option ℕ × Dem
displace_or_fail true c p origin d =
    let (found, d1) = lookup_event_for_displacement c p origin d in indicate_failure c p found d1
displace_or_fail false c p origin d =
    (none, set_overflow_indication c p.event_class.event_destination true d)

-- The position that storeEventMem writes to: the entry of the event, a free one, or one freed by
-- displacement. Without any, the overflow is indicated.
unfoldable pub allocate_entry : Config → EventParameter → ℕ → Origin → Dem → Option ℕ × Dem
allocate_entry c p id origin d = elim (find_entry id (entries_of origin d)) [
  | some i ↦ (some i, d)
  | none ↦ elim (find_entry 0 (entries_of origin d)) [
    | some i ↦ (some i, d)
    | none ↦ displace_or_fail c.event_displacement_support c p origin d
  ]
]

abbrev pub entry_of : EventStatusRec → EventRec
entry_of r = record {
  time_stamp = r.time_stamp;
  event_id = r.event_id;
  occurrence = r.occurrence;
  status = r.status;
  failure_counter = r.failure_counter;
  aging_counter = r.aging_counter;
}

abbrev has_immediate_storage : EventParameter → Bool
has_immediate_storage p = elim p.dtc_class [
  | none ↦ false
  | some k ↦ k.dtc_ref.immediate_nv_storage
]

unfoldable pub immediate_storage : Config → EventParameter → EventStatusRec → Bool → Bool
immediate_storage c p r failed_now =
    c.use_immediate_nv_storage
    && (failed_now && (has_immediate_storage p && leb r.occurrence c.immediate_nv_storage_limit))

-- The writes of storeEventMem to the entry at the position found.
unfoldable pub write_entry :
    Config → EventParameter → EventStatusRec → Origin → Bool → Option ℕ → Dem → StdReturn × Dem
write_entry c p r origin failed_now none d = (e_not_ok, d)
write_entry c p r origin failed_now (some i) d = (
  e_ok,
  set_event_block_changed c origin (immediate_storage c p r failed_now)
      (with_entries origin (set (entries_of origin d) i (entry_of r)) d),
)

-- storeEventMem
unfoldable pub store_event_mem :
    Config → EventParameter → EventStatusRec → Origin → Bool → Dem → StdReturn × Dem
store_event_mem c p r origin failed_now d =
    let (found, d1) = allocate_entry c p r.event_id origin d in
    write_entry c p r origin failed_now found d1

-- The `switch` of storeEventEvtMem.
unfoldable pub store_in :
    Origin → Config → EventParameter → EventStatusRec → Bool → Dem → StdReturn × Dem
store_in primary_memory c p r failed_now d = store_event_mem c p r primary_memory failed_now d
store_in secondary_memory c p r failed_now d = store_event_mem c p r secondary_memory failed_now d
store_in _ c p r failed_now d = (e_not_ok, d)

-- storeEventEvtMem
unfoldable pub store_event_evt_mem :
    Config → EventParameter → EventStatusRec → Bool → Dem → StdReturn × Dem
store_event_evt_mem c p r failed_now d = store_in p.event_class.event_destination c p r failed_now d

-- deleteEventMem
unfoldable pub delete_event_mem : Config → EventParameter → Origin → Dem → Bool × Dem
delete_event_mem c p origin d = elim (find_entry p.event_id (entries_of origin d)) [
  | none ↦ (false, d)
  | some i ↦ (
    true,
    set_event_block_changed c origin false
        (with_entries origin (set (entries_of origin d) i empty_entry) d),
  )
]

-- isInEventMemory
unfoldable pub is_in_event_memory : EventParameter → Dem → Bool
is_in_event_memory p d =
    elim (find_entry p.event_id (entries_of p.event_class.event_destination d)) [
      | none ↦ false
      | some i ↦ true
    ]

-- The inner loop of rearrangeEventTimeStamp for the entry `x` at its position and the later ones:
-- from the last one down, an older entry changes places with it.
unfoldable pub exchange : EventRec → List EventRec → EventRec × List EventRec
exchange x [] = (x, [])
exchange x (y ∷ ys) =
    let (x1, ys1) = exchange x ys in
    if not (y.event_id == 0) && ltb y.time_stamp x1.time_stamp then (y, x1 ∷ ys1) else (x1, y ∷ ys1)

-- The outer loop on one buffer, with the number of its rounds, the entries from the round's on, and
-- the counter k.
unfoldable pub rearrange_entries : ℕ → List EventRec → ℕ → List EventRec × ℕ
rearrange_entries zero es k = (es, k)
rearrange_entries (suc n) [] k = ([], k)
rearrange_entries (suc n) (x ∷ es) k = elim (x.event_id == 0) [
  | true ↦ (let (rest, k1) = rearrange_entries n es k in (x ∷ rest, k1))
  | false ↦
      (let (x1, es1) = exchange x es in
        let (rest, k1) = rearrange_entries n es1 (suc k) in
        (record x1 { time_stamp = k } ∷ rest, k1))
]

-- rearrangeEventTimeStamp: both buffers, and the next time stamp.
unfoldable pub rearrange_event_time_stamp : Dem → Dem
rearrange_event_time_stamp d =
    let (es, k) = rearrange_entries (length d.primary.entries) d.primary.entries 0 in
    let (fs, k1) = rearrange_entries (length d.secondary.entries) d.secondary.entries k in
    record d {
      primary = record (d.primary) { entries = es };
      secondary = record (d.secondary) { entries = fs };
      event_time_stamp = k1;
    }

-- DEM_MAX_TIMESTAMP_FOR_PRE_INIT, UINT32_MAX / 2
abbrev pub max_timestamp_for_pre_init : ℕ
max_timestamp_for_pre_init = 0x7FFFFFFF

-- setEventTimeStamp; the time stamp is a `uint32`.
unfoldable pub set_event_time_stamp : EventStatusRec → Dem → EventStatusRec × Dem
set_event_time_stamp r d =
    if is_initialized d.dem_state
    then (let d1 =
          if leb max_timestamp_for_rearrangement d.event_time_stamp
          then rearrange_event_time_stamp d
          else d in
        (
          record r { time_stamp = d1.event_time_stamp },
          record d1 { event_time_stamp = (d1.event_time_stamp + 1) % 2 ^ 32 },
        ))
    else (
      record r { time_stamp = d.event_time_stamp },
      if ltb d.event_time_stamp max_timestamp_for_pre_init
          then record d { event_time_stamp = d.event_time_stamp + 1 }
          else d,
    )
