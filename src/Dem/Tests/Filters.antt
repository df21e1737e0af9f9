-- ===== src/Dem/Tests/Filters.antt =====
-- Reading two DTCs through a filter: the first belongs to an event of primary memory, the second to
-- one of secondary memory. The groups of a table.
use plug_and_play_autosar.Common.{
  true, false, suc, ◌≡◌, refl, none, some, List, [], ◌∷◌, ◌++◌, map, length, arith, zero_byte,
}
use plug_and_play_autosar.Dem.Types.{
  primary_memory, secondary_memory, uds_format, all_dtcs, DtcClass, EventParameter, EventStatusRec,
  test_failed,
}
use plug_and_play_autosar.Dem.State.{Dem, lookup_event_status_rec}
use plug_and_play_autosar.Common.{◌≤◌, ◌<◌, ◌↔◌}
use plug_and_play_autosar.Dem.State.{Config}
use plug_and_play_autosar.Dem.Dtc.Groups.{check_class_group_bounds}
use plug_and_play_autosar.Dem.Dtc.{
  check_class_group, dtc_is_group, find_group, dtc_is_available, event_has_dtc_on_format,
}
use plug_and_play_autosar.Dem.Filter.{
  Filter, filter_no, match_dtc_with_dtc_filter, passes_filter, get_dtc_uds_status, add_events,
  add_event, check_dtc_origin, check_dtc_status_mask, combine_bits, dem_get_number_of_filtered_dtc,
}
use plug_and_play_autosar.Dem.Filter.Reads.{filtered, read_filtered, filtered_dtcs_read}
use plug_and_play_autosar.Dem.Tests.{config, full, record_of, first_event, third_event, dtc_class}

abbrev failing : EventStatusRec
failing = record (record_of 1) { event_param_ref = some first_event; status = test_failed }

abbrev elsewhere : EventParameter
elsewhere = record third_event {
  event_class = record (third_event.event_class) { event_destination = secondary_memory };
}

abbrev two_events : Dem
two_events = record full {
  event_status_buffer =
      failing
      ∷ record (record_of 2) { event_param_ref = some elsewhere; status = test_failed }
      ∷ [];
}

abbrev table : List DtcClass
table = dtc_class 0x100 ∷ record (dtc_class 0x200) { events = 2 ∷ [] } ∷ []

abbrev primary_filter : Filter
primary_filter = record {
  dtc_status_mask = test_failed;
  dtc_kind = all_dtcs;
  dtc_origin = primary_memory;
  filter_with_severity = filter_no;
  dtc_severity_mask = zero_byte;
  filter_for_fault_detection_counter = filter_no;
  dtc_index = 0;
  dtc_format = uds_format;
}

one_matches : filtered config two_events primary_filter table ≡ (0x100, test_failed) ∷ []
unfolding match_dtc_with_dtc_filter passes_filter get_dtc_uds_status add_events add_event
    check_dtc_origin check_dtc_status_mask combine_bits dtc_is_available event_has_dtc_on_format
    lookup_event_status_rec
one_matches = refl

filtered_dtcs_read_example :
    let xs = filtered config two_events primary_filter table in
    (dem_get_number_of_filtered_dtc config table two_events primary_filter ≡ some (length xs))
    × (read_filtered config two_events table (suc (length xs)) primary_filter
        ≡ (map (λ x. some x) xs ++ (none ∷ []), primary_filter))
filtered_dtcs_read_example =
    filtered_dtcs_read config two_events table (omega arith) primary_filter refl refl

-- The groups from 0x100 and from 0x200 on, and the end mark.
abbrev grouped : Config
grouped = record config { group_dtcs = 0x100 ∷ 0x200 ∷ 0x300 ∷ [] }

check_class_group_bounds_example :
    (check_class_group grouped 0x100 (dtc_class 0x1FE) uds_format ≡ true)
    ↔ ((0x100 ≤ 0x1FE) × (suc 0x1FE < 0x200))
check_class_group_bounds_example =
    check_class_group_bounds grouped (dtc_class 0x1FE) 0 0x100 0x200
      (omega arith, (omega arith, tt)) refl refl (omega arith) (λ e. ground arith)
      (λ e. ground arith) refl (λ e. ground arith)

last_in_no_group : check_class_group grouped 0x100 (dtc_class 0x1FF) uds_format ≡ false
unfolding check_class_group dtc_is_group find_group dtc_is_available event_has_dtc_on_format
last_in_no_group = refl
