-- ===== src/Dem/Filter.antt =====
-- The DTC filter of dem/src/impl/Dem_Filter_impl.c, with matchDTCWithDtcFilter and GetDTCUDSStatus
-- of dem/src/impl/Dem_Private_impl.c. Permanent memory and DTC suppression are off; the pointers
-- to results are not NULL.
pub mod Reads
use plug_and_play_autosar.Common.{
  ℕ, suc, ◌+◌, ◌%◌, ◌^◌, Bool, true, false, not, ◌&&◌, ◌||◌, Option, none, some, List, [], ◌∷◌, ltb,
  ◌==◌, if◌then◌else◌, length, drop, Byte, byte, zero_byte, band, bor, bnot, non_zero, eq_byte,
}
use plug_and_play_autosar.Dem.Types.{
  Origin, primary_memory, secondary_memory, permanent_memory, DtcFormat, uds_format, obd_format,
  other_format, DtcKind, all_dtcs, emission_rel_dtcs, DtcClass, EventParameter, EventStatusRec,
}
use plug_and_play_autosar.Dem.State.{Config, Dem, lookup_event_status_rec}
use plug_and_play_autosar.Dem.Memory.{no_dtc, eq_origin, is_initialized}
use plug_and_play_autosar.Dem.Dtc.{
  dtc_is_available, event_has_dtc_on_format, single_dtc_on, is_all_kind,
}

-- Dem_FilterWithSeverityType and Dem_FilterForFDCType; `other` stands for the values without a name.
pub data FilterSwitch : Type 0 where
  filter_yes filter_no filter_other : FilterSwitch

abbrev is_yes : FilterSwitch → Bool
is_yes filter_yes = true
is_yes _ = false

abbrev is_no : FilterSwitch → Bool
is_no filter_no = true
is_no _ = false

-- DtcFilterType
pub record Filter : Type 0 where
  pub dtc_status_mask : Byte
  pub dtc_kind : DtcKind
  pub dtc_origin : Origin
  pub filter_with_severity : FilterSwitch
  pub dtc_severity_mask : Byte
  pub filter_for_fault_detection_counter : FilterSwitch
  pub dtc_index : ℕ
  pub dtc_format : DtcFormat

-- DEM_DTC_STATUS_AVAILABILITY_MASK, DEM_DTC_STATUS_MASK_ALL
abbrev pub dtc_status_availability_mask : Byte
dtc_status_availability_mask = byte true true true true true true true true

abbrev pub dtc_status_mask_all : Byte
dtc_status_mask_all = zero_byte

-- The three severities, 0x20, 0x40 and 0x80.
abbrev pub severity_bits : Byte
severity_bits = byte false false false false false true true true

unfoldable pub check_dtc_status_mask : Byte → Byte → Bool
check_dtc_status_mask mask status = eq_byte dtc_status_mask_all mask || non_zero (band mask status)

abbrev is_permanent : Origin → Bool
is_permanent permanent_memory = true
is_permanent _ = false

abbrev destined_for : Origin → Option EventParameter → Bool
destined_for origin none = false
destined_for origin (some p) = eq_origin p.event_class.event_destination origin

-- checkDtcOrigin. Parameters that are NULL, which C would read, match no origin.
unfoldable pub check_dtc_origin : Origin → Option EventParameter → Bool → Bool
check_dtc_origin origin p allow_permanent =
    if allow_permanent && is_permanent origin then false else destined_for origin p

unfoldable pub check_dtc_severity_mask : Byte → DtcClass → Bool
check_dtc_severity_mask mask k = non_zero (band mask k.dtc_severity)

-- A round of the loop of GetDTCUDSStatus, on temp and nofEventsInOrigin.
unfoldable pub add_event : Origin → EventStatusRec → Byte × ℕ → Byte × ℕ
add_event origin r (temp, n) =
    if check_dtc_origin origin r.event_param_ref true && r.is_available
    then (bor r.status temp, suc n)
    else (temp, n)

-- The loop; an event without a record fails it.
unfoldable pub add_events : Config → Dem → Origin → List ℕ → Byte × ℕ → Option (Byte × ℕ)
add_events c d origin [] s = some s
add_events c d origin (id ∷ ids) s = elim (lookup_event_status_rec c d id) [
  | none ↦ none
  | some r ↦ add_events c d origin ids (add_event origin r s)
]

-- The bits of a DTC of several events: a bit of a test not completed is cleared by the test failed.
unfoldable pub combine_bits : Byte → Byte
combine_bits temp = band (bnot (byte false false false false temp.b5 false temp.b1 false)) temp

abbrev status_in_origin : DtcClass → Option (Byte × ℕ) → Option Byte
status_in_origin k none = none
status_in_origin k (some (temp, n)) =
    if n == 0 then none else some (if ltb 1 (length k.events) then combine_bits temp else temp)

-- GetDTCUDSStatus: `some` of *status where it returns DEM_STATUS_OK.
unfoldable pub get_dtc_uds_status : Config → Dem → DtcClass → Origin → Option Byte
get_dtc_uds_status c d k origin = status_in_origin k (add_events c d origin k.events (zero_byte, 0))

-- The tests of matchDTCWithDtcFilter on a DTC with that status. DTCISAvailableOnFormat is the test of
-- eventHasDTCOnFormat, on the DTC class.
unfoldable pub passes_filter : Filter → DtcClass → Byte → Bool
passes_filter f k status =
    check_dtc_status_mask f.dtc_status_mask status
    && ((is_all_kind f.dtc_kind || not (k.dtc_ref.obd_dtc == no_dtc))
        && ((is_no f.filter_with_severity
              || (is_yes f.filter_with_severity && check_dtc_severity_mask f.dtc_severity_mask k))
            && (is_no f.filter_for_fault_detection_counter
                && (dtc_is_available k && event_has_dtc_on_format k f.dtc_format))))

abbrev keep_if : (Byte → Bool) → Option Byte → Option Byte
keep_if test none = none
keep_if test (some s) = if test s then some s else none

-- matchDTCWithDtcFilter: `some` of *UDSStatus where it returns TRUE.
unfoldable pub match_dtc_with_dtc_filter : Config → Dem → Filter → DtcClass → Option Byte
match_dtc_with_dtc_filter c d f k =
    keep_if (passes_filter f k) (get_dtc_uds_status c d k f.dtc_origin)

-- Dem_ReturnSetFilterType; the code of E_NOT_OK is that of DEM_WRONG_FILTER.
pub data FilterReturn : Type 0 where
  filter_accepted wrong_filter : FilterReturn

abbrev is_kind : DtcKind → Bool
is_kind all_dtcs = true
is_kind emission_rel_dtcs = true
is_kind _ = false

abbrev is_filter_origin : Origin → Bool
is_filter_origin primary_memory = true
is_filter_origin secondary_memory = true
is_filter_origin permanent_memory = true
is_filter_origin _ = false

abbrev is_valid_dtc_format : DtcFormat → Bool
is_valid_dtc_format other_format = false
is_valid_dtc_format _ = true

-- Dem_SetDTCFilter; `g` has the arguments, with any index.
unfoldable pub dem_set_dtc_filter : Filter → Dem → Filter → FilterReturn × Filter
dem_set_dtc_filter g d f =
    let valid =
      is_initialized d.dem_state
      && (is_kind g.dtc_kind
          && (is_filter_origin g.dtc_origin
              && ((is_no g.filter_with_severity
                    || (is_yes g.filter_with_severity
                        && not (non_zero (band (bnot severity_bits) g.dtc_severity_mask))))
                  && ((is_yes g.filter_for_fault_detection_counter
                        || is_no g.filter_for_fault_detection_counter)
                      && is_valid_dtc_format g.dtc_format)))) in
    let unsupported =
      not (non_zero (band dtc_status_availability_mask g.dtc_status_mask))
      && not (eq_byte dtc_status_mask_all g.dtc_status_mask) in
    if valid && not unsupported
    then (
      filter_accepted,
      record g {
        dtc_status_mask = band dtc_status_availability_mask g.dtc_status_mask;
        dtc_index = 0;
      },
    )
    else (wrong_filter, f)

abbrev count_match : Option Byte → ℕ → ℕ
count_match none n = n
count_match (some s) n = (n + 1) % 2 ^ 16

-- The loop of Dem_GetNumberOfFilteredDtc, on the rest of configSet->DTCClass and numberOfFaults.
unfoldable pub count_matches : Config → Dem → Filter → List DtcClass → ℕ → ℕ
count_matches c d f [] n = n
count_matches c d f (k ∷ ks) n =
    count_matches c d f ks (count_match (match_dtc_with_dtc_filter c d f k) n)

-- Dem_GetNumberOfFilteredDtc: `some` of *numberOfFilteredDTC where it returns DEM_NUMBER_OK.
unfoldable pub dem_get_number_of_filtered_dtc : Config → List DtcClass → Dem → Filter → Option ℕ
dem_get_number_of_filtered_dtc c table d f =
    if is_initialized d.dem_state then some (count_matches c d f table 0) else none

-- The loop of Dem_GetNextFilteredDTC from the index `i` on: *dtc and *dtcStatus of the next match,
-- and the index that is left, a `uint16`.
unfoldable pub find_match : Config → Dem → Filter → List DtcClass → ℕ → Option (ℕ × Byte) × ℕ
find_match c d f [] i = (none, 0)
find_match c d f (k ∷ ks) i = elim (match_dtc_with_dtc_filter c d f k) [
  | none ↦ find_match c d f ks ((i + 1) % 2 ^ 16)
  | some s ↦ (some (single_dtc_on f.dtc_format k.dtc_ref, s), (i + 1) % 2 ^ 16)
]

-- Dem_GetNextFilteredDTC: `some` where it returns DEM_FILTERED_OK. An index beyond the table, which
-- C would read, finds nothing.
unfoldable pub dem_get_next_filtered_dtc :
    Config → List DtcClass → Dem → Filter → Option (ℕ × Byte) × Filter
dem_get_next_filtered_dtc c table d f =
    if is_initialized d.dem_state
    then (let (found, i) = find_match c d f (drop f.dtc_index table) f.dtc_index in
        (found, record f { dtc_index = i }))
    else (none, f)
