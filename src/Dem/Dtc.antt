-- ===== src/Dem/Dtc.antt =====
-- Which events a DTC, a group of DTCs or a kind of DTCs selects, and whether the processing of an
-- event is allowed: dem/src/impl/Dem_Private_impl.c. DTC suppression is off.
pub mod Groups
use plug_and_play_autosar.Common.{
  ℕ, ◌+◌, ◌-◌, ◌*◌, ◌%◌, ◌^◌, Bool, true, false, not, ◌&&◌, ◌||◌, Option, none, some, List, [], ◌∷◌,
  ltb, leb, ◌==◌, if◌then◌else◌, get_or,
}
use plug_and_play_autosar.Dem.Types.{
  DtcFormat, uds_format, obd_format, other_format, DtcKind, all_dtcs, Dtc, DtcClass, EventClass,
  EventParameter,
}
use plug_and_play_autosar.Dem.State.{Config, Dem}
use plug_and_play_autosar.Dem.Memory.{no_dtc}

-- DEM_DTC_GROUP_ALL_DTCS, DEM_DTC_GROUP_EMISSION_REL_DTCS, DEM_NON_EMISSION_RELATED
abbrev pub dtc_group_all_dtcs : ℕ
dtc_group_all_dtcs = 0xFFFFFF

abbrev pub dtc_group_emission_rel_dtcs : ℕ
dtc_group_emission_rel_dtcs = 0

abbrev pub non_emission_related : ℕ
non_emission_related = 0

unfoldable pub dtc_is_available : DtcClass → Bool
dtc_is_available k = k.dtc_ref.dtc_used

-- eventHasDTCOnFormat, for an event with the DTC class `k`.
unfoldable pub event_has_dtc_on_format : DtcClass → DtcFormat → Bool
event_has_dtc_on_format k uds_format = not (k.dtc_ref.uds_dtc == no_dtc)
event_has_dtc_on_format k obd_format = not (k.dtc_ref.obd_dtc == no_dtc)
event_has_dtc_on_format k other_format = false

-- The loop of dtcIsGroup over `groups`, the DTCs of the table and, last, that of its end mark:
-- whether the group is found, and *groupUpper. The 32 bit subtraction wraps.
unfoldable pub find_group : ℕ → List ℕ → Bool × ℕ
find_group dtc [] = (false, 0)
find_group dtc (g ∷ []) = (false, (g + 2 ^ 32 - 1) % 2 ^ 32)
find_group dtc (g ∷ h ∷ gs) =
    let rest = find_group dtc (h ∷ gs) in
    if dtc == g then (true, (h + 2 ^ 32 - 1) % 2 ^ 32) else rest

-- dtcIsGroup: `some` of *groupLower and *groupUpper where it returns TRUE.
unfoldable pub dtc_is_group : Config → ℕ → DtcFormat → Option (ℕ × ℕ)
dtc_is_group c dtc uds_format =
    let (found, upper) = find_group dtc c.group_dtcs in if found then some (dtc, upper) else none
dtc_is_group c dtc _ = none

abbrev dtc_on : DtcFormat → Dtc → ℕ
dtc_on uds_format k = k.uds_dtc
dtc_on _ k = k.obd_dtc

-- TO_OBD_FORMAT, on `uint32`.
abbrev to_obd_format : ℕ → ℕ
to_obd_format x = x * 256 % 2 ^ 32

abbrev pub single_dtc_on : DtcFormat → Dtc → ℕ
single_dtc_on uds_format k = k.uds_dtc
single_dtc_on _ k = to_obd_format k.obd_dtc

abbrev has_emission_dtc : DtcFormat → Dtc → Bool
has_emission_dtc uds_format k = not (k.uds_dtc == no_dtc) && not (k.obd_dtc == no_dtc)
has_emission_dtc _ k = not (k.obd_dtc == no_dtc)

abbrev in_group : Option (ℕ × ℕ) → ℕ → DtcFormat → Dtc → Bool
in_group (some bounds) dtc f k = leb bounds.0 (dtc_on f k) && ltb (dtc_on f k) bounds.1
in_group none dtc f k = dtc == single_dtc_on f k

-- checkDtcGroup for an event with the DTC class `k`.
unfoldable pub check_class_group : Config → ℕ → DtcClass → DtcFormat → Bool
check_class_group c dtc k f =
    dtc_is_available k
    && (if dtc == dtc_group_all_dtcs
        then not (dtc_on f k.dtc_ref == no_dtc)
        else if dtc == dtc_group_emission_rel_dtcs
        then has_emission_dtc f k.dtc_ref
        else event_has_dtc_on_format k f && in_group (dtc_is_group c dtc f) dtc f k.dtc_ref)

unfoldable pub check_dtc_group : Config → ℕ → EventParameter → DtcFormat → Bool
check_dtc_group c dtc p f = elim p.dtc_class [ none ↦ false | some k ↦ check_class_group c dtc k f ]

abbrev pub is_all_kind : DtcKind → Bool
is_all_kind all_dtcs = true
is_all_kind _ = false

unfoldable pub check_dtc_kind : DtcKind → EventParameter → Bool
check_dtc_kind kind p = elim p.dtc_class [
  | none ↦ false
  | some k ↦
      dtc_is_available k && (is_all_kind kind || not (p.event_dtc_kind == non_emission_related))
]

-- enableConditionsSet: `set` is DemEnableConditions. An id outside it counts as set.
unfoldable pub all_conditions_set : List Bool → List ℕ → Bool
all_conditions_set set [] = true
all_conditions_set set (i ∷ is) = get_or set i true && all_conditions_set set is

unfoldable pub enable_conditions_set : Dem → EventClass → Bool
enable_conditions_set d k = elim k.enable_condition_group [
  | none ↦ true
  | some is ↦ all_conditions_set d.enable_conditions is
]

abbrev has_available_dtc : EventParameter → Bool
has_available_dtc p = elim p.dtc_class [ none ↦ false | some k ↦ dtc_is_available k ]

unfoldable pub dtc_setting_disabled : Config → Dem → EventParameter → Bool
dtc_setting_disabled c d p =
    d.setting_disabled
    && (has_available_dtc p
        && (check_dtc_group c d.disabled_dtc_group p uds_format
            && check_dtc_kind d.disabled_dtc_kind p))

unfoldable pub event_processing_allowed : Config → Dem → EventParameter → Bool
event_processing_allowed c d p =
    not (dtc_setting_disabled c d p) && enable_conditions_set d p.event_class
