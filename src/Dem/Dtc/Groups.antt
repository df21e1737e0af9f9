-- ===== src/Dem/Dtc/Groups.antt =====
-- The DTCs that belong to a group of the table: dtcIsGroup and checkDtcGroup of
-- dem/src/impl/Dem_Private_impl.c.
use plug_and_play_autosar.Common.{
  ℕ, zero, suc, ◌-◌, ◌^◌, ◌≤◌, ◌<◌, ◌≡◌, ◌≢◌, ◌↔◌, true, false, List, [], ◌∷◌, some, get_elem?,
  ◌==◌, arith,
}
use plug_and_play_autosar.Dem.Types.{DtcClass, uds_format}
use plug_and_play_autosar.Dem.State.{Config}
use plug_and_play_autosar.Dem.Memory.{no_dtc}
use plug_and_play_autosar.Dem.Dtc.{
  find_group, dtc_is_group, check_class_group, dtc_is_available, event_has_dtc_on_format,
  dtc_group_all_dtcs,
}

abbrev pub IsIncreasing : List ℕ → Type 0
IsIncreasing [] = Unit
IsIncreasing (g ∷ []) = Unit
IsIncreasing (g ∷ h ∷ gs) = (g < h) × IsIncreasing (h ∷ gs)

head_below :
    (x : ℕ) (gs : List ℕ) (i : ℕ) {g : ℕ} → IsIncreasing (x ∷ gs) → get_elem? gs i ≡ some g → x < g
head_below x [] i inc e = absurd (ground arith)
head_below x (y ∷ gs) zero inc e = ground arith
head_below x (y ∷ gs) (suc i) inc e = omega (arith, head_below y gs i inc.1 e)

find_group_lem :
    (gs : List ℕ) (i : ℕ) {g h : ℕ}
    → IsIncreasing gs
    → get_elem? gs i ≡ some g
    → get_elem? gs (suc i) ≡ some h
    → h < 2 ^ 32
    → find_group g gs ≡ (true, h - 1)
unfolding find_group
find_group_lem [] i inc e f b = absurd (ground arith)
find_group_lem (x ∷ []) i inc e f b = absurd (ground arith)
find_group_lem (x ∷ y ∷ gs) zero inc e f b = ground arith
find_group_lem (x ∷ y ∷ gs) (suc i) {g} inc e f b =
    let ne : (g == x) ≡ false = ground (arith, head_below x (y ∷ gs) i inc e) in
    rw (ne, find_group) (find_group_lem (y ∷ gs) i inc.1 e f b)

-- In a table of groups with increasing DTCs, where `h` follows the group `g`, the last one being the
-- end mark: an available UDS DTC belongs to the group `g` exactly if it is at least `g` and the DTC
-- after it is still below `h`. The last DTC before the next group is thus in no group. `g` is neither
-- the group of all nor that of the emission related DTCs.
pub check_class_group_bounds :
    (c : Config) (k : DtcClass) (i g h : ℕ)
    → IsIncreasing c.group_dtcs
    → get_elem? c.group_dtcs i ≡ some g
    → get_elem? c.group_dtcs (suc i) ≡ some h
    → h < 2 ^ 32
    → g ≢ 0
    → g ≢ dtc_group_all_dtcs
    → k.dtc_ref.dtc_used ≡ true
    → k.dtc_ref.uds_dtc ≢ no_dtc
    → (check_class_group c g k uds_format ≡ true)
      ↔ ((g ≤ k.dtc_ref.uds_dtc) × (suc k.dtc_ref.uds_dtc < h))
unfolding check_class_group dtc_is_group dtc_is_available event_has_dtc_on_format
check_class_group_bounds c k i g h inc e f b n m used v =
    ground (arith, find_group_lem c.group_dtcs i inc e f b)
