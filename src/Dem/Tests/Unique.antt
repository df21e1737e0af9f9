-- ===== src/Dem/Tests/Unique.antt =====
-- A report that displaces an event and the end of a cycle, on the full memory.
use plug_and_play_autosar.Common.{◌≡◌, ◌≢◌, some, arith}
use plug_and_play_autosar.Dem.Types.{EventStatusRec, failed, cycle_end}
use plug_and_play_autosar.Dem.State.{lookup_event_status_rec}
use plug_and_play_autosar.Dem.Memory.Unique.{AllUnique}
use plug_and_play_autosar.Dem.Event.{dem_set_event_status}
use plug_and_play_autosar.Dem.Event.Unique.{dem_set_event_status-AllUnique}
use plug_and_play_autosar.Dem.Cycle.{set_operation_cycle_state}
use plug_and_play_autosar.Dem.Cycle.Unique.{set_operation_cycle_state-AllUnique}
use plug_and_play_autosar.Dem.Tests.{config, full, full-IsUnique}

full-AllUnique : AllUnique full
full-AllUnique = (full-IsUnique, record { same_position = λ id i j a b n. absurd (ground arith) })

third_has_id :
    (r : EventStatusRec) → lookup_event_status_rec config full 3 ≡ some r → r.event_id ≢ 0
unfolding lookup_event_status_rec
third_has_id r e z = ground arith

dem_set_event_status-AllUnique_example : AllUnique (dem_set_event_status config 3 failed full).1
dem_set_event_status-AllUnique_example =
    dem_set_event_status-AllUnique config 3 failed full third_has_id full-AllUnique

set_operation_cycle_state-AllUnique_example :
    AllUnique (set_operation_cycle_state config 1 cycle_end full).1
set_operation_cycle_state-AllUnique_example =
    set_operation_cycle_state-AllUnique config 1 cycle_end full full-AllUnique
