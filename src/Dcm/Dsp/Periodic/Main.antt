-- ===== src/Dcm/Dsp/Periodic/Main.antt =====
-- An identifier that is added to the table and removed again, core/dcm/src/Dcm_Dsp.c.
use plug_and_play_autosar.Common.{ℕ, ◌<◌, ◌≡◌, length, arith}
use plug_and_play_autosar.Dcm.Dsp.Periodic.{
  PeriodicTable, PdidEntryStatus, pdid_remove, pdid_add_or_update,
}
use plug_and_play_autosar.Dcm.Dsp.Periodic.Table.{count}
use plug_and_play_autosar.Dcm.Dsp.Periodic.Updates.{
  IsTable, SameEntries, Adds, adds_period, adds_entry, adds_none, pdid_remove-Takes,
  pdid_add_or_update-Adds,
}

remove_added :
    (limit did rx_id : ℕ) (t : PeriodicTable) (r : PeriodicTable × PdidEntryStatus)
    → count did rx_id t.dids ≡ 0
    → length t.dids < limit
    → Adds limit did rx_id t r
    → IsTable limit r.0
    → IsTable limit (pdid_remove did rx_id r.0) × SameEntries t (pdid_remove did rx_id r.0)
remove_added limit did rx_id t r absent room (adds_period some_entry same) h =
    ground (arith, absent, some_entry)
remove_added limit did rx_id t r absent room (adds_none gone full) h = ground (arith, room, full)
remove_added limit did rx_id t (u, st) absent room (adds_entry none_before bounded puts) h =
    let (w, takes) = pdid_remove-Takes limit did rx_id u h in
    (w, λ d q. ground (arith, takes d q, puts d q))

-- An identifier that a tester adds, where it was not in the table and the table has room, and then
-- stops, leaves the table with the entries it had, and well formed.
pub pdid_remove-pdid_add_or_update :
    (limit did rx_id period : ℕ) (t : PeriodicTable)
    → IsTable limit t
    → count did rx_id t.dids ≡ 0
    → length t.dids < limit
    → IsTable limit (pdid_remove did rx_id (pdid_add_or_update limit did rx_id period t).0)
      × SameEntries t (pdid_remove did rx_id (pdid_add_or_update limit did rx_id period t).0)
pdid_remove-pdid_add_or_update limit did rx_id period t h absent room =
    let (a, w) = pdid_add_or_update-Adds limit did rx_id period t h in
    remove_added limit did rx_id t (pdid_add_or_update limit did rx_id period t) absent room a w
