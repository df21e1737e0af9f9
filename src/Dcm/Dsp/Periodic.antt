-- ===== src/Dcm/Dsp/Periodic.antt =====
-- Periodic identifiers, service 0x2A of core/dcm/src/Dcm_Dsp.c without synchronized sampling: the table
-- of the identifiers that are sent periodically, the requests of a tester that add, change and remove
-- them. The main function is not modelled.
pub mod Table
pub mod Updates
pub mod Stop
pub mod Main
use plug_and_play_autosar.Common.{
  ℕ, zero, suc, ◌+◌, ◌-◌, ◌%◌, ◌^◌, Bool, true, false, not, ◌&&◌, ◌||◌, Option, none, some, List,
  [], ◌∷◌, ◌++◌, ltb, leb, ◌==◌, if◌then◌else◌, get_or, get_elem?, length, take, set,
}
use plug_and_play_autosar.Dcm.Dsl.{Dsl, DslConfig}
use plug_and_play_autosar.Dcm.Dsl.Session.{get_active_protocol}
use plug_and_play_autosar.Dcm.Dsl.Startup.{response_on_one_data_by_periodic_id}
use plug_and_play_autosar.Dcm.Dsp.Security.{accepted, wrong_length}
use plug_and_play_autosar.Dcm.Dsp.Memory.{out_of_range, security_denied}

-- Dcm_pDidType
pub record PeriodicDid : Type 0 where
  pub periodic_did : ℕ
  pub tx_counter : ℕ
  pub tx_period : ℕ
  pub rx_pdu_id : ℕ

-- An entry of the table that is not used.
abbrev pub cleared : PeriodicDid
cleared = record { periodic_did = 0; tx_counter = 0; tx_period = 0; rx_pdu_id = 0 }

-- Dsp_pDidRefType: the entries that are used, PDidNofUsed being their number; those behind them are
-- cleared.
pub record PeriodicTable : Type 0 where
  pub dids : List PeriodicDid
  pub next_start_index : ℕ

-- The state after memset.
abbrev pub no_dids : PeriodicTable
no_dids = record { dids = []; next_start_index = 0 }

-- PdidEntryStatusType
pub data PdidEntryStatus : Type 0 where
  pdid_added pdid_updated pdid_buffer_full : PdidEntryStatus

abbrev pub is_entry : ℕ → ℕ → PeriodicDid → Bool
is_entry did rx_id d = d.periodic_did == did && d.rx_pdu_id == rx_id

-- isInPDidBuffer
unfoldable pub is_in_pdid_buffer : ℕ → List PeriodicDid → Bool
is_in_pdid_buffer did [] = false
is_in_pdid_buffer did (d ∷ ds) = d.periodic_did == did || is_in_pdid_buffer did ds

-- checkPeriodicIdentifierBuffer: the position of the entry, counted from `i`.
unfoldable pub check_periodic_identifier_buffer : ℕ → ℕ → List PeriodicDid → ℕ → Option ℕ
check_periodic_identifier_buffer did rx_id [] i = none
check_periodic_identifier_buffer did rx_id (d ∷ ds) i =
    if is_entry did rx_id d then some i else check_periodic_identifier_buffer did rx_id ds (suc i)

-- The last entry takes the place of the one at `pos`, and its own is cleared.
abbrev pub remove_at : Option ℕ → PeriodicTable → PeriodicTable
remove_at none t = t
remove_at (some pos) t =
    let n = length t.dids - 1 in
    record {
      dids = take n (set t.dids pos (get_or t.dids n cleared));
      next_start_index = if leb n t.next_start_index then 0 else t.next_start_index;
    }

-- DspPdidRemove
unfoldable pub pdid_remove : ℕ → ℕ → PeriodicTable → PeriodicTable
pdid_remove did rx_id t = remove_at (check_periodic_identifier_buffer did rx_id t.dids 0) t

abbrev with_period : ℕ → PeriodicDid → PeriodicDid
with_period period d = record d { tx_period = period; tx_counter = 0 }

abbrev pub add_or_update_at :
    ℕ → ℕ → ℕ → ℕ → Option ℕ → PeriodicTable → PeriodicTable × PdidEntryStatus
add_or_update_at limit did rx_id period none t =
    if ltb (length t.dids) limit
    then (
      record t {
        dids =
            t.dids
            ++ (record { periodic_did = did; tx_counter = 0; tx_period = period; rx_pdu_id = rx_id }
                ∷ []);
      },
      pdid_added,
    )
    else (t, pdid_buffer_full)
add_or_update_at limit did rx_id period (some i) t = (
  if not (period == 0)
      then record t { dids = set t.dids i (with_period period (get_or t.dids i cleared)) }
      else t,
  pdid_updated,
)

-- DspPdidAddOrUpdate; `limit` is DCM_LIMITNUMBER_PERIODDATA.
unfoldable pub pdid_add_or_update : ℕ → ℕ → ℕ → ℕ → PeriodicTable → PeriodicTable × PdidEntryStatus
pdid_add_or_update limit did rx_id period t =
    add_or_update_at limit did rx_id period (check_periodic_identifier_buffer did rx_id t.dids 0) t

-- The loop of ClearPeriodicIdentifier: `i` is a `uint8`, `n` the number of the identifiers of the
-- request; none, if the fuel ends before the loop does.
unfoldable pub clear_loop : ℕ → ℕ → List ℕ → ℕ → ℕ → PeriodicTable → Option PeriodicTable
clear_loop zero n rx rx_id i t = none
clear_loop (suc fuel) n rx rx_id i t =
    let rest =
      clear_loop fuel n rx rx_id ((i + 1) % 256) (pdid_remove (get_or rx (2 + i) 0) rx_id t) in
    if ltb i n then rest else some t

-- ClearPeriodicIdentifier, for a request of the mode DCM_PERIODICTRANSMIT_STOPSENDING_MODE.
unfoldable pub clear_periodic_identifier : ℕ → List ℕ → ℕ → PeriodicTable → Option PeriodicTable
clear_periodic_identifier fuel rx rx_id t = clear_loop fuel (length rx - 2) rx rx_id 0 t

-- TO_PERIODIC_DID
abbrev pub to_periodic_did : ℕ → ℕ
to_periodic_did did = 0xF200 + did

-- DspStopPeriodicDids; `keep` says which identifiers checkPDidSupported still finds, if the service is
-- supported in the session and the security level and these are to be checked.
abbrev unsupported : (ℕ → Bool) → List PeriodicDid → List PeriodicDid
unsupported keep [] = []
unsupported keep (d ∷ ds) =
    if keep (to_periodic_did d.periodic_did) then unsupported keep ds else d ∷ unsupported keep ds

unfoldable pub remove_all : List PeriodicDid → PeriodicTable → PeriodicTable
remove_all [] t = t
remove_all (d ∷ ds) t = remove_all ds (pdid_remove d.periodic_did d.rx_pdu_id t)

unfoldable pub stop_periodic_dids : Option (ℕ → Bool) → PeriodicTable → PeriodicTable
stop_periodic_dids none t = no_dids
stop_periodic_dids (some keep) t = remove_all (unsupported keep t.dids) t
