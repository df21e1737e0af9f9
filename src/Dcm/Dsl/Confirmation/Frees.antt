-- ===== src/Dcm/Dsl/Confirmation/Frees.antt =====
-- What a confirmation frees, DslTpTxConfirmation of core/dcm/src/Dcm_Dsl.c.
use plug_and_play_autosar.Common.{ℕ, ◌≡◌, refl, sym, subst, true, false, some, List, ◌∷◌, arith}
use plug_and_play_autosar.Dcm.Dsl.{
  provided_to_pdur, dcm_transmit_signaled, ProtocolRx, NotifResult, ntfrslt_ok, ntfrslt_e_not_ok,
  DslCall, dsd_data_confirmation, DslConfig, Dsl, find_rx, find_tx, is_periodic_tx_pdu, main_cycles,
}
use plug_and_play_autosar.Dcm.Dsl.Buffers.{release_external_rx_tx_buffers}
use plug_and_play_autosar.Dcm.Dsl.Buffers.Release.{
  IsIdle, same-IsAvailable, release_external_rx_tx_buffers-IsIdle,
}
use plug_and_play_autosar.Dcm.Dsl.Confirmation.{
  tp_tx_confirmation, confirm_external, confirm_buffer, check_length, leave_in_default,
}

-- The dispatcher is told the result, the buffers of the protocol `p` are free, and its session timer
-- starts again.
pub record Confirmed (c : DslConfig) (rx : ProtocolRx) (result : NotifResult) (s : Dsl)
    : Type 0 where
  pub idle : IsIdle c rx.main_connection.protocol s
  pub told :
      (before : List DslCall) × (s.calls
        ≡ dsd_data_confirmation rx.main_connection.tx_pdu_id result ∷ before)
  pub timer_runs : (s.runtime rx.main_connection.protocol).s3_server_started ≡ true
  pub timer :
      (s.runtime rx.main_connection.protocol).s3_server_timeout_count
      ≡ main_cycles c (c.row rx.main_connection.protocol).time_limit.s3_server

confirm_external-Confirmed :
    (c : DslConfig) (rx : ProtocolRx) (q : ℕ) (result : NotifResult) (s : Dsl)
    → Confirmed c rx result (confirm_external c rx q result s)
unfolding confirm_external
confirm_external-Confirmed c rx q result s =
    let p = rx.main_connection.protocol in
    let s1 =
      check_length (s.runtime q).response_length (s.buffer (c.row q).tx_buffer).nof_bytes_handled
        s in
    let s2 = leave_in_default c p (find_rx c (s1.runtime p).diag_request_rx_pdu_id) s1 in
    let r = release_external_rx_tx_buffers-IsIdle c p s2 in
    record {
      idle = record {
        rx = ground (arith, r.rx);
        tx = ground (arith, r.tx);
        rx_buffer =
            same-IsAvailable (c.row p).rx_buffer (release_external_rx_tx_buffers c p s2) _ refl
              r.rx_buffer;
        tx_buffer = r.tx_buffer;
      };
      told = ((release_external_rx_tx_buffers c p s2).calls, refl);
      timer_runs = ground arith;
      timer = ground arith;
    }

early-Confirmed :
    (c : DslConfig) (rx : ProtocolRx) (q : ℕ) (result : NotifResult) (s : Dsl)
    → Confirmed c rx ntfrslt_e_not_ok (confirm_buffer c rx dcm_transmit_signaled q result s)
early-Confirmed c rx q ntfrslt_ok s = confirm_external-Confirmed c rx q ntfrslt_e_not_ok _
early-Confirmed c rx q ntfrslt_e_not_ok s = confirm_external-Confirmed c rx q ntfrslt_e_not_ok s

-- The confirmation of a response in the transmit buffer of a protocol, by its own PDU and for a request
-- whose PDU is known, frees both buffers of the protocol that the request is of and makes them
-- available again, starts its session timer again, and tells the dispatcher the result: as it is, if the router has asked for data; as not
-- successful whatever it is, if the router has not.
pub tp_tx_confirmation-Confirmed :
    (c : DslConfig) (id q : ℕ) (rx : ProtocolRx) (result : NotifResult) (s : Dsl)
    → is_periodic_tx_pdu c id ≡ false
    → find_tx c id ≡ some q
    → find_rx c (s.runtime q).diag_request_rx_pdu_id ≡ some rx
    → ((s.runtime q).external_tx_buffer_status ≡ provided_to_pdur
        → Confirmed c rx result (tp_tx_confirmation c id result s))
      × ((s.runtime q).external_tx_buffer_status ≡ dcm_transmit_signaled
          → Confirmed c rx ntfrslt_e_not_ok (tp_tx_confirmation c id result s))
unfolding tp_tx_confirmation
tp_tx_confirmation-Confirmed c id q rx result s own found known = (
  λ e.
      rw (own, found, known)
        (subst (λ u. Confirmed c rx result (confirm_buffer c rx u q result s)) (sym e)
          (confirm_external-Confirmed c rx q result s)),
  λ e.
      rw (own, found, known)
        (subst (λ u. Confirmed c rx ntfrslt_e_not_ok (confirm_buffer c rx u q result s)) (sym e)
          (early-Confirmed c rx q result s)),
)
