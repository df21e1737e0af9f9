-- ===== src/Dcm/Tests/Sessions.antt =====
-- A configuration of the session layer with two protocols, and runs of it.
use plug_and_play_autosar.Common.{
  ℕ, suc, ◌+◌, ◌≡◌, refl, ap, true, false, none, some, List, [], ◌∷◌, length, ◌==◌, inl, arith,
}
use plug_and_play_autosar.Dcm.Dsl.{
  not_in_use, provided_to_pdur, provided_to_dsd, dcm_transmit_signaled, buffer_available,
  LocalBuffer, Runtime, PeriodicTx, PeriodicTransmission, MainConnection, ProtocolRx, ProtocolRow,
  DiagResp, NotifResult, ntfrslt_ok, ntfrslt_e_not_ok, DslCall, dsd_data_indication, e_ok,
  DslConfig, no_com, Dsl, update, update_other, find_tx, is_periodic_tx_pdu, adjust_p2_timing,
}
use plug_and_play_autosar.Dcm.Dsl.Buffers.{lock_type2_tx_pdu, first_free_pdu}
use plug_and_play_autosar.Dcm.Dsl.Buffers.Release.{IsIdle}
use plug_and_play_autosar.Dcm.Dsl.Buffers.Periodic.{IsLocked, lock_type2_tx_pdu-IsLocked}
use plug_and_play_autosar.Dcm.Dsl.Reception.{start_of_reception}
use plug_and_play_autosar.Dcm.Dsl.Reception.Copy.{copy_pieces, concat}
use plug_and_play_autosar.Dcm.Dsl.Reception.Exclusive.{Granted, start_of_reception-Granted}
use plug_and_play_autosar.Dcm.Dsl.Indication.{tp_rx_indication, process_request}
use plug_and_play_autosar.Dcm.Dsl.Indication.Delivery.{tp_rx_indication-request}
use plug_and_play_autosar.Dcm.Dsl.Indication.Preemption.{Preempts, process_request-Preempts}
use plug_and_play_autosar.Dcm.Dsl.Transmission.Copied.{fetch, fetch-response}
use plug_and_play_autosar.Dcm.Dsl.Confirmation.{tp_tx_confirmation}
use plug_and_play_autosar.Dcm.Dsl.Confirmation.Frees.{Confirmed, tp_tx_confirmation-Confirmed}
use plug_and_play_autosar.Dcm.Dsl.Session.{find_session}
use plug_and_play_autosar.Dcm.Dsl.Main.Timeout.{InSession, IsDefault, main_periods-timeout}
use plug_and_play_autosar.Dcm.Dsl.Main.Pending.{main_periods-IsIdle}
use plug_and_play_autosar.Dcm.Dsl.Main.Waiting.{period}
use plug_and_play_autosar.Dcm.Dsl.Main.Rounds.{OnlyActs, main_periods}

abbrev periodic_tx : PeriodicTx
periodic_tx = record { protocol = 1; pdu_r_tx_pdu_id = 40; dcm_tx_pdu_id = 20 }

abbrev periodic : PeriodicTransmission
periodic = record { protocol = 1; tx_pdu_list = periodic_tx ∷ [] }

abbrev connection : MainConnection
connection = record {
  protocol = 0;
  periodic_transmission = some periodic;
  physical_rx = some 0;
  tx_pdu_id = 0;
  tester_source_address = 241;
}

abbrev request_pdu : ProtocolRx
request_pdu = record {
  main_connection = connection;
  functional = false;
  rx_pdu_id = 0;
  com_m_channel = 0;
}

abbrev protocol_row : ProtocolRow
protocol_row = record {
  protocol_id = 3;
  preempt_timeout = 100;
  priority = 1;
  type2 = false;
  rx_buffer = some 0;
  tx_buffer = 1;
  time_limit = record { p2_server_adjust = 0; p2_star_server_adjust = 0; s3_server = 50 };
  connections = connection ∷ [];
}

abbrev diag_resp : DiagResp
diag_resp = record { force_resp_pend_en = true; max_num_resp_pend = 2 }

abbrev pub layer : DslConfig
layer = record {
  row = λ p. record protocol_row { priority = suc p; tx_buffer = suc p };
  row_count = 2;
  rx_list = request_pdu ∷ [];
  tx_list = connection ∷ [];
  periodic_tx_list = periodic_tx ∷ [];
  first_periodic_tx_pdu = 20;
  nof_periodic_tx_pdu = 2;
  sessions =
      record { session_level = 1; p2_server_max = 50; p2_star_server_max = 50 }
      ∷ record { session_level = 3; p2_server_max = 50; p2_star_server_max = 30 }
      ∷ [];
  diag_resp = some diag_resp;
  main_function_period = 10;
  callbacks = record { start = some (λ calls id. e_ok); stop = none } ∷ [];
  com_m_channels = (7, 0) ∷ [];
  network_handle = λ i. 7;
  pdu_r_accepts = λ calls id. true;
  session_supported = λ k. k == 1;
}

abbrev local_buffer : LocalBuffer
local_buffer = record {
  status = not_in_use;
  bytes = 0 ∷ 0 ∷ 0 ∷ 0 ∷ 0 ∷ 0 ∷ 0 ∷ 0 ∷ [];
  sdu_length = 0;
  nof_bytes_handled = 0;
  response_code = 0;
  rx_pdu_id = 0xFFFF;
}

abbrev idle_runtime : Runtime
idle_runtime = record {
  diag_request_rx_pdu_id = 0;
  state_timeout_count = 0;
  external_rx_buffer_status = not_in_use;
  request_length = 0;
  response_length = 0;
  external_tx_buffer_status = not_in_use;
  protocol_started = true;
  local_rx_buffer = local_buffer;
  local_tx_buffer = local_buffer;
  diagnostic_active_com_m = false;
  s3_server_timeout_count = 0;
  s3_server_started = false;
  response_pending_count = 0;
  security_level = 0;
  session_control = 1;
  preempt_timeout_count = 0;
  diag_response_tx_pdu_id = 0;
  is_type2_tx = false;
}

abbrev pub quiet : Dsl
quiet = record {
  runtime = λ p. idle_runtime;
  buffer = λ b. record {
    size = 4;
    bytes = 1 ∷ 2 ∷ 3 ∷ 4 ∷ [];
    status = buffer_available;
    nof_bytes_handled = 0;
    rx_pdu_id = 0xFFFF;
  };
  init_run = true;
  active = some 1;
  periodic_pdu = λ i. record { diag_req_rx_pdu_id = 0xFFFF; pdu_in_use = false };
  network_com_mode = λ i. no_com;
  preemption_not_processing_done = false;
  busy_sent = false;
  calls = [];
}

abbrev with_runtime : Runtime → Dsl
with_runtime r = record quiet { runtime = λ p. r }

abbrev pieces : List (List ℕ)
pieces = (0x22 ∷ 0xF1 ∷ []) ∷ (0x90 ∷ []) ∷ []

tp_rx_indication-request_example :
    (before : List DslCall) × ((tp_rx_indication layer 0 ntfrslt_ok false false (
        copy_pieces layer 0 pieces
          (start_of_reception layer 0 (length (concat pieces)) false quiet).state)).calls
      ≡ dsd_data_indication (concat pieces) false 0 0 false false ∷ before)
tp_rx_indication-request_example =
    tp_rx_indication-request layer 0 0 request_pdu pieces 0x22 (0xF1 ∷ 0x90 ∷ []) quiet refl refl
      refl refl refl (omega arith) (omega arith) (omega arith) refl (omega arith)

abbrev signaled : Dsl
signaled =
    with_runtime (record idle_runtime {
      external_tx_buffer_status = dcm_transmit_signaled;
      response_length = 3;
    })

fetch-response_example : fetch layer 0 (1 ∷ 0 ∷ 2 ∷ []) signaled ≡ 1 ∷ 2 ∷ 3 ∷ []
unfolding find_tx
fetch-response_example =
    fetch-response layer 0 0 (1 ∷ 0 ∷ 2 ∷ []) signaled refl refl (omega arith) (omega arith)

-- Only the first protocol is not idle.
abbrev with_first : Runtime → Dsl
with_first r = record quiet { runtime = update (λ p. idle_runtime) 0 r }

first-OnlyActs : (r : Runtime) → OnlyActs 0 (with_first r)
first-OnlyActs r q ne =
    let e = update_other (λ p. idle_runtime) 0 q r ne in
    record {
      tx = ap (λ (v : Runtime). v.external_tx_buffer_status) e;
      session = ap (λ (v : Runtime). v.session_control) e;
    }

abbrev extended : Dsl
extended = with_first (record idle_runtime {
  session_control = 3;
  s3_server_started = true;
  s3_server_timeout_count = 5;
})

main_periods-timeout_example :
    ((n k : ℕ) → n + k ≡ 4 → InSession 0 3 (suc k) (main_periods n layer extended))
    × IsDefault 0 (main_periods 5 layer extended)
main_periods-timeout_example =
    main_periods-timeout layer 0 3 4 extended (omega arith) (first-OnlyActs _)
      (record { current = refl; other = omega arith; started = refl; count = refl; unused = refl })

abbrev waiting : Dsl
waiting = with_first (record idle_runtime {
  external_tx_buffer_status = provided_to_dsd;
  state_timeout_count = 5;
  response_pending_count = 2;
})

main_periods-IsIdle_example : IsIdle layer 0 (main_periods 18 layer waiting)
unfolding period adjust_p2_timing find_session
main_periods-IsIdle_example =
    main_periods-IsIdle layer diag_resp 0 18 waiting refl (omega arith) (first-OnlyActs _)
      (record { stopped = refl; lasts = inl refl }) refl (omega arith)

start_of_reception-Granted_example :
    Granted 0 0 0 3 false quiet (start_of_reception layer 0 3 false quiet)
start_of_reception-Granted_example =
    start_of_reception-Granted layer 0 3 0 false request_pdu quiet refl refl

lock_type2_tx_pdu-IsLocked_example :
    (t : PeriodicTx) × (t.pdu_r_tx_pdu_id ≡ 40)
    × IsLocked layer 0 t quiet (lock_type2_tx_pdu layer connection 0 quiet).0
unfolding lock_type2_tx_pdu first_free_pdu is_periodic_tx_pdu
lock_type2_tx_pdu-IsLocked_example =
    lock_type2_tx_pdu-IsLocked layer connection periodic 0 40 quiet
      (lock_type2_tx_pdu layer connection 0 quiet).0 refl (refl, tt) refl

abbrev Sent : NotifResult → NotifResult → Dsl → Type 0
Sent result told s = Confirmed layer request_pdu told (tp_tx_confirmation layer 0 result s)

tp_tx_confirmation-Confirmed_example :
    (dcm_transmit_signaled ≡ provided_to_pdur → Sent ntfrslt_ok ntfrslt_ok signaled)
    × (dcm_transmit_signaled ≡ dcm_transmit_signaled → Sent ntfrslt_ok ntfrslt_e_not_ok signaled)
unfolding find_tx is_periodic_tx_pdu
tp_tx_confirmation-Confirmed_example =
    tp_tx_confirmation-Confirmed layer 0 0 request_pdu ntfrslt_ok signaled refl refl refl

process_request-Preempts_example :
    Preempts layer 0 1 quiet (process_request layer request_pdu none 0 false false quiet)
process_request-Preempts_example =
    process_request-Preempts layer request_pdu none 0 1 false false quiet refl
