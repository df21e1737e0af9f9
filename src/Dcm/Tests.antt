-- ===== src/Dcm/Tests.antt =====
-- Runs of the dispatcher on a small table of services.
mod Sessions
mod Services
use plug_and_play_autosar.Common.{◌+◌, ◌≤◌, ◌≡◌, refl, true, false, none, some, [], ◌∷◌}
use plug_and_play_autosar.Dcm.Dsd.{MsgData, Levels, Service, SubService, Dsd, handle_request}
use plug_and_play_autosar.Dcm.Dsd.Access.{Permitted, handle_request-Permitted}
use plug_and_play_autosar.Dcm.Dsd.Negative.{Answers, handle_request-Answers}
use plug_and_play_autosar.Dcm.External.{
  External, response_suppressed, dsp_confirmation, idle, done, wait_tx_confirm, Run, external_main,
  start_external,
}
use plug_and_play_autosar.Dcm.External.Responses.{
  responses, confirmations, count, in_progress, IsReachable, at_first, then_step, start,
  main_function, reachable_responses, external_main_unconfirmed,
}

abbrev sub_service : SubService
sub_service = record {
  sub_service_id = 1;
  has_function = false;
  security_levels = [];
  session_levels = 3 ∷ [];
}

abbrev service : Service
service = record {
  service_id = 0x10;
  subfunc_avail = true;
  security_levels = [];
  session_levels = 1 ∷ 3 ∷ [];
  has_function = false;
  sub_service_list = some (sub_service ∷ []);
}

abbrev message : MsgData
message = record {
  rx_data = 0x10 ∷ 0x81 ∷ [];
  rx_length = 2;
  functional = false;
  type2 = false;
  service_table = some (service ∷ []);
  startup_response_request = false;
}

abbrev levels : Levels
levels = record { session = some 3; security = some 0 }

abbrev at_rest : Dsd
at_rest = record { current_sid = 0; suppress_pos_rsp_msg = false; rx_data = [] }

handle_request-Permitted_example :
    Permitted levels message 0x10 (handle_request false (λ sid. []) levels message at_rest).0
handle_request-Permitted_example = handle_request-Permitted levels message false (λ sid. []) at_rest

handle_request-Answers_example :
    Answers message 0x10 (handle_request false (λ sid. []) levels message at_rest).0
handle_request-Answers_example = handle_request-Answers levels message false (λ sid. []) at_rest

abbrev unused : External
unused = record {
  nrc = 0;
  state = idle;
  is_sub_fnc = false;
  sub_fnc_id = 0;
  tx_data = 0 ∷ 0 ∷ 0 ∷ 0 ∷ [];
  tx_length = 0;
  current_sid = 0x10;
  suppress_pos_rsp_msg = true;
  functional = false;
  type2 = false;
  calls = [];
}

abbrev quick : Run
quick = record { call_backs = []; returns_pending = true }

abbrev polled : External
polled = external_main quick (start_external none quick unused)

polled-IsReachable : IsReachable 1 polled
polled-IsReachable =
    then_step false (then_step true (at_first unused refl refl) (start none quick))
      (main_function quick)

reachable_responses_example : responses polled.calls + count (in_progress polled.state) ≤ 1
reachable_responses_example = reachable_responses 1 polled polled-IsReachable

abbrev finished : External
finished = record unused { state = done }

external_main_unconfirmed_example :
    let x = external_main quick finished in
    (x.calls ≡ response_suppressed ∷ dsp_confirmation ∷ [])
    × (confirmations x.calls ≡ confirmations [])
    × (x.state ≡ wait_tx_confirm)
external_main_unconfirmed_example = external_main_unconfirmed quick finished refl refl refl
