-- ===== src/Dcm/Tests/Services.antt =====
-- A table of one security level, with the services of the diagnostic layer, and runs of them.
use plug_and_play_autosar.Common.{
  ℕ, ◌+◌, ◌*◌, ◌-◌, ◌≤◌, ◌≡◌, refl, false, length, none, some, List, [], ◌∷◌, inl, arith,
}
use plug_and_play_autosar.Dcm.Dsp.Security.{
  SecurityAccess, SecurityRow, dcm_initial, seed_ok, key_ok, key_wrong, SecurityConfig,
  delay_timer_deactive,
}
use plug_and_play_autosar.Dcm.Dsp.Security.Access.{
  find_security_row, security_access, security_sub_fnc, get_seed_sub_fnc, compare_key_sub_fnc,
  take_seed, take_key,
}
use plug_and_play_autosar.Dcm.Dsp.Security.Unlock.{KeptOrUnlocks, security_access-Unlocks}
use plug_and_play_autosar.Dcm.Dsp.Security.Attempts.{guesses, guesses_backed}
use plug_and_play_autosar.Dcm.Dsd.{check_security_level}
use plug_and_play_autosar.Dcm.Dsp.Memory.{
  MemoryConfig, Memory, memory_unused, read_ok, write_ok, write_memory, find_range,
  check_address_range, end_write, write_memory_by_address,
}
use plug_and_play_autosar.Dcm.Dsp.Memory.Requests.{request}
use plug_and_play_autosar.Dcm.Dsp.Memory.Writes.{write_memory_by_address-request, end_write_codes}
use plug_and_play_autosar.Dcm.Dsp.Memory.Calls.{Calls}
use plug_and_play_autosar.Dcm.Dsp.Periodic.{
  PeriodicDid, PeriodicTable, pdid_remove, pdid_add_or_update, clear_periodic_identifier,
}
use plug_and_play_autosar.Dcm.Dsp.Periodic.Table.{count}
use plug_and_play_autosar.Dcm.Dsp.Periodic.Updates.{
  IsTable, SameEntries, AddsWell, pdid_add_or_update-Adds,
}
use plug_and_play_autosar.Dcm.Dsp.Periodic.Main.{pdid_remove-pdid_add_or_update}
use plug_and_play_autosar.Dcm.Dsp.Periodic.Stop.{remove_from, clear_periodic_identifier_ends}
use plug_and_play_autosar.Dcm.Dsl.Session.{get_security_level, set_security_level}
use plug_and_play_autosar.Dcm.Tests.Sessions.{quiet}

abbrev level_row : SecurityRow
level_row = record {
  level = 1;
  adr_size = 0;
  seed_size = 2;
  key_size = 2;
  num_att_delay = 3;
  delay_time = 100;
  delay_time_on_boot = 0;
  get_seed = some (λ k r o. seed_ok (17 ∷ 18 ∷ []));
  compare_key = some (λ k r o. key_wrong);
}

abbrev security : SecurityConfig
security = record { rows = level_row ∷ []; main_period = 10 }

abbrev lenient : SecurityConfig
lenient = record {
  rows = record level_row { compare_key = some (λ k r o. key_ok) } ∷ [];
  main_period = 10;
}

abbrev locked : SecurityAccess
locked = record {
  req_in_progress = false;
  req_sec_level = 0;
  req_sec_level_ref = none;
  curr_sec_lev_idx = 0;
  false_attempts = λ i. record { attempts = 0; timer = 0; delay = delay_timer_deactive };
  pending = false;
  dsl = record quiet { active = some 0 };
  tx_data = 103 ∷ 0 ∷ 0 ∷ 0 ∷ [];
  tx_length = 4;
  done = [];
  backed = 0;
}

abbrev seed_request : List ℕ
seed_request = 39 ∷ 1 ∷ []

abbrev key_request : List ℕ
key_request = 39 ∷ 2 ∷ 7 ∷ 7 ∷ []

after_key :
    get_security_level
      (security_access lenient key_request (security_access lenient seed_request locked)).dsl
    ≡ some 1
unfolding security_access security_sub_fnc get_seed_sub_fnc compare_key_sub_fnc take_seed take_key
    find_security_row get_security_level set_security_level
after_key = refl

guesses_backed_example :
    (guesses security seed_request key_request 9 locked).backed ≤ 0 + 2 * (3 - 0)
unfolding find_security_row get_security_level
guesses_backed_example =
    guesses_backed security 1 0 0 level_row seed_request key_request 0 9 locked
      (record {
        asks = refl;
        asks_in_range = refl;
        asks_level = refl;
        asks_length = refl;
        sends = refl;
        sends_in_range = refl;
        sends_level = refl;
        sends_length = refl;
        found = refl;
        delay_time = refl;
        delays = omega arith;
        few = omega arith;
        give = _;
        gives = refl;
        gives_ok = λ k r o. (17 ∷ 18 ∷ [], refl);
        test = _;
        tests = refl;
        refuses = λ k r o. refl;
      })
      (omega arith) refl (record { no_delay = refl; fits = refl; active = refl; locked = refl })

security_access-Unlocks_example :
    KeptOrUnlocks key_request
      (security_access lenient seed_request locked)
      (security_access lenient key_request (security_access lenient seed_request locked))
security_access-Unlocks_example =
    security_access-Unlocks lenient key_request (security_access lenient seed_request locked)

abbrev ram : MemoryConfig
ram = record {
  use_memory_id = false;
  memory_ids =
      record {
        memory_id_value = 0;
        read_memory_info =
            record { address_low = 0x1000; address_high = 0x1FFF; levels = 1 ∷ [] } ∷ [];
        write_memory_info =
            record { address_low = 0x1000; address_high = 0x10FF; levels = [] } ∷ [];
      }
      ∷ [];
  read_answer = λ ks k. read_ok (7 ∷ 8 ∷ []);
  write_answer = λ ks k. write_ok;
}

abbrev memory : Memory
memory = record {
  state = memory_unused;
  now = record { session = some 3; security = some 1 };
  response = 0 ∷ 0 ∷ 0 ∷ 0 ∷ 0 ∷ 0 ∷ [];
  response_length = 6;
  codes = [];
  accesses = [];
}

write_memory_by_address-request_example :
    (write_memory_by_address ram
      (request 0x3D false 0 2 1 0x1034 3 (1 ∷ 2 ∷ 3 ∷ []))
      memory).accesses
    ≡ write_memory dcm_initial 0 0x1034 3 (1 ∷ 2 ∷ 3 ∷ []) ∷ []
unfolding check_address_range find_range check_security_level
write_memory_by_address-request_example =
    write_memory_by_address-request ram 0 2 1 0x1034 (1 ∷ 2 ∷ 3 ∷ []) memory (omega arith)
      (omega arith) (omega arith) (omega arith) (omega arith) (omega arith) (omega arith)
      (omega arith) (omega arith) refl

end_write_codes_example :
    length (end_write (61 ∷ 18 ∷ 16 ∷ 52 ∷ 1 ∷ 9 ∷ []) 3 write_ok memory).codes ≡ 3 + 0
end_write_codes_example = end_write_codes (61 ∷ 18 ∷ 16 ∷ 52 ∷ 1 ∷ 9 ∷ []) 3 memory (omega arith)

abbrev read_request : List ℕ
read_request = request 0x23 false 0 2 1 0x1234 2 []

abbrev write_request : List ℕ
write_request = request 0x3D false 0 2 1 0x1034 2 (8 ∷ 9 ∷ [])

abbrev entry : ℕ → PeriodicDid
entry d = record { periodic_did = d; tx_counter = 0; tx_period = 5; rx_pdu_id = 0 }

abbrev two_dids : PeriodicTable
two_dids = record { dids = entry 1 ∷ entry 2 ∷ []; next_start_index = 1 }

two_dids-IsTable : IsTable 3 two_dids
unfolding count
two_dids-IsTable = record {
  bounded = omega arith;
  single = λ d r. ground arith;
  index = inl (omega arith);
}

pdid_add_or_update-Adds_example : AddsWell 3 7 0 two_dids (pdid_add_or_update 3 7 0 9 two_dids)
pdid_add_or_update-Adds_example = pdid_add_or_update-Adds 3 7 0 9 two_dids two_dids-IsTable

pdid_remove-pdid_add_or_update_example :
    IsTable 3 (pdid_remove 7 0 (pdid_add_or_update 3 7 0 9 two_dids).0)
    × SameEntries two_dids (pdid_remove 7 0 (pdid_add_or_update 3 7 0 9 two_dids).0)
unfolding count
pdid_remove-pdid_add_or_update_example =
    pdid_remove-pdid_add_or_update 3 7 0 9 two_dids two_dids-IsTable refl (omega arith)

clear_periodic_identifier_ends_example :
    clear_periodic_identifier 3 (42 ∷ 4 ∷ 1 ∷ 7 ∷ []) 0 two_dids
    ≡ some (remove_from 2 (42 ∷ 4 ∷ 1 ∷ 7 ∷ []) 0 0 two_dids)
clear_periodic_identifier_ends_example =
    clear_periodic_identifier_ends (42 ∷ 4 ∷ 1 ∷ 7 ∷ []) 0 3 two_dids (omega arith)
