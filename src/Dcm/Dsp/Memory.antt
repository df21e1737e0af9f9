-- ===== src/Dcm/Dsp/Memory.antt =====
-- Reading and writing memory by address, services 0x23 and 0x3D of core/dcm/src/Dcm_Dsp.c: the address
-- and the length of a request, the configured ranges, and the repetition of an access that is pending.
pub mod Requests
pub mod Writes
pub mod Ranges
pub mod Calls
use plug_and_play_autosar.Common.{
  ℕ, zero, suc, ◌+◌, ◌-◌, ◌*◌, ◌/◌, ◌%◌, ◌^◌, Bool, true, false, not, ◌&&◌, ◌||◌, Option, none,
  some, List, [], ◌∷◌, ltb, leb, ◌==◌, if◌then◌else◌, get_or, length, drop, take, set,
}
use plug_and_play_autosar.Dcm.External.{copy_to}
use plug_and_play_autosar.Dcm.Dsd.{Levels, check_security_level}
use plug_and_play_autosar.Dcm.Dsp.Security.{
  OpStatus, dcm_initial, dcm_pending, accepted, wrong_length, response_too_long,
}

abbrev pub out_of_range : ℕ
out_of_range = 0x31

abbrev pub security_denied : ℕ
security_denied = 0x33

abbrev pub general_programming_failure : ℕ
general_programming_failure = 0x72

-- Dcm_DspMemoryRangeInfo, with the levels of pSecurityLevel.
pub record MemoryRange : Type 0 where
  pub address_low : ℕ
  pub address_high : ℕ
  pub levels : List ℕ

-- Dcm_DspMemoryIdInfo
pub record MemoryId : Type 0 where
  pub memory_id_value : ℕ
  pub read_memory_info : List MemoryRange
  pub write_memory_info : List MemoryRange

-- What Dcm_ReadMemory and Dcm_WriteMemory return; a read that is done returns the bytes it has put in
-- the buffer.
pub data ReadResult : Type 0 where
  read_ok : List ℕ → ReadResult
  read_pending read_failed : ReadResult

pub data WriteResult : Type 0 where
  write_ok write_pending write_failed write_force_rcrrp : WriteResult

-- The calls of Dcm_ReadMemory and Dcm_WriteMemory: the memory, the address and the length, with the
-- bytes to be written; a repeated call has none of them.
pub data MemoryCall : Type 0 where
  read_memory : OpStatus → ℕ → ℕ → ℕ → MemoryCall
  write_memory : OpStatus → ℕ → ℕ → ℕ → List ℕ → MemoryCall

-- Dcm_DspMemoryType and the two functions of the integrator, which know the calls made before.
pub record MemoryConfig : Type 0 where
  pub use_memory_id : Bool
  pub memory_ids : List MemoryId
  pub read_answer : List MemoryCall → MemoryCall → ReadResult
  pub write_answer : List MemoryCall → MemoryCall → WriteResult

-- Dcm_DspMemoryStateType, as far as it is used.
pub data MemoryState : Type 0 where
  memory_unused memory_read memory_write : MemoryState

-- DspMemoryServiceType, as far as it is used here.
pub data MemoryService : Type 0 where
  dcm_read_memory dcm_write_memory : MemoryService

-- dspMemoryState, with the levels of the session layer, the buffer of the response and its length, the
-- codes that DsdDspProcessingDone was called with, and the calls; both with the newest first.
pub record Memory : Type 0 where
  pub state : MemoryState
  pub now : Levels
  pub response : List ℕ
  pub response_length : ℕ
  pub codes : List ℕ
  pub accesses : List MemoryCall

-- The loop over the bytes of an address or a length, in a `uint32`.
unfoldable pub parse_bytes : List ℕ → ℕ → ℕ
parse_bytes [] v = v
parse_bytes (b ∷ bs) v = parse_bytes bs ((v * 256 + b) % 2 ^ 32)

-- The last address of an access, in a `uint32`.
abbrev pub last_address : ℕ → ℕ → ℕ
last_address address len = (address + len + (2 ^ 32 - 1)) % 2 ^ 32

-- findRange
unfoldable pub find_range : List MemoryRange → ℕ → ℕ → Option MemoryRange
find_range [] address len = none
find_range (r ∷ rs) address len =
    if leb r.address_low address
      && (leb address r.address_high && leb (last_address address len) r.address_high)
    then some r
    else find_range rs address len

abbrev pub ranges_of : MemoryService → MemoryId → List MemoryRange
ranges_of dcm_read_memory m = m.read_memory_info
ranges_of dcm_write_memory m = m.write_memory_info

abbrev range_code : Levels → MemoryRange → ℕ
range_code v r = if check_security_level v r.levels then accepted else security_denied

abbrev code_or : Option MemoryRange → Levels → ℕ → ℕ
code_or none v code = code
code_or (some r) v code = range_code v r

-- checkAddressRange: the first memory of the id that has the range decides.
unfoldable pub check_address_range : MemoryService → Bool → Levels → List MemoryId → ℕ → ℕ → ℕ → ℕ
check_address_range service use_id v [] id address len = out_of_range
check_address_range service use_id v (m ∷ ms) id address len =
    let rest = check_address_range service use_id v ms id address len in
    if (use_id && m.memory_id_value == id) || not use_id
    then code_or (find_range (ranges_of service m) address len) v rest
    else rest

-- The formats of a request, and what they make of it.
abbrev pub size_format : List ℕ → ℕ
size_format rx = get_or rx 1 0 % 256 / 16

abbrev pub address_format : List ℕ → ℕ
address_format rx = get_or rx 1 0 % 16

abbrev pub memory_identifier : Bool → List ℕ → ℕ
memory_identifier use_id rx = if use_id then get_or rx 2 0 else 0

abbrev address_offset : Bool → ℕ
address_offset use_id = if use_id then 1 else 0

abbrev pub memory_address : Bool → List ℕ → ℕ
memory_address use_id rx =
    let o = address_offset use_id in parse_bytes (take (address_format rx - o) (drop (2 + o) rx)) 0

abbrev pub memory_length : List ℕ → ℕ
memory_length rx = parse_bytes (take (size_format rx) (drop (2 + address_format rx) rx)) 0

-- DsdDspProcessingDone
abbrev processing_done : ℕ → Memory → Memory
processing_done code s = record s { codes = code ∷ s.codes }

-- readMemoryData, and the end of DspUdsReadMemoryByAddress.
unfoldable pub end_read : ℕ → ReadResult → Memory → Memory
end_read len read_failed s = processing_done general_programming_failure s
end_read len read_pending s = record s { response_length = suc len; state = memory_read }
end_read len (read_ok data_read) s =
    processing_done accepted
      (record s { response = copy_to 1 data_read s.response; response_length = suc len })

unfoldable pub read_memory_data : MemoryConfig → ℕ → ℕ → ℕ → Memory → Memory
read_memory_data c id address len s =
    let k = read_memory dcm_initial id address len in
    end_read len (c.read_answer s.accesses k) (record s { accesses = k ∷ s.accesses })

abbrev protocol_tp_max_length : ℕ
protocol_tp_max_length = 0x1000

-- The part of DspUdsReadMemoryByAddress for a request of the right form.
unfoldable pub read_checked : MemoryConfig → ℕ → ℕ → ℕ → Memory → Memory
read_checked c id address len s =
    let code =
      check_address_range dcm_read_memory c.use_memory_id s.now c.memory_ids id address len in
    if leb len (protocol_tp_max_length - 1) && leb len (s.response_length - 1)
    then if code == accepted then read_memory_data c id address len s else processing_done code s
    else processing_done response_too_long s

-- DspUdsReadMemoryByAddress; the length of the response buffer is at least 1.
unfoldable pub read_memory_by_address : MemoryConfig → List ℕ → Memory → Memory
read_memory_by_address c rx s =
    if ltb 1 (length rx)
    then if not (address_format rx == 0) && not (size_format rx == 0)
      then if address_format rx + size_format rx + 2 == length rx
        then read_checked c (memory_identifier c.use_memory_id rx)
            (memory_address c.use_memory_id rx) (memory_length rx) s
        else processing_done wrong_length s
      else processing_done out_of_range s
    else processing_done wrong_length s

-- The loop at the end of DspUdsWriteMemoryByAddress over the bytes of the address and the length, from
-- the position `i` on: the end of the processing stands inside it.
abbrev pub write_step : Bool → Memory → Memory
write_step true s = record s { state = memory_write }
write_step false s = processing_done accepted s

unfoldable pub write_loop : Bool → List ℕ → ℕ → Memory → Memory
write_loop is_pending [] i s = s
write_loop is_pending (b ∷ bs) i s =
    write_loop is_pending bs (suc i)
      (write_step is_pending (record s { response = set s.response i b }))

-- The end of DspUdsWriteMemoryByAddress for a positive response code.
unfoldable pub write_response : List ℕ → ℕ → Bool → Memory → Memory
write_response rx n is_pending s =
    write_loop is_pending (take n (drop 2 rx)) 2
      (record s { response_length = 2 + n; response = set s.response 1 (get_or rx 1 0) })

-- writeMemoryData, and the end of DspUdsWriteMemoryByAddress; `n` is the number of the bytes of the
-- address and the length.
unfoldable pub end_write : List ℕ → ℕ → WriteResult → Memory → Memory
end_write rx n write_failed s = processing_done general_programming_failure s
end_write rx n write_pending s = write_response rx n true s
end_write rx n write_ok s = write_response rx n false s
end_write rx n write_force_rcrrp s = write_response rx n false s

unfoldable pub write_memory_data : MemoryConfig → List ℕ → ℕ → ℕ → ℕ → ℕ → Memory → Memory
write_memory_data c rx n id address len s =
    let k = write_memory dcm_initial id address len (take len (drop (2 + n) rx)) in
    end_write rx n (c.write_answer s.accesses k) (record s { accesses = k ∷ s.accesses })

-- The part of DspUdsWriteMemoryByAddress for a request that holds an address and a length.
unfoldable pub write_checked : MemoryConfig → List ℕ → ℕ → ℕ → ℕ → ℕ → Memory → Memory
write_checked c rx n id address len s =
    let code =
      check_address_range dcm_write_memory c.use_memory_id s.now c.memory_ids id address len in
    if (n + 2 + len) % 2 ^ 32 == length rx
    then if code == accepted
      then if leb (2 + n) s.response_length
        then write_memory_data c rx n id address len s
        else processing_done response_too_long s
      else processing_done code s
    else processing_done wrong_length s

-- DspUdsWriteMemoryByAddress
unfoldable pub write_memory_by_address : MemoryConfig → List ℕ → Memory → Memory
write_memory_by_address c rx s =
    let n = address_format rx + size_format rx in
    if ltb 1 (length rx)
    then if not (address_format rx == 0) && not (size_format rx == 0)
      then if leb (n + 2) (length rx)
        then write_checked c rx n (memory_identifier c.use_memory_id rx)
            (memory_address c.use_memory_id rx) (memory_length rx) s
        else processing_done wrong_length s
      else processing_done out_of_range s
    else processing_done wrong_length s

-- The answers to the calls of DspMemoryMainFunction; the bytes of a read that is done are in the
-- buffer that the first call was given.
unfoldable pub repeat_read : ReadResult → Memory → Memory
repeat_read (read_ok data_read) s = record (processing_done accepted s) {
  response = copy_to 1 data_read s.response;
  state = memory_unused;
}
repeat_read read_pending s = s
repeat_read read_failed s = record (processing_done general_programming_failure s) {
  state = memory_unused;
}

unfoldable pub repeat_write : WriteResult → Memory → Memory
repeat_write write_ok s = record (processing_done accepted s) { state = memory_unused }
repeat_write write_pending s = s
repeat_write write_force_rcrrp s = s
repeat_write write_failed s = record (processing_done general_programming_failure s) {
  state = memory_unused;
}

abbrev memory_main_in : MemoryConfig → MemoryState → Memory → Memory
memory_main_in c memory_unused s = s
memory_main_in c memory_read s =
    let k = read_memory dcm_pending 0 0 0 in
    repeat_read (c.read_answer s.accesses k) (record s { accesses = k ∷ s.accesses })
memory_main_in c memory_write s =
    let k = write_memory dcm_pending 0 0 0 [] in
    repeat_write (c.write_answer s.accesses k) (record s { accesses = k ∷ s.accesses })

-- DspMemoryMainFunction
unfoldable pub memory_main : MemoryConfig → Memory → Memory
memory_main c s = memory_main_in c s.state s
