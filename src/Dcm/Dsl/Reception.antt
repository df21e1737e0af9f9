-- ===== src/Dcm/Dsl/Reception.antt =====
-- The reception of a request, core/dcm/src/Dcm_Dsl.c: DslStartOfReception and DslCopyDataToRxBuffer.
-- The bytes that the transport layer hands over are a list, whose length is `SduLength`.
pub mod Exclusive
pub mod Copy
use plug_and_play_autosar.Common.{
  ℕ, zero, suc, ◌+◌, ◌-◌, ◌%◌, ◌^◌, Bool, true, false, not, ◌&&◌, ◌||◌, Option, none, some, List,
  [], ◌∷◌, ltb, leb, ◌==◌, if◌then◌else◌, length,
}
use plug_and_play_autosar.Dcm.External.{copy_to}
use plug_and_play_autosar.Dcm.Dsl.{
  interface_buffer_overflow, BufferStatus, buffer_available, buffer_busy, BufferUser, not_in_use,
  provided_to_pdur, Buffer, LocalBuffer, Runtime, ProtocolRx, ProtocolRow, DslConfig, Dsl, DslCall,
  det_error, null_pointer, BufReq, bufreq_ok, bufreq_not_ok, bufreq_busy, bufreq_ovfl, call,
  set_runtime, set_buffer, find_rx, local_buffer_length,
}
use plug_and_play_autosar.Dcm.Dsl.Session.{stop_s3_session_timer}
use plug_and_play_autosar.Dcm.Dsl.Buffers.{check_type2_tx_pdu_available}

abbrev pub is_not_in_use : BufferUser → Bool
is_not_in_use not_in_use = true
is_not_in_use _ = false

abbrev pub is_provided_to_pdur : BufferUser → Bool
is_provided_to_pdur provided_to_pdur = true
is_provided_to_pdur _ = false

abbrev pub is_available : BufferStatus → Bool
is_available buffer_available = true
is_available buffer_busy = false

-- What an operation of the transport layer returns: the state, the result, and the size of the buffer
-- that is written where the operation writes it.
pub record Reply : Type 0 where
  pub state : Dsl
  pub result : BufReq
  pub size : Option ℕ

abbrev reply : Dsl → BufReq → Option ℕ → Reply
reply s r n = record { state = s; result = r; size = n }

-- The external buffer is granted.
unfoldable pub grab_external : DslConfig → ℕ → ℕ → ℕ → ℕ → Dsl → Reply
grab_external c p b id len s =
    let s1 =
      set_buffer b
        (record (s.buffer b) { status = buffer_busy; nof_bytes_handled = 0; rx_pdu_id = id }) s in
    reply
      (set_runtime p
        (record (s1.runtime p) {
          request_length = len;
          external_rx_buffer_status = provided_to_pdur;
        })
        s1)
      bufreq_ok (some (s.buffer b).size)

-- The local buffer is granted, if the request fits.
unfoldable pub grab_local : ℕ → ℕ → ℕ → Dsl → Reply
grab_local p id len s =
    if leb len local_buffer_length
    then reply
        (set_runtime p
          (record (s.runtime p) {
            local_rx_buffer = record (s.runtime p).local_rx_buffer {
              status = provided_to_pdur;
              sdu_length = len;
              nof_bytes_handled = 0;
              rx_pdu_id = id;
            };
          })
          s)
        bufreq_ok (some local_buffer_length)
    else reply s bufreq_not_ok none

-- The choice of a buffer in DslStartOfReception, once a PDU is available.
unfoldable pub choose_buffer : DslConfig → ℕ → ℕ → ℕ → ℕ → Bool → Dsl → Reply
choose_buffer c p b id len internal s =
    if leb len (s.buffer b).size
    then if is_not_in_use (s.runtime p).external_rx_buffer_status
        && is_available (s.buffer b).status
      then grab_external c p b id len s
      else if is_not_in_use (s.runtime p).local_rx_buffer.status && not internal
      then grab_local p id len s
      else reply s bufreq_busy none
    else reply s bufreq_ovfl none

abbrev is_ok : BufReq → Bool
is_ok bufreq_ok = true
is_ok _ = false

-- The timer is stopped, but not by an internal request for periodic data.
abbrev stop_timer : ℕ → Bool → Reply → Reply
stop_timer p int_type2 r =
    if not int_type2 && is_ok r.result
    then reply (set_runtime p (stop_s3_session_timer (r.state.runtime p)) r.state) r.result r.size
    else r

abbrev start_with_buffer : DslConfig → ProtocolRx → ℕ → ℕ → Bool → Option ℕ → Dsl → Reply
start_with_buffer c rx id len internal none s = reply (call null_pointer s) bufreq_not_ok none
start_with_buffer c rx id len internal (some b) s =
    let p = rx.main_connection.protocol in
    let int_type2 = internal && (c.row p).type2 in
    stop_timer p int_type2 (
      if not int_type2 || check_type2_tx_pdu_available c s rx.main_connection
      then choose_buffer c p b id len internal s
      else reply s bufreq_busy none)

abbrev start_of : DslConfig → Option ProtocolRx → ℕ → ℕ → Bool → Dsl → Reply
start_of c none id len internal s = reply s bufreq_not_ok none
start_of c (some rx) id len internal s =
    start_with_buffer c rx id len internal (c.row rx.main_connection.protocol).rx_buffer s

-- DslStartOfReception
unfoldable pub start_of_reception : DslConfig → ℕ → ℕ → Bool → Dsl → Reply
start_of_reception c id len internal s = start_of c (find_rx c id) id len internal s

-- What is left of a buffer, written to a `uint16`.
abbrev pub bytes_left : ℕ → ℕ → ℕ
bytes_left size handled = (size + 2 ^ 16 - handled) % 2 ^ 16

abbrev no_bytes : List ℕ → Bool
no_bytes [] = true
no_bytes (x ∷ xs) = false

-- The bytes go to the external buffer `b`.
unfoldable pub copy_to_external : ℕ → List ℕ → Dsl → Reply
copy_to_external b xs s =
    let v = s.buffer b in
    if no_bytes xs
    then reply s bufreq_ok (some (bytes_left v.size v.nof_bytes_handled))
    else if leb (length xs) (v.size - v.nof_bytes_handled)
    then (let n = (v.nof_bytes_handled + length xs) % 2 ^ 16 in
        reply
          (set_buffer b
            (record v { bytes = copy_to v.nof_bytes_handled xs v.bytes; nof_bytes_handled = n }) s)
          bufreq_ok (some (bytes_left v.size n)))
    else reply (call (det_error interface_buffer_overflow) s) bufreq_not_ok
        (some (bytes_left v.size v.nof_bytes_handled))

abbrev set_local_rx : ℕ → LocalBuffer → Dsl → Dsl
set_local_rx p v s = set_runtime p (record (s.runtime p) { local_rx_buffer = v }) s

-- The bytes go to the local buffer of the protocol `p`.
unfoldable pub copy_to_local : ℕ → List ℕ → Dsl → Reply
copy_to_local p xs s =
    let v = (s.runtime p).local_rx_buffer in
    if no_bytes xs
    then reply s bufreq_ok (some (bytes_left local_buffer_length v.nof_bytes_handled))
    else if leb (length xs) (local_buffer_length - v.nof_bytes_handled)
    then (let n = (v.nof_bytes_handled + length xs) % 2 ^ 16 in
        reply
          (set_local_rx p
            (record v { bytes = copy_to v.nof_bytes_handled xs v.bytes; nof_bytes_handled = n }) s)
          bufreq_ok (some (bytes_left local_buffer_length n)))
    else reply (call (det_error interface_buffer_overflow) s) bufreq_not_ok
        (some (bytes_left local_buffer_length v.nof_bytes_handled))

-- The external buffer is provided for this PDU, where there is one.
abbrev pub holds_external : ℕ → ℕ → Option ℕ → Dsl → Bool
holds_external p id none s = false
holds_external p id (some b) s =
    is_provided_to_pdur (s.runtime p).external_rx_buffer_status && (s.buffer b).rx_pdu_id == id

abbrev pub holds_local : ℕ → ℕ → Dsl → Bool
holds_local p id s =
    is_provided_to_pdur (s.runtime p).local_rx_buffer.status
    && (s.runtime p).local_rx_buffer.rx_pdu_id == id

abbrev copy_external_of : Option ℕ → List ℕ → Dsl → Reply
copy_external_of none xs s = reply s bufreq_not_ok none
copy_external_of (some b) xs s = copy_to_external b xs s

abbrev copy_of : DslConfig → Option ProtocolRx → ℕ → List ℕ → Dsl → Reply
copy_of c none id xs s = reply s bufreq_not_ok none
copy_of c (some rx) id xs s =
    let p = rx.main_connection.protocol in
    let b = (c.row p).rx_buffer in
    if holds_external p id b s
    then copy_external_of b xs s
    else if holds_local p id s
    then copy_to_local p xs s
    else reply s bufreq_not_ok none

-- DslCopyDataToRxBuffer
unfoldable pub copy_data_to_rx_buffer : DslConfig → ℕ → List ℕ → Dsl → Reply
copy_data_to_rx_buffer c id xs s = copy_of c (find_rx c id) id xs s
