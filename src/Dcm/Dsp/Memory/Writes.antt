-- ===== src/Dcm/Dsp/Memory/Writes.antt =====
-- The data of a write by address, DspUdsWriteMemoryByAddress of core/dcm/src/Dcm_Dsp.c.
use plug_and_play_autosar.Common.{
  ℕ, suc, ◌+◌, ◌^◌, ◌%◌, ◌≤◌, ◌<◌, ◌≡◌, refl, ap, ◌∙◌, Bool, true, false, not, ◌&&◌, if◌then◌else◌,
  List, [], ◌∷◌, ltb, leb, ◌==◌, length, drop, take, set, if_true, take-length, length-take-drop,
  arith, ==_iff,
}
use plug_and_play_autosar.Dcm.Dsp.Security.{accepted, dcm_initial}
use plug_and_play_autosar.Dcm.Dsp.Memory.{
  MemoryConfig, Memory, write_memory, WriteResult, write_ok, write_pending, write_failed,
  write_force_rcrrp, dcm_write_memory, size_format, address_format, memory_identifier,
  memory_address, memory_length, check_address_range, write_loop, write_step, write_response,
  end_write, write_memory_data, write_checked, write_memory_by_address,
}
use plug_and_play_autosar.Dcm.Dsp.Memory.Requests.{
  request, request-Parsed, sid_write_memory_by_address,
}

write_loop_accesses :
    (is_pending : Bool) (bs : List ℕ) (i : ℕ) (s : Memory)
    → (write_loop is_pending bs i s).accesses ≡ s.accesses
unfolding write_loop
write_loop_accesses is_pending [] i s = refl
write_loop_accesses true (b ∷ bs) i s = write_loop_accesses true bs (suc i) _
write_loop_accesses false (b ∷ bs) i s = write_loop_accesses false bs (suc i) _

pub end_write_accesses :
    (rx : List ℕ) (n : ℕ) (r : WriteResult) (s : Memory)
    → (end_write rx n r s).accesses ≡ s.accesses
unfolding end_write write_response
end_write_accesses rx n write_failed s = refl
end_write_accesses rx n write_pending s = write_loop_accesses true _ 2 _
end_write_accesses rx n write_ok s = write_loop_accesses false _ 2 _
end_write_accesses rx n write_force_rcrrp s = write_loop_accesses false _ 2 _

-- The call that write_memory_data makes, where the bytes behind the address and the length are known.
write_memory_data_call :
    (c : MemoryConfig) (rx : List ℕ) (n id address : ℕ) (source : List ℕ) (s : Memory)
    → drop (2 + n) rx ≡ source
    → (write_memory_data c rx n id address (length source) s).accesses
      ≡ write_memory dcm_initial id address (length source) source ∷ s.accesses
unfolding write_memory_data
write_memory_data_call c rx n id address source s e =
    end_write_accesses rx n _ _
    ∙ ap (λ t. write_memory dcm_initial id address (length source) t ∷ s.accesses)
        (ap (take (length source)) e ∙ take-length source)

write_checked_call :
    (c : MemoryConfig) (rx : List ℕ) (n id address : ℕ) (source : List ℕ) (s : Memory)
    → length rx ≡ 2 + n + length source
    → length rx < 2 ^ 32
    → drop (2 + n) rx ≡ source
    → check_address_range dcm_write_memory c.use_memory_id s.now c.memory_ids id address
        (length source)
      ≡ accepted
    → 2 + n ≤ s.response_length
    → (write_checked c rx n id address (length source) s).accesses
      ≡ write_memory dcm_initial id address (length source) source ∷ s.accesses
unfolding write_checked
write_checked_call c rx n id address source s long small e ok room =
    let whole : ((n + 2 + length source) % 2 ^ 32 == length rx) ≡ true =
      ground (arith, long, small) in
    let fits : leb (2 + n) s.response_length ≡ true = ground (arith, room) in
    ap (λ (t : Memory). t.accesses)
      (if_true _ whole ∙ if_true _ ((==_iff _ _).1 ok) ∙ if_true _ fits)
    ∙ write_memory_data_call c rx n id address source s e

-- A write as a tester writes it, that the ranges allow and whose response fits, hands the integrator
-- the memory, the address and exactly the bytes behind the length. The address fits its bytes, at most
-- 14 of them, and the length its own, at most 15; both and the whole request fit 32 bits. The id is
-- read if memory ids are used.
pub write_memory_by_address-request :
    (c : MemoryConfig) (id n m address : ℕ) (source : List ℕ) (s : Memory)
    → 0 < n
    → n < 15
    → 0 < m
    → m < 16
    → address < 256 ^ n
    → address < 2 ^ 32
    → length source < 256 ^ m
    → 2 + (if c.use_memory_id then suc n else n) + m + length source < 2 ^ 32
    → 2 + (if c.use_memory_id then suc n else n) + m ≤ s.response_length
    → check_address_range dcm_write_memory c.use_memory_id s.now c.memory_ids
        (if c.use_memory_id then id else 0)
        address
        (length source)
      ≡ accepted
    → (write_memory_by_address c
        (request sid_write_memory_by_address c.use_memory_id id n m address (length source) source)
        s).accesses
      ≡ write_memory dcm_initial (if c.use_memory_id then id else 0) address (length source) source
        ∷ s.accesses
unfolding write_memory_by_address
write_memory_by_address-request c id n m address source s pn hn pm hm ha wa hl small room ok =
    let k = if c.use_memory_id then suc n else n in
    let rx =
      request sid_write_memory_by_address c.use_memory_id id n m address (length source) source in
    let p =
      request-Parsed sid_write_memory_by_address c.use_memory_id id n m address (length source)
        source hn hm ha wa hl (omega (arith, small)) in
    let a : ltb 1 (length rx) ≡ true = ground (arith, p.all_bytes) in
    let nonzero : (not (address_format rx == 0) && not (size_format rx == 0)) ≡ true =
      ground (arith, p.address_is, p.size_is, pn, pm) in
    let bytes : address_format rx + size_format rx ≡ k + m =
      ground (arith, p.address_is, p.size_is) in
    let enough : leb (address_format rx + size_format rx + 2) (length rx) ≡ true =
      ground (arith, bytes, p.all_bytes) in
    let id_read = if c.use_memory_id then id else 0 in
    let parsed : write_checked c rx (address_format rx + size_format rx)
          (memory_identifier c.use_memory_id rx) (memory_address c.use_memory_id rx)
          (memory_length rx) s
        ≡ write_checked c rx (k + m) id_read address (length source) s =
      rw (bytes, p.id_is, p.memory_is, p.length_is) refl in
    ap (λ (t : Memory). t.accesses) (if_true _ a ∙ if_true _ nonzero ∙ if_true _ enough ∙ parsed)
    ∙ write_checked_call c rx (k + m) id_read address source s (p.all_bytes ∙ omega arith)
        (omega (arith, p.all_bytes, small)) (ap (λ j. drop j rx) (omega arith) ∙ p.rest) ok
        (omega (arith, room))

write_loop_codes :
    (bs : List ℕ) (i : ℕ) (s : Memory)
    → length (write_loop false bs i s).codes ≡ length bs + length s.codes
unfolding write_loop
write_loop_codes [] i s = omega arith
write_loop_codes (b ∷ bs) i s =
    write_loop_codes bs (suc i) (write_step false (record s { response = set s.response i b }))
    ∙ omega arith

-- The response to a write that is done at once ends the processing of the request as often as the
-- request has bytes of address and length.
pub end_write_codes :
    (rx : List ℕ) (n : ℕ) (s : Memory)
    → 2 + n ≤ length rx
    → length (end_write rx n write_ok s).codes ≡ n + length s.codes
unfolding end_write write_response
end_write_codes rx n s h =
    write_loop_codes (take n (drop 2 rx)) 2 _ ∙ ground (arith, length-take-drop 2 n rx h)
