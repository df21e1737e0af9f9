-- ===== src/Dcm/Dsp/Memory/Ranges.antt =====
-- Which memory the services by address reach, core/dcm/src/Dcm_Dsp.c.
use plug_and_play_autosar.Common.{
  ℕ, suc, ◌+◌, ◌^◌, ◌≤◌, ◌<◌, ◌≡◌, ◌⊎◌, refl, ap, subst, Bool, true, false, not, ◌&&◌, ◌||◌, some,
  List, [], ◌∷◌, leb, ◌==◌, length, get_elem?, Bool-cases, Option-cases, inl, inr, arith,
}
use plug_and_play_autosar.Dcm.Dsd.{Levels, check_security_level}
use plug_and_play_autosar.Dcm.Dsp.Security.{dcm_initial, accepted}
use plug_and_play_autosar.Dcm.Dsp.Memory.{
  MemoryRange, MemoryId, MemoryConfig, MemoryCall, read_memory, write_memory, MemoryService,
  dcm_read_memory, dcm_write_memory, find_range, ranges_of, code_or, check_address_range,
  last_address, out_of_range,
}

-- An access of `len` bytes at `address` lies in a range, unless its end passes the last address that a
-- `uint32` holds.
pub record Within (r : MemoryRange) (address len : ℕ) : Type 0 where
  pub from : r.address_low ≤ address
  pub starts : address ≤ r.address_high
  pub ends : (address + len ≤ r.address_high + 1) ⊎ (2 ^ 32 < address + len)

find_range-Within :
    (rs : List MemoryRange) (address len : ℕ) (r : MemoryRange)
    → address < 2 ^ 32
    → len < 2 ^ 32
    → find_range rs address len ≡ some r
    → ((j : ℕ) × (get_elem? rs j ≡ some r)) × Within r address len
unfolding find_range
find_range-Within [] address len r ha hl e = cc
find_range-Within (q ∷ rs) address len r ha hl e =
    elim (Bool-cases (
      leb q.address_low address
      && (leb address q.address_high && leb (last_address address len) q.address_high))) [
        | inl y ↦
            let same : q ≡ r = cc (rw y at e) in
            (
              (0, ap some same),
              subst (λ u. Within u address len) same
                  (record {
                    from = ground (arith, y);
                    starts = ground (arith, y);
                    ends = ground (arith, y, ha, hl);
                  }),
            )
        | inr n ↦
            let ((j, at), w) = find_range-Within rs address len r ha hl (rw n at e) in
            ((suc j, at), w)
      ]

-- Why an access is allowed: a memory of the table has the id, if ids are used, a range of it for the
-- service holds the access, and the security level is one of the range.
pub record Allowed (service : MemoryService) (use_id : Bool) (v : Levels) (ms : List MemoryId)
    (id address len : ℕ) : Type 0 where
  pub memory : MemoryId
  pub of_table : (i : ℕ) × (get_elem? ms i ≡ some memory)
  pub same_id : (use_id ≡ false) ⊎ (memory.memory_id_value ≡ id)
  pub range : MemoryRange
  pub of_memory : (j : ℕ) × (get_elem? (ranges_of service memory) j ≡ some range)
  pub within : Within range address len
  pub unlocked : check_security_level v range.levels ≡ true

Allowed-next :
    (service : MemoryService) (use_id : Bool) (v : Levels) (m : MemoryId) (ms : List MemoryId)
    (id address len : ℕ)
    → Allowed service use_id v ms id address len
    → Allowed service use_id v (m ∷ ms) id address len
Allowed-next service use_id v m ms id address len a = record {
  memory = a.memory;
  of_table = (suc a.of_table.0, a.of_table.1);
  same_id = a.same_id;
  range = a.range;
  of_memory = a.of_memory;
  within = a.within;
  unlocked = a.unlocked;
}

range_code_accepted :
    (v : Levels) (r : MemoryRange)
    → code_or (some r) v out_of_range ≡ accepted
    → check_security_level v r.levels ≡ true
range_code_accepted v r e = ground (arith, e)

pub check_address_range-Allowed :
    (service : MemoryService) (use_id : Bool) (v : Levels) (ms : List MemoryId) (id address len : ℕ)
    → address < 2 ^ 32
    → len < 2 ^ 32
    → check_address_range service use_id v ms id address len ≡ accepted
    → Allowed service use_id v ms id address len
unfolding check_address_range
check_address_range-Allowed service use_id v [] id address len ha hl e = ground (arith, e)
check_address_range-Allowed service use_id v (m ∷ ms) id address len ha hl e =
    let next = (λ (k : check_address_range service use_id v ms id address len ≡ accepted).
      Allowed-next service use_id v m ms id address len
        (check_address_range-Allowed service use_id v ms id address len ha hl k)) in
    elim (Bool-cases ((use_id && m.memory_id_value == id) || not use_id)) [
      | inr n ↦ next (rw n at e)
      | inl y ↦ elim (Option-cases (find_range (ranges_of service m) address len)) [
        | inl missing ↦ next (rw (y, missing) at e)
        | inr (r, found) ↦
            let (at, w) = find_range-Within (ranges_of service m) address len r ha hl found in
            record {
              memory = m;
              of_table = (0, refl);
              same_id = ground (arith, y);
              range = r;
              of_memory = at;
              within = w;
              unlocked = range_code_accepted v r (rw (y, found) at e);
            }
      ]
    ]

-- A call of the integrator that the configuration allows at the levels of the session layer; a
-- repeated call names no memory.
abbrev pub IsAllowed : MemoryConfig → Levels → MemoryCall → Type 0
IsAllowed c v (read_memory dcm_initial id address len) =
    Allowed dcm_read_memory c.use_memory_id v c.memory_ids id address len
IsAllowed c v (write_memory dcm_initial id address len source) =
    Allowed dcm_write_memory c.use_memory_id v c.memory_ids id address len × (length source ≡ len)
IsAllowed c v (read_memory _ id address len) = (id ≡ 0) × ((address ≡ 0) × (len ≡ 0))
IsAllowed c v (write_memory _ id address len source) =
    (id ≡ 0) × ((address ≡ 0) × ((len ≡ 0) × (source ≡ [])))
