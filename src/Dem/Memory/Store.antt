-- ===== src/Dem/Memory/Store.antt =====
-- Storing an event (storeEventMem, storeEventEvtMem) and deleting it (deleteEventMem).
use plug_and_play_autosar.Common.{
  ℕ, ◌<◌, ◌≡◌, refl, ◌∙◌, ◌≢◌, ◌↔◌, ◌⊎◌, inl, inr, Bool, true, false, Option, none, some, List,
  arith, ◌==◌, Bool-cases, Option-cases, length, get_elem?, set, length-set, get_elem?-set_self,
}
use plug_and_play_autosar.Dem.Types.{
  EventRec, EventStatusRec, EventParameter, Origin, primary_memory, secondary_memory, StdReturn,
  e_ok, e_not_ok,
}
use plug_and_play_autosar.Dem.State.{
  Config, Dem, entries_of, with_entries, set_event_block_changed, notify_event_data_changed,
  notify_event_status_change, write_event_status_rec, lookup_event_id_parameter,
}
use plug_and_play_autosar.Dem.Memory.{
  find_entry, empty_entry, allocate_entry, lookup_event_for_displacement, find_and_displace_event,
  reset_displaced, clear_entry, set_overflow_indication, store_event_mem, store_in, write_entry,
  entry_of, store_event_evt_mem, delete_event_mem, indicate_failure, displace_or_fail,
  get_event_for_displacement,
}
use plug_and_play_autosar.Dem.Memory.Entries.{
  IsUnique, find_entry-some, find_entry-none, find_entry-set, set-IsUnique, find_entry-set_empty,
  find_entry-set_absent,
}

-- The buffers stay as they are.
abbrev pub SameEntries : Dem → Dem → Type 0
SameEntries d e = (o : Origin) → entries_of o e ≡ entries_of o d

pub set_event_block_changed_same :
    (c : Config) (o : Origin) (b : Bool) (d : Dem) → SameEntries d (set_event_block_changed c o b d)
unfolding set_event_block_changed
set_event_block_changed_same c o b d q = ground arith

set_overflow_indication_same :
    (c : Config) (o : Origin) (b : Bool) (d : Dem) → SameEntries d (set_overflow_indication c o b d)
unfolding set_overflow_indication set_event_block_changed
set_overflow_indication_same c o b d q = ground arith

pub notify_event_data_changed_same :
    (p : EventParameter) (d : Dem) → SameEntries d (notify_event_data_changed p d)
unfolding notify_event_data_changed
notify_event_data_changed_same p d q = ground arith

pub reset_displaced_same :
    (c : Config) (p : EventParameter) (d : Dem) → SameEntries d (reset_displaced c p d)
unfolding reset_displaced notify_event_status_change write_event_status_rec
reset_displaced_same c p d q = ground arith

-- What allocation in a buffer `es` for the event `id` gives: the position and the buffer.
pub data Allocated (id : ℕ) (es : List EventRec) : Option ℕ → List EventRec → Type 0 where
  unavailable : find_entry id es ≡ none → find_entry 0 es ≡ none → Allocated id es none es
  at_entry : {i : ℕ} → find_entry id es ≡ some i → Allocated id es (some i) es
  at_free :
      {i : ℕ} → find_entry id es ≡ none → find_entry 0 es ≡ some i → Allocated id es (some i) es
  at_displaced :
      {i : ℕ} (q : ℕ)
      → find_entry id es ≡ none
      → find_entry q es ≡ some i
      → Allocated id es (some i) (set es i empty_entry)

pub entries_of-with_entries-set :
    (o : Origin) (i : ℕ) (v : EventRec) (d : Dem)
    → entries_of o (with_entries o (set (entries_of o d) i v) d) ≡ set (entries_of o d) i v
entries_of-with_entries-set o i v d = ground arith

-- What displacement gives for a buffer: nothing, or the position of an entry that it freed.
data Freed (es : List EventRec) : Option ℕ → List EventRec → Type 0 where
  nothing : Freed es none es
  freed : {i : ℕ} (q : ℕ) → find_entry q es ≡ some i → Freed es (some i) (set es i empty_entry)

find_and_displace_event_lem :
    (c : Config) (p : EventParameter) (o : Origin) (d : Dem)
    → let (found, d') = find_and_displace_event c p o d in
      Freed (entries_of o d) found (entries_of o d')
unfolding find_and_displace_event
find_and_displace_event_lem c p o d =
    let found = find_entry p.event_id (entries_of o d) in
    let d1 = clear_entry o found d in
    let same =
      notify_event_data_changed_same p (reset_displaced c p d1) o ∙ reset_displaced_same c p d1 o in
    elim (Option-cases found) [
      | inl z ↦ rw (same, z) nothing
      | inr (i, z) ↦
          rw (same, z, entries_of-with_entries-set o i empty_entry d) (freed p.event_id z)
    ]

lookup_event_for_displacement_lem :
    (c : Config) (p : EventParameter) (o : Origin) (d : Dem)
    → let (found, d') = lookup_event_for_displacement c p o d in
      Freed (entries_of o d) found (entries_of o d')
unfolding lookup_event_for_displacement
lookup_event_for_displacement_lem c p o d =
    elim (Option-cases (get_event_for_displacement c d p (entries_of o d))) [
      | inl z ↦ rw (z, lookup_event_for_displacement) nothing
      | inr (id, z) ↦ elim (Bool-cases (id == 0)) [
        | inl y ↦ rw (z, y, lookup_event_for_displacement) nothing
        | inr y ↦ elim (Option-cases (lookup_event_id_parameter c id)) [
          | inl x ↦ rw (z, y, x, lookup_event_for_displacement) nothing
          | inr (q, x) ↦
              rw (z, y, x, lookup_event_for_displacement) (find_and_displace_event_lem c q o d)
        ]
      ]
    ]

allocated_of_freed :
    {id : ℕ} {es es' : List EventRec} {found : Option ℕ}
    → find_entry id es ≡ none
    → find_entry 0 es ≡ none
    → Freed es found es'
    → Allocated id es found es'
allocated_of_freed h k nothing = unavailable h k
allocated_of_freed h k (freed q z) = at_displaced q h z

pub indicate_failure_lem :
    (c : Config) (p : EventParameter) (o : Origin) (found : Option ℕ) (d : Dem)
    → let (found', d') = indicate_failure c p found d in
      (found' ≡ found) × (entries_of o d' ≡ entries_of o d)
indicate_failure_lem c p o none d =
    (refl, set_overflow_indication_same c p.event_class.event_destination true d o)
indicate_failure_lem c p o (some i) d = (refl, refl)

displace_or_fail_lem :
    (b : Bool) (c : Config) (p : EventParameter) (o : Origin) (d : Dem)
    → let (found, d') = displace_or_fail b c p o d in Freed (entries_of o d) found (entries_of o d')
unfolding displace_or_fail
displace_or_fail_lem true c p o d =
    let (found, d1) = lookup_event_for_displacement c p o d in
    let l = indicate_failure_lem c p o found d1 in
    rw (l.0, l.1) (lookup_event_for_displacement_lem c p o d)
displace_or_fail_lem false c p o d = rw ((indicate_failure_lem c p o none d).1) nothing

allocate_entry_lem :
    (c : Config) (p : EventParameter) (id : ℕ) (o : Origin) (d : Dem)
    → let (found, d') = allocate_entry c p id o d in
      Allocated id (entries_of o d) found (entries_of o d')
unfolding allocate_entry
allocate_entry_lem c p id o d = elim (Option-cases (find_entry id (entries_of o d))) [
  | inr (i, z) ↦ rw (z, allocate_entry) (at_entry z)
  | inl z ↦ elim (Option-cases (find_entry 0 (entries_of o d))) [
    | inr (i, y) ↦ rw (z, y, allocate_entry) (at_free z y)
    | inl y ↦
        rw (z, y, allocate_entry)
          (allocated_of_freed z y (displace_or_fail_lem c.event_displacement_support c p o d))
  ]
]

-- What is left of a buffer and what storeEventMem returns, once a position is found.
abbrev written : Option ℕ → EventRec → List EventRec → List EventRec
written none v es = es
written (some i) v es = set es i v

abbrev result_of : Option ℕ → StdReturn
result_of none = e_not_ok
result_of (some i) = e_ok

write_entry_lem :
    (c : Config) (p : EventParameter) (r : EventStatusRec) (o : Origin) (f : Bool)
    (found : Option ℕ) (d : Dem)
    → let (ret, d') = write_entry c p r o f found d in
      (ret ≡ result_of found) × (entries_of o d' ≡ written found (entry_of r) (entries_of o d))
unfolding write_entry
write_entry_lem c p r o f none d = (refl, refl)
write_entry_lem c p r o f (some i) d = (
  refl,
  set_event_block_changed_same c o _ (with_entries o (set (entries_of o d) i (entry_of r)) d) o
      ∙ entries_of-with_entries-set o i (entry_of r) d,
)

-- The outcome of storing `r` in a buffer: it returns e_ok and the record is what is found for the
-- event, or it returns e_not_ok and nothing is changed in a full buffer without the event.
pub record Stores (r : EventStatusRec) (es : List EventRec) (ret : StdReturn) (es' : List EventRec)
    : Type 0 where
  pub unique : IsUnique es'
  pub same_size : length es' ≡ length es
  pub outcome :
      ((ret ≡ e_ok)
        × ((i : ℕ) × (find_entry r.event_id es' ≡ some i) × (get_elem? es' i ≡ some (entry_of r))))
      ⊎ ((ret ≡ e_not_ok)
          × (es' ≡ es)
          × (find_entry r.event_id es ≡ none)
          × (find_entry 0 es ≡ none))

module _ (r : EventStatusRec) (es : List EventRec) (u : IsUnique es) (n : r.event_id ≢ 0) where
  writes_at :
      (i : ℕ)
      → i < length es
      → (find_entry r.event_id es ≡ none) ⊎ (find_entry r.event_id es ≡ some i)
      → Stores r es e_ok (set es i (entry_of r))
  writes_at i l h = record {
    unique = set-IsUnique es i (entry_of r) u (λ z j e g. elim h [
      | inl a ↦ find_entry-none r.event_id es j a g
      | inr a ↦ e (u.same_position r.event_id i j (find_entry-some r.event_id es i a).1 g n)
    ]);
    same_size = length-set es i (entry_of r);
    outcome = inl (
      refl,
      (
        i,
        find_entry-set r.event_id es i (entry_of r) refl l h,
        get_elem?-set_self es i (entry_of r) l,
      ),
    );
  }

pub empty-IsUnique : (es : List EventRec) (i : ℕ) → IsUnique es → IsUnique (set es i empty_entry)
empty-IsUnique es i u = set-IsUnique es i empty_entry u (λ z j e g. z refl)

Stores-of_allocated :
    (r : EventStatusRec) {es es' : List EventRec} {found : Option ℕ}
    → IsUnique es
    → r.event_id ≢ 0
    → Allocated r.event_id es found es'
    → Stores r es (result_of found) (written found (entry_of r) es')
Stores-of_allocated r {es = es} u n (unavailable h k) = record {
  unique = u;
  same_size = refl;
  outcome = inr (refl, refl, h, k);
}
Stores-of_allocated r {es = es} u n (at_entry {i = i} h) =
    writes_at r es u n i (find_entry-some r.event_id es i h).0 (inr h)
Stores-of_allocated r {es = es} u n (at_free {i = i} h k) =
    writes_at r es u n i (find_entry-some 0 es i k).0 (inl h)
Stores-of_allocated r {es = es} u n (at_displaced {i = i} q h k) =
    let size = length-set es i empty_entry in
    let w =
      writes_at r (set es i empty_entry) (empty-IsUnique es i u) n i
        (rw size (find_entry-some q es i k).0) (inl (find_entry-set_absent r.event_id es i h n)) in
    record {
      unique = w.unique;
      same_size = w.same_size ∙ size;
      outcome = elim w.outcome [ inl a ↦ inl a | inr (a, b, k1, k2) ↦ ground arith ];
    }

-- storeEventMem on a buffer without duplicates, for an event with an id: the buffer keeps its size
-- and has no duplicates afterwards. Either E_OK is returned and the entry found for the event holds
-- the values of its record, or E_NOT_OK is returned, the buffer is as before, and it was full and
-- did not hold the event.
pub store_event_mem-Stores :
    (c : Config) (p : EventParameter) (r : EventStatusRec) (o : Origin) (failed_now : Bool)
    (d : Dem)
    → IsUnique (entries_of o d)
    → r.event_id ≢ 0
    → let (ret, d') = store_event_mem c p r o failed_now d in
      Stores r (entries_of o d) ret (entries_of o d')
unfolding store_event_mem
store_event_mem-Stores c p r o failed_now d u n =
    let (found, d1) = allocate_entry c p r.event_id o d in
    let w = write_entry_lem c p r o failed_now found d1 in
    rw (w.0, w.1) (Stores-of_allocated r u n (allocate_entry_lem c p r.event_id o d))

-- What the memory `o` holds for the event of `r` is its record.
abbrev pub IsStored : EventStatusRec → Origin → Dem → Type 0
IsStored r o d =
    (i : ℕ) × (find_entry r.event_id (entries_of o d) ≡ some i)
    × (get_elem? (entries_of o d) i ≡ some (entry_of r))

Stores-ok :
    {r : EventStatusRec} {es : List EventRec} {ret : StdReturn} {es' : List EventRec}
    → Stores r es ret es'
    → ret ≡ e_ok
    → (i : ℕ) × (find_entry r.event_id es' ≡ some i) × (get_elem? es' i ≡ some (entry_of r))
Stores-ok s e = elim s.outcome [ inl (a, b) ↦ b | inr (a, k1, k2, k3) ↦ absurd (ground arith) ]

store_in_ok :
    (o : Origin) (c : Config) (p : EventParameter) (r : EventStatusRec) (failed_now : Bool)
    (d : Dem)
    → IsUnique (entries_of o d)
    → r.event_id ≢ 0
    → let (ret, d') = store_in o c p r failed_now d in ret ≡ e_ok → IsStored r o d'
unfolding store_in
store_in_ok primary_memory c p r f d u n e =
    Stores-ok (store_event_mem-Stores c p r primary_memory f d u n) e
store_in_ok secondary_memory c p r f d u n e =
    Stores-ok (store_event_mem-Stores c p r secondary_memory f d u n) e
store_in_ok Origin.not_used c p r f d u n e = ground arith
store_in_ok Origin.mirror_memory c p r f d u n e = ground arith
store_in_ok Origin.permanent_memory c p r f d u n e = ground arith

pub store_event_evt_mem_ok :
    (c : Config) (p : EventParameter) (r : EventStatusRec) (failed_now : Bool) (d : Dem)
    → IsUnique (entries_of p.event_class.event_destination d)
    → r.event_id ≢ 0
    → let (ret, d') = store_event_evt_mem c p r failed_now d in
      ret ≡ e_ok → IsStored r p.event_class.event_destination d'
unfolding store_event_evt_mem
store_event_evt_mem_ok c p r failed_now d u n e =
    store_in_ok p.event_class.event_destination c p r failed_now d u n e

-- deleteEventMem on a buffer without duplicates, for an event with an id: it returns TRUE exactly if
-- the event was stored; afterwards the event is not stored, and there are no duplicates.
pub delete_event_mem_deletes :
    (c : Config) (p : EventParameter) (o : Origin) (d : Dem)
    → IsUnique (entries_of o d)
    → p.event_id ≢ 0
    → let (deleted, d') = delete_event_mem c p o d in
      (find_entry p.event_id (entries_of o d') ≡ none)
      × IsUnique (entries_of o d')
      × ((deleted ≡ false) ↔ (find_entry p.event_id (entries_of o d) ≡ none))
unfolding delete_event_mem
delete_event_mem_deletes c p o d u n =
    elim (Option-cases (find_entry p.event_id (entries_of o d))) [
      | inl z ↦ rw (z, delete_event_mem) (z, u, ((λ e. refl), (λ e. refl)))
      | inr (i, z) ↦
          (let es = set (entries_of o d) i empty_entry in
            let same =
              set_event_block_changed_same c o false (with_entries o es d) o
              ∙ entries_of-with_entries-set o i empty_entry d in
            rw (z, delete_event_mem, same)
              (
                find_entry-set_empty p.event_id (entries_of o d) i u z n,
                empty-IsUnique (entries_of o d) i u,
                ((λ e. ground arith), (λ e. ground arith)),
              ))
    ]
