-- ===== src/Dem/Memory/Frame.antt =====
-- Storing in one memory and deleting from it leave the other memory as it is.
use plug_and_play_autosar.Common.{
  ◌≡◌, ◌∙◌, refl, ℕ, inl, inr, Bool, true, false, Option, none, some, List, ◌==◌, Bool-cases,
  Option-cases, set,
}
use plug_and_play_autosar.Dem.Types.{EventRec, EventStatusRec, EventParameter, Origin}
use plug_and_play_autosar.Dem.State.{
  Config, Dem, entries_of, with_entries, lookup_event_id_parameter,
}
use plug_and_play_autosar.Dem.Memory.{
  find_entry, empty_entry, entry_of, clear_entry, reset_displaced, find_and_displace_event,
  lookup_event_for_displacement, get_event_for_displacement, displace_or_fail, allocate_entry,
  write_entry, store_event_mem, delete_event_mem,
}
use plug_and_play_autosar.Dem.Memory.Store.{
  set_event_block_changed_same, notify_event_data_changed_same, reset_displaced_same,
  indicate_failure_lem,
}

-- `q` is another memory than `o`.
module _ (c : Config) (o q : Origin)
    (apart : (es : List EventRec) (d : Dem)
      → entries_of q (with_entries o es d) ≡ entries_of q d) where
  clear_entry_other :
      (found : Option ℕ) (d : Dem) → entries_of q (clear_entry o found d) ≡ entries_of q d
  clear_entry_other none d = refl
  clear_entry_other (some i) d = apart _ d

  find_and_displace_event_other :
      (p : EventParameter) (d : Dem)
      → entries_of q (find_and_displace_event c p o d).1 ≡ entries_of q d
  unfolding find_and_displace_event
  find_and_displace_event_other p d =
      let found = find_entry p.event_id (entries_of o d) in
      let d1 = clear_entry o found d in
      notify_event_data_changed_same p (reset_displaced c p d1) q
      ∙ (reset_displaced_same c p d1 q ∙ clear_entry_other found d)

  lookup_event_for_displacement_other :
      (p : EventParameter) (d : Dem)
      → entries_of q (lookup_event_for_displacement c p o d).1 ≡ entries_of q d
  unfolding lookup_event_for_displacement
  lookup_event_for_displacement_other p d =
      elim (Option-cases (get_event_for_displacement c d p (entries_of o d))) [
        | inl z ↦ rw (z, lookup_event_for_displacement) refl
        | inr (id, z) ↦ elim (Bool-cases (id == 0)) [
          | inl y ↦ rw (z, y, lookup_event_for_displacement) refl
          | inr y ↦ elim (Option-cases (lookup_event_id_parameter c id)) [
            | inl x ↦ rw (z, y, x, lookup_event_for_displacement) refl
            | inr (r, x) ↦
                rw (z, y, x, lookup_event_for_displacement) (find_and_displace_event_other r d)
          ]
        ]
      ]

  displace_or_fail_other :
      (b : Bool) (p : EventParameter) (d : Dem)
      → entries_of q (displace_or_fail b c p o d).1 ≡ entries_of q d
  unfolding displace_or_fail
  displace_or_fail_other true p d =
      let (found, d1) = lookup_event_for_displacement c p o d in
      (indicate_failure_lem c p q found d1).1 ∙ lookup_event_for_displacement_other p d
  displace_or_fail_other false p d = (indicate_failure_lem c p q none d).1

  allocate_entry_other :
      (p : EventParameter) (id : ℕ) (d : Dem)
      → entries_of q (allocate_entry c p id o d).1 ≡ entries_of q d
  unfolding allocate_entry
  allocate_entry_other p id d = elim (Option-cases (find_entry id (entries_of o d))) [
    | inr (i, z) ↦ rw (z, allocate_entry) refl
    | inl z ↦ elim (Option-cases (find_entry 0 (entries_of o d))) [
      | inr (i, y) ↦ rw (z, y, allocate_entry) refl
      | inl y ↦ rw (z, y, allocate_entry) (displace_or_fail_other c.event_displacement_support p d)
    ]
  ]

  write_entry_other :
      (p : EventParameter) (r : EventStatusRec) (f : Bool) (found : Option ℕ) (d : Dem)
      → entries_of q (write_entry c p r o f found d).1 ≡ entries_of q d
  unfolding write_entry
  write_entry_other p r f none d = refl
  write_entry_other p r f (some i) d =
      set_event_block_changed_same c o _ (with_entries o (set (entries_of o d) i (entry_of r)) d) q
      ∙ apart _ d

  pub store_event_mem_other :
      (p : EventParameter) (r : EventStatusRec) (f : Bool) (d : Dem)
      → entries_of q (store_event_mem c p r o f d).1 ≡ entries_of q d
  unfolding store_event_mem
  store_event_mem_other p r f d =
      let (found, d1) = allocate_entry c p r.event_id o d in
      write_entry_other p r f found d1 ∙ allocate_entry_other p r.event_id d

  pub delete_event_mem_other :
      (p : EventParameter) (d : Dem) → entries_of q (delete_event_mem c p o d).1 ≡ entries_of q d
  unfolding delete_event_mem
  delete_event_mem_other p d = elim (Option-cases (find_entry p.event_id (entries_of o d))) [
    | inl z ↦ rw (z, delete_event_mem) refl
    | inr (i, z) ↦
        rw (z, delete_event_mem)
          (set_event_block_changed_same c o false
              (with_entries o (set (entries_of o d) i empty_entry) d) q
            ∙ apart _ d)
  ]
