-- ===== src/Dem/Debounce/Time.antt =====
-- Time based debouncing: a timer started by an unqualified report qualifies the event after the
-- configured time, neither before nor later.
use plug_and_play_autosar.Common.{
  ℕ, zero, suc, ◌+◌, ◌*◌, ◌^◌, ◌≤◌, ◌<◌, ◌≡◌, ◌⊎◌, true, false, arith, Option, none, some,
  if◌then◌else◌, leb, Bool-cases, inl, inr,
}
use plug_and_play_autosar.Dem.Types.{TimeBased, TimeBaseStatus, EventStatus, failed, prefailed}
use plug_and_play_autosar.Dem.Debounce.{pre_debounce_time, advance_timer}

-- `n` calls of the main function, with what the last of them reports.
abbrev pub ticks : ℕ → TimeBased → ℕ → TimeBaseStatus → Option EventStatus × TimeBaseStatus
ticks task v zero t = (none, t)
ticks task v (suc n) t = advance_timer task true v (ticks task v n t).1

-- The entry of a timer that counts failures and has run for `time`.
record Runs (t : TimeBaseStatus) (time : ℕ) : Type 0 where
  started : t.started ≡ true
  counting : t.failure_counting ≡ true
  going : t.counter_reset ≡ false
  elapsed : t.debounce_time ≡ time

module _ (task : ℕ) (v : TimeBased) (fits : v.time_failed_threshold + task < 2 ^ 32) where
  advance_below :
      (t : TimeBaseStatus) (time : ℕ)
      → Runs t time
      → time < v.time_failed_threshold
      → Runs (advance_timer task true v t).1 (time + task)
        × (v.time_failed_threshold ≤ time + task → (advance_timer task true v t).0 ≡ some failed)
        × (time + task < v.time_failed_threshold → (advance_timer task true v t).0 ≡ none)
  unfolding advance_timer
  advance_below t time h lt = ground arith

  -- A timer that a report of prefailed starts is not running yet, or counts towards passed.
  abbrev pub IsIdle : TimeBaseStatus → Type 0
  IsIdle t = (t.started ≡ false) ⊎ (t.failure_counting ≡ false)

  -- The first call of the main function only clears counterReset.
  first_tick :
      (id : ℕ) (t : TimeBaseStatus)
      → IsIdle t
      → 0 < v.time_failed_threshold
      → let s = (pre_debounce_time v prefailed id t).1 in
        Runs (advance_timer task true v s).1 0 × ((advance_timer task true v s).0 ≡ none)
  unfolding pre_debounce_time advance_timer
  first_tick id t h p = ground arith

  ticks_below :
      (n id : ℕ) (t : TimeBaseStatus)
      → IsIdle t
      → n * task < v.time_failed_threshold
      → let s = (pre_debounce_time v prefailed id t).1 in
        Runs (ticks task v (suc n) s).1 (n * task) × ((ticks task v (suc n) s).0 ≡ none)
  ticks_below zero id t h p =
      let e : 0 * task ≡ 0 = omega arith in rw e (first_tick id t h (omega arith))
  ticks_below (suc n) id t h p =
      let s = (pre_debounce_time v prefailed id t).1 in
      let (runs, silent) = ticks_below n id t h (grind arith) in
      let (next, reached, below) =
        advance_below (ticks task v (suc n) s).1 (n * task) runs (grind arith) in
      let e : suc n * task ≡ n * task + task = omega arith in rw e (next, below (omega arith))

  -- A timer that a report of prefailed starts reports nothing as long as the calls of the main
  -- function after the first one make up less than the configured time. The next call reports failed
  -- if it makes that time up, and nothing otherwise. The time does not wrap.
  pub prefailed_times_out :
      (n id : ℕ) (t : TimeBaseStatus)
      → IsIdle t
      → n * task < v.time_failed_threshold
      → let s = (pre_debounce_time v prefailed id t).1 in
        ((ticks task v (suc n) s).0 ≡ none)
        × ((ticks task v (suc (suc n)) s).0
            ≡ (if leb v.time_failed_threshold (suc n * task) then some failed else none))
  prefailed_times_out n id t h p =
      let s = (pre_debounce_time v prefailed id t).1 in
      let (runs, silent) = ticks_below n id t h p in
      let (next, reached, below) = advance_below (ticks task v (suc n) s).1 (n * task) runs p in
      let e : suc n * task ≡ n * task + task = omega arith in
      (
        silent,
        rw e (elim (Bool-cases (leb v.time_failed_threshold (n * task + task))) [
          | inl y ↦ rw y (reached (ground arith))
          | inr other ↦ rw other (below (ground arith))
        ]),
      )
