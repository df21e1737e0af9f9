-- ===== src/Dem/Debounce/Counter.antt =====
-- Counter based debouncing: the counter stays between the thresholds, and the event is qualified
-- exactly where it stands at one of them.
use plug_and_play_autosar.Common.{
  ℕ, zero, suc, ◌*◌, ℤ, pos, negsuc, ◌≤ℤ◌, ◌<ℤ◌, ◌+ℤ◌, ◌-ℤ◌, +ℤ_parts, -ℤ_parts, eq_of_parts,
  to_sint16_of_range, ◌≡◌, ◌↔◌, ◌⊎◌, arith,
}
use plug_and_play_autosar.Dem.Types.{
  CounterBased, EventStatus, EventStatusRec, passed, failed, prepassed, prefailed, invalid,
}
use plug_and_play_autosar.Dem.Debounce.{
  count_up, count_down, next_fdc, qualify, pre_debounce_counter,
}

-- Thresholds on either side of 0, in the range of `sint16`.
pub record IsCounterConfig (v : CounterBased) : Type 0 where
  pub passed_low : v.passed_threshold <ℤ pos 0
  pub failed_high : pos 0 <ℤ v.failed_threshold
  pub passed_fits : negsuc 32767 ≤ℤ v.passed_threshold
  pub failed_fits : v.failed_threshold ≤ℤ pos 32767

pub record InThresholds (v : CounterBased) (fdc : ℤ) : Type 0 where
  pub above_passed : v.passed_threshold ≤ℤ fdc
  pub below_failed : fdc ≤ℤ v.failed_threshold

module _ (v : CounterBased) (fdc : ℤ) (c : IsCounterConfig v) (h : InThresholds v fdc) where
  count_up_bounds : (fdc ≤ℤ count_up v fdc) × (count_up v fdc ≤ℤ v.failed_threshold)
  unfolding count_up
  count_up_bounds = ground (
    arith,
    +ℤ_parts fdc (pos v.increment_step_size),
    +ℤ_parts v.jump_up_value (pos v.increment_step_size),
    to_sint16_of_range (fdc +ℤ pos v.increment_step_size),
    to_sint16_of_range (v.jump_up_value +ℤ pos v.increment_step_size),
  )

  count_down_bounds : (count_down v fdc ≤ℤ fdc) × (v.passed_threshold ≤ℤ count_down v fdc)
  unfolding count_down
  count_down_bounds = ground (
    arith,
    -ℤ_parts fdc (pos v.decrement_step_size),
    -ℤ_parts v.jump_down_value (pos v.decrement_step_size),
    to_sint16_of_range (fdc -ℤ pos v.decrement_step_size),
    to_sint16_of_range (v.jump_down_value -ℤ pos v.decrement_step_size),
  )

  -- One step up gains the step or reaches the threshold.
  count_up_progress :
      (fdc +ℤ pos v.increment_step_size ≤ℤ count_up v fdc) ⊎ (count_up v fdc ≡ v.failed_threshold)
  unfolding count_up
  count_up_progress = ground (
    arith,
    +ℤ_parts fdc (pos v.increment_step_size),
    +ℤ_parts v.jump_up_value (pos v.increment_step_size),
    eq_of_parts fdc v.failed_threshold,
    to_sint16_of_range (fdc +ℤ pos v.increment_step_size),
    to_sint16_of_range (v.jump_up_value +ℤ pos v.increment_step_size),
  )

pub next_fdc-InThresholds :
    (v : CounterBased) (s : EventStatus) (fdc : ℤ)
    → IsCounterConfig v
    → InThresholds v fdc
    → InThresholds v (next_fdc v s fdc)
unfolding next_fdc
next_fdc-InThresholds v prefailed fdc c h = omega (arith, count_up_bounds v fdc c h)
next_fdc-InThresholds v prepassed fdc c h = omega (arith, count_down_bounds v fdc c h)
next_fdc-InThresholds v failed fdc c h = omega arith
next_fdc-InThresholds v passed fdc c h = omega arith
next_fdc-InThresholds v (invalid n) fdc c h = h

next_fdc_reported :
    (v : CounterBased) (s : EventStatus) (fdc : ℤ)
    → (s ≡ failed → next_fdc v s fdc ≡ v.failed_threshold)
      × (s ≡ passed → next_fdc v s fdc ≡ v.passed_threshold)
unfolding next_fdc
next_fdc_reported v s fdc = ground arith

qualify_iff :
    (v : CounterBased) (s : EventStatus) (f : ℤ)
    → IsCounterConfig v
    → InThresholds v f
    → (s ≡ failed → f ≡ v.failed_threshold) × (s ≡ passed → f ≡ v.passed_threshold)
    → ((qualify v s f ≡ failed) ↔ (f ≡ v.failed_threshold))
      × ((qualify v s f ≡ passed) ↔ (f ≡ v.passed_threshold))
unfolding qualify
qualify_iff v s f c h k =
    ground (arith, eq_of_parts f v.failed_threshold, eq_of_parts f v.passed_threshold)

-- Whatever is reported, the fault detection counter stays between the two thresholds, and the event
-- is qualified as failed exactly if it stands at the failed threshold after the report, and as
-- passed exactly if it stands at the passed threshold.
pub pre_debounce_counter_qualifies :
    (v : CounterBased) (s : EventStatus) (r : EventStatusRec)
    → IsCounterConfig v
    → InThresholds v r.fdc_internal
    → let (q, r') = pre_debounce_counter v s r in
      InThresholds v r'.fdc_internal
      × ((q ≡ failed) ↔ (r'.fdc_internal ≡ v.failed_threshold))
      × ((q ≡ passed) ↔ (r'.fdc_internal ≡ v.passed_threshold))
unfolding pre_debounce_counter
pre_debounce_counter_qualifies v s r c h =
    let inside = next_fdc-InThresholds v s r.fdc_internal c h in
    let (at_failed, at_passed) =
      qualify_iff v s (next_fdc v s r.fdc_internal) c inside
        (next_fdc_reported v s r.fdc_internal) in
    (inside, at_failed, at_passed)

-- `n` reports of `s` in a row.
abbrev pub after_reports : CounterBased → EventStatus → ℕ → ℤ → ℤ
after_reports v s zero fdc = fdc
after_reports v s (suc n) fdc = after_reports v s n (next_fdc v s fdc)

-- Enough reports of prefailed in a row, each worth one increment, bring the counter to the failed
-- threshold, from anywhere between the thresholds.
pub prefailed_reaches :
    (v : CounterBased) (n : ℕ) (fdc : ℤ)
    → IsCounterConfig v
    → InThresholds v fdc
    → v.failed_threshold ≤ℤ fdc +ℤ pos (n * v.increment_step_size)
    → after_reports v prefailed n fdc ≡ v.failed_threshold
unfolding next_fdc
prefailed_reaches v zero fdc c h e =
    ground
      (arith, +ℤ_parts fdc (pos (0 * v.increment_step_size)), eq_of_parts fdc v.failed_threshold)
prefailed_reaches v (suc n) fdc c h e =
    prefailed_reaches v n (count_up v fdc) c (omega (arith, count_up_bounds v fdc c h)) (
      ground (
        arith,
        count_up_progress v fdc c h,
        +ℤ_parts fdc (pos v.increment_step_size),
        +ℤ_parts fdc (pos (suc n * v.increment_step_size)),
        +ℤ_parts (count_up v fdc) (pos (n * v.increment_step_size)),
      ))
