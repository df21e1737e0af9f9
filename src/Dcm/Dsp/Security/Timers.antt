-- ===== src/Dcm/Dsp/Security/Timers.antt =====
-- The delays after wrong keys and at the start, DspTimerMain and DspInit of core/dcm/src/Dcm_Dsp.c.
use plug_and_play_autosar.Common.{
  ℕ, zero, suc, ◌-◌, Bool, false, List, [], ◌∷◌, ltb, leb, if◌then◌else◌,
}
use plug_and_play_autosar.Dcm.Dsl.{update}
use plug_and_play_autosar.Dcm.Dsp.Security.{
  is_deactive, SecurityRow, FalseAttempts, SecurityAccess, SecurityConfig, delay_timer_deactive,
  delay_timer_on_boot_active,
}

-- TIMER_DECREMENT
abbrev timer_decrement : ℕ → ℕ → ℕ
timer_decrement period t = if leb period t then t - period else t

-- One round of DspTimerMain.
unfoldable pub tick_attempts : ℕ → FalseAttempts → FalseAttempts
tick_attempts period k =
    if is_deactive k.delay
    then k
    else (let t = timer_decrement period k.timer in
        if ltb t period
        then record k { timer = t; delay = delay_timer_deactive }
        else record k { timer = t })

-- The loop of DspTimerMain, over `n` rows from `i` on.
unfoldable pub timer_main : ℕ → SecurityConfig → ℕ → SecurityAccess → SecurityAccess
timer_main zero c i a = a
timer_main (suc n) c i a = timer_main n c (suc i) (record a {
  false_attempts = update a.false_attempts i (tick_attempts c.main_period (a.false_attempts i));
})

-- The part of DspInit for one row, on the first call.
unfoldable pub init_attempts : ℕ → SecurityRow → FalseAttempts → FalseAttempts
init_attempts period row k =
    if leb period row.delay_time_on_boot
    then record k {
      attempts = 0;
      timer = row.delay_time_on_boot;
      delay = delay_timer_on_boot_active;
    }
    else record k { attempts = 0; delay = delay_timer_deactive }

unfoldable pub init_all_attempts :
    ℕ → ℕ → List SecurityRow → (ℕ → FalseAttempts) → ℕ → FalseAttempts
init_all_attempts period i [] f = f
init_all_attempts period i (r ∷ rs) f =
    init_all_attempts period (suc i) rs (update f i (init_attempts period r (f i)))

-- The part of DspInit that is about security access.
unfoldable pub init_security : SecurityConfig → Bool → SecurityAccess → SecurityAccess
init_security c first a =
    let a1 = record a { req_in_progress = false } in
    if first
    then record a1 {
      false_attempts = init_all_attempts c.main_period 0 c.rows a.false_attempts;
      curr_sec_lev_idx = 0;
    }
    else a1
