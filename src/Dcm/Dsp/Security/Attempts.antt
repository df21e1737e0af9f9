-- ===== src/Dcm/Dsp/Security/Attempts.antt =====
-- How many keys can be tried before the delay, core/dcm/src/Dcm_Dsp.c.
use plug_and_play_autosar.Common.{
  ℕ, zero, suc, ◌+◌, ◌-◌, ◌*◌, ◌%◌, ◌≤◌, ◌<◌, ◌≡◌, refl, sym, ap, ◌∙◌, subst, true, false, List,
  ltb, ◌==◌, if_ind, if_false, arith,
}
use plug_and_play_autosar.Dcm.Dsl.{update, update_self}
use plug_and_play_autosar.Dcm.Dsl.Session.{get_security_level}
use plug_and_play_autosar.Dcm.Dsp.Security.{
  SecurityAccess, SecurityRow, SecurityConfig, FalseAttempts, is_deactive,
  required_time_delay_not_expired, response_pending_code,
}
use plug_and_play_autosar.Dcm.Dsp.Security.Access.{
  count_attempt, delay_time_of, compare_key_sub_fnc, finish, security_access,
}
use plug_and_play_autosar.Dcm.Dsp.Security.Guessing.{
  Guessing, access_seed, access_key, Ready, SeedGiven, seed_step, compare_key_sub_fnc_wrong,
  delayed_seed,
}

-- `n` times a request of a seed and a key, with no time between them.
unfoldable pub guesses : SecurityConfig → List ℕ → List ℕ → ℕ → SecurityAccess → SecurityAccess
guesses c seed key zero a = a
guesses c seed key (suc n) a =
    guesses c seed key n (security_access c key (security_access c seed a))

-- Where a run of guesses stands, when the application may be asked `bound` times in all.
data Stage (c : SecurityConfig) (level index current : ℕ) (row : SecurityRow) (bound : ℕ)
    (a : SecurityAccess) : Type 0 where
  stage_ready :
      (m : ℕ)
      → m < row.num_att_delay
      → (a.false_attempts index).attempts ≡ m
      → Ready level index current row a
      → a.backed + 2 * (row.num_att_delay - m) ≤ bound
      → Stage c level index current row bound a
  stage_delayed :
      is_deactive (a.false_attempts index).delay ≡ false
      → a.backed ≤ bound
      → Stage c level index current row bound a

finish-Ready :
    (level index current : ℕ) (row : SecurityRow) (r : SecurityAccess × ℕ)
    → Ready level index current row r.0
    → Ready level index current row (finish r)
finish-Ready level index current row r k =
    if_ind (Ready level index current row) (r.1 == response_pending_code)
      (λ _. record { no_delay = k.no_delay; fits = k.fits; active = k.active; locked = k.locked })
      (λ _. record { no_delay = k.no_delay; fits = k.fits; active = k.active; locked = k.locked })

finish_keeps :
    (r : SecurityAccess × ℕ)
    → ((finish r).false_attempts ≡ r.0.false_attempts) × ((finish r).backed ≡ r.0.backed)
finish_keeps r = (ground arith, ground arith)

finish-Stage :
    (c : SecurityConfig) (level index current : ℕ) (row : SecurityRow) (bound : ℕ)
    (r : SecurityAccess × ℕ)
    → Stage c level index current row bound r.0
    → Stage c level index current row bound (finish r)
finish-Stage c level index current row bound r (stage_ready m few k t within) =
    let (f, b) = finish_keeps r in
    stage_ready m few (ap (λ u. (u index).attempts) f ∙ k)
      (finish-Ready level index current row r t) (ground (arith, b, within))
finish-Stage c level index current row bound r (stage_delayed d within) =
    let (f, b) = finish_keeps r in
    stage_delayed (ap (λ u. is_deactive (u index).delay) f ∙ d) (ground (arith, b, within))

delayed_key :
    (c : SecurityConfig) (level : ℕ) (key : List ℕ) (a : SecurityAccess)
    → is_deactive (a.false_attempts a.curr_sec_lev_idx).delay ≡ false
    → (compare_key_sub_fnc c key level false a).0 ≡ a
unfolding compare_key_sub_fnc
delayed_key c level key a d =
    if_ind (λ (q : SecurityAccess × ℕ). q.0 ≡ a) (level == a.req_sec_level)
      (λ _.
        if_ind (λ (q : SecurityAccess × ℕ). q.0 ≡ a) a.req_in_progress
          (λ _. ap (λ (q : SecurityAccess × ℕ). q.0) (if_false _ d)) (λ _. refl))
      (λ _. refl)

module _ {c : SecurityConfig} {level index : ℕ} {row : SecurityRow} {seed key : List ℕ}
    (g : Guessing c level index row seed key) (current : ℕ) (bound : ℕ) where
  count_Stage :
      (m : ℕ) (a : SecurityAccess)
      → m < row.num_att_delay
      → (a.false_attempts index).attempts ≡ m
      → Ready level index current row a
      → a.curr_sec_lev_idx ≡ index
      → a.backed + 2 * (row.num_att_delay - suc m) ≤ bound
      → Stage c level index current row bound (count_attempt c row a).0
  unfolding count_attempt
  count_Stage m a few k r i within =
      let f = a.false_attempts in
      let j = a.curr_sec_lev_idx in
      let same : (f j).attempts ≡ m = ap (λ u. (f u).attempts) i ∙ k in
      if_ind (λ (q : SecurityAccess × ℕ). Stage c level index current row bound q.0)
        (ltb (((f j).attempts + 1) % 256) row.num_att_delay)
        (λ y.
          let v = record (f j) { attempts = ((f j).attempts + 1) % 256 } in
          let at : update f j v index ≡ v = subst (λ u. update f j v u ≡ v) i (update_self f j v) in
          stage_ready (suc m) (ground (arith, y, same, few, g.few))
            (ap (λ u. u.attempts) at ∙ ground (arith, same, few, g.few))
            (record {
              no_delay =
                  ap (λ u. is_deactive u.delay) at
                  ∙ ap (λ u. is_deactive (f u).delay) i
                  ∙ r.no_delay;
              fits = r.fits;
              active = r.active;
              locked = r.locked;
            })
            within)
        (λ n.
          let long : ltb (delay_time_of c j) c.main_period ≡ false =
            ground (arith, g.delays, g.delay_time, ap (delay_time_of c) i) in
          let at = (λ (v : FalseAttempts). subst (λ u. update f j v u ≡ v) i (update_self f j v)) in
          stage_delayed (ap (λ u. is_deactive u.delay) (at _ ∙ if_false _ long))
            (ground (arith, within)))

  delayed_Stage :
      (a : SecurityAccess)
      → is_deactive (a.false_attempts index).delay ≡ false
      → a.backed ≤ bound
      → Stage c level index current row bound (security_access c key (security_access c seed a))
  delayed_Stage a d within =
      let r : SecurityAccess × ℕ =
        (record a { curr_sec_lev_idx = index }, required_time_delay_not_expired) in
      let b = finish r in
      let first : security_access c seed a ≡ b =
        access_seed c level seed row.adr_size a g.asks_length g.asks g.asks_in_range g.asks_level
        ∙ ap finish (delayed_seed g a d) in
      let q = compare_key_sub_fnc c key level false b in
      let same : q.0 ≡ b = delayed_key c level key b d in
      subst (λ t. Stage c level index current row bound (security_access c key t)) (sym first)
        (subst (Stage c level index current row bound)
          (sym (
            access_key c level key row.key_size b g.sends_length g.sends g.sends_in_range
              g.sends_level))
          (finish-Stage c level index current row bound q
            (subst (Stage c level index current row bound) (sym same) (stage_delayed d within))))

  Ready-Stage :
      (m : ℕ) (a : SecurityAccess)
      → m < row.num_att_delay
      → (a.false_attempts index).attempts ≡ m
      → Ready level index current row a
      → a.backed + 2 * (row.num_att_delay - m) ≤ bound
      → (b : SecurityAccess) → SeedGiven level index row a b
      → Stage c level index current row bound (security_access c key b)
  Ready-Stage m a few k r within b s =
      let none_runs : is_deactive (b.false_attempts index).delay ≡ true =
        ap (λ u. is_deactive (u index).delay) s.attempts ∙ r.no_delay in
      let b1 = record b { req_in_progress = false; backed = suc b.backed } in
      let e : security_access c key b ≡ finish (count_attempt c row b1) =
        access_key c level key row.key_size b g.sends_length g.sends g.sends_in_range g.sends_level
        ∙ ap finish (
            compare_key_sub_fnc_wrong g b s.at_index s.same_level s.for_row s.in_progress
              none_runs) in
      let t : Ready level index current row b1 = record {
        no_delay = none_runs;
        fits = ground (arith, s.room);
        active = ap get_security_level s.same_dsl ∙ r.active;
        locked = r.locked;
      } in
      subst (Stage c level index current row bound) (sym e) (
        finish-Stage c level index current row bound (count_attempt c row b1) (
          count_Stage m b1 few (ap (λ u. (u index).attempts) s.attempts ∙ k) t s.at_index
            (omega (arith, s.asked, within, few))))

  round_Stage :
      (a : SecurityAccess)
      → Stage c level index current row bound a
      → Stage c level index current row bound (security_access c key (security_access c seed a))
  round_Stage a (stage_ready m few k r within) =
      Ready-Stage m a few k r within (security_access c seed a) (seed_step g a r)
  round_Stage a (stage_delayed d within) = delayed_Stage a d within

  guesses-Stage :
      (n : ℕ) (a : SecurityAccess)
      → Stage c level index current row bound a
      → Stage c level index current row bound (guesses c seed key n a)
  unfolding guesses
  guesses-Stage zero a s = s
  guesses-Stage (suc n) a s = guesses-Stage n _ (round_Stage a s)

Stage-backed :
    (c : SecurityConfig) (level index current : ℕ) (row : SecurityRow) (bound : ℕ)
    (a : SecurityAccess)
    → Stage c level index current row bound a
    → a.backed ≤ bound
Stage-backed c level index current row bound a (stage_ready m few k r within) =
    omega (arith, within)
Stage-backed c level index current row bound a (stage_delayed d within) = within

-- However often a seed is requested and a key sent with no time in between, where the level is
-- configured, is not active and has no delay running, and the application gives every seed and takes
-- none of the keys, the application is asked for at most as many seeds and as many keys as the
-- attempts that its row still allows: the number of attempts till the delay, less those counted
-- already. The delay time is at least a main period, the number of attempts fits a byte, and the
-- response to a seed fits its buffer.
pub guesses_backed :
    (c : SecurityConfig) (level index current : ℕ) (row : SecurityRow) (seed key : List ℕ) (m n : ℕ)
    (a : SecurityAccess)
    → Guessing c level index row seed key
    → m < row.num_att_delay
    → (a.false_attempts index).attempts ≡ m
    → Ready level index current row a
    → (guesses c seed key n a).backed ≤ a.backed + 2 * (row.num_att_delay - m)
guesses_backed c level index current row seed key m n a g few k r =
    let bound = a.backed + 2 * (row.num_att_delay - m) in
    Stage-backed c level index current row bound _
      (guesses-Stage g current bound n a (stage_ready m few k r (omega arith)))
