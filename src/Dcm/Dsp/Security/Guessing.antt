-- ===== src/Dcm/Dsp/Security/Guessing.antt =====
-- A tester that guesses keys, and the answers of service 0x27 to it, core/dcm/src/Dcm_Dsp.c.
use plug_and_play_autosar.Common.{
  ℕ, suc, ◌+◌, ◌≤◌, ◌<◌, ◌≡◌, refl, sym, ap, ◌∙◌, subst, true, false, some, List, length, drop, leb,
  ◌==◌, get_or, if_true, arith, ==_iff,
}
use plug_and_play_autosar.Dcm.Dsl.Session.{get_security_level}
use plug_and_play_autosar.Dcm.Dsp.Security.{
  SecurityAccess, SecurityRow, OpStatus, SeedResult, seed_ok, KeyResult, key_wrong, SecurityConfig,
  is_deactive, required_time_delay_not_expired,
}
use plug_and_play_autosar.Dcm.Dsp.Security.Access.{
  op_status, requested_level, is_request_seed, in_range, take_seed, key_for, find_security_row,
  get_seed_sub_fnc, take_key, count_attempt, delay_time_of, compare_key_sub_fnc, security_sub_fnc,
  finish, security_access,
}

-- A request of a seed and then a key, for the row `row` of the level, which stands at `index`. The
-- application gives every seed and takes no key.
pub record Guessing (c : SecurityConfig) (level index : ℕ) (row : SecurityRow) (seed key : List ℕ)
    : Type 0 where
  pub asks : is_request_seed (get_or seed 1 0) ≡ true
  pub asks_in_range : in_range (get_or seed 1 0) ≡ true
  pub asks_level : requested_level (get_or seed 1 0) ≡ level
  pub asks_length : length seed ≡ 2 + row.adr_size
  pub sends : is_request_seed (get_or key 1 0) ≡ false
  pub sends_in_range : in_range (get_or key 1 0) ≡ true
  pub sends_level : requested_level (get_or key 1 0) ≡ level
  pub sends_length : length key ≡ 2 + row.key_size
  pub found : find_security_row level 0 c.rows ≡ some (index, row)
  pub delay_time : delay_time_of c index ≡ row.delay_time
  pub delays : c.main_period ≤ row.delay_time
  pub few : row.num_att_delay < 256
  pub give : ℕ → List ℕ → OpStatus → SeedResult
  pub gives : row.get_seed ≡ some give
  pub gives_ok : (k : ℕ) (r : List ℕ) (o : OpStatus) → (s : List ℕ) × (give k r o ≡ seed_ok s)
  pub test : ℕ → List ℕ → OpStatus → KeyResult
  pub tests : row.compare_key ≡ some test
  pub refuses : (k : ℕ) (r : List ℕ) (o : OpStatus) → test k r o ≡ key_wrong

-- What the requests of one round are, by the tests of the service.
pub access_seed :
    (c : SecurityConfig) (level : ℕ) (rx : List ℕ) (n : ℕ) (a : SecurityAccess)
    → length rx ≡ 2 + n
    → is_request_seed (get_or rx 1 0) ≡ true
    → in_range (get_or rx 1 0) ≡ true
    → requested_level (get_or rx 1 0) ≡ level
    → security_access c rx a ≡ finish (get_seed_sub_fnc c rx level false a)
unfolding security_access security_sub_fnc
access_seed c level rx n a long asks ranged same =
    let two : leb 2 (length rx) ≡ true = ground (arith, long) in rw (two, ranged, asks, same) refl

pub access_key :
    (c : SecurityConfig) (level : ℕ) (rx : List ℕ) (n : ℕ) (a : SecurityAccess)
    → length rx ≡ 2 + n
    → is_request_seed (get_or rx 1 0) ≡ false
    → in_range (get_or rx 1 0) ≡ true
    → requested_level (get_or rx 1 0) ≡ level
    → security_access c rx a ≡ finish (compare_key_sub_fnc c rx level false a)
unfolding security_access security_sub_fnc
access_key c level rx n a long sends ranged same =
    let two : leb 2 (length rx) ≡ true = ground (arith, long) in rw (two, ranged, sends, same) refl

-- A seed of the row can be had.
pub record Ready (level index current : ℕ) (row : SecurityRow) (a : SecurityAccess) : Type 0 where
  pub no_delay : is_deactive (a.false_attempts index).delay ≡ true
  pub fits : leb (2 + row.seed_size) a.tx_length ≡ true
  pub active : get_security_level a.dsl ≡ some current
  pub locked : (level == current) ≡ false

-- What a seed of the row leaves.
pub record SeedGiven (level index : ℕ) (row : SecurityRow) (a b : SecurityAccess) : Type 0 where
  pub at_index : b.curr_sec_lev_idx ≡ index
  pub same_level : b.req_sec_level ≡ level
  pub for_row : b.req_sec_level_ref ≡ some row
  pub in_progress : b.req_in_progress ≡ true
  pub attempts : b.false_attempts ≡ a.false_attempts
  pub same_dsl : b.dsl ≡ a.dsl
  pub room : b.tx_length ≡ 2 + row.seed_size
  pub asked : b.backed ≡ suc a.backed

finish_seed :
    (level index : ℕ) (row : SecurityRow) (seed s : List ℕ) (a : SecurityAccess)
    → SeedGiven level index row a (
        finish (
          take_seed seed level row
            (seed_ok s)
            (record a { curr_sec_lev_idx = index; backed = suc a.backed })))
unfolding take_seed
finish_seed level index row seed s a = record {
  at_index = refl;
  same_level = refl;
  for_row = refl;
  in_progress = refl;
  attempts = refl;
  same_dsl = refl;
  room = refl;
  asked = refl;
}

module _ {c : SecurityConfig} {level index : ℕ} {row : SecurityRow} {seed key : List ℕ}
    (g : Guessing c level index row seed key) where
  pub get_seed_sub_fnc-Ready :
      {current : ℕ} (a : SecurityAccess)
      → Ready level index current row a
      → get_seed_sub_fnc c seed level false a
        ≡ take_seed seed level row
            (g.give a.backed (drop 2 seed) (op_status a.pending false))
            (record a { curr_sec_lev_idx = index; backed = suc a.backed })
  unfolding get_seed_sub_fnc
  get_seed_sub_fnc-Ready a r =
      let long : (length seed == 2 + row.adr_size) ≡ true = (==_iff _ _).1 g.asks_length in
      rw (g.found, r.no_delay, long, r.active, r.fits, r.locked, g.gives) refl

  pub seed_step :
      {current : ℕ} (a : SecurityAccess)
      → Ready level index current row a
      → SeedGiven level index row a (security_access c seed a)
  seed_step a r =
      let (s, ok) = g.gives_ok a.backed (drop 2 seed) (op_status a.pending false) in
      let e =
        access_seed c level seed row.adr_size a g.asks_length g.asks g.asks_in_range g.asks_level
        ∙ ap finish (get_seed_sub_fnc-Ready a r)
        ∙ ap
            (λ k. finish (
              take_seed seed level row k
                (record a { curr_sec_lev_idx = index; backed = suc a.backed })))
            ok in
      subst (SeedGiven level index row a) (sym e) (finish_seed level index row seed s a)

  -- The answer to a wrong key.
  pub wrong_answer :
      (a : SecurityAccess)
      → key_for c key false (some row) a
        ≡ count_attempt c row (record a { req_in_progress = false; backed = suc a.backed })
  unfolding take_key
  wrong_answer a =
      let long : (length key == 2 + row.key_size) ≡ true = (==_iff _ _).1 g.sends_length in
      rw (long, g.tests, g.refuses a.backed (drop 2 key) (op_status a.pending false)) refl

  pub compare_key_sub_fnc_wrong :
      (a : SecurityAccess)
      → a.curr_sec_lev_idx ≡ index
      → a.req_sec_level ≡ level
      → a.req_sec_level_ref ≡ some row
      → a.req_in_progress ≡ true
      → is_deactive (a.false_attempts index).delay ≡ true
      → compare_key_sub_fnc c key level false a
        ≡ count_attempt c row (record a { req_in_progress = false; backed = suc a.backed })
  unfolding compare_key_sub_fnc
  compare_key_sub_fnc_wrong a i l f p d =
      if_true _ ((==_iff _ _).1 (sym l))
      ∙ if_true _ p
      ∙ if_true _ (subst (λ k. is_deactive (a.false_attempts k).delay ≡ true) (sym i) d)
      ∙ ap (λ u. key_for c key false u a) f
      ∙ wrong_answer a

  pub delayed_seed :
      (a : SecurityAccess)
      → is_deactive (a.false_attempts index).delay ≡ false
      → get_seed_sub_fnc c seed level false a
        ≡ (record a { curr_sec_lev_idx = index }, required_time_delay_not_expired)
  unfolding get_seed_sub_fnc
  delayed_seed a d = rw (g.found, d) refl
