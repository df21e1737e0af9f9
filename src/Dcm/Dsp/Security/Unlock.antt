-- ===== src/Dcm/Dsp/Security/Unlock.antt =====
-- What unlocks a security level, core/dcm/src/Dcm_Dsp.c.
use plug_and_play_autosar.Common.{
  ℕ, ◌+◌, suc, ◌≡◌, ◌⊎◌, refl, ◌∙◌, Bool, true, false, Option, none, some, List, length, drop, ◌==◌,
  leb, get_or, ◌∷◌, if_ind, inl, inr, arith, ==_iff,
}
use plug_and_play_autosar.Dcm.Dsl.{Dsl}
use plug_and_play_autosar.Dcm.Dsp.Security.{
  SecurityAccess, SecurityRow, OpStatus, SeedResult, seed_ok, seed_pending, seed_not_ok, KeyResult,
  key_ok, key_pending, key_wrong, SecurityConfig, is_deactive, wrong_length, conditions_not_correct,
  response_pending_code,
}
use plug_and_play_autosar.Dcm.Dsp.Security.Access.{
  op_status, requested_level, is_request_seed, in_range, take_seed, ask_seed, seed_for, seed_at,
  get_seed_sub_fnc, take_key, compare, count_attempt, count_if_invalid, key_for,
  compare_key_sub_fnc, security_sub_fnc, finish, security_access,
}
use plug_and_play_autosar.Dcm.Dsl.Session.{get_security_level, set_security_level}

-- Why the level may change: the key is for the seed that was given last, no delay is running, and the
-- application takes the key. The new level is that of the row of the seed, which is used up.
pub record Unlocks (rx : List ℕ) (a b : SecurityAccess) : Type 0 where
  pub row : SecurityRow
  pub test : ℕ → List ℕ → OpStatus → KeyResult
  pub requested : a.req_sec_level_ref ≡ some row
  pub in_progress : a.req_in_progress ≡ true
  pub sends_key : is_request_seed (get_or rx 1 0) ≡ false
  pub same_level : requested_level (get_or rx 1 0) ≡ a.req_sec_level
  pub no_delay : is_deactive (a.false_attempts a.curr_sec_lev_idx).delay ≡ true
  pub key_length : length rx ≡ 2 + row.key_size
  pub compares : row.compare_key ≡ some test
  pub right : test a.backed (drop 2 rx) (op_status a.pending false) ≡ key_ok
  pub unlocked : b.dsl ≡ set_security_level row.level a.dsl
  pub used : b.req_in_progress ≡ false

abbrev pub KeptOrUnlocks : List ℕ → SecurityAccess → SecurityAccess → Type 0
KeptOrUnlocks rx a b = (b.dsl ≡ a.dsl) ⊎ Unlocks rx a b

take_seed_dsl :
    (rx : List ℕ) (level : ℕ) (row : SecurityRow) (r : SeedResult) (a : SecurityAccess)
    → (take_seed rx level row r a).0.dsl ≡ a.dsl
unfolding take_seed
take_seed_dsl rx level row (seed_ok s) a = refl
take_seed_dsl rx level row seed_pending a = refl
take_seed_dsl rx level row (seed_not_ok n) a = refl

ask_seed_dsl :
    (rx : List ℕ) (level : ℕ) (row : SecurityRow) (st : OpStatus)
    (f : Option (ℕ → List ℕ → OpStatus → SeedResult)) (a : SecurityAccess)
    → (ask_seed rx level row st f a).0.dsl ≡ a.dsl
ask_seed_dsl rx level row st none a = refl
ask_seed_dsl rx level row st (some f) a = take_seed_dsl rx level row _ _

seed_for_dsl :
    (rx : List ℕ) (level : ℕ) (row : SecurityRow) (st : OpStatus) (u : Option ℕ)
    (a : SecurityAccess)
    → (seed_for rx level row st u a).0.dsl ≡ a.dsl
seed_for_dsl rx level row st none a = refl
seed_for_dsl rx level row st (some u) a =
    ground (arith, ask_seed_dsl rx level row st row.get_seed a)

seed_at_dsl :
    (rx : List ℕ) (level : ℕ) (st : OpStatus) (u : Option (ℕ × SecurityRow)) (a : SecurityAccess)
    → (seed_at rx level st u a).0.dsl ≡ a.dsl
seed_at_dsl rx level st none a = refl
seed_at_dsl rx level st (some (i, row)) a = ground (
  arith,
  seed_for_dsl rx level row st (get_security_level a.dsl) (record a { curr_sec_lev_idx = i }),
)

-- A request of a seed leaves the session layer as it is.
pub get_seed_sub_fnc_dsl :
    (c : SecurityConfig) (rx : List ℕ) (level : ℕ) (cancel : Bool) (a : SecurityAccess)
    → (get_seed_sub_fnc c rx level cancel a).0.dsl ≡ a.dsl
unfolding get_seed_sub_fnc
get_seed_sub_fnc_dsl c rx level cancel a = seed_at_dsl rx level _ _ a

count_attempt_keeps :
    (c : SecurityConfig) (row : SecurityRow) (a : SecurityAccess)
    → ((count_attempt c row a).0.dsl ≡ a.dsl)
      × ((count_attempt c row a).0.req_in_progress ≡ a.req_in_progress)
unfolding count_attempt
count_attempt_keeps c row a = (ground arith, ground arith)

count_if_invalid_keeps :
    (c : SecurityConfig) (row : SecurityRow) (a : SecurityAccess) (code : ℕ)
    → ((count_if_invalid c row (a, code)).0.dsl ≡ a.dsl)
      × ((count_if_invalid c row (a, code)).0.req_in_progress ≡ a.req_in_progress)
count_if_invalid_keeps c row a code =
    let r = count_attempt_keeps c row a in (ground (arith, r.0), ground (arith, r.1))

-- The answer of the comparison, with what changes.
data Compared (row : SecurityRow) (d : Dsl) (k : KeyResult) : SecurityAccess → Type 0 where
  compared_kept : {b : SecurityAccess} → b.dsl ≡ d → Compared row d k b
  compared_ok :
      {b : SecurityAccess}
      → k ≡ key_ok
      → b.dsl ≡ set_security_level row.level d
      → b.req_in_progress ≡ false
      → Compared row d k b

take_key-Compared :
    (rx : List ℕ) (row : SecurityRow) (cancel : Bool) (k : KeyResult) (a : SecurityAccess)
    → Compared row a.dsl k (take_key rx row cancel k a).0
unfolding take_key
take_key-Compared rx row true k a = compared_kept refl
take_key-Compared rx row false key_pending a = compared_kept refl
take_key-Compared rx row false key_wrong a = compared_kept refl
take_key-Compared rx row false key_ok a = compared_ok refl refl refl

-- What compare_key_sub_fnc has tested before the comparison.
record Tested (rx : List ℕ) (a : SecurityAccess) (row : SecurityRow) : Type 0 where
  pub requested : a.req_sec_level_ref ≡ some row
  pub in_progress : a.req_in_progress ≡ true
  pub sends_key : is_request_seed (get_or rx 1 0) ≡ false
  pub same_level : requested_level (get_or rx 1 0) ≡ a.req_sec_level
  pub no_delay : is_deactive (a.false_attempts a.curr_sec_lev_idx).delay ≡ true

Compared-Unlocks :
    (c : SecurityConfig) (rx : List ℕ) (row : SecurityRow) (f : ℕ → List ℕ → OpStatus → KeyResult)
    (a : SecurityAccess)
    → Tested rx a row
    → row.compare_key ≡ some f
    → length rx ≡ 2 + row.key_size
    → (r : SecurityAccess × ℕ)
    → Compared row a.dsl (f a.backed (drop 2 rx) (op_status a.pending false)) r.0
    → KeptOrUnlocks rx a (count_if_invalid c row r).0
Compared-Unlocks c rx row f a t is_f long r (compared_kept same) =
    inl ((count_if_invalid_keeps c row r.0 r.1).0 ∙ same)
Compared-Unlocks c rx row f a t is_f long r (compared_ok right unlocked used) =
    let k = count_if_invalid_keeps c row r.0 r.1 in
    inr (record {
      row = row;
      test = f;
      requested = t.requested;
      in_progress = t.in_progress;
      sends_key = t.sends_key;
      same_level = t.same_level;
      no_delay = t.no_delay;
      key_length = long;
      compares = is_f;
      right = right;
      unlocked = k.0 ∙ unlocked;
      used = k.1 ∙ used;
    })

compare-Unlocks :
    (c : SecurityConfig) (rx : List ℕ) (row : SecurityRow)
    (u : Option (ℕ → List ℕ → OpStatus → KeyResult)) (a : SecurityAccess)
    → Tested rx a row
    → row.compare_key ≡ u
    → length rx ≡ 2 + row.key_size
    → KeptOrUnlocks rx a
        (count_if_invalid c row (compare rx row false (op_status a.pending false) u a)).0
compare-Unlocks c rx row none a t is_f long =
    inl (count_if_invalid_keeps c row a conditions_not_correct).0
compare-Unlocks c rx row (some f) a t is_f long =
    let b = record a { backed = suc a.backed } in
    let k = f a.backed (drop 2 rx) (op_status a.pending false) in
    Compared-Unlocks c rx row f a t is_f long (take_key rx row false k b)
      (take_key-Compared rx row false k b)

key_for-Unlocks :
    (c : SecurityConfig) (rx : List ℕ) (u : Option SecurityRow) (a : SecurityAccess)
    → ((row : SecurityRow) → u ≡ some row → Tested rx a row)
    → KeptOrUnlocks rx a (key_for c rx false u a).0
key_for-Unlocks c rx none a t = inl refl
key_for-Unlocks c rx (some row) a t =
    if_ind (λ (r : SecurityAccess × ℕ). KeptOrUnlocks rx a (count_if_invalid c row r).0)
      (length rx == 2 + row.key_size)
      (λ y. compare-Unlocks c rx row row.compare_key a (t row refl) refl ((==_iff _ _).0 y))
      (λ _. inl (count_if_invalid_keeps c row a wrong_length).0)

abbrev Keeps : List ℕ → SecurityAccess → SecurityAccess × ℕ → Type 0
Keeps rx a (b, code) = KeptOrUnlocks rx a b

compare_key_sub_fnc-Unlocks :
    (c : SecurityConfig) (rx : List ℕ) (a : SecurityAccess)
    → is_request_seed (get_or rx 1 0) ≡ false
    → KeptOrUnlocks rx a (compare_key_sub_fnc c rx (requested_level (get_or rx 1 0)) false a).0
unfolding compare_key_sub_fnc
compare_key_sub_fnc-Unlocks c rx a key =
    if_ind (Keeps rx a) (requested_level (get_or rx 1 0) == a.req_sec_level)
      (λ y.
        if_ind (Keeps rx a) a.req_in_progress
          (λ p.
            if_ind (Keeps rx a) (is_deactive (a.false_attempts a.curr_sec_lev_idx).delay)
              (λ d. key_for-Unlocks c rx a.req_sec_level_ref a (λ row r. record {
                requested = r;
                in_progress = p;
                sends_key = key;
                same_level = (==_iff _ _).0 y;
                no_delay = d;
              }))
              (λ _. inl refl))
          (λ _. inl refl))
      (λ _. inl refl)

security_sub_fnc-Unlocks :
    (c : SecurityConfig) (rx : List ℕ) (a : SecurityAccess)
    → KeptOrUnlocks rx a (security_sub_fnc c rx false a).0
unfolding security_sub_fnc
security_sub_fnc-Unlocks c rx a =
    if_ind (Keeps rx a) (is_request_seed (get_or rx 1 0))
      (λ _. inl (get_seed_sub_fnc_dsl c rx (requested_level (get_or rx 1 0)) false a))
      (λ n. compare_key_sub_fnc-Unlocks c rx a n)

-- What the end of the request writes is of no account here.
KeptOrUnlocks-after :
    (rx : List ℕ) (a b d : SecurityAccess)
    → d.dsl ≡ b.dsl
    → d.req_in_progress ≡ b.req_in_progress
    → KeptOrUnlocks rx a b
    → KeptOrUnlocks rx a d
KeptOrUnlocks-after rx a b d same_dsl same (inl e) = inl (same_dsl ∙ e)
KeptOrUnlocks-after rx a b d same_dsl same (inr u) = inr (record {
  row = u.row;
  test = u.test;
  requested = u.requested;
  in_progress = u.in_progress;
  sends_key = u.sends_key;
  same_level = u.same_level;
  no_delay = u.no_delay;
  key_length = u.key_length;
  compares = u.compares;
  right = u.right;
  unlocked = same_dsl ∙ u.unlocked;
  used = same ∙ u.used;
})

finish-Unlocks :
    (rx : List ℕ) (a : SecurityAccess) (r : SecurityAccess × ℕ)
    → KeptOrUnlocks rx a r.0
    → KeptOrUnlocks rx a (finish r)
finish-Unlocks rx a r k =
    if_ind (KeptOrUnlocks rx a) (r.1 == response_pending_code)
      (λ _. KeptOrUnlocks-after rx a r.0 (record (r.0) { pending = true }) refl refl k)
      (λ _.
        KeptOrUnlocks-after rx a r.0 (record (r.0) { pending = false; done = r.1 ∷ r.0.done }) refl
          refl k)

-- A request of security access leaves the session layer as it is, or it sends a key of the right
-- length for the level of the seed that was given last, while that seed is not used up and no delay
-- runs, and the application takes the key; then the security level becomes that of the row the seed
-- was given for, and the seed is used up.
pub security_access-Unlocks :
    (c : SecurityConfig) (rx : List ℕ) (a : SecurityAccess)
    → KeptOrUnlocks rx a (security_access c rx a)
unfolding security_access
security_access-Unlocks c rx a = finish-Unlocks rx a _ (
    if_ind (Keeps rx a) (leb 2 (length rx))
      (λ _.
        if_ind (Keeps rx a) (in_range (get_or rx 1 0)) (λ _. security_sub_fnc-Unlocks c rx a)
          (λ _. inl refl))
      (λ _. inl refl))
