-- ===== src/Dcm/Dsp/Periodic/Stop.antt =====
-- When the stop request of service 0x2A ends, ClearPeriodicIdentifier of core/dcm/src/Dcm_Dsp.c: the
-- index of its loop is a `uint8`, the number of the identifiers is not.
use plug_and_play_autosar.Common.{
  ℕ, zero, suc, ◌+◌, ◌-◌, ◌%◌, ◌≤◌, ◌<◌, ◌≡◌, refl, sym, ap, ◌∙◌, true, false, none, some, List,
  ltb, if◌then◌else◌, get_or, length, Bool-cases, inl, inr, if_true, if_false, arith,
}
use plug_and_play_autosar.Dcm.Dsp.Periodic.{
  PeriodicTable, pdid_remove, clear_loop, clear_periodic_identifier,
}

-- The `m` removals for the identifiers of a request from the position `i` on.
unfoldable pub remove_from : ℕ → List ℕ → ℕ → ℕ → PeriodicTable → PeriodicTable
remove_from zero rx rx_id i t = t
remove_from (suc m) rx rx_id i t =
    remove_from m rx rx_id (suc i) (pdid_remove (get_or rx (2 + i) 0) rx_id t)

clear_loop_ends :
    (m fuel n : ℕ) (rx : List ℕ) (rx_id i : ℕ) (t : PeriodicTable)
    → n < 256
    → m + i ≡ n
    → m < fuel
    → clear_loop fuel n rx rx_id i t ≡ some (remove_from m rx rx_id i t)
unfolding clear_loop remove_from
clear_loop_ends m zero n rx rx_id i t h e f = ground (arith, f)
clear_loop_ends zero (suc fuel) n rx rx_id i t h e f =
    let over : ltb i n ≡ false = ground (arith, e) in if_false _ over
clear_loop_ends (suc m) (suc fuel) n rx rx_id i t h e f =
    let inside : ltb i n ≡ true = ground (arith, e) in
    let next : (i + 1) % 256 ≡ suc i = omega (arith, e, h) in
    if_true _ inside
    ∙ ap (λ k. clear_loop fuel n rx rx_id k (pdid_remove (get_or rx (2 + i) 0) rx_id t)) next
    ∙ clear_loop_ends m fuel n rx rx_id (suc i) _ h (omega (arith, e)) (omega (arith, f))

clear_loop_runs :
    (fuel n : ℕ) (rx : List ℕ) (rx_id i : ℕ) (t : PeriodicTable)
    → 256 ≤ n
    → i < 256
    → clear_loop fuel n rx rx_id i t ≡ none
unfolding clear_loop
clear_loop_runs zero n rx rx_id i t h k = refl
clear_loop_runs (suc fuel) n rx rx_id i t h k =
    let inside : ltb i n ≡ true = ground (arith, h, k) in
    if_true _ inside
    ∙ clear_loop_runs fuel n rx rx_id ((i + 1) % 256) (pdid_remove (get_or rx (2 + i) 0) rx_id t) h
        (omega arith)

-- A request to stop at most 255 identifiers ends, with one round more than it has identifiers, and has
-- removed them one after the other; with 256 identifiers or more it does not end, however many rounds
-- it is given.
pub clear_periodic_identifier_ends :
    (rx : List ℕ) (rx_id fuel : ℕ) (t : PeriodicTable)
    → length rx - 2 < fuel
    → clear_periodic_identifier fuel rx rx_id t
      ≡ (if ltb (length rx - 2) 256 then some (remove_from (length rx - 2) rx rx_id 0 t) else none)
unfolding clear_periodic_identifier
clear_periodic_identifier_ends rx rx_id fuel t f =
    let n = length rx - 2 in
    elim (Bool-cases (ltb n 256)) [
      | inl y ↦
          clear_loop_ends n fuel n rx rx_id 0 t (ground (arith, y)) (omega arith) f
          ∙ sym (if_true none y)
      | inr k ↦
          clear_loop_runs fuel n rx rx_id 0 t (ground (arith, k)) (omega arith)
          ∙ sym (if_false (some (remove_from n rx rx_id 0 t)) k)
    ]
