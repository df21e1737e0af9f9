-- ===== src/Dcm/Dsl/Main/Waiting.antt =====
-- One period of a request that the dispatcher does not answer, DslMain of core/dcm/src/Dcm_Dsl.c.
use plug_and_play_autosar.Common.{
  ℕ, zero, suc, ◌+◌, ◌*◌, ◌<◌, ◌≡◌, ◌≢◌, refl, sym, ap, subst, ◌∙◌, true, false, Option, none, some,
  ◌==◌, if_ind, Bool-cases, inl, inr, ◌⊎◌, arith,
}
use plug_and_play_autosar.Dcm.Dsl.{
  provided_to_dsd, dcm_transmit_signaled, cancel_pending_requests, ProtocolRx, DiagResp, DslConfig,
  Dsl, call, decrement, main_cycles, adjust_p2_timing, find_rx, update_self, set_runtime,
}
use plug_and_play_autosar.Dcm.Dsl.Session.{get_active_session_row, find_session, session_or_first}
use plug_and_play_autosar.Dcm.Dsl.Buffers.Release.{IsIdle, release_external_rx_tx_buffers-IsIdle}
use plug_and_play_autosar.Dcm.Dsl.Buffers.Timers.{
  timer, IsStopped, same-IsStopped, set_runtime-timer, release_external_rx_tx_buffers-timer,
}
use plug_and_play_autosar.Dcm.Dsl.Buffers.Quiet.{
  IsQuiet, same-IsQuiet, set_runtime-IsQuiet, release_external_rx_tx_buffers-IsQuiet,
}
use plug_and_play_autosar.Dcm.Dsl.Buffers.{release_external_rx_tx_buffers}
use plug_and_play_autosar.Dcm.Dsl.Transmission.{
  general_reject, answer_bytes, send_response_with_status, send_of, first_byte_of, fill_local_tx,
  response_pending,
}
use plug_and_play_autosar.Dcm.Dsl.Reception.{is_not_in_use}
use plug_and_play_autosar.Dcm.Dsl.Main.Rounds.{OnlyActs}
use plug_and_play_autosar.Dcm.Dsl.Main.{
  wait_tick, p2_timeout_of, give_up, tell_pending, restart_p2_timer,
}

-- What sending an answer leaves alone of a protocol `p`.
record SameWait (p : ℕ) (s t : Dsl) : Type 0 where
  tx : (t.runtime p).external_tx_buffer_status ≡ (s.runtime p).external_tx_buffer_status
  timeout : (t.runtime p).state_timeout_count ≡ (s.runtime p).state_timeout_count
  pending : (t.runtime p).response_pending_count ≡ (s.runtime p).response_pending_count
  session : (t.runtime p).session_control ≡ (s.runtime p).session_control
  timing : timer (t.runtime p) ≡ timer (s.runtime p)

same_wait : (p : ℕ) (s : Dsl) → SameWait p s s
same_wait p s = record { tx = refl; timeout = refl; pending = refl; session = refl; timing = refl }

-- Calls of other components leave the protocols alone.
told-SameWait : (p : ℕ) (s t u : Dsl) → u.runtime ≡ t.runtime → SameWait p s t → SameWait p s u
told-SameWait p s t u e k = record {
  tx = ap (λ f. (f p).external_tx_buffer_status) e ∙ k.tx;
  timeout = ap (λ f. (f p).state_timeout_count) e ∙ k.timeout;
  pending = ap (λ f. (f p).response_pending_count) e ∙ k.pending;
  session = ap (λ f. (f p).session_control) e ∙ k.session;
  timing = ap (λ f. timer (f p)) e ∙ k.timing;
}

fill_local_tx-SameWait : (q sid code p : ℕ) (s : Dsl) → SameWait p s (fill_local_tx q sid code s)
unfolding fill_local_tx
fill_local_tx-SameWait q sid code p s =
    let v = (s.runtime q).local_tx_buffer in
    record {
      tx = ground arith;
      timeout = ground arith;
      pending = ground arith;
      session = ground arith;
      timing =
          set_runtime-timer q p
            (record (s.runtime q) {
              local_tx_buffer = record v {
                response_code = code;
                bytes = answer_bytes sid code v.bytes;
                sdu_length = 3;
                status = dcm_transmit_signaled;
              };
            })
            s refl;
    }

send_of-SameWait :
    (c : DslConfig) (p o code : ℕ) (rx : Option ProtocolRx) (s : Dsl)
    → SameWait o s (send_of c p code rx s).0
send_of-SameWait c p o code none s = same_wait o s
send_of-SameWait c p o code (some rx) s =
    let q = rx.main_connection.protocol in
    let k = fill_local_tx-SameWait q (first_byte_of (c.row p).rx_buffer s) code o s in
    let s1 = fill_local_tx q (first_byte_of (c.row p).rx_buffer s) code s in
    elim (Bool-cases (is_not_in_use (s.runtime q).local_tx_buffer.status)) [
      | inl y ↦ elim (Bool-cases (code == response_pending)) [
        | inl z ↦ rw (y, z) (told-SameWait o s s1 _ refl k)
        | inr z ↦ rw (y, z) (told-SameWait o s s1 _ refl k)
      ]
      | inr n ↦ rw n (same_wait o s)
    ]

-- Sending an answer for the protocol `p`.
send-SameWait :
    (c : DslConfig) (p o code : ℕ) (s : Dsl) → SameWait o s (send_response_with_status c p code s).0
unfolding send_response_with_status
send-SameWait c p o code s =
    send_of-SameWait c p o code (find_rx c (s.runtime p).diag_request_rx_pdu_id) s

-- The periods after which the tester is told again that the response is pending.
unfoldable pub period : DslConfig → ℕ → ℕ → ℕ
period c p session = main_cycles c (
    adjust_p2_timing
      (session_or_first (find_session session c.sessions) c.sessions).p2_star_server_max
      (c.row p).time_limit.p2_star_server_adjust)

-- The dispatcher has a request of the protocol `p`, in the given session, which does not time out.
pub record Waiting (p session : ℕ) (s : Dsl) : Type 0 where
  pub tx : (s.runtime p).external_tx_buffer_status ≡ provided_to_dsd
  pub current : (s.runtime p).session_control ≡ session
  pub stopped : IsStopped (s.runtime p)

-- The buffers of the protocol `p` are free, and its session does not time out.
pub record Released (c : DslConfig) (p : ℕ) (s : Dsl) : Type 0 where
  pub idle : IsIdle c p s
  pub stopped : IsStopped (s.runtime p)

-- The periods that are left to the dispatcher, at most.
abbrev pub patience : DslConfig → ℕ → ℕ → Dsl → ℕ
patience c p session s =
    (s.runtime p).state_timeout_count
    + (s.runtime p).response_pending_count * suc (period c p session)

-- The timer of the protocol `p` has run down and starts again.
abbrev restarted : DslConfig → ℕ → Dsl → Dsl
restarted c p s =
    set_runtime p
      (restart_p2_timer c p (record (s.runtime p) {
        state_timeout_count = decrement (s.runtime p).state_timeout_count;
      }))
      s

give_up-Released :
    (c : DslConfig) (p : ℕ) (s : Dsl) → IsStopped (s.runtime p) → Released c p (give_up c p s)
unfolding give_up
give_up-Released c p s h =
    let s0 = call cancel_pending_requests s in
    let s1 = (send_response_with_status c p general_reject s0).0 in
    record {
      idle = release_external_rx_tx_buffers-IsIdle c p s1;
      stopped =
          same-IsStopped (s.runtime p) ((release_external_rx_tx_buffers c p s1).runtime p)
            (release_external_rx_tx_buffers-timer c p p s1
              ∙ (send-SameWait c p p general_reject s0).timing)
            h;
    }

tell_pending-Waiting :
    (c : DslConfig) (p session n : ℕ) (s : Dsl)
    → Waiting p session s
    → (s.runtime p).response_pending_count ≡ suc n
    → Waiting p session (tell_pending c p s)
      × (((tell_pending c p s).runtime p).state_timeout_count ≡ (s.runtime p).state_timeout_count)
      × (((tell_pending c p s).runtime p).response_pending_count ≡ n)
unfolding tell_pending
tell_pending-Waiting c p session n s r e =
    let k = send-SameWait c p p response_pending s in
    let s1 = (send_response_with_status c p response_pending s).0 in
    let told = record (s1.runtime p) {
      response_pending_count = decrement (s1.runtime p).response_pending_count;
    } in
    (
      record {
        tx = ground (arith, k.tx, r.tx);
        current = ground (arith, k.session, r.current);
        stopped =
            same-IsStopped (s.runtime p) ((set_runtime p told s1).runtime p)
              (set_runtime-timer p p told s1 refl ∙ k.timing) r.stopped;
      },
      ground (arith, k.timeout),
      ground (arith, k.pending, e),
    )

restarted-Waiting :
    (c : DslConfig) (p session : ℕ) (s : Dsl)
    → Waiting p session s
    → Waiting p session (restarted c p s)
      × (((restarted c p s).runtime p).state_timeout_count ≡ period c p session)
      × (((restarted c p s).runtime p).response_pending_count
          ≡ (s.runtime p).response_pending_count)
unfolding get_active_session_row period
restarted-Waiting c p session s r =
    let e =
      ap
        (λ k. main_cycles c (
          adjust_p2_timing
            (session_or_first (find_session k c.sessions) c.sessions).p2_star_server_max
            (c.row p).time_limit.p2_star_server_adjust))
        r.current in
    let u : (restarted c p s).runtime p
        ≡ restart_p2_timer c p (record (s.runtime p) {
          state_timeout_count = decrement (s.runtime p).state_timeout_count;
        }) =
      update_self s.runtime p _ in
    (
      record {
        tx = ap (λ v. v.external_tx_buffer_status) u ∙ r.tx;
        current = ap (λ v. v.session_control) u ∙ r.current;
        stopped = same-IsStopped (s.runtime p) ((restarted c p s).runtime p) (ap timer u) r.stopped;
      },
      ap (λ v. v.state_timeout_count) u ∙ e,
      ap (λ v. v.response_pending_count) u,
    )

-- A timeout frees the buffers, or tells the tester to wait once more.
p2_timeout_cases :
    (c : DslConfig) (d : DiagResp) (p session k : ℕ) (s : Dsl)
    → Waiting p session s
    → (s.runtime p).response_pending_count ≡ k
    → Released c p (p2_timeout_of c (some d) p s)
      ⊎ ((n : ℕ) × (suc n ≡ k)
          × Waiting p session (p2_timeout_of c (some d) p s)
          × (((p2_timeout_of c (some d) p s).runtime p).state_timeout_count
              ≡ (s.runtime p).state_timeout_count)
          × (((p2_timeout_of c (some d) p s).runtime p).response_pending_count ≡ n))
p2_timeout_cases c d p session zero s r e =
    let z : ((s.runtime p).response_pending_count == 0) ≡ true = ground (arith, e) in
    elim (Bool-cases d.force_resp_pend_en) [
      | inl y ↦ rw (y, z) (inl (give_up-Released c p s r.stopped))
      | inr n ↦ rw n (inl (give_up-Released c p s r.stopped))
    ]
p2_timeout_cases c d p session (suc k) s r e =
    let z : ((s.runtime p).response_pending_count == 0) ≡ false = ground (arith, e) in
    let w = tell_pending-Waiting c p session k s r e in
    elim (Bool-cases d.force_resp_pend_en) [
      | inl y ↦ rw (y, z) (inr (k, refl, w.0, w.1, w.2))
      | inr n ↦ rw n (inl (give_up-Released c p s r.stopped))
    ]

-- The outcome of one period: the buffers are free, or the dispatcher has fewer periods left.
abbrev pub Progress : DslConfig → ℕ → ℕ → Dsl → Dsl → Type 0
Progress c p session s t =
    Released c p t ⊎ (Waiting p session t × (patience c p session t < patience c p session s))

decrease : (a b t k n T : ℕ) → suc n ≡ k → a ≡ T → b ≡ n → a + b * suc T < t + k * suc T
decrease a b t k n T e f g = rw (← e, f, g) (grind arith)

less : (t k T : ℕ) → (decrement t == 0) ≡ false → decrement t + k * suc T < t + k * suc T
less t k T h = ground arith

-- The timer of the request of the protocol `p` has counted one period.
abbrev counted_down : ℕ → Dsl → Dsl
counted_down p s =
    set_runtime p
      (record (s.runtime p) { state_timeout_count = decrement (s.runtime p).state_timeout_count }) s

counted_down-IsStopped :
    (p : ℕ) (s : Dsl) → IsStopped (s.runtime p) → IsStopped ((counted_down p s).runtime p)
counted_down-IsStopped p s h =
    let r = record (s.runtime p) {
      state_timeout_count = decrement (s.runtime p).state_timeout_count;
    } in
    same-IsStopped (s.runtime p) ((set_runtime p r s).runtime p) (set_runtime-timer p p r s refl) h

pub wait_tick-Progress :
    (c : DslConfig) (d : DiagResp) (p session : ℕ) (s : Dsl)
    → c.diag_resp ≡ some d
    → Waiting p session s
    → Progress c p session s (wait_tick c p s)
unfolding wait_tick
wait_tick-Progress c d p session s h r =
    let w = restarted-Waiting c p session s r in
    elim (Bool-cases (decrement (s.runtime p).state_timeout_count == 0)) [
      | inl y ↦ rw y (
          subst (λ o. Progress c p session s (p2_timeout_of c o p (restarted c p s))) (sym h)
            (elim (p2_timeout_cases c d p session (s.runtime p).response_pending_count
              (restarted c p s) w.0 w.2) [
                | inl done ↦ inl done
                | inr (n, e, q, t, k) ↦ inr (
                  q,
                  decrease _ _ (s.runtime p).state_timeout_count
                      (s.runtime p).response_pending_count n (period c p session) e (t ∙ w.1) k,
                )
              ]))
      | inr n ↦ rw n (
          inr (
            record {
              tx = ground (arith, r.tx);
              current = ground (arith, r.current);
              stopped = counted_down-IsStopped p s r.stopped;
            },
            ground (
              arith,
              less (s.runtime p).state_timeout_count (s.runtime p).response_pending_count
                  (period c p session) n,
            ),
          ))
    ]

send-IsQuiet :
    (c : DslConfig) (p q code : ℕ) (s : Dsl)
    → IsQuiet q s
    → IsQuiet q (send_response_with_status c p code s).0
send-IsQuiet c p q code s h =
    let k = send-SameWait c p q code s in
    record { tx = k.tx ∙ h.tx; session = k.session ∙ h.session }

give_up-IsQuiet :
    (c : DslConfig) (p q : ℕ) (s : Dsl) → p ≢ q → IsQuiet q s → IsQuiet q (give_up c p s)
unfolding give_up
give_up-IsQuiet c p q s ne h =
    let s0 = call cancel_pending_requests s in
    release_external_rx_tx_buffers-IsQuiet c p q (send_response_with_status c p general_reject s0).0
      ne (send-IsQuiet c p q general_reject s0 (same-IsQuiet q s s0 refl h))

tell_pending-IsQuiet :
    (c : DslConfig) (p q : ℕ) (s : Dsl) → p ≢ q → IsQuiet q s → IsQuiet q (tell_pending c p s)
unfolding tell_pending
tell_pending-IsQuiet c p q s ne h =
    set_runtime-IsQuiet p q _ (send_response_with_status c p response_pending s).0 ne
      (send-IsQuiet c p q response_pending s h)

p2_timeout_of-IsQuiet :
    (c : DslConfig) (o : Option DiagResp) (p q : ℕ) (s : Dsl)
    → p ≢ q
    → IsQuiet q s
    → IsQuiet q (p2_timeout_of c o p s)
p2_timeout_of-IsQuiet c none p q s ne h = h
p2_timeout_of-IsQuiet c (some d) p q s ne h =
    let P = (λ (t : Dsl). IsQuiet q t) in
    if_ind P d.force_resp_pend_en
      (λ _.
        if_ind P ((s.runtime p).response_pending_count == 0) (λ _. give_up-IsQuiet c p q s ne h)
          (λ _. tell_pending-IsQuiet c p q s ne h))
      (λ _. give_up-IsQuiet c p q s ne h)

-- A round of the request of the protocol `p` leaves the others quiet.
pub wait_tick-OnlyActs :
    (c : DslConfig) (p : ℕ) (s : Dsl) → OnlyActs p s → OnlyActs p (wait_tick c p s)
unfolding wait_tick
wait_tick-OnlyActs c p s h q ne =
    if_ind (λ (t : Dsl). IsQuiet q t) (decrement (s.runtime p).state_timeout_count == 0)
      (λ _.
        p2_timeout_of-IsQuiet c c.diag_resp p q (restarted c p s) ne
          (set_runtime-IsQuiet p q _ s ne (h q ne)))
      (λ _. set_runtime-IsQuiet p q _ s ne (h q ne))
