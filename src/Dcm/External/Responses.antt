-- ===== src/Dcm/External/Responses.antt =====
-- An external service gets at most one response for each start.
use plug_and_play_autosar.Common.{
  ℕ, suc, ◌+◌, ◌%◌, ◌^◌, ◌≤◌, ◌≡◌, refl, ap, ◌∙◌, inl, inr, Bool, true, false, not, ◌&&◌, ◌||◌,
  Option, none, some, List, [], ◌∷◌, arith, Bool-cases, if◌then◌else◌, if_true, if_false, ◌==◌,
}
use plug_and_play_autosar.Dcm.Dsd.{positive_response, is_suppressed_nrc}
use plug_and_play_autosar.Dcm.External.{
  External, ServiceState, idle, pending, wait_done, done, wait_tx_confirm, Call,
  response_suppressed, response_ready, dsp_confirmation, dcm_confirmation, Run, CallBack,
  set_neg_response, processing_done, call_back, make_calls, external_set_neg_response,
  external_processing_done, take_response, start_external, dcm_confirm, send_ncr,
  dsp_processing_done, respond_done, respond_if_done, confirm_in, begin_service, await,
  poll_service, external_main, cancel_external, is_pending, is_wait_done,
}

-- How many responses the DSL was told of, sent or suppressed.
abbrev pub responses : List Call → ℕ
responses [] = 0
responses (response_suppressed ∷ ks) = suc (responses ks)
responses (response_ready ∷ ks) = suc (responses ks)
responses (_ ∷ ks) = responses ks

-- How many confirmations the application got.
abbrev pub confirmations : List Call → ℕ
confirmations [] = 0
confirmations (dcm_confirmation s ∷ ks) = suc (confirmations ks)
confirmations (_ ∷ ks) = confirmations ks

-- A started service that has not been responded to.
abbrev pub in_progress : ServiceState → Bool
in_progress pending = true
in_progress wait_done = true
in_progress done = true
in_progress _ = false

abbrev pub count : Bool → ℕ
count b = if b then 1 else 0

take_response_keeps :
    (res : List ℕ) (x : External)
    → ((take_response res x).calls ≡ x.calls) × ((take_response res x).state ≡ x.state)
unfolding take_response
take_response_keeps res x = ground arith

call_back_keeps :
    (k : CallBack) (x : External)
    → ((call_back k x).calls ≡ x.calls)
      × (in_progress x.state ≡ true → in_progress (call_back k x).state ≡ true)
unfolding call_back external_set_neg_response external_processing_done
call_back_keeps (set_neg_response code) x = (refl, λ h. h)
call_back_keeps (processing_done res) x =
    ground (arith, take_response_keeps res (record x { state = done }))

make_calls_keeps :
    (ks : List CallBack) (x : External)
    → ((make_calls ks x).calls ≡ x.calls)
      × (in_progress x.state ≡ true → in_progress (make_calls ks x).state ≡ true)
unfolding make_calls
make_calls_keeps [] x = (refl, λ h. h)
make_calls_keeps (k ∷ ks) x =
    let (calls, kept) = make_calls_keeps ks (call_back k x) in
    let (calls1, kept1) = call_back_keeps k x in (calls ∙ calls1, λ h. kept (kept1 h))

confirm_in_keeps :
    (s : ServiceState) (ok : Bool) (x : External)
    → responses (confirm_in s ok x).calls ≡ responses x.calls
confirm_in_keeps idle ok x = refl
confirm_in_keeps pending ok x = refl
confirm_in_keeps wait_done ok x = refl
confirm_in_keeps done ok x = refl
confirm_in_keeps wait_tx_confirm ok x = refl

confirm_in_state :
    (s : ServiceState) (ok : Bool) (x : External)
    → in_progress x.state ≡ in_progress s
    → in_progress (confirm_in s ok x).state ≡ in_progress s
confirm_in_state idle ok x h = h
confirm_in_state pending ok x h = h
confirm_in_state wait_done ok x h = h
confirm_in_state done ok x h = h
confirm_in_state wait_tx_confirm ok x h = refl

dcm_confirm_keeps :
    (ok : Bool) (x : External)
    → (responses (dcm_confirm ok x).calls ≡ responses x.calls)
      × (in_progress (dcm_confirm ok x).state ≡ in_progress x.state)
unfolding dcm_confirm
dcm_confirm_keeps ok x = (confirm_in_keeps x.state ok x, confirm_in_state x.state ok x refl)

if_responses :
    (b : Bool) (x y : External) (n : ℕ)
    → responses x.calls ≡ n
    → responses y.calls ≡ n
    → responses (if b then x else y).calls ≡ n
if_responses true x y n p q = p
if_responses false x y n p q = q

send_ncr_responds :
    (code : ℕ) (x : External) → responses (send_ncr code x).calls ≡ suc (responses x.calls)
unfolding send_ncr
send_ncr_responds code x =
    let b =
      (x.functional && is_suppressed_nrc code) || (not (code == positive_response) && x.type2) in
    elim (Bool-cases b) [ inl y ↦ rw (y, send_ncr) refl | inr n ↦ rw (n, send_ncr) refl ]

dsp_processing_done_responds :
    (code : ℕ) (x : External)
    → responses (dsp_processing_done code x).calls ≡ suc (responses x.calls)
unfolding dsp_processing_done
dsp_processing_done_responds code x =
    let quiet = record x { calls = response_suppressed ∷ dsp_confirmation ∷ x.calls } in
    if_responses (code == positive_response) _ _ _
      (if_responses (not x.suppress_pos_rsp_msg) _ _ _ refl (dcm_confirm_keeps true quiet).0)
      (send_ncr_responds code x)

respond_done_responds :
    (x : External)
    → (responses (respond_done x).calls ≡ suc (responses x.calls))
      × (in_progress (respond_done x).state ≡ false)
unfolding respond_done
respond_done_responds x = (
  if_responses (x.nrc == positive_response) _ _ _ (dsp_processing_done_responds positive_response _)
      (dsp_processing_done_responds x.nrc x),
  refl,
)

respond_if_done_bound :
    (s : ServiceState) (x : External) (n : ℕ)
    → x.state ≡ s
    → responses x.calls + count (in_progress x.state) ≤ n
    → let x' = respond_if_done s x in responses x'.calls + count (in_progress x'.state) ≤ n
respond_if_done_bound done x n e h = ground (arith, respond_done_responds x)
respond_if_done_bound idle x n e h = h
respond_if_done_bound pending x n e h = h
respond_if_done_bound wait_done x n e h = h
respond_if_done_bound wait_tx_confirm x n e h = h

poll_service_keeps :
    (run : Run) (x : External)
    → ((poll_service run x).calls ≡ x.calls)
      × (in_progress x.state ≡ true → in_progress (poll_service run x).state ≡ true)
unfolding poll_service
poll_service_keeps run x = ground (arith, make_calls_keeps run.call_backs x)

await_keeps :
    (b : Bool) (x : External)
    → ((await b x).calls ≡ x.calls)
      × (in_progress x.state ≡ true → in_progress (await b x).state ≡ true)
await_keeps b x = ground arith

begin_service_keeps :
    (sub : Option ℕ) (x : External)
    → ((begin_service sub x).calls ≡ x.calls) × (in_progress (begin_service sub x).state ≡ true)
unfolding begin_service
begin_service_keeps none x = (refl, refl)
begin_service_keeps (some id) x = (refl, refl)

start_external_keeps :
    (sub : Option ℕ) (run : Run) (x : External)
    → ((start_external sub run x).calls ≡ x.calls)
      × (in_progress (start_external sub run x).state ≡ true)
unfolding start_external
start_external_keeps sub run x =
    let (calls, going) = begin_service_keeps sub x in
    let (calls1, kept1) = make_calls_keeps run.call_backs (begin_service sub x) in
    let (calls2, kept2) =
      await_keeps run.returns_pending (make_calls run.call_backs (begin_service sub x)) in
    (calls2 ∙ calls1 ∙ calls, kept2 (kept1 going))

-- One event of the life of external services. The application reports a result only for a service
-- that is in progress.
pub data Step (x : External) : Bool → External → Type 0 where
  start : (sub : Option ℕ) (run : Run) → Step x true (start_external sub run x)
  main_function : (run : Run) → Step x false (external_main run x)
  cancel : (run : Run) → Step x false (cancel_external run x)
  negative : (for_us : Bool) (code : ℕ) → Step x false (external_set_neg_response for_us code x)
  finish :
      (for_us : Bool) (res : List ℕ)
      → in_progress x.state ≡ true
      → Step x false (external_processing_done for_us res x)
  confirm : (ok : Bool) → Step x false (dcm_confirm ok x)

-- `n` services were started since the dispatcher was idle and had made no call.
pub data IsReachable : ℕ → External → Type 0 where
  at_first : (x : External) → x.calls ≡ [] → x.state ≡ idle → IsReachable 0 x
  then_step :
      {n : ℕ} {x : External} (b : Bool) {x' : External}
      → IsReachable n x
      → Step x b x'
      → IsReachable (if b then suc n else n) x'

abbrev IsBounded : ℕ → External → Type 0
IsBounded n x = responses x.calls + count (in_progress x.state) ≤ n

is_pending-in_progress : (s : ServiceState) → is_pending s ≡ true → in_progress s ≡ true
is_pending-in_progress s h = ground arith

external_main_bound :
    (n : ℕ) (run : Run) (x : External) → IsBounded n x → IsBounded n (external_main run x)
unfolding external_main
external_main_bound n run x h = elim (Bool-cases (is_pending x.state)) [
  | inl y ↦
      (let p = poll_service run x in
        let (calls, kept) = poll_service_keeps run x in
        let going = is_pending-in_progress x.state y in
        rw (y, external_main)
          (respond_if_done_bound p.state p n refl (rw (calls, kept going) (rw going at h))))
  | inr other ↦ rw (other, external_main) (respond_if_done_bound x.state x n refl h)
]

cancel_external_keeps :
    (run : Run) (x : External)
    → ((cancel_external run x).calls ≡ x.calls) × ((cancel_external run x).state ≡ idle)
unfolding cancel_external
cancel_external_keeps run x = elim (Bool-cases (is_pending x.state || is_wait_done x.state)) [
  | inl y ↦ rw (y, cancel_external) ((make_calls_keeps run.call_backs x).0, refl)
  | inr other ↦ rw (other, cancel_external) (refl, refl)
]

external_set_neg_response_keeps :
    (for_us : Bool) (code : ℕ) (x : External)
    → let x' = external_set_neg_response for_us code x in
      (x'.calls ≡ x.calls) × (x'.state ≡ x.state)
unfolding external_set_neg_response
external_set_neg_response_keeps true code x = (refl, refl)
external_set_neg_response_keeps false code x = (refl, refl)

external_processing_done_keeps :
    (for_us : Bool) (res : List ℕ) (x : External)
    → let x' = external_processing_done for_us res x in
      (x'.calls ≡ x.calls) × (in_progress x.state ≡ true → in_progress x'.state ≡ true)
unfolding external_processing_done
external_processing_done_keeps false res x = (refl, λ h. h)
external_processing_done_keeps true res x =
    ground (arith, take_response_keeps res (record x { state = done }))

Step-bound :
    (n : ℕ) (x : External) (b : Bool) (x' : External)
    → Step x b x'
    → IsBounded n x
    → IsBounded (if b then suc n else n) x'
Step-bound n x b x' (start sub run) h =
    let (calls, going) = start_external_keeps sub run x in rw (calls, going) (omega arith)
Step-bound n x b x' (main_function run) h = external_main_bound n run x h
Step-bound n x b x' (cancel run) h = ground (arith, cancel_external_keeps run x)
Step-bound n x b x' (negative for_us code) h =
    ground (arith, external_set_neg_response_keeps for_us code x)
Step-bound n x b x' (finish for_us res going) h =
    ground (arith, external_processing_done_keeps for_us res x)
Step-bound n x b x' (confirm ok) h = ground (arith, dcm_confirm_keeps ok x)

-- However starts, runs, cancellations, results and confirmations of external services follow each
-- other, where the application delivers a result only for a service that is in progress, the responses that were made are at most as many as the services that were started, and
-- fewer while one is in progress.
pub reachable_responses :
    (n : ℕ) (x : External) → IsReachable n x → responses x.calls + count (in_progress x.state) ≤ n
reachable_responses n x (at_first y calls state) = rw (calls, state) (omega arith)
reachable_responses n x (then_step {n = m} {x = y} b r s) =
    Step-bound m y b x s (reachable_responses m y r)

confirm_in_done : (s : ServiceState) (ok : Bool) (x : External) → s ≡ done → confirm_in s ok x ≡ x
confirm_in_done done ok x h = refl
confirm_in_done idle ok x h = refl
confirm_in_done pending ok x h = refl
confirm_in_done wait_done ok x h = refl
confirm_in_done wait_tx_confirm ok x h = absurd (ground arith)

respond_if_done_done :
    (s : ServiceState) (x : External) → s ≡ done → respond_if_done s x ≡ respond_done x
respond_if_done_done done x h = refl
respond_if_done_done idle x h = absurd (ground arith)
respond_if_done_done pending x h = absurd (ground arith)
respond_if_done_done wait_done x h = absurd (ground arith)
respond_if_done_done wait_tx_confirm x h = absurd (ground arith)

suppressed_calls :
    (x : External)
    → x.state ≡ done
    → x.suppress_pos_rsp_msg ≡ true
    → (dsp_processing_done positive_response x).calls
      ≡ response_suppressed ∷ dsp_confirmation ∷ x.calls
unfolding dsp_processing_done dcm_confirm
suppressed_calls x h s =
    let quiet = record x { calls = response_suppressed ∷ dsp_confirmation ∷ x.calls } in
    let unsuppressed : not x.suppress_pos_rsp_msg ≡ false = ground (arith, s) in
    ap (λ (y : External). y.calls) (if_false _ unsuppressed ∙ confirm_in_done x.state true quiet h)

-- For a service that is done with a positive result, where the positive response is suppressed, the
-- main function makes exactly two calls: it tells the diagnostic services that the request is
-- confirmed, and makes no response. The application gets no confirmation, and the service is left
-- waiting for the confirmation of a transmission.
pub external_main_unconfirmed :
    (run : Run) (x : External)
    → x.state ≡ done
    → x.nrc ≡ positive_response
    → x.suppress_pos_rsp_msg ≡ true
    → let x' = external_main run x in
      (x'.calls ≡ response_suppressed ∷ dsp_confirmation ∷ x.calls)
      × (confirmations x'.calls ≡ confirmations x.calls)
      × (x'.state ≡ wait_tx_confirm)
unfolding external_main respond_done
external_main_unconfirmed run x h z s =
    let still : is_pending x.state ≡ false = ground arith in
    let positive : (x.nrc == positive_response) ≡ true = ground (arith, z) in
    let y = record x { tx_length = (x.tx_length + 1) % 2 ^ 16 } in
    let told : (if x.nrc == positive_response
          then dsp_processing_done positive_response y
          else dsp_processing_done x.nrc x).calls
        ≡ response_suppressed ∷ dsp_confirmation ∷ x.calls =
      ap (λ (y : External). y.calls) (if_true _ positive) ∙ suppressed_calls y h s in
    rw (still, respond_if_done_done x.state x h) (told, ap confirmations told, refl)
