-- ===== src/Dem/Debounce.antt =====
-- dem/src/Dem_Debounce.c: qualification of the reported status of an event.
-- Reports to the error tracer leave no trace in the state, and are left out. The parameters of an
-- event are an argument; preDebounceCounterBased reads them through eventParamRef, which the
-- initialization sets to them.
pub mod Counter
pub mod Fdc
pub mod Time
use plug_and_play_autosar.Common.{
  ℕ, ◌+◌, ◌*◌, ◌/◌, ◌%◌, ◌^◌, ℤ, pos, negsuc, ◌+ℤ◌, ◌-ℤ◌, ◌*ℤ◌, ◌/ℤ◌, pos_part, neg_part, ltb_ℤ,
  leb_ℤ, max_ℤ, min_ℤ, to_signed, to_sint8, to_sint16, Bool, true, false, not, ◌&&◌, ◌||◌, List, [],
  ◌∷◌, Option, none, some, if◌then◌else◌, ltb, leb, ◌==◌, get_elem?, set,
}
use plug_and_play_autosar.Dem.Types.{
  EventStatus, passed, failed, prepassed, prefailed, invalid, CounterBased, TimeBased, PreDebounce,
  no_pre_debounce, pre_debounce_counter_based, pre_debounce_frequency_based,
  pre_debounce_time_based, EventParameter, EventStatusRec, TimeBaseStatus,
}

-- DEM_UDS_TEST_FAILED_TRESHOLD, DEM_UDS_TEST_PASSED_TRESHOLD and DEM_UDS_FDC_RANGE
abbrev pub uds_test_failed_threshold : ℤ
uds_test_failed_threshold = pos 127

abbrev pub uds_test_passed_threshold : ℤ
uds_test_passed_threshold = negsuc 127

abbrev pub uds_fdc_range : ℕ
uds_fdc_range = 255

-- Where the range is not positive the program's configuration is invalid; C's division by a
-- negative number is written out, and one by zero, which C leaves undefined, gives 0.
abbrev pub div_signed : ℤ → ℤ → ℤ
div_signed a (pos d) = a /ℤ d
div_signed a (negsuc d) = (pos 0 -ℤ a) /ℤ (d + 1)

unfoldable pub fdc_internal_to_uds_fdc : ℤ → CounterBased → ℤ
fdc_internal_to_uds_fdc fdc v =
    let range = v.failed_threshold -ℤ v.passed_threshold in
    let temp =
      pos uds_fdc_range *ℤ (fdc -ℤ v.passed_threshold) +ℤ uds_test_passed_threshold *ℤ range in
    to_sint8 (div_signed temp range)

unfoldable pub pre_debounce_none : EventStatus → EventStatus
pre_debounce_none s = s

-- The value of fdcInternal after DEM_EVENT_STATUS_PREFAILED.
unfoldable pub count_up : CounterBased → ℤ → ℤ
count_up v fdc =
    if ltb_ℤ fdc v.failed_threshold
    then (let jumped = if v.jump_up && ltb_ℤ fdc v.jump_up_value then v.jump_up_value else fdc in
        if ltb_ℤ (jumped +ℤ pos v.increment_step_size) v.failed_threshold
        then to_sint16 (jumped +ℤ pos v.increment_step_size)
        else v.failed_threshold)
    else fdc

-- The value of fdcInternal after DEM_EVENT_STATUS_PREPASSED.
unfoldable pub count_down : CounterBased → ℤ → ℤ
count_down v fdc =
    if ltb_ℤ v.passed_threshold fdc
    then (let jumped =
          if v.jump_down && ltb_ℤ v.jump_down_value fdc then v.jump_down_value else fdc in
        if ltb_ℤ v.passed_threshold (jumped -ℤ pos v.decrement_step_size)
        then to_sint16 (jumped -ℤ pos v.decrement_step_size)
        else v.passed_threshold)
    else fdc

-- The `switch` of preDebounceCounterBased.
unfoldable pub next_fdc : CounterBased → EventStatus → ℤ → ℤ
next_fdc v prefailed fdc = count_up v fdc
next_fdc v prepassed fdc = count_down v fdc
next_fdc v failed fdc = v.failed_threshold
next_fdc v passed fdc = v.passed_threshold
next_fdc v (invalid n) fdc = fdc

-- The code that preDebounceCounterBased returns for the new value of fdcInternal.
unfoldable pub qualify : CounterBased → EventStatus → ℤ → EventStatus
qualify v reported fdc =
    if leb_ℤ v.failed_threshold fdc
    then failed
    else if leb_ℤ fdc v.passed_threshold
    then passed
    else reported

unfoldable pub pre_debounce_counter :
    CounterBased → EventStatus → EventStatusRec → EventStatus × EventStatusRec
pre_debounce_counter v reported r =
    let fdc = next_fdc v reported r.fdc_internal in
    let uds = fdc_internal_to_uds_fdc fdc v in
    (
      qualify v reported fdc,
      record r { fdc_internal = fdc; uds_fdc = uds; max_uds_fdc = max_ℤ r.max_uds_fdc uds },
    )

-- getTimeBasedFDC: the quotient of `sint64` numbers, at most 127 and at least -128.
unfoldable pub get_time_based_fdc : TimeBaseStatus → TimeBased → ℤ
get_time_based_fdc t v =
    if t.started
    then (if t.failure_counting
        then (if v.time_failed_threshold == 0
            then uds_test_failed_threshold
            else to_sint8 (
                min_ℤ (pos t.debounce_time *ℤ uds_test_failed_threshold /ℤ v.time_failed_threshold)
                  uds_test_failed_threshold))
        else if v.time_passed_threshold == 0
        then uds_test_passed_threshold
        else to_sint8 (
            max_ℤ (pos t.debounce_time *ℤ uds_test_passed_threshold /ℤ v.time_passed_threshold)
              uds_test_passed_threshold))
    else pos 0

-- The two branches of preDebounceTimeBased that start a timer: `at_once` for a qualified report or
-- a threshold of 0.
abbrev start_timer : Bool → Bool → ℕ → TimeBaseStatus → TimeBaseStatus
start_timer counting at_once threshold t = record t {
  started = true;
  failure_counting = counting;
  debounce_time = if at_once then threshold else 0;
  error_reported = at_once;
  counter_reset = not at_once;
}

abbrev is_failed : EventStatus → Bool
is_failed failed = true
is_failed _ = false

abbrev is_passed : EventStatus → Bool
is_passed passed = true
is_passed _ = false

abbrev time_failed : TimeBased → EventStatus → TimeBaseStatus → EventStatus × TimeBaseStatus
time_failed v reported t =
    if not t.started || not t.failure_counting
    then (let at_once = is_failed reported || v.time_failed_threshold == 0 in
        (
          (if at_once then failed else reported),
          start_timer true at_once v.time_failed_threshold t,
        ))
    else (reported, t)

abbrev time_passed : TimeBased → EventStatus → TimeBaseStatus → EventStatus × TimeBaseStatus
time_passed v reported t =
    if not t.started || t.failure_counting
    then (let at_once = is_passed reported || v.time_passed_threshold == 0 in
        (
          (if at_once then passed else reported),
          start_timer false at_once v.time_passed_threshold t,
        ))
    else (reported, t)

-- preDebounceTimeBased on the entry of the event in DemTimeBaseBuffer.
unfoldable pub pre_debounce_time :
    TimeBased → EventStatus → ℕ → TimeBaseStatus → EventStatus × TimeBaseStatus
pre_debounce_time v failed id t = time_failed v failed (record t { event_id = id })
pre_debounce_time v prefailed id t = time_failed v prefailed (record t { event_id = id })
pre_debounce_time v passed id t = time_passed v passed (record t { event_id = id })
pre_debounce_time v prepassed id t = time_passed v prepassed (record t { event_id = id })
pre_debounce_time v (invalid n) id t = (invalid n, record t { event_id = id })

-- One entry of the loop of TimeBasedDebounceMainFunction, up to the calls of handleEvent: the
-- status to report, if any, and the entry. `task_time` is DEM_TASK_TIME; the time is a `uint32`.
unfoldable pub advance_timer :
    ℕ → Bool → TimeBased → TimeBaseStatus → Option EventStatus × TimeBaseStatus
advance_timer task_time cycle_started v t =
    if cycle_started
    then (if t.started
        then (if t.counter_reset
            then (none, record t { counter_reset = false })
            else (let threshold =
                  if t.failure_counting then v.time_failed_threshold else v.time_passed_threshold in
                let time =
                  if ltb t.debounce_time threshold
                  then (t.debounce_time + task_time) % 2 ^ 32
                  else t.debounce_time in
                (
                  (if leb threshold time
                      then some (if t.failure_counting then failed else passed)
                      else none),
                  record t { debounce_time = time },
                )))
        else (none, t))
    else (none, record t { started = false; error_reported = false })

unfoldable pub default_uds_fdc : EventParameter → ℤ
default_uds_fdc p = elim p.event_class.pre_debounce [
  | none ↦ pos 0
  | some (pre_debounce_counter_based v) ↦ fdc_internal_to_uds_fdc (pos 0) v
  | _ ↦ pos 0
]

-- The reset of an entry of DemTimeBaseBuffer by resetDebounceCounter.
abbrev pub reset_timer : TimeBaseStatus → TimeBaseStatus
reset_timer t = record t { started = false; error_reported = false; debounce_time = 0 }

abbrev update_timer :
    List TimeBaseStatus → ℕ → (TimeBaseStatus → TimeBaseStatus) → List TimeBaseStatus
update_timer ts i f = elim (get_elem? ts i) [ none ↦ ts | some t ↦ set ts i (f t) ]

-- resetDebounceCounter, with the parameters that lookupEventIdParameter finds for the event.
unfoldable pub reset_debounce_counter :
    Option EventParameter
    → EventStatusRec
    → List TimeBaseStatus
    → EventStatusRec × List TimeBaseStatus
reset_debounce_counter none r ts =
    (record r { uds_fdc = pos 0; max_uds_fdc = pos 0; fdc_internal = pos 0 }, ts)
reset_debounce_counter (some p) r ts = (
  record r { uds_fdc = default_uds_fdc p; max_uds_fdc = default_uds_fdc p; fdc_internal = pos 0 },
  elim p.event_class.pre_debounce [
    | none ↦ ts
    | some (pre_debounce_time_based v) ↦ update_timer ts v.index reset_timer
    | _ ↦ ts
  ],
)

-- RunPredebounce. An index outside DemTimeBaseBuffer, which C would write, leaves it as it is.
unfoldable pub run_predebounce :
    EventStatus
    → EventParameter
    → EventStatusRec
    → List TimeBaseStatus
    → EventStatus × EventStatusRec × List TimeBaseStatus
run_predebounce reported p r ts = elim p.event_class.pre_debounce [
  | none ↦ (reported, r, ts)
  | some no_pre_debounce ↦ (pre_debounce_none reported, r, ts)
  | some (pre_debounce_counter_based v) ↦
      (let (s, r') = pre_debounce_counter v reported r in (s, r', ts))
  | some pre_debounce_frequency_based ↦ (reported, r, ts)
  | some (pre_debounce_time_based v) ↦ elim (get_elem? ts v.index) [
    | none ↦ (reported, r, ts)
    | some t ↦
        (let (s, t') = pre_debounce_time v reported p.event_id t in (s, r, set ts v.index t'))
  ]
]
