-- ===== src/Clock/Pause.antt =====
-- `pause`, `resume`, `_maybe_finalise_pause`, `_emit_day_ticks` and `pump_once` of
-- modules/clock/clock.py. What the idle probe answers is an argument; `none` is an exception.
use agent_company_factory.Prelude.{
  leb, if◌then◌else◌, or_else, ℕ, zero, suc, ◌+◌, ◌-◌, ◌/◌, ◌≡◌, Bool, true, false, not, ◌&&◌,
  Option, none, some, List, [], ◌∷◌, ◌++◌, arith,
}
use agent_company_factory.Clock.Model.{
  running, pausing, paused, microseconds_per_day, ClockRate, Event, clock_paused, clock_resumed,
  day_tick, Fields, Clock, is_running, is_pausing, now_company, save, append_event,
}

-- `Clock._maybe_finalise_pause`
unfoldable pub maybe_finalise_pause : ClockRate → Option Bool → Clock → Clock
maybe_finalise_pause rate idle s =
    if is_pausing s.fields.state && or_else idle false
    then save rate (record s.fields { state = paused }) s
    else s

-- The first half of `pause`, on a running clock.
abbrev pub begun : ClockRate → ℕ → Option ℕ → Clock → Clock
begun rate wall by s =
    append_event (clock_paused by)
      (save rate (record s.fields { state = pausing; pause_started_at = some wall }) s)

-- `Clock.pause`
unfoldable pub pause : ClockRate → ℕ → Option ℕ → Option Bool → Clock → Clock
pause rate wall by idle s =
    if not (is_running s.fields.state)
    then s
    else maybe_finalise_pause rate idle (begun rate wall by s)

-- The time since the pause began is added to the paused time.
unfoldable pub settle_pause : ℕ → Fields → Fields
settle_pause wall c = elim c.pause_started_at [
  | none ↦ c
  | some p ↦ record c { paused_total = c.paused_total + (wall - p); pause_started_at = none }
]

-- `Clock.resume`
unfoldable pub resume : ClockRate → ℕ → Option ℕ → Clock → Clock
resume rate wall by s =
    if is_running s.fields.state
    then s
    else append_event (clock_resumed by)
        (save rate (record (settle_pause wall s.fields) { state = running }) s)

-- The days after `d`, as many as asked for.
abbrev pub days_after : ℕ → ℕ → List Event
days_after zero d = []
days_after (suc n) d = day_tick (d + 1) ∷ days_after n (d + 1)

abbrev pub day_of : ℕ → Fields → ℕ
day_of company_now c = (company_now - c.epoch_company) / microseconds_per_day

-- The clock once the days up to `current` are announced.
abbrev pub announced : ClockRate → ℕ → Clock → Clock
announced rate current s =
    let last = s.fields.last_day_ticked in
    save rate (record s.fields { last_day_ticked = current })
      (record s { events = s.events ++ days_after (current - last) last })

unfoldable pub tick_to : ClockRate → ℕ → Clock → Clock
tick_to rate current s =
    if leb current s.fields.last_day_ticked then s else announced rate current s

-- `Clock._emit_day_ticks`
unfoldable pub emit_day_ticks : ClockRate → ℕ → Clock → Clock
emit_day_ticks rate wall s =
    let (t, s') = now_company rate wall s in tick_to rate (day_of t s'.fields) s'

-- `Clock.pump_once`
unfoldable pub pump_once : ClockRate → ℕ → Option Bool → Clock → Clock
pump_once rate wall idle s = maybe_finalise_pause rate idle (emit_day_ticks rate wall s)

-- A call of the clock.
pub data Op : Type 0 where
  asking : (wall : ℕ) → Op
  pausing_at : (wall : ℕ) → Option ℕ → Option Bool → Op
  resuming_at : (wall : ℕ) → Option ℕ → Op
  pumping_at : (wall : ℕ) → Option Bool → Op

abbrev pub step : ClockRate → Op → Clock → Clock
step rate (asking wall) s = (now_company rate wall s).1
step rate (pausing_at wall by idle) s = pause rate wall by idle s
step rate (resuming_at wall by) s = resume rate wall by s
step rate (pumping_at wall idle) s = pump_once rate wall idle s

abbrev pub run : ClockRate → List Op → Clock → Clock
run rate [] s = s
run rate (o ∷ os) s = run rate os (step rate o s)

module _ (rate : ClockRate) (wall : ℕ) (by : Option ℕ) (idle : Option Bool) (s : Clock) where
  pub pause_again : is_running s.fields.state ≡ false → s ≡ pause rate wall by idle s
  unfolding pause
  pause_again e = ground arith

  pub pause_begins :
      is_running s.fields.state ≡ true
      → maybe_finalise_pause rate idle (begun rate wall by s) ≡ pause rate wall by idle s
  unfolding pause
  pause_begins e = ground arith

module _ (rate : ClockRate) (idle : Option Bool) (s : Clock) where
  pub finalise_waits :
      (is_pausing s.fields.state && or_else idle false) ≡ false
      → s ≡ maybe_finalise_pause rate idle s
  unfolding maybe_finalise_pause
  finalise_waits e = ground arith

  pub finalise_ends :
      (is_pausing s.fields.state && or_else idle false) ≡ true
      → save rate (record s.fields { state = paused }) s ≡ maybe_finalise_pause rate idle s
  unfolding maybe_finalise_pause
  finalise_ends e = ground arith

module _ (rate : ClockRate) (wall : ℕ) (by : Option ℕ) (s : Clock) where
  -- The clock after `resume` has reopened the company.
  abbrev pub reopened : Clock
  reopened =
      append_event (clock_resumed by)
        (save rate (record (settle_pause wall s.fields) { state = running }) s)

  pub resume_again : is_running s.fields.state ≡ true → s ≡ resume rate wall by s
  unfolding resume
  resume_again e = ground arith

  pub resume_reopens : is_running s.fields.state ≡ false → reopened ≡ resume rate wall by s
  unfolding resume
  resume_reopens e = ground arith

module _ (rate : ClockRate) (current : ℕ) (s : Clock) where
  pub tick_none : leb current s.fields.last_day_ticked ≡ true → s ≡ tick_to rate current s
  unfolding tick_to
  tick_none e = ground arith

  pub tick_some :
      leb current s.fields.last_day_ticked ≡ false
      → announced rate current s ≡ tick_to rate current s
  unfolding tick_to
  tick_some e = ground arith
