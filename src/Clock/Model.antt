-- ===== src/Clock/Model.antt =====
-- modules/clock/state.py, the fields of `Clock` and its reading of company time (clock.py). Every
-- time is a number of microseconds since some origin. The products and sums of floats are exact here,
-- and only the conversion to a `timedelta` rounds. Where the floats of the program round before it,
-- its reading may be some microseconds off this one, the same for the same wall reading and fields.
use agent_company_factory.Prelude.{
  ltb, ◌==◌, if◌then◌else◌, is_none, or_else, ℕ, zero, suc, ◌+◌, ◌-◌, ◌*◌, ◌/◌, ◌%◌, Bool, true,
  false, not, ◌&&◌, ◌||◌, Option, none, some, List, [], ◌∷◌, ◌++◌,
}
use agent_company_factory.Prelude.Action.{Result, ok, err}

pub data ClockState : Type 0 where
  running pausing paused : ClockState

pub data ClockError : Type 0 where
  rate_not_positive : ClockError

abbrev pub microseconds_per_day : ℕ
microseconds_per_day = 86400000000

-- `ClockRate`: the real microseconds that make up one company day, with the check of
-- `__post_init__`.
pub record ClockRate : Type 0 where
  pub real_per_company_day : ℕ

unfoldable pub make_rate : ℕ → Result ClockError ClockRate
make_rate zero = err rate_not_positive
make_rate (suc n) = ok (record { real_per_company_day = suc n })

-- The conversion of a `timedelta` to microseconds: to the nearest, and to the even of two.
abbrev pub round_quotient : ℕ → ℕ → ℕ
round_quotient n d =
    let q = n / d in
    let r = n - q * d in if ltb d (r * 2) || r * 2 == d && not (q % 2 == 0) then q + 1 else q

-- Real time times `ClockRate.factor`, as a `timedelta`.
unfoldable pub scale : ClockRate → ℕ → ℕ
scale rate elapsed = round_quotient (elapsed * microseconds_per_day) rate.real_per_company_day

pub data Event : Type 0 where
  clock_paused clock_resumed : (by : Option ℕ) → Event
  day_tick : (day : ℕ) → Event

-- The fields of `Clock` that have a column in `clock_state`.
pub record Fields : Type 0 where
  pub state : ClockState
  pub epoch_real : ℕ
  pub epoch_company : ℕ
  pub paused_total : ℕ
  pub pause_started_at : Option ℕ
  pub last_day_ticked : ℕ

-- The clock in memory, the singleton row of the table with the rate that was saved in it, and the
-- event log.
pub record Clock : Type 0 where
  pub fields : Fields
  pub last_company_time : Option ℕ
  pub row : Option (Fields × ℕ)
  pub events : List Event

abbrev pub is_running : ClockState → Bool
is_running running = true
is_running _ = false

abbrev pub is_pausing : ClockState → Bool
is_pausing pausing = true
is_pausing _ = false

-- `Clock._compute_company_time`; elapsed time below 0 counts as 0.
unfoldable pub compute_company_time : ClockRate → ℕ → Option ℕ → Fields → ℕ
compute_company_time rate wall freeze_at c =
    c.epoch_company + scale rate (or_else freeze_at wall - c.epoch_real - c.paused_total)

-- What the clock shows before it is kept from going back.
unfoldable pub shown : ClockRate → ℕ → Fields → ℕ
shown rate wall c =
    compute_company_time rate wall (if is_running c.state then none else c.pause_started_at) c

abbrev pub latest : Option ℕ → ℕ → ℕ
latest none v = v
latest (some t) v = if ltb v t then t else v

-- `Clock.now_company`
unfoldable pub now_company : ClockRate → ℕ → Clock → ℕ × Clock
now_company rate wall s =
    let v = latest s.last_company_time (shown rate wall s.fields) in
    (v, record s { last_company_time = some v })

-- `Clock.is_accepting_messages`
unfoldable pub is_accepting_messages : Clock → Bool
is_accepting_messages s = is_running s.fields.state

-- `Clock._persist`
abbrev pub persist : ClockRate → Clock → Clock
persist rate s = record s { row = some (s.fields, rate.real_per_company_day) }

-- A write of the fields, then `_persist`.
abbrev pub save : ClockRate → Fields → Clock → Clock
save rate c s = persist rate (record s { fields = c })

abbrev pub append_event : Event → Clock → Clock
append_event e s = record s { events = s.events ++ e ∷ [] }

-- What `__init__` builds and `_load_or_init` saves when there is no row yet.
abbrev pub initial : ℕ → Fields
initial now = record {
  state = running;
  epoch_real = now;
  epoch_company = now;
  paused_total = 0;
  pause_started_at = none;
  last_day_ticked = 0;
}

-- The gap of a crash while paused is paused time.
unfoldable pub bridge : ℕ → Fields → Fields
bridge now c = elim c.pause_started_at [
  | none ↦ c
  | some p ↦ record c { paused_total = c.paused_total + (now - p); pause_started_at = some now }
]

-- `Clock._load_or_init`, on a clock that `__init__` has just built.
unfoldable pub load_or_init : ClockRate → ℕ → Option (Fields × ℕ) → List Event → Clock
unfolding bridge
load_or_init rate now none log = record {
  fields = initial now;
  last_company_time = none;
  row = some (initial now, rate.real_per_company_day);
  events = log;
}
load_or_init rate now (some (c, r)) log =
    let kept : Clock = record {
      fields = c;
      last_company_time = none;
      row = some (c, r);
      events = log;
    } in
    if is_running c.state || is_none c.pause_started_at then kept else save rate (bridge now c) kept
