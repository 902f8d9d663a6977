-- ===== src/Clock/Days.antt =====
-- Day ticks: each company day is announced once, in order.
use mathlib.Core.Path.{subst}
use agent_company_factory.Prelude.{
  leb, or_else, Bool-cases, ℕ, zero, suc, ◌+◌, ◌-◌, ◌≤◌, ◌≡◌, refl, sym, ap, ◌∙◌, inl, inr, Bool,
  false, ◌&&◌, Option, List, [], ◌∷◌, ◌++◌, arith,
}
use agent_company_factory.Clock.Model.{
  ClockRate, Event, clock_paused, clock_resumed, day_tick, Fields, Clock, is_running, is_pausing,
  now_company,
}
use agent_company_factory.Clock.Pause.{
  maybe_finalise_pause, begun, pause, settle_pause, resume, days_after, day_of, tick_to,
  emit_day_ticks, pump_once, Op, asking, pausing_at, resuming_at, pumping_at, step, run,
  pause_again, pause_begins, finalise_waits, finalise_ends, resume_again, resume_reopens, tick_none,
  tick_some,
}

-- The days that a log announces.
abbrev pub ticks : List Event → List ℕ
ticks [] = []
ticks (clock_paused _ ∷ l) = ticks l
ticks (clock_resumed _ ∷ l) = ticks l
ticks (day_tick d ∷ l) = d ∷ ticks l

-- The `n` numbers after `d`.
abbrev pub range : ℕ → ℕ → List ℕ
range zero d = []
range (suc n) d = (d + 1) ∷ range n (d + 1)

range_add : (m n d : ℕ) → range (m + n) d ≡ range m d ++ range n (d + m)
range_add zero n d = ground arith
range_add (suc m) n d =
    let left : suc m + n ≡ suc (m + n) = omega arith in
    let right : d + 1 + m ≡ d + suc m = omega arith in
    ap (λ k. range k d) left
    ∙ ap (λ l. (d + 1) ∷ l) (range_add m n (d + 1))
    ∙ ap (λ k. (d + 1) ∷ (range m (d + 1) ++ range n k)) right

ticks-append : (l k : List Event) → ticks (l ++ k) ≡ ticks l ++ ticks k
ticks-append [] k = refl
ticks-append (clock_paused _ ∷ l) k = ticks-append l k
ticks-append (clock_resumed _ ∷ l) k = ticks-append l k
ticks-append (day_tick d ∷ l) k = ap (λ t. d ∷ t) (ticks-append l k)

ticks-days_after : (n d : ℕ) → ticks (days_after n d) ≡ range n d
ticks-days_after zero d = refl
ticks-days_after (suc n) d = ap (λ t. (d + 1) ∷ t) (ticks-days_after n (d + 1))

-- The log has announced the days 1, 2, ... up to the one that the clock remembers.
abbrev pub IsTicked : Clock → Type 0
IsTicked s = ticks s.events ≡ range s.fields.last_day_ticked 0

IsTicked-finalise :
    (rate : ClockRate) (idle : Option Bool) (s : Clock)
    → IsTicked s
    → IsTicked (maybe_finalise_pause rate idle s)
IsTicked-finalise rate idle s h =
    elim (Bool-cases (is_pausing s.fields.state && or_else idle false)) [
      | inl e ↦ subst IsTicked (finalise_ends rate idle s e) h
      | inr e ↦ subst IsTicked (finalise_waits rate idle s e) h
    ]

-- An event that is no tick may be appended.
quiet : (l : List Event) (e : Event) → ticks (e ∷ []) ≡ [] → ticks (l ++ e ∷ []) ≡ ticks l
quiet [] e h = h
quiet (clock_paused _ ∷ l) e h = quiet l e h
quiet (clock_resumed _ ∷ l) e h = quiet l e h
quiet (day_tick d ∷ l) e h = ap (λ t. d ∷ t) (quiet l e h)

IsTicked-pause :
    (rate : ClockRate) (wall : ℕ) (by : Option ℕ) (idle : Option Bool) (s : Clock)
    → IsTicked s
    → IsTicked (pause rate wall by idle s)
IsTicked-pause rate wall by idle s h = elim (Bool-cases (is_running s.fields.state)) [
  | inl e ↦ subst IsTicked (pause_begins rate wall by idle s e) (
      IsTicked-finalise rate idle (begun rate wall by s)
        (quiet s.events (clock_paused by) refl ∙ h))
  | inr e ↦ subst IsTicked (pause_again rate wall by idle s e) h
]

same_day : (wall : ℕ) (c : Fields) → c.last_day_ticked ≡ (settle_pause wall c).last_day_ticked
unfolding settle_pause
same_day wall c = ground arith

IsTicked-resume :
    (rate : ClockRate) (wall : ℕ) (by : Option ℕ) (s : Clock)
    → IsTicked s
    → IsTicked (resume rate wall by s)
IsTicked-resume rate wall by s h = elim (Bool-cases (is_running s.fields.state)) [
  | inl e ↦ subst IsTicked (resume_again rate wall by s e) h
  | inr e ↦
      subst IsTicked (resume_reopens rate wall by s e)
        (quiet s.events (clock_resumed by) refl ∙ h ∙ ap (λ d. range d 0) (same_day wall s.fields))
]

-- The ticks that are emitted are the days between.
ticked_up :
    (l : List Event) (last current : ℕ)
    → last ≤ current
    → ticks l ≡ range last 0
    → ticks (l ++ days_after (current - last) last) ≡ range current 0
ticked_up l last current h e =
    let total_days : last + (current - last) ≡ current = omega arith in
    let start : last ≡ 0 + last = omega arith in
    ticks-append l (days_after (current - last) last)
    ∙ ap (λ t. t ++ ticks (days_after (current - last) last)) e
    ∙ ap (λ t. range last 0 ++ t) (ticks-days_after (current - last) last)
    ∙ ap (λ k. range last 0 ++ range (current - last) k) start
    ∙ sym (range_add last (current - last) 0)
    ∙ ap (λ k. range k 0) total_days

IsTicked-tick_to :
    (rate : ClockRate) (current : ℕ) (s : Clock) → IsTicked s → IsTicked (tick_to rate current s)
IsTicked-tick_to rate current s h = elim (Bool-cases (leb current s.fields.last_day_ticked)) [
  | inl e ↦ subst IsTicked (tick_none rate current s e) h
  | inr e ↦
      subst IsTicked (tick_some rate current s e)
        (ticked_up s.events s.fields.last_day_ticked current (ground arith) h)
]

IsTicked-emit :
    (rate : ClockRate) (wall : ℕ) (s : Clock) → IsTicked s → IsTicked (emit_day_ticks rate wall s)
unfolding emit_day_ticks now_company
IsTicked-emit rate wall s h =
    let (t, s') = now_company rate wall s in IsTicked-tick_to rate (day_of t s'.fields) s' h

pub IsTicked-step : (rate : ClockRate) (o : Op) (s : Clock) → IsTicked s → IsTicked (step rate o s)
unfolding now_company pump_once
IsTicked-step rate (asking wall) s h = h
IsTicked-step rate (pausing_at wall by idle) s h = IsTicked-pause rate wall by idle s h
IsTicked-step rate (resuming_at wall by) s h = IsTicked-resume rate wall by s h
IsTicked-step rate (pumping_at wall idle) s h =
    IsTicked-finalise rate idle (emit_day_ticks rate wall s) (IsTicked-emit rate wall s h)

-- Whatever is called, the log announces the days 1, 2, 3, ... up to the last one ticked, each once
-- and in order.
pub run-IsTicked :
    (rate : ClockRate) (os : List Op) (s : Clock) → IsTicked s → IsTicked (run rate os s)
run-IsTicked rate [] s h = h
run-IsTicked rate (o ∷ os) s h = run-IsTicked rate os (step rate o s) (IsTicked-step rate o s h)
