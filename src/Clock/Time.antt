-- ===== src/Clock/Time.antt =====
-- Company time does not go back.
use agent_company_factory.Prelude.{
  leb, or_else, Bool-cases, Option-cases, ℕ, ◌≤◌, ◌≡◌, sym, ap, ◌∙◌, inl, inr, Bool, Option, List,
  [], ◌∷◌, arith,
}
use agent_company_factory.Clock.Model.{ClockRate, Clock, is_running, now_company}
use agent_company_factory.Clock.Pause.{
  maybe_finalise_pause, begun, pause, resume, day_of, tick_to, emit_day_ticks, pump_once, Op,
  asking, pausing_at, resuming_at, pumping_at, step, run, pause_again, pause_begins, tick_none,
  tick_some,
}

-- The highest reading that was given out; 0 before the first.
abbrev pub seen : Clock → ℕ
seen s = or_else s.last_company_time 0

seen-now_company :
    (rate : ClockRate) (wall : ℕ) (s : Clock)
    → (seen s ≤ (now_company rate wall s).0)
      × (seen (now_company rate wall s).1 ≡ (now_company rate wall s).0)
unfolding now_company
seen-now_company rate wall s = elim (Option-cases (s.last_company_time)) [
  | inl e ↦ ground arith
  | inr (t, e) ↦ ground arith
]

seen-finalise :
    (rate : ClockRate) (idle : Option Bool) (s : Clock)
    → seen (maybe_finalise_pause rate idle s) ≡ seen s
unfolding maybe_finalise_pause
seen-finalise rate idle s = ground arith

seen-pause :
    (rate : ClockRate) (wall : ℕ) (by : Option ℕ) (idle : Option Bool) (s : Clock)
    → seen (pause rate wall by idle s) ≡ seen s
seen-pause rate wall by idle s = elim (Bool-cases (is_running s.fields.state)) [
  | inl e ↦
      sym (ap seen (pause_begins rate wall by idle s e))
      ∙ seen-finalise rate idle (begun rate wall by s)
  | inr e ↦ sym (ap seen (pause_again rate wall by idle s e))
]

seen-resume :
    (rate : ClockRate) (wall : ℕ) (by : Option ℕ) (s : Clock)
    → seen (resume rate wall by s) ≡ seen s
unfolding resume
seen-resume rate wall by s = ground arith

seen-tick_to : (rate : ClockRate) (current : ℕ) (s : Clock) → seen (tick_to rate current s) ≡ seen s
seen-tick_to rate current s = elim (Bool-cases (leb current s.fields.last_day_ticked)) [
  | inl e ↦ sym (ap seen (tick_none rate current s e))
  | inr e ↦ sym (ap seen (tick_some rate current s e))
]

seen-emit : (rate : ClockRate) (wall : ℕ) (s : Clock) → seen s ≤ seen (emit_day_ticks rate wall s)
unfolding emit_day_ticks
seen-emit rate wall s =
    let (t, s') = now_company rate wall s in
    omega (arith, seen-now_company rate wall s, seen-tick_to rate (day_of t s'.fields) s')

seen-pump :
    (rate : ClockRate) (wall : ℕ) (idle : Option Bool) (s : Clock)
    → seen s ≤ seen (pump_once rate wall idle s)
unfolding pump_once
seen-pump rate wall idle s =
    omega (arith, seen-emit rate wall s, seen-finalise rate idle (emit_day_ticks rate wall s))

seen-step : (rate : ClockRate) (o : Op) (s : Clock) → seen s ≤ seen (step rate o s)
seen-step rate (asking wall) s = omega (arith, seen-now_company rate wall s)
seen-step rate (pausing_at wall by idle) s = omega (arith, seen-pause rate wall by idle s)
seen-step rate (resuming_at wall by) s = omega (arith, seen-resume rate wall by s)
seen-step rate (pumping_at wall idle) s = seen-pump rate wall idle s

seen-run : (rate : ClockRate) (os : List Op) (s : Clock) → seen s ≤ seen (run rate os s)
seen-run rate [] s = omega arith
seen-run rate (o ∷ os) s = omega (arith, seen-step rate o s, seen-run rate os (step rate o s))

-- A later reading of company time is never below an earlier one, whatever is called between them and
-- whatever the wall clock shows, also when it is set back.
pub now_company_monotone :
    (rate : ClockRate) (wall later : ℕ) (os : List Op) (s : Clock)
    → (now_company rate wall s).0
      ≤ (now_company rate later (run rate os (now_company rate wall s).1)).0
now_company_monotone rate wall later os s =
    let t = (now_company rate wall s).1 in
    omega (
      arith,
      seen-now_company rate wall s,
      seen-run rate os t,
      seen-now_company rate later (run rate os t),
    )
