-- ===== src/Clock/Freeze.antt =====
-- Company time during a pause: `now_company`, `pause`, `resume` and `pump_once` of
-- modules/clock/clock.py.
use agent_company_factory.Prelude.{ℕ, ◌≡◌, Bool, true, false, some}
use agent_company_factory.Clock.Model.{
  ClockRate, Fields, Clock, is_running, shown, latest, now_company,
}
use agent_company_factory.Clock.Pause.{Op, resuming_at}

-- `c` is `c₀` stopped at the time `wall`.
abbrev IsStopped : ℕ → Fields → Fields → Type 0
IsStopped wall c₀ c =
    (is_running c.state ≡ false)
    × (c.pause_started_at ≡ some wall)
    × (c.epoch_real ≡ c₀.epoch_real)
    × (c.epoch_company ≡ c₀.epoch_company)
    × (c.paused_total ≡ c₀.paused_total)

-- The clock `t` is `s` stopped at the time `wall`, and it reads as `s` did then.
record IsFrozen (rate : ClockRate) (wall : ℕ) (s t : Clock) : Type 0 where
  stopped : IsStopped wall s.fields t.fields
  reads : latest t.last_company_time (shown rate wall s.fields) ≡ (now_company rate wall s).0

abbrev pub reopens : Op → Bool
reopens (resuming_at _ _) = true
reopens _ = false
