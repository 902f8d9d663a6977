-- ===== src/Clock/Restart.antt =====
-- The row in the table is always up to date, so that a clock that is loaded again goes on as before.
use agent_company_factory.Prelude.{
  is_none, or_else, ℕ, ◌+◌, ◌-◌, ◌≡◌, ◌⊎◌, true, false, not, ◌||◌, some,
}
use agent_company_factory.Clock.Model.{
  ClockRate, Clock, is_running, latest, now_company, is_accepting_messages,
}

-- The row holds the fields of the clock in memory, and a clock that does not run knows since when.
abbrev pub IsSaved : ClockRate → Clock → Type 0
IsSaved rate s =
    (s.row ≡ some (s.fields, rate.real_per_company_day))
    × ((is_running s.fields.state || not (is_none s.fields.pause_started_at)) ≡ true)

-- What a clock that is loaded from the row of `s` has of it.
abbrev pub IsResumed : ClockRate → (now wall : ℕ) → (s t : Clock) → Type 0
IsResumed rate now wall s t =
    (t.fields.state ≡ s.fields.state)
    × (t.fields.last_day_ticked ≡ s.fields.last_day_ticked)
    × ((is_accepting_messages s ≡ true)
          × ((now_company rate wall s).0 ≡ latest s.last_company_time (now_company rate wall t).0)
        ⊎ (is_accepting_messages s ≡ false)
          × (t.fields.paused_total
              ≡ s.fields.paused_total + (now - or_else s.fields.pause_started_at 0))
          × ((now_company rate wall t).0 ≡ (now_company rate now t).0))
