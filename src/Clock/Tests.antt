-- ===== src/Clock/Tests.antt =====
-- A clock at one real hour for a company day.
use agent_company_factory.Prelude.{◌≤◌, ◌≡◌, refl, true, none, some, List, [], ◌∷◌}
use agent_company_factory.Clock.Model.{
  ClockRate, scale, Clock, compute_company_time, shown, now_company, load_or_init,
}
use agent_company_factory.Clock.Pause.{
  maybe_finalise_pause, pause, tick_to, emit_day_ticks, pump_once, Op, asking, pausing_at,
  pumping_at, run,
}
use agent_company_factory.Clock.Time.{now_company_monotone}
use agent_company_factory.Clock.Days.{ticks, range, run-IsTicked}

abbrev hour : ClockRate
hour = record { real_per_company_day = 3600000000 }

abbrev born : Clock
born = load_or_init hour 1000 none []

-- Two hours of work, a pause of an hour, a crash in it.
abbrev day_one : List Op
day_one = pumping_at 7200001000 none ∷ pausing_at 7200001000 none (some true) ∷ []

ticked_two : ticks (run hour day_one born).events ≡ 1 ∷ 2 ∷ []
unfolding load_or_init pump_once emit_day_ticks now_company shown compute_company_time scale tick_to
    pause maybe_finalise_pause
ticked_two = refl

now_company_monotone_example :
    (now_company hour 7200001000 born).0
    ≤ (now_company hour 5 (run hour day_one (now_company hour 7200001000 born).1)).0
now_company_monotone_example = now_company_monotone hour 7200001000 5 day_one born

-- Asked for, paused again and pumped while it is paused.
abbrev meanwhile : List Op
meanwhile = asking 5 ∷ pausing_at 4000 none none ∷ pumping_at 6000 (some true) ∷ []

run-IsTicked_example :
    ticks (run hour day_one born).events ≡ range (run hour day_one born).fields.last_day_ticked 0
unfolding load_or_init
run-IsTicked_example = run-IsTicked hour day_one born refl

abbrev broken_off : Clock
broken_off = run hour day_one born

-- A clock that was read after a second, lost, and loaded again with the wall clock set back by half
-- of it shows an earlier time than before.
abbrev read_once : Clock
read_once = (now_company hour 1001000 born).1

rewound :
    (read_once.last_company_time ≡ some 24001000)
    × ((now_company hour 501000 read_once).0 ≡ 24001000)
    × ((now_company hour 501000 (load_or_init hour 501000 read_once.row read_once.events)).0
        ≡ 12001000)
unfolding load_or_init now_company shown compute_company_time scale
rewound = (refl, refl, refl)
