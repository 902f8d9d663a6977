-- ===== src/Identity/Tests.antt =====
-- The org chart of a small company: a CEO, an HR agent and two members.
use agent_company_factory.Prelude.{
  is_none, ℕ, ◌+◌, ◌<◌, ◌≡◌, refl, Bool, true, false, not, ◌&&◌, Option, none, some, List, [], ◌∷◌,
  map, arith,
}
use agent_company_factory.Prelude.Action.{ok, err}
use agent_company_factory.Identity.Model.{
  Role, ceo, hr, security, member, active, hr_can_only_manage_hr, cycle_detected, Agent, Org,
  agent_id, is_ceo, is_hr, direct_report_limit, active_count, has_role, direct_report_count,
  direct_reports, manager, get_active, has_other_active_hr, depth_from, depth,
}
use agent_company_factory.Identity.Reason.{
  codes, is_space, emit_word, split_from, join, clean, lower, same_text, starts_with, contains,
  validate_fire_reason,
}
use agent_company_factory.Identity.Hire.{Hire, refuse_manager, refuse_hire, add_agent}
use agent_company_factory.Identity.Reassign.{
  meets, refuse_actor, refuse_edge, find_pair, move, reassign,
}
use agent_company_factory.Identity.Queries.{chain_up, all_descendants}
use agent_company_factory.Identity.Fire.{direct_fired, do_fire, refuse_fire, fire}
use agent_company_factory.Identity.Chart.{
  Grounded, root, under, Above, height, meets-total, is_lost, depth_from-total,
}
use agent_company_factory.Identity.Invariant.{IsOrderly}
use agent_company_factory.Identity.Offboarding.{
  fire_lem, Op, hiring, moving, firing, run, run-IsOrderly,
}

abbrev nobody : Org
nobody = record { agents = []; fire_pending = []; requested = []; events = [] }

nobody-IsOrderly : IsOrderly []
unfolding manager active_count
nobody-IsOrderly = record {
  ids = tt;
  managed = tt;
  acyclic = λ k. root k refl;
  span = tt;
  headcount = ground arith;
}

abbrev job : Role → Option ℕ → Bool → Hire
job r m boot = record {
  role = r;
  persona_ref = "persona";
  reports_to = m;
  requested_by = 1;
  via_hr = true;
  bootstrap = boot;
  first_name = "A";
  last_name = "B";
  role_title = none;
  role_description = none;
}

abbrev hires : List Op
hires =
    hiring 0 1 (job ceo none true)
    ∷ hiring 1 2 (job hr (some 1) true)
    ∷ hiring 2 3 (job member (some 1) false)
    ∷ hiring 3 4 (job member (some 3) false)
    ∷ []

abbrev team : Org
team = run hires nobody

abbrev why : List ℕ
why = codes "  missed  every deadline "

-- Four rows came of the four hires, one of them below another member.
team_rows : map agent_id team.agents ≡ 1 ∷ 2 ∷ 3 ∷ 4 ∷ []
unfolding add_agent refuse_hire refuse_manager active_count direct_report_count direct_report_limit
team_rows = refl

why-clean : clean why ≡ codes "missed every deadline"
unfolding clean split_from join emit_word is_space
why-clean = refl

-- HR manages nobody but HR.
under_hr : (add_agent 4 5 (job member (some 2) false) team).0 ≡ err (hr_can_only_manage_hr 2)
unfolding add_agent refuse_hire refuse_manager active_count direct_report_count direct_report_limit
under_hr = refl

-- A member cannot come to report to its own report.
no_cycle : (reassign 10 1 3 4 why team).0 ≡ err cycle_detected
unfolding add_agent refuse_hire refuse_manager active_count direct_report_count direct_report_limit
    reassign find_pair move refuse_actor refuse_edge meets manager clean split_from join emit_word
    is_space
no_cycle = refl

fires_3 : (fire 10 9 1 3 why true team).0 ≡ ok direct_fired
unfolding add_agent refuse_hire refuse_manager active_count direct_report_count direct_report_limit
    fire refuse_fire get_active depth depth_from manager do_fire has_other_active_hr
    validate_fire_reason clean split_from join emit_word is_space lower same_text contains
    starts_with
fires_3 = refl

fire_lem_example :
    (true ≡ true)
    × Above team.agents 1 3
    × (validate_fire_reason why ≡ none)
    × ((a : Agent) × (b : Agent) × (get_active 1 team.agents ≡ some a)
        × (get_active 3 team.agents ≡ some b)
        × (is_ceo b.role ≡ false)
        × ((is_hr b.role && not (has_other_active_hr b.id team.agents)) ≡ false))
    × (get_active 3 (fire 10 9 1 3 why true team).1.agents ≡ none)
    × (direct_report_count 3 (fire 10 9 1 3 why true team).1.agents ≡ 0)
fire_lem_example = fire_lem 10 9 1 3 why true team fires_3

abbrev shuffle : List Op
shuffle = moving 10 1 4 1 why ∷ firing 10 9 1 3 why true ∷ []

team-IsOrderly : IsOrderly team.agents
team-IsOrderly = run-IsOrderly hires nobody nobody-IsOrderly

run-IsOrderly_example : IsOrderly (run shuffle team).agents
run-IsOrderly_example = run-IsOrderly shuffle team team-IsOrderly

boss_3 : manager team.agents 3 ≡ some 1
unfolding manager add_agent refuse_hire refuse_manager active_count direct_report_count
    direct_report_limit
boss_3 = refl

boss_1 : manager team.agents 1 ≡ none
unfolding manager add_agent refuse_hire refuse_manager active_count direct_report_count
    direct_report_limit
boss_1 = refl

abbrev chain_3 : Grounded team.agents 3
chain_3 = under 3 1 boss_3 (root 1 boss_1)

chain_3_short : height chain_3 + 1 < 3
unfolding height
chain_3_short = ground arith

meets-total_example : is_none (meets 3 4 (some 3) team.agents) ≡ false
meets-total_example = meets-total team.agents 4 3 3 chain_3 chain_3_short

one_security : has_role security active team.agents ≡ false
unfolding has_role add_agent refuse_hire refuse_manager active_count direct_report_count
    direct_report_limit
one_security = refl

-- The chain above agent 4, and everyone below the CEO, the last hired first.
chart_of_4 :
    (chain_up 9 4 team.agents ≡ ok (3 ∷ 1 ∷ []))
    × (all_descendants 9 1 team.agents ≡ ok (3 ∷ 4 ∷ 2 ∷ []))
unfolding chain_up all_descendants direct_reports add_agent refuse_hire refuse_manager active_count
    direct_report_count direct_report_limit
chart_of_4 = (refl, refl)

depth_from-total_example : is_lost (depth_from 3 1 2 (some 3) team.agents) ≡ false
depth_from-total_example = depth_from-total team.agents 2 3 1 3 chain_3 chain_3_short
