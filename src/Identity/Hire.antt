-- ===== src/Identity/Hire.antt =====
-- `Org.add_agent` and `Org.update_role_details` of modules/identity/org.py.
use agent_company_factory.Prelude.{
  leb, ◌==◌, if◌then◌else◌, is_none, ℕ, String, Bool, not, ◌&&◌, Option, none, some, List, [], ◌∷◌,
  ◌++◌,
}
use agent_company_factory.Prelude.Keyed.{lookup, set}
use agent_company_factory.Prelude.Action.{ok, err}
use agent_company_factory.Identity.Model.{
  Role, active, OrgError, must_route_via_hr, manager_required, headcount_exceeded, self_report,
  manager_not_found, manager_not_active, hr_can_only_manage_hr, report_limit_exceeded, key_error,
  integrity, Agent, Event, agent_created, agent_hired, Call, agent_id, max_active_agents, is_hr,
  is_active, direct_report_limit, get, active_count, direct_report_count, get_active,
}

pub record Hire : Type 0 where
  pub role : Role
  pub persona_ref : String
  pub reports_to : Option ℕ
  pub requested_by : ℕ
  pub via_hr : Bool
  pub bootstrap : Bool
  pub first_name : String
  pub last_name : String
  pub role_title : Option String
  pub role_description : Option String

abbrev pub new_agent : ℕ → ℕ → Hire → Agent
new_agent now fresh h = record {
  id = fresh;
  role = h.role;
  persona_ref = h.persona_ref;
  reports_to = h.reports_to;
  status = active;
  hired_at = now;
  first_name = h.first_name;
  last_name = h.last_name;
  role_title = h.role_title;
  role_description = h.role_description;
  fired_at = none;
  fired_by = none;
  fire_reason = none;
}

-- The checks on the manager whose row is given; `none` lets the hire pass.
unfoldable pub refuse_manager : ℕ → ℕ → Hire → List Agent → Option Agent → Option OrgError
refuse_manager fresh m h t none = some (manager_not_found m)
refuse_manager fresh m h t (some a) =
    if not (is_active a)
    then some (manager_not_active m)
    else if a.id == fresh
    then some self_report
    else if not h.bootstrap && is_hr a.role && not (is_hr h.role)
    then some (hr_can_only_manage_hr m)
    else if leb (direct_report_limit a.role) (direct_report_count m t)
    then some (report_limit_exceeded m)
    else none

-- The checks of `add_agent`, in order.
unfoldable pub refuse_hire : ℕ → Hire → List Agent → Option OrgError
refuse_hire fresh h t =
    if not h.bootstrap && not h.via_hr
    then some must_route_via_hr
    else if not h.bootstrap && is_none h.reports_to
    then some manager_required
    else if leb max_active_agents (active_count t)
    then some headcount_exceeded
    else elim h.reports_to [
      | none ↦ none
      | some m ↦ refuse_manager fresh m h t (lookup agent_id m t)
    ]

abbrev pub hire_event : ℕ → Hire → Event
hire_event fresh h =
    if h.bootstrap
    then agent_created fresh h.role h.reports_to (h.first_name, h.last_name, h.role_title)
        h.requested_by
    else agent_hired fresh h.role h.reports_to (h.first_name, h.last_name, h.role_title)
        h.requested_by

-- `Org.add_agent`
unfoldable pub add_agent : ℕ → ℕ → Hire → Call Agent
add_agent now fresh h s = elim (refuse_hire fresh h s.agents) [
  | some e ↦ (err e, s)
  | none ↦ if not (is_none (lookup agent_id fresh s.agents)) then (err integrity, s) else (
    ok (new_agent now fresh h),
    record s {
      agents = s.agents ++ new_agent now fresh h ∷ [];
      events = s.events ++ hire_event fresh h ∷ [];
    },
  )
]

abbrev pub with_details : String → String → Agent → Agent
with_details title description a = record a {
  role_title = some title;
  role_description = some description;
}

-- `Org.update_role_details`
unfoldable pub update_role_details : ℕ → String → String → Call Agent
unfolding get_active
update_role_details target title description s = elim (get_active target s.agents) [
  | none ↦ (err key_error, s)
  | some _ ↦
      let t = set agent_id target (with_details title description) s.agents in
      get target (record s { agents = t })
]
