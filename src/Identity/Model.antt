-- ===== src/Identity/Model.antt =====
-- modules/identity/models.py, the tables of modules/identity/migrations, and the queries of
-- modules/identity/org.py. Identifiers are numbers; a text whose letters matter is the list of its
-- code points.
use agent_company_factory.Prelude.{
  ◌==◌, if◌then◌else◌, is_id, find, select, exists, count, order_by, ℕ, zero, suc, ◌+◌, String,
  Bool, true, false, not, ◌&&◌, Option, none, some, List, map,
}
use agent_company_factory.Prelude.Keyed.{lookup}
use agent_company_factory.Prelude.Action.{ok, err, Action}

pub data Role : Type 0 where
  ceo hr security member : Role

pub data Status : Type 0 where
  active fired : Status

-- The exceptions of modules/identity/exceptions.py by their messages, a missing key, the foreign
-- and primary keys of the table, and a loop that has not ended within its fuel.
pub data OrgError : Type 0 where
  must_route_via_hr manager_required headcount_exceeded self_report : OrgError
  manager_not_found manager_not_active hr_can_only_manage_hr report_limit_exceeded : ℕ → OrgError
  reason_too_short target_not_found target_not_active actor_not_active : OrgError
  cannot_reassign_special_role only_manager_or_ceo cycle_detected no_hr_replacement : OrgError
  key_error integrity diverges : OrgError

pub record Agent : Type 0 where
  pub id : ℕ
  pub role : Role
  pub persona_ref : String
  pub reports_to : Option ℕ
  pub status : Status
  pub hired_at : ℕ
  pub first_name : String
  pub last_name : String
  pub role_title : Option String
  pub role_description : Option String
  pub fired_at : Option ℕ
  pub fired_by : Option ℕ
  pub fire_reason : Option (List ℕ)

-- A row of the table `fire_pending`.
pub record PendingFire : Type 0 where
  pub request_id : ℕ
  pub actor_id : ℕ
  pub target_id : ℕ
  pub reason : List ℕ
  pub decider_id : ℕ
  pub created_at : ℕ

-- First name, last name and title of a role.
abbrev pub Names : Type 0
Names = String × String × Option String

pub data Event : Type 0 where
  agent_created : (agent : ℕ) → Role → Option ℕ → Names → (actor : ℕ) → Event
  agent_hired : (agent : ℕ) → Role → Option ℕ → Names → (actor : ℕ) → Event
  agent_reassigned : (agent : ℕ) → Option ℕ → (manager actor : ℕ) → List ℕ → Event
  agent_fired : (agent actor : ℕ) → List ℕ → Event
  agent_fire_notify : (manager agent actor : ℕ) → List ℕ → Event
  agent_orphaned : (agent former actor : ℕ) → Event

-- The two tables, the calls of `ApprovalRequester.request_fire`, and the event log.
pub record Org : Type 0 where
  pub agents : List Agent
  pub fire_pending : List PendingFire
  pub requested : List PendingFire
  pub events : List Event

abbrev pub Call : Type 0 → Type 0
Call A = Action Org OrgError A

abbrev pub agent_id : Agent → ℕ
agent_id a = a.id

abbrev pub max_active_agents : ℕ
max_active_agents = 100

abbrev pub is_ceo : Role → Bool
is_ceo ceo = true
is_ceo _ = false

abbrev pub is_hr : Role → Bool
is_hr hr = true
is_hr _ = false

-- `SPECIAL_ROLES`
abbrev pub is_special_role : Role → Bool
is_special_role member = false
is_special_role _ = true

abbrev pub is_active : Agent → Bool
is_active a = elim a.status [ active ↦ true | fired ↦ false ]

-- `_direct_report_limit`
unfoldable pub direct_report_limit : Role → ℕ
direct_report_limit r = if is_ceo r then 5 else 4

-- `reports_to = ? AND status = 'active'`
abbrev pub reports : ℕ → Agent → Bool
reports m a = is_id a.reports_to m && is_active a

-- `Org.get`
unfoldable pub get : ℕ → Call Agent
get k s = elim (lookup agent_id k s.agents) [ none ↦ (err key_error, s) | some a ↦ (ok a, s) ]

-- `Org.active_count`
unfoldable pub active_count : List Agent → ℕ
active_count = count is_active

abbrev pub same_role : Role → Role → Bool
same_role ceo ceo = true
same_role hr hr = true
same_role security security = true
same_role member member = true
same_role _ _ = false

abbrev pub same_status : Status → Status → Bool
same_status active active = true
same_status fired fired = true
same_status _ _ = false

-- `Org.has_role`
unfoldable pub has_role : Role → Status → List Agent → Bool
has_role r status = exists (λ a. same_role a.role r && same_status a.status status)

-- `Org.all`; without a status, every row.
unfoldable pub all : Option Status → List Agent → List Agent
all none t = order_by (λ a. a.hired_at) t
all (some status) t = order_by (λ a. a.hired_at) (select (λ a. same_status a.status status) t)

-- `Org.is_special`
unfoldable pub is_special : ℕ → Call Bool
is_special k s = elim (lookup agent_id k s.agents) [
  | none ↦ (err key_error, s)
  | some a ↦ (ok (is_special_role a.role), s)
]

-- `Org.direct_report_count`
unfoldable pub direct_report_count : ℕ → List Agent → ℕ
direct_report_count m = count (reports m)

-- `Org.direct_reports`
unfoldable pub direct_reports : ℕ → List Agent → List ℕ
direct_reports m t = map agent_id (order_by (λ a. a.hired_at) (select (reports m) t))

-- The column `reports_to` of a row; a row that is missing has none.
unfoldable pub manager : List Agent → ℕ → Option ℕ
manager t k = elim (lookup agent_id k t) [ none ↦ none | some a ↦ a.reports_to ]

-- `Org.manager_of`
unfoldable pub manager_of : ℕ → Call (Option ℕ)
manager_of k s = elim (lookup agent_id k s.agents) [
  | none ↦ (err key_error, s)
  | some a ↦ (ok (a.reports_to), s)
]

-- `Org._get_active`
unfoldable pub get_active : ℕ → List Agent → Option Agent
get_active k t = find (λ a. agent_id a == k && is_active a) t

-- `Org._has_other_active_hr`
unfoldable pub has_other_active_hr : ℕ → List Agent → Bool
has_other_active_hr k = exists (λ a. is_hr a.role && is_active a && not (a.id == k))

-- `Org.can_read_workspace`
unfoldable pub can_read_workspace : ℕ → ℕ → List Agent → Bool
unfolding manager
can_read_workspace reader owner t = if reader == owner then true else is_id (manager t owner) reader

-- Where the walk up the chart from an agent to an ancestor ends.
pub data Walk : Type 0 where
  found : ℕ → Walk
  top : Walk
  out_of_fuel : Walk

-- The loop of `depth`: `d` levels have been passed.
unfoldable pub depth_from : ℕ → ℕ → ℕ → Option ℕ → List Agent → Walk
depth_from zero d a cur t = out_of_fuel
depth_from (suc f) d a none t = top
depth_from (suc f) d a (some c) t =
    let higher = depth_from f (d + 1) a (manager t c) t in if c == a then found (d + 1) else higher

-- `Org.depth`
unfoldable pub depth : ℕ → ℕ → ℕ → List Agent → Walk
depth fuel ancestor descendant t =
    if ancestor == descendant then found 0 else depth_from fuel 0 ancestor (manager t descendant) t
