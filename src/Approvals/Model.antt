-- ===== src/Approvals/Model.antt =====
-- modules/approvals/models.py and routing.py: kinds, statuses, routes and the default policy.
-- Identifiers (uuid4 text) are only stored and compared, so they are numbers; a time is the number
-- of microseconds since some origin, in UTC. The JSON text of a payload is a `String`.
use agent_company_factory.Prelude.{
  ℕ, ◌*◌, String, Bool, true, false, ◌&&◌, Option, none, some, is_none, not, if◌then◌else◌,
}
use agent_company_factory.Prelude.Action.{Result, ok, err}

pub data ApprovalKind : Type 0 where
  hire fire_depth_1 expense external_action inter_company_link security_flag : ApprovalKind
  budget_increase role_change : ApprovalKind

pub data ApprovalStatus : Type 0 where
  pending approved denied timeout cancelled : ApprovalStatus

pub data Decision : Type 0 where
  approve deny : Decision

pub data RouteTarget : Type 0 where
  board agent security : RouteTarget

-- exceptions.py, and the `ValueError` of `ApprovalRoute.__post_init__`.
pub data ApprovalError : Type 0 where
  not_found invalid_transition conflict value_error : ApprovalError

pub record ApprovalRoute : Type 0 where
  pub target : RouteTarget
  pub agent_id : Option ℕ
  pub require_security : Bool

abbrev pub is_agent : RouteTarget → Bool
is_agent agent = true
is_agent _ = false

abbrev pub is_security : RouteTarget → Bool
is_security security = true
is_security _ = false

-- `ApprovalRoute.__post_init__`: the checks that every route passes when it is built.
unfoldable pub make_route : ApprovalRoute → Result ApprovalError ApprovalRoute
make_route r =
    if is_agent r.target && is_none r.agent_id
    then err value_error
    else if not (is_agent r.target) && not (is_none r.agent_id)
    then err value_error
    else if is_security r.target && r.require_security
    then err value_error
    else ok r

-- The text of the column `route_target`: `board`, `security` or `agent:<id>`.
pub data RouteColumn : Type 0 where
  target_only : RouteTarget → RouteColumn
  agent_colon : Option ℕ → RouteColumn

-- `ApprovalRoute.encode_target`
unfoldable pub encode_target : ApprovalRoute → RouteColumn
encode_target r = if is_agent r.target then agent_colon r.agent_id else target_only r.target

-- `ApprovalRoute.decode`
unfoldable pub decode : RouteColumn → Bool → Result ApprovalError ApprovalRoute
unfolding make_route
decode (agent_colon i) sec =
    make_route (record { target = agent; agent_id = i; require_security = sec })
decode (target_only t) sec =
    make_route (record { target = t; agent_id = none; require_security = sec })

pub record Approval : Type 0 where
  pub request_id : ℕ
  pub kind : ApprovalKind
  pub requester_id : ℕ
  pub payload : String
  pub route : ApprovalRoute
  pub status : ApprovalStatus
  pub decided_by : Option ℕ
  pub decided_at : Option ℕ
  pub note : Option String
  pub expires_at : ℕ
  pub created_at : ℕ
  pub security_decision : Option Decision
  pub security_decided_at : Option ℕ

-- A row of the table `approvals`.
pub record Row : Type 0 where
  pub request_id : ℕ
  pub kind : ApprovalKind
  pub requester_id : ℕ
  pub payload_json : String
  pub route_target : RouteColumn
  pub require_security : Bool
  pub security_decision : Option Decision
  pub security_decided_at : Option ℕ
  pub status : ApprovalStatus
  pub decided_by : Option ℕ
  pub decided_at : Option ℕ
  pub note : Option String
  pub expires_at : ℕ
  pub created_at : ℕ

abbrev pub seconds : ℕ → ℕ
seconds n = n * 1000000

-- `DEFAULT_TIMEOUTS`
unfoldable pub default_timeouts : ApprovalKind → Option ℕ
default_timeouts expense = some (seconds 86400)
default_timeouts external_action = some (seconds 86400)
default_timeouts inter_company_link = some (seconds 2592000)
default_timeouts security_flag = some (seconds 300)
default_timeouts _ = some (seconds 604800)

-- `AUTO_DENY_ON_TIMEOUT`
unfoldable pub auto_deny_on_timeout : ApprovalKind → Bool
auto_deny_on_timeout security_flag = true
auto_deny_on_timeout _ = false

-- `DEFAULT_REQUIRE_SECURITY`
unfoldable pub default_require_security : ApprovalKind → Bool
default_require_security expense = true
default_require_security external_action = true
default_require_security _ = false

-- What `Approvals.__init__` is given: dictionaries and sets as functions.
pub record Policy : Type 0 where
  pub timeouts : ApprovalKind → Option ℕ
  pub require_security_kinds : ApprovalKind → Bool
  pub auto_deny_kinds : ApprovalKind → Bool

unfoldable pub default_policy : Policy
unfolding default_timeouts default_require_security auto_deny_on_timeout
default_policy = record {
  timeouts = default_timeouts;
  require_security_kinds = default_require_security;
  auto_deny_kinds = auto_deny_on_timeout;
}
