-- ===== src/Tools/Model.antt =====
-- modules/tools/models.py and exceptions.py. The names of tools are numbers, arguments and outputs are
-- JSON texts. What a tool of its own does is given with its definition: `W` is the state of the services
-- that are not modelled here (workspace, memory, connector and the like).
use agent_company_factory.Prelude.{exists, ℕ, String, Bool, true, Option, List}
use agent_company_factory.Prelude.Action.{Result}
use agent_company_factory.Identity.Model.{Role, Agent, same_role}
use agent_company_factory.Cost.Model.{CostError, Budget}
use agent_company_factory.Approvals.Model.{ApprovalError}
use agent_company_factory.Approvals.Service.{Approvals}

pub data ApprovalRequirement : Type 0 where
  no_approval expense_approval external_approval : ApprovalRequirement

pub data RolesAllowed : Type 0 where
  any_role : RolesAllowed
  only_roles : List Role → RolesAllowed

-- The exceptions with what their messages are made of; `tool_error` is one of a tool's own, with its
-- code.
pub data ToolError : Type 0 where
  unknown_tool agent_not_active pending_approval approval_denied commit_failed : ℕ → ToolError
  role_not_allowed : Role → ℕ → ToolError
  args_validation_error executor_failure wrong_output : String → ToolError
  tool_over_budget : ToolError
  tool_error : (code message : String) → ToolError

pub record ToolContext : Type 0 where
  pub agent_id : ℕ
  pub role : Role
  pub correlation_id : ℕ

-- What a call of an executor ends in; an output of a wrong type comes with the name of the type.
pub data Outcome : Type 0 where
  returned returned_other : String → Outcome
  refused_by_tool : ToolError → Outcome
  crashed : String → Outcome

-- The services that an executor reaches: the table of agents, the budget, the queue of approvals, and
-- the rest.
pub record Services (W : Type 0) : Type 0 where
  pub identity : List Agent
  pub budget : Budget
  pub approvals : Approvals
  pub world : W

-- An estimator can raise.
pub record ToolDef (W : Type 0) : Type 0 where
  pub name : ℕ
  pub schema : String → Result String String
  pub roles_allowed : RolesAllowed
  pub requires_approval : ApprovalRequirement
  pub cost_estimator : Option (String → Result ToolError ℕ)
  pub permission_check : Option (ToolContext → String → W → Option ToolError)
  pub executor : Option (ToolContext → String → Services W → Outcome × Services W)

pub record ToolResult : Type 0 where
  pub success : Bool
  pub output : Option String
  pub error : Option ToolError
  pub cost : ℕ
  pub approval_request_id : Option ℕ

-- The kinds of event that the layer appends; the actor comes last.
pub data ToolEvent : Type 0 where
  tool_called : (tool : ℕ) → String → (request actor : ℕ) → ToolEvent
  tool_denied : (tool request : ℕ) → ToolError → (actor : ℕ) → ToolEvent
  tool_failed : (tool request : ℕ) → ToolError → (actor : ℕ) → ToolEvent
  tool_done : (tool request : ℕ) → String → (actor : ℕ) → ToolEvent

-- What `invoke` raises: an agent that is not in the table, and what an estimator and the collaborators
-- raise.
pub data InvokeError : Type 0 where
  missing_agent : InvokeError
  estimate_error : ToolError → InvokeError
  cost_error : CostError → InvokeError
  approval_error : ApprovalError → InvokeError

-- The state of `Tools` with its collaborators: the table of agents, the budget, the queue of
-- approvals. `completed` is the cache, `world` the state of the other services.
pub record Tools (W : Type 0) : Type 0 where
  pub defs : List (ToolDef W)
  pub identity : List Agent
  pub budget : Budget
  pub approvals : Approvals
  pub completed : ℕ → Option ToolResult
  pub world : W
  pub events : List ToolEvent

abbrev pub services_of : {W : Type 0} → Tools W → Services W
services_of s = record {
  identity = s.identity;
  budget = s.budget;
  approvals = s.approvals;
  world = s.world;
}

abbrev pub with_services : {W : Type 0} → Services W → Tools W → Tools W
with_services v s = record s {
  identity = v.identity;
  budget = v.budget;
  approvals = v.approvals;
  world = v.world;
}

-- `ToolDef.is_role_allowed`
unfoldable pub is_role_allowed : {W : Type 0} → Role → ToolDef W → Bool
is_role_allowed role t = elim t.roles_allowed [
  | any_role ↦ true
  | only_roles l ↦ exists (same_role role) l
]
