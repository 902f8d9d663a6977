-- ===== src/Tools/Invoke.antt =====
-- `Tools.invoke` and `_handle_approval` of modules/tools/service.py: the stages before the execution,
-- from the last to the first. `shown` writes an identifier as text.
use agent_company_factory.Approvals.Model.{
  ApprovalKind, expense, external_action, ApprovalStatus, pending, approved, board, Policy,
}
use agent_company_factory.Approvals.Service.{Request, request}
use agent_company_factory.Cost.Model.{over_budget}
use agent_company_factory.Cost.Spending.{reserve}
use agent_company_factory.Identity.Model.{Agent, agent_id, is_active}
use agent_company_factory.Prelude.{
  if◌then◌else◌, or_else, ℕ, String, Bool, true, false, not, Option, none, some,
}
use agent_company_factory.Prelude.Action.{Result, ok, err, ◌>>=◌}
use agent_company_factory.Prelude.Keyed.{lookup}
use agent_company_factory.Tools.Model.{
  ApprovalRequirement, no_approval, external_approval, ToolError, agent_not_active, approval_denied,
  role_not_allowed, args_validation_error, tool_over_budget, ToolContext, ToolDef, ToolResult,
  missing_agent, estimate_error, cost_error, approval_error, Tools, is_role_allowed,
}
use agent_company_factory.Tools.Pipeline.{
  Invoke, Draws, ToolCall, denied_event, fail, emit_only, release_then, execute,
}
use agent_company_factory.Tools.Registry.{get_tool}

pub data Answer : Type 0 where
  answer_approved answer_pending answer_denied : Answer

abbrev pub answer_of : ApprovalStatus → Answer
answer_of approved = answer_approved
answer_of pending = answer_pending
answer_of _ = answer_denied

-- `_APPROVAL_KIND_FOR`
abbrev pub kind_for : ApprovalRequirement → ApprovalKind
kind_for external_approval = external_action
kind_for _ = expense

abbrev pub needs_approval : ApprovalRequirement → Bool
needs_approval no_approval = false
needs_approval _ = true

-- The request of `_handle_approval`; `payload` is the text of the tool and its arguments.
abbrev pub request_of : ApprovalRequirement → ToolCall → String → Request
request_of need c payload = record {
  kind = kind_for need;
  requester_id = c.agent_id;
  payload = payload;
  route = record { target = board; agent_id = none; require_security = false };
  request_id = some c.cid;
  timeout_seconds = none;
}

-- What the stages share: the policy of the queue, the texts of an identifier and of a payload, and
-- what the call draws.
pub record Surroundings : Type 0 where
  pub policy : Policy
  pub shown : ℕ → String
  pub payload_of : ToolCall → String
  pub draws : Draws

abbrev pub estimate_of : {W : Type 0} → ToolDef W → String → Result ToolError ℕ
estimate_of t parsed = elim t.cost_estimator [ none ↦ ok 0 | some f ↦ f parsed ]

abbrev pub refusal_of : {W : Type 0} → ToolDef W → ToolContext → String → W → Option ToolError
refusal_of t ctx parsed w = elim t.permission_check [ none ↦ none | some f ↦ f ctx parsed w ]

abbrev pub context_of : ToolCall → Agent → ToolContext
context_of c person = record { agent_id = c.agent_id; role = person.role; correlation_id = c.cid }

module _ {W : Type 0} (env : Surroundings) (c : ToolCall) (t : ToolDef W) where
  -- `Tools._handle_approval`
  unfoldable pub handle_approval : Invoke W Answer
  unfolding request
  handle_approval s =
      let (r, q) =
        request env.policy env.draws.now env.draws.fresh_call
          (request_of t.requires_approval c (env.payload_of c)) s.approvals in
      let s' : Tools W = record s { approvals = q } in
      elim r [ err e ↦ (err (approval_error e), s') | ok a ↦ (ok (answer_of a.status), s') ]

  -- What follows the answer.
  unfoldable pub act_on : ToolContext → String → ℕ → ℕ → Answer → Invoke W ToolResult
  unfolding execute release_then emit_only fail
  act_on ctx parsed rid estimate answer_approved = execute env.draws c t ctx parsed rid estimate
  act_on ctx parsed rid estimate answer_pending = release_then rid (emit_only c)
  act_on ctx parsed rid estimate answer_denied =
      release_then rid (fail (denied_event c) c (approval_denied c.cid))

  -- The approval, where the tool wants one, and the execution.
  unfoldable pub approve_and_execute : ToolContext → String → ℕ → ℕ → Invoke W ToolResult
  unfolding handle_approval act_on
  approve_and_execute ctx parsed rid estimate =
      if needs_approval t.requires_approval
      then handle_approval >>= act_on ctx parsed rid estimate
      else execute env.draws c t ctx parsed rid estimate

  -- The reservation at the estimate; a refusal is the tool's failure, and any other error is raised.
  unfoldable pub hold_and_execute : ToolContext → String → ℕ → Invoke W ToolResult
  unfolding approve_and_execute fail
  hold_and_execute ctx parsed estimate s =
      let (r, b) =
        reserve env.draws.now env.draws.fresh_reservation estimate (env.shown c.cid) s.budget in
      elim r [
        | err over_budget ↦ fail (denied_event c) c tool_over_budget s
        | err e ↦ (err (cost_error e), s)
        | ok row ↦ approve_and_execute ctx parsed row.id estimate (record s { budget = b })
      ]

  -- The estimate; what the estimator raises is not caught.
  unfoldable pub reserve_and_execute : ToolContext → String → Invoke W ToolResult
  unfolding hold_and_execute
  reserve_and_execute ctx parsed s = elim (estimate_of t parsed) [
    | err e ↦ (err (estimate_error e), s)
    | ok estimate ↦ hold_and_execute ctx parsed estimate s
  ]

  -- The check of the arguments, and the tool's own permission check.
  unfoldable pub check_and_execute : Agent → Invoke W ToolResult
  unfolding reserve_and_execute fail
  check_and_execute person s = elim (t.schema c.args) [
    | err text ↦ fail (denied_event c) c (args_validation_error text) s
    | ok parsed ↦
        let ctx = context_of c person in
        elim (refusal_of t ctx parsed s.world) [
          | some e ↦ fail (denied_event c) c e s
          | none ↦ reserve_and_execute ctx parsed s
        ]
  ]

  -- The gate for the agent and its role.
  unfoldable pub gate_and_execute : Invoke W ToolResult
  unfolding check_and_execute fail is_role_allowed
  gate_and_execute s = elim (lookup agent_id c.agent_id s.identity) [
    | none ↦ (err missing_agent, s)
    | some person ↦
        if not (is_active person)
        then fail (denied_event c) c (agent_not_active c.agent_id) s
        else if not (is_role_allowed person.role t)
        then fail (denied_event c) c (role_not_allowed person.role c.tool) s
        else check_and_execute person s
  ]

module _ {W : Type 0} where
  -- `Tools.invoke` past the cache.
  unfoldable pub invoke_new : Surroundings → ToolCall → Invoke W ToolResult
  unfolding get_tool gate_and_execute fail
  invoke_new env c s = elim (get_tool c.tool s) [
    | err e ↦ fail (denied_event c) c e s
    | ok t ↦ gate_and_execute env c t s
  ]

  -- `Tools.invoke`
  unfoldable pub invoke : Surroundings → ℕ → ℕ → String → Option ℕ → Invoke W ToolResult
  unfolding invoke_new
  invoke env who name args correlation s =
      let cid = or_else correlation env.draws.fresh_call in
      elim (s.completed cid) [
        | some r ↦ (ok r, s)
        | none ↦ invoke_new env (record { agent_id = who; tool = name; args = args; cid = cid }) s
      ]
