-- ===== src/Tools/Pipeline.antt =====
-- The pipeline of `Tools.invoke` (modules/tools/service.py), its stages from the last to the first.
use agent_company_factory.Cost.Spending.{charge, release, commit}
use agent_company_factory.Orchestrator.Model.{at}
use agent_company_factory.Prelude.{
  if◌then◌else◌, ℕ, String, true, false, not, none, some, [], ◌∷◌, ◌++◌,
}
use agent_company_factory.Prelude.Action.{ok, err, Action}
use agent_company_factory.Tools.Model.{
  ToolError, pending_approval, commit_failed, executor_failure, wrong_output, ToolContext, Outcome,
  returned, returned_other, refused_by_tool, crashed, Services, ToolDef, ToolResult, ToolEvent,
  tool_called, tool_denied, tool_failed, tool_done, InvokeError, cost_error, Tools, services_of,
  with_services,
}

abbrev pub Invoke : Type 0 → Type 0 → Type 0
Invoke W A = Action (Tools W) InvokeError A

-- What one call draws from outside: the clock, and the identifiers of the call, of its reservation
-- and of its expense.
pub record Draws : Type 0 where
  pub now : ℕ
  pub fresh_call : ℕ
  pub fresh_reservation : ℕ
  pub fresh_expense : ℕ

-- A call as the stages see it: who calls, the tool's name, the arguments, the identifier.
pub record ToolCall : Type 0 where
  pub agent_id : ℕ
  pub tool : ℕ
  pub args : String
  pub cid : ℕ

abbrev pub failure : ToolError → ToolResult
failure e = record {
  success = false;
  output = none;
  error = some e;
  cost = 0;
  approval_request_id = none;
}

abbrev pub denied_event : ToolCall → ToolError → ToolEvent
denied_event c e = tool_denied c.tool c.cid e c.agent_id

abbrev pub failed_event : ToolCall → ToolError → ToolEvent
failed_event c e = tool_failed c.tool c.cid e c.agent_id

abbrev pub done : ℕ → String → ToolResult
done actual output = record {
  success = true;
  output = some output;
  error = none;
  cost = actual;
  approval_request_id = none;
}

module _ {W : Type 0} where
  -- `Tools._fail`; the event says a denial, or a result that is not ok.
  unfoldable pub fail : (ToolError → ToolEvent) → ToolCall → ToolError → Invoke W ToolResult
  fail event c e s = (
    ok (failure e),
    record s {
      events = s.events ++ event e ∷ [];
      completed = at c.cid (some (failure e)) s.completed;
    },
  )

  -- `Tools._emit_only`, for an approval that is pending.
  unfoldable pub emit_only : ToolCall → Invoke W ToolResult
  emit_only c s = (
    ok (record (failure (pending_approval c.cid)) { approval_request_id = some c.cid }),
    record s {
      events = s.events ++ tool_denied c.tool c.cid (pending_approval c.cid) c.agent_id ∷ [];
    },
  )

  -- `self._cost.release(reservation.id)`, and what follows it.
  unfoldable pub release_then : ℕ → Invoke W ToolResult → Invoke W ToolResult
  release_then rid next s =
      let (r, b) = release rid s.budget in
      elim r [ err e ↦ (err (cost_error e), s) | ok _ ↦ next (record s { budget = b }) ]

  -- The commit at the estimated cost.
  unfoldable pub settle_call : Draws → ToolCall → ℕ → ℕ → String → Invoke W ToolResult
  unfolding fail
  settle_call d c rid actual output s =
      let (r, b) = commit d.now d.fresh_expense rid actual s.budget in
      elim r [
        | err e ↦ (err (cost_error e), s)
        | ok charge ↦
            if not charge.success
            then fail (failed_event c) c (commit_failed c.cid) (record s { budget = b })
            else (
              ok (done actual output),
              record s {
                budget = b;
                events = s.events ++ tool_done c.tool c.cid output c.agent_id ∷ [];
                completed = at c.cid (some (done actual output)) s.completed;
              },
            )
      ]

  -- A tool without an executor fails the assertion.
  abbrev pub run_executor : ToolDef W → ToolContext → String → Services W → Outcome × Services W
  run_executor t ctx parsed v = elim t.executor [ none ↦ (crashed "", v) | some f ↦ f ctx parsed v ]

  -- What follows the execution.
  unfoldable pub conclude : Draws → ToolCall → ℕ → ℕ → Outcome → Invoke W ToolResult
  unfolding release_then fail settle_call
  conclude d c rid estimate (returned output) = settle_call d c rid estimate output
  conclude d c rid estimate (returned_other name) =
      release_then rid (fail (failed_event c) c (wrong_output name))
  conclude d c rid estimate (refused_by_tool e) = release_then rid (fail (failed_event c) c e)
  conclude d c rid estimate (crashed text) =
      release_then rid (fail (failed_event c) c (executor_failure text))

  -- The announcement and the execution.
  unfoldable pub execute :
      Draws → ToolCall → ToolDef W → ToolContext → String → ℕ → ℕ → Invoke W ToolResult
  unfolding conclude
  execute d c t ctx parsed rid estimate s =
      let (outcome, v) = run_executor t ctx parsed (services_of s) in
      conclude d c rid estimate outcome (
        with_services v
          (record s { events = s.events ++ tool_called c.tool c.args c.cid c.agent_id ∷ [] }))
