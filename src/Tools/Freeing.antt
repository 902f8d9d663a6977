-- ===== src/Tools/Freeing.antt =====
-- The stages of the execution free the reservation of a call and spend the cost that they report.
use mathlib.Core.Path.{subst}
use agent_company_factory.Cost.Bounds.{release_lem, commit_lem}
use agent_company_factory.Cost.Budget.{sum_expenses, sum_open_reservations}
use agent_company_factory.Cost.Model.{
  Reservation, Budget, is_reserved, reservation_id, expense_id_of,
}
use agent_company_factory.Prelude.{ℕ, ◌+◌, String, ◌≡◌, sym, true, none, some, [], ◌∷◌, ◌++◌, arith}
use agent_company_factory.Prelude.Action.{Result, ok, err, is_ok}
use agent_company_factory.Prelude.Keyed.{lookup, IsKeyed}
use agent_company_factory.Tools.Model.{
  ToolError, executor_failure, wrong_output, ToolContext, Outcome, returned, returned_other,
  refused_by_tool, crashed, Services, ToolDef, ToolResult, ToolEvent, tool_called, InvokeError,
  Tools, services_of, with_services,
}
use agent_company_factory.Tools.Pipeline.{
  Draws, ToolCall, failed_event, fail, emit_only, release_then, settle_call, run_executor, conclude,
  execute,
}

-- The cost that a result reports.
abbrev pub cost_of : Result InvokeError ToolResult → ℕ
cost_of (ok r) = r.cost
cost_of (err _) = 0

-- An open reservation under `rid`, and an identifier that is new to the expenses.
pub record IsHeld (fresh rid amount : ℕ) (b : Budget) : Type 0 where
  pub row : Reservation
  pub keyed : IsKeyed reservation_id b.reservations
  pub there : lookup reservation_id rid b.reservations ≡ some row
  pub still : is_reserved row ≡ true
  pub amounts : row.amount_units ≡ amount
  pub new : lookup expense_id_of fresh b.expenses ≡ none

-- A stage returns, frees the reserved amount and spends the cost that it reports.
pub record IsFreed {W : Type 0} (amount : ℕ) (b : Budget)
    (out : Result InvokeError ToolResult × Tools W) : Type 0 where
  pub returns : is_ok out.0 ≡ true
  pub freed : sum_open_reservations out.1.budget + amount ≡ sum_open_reservations b
  pub spent : sum_expenses out.1.budget ≡ sum_expenses b + cost_of out.0

module _ {W : Type 0} where
  pub IsFreed-release_fail :
      (fresh rid amount : ℕ) (event : ToolError → ToolEvent) (c : ToolCall) (e : ToolError)
      (s : Tools W)
      → IsHeld fresh rid amount s.budget
      → IsFreed amount s.budget (release_then rid (fail event c e) s)
  unfolding release_then fail
  IsFreed-release_fail fresh rid amount event c e s h =
      let (a, f, g, k) = release_lem rid h.row s.budget h.keyed h.there h.still in
      record {
        returns = ground (arith, a);
        freed = ground (arith, a, f, h.amounts);
        spent = ground (arith, a, g);
      }

  pub IsFreed-release_emit :
      (fresh rid amount : ℕ) (c : ToolCall) (s : Tools W)
      → IsHeld fresh rid amount s.budget
      → IsFreed amount s.budget (release_then rid (emit_only c) s)
  unfolding release_then emit_only
  IsFreed-release_emit fresh rid amount c s h =
      let (a, f, g, k) = release_lem rid h.row s.budget h.keyed h.there h.still in
      record {
        returns = ground (arith, a);
        freed = ground (arith, a, f, h.amounts);
        spent = ground (arith, a, g);
      }

  IsFreed-settle_call :
      (d : Draws) (c : ToolCall) (rid amount : ℕ) (output : String) (s : Tools W)
      → IsHeld d.fresh_expense rid amount s.budget
      → IsFreed amount s.budget (settle_call d c rid amount output s)
  unfolding settle_call fail
  IsFreed-settle_call d c rid amount output s h =
      let (a, f, g, k, l) =
        commit_lem d.now d.fresh_expense rid amount h.row s.budget h.keyed h.there h.still h.new in
      record {
        returns = ground (arith, a);
        freed = ground (arith, a, f, h.amounts);
        spent = ground (arith, a, g);
      }

  IsFreed-conclude :
      (d : Draws) (c : ToolCall) (rid amount : ℕ) (o : Outcome) (s : Tools W)
      → IsHeld d.fresh_expense rid amount s.budget
      → IsFreed amount s.budget (conclude d c rid amount o s)
  unfolding conclude
  IsFreed-conclude d c rid amount (returned output) s h =
      IsFreed-settle_call d c rid amount output s h
  IsFreed-conclude d c rid amount (returned_other name) s h =
      IsFreed-release_fail d.fresh_expense rid amount (failed_event c) c (wrong_output name) s h
  IsFreed-conclude d c rid amount (refused_by_tool e) s h =
      IsFreed-release_fail d.fresh_expense rid amount (failed_event c) c e s h
  IsFreed-conclude d c rid amount (crashed text) s h =
      IsFreed-release_fail d.fresh_expense rid amount (failed_event c) c (executor_failure text) s h

  -- The executor of the tool leaves the budget as it is.
  abbrev pub LeavesBudget : ToolDef W → Type 0
  LeavesBudget t =
      (ctx : ToolContext) (parsed : String) (v : Services W)
      → (run_executor t ctx parsed v).1.budget ≡ v.budget

  pub IsFreed-execute :
      (d : Draws) (c : ToolCall) (t : ToolDef W) (ctx : ToolContext) (parsed : String)
      (rid amount : ℕ) (s : Tools W)
      → LeavesBudget t
      → IsHeld d.fresh_expense rid amount s.budget
      → IsFreed amount s.budget (execute d c t ctx parsed rid amount s)
  unfolding execute
  IsFreed-execute d c t ctx parsed rid amount s keeps h =
      let (o, v) = run_executor t ctx parsed (services_of s) in
      let s' : Tools W =
        with_services v
          (record s { events = s.events ++ tool_called c.tool c.args c.cid c.agent_id ∷ [] }) in
      let same : s'.budget ≡ s.budget = keeps ctx parsed (services_of s) in
      subst (λ b. IsFreed amount b (conclude d c rid amount o s')) same
        (IsFreed-conclude d c rid amount o s'
          (subst (IsHeld d.fresh_expense rid amount) (sym same) h))
