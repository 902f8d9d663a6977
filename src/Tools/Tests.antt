-- ===== src/Tools/Tests.antt =====
-- A registry with one tool, 7, which pays and wants an approval, and a budget of 1000 units. The
-- executor keeps the arguments that it has run on.
use mathlib.Core.Path.{subst}
use agent_company_factory.Approvals.Model.{
  expense, approved, approve, board, make_route, target_only, encode_target, decode, Row,
  default_timeouts, default_require_security, default_policy,
}
use agent_company_factory.Approvals.Service.{
  init, row_to_approval, needs_security, new_row, create, request,
}
use agent_company_factory.Cost.Budget.{
  units_to_cents, sum_expenses, sum_open_reservations, rise, fall, evaluate_thresholds,
}
use agent_company_factory.Cost.Model.{Budget}
use agent_company_factory.Cost.Spending.{
  settle, admit, reserve, set_reservation_status, release, commit_open, commit,
}
use agent_company_factory.Identity.Model.{ceo, member, active, Agent}
use agent_company_factory.Prelude.{
  ℕ, ◌+◌, String, ◌≡◌, refl, sym, ap, ◌⊎◌, true, false, Option, none, some, List, [], ◌∷◌,
}
use agent_company_factory.Prelude.Action.{Result, ok, err, is_ok}
use agent_company_factory.Tools.Freeing.{cost_of, LeavesBudget}
use agent_company_factory.Tools.Guards.{IsUnrun, IsCleared, invoke_guarded}
use agent_company_factory.Tools.Invoke.{
  Surroundings, handle_approval, act_on, approve_and_execute, hold_and_execute, reserve_and_execute,
  check_and_execute, gate_and_execute, invoke_new, invoke,
}
use agent_company_factory.Tools.Model.{
  expense_approval, only_roles, args_validation_error, returned, ToolDef, ToolResult, InvokeError,
  estimate_error, Tools, is_role_allowed,
}
use agent_company_factory.Tools.Pipeline.{
  done, emit_only, release_then, settle_call, conclude, execute,
}
use agent_company_factory.Tools.Registry.{get_tool}
use agent_company_factory.Tools.Repeats.{invoke_idem}
use agent_company_factory.Tools.Settling.{IsReadable, IsRaised, invoke_settles}

abbrev pay : ToolDef (List String)
pay = record {
  name = 7;
  schema = λ args. ok args;
  roles_allowed = only_roles (ceo ∷ member ∷ []);
  requires_approval = expense_approval;
  cost_estimator = some (λ args. ok 100);
  permission_check = none;
  executor = some (λ ctx args v. (returned "done", record v { world = args ∷ v.world }));
}

abbrev person_of : ℕ → Agent
person_of n = record {
  id = n;
  role = member;
  persona_ref = "p";
  reports_to = none;
  status = active;
  hired_at = 0;
  first_name = "A";
  last_name = "B";
  role_title = none;
  role_description = none;
  fired_at = none;
  fired_by = none;
  fire_reason = none;
}

abbrev funds : Budget
funds = record {
  total_units = 1000;
  blocked = false;
  last_warn_pct = 0;
  expenses = [];
  reservations = [];
  log = [];
}

abbrev desk : Tools (List String)
desk = record {
  defs = pay ∷ [];
  identity = person_of 1 ∷ person_of 2 ∷ [];
  budget = funds;
  approvals = init;
  completed = λ _. none;
  world = [];
  events = [];
}

abbrev around : ℕ → Surroundings
around n = record {
  policy = default_policy;
  shown = λ _. "id";
  payload_of = λ c. c.args;
  draws = record {
    now = n;
    fresh_call = 100 + n;
    fresh_reservation = 200 + n;
    fresh_expense = 300 + n;
  };
}

-- The request of agent 2, approved: its payload are other arguments.
abbrev approved_request : Row
approved_request = record {
  request_id = 5;
  kind = expense;
  requester_id = 2;
  payload_json = "other";
  route_target = target_only board;
  require_security = true;
  security_decision = some approve;
  security_decided_at = some 1;
  status = approved;
  decided_by = some 9;
  decided_at = some 2;
  note = none;
  expires_at = 1000;
  created_at = 0;
}

abbrev desk_approved : Tools (List String)
desk_approved = record desk { approvals = record init { rows = approved_request ∷ [] } }

abbrev first_call : Result InvokeError ToolResult × Tools (List String)
first_call = invoke (around 0) 1 7 "fee" (some 5) desk

abbrev second_call : Result InvokeError ToolResult × Tools (List String)
second_call = invoke (around 0) 1 7 "fee" (some 5) desk_approved

-- Without an approval the call waits, and nothing is run or reserved.
first_waits : (first_call.1.world ≡ []) × (sum_open_reservations first_call.1.budget ≡ 0)
unfolding invoke invoke_new get_tool gate_and_execute is_role_allowed check_and_execute
    reserve_and_execute hold_and_execute reserve admit evaluate_thresholds rise fall
    approve_and_execute handle_approval request create new_row needs_security encode_target
    make_route default_policy default_require_security default_timeouts act_on release_then release
    set_reservation_status emit_only sum_expenses sum_open_reservations units_to_cents
first_waits = (refl, refl)

-- An approval that agent 2 was given for other arguments lets agent 1 run the tool.
second_runs : (second_call.1.world ≡ "fee" ∷ []) × (second_call.0 ≡ ok (done 100 "done"))
unfolding invoke invoke_new get_tool gate_and_execute is_role_allowed check_and_execute
    reserve_and_execute hold_and_execute reserve admit evaluate_thresholds rise fall
    approve_and_execute handle_approval request row_to_approval decode make_route act_on execute
    conclude settle_call commit commit_open settle sum_expenses sum_open_reservations units_to_cents
second_runs = (refl, refl)

invoke_idem_example :
    invoke (around 3) 2 7 "more" (some 5) second_call.1 ≡ (ok (done 100 "done"), second_call.1)
invoke_idem_example =
    invoke_idem (around 0) (around 3) 1 2 7 7 "fee" "more" 5 desk_approved (done 100 "done")
      second_runs.1 refl

invoke_guarded_example :
    IsUnrun desk_approved second_call.1
    ⊎ IsCleared (around 0) (record { agent_id = 1; tool = 7; args = "fee"; cid = 5 }) desk_approved
invoke_guarded_example = invoke_guarded (around 0) 1 7 "fee" 5 desk_approved

approved-IsReadable : IsReadable 5 desk_approved.approvals
unfolding row_to_approval decode make_route
approved-IsReadable row e =
    ap (λ (o : Option Row). elim o [ none ↦ true | some r ↦ is_ok (row_to_approval r) ]) (sym e)

pay-LeavesBudget : (t : ToolDef (List String)) → get_tool 7 desk_approved ≡ ok t → LeavesBudget t
unfolding get_tool
pay-LeavesBudget t f =
    subst LeavesBudget (ap (λ o. elim o [ err _ ↦ pay | ok x ↦ x ]) f) (λ ctx args v. refl)

invoke_settles_example :
    let (r, t) = invoke (around 0) 1 7 "fee" (some 5) desk_approved in
    ((is_ok r ≡ true)
      × (sum_open_reservations t.budget ≡ sum_open_reservations desk_approved.budget)
      × (sum_expenses t.budget ≡ sum_expenses desk_approved.budget + cost_of r))
    ⊎ IsRaised (record { agent_id = 1; tool = 7; args = "fee"; cid = 5 }) desk_approved (r, t)
invoke_settles_example =
    invoke_settles (around 0) 1 7 "fee" 5 desk_approved refl tt refl refl approved-IsReadable refl
      pay-LeavesBudget

-- A desk whose tool accepts arguments that its estimator does not.
abbrev desk_unpriced : Tools (List String)
desk_unpriced = record desk {
  defs = record pay { cost_estimator = some (λ args. err (args_validation_error args)) } ∷ [];
}

estimator_raises :
    invoke (around 0) 1 7 "x" (some 5) desk_unpriced
    ≡ (err (estimate_error (args_validation_error "x")), desk_unpriced)
unfolding invoke invoke_new get_tool gate_and_execute is_role_allowed check_and_execute
    reserve_and_execute
estimator_raises = refl
