-- ===== src/Approvals/Tests.antt =====
-- Runs of the approval queue, and its theorems at concrete inputs.
use mathlib.Core.Option.{map as map_option}
use agent_company_factory.Approvals.Decide.{decide, awaits, pending_rows}
use agent_company_factory.Approvals.Expiry.{process_timeouts_lem, process_timeouts_idem}
use agent_company_factory.Approvals.Invariant.{IsValid, init-IsValid}
use agent_company_factory.Approvals.Lifecycle.{
  Op, ask, settle, sweep, step, run, run-IsValid, security_clears_first, security_veto, run_closed,
}
use agent_company_factory.Approvals.Model.{
  hire, expense, pending, approved, denied, approve, deny, board, ApprovalRoute, make_route,
  target_only, encode_target, decode, Row, default_timeouts, default_require_security,
  default_policy,
}
use agent_company_factory.Approvals.Preserve.{request-IsValid}
use agent_company_factory.Approvals.Protocol.{leg, outcome, two_legs, request_idem}
use agent_company_factory.Approvals.Service.{
  Approvals, init, id_of, Request, needs_security, new_row, create, request,
}
use agent_company_factory.Approvals.Timeouts.{is_overdue, expire, process_timeouts}
use agent_company_factory.Prelude.{update, count, ◌≡◌, refl, true, false, none, some, List, [], ◌∷◌}
use agent_company_factory.Prelude.Action.{ok}
use agent_company_factory.Prelude.Keyed.{lookup}
use agent_company_factory.Approvals.Lists.{to_security, is_listed, handed_on}

abbrev to_board : ApprovalRoute
to_board = record { target = board; agent_id = none; require_security = false }

-- An expense: the default policy asks for the security leg.
abbrev spend : Request
spend = record {
  kind = expense;
  requester_id = 7;
  payload = "{}";
  route = to_board;
  request_id = some 1;
  timeout_seconds = some 60;
}

to_board_built : make_route to_board ≡ ok to_board
unfolding make_route
to_board_built = refl

abbrev asked : Approvals
asked = (request default_policy 0 9 spend init).1

-- The row that the request leaves.
abbrev spend_row : Row
spend_row = record {
  request_id = 1;
  kind = expense;
  requester_id = 7;
  payload_json = "{}";
  route_target = target_only board;
  require_security = true;
  security_decision = none;
  security_decided_at = none;
  status = pending;
  decided_by = none;
  decided_at = none;
  note = none;
  expires_at = 60000000;
  created_at = 0;
}

asked_row : lookup id_of 1 asked.rows ≡ some spend_row
unfolding request default_policy
asked_row = refl

-- Board (8) answers first and is taken for the security leg; the row stays pending.
board_first :
    map_option leg (lookup id_of 1 (decide 5 1 8 approve none asked).1.rows)
    ≡ some (pending, some approve)
unfolding request decide default_policy
board_first = refl

swept : (process_timeouts default_policy 60000000 asked).0 ≡ ok 1
unfolding request process_timeouts default_policy decode
swept = refl

abbrev script : List Op
script = ask 0 9 spend to_board_built ∷ settle 5 1 3 approve none ∷ settle 6 1 8 approve none ∷ []

abbrev script_row : Row
script_row = record spend_row {
  security_decision = some approve;
  security_decided_at = some 5;
  status = approved;
  decided_by = some 8;
  decided_at = some 6;
}

script_ends : lookup id_of 1 (run default_policy script init).rows ≡ some script_row
unfolding run step request decide default_policy
script_ends = refl

security_clears_first_example : script_row.security_decision ≡ some approve
security_clears_first_example =
    security_clears_first default_policy script 1 script_row script_ends refl refl

abbrev vetoed_row : Row
vetoed_row = record spend_row {
  security_decision = some deny;
  security_decided_at = some 5;
  status = denied;
  decided_by = some 3;
  decided_at = some 5;
}

abbrev veto_script : List Op
veto_script = ask 0 9 spend to_board_built ∷ settle 5 1 3 deny none ∷ settle 6 1 8 approve none ∷ []

veto_ends : lookup id_of 1 (run default_policy veto_script init).rows ≡ some vetoed_row
unfolding run step request decide default_policy
veto_ends = refl

security_veto_example : vetoed_row.status ≡ denied
security_veto_example = security_veto default_policy veto_script 1 vetoed_row veto_ends refl

run_closed_example :
    lookup id_of 1
      (run default_policy
        (settle 9 1 3 deny none ∷ sweep 90000000 ∷ [])
        (run default_policy script init)).rows
    ≡ some script_row
run_closed_example =
    run_closed default_policy (settle 9 1 3 deny none ∷ sweep 90000000 ∷ [])
      (run default_policy script init) 1 script_row
      (run-IsValid default_policy script init init-IsValid) script_ends refl

asked-IsValid : IsValid asked
asked-IsValid = request-IsValid default_policy 0 9 spend init to_board_built init-IsValid

process_timeouts_lem_example :
    ((process_timeouts default_policy 70000000 asked).0
      ≡ ok (count (is_overdue 70000000) asked.rows))
    × ((process_timeouts default_policy 70000000 asked).1.rows
        ≡ update (is_overdue 70000000) (λ r. expire default_policy 70000000 r r) asked.rows)
process_timeouts_lem_example = process_timeouts_lem default_policy 70000000 asked asked-IsValid

process_timeouts_idem_example :
    let t = (process_timeouts default_policy 70000000 asked).1 in
    process_timeouts default_policy 70000000 t ≡ (ok 0, t)
process_timeouts_idem_example = process_timeouts_idem default_policy 70000000 asked asked-IsValid

two_legs_example :
    let s₁ = (decide 5 1 3 approve none asked).1 in
    (map_option leg (lookup id_of 1 s₁.rows) ≡ some (pending, some approve))
    × (map_option outcome (lookup id_of 1 (decide 6 1 8 deny none s₁).1.rows)
        ≡ some (denied, some 8))
    × (map_option outcome (lookup id_of 1 (decide 5 1 3 deny none asked).1.rows)
        ≡ some (denied, some 3))
two_legs_example = two_legs 5 6 1 3 8 deny none none asked spend_row asked_row refl refl refl

request_idem_example :
    let (r, s') = request default_policy 0 9 spend init in
    request default_policy 4 5 (record spend { kind = hire }) s' ≡ (r, s')
request_idem_example =
    request_idem default_policy 0 9 4 5 1 spend (record spend { kind = hire }) init to_board_built
      refl refl

handed_on_example :
    let s₁ = (decide 5 1 3 approve none asked).1 in
    ((is_listed to_security 1 asked ≡ true) × (is_listed to_board 1 asked ≡ false))
    × ((is_listed to_security 1 s₁ ≡ false) × (is_listed to_board 1 s₁ ≡ true))
    × (is_listed to_board 1 (decide 6 1 8 approve none s₁).1 ≡ false)
    × (is_listed to_board 1 (decide 5 1 3 deny none asked).1 ≡ false)
unfolding encode_target
handed_on_example =
    handed_on 5 6 1 3 8 approve none none asked spend_row to_board to_board asked-IsValid.keyed
      asked_row refl refl refl refl refl

-- A request that is routed to security itself has no security leg, and is listed for nobody.
abbrev for_security : Approvals
for_security = (request default_policy 0 9 (record spend { route = to_security }) init).1

unlisted :
    (is_listed to_security 1 for_security ≡ false) × (is_listed to_board 1 for_security ≡ false)
unfolding request create new_row needs_security encode_target make_route default_policy
    default_require_security default_timeouts pending_rows awaits
unlisted = (refl, refl)
