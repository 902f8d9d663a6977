-- ===== src/Approvals/Invariant.antt =====
-- What holds of the table of approvals between two calls.
use agent_company_factory.Prelude.{
  is_none, All, ℕ, String, ◌≡◌, ◌≢◌, true, false, Option, none, some, arith,
}
use agent_company_factory.Prelude.Keyed.{IsKeyed}
use agent_company_factory.Prelude.Action.{ok, is_ok, ok_of_is_ok}
use agent_company_factory.Approvals.Model.{
  pending, approved, denied, Decision, approve, deny, make_route, encode_target, decode, Approval,
  Row, Policy,
}
use agent_company_factory.Approvals.Service.{
  Approvals, init, id_of, is_pending, row_to_approval, Request, needs_security, new_row,
}
use agent_company_factory.Approvals.Decide.{decide_row, cancels}

-- A row of the table: who decided and when, the security leg, and a route that can be read back.
pub record IsSound (r : Row) : Type 0 where
  pub open_row : r.status ≡ pending → (r.decided_at ≡ none) × (r.decided_by ≡ none)
  pub closed_row : r.status ≢ pending → is_none r.decided_at ≡ false
  pub vetoed : r.security_decision ≡ some deny → r.status ≡ denied
  pub cleared : r.status ≡ approved → r.require_security ≡ true → r.security_decision ≡ some approve
  pub readable : is_ok (decode r.route_target r.require_security) ≡ true

pub record IsValid (s : Approvals) : Type 0 where
  pub keyed : IsKeyed id_of s.rows
  pub sound : All IsSound s.rows

pub init-IsValid : IsValid init
init-IsValid = record { keyed = tt; sound = tt }

pub decide_row-IsSound :
    (r : Row) (now decider : ℕ) (d : Decision) (text : Option String)
    → IsSound r
    → is_pending r.status ≡ true
    → IsSound ((decide_row r now decider d text).0 r)
unfolding decide_row
decide_row-IsSound r now decider d text h p = ground arith

pub cancels-IsSound :
    (r : Row) (now by : ℕ) (reason : String)
    → IsSound r
    → is_pending r.status ≡ true
    → IsSound (cancels now by reason r)
cancels-IsSound r now by reason h p = ground arith

pub new_row-IsSound :
    (p : Policy) (now rid : ℕ) (q : Request)
    → make_route q.route ≡ ok (q.route)
    → IsSound (new_row p now rid q)
unfolding new_row decode needs_security encode_target make_route
new_row-IsSound p now rid q h = ground arith

abbrev pub IsReadable : Row → Type 0
IsReadable r = is_ok (decode r.route_target r.require_security) ≡ true

-- A row of a valid table can be read back.
pub row_to_approval_total : (r : Row) → IsReadable r → (a : Approval) × (row_to_approval r ≡ ok a)
unfolding row_to_approval
row_to_approval_total r h = ok_of_is_ok (row_to_approval r) (ground arith)

pub id_of-decide_row :
    (row : Row) (now decider : ℕ) (d : Decision) (text : Option String) (r : Row)
    → id_of ((decide_row row now decider d text).0 r) ≡ id_of r
unfolding decide_row
id_of-decide_row row now decider d text r = ground arith
