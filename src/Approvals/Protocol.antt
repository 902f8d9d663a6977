-- ===== src/Approvals/Protocol.antt =====
-- The two legs of a decision, and the repetition of a request.
use mathlib.Core.Option.{map as map_option}
use agent_company_factory.Approvals.Decide.{status_of, decide_row, decide}
use agent_company_factory.Approvals.Invariant.{id_of-decide_row}
use agent_company_factory.Approvals.Model.{
  ApprovalStatus, pending, denied, Decision, approve, deny, make_route, decode, Row, Policy,
}
use agent_company_factory.Approvals.Preserve.{rows-decide, request_known, rows-request}
use agent_company_factory.Approvals.Service.{
  Approvals, id_of, is_pending, row_to_approval, Request, new_row, create, request,
}
use agent_company_factory.Prelude.{
  ◌==◌, if◌then◌else◌, or_else, ==_refl, Option-cases, find-append_new, ℕ, String, ◌≡◌, sym, ap,
  ◌∙◌, inl, inr, true, Option, none, some, arith,
}
use agent_company_factory.Prelude.Action.{ok}
use agent_company_factory.Prelude.Keyed.{lookup, lookup-set}

pub lookup-decide :
    (now rid decider : ℕ) (d : Decision) (text : Option String) (s : Approvals) (row : Row)
    → lookup id_of rid s.rows ≡ some row
    → is_pending row.status ≡ true
    → lookup id_of rid (decide now rid decider d text s).1.rows
      ≡ some ((decide_row row now decider d text).0 row)
lookup-decide now rid decider d text s row e p = rw (rows-decide now rid decider d text s row e p) (
    lookup-set id_of (decide_row row now decider d text).0 (id_of-decide_row row now decider d text)
      rid rid s.rows
    ∙ rw (==_refl rid) (rw e))

abbrev pub leg : Row → ApprovalStatus × Option Decision
leg r = (r.status, r.security_decision)

abbrev pub outcome : Row → ApprovalStatus × Option ℕ
outcome r = (r.status, r.decided_by)

-- Where the security leg is open, an approval by the first decider leaves the request pending with
-- the leg closed, and the second decision, whoever makes it, is the final one. A denial by the first
-- decider is final at once.
pub two_legs :
    (now later rid first second : ℕ) (d : Decision) (m n : Option String) (s : Approvals)
    (row : Row)
    → lookup id_of rid s.rows ≡ some row
    → row.status ≡ pending
    → row.require_security ≡ true
    → row.security_decision ≡ none
    → let s₁ = (decide now rid first approve m s).1 in
      (map_option leg (lookup id_of rid s₁.rows) ≡ some (pending, some approve))
      × (map_option outcome (lookup id_of rid (decide later rid second d n s₁).1.rows)
          ≡ some (status_of d, some second))
      × (map_option outcome (lookup id_of rid (decide now rid first deny m s).1.rows)
          ≡ some (denied, some first))
unfolding decide_row
two_legs now later rid first second d m n s row e p q o =
    let waits : is_pending row.status ≡ true = ground arith in
    let cleared_row = (decide_row row now first approve m).0 row in
    let still : is_pending cleared_row.status ≡ true = ground arith in
    let e₁ = lookup-decide now rid first approve m s row e waits in
    let e₂ =
      lookup-decide later rid second d n (decide now rid first approve m s).1 cleared_row e₁
        still in
    let e₃ = lookup-decide now rid first deny m s row e waits in
    (rw e₁ (ground arith), rw e₂ (ground arith), rw e₃ (ground arith))

create_result :
    (p : Policy) (now rid : ℕ) (q : Request) (s : Approvals)
    → make_route q.route ≡ ok (q.route)
    → (create p now rid q s).0 ≡ row_to_approval (new_row p now rid q)
unfolding create row_to_approval decode
create_result p now rid q s built = ground arith

new_row_found :
    (p : Policy) (now rid : ℕ) (q : Request)
    → (if id_of (new_row p now rid q) == rid then some (new_row p now rid q) else none)
      ≡ some (new_row p now rid q)
unfolding new_row
new_row_found p now rid q = rw (==_refl rid)

-- A request that names its identifier can be repeated: whatever the second request asks for, it is
-- answered as the first was, and nothing changes.
pub request_idem :
    (p : Policy) (now fresh later other rid : ℕ) (q q' : Request) (s : Approvals)
    → make_route q.route ≡ ok (q.route)
    → q.request_id ≡ some rid
    → q'.request_id ≡ some rid
    → let (r, s') = request p now fresh q s in request p later other q' s' ≡ (r, s')
unfolding request
request_idem p now fresh later other rid q q' s built e e' =
    let k = or_else q.request_id fresh in
    let same : k ≡ or_else q'.request_id other = ground arith in
    elim (Option-cases (lookup id_of k s.rows)) [
      | inl new ↦
          let row = new_row p now k q in
          let s' = (request p now fresh q s).1 in
          let stored : lookup id_of k s'.rows ≡ some row =
            rw (rows-request p now fresh q s new)
              (find-append_new (λ r. id_of r == k) row s.rows new ∙ new_row_found p now k q) in
          let answer : (request p now fresh q s).0 ≡ row_to_approval row =
            rw (new, request) (create_result p now k q s built) in
          request_known p later other q' s' row
            (ap (λ j. lookup id_of j s'.rows) (sym same) ∙ stored)
          ∙ ap (λ r. (r, s')) (sym answer)
      | inr (row, old) ↦
          rw (request_known p now fresh q s row old) (
            request_known p later other q' s row (ap (λ j. lookup id_of j s.rows) (sym same) ∙ old))
    ]
