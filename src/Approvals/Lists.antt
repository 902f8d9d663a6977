-- ===== src/Approvals/Lists.antt =====
-- What `pending_for` of modules/approvals/service.py lists while a request is decided.
use mathlib.Core.Path.{subst}
use agent_company_factory.Prelude.{
  if◌then◌else◌, is_none, select, ℕ, String, ◌≡◌, refl, sym, ap, ◌∙◌, Bool, true, false, not, ◌&&◌,
  Option, none, some, arith,
}
use agent_company_factory.Prelude.Sorted.{lookup-order_by, lookup-select, IsKeyed-select}
use agent_company_factory.Prelude.Keyed.{lookup, IsKeyed, set-IsKeyed}
use agent_company_factory.Approvals.Model.{
  pending, Decision, approve, deny, security, ApprovalRoute, is_security, encode_target, Row,
}
use agent_company_factory.Approvals.Service.{Approvals, id_of, is_pending}
use agent_company_factory.Approvals.Decide.{decide_row, decide, awaits, pending_rows}
use agent_company_factory.Approvals.Invariant.{id_of-decide_row}
use agent_company_factory.Approvals.Preserve.{rows-decide}
use agent_company_factory.Approvals.Protocol.{lookup-decide}

abbrev pub to_security : ApprovalRoute
to_security = record { target = security; agent_id = none; require_security = false }

-- Whether `pending_for` selects the request for this decider.
abbrev pub is_listed : ApprovalRoute → ℕ → Approvals → Bool
is_listed d rid s = not (is_none (lookup id_of rid (pending_rows d s)))

listed_row :
    (d : ApprovalRoute) (rid : ℕ) (row : Row) (s : Approvals)
    → IsKeyed id_of s.rows
    → lookup id_of rid s.rows ≡ some row
    → is_listed d rid s ≡ awaits d row
unfolding pending_rows
listed_row d rid row s u e =
    let found =
      lookup-order_by id_of (λ r. r.created_at) rid (select (awaits d) s.rows)
        (IsKeyed-select id_of (awaits d) s.rows u)
      ∙ lookup-select id_of (awaits d) rid row s.rows u e in
    ap (λ o. not (is_none o)) found ∙ told (awaits d row)
  where
    told : (b : Bool) → not (is_none (if b then some row else none)) ≡ b
    told true = refl
    told false = refl

decide-IsKeyed :
    (now rid decider : ℕ) (d : Decision) (text : Option String) (s : Approvals) (row : Row)
    → lookup id_of rid s.rows ≡ some row
    → is_pending row.status ≡ true
    → IsKeyed id_of s.rows
    → IsKeyed id_of (decide now rid decider d text s).1.rows
decide-IsKeyed now rid decider d text s row e p u =
    subst (IsKeyed id_of) (sym (rows-decide now rid decider d text s row e p)) (
      set-IsKeyed id_of (decide_row row now decider d text).0
        (id_of-decide_row row now decider d text) rid s.rows u)

decided_listed :
    (now rid decider : ℕ) (d : Decision) (text : Option String) (s : Approvals) (row : Row)
    (who : ApprovalRoute)
    → lookup id_of rid s.rows ≡ some row
    → is_pending row.status ≡ true
    → IsKeyed id_of s.rows
    → is_listed who rid (decide now rid decider d text s).1
      ≡ awaits who ((decide_row row now decider d text).0 row)
decided_listed now rid decider d text s row who e p u =
    listed_row who rid ((decide_row row now decider d text).0 row)
      (decide now rid decider d text s).1 (decide-IsKeyed now rid decider d text s row e p u)
      (lookup-decide now rid decider d text s row e p)

awaits_open :
    (r : Row) (d : ApprovalRoute)
    → r.status ≡ pending
    → r.route_target ≡ encode_target d
    → is_security d.target ≡ false
    → (awaits to_security r ≡ (r.require_security && is_none r.security_decision))
      × (awaits d r ≡ not (r.require_security && is_none r.security_decision))
unfolding awaits encode_target
awaits_open r d p e n = ground arith

awaits_closed : (r : Row) (d : ApprovalRoute) → is_pending r.status ≡ false → awaits d r ≡ false
unfolding awaits
awaits_closed r d p = ground arith

-- In a table of unique requests, a pending one whose security leg is open and whose route is not
-- security is handed on: at first `pending_for` selects it for security and not for the decider of
-- its route; after an approval by the first decider for the decider of its route and not for
-- security; and after the second decision, or after a denial by the first decider, for nobody.
pub handed_on :
    (now later rid first second : ℕ) (choice : Decision) (m n : Option String) (s : Approvals)
    (row : Row) (d anyone : ApprovalRoute)
    → IsKeyed id_of s.rows
    → lookup id_of rid s.rows ≡ some row
    → row.status ≡ pending
    → row.require_security ≡ true
    → row.security_decision ≡ none
    → row.route_target ≡ encode_target d
    → is_security d.target ≡ false
    → let s₁ = (decide now rid first approve m s).1 in
      ((is_listed to_security rid s ≡ true) × (is_listed d rid s ≡ false))
      × ((is_listed to_security rid s₁ ≡ false) × (is_listed d rid s₁ ≡ true))
      × (is_listed anyone rid (decide later rid second choice n s₁).1 ≡ false)
      × (is_listed anyone rid (decide now rid first deny m s).1 ≡ false)
unfolding decide_row
handed_on now later rid first second choice m n s row d anyone u e p q o t z =
    let waits : is_pending row.status ≡ true = ground arith in
    let cleared = (decide_row row now first approve m).0 row in
    let still : is_pending cleared.status ≡ true = ground arith in
    let s₁ = (decide now rid first approve m s).1 in
    let u₁ = decide-IsKeyed now rid first approve m s row e waits u in
    let e₁ = lookup-decide now rid first approve m s row e waits in
    let (a, b) = awaits_open row d p t z in
    let (a', b') = awaits_open cleared d (ground arith) (ground arith) z in
    let final = (decide_row cleared later second choice n).0 cleared in
    let refused = (decide_row row now first deny m).0 row in
    (
      (
        listed_row to_security rid row s u e ∙ a ∙ ground arith,
        listed_row d rid row s u e ∙ b ∙ ground arith,
      ),
      (
        listed_row to_security rid cleared s₁ u₁ e₁ ∙ a' ∙ ground arith,
        listed_row d rid cleared s₁ u₁ e₁ ∙ b' ∙ ground arith,
      ),
      decided_listed later rid second choice n s₁ cleared anyone e₁ still u₁
          ∙ awaits_closed final anyone (ground arith),
      decided_listed now rid first deny m s row anyone e waits u
          ∙ awaits_closed refused anyone (ground arith),
    )
