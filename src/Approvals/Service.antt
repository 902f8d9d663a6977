-- ===== src/Approvals/Service.antt =====
-- modules/approvals/service.py: `class Approvals`. The clock reading of a call and the fresh
-- `uuid4` are arguments. Callbacks of subscribers are recorded, in the order of the calls.
use agent_company_factory.Prelude.{
  or_else, ℕ, ◌+◌, String, Bool, true, false, not, ◌&&◌, ◌||◌, Option, none, some, List, [], ◌∷◌,
  ◌++◌, map,
}
use agent_company_factory.Prelude.Keyed.{lookup}
use agent_company_factory.Prelude.Action.{Result, ok, err, Action, pure, lift, modify, ◌>>=◌, ◌>>◌}
use agent_company_factory.Approvals.Model.{
  ApprovalKind, ApprovalStatus, pending, approved, denied, timeout, cancelled, Decision, approve,
  deny, ApprovalError, ApprovalRoute, is_security, make_route, encode_target, decode, Approval, Row,
  seconds, Policy,
}

-- `_DECISION_EVENT_VALUE`: approve is "approved", deny is "rejected".
pub data Verdict : Type 0 where
  verdict_approved verdict_rejected : Verdict

-- The events that the service appends, with their payloads.
pub data Event : Type 0 where
  requested : ℕ → ℕ → ApprovalKind → String → Event
  decided : ℕ → ℕ → Verdict → Option String → Event
  timed_out : ℕ → Event

pub record Approvals : Type 0 where
  pub rows : List Row
  pub events : List Event
  pub subscribers : List ℕ
  pub notified : List (ℕ × Approval)

abbrev pub init : Approvals
init = record { rows = []; events = []; subscribers = []; notified = [] }

abbrev pub Call : Type 0 → Type 0
Call A = Action Approvals ApprovalError A

abbrev pub id_of : Row → ℕ
id_of r = r.request_id

abbrev pub is_pending : ApprovalStatus → Bool
is_pending pending = true
is_pending _ = false

abbrev pub is_approve : Decision → Bool
is_approve approve = true
is_approve deny = false

abbrev pub same_status : ApprovalStatus → ApprovalStatus → Bool
same_status pending pending = true
same_status approved approved = true
same_status denied denied = true
same_status timeout timeout = true
same_status cancelled cancelled = true
same_status _ _ = false

-- `_row_to_approval`
unfoldable pub row_to_approval : Row → Result ApprovalError Approval
unfolding decode
row_to_approval r = elim (decode r.route_target r.require_security) [
  | err e ↦ err e
  | ok route ↦ ok (record {
    request_id = r.request_id;
    kind = r.kind;
    requester_id = r.requester_id;
    payload = r.payload_json;
    route = route;
    status = r.status;
    decided_by = r.decided_by;
    decided_at = r.decided_at;
    note = r.note;
    expires_at = r.expires_at;
    created_at = r.created_at;
    security_decision = r.security_decision;
    security_decided_at = r.security_decided_at;
  })
]

-- `self._events.append`
abbrev pub append_event : Event → Call (Unit {0})
append_event e = modify λ s. record s { events = s.events ++ e ∷ [] }

-- `_broadcast`: a callback that raises is logged and passed over.
abbrev pub broadcast : Approval → Call (Unit {0})
broadcast a = modify λ s. record s { notified = s.notified ++ map (λ c. (c, a)) s.subscribers }

abbrev pub write_rows : (List Row → List Row) → Call (Unit {0})
write_rows f = modify λ s. record s { rows = f s.rows }

pub record Request : Type 0 where
  pub kind : ApprovalKind
  pub requester_id : ℕ
  pub payload : String
  pub route : ApprovalRoute
  pub request_id : Option ℕ
  pub timeout_seconds : Option ℕ

-- Whether the security leg comes first.
unfoldable pub needs_security : Policy → Request → Bool
needs_security p q =
    q.route.require_security
    || (p.require_security_kinds q.kind && not (is_security q.route.target))

-- The row that `request` inserts.
unfoldable pub new_row : Policy → ℕ → ℕ → Request → Row
unfolding needs_security encode_target
new_row p now rid q = record {
  request_id = rid;
  kind = q.kind;
  requester_id = q.requester_id;
  payload_json = q.payload;
  route_target = encode_target q.route;
  require_security = needs_security p q;
  security_decision = none;
  security_decided_at = none;
  status = pending;
  decided_by = none;
  decided_at = none;
  note = none;
  expires_at = now + elim q.timeout_seconds [
    | some t ↦ seconds t
    | none ↦ or_else (p.timeouts q.kind) (seconds 86400)
  ];
  created_at = now;
}

-- The branch of `request` for an identifier that is not in the table.
unfoldable pub create : Policy → ℕ → ℕ → Request → Call Approval
unfolding new_row make_route
create p now rid q = do
  write_rows (λ t. t ++ new_row p now rid q ∷ [])
  route ← lift (make_route (record (q.route) { require_security = needs_security p q }))
  let row = new_row p now rid q
  let approval : Approval = record {
    request_id = rid;
    kind = q.kind;
    requester_id = q.requester_id;
    payload = q.payload;
    route = route;
    status = pending;
    decided_by = none;
    decided_at = none;
    note = none;
    expires_at = row.expires_at;
    created_at = now;
    security_decision = none;
    security_decided_at = none;
  }
  append_event (requested rid q.requester_id q.kind q.payload)
  broadcast approval
  pure approval

-- `Approvals.request`
unfoldable pub request : Policy → ℕ → ℕ → Request → Call Approval
unfolding create row_to_approval
request p now fresh q s =
    let rid = or_else q.request_id fresh in
    elim (lookup id_of rid s.rows) [
      | some row ↦ (row_to_approval row, s)
      | none ↦ create p now rid q s
    ]
