-- ===== src/InterCompany/Service.antt =====
-- `InterCompanyService` of modules/inter_company/service.py: `send_cross` and `deliver_pending`, over the
-- orchestrators of the companies. `shown` writes an identifier as text.
use agent_company_factory.Prelude.{
  ltb, ◌==◌, if◌then◌else◌, is_none, find, exists, ℕ, Bool, true, false, not, Option, none, some,
  [], ◌∷◌, ◌++◌,
}
use agent_company_factory.Prelude.Keyed.{lookup, set}
use agent_company_factory.Prelude.Action.{Result, ok, err, Action, raise, ◌>>=◌, ◌>>◌}
use agent_company_factory.Identity.Model.{ceo, hr, active, same_role, all}
use agent_company_factory.Identity.Reason.{codes}
use agent_company_factory.InterCompany.Model.{
  link_approved, CrossMessageKind, inquiry, quote, order, invoice, delivery, generic, CrossStatus,
  cross_delivered, cross_queued, cross_rejected, Link, CrossMessage, RejectReason, no_inbox_agent,
  delivery_error, send_result, CrossEntry, CrossResult, external_call, CrossError,
  cross_link_not_found, link_not_approved, direction_mismatch, scope_violation, payload_too_large,
  target_unavailable, outbox_integrity, Board, link_id_of, company_id_of, entry_id_of, is_closed,
  same_link_status, mirror,
}
use agent_company_factory.InterCompany.Sanitize.{sanitize}
use agent_company_factory.InterCompany.Rate.{enforce_rate}
use agent_company_factory.Orchestrator.Model.{
  user_request, SendResult, queued, rejected_paused, OrchestratorError, Text,
}
use agent_company_factory.Orchestrator.State.{Orchestrator}
use agent_company_factory.Orchestrator.Send.{utf8_length, Moment, system_send}

abbrev pub Cross : Type 0 → Type 0
Cross A = Action Board CrossError A

abbrev pub max_subject_bytes : ℕ
max_subject_bytes = 512

abbrev pub kind_text : CrossMessageKind → Text
kind_text inquiry = codes "inquiry"
kind_text quote = codes "quote"
kind_text order = codes "order"
kind_text invoice = codes "invoice"
kind_text delivery = codes "delivery"
kind_text generic = codes "generic"

abbrev pub same_kind : CrossMessageKind → CrossMessageKind → Bool
same_kind inquiry inquiry = true
same_kind quote quote = true
same_kind order order = true
same_kind invoice invoice = true
same_kind delivery delivery = true
same_kind generic generic = true
same_kind _ _ = false

-- `_lookup_link`
unfoldable pub lookup_link : ℕ → Cross Link
lookup_link k s = elim (lookup link_id_of k s.links) [
  | none ↦ (err cross_link_not_found, s)
  | some l ↦ (ok l, s)
]

abbrev pub is_approved_link : Link → Bool
is_approved_link l = same_link_status l.status link_approved

-- `_enforce_scope`: no kinds at all stand for every kind.
abbrev pub in_scope : Link → CrossMessage → Bool
in_scope l m = elim l.scope.allowed_messages [
  | [] ↦ true
  | k ∷ more ↦ exists (same_kind m.kind) (k ∷ more)
]

-- `_enforce_direction`, `_enforce_status` and `_enforce_scope`
unfoldable pub refuse_link : ℕ → Link → CrossMessage → Option CrossError
refuse_link from_company l m =
    if not (l.from_company == from_company)
    then some direction_mismatch
    else if not (is_approved_link l)
    then some link_not_approved
    else if not (in_scope l m)
    then some scope_violation
    else if ltb l.scope.max_payload_bytes (utf8_length m.body)
    then some payload_too_large
    else none

-- `_get_target_handle`
unfoldable pub target_handle : ℕ → Board → Option Orchestrator
target_handle c s = elim (lookup company_id_of c s.companies) [
  | none ↦ none
  | some row ↦ if is_closed row.status then none else row.handle
]

-- `_resolve_inbox_agent`: the first active agent of HR, and else the first CEO.
unfoldable pub resolve_inbox : Orchestrator → Option ℕ
unfolding all
resolve_inbox o =
    let actives = all (some active) o.identity in
    elim (find (λ a. same_role a.role hr) actives) [
      | some a ↦ some a.id
      | none ↦ elim (find (λ a. same_role a.role ceo) actives) [ some a ↦ some a.id | none ↦ none ]
    ]

-- `_format_envelope`
abbrev pub format_envelope : (ℕ → Text) → ℕ → ℕ → CrossMessageKind → Text → Text → Text
format_envelope shown link from_company kind subject body =
    codes "[INTER-COMPANY "
    ++ kind_text kind
    ++ codes " | from="
    ++ shown from_company
    ++ codes " | link="
    ++ shown link
    ++ codes "]\nSubject: "
    ++ subject
    ++ codes "\n\n"
    ++ body

-- `_map_result`
unfoldable pub map_result : SendResult → CrossStatus
map_result queued = cross_delivered
map_result rejected_paused = cross_queued
map_result _ = cross_rejected

abbrev pub reason_of : SendResult → Option RejectReason
reason_of r = elim (map_result r) [ cross_rejected ↦ some (send_result r) | _ ↦ none ]

abbrev pub put_orchestrator : ℕ → Orchestrator → Board → Board
put_orchestrator c o s = record s {
  companies = set company_id_of c (λ row. record row { handle = some o }) s.companies;
}

-- `system_send` on the orchestrator of a company: the status with its reason, and the state.
unfoldable pub hand_over :
    Moment → ℕ → ℕ → Text → ℕ → Orchestrator → Board → Result OrchestratorError SendResult × Board
unfolding system_send
hand_over m c who content rid o s =
    let (r, o') = system_send m who content user_request (some rid) o in
    (r, put_orchestrator c o' s)

-- A message to be sent: the link, who sends it, the text as it was sanitized, and its identifier.
pub record Outgoing : Type 0 where
  pub link : Link
  pub from_agent : ℕ
  pub message : CrossMessage
  pub subject : Text
  pub body : Text
  pub rid : ℕ

abbrev pub entry_of : ℕ → Outgoing → Option ℕ → CrossStatus → Option RejectReason → CrossEntry
entry_of now q target status reason = record {
  id = q.rid;
  link_id = q.link.id;
  from_company = q.link.from_company;
  to_company = q.link.to_company;
  from_agent = q.from_agent;
  target_agent = target;
  kind = q.message.kind;
  subject = q.subject;
  body = q.body;
  metadata = q.message.metadata;
  status = status;
  reason = reason;
  created_at = now;
  delivered_at = elim status [ cross_delivered ↦ some now | _ ↦ none ];
}

-- `_record_and_emit`
unfoldable pub record_and_emit :
    ℕ → Outgoing → Option ℕ → CrossStatus → Option RejectReason → Cross CrossResult
record_and_emit now q target status reason s =
    if not (is_none (lookup entry_id_of q.rid s.outbox)) then (err outbox_integrity, s) else (
      ok (record {
        id = q.rid;
        link_id = q.link.id;
        status = status;
        target_agent = target;
        reason = reason;
      }),
      mirror q.link.to_company
          (external_call q.rid q.link.id (q.link.to_company == q.link.from_company) status)
          (mirror q.link.from_company (external_call q.rid q.link.id true status)
            (record s { outbox = s.outbox ++ entry_of now q target status reason ∷ [] })),
    )

-- The delivery of `send_cross` to the agent `who`.
unfoldable pub deliver_cross : (ℕ → Text) → Moment → Outgoing → Orchestrator → ℕ → Cross CrossResult
unfolding hand_over map_result record_and_emit
deliver_cross shown m q o who s =
    let content =
      format_envelope shown q.link.id q.link.from_company q.message.kind q.subject q.body in
    let (r, s') = hand_over m q.link.to_company who content q.rid o s in
    elim r [
      | err _ ↦ record_and_emit m.now q (some who) cross_rejected (some delivery_error) s'
      | ok result ↦ record_and_emit m.now q (some who) (map_result result) (reason_of result) s'
    ]

-- `send_cross` past its gates.
unfoldable pub route : (ℕ → Text) → Moment → Outgoing → Cross CrossResult
unfolding target_handle resolve_inbox deliver_cross record_and_emit
route shown m q s = elim (target_handle q.link.to_company s) [
  | none ↦ (err target_unavailable, s)
  | some o ↦ elim (resolve_inbox o) [
    | none ↦ record_and_emit m.now q none cross_rejected (some no_inbox_agent) s
    | some who ↦ deliver_cross shown m q o who s
  ]
]

abbrev pub outgoing : Link → ℕ → CrossMessage → ℕ → Outgoing
unfolding sanitize
outgoing l from_agent message rid = record {
  link = l;
  from_agent = from_agent;
  message = message;
  subject = sanitize max_subject_bytes message.subject;
  body = sanitize l.scope.max_payload_bytes message.body;
  rid = rid;
}

-- `InterCompanyService.send_cross`; `rid` is the identifier that was given or drawn.
unfoldable pub send_cross : (ℕ → Text) → Moment → ℕ → ℕ → ℕ → CrossMessage → ℕ → Cross CrossResult
unfolding lookup_link refuse_link enforce_rate route
send_cross shown m link from_agent from_company message rid = lookup_link link >>= λ l.
    (elim (refuse_link from_company l message) [
      | some e ↦ raise e
      | none ↦ enforce_rate m.monotonic l >> route shown m (outgoing l from_agent message rid)
    ])
