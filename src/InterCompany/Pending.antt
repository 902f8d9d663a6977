-- ===== src/InterCompany/Pending.antt =====
-- `deliver_pending`, `_update_status`, `list_outbox` and `on_company_closed` of
-- modules/inter_company/service.py.
use agent_company_factory.Prelude.{
  ◌==◌, if◌then◌else◌, select, order_by, ℕ, ◌+◌, Bool, true, false, not, ◌&&◌, Option, none, some,
  List, [], ◌∷◌,
}
use agent_company_factory.Prelude.Keyed.{flag, set}
use agent_company_factory.Prelude.Action.{ok, err, pure, ◌>>=◌}
use agent_company_factory.InterCompany.Model.{
  CrossStatus, cross_delivered, cross_queued, cross_rejected, Link, RejectReason, no_inbox_agent,
  link_not_approved_reason, CrossEntry, Board, entry_id_of,
}
use agent_company_factory.InterCompany.Links.{OnLinks, revoke_for_company}
use agent_company_factory.InterCompany.Service.{
  Cross, lookup_link, is_approved_link, target_handle, resolve_inbox, format_envelope, map_result,
  reason_of, hand_over,
}
use agent_company_factory.Orchestrator.Model.{Text}
use agent_company_factory.Orchestrator.State.{Orchestrator}
use agent_company_factory.Orchestrator.Send.{Moment}

abbrev pub is_waiting : CrossStatus → Bool
is_waiting cross_queued = true
is_waiting _ = false

-- `WHERE to_company = ? AND status = 'queued'`
abbrev pub waits_for : ℕ → CrossEntry → Bool
waits_for c e = e.to_company == c && is_waiting e.status

abbrev pub with_status : ℕ → CrossStatus → Option RejectReason → Option ℕ → CrossEntry → CrossEntry
with_status now status reason target e = record e {
  status = status;
  reason = reason;
  delivered_at = elim status [ cross_delivered ↦ some now | _ ↦ none ];
  target_agent = elim target [ none ↦ e.target_agent | some a ↦ some a ];
}

-- `_update_status`
unfoldable pub update_status : ℕ → ℕ → CrossStatus → Option RejectReason → Option ℕ → Board → Board
update_status now k status reason target s = record s {
  outbox = set entry_id_of k (with_status now status reason target) s.outbox;
}

-- Whether the entry has left the queue.
abbrev pub flushed : Bool → Cross Bool
flushed b s = (ok b, s)

-- The new attempt for an entry with a target.
unfoldable pub retry : (ℕ → Text) → Moment → ℕ → Orchestrator → CrossEntry → ℕ → Cross Bool
unfolding hand_over update_status map_result
retry shown m c o e who s =
    let content = format_envelope shown e.link_id e.from_company e.kind e.subject e.body in
    let (r, s') = hand_over m c who content e.id o s in
    elim r [
      | err _ ↦ (ok false, s')
      | ok result ↦ if is_waiting (map_result result) then (ok false, s') else (
        ok true,
        update_status m.now e.id (map_result result) (reason_of result) (some who) s',
      )
    ]

-- The target of an entry: the one it was written with, or else the inbox.
abbrev pub target_of : Orchestrator → CrossEntry → Option ℕ
target_of o e = elim e.target_agent [ some a ↦ some a | none ↦ resolve_inbox o ]

-- An entry of a link.
unfoldable pub deliver_entry :
    (ℕ → Text) → Moment → ℕ → Orchestrator → CrossEntry → Link → Cross Bool
unfolding retry update_status
deliver_entry shown m c o e l s =
    if not (is_approved_link l)
    then (ok true, update_status m.now e.id cross_rejected (some link_not_approved_reason) none s)
    else elim (target_of o e) [
      | none ↦ (ok true, update_status m.now e.id cross_rejected (some no_inbox_agent) none s)
      | some who ↦ retry shown m c o e who s
    ]

-- The loop over the entries; a company that has become unavailable ends it.
unfoldable pub deliver_entries : (ℕ → Text) → (ℕ → Moment) → ℕ → List CrossEntry → Cross ℕ
unfolding deliver_entry lookup_link target_handle
deliver_entries shown draw c [] s = (ok 0, s)
deliver_entries shown draw c (e ∷ rest) s = elim (target_handle c s) [
  | none ↦ (ok 0, s)
  | some o ↦
      (do
        l ← lookup_link e.link_id
        done ← deliver_entry shown (draw e.id) c o e l
        n ← deliver_entries shown draw c rest
        pure (flag done + n))
        s
]

abbrev pub waiting_entries : ℕ → List CrossEntry → List CrossEntry
waiting_entries c t = order_by (λ e. e.created_at) (select (waits_for c) t)

-- `deliver_pending`; `draw` has what the attempt for an entry draws from outside.
unfoldable pub deliver_pending : (ℕ → Text) → (ℕ → Moment) → ℕ → Cross ℕ
unfolding deliver_entries
deliver_pending shown draw c s = deliver_entries shown draw c (waiting_entries c s.outbox) s

-- `on_company_closed`
unfoldable pub on_company_closed : ℕ → ℕ → ℕ → OnLinks ℕ
unfolding revoke_for_company
on_company_closed = revoke_for_company
