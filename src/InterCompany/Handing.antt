-- ===== src/InterCompany/Handing.antt =====
-- How a message between companies comes to its recipient.
use agent_company_factory.Prelude.{
  ℕ, ◌≡◌, refl, sym, ap, ◌∙◌, true, false, Option, none, some, arith,
}
use agent_company_factory.Prelude.Action.{Result, ok, err}
use agent_company_factory.InterCompany.Model.{
  CrossStatus, cross_delivered, cross_rejected, RejectReason, no_inbox_agent, delivery_error,
  CrossResult, CrossError, target_unavailable, Board,
}
use agent_company_factory.InterCompany.Service.{
  target_handle, resolve_inbox, format_envelope, map_result, reason_of, put_orchestrator, hand_over,
  Outgoing, record_and_emit, deliver_cross, route,
}
use agent_company_factory.Orchestrator.Model.{
  user_request, SendResult, queued, OrchestratorError, Text,
}
use agent_company_factory.Orchestrator.State.{
  Orchestrator, is_active_agent, is_registered, is_suspended,
}
use agent_company_factory.Orchestrator.Queue.{enqueue}
use agent_company_factory.Orchestrator.Send.{
  Moment, Message, new_envelope, is_duplicate, send_with, system_send,
}
use agent_company_factory.Orchestrator.Sending.{accept_queued}
use agent_company_factory.Clock.Model.{is_accepting_messages}

-- A message of the system that the orchestrator of a company has queued.
pub record IsQueued (m : Moment) (r : Message) (o : Orchestrator) (o' : Orchestrator) : Type 0 where
  pub recipient_active : is_active_agent r.to_agent o ≡ true
  pub not_suspended : is_suspended r.to_agent o ≡ false
  pub registered : is_registered r.to_agent o ≡ true
  pub accepting : is_accepting_messages o.clock ≡ true
  pub new_correlation : is_duplicate r o ≡ false
  pub last : o'.queue ≡ enqueue (new_envelope m r) o.queue

abbrev pub system_message : ℕ → Text → ℕ → Message
system_message who content rid = record {
  from_agent = none;
  to_agent = who;
  content = content;
  correlation_id = some rid;
  kind = user_request;
}

system_send-IsQueued :
    (m : Moment) (who : ℕ) (content : Text) (rid : ℕ) (o : Orchestrator)
    → (system_send m who content user_request (some rid) o).0 ≡ ok queued
    → IsQueued m
        (system_message who content rid)
        o
        (system_send m who content user_request (some rid) o).1
unfolding system_send send_with
system_send-IsQueued m who content rid o h =
    let a = accept_queued m (system_message who content rid) o in
    record {
      recipient_active = ground (arith, a);
      not_suspended = ground (arith, a);
      registered = ground (arith, a);
      accepting = ground (arith, a);
      new_correlation = ground (arith, a);
      last = ground (arith, a);
    }

recorded :
    (now : ℕ) (q : Outgoing) (target : Option ℕ) (status : CrossStatus)
    (reason : Option RejectReason) (s : Board) (r : CrossResult)
    → (record_and_emit now q target status reason s).0 ≡ ok r
    → (status ≡ r.status) × (target ≡ r.target_agent)
unfolding record_and_emit
recorded now q target status reason s r h = ground arith

delivered_queued : (z : SendResult) → map_result z ≡ cross_delivered → z ≡ queued
unfolding map_result
delivered_queued z h = ground arith

pub err≢ok : {e : CrossError} {r : CrossResult} → ¬ (err e ≡ ok r)
err≢ok h = ground arith

rejected≢delivered : ¬ (cross_rejected ≡ cross_delivered)
rejected≢delivered h = ground arith

module _ (shown : ℕ → Text) (m : Moment) where
  abbrev content_of : Outgoing → Text
  content_of q = format_envelope shown q.link.id q.link.from_company q.message.kind q.subject q.body

  -- How a message has come to its recipient.
  pub record IsHanded (q : Outgoing) (s : Board) (r : CrossResult) : Type 0 where
    pub o : Orchestrator
    pub who : ℕ
    pub handle : target_handle q.link.to_company s ≡ some o
    pub inbox_agent : resolve_inbox o ≡ some who
    pub target : r.target_agent ≡ some who
    pub sent :
        IsQueued m
          (system_message who (content_of q) q.rid)
          o
          (system_send m who (content_of q) user_request (some q.rid) o).1

  deliver_cross_lem :
      (q : Outgoing) (o : Orchestrator) (who : ℕ) (s : Board) (r : CrossResult)
      → (deliver_cross shown m q o who s).0 ≡ ok r
      → r.status ≡ cross_delivered
      → ((system_send m who (content_of q) user_request (some q.rid) o).0 ≡ ok queued)
        × (r.target_agent ≡ some who)
  unfolding deliver_cross hand_over
  deliver_cross_lem q o who s r h z =
      go (system_send m who (content_of q) user_request (some q.rid) o) h
    where
      go :
          (x : Result OrchestratorError SendResult × Orchestrator)
          → (let out : Result CrossError CrossResult × Board = elim x.0 [
            | err _ ↦
                record_and_emit m.now q
                  (some who)
                  cross_rejected
                  (some delivery_error)
                  (put_orchestrator q.link.to_company x.1 s)
            | ok result ↦
                record_and_emit m.now q
                  (some who)
                  (map_result result)
                  (reason_of result)
                  (put_orchestrator q.link.to_company x.1 s)
          ] in
              out.0)
            ≡ ok r
          → (x.0 ≡ ok queued) × (r.target_agent ≡ some who)
      go (err e, o') k =
          let w =
            recorded m.now q (some who) cross_rejected (some delivery_error)
              (put_orchestrator q.link.to_company o' s) r k in
          absurd (rejected≢delivered (w.0 ∙ z))
      go (ok result, o') k =
          let w =
            recorded m.now q (some who) (map_result result) (reason_of result)
              (put_orchestrator q.link.to_company o' s) r k in
          (ap ok (delivered_queued result (w.0 ∙ z)), sym w.1)

  pub route_lem :
      (q : Outgoing) (s : Board) (r : CrossResult)
      → (route shown m q s).0 ≡ ok r
      → r.status ≡ cross_delivered
      → IsHanded q s r
  unfolding route
  route_lem q s r h z = go (target_handle q.link.to_company s) refl h
    where
      to_agent :
          (o : Orchestrator) (x : Option ℕ)
          → target_handle q.link.to_company s ≡ some o
          → resolve_inbox o ≡ x
          → (let out : Result CrossError CrossResult × Board = elim x [
            | none ↦ record_and_emit m.now q none cross_rejected (some no_inbox_agent) s
            | some who ↦ deliver_cross shown m q o who s
          ] in
              out.0)
            ≡ ok r
          → IsHanded q s r
      to_agent o none e f k =
          let w = recorded m.now q none cross_rejected (some no_inbox_agent) s r k in
          absurd (rejected≢delivered (w.0 ∙ z))
      to_agent o (some who) e f k =
          let (a, b) = deliver_cross_lem q o who s r k z in
          record {
            o = o;
            who = who;
            handle = e;
            inbox_agent = f;
            target = b;
            sent = system_send-IsQueued m who (content_of q) q.rid o a;
          }

      go :
          (x : Option Orchestrator)
          → target_handle q.link.to_company s ≡ x
          → (let out : Result CrossError CrossResult × Board = elim x [
            | none ↦ (err target_unavailable, s)
            | some o ↦ elim (resolve_inbox o) [
              | none ↦ record_and_emit m.now q none cross_rejected (some no_inbox_agent) s
              | some who ↦ deliver_cross shown m q o who s
            ]
          ] in
              out.0)
            ≡ ok r
          → IsHanded q s r
      go none e k = absurd (err≢ok k)
      go (some o) e k = to_agent o (resolve_inbox o) e refl k
