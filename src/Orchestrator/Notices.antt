-- ===== src/Orchestrator/Notices.antt =====
-- What the notice of an idle sweep changes.
use mathlib.Core.Path.{subst}
use agent_company_factory.Prelude.{
  if◌then◌else◌, Bool-cases, Option-cases, ℕ, ◌-◌, ◌≤◌, ◌≡◌, inl, inr, Option, none, some, arith,
}
use agent_company_factory.Orchestrator.Model.{
  MessageKind, notify, Text, info, idle_nudge, RouterEvent, health_alert,
}
use agent_company_factory.Orchestrator.Queue.{push}
use agent_company_factory.Orchestrator.State.{Orchestrator, emit, is_registered, manager_or_none}
use agent_company_factory.Orchestrator.Send.{
  Moment, Message, persist_envelope, accept, send_with, system_send,
}
use agent_company_factory.Orchestrator.IdleSweep.{minutes_of, manager_text, own_text, nudge}

-- What a system message at `now` leaves of the grounds for nudges: only the last message gets later.
pub record IsLater (now : ℕ) (s t : Orchestrator) : Type 0 where
  pub suspended : t.suspended ≡ s.suspended
  pub idle_cfg : t.idle_cfg ≡ s.idle_cfg
  pub agents : t.agents ≡ s.agents
  pub activity : t.last_activity_at ≡ s.last_activity_at
  pub nudges : t.last_nudge_at ≡ s.last_nudge_at
  pub message : now - t.last_message_at ≤ now - s.last_message_at

abbrev system_message : ℕ → Text → MessageKind → Option ℕ → Message
system_message to content kind correlation = record {
  from_agent = none;
  to_agent = to;
  content = content;
  correlation_id = correlation;
  kind = kind;
}

persist-IsLater :
    (now : ℕ) (m : Moment) (to : ℕ) (content : Text) (kind : MessageKind) (c : Option ℕ)
    (s : Orchestrator)
    → now ≤ m.now
    → IsLater now s (persist_envelope m (system_message to content kind c) s).1
unfolding persist_envelope push
persist-IsLater now m to content kind c s h = ground arith

system_send-IsLater :
    (now : ℕ) (m : Moment) (to : ℕ) (content : Text) (kind : MessageKind) (c : Option ℕ)
    (s : Orchestrator)
    → now ≤ m.now
    → IsLater now s (system_send m to content kind c s).1
unfolding system_send send_with accept
system_send-IsLater now m to content kind c s h =
    ground (arith, persist-IsLater now m to content kind c s)

IsLater-emit :
    (now : ℕ) (e : RouterEvent) (s t : Orchestrator) → IsLater now (emit e s) t → IsLater now s t
IsLater-emit now e s t w = record {
  suspended = w.suspended;
  idle_cfg = w.idle_cfg;
  agents = w.agents;
  activity = w.activity;
  nudges = w.nudges;
  message = w.message;
}

module _ (m : Moment) (shown : ℕ → Text) (a idle_for : ℕ) (s : Orchestrator) where
  abbrev alerted : Orchestrator
  alerted = emit (health_alert a info idle_nudge (some a)) s

  nudge_self :
      manager_or_none a s ≡ none
      → (system_send m a (own_text (minutes_of idle_for)) notify none alerted).1
        ≡ nudge m shown a idle_for s
  unfolding nudge
  nudge_self e = ground arith

  nudge_manager :
      (mgr : ℕ)
      → manager_or_none a s ≡ some mgr
      → (if is_registered mgr s
          then (system_send m mgr
              (manager_text (shown a) (minutes_of idle_for))
              notify
              none
              alerted).1
          else (system_send m a (own_text (minutes_of idle_for)) notify none alerted).1)
        ≡ nudge m shown a idle_for s
  unfolding nudge
  nudge_manager mgr e = ground arith

  pub nudge-IsLater : (now : ℕ) → now ≤ m.now → IsLater now s (nudge m shown a idle_for s)
  nudge-IsLater now h =
      let e = health_alert a info idle_nudge (some a) in
      let sent = λ (to : ℕ) (text : Text).
        IsLater-emit now e s (system_send m to text notify none alerted).1
          (system_send-IsLater now m to text notify none alerted h) in
      let own = sent a (own_text (minutes_of idle_for)) in
      elim (Option-cases (manager_or_none a s)) [
        | inl q ↦ subst (IsLater now s) (nudge_self q) own
        | inr (mgr, q) ↦
            subst (IsLater now s) (nudge_manager mgr q) (elim (Bool-cases (is_registered mgr s)) [
              | inl z ↦ rw z (sent mgr (manager_text (shown a) (minutes_of idle_for)))
              | inr z ↦ rw z own
            ])
      ]
