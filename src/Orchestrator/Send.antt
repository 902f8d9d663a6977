-- ===== src/Orchestrator/Send.antt =====
-- `send`, `system_send` and `_send` of modules/orchestrator/orchestrator.py.
use agent_company_factory.Prelude.{
  ltb, if◌then◌else◌, ℕ, suc, ◌+◌, Bool, true, false, not, ◌||◌, Option, none, some, [], ◌∷◌, ◌++◌,
}
use agent_company_factory.Prelude.Action.{ok, err, Action}
use agent_company_factory.Identity.Reason.{codes}
use agent_company_factory.Clock.Model.{shown, is_accepting_messages}
use agent_company_factory.Orchestrator.Model.{
  MessageKind, notify, SendResult, queued, rejected_paused, rejected_rate_limit, rejected_loop,
  rejected_invalid_target, rejected_duplicate, rejected_too_large, OrchestratorError, Text,
  MessageEnvelope, warn, queue_unavailable, health_alert, message_sent, at,
}
use agent_company_factory.Orchestrator.Queue.{push, has_correlation}
use agent_company_factory.Orchestrator.LoopDetector.{check}
use agent_company_factory.Orchestrator.RateLimit.{token, try_consume}
use agent_company_factory.Orchestrator.State.{
  Orchestrator, emit, is_active_agent, is_registered, is_suspended, handle_loop,
}

abbrev pub Send : Type 0 → Type 0
Send A = Action Orchestrator OrchestratorError A

abbrev pub max_content_bytes : ℕ
max_content_bytes = 262144

-- The length of the UTF-8 encoding.
abbrev pub utf8_length : Text → ℕ
utf8_length [] = 0
utf8_length (c ∷ t) =
    (if ltb c 128 then 1 else if ltb c 2048 then 2 else if ltb c 65536 then 3 else 4)
    + utf8_length t

-- What one call draws from outside: the wall clock, the monotonic clock in microseconds, and a fresh
-- identifier for its envelope.
pub record Moment : Type 0 where
  pub now : ℕ
  pub monotonic : ℕ
  pub fresh : ℕ

pub record Message : Type 0 where
  pub from_agent : Option ℕ
  pub to_agent : ℕ
  pub content : Text
  pub correlation_id : Option ℕ
  pub kind : MessageKind

-- `MessageEnvelope.new`
abbrev pub new_envelope : Moment → Message → MessageEnvelope
new_envelope m r = record {
  msg_id = m.fresh;
  from_agent = r.from_agent;
  to_agent = r.to_agent;
  content = r.content;
  kind = r.kind;
  correlation_id = r.correlation_id;
  enqueued_at = m.now;
  attempts = 0;
}

-- The key in the rate limiter: `from_agent or "?"`.
abbrev pub sender_key : Option ℕ → ℕ
sender_key none = 0
sender_key (some a) = suc a

abbrev pub answer : SendResult → Send SendResult
answer r s = (ok r, s)

abbrev pub is_duplicate : Message → Orchestrator → Bool
is_duplicate r s = elim r.correlation_id [
  | none ↦ false
  | some c ↦ has_correlation r.to_agent c s.queue
]

abbrev pub touch : Option ℕ → ℕ → (ℕ → Option ℕ) → ℕ → Option ℕ
touch none now f = f
touch (some a) now f = at a (some now) f

-- Step 8: the envelope is pushed, the event appended.
unfoldable pub persist_envelope : Moment → Message → Send SendResult
unfolding push
persist_envelope m r s =
    let (pushed, q) = push (new_envelope m r) s.queue in
    elim pushed [
      | err e ↦ (
        err e,
        emit (health_alert r.to_agent warn queue_unavailable r.from_agent) (record s { queue = q }),
      )
      | ok _ ↦ (
        ok queued,
        record (emit (message_sent r.from_agent r.to_agent r.content r.correlation_id)
            (record s { queue = q })) {
              last_message_at = m.now;
              last_activity_at = touch r.from_agent m.now s.last_activity_at;
            },
      )
    ]

-- Steps 7 and 8.
unfoldable pub accept : Moment → Message → Send SendResult
accept m r s = if is_duplicate r s then (ok rejected_duplicate, s) else persist_envelope m r s

-- Step 6, for traffic of agents.
unfoldable pub check_loop : Moment → Message → Send SendResult
check_loop m r s =
    let (looped, d) = check r.from_agent r.to_agent r.content s.loops in
    let s' : Orchestrator = record s { loops = d } in
    elim looped [
      | some kind ↦ (ok rejected_loop, handle_loop r.to_agent kind s')
      | none ↦ accept m r s'
    ]

abbrev pub token_cost : ℕ
token_cost = token

-- Step 5, for traffic of agents; `slow_down` tells the sender of a refusal.
unfoldable pub check_rate : (ℕ → Orchestrator → Orchestrator) → Moment → Message → Send SendResult
check_rate slow_down m r s =
    let (granted, limiter) = try_consume (sender_key r.from_agent) token_cost m.monotonic s.rate in
    let s' : Orchestrator = record s { rate = limiter } in
    if granted
    then check_loop m r s'
    else (ok rejected_rate_limit, elim r.from_agent [ none ↦ s' | some a ↦ slow_down a s' ])

abbrev pub sender_inactive : Message → Orchestrator → Bool
sender_inactive r s = elim r.from_agent [ none ↦ false | some a ↦ not (is_active_agent a s) ]

-- `Orchestrator._send`; `on_invalid` tells the sender that the recipient cannot be reached and may raise,
-- `slow_down` that it sends too much.
unfoldable pub send_with :
    (ℕ → Send SendResult)
    → (ℕ → Orchestrator → Orchestrator)
    → Bool
    → Moment
    → Message
    → Send SendResult
send_with on_invalid slow_down system m r s =
    if ltb max_content_bytes (utf8_length r.content)
    then (ok rejected_too_large, s)
    else if sender_inactive r s
    then (ok rejected_invalid_target, s)
    else if not (is_active_agent r.to_agent s) || is_suspended r.to_agent s
    then elim r.from_agent [
      | none ↦ (ok rejected_invalid_target, s)
      | some a ↦
          let (told, s') = on_invalid a s in
          elim told [ err e ↦ (err e, s') | ok _ ↦ (ok rejected_invalid_target, s') ]
    ]
    else if not (is_registered r.to_agent s)
    then (ok rejected_invalid_target, s)
    else if not (is_accepting_messages s.clock)
    then (ok rejected_paused, s)
    else if system
    then accept m r s
    else check_rate slow_down m r s

-- `Orchestrator.system_send`: with no sender and no rate limit it gives no notice itself.
unfoldable pub system_send : Moment → ℕ → Text → MessageKind → Option ℕ → Send SendResult
unfolding send_with
system_send m to content kind correlation =
    send_with (λ _. answer rejected_invalid_target) (λ _ s. s) true m
      (record {
        from_agent = none;
        to_agent = to;
        content = content;
        correlation_id = correlation;
        kind = kind;
      })

-- The text of `_notify_sender_invalid` names the recipient by `shown`.
unfoldable pub notify_sender_invalid : Moment → Text → ℕ → Send SendResult
unfolding system_send
notify_sender_invalid m shown sender =
    system_send m sender (codes "Recipient " ++ shown ++ codes " is not deliverable.") notify none

-- `_notify_slow_down`, whose exceptions are suppressed.
unfoldable pub notify_slow_down : Moment → ℕ → Orchestrator → Orchestrator
unfolding system_send
notify_slow_down m a s = (system_send m a (codes "rate limit reached, slow down") notify none s).1

-- `Orchestrator.send`; `m'` is drawn for the notice, and `shown` is the recipient's identifier as text.
unfoldable pub send :
    Moment → Moment → Text → ℕ → ℕ → Text → Option ℕ → MessageKind → Send SendResult
unfolding notify_sender_invalid notify_slow_down send_with
send m m' shown sender to content correlation kind =
    send_with (notify_sender_invalid m' shown) (notify_slow_down m') false m (record {
      from_agent = some sender;
      to_agent = to;
      content = content;
      correlation_id = correlation;
      kind = kind;
    })
