-- ===== src/Orchestrator/Sending.antt =====
-- What a message has passed when `send` accepts it, and what its acceptance does.
use agent_company_factory.Prelude.{
  ◌==◌, if◌then◌else◌, eq_of_==, length, count, ℕ, ◌+◌, ◌≤◌, ◌≡◌, ap, ◌∙◌, true, false, Option,
  none, some, [], ◌∷◌, ◌++◌, arith,
}
use agent_company_factory.Prelude.Action.{ok}
use agent_company_factory.Clock.Model.{shown, is_accepting_messages}
use agent_company_factory.Orchestrator.Model.{MessageKind, queued, Text, at}
use agent_company_factory.Orchestrator.Queue.{enqueue, push}
use agent_company_factory.Orchestrator.LoopDetector.{check}
use agent_company_factory.Orchestrator.RateLimit.{try_consume}
use agent_company_factory.Orchestrator.State.{
  Orchestrator, is_active_agent, is_registered, is_suspended,
}
use agent_company_factory.Orchestrator.Send.{
  max_content_bytes, utf8_length, Moment, Message, new_envelope, sender_key, is_duplicate,
  persist_envelope, accept, check_loop, token_cost, check_rate, send_with, notify_slow_down, send,
}
use agent_company_factory.Orchestrator.Turns.{is_for, load, length-snoc}

persist_queued :
    (m : Moment) (r : Message) (s : Orchestrator)
    → (persist_envelope m r s).0 ≡ ok queued
    → ((persist_envelope m r s).1.queue ≡ enqueue (new_envelope m r) s.queue)
      × ((persist_envelope m r s).1.inbox ≡ s.inbox)
unfolding persist_envelope push
persist_queued m r s h = ground arith

pub accept_queued :
    (m : Moment) (r : Message) (s : Orchestrator)
    → (accept m r s).0 ≡ ok queued
    → (is_duplicate r s ≡ false)
      × ((accept m r s).1.queue ≡ enqueue (new_envelope m r) s.queue)
      × ((accept m r s).1.inbox ≡ s.inbox)
unfolding accept
accept_queued m r s h = ground (arith, persist_queued m r s)

check_loop_queued :
    (m : Moment) (r : Message) (s : Orchestrator)
    → (check_loop m r s).0 ≡ ok queued
    → ((check r.from_agent r.to_agent r.content s.loops).0 ≡ none)
      × (is_duplicate r s ≡ false)
      × ((check_loop m r s).1.queue ≡ enqueue (new_envelope m r) s.queue)
      × ((check_loop m r s).1.inbox ≡ s.inbox)
unfolding check_loop
check_loop_queued m r s h =
    let s' : Orchestrator = record s {
      loops = (check r.from_agent r.to_agent r.content s.loops).1;
    } in
    ground (arith, accept_queued m r s')

check_rate_queued :
    (slow_down : ℕ → Orchestrator → Orchestrator) (m : Moment) (r : Message) (s : Orchestrator)
    → (check_rate slow_down m r s).0 ≡ ok queued
    → ((try_consume (sender_key r.from_agent) token_cost m.monotonic s.rate).0 ≡ true)
      × ((check r.from_agent r.to_agent r.content s.loops).0 ≡ none)
      × (is_duplicate r s ≡ false)
      × ((check_rate slow_down m r s).1.queue ≡ enqueue (new_envelope m r) s.queue)
      × ((check_rate slow_down m r s).1.inbox ≡ s.inbox)
unfolding check_rate
check_rate_queued slow_down m r s h =
    let s' : Orchestrator = record s {
      rate = (try_consume (sender_key r.from_agent) token_cost m.monotonic s.rate).1;
    } in
    ground (arith, check_loop_queued m r s')

-- The envelope is the last one in its recipient's queue, which counts as one message more for it.
pub load-enqueue :
    (m : Moment) (r : Message) (s t : Orchestrator) (b : ℕ)
    → t.queue ≡ enqueue (new_envelope m r) s.queue
    → t.inbox ≡ s.inbox
    → load b t ≡ load b s + (if b == r.to_agent then 1 else 0)
load-enqueue m r s t b e f =
    ap (λ q. length (q.queues b) + (length (t.inbox b) + count (is_for b) q.dead)) e
    ∙ ap
        (λ i.
          length
            (at r.to_agent (s.queue.queues r.to_agent ++ new_envelope m r ∷ []) s.queue.queues b)
          + (length (i b) + count (is_for b) s.queue.dead))
        f
    ∙ ground
        (arith, length-snoc (s.queue.queues r.to_agent) (new_envelope m r), eq_of_== b r.to_agent)

-- A message of an agent that is queued was not too large, came from an active agent, went to another
-- one that is active, registered and not suspended, while the company took messages; its sender had a
-- token, no loop was seen, and its correlation is new to the recipient. It is now the last in the
-- recipient's queue, and no other queue has changed.
pub send_queued :
    (m m' : Moment) (shown : Text) (sender to : ℕ) (content : Text) (correlation : Option ℕ)
    (kind : MessageKind) (s : Orchestrator)
    → (send m m' shown sender to content correlation kind s).0 ≡ ok queued
    → let r : Message = record {
      from_agent = some sender;
      to_agent = to;
      content = content;
      correlation_id = correlation;
      kind = kind;
    } in
      let t = (send m m' shown sender to content correlation kind s).1 in
      (utf8_length content ≤ max_content_bytes)
      × (is_active_agent sender s ≡ true)
      × (is_active_agent to s ≡ true)
      × (is_suspended to s ≡ false)
      × (is_registered to s ≡ true)
      × (is_accepting_messages s.clock ≡ true)
      × ((try_consume (sender_key (some sender)) token_cost m.monotonic s.rate).0 ≡ true)
      × ((check (some sender) to content s.loops).0 ≡ none)
      × (is_duplicate r s ≡ false)
      × (t.queue ≡ enqueue (new_envelope m r) s.queue)
      × (t.inbox ≡ s.inbox)
unfolding send send_with
send_queued m m' shown sender to content correlation kind s h =
    let r : Message = record {
      from_agent = some sender;
      to_agent = to;
      content = content;
      correlation_id = correlation;
      kind = kind;
    } in
    ground (arith, check_rate_queued (notify_slow_down m') m r s)
