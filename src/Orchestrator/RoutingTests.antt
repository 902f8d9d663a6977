-- ===== src/Orchestrator/RoutingTests.antt =====
-- A company with a CEO, 1, and a worker, 2, that both run.
use agent_company_factory.Prelude.{
  leb, length, count, ℕ, ◌+◌, ◌*◌, ◌≤◌, ◌≡◌, refl, true, false, Option, none, some, [], ◌∷◌, map,
  arith,
}
use agent_company_factory.Prelude.Action.{Result, ok, is_ok}
use agent_company_factory.Identity.Model.{member, active, Agent}
use agent_company_factory.Clock.Model.{running, Clock, is_accepting_messages}
use agent_company_factory.Orchestrator.Model.{
  agent_message, idle, SendResult, queued, OrchestratorError, Text, MessageEnvelope, DeadLetter,
  HealthSignals, at,
}
use agent_company_factory.Orchestrator.Queue.{
  empty_queue, enqueue, push, pop, pending_count, has_correlation, to_dlq,
}
use agent_company_factory.Orchestrator.RateLimit.{
  token, put, refill, take_tokens, bucket_for, try_consume,
}
use agent_company_factory.Orchestrator.LoopDetector.{
  word_set, words_of, similar, default_loop_config, is_hammering, is_pingpong, record_edge,
  record_content, check,
}
use agent_company_factory.Orchestrator.State.{
  AgentHandle, Orchestrator, is_active_agent, is_registered, is_suspended,
}
use agent_company_factory.Orchestrator.Send.{
  max_content_bytes, utf8_length, Moment, Message, new_envelope, sender_key, is_duplicate,
  persist_envelope, accept, check_loop, token_cost, check_rate, send_with, system_send, send,
}
use agent_company_factory.Orchestrator.IdleSweep.{
  nudge, is_due_nudge, nudge_agent, nudge_agents, idle_sweep,
}
use agent_company_factory.Orchestrator.Health.{compute_score, is_unhealthy}
use agent_company_factory.Orchestrator.Dispatch.{Deliver, dispatch, serve, round, drain}
use agent_company_factory.Orchestrator.Turns.{IsServing, is_for, load, IsRouted-at}
use agent_company_factory.Orchestrator.Draining.{drain_lem}
use agent_company_factory.Orchestrator.Sending.{send_queued}
use agent_company_factory.Orchestrator.Nudges.{idle_sweep_twice}
use agent_company_factory.Orchestrator.Scores.{grounds_for, is_unhealthy_lem}

abbrev row : ℕ → Option ℕ → Agent
row n above = record {
  id = n;
  role = member;
  persona_ref = "p";
  reports_to = above;
  status = active;
  hired_at = 0;
  first_name = "A";
  last_name = "B";
  role_title = none;
  role_description = none;
  fired_at = none;
  fired_by = none;
  fire_reason = none;
}

abbrev clock_on : Clock
clock_on = record {
  fields = record {
    state = running;
    epoch_real = 0;
    epoch_company = 0;
    paused_total = 0;
    pause_started_at = none;
    last_day_ticked = 0;
  };
  last_company_time = none;
  row = none;
  events = [];
}

abbrev signals_of : ℕ → ℕ → HealthSignals
signals_of failed misread = record {
  last_heartbeat = 0;
  consecutive_errors = failed;
  parse_failures = misread;
  repeat_response_count = 0;
  total_turns = 4;
}

abbrev handle : ℕ → AgentHandle
handle n = record { id = n; status = idle; signals = signals_of 0 0 }

abbrev company : Orchestrator
company = record {
  identity = row 1 none ∷ row 2 (some 1) ∷ [];
  clock = clock_on;
  queue = empty_queue;
  rate = record {
    cfg = record { capacity = 60 * token; refill_rate = 1000; system_exempt = true };
    buckets = [];
  };
  loops = record {
    cfg = default_loop_config;
    edges = λ _. [];
    pair_edges = λ _ _. [];
    contents = λ _. [];
  };
  idle_cfg = record { enabled = true; agent_idle_after = 600; nudge_cooldown = 300 };
  agents = handle 1 ∷ handle 2 ∷ [];
  loop_strikes = λ _. 0;
  suspended = [];
  last_message_at = 0;
  blocked_since = [];
  last_health_alert = λ _. none;
  last_activity_at = λ _. none;
  last_nudge_at = λ _. none;
  inbox = λ _. [];
  events = [];
}

abbrev moment : ℕ → Moment
moment n = record { now = 100 + n; monotonic = n; fresh = n }

abbrev word : Text
word = 104 ∷ 105 ∷ []

abbrev sent : Result OrchestratorError SendResult × Orchestrator
sent = send (moment 1) (moment 2) word 1 2 word (some 5) agent_message company

abbrev letter : Message
letter = record {
  from_agent = some 1;
  to_agent = 2;
  content = word;
  correlation_id = some 5;
  kind = agent_message;
}

is_sent : sent.0 ≡ ok queued
unfolding send send_with is_active_agent is_accepting_messages check_rate try_consume take_tokens
    refill bucket_for put check_loop check record_edge is_hammering is_pingpong record_content
    similar words_of word_set accept has_correlation persist_envelope push
is_sent = refl

send_queued_example :
    let t = sent.1 in
    (utf8_length word ≤ max_content_bytes)
    × (is_active_agent 1 company ≡ true)
    × (is_active_agent 2 company ≡ true)
    × (is_suspended 2 company ≡ false)
    × (is_registered 2 company ≡ true)
    × (is_accepting_messages company.clock ≡ true)
    × ((try_consume (sender_key (some 1)) token_cost (moment 1).monotonic company.rate).0 ≡ true)
    × ((check (some 1) 2 word company.loops).0 ≡ none)
    × (is_duplicate letter company ≡ false)
    × (t.queue ≡ enqueue (new_envelope (moment 1) letter) company.queue)
    × (t.inbox ≡ company.inbox)
send_queued_example =
    send_queued (moment 1) (moment 2) word 1 2 word (some 5) agent_message company is_sent

-- Three envelopes for 2, the second with a content that cannot be delivered.
abbrev envelope : ℕ → Text → MessageEnvelope
envelope n text = record {
  msg_id = n;
  from_agent = some 1;
  to_agent = 2;
  content = text;
  kind = agent_message;
  correlation_id = none;
  enqueued_at = n;
  attempts = 0;
}

abbrev waiting : Orchestrator
waiting = record company {
  queue = record empty_queue {
    queues = at 2 (envelope 1 word ∷ envelope 2 [] ∷ envelope 3 word ∷ []) (λ _. []);
  };
}

abbrev refuse_empty : Deliver
refuse_empty a env = elim env.content [ [] ↦ some "empty" | _ ∷ _ ↦ none ]

is_on : is_accepting_messages clock_on ≡ true
unfolding is_accepting_messages
is_on = refl

waiting-IsServing : IsServing waiting
waiting-IsServing = record {
  available = refl;
  accepting = is_on;
  routed =
      IsRouted-at 2 (envelope 1 word ∷ envelope 2 [] ∷ envelope 3 word ∷ []) (λ _. [])
        ((refl, omega arith), ((refl, omega arith), ((refl, omega arith), tt))) (λ b. tt);
}

three_wait : 3 * pending_count 2 waiting.queue ≤ 9
unfolding pending_count
three_wait = omega arith

drain_lem_example :
    let (r, t) = drain refuse_empty 50 9 waiting in
    (is_ok r ≡ true)
    × (pending_count 2 t.queue ≡ 0)
    × (length (t.inbox 2) + count (is_for 2) t.queue.dead ≡ load 2 waiting)
drain_lem_example = drain_lem refuse_empty 50 9 2 waiting waiting-IsServing refl three_wait

-- Two are delivered; the other is a dead letter after its third attempt.
two_delivered :
    (length ((drain refuse_empty 50 9 waiting).1.inbox 2) ≡ 2)
    × (map (λ (d : DeadLetter). d.envelope.attempts) (drain refuse_empty 50 9 waiting).1.queue.dead
        ≡ 2 ∷ [])
unfolding drain round serve dispatch pop push to_dlq is_accepting_messages
two_delivered = (refl, refl)

abbrev shown_as : ℕ → Text
shown_as n = (48 + n) ∷ []

idle_sweep_twice_example :
    let t = (idle_sweep (λ _. moment 900) shown_as 1000 company).1 in
    idle_sweep (λ _. moment 900) shown_as 1000 t ≡ (0, t)
idle_sweep_twice_example =
    idle_sweep_twice (λ _. moment 900) shown_as 1000 company (λ a. omega arith) (omega arith)

-- The first sweep nudges one of the two: its notice reaches the manager as a message.
one_notice : (idle_sweep (λ _. moment 900) shown_as 1000 company).0 ≡ 1
unfolding idle_sweep nudge_agents nudge_agent is_due_nudge nudge system_send send_with
    is_active_agent is_accepting_messages accept persist_envelope push has_correlation
one_notice = refl

-- Four errors in a row and three parse failures in four turns leave a little less than the cut-off.
scored : (compute_score (signals_of 4 3) 0).0 ≡ 7205759403792793
unfolding compute_score
scored = refl

is_unhealthy_lem_example :
    is_unhealthy (signals_of 4 3) 0 ≡ leb 2 (count (λ b. b) (grounds_for 0 (signals_of 4 3)))
is_unhealthy_lem_example = is_unhealthy_lem (signals_of 4 3) 0

-- An envelope that cannot be delivered while the queue is down is neither queued nor a dead letter.
abbrev offline : Orchestrator
offline = record company {
  queue = record empty_queue { queues = at 2 (envelope 2 [] ∷ []) (λ _. []); available = false };
}

lost_offline :
    (is_ok (drain refuse_empty 50 9 offline).0 ≡ false)
    × (load 2 (drain refuse_empty 50 9 offline).1 ≡ 0)
unfolding drain round serve dispatch pop push to_dlq is_accepting_messages
lost_offline = (refl, refl)
