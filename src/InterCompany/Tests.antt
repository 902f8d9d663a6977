-- ===== src/InterCompany/Tests.antt =====
-- Two companies, 10 and 20, with a link from the first to the second, whose HR is agent 1.
use agent_company_factory.Clock.Model.{running, paused, Clock, is_accepting_messages}
use agent_company_factory.Identity.Model.{hr, active, integrity, Agent, all}
use agent_company_factory.InterCompany.Flushing.{deliver_pending_lem}
use agent_company_factory.InterCompany.Links.{write_status, revoke, revoke_rows, revoke_for_company}
use agent_company_factory.InterCompany.Model.{
  link_requested, link_approved, link_revoked, peer, inquiry, cross_delivered, company_active, Link,
  CrossMessage, CrossEntry, CrossResult, integrity, CrossError, Board, link_id_of, entry_id_of,
}
use agent_company_factory.InterCompany.Pending.{
  waits_for, update_status, retry, deliver_entry, deliver_entries, deliver_pending,
}
use agent_company_factory.InterCompany.Rate.{
  expire_stamps, pass_rate, enforce_rate, passing, passing_lem,
}
use agent_company_factory.InterCompany.Routing.{IsCarried, send_cross_lem}
use agent_company_factory.InterCompany.Sanitize.{
  is_control, cut, strip_controls, sanitize, sanitize_lem,
}
use agent_company_factory.InterCompany.Service.{
  lookup_link, refuse_link, target_handle, resolve_inbox, map_result, put_orchestrator, hand_over,
  record_and_emit, deliver_cross, route, send_cross,
}
use agent_company_factory.InterCompany.Stuck.{revoke_stuck}
use agent_company_factory.Orchestrator.LoopDetector.{default_loop_config}
use agent_company_factory.Orchestrator.Model.{idle, Text, HealthSignals}
use agent_company_factory.Orchestrator.Queue.{empty_queue, push, has_correlation}
use agent_company_factory.Orchestrator.RateLimit.{token}
use agent_company_factory.Orchestrator.Send.{
  utf8_length, Moment, persist_envelope, accept, send_with, system_send,
}
use agent_company_factory.Orchestrator.State.{AgentHandle, Orchestrator, is_active_agent}
use agent_company_factory.Prelude.{
  is_none, count, All, ℕ, ◌+◌, ◌*◌, ◌≤◌, ◌<◌, ◌≡◌, refl, ◌⊎◌, true, false, Option, none, some, [],
  ◌∷◌, map, arith,
}
use agent_company_factory.Prelude.Action.{Result, ok, err}
use agent_company_factory.Prelude.Keyed.{lookup, IsKeyed}

abbrev row : ℕ → Option ℕ → Agent
row n above = record {
  id = n;
  role = hr;
  persona_ref = "p";
  reports_to = above;
  status = active;
  hired_at = 0;
  first_name = "A";
  last_name = "B";
  role_title = none;
  role_description = none;
  fired_at = none;
  fired_by = none;
  fire_reason = none;
}

abbrev clock_on : Clock
clock_on = record {
  fields = record {
    state = running;
    epoch_real = 0;
    epoch_company = 0;
    paused_total = 0;
    pause_started_at = none;
    last_day_ticked = 0;
  };
  last_company_time = none;
  row = none;
  events = [];
}

abbrev signals_of : ℕ → ℕ → HealthSignals
signals_of failed misread = record {
  last_heartbeat = 0;
  consecutive_errors = failed;
  parse_failures = misread;
  repeat_response_count = 0;
  total_turns = 4;
}

abbrev handle : ℕ → AgentHandle
handle n = record { id = n; status = idle; signals = signals_of 0 0 }

abbrev office : Orchestrator
office = record {
  identity = row 1 none ∷ [];
  clock = clock_on;
  queue = empty_queue;
  rate = record {
    cfg = record { capacity = 60 * token; refill_rate = 1000; system_exempt = true };
    buckets = [];
  };
  loops = record {
    cfg = default_loop_config;
    edges = λ _. [];
    pair_edges = λ _ _. [];
    contents = λ _. [];
  };
  idle_cfg = record { enabled = true; agent_idle_after = 600; nudge_cooldown = 300 };
  agents = handle 1 ∷ [];
  loop_strikes = λ _. 0;
  suspended = [];
  last_message_at = 0;
  blocked_since = [];
  last_health_alert = λ _. none;
  last_activity_at = λ _. none;
  last_nudge_at = λ _. none;
  inbox = λ _. [];
  events = [];
}

abbrev moment : ℕ → Moment
moment n = record { now = 100 + n; monotonic = n; fresh = n }

abbrev link_10 : Link
link_10 = record {
  id = 3;
  from_company = 10;
  to_company = 20;
  relationship = peer;
  scope = record {
    allowed_messages = inquiry ∷ [];
    rate_limit_per_hour = 2;
    max_payload_bytes = 64;
  };
  status = link_approved;
  requested_by = 9;
  requested_at = 0;
  decided_by = some 9;
  decided_at = some 0;
  note = none;
}

abbrev board_of : Orchestrator → Board
board_of o = record {
  companies =
      record { id = 10; status = company_active; handle = none }
      ∷ record { id = 20; status = company_active; handle = some o }
      ∷ [];
  links = link_10 ∷ [];
  buckets = λ _. [];
  outbox = [];
  mirrored = [];
}

abbrev question : CrossMessage
question = record { kind = inquiry; subject = 104 ∷ 7 ∷ 105 ∷ []; body = 63 ∷ []; metadata = "{}" }

abbrev shown_as : ℕ → Text
shown_as n = (48 + n) ∷ []

abbrev sent : Result CrossError CrossResult × Board
sent = send_cross shown_as (moment 1) 3 5 10 question 77 (board_of office)

abbrev receipt : CrossResult
receipt = record {
  id = 77;
  link_id = 3;
  status = cross_delivered;
  target_agent = some 1;
  reason = none;
}

is_sent : sent.0 ≡ ok receipt
unfolding send_cross lookup_link refuse_link enforce_rate pass_rate expire_stamps route
    target_handle resolve_inbox all deliver_cross hand_over map_result record_and_emit sanitize
    strip_controls cut system_send send_with is_active_agent is_accepting_messages accept
    has_correlation persist_envelope push
is_sent = refl

send_cross_lem_example : IsCarried shown_as (moment 1) 3 5 10 question 77 (board_of office) receipt
send_cross_lem_example =
    send_cross_lem shown_as (moment 1) 3 5 10 question 77 (board_of office) receipt is_sent refl

-- While the clock stands still the message waits; afterwards it is delivered.
abbrev office_paused : Orchestrator
office_paused = record office {
  clock = record clock_on { fields = record clock_on.fields { state = paused } };
}

abbrev waiting_board : Board
waiting_board = (send_cross shown_as (moment 1) 3 5 10 question 77 (board_of office_paused)).1

abbrev reopened : Board
reopened = put_orchestrator 20 office waiting_board

waiting-IsKeyed : IsKeyed entry_id_of reopened.outbox
unfolding send_cross lookup_link refuse_link enforce_rate pass_rate expire_stamps route
    target_handle resolve_inbox all deliver_cross hand_over map_result record_and_emit sanitize
    strip_controls cut system_send send_with is_active_agent is_accepting_messages
waiting-IsKeyed = (refl, tt)

waiting_linked :
    All
      (λ (e : CrossEntry). is_none (lookup link_id_of e.link_id reopened.links) ≡ false)
      reopened.outbox
unfolding send_cross lookup_link refuse_link enforce_rate pass_rate expire_stamps route
    target_handle resolve_inbox all deliver_cross hand_over map_result record_and_emit sanitize
    strip_controls cut system_send send_with is_active_agent is_accepting_messages
waiting_linked = (refl, tt)

deliver_pending_lem_example :
    let (r, t) = deliver_pending shown_as (λ _. moment 2) 20 reopened in
    (n : ℕ) × (r ≡ ok n)
    × (count (waits_for 20) t.outbox + n ≡ count (waits_for 20) reopened.outbox)
deliver_pending_lem_example =
    deliver_pending_lem shown_as (λ _. moment 2) 20 reopened waiting-IsKeyed waiting_linked

flushed_one : (deliver_pending shown_as (λ _. moment 2) 20 reopened).0 ≡ ok 1
unfolding deliver_pending deliver_entries deliver_entry retry update_status send_cross lookup_link
    refuse_link enforce_rate pass_rate expire_stamps route target_handle resolve_inbox all
    deliver_cross hand_over map_result record_and_emit sanitize strip_controls cut system_send
    send_with is_active_agent is_accepting_messages accept has_correlation persist_envelope push
flushed_one = refl

-- A link between the two companies that was revoked before.
abbrev old_link : Link
old_link = record link_10 { id = 2; status = link_revoked }

abbrev with_old : Board
with_old = record (board_of office) { links = old_link ∷ link_10 ∷ [] }

revoke_stuck_example :
    (revoke 50 3 9 "why" with_old ≡ (err integrity, with_old))
    × (revoke_for_company 50 20 9 with_old ≡ (err integrity, with_old))
revoke_stuck_example =
    revoke_stuck 50 9 link_10 20 "why" with_old (refl, (refl, tt)) refl refl refl refl

-- A link that is only requested outlives the closing of its company.
still_requested :
    map
      (λ (l : Link). l.status)
      (revoke_for_company 50 20 9 (record (board_of office) {
        links = record link_10 { status = link_requested } ∷ [];
      })).1.links
    ≡ link_requested ∷ []
unfolding revoke_for_company revoke_rows write_status
still_requested = refl

passing_lem_example :
    ((0 < link_10.scope.rate_limit_per_hour)
      × (passing link_10 (5 ∷ 6 ∷ 7 ∷ []) (board_of office) ≤ link_10.scope.rate_limit_per_hour))
    ⊎ ((link_10.scope.rate_limit_per_hour ≡ 0)
        × (passing link_10 (5 ∷ 6 ∷ 7 ∷ []) (board_of office) ≡ 3))
passing_lem_example =
    passing_lem link_10 5 (5 ∷ 6 ∷ 7 ∷ []) (board_of office)
      ((omega arith, omega arith), ((omega arith, omega arith), ((omega arith, omega arith), tt)))
      refl

-- Two of three pass at the limit 2, and all where the limit is 0.
two_pass :
    (passing link_10 (5 ∷ 6 ∷ 7 ∷ []) (board_of office) ≡ 2)
    × (passing
          (record link_10 { scope = record (link_10.scope) { rate_limit_per_hour = 0 } })
          (5 ∷ 6 ∷ 7 ∷ [])
          (board_of office)
        ≡ 3)
unfolding passing enforce_rate pass_rate expire_stamps
two_pass = (refl, refl)

sanitize_lem_example :
    (utf8_length (sanitize 3 (104 ∷ 7 ∷ 233 ∷ 233 ∷ [])) ≤ 3)
    × All (λ c. is_control c ≡ false) (sanitize 3 (104 ∷ 7 ∷ 233 ∷ 233 ∷ []))
    × (sanitize 3 (sanitize 3 (104 ∷ 7 ∷ 233 ∷ 233 ∷ [])) ≡ sanitize 3 (104 ∷ 7 ∷ 233 ∷ 233 ∷ []))
sanitize_lem_example = sanitize_lem 3 (104 ∷ 7 ∷ 233 ∷ 233 ∷ [])
