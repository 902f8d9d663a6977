-- ===== src/Orchestrator/Model.antt =====
-- modules/orchestrator/models.py and exceptions.py, and the kinds and statuses of
-- modules/agent_runtime/models.py. Identifiers are numbers; the text of a message is the list of its
-- code points; a time is a number of microseconds.
use agent_company_factory.Prelude.{◌==◌, if◌then◌else◌, exists, ℕ, String, Bool, Option, List}

pub data MessageKind : Type 0 where
  user_request agent_message approval_decided orphan notify : MessageKind

pub data AgentStatus : Type 0 where
  idle working blocked unhealthy stopped : AgentStatus

pub data SendResult : Type 0 where
  queued rejected_paused rejected_rate_limit rejected_loop rejected_invalid_target : SendResult
  rejected_duplicate rejected_too_large : SendResult

pub data OrchestratorError : Type 0 where
  redis_unavailable invalid_target : OrchestratorError

abbrev pub Text : Type 0
Text = List ℕ

pub record MessageEnvelope : Type 0 where
  pub msg_id : ℕ
  pub from_agent : Option ℕ
  pub to_agent : ℕ
  pub content : Text
  pub kind : MessageKind
  pub correlation_id : Option ℕ
  pub enqueued_at : ℕ
  pub attempts : ℕ

pub record IncomingMessage : Type 0 where
  pub content : Text
  pub kind : MessageKind
  pub from_agent : Option ℕ
  pub correlation_id : ℕ

pub record DeadLetter : Type 0 where
  pub envelope : MessageEnvelope
  pub reason : String
  pub moved_at : ℕ

pub record HealthSignals : Type 0 where
  pub last_heartbeat : ℕ
  pub consecutive_errors : ℕ
  pub parse_failures : ℕ
  pub repeat_response_count : ℕ
  pub total_turns : ℕ

pub data Severity : Type 0 where
  info warn high : Severity

-- The notes of `compute_score`; a rate is a fraction.
pub data Note : Type 0 where
  errors : ℕ → Note
  parse_rate repeat_ratio : (part whole : ℕ) → Note
  stale_heartbeat : Note

-- The field `issue` of a health alert.
pub data Issue : Type 0 where
  queue_unavailable loop_structural loop_semantic suspended_loop_strikes deadlock_warning : Issue
  company_stuck idle_nudge : Issue
  unhealthy_for : List Note → Issue
  suspended_for : String → Issue

-- The events with their actors; a sender of its own is `none` where the event says "system".
pub data RouterEvent : Type 0 where
  health_alert : (agent : ℕ) → Severity → Issue → (actor : Option ℕ) → RouterEvent
  message_sent : (sender : Option ℕ) → (to : ℕ) → Text → (thread : Option ℕ) → RouterEvent

-- A dictionary with a default, and a write to it.
abbrev pub at {ℓ} : {A : Type ℓ} → ℕ → A → (ℕ → A) → ℕ → A
at k v f j = if j == k then v else f j

-- Membership in a set of identifiers.
abbrev pub member_of : ℕ → List ℕ → Bool
member_of k = exists (λ j. j == k)
