-- ===== src/Orchestrator/State.antt =====
-- The state of `Orchestrator` (modules/orchestrator/orchestrator.py), its registry and its suspensions.
use agent_company_factory.Prelude.{
  leb, ◌==◌, if◌then◌else◌, is_none, select, ℕ, ◌+◌, String, Bool, false, not, Option, none, some,
  List, [], ◌∷◌, ◌++◌,
}
use agent_company_factory.Prelude.Keyed.{lookup, set}
use agent_company_factory.Identity.Model.{Agent, agent_id, is_active}
use agent_company_factory.Clock.Model.{Clock}
use agent_company_factory.Orchestrator.Model.{
  AgentStatus, IncomingMessage, HealthSignals, warn, high, Issue, loop_structural, loop_semantic,
  suspended_loop_strikes, suspended_for, RouterEvent, health_alert, at, member_of,
}
use agent_company_factory.Orchestrator.Queue.{MessageQueue}
use agent_company_factory.Orchestrator.LoopDetector.{LoopDetector, LoopKind, structural, semantic}
use agent_company_factory.Orchestrator.RateLimit.{RateLimiter}

pub record IdleSweepConfig : Type 0 where
  pub enabled : Bool
  pub agent_idle_after : ℕ
  pub nudge_cooldown : ℕ

-- What the orchestrator sees of an `AgentHandle`.
pub record AgentHandle : Type 0 where
  pub id : ℕ
  pub status : AgentStatus
  pub signals : HealthSignals

-- An entry of the dictionary `_blocked_since`.
pub record Blocked : Type 0 where
  pub agent : ℕ
  pub since : ℕ

-- `identity` is the table of agents, `clock` the company's clock, `inbox` what each handle has been
-- delivered.
pub record Orchestrator : Type 0 where
  pub identity : List Agent
  pub clock : Clock
  pub queue : MessageQueue
  pub rate : RateLimiter
  pub loops : LoopDetector
  pub idle_cfg : IdleSweepConfig
  pub agents : List AgentHandle
  pub loop_strikes : ℕ → ℕ
  pub suspended : List ℕ
  pub last_message_at : ℕ
  pub blocked_since : List Blocked
  pub last_health_alert : ℕ → Option ℕ
  pub last_activity_at : ℕ → Option ℕ
  pub last_nudge_at : ℕ → Option ℕ
  pub inbox : ℕ → List IncomingMessage
  pub events : List RouterEvent

abbrev pub handle_id : AgentHandle → ℕ
handle_id h = h.id

abbrev pub emit : RouterEvent → Orchestrator → Orchestrator
emit e s = record s { events = s.events ++ e ∷ [] }

-- `Orchestrator._is_active`
unfoldable pub is_active_agent : ℕ → Orchestrator → Bool
is_active_agent a s = elim (lookup agent_id a s.identity) [ none ↦ false | some r ↦ is_active r ]

abbrev pub is_registered : ℕ → Orchestrator → Bool
is_registered a s = not (is_none (lookup handle_id a s.agents))

abbrev pub is_suspended : ℕ → Orchestrator → Bool
is_suspended a s = member_of a s.suspended

-- The manager, or none where the agent has no row.
abbrev pub manager_or_none : ℕ → Orchestrator → Option ℕ
manager_or_none a s = elim (lookup agent_id a s.identity) [ none ↦ none | some r ↦ r.reports_to ]

-- `Orchestrator.register`
unfoldable pub register : ℕ → AgentHandle → Orchestrator → Orchestrator
register now h s = record s {
  agents =
      if is_none (lookup handle_id h.id s.agents)
      then s.agents ++ h ∷ []
      else set handle_id h.id (λ _. h) s.agents;
  last_activity_at = at h.id (some now) s.last_activity_at;
}

-- `Orchestrator.unregister`
unfoldable pub unregister : ℕ → Orchestrator → Orchestrator
unregister a s = record s { agents = select (λ h. not (handle_id h == a)) s.agents }

-- `Orchestrator._notify_manager_suspended`
unfoldable pub notify_manager_suspended : ℕ → Orchestrator → Orchestrator
notify_manager_suspended a s =
    if is_none (manager_or_none a s)
    then s
    else emit (health_alert a warn suspended_loop_strikes (some a)) s

-- `set.add`
abbrev pub insert_into : ℕ → List ℕ → List ℕ
insert_into a l = if member_of a l then l else a ∷ l

-- `Orchestrator.suspend`
unfoldable pub suspend : ℕ → String → Orchestrator → Orchestrator
unfolding notify_manager_suspended
suspend a reason s =
    if is_suspended a s
    then s
    else notify_manager_suspended a (
        emit (health_alert a high (suspended_for reason) (some a))
          (record s { suspended = insert_into a s.suspended }))

-- `Orchestrator.resume`
unfoldable pub resume : ℕ → Orchestrator → Orchestrator
resume a s = record s { suspended = select (λ j. not (j == a)) s.suspended }

abbrev pub strikes_before_suspend : ℕ
strikes_before_suspend = 3

abbrev pub loop_issue : LoopKind → Issue
loop_issue structural = loop_structural
loop_issue semantic = loop_semantic

-- `Orchestrator._handle_loop`
unfoldable pub handle_loop : ℕ → LoopKind → Orchestrator → Orchestrator
handle_loop a kind s =
    let strikes = s.loop_strikes a + 1 in
    let s' =
      emit (health_alert a warn (loop_issue kind) (some a))
        (record s { loop_strikes = at a strikes s.loop_strikes }) in
    if leb strikes_before_suspend strikes
    then notify_manager_suspended a (record s' { suspended = insert_into a s'.suspended })
    else s'
