-- ===== src/Orchestrator/IdleSweep.antt =====
-- `is_company_idle`, `idle_sweep` and `_nudge` of modules/orchestrator/orchestrator.py.
use agent_company_factory.Prelude.{
  ltb, leb, ◌==◌, if◌then◌else◌, or_else, length, ℕ, zero, suc, ◌+◌, ◌-◌, ◌/◌, ◌%◌, Bool, true,
  false, not, ◌&&◌, none, some, List, [], ◌∷◌, ◌++◌,
}
use agent_company_factory.Identity.Reason.{codes}
use agent_company_factory.Orchestrator.Model.{
  notify, AgentStatus, idle, stopped, Text, info, idle_nudge, health_alert, at,
}
use agent_company_factory.Orchestrator.Queue.{MessageQueue}
use agent_company_factory.Orchestrator.State.{
  AgentHandle, Orchestrator, emit, is_registered, is_suspended, manager_or_none,
}
use agent_company_factory.Orchestrator.Send.{Moment, system_send}
use agent_company_factory.Orchestrator.Health.{is_idle}

abbrev pub is_resting : AgentStatus → Bool
is_resting idle = true
is_resting stopped = true
is_resting _ = false

abbrev pub none_busy : List AgentHandle → MessageQueue → Bool
none_busy [] q = true
none_busy (h ∷ l) q = length (q.queues h.id) == 0 && is_resting h.status && none_busy l q

-- `Orchestrator.is_company_idle`
unfoldable pub is_company_idle : Orchestrator → Bool
is_company_idle s = none_busy s.agents s.queue

-- The decimal digits of a number, with its value plus one as fuel.
abbrev pub digits_of : ℕ → ℕ → Text → Text
digits_of zero n acc = acc
digits_of (suc f) n acc =
    let more = digits_of f (n / 10) ((48 + n % 10) ∷ acc) in
    if ltb n 10 then (48 + n) ∷ acc else more

abbrev pub decimal : ℕ → Text
decimal n = digits_of (n + 1) n []

abbrev pub minutes_of : ℕ → ℕ
minutes_of microseconds = let m = microseconds / 60000000 in if m == 0 then 1 else m

-- The text for a manager; `shown` is the agent's identifier.
abbrev pub manager_text : Text → ℕ → Text
manager_text shown minutes =
    codes "Your subordinate "
    ++ shown
    ++ codes " has been idle for approximately "
    ++ decimal minutes
    ++ codes " minutes — "
    ++ codes "ask what they need, or assign them a concrete task. "
    ++ codes "If there is no progress, find out why."

abbrev pub own_text : ℕ → Text
own_text minutes =
    codes "No significant activity in the company for the past "
    ++ decimal minutes
    ++ codes " minutes. "
    ++ codes "Your team includes HR and Security. What is your next step? "
    ++ codes "Delegate a concrete task to someone or review your plan."

-- `Orchestrator._nudge`, whose exceptions are suppressed; the message is drawn at `m`.
unfoldable pub nudge : Moment → (ℕ → Text) → ℕ → ℕ → Orchestrator → Orchestrator
unfolding system_send
nudge m shown a idle_for s =
    let minutes = minutes_of idle_for in
    let s' = emit (health_alert a info idle_nudge (some a)) s in
    let alone = (system_send m a (own_text minutes) notify none s').1 in
    elim (manager_or_none a s) [
      | none ↦ alone
      | some mgr ↦
          if is_registered mgr s'
          then (system_send m mgr (manager_text (shown a) minutes) notify none s').1
          else alone
    ]

-- The last sign of life of an agent.
abbrev pub last_seen : ℕ → Orchestrator → ℕ
last_seen a s = or_else (s.last_activity_at a) s.last_message_at

-- The conditions under which `idle_sweep` nudges an agent.
unfoldable pub is_due_nudge : ℕ → AgentHandle → Orchestrator → Bool
is_due_nudge now h s =
    not (is_suspended h.id s)
    && is_idle h.status
    && leb s.idle_cfg.agent_idle_after (now - last_seen h.id s)
    && (elim (s.last_nudge_at h.id) [
      | none ↦ true
      | some last ↦ leb s.idle_cfg.nudge_cooldown (now - last)
    ])

-- One agent's turn.
unfoldable pub nudge_agent :
    (ℕ → Moment) → (ℕ → Text) → ℕ → AgentHandle → Orchestrator → ℕ × Orchestrator
unfolding is_due_nudge nudge
nudge_agent draw shown now h s =
    if not (is_due_nudge now h s)
    then (0, s)
    else (let s' = nudge (draw h.id) shown h.id (now - last_seen h.id s) s in
        (1, record s' { last_nudge_at = at h.id (some now) s'.last_nudge_at }))

unfoldable pub nudge_agents :
    (ℕ → Moment) → (ℕ → Text) → ℕ → List AgentHandle → Orchestrator → ℕ × Orchestrator
unfolding nudge_agent
nudge_agents draw shown now [] s = (0, s)
nudge_agents draw shown now (h ∷ l) s =
    let (one, s') = nudge_agent draw shown now h s in
    let (rest, s'') = nudge_agents draw shown now l s' in (one + rest, s'')

-- `Orchestrator.idle_sweep`; `draw` has what each notice draws from outside.
unfoldable pub idle_sweep : (ℕ → Moment) → (ℕ → Text) → ℕ → Orchestrator → ℕ × Orchestrator
unfolding nudge_agents
idle_sweep draw shown now s =
    if not s.idle_cfg.enabled then (0, s) else nudge_agents draw shown now s.agents s
