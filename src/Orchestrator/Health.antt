-- ===== src/Orchestrator/Health.antt =====
-- modules/orchestrator/health_monitor.py, and `health_sweep` with its checks
-- (modules/orchestrator/orchestrator.py). A score is a double between 0 and 1; here it is the number of
-- its units of 2⁻⁵⁴, with the rounding of each subtraction.
use agent_company_factory.Prelude.{
  ltb, ◌==◌, if◌then◌else◌, is_none, find, select, ℕ, ◌+◌, ◌-◌, ◌*◌, ◌%◌, Bool, true, false, not,
  ◌&&◌, ◌||◌, none, some, List, [], ◌∷◌, ◌++◌,
}
use agent_company_factory.Prelude.Keyed.{lookup}
use agent_company_factory.Prelude.Action.{Result, ok, err}
use agent_company_factory.Orchestrator.Model.{
  AgentStatus, idle, blocked, OrchestratorError, invalid_target, HealthSignals, warn, Note, errors,
  parse_rate, repeat_ratio, stale_heartbeat, deadlock_warning, company_stuck, unhealthy_for,
  RouterEvent, health_alert, at,
}
use agent_company_factory.Orchestrator.State.{
  AgentHandle, Blocked, Orchestrator, handle_id, emit, manager_or_none,
}

-- The doubles 0.5, 1.0, 0.3 and 0.4.
abbrev pub half : ℕ
half = 9007199254740992

abbrev pub one_unit : ℕ
one_unit = 18014398509481984

abbrev pub three_tenths : ℕ
three_tenths = 5404319552844595

abbrev pub four_tenths : ℕ
four_tenths = 7205759403792794

-- Rounding to a double: from a half on, to an even number of units, and half-way to a multiple of 4.
abbrev pub round_double : ℕ → ℕ
round_double n = if ltb n half || n % 2 == 0 then n else if n % 4 == 1 then n - 1 else n + 1

-- Subtraction of doubles; below 0 the score is clamped in the end, and stays at 0 here.
abbrev pub minus : ℕ → ℕ → ℕ
minus a b = round_double (a - b)

abbrev pub heartbeat_limit : ℕ
heartbeat_limit = 300000000

abbrev pub penalty : Bool → ℕ → Note → ℕ × List Note → ℕ × List Note
penalty applies amount note acc =
    let (score, notes) = acc in
    if applies then (minus score amount, notes ++ note ∷ []) else (score, notes)

-- `compute_score`
unfoldable pub compute_score : HealthSignals → ℕ → ℕ × List Note
compute_score g now = penalty (ltb heartbeat_limit (now - g.last_heartbeat)) half stale_heartbeat (
    penalty (ltb 0 g.total_turns && ltb (7 * g.total_turns) (10 * g.repeat_response_count))
      four_tenths (repeat_ratio g.repeat_response_count g.total_turns)
      (penalty
        (ltb 0 g.parse_failures && ltb 0 g.total_turns && ltb g.total_turns (2 * g.parse_failures))
        three_tenths (parse_rate g.parse_failures g.total_turns)
        (penalty (ltb 3 g.consecutive_errors) three_tenths (errors g.consecutive_errors)
          (one_unit, []))))

-- `UNHEALTHY_CUTOFF`
abbrev pub unhealthy_cutoff : ℕ
unhealthy_cutoff = four_tenths

abbrev pub is_unhealthy : HealthSignals → ℕ → Bool
is_unhealthy g now = ltb (compute_score g now).0 unhealthy_cutoff

-- `Orchestrator.health`: the score and the notes.
unfoldable pub health : ℕ → ℕ → Orchestrator → Result OrchestratorError (ℕ × List Note)
unfolding compute_score
health a now s = elim (lookup handle_id a s.agents) [
  | none ↦ err invalid_target
  | some h ↦ ok (compute_score h.signals now)
]

abbrev pub alert_gap : ℕ
alert_gap = 60000000

-- More than a minute since the last alert, or none yet.
abbrev pub may_alert : ℕ → ℕ → Orchestrator → Bool
may_alert a now s = elim (s.last_health_alert a) [
  | none ↦ true
  | some last ↦ ltb alert_gap (now - last)
]

abbrev pub blocked_agent : Blocked → ℕ
blocked_agent b = b.agent

abbrev pub is_blocked : AgentStatus → Bool
is_blocked blocked = true
is_blocked _ = false

abbrev pub is_idle : AgentStatus → Bool
is_idle idle = true
is_idle _ = false

-- `setdefault` or `pop` on `_blocked_since`.
abbrev pub note_blocked : ℕ → AgentHandle → List Blocked → List Blocked
note_blocked now h t =
    if is_blocked h.status
    then (if is_none (lookup blocked_agent h.id t)
        then t ++ record { agent = h.id; since = now } ∷ []
        else t)
    else select (λ b. not (blocked_agent b == h.id)) t

-- The turn of one agent in `health_sweep`. The notice to its manager is a task that runs later: the
-- managers to be told are collected.
unfoldable pub sweep_agent : ℕ → AgentHandle → List ℕ × Orchestrator → List ℕ × Orchestrator
unfolding compute_score
sweep_agent now h acc =
    let (told, s) = acc in
    let notes = (compute_score h.signals now).1 in
    let alert = is_unhealthy h.signals now && may_alert h.id now s in
    let s' =
      if alert
      then emit (health_alert h.id warn (unhealthy_for notes) (some h.id))
          (record s { last_health_alert = at h.id (some now) s.last_health_alert })
      else s in
    (
      if alert
          then (elim (manager_or_none h.id s) [ none ↦ told | some m ↦ told ++ m ∷ [] ])
          else told,
      record s' { blocked_since = note_blocked now h s'.blocked_since },
    )

unfoldable pub sweep_agents : ℕ → List AgentHandle → List ℕ × Orchestrator → List ℕ × Orchestrator
sweep_agents now [] acc = acc
sweep_agents now (h ∷ l) acc = sweep_agents now l (sweep_agent now h acc)

abbrev pub blocked_limit : ℕ
blocked_limit = 1800000000

-- `Orchestrator._check_deadlock`
unfoldable pub check_deadlock : ℕ → List Blocked → List RouterEvent
check_deadlock now [] = []
check_deadlock now (b ∷ t) =
    let rest = check_deadlock now t in
    if ltb blocked_limit (now - b.since)
    then health_alert b.agent warn deadlock_warning (some b.agent) ∷ rest
    else rest

abbrev pub stuck_limit : ℕ
stuck_limit = 3600000000

-- `Orchestrator._check_company_stuck`
unfoldable pub check_company_stuck : ℕ → Orchestrator → List RouterEvent
check_company_stuck now s =
    if not (ltb stuck_limit (now - s.last_message_at))
    then []
    else elim (find (λ h. is_idle (h.status)) s.agents) [
      | none ↦ []
      | some h ↦ health_alert h.id warn company_stuck (some h.id) ∷ []
    ]

-- `Orchestrator.health_sweep`: the managers to be told, and the state.
unfoldable pub health_sweep : ℕ → Orchestrator → List ℕ × Orchestrator
unfolding sweep_agents check_deadlock check_company_stuck
health_sweep now s =
    let (told, s') = sweep_agents now s.agents ([], s) in
    (
      told,
      record s' {
        events = s'.events ++ check_deadlock now s'.blocked_since ++ check_company_stuck now s';
      },
    )
