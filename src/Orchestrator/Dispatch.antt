-- ===== src/Orchestrator/Dispatch.antt =====
-- `_dispatch` and `drain` of modules/orchestrator/orchestrator.py. Whether `AgentHandle.deliver` raises
-- for an envelope, and with what text, is a parameter; when it does not, the agent has the message.
use agent_company_factory.Prelude.{
  leb, if◌then◌else◌, or_else, ℕ, zero, suc, ◌+◌, String, Bool, true, false, not, Option, none,
  some, List, [], ◌∷◌, ◌++◌,
}
use agent_company_factory.Prelude.Keyed.{flag}
use agent_company_factory.Prelude.Action.{ok, err, pure, ◌>>=◌}
use agent_company_factory.Clock.Model.{is_accepting_messages}
use agent_company_factory.Orchestrator.Model.{MessageEnvelope, IncomingMessage, at}
use agent_company_factory.Orchestrator.Queue.{push, pop, to_dlq}
use agent_company_factory.Orchestrator.State.{AgentHandle, Orchestrator}
use agent_company_factory.Orchestrator.Send.{Send}

abbrev pub Deliver : Type 0
Deliver = ℕ → MessageEnvelope → Option String

abbrev pub max_attempts : ℕ
max_attempts = 3

abbrev pub incoming : MessageEnvelope → IncomingMessage
incoming env = record {
  content = env.content;
  kind = env.kind;
  from_agent = env.from_agent;
  correlation_id = or_else env.correlation_id env.msg_id;
}

abbrev pub bumped : MessageEnvelope → MessageEnvelope
bumped env = record env { attempts = env.attempts + 1 }

-- `Orchestrator._dispatch`
unfoldable pub dispatch : Deliver → ℕ → ℕ → MessageEnvelope → Send (Unit {0})
unfolding push to_dlq
dispatch deliver now a env s = elim (deliver a env) [
  | none ↦ (
    ok tt,
    record s {
      inbox = at a (s.inbox a ++ incoming env ∷ []) s.inbox;
      last_activity_at = at a (some now) s.last_activity_at;
    },
  )
  | some reason ↦
      if leb max_attempts (env.attempts + 1)
      then (ok tt, record s { queue = to_dlq env reason now s.queue })
      else let (pushed, q) = push (bumped env) s.queue in (pushed, record s { queue = q })
]

-- One agent's turn in a round of `drain`: whether an envelope was dispatched.
unfoldable pub serve : Deliver → ℕ → ℕ → Send Bool
unfolding dispatch pop push
serve deliver now a s =
    let (got, q) = pop a s.queue in
    let s' : Orchestrator = record s { queue = q } in
    elim got [
      | none ↦ (ok false, s')
      | some env ↦
          if not (is_accepting_messages s.clock)
          then (let (pushed, q') = push env q in
              elim pushed [ err e ↦ (err e, s') | ok _ ↦ (ok false, record s { queue = q' }) ])
          else (let (done, s'') = dispatch deliver now a env s' in
              elim done [ err e ↦ (err e, s'') | ok _ ↦ (ok true, s'') ])
    ]

-- A round over the agents: how many envelopes were dispatched.
unfoldable pub round : Deliver → ℕ → List AgentHandle → Send ℕ
unfolding serve
round deliver now [] s = (ok 0, s)
round deliver now (h ∷ l) s =
    (do one ← serve deliver now h.id; rest ← round deliver now l; pure (flag one + rest)) s

-- `Orchestrator.drain`, with `max_iters` as in the source.
unfoldable pub drain : Deliver → ℕ → ℕ → Send ℕ
unfolding round
drain deliver now zero s = (ok 0, s)
drain deliver now (suc n) s =
    let (moved, s') = round deliver now s.agents s in
    elim moved [
      | err e ↦ (err e, s')
      | ok zero ↦ (ok 0, s')
      | ok (suc k) ↦
          let (rest, s'') = drain deliver now n s' in
          elim rest [ err e ↦ (err e, s'') | ok r ↦ (ok (suc k + r), s'') ]
    ]
