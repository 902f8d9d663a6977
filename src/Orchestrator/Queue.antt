-- ===== src/Orchestrator/Queue.antt =====
-- modules/orchestrator/streams.py: one first-in-first-out queue for each agent, and the dead letters.
-- The wake-up of waiting consumers is left to asyncio.
use agent_company_factory.Prelude.{
  if◌then◌else◌, length, ℕ, String, Bool, true, Option, none, some, List, [], ◌∷◌, ◌++◌,
}
use agent_company_factory.Prelude.Action.{ok, err, Action}
use agent_company_factory.Orchestrator.Model.{
  OrchestratorError, redis_unavailable, MessageEnvelope, DeadLetter, at, member_of,
}

-- `InMemoryMessageQueue`; a missing key of a dictionary stands for an empty queue or set.
pub record MessageQueue : Type 0 where
  pub queues : ℕ → List MessageEnvelope
  pub seen : ℕ → List ℕ
  pub dead : List DeadLetter
  pub available : Bool

abbrev pub empty_queue : MessageQueue
empty_queue = record { queues = λ _. []; seen = λ _. []; dead = []; available = true }

abbrev pub remember : MessageEnvelope → (ℕ → List ℕ) → ℕ → List ℕ
remember env seen = elim env.correlation_id [
  | none ↦ seen
  | some c ↦ at env.to_agent (c ∷ seen env.to_agent) seen
]

-- `push` of a queue that is available.
abbrev pub enqueue : MessageEnvelope → MessageQueue → MessageQueue
enqueue env q = record q {
  queues = at env.to_agent (q.queues env.to_agent ++ env ∷ []) q.queues;
  seen = remember env q.seen;
}

-- `InMemoryMessageQueue.set_available`
unfoldable pub set_available : Bool → MessageQueue → MessageQueue
set_available value q = record q { available = value }

-- `InMemoryMessageQueue.push`
unfoldable pub push : MessageEnvelope → Action MessageQueue OrchestratorError (Unit {0})
push env q = if q.available then (ok tt, enqueue env q) else (err redis_unavailable, q)

-- `InMemoryMessageQueue.pop`
unfoldable pub pop : ℕ → MessageQueue → Option MessageEnvelope × MessageQueue
pop a q = elim (q.queues a) [
  | [] ↦ (none, q)
  | env ∷ rest ↦ (some env, record q { queues = at a rest q.queues })
]

-- `InMemoryMessageQueue.pending_count`
unfoldable pub pending_count : ℕ → MessageQueue → ℕ
pending_count a q = length (q.queues a)

-- `InMemoryMessageQueue.has_correlation`
unfoldable pub has_correlation : ℕ → ℕ → MessageQueue → Bool
has_correlation a c q = member_of c (q.seen a)

-- `InMemoryMessageQueue.to_dlq`
unfoldable pub to_dlq : MessageEnvelope → String → ℕ → MessageQueue → MessageQueue
to_dlq env reason now q = record q {
  dead = q.dead ++ record { envelope = env; reason = reason; moved_at = now } ∷ [];
}
