-- ===== src/Orchestrator/Turns.antt =====
-- One turn of a consumer: where the envelope at the head of a queue goes.
use mathlib.Core.Path.{subst}
use agent_company_factory.Prelude.{
  leb, ◌==◌, if◌then◌else◌, eq_of_==, Bool-cases, Option-cases, length, count, All, count-append,
  All-append, ℕ, ◌+◌, ◌-◌, ◌≤◌, ◌<◌, String, ◌≡◌, refl, sym, inl, inr, Bool, true, false, Option,
  none, some, List, [], ◌∷◌, ◌++◌, arith,
}
use agent_company_factory.Prelude.Action.{ok}
use agent_company_factory.Clock.Model.{is_accepting_messages}
use agent_company_factory.Orchestrator.Model.{MessageEnvelope, DeadLetter, at}
use agent_company_factory.Orchestrator.Queue.{enqueue, push, pop, to_dlq}
use agent_company_factory.Orchestrator.State.{Orchestrator}
use agent_company_factory.Orchestrator.Dispatch.{
  Deliver, max_attempts, incoming, bumped, dispatch, serve,
}

-- An envelope in the queue of `a` is for `a` and has an attempt left.
abbrev pub IsRouted : ℕ → MessageEnvelope → Type 0
IsRouted a env = (env.to_agent ≡ a) × (env.attempts < max_attempts)

-- The company takes messages, the queue is up, and every envelope stands where it should.
pub record IsServing (s : Orchestrator) : Type 0 where
  pub available : s.queue.available ≡ true
  pub accepting : is_accepting_messages s.clock ≡ true
  pub routed : (a : ℕ) → All (IsRouted a) (s.queue.queues a)

abbrev pub is_for : ℕ → DeadLetter → Bool
is_for a d = d.envelope.to_agent == a

-- The messages for `a` that wait, that were delivered, and that were given up.
abbrev pub load : ℕ → Orchestrator → ℕ
load a s = length (s.queue.queues a) + (length (s.inbox a) + count (is_for a) s.queue.dead)

-- The attempts that are left to the messages that wait for `a`.
abbrev pub attempts_left : List MessageEnvelope → ℕ
attempts_left [] = 0
attempts_left (e ∷ l) = max_attempts - e.attempts + attempts_left l

abbrev pub effort : ℕ → Orchestrator → ℕ
effort a s = attempts_left (s.queue.queues a)

pub length-snoc {ℓ} : {A : Type ℓ} (l : List A) (x : A) → length (l ++ x ∷ []) ≡ length l + 1
length-snoc [] x = refl
length-snoc (y ∷ l) x = omega (arith, length-snoc l x)

attempts_left-snoc :
    (l : List MessageEnvelope) (e : MessageEnvelope)
    → attempts_left (l ++ e ∷ []) ≡ attempts_left l + (max_attempts - e.attempts)
attempts_left-snoc [] e = omega arith
attempts_left-snoc (x ∷ l) e = omega (arith, attempts_left-snoc l e)

pub IsRouted-at :
    (k : ℕ) (v : List MessageEnvelope) (f : ℕ → List MessageEnvelope)
    → All (IsRouted k) v
    → ((b : ℕ) → All (IsRouted b) (f b))
    → (b : ℕ) → All (IsRouted b) (at k v f b)
IsRouted-at k v f h w b = elim (Bool-cases (b == k)) [
  | inl q ↦ rw q (subst (λ j. All (IsRouted j) v) (sym (eq_of_== b k q)) h)
  | inr q ↦ rw q (w b)
]

-- The queue without the head of the queue of `a`.
abbrev pub popped : ℕ → List MessageEnvelope → Orchestrator → Orchestrator
popped a rest s = record s { queue = record s.queue { queues = at a rest s.queue.queues } }

-- The three places where an envelope can go.
abbrev pub handed_over : ℕ → ℕ → MessageEnvelope → Orchestrator → Orchestrator
handed_over now a env s = record s {
  inbox = at a (s.inbox a ++ incoming env ∷ []) s.inbox;
  last_activity_at = at a (some now) s.last_activity_at;
}

abbrev pub given_up : ℕ → String → MessageEnvelope → Orchestrator → Orchestrator
given_up now reason env s = record s {
  queue = record s.queue {
    dead = s.queue.dead ++ record { envelope = env; reason = reason; moved_at = now } ∷ [];
  };
}

abbrev pub put_back : MessageEnvelope → Orchestrator → Orchestrator
put_back env s = record s { queue = enqueue (bumped env) s.queue }

abbrev pub placed : Option String → ℕ → ℕ → MessageEnvelope → Orchestrator → Orchestrator
placed none now a env s = handed_over now a env s
placed (some reason) now a env s =
    if leb max_attempts (env.attempts + 1) then given_up now reason env s else put_back env s

abbrev pub next_state : Deliver → ℕ → ℕ → MessageEnvelope → Orchestrator → Orchestrator
next_state deliver now a env s = placed (deliver a env) now a env s

module _ (deliver : Deliver) (now a : ℕ) (s : Orchestrator) where
  pub serve_nothing : s.queue.queues a ≡ [] → (ok false, s) ≡ serve deliver now a s
  unfolding serve pop
  serve_nothing e = ground arith

  pub serve_head :
      (env : MessageEnvelope) (rest : List MessageEnvelope)
      → IsServing s
      → s.queue.queues a ≡ env ∷ rest
      → (ok true, next_state deliver now a env (popped a rest s)) ≡ serve deliver now a s
  unfolding serve pop dispatch push to_dlq
  serve_head env rest w e = ground (arith, w.available, w.accepting)

  module _ (env : MessageEnvelope) (rest : List MessageEnvelope) (r : IsRouted a env)
      (e : s.queue.queues a ≡ env ∷ rest) where
    -- No message is lost or doubled.
    pub load-next_state :
        (b : ℕ) → load b (next_state deliver now a env (popped a rest s)) ≡ load b s
    load-next_state b = elim (Option-cases (deliver a env)) [
      | inl q ↦ ground (arith, length-snoc (s.inbox a) (incoming env))
      | inr (reason, q) ↦
          let lost : DeadLetter = record { envelope = env; reason = reason; moved_at = now } in
          ground
            (arith, length-snoc rest (bumped env), count-append (is_for b) s.queue.dead (lost ∷ []))
    ]

    -- An attempt is used up.
    pub effort-next_state :
        effort a (next_state deliver now a env (popped a rest s)) + 1 ≤ effort a s
    effort-next_state = elim (Option-cases (deliver a env)) [
      | inl q ↦ ground arith
      | inr (reason, q) ↦ ground (arith, attempts_left-snoc rest (bumped env))
    ]

    pub effort-other :
        (b : ℕ)
        → (b == a) ≡ false
        → effort b (next_state deliver now a env (popped a rest s)) ≡ effort b s
    effort-other b d = elim (Option-cases (deliver a env)) [
      | inl q ↦ ground arith
      | inr (reason, q) ↦ ground arith
    ]

    IsRouted-rest : IsServing s → (b : ℕ) → All (IsRouted b) (at a rest s.queue.queues b)
    IsRouted-rest w =
        IsRouted-at a rest s.queue.queues (subst (All (IsRouted a)) e (w.routed a)).1 w.routed

    IsRouted-back :
        IsServing s
        → leb max_attempts (env.attempts + 1) ≡ false
        → (b : ℕ) → All (IsRouted b) ((enqueue (bumped env) (popped a rest s).queue).queues b)
    IsRouted-back w h =
        let k = env.to_agent in
        let f = at a rest s.queue.queues in
        IsRouted-at k (f k ++ bumped env ∷ []) f
          (All-append (IsRouted k) (f k) (bumped env ∷ []) (IsRouted-rest w k)
            ((refl, ground arith), tt))
          (IsRouted-rest w)

    IsServing-placed :
        IsServing s → (o : Option String) → IsServing (placed o now a env (popped a rest s))
    IsServing-placed w none = record {
      available = w.available;
      accepting = w.accepting;
      routed = IsRouted-rest w;
    }
    IsServing-placed w (some reason) = elim (Bool-cases (leb max_attempts (env.attempts + 1))) [
      | inl h ↦
          rw h
            (record { available = w.available; accepting = w.accepting; routed = IsRouted-rest w })
      | inr h ↦
          rw h (record {
            available = w.available;
            accepting = w.accepting;
            routed = IsRouted-back w h;
          })
    ]

    pub IsServing-next_state :
        IsServing s → IsServing (next_state deliver now a env (popped a rest s))
    IsServing-next_state w = IsServing-placed w (deliver a env)

    -- The table of agents is left alone.
    pub agents-next_state : (next_state deliver now a env (popped a rest s)).agents ≡ s.agents
    agents-next_state = elim (Option-cases (deliver a env)) [
      | inl q ↦ ground arith
      | inr (reason, q) ↦ ground arith
    ]
