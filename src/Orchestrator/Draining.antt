-- ===== src/Orchestrator/Draining.antt =====
-- `drain` delivers or gives up every message that waits, and loses none.
use mathlib.Core.Path.{subst}
use agent_company_factory.Prelude.{
  ◌==◌, is_none, eq_of_==, Bool-cases, length, count, All, ℕ, zero, suc, ◌+◌, ◌-◌, ◌*◌, ◌≤◌, ◌≡◌,
  refl, sym, ap, ◌∙◌, inl, inr, Bool, true, false, not, List, [], ◌∷◌, arith,
}
use agent_company_factory.Prelude.Keyed.{flag, lookup}
use agent_company_factory.Prelude.Action.{ok, is_ok}
use agent_company_factory.Orchestrator.Model.{MessageEnvelope}
use agent_company_factory.Orchestrator.Queue.{pending_count}
use agent_company_factory.Orchestrator.State.{AgentHandle, Orchestrator, handle_id, is_registered}
use agent_company_factory.Orchestrator.Dispatch.{Deliver, serve, round, drain}
use agent_company_factory.Orchestrator.Turns.{
  IsRouted, IsServing, is_for, load, attempts_left, effort, popped, next_state, serve_nothing,
  serve_head, load-next_state, effort-next_state, effort-other, IsServing-next_state,
  agents-next_state,
}

abbrev is_in : ℕ → List AgentHandle → Bool
is_in b l = not (is_none (lookup handle_id b l))

-- What leads from `s` to `t` in turns of the agents `l`, of which `n` dispatched an envelope.
record Rounded (l : List AgentHandle) (s : Orchestrator) (n : ℕ) (t : Orchestrator) : Type 0 where
  serving : IsServing t
  same_agents : t.agents ≡ s.agents
  same_load : (b : ℕ) → load b t ≡ load b s
  less : (b : ℕ) → effort b t ≤ effort b s
  spent : (b : ℕ) → is_in b l ≡ true → effort b t ≤ effort b s - 1
  resting : (b : ℕ) → n ≡ 0 → is_in b l ≡ true → effort b s ≡ 0

-- One turn of the agent `a`.
record Served (a : ℕ) (s : Orchestrator) (k : Bool) (t : Orchestrator) : Type 0 where
  serving : IsServing t
  same_agents : t.agents ≡ s.agents
  same_load : (b : ℕ) → load b t ≡ load b s
  less : (b : ℕ) → effort b t ≤ effort b s
  spent : effort a t ≤ effort a s - 1
  resting : k ≡ false → effort a s ≡ 0
  still : (b : ℕ) → k ≡ false → effort b t ≡ effort b s

flag_zero : (k : Bool) (n : ℕ) → flag k + n ≡ 0 → k ≡ false
flag_zero true n h = ground arith
flag_zero false n h = refl

module _ (deliver : Deliver) (now : ℕ) where
  serve_lem :
      (a : ℕ) (s : Orchestrator)
      → IsServing s
      → (k : Bool) × (t : Orchestrator) × (serve deliver now a s ≡ (ok k, t)) × Served a s k t
  serve_lem a s w = go (s.queue.queues a) refl
    where
      go :
          (l : List MessageEnvelope)
          → s.queue.queues a ≡ l
          → (k : Bool) × (t : Orchestrator) × (serve deliver now a s ≡ (ok k, t)) × Served a s k t
      go [] e = (
        false,
        s,
        sym (serve_nothing deliver now a s e),
        record {
          serving = w;
          same_agents = refl;
          same_load = λ b. refl;
          less = λ b. omega arith;
          spent = ground (arith, e);
          resting = λ q. ap attempts_left e;
          still = λ b q. refl;
        },
      )
      go (env ∷ rest) e =
          let r : IsRouted a env = (subst (All (IsRouted a)) e (w.routed a)).0 in
          (
            true,
            next_state deliver now a env (popped a rest s),
            sym (serve_head deliver now a s env rest w e),
            record {
              serving = IsServing-next_state deliver now a s env rest r e w;
              same_agents = agents-next_state deliver now a s env rest r e;
              same_load = load-next_state deliver now a s env rest r e;
              less = λ b. elim (Bool-cases (b == a)) [
                | inl q ↦
                    subst
                      (λ j. effort j (next_state deliver now a env (popped a rest s)) ≤ effort j s)
                      (sym (eq_of_== b a q))
                      (omega (arith, effort-next_state deliver now a s env rest r e))
                | inr q ↦ omega (arith, effort-other deliver now a s env rest r e b q)
              ];
              spent = omega (arith, effort-next_state deliver now a s env rest r e);
              resting = λ q. cc;
              still = λ b q. cc;
            },
          )

  round_cons :
      (h : AgentHandle) (l : List AgentHandle) (s t u : Orchestrator) (k : Bool) (n : ℕ)
      → serve deliver now h.id s ≡ (ok k, t)
      → round deliver now l t ≡ (ok n, u)
      → round deliver now (h ∷ l) s ≡ (ok (flag k + n), u)
  unfolding round
  round_cons h l s t u k n p q = ground arith

  round_lem :
      (l : List AgentHandle) (s : Orchestrator)
      → IsServing s
      → (n : ℕ) × (t : Orchestrator) × (round deliver now l s ≡ (ok n, t)) × Rounded l s n t
  unfolding round
  round_lem [] s w = (
    0,
    s,
    refl,
    record {
      serving = w;
      same_agents = refl;
      same_load = λ b. refl;
      less = λ b. omega arith;
      spent = λ b q. cc;
      resting = λ b z q. cc;
    },
  )
  round_lem (h ∷ l) s w =
      let (k, t, p, v) = serve_lem h.id s w in
      let (n, u, q, x) = round_lem l t v.serving in
      (
        flag k + n,
        u,
        round_cons h l s t u k n p q,
        record {
          serving = x.serving;
          same_agents = x.same_agents ∙ v.same_agents;
          same_load = λ b. x.same_load b ∙ v.same_load b;
          less = λ b. omega (arith, x.less b, v.less b);
          spent = λ b z. elim (Bool-cases (h.id == b)) [
            | inl y ↦
                subst (λ j. effort j u ≤ effort j s - 1) (eq_of_== h.id b y)
                  (omega (arith, x.less h.id, v.spent))
            | inr y ↦
                let deep : is_in b l ≡ true = ground arith in
                omega (arith, x.spent b deep, v.less b)
          ];
          resting = λ b z y.
              let quiet : k ≡ false = flag_zero k n z in
              elim (Bool-cases (h.id == b)) [
                | inl j ↦ subst (λ i. effort i s ≡ 0) (eq_of_== h.id b j) (v.resting quiet)
                | inr j ↦
                    let deep : is_in b l ≡ true = ground arith in
                    sym (v.still b quiet) ∙ x.resting b (omega arith) deep
              ];
        },
      )

  drain_stop :
      (m : ℕ) (s t : Orchestrator)
      → round deliver now s.agents s ≡ (ok 0, t)
      → drain deliver now (suc m) s ≡ (ok 0, t)
  unfolding drain
  drain_stop m s t p = ground arith

  drain_more :
      (m k r : ℕ) (s t u : Orchestrator)
      → round deliver now s.agents s ≡ (ok (suc k), t)
      → drain deliver now m t ≡ (ok r, u)
      → drain deliver now (suc m) s ≡ (ok (suc k + r), u)
  unfolding drain
  drain_more m k r s t u p q = ground arith

  -- What `drain` ends in.
  record Drained (m : ℕ) (s : Orchestrator) (t : Orchestrator) : Type 0 where
    serving : IsServing t
    same_load : (b : ℕ) → load b t ≡ load b s
    done : (b : ℕ) → is_in b s.agents ≡ true → effort b s ≤ m → effort b t ≡ 0

  drain_ends :
      (m : ℕ) (s : Orchestrator)
      → IsServing s
      → (r : ℕ) × (t : Orchestrator) × (drain deliver now m s ≡ (ok r, t)) × Drained m s t
  unfolding drain
  drain_ends zero s w =
      (0, s, refl, record { serving = w; same_load = λ b. refl; done = λ b q h. omega arith })
  drain_ends (suc m) s w = go (drain_ends m) (round_lem s.agents s w)
    where
      more :
          (k : ℕ) (t : Orchestrator)
          → round deliver now s.agents s ≡ (ok (suc k), t)
          → Rounded s.agents s (suc k) t
          → (r : ℕ) × (u : Orchestrator) × (drain deliver now m t ≡ (ok r, u)) × Drained m t u
          → (r : ℕ) × (u : Orchestrator) × (drain deliver now (suc m) s ≡ (ok r, u))
            × Drained (suc m) s u
      more k t p x (r, u, q, y) = (
        suc k + r,
        u,
        drain_more m k r s t u p q,
        record {
          serving = y.serving;
          same_load = λ b. y.same_load b ∙ x.same_load b;
          done = λ b z h. y.done b (ap (is_in b) x.same_agents ∙ z) (omega (arith, x.spent b z));
        },
      )

      go :
          ((t : Orchestrator)
            → IsServing t
            → (r : ℕ) × (u : Orchestrator) × (drain deliver now m t ≡ (ok r, u)) × Drained m t u)
          → ((n : ℕ) × (t : Orchestrator) × (round deliver now s.agents s ≡ (ok n, t))
              × Rounded s.agents s n t)
          → (r : ℕ) × (u : Orchestrator) × (drain deliver now (suc m) s ≡ (ok r, u))
            × Drained (suc m) s u
      go ih (zero, t, p, x) = (
        0,
        t,
        drain_stop m s t p,
        record {
          serving = x.serving;
          same_load = x.same_load;
          done = λ b z h. omega (arith, x.less b, x.resting b refl z);
        },
      )
      go ih (suc k, t, p, x) = more k t p x (ih t x.serving)

no_effort : (a : ℕ) (l : List MessageEnvelope) → All (IsRouted a) l → attempts_left l ≡ 0 → l ≡ []
no_effort a [] w h = refl
no_effort a (e ∷ l) w h = ground (arith, w.0.1)

effort_bound : (l : List MessageEnvelope) → attempts_left l ≤ 3 * length l
effort_bound [] = omega arith
effort_bound (e ∷ l) = omega (arith, effort_bound l)

-- While the company takes messages and the queue is up, `drain` with three rounds for each message
-- that waits for a registered agent returns, empties that agent's queue, and has delivered to it or
-- given up as dead letters as many messages as waited, less none and plus none.
pub drain_lem :
    (deliver : Deliver) (now m a : ℕ) (s : Orchestrator)
    → IsServing s
    → is_registered a s ≡ true
    → 3 * pending_count a s.queue ≤ m
    → let (r, t) = drain deliver now m s in
      (is_ok r ≡ true)
      × (pending_count a t.queue ≡ 0)
      × (length (t.inbox a) + count (is_for a) t.queue.dead ≡ load a s)
unfolding pending_count
drain_lem deliver now m a s w g h = go (drain_ends deliver now m s w)
  where
    go :
        ((r : ℕ) × (t : Orchestrator) × (drain deliver now m s ≡ (ok r, t))
          × Drained deliver now m s t)
        → let (r, t) = drain deliver now m s in
          (is_ok r ≡ true)
          × (length (t.queue.queues a) ≡ 0)
          × (length (t.inbox a) + count (is_for a) t.queue.dead ≡ load a s)
    go (r, t, p, x) =
        let none_left =
          no_effort a (t.queue.queues a) (x.serving.routed a)
            (x.done a g (omega (arith, effort_bound (s.queue.queues a)))) in
        rw p (refl, ap length none_left, omega (arith, ap length none_left, x.same_load a))
