-- ===== src/Identity/Hiring.antt =====
-- `Org.add_agent` keeps the chart in order.
use mathlib.Core.Path.{subst}
use agent_company_factory.Prelude.{
  is_id, is_none, Option-cases, All-append, ℕ, ◌<◌, ◌≡◌, refl, inl, inr, false, Option, none, some,
  List, [], ◌∷◌, ◌++◌, arith,
}
use agent_company_factory.Prelude.Keyed.{lookup, IsKeyed-append}
use agent_company_factory.Identity.Model.{
  OrgError, Agent, Org, agent_id, max_active_agents, direct_report_limit, active_count,
  direct_report_count,
}
use agent_company_factory.Identity.Hire.{Hire, new_agent, refuse_manager, refuse_hire, add_agent}
use agent_company_factory.Identity.Growing.{IsAcyclic-grown, span-grown, headcount-grown}
use agent_company_factory.Identity.Invariant.{IsManaged, IsOrderly, IsManaged-imp, present-append}

-- What a hire that passes the checks has shown.
refuse_hire_lem :
    (fresh : ℕ) (h : Hire) (t : List Agent)
    → refuse_hire fresh h t ≡ none
    → (active_count t < max_active_agents)
      × ((m : ℕ) → h.reports_to ≡ some m → refuse_manager fresh m h t (lookup agent_id m t) ≡ none)
unfolding refuse_hire
refuse_hire_lem fresh h t e = (ground arith, λ m q. ground arith)

refuse_manager_lem :
    (fresh m : ℕ) (h : Hire) (t : List Agent) (o : Option Agent)
    → refuse_manager fresh m h t o ≡ none
    → (a : Agent) × (o ≡ some a) × (direct_report_count m t < direct_report_limit a.role)
unfolding refuse_manager
refuse_manager_lem fresh m h t none e = ground arith
refuse_manager_lem fresh m h t (some a) e = (a, refl, ground arith)

-- A row that passed the checks keeps the chart in order.
hired-IsOrderly :
    (now fresh : ℕ) (h : Hire) (t : List Agent)
    → refuse_hire fresh h t ≡ none
    → lookup agent_id fresh t ≡ none
    → IsOrderly t
    → IsOrderly (t ++ new_agent now fresh h ∷ [])
hired-IsOrderly now fresh h t q w o = record {
  ids = IsKeyed-append agent_id n t w (o.ids);
  managed =
      All-append (IsManaged (t ++ n ∷ [])) t (n ∷ [])
        (IsManaged-imp t (t ++ n ∷ []) t (present-append t (n ∷ [])) (o.managed))
        ((λ m e. present-append t (n ∷ []) m (bound m e)), tt);
  acyclic = IsAcyclic-grown t n w (o.managed) bound (o.acyclic);
  span = span-grown t n w (o.ids) (o.managed) room not_self (o.span);
  headcount = headcount-grown t n (passed.0);
}
  where
    n : Agent
    n = new_agent now fresh h

    passed :
        (active_count t < max_active_agents)
        × ((m : ℕ)
            → h.reports_to ≡ some m
            → refuse_manager fresh m h t (lookup agent_id m t) ≡ none)
    passed = refuse_hire_lem fresh h t q

    boss :
        (m : ℕ)
        → h.reports_to ≡ some m
        → (a : Agent) × (lookup agent_id m t ≡ some a)
          × (direct_report_count m t < direct_report_limit a.role)
    boss m e = refuse_manager_lem fresh m h t (lookup agent_id m t) (passed.1 m e)

    bound : (m : ℕ) → h.reports_to ≡ some m → is_none (lookup agent_id m t) ≡ false
    bound m e = let (a, l, _) = boss m e in ground arith

    room :
        (m : ℕ) (r : Agent)
        → h.reports_to ≡ some m
        → lookup agent_id m t ≡ some r
        → direct_report_count m t < direct_report_limit r.role
    room m r e l = let (a, k, lt) = boss m e in ground arith

    not_self : is_id h.reports_to fresh ≡ false
    not_self = elim (Option-cases (h.reports_to)) [
      | inl e ↦ ground arith
      | inr (m, e) ↦ ground (arith, bound m e)
    ]

module _ (now fresh : ℕ) (h : Hire) (s : Org) where
  agents-hired :
      refuse_hire fresh h s.agents ≡ none
      → lookup agent_id fresh s.agents ≡ none
      → s.agents ++ new_agent now fresh h ∷ [] ≡ (add_agent now fresh h s).1.agents
  unfolding add_agent
  agents-hired q w = ground arith

  agents-refused :
      (e : OrgError)
      → refuse_hire fresh h s.agents ≡ some e
      → s.agents ≡ (add_agent now fresh h s).1.agents
  unfolding add_agent
  agents-refused e q = ground arith

  agents-taken :
      (a : Agent)
      → refuse_hire fresh h s.agents ≡ none
      → lookup agent_id fresh s.agents ≡ some a
      → s.agents ≡ (add_agent now fresh h s).1.agents
  unfolding add_agent
  agents-taken a q w = ground arith

-- A hire, accepted or refused, keeps the chart in order: one row for each agent, managers that have
-- rows, chains of managers that end, at most four active reports (five for the CEO) and at most a
-- hundred active agents.
pub add_agent-IsOrderly :
    (now fresh : ℕ) (h : Hire) (s : Org)
    → IsOrderly s.agents
    → IsOrderly (add_agent now fresh h s).1.agents
add_agent-IsOrderly now fresh h s o = elim (Option-cases (refuse_hire fresh h s.agents)) [
  | inr (e, q) ↦ subst IsOrderly (agents-refused now fresh h s e q) o
  | inl q ↦ elim (Option-cases (lookup agent_id fresh s.agents)) [
    | inr (a, w) ↦ subst IsOrderly (agents-taken now fresh h s a q w) o
    | inl w ↦
        subst IsOrderly (agents-hired now fresh h s q w)
          (hired-IsOrderly now fresh h s.agents q w o)
  ]
]
