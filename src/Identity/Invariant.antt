-- ===== src/Identity/Invariant.antt =====
-- What holds of the table of agents between two calls of modules/identity/org.py.
use agent_company_factory.Prelude.{
  ◌==◌, is_none, Option-cases, update, count, All, All_of_find, All-imp, ℕ, ◌≤◌, ◌≡◌, refl, inl,
  inr, Bool, false, none, some, List, [], ◌∷◌, ◌++◌, arith,
}
use agent_company_factory.Prelude.Keyed.{lookup, IsKeyed}
use agent_company_factory.Identity.Model.{
  Agent, agent_id, max_active_agents, direct_report_limit, active_count, direct_report_count,
  manager,
}
use agent_company_factory.Identity.Chart.{IsAcyclic}

-- The manager of a row, if it has one, has a row.
abbrev pub IsManaged : List Agent → Agent → Type 0
IsManaged t a = (m : ℕ) → a.reports_to ≡ some m → is_none (lookup agent_id m t) ≡ false

-- A row has no more active reports than its role allows.
abbrev pub IsWithinSpan : List Agent → Agent → Type 0
IsWithinSpan t a = direct_report_count a.id t ≤ direct_report_limit a.role

pub record IsOrderly (t : List Agent) : Type 0 where
  pub ids : IsKeyed agent_id t
  pub managed : All (IsManaged t) t
  pub acyclic : IsAcyclic t
  pub span : All (IsWithinSpan t) t
  pub headcount : active_count t ≤ max_active_agents

pub managed_lookup :
    (t : List Agent) (k m : ℕ)
    → All (IsManaged t) t
    → manager t k ≡ some m
    → is_none (lookup agent_id m t) ≡ false
unfolding manager
managed_lookup t k m a h = elim (Option-cases (lookup agent_id k t)) [
  | inl e ↦ ground arith
  | inr (r, e) ↦ All_of_find (IsManaged t) (λ x. agent_id x == k) r t a e m (ground arith)
]

pub manager_row :
    (t : List Agent) (k : ℕ) (r : Agent) → lookup agent_id k t ≡ some r → manager t k ≡ r.reports_to
unfolding manager
manager_row t k r e = ground (arith, e)

-- Nobody reports to an agent that has no row.
pub no_reports :
    (u t : List Agent) (k : ℕ)
    → All (IsManaged u) t
    → lookup agent_id k u ≡ none
    → direct_report_count k t ≡ 0
unfolding direct_report_count
no_reports u [] k a h = refl
no_reports u (x ∷ t) k a h = elim (Option-cases (x.reports_to)) [
  | inl e ↦ ground (arith, no_reports u t k a.1 h)
  | inr (m, e) ↦ ground (arith, no_reports u t k a.1 h, a.0 m e)
]

pub IsManaged-imp :
    (t u l : List Agent)
    → ((k : ℕ) → is_none (lookup agent_id k t) ≡ false → is_none (lookup agent_id k u) ≡ false)
    → All (IsManaged t) l
    → All (IsManaged u) l
IsManaged-imp t u l h = All-imp (IsManaged t) (IsManaged u) l (λ r p m e. h m (p m e))

pub present-append :
    (t s : List Agent) (k : ℕ)
    → is_none (lookup agent_id k t) ≡ false
    → is_none (lookup agent_id k (t ++ s)) ≡ false
present-append [] s k h = ground arith
present-append (x ∷ t) s k h = ground (arith, present-append t s k)

pub present-update :
    (p : Agent → Bool) (f : Agent → Agent) (t : List Agent) (k : ℕ)
    → ((r : Agent) → agent_id (f r) ≡ agent_id r)
    → is_none (lookup agent_id k (update p f t)) ≡ is_none (lookup agent_id k t)
present-update p f [] k same = refl
present-update p f (x ∷ t) k same = ground (arith, same x, present-update p f t k same)

-- Fewer rows with the property after an update that never creates it.
pub count-update :
    (q p : Agent → Bool) (f : Agent → Agent) (t : List Agent)
    → ((r : Agent) → q r ≡ false → q (f r) ≡ false)
    → count q (update p f t) ≤ count q t
count-update q p f [] h = ground arith
count-update q p f (x ∷ t) h = ground (arith, h x, count-update q p f t h)
