-- ===== src/Identity/Growing.antt =====
-- The org chart with one more row.
use mathlib.Core.Path.{subst}
use agent_company_factory.Prelude.{
  ◌==◌, if◌then◌else◌, is_id, is_none, eq_of_==, Bool-cases, Option-cases, All, count-append,
  find-append_new, find-append_old, All-append, All-both, ℕ, ◌+◌, ◌≤◌, ◌<◌, ◌≡◌, sym, ◌∙◌, inl, inr,
  false, ◌&&◌, none, some, List, [], ◌∷◌, ◌++◌, arith,
}
use agent_company_factory.Prelude.Keyed.{lookup, IsKeyed, IsKeyed-lookup}
use agent_company_factory.Identity.Model.{
  Agent, agent_id, max_active_agents, is_active, direct_report_limit, reports, active_count,
  direct_report_count, manager,
}
use agent_company_factory.Identity.Chart.{Grounded, root, under, IsAcyclic}
use agent_company_factory.Identity.Invariant.{IsManaged, IsWithinSpan, managed_lookup, no_reports}

module _ (t : List Agent) (n : Agent) (new : lookup agent_id n.id t ≡ none) where
  abbrev pub grown : List Agent
  grown = t ++ n ∷ []

  lookup-grown :
      (k : ℕ)
      → lookup agent_id k grown ≡ (
          if n.id == k
          then elim (lookup agent_id k t) [ none ↦ some n | some a ↦ some a ]
          else lookup agent_id k t)
  lookup-grown k = elim (Option-cases (lookup agent_id k t)) [
    | inl e ↦ rw e (find-append_new (λ x. agent_id x == k) n t e)
    | inr (a, e) ↦ rw e (find-append_old (λ x. agent_id x == k) a t (n ∷ []) e ∙ ground arith)
  ]

  manager-grown : (k : ℕ) → is_none (lookup agent_id k t) ≡ false → manager grown k ≡ manager t k
  unfolding manager
  manager-grown k h = ground (arith, lookup-grown k)

  manager-grown_new : manager grown n.id ≡ n.reports_to
  unfolding manager
  manager-grown_new = ground (arith, lookup-grown (n.id))

  manager-grown-none :
      (k : ℕ) → (k == n.id) ≡ false → lookup agent_id k t ≡ none → manager grown k ≡ none
  unfolding manager
  manager-grown-none k h e = ground (arith, lookup-grown k)

  Grounded-grown :
      (k : ℕ)
      → All (IsManaged t) t
      → is_none (lookup agent_id k t) ≡ false
      → Grounded t k
      → Grounded grown k
  Grounded-grown k a h (root _ e) = root k (manager-grown k h ∙ e)
  Grounded-grown k a h (under _ m e g) =
      under k m (manager-grown k h ∙ e) (Grounded-grown m a (managed_lookup t k m a e) g)

  pub IsAcyclic-grown :
      All (IsManaged t) t
      → ((m : ℕ) → n.reports_to ≡ some m → is_none (lookup agent_id m t) ≡ false)
      → IsAcyclic t
      → IsAcyclic grown
  IsAcyclic-grown a bound g k = elim (Option-cases (lookup agent_id k t)) [
    | inr (r, e) ↦ Grounded-grown k a (ground arith) (g k)
    | inl e ↦ elim (Bool-cases (k == n.id)) [
      | inr q ↦ root k (manager-grown-none k q e)
      | inl q ↦ subst (Grounded grown) (sym (eq_of_== k (n.id) q)) (new_chain)
    ]
  ]
    where
      new_chain : Grounded grown n.id
      new_chain = elim (Option-cases (n.reports_to)) [
        | inl e ↦ root (n.id) (manager-grown_new ∙ e)
        | inr (m, e) ↦ under (n.id) m (manager-grown_new ∙ e) (Grounded-grown m a (bound m e) (g m))
      ]

  -- One report more for the manager of the new row.
  count-grown :
      (k : ℕ)
      → direct_report_count k grown
        ≡ direct_report_count k t + (if is_id n.reports_to k && is_active n then 1 else 0)
  unfolding direct_report_count
  count-grown k = omega (arith, count-append (reports k) t (n ∷ []))

  pub span-grown :
      IsKeyed agent_id t
      → All (IsManaged t) t
      → ((m : ℕ) (r : Agent)
          → n.reports_to ≡ some m
          → lookup agent_id m t ≡ some r
          → direct_report_count m t < direct_report_limit r.role)
      → is_id n.reports_to n.id ≡ false
      → All (IsWithinSpan t) t
      → All (IsWithinSpan grown) grown
  span-grown u a room self s = All-append (IsWithinSpan grown) t (n ∷ []) old (fresh_row, tt)
    where
      old_row :
          (r : Agent) → lookup agent_id r.id t ≡ some r → IsWithinSpan t r → IsWithinSpan grown r
      old_row r e w = elim (Bool-cases (is_id n.reports_to r.id)) [
        | inr q ↦ ground (arith, count-grown (r.id))
        | inl q ↦ ground (arith, count-grown (r.id), room (r.id) r (ground arith) e)
      ]

      old : All (IsWithinSpan grown) t
      old =
          All-both (λ r. lookup agent_id r.id t ≡ some r) (IsWithinSpan t) (IsWithinSpan grown) t
            old_row (IsKeyed-lookup agent_id t u) s

      fresh_row : IsWithinSpan grown n
      fresh_row = ground (arith, count-grown (n.id), no_reports t t (n.id) a new)

pub headcount-grown :
    (t : List Agent) (n : Agent)
    → active_count t < max_active_agents
    → active_count (t ++ n ∷ []) ≤ max_active_agents
unfolding active_count
headcount-grown t n h = ground (arith, count-append is_active t (n ∷ []))
