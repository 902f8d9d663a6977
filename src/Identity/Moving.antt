-- ===== src/Identity/Moving.antt =====
-- The table after a move of `Org.reassign` that has passed the checks.
use agent_company_factory.Prelude.{
  ◌==◌, if◌then◌else◌, is_none, eq_of_==, Bool-cases, Option-cases, All, All-both, All-of_update, ℕ,
  ◌+◌, ◌≤◌, ◌<◌, ◌≡◌, refl, sym, ap, ◌∙◌, inl, inr, false, none, some, List, arith,
}
use agent_company_factory.Prelude.Keyed.{
  flag, lookup, set, IsKeyed, lookup-set, set-IsKeyed, IsKeyed-lookup, count-set,
}
use agent_company_factory.Identity.Model.{
  Agent, agent_id, is_active, direct_report_limit, reports, active_count, direct_report_count,
  manager,
}
use agent_company_factory.Identity.Reassign.{meets, under_manager, refuse_edge}
use agent_company_factory.Identity.Chart.{
  Grounded, root, under, IsAcyclic, Grounded_move, Grounded_of_meets,
}
use agent_company_factory.Identity.Invariant.{
  IsManaged, IsWithinSpan, IsOrderly, manager_row, present-update,
}

-- What a move that passes the checks has shown.
refuse_edge_lem :
    (fuel : ℕ) (a m : Agent) (t : List Agent)
    → refuse_edge fuel a m t ≡ none
    → (direct_report_count m.id t < direct_report_limit m.role)
      × (meets fuel a.id m.reports_to t ≡ some false)
unfolding refuse_edge
refuse_edge_lem fuel a m t e = ground arith

module _ (fuel : ℕ) (a m : Agent) (t : List Agent) (ea : lookup agent_id a.id t ≡ some a)
    (em : lookup agent_id m.id t ≡ some m) (differ : (m.id == a.id) ≡ false)
    (free : refuse_edge fuel a m t ≡ none) where
  abbrev moved : List Agent
  moved = set agent_id a.id (under_manager m.id) t

  manager-moved : (k : ℕ) → manager moved k ≡ (if k == a.id then some m.id else manager t k)
  unfolding manager
  manager-moved k = ground (arith, lookup-set agent_id (under_manager m.id) (λ r. refl) k a.id t)

  others : (k : ℕ) → (k == a.id) ≡ false → manager moved k ≡ manager t k
  others k q = ground (arith, manager-moved k)

  chain_above : Grounded moved m.id
  chain_above = elim (Option-cases (m.reports_to)) [
    | inl e ↦ root m.id (others m.id differ ∙ manager_row t m.id m em ∙ e)
    | inr (c, e) ↦ under m.id c (others m.id differ ∙ manager_row t m.id m em ∙ e) (
        Grounded_of_meets t moved a.id fuel c others
          (ap (λ o. meets fuel a.id o t) (sym e) ∙ (refuse_edge_lem fuel a m t free).1))
  ]

  IsAcyclic-moved : IsAcyclic t → IsAcyclic moved
  IsAcyclic-moved g k =
      Grounded_move t moved a.id k others
        (under a.id m.id (ground (arith, manager-moved a.id)) chain_above) (g k)

  count-moved :
      (k : ℕ)
      → IsKeyed agent_id t
      → direct_report_count k moved ≤ direct_report_count k t + flag (m.id == k)
  unfolding direct_report_count
  count-moved k u =
      ground (arith, count-set agent_id (under_manager m.id) a.id a (reports k) t u ea)

  span-moved : IsKeyed agent_id t → All (IsWithinSpan t) t → All (IsWithinSpan moved) moved
  span-moved u s =
      All-of_update (λ r. (lookup agent_id r.id t ≡ some r) × IsWithinSpan t r) (IsWithinSpan moved)
        (λ r. agent_id r == a.id) (under_manager m.id) t (λ r (e, w). row r e w)
        (All-both (λ r. lookup agent_id r.id t ≡ some r) (IsWithinSpan t)
          (λ r. (lookup agent_id r.id t ≡ some r) × IsWithinSpan t r) t (λ r e w. (e, w))
          (IsKeyed-lookup agent_id t u) s)
    where
      room : direct_report_count m.id t < direct_report_limit m.role
      room = (refuse_edge_lem fuel a m t free).0

      small :
          (r : Agent) → lookup agent_id r.id t ≡ some r → IsWithinSpan t r → IsWithinSpan moved r
      small r e w = elim (Bool-cases (m.id == r.id)) [
        | inl q ↦
            ground (
              arith,
              count-moved r.id u,
              room,
              ap (λ k. lookup agent_id k t) (eq_of_== m.id r.id q),
            )
        | inr q ↦ ground (arith, count-moved r.id u)
      ]

      row :
          (r : Agent)
          → lookup agent_id r.id t ≡ some r
          → IsWithinSpan t r
          → IsWithinSpan moved (if agent_id r == a.id then under_manager m.id r else r)
      row r e w = elim (Bool-cases (agent_id r == a.id)) [
        | inl q ↦ rw q (small r e w)
        | inr q ↦ rw q (small r e w)
      ]

  present :
      (k : ℕ) → is_none (lookup agent_id k t) ≡ false → is_none (lookup agent_id k moved) ≡ false
  present k e = present-update (λ r. agent_id r == a.id) (under_manager m.id) t k (λ r. refl) ∙ e

  IsManaged-moved : All (IsManaged t) t → All (IsManaged moved) moved
  IsManaged-moved =
      All-of_update (IsManaged t) (IsManaged moved) (λ r. agent_id r == a.id) (under_manager m.id) t
        (λ r w. row r w)
    where
      row :
          (r : Agent)
          → IsManaged t r
          → IsManaged moved (if agent_id r == a.id then under_manager m.id r else r)
      row r w = elim (Bool-cases (agent_id r == a.id)) [
        | inl q ↦ rw q (λ k e. present k (ground arith))
        | inr q ↦ rw q (λ k e. present k (w k e))
      ]

  pub moved-IsOrderly : IsOrderly t → IsOrderly moved
  unfolding active_count
  moved-IsOrderly o = record {
    ids = set-IsKeyed agent_id (under_manager m.id) (λ r. refl) a.id t o.ids;
    managed = IsManaged-moved o.managed;
    acyclic = IsAcyclic-moved o.acyclic;
    span = span-moved o.ids o.span;
    headcount =
        ground
          (arith, count-set agent_id (under_manager m.id) a.id a is_active t o.ids ea, o.headcount);
  }
