-- ===== src/Identity/Reassigning.antt =====
-- What `Org.reassign` leaves in the table: the rows as they were, or one edge moved.
use mathlib.Core.Path.{subst}
use agent_company_factory.Prelude.{
  ltb, ◌==◌, is_id, Bool-cases, Option-cases, length, ℕ, ◌≡◌, refl, sym, ◌⊎◌, inl, inr, true, false,
  none, some, List, arith,
}
use agent_company_factory.Prelude.Keyed.{lookup, set, key_of_lookup}
use agent_company_factory.Prelude.Action.{Result, ok, err}
use agent_company_factory.Identity.Model.{
  OrgError, Agent, Org, agent_id, is_special_role, is_active, get,
}
use agent_company_factory.Identity.Reason.{clean, min_fire_reason_chars}
use agent_company_factory.Identity.Reassign.{
  under_manager, refuse_actor, refuse_edge, find_pair, move, reassign,
}
use agent_company_factory.Identity.Invariant.{IsOrderly}
use agent_company_factory.Identity.Moving.{moved-IsOrderly}

-- What the pair that `reassign` moves has shown.
find_pair_lem :
    (target boss : ℕ) (t : List Agent) (p : Agent × Agent)
    → find_pair target boss t ≡ ok p
    → (lookup agent_id target t ≡ some p.0)
      × (lookup agent_id boss t ≡ some p.1)
      × (is_special_role p.0.role ≡ false)
      × (is_active p.0 ≡ true)
      × (is_active p.1 ≡ true)
unfolding find_pair
find_pair_lem target boss t p e = ground arith

agents-move :
    (fuel actor : ℕ) (reason : List ℕ) (a m : Agent) (s : Org)
    → refuse_actor actor a.reports_to (lookup agent_id actor s.agents) ≡ none
    → refuse_edge fuel a m s.agents ≡ none
    → set agent_id a.id (under_manager m.id) s.agents ≡ (move fuel actor reason a m s).1.agents
unfolding move get
agents-move fuel actor reason a m s p q = ground arith

stays :
    (fuel actor : ℕ) (reason : List ℕ) (a m : Agent) (s : Org) (e : OrgError)
    → (refuse_actor actor a.reports_to (lookup agent_id actor s.agents) ≡ some e)
      ⊎ (refuse_edge fuel a m s.agents ≡ some e)
    → s.agents ≡ (move fuel actor reason a m s).1.agents
unfolding move get
stays fuel actor reason a m s e (inl p) = ground arith
stays fuel actor reason a m s e (inr p) = ground arith

-- The edge that a call of `reassign` has put in the table `u`.
abbrev IsMoved : ℕ → List Agent → List Agent → Type 0
IsMoved fuel t u =
    (a : Agent) × (m : Agent) × (lookup agent_id a.id t ≡ some a)
    × (lookup agent_id m.id t ≡ some m)
    × ((m.id == a.id) ≡ false)
    × (refuse_edge fuel a m t ≡ none)
    × (set agent_id a.id (under_manager m.id) t ≡ u)

move_outcome :
    (fuel actor : ℕ) (reason : List ℕ) (a m : Agent) (s : Org)
    → lookup agent_id a.id s.agents ≡ some a
    → lookup agent_id m.id s.agents ≡ some m
    → (m.id == a.id) ≡ false
    → (s.agents ≡ (move fuel actor reason a m s).1.agents)
      ⊎ IsMoved fuel s.agents ((move fuel actor reason a m s).1.agents)
move_outcome fuel actor reason a m s ea em d =
    elim (Option-cases (refuse_actor actor a.reports_to (lookup agent_id actor s.agents))) [
      | inr (e, p) ↦ inl (stays fuel actor reason a m s e (inl p))
      | inl p ↦ elim (Option-cases (refuse_edge fuel a m s.agents)) [
        | inr (e, q) ↦ inl (stays fuel actor reason a m s e (inr q))
        | inl q ↦ inr (a, m, ea, em, d, q, agents-move fuel actor reason a m s p q)
      ]
    ]

found_id :
    (t : List Agent) (k : ℕ) (a : Agent)
    → lookup agent_id k t ≡ some a
    → lookup agent_id a.id t ≡ some a
found_id t k a e =
    subst (λ j. lookup agent_id j t ≡ some a) (sym (key_of_lookup agent_id k a t e)) e

module _ (fuel actor target boss : ℕ) (reason : List ℕ) (s : Org) where
  abbrev after : List Agent
  after = (reassign fuel actor target boss reason s).1.agents

  unmoved_early :
      (ltb (length (clean reason)) min_fire_reason_chars ≡ true) ⊎ ((target == boss) ≡ true)
      → s.agents ≡ after
  unfolding reassign
  unmoved_early (inl p) = ground arith
  unmoved_early (inr p) = ground arith

  unmoved_missing : (e : OrgError) → find_pair target boss s.agents ≡ err e → s.agents ≡ after
  unfolding reassign
  unmoved_missing e p = ground arith

  unmoved_same :
      (a m : Agent)
      → find_pair target boss s.agents ≡ ok (a, m)
      → is_id a.reports_to boss ≡ true
      → s.agents ≡ after
  unfolding reassign
  unmoved_same a m p q = ground arith

  reassign-move :
      (a m : Agent)
      → ltb (length (clean reason)) min_fire_reason_chars ≡ false
      → (target == boss) ≡ false
      → find_pair target boss s.agents ≡ ok (a, m)
      → is_id a.reports_to boss ≡ false
      → move fuel actor reason a m s ≡ reassign fuel actor target boss reason s
  unfolding reassign
  reassign-move a m p q e r = ground arith

  paired :
      (a m : Agent)
      → ltb (length (clean reason)) min_fire_reason_chars ≡ false
      → (target == boss) ≡ false
      → find_pair target boss s.agents ≡ ok (a, m)
      → (s.agents ≡ after) ⊎ IsMoved fuel s.agents after
  paired a m p q e = elim (Bool-cases (is_id a.reports_to boss)) [
    | inl r ↦ inl (unmoved_same a m e r)
    | inr r ↦
        let (ea, em, _, _, _) = find_pair_lem target boss s.agents (a, m) e in
        let ia = key_of_lookup agent_id target a s.agents ea in
        let im = key_of_lookup agent_id boss m s.agents em in
        subst (λ o. (s.agents ≡ o.1.agents) ⊎ IsMoved fuel s.agents (o.1.agents))
          (reassign-move a m p q e r)
          (move_outcome fuel actor reason a m s (found_id s.agents target a ea)
            (found_id s.agents boss m em) (ground arith))
  ]

  reassign_outcome : (s.agents ≡ after) ⊎ IsMoved fuel s.agents after
  reassign_outcome = elim (Bool-cases (ltb (length (clean reason)) min_fire_reason_chars)) [
    | inl p ↦ inl (unmoved_early (inl p))
    | inr p ↦ elim (Bool-cases (target == boss)) [
      | inl q ↦ inl (unmoved_early (inr q))
      | inr q ↦ by_pair (find_pair target boss s.agents) p q refl
    ]
  ]
    where
      by_pair :
          (o : Result OrgError (Agent × Agent))
          → ltb (length (clean reason)) min_fire_reason_chars ≡ false
          → (target == boss) ≡ false
          → find_pair target boss s.agents ≡ o
          → (s.agents ≡ after) ⊎ IsMoved fuel s.agents after
      by_pair (err e) p q w = inl (unmoved_missing e w)
      by_pair (ok (a, m)) p q w = paired a m p q w

-- A call of `reassign`, whatever it answers and whatever its fuel, keeps the chart in order: in
-- particular it closes no cycle and fills no manager beyond the limit.
pub reassign-IsOrderly :
    (fuel actor target boss : ℕ) (reason : List ℕ) (s : Org)
    → IsOrderly s.agents
    → IsOrderly (reassign fuel actor target boss reason s).1.agents
reassign-IsOrderly fuel actor target boss reason s o =
    elim (reassign_outcome fuel actor target boss reason s) [
      | inl e ↦ subst IsOrderly e o
      | inr (a, m, ea, em, d, q, e) ↦
          subst IsOrderly e (moved-IsOrderly fuel a m s.agents ea em d q o)
    ]
