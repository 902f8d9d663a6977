-- ===== src/Identity/Firing.antt =====
-- `Org.fire`: who can be fired and by whom, and what the chart is afterwards.
use mathlib.Core.Path.{subst}
use agent_company_factory.Prelude.{
  ◌==◌, if◌then◌else◌, is_none, Bool-cases, Option-cases, update, All, All-of_update, ℕ, ◌≡◌, refl,
  sym, ◌∙◌, ◌⊎◌, inl, inr, Bool, true, false, not, ◌&&◌, Option, none, some, List, [], ◌∷◌, arith,
}
use agent_company_factory.Prelude.Keyed.{lookup, set, update-IsKeyed}
use agent_company_factory.Prelude.Action.{ok}
use agent_company_factory.Identity.Reason.{validate_fire_reason}
use agent_company_factory.Identity.Model.{
  Agent, Org, agent_id, is_ceo, is_hr, is_active, reports, active_count, direct_report_count,
  manager, get_active, has_other_active_hr, Walk, found, top, out_of_fuel, depth,
}
use agent_company_factory.Identity.Fire.{
  direct_fired, mark_fired, detach, fire_rows, do_fire, refuse_fire, fire,
}
use agent_company_factory.Identity.Chart.{Above, Grounded_cut, Above-of_depth}
use agent_company_factory.Identity.Invariant.{
  IsManaged, IsWithinSpan, IsOrderly, present-update, count-update,
}

-- The chart after an UPDATE that keeps the keys, the roles and no manager that was not there.
pub record IsPruning (f : Agent → Agent) : Type 0 where
  pub same_id : (r : Agent) → (f r).id ≡ r.id
  pub same_role : (r : Agent) → (f r).role ≡ r.role
  pub no_new_manager : (r : Agent) → ((f r).reports_to ≡ none) ⊎ ((f r).reports_to ≡ r.reports_to)
  pub no_new_active : (r : Agent) → is_active r ≡ false → is_active (f r) ≡ false

module _ (p : Agent → Bool) (f : Agent → Agent) (w : IsPruning f) (t : List Agent) where
  abbrev pruned : List Agent
  pruned = update p f t

  manager-pruned : (k : ℕ) → (manager pruned k ≡ none) ⊎ (manager pruned k ≡ manager t k)
  unfolding manager
  manager-pruned = go t
    where
      go :
          (l : List Agent) (k : ℕ)
          → (manager (update p f l) k ≡ none) ⊎ (manager (update p f l) k ≡ manager l k)
      go [] k = inl refl
      go (x ∷ l) k = elim (Bool-cases (x.id == k)) [
        | inr q ↦ elim (go l k) [
          | inl e ↦ inl (ground (arith, e, w.same_id x))
          | inr e ↦ inr (ground (arith, e, w.same_id x))
        ]
        | inl q ↦ elim (Bool-cases (p x)) [
          | inr z ↦ inr (ground arith)
          | inl z ↦ elim (w.no_new_manager x) [
            | inl e ↦ inl (ground (arith, w.same_id x))
            | inr e ↦ inr (ground (arith, w.same_id x))
          ]
        ]
      ]

  reports_pruned : (k : ℕ) (r : Agent) → reports k r ≡ false → reports k (f r) ≡ false
  reports_pruned k r h = elim (w.no_new_manager r) [
    | inl e ↦ ground arith
    | inr e ↦ ground (arith, w.no_new_active r)
  ]

  span_pruned : All (IsWithinSpan t) t → All (IsWithinSpan pruned) pruned
  unfolding direct_report_count
  span_pruned = All-of_update (IsWithinSpan t) (IsWithinSpan pruned) p f t (λ r h. row r h (p r))
    where
      row : (r : Agent) → IsWithinSpan t r → (b : Bool) → IsWithinSpan pruned (if b then f r else r)
      row r h false = ground (arith, count-update (reports r.id) p f t (reports_pruned r.id))
      row r h true = ground (
        arith,
        w.same_id r,
        w.same_role r,
        count-update (reports r.id) p f t (reports_pruned r.id),
      )

  IsManaged-pruned : All (IsManaged t) t → All (IsManaged pruned) pruned
  IsManaged-pruned = All-of_update (IsManaged t) (IsManaged pruned) p f t (λ r h. row r h (p r))
    where
      row : (r : Agent) → IsManaged t r → (b : Bool) → IsManaged pruned (if b then f r else r)
      row r h false m e = present-update p f t m (λ x. w.same_id x) ∙ h m e
      row r h true m e = elim (w.no_new_manager r) [
        | inl n ↦ ground arith
        | inr n ↦ present-update p f t m (λ x. w.same_id x) ∙ h m (sym n ∙ e)
      ]

  pruned-IsOrderly : IsOrderly t → IsOrderly pruned
  unfolding active_count
  pruned-IsOrderly o = record {
    ids = update-IsKeyed agent_id f p t (λ r. w.same_id r) o.ids;
    managed = IsManaged-pruned o.managed;
    acyclic = λ k. Grounded_cut t pruned k manager-pruned (o.acyclic k);
    span = span_pruned o.span;
    headcount = ground (arith, count-update is_active p f t (λ r. w.no_new_active r), o.headcount);
  }

mark-IsPruning : (now actor : ℕ) (reason : List ℕ) → IsPruning (mark_fired now actor reason)
mark-IsPruning now actor reason = record {
  same_id = λ r. refl;
  same_role = λ r. refl;
  no_new_manager = λ r. inr refl;
  no_new_active = λ r h. refl;
}

detach-IsPruning : IsPruning detach
detach-IsPruning = record {
  same_id = λ r. refl;
  same_role = λ r. refl;
  no_new_manager = λ r. inl refl;
  no_new_active = λ r h. h;
}

pub fire_rows-IsOrderly :
    (now actor target : ℕ) (reason : List ℕ) (t : List Agent)
    → IsOrderly t
    → IsOrderly (fire_rows now actor target reason t)
unfolding fire_rows
fire_rows-IsOrderly now actor target reason t o =
    pruned-IsOrderly (reports target) detach detach-IsPruning
      (set agent_id target (mark_fired now actor reason) t)
      (pruned-IsOrderly (λ r. agent_id r == target) (mark_fired now actor reason)
        (mark-IsPruning now actor reason) t o)

do_fire_cases :
    (now actor target : ℕ) (reason : List ℕ) (s : Org)
    → (s.agents ≡ (do_fire now actor target reason s).1.agents)
      ⊎ (fire_rows now actor target reason s.agents ≡ (do_fire now actor target reason s).1.agents)
unfolding do_fire
do_fire_cases now actor target reason s = elim (Option-cases (lookup agent_id target s.agents)) [
  | inl e ↦ inl (ground arith)
  | inr (a, e) ↦ elim (Bool-cases (is_hr a.role && not (has_other_active_hr target s.agents))) [
    | inl h ↦ inl (ground arith)
    | inr h ↦ elim (Bool-cases (is_none (lookup agent_id actor s.agents))) [
      | inl q ↦ inl (ground arith)
      | inr q ↦ inr (ground arith)
    ]
  ]
]

-- A firing that is carried out, or refused, keeps the chart in order.
pub do_fire-IsOrderly :
    (now actor target : ℕ) (reason : List ℕ) (s : Org)
    → IsOrderly s.agents
    → IsOrderly (do_fire now actor target reason s).1.agents
do_fire-IsOrderly now actor target reason s o = elim (do_fire_cases now actor target reason s) [
  | inl e ↦ subst IsOrderly e o
  | inr e ↦ subst IsOrderly e (fire_rows-IsOrderly now actor target reason s.agents o)
]

pub refuse_fire_lem :
    (via_hr : Bool) (oa ob : Option Agent) (t : List Agent)
    → refuse_fire via_hr oa ob t ≡ none
    → (via_hr ≡ true)
      × (a : Agent) × (b : Agent) × (oa ≡ some a)
      × (ob ≡ some b)
      × (is_ceo b.role ≡ false)
      × ((is_hr b.role && not (has_other_active_hr b.id t)) ≡ false)
unfolding refuse_fire
refuse_fire_lem via_hr none ob t e = ground arith
refuse_fire_lem via_hr (some a) none t e = ground arith
refuse_fire_lem via_hr (some a) (some b) t e =
    (ground arith, a, b, refl, refl, ground arith, ground arith)

pub depth_positive :
    (t : List Agent) (fuel a k d : ℕ) → depth fuel a k t ≡ found d → (d == 0) ≡ false → Above t a k
unfolding depth
depth_positive t fuel a k d h z = elim (Bool-cases (a == k)) [
  | inl q ↦ ground arith
  | inr q ↦ Above-of_depth t a fuel 0 d k (ground arith)
]

-- What a call of `fire` has checked when it ends in a firing.
pub fire_guards :
    (fuel now actor target : ℕ) (reason : List ℕ) (via_hr : Bool) (s : Org) (w : Walk)
    → depth fuel actor target s.agents ≡ w
    → (fire fuel now actor target reason via_hr s).0 ≡ ok direct_fired
    → (refuse_fire via_hr (get_active actor s.agents) (get_active target s.agents) s.agents ≡ none)
      × (d : ℕ) × (w ≡ found d)
      × ((d == 0) ≡ false)
      × (validate_fire_reason reason ≡ none)
unfolding fire
fire_guards fuel now actor target reason via_hr s out_of_fuel e h = ground arith
fire_guards fuel now actor target reason via_hr s top e h = ground arith
fire_guards fuel now actor target reason via_hr s (found d) e h =
    (ground arith, d, refl, ground arith, ground arith)
