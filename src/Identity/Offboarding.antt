-- ===== src/Identity/Offboarding.antt =====
-- What a firing by `Org.fire` guarantees, and that any series of calls keeps the chart in order.
use mathlib.Core.Path.{subst}
use agent_company_factory.Prelude.{
  ◌==◌, Bool-cases, Option-cases, length, update, length-select, select-update, ℕ, ◌≡◌, refl, sym,
  ap, ◌∙◌, ◌⊎◌, inl, inr, Bool, true, false, not, ◌&&◌, none, some, List, [], ◌∷◌, arith,
}
use agent_company_factory.Prelude.Keyed.{set}
use agent_company_factory.Prelude.Action.{ok}
use agent_company_factory.Identity.Model.{
  Agent, Org, agent_id, is_ceo, is_hr, reports, direct_report_count, get_active,
  has_other_active_hr, Walk, found, top, out_of_fuel, depth,
}
use agent_company_factory.Identity.Reason.{validate_fire_reason}
use agent_company_factory.Identity.Hire.{Hire, add_agent}
use agent_company_factory.Identity.Reassign.{reassign}
use agent_company_factory.Identity.Fire.{
  direct_fired, mark_fired, detach, fire_rows, do_fire, refuse_fire, fire_now, fire,
}
use agent_company_factory.Identity.Chart.{Above}
use agent_company_factory.Identity.Invariant.{IsOrderly}
use agent_company_factory.Identity.Hiring.{add_agent-IsOrderly}
use agent_company_factory.Identity.Reassigning.{reassign-IsOrderly}
use agent_company_factory.Identity.Firing.{
  do_fire-IsOrderly, refuse_fire_lem, depth_positive, fire_guards,
}

orphaned :
    (now actor target : ℕ) (reason : List ℕ) (t : List Agent)
    → direct_report_count target (fire_rows now actor target reason t) ≡ 0
unfolding direct_report_count fire_rows
orphaned now actor target reason t =
    let u = set agent_id target (mark_fired now actor reason) t in
    sym (length-select (reports target) (update (reports target) detach u))
    ∙ ap length (select-update (reports target) detach u (λ r h. refl))

gone :
    (now actor target : ℕ) (reason : List ℕ) (t : List Agent)
    → get_active target (fire_rows now actor target reason t) ≡ none
unfolding get_active fire_rows
gone now actor target reason [] = refl
gone now actor target reason (x ∷ t) = ground (arith, gone now actor target reason t)

-- The firing that `fire` ends in.
fire-do_fire :
    (fuel now actor target : ℕ) (reason : List ℕ) (via_hr : Bool) (s : Org) (d : ℕ)
    → refuse_fire via_hr (get_active actor s.agents) (get_active target s.agents) s.agents ≡ none
    → depth fuel actor target s.agents ≡ found d
    → (d == 0) ≡ false
    → validate_fire_reason reason ≡ none
    → fire fuel now actor target reason via_hr s ≡ fire_now now actor target reason s
unfolding fire
fire-do_fire fuel now actor target reason via_hr s d e w z v = ground arith

do_fire-agents :
    (now actor target : ℕ) (reason : List ℕ) (s : Org)
    → (fire_now now actor target reason s).0 ≡ ok direct_fired
    → (fire_now now actor target reason s).1.agents ≡ fire_rows now actor target reason s.agents
unfolding do_fire
do_fire-agents now actor target reason s h = ground arith

-- An agent that `fire` has fired was active and not the CEO, stood below an active actor in the
-- chart, and if it was HR another active HR is left; the call came through HR with a reason that
-- passes the checks. Afterwards the agent is not active and no active agent reports to it.
pub fire_lem :
    (fuel now actor target : ℕ) (reason : List ℕ) (via_hr : Bool) (s : Org)
    → (fire fuel now actor target reason via_hr s).0 ≡ ok direct_fired
    → (via_hr ≡ true)
      × Above s.agents actor target
      × (validate_fire_reason reason ≡ none)
      × ((a : Agent) × (b : Agent) × (get_active actor s.agents ≡ some a)
          × (get_active target s.agents ≡ some b)
          × (is_ceo b.role ≡ false)
          × ((is_hr b.role && not (has_other_active_hr b.id s.agents)) ≡ false))
      × (get_active target (fire fuel now actor target reason via_hr s).1.agents ≡ none)
      × (direct_report_count target (fire fuel now actor target reason via_hr s).1.agents ≡ 0)
fire_lem fuel now actor target reason via_hr s h =
    let (e, d, w, z, v) =
      fire_guards fuel now actor target reason via_hr s (depth fuel actor target s.agents) refl h in
    let (hr_only, a, b, ea, eb, boss, last) =
      refuse_fire_lem via_hr (get_active actor s.agents) (get_active target s.agents) s.agents e in
    let same = fire-do_fire fuel now actor target reason via_hr s d e w z v in
    let rows =
      ap (λ o. o.1.agents) same
      ∙ do_fire-agents now actor target reason s (ap (λ o. o.0) (sym same) ∙ h) in
    (
      hr_only,
      depth_positive s.agents fuel actor target d w z,
      v,
      (a, b, ea, eb, boss, last),
      ap (get_active target) rows ∙ gone now actor target reason s.agents,
      ap (direct_report_count target) rows ∙ orphaned now actor target reason s.agents,
    )

-- A call of the module, with what it is given.
pub data Op : Type 0 where
  hiring : (now fresh : ℕ) → Hire → Op
  moving : (fuel actor target boss : ℕ) → List ℕ → Op
  firing : (fuel now actor target : ℕ) → List ℕ → Bool → Op

abbrev pub step : Op → Org → Org
step (hiring now fresh h) s = (add_agent now fresh h s).1
step (moving fuel actor target boss reason) s = (reassign fuel actor target boss reason s).1
step (firing fuel now actor target reason via_hr) s = (fire fuel now actor target reason via_hr s).1

abbrev pub run : List Op → Org → Org
run [] s = s
run (o ∷ os) s = run os (step o s)

fire_cases :
    (fuel now actor target : ℕ) (reason : List ℕ) (via_hr : Bool) (s : Org)
    → (s.agents ≡ (fire fuel now actor target reason via_hr s).1.agents)
      ⊎ ((do_fire now actor target reason s).1.agents
          ≡ (fire fuel now actor target reason via_hr s).1.agents)
unfolding fire
fire_cases fuel now actor target reason via_hr s =
    elim (Option-cases
      (refuse_fire via_hr (get_active actor s.agents) (get_active target s.agents) s.agents)) [
        | inr (e, q) ↦ inl (ground arith)
        | inl q ↦ by_walk (depth fuel actor target s.agents) q refl
      ]
  where
    by_walk :
        (w : Walk)
        → refuse_fire via_hr (get_active actor s.agents) (get_active target s.agents) s.agents
          ≡ none
        → depth fuel actor target s.agents ≡ w
        → (s.agents ≡ (fire fuel now actor target reason via_hr s).1.agents)
          ⊎ ((do_fire now actor target reason s).1.agents
              ≡ (fire fuel now actor target reason via_hr s).1.agents)
    by_walk out_of_fuel q e = inl (ground arith)
    by_walk top q e = inl (ground arith)
    by_walk (found d) q e = elim (Bool-cases (d == 0)) [
      | inl z ↦ inl (ground arith)
      | inr z ↦ elim (Option-cases (validate_fire_reason reason)) [
        | inr (x, v) ↦ inl (ground arith)
        | inl v ↦ inr (ground arith)
      ]
    ]

pub step-IsOrderly : (o : Op) (s : Org) → IsOrderly s.agents → IsOrderly (step o s).agents
step-IsOrderly (hiring now fresh h) s w = add_agent-IsOrderly now fresh h s w
step-IsOrderly (moving fuel actor target boss reason) s w =
    reassign-IsOrderly fuel actor target boss reason s w
step-IsOrderly (firing fuel now actor target reason via_hr) s w =
    elim (fire_cases fuel now actor target reason via_hr s) [
      | inl e ↦ subst IsOrderly e w
      | inr e ↦ subst IsOrderly e (do_fire-IsOrderly now actor target reason s w)
    ]

-- Any series of hires, moves and firings, each accepted or refused, leaves a company with an
-- orderly chart in order: one row for each agent, managers that have rows, chains of managers that
-- end, no manager beyond its limit of active reports, and at most a hundred active agents.
pub run-IsOrderly : (os : List Op) (s : Org) → IsOrderly s.agents → IsOrderly (run os s).agents
run-IsOrderly [] s w = w
run-IsOrderly (o ∷ os) s w = run-IsOrderly os (step o s) (step-IsOrderly o s w)
