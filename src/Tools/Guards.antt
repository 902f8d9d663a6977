-- ===== src/Tools/Guards.antt =====
-- What a call has passed when its tool runs.
use mathlib.Core.Path.{subst}
use agent_company_factory.Approvals.Model.{
  ApprovalStatus, pending, approved, ApprovalError, Approval, Row, Policy,
}
use agent_company_factory.Approvals.Preserve.{request_known}
use agent_company_factory.Approvals.Service.{
  Approvals, id_of, row_to_approval, Request, create, request,
}
use agent_company_factory.Cost.Budget.{can_afford}
use agent_company_factory.Cost.Model.{Reservation, Budget}
use agent_company_factory.Cost.Spending.{admit, reserve, release}
use agent_company_factory.Identity.Model.{Agent, agent_id, is_active}
use agent_company_factory.Prelude.{
  or_else, Bool-cases, Option-cases, ℕ, String, ◌≡◌, refl, sym, ap, ◌∙◌, ◌⊎◌, inl, inr, true, false,
  none, some, arith,
}
use agent_company_factory.Prelude.Action.{Result, ok, err}
use agent_company_factory.Prelude.Keyed.{lookup}
use agent_company_factory.Tools.Invoke.{
  Answer, answer_approved, answer_pending, answer_denied, answer_of, needs_approval, request_of,
  Surroundings, estimate_of, refusal_of, context_of, handle_approval, act_on, approve_and_execute,
  invoke_new, invoke,
}
use agent_company_factory.Tools.Model.{
  ToolError, approval_denied, ToolContext, ToolDef, ToolResult, ToolEvent, InvokeError,
  approval_error, Tools, is_role_allowed,
}
use agent_company_factory.Tools.Pipeline.{
  Invoke, ToolCall, denied_event, fail, emit_only, release_then,
}
use agent_company_factory.Tools.Reach.{
  reserved_state, Reached, no_agent, no_estimate, fails_early, Reached-invoke_new, hit, missed,
  no_reservation, goes_on,
}
use agent_company_factory.Tools.Registry.{get_tool}

abbrev pub Out : Type 0 → Type 0
Out W = Result InvokeError ToolResult × Tools W

-- Nothing was executed and nothing spent.
pub record IsUnrun {W : Type 0} (s t : Tools W) : Type 0 where
  pub same_world : t.world ≡ s.world
  pub same_expenses : t.budget.expenses ≡ s.budget.expenses

-- A request with the identifier of the call that is approved.
abbrev pub IsApproved : ℕ → Approvals → Type 0
IsApproved cid q = (row : Row) × (lookup id_of cid q.rows ≡ some row) × (row.status ≡ approved)

-- The tool is registered, the agent active and of a role that the tool allows, the arguments are valid
-- and permitted by the tool, the estimator gives an amount that the budget affords, and where the
-- tool wants an approval, there was one before the call.
pub record IsCleared {W : Type 0} (env : Surroundings) (c : ToolCall) (s : Tools W) : Type 0 where
  pub t : ToolDef W
  pub person : Agent
  pub parsed : String
  pub found : get_tool c.tool s ≡ ok t
  pub known : lookup agent_id c.agent_id s.identity ≡ some person
  pub active_person : is_active person ≡ true
  pub role_allowed : is_role_allowed person.role t ≡ true
  pub valid_args : t.schema c.args ≡ ok parsed
  pub permitted : refusal_of t (context_of c person) parsed s.world ≡ none
  pub amount : ℕ
  pub estimated : estimate_of t parsed ≡ ok amount
  pub affordable : can_afford amount s.budget ≡ true
  pub decided : (needs_approval t.requires_approval ≡ false) ⊎ IsApproved c.cid s.approvals

reserve_affordable :
    (now fresh amount : ℕ) (ref : String) (b b' : Budget) (row : Reservation)
    → reserve now fresh amount ref b ≡ (ok row, b')
    → (can_afford amount b ≡ true) × (b'.expenses ≡ b.expenses)
unfolding reserve can_afford admit
reserve_affordable now fresh amount ref b b' row h = ground arith

release-expenses : (rid : ℕ) (b : Budget) → (release rid b).1.expenses ≡ b.expenses
unfolding release
release-expenses rid b = ground arith

module _ {W : Type 0} where
  release_then-fail-IsUnrun :
      (rid : ℕ) (event : ToolError → ToolEvent) (c : ToolCall) (e : ToolError) (s : Tools W)
      → IsUnrun s (release_then rid (fail event c e) s).1
  unfolding release_then fail
  release_then-fail-IsUnrun rid event c e s = record {
    same_world = ground (arith, release-expenses rid s.budget);
    same_expenses = ground (arith, release-expenses rid s.budget);
  }

  release_then_emit-IsUnrun :
      (rid : ℕ) (c : ToolCall) (s : Tools W) → IsUnrun s (release_then rid (emit_only c) s).1
  unfolding release_then emit_only
  release_then_emit-IsUnrun rid c s = record {
    same_world = ground (arith, release-expenses rid s.budget);
    same_expenses = ground (arith, release-expenses rid s.budget);
  }

create_pending :
    (p : Policy) (now rid : ℕ) (q : Request) (s : Approvals) (a : Approval)
    → (create p now rid q s).0 ≡ ok a
    → a.status ≡ pending
unfolding create
create_pending p now rid q s a h = ground arith

same_state : (row : Row) (a : Approval) → row_to_approval row ≡ ok a → row.status ≡ a.status
unfolding row_to_approval
same_state row a h = ground arith

pub request_fresh :
    (p : Policy) (now fresh rid : ℕ) (q : Request) (s : Approvals)
    → or_else q.request_id fresh ≡ rid
    → lookup id_of rid s.rows ≡ none
    → create p now rid q s ≡ request p now fresh q s
unfolding request
request_fresh p now fresh rid q s e z = ground arith

pending≢approved : ¬ (pending ≡ approved)
pending≢approved h = ground arith

-- A request is answered with an approval only where the table had one.
request_approved :
    (p : Policy) (now fresh rid : ℕ) (q : Request) (s : Approvals) (a : Approval)
    → or_else q.request_id fresh ≡ rid
    → (request p now fresh q s).0 ≡ ok a
    → a.status ≡ approved
    → IsApproved rid s
request_approved p now fresh rid q s a e h z = elim (Option-cases (lookup id_of rid s.rows)) [
  | inl f ↦
      let late =
        create_pending p now rid q s a
          (ap (λ x. x.0) (request_fresh p now fresh rid q s e f) ∙ h) in
      absurd (pending≢approved (sym late ∙ z))
  | inr (row, f) ↦
      let known = request_known p now fresh q s row (ap (λ k. lookup id_of k s.rows) e ∙ f) in
      (row, f, same_state row a (sym (ap (λ x. x.0) known) ∙ h) ∙ z)
]

approved_of : (z : ApprovalStatus) → answer_of z ≡ answer_approved → z ≡ approved
approved_of z h = ground arith

or_later : {A B C : Type 0} → A ⊎ B → A ⊎ (C ⊎ B)
or_later (inl a) = inl a
or_later (inr b) = inr (inr b)

-- Going on with what a first part has returned.
abbrev follow : {W A : Type 0} → Result InvokeError A × Tools W → (A → Invoke W ToolResult) → Out W
follow x f = elim x.0 [ ok a ↦ f a x.1 | err e ↦ (err e, x.1) ]

-- What the part that asks leaves: an approval comes from the table.
record IsAnswer {W : Type 0} (cid : ℕ) (s : Tools W) (x : Result InvokeError Answer × Tools W)
    : Type 0 where
  same_world : x.1.world ≡ s.world
  same_budget : x.1.budget ≡ s.budget
  was_approved : x.0 ≡ ok answer_approved → IsApproved cid s.approvals

module _ {W : Type 0} (env : Surroundings) (c : ToolCall) (t : ToolDef W) where
  abbrev asking : Request
  asking = request_of t.requires_approval c (env.payload_of c)

  handle_approval-IsAnswer : (s : Tools W) → IsAnswer c.cid s (handle_approval env c t s)
  unfolding handle_approval
  handle_approval-IsAnswer s =
      go (request env.policy env.draws.now env.draws.fresh_call asking s.approvals) refl
    where
      go :
          (x : Result ApprovalError Approval × Approvals)
          → request env.policy env.draws.now env.draws.fresh_call asking s.approvals ≡ x
          → IsAnswer {W = W} c.cid s (elim x.0 [
            | err e ↦ (err (approval_error e), record s { approvals = x.1 })
            | ok a ↦ (ok (answer_of a.status), record s { approvals = x.1 })
          ])
      go (err e, q) h = record {
        same_world = refl;
        same_budget = refl;
        was_approved = λ z. ground arith;
      }
      go (ok a, q) h = record {
        same_world = refl;
        same_budget = refl;
        was_approved = λ z.
            request_approved env.policy env.draws.now env.draws.fresh_call c.cid asking s.approvals
              a refl (ap (λ x. x.0) h) (approved_of a.status (ground arith));
      }

  act_on-IsUnrun :
      (ctx : ToolContext) (parsed : String) (rid estimate : ℕ) (a : Answer) (s : Tools W)
      → IsUnrun s (act_on env c t ctx parsed rid estimate a s).1 ⊎ (a ≡ answer_approved)
  unfolding act_on
  act_on-IsUnrun ctx parsed rid estimate answer_approved s = inr refl
  act_on-IsUnrun ctx parsed rid estimate answer_pending s = inl (release_then_emit-IsUnrun rid c s)
  act_on-IsUnrun ctx parsed rid estimate answer_denied s =
      inl (release_then-fail-IsUnrun rid (denied_event c) c (approval_denied c.cid) s)

  approve_and_execute-IsUnrun :
      (ctx : ToolContext) (parsed : String) (rid estimate : ℕ) (s : Tools W)
      → IsUnrun s (approve_and_execute env c t ctx parsed rid estimate s).1
        ⊎ ((needs_approval t.requires_approval ≡ false) ⊎ IsApproved c.cid s.approvals)
  unfolding approve_and_execute
  approve_and_execute-IsUnrun ctx parsed rid estimate s =
      elim (Bool-cases (needs_approval t.requires_approval)) [
        | inl q ↦ rw q (or_later (asked (handle_approval env c t s) (handle_approval-IsAnswer s)))
        | inr q ↦ inr (inl q)
      ]
    where
      answered :
          (a : Answer) (s' : Tools W)
          → IsAnswer c.cid s (ok a, s')
          → (IsUnrun s' (act_on env c t ctx parsed rid estimate a s').1 ⊎ (a ≡ answer_approved))
          → IsUnrun s (act_on env c t ctx parsed rid estimate a s').1 ⊎ IsApproved c.cid s.approvals
      answered a s' v (inl u) = inl (record {
        same_world = u.same_world ∙ v.same_world;
        same_expenses = u.same_expenses ∙ ap (λ (b : Budget). b.expenses) v.same_budget;
      })
      answered a s' v (inr z) = inr (v.was_approved (ap ok z))

      asked :
          (x : Result InvokeError Answer × Tools W)
          → IsAnswer c.cid s x
          → IsUnrun s (follow x (act_on env c t ctx parsed rid estimate)).1
            ⊎ IsApproved c.cid s.approvals
      asked (err e, s') v = inl (record {
        same_world = v.same_world;
        same_expenses = ap (λ (b : Budget). b.expenses) v.same_budget;
      })
      asked (ok a, s') v = answered a s' v (act_on-IsUnrun ctx parsed rid estimate a s')

module _ {W : Type 0} where
  Reached-guarded :
      (env : Surroundings) (c : ToolCall) (s : Tools W) (out : Out W)
      → Reached env c s out
      → IsUnrun s out.1 ⊎ IsCleared env c s
  unfolding fail
  Reached-guarded env c s _ (no_agent k) = inl (record { same_world = refl; same_expenses = refl })
  Reached-guarded env c s _ (no_estimate e v) =
      inl (record { same_world = refl; same_expenses = refl })
  Reached-guarded env c s _ (no_reservation amount e b k z) =
      inl (record { same_world = refl; same_expenses = refl })
  Reached-guarded env c s _ (fails_early e) =
      inl (record { same_world = refl; same_expenses = refl })
  Reached-guarded env c s _ (goes_on t person parsed amount row b v) =
      let (rich, same) =
        reserve_affordable env.draws.now env.draws.fresh_reservation amount (env.shown c.cid)
          s.budget b row v.reserved in
      elim (approve_and_execute-IsUnrun env c t (context_of c person) parsed row.id amount
        (reserved_state b s)) [
          | inl u ↦
              inl (record { same_world = u.same_world; same_expenses = u.same_expenses ∙ same })
          | inr z ↦ inr (record {
            t = t;
            person = person;
            parsed = parsed;
            found = v.found;
            known = v.known;
            active_person = v.active_person;
            role_allowed = v.role_allowed;
            valid_args = v.valid_args;
            permitted = v.permitted;
            amount = amount;
            estimated = v.estimated;
            affordable = rich;
            decided = z;
          })
        ]

  -- A call executes nothing and spends nothing, or else its tool is registered, its agent active and
  -- of a role that the tool allows, its arguments valid and permitted, its estimate within the
  -- budget, and, where the tool wants an approval, a request with the identifier of the call was
  -- approved before.
  pub invoke_guarded :
      (env : Surroundings) (who name : ℕ) (args : String) (cid : ℕ) (s : Tools W)
      → IsUnrun s (invoke env who name args (some cid) s).1
        ⊎ IsCleared env (record { agent_id = who; tool = name; args = args; cid = cid }) s
  invoke_guarded env who name args cid s =
      let c : ToolCall = record { agent_id = who; tool = name; args = args; cid = cid } in
      elim (Option-cases (s.completed cid)) [
        | inl e ↦
            subst (λ (x : Out W). IsUnrun s x.1 ⊎ IsCleared env c s)
              (missed env who name args cid s e)
              (Reached-guarded env c s (invoke_new env c s) (Reached-invoke_new env c s))
        | inr (q, e) ↦
            subst (λ (x : Out W). IsUnrun s x.1 ⊎ IsCleared env c s)
              (hit env who name args cid s q e)
              (inl (record { same_world = refl; same_expenses = refl }))
      ]
