-- ===== src/Tools/Settling.antt =====
-- The money of a call: no reservation stays open, and what is spent is the cost of the result.
use mathlib.Core.Path.{subst}
use mathlib.Core.Bool.{false≢true}
use agent_company_factory.Approvals.Model.{board, ApprovalError, make_route, Approval, Row, Policy}
use agent_company_factory.Approvals.Preserve.{request_known}
use agent_company_factory.Approvals.Service.{
  Approvals, id_of, row_to_approval, Request, create, request,
}
use agent_company_factory.Cost.Bounds.{admit_sums}
use agent_company_factory.Cost.Budget.{sum_expenses, sum_open_reservations}
use agent_company_factory.Cost.Model.{CostError, Reservation, Budget, reservation_id, expense_id_of}
use agent_company_factory.Cost.Spending.{new_reservation, admit, reserve}
use agent_company_factory.Identity.Model.{Agent, agent_id}
use agent_company_factory.Prelude.{
  ◌==◌, is_none, or_else, ==_refl, Bool-cases, Option-cases, find-append_new, ℕ, ◌+◌, String, ◌≡◌,
  refl, sym, ap, ◌∙◌, ◌⊎◌, inl, inr, true, false, false≢true, none, some, arith,
}
use agent_company_factory.Prelude.Action.{Result, ok, err, is_ok, bind_ok}
use agent_company_factory.Prelude.Keyed.{lookup, IsKeyed, IsKeyed-append}
use agent_company_factory.Tools.Freeing.{
  cost_of, IsHeld, IsFreed, IsFreed-release_fail, IsFreed-release_emit, LeavesBudget,
  IsFreed-execute,
}
use agent_company_factory.Tools.Guards.{request_fresh}
use agent_company_factory.Tools.Invoke.{
  Answer, answer_approved, answer_pending, answer_denied, answer_of, needs_approval, request_of,
  Surroundings, context_of, handle_approval, act_on, approve_and_execute, invoke_new, invoke,
}
use agent_company_factory.Tools.Model.{
  ToolError, approval_denied, ToolContext, ToolDef, ToolResult, InvokeError, estimate_error,
  approval_error, Tools,
}
use agent_company_factory.Tools.Pipeline.{ToolCall, denied_event, fail}
use agent_company_factory.Tools.Reach.{
  IsAdmitted, reserved_state, over_limit, IsUnpriced, Reached, no_agent, no_estimate, fails_early,
  Reached-invoke_new, missed, no_reservation, goes_on,
}
use agent_company_factory.Tools.Registry.{get_tool}

-- A request with the identifier can be read back, if there is one.
abbrev pub IsReadable : ℕ → Approvals → Type 0
IsReadable cid q =
    (row : Row) → lookup id_of cid q.rows ≡ some row → is_ok (row_to_approval row) ≡ true

create_returns :
    (p : Policy) (now rid : ℕ) (q : Request) (s : Approvals)
    → q.route ≡ record { target = board; agent_id = none; require_security = false }
    → is_ok (create p now rid q s).0 ≡ true
unfolding create make_route
create_returns p now rid q s h = ground arith

request_returns :
    (p : Policy) (now fresh cid : ℕ) (q : Request) (s : Approvals)
    → q.route ≡ record { target = board; agent_id = none; require_security = false }
    → or_else q.request_id fresh ≡ cid
    → IsReadable cid s
    → is_ok (request p now fresh q s).0 ≡ true
request_returns p now fresh cid q s z h w = elim (Option-cases (lookup id_of cid s.rows)) [
  | inl f ↦
      subst (λ (x : Result ApprovalError Approval × Approvals). is_ok x.0 ≡ true)
        (request_fresh p now fresh cid q s h f) (create_returns p now cid q s z)
  | inr (row, f) ↦
      let known = request_known p now fresh q s row (ap (λ k. lookup id_of k s.rows) h ∙ f) in
      ap (λ (x : Result ApprovalError Approval × Approvals). is_ok x.0) known ∙ w row f
]

module _ {W : Type 0} (env : Surroundings) (c : ToolCall) (t : ToolDef W) where
  abbrev asking : Request
  asking = request_of t.requires_approval c (env.payload_of c)

  abbrev answered :
      Tools W → Result ApprovalError Approval × Approvals → Result InvokeError Answer × Tools W
  answered s x = elim x.0 [
    | err e ↦ (err (approval_error e), record s { approvals = x.1 })
    | ok a ↦ (ok (answer_of a.status), record s { approvals = x.1 })
  ]

  -- The answer comes, and the budget is left alone.
  handle_approval_returns :
      (s : Tools W)
      → IsReadable c.cid s.approvals
      → (a : Answer) × (s' : Tools W) × (handle_approval env c t s ≡ (ok a, s'))
        × (s'.budget ≡ s.budget)
  unfolding handle_approval
  handle_approval_returns s w =
      go (request env.policy env.draws.now env.draws.fresh_call asking s.approvals) (
        request_returns env.policy env.draws.now env.draws.fresh_call c.cid asking s.approvals refl
          refl w)
    where
      go :
          (x : Result ApprovalError Approval × Approvals)
          → is_ok x.0 ≡ true
          → (a : Answer) × (s' : Tools W) × (answered s x ≡ (ok a, s')) × (s'.budget ≡ s.budget)
      go (ok a, q) h = (answer_of a.status, record s { approvals = q }, refl, refl)
      go (err e, q) h = absurd (false≢true h)

  IsFreed-act_on :
      (ctx : ToolContext) (parsed : String) (rid amount : ℕ) (a : Answer) (s : Tools W)
      → LeavesBudget t
      → IsHeld env.draws.fresh_expense rid amount s.budget
      → IsFreed amount s.budget (act_on env c t ctx parsed rid amount a s)
  unfolding act_on
  IsFreed-act_on ctx parsed rid amount answer_approved s l h =
      IsFreed-execute env.draws c t ctx parsed rid amount s l h
  IsFreed-act_on ctx parsed rid amount answer_pending s l h =
      IsFreed-release_emit env.draws.fresh_expense rid amount c s h
  IsFreed-act_on ctx parsed rid amount answer_denied s l h =
      IsFreed-release_fail env.draws.fresh_expense rid amount (denied_event c) c
        (approval_denied c.cid) s h

  IsFreed-approve_and_execute :
      (ctx : ToolContext) (parsed : String) (rid amount : ℕ) (s : Tools W)
      → LeavesBudget t
      → IsReadable c.cid s.approvals
      → IsHeld env.draws.fresh_expense rid amount s.budget
      → IsFreed amount s.budget (approve_and_execute env c t ctx parsed rid amount s)
  unfolding approve_and_execute
  IsFreed-approve_and_execute ctx parsed rid amount s l w h =
      elim (Bool-cases (needs_approval t.requires_approval)) [
        | inl q ↦
            let (a, s', e, g) = handle_approval_returns s w in
            let last =
              IsFreed-act_on ctx parsed rid amount a s' l
                (subst (IsHeld env.draws.fresh_expense rid amount) (sym g) h) in
            rw (q, bind_ok (handle_approval env c t) (act_on env c t ctx parsed rid amount) e)
              (subst (λ b. IsFreed amount b (act_on env c t ctx parsed rid amount a s')) g last)
        | inr q ↦ rw q (IsFreed-execute env.draws c t ctx parsed rid amount s l h)
      ]

admit-IsHeld :
    (now fresh amount : ℕ) (ref : String) (new : ℕ) (b : Budget)
    → IsKeyed reservation_id b.reservations
    → lookup reservation_id fresh b.reservations ≡ none
    → lookup expense_id_of new b.expenses ≡ none
    → IsHeld new fresh amount (admit (new_reservation now fresh amount ref) b)
unfolding admit
admit-IsHeld now fresh amount ref new b u f g =
    let row = new_reservation now fresh amount ref in
    record {
      row = row;
      keyed = IsKeyed-append reservation_id row b.reservations f u;
      there =
          find-append_new (λ r. reservation_id r == fresh) row b.reservations f
          ∙ rw (==_refl fresh) refl;
      still = refl;
      amounts = refl;
      new = g;
    }

-- What a reservation that is granted leaves.
record IsGranted (fresh rid amount : ℕ) (b b' : Budget) : Type 0 where
  held : IsHeld fresh rid amount b'
  more : sum_open_reservations b' ≡ sum_open_reservations b + amount
  same : sum_expenses b' ≡ sum_expenses b

granted_row :
    (now fresh amount : ℕ) (ref : String) (b b' : Budget) (row : Reservation)
    → reserve now fresh amount ref b ≡ (ok row, b')
    → (fresh ≡ row.id) × (admit (new_reservation now fresh amount ref) b ≡ b')
unfolding reserve
granted_row now fresh amount ref b b' row h = ground arith

reserve-IsGranted :
    (now fresh amount : ℕ) (ref : String) (new : ℕ) (b b' : Budget) (row : Reservation)
    → reserve now fresh amount ref b ≡ (ok row, b')
    → IsKeyed reservation_id b.reservations
    → lookup reservation_id fresh b.reservations ≡ none
    → lookup expense_id_of new b.expenses ≡ none
    → IsGranted new row.id amount b b'
reserve-IsGranted now fresh amount ref new b b' row h u f g =
    let (e, z) = granted_row now fresh amount ref b b' row h in
    let sums = admit_sums (new_reservation now fresh amount ref) b in
    subst (λ k. IsGranted new k amount b b') e
      (subst (IsGranted new fresh amount b) z (record {
        held = admit-IsHeld now fresh amount ref new b u f g;
        more = sums.1;
        same = sums.0;
      }))

-- The reservation is granted or refused for want of money.
reserve_faults :
    (now fresh amount : ℕ) (ref : String) (b b' : Budget) (e : CostError)
    → reserve now fresh amount ref b ≡ (err e, b')
    → lookup reservation_id fresh b.reservations ≡ none
    → over_limit e ≡ true
unfolding reserve
reserve_faults now fresh amount ref b b' e h f = ground arith

-- The estimator raises, and the call with it, before anything is changed.
abbrev pub IsRaised :
    {W : Type 0} → ToolCall → Tools W → Result InvokeError ToolResult × Tools W → Type 0
IsRaised c s out =
    (e : ToolError) × (out.0 ≡ err (estimate_error e)) × (out.1 ≡ s) × IsUnpriced c s e

module _ {W : Type 0} (env : Surroundings) (c : ToolCall) (s : Tools W)
    (keyed : IsKeyed reservation_id s.budget.reservations)
    (new_reservation_id : lookup reservation_id env.draws.fresh_reservation s.budget.reservations
      ≡ none)
    (new_expense_id : lookup expense_id_of env.draws.fresh_expense s.budget.expenses ≡ none)
    (readable : IsReadable c.cid s.approvals)
    (known : is_none (lookup agent_id c.agent_id s.identity) ≡ false)
    (leaves : (t : ToolDef W) → get_tool c.tool s ≡ ok t → LeavesBudget t) where
  IsFreed-goes_on :
      (t : ToolDef W) (person : Agent) (parsed : String) (amount : ℕ) (row : Reservation)
      (b : Budget)
      → IsAdmitted env c s t person parsed amount row b
      → IsFreed 0 s.budget (
          approve_and_execute env c t
            (context_of c person)
            parsed
            row.id
            amount
            (reserved_state b s))
  IsFreed-goes_on t person parsed amount row b v =
      let g =
        reserve-IsGranted env.draws.now env.draws.fresh_reservation amount (env.shown c.cid)
          env.draws.fresh_expense s.budget b row v.reserved keyed new_reservation_id
          new_expense_id in
      let w =
        IsFreed-approve_and_execute env c t (context_of c person) parsed row.id amount
          (reserved_state b s) (leaves t v.found) readable g.held in
      record {
        returns = w.returns;
        freed = omega (arith, w.freed, g.more);
        spent =
            w.spent
            ∙ ap
                (λ n.
                  n
                  + cost_of
                      (approve_and_execute env c t (context_of c person) parsed row.id amount
                        (reserved_state b s)).0)
                g.same;
      }

  IsFreed-Reached :
      (out : Result InvokeError ToolResult × Tools W)
      → Reached env c s out
      → IsFreed 0 s.budget out ⊎ IsRaised c s out
  unfolding fail
  IsFreed-Reached _ (no_agent k) = absurd (false≢true (sym known ∙ ap is_none k))
  IsFreed-Reached _ (no_reservation amount e b k z) = absurd (
      false≢true (
        sym z
        ∙ reserve_faults env.draws.now env.draws.fresh_reservation amount (env.shown c.cid) s.budget
            b e k new_reservation_id))
  IsFreed-Reached _ (no_estimate e v) = inr (e, refl, refl, v)
  IsFreed-Reached _ (fails_early e) =
      inl (record { returns = refl; freed = omega arith; spent = omega arith })
  IsFreed-Reached _ (goes_on t person parsed amount row b v) =
      inl (IsFreed-goes_on t person parsed amount row b v)

-- A call of a known agent with a new identifier, for a tool whose executor leaves the budget alone,
-- whatever else that executor does: it returns a result, and then what is reserved is what was
-- reserved before, and what is spent has grown by the cost that the result reports; or the
-- estimator of the tool raises on its arguments, and then the call raises that error and nothing
-- is changed. The table of reservations has its primary key, the identifiers that the call draws for
-- the budget are new, and a request with the identifier of the call can be read.
pub invoke_settles :
    {W : Type 0} (env : Surroundings) (who name : ℕ) (args : String) (cid : ℕ) (s : Tools W)
    → s.completed cid ≡ none
    → IsKeyed reservation_id s.budget.reservations
    → lookup reservation_id env.draws.fresh_reservation s.budget.reservations ≡ none
    → lookup expense_id_of env.draws.fresh_expense s.budget.expenses ≡ none
    → IsReadable cid s.approvals
    → is_none (lookup agent_id who s.identity) ≡ false
    → ((t : ToolDef W) → get_tool name s ≡ ok t → LeavesBudget t)
    → let (r, t) = invoke env who name args (some cid) s in
      ((is_ok r ≡ true)
        × (sum_open_reservations t.budget ≡ sum_open_reservations s.budget)
        × (sum_expenses t.budget ≡ sum_expenses s.budget + cost_of r))
      ⊎ IsRaised (record { agent_id = who; tool = name; args = args; cid = cid }) s (r, t)
invoke_settles {W} env who name args cid s e u f g w k l =
    let c : ToolCall = record { agent_id = who; tool = name; args = args; cid = cid } in
    elim (subst
      (λ (x : Result InvokeError ToolResult × Tools W). IsFreed 0 s.budget x ⊎ IsRaised c s x)
      (missed env who name args cid s e)
      (IsFreed-Reached env c s u f g w k l (invoke_new env c s) (Reached-invoke_new env c s))) [
        | inl z ↦ inl (z.returns, omega (arith, z.freed), z.spent)
        | inr z ↦ inr z
      ]
