-- ===== src/Tools/Reach.antt =====
-- How far a call of `invoke` comes: it raises or fails before anything is done, or it goes on to the
-- approval and the execution with a reservation.
use agent_company_factory.Approvals.Model.{value_error}
use agent_company_factory.Cost.Model.{
  CostError, over_budget, unknown_reservation, already_closed, integrity, value_error, Reservation,
  Budget,
}
use agent_company_factory.Cost.Spending.{reserve}
use agent_company_factory.Identity.Model.{integrity, Agent, agent_id, is_active}
use agent_company_factory.Prelude.{
  if◌then◌else◌, ℕ, String, ◌≡◌, refl, Bool, true, false, not, Option, none, some, arith,
}
use agent_company_factory.Prelude.Action.{Result, ok, err}
use agent_company_factory.Prelude.Keyed.{lookup}
use agent_company_factory.Tools.Invoke.{
  Surroundings, estimate_of, refusal_of, context_of, approve_and_execute, hold_and_execute,
  reserve_and_execute, check_and_execute, gate_and_execute, invoke_new, invoke,
}
use agent_company_factory.Tools.Model.{
  ToolError, agent_not_active, role_not_allowed, args_validation_error, tool_over_budget, ToolDef,
  ToolResult, InvokeError, missing_agent, estimate_error, cost_error, Tools, is_role_allowed,
}
use agent_company_factory.Tools.Pipeline.{ToolCall, denied_event, fail}
use agent_company_factory.Tools.Registry.{get_tool}

-- What a call that goes on has passed.
pub record IsAdmitted {W : Type 0} (env : Surroundings) (c : ToolCall) (s : Tools W) (t : ToolDef W)
    (person : Agent) (parsed : String) (amount : ℕ) (row : Reservation) (b : Budget) : Type 0 where
  pub found : get_tool c.tool s ≡ ok t
  pub known : lookup agent_id c.agent_id s.identity ≡ some person
  pub active_person : is_active person ≡ true
  pub role_allowed : is_role_allowed person.role t ≡ true
  pub valid_args : t.schema c.args ≡ ok parsed
  pub permitted : refusal_of t (context_of c person) parsed s.world ≡ none
  pub estimated : estimate_of t parsed ≡ ok amount
  pub reserved :
      reserve env.draws.now env.draws.fresh_reservation amount (env.shown c.cid) s.budget
      ≡ (ok row, b)

abbrev pub reserved_state : {W : Type 0} → Budget → Tools W → Tools W
reserved_state b s = record s { budget = b }

abbrev pub over_limit : CostError → Bool
over_limit over_budget = true
over_limit _ = false

-- The estimator of the tool of the call raises on its arguments.
pub record IsUnpriced {W : Type 0} (c : ToolCall) (s : Tools W) (e : ToolError) : Type 0 where
  pub t : ToolDef W
  pub parsed : String
  pub found : get_tool c.tool s ≡ ok t
  pub valid_args : t.schema c.args ≡ ok parsed
  pub raises : estimate_of t parsed ≡ err e

pub data Reached {W : Type 0} (env : Surroundings) (c : ToolCall) (s : Tools W)
    : Result InvokeError ToolResult × Tools W → Type 0 where
  no_agent : lookup agent_id c.agent_id s.identity ≡ none → Reached env c s (err missing_agent, s)
  no_estimate : (e : ToolError) → IsUnpriced c s e → Reached env c s (err (estimate_error e), s)
  no_reservation :
      (amount : ℕ) (e : CostError) (b : Budget)
      → reserve env.draws.now env.draws.fresh_reservation amount (env.shown c.cid) s.budget
        ≡ (err e, b)
      → over_limit e ≡ false
      → Reached env c s (err (cost_error e), s)
  fails_early : (e : ToolError) → Reached env c s (fail (denied_event c) c e s)
  goes_on :
      (t : ToolDef W) (person : Agent) (parsed : String) (amount : ℕ) (row : Reservation)
      (b : Budget)
      → IsAdmitted env c s t person parsed amount row b
      → Reached env c s (
          approve_and_execute env c t
            (context_of c person)
            parsed
            row.id
            amount
            (reserved_state b s))

module _ {W : Type 0} (env : Surroundings) (c : ToolCall) (s : Tools W) where
  module _ (t : ToolDef W) (person : Agent) (f : get_tool c.tool s ≡ ok t)
      (k : lookup agent_id c.agent_id s.identity ≡ some person) (a : is_active person ≡ true)
      (z : is_role_allowed person.role t ≡ true) where
    Reached-hold_and_execute :
        (parsed : String) (amount : ℕ)
        → t.schema c.args ≡ ok parsed
        → refusal_of t (context_of c person) parsed s.world ≡ none
        → estimate_of t parsed ≡ ok amount
        → Reached env c s (hold_and_execute env c t (context_of c person) parsed amount s)
    unfolding hold_and_execute
    Reached-hold_and_execute parsed amount v p q =
        go (reserve env.draws.now env.draws.fresh_reservation amount (env.shown c.cid) s.budget)
          refl
      where
        go :
            (x : Result CostError Reservation × Budget)
            → reserve env.draws.now env.draws.fresh_reservation amount (env.shown c.cid) s.budget
              ≡ x
            → Reached env c s (elim x.0 [
              | err over_budget ↦ fail (denied_event c) c tool_over_budget s
              | err e ↦ (err (cost_error e), s)
              | ok row ↦
                  approve_and_execute env c t
                    (context_of c person)
                    parsed
                    row.id
                    amount
                    (record s { budget = x.1 })
            ])
        go (ok row, b) e = goes_on t person parsed amount row b (record {
          found = f;
          known = k;
          active_person = a;
          role_allowed = z;
          valid_args = v;
          permitted = p;
          estimated = q;
          reserved = e;
        })
        go (err over_budget, b) e = fails_early tool_over_budget
        go (err unknown_reservation, b) e = no_reservation amount unknown_reservation b e refl
        go (err already_closed, b) e = no_reservation amount already_closed b e refl
        go (err integrity, b) e = no_reservation amount integrity b e refl
        go (err value_error, b) e = no_reservation amount value_error b e refl

    Reached-reserve_and_execute :
        (parsed : String)
        → t.schema c.args ≡ ok parsed
        → refusal_of t (context_of c person) parsed s.world ≡ none
        → Reached env c s (reserve_and_execute env c t (context_of c person) parsed s)
    unfolding reserve_and_execute
    Reached-reserve_and_execute parsed v p = go (estimate_of t parsed) refl
      where
        go :
            (x : Result ToolError ℕ)
            → estimate_of t parsed ≡ x
            → Reached env c s (elim x [
              | err e ↦ (err (estimate_error e), s)
              | ok estimate ↦ hold_and_execute env c t (context_of c person) parsed estimate s
            ])
        go (err e) q =
            no_estimate e (record { t = t; parsed = parsed; found = f; valid_args = v; raises = q })
        go (ok amount) q = Reached-hold_and_execute parsed amount v p q

    Reached-check_and_execute : Reached env c s (check_and_execute env c t person s)
    unfolding check_and_execute
    Reached-check_and_execute = go (t.schema c.args) refl
      where
        told :
            (parsed : String) (o : Option ToolError)
            → t.schema c.args ≡ ok parsed
            → refusal_of t (context_of c person) parsed s.world ≡ o
            → Reached env c s (elim o [
              | some e ↦ fail (denied_event c) c e s
              | none ↦ reserve_and_execute env c t (context_of c person) parsed s
            ])
        told parsed (some e) v p = fails_early e
        told parsed none v p = Reached-reserve_and_execute parsed v p

        go :
            (x : Result String String)
            → t.schema c.args ≡ x
            → Reached env c s (elim x [
              | err text ↦ fail (denied_event c) c (args_validation_error text) s
              | ok parsed ↦ elim (refusal_of t (context_of c person) parsed s.world) [
                | some e ↦ fail (denied_event c) c e s
                | none ↦ reserve_and_execute env c t (context_of c person) parsed s
              ]
            ])
        go (err text) v = fails_early (args_validation_error text)
        go (ok parsed) v = told parsed (refusal_of t (context_of c person) parsed s.world) v refl

  Reached-gate_and_execute :
      (t : ToolDef W) → get_tool c.tool s ≡ ok t → Reached env c s (gate_and_execute env c t s)
  unfolding gate_and_execute
  Reached-gate_and_execute t f = go (lookup agent_id c.agent_id s.identity) refl
    where
      gate :
          (person : Agent) (a z : Bool)
          → lookup agent_id c.agent_id s.identity ≡ some person
          → is_active person ≡ a
          → is_role_allowed person.role t ≡ z
          → Reached env c s (
              if not a
              then fail (denied_event c) c (agent_not_active c.agent_id) s
              else if not z
              then fail (denied_event c) c (role_not_allowed person.role c.tool) s
              else check_and_execute env c t person s)
      gate person false z k p q = fails_early (agent_not_active c.agent_id)
      gate person true false k p q = fails_early (role_not_allowed person.role c.tool)
      gate person true true k p q = Reached-check_and_execute t person f k p q

      go :
          (x : Option Agent)
          → lookup agent_id c.agent_id s.identity ≡ x
          → Reached env c s (elim x [
            | none ↦ (err missing_agent, s)
            | some person ↦
                if not (is_active person)
                then fail (denied_event c) c (agent_not_active c.agent_id) s
                else if not (is_role_allowed person.role t)
                then fail (denied_event c) c (role_not_allowed person.role c.tool) s
                else check_and_execute env c t person s
          ])
      go none k = no_agent k
      go (some person) k =
          gate person (is_active person) (is_role_allowed person.role t) k refl refl

  pub Reached-invoke_new : Reached env c s (invoke_new env c s)
  unfolding invoke_new
  Reached-invoke_new = go (get_tool c.tool s) refl
    where
      go :
          (x : Result ToolError (ToolDef W))
          → get_tool c.tool s ≡ x
          → Reached env c s
              (elim x [ err e ↦ fail (denied_event c) c e s | ok t ↦ gate_and_execute env c t s ])
      go (err e) f = fails_early e
      go (ok t) f = Reached-gate_and_execute t f

-- A call whose identifier is in the cache, and one whose is not.
module _ {W : Type 0} where
  pub hit :
      (env : Surroundings) (who name : ℕ) (args : String) (cid : ℕ) (s : Tools W) (r : ToolResult)
      → s.completed cid ≡ some r
      → (ok r, s) ≡ invoke env who name args (some cid) s
  unfolding invoke
  hit env who name args cid s r h = ground arith

  pub missed :
      (env : Surroundings) (who name : ℕ) (args : String) (cid : ℕ) (s : Tools W)
      → s.completed cid ≡ none
      → invoke_new env (record { agent_id = who; tool = name; args = args; cid = cid }) s
        ≡ invoke env who name args (some cid) s
  unfolding invoke
  missed env who name args cid s h = ground arith
