-- ===== src/Tools/Repeats.antt =====
-- The cache of completed calls: a call can be repeated.
use mathlib.Core.Path.{subst}
use agent_company_factory.Cost.Spending.{release, commit}
use agent_company_factory.Prelude.{
  is_none, Bool-cases, Option-cases, ℕ, String, ◌≡◌, sym, ◌⊎◌, inl, inr, Bool, false, not, none,
  some, [], ◌∷◌, ◌++◌, arith,
}
use agent_company_factory.Prelude.Action.{Result, ok, err, ◌>>=◌}
use agent_company_factory.Tools.Invoke.{
  Answer, answer_approved, answer_pending, answer_denied, needs_approval, Surroundings, context_of,
  handle_approval, act_on, approve_and_execute, invoke_new, invoke,
}
use agent_company_factory.Tools.Model.{
  ToolError, approval_denied, commit_failed, executor_failure, wrong_output, ToolContext, Outcome,
  returned, returned_other, refused_by_tool, crashed, ToolDef, ToolResult, ToolEvent, tool_called,
  InvokeError, Tools, services_of, with_services,
}
use agent_company_factory.Tools.Pipeline.{
  Invoke, Draws, ToolCall, denied_event, failed_event, fail, emit_only, release_then, settle_call,
  run_executor, conclude, execute,
}
use agent_company_factory.Tools.Reach.{
  reserved_state, Reached, no_agent, no_estimate, fails_early, Reached-invoke_new, hit, missed,
  no_reservation, goes_on,
}

abbrev pub waits : ToolResult → Bool
waits r = not (is_none r.approval_request_id)

-- A result that does not wait for an approval is in the cache.
abbrev pub IsKept : {W : Type 0} → ToolCall → Result InvokeError ToolResult × Tools W → Type 0
IsKept c out = (r : ToolResult) → out.0 ≡ ok r → waits r ≡ false → out.1.completed c.cid ≡ some r

module _ {W : Type 0} where
  IsKept-fail :
      (event : ToolError → ToolEvent) (c : ToolCall) (e : ToolError) (s : Tools W)
      → IsKept c (fail event c e s)
  unfolding fail
  IsKept-fail event c e s r h w = ground arith

  IsKept-settle_call :
      (d : Draws) (c : ToolCall) (rid actual : ℕ) (output : String) (s : Tools W)
      → IsKept c (settle_call d c rid actual output s)
  unfolding settle_call
  IsKept-settle_call d c rid actual output s r h w =
      let b = (commit d.now d.fresh_expense rid actual s.budget).1 in
      ground
        (arith, IsKept-fail (failed_event c) c (commit_failed c.cid) (record s { budget = b }) r)

  IsKept-release_fail :
      (rid : ℕ) (event : ToolError → ToolEvent) (c : ToolCall) (e : ToolError) (s : Tools W)
      → IsKept c (release_then rid (fail event c e) s)
  unfolding release_then
  IsKept-release_fail rid event c e s r h w =
      ground (arith, IsKept-fail event c e (record s { budget = (release rid s.budget).1 }) r)

  IsKept-conclude :
      (d : Draws) (c : ToolCall) (rid estimate : ℕ) (o : Outcome) (s : Tools W)
      → IsKept c (conclude d c rid estimate o s)
  unfolding conclude
  IsKept-conclude d c rid estimate (returned output) s =
      IsKept-settle_call d c rid estimate output s
  IsKept-conclude d c rid estimate (returned_other name) s =
      IsKept-release_fail rid (failed_event c) c (wrong_output name) s
  IsKept-conclude d c rid estimate (refused_by_tool e) s =
      IsKept-release_fail rid (failed_event c) c e s
  IsKept-conclude d c rid estimate (crashed text) s =
      IsKept-release_fail rid (failed_event c) c (executor_failure text) s

  IsKept-execute :
      (d : Draws) (c : ToolCall) (t : ToolDef W) (ctx : ToolContext) (parsed : String)
      (rid estimate : ℕ) (s : Tools W)
      → IsKept c (execute d c t ctx parsed rid estimate s)
  unfolding execute
  IsKept-execute d c t ctx parsed rid estimate s =
      let (o, v) = run_executor t ctx parsed (services_of s) in
      IsKept-conclude d c rid estimate o (
        with_services v
          (record s { events = s.events ++ tool_called c.tool c.args c.cid c.agent_id ∷ [] }))

  IsKept->>= :
      {A : Type 0} (c : ToolCall) (m : Invoke W A) (f : A → Invoke W ToolResult) (s : Tools W)
      → ((a : A) (s' : Tools W) → IsKept c (f a s'))
      → IsKept c ((m >>= f) s)
  IsKept->>= {A} c m f s k = go (m s)
    where
      go :
          (x : Result InvokeError A × Tools W)
          → IsKept {W = W} c (elim x.0 [ ok a ↦ f a x.1 | err e ↦ (err e, x.1) ])
      go (ok a, s') = k a s'
      go (err e, s') = λ r h w. ground arith

module _ {W : Type 0} (env : Surroundings) (c : ToolCall) (t : ToolDef W) where
  IsKept-act_on :
      (ctx : ToolContext) (parsed : String) (rid estimate : ℕ) (a : Answer) (s : Tools W)
      → IsKept c (act_on env c t ctx parsed rid estimate a s)
  unfolding act_on release_then emit_only
  IsKept-act_on ctx parsed rid estimate answer_approved s =
      IsKept-execute env.draws c t ctx parsed rid estimate s
  IsKept-act_on ctx parsed rid estimate answer_denied s =
      IsKept-release_fail rid (denied_event c) c (approval_denied c.cid) s
  IsKept-act_on ctx parsed rid estimate answer_pending s = λ r h w. ground arith

  IsKept-approve_and_execute :
      (ctx : ToolContext) (parsed : String) (rid estimate : ℕ) (s : Tools W)
      → IsKept c (approve_and_execute env c t ctx parsed rid estimate s)
  unfolding approve_and_execute
  IsKept-approve_and_execute ctx parsed rid estimate s =
      elim (Bool-cases (needs_approval t.requires_approval)) [
        | inl q ↦ rw q (
            IsKept->>= c (handle_approval env c t) (act_on env c t ctx parsed rid estimate) s
              (IsKept-act_on ctx parsed rid estimate))
        | inr q ↦ rw q (IsKept-execute env.draws c t ctx parsed rid estimate s)
      ]

module _ {W : Type 0} where
  IsKept-Reached :
      (env : Surroundings) (c : ToolCall) (s : Tools W)
      (out : Result InvokeError ToolResult × Tools W)
      → Reached env c s out
      → IsKept c out
  IsKept-Reached env c s _ (no_agent k) = λ r h w. ground arith
  IsKept-Reached env c s _ (no_estimate e v) = λ r h w. ground arith
  IsKept-Reached env c s _ (no_reservation amount e b k z) = λ r h w. ground arith
  IsKept-Reached env c s _ (fails_early e) = IsKept-fail (denied_event c) c e s
  IsKept-Reached env c s _ (goes_on t person parsed amount row b v) =
      IsKept-approve_and_execute env c t (context_of c person) parsed row.id amount
        (reserved_state b s)

  -- A call that has returned a result other than a pending approval is answered from the cache when
  -- its identifier comes again, whoever calls which tool with which arguments: the result is the
  -- same, and nothing changes.
  pub invoke_idem :
      (env later : Surroundings) (who whoever name name' : ℕ) (args args' : String) (cid : ℕ)
      (s : Tools W) (r : ToolResult)
      → (invoke env who name args (some cid) s).0 ≡ ok r
      → waits r ≡ false
      → let t = (invoke env who name args (some cid) s).1 in
        invoke later whoever name' args' (some cid) t ≡ (ok r, t)
  invoke_idem env later who whoever name name' args args' cid s r h w = sym (
      hit later whoever name' args' cid (invoke env who name args (some cid) s).1 r
        (kept (Option-cases (s.completed cid))))
    where
      kept :
          ((s.completed cid ≡ none) ⊎ ((q : ToolResult) × (s.completed cid ≡ some q)))
          → (invoke env who name args (some cid) s).1.completed cid ≡ some r
      kept (inl e) =
          let c : ToolCall = record { agent_id = who; tool = name; args = args; cid = cid } in
          subst (IsKept c) (missed env who name args cid s e)
            (IsKept-Reached env c s (invoke_new env c s) (Reached-invoke_new env c s)) r h w
      kept (inr (q, e)) =
          subst
            (λ (x : Result InvokeError ToolResult × Tools W).
              x.0 ≡ ok r → x.1.completed cid ≡ some r)
            (hit env who name args cid s q e) (λ k. ground arith) h
