-- ===== src/Approvals/Lifecycle.antt =====
-- The life of an approval over any sequence of calls.
use agent_company_factory.Prelude.{
  ◌==◌, or_else, eq_of_==, Bool-cases, Option-cases, update, find-append_old, All_of_find, ℕ,
  String, ◌≡◌, refl, sym, ap, ◌∙◌, inl, inr, Bool, true, false, false≢true, Option, some, List, [],
  ◌∷◌, arith,
}
use agent_company_factory.Prelude.Keyed.{lookup, set, lookup-set}
use agent_company_factory.Prelude.Action.{ok}
use agent_company_factory.Approvals.Model.{
  approved, denied, Decision, approve, deny, make_route, Row, Policy,
}
use agent_company_factory.Approvals.Service.{Approvals, init, id_of, is_pending, Request, request}
use agent_company_factory.Approvals.Decide.{decide_row, decide, cancels, cancel}
use agent_company_factory.Approvals.Timeouts.{is_overdue, expire, process_timeouts}
use agent_company_factory.Approvals.Invariant.{IsSound, IsValid, init-IsValid, id_of-decide_row}
use agent_company_factory.Approvals.Preserve.{
  rows-decide, decide_refused, decide-IsValid, rows-cancel, cancel_refused, cancel-IsValid,
  request_known, rows-request, request-IsValid,
}
use agent_company_factory.Approvals.Expiry.{process_timeouts_lem, process_timeouts-IsValid}

-- One call of a method that changes the table, with its clock reading.
pub data Op : Type 0 where
  ask : (now fresh : ℕ) (q : Request) → make_route q.route ≡ ok (q.route) → Op
  settle : (now rid decider : ℕ) → Decision → Option String → Op
  withdraw : (now rid by : ℕ) → String → Op
  sweep : ℕ → Op

unfoldable pub step : Policy → Op → Approvals → Approvals
step p (ask now fresh q _) s = (request p now fresh q s).1
step p (settle now rid decider d text) s = (decide now rid decider d text s).1
step p (withdraw now rid by reason) s = (cancel now rid by reason s).1
step p (sweep now) s = (process_timeouts p now s).1

unfoldable pub run : Policy → List Op → Approvals → Approvals
run p [] s = s
run p (o ∷ os) s = run p os (step p o s)

pub step-IsValid : (p : Policy) (o : Op) (s : Approvals) → IsValid s → IsValid (step p o s)
unfolding step
step-IsValid p (ask now fresh q built) s v = request-IsValid p now fresh q s built v
step-IsValid p (settle now rid decider d text) s v = decide-IsValid now rid decider d text s v
step-IsValid p (withdraw now rid by reason) s v = cancel-IsValid now rid by reason s v
step-IsValid p (sweep now) s v = process_timeouts-IsValid p now s v

-- Whatever the calls, the table that they leave is valid.
pub run-IsValid : (p : Policy) (os : List Op) (s : Approvals) → IsValid s → IsValid (run p os s)
unfolding run
run-IsValid p [] s v = v
run-IsValid p (o ∷ os) s v = run-IsValid p os (step p o s) (step-IsValid p o s v)

-- After any calls on an empty queue, an approval that needs the security leg and is approved has
-- the security leg approved.
pub security_clears_first :
    (p : Policy) (os : List Op) (rid : ℕ) (row : Row)
    → lookup id_of rid (run p os init).rows ≡ some row
    → row.status ≡ approved
    → row.require_security ≡ true
    → row.security_decision ≡ some approve
security_clears_first p os rid row e =
    let h = All_of_find IsSound _ row _ (run-IsValid p os init init-IsValid).sound e in h.cleared

-- After any calls on an empty queue, an approval whose security leg was denied is denied.
pub security_veto :
    (p : Policy) (os : List Op) (rid : ℕ) (row : Row)
    → lookup id_of rid (run p os init).rows ≡ some row
    → row.security_decision ≡ some deny
    → row.status ≡ denied
security_veto p os rid row e =
    let h = All_of_find IsSound _ row _ (run-IsValid p os init init-IsValid).sound e in h.vetoed

lookup-update_other :
    (q : Row → Bool) (f : Row → Row) (k : ℕ) (row : Row) (t : List Row)
    → ((r : Row) → id_of (f r) ≡ id_of r)
    → q row ≡ false
    → lookup id_of k t ≡ some row
    → lookup id_of k (update q f t) ≡ some row
lookup-update_other q f k row [] same h e = ground arith
lookup-update_other q f k row (x ∷ t) same h e =
    ground (arith, same x, lookup-update_other q f k row t same h)

set_closed :
    (f : Row → Row) (k rid : ℕ) (row old : Row) (t : List Row)
    → ((r : Row) → id_of (f r) ≡ id_of r)
    → lookup id_of k t ≡ some row
    → is_pending row.status ≡ false
    → lookup id_of rid t ≡ some old
    → is_pending old.status ≡ true
    → lookup id_of k (set id_of rid f t) ≡ some row
set_closed f k rid row old t same e c e' c' = elim (Bool-cases (k == rid)) [
  | inl q ↦
      let one : row ≡ old = cc (ap (λ j. lookup id_of j t) (eq_of_== k rid q)) in
      absurd (false≢true (sym c ∙ ap (λ (r : Row). is_pending r.status) one ∙ c'))
  | inr q ↦ rw (lookup-set id_of f same k rid t) (rw q e)
]

-- No call changes the row of an approval that is no longer pending.
pub step_closed :
    (p : Policy) (o : Op) (s : Approvals) (k : ℕ) (row : Row)
    → IsValid s
    → lookup id_of k s.rows ≡ some row
    → is_pending row.status ≡ false
    → lookup id_of k (step p o s).rows ≡ some row
unfolding step
step_closed p (ask now fresh q built) s k row v e c =
    elim (Option-cases (lookup id_of (or_else q.request_id fresh) s.rows)) [
      | inl new ↦ rw (rows-request p now fresh q s new) (find-append_old _ row s.rows _ e)
      | inr (old, e') ↦ rw (request_known p now fresh q s old e', step) e
    ]
step_closed p (settle now rid decider d text) s k row v e c =
    elim (Option-cases (lookup id_of rid s.rows)) [
      | inl e' ↦ rw (decide_refused now rid decider d text s (inl e')) e
      | inr (old, e') ↦ elim (Bool-cases (is_pending old.status)) [
        | inl c' ↦ rw (rows-decide now rid decider d text s old e' c') (
            set_closed (decide_row old now decider d text).0 k rid row old s.rows
              (id_of-decide_row old now decider d text) e c e' c')
        | inr c' ↦ rw (decide_refused now rid decider d text s (inr (old, e', c'))) e
      ]
    ]
step_closed p (withdraw now rid by reason) s k row v e c =
    elim (Option-cases (lookup id_of rid s.rows)) [
      | inl e' ↦ rw (cancel_refused now rid by reason s (inl e')) e
      | inr (old, e') ↦ elim (Bool-cases (is_pending old.status)) [
        | inl c' ↦
            rw (rows-cancel now rid by reason s old e' c')
              (set_closed (cancels now by reason) k rid row old s.rows (λ r. refl) e c e' c')
        | inr c' ↦ rw (cancel_refused now rid by reason s (inr (old, e', c'))) e
      ]
    ]
step_closed p (sweep now) s k row v e c = rw ((process_timeouts_lem p now s v).1) (
    lookup-update_other (is_overdue now) (λ r. expire p now r r) k row s.rows (λ r. refl)
      (ground arith) e)

-- Once an approval is decided, cancelled or timed out, it stays as it is whatever is called.
pub run_closed :
    (p : Policy) (os : List Op) (s : Approvals) (k : ℕ) (row : Row)
    → IsValid s
    → lookup id_of k s.rows ≡ some row
    → is_pending row.status ≡ false
    → lookup id_of k (run p os s).rows ≡ some row
unfolding run
run_closed p [] s k row v e c = e
run_closed p (o ∷ os) s k row v e c =
    run_closed p os (step p o s) k row (step-IsValid p o s v) (step_closed p o s k row v e c) c
