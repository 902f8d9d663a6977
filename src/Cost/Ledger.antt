-- ===== src/Cost/Ledger.antt =====
-- The budget over any sequence of calls.
use agent_company_factory.Prelude.{
  Option-cases, All, ℕ, String, ◌≡◌, refl, inl, inr, Bool, true, false, Option, none, List, [], ◌∷◌,
  ◌++◌, arith,
}
use agent_company_factory.Prelude.Keyed.{lookup, IsKeyed, IsKeyed-append, set-IsKeyed}
use agent_company_factory.Cost.Model.{
  ReservationStatus, is_committed, is_released, Expense, Reservation, Event, expense_charged,
  Budget, reservation_id, expense_id_of,
}
use agent_company_factory.Cost.Budget.{units_to_cents, evaluate_thresholds, emit, set_total}
use agent_company_factory.Cost.Spending.{
  Charge, block, add_expense, settle, charged_expense, charge, new_reservation, admit, reserve,
  with_status, close_reservation, release, committed_expense, commit,
}
use agent_company_factory.Cost.Thresholds.{IsCoherent, evaluate-IsCoherent}
use agent_company_factory.Cost.Bounds.{
  IsValid, IsWithin, charge-IsWithin, reserve-IsWithin, release-IsWithin, commit-IsWithin,
}

evaluate-IsValid :
    (b : Budget)
    → IsKeyed expense_id_of b.expenses
    → IsKeyed reservation_id b.reservations
    → IsCoherent b
    → IsValid (evaluate_thresholds b).1
evaluate-IsValid b e r c = record {
  expense_ids = unfold evaluate_thresholds in e;
  reservation_ids = unfold evaluate_thresholds in r;
  coherent = evaluate-IsCoherent b c;
}

emit-IsValid :
    (actor : Option ℕ) (l : List Event) (b : Budget) → IsValid b → IsValid (emit actor l b)
emit-IsValid actor l b v = record {
  expense_ids = v.expense_ids;
  reservation_ids = v.reservation_ids;
  coherent = record { known = v.coherent.known; agrees = v.coherent.agrees };
}

block-IsValid : (b : Budget) → IsValid b → IsValid (block b)
block-IsValid b v = record {
  expense_ids = v.expense_ids;
  reservation_ids = v.reservation_ids;
  coherent = record { known = inr (inr refl); agrees = refl };
}

close-IsValid :
    (st : ReservationStatus) (rid : ℕ) (b : Budget)
    → IsValid b
    → IsValid (close_reservation st rid b)
close-IsValid st rid b v = record {
  expense_ids = v.expense_ids;
  reservation_ids =
      set-IsKeyed reservation_id (with_status st) (λ r. refl) rid b.reservations v.reservation_ids;
  coherent = record { known = v.coherent.known; agrees = v.coherent.agrees };
}

settle-IsValid :
    (actor : Option ℕ) (e : Expense) (b : Budget)
    → lookup expense_id_of e.id b.expenses ≡ none
    → IsValid b
    → IsValid (settle actor e b)
unfolding settle
settle-IsValid actor e b new v =
    emit-IsValid actor
      (expense_charged (units_to_cents e.amount_units) e.category e.memo e.id
        ∷ (evaluate_thresholds (add_expense e b)).0)
      (evaluate_thresholds (add_expense e b)).1
      (evaluate-IsValid (add_expense e b)
        (IsKeyed-append expense_id_of e b.expenses new v.expense_ids) v.reservation_ids
        (record { known = v.coherent.known; agrees = v.coherent.agrees }))

admit-IsValid :
    (r : Reservation) (b : Budget)
    → lookup reservation_id r.id b.reservations ≡ none
    → IsValid b
    → IsValid (admit r b)
unfolding admit
admit-IsValid r b new v =
    let b' : Budget = record b { reservations = b.reservations ++ r ∷ [] } in
    emit-IsValid none (evaluate_thresholds b').0 (evaluate_thresholds b').1 (
      evaluate-IsValid b' v.expense_ids
        (IsKeyed-append reservation_id r b.reservations new v.reservation_ids)
        (record { known = v.coherent.known; agrees = v.coherent.agrees }))

set_total-IsValid : (n : ℕ) (b : Budget) → IsValid b → IsValid (set_total n b)
unfolding set_total
set_total-IsValid n b v =
    let b' : Budget = record b { total_units = n } in
    emit-IsValid none (evaluate_thresholds b').0 (evaluate_thresholds b').1 (
      evaluate-IsValid b' v.expense_ids v.reservation_ids
        (record { known = v.coherent.known; agrees = v.coherent.agrees }))

charge-IsValid :
    (now fresh : ℕ) (c : Charge) (b : Budget) → IsValid b → IsValid (charge now fresh c b).1
unfolding charge
charge-IsValid now fresh c b v =
    ground (arith, settle-IsValid c.agent_id (charged_expense now fresh c) b)

reserve-IsValid :
    (now fresh amount : ℕ) (ref : String) (b : Budget)
    → IsValid b
    → IsValid (reserve now fresh amount ref b).1
unfolding reserve
reserve-IsValid now fresh amount ref b v =
    ground (arith, admit-IsValid (new_reservation now fresh amount ref) b)

release-IsValid : (rid : ℕ) (b : Budget) → IsValid b → IsValid (release rid b).1
unfolding release
release-IsValid rid b v = ground (arith, close-IsValid is_released rid b v)

commit-IsValid :
    (now fresh rid actual : ℕ) (b : Budget) → IsValid b → IsValid (commit now fresh rid actual b).1
unfolding commit
commit-IsValid now fresh rid actual b v =
    elim (Option-cases (lookup reservation_id rid b.reservations)) [
      | inl e ↦ ground arith
      | inr (row, e) ↦ ground (
        arith,
        close-IsValid is_released rid b v,
        settle-IsValid none (committed_expense now fresh actual row)
            (close_reservation is_committed rid b),
        close-IsValid is_committed rid b v,
      )
    ]

-- A call of the engine.
pub data Op : Type 0 where
  resize : ℕ → Op
  spend : (now fresh : ℕ) → Charge → Op
  hold : (now fresh amount : ℕ) → String → Op
  free : ℕ → Op
  pay : (now fresh rid actual : ℕ) → Op

unfoldable pub step : Op → Budget → Budget
step (resize n) b = set_total n b
step (spend now fresh c) b = (charge now fresh c b).1
step (hold now fresh amount ref) b = (reserve now fresh amount ref b).1
step (free rid) b = (release rid b).1
step (pay now fresh rid actual) b = (commit now fresh rid actual b).1

unfoldable pub run : List Op → Budget → Budget
run [] b = b
run (o ∷ os) b = run os (step o b)

-- Every call keeps identifiers unique and the threshold row coherent.
pub step-IsValid : (o : Op) (b : Budget) → IsValid b → IsValid (step o b)
unfolding step
step-IsValid (resize n) b v = set_total-IsValid n b v
step-IsValid (spend now fresh c) b v = charge-IsValid now fresh c b v
step-IsValid (hold now fresh amount ref) b v = reserve-IsValid now fresh amount ref b v
step-IsValid (free rid) b v = release-IsValid rid b v
step-IsValid (pay now fresh rid actual) b v = commit-IsValid now fresh rid actual b v

-- Whatever the calls, identifiers stay unique and the threshold row coherent.
pub run-IsValid : (os : List Op) (b : Budget) → IsValid b → IsValid (run os b)
unfolding run
run-IsValid [] b v = v
run-IsValid (o ∷ os) b v = run-IsValid os (step o b) (step-IsValid o b v)

abbrev pub lowers : Op → Bool
lowers (resize _) = true
lowers _ = false

-- No call but `set_total` carries spent and reserved past the total.
step-IsWithin :
    (o : Op) (b : Budget) → lowers o ≡ false → IsValid b → IsWithin b → IsWithin (step o b)
unfolding step
step-IsWithin (resize n) b l v w = cc
step-IsWithin (spend now fresh c) b l v w = charge-IsWithin now fresh c b w
step-IsWithin (hold now fresh amount ref) b l v w = reserve-IsWithin now fresh amount ref b w
step-IsWithin (free rid) b l v w = release-IsWithin rid b v.reservation_ids w
step-IsWithin (pay now fresh rid actual) b l v w =
    commit-IsWithin now fresh rid actual b v.reservation_ids w

-- From a valid budget that is within its total, every sequence of charges, reservations, releases
-- and commits leaves it within its total.
pub run-IsWithin :
    (os : List Op) (b : Budget)
    → All (λ o. lowers o ≡ false) os
    → IsValid b
    → IsWithin b
    → IsWithin (run os b)
unfolding run
run-IsWithin [] b l v w = w
run-IsWithin (o ∷ os) b l v w =
    run-IsWithin os (step o b) l.1 (step-IsValid o b v) (step-IsWithin o b l.0 v w)
