-- ===== src/Cost/Spending.antt =====
-- `charge`, `reserve`, `release` and `commit` of modules/cost/budget.py. The fresh `uuid4` and the
-- clock reading of a call are arguments; an identifier that is already in the table makes the
-- INSERT fail on its primary key, and the transaction is rolled back.
use Prim.Native.String.{◌++◌ as str_append}
use agent_company_factory.Prelude.{
  ltb, if◌then◌else◌, is_none, select, ℕ, ◌+◌, ◌-◌, String, Bool, true, not, ◌||◌, Option, none,
  some, List, [], ◌∷◌, ◌++◌,
}
use agent_company_factory.Prelude.Keyed.{lookup, set}
use agent_company_factory.Prelude.Action.{ok, err, Action}
use agent_company_factory.Cost.Model.{
  Category, other, ReservationStatus, is_open, is_committed, is_released, CostError, over_budget,
  unknown_reservation, already_closed, integrity, Expense, Reservation, ChargeResult, charged,
  refused, Event, budget_blocked, expense_charged, Budget, is_reserved, reservation_id,
  expense_id_of,
}
use agent_company_factory.Cost.Budget.{
  blocked_pct, units_to_cents, sum_expenses, sum_open_reservations, evaluate_thresholds, emit,
}

abbrev pub Call : Type 0 → Type 0
Call A = Action Budget CostError A

pub record Charge : Type 0 where
  pub agent_id : Option ℕ
  pub amount : ℕ
  pub category : Category
  pub memo : String
  pub approval_id : Option ℕ

-- The refusal that `charge` and `commit` emit.
abbrev pub refusal : ℕ → Budget → Event
refusal attempted b =
    budget_blocked (units_to_cents (sum_expenses b)) (units_to_cents b.total_units)
      (units_to_cents attempted)

-- `UPDATE budget_state SET blocked = 1, last_warn_pct = 100`
abbrev pub block : Budget → Budget
block b = record b { blocked = true; last_warn_pct = blocked_pct }

abbrev pub add_expense : Expense → Budget → Budget
add_expense e b = record b { expenses = b.expenses ++ e ∷ [] }

-- The rest of a transaction that has inserted an expense, and its events.
unfoldable pub settle : Option ℕ → Expense → Budget → Budget
unfolding evaluate_thresholds units_to_cents
settle actor e b =
    let (post, b') = evaluate_thresholds (add_expense e b) in
    emit actor (expense_charged (units_to_cents e.amount_units) e.category e.memo e.id ∷ post) b'

abbrev pub charged_expense : ℕ → ℕ → Charge → Expense
charged_expense now fresh c = record {
  id = fresh;
  agent_id = c.agent_id;
  amount_units = c.amount;
  category = c.category;
  memo = c.memo;
  approval_id = c.approval_id;
  ts = now;
}

-- `Budget.charge`
unfoldable pub charge : ℕ → ℕ → Charge → Call ChargeResult
charge now fresh c b =
    if b.blocked
    then (ok refused, emit c.agent_id (refusal c.amount b ∷ []) b)
    else if ltb b.total_units (sum_expenses b + sum_open_reservations b + c.amount)
    then (ok refused, emit c.agent_id (refusal c.amount b ∷ []) (block b))
    else if not (is_none (lookup expense_id_of fresh b.expenses))
    then (err integrity, b)
    else (ok (charged fresh), settle c.agent_id (charged_expense now fresh c) b)

abbrev pub new_reservation : ℕ → ℕ → ℕ → String → Reservation
new_reservation now fresh amount ref = record {
  id = fresh;
  amount_units = amount;
  ref = ref;
  status = is_open;
  created_at = now;
}

-- The rest of a transaction that inserts a reservation, and its events.
unfoldable pub admit : Reservation → Budget → Budget
unfolding evaluate_thresholds
admit r b =
    let (post, b') = evaluate_thresholds (record b { reservations = b.reservations ++ r ∷ [] }) in
    emit none post b'

-- `Budget.reserve`
unfoldable pub reserve : ℕ → ℕ → ℕ → String → Call Reservation
reserve now fresh amount ref b =
    if b.blocked || ltb b.total_units (sum_expenses b + sum_open_reservations b + amount)
    then (err over_budget, b)
    else if not (is_none (lookup reservation_id fresh b.reservations))
    then (err integrity, b)
    else (ok (new_reservation now fresh amount ref), admit (new_reservation now fresh amount ref) b)

abbrev pub with_status : ReservationStatus → Reservation → Reservation
with_status s r = record r { status = s }

-- `UPDATE reservations SET status = ? WHERE id = ?`
abbrev pub close_reservation : ReservationStatus → ℕ → Budget → Budget
close_reservation s rid b = record b {
  reservations = set reservation_id rid (with_status s) b.reservations;
}

-- `_set_reservation_status_locked`
unfoldable pub set_reservation_status : ℕ → ReservationStatus → Call (Unit {0})
set_reservation_status rid s b = elim (lookup reservation_id rid b.reservations) [
  | none ↦ (err unknown_reservation, b)
  | some row ↦
      if not (is_reserved row) then (err already_closed, b) else (ok tt, close_reservation s rid b)
]

-- `Budget.release`
unfoldable pub release : ℕ → Call (Unit {0})
unfolding set_reservation_status
release rid = set_reservation_status rid is_released

-- The test of `commit`: the headroom without this reservation does not cover the amount.
abbrev pub exceeds : Reservation → ℕ → Budget → Bool
exceeds row actual b =
    b.blocked
    || ltb b.total_units (sum_expenses b + (sum_open_reservations b - row.amount_units) + actual)

abbrev pub committed_expense : ℕ → ℕ → ℕ → Reservation → Expense
committed_expense now fresh actual row = record {
  id = fresh;
  agent_id = none;
  amount_units = actual;
  category = other;
  memo = str_append "commit:" row.ref;
  approval_id = none;
  ts = now;
}

-- `Budget.commit` for an open reservation.
unfoldable pub commit_open : ℕ → ℕ → ℕ → ℕ → Reservation → Call ChargeResult
commit_open now fresh rid actual row b =
    if exceeds row actual b
    then (
      ok refused,
      emit none (refusal actual b ∷ []) (block (close_reservation is_released rid b)),
    )
    else if not (is_none (lookup expense_id_of fresh b.expenses))
    then (err integrity, b)
    else (
      ok (charged fresh),
      settle none (committed_expense now fresh actual row) (close_reservation is_committed rid b),
    )

-- `Budget.commit`
unfoldable pub commit : ℕ → ℕ → ℕ → ℕ → Call ChargeResult
unfolding commit_open
commit now fresh rid actual b = elim (lookup reservation_id rid b.reservations) [
  | none ↦ (err unknown_reservation, b)
  | some row ↦
      if not (is_reserved row)
      then (err already_closed, b)
      else commit_open now fresh rid actual row b
]

-- `Budget.reservations`
unfoldable pub open_reservations : Budget → List Reservation
open_reservations b = select is_reserved b.reservations
