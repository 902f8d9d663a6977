-- ===== src/Cost/Bounds.antt =====
-- What each operation does to the money spent and reserved; the total is never passed.
use agent_company_factory.Prelude.{
  if◌then◌else◌, Option-cases, sum_where-append, ℕ, ◌+◌, ◌≤◌, String, ◌≡◌, refl, inl, inr, true,
  false, not, ◌||◌, Option, none, some, [], ◌∷◌, ◌++◌, arith,
}
use agent_company_factory.Prelude.Keyed.{lookup, IsKeyed, sum_where-set}
use agent_company_factory.Prelude.Action.{ok, err}
use agent_company_factory.Cost.Model.{
  ReservationStatus, is_committed, is_released, over_budget, Expense, Reservation, charged, refused,
  Budget, is_reserved, reservation_id, expense_id_of, any_expense,
}
use agent_company_factory.Cost.Budget.{
  sum_expenses, sum_open_reservations, can_afford, evaluate_thresholds,
}
use agent_company_factory.Cost.Spending.{
  Charge, add_expense, settle, charged_expense, charge, new_reservation, admit, reserve,
  with_status, close_reservation, release, exceeds, committed_expense, commit,
}
use agent_company_factory.Cost.Thresholds.{used_of, IsCoherent}

pub record IsValid (b : Budget) : Type 0 where
  pub expense_ids : IsKeyed expense_id_of b.expenses
  pub reservation_ids : IsKeyed reservation_id b.reservations
  pub coherent : IsCoherent b

abbrev pub IsWithin : Budget → Type 0
IsWithin b = used_of b ≤ b.total_units

tables-evaluate :
    (b : Budget)
    → ((evaluate_thresholds b).1.expenses ≡ b.expenses)
      × ((evaluate_thresholds b).1.reservations ≡ b.reservations)
      × ((evaluate_thresholds b).1.total_units ≡ b.total_units)
unfolding evaluate_thresholds
tables-evaluate b = (refl, refl, refl)

sum_expenses-add :
    (e : Expense) (b : Budget) → sum_expenses (add_expense e b) ≡ sum_expenses b + e.amount_units
unfolding sum_expenses
sum_expenses-add e b =
    omega (arith, sum_where-append any_expense (λ x. x.amount_units) b.expenses (e ∷ []))

settle_sums :
    (actor : Option ℕ) (e : Expense) (b : Budget)
    → (sum_expenses (settle actor e b) ≡ sum_expenses b + e.amount_units)
      × (sum_open_reservations (settle actor e b) ≡ sum_open_reservations b)
      × ((settle actor e b).total_units ≡ b.total_units)
unfolding settle sum_open_reservations sum_expenses
settle_sums actor e b = (sum_expenses-add e b, refl, refl)

pub sum_open-add :
    (r : Reservation) (b : Budget)
    → sum_open_reservations (record b { reservations = b.reservations ++ r ∷ [] })
      ≡ sum_open_reservations b + (if is_reserved r then r.amount_units else 0)
unfolding sum_open_reservations
sum_open-add r b =
    omega (arith, sum_where-append is_reserved (λ x. x.amount_units) b.reservations (r ∷ []))

pub admit_sums :
    (r : Reservation) (b : Budget)
    → (sum_expenses (admit r b) ≡ sum_expenses b)
      × (sum_open_reservations (admit r b)
          ≡ sum_open_reservations b + (if is_reserved r then r.amount_units else 0))
      × ((admit r b).total_units ≡ b.total_units)
unfolding admit sum_expenses sum_open_reservations
admit_sums r b = (refl, sum_open-add r b, refl)

-- A charge succeeds exactly when `can_afford` says so; then the amount is spent, and otherwise
-- nothing is. What is reserved and the total stay.
pub charge_lem :
    (now fresh : ℕ) (c : Charge) (b : Budget)
    → lookup expense_id_of fresh b.expenses ≡ none
    → let b' = (charge now fresh c b).1 in
      ((charge now fresh c b).0 ≡ ok (if can_afford c.amount b then charged fresh else refused))
      × (sum_expenses b' ≡ sum_expenses b + (if can_afford c.amount b then c.amount else 0))
      × (sum_open_reservations b' ≡ sum_open_reservations b)
      × (b'.total_units ≡ b.total_units)
unfolding charge can_afford
charge_lem now fresh c b new =
    ground (arith, settle_sums c.agent_id (charged_expense now fresh c) b)

-- A reservation is granted exactly when `can_afford` says so, and then its amount is reserved;
-- a refusal raises and changes nothing. What is spent stays.
pub reserve_lem :
    (now fresh amount : ℕ) (ref : String) (b : Budget)
    → lookup reservation_id fresh b.reservations ≡ none
    → let (r, b') = reserve now fresh amount ref b in
      let granted = can_afford amount b in
      let row = new_reservation now fresh amount ref in
      (r ≡ (if granted then ok row else err over_budget))
      × (b' ≡ (if granted then admit row b else b))
      × (sum_expenses b' ≡ sum_expenses b)
      × (sum_open_reservations b' ≡ sum_open_reservations b + (if granted then amount else 0))
unfolding reserve can_afford
reserve_lem now fresh amount ref b new =
    ground (arith, admit_sums (new_reservation now fresh amount ref) b)

-- Closing an open reservation takes its amount, and only that, from what is reserved.
pub close_sums :
    (st : ReservationStatus) (rid : ℕ) (row : Reservation) (b : Budget)
    → IsKeyed reservation_id b.reservations
    → lookup reservation_id rid b.reservations ≡ some row
    → is_reserved row ≡ true
    → is_reserved (with_status st row) ≡ false
    → sum_open_reservations (close_reservation st rid b) + row.amount_units
      ≡ sum_open_reservations b
unfolding sum_open_reservations
close_sums st rid row b u e o c = ground (
  arith,
  sum_where-set reservation_id (with_status st) rid row is_reserved (λ r. r.amount_units)
      b.reservations u e,
)

-- Releasing an open reservation frees its amount and touches neither the expenses nor the total.
pub release_lem :
    (rid : ℕ) (row : Reservation) (b : Budget)
    → IsKeyed reservation_id b.reservations
    → lookup reservation_id rid b.reservations ≡ some row
    → is_reserved row ≡ true
    → let (r, b') = release rid b in
      (r ≡ ok tt)
      × (sum_open_reservations b' + row.amount_units ≡ sum_open_reservations b)
      × (sum_expenses b' ≡ sum_expenses b)
      × (b'.total_units ≡ b.total_units)
unfolding release sum_expenses
release_lem rid row b u e o = ground (arith, close_sums is_released rid row b u e o refl)

-- The test of `commit` is what `can_afford` says once the reservation is released.
exceeds_lem :
    (rid actual : ℕ) (row : Reservation) (b : Budget)
    → IsKeyed reservation_id b.reservations
    → lookup reservation_id rid b.reservations ≡ some row
    → is_reserved row ≡ true
    → exceeds row actual b ≡ not (can_afford actual (release rid b).1)
unfolding release can_afford sum_expenses
exceeds_lem rid actual row b u e o = ground (arith, close_sums is_released rid row b u e o refl)

-- In a table of unique reservations, committing an open one under a new expense identifier frees
-- its amount either way. It is answered as a charge is once the reservation is released: where
-- `can_afford` then says yes to the actual amount, that amount is spent; where not, nothing is
-- spent and the budget is blocked. The total stays.
pub commit_lem :
    (now fresh rid actual : ℕ) (row : Reservation) (b : Budget)
    → IsKeyed reservation_id b.reservations
    → lookup reservation_id rid b.reservations ≡ some row
    → is_reserved row ≡ true
    → lookup expense_id_of fresh b.expenses ≡ none
    → let (r, b') = commit now fresh rid actual b in
      let fits = can_afford actual (release rid b).1 in
      (r ≡ ok (if fits then charged fresh else refused))
      × (sum_open_reservations b' + row.amount_units ≡ sum_open_reservations b)
      × (sum_expenses b' ≡ sum_expenses b + (if fits then actual else 0))
      × (b'.total_units ≡ b.total_units)
      × ((fits || b'.blocked) ≡ true)
unfolding commit sum_expenses sum_open_reservations
commit_lem now fresh rid actual row b u e o new = ground (
  arith,
  exceeds_lem rid actual row b u e o,
  settle_sums none (committed_expense now fresh actual row) (close_reservation is_committed rid b),
  close_sums is_committed rid row b u e o refl,
  close_sums is_released rid row b u e o refl,
)

pub charge-IsWithin :
    (now fresh : ℕ) (c : Charge) (b : Budget) → IsWithin b → IsWithin (charge now fresh c b).1
unfolding charge sum_expenses sum_open_reservations
charge-IsWithin now fresh c b w =
    ground (arith, settle_sums c.agent_id (charged_expense now fresh c) b)

pub reserve-IsWithin :
    (now fresh amount : ℕ) (ref : String) (b : Budget)
    → IsWithin b
    → IsWithin (reserve now fresh amount ref b).1
unfolding reserve sum_expenses sum_open_reservations
reserve-IsWithin now fresh amount ref b w =
    ground (arith, admit_sums (new_reservation now fresh amount ref) b)

pub release-IsWithin :
    (rid : ℕ) (b : Budget)
    → IsKeyed reservation_id b.reservations
    → IsWithin b
    → IsWithin (release rid b).1
unfolding release sum_expenses sum_open_reservations
release-IsWithin rid b u w = elim (Option-cases (lookup reservation_id rid b.reservations)) [
  | inl e ↦ ground arith
  | inr (row, e) ↦ ground (arith, close_sums is_released rid row b u e)
]

pub commit-IsWithin :
    (now fresh rid actual : ℕ) (b : Budget)
    → IsKeyed reservation_id b.reservations
    → IsWithin b
    → IsWithin (commit now fresh rid actual b).1
unfolding commit sum_expenses sum_open_reservations
commit-IsWithin now fresh rid actual b u w =
    elim (Option-cases (lookup reservation_id rid b.reservations)) [
      | inl e ↦ ground arith
      | inr (row, e) ↦ ground (
        arith,
        settle_sums none (committed_expense now fresh actual row)
            (close_reservation is_committed rid b),
        close_sums is_committed rid row b u e,
        close_sums is_released rid row b u e,
      )
    ]
