-- ===== src/Cost/Budget.antt =====
-- modules/cost/budget.py: the sums, the thresholds and `set_total`.
use agent_company_factory.Prelude.{
  ltb, leb, ◌==◌, if◌then◌else◌, sum_where, ℕ, ◌+◌, ◌-◌, ◌*◌, ◌/◌, Bool, true, false, not, ◌&&◌,
  Option, none, List, [], ◌∷◌, ◌++◌, map,
}
use agent_company_factory.Cost.Model.{
  Category, llm, tool, hosting, domain, email, ads, payment, other, Event, budget_blocked,
  budget_warning, Budget, is_reserved, any_expense,
}

abbrev pub warning_pct : ℕ
warning_pct = 80

abbrev pub blocked_pct : ℕ
blocked_pct = 100

-- `_units_to_cents`, rounding half up.
unfoldable pub units_to_cents : ℕ → ℕ
units_to_cents u = (u + 50) / 100

-- `_sum_expenses`
unfoldable pub sum_expenses : Budget → ℕ
sum_expenses b = sum_where any_expense (λ e. e.amount_units) b.expenses

-- `_sum_open_reservations`
unfoldable pub sum_open_reservations : Budget → ℕ
sum_open_reservations b = sum_where is_reserved (λ r. r.amount_units) b.reservations

abbrev pub same_category : Category → Category → Bool
same_category llm llm = true
same_category tool tool = true
same_category hosting hosting = true
same_category domain domain = true
same_category email email = true
same_category ads ads = true
same_category payment payment = true
same_category other other = true
same_category _ _ = false

pub record BudgetState : Type 0 where
  pub total : ℕ
  pub spent : ℕ
  pub reserved : ℕ
  pub remaining : ℕ
  pub by_category : Category → ℕ
  pub is_blocked : Bool

-- `Budget.state`; the truncated subtraction is the `max(0, ...)`.
unfoldable pub state : Budget → BudgetState
unfolding sum_expenses sum_open_reservations
state b = record {
  total = b.total_units;
  spent = sum_expenses b;
  reserved = sum_open_reservations b;
  remaining = b.total_units - sum_expenses b - sum_open_reservations b;
  by_category = λ c. sum_where (λ e. same_category e.category c) (λ e. e.amount_units) b.expenses;
  is_blocked = b.blocked;
}

-- `Budget.can_afford`
unfoldable pub can_afford : ℕ → Budget → Bool
unfolding state
can_afford amount b =
    let s = state b in if s.is_blocked then false else leb (s.spent + s.reserved + amount) s.total

-- `new_pct >= p`: with 28 digits the quotient of two SQLite integers compares as the fraction does.
abbrev pub pct_ge : ℕ → ℕ → ℕ → Bool
pct_ge p used total = if total == 0 then leb p 0 else leb (p * total) (used * 100)

-- The crossings upward of `_evaluate_thresholds_locked`: events, `last_warn_pct`, `blocked`.
unfoldable pub rise : ℕ → Budget → List Event × ℕ × Bool
unfolding units_to_cents
rise used b =
    if pct_ge blocked_pct used b.total_units && ltb b.last_warn_pct blocked_pct
    then (
      budget_blocked (units_to_cents used) (units_to_cents b.total_units) 0 ∷ [],
      blocked_pct,
      true,
    )
    else if pct_ge warning_pct used b.total_units && ltb b.last_warn_pct warning_pct
    then (
      budget_warning (units_to_cents used) (units_to_cents b.total_units) (used, b.total_units)
          ∷ [],
      warning_pct,
      b.blocked,
    )
    else ([], b.last_warn_pct, b.blocked)

-- The crossings downward.
unfoldable pub fall : ℕ → Budget → ℕ × Bool → ℕ × Bool
fall used b (last, blocked) = (
  if not (pct_ge warning_pct used b.total_units) && leb warning_pct b.last_warn_pct
      then 0
      else if not (pct_ge blocked_pct used b.total_units) && leb blocked_pct b.last_warn_pct
      then warning_pct
      else last,
  if not (pct_ge blocked_pct used b.total_units) && b.blocked then false else blocked,
)

-- `_evaluate_thresholds_locked`: the events to emit after the commit, and the written row.
unfoldable pub evaluate_thresholds : Budget → List Event × Budget
unfolding rise fall
evaluate_thresholds b =
    let used = sum_expenses b + sum_open_reservations b in
    let (out, last, blocked) = rise used b in
    let (last', blocked') = fall used b (last, blocked) in
    (out, record b { last_warn_pct = last'; blocked = blocked' })

-- The loop that appends the events after the commit.
abbrev pub emit : Option ℕ → List Event → Budget → Budget
emit actor es b = record b { log = b.log ++ map (λ e. (actor, e)) es }

-- `Budget.set_total`
unfoldable pub set_total : ℕ → Budget → Budget
unfolding evaluate_thresholds
set_total amount b =
    let (post, b') = evaluate_thresholds (record b { total_units = amount }) in emit none post b'
