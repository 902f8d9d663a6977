-- ===== src/Cost/Tests.antt =====
-- Runs of the budget engine, and its theorems at concrete inputs.
use agent_company_factory.Cost.Bounds.{
  IsValid, IsWithin, charge_lem, reserve_lem, release_lem, commit_lem,
}
use agent_company_factory.Cost.Budget.{
  sum_expenses, sum_open_reservations, can_afford, pct_ge, evaluate_thresholds,
}
use agent_company_factory.Cost.Exhausted.{is_charged, exhausting_reservation}
use agent_company_factory.Cost.Ledger.{
  Op, spend, hold, free, pay, step, run, step-IsValid, run-IsWithin,
}
use agent_company_factory.Cost.Model.{
  ads, over_budget, charged, refused, budget_warning, expense_charged, Budget, reservation_id,
  expense_id_of,
}
use agent_company_factory.Cost.Spending.{
  Charge, settle, charge, new_reservation, admit, reserve, release, commit,
}
use agent_company_factory.Cost.Thresholds.{
  used_of, level, evaluate_level, is_warning, is_block, evaluate_events,
}
use agent_company_factory.Prelude.{
  ltb, ◌==◌, if◌then◌else◌, length, exists, ◌+◌, ◌≡◌, refl, inl, true, false, ◌&&◌, ◌||◌, none,
  some, List, [], ◌∷◌, arith,
}
use agent_company_factory.Prelude.Action.{ok, err}
use agent_company_factory.Prelude.Keyed.{lookup, IsKeyed}

-- One dollar, nothing used.
abbrev fresh_budget : Budget
fresh_budget = record {
  total_units = 10000;
  blocked = false;
  last_warn_pct = 0;
  expenses = [];
  reservations = [];
  log = [];
}

fresh_budget-IsValid : IsValid fresh_budget
fresh_budget-IsValid = record {
  expense_ids = tt;
  reservation_ids = tt;
  coherent = record { known = inl refl; agrees = refl };
}

abbrev ad : Charge
ad = record { agent_id = some 3; amount = 8500; category = ads; memo = "ad"; approval_id = none }

-- 85 % of the budget: the charge, then the warning.
ad_log :
    (charge 0 1 ad fresh_budget).1.log
    ≡ (some 3, expense_charged 85 ads "ad" 1) ∷ (some 3, budget_warning 85 100 (8500, 10000)) ∷ []
unfolding charge settle sum_expenses sum_open_reservations
ad_log = refl

evaluate_level_example :
    let b' = (evaluate_thresholds fresh_budget).1 in
    (b'.last_warn_pct ≡ level (used_of fresh_budget) 10000)
    × (b'.blocked ≡ pct_ge 100 (used_of fresh_budget) 10000)
evaluate_level_example = evaluate_level fresh_budget fresh_budget-IsValid.coherent

evaluate_events_example :
    let out = (evaluate_thresholds fresh_budget).0 in
    let now = level (used_of fresh_budget) 10000 in
    (length out ≡ (if ltb 0 now then 1 else 0))
    × (exists is_block out ≡ (ltb 0 now && now == 100))
    × (exists is_warning out ≡ (ltb 0 now && now == 80))
evaluate_events_example = evaluate_events fresh_budget fresh_budget-IsValid.coherent

charge_lem_example :
    let b' = (charge 0 1 ad fresh_budget).1 in
    ((charge 0 1 ad fresh_budget).0
      ≡ ok (if can_afford 8500 fresh_budget then charged 1 else refused))
    × (sum_expenses b'
        ≡ sum_expenses fresh_budget + (if can_afford 8500 fresh_budget then 8500 else 0))
    × (sum_open_reservations b' ≡ sum_open_reservations fresh_budget)
    × (b'.total_units ≡ 10000)
charge_lem_example = charge_lem 0 1 ad fresh_budget refl

abbrev held : Budget
held = (reserve 0 5 4000 "t" fresh_budget).1

reserve_lem_example :
    let (r, b') = reserve 0 5 4000 "t" fresh_budget in
    let granted = can_afford 4000 fresh_budget in
    let row = new_reservation 0 5 4000 "t" in
    (r ≡ (if granted then ok row else err over_budget))
    × (b' ≡ (if granted then admit row fresh_budget else fresh_budget))
    × (sum_expenses b' ≡ sum_expenses fresh_budget)
    × (sum_open_reservations b'
        ≡ sum_open_reservations fresh_budget + (if granted then 4000 else 0))
reserve_lem_example = reserve_lem 0 5 4000 "t" fresh_budget refl

held_row : lookup reservation_id 5 held.reservations ≡ some (new_reservation 0 5 4000 "t")
unfolding reserve admit sum_expenses sum_open_reservations
held_row = refl

held_ids : IsKeyed reservation_id held.reservations
unfolding step reserve
held_ids = (step-IsValid (hold 0 5 4000 "t") fresh_budget fresh_budget-IsValid).reservation_ids

held_new : lookup expense_id_of 6 held.expenses ≡ none
unfolding reserve admit sum_expenses sum_open_reservations
held_new = refl

commit_lem_example :
    let (r, b') = commit 1 6 5 4500 held in
    let fits = can_afford 4500 (release 5 held).1 in
    (r ≡ ok (if fits then charged 6 else refused))
    × (sum_open_reservations b' + 4000 ≡ sum_open_reservations held)
    × (sum_expenses b' ≡ sum_expenses held + (if fits then 4500 else 0))
    × (b'.total_units ≡ held.total_units)
    × ((fits || b'.blocked) ≡ true)
commit_lem_example =
    commit_lem 1 6 5 4500 (new_reservation 0 5 4000 "t") held held_ids held_row refl held_new

release_lem_example :
    let (r, b') = release 5 held in
    (r ≡ ok tt)
    × (sum_open_reservations b' + 4000 ≡ sum_open_reservations held)
    × (sum_expenses b' ≡ sum_expenses held)
    × (b'.total_units ≡ held.total_units)
release_lem_example = release_lem 5 (new_reservation 0 5 4000 "t") held held_ids held_row refl

abbrev month : List Op
month = spend 0 1 ad ∷ hold 1 2 1000 "t" ∷ pay 2 3 2 1200 ∷ hold 3 4 900 "t" ∷ free 2 ∷ []

IsWithin-fresh_budget : IsWithin fresh_budget
unfolding sum_expenses sum_open_reservations
IsWithin-fresh_budget = omega arith

run-IsWithin_example : IsWithin (run month fresh_budget)
run-IsWithin_example =
    run-IsWithin month fresh_budget (refl, (refl, (refl, (refl, (refl, tt))))) fresh_budget-IsValid
      IsWithin-fresh_budget

affords : can_afford 10000 fresh_budget ≡ true
unfolding can_afford
affords = refl

fills : used_of fresh_budget + 10000 ≡ fresh_budget.total_units
unfolding sum_expenses sum_open_reservations
fills = refl

exhausting_reservation_example :
    let (r, b') = reserve 0 1 10000 "t" fresh_budget in
    (r ≡ ok (new_reservation 0 1 10000 "t"))
    × ((commit 1 2 1 10000 b').0 ≡ ok refused)
    × ((run month b').blocked ≡ true)
    × (is_charged (commit 1 2 1 9000 (run month b')).0 ≡ false)
exhausting_reservation_example =
    exhausting_reservation 0 1 1 2 10000 1 9000 "t" month fresh_budget fresh_budget-IsValid refl
      affords fills (omega arith) (refl, (refl, (refl, (refl, (refl, tt)))))
