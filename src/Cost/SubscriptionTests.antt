-- ===== src/Cost/SubscriptionTests.antt =====
-- A day on which two subscriptions are due and the budget covers one.
use agent_company_factory.Prelude.{
  ◌==◌, ℕ, ◌+◌, ◌≡◌, refl, ◌⊎◌, true, false, none, some, [], ◌∷◌, arith,
}
use agent_company_factory.Prelude.Keyed.{lookup}
use agent_company_factory.Prelude.Action.{is_ok}
use agent_company_factory.Cost.Model.{hosting, domain, expense_id_of}
use agent_company_factory.Cost.Budget.{
  sum_expenses, sum_open_reservations, rise, fall, evaluate_thresholds,
}
use agent_company_factory.Cost.Spending.{settle, charge}
use agent_company_factory.Cost.Subscriptions.{
  Subscription, Recurring, sub_id, cancel, is_due, due, renew, renew_all, on_day_tick,
}
use agent_company_factory.Cost.DayTick.{made_for, IsCharged, rows-on_day_tick}

abbrev server_row : Subscription
server_row = record {
  id = 1;
  description = "server";
  amount_units = 3000;
  category = hosting;
  next_day = 5;
  period_days = 30;
  cancelled = false;
}

abbrev name_row : Subscription
name_row = record server_row {
  id = 2;
  description = "name";
  amount_units = 8000;
  category = domain;
  next_day = 4;
}

abbrev two_due : Recurring
two_due = record {
  rows = server_row ∷ name_row ∷ [];
  budget = record {
    total_units = 10000;
    blocked = false;
    last_warn_pct = 0;
    expenses = [];
    reservations = [];
    log = [];
  };
}

abbrev draws : ℕ → ℕ × ℕ
draws k = (0, k + 100)

-- The one that fell due first is charged and moved on, the other is cancelled.
day_six :
    (on_day_tick draws 6 two_due).1.rows
    ≡ cancel server_row ∷ record name_row { next_day = 34 } ∷ []
unfolding on_day_tick due renew_all renew charge settle sum_expenses sum_open_reservations
    evaluate_thresholds rise fall
day_six = refl

draws_apart : (j k : ℕ) → ((draws j).1 == (draws k).1) ≡ (j == k)
draws_apart j k = ground arith

draws_new : (k : ℕ) → lookup expense_id_of (draws k).1 two_due.budget.expenses ≡ none
draws_new k = refl

rows-on_day_tick_example :
    let (a, t) = on_day_tick draws 6 two_due in
    (is_ok a ≡ true)
    × (((is_due 6 server_row ≡ true) × IsCharged draws server_row t)
        ⊎ ((is_due 6 server_row ≡ false)
            × (lookup sub_id 1 t.rows ≡ some server_row)
            × (made_for draws 1 t ≡ none)))
rows-on_day_tick_example =
    rows-on_day_tick draws draws_apart 6 server_row two_due (refl, (refl, tt)) draws_new refl
