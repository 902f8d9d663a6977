-- ===== src/Cost/Turnover.antt =====
-- A day tick whose charges draw new identifiers does not raise.
use mathlib.Core.Path.{subst}
use agent_company_factory.Prelude.{
  ◌==◌, All, find-append_new, ℕ, ◌≡◌, refl, sym, ◌∙◌, true, false, Option, none, List, [], ◌∷◌,
  ◌++◌, arith,
}
use agent_company_factory.Prelude.Keyed.{lookup, IsKeyed}
use agent_company_factory.Prelude.Action.{ok, is_ok}
use agent_company_factory.Cost.Model.{Expense, Budget, expense_id_of}
use agent_company_factory.Cost.Budget.{evaluate_thresholds}
use agent_company_factory.Cost.Spending.{Charge, settle, charged_expense, charge}
use agent_company_factory.Cost.Bounds.{charge_lem}
use agent_company_factory.Cost.Subscriptions.{
  Subscription, Recurring, sub_id, due, charge_of, renew, renew_all, on_day_tick,
}
use agent_company_factory.Cost.Renewals.{renew-budget, after_turn, due-IsKeyed}

pub expenses-settle :
    (actor : Option ℕ) (e : Expense) (b : Budget)
    → (settle actor e b).expenses ≡ b.expenses ++ e ∷ []
unfolding settle evaluate_thresholds
expenses-settle actor e b = refl

-- A charge takes no identifier but its own.
charge_takes :
    (now fresh other_id : ℕ) (c : Charge) (b : Budget)
    → (fresh == other_id) ≡ false
    → lookup expense_id_of other_id b.expenses ≡ none
    → lookup expense_id_of other_id (charge now fresh c b).1.expenses ≡ none
unfolding charge
charge_takes now fresh other_id c b d h =
    let e = charged_expense now fresh c in
    ground (
      arith,
      expenses-settle c.agent_id e b,
      find-append_new (λ x. expense_id_of x == other_id) e b.expenses h,
    )

module _ (draw : ℕ → ℕ × ℕ) (distinct : (j k : ℕ) → ((draw j).1 == (draw k).1) ≡ (j == k)) where
  -- The identifier for the charge of `r` is new.
  abbrev pub IsNew : Budget → Subscription → Type 0
  IsNew b r = lookup expense_id_of (draw r.id).1 b.expenses ≡ none

  pub news :
      (r : Subscription) (b : Budget) (l : List Subscription)
      → lookup sub_id r.id l ≡ none
      → All (IsNew b) l
      → All (IsNew (charge (draw r.id).0 (draw r.id).1 (charge_of r) b).1) l
  news r b [] u a = tt
  news r b (x ∷ l) u a =
      let apart : (x.id == r.id) ≡ false = ground arith in
      let draws : ((draw r.id).1 == (draw x.id).1) ≡ false =
        distinct r.id x.id ∙ ground (arith, apart) in
      (
        charge_takes (draw r.id).0 (draw r.id).1 (draw x.id).1 (charge_of r) b draws a.0,
        news r b l (ground arith) a.1,
      )

  pub renew-total :
      (r : Subscription) (s : Recurring) → IsNew s.budget r → (renew (draw r.id) r s).0 ≡ ok tt
  unfolding renew
  renew-total r s h =
      ground (arith, charge_lem (draw r.id).0 (draw r.id).1 (charge_of r) s.budget h)

  renew_all-total :
      (l : List Subscription) (s : Recurring)
      → IsKeyed sub_id l
      → All (IsNew s.budget) l
      → is_ok (renew_all draw l s).0 ≡ true
  unfolding renew_all
  renew_all-total [] s u a = refl
  renew_all-total (r ∷ l) s u a =
      let q = renew-total r s a.0 in
      subst (λ o. is_ok (o.0) ≡ true) (after_turn draw r l s q)
        (renew_all-total l (renew (draw r.id) r s).1 u.1 (
          subst (λ b. All (IsNew b) l) (sym (renew-budget (draw r.id) r s))
            (news r s.budget l u.0 a.1)))

  pub IsNew-due :
      (day : ℕ) (s : Recurring)
      → ((k : ℕ) → lookup expense_id_of (draw k).1 s.budget.expenses ≡ none)
      → (l : List Subscription) → All (IsNew s.budget) l
  IsNew-due day s h [] = tt
  IsNew-due day s h (r ∷ l) = (h r.id, IsNew-due day s h l)

  pub on_day_tick-total :
      (day : ℕ) (s : Recurring)
      → IsKeyed sub_id s.rows
      → ((k : ℕ) → lookup expense_id_of (draw k).1 s.budget.expenses ≡ none)
      → is_ok (on_day_tick draw day s).0 ≡ true
  unfolding on_day_tick
  on_day_tick-total day s u h =
      renew_all-total (due day s.rows) s (due-IsKeyed day s.rows u)
        (IsNew-due day s h (due day s.rows))
