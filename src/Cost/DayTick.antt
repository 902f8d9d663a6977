-- ===== src/Cost/DayTick.antt =====
-- `on_day_tick` of modules/cost/subscriptions.py: each row against the charge that was made for it.
use mathlib.Core.Path.{subst}
use agent_company_factory.Prelude.{
  ◌==◌, if◌then◌else◌, ==_refl, Bool-cases, Option-cases, All, find-append_new, find-append_old, ℕ,
  ◌+◌, ◌≡◌, refl, sym, ap, ◌∙◌, ◌⊎◌, inl, inr, true, false, Option, none, some, List, [], ◌∷◌, ◌++◌,
  arith,
}
use agent_company_factory.Prelude.Keyed.{lookup, set, IsKeyed}
use agent_company_factory.Prelude.Action.{ok, is_ok}
use agent_company_factory.Cost.Model.{
  Expense, ChargeResult, charged, refused, Budget, expense_id_of,
}
use agent_company_factory.Cost.Budget.{can_afford}
use agent_company_factory.Cost.Spending.{Charge, charged_expense, charge}
use agent_company_factory.Cost.Subscriptions.{
  Subscription, Recurring, sub_id, is_due, due, charge_of, renewed, renew, renew_all, on_day_tick,
}
use agent_company_factory.Cost.Renewals.{
  renew_cases, skip, hit, renew-budget, after_error, after_turn, untouched, due-IsKeyed, lookup-due,
}
use agent_company_factory.Cost.Turnover.{
  expenses-settle, IsNew, news, renew-total, IsNew-due, on_day_tick-total,
}

charge_outcome :
    (now fresh : ℕ) (c : Charge) (b : Budget)
    → lookup expense_id_of fresh b.expenses ≡ none
    → let (r, b') = charge now fresh c b in
      ((r ≡ ok (charged fresh)) × (b'.expenses ≡ b.expenses ++ charged_expense now fresh c ∷ []))
      ⊎ ((r ≡ ok refused) × (b'.expenses ≡ b.expenses) × (b'.blocked ≡ true))
unfolding charge can_afford
charge_outcome now fresh c b new = elim (Bool-cases (can_afford c.amount b)) [
  | inl e ↦
      inl (ground arith, ground (arith, expenses-settle c.agent_id (charged_expense now fresh c) b))
  | inr e ↦ inr (ground arith, ground arith, ground arith)
]

-- A charge leaves the expenses with other identifiers.
charge_keeps :
    (now fresh k : ℕ) (c : Charge) (b : Budget)
    → (fresh == k) ≡ false
    → lookup expense_id_of k (charge now fresh c b).1.expenses ≡ lookup expense_id_of k b.expenses
unfolding charge
charge_keeps now fresh k c b d =
    let e = charged_expense now fresh c in
    elim (Option-cases (lookup expense_id_of k b.expenses)) [
      | inl h ↦ ground (
        arith,
        expenses-settle c.agent_id e b,
        find-append_new (λ x. expense_id_of x == k) e b.expenses h,
      )
      | inr (x, h) ↦ ground (
        arith,
        expenses-settle c.agent_id e b,
        find-append_old (λ x. expense_id_of x == k) x b.expenses (e ∷ []) h,
      )
    ]

charge-blocked :
    (now fresh : ℕ) (c : Charge) (b : Budget)
    → b.blocked ≡ true
    → (charge now fresh c b).1.blocked ≡ true
unfolding charge
charge-blocked now fresh c b h = ground arith

renew-rows :
    (draw : ℕ × ℕ) (r : Subscription) (s : Recurring) (a : ChargeResult)
    → (charge draw.0 draw.1 (charge_of r) s.budget).0 ≡ ok a
    → (renew draw r s).1.rows ≡ set sub_id r.id (renewed a.success r) s.rows
unfolding renew
renew-rows draw r s a h = ground arith

module _ (draw : ℕ → ℕ × ℕ) where
  -- The expense that the charge for the subscription `k` makes.
  abbrev pub made_for : ℕ → Recurring → Option Expense
  made_for k t = lookup expense_id_of (draw k).1 t.budget.expenses

  -- The subscription `r` has been charged and moved on, or it has been refused and cancelled.
  abbrev pub IsCharged : Subscription → Recurring → Type 0
  IsCharged r t =
      ((lookup sub_id r.id t.rows ≡ some (record r { next_day = r.next_day + r.period_days }))
        × (made_for r.id t ≡ some (charged_expense (draw r.id).0 (draw r.id).1 (charge_of r))))
      ⊎ ((lookup sub_id r.id t.rows ≡ some (record r { cancelled = true }))
          × (made_for r.id t ≡ none)
          × (t.budget.blocked ≡ true))

  turn-IsCharged :
      (r : Subscription) (s : Recurring)
      → lookup sub_id r.id s.rows ≡ some r
      → made_for r.id s ≡ none
      → IsCharged r (renew (draw r.id) r s).1
  turn-IsCharged r s h new =
      let b = renew-budget (draw r.id) r s in
      let e = charged_expense (draw r.id).0 (draw r.id).1 (charge_of r) in
      elim (charge_outcome (draw r.id).0 (draw r.id).1 (charge_of r) s.budget new) [
        | inl (a, x) ↦ inl (
          ap (lookup sub_id r.id) (renew-rows (draw r.id) r s (charged (draw r.id).1) a)
              ∙ hit true r r s.rows h,
          ap (λ (b : Budget). lookup expense_id_of (draw r.id).1 b.expenses) b
              ∙ ap (lookup expense_id_of (draw r.id).1) x
              ∙ find-append_new (λ x. expense_id_of x == (draw r.id).1) e s.budget.expenses new
              ∙ rw (==_refl (draw r.id).1) refl,
        )
        | inr (a, x, y) ↦ inr (
          ap (lookup sub_id r.id) (renew-rows (draw r.id) r s refused a) ∙ hit false r r s.rows h,
          ap (λ (b : Budget). lookup expense_id_of (draw r.id).1 b.expenses) b
              ∙ ap (lookup expense_id_of (draw r.id).1) x
              ∙ new,
          ap (λ (b : Budget). b.blocked) b ∙ y,
        )
      ]

  -- A turn for another subscription leaves the row.
  renew_keeps :
      (r x : Subscription) (s : Recurring)
      → (r.id == x.id) ≡ false
      → lookup sub_id r.id s.rows ≡ some r
      → lookup sub_id r.id (renew (draw x.id) x s).1.rows ≡ some r
  renew_keeps r x s d h = elim (renew_cases (draw x.id) x s) [
    | inl (e, _, same) ↦ ap (lookup sub_id r.id) same ∙ h
    | inr (b, _, same) ↦ ap (lookup sub_id r.id) same ∙ skip r.id b x s.rows d ∙ h
  ]

  renew_all-blocked :
      (l : List Subscription) (s : Recurring)
      → s.budget.blocked ≡ true
      → (renew_all draw l s).1.budget.blocked ≡ true
  unfolding renew_all
  renew_all-blocked [] s h = h
  renew_all-blocked (r ∷ l) s h =
      let one : (renew (draw r.id) r s).1.budget.blocked ≡ true =
        ap (λ (b : Budget). b.blocked) (renew-budget (draw r.id) r s)
        ∙ charge-blocked (draw r.id).0 (draw r.id).1 (charge_of r) s.budget h in
      elim (renew_cases (draw r.id) r s) [
        | inl (e, q, _) ↦ subst (λ o. o.1.budget.blocked ≡ true) (after_error draw e r l s q) one
        | inr (b, q, _) ↦
            subst (λ o. o.1.budget.blocked ≡ true) (after_turn draw r l s q)
              (renew_all-blocked l (renew (draw r.id) r s).1 one)
      ]

module _ (draw : ℕ → ℕ × ℕ) (distinct : (j k : ℕ) → ((draw j).1 == (draw k).1) ≡ (j == k)) where
  renew-made :
      (k : ℕ) (r : Subscription) (s : Recurring)
      → (r.id == k) ≡ false
      → made_for draw k (renew (draw r.id) r s).1 ≡ made_for draw k s
  renew-made k r s d =
      ap (λ (b : Budget). lookup expense_id_of (draw k).1 b.expenses) (renew-budget (draw r.id) r s)
      ∙ charge_keeps (draw r.id).0 (draw r.id).1 (draw k).1 (charge_of r) s.budget
          (distinct r.id k ∙ d)

  -- The turns for other subscriptions leave the expense.
  renew_all-made :
      (k : ℕ) (l : List Subscription) (s : Recurring)
      → lookup sub_id k l ≡ none
      → made_for draw k s ≡ made_for draw k (renew_all draw l s).1
  unfolding renew_all
  renew_all-made k [] s h = refl
  renew_all-made k (r ∷ l) s h =
      let away : (r.id == k) ≡ false = ground arith in
      let rest : lookup sub_id k l ≡ none = ground arith in
      let one = sym (renew-made k r s away) in
      elim (renew_cases (draw r.id) r s) [
        | inl (e, q, _) ↦ one ∙ ap (λ o. made_for draw k (o.1)) (after_error draw e r l s q)
        | inr (b, q, _) ↦
            one
            ∙ renew_all-made k l (renew (draw r.id) r s).1 rest
            ∙ ap (λ o. made_for draw k (o.1)) (after_turn draw r l s q)
      ]

  renew_all-IsCharged :
      (r : Subscription) (l : List Subscription) (s : Recurring)
      → lookup sub_id r.id l ≡ none
      → IsCharged draw r s
      → IsCharged draw r (renew_all draw l s).1
  renew_all-IsCharged r l s u c =
      let row = sym (untouched draw r.id l s u) in
      let made = sym (renew_all-made r.id l s u) in
      elim c [
        | inl (a, b) ↦ inl (row ∙ a, made ∙ b)
        | inr (a, b, k) ↦ inr (row ∙ a, made ∙ b, renew_all-blocked draw l s k)
      ]

  head-IsCharged :
      (r : Subscription) (l : List Subscription) (s : Recurring)
      → IsKeyed sub_id (r ∷ l)
      → IsNew draw distinct s.budget r
      → lookup sub_id r.id s.rows ≡ some r
      → IsCharged draw r (renew_all draw (r ∷ l) s).1
  head-IsCharged r l s u a h =
      subst (λ o. IsCharged draw r (o.1)) (after_turn draw r l s (renew-total draw distinct r s a))
        (renew_all-IsCharged r l (renew (draw r.id) r s).1 u.0 (turn-IsCharged draw r s h a))

  due-IsCharged :
      (r : Subscription) (l : List Subscription) (s : Recurring)
      → IsKeyed sub_id l
      → All (IsNew draw distinct s.budget) l
      → lookup sub_id r.id l ≡ some r
      → lookup sub_id r.id s.rows ≡ some r
      → IsCharged draw r (renew_all draw l s).1
  due-IsCharged r [] s u a g h = ground arith
  due-IsCharged r (x ∷ l) s u a g h = elim (Bool-cases (x.id == r.id)) [
    | inl z ↦
        let one : x ≡ r = ground arith in
        subst (λ y. IsCharged draw r (renew_all draw (y ∷ l) s).1) (sym one)
          (head-IsCharged r l s (subst (λ y. IsKeyed sub_id (y ∷ l)) one u)
            (subst (IsNew draw distinct s.budget) one a.0) h)
    | inr z ↦
        let q = renew-total draw distinct x s a.0 in
        let rest : lookup sub_id r.id l ≡ some r = ground arith in
        let away : (r.id == x.id) ≡ false = ground arith in
        let new =
          subst (λ b. All (IsNew draw distinct b) l) (sym (renew-budget (draw x.id) x s))
            (news draw distinct x s.budget l u.0 a.1) in
        subst (λ o. IsCharged draw r (o.1)) (after_turn draw x l s q)
          (due-IsCharged r l (renew (draw x.id) x s).1 u.1 new rest (renew_keeps draw r x s away h))
  ]

  -- Where identifiers are unique and each charge draws one of its own that no expense has, a day
  -- tick does not raise. A subscription of the table that is due is charged and moved on by its
  -- period, its expense then in the ledger; or it is cancelled, and then there is no expense for
  -- it and the budget is blocked. One that is not due stays as it was, without an expense.
  pub rows-on_day_tick :
      (day : ℕ) (r : Subscription) (s : Recurring)
      → IsKeyed sub_id s.rows
      → ((k : ℕ) → made_for draw k s ≡ none)
      → lookup sub_id r.id s.rows ≡ some r
      → let (a, t) = on_day_tick draw day s in
        (is_ok a ≡ true)
        × (((is_due day r ≡ true) × IsCharged draw r t)
            ⊎ ((is_due day r ≡ false)
                × (lookup sub_id r.id t.rows ≡ some r)
                × (made_for draw r.id t ≡ none)))
  unfolding on_day_tick
  rows-on_day_tick day r s u f h =
      let chosen = lookup-due day r.id r s.rows u h in
      let l = due day s.rows in
      (
        on_day_tick-total draw distinct day s u f,
        elim (Bool-cases (is_due day r)) [
          | inl e ↦ inl (
            e,
            due-IsCharged r l s (due-IsKeyed day s.rows u) (IsNew-due draw distinct day s f l)
                (chosen ∙ ap (λ c. if c then some r else none) e) h,
          )
          | inr e ↦
              let out = chosen ∙ ap (λ c. if c then some r else none) e in
              inr (
                e,
                sym (untouched draw r.id l s out) ∙ h,
                sym (renew_all-made r.id l s out) ∙ f r.id,
              )
        ],
      )
