-- ===== src/Cost/Renewals.antt =====
-- What a day tick does to the subscriptions and to the budget.
use mathlib.Core.Path.{subst}
use agent_company_factory.Prelude.{
  ◌==◌, if◌then◌else◌, select, order_by, ℕ, ◌≡◌, refl, sym, ap, ◌∙◌, ◌⊎◌, inl, inr, Bool, true,
  false, none, some, List, [], ◌∷◌, arith,
}
use agent_company_factory.Prelude.Sorted.{
  lookup-order_by, IsKeyed-order_by, lookup-select, IsKeyed-select,
}
use agent_company_factory.Prelude.Keyed.{lookup, set, IsKeyed, lookup-set}
use agent_company_factory.Prelude.Action.{Result, ok, err}
use agent_company_factory.Cost.Model.{CostError, ChargeResult}
use agent_company_factory.Cost.Spending.{charge}
use agent_company_factory.Cost.Bounds.{IsWithin, charge-IsWithin}
use agent_company_factory.Cost.Subscriptions.{
  Subscription, Recurring, sub_id, is_due, due, charge_of, renewed, renew, renew_all, on_day_tick,
}

-- The two ways in which a turn of the loop ends.
pub renew_cases :
    (draw : ℕ × ℕ) (r : Subscription) (s : Recurring)
    → ((e : CostError) × ((renew draw r s).0 ≡ err e) × ((renew draw r s).1.rows ≡ s.rows))
      ⊎ ((b : Bool) × ((renew draw r s).0 ≡ ok tt)
          × ((renew draw r s).1.rows ≡ set sub_id r.id (renewed b r) s.rows))
unfolding renew
renew_cases draw r s = go ((charge draw.0 draw.1 (charge_of r) s.budget).0) refl
  where
    go :
        (a : Result CostError ChargeResult)
        → (charge draw.0 draw.1 (charge_of r) s.budget).0 ≡ a
        → ((e : CostError) × ((renew draw r s).0 ≡ err e) × ((renew draw r s).1.rows ≡ s.rows))
          ⊎ ((b : Bool) × ((renew draw r s).0 ≡ ok tt)
              × ((renew draw r s).1.rows ≡ set sub_id r.id (renewed b r) s.rows))
    go (err e) h = inl (e, ground arith, ground arith)
    go (ok res) h = inr (res.success, ground arith, ground arith)

renewed_same : (b : Bool) (r row : Subscription) → sub_id (renewed b r row) ≡ sub_id row
renewed_same true r row = refl
renewed_same false r row = refl

pub skip :
    (k : ℕ) (b : Bool) (r : Subscription) (t : List Subscription)
    → (k == r.id) ≡ false
    → lookup sub_id k (set sub_id r.id (renewed b r) t) ≡ lookup sub_id k t
skip k b r t h = ground (arith, lookup-set sub_id (renewed b r) (renewed_same b r) k r.id t)

pub hit :
    (b : Bool) (r row : Subscription) (t : List Subscription)
    → lookup sub_id r.id t ≡ some row
    → lookup sub_id r.id (set sub_id r.id (renewed b r) t) ≡ some (renewed b r row)
hit b r row t h = ground (arith, lookup-set sub_id (renewed b r) (renewed_same b r) r.id r.id t)

pub renew-budget :
    (draw : ℕ × ℕ) (r : Subscription) (s : Recurring)
    → (renew draw r s).1.budget ≡ (charge draw.0 draw.1 (charge_of r) s.budget).1
unfolding renew
renew-budget draw r s = ground arith

module _ (draw : ℕ → ℕ × ℕ) where
  pub after_error :
      (e : CostError) (r : Subscription) (l : List Subscription) (s : Recurring)
      → (renew (draw r.id) r s).0 ≡ err e
      → (err e, (renew (draw r.id) r s).1) ≡ renew_all draw (r ∷ l) s
  unfolding renew_all
  after_error e r l s h = ground arith

  pub after_turn :
      (r : Subscription) (l : List Subscription) (s : Recurring)
      → (renew (draw r.id) r s).0 ≡ ok tt
      → renew_all draw l (renew (draw r.id) r s).1 ≡ renew_all draw (r ∷ l) s
  unfolding renew_all
  after_turn r l s h = ground arith

  IsWithin-renew :
      (r : Subscription) (s : Recurring)
      → IsWithin s.budget
      → IsWithin (renew (draw r.id) r s).1.budget
  IsWithin-renew r s w =
      subst IsWithin (sym (renew-budget (draw r.id) r s))
        (charge-IsWithin (draw r.id).0 (draw r.id).1 (charge_of r) s.budget w)

  renew_all-IsWithin :
      (l : List Subscription) (s : Recurring)
      → IsWithin s.budget
      → IsWithin (renew_all draw l s).1.budget
  unfolding renew_all
  renew_all-IsWithin [] s w = w
  renew_all-IsWithin (r ∷ l) s w = elim (renew_cases (draw r.id) r s) [
    | inl (e, h, _) ↦
        subst (λ o. IsWithin o.1.budget) (after_error e r l s h) (IsWithin-renew r s w)
    | inr (b, h, _) ↦
        subst (λ o. IsWithin o.1.budget) (after_turn r l s h)
          (renew_all-IsWithin l (renew (draw r.id) r s).1 (IsWithin-renew r s w))
  ]

  -- A row that is not in the selection stays.
  pub untouched :
      (k : ℕ) (l : List Subscription) (s : Recurring)
      → lookup sub_id k l ≡ none
      → lookup sub_id k s.rows ≡ lookup sub_id k (renew_all draw l s).1.rows
  unfolding renew_all
  untouched k [] s h = refl
  untouched k (r ∷ l) s h = elim (renew_cases (draw r.id) r s) [
    | inl (e, q, same) ↦
        ap (lookup sub_id k) (sym same) ∙ ap (λ o. lookup sub_id k o.1.rows) (after_error e r l s q)
    | inr (b, q, same) ↦
        let away : (k == r.id) ≡ false = ground arith in
        let rest : lookup sub_id k l ≡ none = ground arith in
        sym (skip k b r s.rows away)
        ∙ ap (lookup sub_id k) (sym same)
        ∙ untouched k l (renew (draw r.id) r s).1 rest
        ∙ ap (λ o. lookup sub_id k o.1.rows) (after_turn r l s q)
  ]

pub due-IsKeyed : (day : ℕ) (t : List Subscription) → IsKeyed sub_id t → IsKeyed sub_id (due day t)
unfolding due
due-IsKeyed day t u =
    IsKeyed-order_by sub_id (λ r. r.next_day) (order_by sub_id (select (is_due day) t))
      (IsKeyed-order_by sub_id sub_id (select (is_due day) t)
        (IsKeyed-select sub_id (is_due day) t u))

pub lookup-due :
    (day k : ℕ) (r : Subscription) (t : List Subscription)
    → IsKeyed sub_id t
    → lookup sub_id k t ≡ some r
    → lookup sub_id k (due day t) ≡ (if is_due day r then some r else none)
unfolding due
lookup-due day k r t u h =
    let chosen = IsKeyed-select sub_id (is_due day) t u in
    lookup-order_by sub_id (λ x. x.next_day) k (order_by sub_id (select (is_due day) t))
      (IsKeyed-order_by sub_id sub_id (select (is_due day) t) chosen)
    ∙ lookup-order_by sub_id sub_id k (select (is_due day) t) chosen
    ∙ lookup-select sub_id (is_due day) k r t u h

-- A day tick, also one that raises half-way, does not carry spent and reserved past the total.
pub on_day_tick-IsWithin :
    (draw : ℕ → ℕ × ℕ) (day : ℕ) (s : Recurring)
    → IsWithin s.budget
    → IsWithin (on_day_tick draw day s).1.budget
unfolding on_day_tick
on_day_tick-IsWithin draw day s w = renew_all-IsWithin draw (due day s.rows) s w
