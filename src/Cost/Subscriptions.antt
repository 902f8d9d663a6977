-- ===== src/Cost/Subscriptions.antt =====
-- modules/cost/subscriptions.py over the budget, and `Subscription` of modules/cost/models.py.
use Prim.Native.String.{◌++◌ as str_append}
use agent_company_factory.Prelude.{
  leb, ◌==◌, if◌then◌else◌, is_none, select, order_by, ℕ, ◌+◌, String, Bool, true, false, not, ◌&&◌,
  none, List, [], ◌∷◌, ◌++◌,
}
use agent_company_factory.Prelude.Keyed.{lookup, set}
use agent_company_factory.Prelude.Action.{ok, err, Action}
use agent_company_factory.Cost.Model.{Category, CostError, integrity, value_error, Budget}
use agent_company_factory.Cost.Spending.{Charge, charge}

-- A row of the table `subscriptions`.
pub record Subscription : Type 0 where
  pub id : ℕ
  pub description : String
  pub amount_units : ℕ
  pub category : Category
  pub next_day : ℕ
  pub period_days : ℕ
  pub cancelled : Bool

pub record Recurring : Type 0 where
  pub rows : List Subscription
  pub budget : Budget

abbrev pub Tick : Type 0 → Type 0
Tick A = Action Recurring CostError A

abbrev pub sub_id : Subscription → ℕ
sub_id r = r.id

abbrev pub cancel : Subscription → Subscription
cancel r = record r { cancelled = true }

-- `Subscriptions.add`; `r` is the row that is built, under a fresh identifier.
unfoldable pub add : Subscription → Tick Subscription
add r s =
    if r.period_days == 0
    then (err value_error, s)
    else if not (is_none (lookup sub_id r.id s.rows))
    then (err integrity, s)
    else let row : Subscription = record r { cancelled = false } in
      (ok row, record s { rows = s.rows ++ row ∷ [] })

-- `Subscriptions.remove`
unfoldable pub remove : ℕ → Tick (Unit {0})
remove k s = (ok tt, record s { rows = set sub_id k cancel s.rows })

-- `Subscriptions.all`
unfoldable pub all : Bool → Recurring → List Subscription
all include_cancelled s = if include_cancelled then s.rows else select (λ r. not r.cancelled) s.rows

abbrev pub is_due : ℕ → Subscription → Bool
is_due day r = not r.cancelled && leb r.next_day day

-- `Subscriptions.due`
unfoldable pub due : ℕ → List Subscription → List Subscription
due day t = order_by (λ r. r.next_day) (order_by sub_id (select (is_due day) t))

abbrev pub charge_of : Subscription → Charge
charge_of r = record {
  agent_id = none;
  amount = r.amount_units;
  category = r.category;
  memo = str_append "subscription:" r.description;
  approval_id = none;
}

-- The UPDATE after a charge of `r`.
abbrev pub renewed : Bool → Subscription → Subscription → Subscription
renewed true r row = record row { next_day = r.next_day + r.period_days }
renewed false r row = cancel row

-- One turn of the loop of `on_day_tick`; the clock reading and the fresh identifier of the charge are
-- given.
unfoldable pub renew : ℕ × ℕ → Subscription → Tick (Unit {0})
renew draw r s =
    let (answer, b) = charge draw.0 draw.1 (charge_of r) s.budget in
    elim answer [
      | err e ↦ (err e, record s { budget = b })
      | ok res ↦
          (ok tt, record s { rows = set sub_id r.id (renewed res.success r) s.rows; budget = b })
    ]

unfoldable pub renew_all : (ℕ → ℕ × ℕ) → List Subscription → Tick (Unit {0})
renew_all draw [] s = (ok tt, s)
renew_all draw (r ∷ l) s =
    let (answer, s') = renew (draw r.id) r s in
    elim answer [ err e ↦ (err e, s') | ok _ ↦ renew_all draw l s' ]

-- `Subscriptions.on_day_tick`; `draw` has the clock reading and the fresh identifier for the charge
-- of each subscription.
unfoldable pub on_day_tick : (ℕ → ℕ × ℕ) → ℕ → Tick (Unit {0})
unfolding renew_all due
on_day_tick draw day s = renew_all draw (due day s.rows) s
