-- ===== src/Cost/Model.antt =====
-- modules/cost/models.py and the tables of modules/cost/migrations. An amount of money is the
-- number of its units (1 unit = 0.0001 USD), which `Money` keeps from being negative.
use agent_company_factory.Prelude.{ℕ, String, Bool, true, false, Option, none, some, List}

pub data Category : Type 0 where
  llm tool hosting domain email ads payment other : Category

pub data ReservationStatus : Type 0 where
  is_open is_committed is_released : ReservationStatus

pub data CostError : Type 0 where
  over_budget unknown_reservation already_closed integrity value_error : CostError

-- A row of the table `expenses`.
pub record Expense : Type 0 where
  pub id : ℕ
  pub agent_id : Option ℕ
  pub amount_units : ℕ
  pub category : Category
  pub memo : String
  pub approval_id : Option ℕ
  pub ts : ℕ

-- A row of the table `reservations`.
pub record Reservation : Type 0 where
  pub id : ℕ
  pub amount_units : ℕ
  pub ref : String
  pub status : ReservationStatus
  pub created_at : ℕ

pub record ChargeResult : Type 0 where
  pub success : Bool
  pub reason : Option String
  pub expense_id : Option ℕ

abbrev pub charged : ℕ → ChargeResult
charged i = record { success = true; reason = none; expense_id = some i }

abbrev pub refused : ChargeResult
refused = record { success = false; reason = some "over_budget"; expense_id = none }

-- The events that the engine appends; the ratio of a warning is the fraction used / total.
pub data Event : Type 0 where
  budget_blocked : (used limit attempted : ℕ) → Event
  budget_warning : (used limit : ℕ) → ℕ × ℕ → Event
  expense_charged : (amount : ℕ) → Category → String → ℕ → Event

-- The singleton row `budget_state`, the two tables, and the event log with the actor of each event.
pub record Budget : Type 0 where
  pub total_units : ℕ
  pub blocked : Bool
  pub last_warn_pct : ℕ
  pub expenses : List Expense
  pub reservations : List Reservation
  pub log : List (Option ℕ × Event)

abbrev pub is_reserved : Reservation → Bool
is_reserved r = elim r.status [ is_open ↦ true | _ ↦ false ]

abbrev pub reservation_id : Reservation → ℕ
reservation_id r = r.id

abbrev pub expense_id_of : Expense → ℕ
expense_id_of e = e.id

abbrev pub any_expense : Expense → Bool
any_expense _ = true
