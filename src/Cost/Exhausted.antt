-- ===== src/Cost/Exhausted.antt =====
-- A reservation that fills the budget.
use agent_company_factory.Prelude.{
  ◌==◌, ==_refl, All, find-append_new, ℕ, ◌+◌, ◌<◌, String, ◌≡◌, refl, ◌∙◌, Bool, true, false, none,
  some, List, [], ◌∷◌, ◌++◌, arith,
}
use agent_company_factory.Prelude.Keyed.{lookup}
use agent_company_factory.Prelude.Action.{Result, ok, err}
use agent_company_factory.Cost.Model.{
  CostError, Reservation, ChargeResult, refused, Budget, is_reserved, reservation_id,
}
use agent_company_factory.Cost.Budget.{sum_expenses, can_afford, pct_ge}
use agent_company_factory.Cost.Spending.{charge, new_reservation, admit, reserve, release, commit}
use agent_company_factory.Cost.Thresholds.{used_of, IsCoherent, evaluate_level}
use agent_company_factory.Cost.Bounds.{IsValid, sum_open-add}
use agent_company_factory.Cost.Ledger.{Op, resize, spend, hold, free, pay, step, run, lowers}

pct_full : (total : ℕ) → 0 < total → pct_ge 100 total total ≡ true
pct_full n h = ground arith

full_use :
    (r : Reservation) (b : Budget)
    → is_reserved r ≡ true
    → used_of b + r.amount_units ≡ b.total_units
    → used_of (record b { reservations = b.reservations ++ r ∷ [] }) ≡ b.total_units
unfolding sum_expenses
full_use r b o full = ground (arith, sum_open-add r b)

admitted :
    (r : Reservation) (b : Budget)
    → lookup reservation_id r.id b.reservations ≡ none
    → lookup reservation_id r.id (admit r b).reservations ≡ some r
unfolding admit
admitted r b new = find-append_new (λ x. x.id == r.id) r b.reservations new ∙ rw (==_refl r.id)

granted :
    (now fresh amount : ℕ) (ref : String) (b : Budget)
    → lookup reservation_id fresh b.reservations ≡ none
    → can_afford amount b ≡ true
    → reserve now fresh amount ref b
      ≡ (ok (new_reservation now fresh amount ref), admit (new_reservation now fresh amount ref) b)
unfolding reserve can_afford
granted now fresh amount ref b new can = ground arith

filled_blocks :
    (r : Reservation) (b : Budget)
    → IsCoherent b
    → is_reserved r ≡ true
    → used_of b + r.amount_units ≡ b.total_units
    → 0 < b.total_units
    → (admit r b).blocked ≡ true
unfolding admit
filled_blocks r b c o full pos =
    let b' : Budget = record b { reservations = b.reservations ++ r ∷ [] } in
    let coherent : IsCoherent b' = record { known = c.known; agrees = c.agrees } in
    let same : used_of b' ≡ b.total_units = full_use r b o full in
    (evaluate_level b' coherent).1 ∙ rw same (pct_full b.total_units pos)

blocked_refuses :
    (now fresh rid actual : ℕ) (row : Reservation) (b : Budget)
    → lookup reservation_id rid b.reservations ≡ some row
    → is_reserved row ≡ true
    → b.blocked ≡ true
    → (commit now fresh rid actual b).0 ≡ ok refused
unfolding commit
blocked_refuses now fresh rid actual row b e o k = ground arith

-- While the block flag is set, no call but `set_total` clears it.
stays_blocked :
    (o : Op) (b : Budget) → lowers o ≡ false → b.blocked ≡ true → (step o b).blocked ≡ true
unfolding step
stays_blocked (resize n) b l k = cc
stays_blocked (spend now fresh c) b l k = unfold charge in ground arith
stays_blocked (hold now fresh amount ref) b l k = unfold reserve in ground arith
stays_blocked (free rid) b l k = unfold release in ground arith
stays_blocked (pay now fresh rid actual) b l k = unfold commit in ground arith

run_blocked :
    (os : List Op) (b : Budget)
    → All (λ o. lowers o ≡ false) os
    → b.blocked ≡ true
    → (run os b).blocked ≡ true
unfolding run
run_blocked [] b l k = k
run_blocked (o ∷ os) b l k = run_blocked os (step o b) l.1 (stays_blocked o b l.0 k)

abbrev pub is_charged : Result CostError ChargeResult → Bool
is_charged (ok r) = r.success
is_charged (err _) = false

never_charged :
    (now fresh rid actual : ℕ) (b : Budget)
    → b.blocked ≡ true
    → is_charged (commit now fresh rid actual b).0 ≡ false
unfolding commit
never_charged now fresh rid actual b k = ground arith

-- In a valid budget with a total above 0, a reservation under a new identifier that takes the last
-- of it is granted and sets the block flag, so that its commit at its own amount, as the next
-- call, is refused. After any further charges, reservations, releases and commits, as long as the
-- total is not set anew, the flag is still set and no commit, of this reservation or another and
-- at any amount, is charged.
pub exhausting_reservation :
    (now fresh later spare amount rid actual : ℕ) (ref : String) (os : List Op) (b : Budget)
    → IsValid b
    → lookup reservation_id fresh b.reservations ≡ none
    → can_afford amount b ≡ true
    → used_of b + amount ≡ b.total_units
    → 0 < b.total_units
    → All (λ o. lowers o ≡ false) os
    → let (r, b') = reserve now fresh amount ref b in
      (r ≡ ok (new_reservation now fresh amount ref))
      × ((commit later spare fresh amount b').0 ≡ ok refused)
      × ((run os b').blocked ≡ true)
      × (is_charged (commit later spare rid actual (run os b')).0 ≡ false)
exhausting_reservation now fresh later spare amount rid actual ref os b v new can full pos l =
    let r = new_reservation now fresh amount ref in
    let k = filled_blocks r b v.coherent refl full pos in
    let more = run_blocked os (admit r b) l k in
    rw (granted now fresh amount ref b new can) (
      refl,
      blocked_refuses later spare fresh amount r (admit r b) (admitted r b new) refl k,
      more,
      never_charged later spare rid actual (run os (admit r b)) more,
    )
