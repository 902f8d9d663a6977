-- ===== src/Cost/Thresholds.antt =====
-- The threshold row after each evaluation: it is the level of the current usage.
use agent_company_factory.Prelude.{
  ltb, leb, ◌==◌, if◌then◌else◌, length, exists, ℕ, ◌+◌, ◌≡◌, ◌⊎◌, Bool, true, false, ◌&&◌, arith,
}
use agent_company_factory.Cost.Model.{Event, budget_blocked, budget_warning, Budget}
use agent_company_factory.Cost.Budget.{
  warning_pct, blocked_pct, sum_expenses, sum_open_reservations, pct_ge, evaluate_thresholds,
}

-- What spending and open reservations use.
abbrev pub used_of : Budget → ℕ
used_of b = sum_expenses b + sum_open_reservations b

-- The threshold that a usage has reached.
abbrev pub level : ℕ → ℕ → ℕ
level used total =
    if pct_ge blocked_pct used total
    then blocked_pct
    else if pct_ge warning_pct used total
    then warning_pct
    else 0

-- The stored threshold is one of the three, and the block flag is set exactly at the last.
pub record IsCoherent (b : Budget) : Type 0 where
  pub known : (b.last_warn_pct ≡ 0) ⊎ ((b.last_warn_pct ≡ 80) ⊎ (b.last_warn_pct ≡ 100))
  pub agrees : b.blocked ≡ leb 100 b.last_warn_pct

pct_ge_mono : (used total : ℕ) → pct_ge 100 used total ≡ true → pct_ge 80 used total ≡ true
pct_ge_mono used total h = ground arith

-- After an evaluation the row holds the level of the usage, and the flag says whether it is full.
pub evaluate_level :
    (b : Budget)
    → IsCoherent b
    → let b' = (evaluate_thresholds b).1 in
      (b'.last_warn_pct ≡ level (used_of b) b.total_units)
      × (b'.blocked ≡ pct_ge 100 (used_of b) b.total_units)
unfolding evaluate_thresholds
evaluate_level b h = ground (arith, pct_ge_mono (used_of b) b.total_units)

pub evaluate-IsCoherent : (b : Budget) → IsCoherent b → IsCoherent (evaluate_thresholds b).1
unfolding evaluate_thresholds
evaluate-IsCoherent b h = ground (arith, pct_ge_mono (used_of b) b.total_units)

abbrev pub is_warning : Event → Bool
is_warning (budget_warning _ _ _) = true
is_warning _ = false

abbrev pub is_block : Event → Bool
is_block (budget_blocked _ _ _) = true
is_block _ = false

-- One event is emitted when the level rises above the stored one, a block at 100 % and a warning
-- from 80 %, and none when it stays or falls.
pub evaluate_events :
    (b : Budget)
    → IsCoherent b
    → let out = (evaluate_thresholds b).0 in
      let now = level (used_of b) b.total_units in
      (length out ≡ (if ltb b.last_warn_pct now then 1 else 0))
      × (exists is_block out ≡ (ltb b.last_warn_pct now && now == 100))
      × (exists is_warning out ≡ (ltb b.last_warn_pct now && now == 80))
unfolding evaluate_thresholds
evaluate_events b h = ground (arith, pct_ge_mono (used_of b) b.total_units)
