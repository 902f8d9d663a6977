-- ===== src/Orchestrator/Scores.antt =====
-- Which grounds make an agent unhealthy.
use agent_company_factory.Prelude.{
  ltb, leb, count, ℕ, ◌-◌, ◌*◌, ◌≡◌, refl, Bool, true, false, ◌&&◌, List, [], ◌∷◌,
}
use agent_company_factory.Orchestrator.Model.{
  HealthSignals, Note, errors, parse_rate, repeat_ratio, stale_heartbeat,
}
use agent_company_factory.Orchestrator.Health.{
  half, one_unit, three_tenths, four_tenths, heartbeat_limit, penalty, compute_score,
  unhealthy_cutoff, is_unhealthy,
}

-- The four grounds that `compute_score` looks at.
abbrev many_errors : HealthSignals → Bool
many_errors g = ltb 3 g.consecutive_errors

abbrev many_misreads : HealthSignals → Bool
many_misreads g =
    ltb 0 g.parse_failures && ltb 0 g.total_turns && ltb g.total_turns (2 * g.parse_failures)

abbrev many_repeats : HealthSignals → Bool
many_repeats g = ltb 0 g.total_turns && ltb (7 * g.total_turns) (10 * g.repeat_response_count)

abbrev is_stale : ℕ → HealthSignals → Bool
is_stale now g = ltb heartbeat_limit (now - g.last_heartbeat)

abbrev pub grounds_for : ℕ → HealthSignals → List Bool
grounds_for now g = many_errors g ∷ many_misreads g ∷ many_repeats g ∷ is_stale now g ∷ []

-- The score of the grounds alone.
abbrev score_of : (e p r h : Bool) (x y z w : Note) → ℕ
score_of e p r h x y z w =
    (penalty h half w (
      penalty r four_tenths z
        (penalty p three_tenths y (penalty e three_tenths x (one_unit, []))))).0

two_grounds :
    (e p r h : Bool) (x y z w : Note)
    → ltb (score_of e p r h x y z w) unhealthy_cutoff ≡ leb 2 (count (λ b. b) (e ∷ p ∷ r ∷ h ∷ []))
two_grounds true true true true x y z w = refl
two_grounds true true true false x y z w = refl
two_grounds true true false true x y z w = refl
two_grounds true true false false x y z w = refl
two_grounds true false true true x y z w = refl
two_grounds true false true false x y z w = refl
two_grounds true false false true x y z w = refl
two_grounds true false false false x y z w = refl
two_grounds false true true true x y z w = refl
two_grounds false true true false x y z w = refl
two_grounds false true false true x y z w = refl
two_grounds false true false false x y z w = refl
two_grounds false false true true x y z w = refl
two_grounds false false true false x y z w = refl
two_grounds false false false true x y z w = refl
two_grounds false false false false x y z w = refl

-- In doubles, the score is below the cut-off exactly when two of the four grounds apply: more than
-- three errors in a row, parse failures in more than half of the turns, repeats in more than seven
-- tenths of them, and no heartbeat for five minutes.
pub is_unhealthy_lem :
    (g : HealthSignals) (now : ℕ) → is_unhealthy g now ≡ leb 2 (count (λ b. b) (grounds_for now g))
unfolding compute_score
is_unhealthy_lem g now =
    two_grounds (many_errors g) (many_misreads g) (many_repeats g) (is_stale now g)
      (errors g.consecutive_errors) (parse_rate g.parse_failures g.total_turns)
      (repeat_ratio g.repeat_response_count g.total_turns) stale_heartbeat
