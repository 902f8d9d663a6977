-- ===== src/InterCompany/Rate.antt =====
-- `_enforce_rate` of modules/inter_company/service.py: at most a number of messages in a sliding hour.
-- The monotonic clock is in microseconds.
use agent_company_factory.Prelude.{
  ltb, leb, ◌==◌, if◌then◌else◌, ==_refl, Bool-cases, length, count, All, count-append, ℕ, ◌+◌, ◌≤◌,
  ◌<◌, ◌≡◌, refl, ◌⊎◌, inl, inr, Bool, true, false, List, [], ◌∷◌, ◌++◌, arith,
}
use agent_company_factory.Prelude.Keyed.{flag}
use agent_company_factory.Prelude.Action.{ok, err, Action, is_ok}
use agent_company_factory.Orchestrator.Model.{at}
use agent_company_factory.InterCompany.Model.{Link, CrossError, cross_rate_limited, Board}

abbrev pub hour : ℕ
hour = 3600000000

-- The timestamps at the front that are older than an hour are dropped.
unfoldable pub expire_stamps : ℕ → List ℕ → List ℕ
expire_stamps now [] = []
expire_stamps now (t ∷ l) =
    let rest = expire_stamps now l in if ltb (t + hour) now then rest else t ∷ l

-- `_enforce_rate` on the bucket of a link, for a cap above 0.
unfoldable pub pass_rate : ℕ → ℕ → List ℕ → Bool × List ℕ
unfolding expire_stamps
pass_rate cap now stamps =
    let kept = expire_stamps now stamps in
    if leb cap (length kept) then (false, kept) else (true, kept ++ now ∷ [])

-- `_enforce_rate`
unfoldable pub enforce_rate : ℕ → Link → Action Board CrossError (Unit {0})
unfolding pass_rate
enforce_rate now l s =
    if l.scope.rate_limit_per_hour == 0
    then (ok tt, s)
    else (let (passed, kept) = pass_rate l.scope.rate_limit_per_hour now (s.buckets l.id) in
        (
          if passed then ok tt else err cross_rate_limited,
          record s { buckets = at l.id kept s.buckets },
        ))

-- The timestamps from `first` on.
abbrev recent : ℕ → List ℕ → ℕ
recent first = count (λ t. leb first t)

recent_kept :
    (first now : ℕ) (l : List ℕ)
    → now ≤ first + hour
    → recent first (expire_stamps now l) ≡ recent first l
unfolding expire_stamps
recent_kept first now [] h = refl
recent_kept first now (t ∷ l) h = ground (arith, recent_kept first now l h)

recent-length : (first : ℕ) (l : List ℕ) → recent first l ≤ length l
recent-length first [] = omega arith
recent-length first (t ∷ l) = ground (arith, recent-length first l)

-- The readings lie in the hour from `first` on.
abbrev pub InHour : ℕ → List ℕ → Type 0
InHour first = All (λ t. (first ≤ t) × (t ≤ first + hour))

pass_recent :
    (cap first now : ℕ) (stamps : List ℕ)
    → first ≤ now
    → now ≤ first + hour
    → recent first stamps ≤ cap
    → let (passed, kept) = pass_rate cap now stamps in
      (recent first kept ≡ recent first stamps + flag passed) × (recent first kept ≤ cap)
unfolding pass_rate
pass_recent cap first now stamps a b h =
    let kept = expire_stamps now stamps in
    ground (
      arith,
      recent_kept first now stamps b,
      recent-length first kept,
      count-append (λ t. leb first t) kept (now ∷ []),
    )

module _ (l : Link) where
  -- How many of the messages on the link, checked at these readings one after the other, pass.
  unfoldable pub passing : List ℕ → Board → ℕ
  unfolding enforce_rate
  passing [] s = 0
  passing (now ∷ readings) s =
      let (r, s') = enforce_rate now l s in flag (is_ok r) + passing readings s'

  abbrev cap : ℕ
  cap = l.scope.rate_limit_per_hour

  enforce_recent :
      (first now : ℕ) (s : Board)
      → 0 < cap
      → first ≤ now
      → now ≤ first + hour
      → recent first (s.buckets l.id) ≤ cap
      → let (r, s') = enforce_rate now l s in
        (recent first (s'.buckets l.id) ≡ recent first (s.buckets l.id) + flag (is_ok r))
        × (recent first (s'.buckets l.id) ≤ cap)
  unfolding enforce_rate
  enforce_recent first now s pos a b h =
      ground (arith, pass_recent cap first now (s.buckets l.id) a b h, ==_refl l.id)

  passing-recent :
      (first : ℕ) (readings : List ℕ) (s : Board)
      → 0 < cap
      → InHour first readings
      → recent first (s.buckets l.id) ≤ cap
      → passing readings s + recent first (s.buckets l.id) ≤ cap
  unfolding passing
  passing-recent first [] s pos w h = omega (arith, h)
  passing-recent first (now ∷ readings) s pos w h =
      let (p, q) = enforce_recent first now s pos w.0.0 w.0.1 h in
      let rest = passing-recent first readings (enforce_rate now l s).1 pos w.1 q in
      omega (arith, p, rest)

  passing_all : (readings : List ℕ) (s : Board) → cap ≡ 0 → passing readings s ≡ length readings
  unfolding passing enforce_rate
  passing_all [] s z = refl
  passing_all (now ∷ readings) s z = ground (arith, passing_all readings s z)

  -- For readings of the clock within one hour, in any order, and a bucket without a timestamp from
  -- that hour on: a link with a limit above 0 lets no more messages pass at them than its limit,
  -- and a link with the limit 0 lets all pass.
  pub passing_lem :
      (first : ℕ) (readings : List ℕ) (s : Board)
      → InHour first readings
      → count (λ t. leb first t) (s.buckets l.id) ≡ 0
      → ((0 < l.scope.rate_limit_per_hour) × (passing readings s ≤ l.scope.rate_limit_per_hour))
        ⊎ ((l.scope.rate_limit_per_hour ≡ 0) × (passing readings s ≡ length readings))
  passing_lem first readings s w z = elim (Bool-cases (cap == 0)) [
    | inl e ↦ let q : cap ≡ 0 = ground (arith, e) in inr (q, passing_all readings s q)
    | inr e ↦
        let pos : 0 < cap = ground (arith, e) in
        inl (pos, omega (arith, passing-recent first readings s pos w (omega (arith, z))))
  ]
