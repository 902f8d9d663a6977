-- ===== src/Orchestrator/Tests.antt =====
-- A bucket of two tokens that refills one token per second.
use agent_company_factory.Prelude.{ℕ, ◌+◌, ◌-◌, ◌*◌, ◌≤◌, ◌≡◌, refl, true, List, [], ◌∷◌, arith}
use agent_company_factory.Orchestrator.RateLimit.{
  RateLimiter, token, put, configure, refill, take_tokens, bucket_for, try_consume, tokens_of,
}
use agent_company_factory.Orchestrator.Burst.{
  let_through, IsAscending, last_reading, let_through-configure,
}

abbrev empty_limiter : RateLimiter
empty_limiter = record {
  cfg = record { capacity = 60 * token; refill_rate = 1000; system_exempt = true };
  buckets = [];
}

abbrev readings : List ℕ
readings = 10 ∷ 20 ∷ 30 ∷ 1000020 ∷ []

-- Two calls of the burst pass, the third does not, and a second later one passes again.
three_pass : let_through 7 token readings (configure 7 (2 * token) 1000 0 empty_limiter) ≡ 3
unfolding configure put try_consume take_tokens refill bucket_for
three_pass = refl

readings-IsAscending : IsAscending 0 readings
readings-IsAscending = (omega arith, (omega arith, (omega arith, (omega arith, tt))))

let_through-configure_example :
    let_through 7 token readings (configure 7 (2 * token) 1000 0 empty_limiter) * token
    ≤ 2 * token + (last_reading 0 readings - 0) * 1000
let_through-configure_example =
    let_through-configure 7 (2 * token) 1000 0 token readings empty_limiter readings-IsAscending

-- Configuring one agent changes the limit of every agent that has no bucket yet.
others_follow : tokens_of 8 (configure 7 2 1000 0 empty_limiter) ≡ 2
unfolding configure put tokens_of
others_follow = refl
