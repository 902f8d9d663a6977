-- ===== src/Connector/RateLimit.antt =====
-- modules/connector/rate_limit.py: a token bucket for each service. Tokens are billionths, the monotonic
-- clock is in microseconds and the refill in thousandths of a token per second.
use agent_company_factory.Prelude.{ltb, leb, if◌then◌else◌, ℕ, ◌+◌, ◌-◌, ◌*◌, Option, none, some}
use agent_company_factory.Prelude.Action.{ok, err, Action}
use agent_company_factory.Orchestrator.Model.{at}

pub record ServiceLimit : Type 0 where
  pub capacity : ℕ
  pub refill_rate : ℕ

pub record ServiceBucket : Type 0 where
  pub tokens : ℕ
  pub last : ℕ

-- The dictionaries `_configs` and `_buckets`, which have the same keys.
pub record ServiceLimiter : Type 0 where
  pub limits : ℕ → Option (ServiceLimit × ServiceBucket)

-- `RateLimiter.configure`
unfoldable pub configure_service : ℕ → ℕ → ServiceLimit → ServiceLimiter → ServiceLimiter
configure_service now service limit s = record {
  limits = at service (some (limit, record { tokens = limit.capacity; last = now })) s.limits;
}

abbrev pub one_token : ℕ
one_token = 1000000000

abbrev pub less_of : ℕ → ℕ → ℕ
less_of a b = if leb a b then a else b

-- The refill.
abbrev pub topped_up : ℕ → ServiceLimit → ServiceBucket → ServiceBucket
topped_up now limit b = record {
  tokens = less_of limit.capacity (b.tokens + (now - b.last) * limit.refill_rate);
  last = now;
}

-- What is missing, with which the error tells when to try again.
pub data ServiceError : Type 0 where
  rate_limited : (missing rate : ℕ) → ServiceError

-- `RateLimiter.acquire`
unfoldable pub acquire : ℕ → ℕ → Action ServiceLimiter ServiceError (Unit {0})
acquire now service s = elim (s.limits service) [
  | none ↦ (ok tt, s)
  | some (limit, bucket) ↦
      let b = topped_up now limit bucket in
      if ltb b.tokens one_token
      then (
        err (rate_limited (one_token - b.tokens) limit.refill_rate),
        record { limits = at service (some (limit, b)) s.limits },
      )
      else (
        ok tt,
        record {
          limits = at service (some (limit, record b { tokens = b.tokens - one_token })) s.limits;
        },
      )
]
