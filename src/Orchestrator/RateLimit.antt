-- ===== src/Orchestrator/RateLimit.antt =====
-- modules/orchestrator/rate_limit.py. Tokens are counted in billionths, the monotonic clock in
-- microseconds and the refill in thousandths of a token per second, so that elapsed time times
-- refill is a number of billionths; arithmetic on floats is exact arithmetic here.
use agent_company_factory.Prelude.{
  leb, if◌then◌else◌, is_none, ℕ, ◌+◌, ◌-◌, ◌*◌, Bool, true, false, none, some, List, [], ◌∷◌, ◌++◌,
}
use agent_company_factory.Prelude.Keyed.{lookup, set}

pub record RateLimitConfig : Type 0 where
  pub capacity : ℕ
  pub refill_rate : ℕ
  pub system_exempt : Bool

-- A value of the dictionary `_buckets` with its key.
pub record Bucket : Type 0 where
  pub agent_id : ℕ
  pub tokens : ℕ
  pub last : ℕ

pub record RateLimiter : Type 0 where
  pub cfg : RateLimitConfig
  pub buckets : List Bucket

abbrev pub bucket_of : Bucket → ℕ
bucket_of b = b.agent_id

abbrev pub token : ℕ
token = 1000000000

-- `self._buckets[agent_id] = b`; a key that is there keeps its place.
unfoldable pub put : Bucket → List Bucket → List Bucket
put b t =
    if is_none (lookup bucket_of b.agent_id t)
    then t ++ b ∷ []
    else set bucket_of b.agent_id (λ x. record x { tokens = b.tokens; last = b.last }) t

-- `RateLimiter.configure`
unfoldable pub configure : ℕ → ℕ → ℕ → ℕ → RateLimiter → RateLimiter
unfolding put
configure agent capacity rate now s = record {
  cfg = record s.cfg { capacity = capacity; refill_rate = rate };
  buckets = put (record { agent_id = agent; tokens = capacity; last = now }) s.buckets;
}

abbrev pub smaller : ℕ → ℕ → ℕ
smaller a b = if leb a b then a else b

-- The refill of a bucket; a clock that has gone back adds nothing.
unfoldable pub refill : RateLimitConfig → ℕ → Bucket → Bucket
refill cfg now b = record b {
  tokens = smaller cfg.capacity (b.tokens + (now - b.last) * cfg.refill_rate);
  last = now;
}

unfoldable pub take_tokens : ℕ → Bucket → Bool × Bucket
take_tokens cost b =
    if leb cost b.tokens then (true, record b { tokens = b.tokens - cost }) else (false, b)

-- The bucket of an agent; a full one where it has none.
unfoldable pub bucket_for : ℕ → ℕ → RateLimiter → Bucket
bucket_for agent now s = elim (lookup bucket_of agent s.buckets) [
  | none ↦ record { agent_id = agent; tokens = s.cfg.capacity; last = now }
  | some b ↦ b
]

-- `RateLimiter.try_consume`
unfoldable pub try_consume : ℕ → ℕ → ℕ → RateLimiter → Bool × RateLimiter
try_consume agent cost now s =
    let (granted, b) = take_tokens cost (refill s.cfg now (bucket_for agent now s)) in
    (granted, record s { buckets = put b s.buckets })

-- `RateLimiter.tokens`
unfoldable pub tokens_of : ℕ → RateLimiter → ℕ
tokens_of agent s = elim (lookup bucket_of agent s.buckets) [
  | none ↦ s.cfg.capacity
  | some b ↦ b.tokens
]
