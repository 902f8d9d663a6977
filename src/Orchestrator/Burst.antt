-- ===== src/Orchestrator/Burst.antt =====
-- What the token bucket of modules/orchestrator/rate_limit.py lets through.
use mathlib.Core.Path.{subst}
use native.Mathlib.Nat.{add-mul, one-mul, zero-mul}
use agent_company_factory.Prelude.{
  ◌==◌, if◌then◌else◌, ==_refl, eq_of_==, Bool-cases, Option-cases, find-append_new,
  find-append_old, ℕ, ◌+◌, ◌-◌, ◌*◌, ◌≤◌, ◌≡◌, refl, sym, ap, ◌∙◌, inl, inr, Bool, true, false,
  none, some, List, [], ◌∷◌, ◌++◌, arith,
}
use agent_company_factory.Prelude.Keyed.{flag, lookup, key_of_lookup, lookup-set}
use agent_company_factory.Orchestrator.RateLimit.{
  RateLimitConfig, Bucket, RateLimiter, bucket_of, put, configure, refill, take_tokens, bucket_for,
  try_consume,
}

lookup-put_new :
    (b : Bucket) (k : ℕ) (t : List Bucket)
    → lookup bucket_of b.agent_id t ≡ none
    → lookup bucket_of k (t ++ b ∷ []) ≡ (if k == b.agent_id then some b else lookup bucket_of k t)
lookup-put_new b k t e = elim (Option-cases (lookup bucket_of k t)) [
  | inl q ↦ ground (arith, find-append_new (λ x. bucket_of x == k) b t q)
  | inr (a, q) ↦
      let apart : (k == b.agent_id) ≡ false = elim (Bool-cases (k == b.agent_id)) [
        | inr z ↦ z
        | inl z ↦
            let same : lookup bucket_of b.agent_id t ≡ some a =
              ap (λ n. lookup bucket_of n t) (sym (eq_of_== k b.agent_id z)) ∙ q in
            ground arith
      ] in
      ground (arith, find-append_old (λ x. bucket_of x == k) a t (b ∷ []) q)
]

lookup-put :
    (b : Bucket) (k : ℕ) (t : List Bucket)
    → lookup bucket_of k (put b t) ≡ (if k == b.agent_id then some b else lookup bucket_of k t)
unfolding put
lookup-put b k t = elim (Option-cases (lookup bucket_of b.agent_id t)) [
  | inl e ↦ ground (arith, lookup-put_new b k t e)
  | inr (a, e) ↦ ground (
    arith,
    key_of_lookup bucket_of b.agent_id a t e,
    lookup-set bucket_of (λ x. record x { tokens = b.tokens; last = b.last }) (λ r. refl) k
        b.agent_id t,
  )
]

refill-bounds :
    (cfg : RateLimitConfig) (now : ℕ) (b : Bucket)
    → ((refill cfg now b).tokens ≤ cfg.capacity)
      × ((refill cfg now b).tokens ≤ b.tokens + (now - b.last) * cfg.refill_rate)
      × ((refill cfg now b).last ≡ now)
      × ((refill cfg now b).agent_id ≡ b.agent_id)
unfolding refill
refill-bounds cfg now b = ground arith

take-sums :
    (cost : ℕ) (b : Bucket)
    → ((take_tokens cost b).1.tokens + (if (take_tokens cost b).0 then cost else 0) ≡ b.tokens)
      × ((take_tokens cost b).1.last ≡ b.last)
      × ((take_tokens cost b).1.agent_id ≡ b.agent_id)
unfolding take_tokens
take-sums cost b = ground arith

-- The bucket that a call leaves.
abbrev next_bucket : ℕ → ℕ → RateLimiter → Bucket → Bucket
next_bucket cost now s b = (take_tokens cost (refill s.cfg now b)).1

abbrev allowed : ℕ → ℕ → RateLimiter → Bucket → Bool
allowed cost now s b = (take_tokens cost (refill s.cfg now b)).0

bucket_for_found :
    (agent now : ℕ) (s : RateLimiter) (b : Bucket)
    → lookup bucket_of agent s.buckets ≡ some b
    → bucket_for agent now s ≡ b
unfolding bucket_for
bucket_for_found agent now s b e = ground (arith, e)

try_consume-found :
    (agent cost now : ℕ) (s : RateLimiter) (b : Bucket)
    → lookup bucket_of agent s.buckets ≡ some b
    → ((try_consume agent cost now s).0 ≡ allowed cost now s b)
      × (lookup bucket_of agent (try_consume agent cost now s).1.buckets
          ≡ some (next_bucket cost now s b))
      × ((try_consume agent cost now s).1.cfg ≡ s.cfg)
unfolding try_consume
try_consume-found agent cost now s b e =
    let q = bucket_for_found agent now s b e in
    let id_kept : (next_bucket cost now s b).agent_id ≡ agent =
      (take-sums cost (refill s.cfg now b)).2
      ∙ (refill-bounds s.cfg now b).3
      ∙ key_of_lookup bucket_of agent b s.buckets e in
    (
      ap (allowed cost now s) q,
      ap (λ x. lookup bucket_of agent (put (next_bucket cost now s x) s.buckets)) q
          ∙ lookup-put (next_bucket cost now s b) agent s.buckets
          ∙ ap
              (λ c. if c then some (next_bucket cost now s b) else lookup bucket_of agent s.buckets)
              (ap (λ n. agent == n) id_kept ∙ ==_refl agent),
      refl,
    )

-- How many of the calls of one agent at the readings are let through.
abbrev pub let_through : ℕ → ℕ → List ℕ → RateLimiter → ℕ
let_through agent cost [] s = 0
let_through agent cost (now ∷ l) s =
    let (granted, s') = try_consume agent cost now s in flag granted + let_through agent cost l s'

-- The readings do not go back.
abbrev pub IsAscending : ℕ → List ℕ → Type 0
IsAscending t [] = Unit
IsAscending t (now ∷ l) = (t ≤ now) × IsAscending now l

abbrev pub last_reading : ℕ → List ℕ → ℕ
last_reading t [] = t
last_reading t (now ∷ l) = last_reading now l

last_reading-IsAscending : (t : ℕ) (l : List ℕ) → IsAscending t l → t ≤ last_reading t l
last_reading-IsAscending t [] a = omega arith
last_reading-IsAscending t (now ∷ l) a = omega (arith, a.0, last_reading-IsAscending now l a.1)

split_span :
    (t now end rate : ℕ)
    → t ≤ now
    → now ≤ end
    → (now - t) * rate + (end - now) * rate ≡ (end - t) * rate
split_span t now end rate h k =
    let whole : now - t + (end - now) ≡ end - t = omega arith in
    sym (add-mul (now - t) (end - now) rate) ∙ ap (λ n. n * rate) whole

paid : (g : Bool) (n cost : ℕ) → (flag g + n) * cost ≡ (if g then cost else 0) + n * cost
paid true n cost = add-mul 1 n cost ∙ ap (λ k. k + n * cost) (one-mul cost)
paid false n cost = add-mul 0 n cost ∙ ap (λ k. k + n * cost) (zero-mul cost)

-- What one agent is let through between two readings costs no more than its bucket held and what
-- was refilled in between.
pub let_through-found :
    (agent cost : ℕ) (l : List ℕ) (s : RateLimiter) (b : Bucket)
    → lookup bucket_of agent s.buckets ≡ some b
    → IsAscending b.last l
    → let_through agent cost l s * cost
      ≤ b.tokens + (last_reading b.last l - b.last) * s.cfg.refill_rate
unfolding try_consume
let_through-found agent cost [] s b e a = omega (arith, zero-mul cost)
let_through-found agent cost (now ∷ l) s b e a =
    let s' = (try_consume agent cost now s).1 in
    let b' = next_bucket cost now s b in
    let (same, stored, cfg) = try_consume-found agent cost now s b e in
    let bounds = refill-bounds s.cfg now b in
    let sums = take-sums cost (refill s.cfg now b) in
    let at_now : b'.last ≡ now = sums.1 ∙ bounds.2 in
    let rest =
      let_through-found agent cost l s' b' stored (subst (λ t. IsAscending t l) (sym at_now) a.1) in
    let later : let_through agent cost l s' * cost
        ≤ b'.tokens + (last_reading now l - now) * s.cfg.refill_rate =
      subst
        (λ t.
          let_through agent cost l s' * cost
          ≤ b'.tokens + (last_reading t l - t) * s.cfg.refill_rate)
        at_now rest in
    omega (
      arith,
      later,
      bounds.1,
      sums.0,
      ap (λ (c : Bool). if c then cost else 0) same,
      paid (try_consume agent cost now s).0 (let_through agent cost l s') cost,
      split_span b.last now (last_reading now l) s.cfg.refill_rate a.0
          (last_reading-IsAscending now l a.1),
    )

configured :
    (agent capacity rate now : ℕ) (s : RateLimiter)
    → lookup bucket_of agent (configure agent capacity rate now s).buckets
      ≡ some (record { agent_id = agent; tokens = capacity; last = now })
unfolding configure
configured agent capacity rate now s =
    let full : Bucket = record { agent_id = agent; tokens = capacity; last = now } in
    lookup-put full agent s.buckets
    ∙ ap (λ c. if c then some full else lookup bucket_of agent s.buckets) (==_refl agent)

-- After an agent has been configured, whatever it asks for until some later reading of the clock, it
-- is let through for no more than the capacity and what is refilled in that time.
pub let_through-configure :
    (agent capacity rate start cost : ℕ) (l : List ℕ) (s : RateLimiter)
    → IsAscending start l
    → let_through agent cost l (configure agent capacity rate start s) * cost
      ≤ capacity + (last_reading start l - start) * rate
unfolding configure
let_through-configure agent capacity rate start cost l s a =
    let_through-found agent cost l (configure agent capacity rate start s)
      (record { agent_id = agent; tokens = capacity; last = start })
      (configured agent capacity rate start s) a
