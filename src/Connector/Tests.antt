-- ===== src/Connector/Tests.antt =====
-- The allow list, and a bucket of one token that refills one token per second.
use agent_company_factory.Prelude.{◌≡◌, refl, true, none, some, []}
use agent_company_factory.Prelude.Action.{ok, err}
use agent_company_factory.Connector.Allowlist.{AllowEntry, allow, revoke_entry, is_allowed}
use agent_company_factory.Connector.RateLimit.{
  ServiceLimiter, configure_service, one_token, rate_limited, acquire,
}

abbrev mail : AllowEntry
mail = record { service = 4; action = none }

abbrev mail_send : AllowEntry
mail_send = record { service = 4; action = some 2 }

-- Revoking one action leaves the whole service allowed.
still_allowed : is_allowed 4 2 (revoke_entry mail_send (allow mail (allow mail_send []))) ≡ true
unfolding is_allowed revoke_entry allow
still_allowed = refl

abbrev limiter : ServiceLimiter
limiter =
    configure_service 0 4 (record { capacity = one_token; refill_rate = 1000 })
      (record { limits = λ _. none })

second_refused : (acquire 10 4 (acquire 5 4 limiter).1).0 ≡ err (rate_limited 999995000 1000)
unfolding acquire configure_service
second_refused = refl

later_granted : (acquire 2000000 4 (acquire 5 4 limiter).1).0 ≡ ok tt
unfolding acquire configure_service
later_granted = refl

other_unlimited : (acquire 10 5 limiter).0 ≡ ok tt
unfolding acquire configure_service
other_unlimited = refl
