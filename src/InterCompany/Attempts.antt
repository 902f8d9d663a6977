-- ===== src/InterCompany/Attempts.antt =====
-- What an attempt of `deliver_pending` does to an entry.
use agent_company_factory.Prelude.{
  if◌then◌else◌, Bool-cases, ℕ, ◌≡◌, refl, ap, inl, inr, Bool, true, false, Option, none, some,
  arith,
}
use agent_company_factory.Prelude.Keyed.{set}
use agent_company_factory.Prelude.Action.{Result, ok, err}
use agent_company_factory.InterCompany.Model.{
  CrossStatus, cross_rejected, Link, RejectReason, no_inbox_agent, link_not_approved_reason,
  CrossEntry, CrossError, Board, entry_id_of,
}
use agent_company_factory.InterCompany.Service.{
  is_approved_link, format_envelope, map_result, reason_of, put_orchestrator, hand_over,
}
use agent_company_factory.InterCompany.Pending.{
  is_waiting, waits_for, with_status, update_status, retry, target_of, deliver_entry,
}
use agent_company_factory.Orchestrator.Model.{user_request, SendResult, OrchestratorError, Text}
use agent_company_factory.Orchestrator.State.{Orchestrator}
use agent_company_factory.Orchestrator.Send.{Moment, system_send}
use agent_company_factory.Clock.Model.{shown}

-- What an attempt leaves: the table as it was, or with an entry that waits no longer.
pub record IsAttempted (c : ℕ) (e : CrossEntry) (s : Board) (k : Bool) (t : Board) : Type 0 where
  pub links : t.links ≡ s.links
  pub f : CrossEntry → CrossEntry
  pub same : (x : CrossEntry) → entry_id_of (f x) ≡ entry_id_of x
  pub outbox : t.outbox ≡ (if k then set entry_id_of e.id f s.outbox else s.outbox)
  pub left : k ≡ true → waits_for c (f e) ≡ false

status-IsAttempted :
    (c now : ℕ) (e : CrossEntry) (status : CrossStatus) (reason : Option RejectReason)
    (target : Option ℕ) (s t : Board)
    → is_waiting status ≡ false
    → t.links ≡ s.links
    → t.outbox ≡ s.outbox
    → IsAttempted c e s true (update_status now e.id status reason target t)
unfolding update_status
status-IsAttempted c now e status reason target s t w p q = record {
  links = p;
  f = with_status now status reason target;
  same = λ x. refl;
  outbox = ap (set entry_id_of e.id (with_status now status reason target)) q;
  left = λ _. ground (arith, w);
}

unchanged-IsAttempted :
    (c : ℕ) (e : CrossEntry) (s t : Board)
    → t.links ≡ s.links
    → t.outbox ≡ s.outbox
    → IsAttempted c e s false t
unchanged-IsAttempted c e s t p q = record {
  links = p;
  f = λ x. x;
  same = λ x. refl;
  outbox = q;
  left = λ h. ground arith;
}

-- An attempt returns.
pub record IsTried (c : ℕ) (e : CrossEntry) (s : Board) (out : Result CrossError Bool × Board)
    : Type 0 where
  pub k : Bool
  pub returns : out.0 ≡ ok k
  pub attempted : IsAttempted c e s k out.1

retry-IsTried :
    (shown : ℕ → Text) (m : Moment) (c : ℕ) (o : Orchestrator) (e : CrossEntry) (who : ℕ)
    (s : Board)
    → IsTried c e s (retry shown m c o e who s)
unfolding retry hand_over
retry-IsTried shown m c o e who s =
    let content = format_envelope shown e.link_id e.from_company e.kind e.subject e.body in
    go (system_send m who content user_request (some e.id) o)
  where
    tried :
        (o' : Orchestrator) (result : SendResult) (w : Bool)
        → is_waiting (map_result result) ≡ w
        → IsTried c e s (
            if w then (ok false, put_orchestrator c o' s) else (
              ok true,
              update_status m.now e.id
                  (map_result result)
                  (reason_of result)
                  (some who)
                  (put_orchestrator c o' s),
            ))
    tried o' result true w = record {
      k = false;
      returns = refl;
      attempted = unchanged-IsAttempted c e s (put_orchestrator c o' s) refl refl;
    }
    tried o' result false w = record {
      k = true;
      returns = refl;
      attempted =
          status-IsAttempted c m.now e (map_result result) (reason_of result) (some who) s
            (put_orchestrator c o' s) w refl refl;
    }

    go :
        (x : Result OrchestratorError SendResult × Orchestrator)
        → IsTried c e s (elim x.0 [
          | err _ ↦ (ok false, put_orchestrator c x.1 s)
          | ok result ↦
              if is_waiting (map_result result) then (ok false, put_orchestrator c x.1 s) else (
                ok true,
                update_status m.now e.id
                    (map_result result)
                    (reason_of result)
                    (some who)
                    (put_orchestrator c x.1 s),
              )
        ])
    go (err z, o') = record {
      k = false;
      returns = refl;
      attempted = unchanged-IsAttempted c e s (put_orchestrator c o' s) refl refl;
    }
    go (ok result, o') = tried o' result (is_waiting (map_result result)) refl

pub deliver_entry-IsTried :
    (shown : ℕ → Text) (m : Moment) (c : ℕ) (o : Orchestrator) (e : CrossEntry) (l : Link)
    (s : Board)
    → IsTried c e s (deliver_entry shown m c o e l s)
unfolding deliver_entry
deliver_entry-IsTried shown m c o e l s = elim (Bool-cases (is_approved_link l)) [
  | inl q ↦ rw q (go (target_of o e))
  | inr q ↦ rw q (record {
    k = true;
    returns = refl;
    attempted =
        status-IsAttempted c m.now e cross_rejected (some link_not_approved_reason) none s s refl
          refl refl;
  })
]
  where
    go :
        (x : Option ℕ)
        → IsTried c e s (elim x [
          | none ↦ (ok true, update_status m.now e.id cross_rejected (some no_inbox_agent) none s)
          | some who ↦ retry shown m c o e who s
        ])
    go none = record {
      k = true;
      returns = refl;
      attempted =
          status-IsAttempted c m.now e cross_rejected (some no_inbox_agent) none s s refl refl refl;
    }
    go (some who) = retry-IsTried shown m c o e who s
