-- ===== src/InterCompany/Routing.antt =====
-- What a message between companies has passed when it is reported as delivered.
use agent_company_factory.Prelude.{
  eq_of_==, ℕ, ◌≤◌, ◌≡◌, refl, sym, ap, ◌∙◌, true, Option, none, some, arith,
}
use agent_company_factory.Prelude.Keyed.{lookup}
use agent_company_factory.Prelude.Action.{Result, ok, err, raise, ◌>>=◌, ◌>>◌, bind_ok}
use agent_company_factory.InterCompany.Model.{
  cross_delivered, Link, CrossMessage, CrossResult, CrossError, cross_link_not_found, Board,
  link_id_of,
}
use agent_company_factory.InterCompany.Service.{
  Cross, lookup_link, is_approved_link, in_scope, refuse_link, route, outgoing, send_cross,
}
use agent_company_factory.InterCompany.Rate.{enforce_rate}
use agent_company_factory.Orchestrator.Model.{Text}
use agent_company_factory.Orchestrator.Send.{utf8_length, Moment}
use agent_company_factory.Clock.Model.{shown}
use agent_company_factory.InterCompany.Handing.{err≢ok, IsHanded, route_lem}

-- What the message and its link have passed.
pub record IsCarried (shown : ℕ → Text) (m : Moment) (k from_agent from_company : ℕ)
    (message : CrossMessage) (rid : ℕ) (s : Board) (r : CrossResult) : Type 0 where
  pub l : Link
  pub found : lookup link_id_of k s.links ≡ some l
  pub direction : l.from_company ≡ from_company
  pub is_approved : is_approved_link l ≡ true
  pub scope : in_scope l message ≡ true
  pub size : utf8_length message.body ≤ l.scope.max_payload_bytes
  pub rate : (enforce_rate m.monotonic l s).0 ≡ ok tt
  pub handed :
      IsHanded shown m (outgoing l from_agent message rid) (enforce_rate m.monotonic l s).1 r

refuse_none :
    (from_company : ℕ) (l : Link) (message : CrossMessage)
    → refuse_link from_company l message ≡ none
    → (l.from_company ≡ from_company)
      × (is_approved_link l ≡ true)
      × (in_scope l message ≡ true)
      × (utf8_length message.body ≤ l.scope.max_payload_bytes)
unfolding refuse_link
refuse_none from_company l message h = ground (arith, eq_of_== l.from_company from_company, h)

lookup_missing :
    (k : ℕ) (s : Board)
    → lookup link_id_of k s.links ≡ none
    → (lookup_link k s).0 ≡ err cross_link_not_found
unfolding lookup_link
lookup_missing k s h = ground arith

lookup_found :
    (k : ℕ) (s : Board) (l : Link)
    → lookup link_id_of k s.links ≡ some l
    → lookup_link k s ≡ (ok l, s)
unfolding lookup_link
lookup_found k s l h = ground arith

fails_with :
    {A B : Type 0} (a : Cross A) (f : A → Cross B) (s : Board) (e : CrossError)
    → (a s).0 ≡ err e
    → ((a >>= f) s).0 ≡ err e
fails_with {A} {B} a f s e h = go (a s) h
  where
    go :
        (x : Result CrossError A × Board)
        → x.0 ≡ err e
        → (let out : Result CrossError B × Board = elim x.0 [
          | ok y ↦ f y x.1
          | err z ↦ (err z, x.1)
        ] in
            out.0)
          ≡ err e
    go (ok y, t) q = ground arith
    go (err z, t) q = ground arith

-- `send_cross` with its link.
abbrev past_link : (ℕ → Text) → Moment → ℕ → ℕ → CrossMessage → ℕ → Link → Cross CrossResult
past_link shown m from_agent from_company message rid l =
    elim (refuse_link from_company l message) [
      | some e ↦ raise e
      | none ↦ enforce_rate m.monotonic l >> route shown m (outgoing l from_agent message rid)
    ]

-- A message that `send_cross` reports as delivered went over a link that exists, is approved and starts
-- at its company, is of a kind and size within the scope of the link and within its hourly rate; the
-- company at the other end is open and loaded, its HR, or else its CEO, is active and the recipient,
-- and its orchestrator has queued the message for this agent while it took messages.
pub send_cross_lem :
    (shown : ℕ → Text) (m : Moment) (k from_agent from_company : ℕ) (message : CrossMessage)
    (rid : ℕ) (s : Board) (r : CrossResult)
    → (send_cross shown m k from_agent from_company message rid s).0 ≡ ok r
    → r.status ≡ cross_delivered
    → IsCarried shown m k from_agent from_company message rid s r
unfolding send_cross
send_cross_lem shown m k from_agent from_company message rid s r h z =
    go (lookup link_id_of k s.links) refl
  where
    rated :
        (l : Link) (x : Result CrossError (Unit {0}) × Board)
        → lookup link_id_of k s.links ≡ some l
        → refuse_link from_company l message ≡ none
        → enforce_rate m.monotonic l s ≡ x
        → (let out : Result CrossError CrossResult × Board = elim x.0 [
          | ok _ ↦ route shown m (outgoing l from_agent message rid) x.1
          | err e ↦ (err e, x.1)
        ] in
            out.0)
          ≡ ok r
        → IsCarried shown m k from_agent from_company message rid s r
    rated l (err e, s') f g w q = absurd (err≢ok q)
    rated l (ok _, s') f g w q =
        let p = refuse_none from_company l message g in
        record {
          l = l;
          found = f;
          direction = p.0;
          is_approved = p.1;
          scope = p.2;
          size = p.3;
          rate = ap (λ x. x.0) w;
          handed =
              route_lem shown m (outgoing l from_agent message rid) (enforce_rate m.monotonic l s).1
                r
                (ap
                    (λ (x : Result CrossError (Unit {0}) × Board).
                      (route shown m (outgoing l from_agent message rid) x.1).0)
                    w
                  ∙ q)
                z;
        }

    checked :
        (l : Link) (x : Option CrossError)
        → lookup link_id_of k s.links ≡ some l
        → refuse_link from_company l message ≡ x
        → (let act : Cross CrossResult = elim x [
          | some e ↦ raise e
          | none ↦ enforce_rate m.monotonic l >> route shown m (outgoing l from_agent message rid)
        ] in
            (act s).0)
          ≡ ok r
        → IsCarried shown m k from_agent from_company message rid s r
    checked l (some e) f g q = absurd (err≢ok q)
    checked l none f g q = rated l (enforce_rate m.monotonic l s) f g refl q

    go :
        (x : Option Link)
        → lookup link_id_of k s.links ≡ x
        → IsCarried shown m k from_agent from_company message rid s r
    go none f = absurd (
        err≢ok (
          sym (
            fails_with (lookup_link k) (past_link shown m from_agent from_company message rid) s
              cross_link_not_found (lookup_missing k s f))
          ∙ h))
    go (some l) f = checked l (refuse_link from_company l message) f refl (
        sym (
          ap (λ x. x.0)
            (bind_ok (lookup_link k) (past_link shown m from_agent from_company message rid)
              (lookup_found k s l f)))
        ∙ h)
