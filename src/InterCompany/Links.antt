-- ===== src/InterCompany/Links.antt =====
-- `LinkService` of modules/board_api/links.py: the status machine of the links. The table has the key
-- `id` and is unique in the two companies and the status.
use agent_company_factory.Prelude.{
  ◌==◌, if◌then◌else◌, is_none, select, exists, ℕ, ◌+◌, String, Bool, true, false, not, ◌&&◌, ◌||◌,
  Option, none, some, List, [], ◌∷◌, ◌++◌,
}
use agent_company_factory.Prelude.Keyed.{lookup, set}
use agent_company_factory.Prelude.Action.{
  ok, err, Action, pure, raise, modify, raise_if, ◌>>=◌, ◌>>◌,
}
use agent_company_factory.InterCompany.Model.{
  LinkStatus, link_requested, link_approved, link_denied, link_suspended, link_revoked,
  LinkRelationship, LinkScope, Link, link_requested_event, link_approved_event, LinkError,
  link_not_found, link_already_exists, company_not_found, link_conflict, same_company, integrity,
  Board, link_id_of, company_id_of, is_closed, same_link_status, mirror,
}

abbrev pub OnLinks : Type 0 → Type 0
OnLinks A = Action Board LinkError A

-- The constraint `UNIQUE (from_company, to_company, status)`.
abbrev pub clashes : Link → Link → Bool
clashes a b =
    a.from_company == b.from_company
    && a.to_company == b.to_company
    && same_link_status a.status b.status

abbrev pub has_clash : Link → List Link → Bool
has_clash l t = exists (λ r. not (link_id_of r == l.id) && clashes r l) t

-- `LinkService.get`
unfoldable pub get_link : ℕ → OnLinks Link
get_link k s = elim (lookup link_id_of k s.links) [
  | none ↦ (err link_not_found, s)
  | some l ↦ (ok l, s)
]

abbrev pub decided_link : ℕ → LinkStatus → ℕ → Option String → Link → Link
decided_link now status by note l = record l {
  status = status;
  decided_by = some by;
  decided_at = some now;
  note = note;
}

-- `UPDATE board_links SET ... WHERE id = ?` for the row `l`.
unfoldable pub write_status : ℕ → LinkStatus → ℕ → Option String → Link → OnLinks Link
write_status now status by note l s =
    let l' = decided_link now status by note l in
    if has_clash l' s.links
    then (err integrity, s)
    else (ok l', record s { links = set link_id_of l.id (decided_link now status by note) s.links })

-- The two companies of a request exist and are open.
abbrev pub check_company : ℕ → OnLinks (Unit {0})
check_company c s = elim (lookup company_id_of c s.companies) [
  | none ↦ (err company_not_found, s)
  | some row ↦ if is_closed row.status then (err link_conflict, s) else (ok tt, s)
]

pub record LinkRequest : Type 0 where
  pub from_company : ℕ
  pub to_company : ℕ
  pub relationship : LinkRelationship
  pub scope : LinkScope
  pub requested_by : ℕ

abbrev pub new_link : ℕ → ℕ → LinkRequest → Link
new_link now fresh q = record {
  id = fresh;
  from_company = q.from_company;
  to_company = q.to_company;
  relationship = q.relationship;
  scope = q.scope;
  status = link_requested;
  requested_by = q.requested_by;
  requested_at = now;
  decided_by = none;
  decided_at = none;
  note = none;
}

-- The INSERT of `request`, and the events.
unfoldable pub insert_link : Link → OnLinks Link
insert_link l s =
    if not (is_none (lookup link_id_of l.id s.links)) || has_clash l s.links
    then (err link_already_exists, s)
    else (
      ok l,
      mirror l.to_company (link_requested_event l.id l.requested_by) (
          mirror l.from_company (link_requested_event l.id l.requested_by)
            (record s { links = s.links ++ l ∷ [] })),
    )

-- `LinkService.request`
unfoldable pub request_link : ℕ → ℕ → LinkRequest → OnLinks Link
unfolding insert_link
request_link now fresh q =
    if q.from_company == q.to_company
    then raise same_company
    else check_company q.from_company
      >> check_company q.to_company
      >> insert_link (new_link now fresh q)

abbrev pub require_status : (LinkStatus → Bool) → Link → OnLinks (Unit {0})
require_status p l = raise_if (not (p l.status)) link_conflict

-- `LinkService.decide`
unfoldable pub decide_link : ℕ → ℕ → Bool → ℕ → Option String → OnLinks Link
unfolding get_link write_status
decide_link now k approves by note = do
  l ← get_link k
  require_status (same_link_status link_requested) l
  l' ← write_status now (if approves then link_approved else link_denied) by note l
  modify λ s.
      if approves
      then mirror l.to_company (link_approved_event k by)
          (mirror l.from_company (link_approved_event k by) s)
      else s
  pure l'

abbrev pub is_live : LinkStatus → Bool
is_live link_approved = true
is_live link_suspended = true
is_live _ = false

-- `LinkService.revoke`
unfoldable pub revoke : ℕ → ℕ → ℕ → String → OnLinks Link
unfolding get_link write_status
revoke now k by reason = do
  l ← get_link k
  require_status is_live l
  write_status now link_revoked by (some reason) l

-- `LinkService.suspend`
unfoldable pub suspend_link : ℕ → ℕ → ℕ → String → OnLinks Link
unfolding get_link write_status
suspend_link now k by reason = do
  l ← get_link k
  require_status (same_link_status link_approved) l
  write_status now link_suspended by (some reason) l

-- `LinkService.resume`
unfoldable pub resume_link : ℕ → ℕ → ℕ → OnLinks Link
unfolding get_link write_status
resume_link now k by = do
  l ← get_link k
  require_status (same_link_status link_suspended) l
  write_status now link_approved by none l

abbrev pub concerns : ℕ → Link → Bool
concerns c l = (l.from_company == c || l.to_company == c) && is_live l.status

-- The UPDATE of `revoke_for_company`, row by row; a clash makes the whole statement fail.
unfoldable pub revoke_rows : ℕ → ℕ → List Link → OnLinks ℕ
unfolding write_status
revoke_rows now by [] = pure 0
revoke_rows now by (l ∷ rest) = do
  _ ← write_status now link_revoked by (some "company_closed") l
  n ← revoke_rows now by rest
  pure (n + 1)

-- `LinkService.revoke_for_company`: the number of links; the transaction is rolled back on an error.
unfoldable pub revoke_for_company : ℕ → ℕ → ℕ → OnLinks ℕ
unfolding revoke_rows
revoke_for_company now c by s =
    let (r, s') = revoke_rows now by (select (concerns c) s.links) s in
    elim r [ err e ↦ (err e, s) | ok n ↦ (ok n, s') ]
