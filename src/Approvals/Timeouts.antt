-- ===== src/Approvals/Timeouts.antt =====
-- `Approvals.process_timeouts` of modules/approvals/service.py.
use agent_company_factory.Prelude.{
  ℕ, Bool, ◌&&◌, Option, none, some, List, [], ◌∷◌, leb, if◌then◌else◌, select, length, or_else,
}
use agent_company_factory.Prelude.Keyed.{lookup, set}
use agent_company_factory.Prelude.Action.{ok, err, pure, raise, gets, lift, ◌>>=◌, ◌>>◌}
use agent_company_factory.Approvals.Model.{denied, timeout, not_found, Approval, Row, Policy}
use agent_company_factory.Approvals.Service.{
  timed_out, Call, id_of, is_pending, row_to_approval, append_event, broadcast, write_rows,
}

-- `status = 'pending' AND expires_at <= ?`
abbrev pub is_overdue : ℕ → Row → Bool
is_overdue now r = is_pending r.status && leb r.expires_at now

-- The UPDATE for the selected row `old`; `COALESCE(note, ?)` reads the row that is written.
abbrev pub expire : Policy → ℕ → Row → Row → Row
expire p now old r = record r {
  status = if p.auto_deny_kinds old.kind then denied else timeout;
  decided_at = some now;
  note =
      some
        (or_else r.note (if p.auto_deny_kinds old.kind then "auto_deny_on_timeout" else "expired"));
}

abbrev pub read_back : Option Row → Call Approval
read_back none = raise not_found
read_back (some row) = lift (row_to_approval row)

-- The loop over the selected rows.
unfoldable pub expire_rows : Policy → ℕ → List Row → Call (List Approval)
unfolding row_to_approval
expire_rows p now [] = pure []
expire_rows p now (row ∷ rest) = do
  write_rows (set id_of row.request_id (expire p now row))
  approval ← read_back (← gets (λ s. lookup id_of row.request_id s.rows))
  approvals ← expire_rows p now rest
  pure (approval ∷ approvals)

-- `CompanyDB.transaction`: a raise rolls the table back.
abbrev pub transaction : {A : Type 0} → Call A → Call A
transaction m s =
    let (r, s') = m s in elim r [ ok a ↦ (ok a, s') | err e ↦ (err e, record s' { rows = s.rows }) ]

-- The loop after the commit.
unfoldable pub announce_all : List Approval → Call (Unit {0})
announce_all [] = pure tt
announce_all (a ∷ later) = do append_event (timed_out a.request_id); broadcast a; announce_all later

-- `Approvals.process_timeouts`
unfoldable pub process_timeouts : Policy → ℕ → Call ℕ
unfolding expire_rows announce_all
process_timeouts p now s =
    (do
      approvals ← transaction (expire_rows p now (select (is_overdue now) s.rows))
      announce_all approvals
      pure (length approvals))
      s
