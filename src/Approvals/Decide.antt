-- ===== src/Approvals/Decide.antt =====
-- `Approvals.decide`, `cancel` and the queries of modules/approvals/service.py.
use Prim.Native.String.{◌++◌ as str_append}
use agent_company_factory.Prelude.{
  ℕ, String, Bool, true, false, ◌&&◌, ◌||◌, Option, none, some, List, [], ◌∷◌, ◌++◌, ◌==◌, is_none,
  not, if◌then◌else◌, select, exists, order_by,
}
use agent_company_factory.Prelude.Keyed.{lookup, set}
use agent_company_factory.Prelude.Action.{
  Result, ok, err, pure, raise, gets, lift, modify, ◌>>=◌, ◌>>◌,
}
use agent_company_factory.Approvals.Model.{
  ApprovalStatus, approved, denied, cancelled, Decision, approve, deny, RouteTarget, security,
  is_security, ApprovalError, not_found, invalid_transition, conflict, ApprovalRoute, RouteColumn,
  target_only, agent_colon, encode_target, Approval, Row,
}
use agent_company_factory.Approvals.Service.{
  Verdict, verdict_approved, verdict_rejected, Event, decided, Approvals, Call, id_of, is_pending,
  is_approve, same_status, row_to_approval, append_event, broadcast, write_rows,
}

-- The status that a decision leads to.
abbrev pub status_of : Decision → ApprovalStatus
status_of approve = approved
status_of deny = denied

abbrev pub verdict_of : Decision → Verdict
verdict_of approve = verdict_approved
verdict_of deny = verdict_rejected

-- The three UPDATE statements of `decide`.
abbrev pub security_denies : ℕ → ℕ → Option String → Row → Row
security_denies decider now note r = record r {
  security_decision = some deny;
  security_decided_at = some now;
  status = denied;
  decided_by = some decider;
  decided_at = some now;
  note = note;
}

abbrev pub security_clears : ℕ → Row → Row
security_clears now r = record r {
  security_decision = some approve;
  security_decided_at = some now;
}

abbrev pub finalise : Decision → ℕ → ℕ → Option String → Row → Row
finalise d decider now note r = record r {
  status = status_of d;
  decided_by = some decider;
  decided_at = some now;
  note = note;
}

-- Which statement runs for a pending row, and whether APPROVAL_DECIDED is emitted.
unfoldable pub decide_row : Row → ℕ → ℕ → Decision → Option String → (Row → Row) × Bool
decide_row row now decider d note =
    if row.require_security && is_none row.security_decision
    then (if is_approve d
        then (security_clears now, false)
        else (security_denies decider now note, true))
    else (finalise d decider now note, true)

-- After the transaction: the row is read back, the event is emitted, the callbacks are called.
unfoldable pub announce : Bool → Event → Option Row → Call Approval
unfolding row_to_approval
announce emitted e none = raise not_found
announce emitted e (some row) = do
  approval ← lift (row_to_approval row)
  if emitted then append_event e else pure tt
  broadcast approval
  pure approval

-- `Approvals.decide`
unfoldable pub decide : ℕ → ℕ → ℕ → Decision → Option String → Call Approval
unfolding decide_row announce row_to_approval
decide now rid decider d note s = elim (lookup id_of rid s.rows) [
  | none ↦ (err not_found, s)
  | some row ↦
      if not (is_pending row.status)
      then (if same_status row.status (status_of d)
          then (row_to_approval row, s)
          else (err conflict, s))
      else (do
        let step = decide_row row now decider d note
        write_rows (set id_of rid step.0)
        after ← gets (λ t. lookup id_of rid t.rows)
        announce step.1 (decided rid decider (verdict_of d) note) after)
          s
]

abbrev pub cancels : ℕ → ℕ → String → Row → Row
cancels now by reason r = record r {
  status = cancelled;
  decided_by = some by;
  decided_at = some now;
  note = some reason;
}

-- `Approvals.cancel`
unfoldable pub cancel : ℕ → ℕ → ℕ → String → Call Approval
unfolding announce
cancel now rid by reason s = elim (lookup id_of rid s.rows) [
  | none ↦ (err not_found, s)
  | some row ↦
      if not (is_pending row.status)
      then (err invalid_transition, s)
      else (do
        write_rows (set id_of rid (cancels now by reason))
        after ← gets (λ t. lookup id_of rid t.rows)
        announce true (decided rid by verdict_rejected (some (str_append "cancelled:" reason)))
            after)
          s
]

-- `Approvals.get`
unfoldable pub get : ℕ → Call Approval
unfolding row_to_approval
get rid s = elim (lookup id_of rid s.rows) [
  | none ↦ (err not_found, s)
  | some row ↦ (row_to_approval row, s)
]

abbrev pub same_target : RouteTarget → RouteTarget → Bool
same_target RouteTarget.board RouteTarget.board = true
same_target RouteTarget.agent RouteTarget.agent = true
same_target security security = true
same_target _ _ = false

abbrev pub same_id : Option ℕ → Option ℕ → Bool
same_id none none = true
same_id (some i) (some j) = i == j
same_id _ _ = false

abbrev pub same_column : RouteColumn → RouteColumn → Bool
same_column (target_only s) (target_only t) = same_target s t
same_column (agent_colon i) (agent_colon j) = same_id i j
same_column _ _ = false

-- The two conditions of `pending_for`.
unfoldable pub awaits : ApprovalRoute → Row → Bool
unfolding encode_target
awaits decider r =
    if is_security decider.target
    then is_pending r.status && r.require_security && is_none r.security_decision
    else is_pending r.status
      && same_column r.route_target (encode_target decider)
      && (not r.require_security || not (is_none r.security_decision))

-- `[_row_to_approval(r) for r in rows]`
unfoldable pub to_approvals : List Row → Result ApprovalError (List Approval)
unfolding row_to_approval
to_approvals [] = ok []
to_approvals (r ∷ rs) =
    let rest = to_approvals rs in
    elim (row_to_approval r) [
      | err e ↦ err e
      | ok a ↦ elim rest [ err e ↦ err e | ok later ↦ ok (a ∷ later) ]
    ]

-- The rows that `pending_for` selects.
unfoldable pub pending_rows : ApprovalRoute → Approvals → List Row
unfolding awaits
pending_rows decider s = order_by (λ r. r.created_at) (select (awaits decider) s.rows)

-- `Approvals.pending_for`
unfoldable pub pending_for : ApprovalRoute → Call (List Approval)
unfolding to_approvals pending_rows
pending_for decider s = (to_approvals (pending_rows decider s), s)

-- `Approvals.is_blocked`
unfoldable pub is_blocked : ℕ → Approvals → Bool
is_blocked agent_id s = exists (λ r. r.requester_id == agent_id && is_pending r.status) s.rows

-- `Approvals.subscribe` and `unsubscribe`, with the fresh handle given.
unfoldable pub subscribe : ℕ → Call ℕ
subscribe h s = (ok h, record s { subscribers = s.subscribers ++ h ∷ [] })

unfoldable pub unsubscribe : ℕ → Call (Unit {0})
unsubscribe h = modify λ s. record s { subscribers = select (λ c. not (c == h)) s.subscribers }
