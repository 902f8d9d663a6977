-- ===== src/Identity/Fire.antt =====
-- `Org.fire`, `_do_fire` and `complete_fire` of modules/identity/org.py.
use agent_company_factory.Prelude.{
  ◌==◌, if◌then◌else◌, is_none, find, select, update, ℕ, Bool, not, ◌&&◌, Option, none, some, List,
  [], ◌∷◌, ◌++◌, map,
}
use agent_company_factory.Prelude.Keyed.{lookup, set}
use agent_company_factory.Prelude.Action.{ok, err, pure, ◌>>◌}
use agent_company_factory.Identity.Model.{
  fired, no_hr_replacement, key_error, integrity, diverges, Agent, PendingFire, Event, agent_fired,
  agent_fire_notify, agent_orphaned, Org, Call, agent_id, is_ceo, is_hr, reports, direct_reports,
  get_active, has_other_active_hr, found, top, out_of_fuel, depth,
}
use agent_company_factory.Identity.Reason.{ReasonError, validate_fire_reason}

pub data FireDenial : Type 0 where
  via_hr_only actor_inactive target_inactive self_fire ceo_protected hr_protected : FireDenial
  not_subordinate : FireDenial
  bad_reason : ReasonError → FireDenial

-- `FireOutcome`; no path of `fire` returns PENDING_APPROVAL.
pub data FireOutcome : Type 0 where
  direct_fired : FireOutcome
  pending_approval : ℕ → FireOutcome
  denied : FireDenial → FireOutcome

abbrev pub mark_fired : ℕ → ℕ → List ℕ → Agent → Agent
mark_fired now actor reason a = record a {
  status = fired;
  fired_at = some now;
  fired_by = some actor;
  fire_reason = some reason;
}

abbrev pub detach : Agent → Agent
detach a = record a { reports_to = none }

-- The two UPDATE statements of `_do_fire`.
unfoldable pub fire_rows : ℕ → ℕ → ℕ → List ℕ → List Agent → List Agent
fire_rows now actor target reason t =
    update (reports target) detach (set agent_id target (mark_fired now actor reason) t)

-- The notice to a former manager other than the actor.
unfoldable pub notice : ℕ → ℕ → List ℕ → Option ℕ → List Event
notice actor target reason none = []
notice actor target reason (some m) =
    if m == actor then [] else agent_fire_notify m target actor reason ∷ []

unfoldable pub fire_events : ℕ → ℕ → List ℕ → Option ℕ → List ℕ → List Event
unfolding notice
fire_events actor target reason former orphans =
    agent_fired target actor reason ∷ notice actor target reason former
    ++ map (λ o. agent_orphaned o target actor) orphans

-- `Org._do_fire`, with `notify_manager=True` as in both of its calls. The column `fired_by` refers
-- to a row of the table.
unfoldable pub do_fire : ℕ → ℕ → ℕ → List ℕ → Call (Unit {0})
unfolding fire_rows fire_events direct_reports
do_fire now actor target reason s = elim (lookup agent_id target s.agents) [
  | none ↦ (err key_error, s)
  | some a ↦
      if is_hr a.role && not (has_other_active_hr target s.agents)
      then (err no_hr_replacement, s)
      else if is_none (lookup agent_id actor s.agents)
      then (err integrity, s)
      else (
        ok tt,
        record s {
          agents = fire_rows now actor target reason s.agents;
          events =
              s.events
              ++ fire_events actor target reason a.reports_to (direct_reports target s.agents);
        },
      )
]

-- The guards of `fire` before the depth is asked for.
unfoldable pub refuse_fire : Bool → Option Agent → Option Agent → List Agent → Option FireDenial
refuse_fire via_hr actor target t = if not via_hr then some via_hr_only else elim actor [
  | none ↦ some actor_inactive
  | some a ↦ elim target [
    | none ↦ some target_inactive
    | some b ↦
        if a.id == b.id
        then some self_fire
        else if is_ceo b.role
        then some ceo_protected
        else if is_hr b.role && not (has_other_active_hr b.id t)
        then some hr_protected
        else none
  ]
]

abbrev pub deny_fire : FireDenial → Call FireOutcome
deny_fire d s = (ok (denied d), s)

abbrev pub fire_now : ℕ → ℕ → ℕ → List ℕ → Call FireOutcome
fire_now now actor target reason = do do_fire now actor target reason; pure direct_fired

-- `Org.fire`
unfoldable pub fire : ℕ → ℕ → ℕ → ℕ → List ℕ → Bool → Call FireOutcome
unfolding do_fire
fire fuel now actor target reason via_hr s =
    elim (refuse_fire via_hr (get_active actor s.agents) (get_active target s.agents) s.agents) [
      | some d ↦ deny_fire d s
      | none ↦ elim (depth fuel actor target s.agents) [
        | out_of_fuel ↦ (err diverges, s)
        | top ↦ deny_fire not_subordinate s
        | found d ↦
            if d == 0 then deny_fire not_subordinate s else elim (validate_fire_reason reason) [
              | some e ↦ deny_fire (bad_reason e) s
              | none ↦ fire_now now actor target reason s
            ]
      ]
    ]

abbrev pub pending_id : PendingFire → ℕ
pending_id p = p.request_id

-- `Org.complete_fire`: the row is deleted in its own transaction, before the fire.
unfoldable pub complete_fire : ℕ → ℕ → Bool → Call (Unit {0})
unfolding do_fire
complete_fire now request_id approved s = elim (lookup pending_id request_id s.fire_pending) [
  | none ↦ (err key_error, s)
  | some p ↦
      let s' : Org = record s {
        fire_pending = select (λ q. not (q.request_id == request_id)) s.fire_pending;
      } in
      if not approved then (ok tt, s') else do_fire now p.actor_id p.target_id p.reason s'
]

-- `Org._enqueue_pending_fire`, which nothing calls; `p` is the row that it would insert, under a
-- fresh identifier.
unfoldable pub enqueue_pending_fire : PendingFire → Call FireOutcome
enqueue_pending_fire p s = elim (find (λ q. q.target_id == p.target_id) s.fire_pending) [
  | some q ↦ (ok (pending_approval q.request_id), s)
  | none ↦
      if not (is_none (lookup pending_id p.request_id s.fire_pending))
      then (err integrity, s)
      else (
        ok (pending_approval p.request_id),
        record s { fire_pending = s.fire_pending ++ p ∷ []; requested = s.requested ++ p ∷ [] },
      )
]
