-- ===== src/Identity/Reassign.antt =====
-- `Org.reassign` of modules/identity/org.py.
use agent_company_factory.Prelude.{
  ltb, leb, ◌==◌, if◌then◌else◌, is_id, length, ℕ, zero, suc, Bool, true, false, not, ◌&&◌, Option,
  none, some, List, [], ◌∷◌, ◌++◌,
}
use agent_company_factory.Prelude.Keyed.{lookup, set}
use agent_company_factory.Prelude.Action.{Result, ok, err}
use agent_company_factory.Identity.Model.{
  OrgError, self_report, manager_not_found, manager_not_active, hr_can_only_manage_hr,
  report_limit_exceeded, reason_too_short, target_not_found, target_not_active, actor_not_active,
  cannot_reassign_special_role, only_manager_or_ceo, cycle_detected, diverges, Agent,
  agent_reassigned, Call, agent_id, is_ceo, is_hr, is_special_role, is_active, direct_report_limit,
  get, direct_report_count, manager,
}
use agent_company_factory.Identity.Reason.{clean, min_fire_reason_chars}

-- The walk up from the new manager: whether it meets the target; `none` means the fuel ran out.
unfoldable pub meets : ℕ → ℕ → Option ℕ → List Agent → Option Bool
meets zero target cur t = none
meets (suc f) target none t = some false
meets (suc f) target (some c) t =
    let higher = meets f target (manager t c) t in if c == target then some true else higher

abbrev pub under_manager : ℕ → Agent → Agent
under_manager m a = record a { reports_to = some m }

-- Who may move the target: its current manager, or the CEO.
unfoldable pub refuse_actor : ℕ → Option ℕ → Option Agent → Option OrgError
refuse_actor actor current none = some actor_not_active
refuse_actor actor current (some a) =
    if not (is_active a)
    then some actor_not_active
    else if not (is_ceo a.role) && not (is_id current actor)
    then some only_manager_or_ceo
    else none

-- The checks on the destination: HR manages HR only, the span of control, and no cycle.
unfoldable pub refuse_edge : ℕ → Agent → Agent → List Agent → Option OrgError
refuse_edge fuel target m t =
    if is_hr m.role && not (is_hr target.role)
    then some (hr_can_only_manage_hr m.id)
    else if leb (direct_report_limit m.role) (direct_report_count m.id t)
    then some (report_limit_exceeded m.id)
    else elim (meets fuel target.id m.reports_to t) [
      | none ↦ some diverges
      | some hit ↦ if hit then some cycle_detected else none
    ]

-- The target and the new manager, looked up and checked.
unfoldable pub find_pair : ℕ → ℕ → List Agent → Result OrgError (Agent × Agent)
find_pair target new_manager t = elim (lookup agent_id target t) [
  | none ↦ err target_not_found
  | some a ↦
      if not (is_active a)
      then err target_not_active
      else if is_special_role a.role
      then err cannot_reassign_special_role
      else elim (lookup agent_id new_manager t) [
        | none ↦ err (manager_not_found new_manager)
        | some m ↦ if not (is_active m) then err (manager_not_active new_manager) else ok (a, m)
      ]
]

-- The move itself, for a pair that is not in place yet.
unfoldable pub move : ℕ → ℕ → List ℕ → Agent → Agent → Call Agent
move fuel actor reason a m s =
    elim (refuse_actor actor a.reports_to (lookup agent_id actor s.agents)) [
      | some e ↦ (err e, s)
      | none ↦ elim (refuse_edge fuel a m s.agents) [
        | some e ↦ (err e, s)
        | none ↦ get a.id (record s {
          agents = set agent_id a.id (under_manager m.id) s.agents;
          events = s.events ++ agent_reassigned a.id a.reports_to m.id actor (clean reason) ∷ [];
        })
      ]
    ]

-- `Org.reassign`
unfoldable pub reassign : ℕ → ℕ → ℕ → ℕ → List ℕ → Call Agent
reassign fuel actor target new_manager reason s =
    if ltb (length (clean reason)) min_fire_reason_chars
    then (err reason_too_short, s)
    else if target == new_manager
    then (err self_report, s)
    else elim (find_pair target new_manager s.agents) [
      | err e ↦ (err e, s)
      | ok (a, m) ↦
          if is_id a.reports_to new_manager then (ok a, s) else move fuel actor reason a m s
    ]
