-- ===== src/Tools/Registry.antt =====
-- The registry of modules/tools/service.py: `register`, `get`, `for_role`, `all_tools`.
use agent_company_factory.Prelude.{
  if◌then◌else◌, is_none, select, ℕ, not, none, some, List, [], ◌∷◌, ◌++◌,
}
use agent_company_factory.Prelude.Keyed.{lookup}
use agent_company_factory.Prelude.Action.{Result, ok, err, Action}
use agent_company_factory.Identity.Model.{Role}
use agent_company_factory.Tools.Model.{ToolError, unknown_tool, ToolDef, Tools, is_role_allowed}

abbrev pub tool_name : {W : Type 0} → ToolDef W → ℕ
tool_name t = t.name

-- What `register` raises, by its messages.
pub data RegistryError : Type 0 where
  already_registered no_executor : ℕ → RegistryError

-- `Tools.register`
unfoldable pub register : {W : Type 0} → ToolDef W → Action (Tools W) RegistryError (Unit {0})
register t s =
    if not (is_none (lookup tool_name t.name s.defs))
    then (err (already_registered t.name), s)
    else if is_none t.executor
    then (err (no_executor t.name), s)
    else (ok tt, record s { defs = s.defs ++ t ∷ [] })

-- `Tools.get`
unfoldable pub get_tool : {W : Type 0} → ℕ → Tools W → Result ToolError (ToolDef W)
get_tool name s = elim (lookup tool_name name s.defs) [
  | none ↦ err (unknown_tool name)
  | some t ↦ ok t
]

-- `Tools.for_role`
unfoldable pub for_role : {W : Type 0} → Role → Tools W → List (ToolDef W)
unfolding is_role_allowed
for_role role s = select (is_role_allowed role) s.defs
