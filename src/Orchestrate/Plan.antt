-- ===== src/Orchestrate/Plan.antt =====
-- The plans of agentiso/src/workspace/orchestrate.rs, as they stand after parsing.
use agentiso.Prelude.{ℕ, Bool, Option, List, Str, codes}

pub record VaultQuery : Type 0 where
  pub query : Str
  pub kind : Str

abbrev pub default_vault_query_kind : Str
default_vault_query_kind = codes "search"

abbrev pub default_snapshot_name : Str
default_snapshot_name = codes "golden"

pub record TaskDef : Type 0 where
  pub name : Str
  pub prompt : Str
  pub workdir : Option Str
  pub vault_context : Option (List VaultQuery)

pub record OrchestrationPlan : Type 0 where
  pub golden_workspace : Str
  pub snapshot_name : Str
  pub tasks : List TaskDef
  pub mcp_bridge : Option Bool

pub record TeamRoleDef : Type 0 where
  pub name : Str
  pub role : Str
  pub skills : List Str
  pub count : Option ℕ

pub record TeamTaskDef : Type 0 where
  pub id : Str
  pub name : Str
  pub prompt : Str
  pub assigned_to : List Str
  pub depends_on : List Str
  pub workdir : Option Str
  pub vault_context : Option (List VaultQuery)

pub record TeamPlan : Type 0 where
  pub team_name : Str
  pub roles : List TeamRoleDef
  pub tasks : List TeamTaskDef
