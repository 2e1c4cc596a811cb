-- ===== src/Auth/Persistence.antt =====
-- Export and restore of session ownership (agentiso/src/mcp/auth.rs).
use agentiso.Prelude.{
  ℕ, ◌+◌, Bool, true, false, none, some, List, [], ◌∷◌, Str, if◌then◌else◌, str_eq, nat_eq,
}
use agentiso.Prelude.Word.{u64}
use agentiso.Prelude.Dict.{Dict}
use agentiso.Prelude.Dict
use agentiso.Prelude.Set
use agentiso.Auth.State.{
  Uuid, PersistedSession, SessionQuota, SessionUsage, no_usage, Session, AuthManager, put,
}

abbrev pub is_empty {ℓ} : {A : Type ℓ} → List A → Bool
is_empty [] = true
is_empty (x ∷ xs) = false

unfoldable pub export_from : Dict Str Session → List PersistedSession
export_from [] = []
export_from ((j, s) ∷ rest) =
    let records = export_from rest in
    if is_empty s.workspaces
    then records
    else record { session_id = s.id; workspace_ids = s.workspaces; created_at = s.created_at }
      ∷ records

unfoldable pub export_sessions : AuthManager → List PersistedSession
unfolding export_from
export_sessions m = export_from m.sessions

-- The resources of the workspaces that still exist: UUID to memory and disk.
abbrev pub Resources : Type 0
Resources = Dict Uuid (ℕ × ℕ)

-- One round of the inner loop: a workspace that is gone is skipped.
unfoldable pub restore_one : Resources → Uuid → List Uuid × SessionUsage → List Uuid × SessionUsage
restore_one resources w (ws_set, usage) = elim (Dict.lookup w resources) [
  | none ↦ (ws_set, usage)
  | some (mem, disk) ↦ (
    Set.insert w ws_set,
    record {
      workspace_count = u64 (usage.workspace_count + 1);
      memory_mb = u64 (usage.memory_mb + mem);
      disk_gb = u64 (usage.disk_gb + disk);
    },
  )
]

unfoldable pub restore_owned :
    Resources → List Uuid → List Uuid × SessionUsage → List Uuid × SessionUsage
restore_owned resources [] acc = acc
restore_owned resources (w ∷ ws) acc = restore_owned resources ws (restore_one resources w acc)

-- A restored session, stale from the start: its last activity is the epoch.
abbrev pub restored : PersistedSession → SessionQuota → List Uuid × SessionUsage → Session
restored ps quota (ws_set, usage) = record {
  id = ps.session_id;
  created_at = ps.created_at;
  last_activity = 0;
  workspaces = ws_set;
  quota = quota;
  usage = usage;
}

-- One round of the outer loop.
unfoldable pub restore_session : Resources → PersistedSession → AuthManager → AuthManager
restore_session resources ps m =
    let owned = restore_owned resources ps.workspace_ids ([], no_usage) in
    if is_empty owned.0
    then m
    else if Dict.contains_key ps.session_id m.sessions
    then m
    else put ps.session_id (restored ps m.default_quota owned) m

unfoldable pub restore_sessions : List PersistedSession → Resources → AuthManager → AuthManager
restore_sessions [] resources m = m
restore_sessions (ps ∷ persisted) resources m =
    restore_sessions persisted resources (restore_session resources ps m)
