-- ===== src/Auth/Workspaces.antt =====
-- Registration, quotas and ownership checks of workspaces (agentiso/src/mcp/auth.rs).
use agentiso.Prelude.{
  ℕ, ◌+◌, ◌-◌, Bool, false, not, ◌||◌, none, some, List, [], ◌∷◌, ◌++◌, Str, codes, Result, ok, err,
  ok_or, fail_if, ◌>>=◌, ◌>>◌, ltb, leb, keep, if◌then◌else◌, str_eq, nat_eq,
}
use agentiso.Prelude.Word.{u64}
use agentiso.Prelude.Dict.{Dict}
use agentiso.Prelude.Dict
use agentiso.Prelude.Set
use agentiso.Auth.State.{
  Uuid, SessionQuota, SessionUsage, Session, AuthError, unknown_session, not_owner, quota_exceeded,
  AuthManager, put,
}

abbrev pub workspaces_resource : Str
workspaces_resource = codes "workspaces"

abbrev pub memory_resource : Str
memory_resource = codes "memory_mb"

abbrev pub disk_resource : Str
disk_resource = codes "disk_gb"

-- The three quota checks, in the order in which the code makes them.
unfoldable pub quota_checks : Session → (memory_mb disk_gb : ℕ) → Result AuthError (Unit {0})
quota_checks s memory_mb disk_gb = do
  fail_if (leb s.quota.max_workspaces s.usage.workspace_count)
      (quota_exceeded workspaces_resource s.quota.max_workspaces s.usage.workspace_count 1)
  fail_if (ltb s.quota.max_memory_mb (u64 (s.usage.memory_mb + memory_mb)))
      (quota_exceeded memory_resource s.quota.max_memory_mb s.usage.memory_mb memory_mb)
  fail_if (ltb s.quota.max_disk_gb (u64 (s.usage.disk_gb + disk_gb)))
      (quota_exceeded disk_resource s.quota.max_disk_gb s.usage.disk_gb disk_gb)

-- The session with one more workspace, and its counters.
unfoldable pub take_on : Uuid → (memory_mb disk_gb : ℕ) → Session → Session
take_on w memory_mb disk_gb s = record s {
  workspaces = Set.insert w s.workspaces;
  usage = record {
    workspace_count = u64 (s.usage.workspace_count + 1);
    memory_mb = u64 (s.usage.memory_mb + memory_mb);
    disk_gb = u64 (s.usage.disk_gb + disk_gb);
  };
}

-- The session without the workspace; `-` on ℕ is `saturating_sub`.
unfoldable pub give_up : Uuid → (memory_mb disk_gb : ℕ) → Session → Session
give_up w memory_mb disk_gb s = record s {
  workspaces = Set.remove w s.workspaces;
  usage = record {
    workspace_count = s.usage.workspace_count - 1;
    memory_mb = s.usage.memory_mb - memory_mb;
    disk_gb = s.usage.disk_gb - disk_gb;
  };
}

-- The tail of `register_workspace`, once the session is found.
unfoldable pub register_in :
    Str
    → Uuid
    → (memory_mb disk_gb : ℕ) → Session
    → AuthManager
    → AuthManager × Result AuthError (Unit {0})
unfolding quota_checks take_on
register_in sid w memory_mb disk_gb s m = elim (quota_checks s memory_mb disk_gb) [
  | err e ↦ (m, err e)
  | ok _ ↦ (put sid (take_on w memory_mb disk_gb s) m, ok tt)
]

unfoldable pub register_workspace :
    Str → Uuid → (memory_mb disk_gb : ℕ) → AuthManager → AuthManager × Result AuthError (Unit {0})
unfolding register_in
register_workspace sid w memory_mb disk_gb m = elim (Dict.lookup sid m.sessions) [
  | none ↦ (m, err (unknown_session sid))
  | some s ↦ register_in sid w memory_mb disk_gb s m
]

unfoldable pub unregister_workspace :
    Str → Uuid → (memory_mb disk_gb : ℕ) → AuthManager → AuthManager × Result AuthError (Unit {0})
unfolding give_up
unregister_workspace sid w memory_mb disk_gb m = elim (Dict.lookup sid m.sessions) [
  | none ↦ (m, err (unknown_session sid))
  | some s ↦
      (if Set.contains w s.workspaces then put sid (give_up w memory_mb disk_gb s) m else m, ok tt)
]

unfoldable pub check_quota :
    Str → (memory_mb disk_gb : ℕ) → AuthManager → Result AuthError (Unit {0})
unfolding quota_checks
check_quota sid memory_mb disk_gb m = do
  s ← ok_or (Dict.lookup sid m.sessions) (unknown_session sid)
  quota_checks s memory_mb disk_gb

unfoldable pub check_ownership : Str → Uuid → AuthManager → Result AuthError (Unit {0})
check_ownership sid w m = do
  s ← ok_or (Dict.lookup sid m.sessions) (unknown_session sid)
  fail_if (not (Set.contains w s.workspaces)) (not_owner sid w)

unfoldable pub get_usage : Str → AuthManager → Result AuthError SessionUsage
get_usage sid m = do s ← ok_or (Dict.lookup sid m.sessions) (unknown_session sid); ok s.usage

unfoldable pub get_quota : Str → AuthManager → Result AuthError SessionQuota
get_quota sid m = do s ← ok_or (Dict.lookup sid m.sessions) (unknown_session sid); ok s.quota

unfoldable pub list_workspaces : Str → AuthManager → Result AuthError (List Uuid)
list_workspaces sid m = do
  s ← ok_or (Dict.lookup sid m.sessions) (unknown_session sid)
  ok s.workspaces

-- `sessions.values().any(|s| s.workspaces.contains(w))`
unfoldable pub some_owns : Uuid → Dict Str Session → Bool
some_owns w [] = false
some_owns w ((j, s) ∷ rest) = Set.contains w s.workspaces || some_owns w rest

unfoldable pub is_workspace_orphaned : Uuid → AuthManager → Bool
unfolding some_owns
is_workspace_orphaned w m = not (some_owns w m.sessions)

-- `sessions.values().flat_map(|s| s.workspaces)`
unfoldable pub all_owned : Dict Str Session → List Uuid
all_owned [] = []
all_owned ((j, s) ∷ rest) = s.workspaces ++ all_owned rest

unfoldable pub list_orphaned_workspaces : List Uuid → AuthManager → List Uuid
unfolding all_owned
list_orphaned_workspaces candidates m =
    let owned = all_owned m.sessions in keep (λ w. not (Set.contains w owned)) candidates
