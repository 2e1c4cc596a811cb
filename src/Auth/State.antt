-- ===== src/Auth/State.antt =====
-- The state of `AuthManager` and the life of a session (agentiso/src/mcp/auth.rs).
use agentiso.Prelude.{
  ℕ, ◌+◌, ◌*◌, ◌-◌, ◌^◌, Bool, true, none, some, List, [], ◌∷◌, Str, ◌==◌, ltb, min, length,
  if◌then◌else◌, str_eq,
}
use agentiso.Prelude.Dict.{Dict}
use agentiso.Prelude.Dict

-- A workspace's UUID is its 128-bit number.
abbrev pub Uuid : Type 0
Uuid = ℕ

pub record PersistedSession : Type 0 where
  pub session_id : Str
  pub workspace_ids : List Uuid
  pub created_at : ℕ

pub record SessionQuota : Type 0 where
  pub max_workspaces : ℕ  -- usize
  pub max_memory_mb : ℕ  -- u64
  pub max_disk_gb : ℕ  -- u64

abbrev pub default_quota : SessionQuota
default_quota = record { max_workspaces = 10; max_memory_mb = 16384; max_disk_gb = 100 }

pub record SessionUsage : Type 0 where
  pub workspace_count : ℕ  -- usize
  pub memory_mb : ℕ  -- u64
  pub disk_gb : ℕ  -- u64

abbrev pub no_usage : SessionUsage
no_usage = record { workspace_count = 0; memory_mb = 0; disk_gb = 0 }

pub record Session : Type 0 where
  pub id : Str
  pub created_at : ℕ
  pub last_activity : ℕ
  pub workspaces : List Uuid
  pub quota : SessionQuota
  pub usage : SessionUsage

abbrev pub new_session : Str → SessionQuota → ℕ → Session
new_session id quota now = record {
  id = id;
  created_at = now;
  last_activity = now;
  workspaces = [];
  quota = quota;
  usage = no_usage;
}

pub data AuthError : Type 0 where
  unknown_session : Str → AuthError
  not_owner : Str → Uuid → AuthError
  quota_exceeded : (resource : Str) (limit current requested : ℕ) → AuthError
  already_owned : Uuid → (owner : Str) → AuthError

pub record AuthManager : Type 0 where
  pub sessions : Dict Str Session
  pub default_quota : SessionQuota
  pub bridge_tokens : Dict Str (Str × Uuid)

unfoldable pub new : SessionQuota → AuthManager
new quota = record { sessions = []; default_quota = quota; bridge_tokens = [] }

-- Write a session back into the map.
abbrev pub put : Str → Session → AuthManager → AuthManager
put sid s m = record m { sessions = Dict.insert sid s m.sessions }

-- `entry(id).or_insert_with(…)`: an old session stays as it is.
unfoldable pub register_session : Str → ℕ → AuthManager → AuthManager
register_session sid now m = elim (Dict.lookup sid m.sessions) [
  | some s ↦ m
  | none ↦ put sid (new_session sid m.default_quota now) m
]

unfoldable pub touch_session : Str → ℕ → AuthManager → AuthManager
touch_session sid now m = elim (Dict.lookup sid m.sessions) [
  | some s ↦ put sid (record s { last_activity = now }) m
  | none ↦ m
]

-- `TimeDelta::MAX` of chrono, i64::MAX milliseconds; a longer `max_idle` is cut to it.
abbrev pub time_delta_max : ℕ
time_delta_max = (2 ^ 63 - 1) * 1000000

unfoldable pub is_session_stale : Str → (max_idle now : ℕ) → AuthManager → Bool
is_session_stale sid max_idle now m = elim (Dict.lookup sid m.sessions) [
  | some s ↦ ltb (s.last_activity + min max_idle time_delta_max) now
  | none ↦ true
]

-- The workspaces that the session owned are returned, and owned by nobody.
unfoldable pub remove_session : Str → AuthManager → AuthManager × List Uuid
remove_session sid m = (
  record m { sessions = Dict.remove sid m.sessions },
  elim (Dict.lookup sid m.sessions) [ some s ↦ s.workspaces | none ↦ [] ],
)

-- The keys of the sessions other than `keep`.
unfoldable pub stale_ids : Str → Dict Str Session → List Str
stale_ids keep [] = []
stale_ids keep ((j, s) ∷ rest) = let ids = stale_ids keep rest in if j == keep then ids else j ∷ ids

-- `for id in stale_ids { sessions.remove(&id); }`
unfoldable pub remove_all : List Str → Dict Str Session → Dict Str Session
remove_all [] sessions = sessions
remove_all (id ∷ ids) sessions = remove_all ids (Dict.remove id sessions)

unfoldable pub purge_stale_sessions : Str → AuthManager → AuthManager × ℕ
purge_stale_sessions keep m =
    let ids = stale_ids keep m.sessions in
    (record m { sessions = remove_all ids m.sessions }, length ids)
