-- ===== src/Auth/Adoption.antt =====
-- `adopt_workspace` (agentiso/src/mcp/auth.rs): a session takes over an existing workspace.
use agentiso.Prelude.{
  ℕ, ◌+◌, ◌*◌, Bool, not, ◌&&◌, Option, none, some, [], ◌∷◌, Str, Result, ok, err, fail_if, ◌==◌,
  ltb, if◌then◌else◌, str_eq, nat_eq,
}
use agentiso.Prelude.Dict.{Dict}
use agentiso.Prelude.Dict
use agentiso.Prelude.Set
use agentiso.Auth.State.{Uuid, Session, AuthError, unknown_session, already_owned, AuthManager, put}
use agentiso.Auth.Workspaces.{quota_checks, take_on, give_up}

-- 60 seconds.
abbrev pub stale_threshold : ℕ
stale_threshold = 60 * 1000000000

-- The loop over the sessions: another owner stops it, unless `force` is set; then the last owner
-- met is kept.
unfoldable pub find_owner :
    Str → Uuid → (force : Bool) → Option Str → Dict Str Session → Result AuthError (Option Str)
find_owner sid w force previous [] = ok previous
find_owner sid w force previous ((j, s) ∷ rest) =
    let passed = find_owner sid w force previous rest in
    let forced = find_owner sid w force (some j) rest in
    if not (j == sid) && Set.contains w s.workspaces
    then (if force then forced else err (already_owned w j))
    else passed

-- A forced adoption is refused while the previous owner was active less than 60 seconds ago.
unfoldable pub check_idle :
    Option Str → Uuid → (now : ℕ) → AuthManager → Result AuthError (Unit {0})
check_idle none w now m = ok tt
check_idle (some p) w now m = elim (Dict.lookup p m.sessions) [
  | none ↦ ok tt
  | some s ↦ fail_if (ltb now (s.last_activity + stale_threshold)) (already_owned w p)
]

-- The previous owner loses the workspace.
unfoldable pub strip : Option Str → Uuid → (memory_mb disk_gb : ℕ) → AuthManager → AuthManager
strip none w memory_mb disk_gb m = m
strip (some p) w memory_mb disk_gb m = elim (Dict.lookup p m.sessions) [
  | none ↦ m
  | some s ↦ put p (give_up w memory_mb disk_gb s) m
]

-- `sessions.get_mut(session_id).unwrap()` after `strip`, which leaves the key in place; the
-- session read before stands in for the panic that cannot happen.
abbrev pub current : Str → Session → AuthManager → Session
current sid s m = elim (Dict.lookup sid m.sessions) [ none ↦ s | some t ↦ t ]

-- The tail of `adopt_workspace`, with the adopting session and the previous owner known.
unfoldable pub adopt_into :
    Str
    → Uuid
    → (memory_mb disk_gb : ℕ) → Option Str
    → Session
    → AuthManager
    → AuthManager × Result AuthError (Unit {0})
adopt_into sid w memory_mb disk_gb previous s m =
    let stripped = strip previous w memory_mb disk_gb m in
    if Set.contains w s.workspaces then (m, ok tt) else elim (quota_checks s memory_mb disk_gb) [
      | err e ↦ (m, err e)
      | ok _ ↦ (put sid (take_on w memory_mb disk_gb (current sid s stripped)) stripped, ok tt)
    ]

-- The checks that come before: the previous owner, if it may be stripped.
unfoldable pub previous_owner :
    Str → Uuid → (force : Bool) → (now : ℕ) → AuthManager → Result AuthError (Option Str)
previous_owner sid w force now m = elim (find_owner sid w force none m.sessions) [
  | err e ↦ err e
  | ok previous ↦ elim (check_idle previous w now m) [ err e ↦ err e | ok _ ↦ ok previous ]
]

unfoldable pub adopt_workspace :
    Str
    → Uuid
    → (memory_mb disk_gb : ℕ) → (force : Bool) → (now : ℕ) → AuthManager
    → AuthManager × Result AuthError (Unit {0})
adopt_workspace sid w memory_mb disk_gb force now m = elim (Dict.lookup sid m.sessions) [
  | none ↦ (m, err (unknown_session sid))
  | some s ↦ elim (previous_owner sid w force now m) [
    | err e ↦ (m, err e)
    | ok previous ↦ adopt_into sid w memory_mb disk_gb previous s m
  ]
]
