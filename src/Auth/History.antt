-- ===== src/Auth/History.antt =====
-- Histories of calls on `AuthManager` (agentiso/src/mcp/auth.rs). Each method holds the lock for
-- the whole of its work, so every interleaving of clients is a list of calls.
use agentiso.Prelude.{ℕ, Bool, List, [], ◌∷◌, Str}
use agentiso.Auth.State.{
  Uuid, PersistedSession, AuthManager, register_session, touch_session, remove_session,
  purge_stale_sessions,
}
use agentiso.Auth.Workspaces.{register_workspace, unregister_workspace}
use agentiso.Auth.Adoption.{adopt_workspace}
use agentiso.Auth.Persistence.{Resources, restore_sessions}
use agentiso.Auth.Tokens.{
  generate_bridge_token, revoke_bridge_token, revoke_bridge_tokens_for_workspace,
}

-- The methods that change the state.
pub data Call : Type 0 where
  registers_session : Str → (now : ℕ) → Call
  touches : Str → (now : ℕ) → Call
  removes_session : Str → Call
  registers : Str → Uuid → (memory_mb disk_gb : ℕ) → Call
  unregisters : Str → Uuid → (memory_mb disk_gb : ℕ) → Call
  adopts : Str → Uuid → (memory_mb disk_gb : ℕ) → (force : Bool) → (now : ℕ) → Call
  purges : Str → Call
  generates_token : List ℕ → Str → Uuid → Call
  revokes_token : Str → Call
  revokes_tokens_for : Uuid → Call
  restores : List PersistedSession → Resources → Call

unfoldable pub step : Call → AuthManager → AuthManager
step (registers_session sid now) m = register_session sid now m
step (touches sid now) m = touch_session sid now m
step (removes_session sid) m = (remove_session sid m).0
step (registers sid w memory_mb disk_gb) m = (register_workspace sid w memory_mb disk_gb m).0
step (unregisters sid w memory_mb disk_gb) m = (unregister_workspace sid w memory_mb disk_gb m).0
step (adopts sid w memory_mb disk_gb force now) m =
    (adopt_workspace sid w memory_mb disk_gb force now m).0
step (purges keep) m = (purge_stale_sessions keep m).0
step (generates_token bytes sid w) m = (generate_bridge_token bytes sid w m).0
step (revokes_token token) m = revoke_bridge_token token m
step (revokes_tokens_for w) m = revoke_bridge_tokens_for_workspace w m
step (restores persisted resources) m = restore_sessions persisted resources m

unfoldable pub run : List Call → AuthManager → AuthManager
run [] m = m
run (c ∷ cs) m = run cs (step c m)
