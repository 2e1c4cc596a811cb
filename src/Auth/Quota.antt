-- ===== src/Auth/Quota.antt =====
-- Quotas of the sessions (agentiso/src/mcp/auth.rs): the counters stay within them.
use agentiso.Prelude.{
  ℕ, ◌≤◌, ◌≡◌, refl, inl, inr, Bool, Option, none, some, List, [], ◌∷◌, Str, ok, str_eq, arith,
  Option-cases, Bool-cases,
}
use agentiso.Prelude.Dict
use agentiso.Auth.State.{
  Session, SessionQuota, PersistedSession, no_usage, AuthManager, put, register_session,
  touch_session, remove_session, stale_ids, remove_all, purge_stale_sessions,
}
use agentiso.Auth.Workspaces.{quota_checks, take_on, give_up, register_workspace, check_quota}
use agentiso.Auth.Adoption.{strip}
use agentiso.Auth.Tokens.{
  generate_bridge_token, revoke_bridge_token, revoke_bridge_tokens_for_workspace,
}
use agentiso.Auth.Persistence.{
  is_empty, Resources, restore_owned, restored, restore_session, restore_sessions,
}
use agentiso.Auth.History.{
  Call, registers_session, touches, removes_session, registers, unregisters, adopts, purges,
  generates_token, revokes_token, revokes_tokens_for, restores, step,
}
use agentiso.Auth.Owners.{previous_owner-Found, current-strip}
use agentiso.Auth.Cases.{
  Every, put-Every, remove-Every, register_cases, unregister_cases, adopt_cases,
}

-- No counter of the session passes its quota.
pub record IsWithinQuota (s : Session) : Type 0 where
  pub workspaces_within : s.usage.workspace_count ≤ s.quota.max_workspaces
  pub memory_within : s.usage.memory_mb ≤ s.quota.max_memory_mb
  pub disk_within : s.usage.disk_gb ≤ s.quota.max_disk_gb

-- What a session may take on when the checks pass. The sums wrap, as the code's do.
take_on-IsWithinQuota :
    (w mem disk : ℕ) (s : Session)
    → quota_checks s mem disk ≡ ok tt
    → IsWithinQuota (take_on w mem disk s)
unfolding quota_checks take_on
take_on-IsWithinQuota w mem disk s h = ground arith

give_up-IsWithinQuota :
    (w mem disk : ℕ) (s : Session) → IsWithinQuota s → IsWithinQuota (give_up w mem disk s)
unfolding give_up
give_up-IsWithinQuota w mem disk s h = ground arith

remove_all-Every :
    {P : Session → Type 0} (ids : List Str) (m : AuthManager)
    → Every P m
    → Every P (record m { sessions = remove_all ids m.sessions })
unfolding remove_all
remove_all-Every [] m h = h
remove_all-Every (id ∷ ids) m h =
    remove_all-Every ids (record m { sessions = Dict.remove id m.sessions }) (remove-Every id m h)

-- The session map has each key once, and every session is within its quota.
pub record IsValid (m : AuthManager) : Type 0 where
  pub distinct : Dict.IsDistinct m.sessions
  pub within : Every IsWithinQuota m

remove_all-IsDistinct :
    (ids : List Str) (l : Dict.Dict Str Session)
    → Dict.IsDistinct l
    → Dict.IsDistinct (remove_all ids l)
unfolding remove_all
remove_all-IsDistinct [] l d = d
remove_all-IsDistinct (id ∷ ids) l d =
    remove_all-IsDistinct ids (Dict.remove id l) (Dict.remove-IsDistinct id l d)

put-IsValid :
    (sid : Str) (s : Session) (m : AuthManager)
    → IsValid m
    → IsWithinQuota s
    → IsValid (put sid s m)
put-IsValid sid s m v h = record {
  distinct = Dict.insert-IsDistinct sid s m.sessions v.distinct;
  within = put-Every sid s m v.within h;
}

strip-IsValid :
    (previous : Option Str) (w mem disk : ℕ) (m : AuthManager)
    → IsValid m
    → IsValid (strip previous w mem disk m)
unfolding strip
strip-IsValid none w mem disk m v = v
strip-IsValid (some p) w mem disk m v = elim (Option-cases (Dict.lookup p m.sessions)) [
  | inl e ↦ rw (e, strip) v
  | inr (s, e) ↦
      rw (e, strip) (put-IsValid p _ m v (give_up-IsWithinQuota w mem disk s (v.within p s e)))
]

register_session-IsValid :
    (sid : Str) (now : ℕ) (m : AuthManager) → IsValid m → IsValid (register_session sid now m)
unfolding register_session
register_session-IsValid sid now m v = elim (Option-cases (Dict.lookup sid m.sessions)) [
  | inl e ↦ rw (e, register_session) (put-IsValid sid _ m v (ground arith))
  | inr (s, e) ↦ rw (e, register_session) v
]

touch_session-IsValid :
    (sid : Str) (now : ℕ) (m : AuthManager) → IsValid m → IsValid (touch_session sid now m)
unfolding touch_session
touch_session-IsValid sid now m v = elim (Option-cases (Dict.lookup sid m.sessions)) [
  | inl e ↦ rw (e, touch_session) v
  | inr (s, e) ↦
      let h : IsWithinQuota s = v.within sid s e in
      rw (e, touch_session) (put-IsValid sid _ m v (ground arith))
]

adopts-IsValid :
    (sid : Str) (w mem disk : ℕ) (force : Bool) (now : ℕ) (m : AuthManager)
    → IsValid m
    → IsValid (step (adopts sid w mem disk force now) m)
unfolding step
adopts-IsValid sid w mem disk force now m v =
    adopt_cases (λ r. IsValid r.0) sid w mem disk m force now (λ _. v) (λ _ _ _ _ _. v)
      λ s e owns q previous p.
        put-IsValid sid _ (strip previous w mem disk m) (strip-IsValid previous w mem disk m v) (
          rw
            (current-strip sid w mem disk m s previous e
              (previous_owner-Found sid w force now m previous v.distinct p))
            (take_on-IsWithinQuota w mem disk s q))

-- What a record restores is within the default quota: the workspaces of it that still exist, counted
-- and summed up as the restore does it.
abbrev pub Fits : Resources → SessionQuota → PersistedSession → Type 0
Fits resources quota ps =
    IsWithinQuota (restored ps quota (restore_owned resources ps.workspace_ids ([], no_usage)))

abbrev pub AllFit : Resources → SessionQuota → List PersistedSession → Type 0
AllFit resources quota [] = Unit
AllFit resources quota (ps ∷ persisted) = Fits resources quota ps × AllFit resources quota persisted

-- A restore is not checked against the quotas, so its records have to fit in them.
abbrev pub IsAffordable : Call → AuthManager → Type 0
IsAffordable (restores persisted resources) m = AllFit resources m.default_quota persisted
IsAffordable _ m = Unit

restore_session-IsValid :
    (resources : Resources) (ps : PersistedSession) (m : AuthManager)
    → Fits resources m.default_quota ps
    → IsValid m
    → IsValid (restore_session resources ps m)
      × ((restore_session resources ps m).default_quota ≡ m.default_quota)
unfolding restore_session
restore_session-IsValid resources ps m fits v =
    let owned = restore_owned resources ps.workspace_ids ([], no_usage) in
    elim (Bool-cases (is_empty owned.0)) [
      | inl gone ↦ rw (restore_session, gone) (v, refl)
      | inr some_left ↦ elim (Bool-cases (Dict.contains_key ps.session_id m.sessions)) [
        | inl taken ↦ rw (restore_session, some_left, taken) (v, refl)
        | inr free ↦
            rw (restore_session, some_left, free) (put-IsValid ps.session_id _ m v fits, refl)
      ]
    ]

restore_sessions-IsValid :
    (resources : Resources) (persisted : List PersistedSession) (m : AuthManager)
    → AllFit resources m.default_quota persisted
    → IsValid m
    → IsValid (restore_sessions persisted resources m)
unfolding restore_sessions
restore_sessions-IsValid resources [] m fit v = v
restore_sessions-IsValid resources (ps ∷ persisted) m fit v =
    let (valid, quota) = restore_session-IsValid resources ps m fit.0 v in
    restore_sessions-IsValid resources persisted (restore_session resources ps m) (rw quota fit.1)
      valid

-- Every call, in every valid state, leaves every session within its quota: also when sums wrap,
-- when a call fails, and for the session that loses a workspace. `restore_sessions`, which does not
-- check the quotas, does so if what each record restores is within the default quota.
pub step-IsValid : (c : Call) (m : AuthManager) → IsAffordable c m → IsValid m → IsValid (step c m)
unfolding step remove_session purge_stale_sessions generate_bridge_token revoke_bridge_token
    revoke_bridge_tokens_for_workspace
step-IsValid (registers_session sid now) m f v = register_session-IsValid sid now m v
step-IsValid (touches sid now) m f v = touch_session-IsValid sid now m v
step-IsValid (removes_session sid) m f v = record {
  distinct = Dict.remove-IsDistinct sid m.sessions v.distinct;
  within = remove-Every sid m v.within;
}
step-IsValid (registers sid w mem disk) m f v =
    register_cases (λ r. IsValid r.0) sid w mem disk m (λ _. v)
      λ s e q. put-IsValid sid _ m v (take_on-IsWithinQuota w mem disk s q)
step-IsValid (unregisters sid w mem disk) m f v =
    unregister_cases (λ r. IsValid r.0) sid w mem disk m (λ _. v) v
      λ s e o. put-IsValid sid _ m v (give_up-IsWithinQuota w mem disk s (v.within sid s e))
step-IsValid (adopts sid w mem disk force now) m f v = adopts-IsValid sid w mem disk force now m v
step-IsValid (purges keep) m f v = record {
  distinct = remove_all-IsDistinct (stale_ids keep m.sessions) m.sessions v.distinct;
  within = remove_all-Every (stale_ids keep m.sessions) m v.within;
}
step-IsValid (generates_token bytes sid w) m f v = record {
  distinct = v.distinct;
  within = v.within;
}
step-IsValid (revokes_token token) m f v = record { distinct = v.distinct; within = v.within }
step-IsValid (revokes_tokens_for w) m f v = record { distinct = v.distinct; within = v.within }
step-IsValid (restores persisted resources) m f v =
    restore_sessions-IsValid resources persisted m f v

-- `check_quota` says yes exactly when `register_workspace` would take the workspace, and gives the
-- same error otherwise.
pub check_quota-register :
    (sid : Str) (w mem disk : ℕ) (m : AuthManager)
    → (register_workspace sid w mem disk m).1 ≡ check_quota sid mem disk m
unfolding check_quota register_workspace
check_quota-register sid w mem disk m = ground arith
