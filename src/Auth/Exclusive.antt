-- ===== src/Auth/Exclusive.antt =====
-- No workspace gets a second owner (agentiso/src/mcp/auth.rs).
use agentiso.Prelude.{
  ℕ, ◌⊎◌, ◌≡◌, refl, inl, inr, Bool, true, List, [], ◌∷◌, Str, err, str_eq, str_beq_iff, nat_eq,
  nat_beq_iff, Option-cases, arith,
}
use agentiso.Prelude.Dict.{lookup-insert, lookup-remove}
use agentiso.Prelude.Dict
use agentiso.Prelude.Set
use agentiso.Auth.State.{
  Uuid, PersistedSession, AuthError, AuthManager, new_session, register_session, touch_session,
  remove_session, remove_all, stale_ids, purge_stale_sessions,
}
use agentiso.Auth.Workspaces.{register_workspace, unregister_workspace}
use agentiso.Auth.Adoption.{adopt_workspace}
use agentiso.Auth.Tokens.{
  generate_bridge_token, revoke_bridge_token, revoke_bridge_tokens_for_workspace,
}
use agentiso.Auth.Persistence.{Resources, restore_session, restore_sessions}
use agentiso.Auth.RoundTrip.{restore_session-owns}
use agentiso.Auth.History.{
  Call, registers_session, touches, removes_session, registers, unregisters, adopts, purges,
  generates_token, revokes_token, revokes_tokens_for, restores, step,
}
use agentiso.Auth.Cases.{Result-cases, register_cases, unregister_cases, adopt_cases}
use agentiso.Auth.Quota.{IsValid}
use agentiso.Auth.Ownership.{
  owns, check_ownership_iff, owns-put, owns_found, IsExclusive, register_workspace-owns,
  unregister_workspace-owns, adopt_workspace-owns, owns_unique,
}

-- Every ownership of the second state is one of the first.
abbrev Shrinks : AuthManager → AuthManager → Type 0
Shrinks m n = (k : Str) (w : Uuid) → owns k w n ≡ true → owns k w m ≡ true

Shrinks-IsExclusive : (m n : AuthManager) → Shrinks m n → IsExclusive m → IsExclusive n
Shrinks-IsExclusive m n sh ex j k w p q =
    ex j k w ((check_ownership_iff j w m).1 (sh j w ((check_ownership_iff j w n).0 p)))
      ((check_ownership_iff k w m).1 (sh k w ((check_ownership_iff k w n).0 q)))

remove-Shrinks :
    (sid : Str) (m : AuthManager) → Shrinks m (record m { sessions = Dict.remove sid m.sessions })
unfolding owns
remove-Shrinks sid m k w h = ground (arith, lookup-remove sid k m.sessions)

remove_all-Shrinks :
    (ids : List Str) (m : AuthManager)
    → Shrinks m (record m { sessions = remove_all ids m.sessions })
unfolding remove_all
remove_all-Shrinks [] m k w h = h
remove_all-Shrinks (id ∷ ids) m k w h =
    remove-Shrinks id m k w
      (remove_all-Shrinks ids (record m { sessions = Dict.remove id m.sessions }) k w h)

register_session-Shrinks :
    (sid : Str) (now : ℕ) (m : AuthManager) → Shrinks m (register_session sid now m)
unfolding register_session Set.contains
register_session-Shrinks sid now m k w h =
    ground (arith, owns-put k sid w (new_session sid m.default_quota now) m)

touch_session-Shrinks :
    (sid : Str) (now : ℕ) (m : AuthManager) → Shrinks m (touch_session sid now m)
unfolding touch_session
touch_session-Shrinks sid now m k w h = elim (Option-cases (Dict.lookup sid m.sessions)) [
  | inl e ↦ rw (e, touch_session) at h
  | inr (s, e) ↦ ground (
    arith,
    owns-put k sid w (record s { last_activity = now }) m,
    str_beq_iff sid k,
    owns_found sid w s m e,
  )
]

-- A record lists a workspace.
abbrev Lists : PersistedSession → Uuid → Type 0
Lists ps w = Set.contains w ps.workspace_ids ≡ true

-- Two records of different sessions list no workspace in common.
abbrev pub AllApart : PersistedSession → List PersistedSession → Type 0
AllApart ps [] = Unit
AllApart ps (qs ∷ persisted) =
    ((w : Uuid) → Lists ps w → Lists qs w → ps.session_id ≡ qs.session_id) × AllApart ps persisted

-- What a record lists is not another session's, nor on the list of another session's record.
abbrev pub Apart : List PersistedSession → AuthManager → Type 0
Apart [] m = Unit
Apart (ps ∷ persisted) m =
    ((k : Str) (w : Uuid) → owns k w m ≡ true → Lists ps w → k ≡ ps.session_id)
    × AllApart ps persisted
    × Apart persisted m

-- A call registers a workspace only under a UUID that no other session owns: UUIDs are fresh. The
-- records that are restored give no workspace a second owner.
abbrev pub IsFresh : Call → AuthManager → Type 0
IsFresh (registers sid w mem disk) m = (k : Str) → owns k w m ≡ true → k ≡ sid
IsFresh (restores persisted resources) m = Apart persisted m
IsFresh _ m = Unit

-- From a statement of the Boolean test.
of_owns :
    (m : AuthManager)
    → ((j k : Str) (w : Uuid) → owns j w m ≡ true → owns k w m ≡ true → j ≡ k)
    → IsExclusive m
of_owns m h j k w p q = h j k w ((check_ownership_iff j w m).0 p) ((check_ownership_iff k w m).0 q)

-- Restoring a record gives its session workspaces of its list, at most.
restore_session-owns_only :
    (resources : Resources) (ps : PersistedSession) (m : AuthManager) (k : Str) (w : Uuid)
    → owns k w (restore_session resources ps m) ≡ true
    → (owns k w m ≡ true) ⊎ ((ps.session_id ≡ k) × Lists ps w)
unfolding restore_session
restore_session-owns_only resources ps m k w h =
    elim (Option-cases (Dict.lookup ps.session_id m.sessions)) [
      | inl free ↦
          ground (arith, restore_session-owns resources ps m k w free, str_beq_iff ps.session_id k)
      | inr (s, taken) ↦ inl (ground (arith, taken))
    ]

Apart-restore :
    (resources : Resources) (ps : PersistedSession) (persisted : List PersistedSession)
    (m : AuthManager)
    → AllApart ps persisted
    → Apart persisted m
    → Apart persisted (restore_session resources ps m)
Apart-restore resources ps [] m all apart = tt
Apart-restore resources ps (qs ∷ persisted) m all apart = (
  λ k w h lists. elim (restore_session-owns_only resources ps m k w h) [
    | inl before ↦ apart.0 k w before lists
    | inr (same, listed) ↦ rw (← same) (all.0 w listed lists)
  ],
  apart.1,
  Apart-restore resources ps persisted m all.1 apart.2,
)

restore_session-IsExclusive :
    (resources : Resources) (ps : PersistedSession) (m : AuthManager)
    → ((k : Str) (w : Uuid) → owns k w m ≡ true → Lists ps w → k ≡ ps.session_id)
    → IsExclusive m
    → IsExclusive (restore_session resources ps m)
restore_session-IsExclusive resources ps m own ex = of_owns _ λ j k w p q. ground (
  arith,
  restore_session-owns_only resources ps m j w p,
  restore_session-owns_only resources ps m k w q,
  own j w,
  own k w,
  owns_unique m ex j k w,
)

restore_sessions-IsExclusive :
    (resources : Resources) (persisted : List PersistedSession) (m : AuthManager)
    → Apart persisted m
    → IsExclusive m
    → IsExclusive (restore_sessions persisted resources m)
unfolding restore_sessions
restore_sessions-IsExclusive resources [] m apart ex = ex
restore_sessions-IsExclusive resources (ps ∷ persisted) m apart ex =
    restore_sessions-IsExclusive resources persisted (restore_session resources ps m)
      (Apart-restore resources ps persisted m apart.1 apart.2)
      (restore_session-IsExclusive resources ps m apart.0 ex)

module _ (sid : Str) (w mem disk : ℕ) (m : AuthManager) where
  register_error_unchanged :
      (e : AuthError)
      → (register_workspace sid w mem disk m).1 ≡ err e
      → (register_workspace sid w mem disk m).0 ≡ m
  register_error_unchanged e =
      register_cases (λ r. r.1 ≡ err e → r.0 ≡ m) sid w mem disk m (λ _ _. refl)
        (λ s f q h. absurd (cc))

  unregister_error_unchanged :
      (e : AuthError)
      → (unregister_workspace sid w mem disk m).1 ≡ err e
      → (unregister_workspace sid w mem disk m).0 ≡ m
  unregister_error_unchanged e =
      unregister_cases (λ r. r.1 ≡ err e → r.0 ≡ m) sid w mem disk m (λ _ _. refl) (λ _. refl)
        (λ s f q h. absurd (cc))

  -- An adoption that is refused leaves the manager as it was: in particular the previous owner
  -- keeps the workspace when the quota of the adopting session is exceeded.
  pub adopt_error_unchanged :
      (force : Bool) (now : ℕ) (e : AuthError)
      → (adopt_workspace sid w mem disk force now m).1 ≡ err e
      → (adopt_workspace sid w mem disk force now m).0 ≡ m
  adopt_error_unchanged force now e =
      adopt_cases (λ r. r.1 ≡ err e → r.0 ≡ m) sid w mem disk m force now (λ _ _. refl)
        (λ s f q p h x. refl) (λ s f q c p h x. absurd (cc))

  registers-IsExclusive :
      ((k : Str) → owns k w m ≡ true → k ≡ sid)
      → IsExclusive m
      → IsExclusive (register_workspace sid w mem disk m).0
  registers-IsExclusive fresh ex = elim (Result-cases (register_workspace sid w mem disk m).1) [
    | inr (e, r) ↦ rw (register_error_unchanged e r) ex
    | inl (u, r) ↦ of_owns _ λ j k v p q. ground (
      arith,
      str_beq_iff sid j,
      str_beq_iff sid k,
      nat_beq_iff w v,
      register_workspace-owns m sid w mem disk r j v,
      register_workspace-owns m sid w mem disk r k v,
      fresh j,
      fresh k,
      owns_unique m ex j k v,
    )
  ]

  unregisters-IsExclusive : IsExclusive m → IsExclusive (unregister_workspace sid w mem disk m).0
  unregisters-IsExclusive ex = elim (Result-cases (unregister_workspace sid w mem disk m).1) [
    | inr (e, r) ↦ rw (unregister_error_unchanged e r) ex
    | inl (u, r) ↦
        Shrinks-IsExclusive m _
          (λ k v h. ground (arith, unregister_workspace-owns m sid w mem disk r k v)) ex
  ]

  adopts-IsExclusive :
      (force : Bool) (now : ℕ)
      → Dict.IsDistinct m.sessions
      → IsExclusive m
      → IsExclusive (adopt_workspace sid w mem disk force now m).0
  adopts-IsExclusive force now d ex =
      elim (Result-cases (adopt_workspace sid w mem disk force now m).1) [
        | inr (e, r) ↦ rw (adopt_error_unchanged force now e r) ex
        | inl (u, r) ↦ of_owns _ λ j k v p q. ground (
          arith,
          str_beq_iff sid j,
          str_beq_iff sid k,
          adopt_workspace-owns m sid w mem disk force now d ex r j v,
          adopt_workspace-owns m sid w mem disk force now d ex r k v,
          owns_unique m ex j k v,
        )
      ]

-- Every call, in every valid state, keeps each workspace with one owner at most, if what it registers
-- is not owned by another session and, for `restore_sessions`, if no workspace in a record is in the
-- record of another session or owned by another session.
pub step-IsExclusive :
    (c : Call) (m : AuthManager) → IsFresh c m → IsValid m → IsExclusive m → IsExclusive (step c m)
unfolding step remove_session purge_stale_sessions generate_bridge_token revoke_bridge_token
    revoke_bridge_tokens_for_workspace
step-IsExclusive (registers_session sid now) m f v ex =
    Shrinks-IsExclusive m _ (register_session-Shrinks sid now m) ex
step-IsExclusive (touches sid now) m f v ex =
    Shrinks-IsExclusive m _ (touch_session-Shrinks sid now m) ex
step-IsExclusive (removes_session sid) m f v ex = Shrinks-IsExclusive m _ (remove-Shrinks sid m) ex
step-IsExclusive (registers sid w mem disk) m f v ex = registers-IsExclusive sid w mem disk m f ex
step-IsExclusive (unregisters sid w mem disk) m f v ex = unregisters-IsExclusive sid w mem disk m ex
step-IsExclusive (adopts sid w mem disk force now) m f v ex =
    adopts-IsExclusive sid w mem disk m force now v.distinct ex
step-IsExclusive (purges keep) m f v ex =
    Shrinks-IsExclusive m _ (remove_all-Shrinks (stale_ids keep m.sessions) m) ex
step-IsExclusive (generates_token bytes sid w) m f v ex =
    Shrinks-IsExclusive m _ (unfold owns in λ k v h. h) ex
step-IsExclusive (revokes_token token) m f v ex =
    Shrinks-IsExclusive m _ (unfold owns in λ k v h. h) ex
step-IsExclusive (revokes_tokens_for w) m f v ex =
    Shrinks-IsExclusive m _ (unfold owns in λ k v h. h) ex
step-IsExclusive (restores persisted resources) m f v ex =
    restore_sessions-IsExclusive resources persisted m f ex
