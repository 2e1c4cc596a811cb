-- ===== src/Auth/Ownership.antt =====
-- Who owns a workspace after each call (agentiso/src/mcp/auth.rs).
use agentiso.Prelude.{
  ℕ, ◌≡◌, ◌↔◌, inl, inr, Bool, true, false, not, ◌&&◌, ◌||◌, Option, none, some, Str, ok, ◌==◌,
  str_eq, str_beq_iff, nat_eq, nat_beq_iff, Option-cases, arith, if◌then◌else◌,
}
use agentiso.Prelude.Dict.{lookup-insert, lookup-remove}
use agentiso.Prelude.Dict
use agentiso.Prelude.Set.{contains-insert, contains-remove}
use agentiso.Prelude.Set
use agentiso.Auth.State.{Uuid, Session, AuthManager, put}
use agentiso.Auth.Workspaces.{
  take_on, give_up, check_ownership, register_workspace, unregister_workspace,
}
use agentiso.Auth.Adoption.{strip, adopt_workspace}
use agentiso.Auth.Owners.{NoOther, Found, previous_owner-Found, current-strip}
use agentiso.Auth.Cases.{register_cases, adopt_cases}

-- The test that `check_ownership` makes, as a Boolean.
unfoldable pub owns : Str → Uuid → AuthManager → Bool
owns sid w m = elim (Dict.lookup sid m.sessions) [
  | none ↦ false
  | some s ↦ Set.contains w s.workspaces
]

pub check_ownership_iff :
    (sid : Str) (w : Uuid) (m : AuthManager)
    → (check_ownership sid w m ≡ ok tt) ↔ (owns sid w m ≡ true)
unfolding check_ownership owns
check_ownership_iff sid w m = ground arith

pub owns-put :
    (k sid : Str) (v : Uuid) (s : Session) (m : AuthManager)
    → owns k v (put sid s m) ≡ (if sid == k then Set.contains v s.workspaces else owns k v m)
unfolding owns
owns-put k sid v s m = ground (arith, lookup-insert sid k s m.sessions)

pub owns_found :
    (k : Str) (v : Uuid) (s : Session) (m : AuthManager)
    → Dict.lookup k m.sessions ≡ some s
    → owns k v m ≡ Set.contains v s.workspaces
unfolding owns
owns_found k v s m e = rw (e, owns)

-- No workspace has two owners.
abbrev pub IsExclusive : AuthManager → Type 0
IsExclusive m =
    (j k : Str) (w : Uuid) → check_ownership j w m ≡ ok tt → check_ownership k w m ≡ ok tt → j ≡ k

module _ (m : AuthManager) where
  pub owns_unique :
      IsExclusive m → (j k : Str) (w : Uuid) → owns j w m ≡ true → owns k w m ≡ true → j ≡ k
  owns_unique ex j k w p q =
      ex j k w ((check_ownership_iff j w m).1 p) ((check_ownership_iff k w m).1 q)

  module _ (sid : Str) (w : Uuid) (mem disk : ℕ) where
    NoOther-owns : (k : Str) → NoOther sid w m.sessions → (k == sid) ≡ false → owns k w m ≡ false
    unfolding owns
    NoOther-owns k nobody d = elim (Option-cases (Dict.lookup k m.sessions)) [
      | inl e ↦ rw (e, owns)
      | inr (s, e) ↦ rw (owns_found k w s m e) (nobody k s e d)
    ]

    -- Stripping takes the workspace from everybody but the adopting session, and nothing else.
    owns-strip :
        (q : Option Str)
        → IsExclusive m
        → Found sid w m.sessions none q
        → (k : Str) (v : Uuid)
        → owns k v (strip q w mem disk m)
          ≡ (if (w == v) && not (k == sid) then false else owns k v m)
    unfolding strip give_up
    owns-strip none ex (inr (p, x, o)) k v = absurd (cc)
    owns-strip none ex (inl (x, nobody)) k v =
        ground (arith, NoOther-owns k nobody, nat_beq_iff w v)
    owns-strip (some p) ex (inl (x, nobody)) k v = absurd (cc)
    owns-strip (some p) ex (inr (j, x, o)) k v =
        let was : owns j w m ≡ true = rw (owns_found j w o.session m o.found) o.owns in
        ground (
          arith,
          o.differs,
          o.found,
          owns_found j v o.session m o.found,
          owns-put k p v (give_up w mem disk o.session) m,
          owns_unique ex j k w was,
          str_beq_iff p k,
          nat_beq_iff w v,
          contains-remove w v o.session.workspaces,
        )

    -- After a registration that succeeds the session owns that workspace too, and nothing else
    -- changes hands.
    pub register_workspace-owns :
        (register_workspace sid w mem disk m).1 ≡ ok tt
        → (k : Str) (v : Uuid)
        → owns k v (register_workspace sid w mem disk m).0 ≡ ((sid == k && w == v) || owns k v m)
    unfolding take_on
    register_workspace-owns =
        register_cases
          (λ r.
            r.1 ≡ ok tt
            → (k : Str) (v : Uuid) → owns k v r.0 ≡ ((sid == k && w == v) || owns k v m))
          sid w mem disk m (λ e h. cc)
          λ s e q h k v. ground (
            arith,
            str_beq_iff sid k,
            owns_found sid v s m e,
            owns-put k sid v (take_on w mem disk s) m,
            contains-insert w v s.workspaces,
          )

    -- A session that gives up a workspace no longer owns it, and nothing else changes hands.
    pub unregister_workspace-owns :
        (unregister_workspace sid w mem disk m).1 ≡ ok tt
        → (k : Str) (v : Uuid)
        → owns k v (unregister_workspace sid w mem disk m).0
          ≡ (if sid == k && w == v then false else owns k v m)
    unfolding unregister_workspace give_up
    unregister_workspace-owns h k v = elim (Option-cases (Dict.lookup sid m.sessions)) [
      | inl e ↦ absurd (ground arith)
      | inr (s, e) ↦ ground (
        arith,
        str_beq_iff sid k,
        nat_beq_iff w v,
        owns_found sid v s m e,
        owns-put k sid v (give_up w mem disk s) m,
        contains-remove w v s.workspaces,
      )
    ]

    -- After an adoption that succeeds the session is the only owner of the workspace, and no other
    -- workspace changes hands.
    pub adopt_workspace-owns :
        (force : Bool) (now : ℕ)
        → Dict.IsDistinct m.sessions
        → IsExclusive m
        → (adopt_workspace sid w mem disk force now m).1 ≡ ok tt
        → (k : Str) (v : Uuid)
        → owns k v (adopt_workspace sid w mem disk force now m).0
          ≡ (if w == v then sid == k else owns k v m)
    unfolding take_on
    adopt_workspace-owns force now d ex =
        adopt_cases
          (λ r.
            r.1 ≡ ok tt
            → (k : Str) (v : Uuid) → owns k v r.0 ≡ (if w == v then sid == k else owns k v m))
          sid w mem disk m force now (λ e h. cc)
          (λ s e o q f h k v. ground (
            arith,
            str_beq_iff sid k,
            nat_beq_iff w v,
            owns_found sid v s m e,
            owns_unique ex sid k w (rw (owns_found sid w s m e) o),
          ))
          λ s e o c q f h k v.
            let found : Found sid w m.sessions none q =
              previous_owner-Found sid w force now m q d f in
            rw (current-strip sid w mem disk m s q e found) (
              ground (
                arith,
                str_beq_iff sid k,
                str_beq_iff k sid,
                nat_beq_iff w v,
                owns_found sid v s m e,
                owns-put k sid v (take_on w mem disk s) (strip q w mem disk m),
                owns-strip q ex found k v,
                contains-insert w v s.workspaces,
              ))
