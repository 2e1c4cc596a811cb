-- ===== src/Auth/Cases.antt =====
-- Case rules for the methods that change the state of `AuthManager` (agentiso/src/mcp/auth.rs):
-- what is left to show of the state after a call.
use agentiso.Prelude.{
  ℕ, ◌≡◌, refl, subst, ◌⊎◌, inl, inr, Bool, true, false, Option, some, Str, Result, ok, err, ◌==◌,
  str_eq, nat_eq, Bool-cases, Option-cases, arith,
}
use agentiso.Prelude.Dict.{lookup-insert, lookup-remove}
use agentiso.Prelude.Dict
use agentiso.Prelude.Set
use agentiso.Auth.State.{Uuid, Session, AuthError, AuthManager, put}
use agentiso.Auth.Workspaces.{
  quota_checks, take_on, give_up, register_in, register_workspace, unregister_workspace,
}
use agentiso.Auth.Adoption.{strip, current, adopt_into, previous_owner, adopt_workspace}

-- A statement of every session.
abbrev pub Every : (Session → Type 0) → AuthManager → Type 0
Every P m = (k : Str) (s : Session) → Dict.lookup k m.sessions ≡ some s → P s

module _ {P : Session → Type 0} where
  pub put-Every :
      (sid : Str) (s : Session) (m : AuthManager) → Every P m → P s → Every P (put sid s m)
  put-Every sid s m h p k t e = elim (Bool-cases (sid == k)) [
    | inl same ↦
        let found : s ≡ t = ground (arith, lookup-insert sid k s m.sessions) in subst P found p
    | inr other ↦ h k t (rw (lookup-insert sid k s m.sessions, other) at e)
  ]

  pub remove-Every :
      (sid : Str) (m : AuthManager)
      → Every P m
      → Every P (record m { sessions = Dict.remove sid m.sessions })
  remove-Every sid m h k t e = elim (Bool-cases (sid == k)) [
    | inl same ↦ absurd (ground (arith, lookup-remove sid k m.sessions))
    | inr other ↦ h k t (rw (lookup-remove sid k m.sessions, other) at e)
  ]

pub Result-cases {ℓ κ} :
    {E : Type κ} {A : Type ℓ} (r : Result E A) → ((a : A) × (r ≡ ok a)) ⊎ ((e : E) × (r ≡ err e))
Result-cases (ok a) = inl (a, refl)
Result-cases (err e) = inr (e, refl)

module _ {ℓ} (P : AuthManager × Result AuthError (Unit {0}) → Type ℓ) (sid : Str) (w : Uuid)
    (memory_mb disk_gb : ℕ) (m : AuthManager) where
  pub register_cases :
      ((e : AuthError) → P (m, err e))
      → ((s : Session)
          → Dict.lookup sid m.sessions ≡ some s
          → quota_checks s memory_mb disk_gb ≡ ok tt
          → P (put sid (take_on w memory_mb disk_gb s) m, ok tt))
      → P (register_workspace sid w memory_mb disk_gb m)
  unfolding register_workspace
  register_cases refused taken = elim (Option-cases (Dict.lookup sid m.sessions)) [
    | inl e ↦ rw (e, register_workspace) (refused _)
    | inr (s, e) ↦ elim (Result-cases (quota_checks s memory_mb disk_gb)) [
      | inl (u, q) ↦ rw (e, register_workspace) (rw (q, register_in) (taken s e q))
      | inr (x, q) ↦ rw (e, register_workspace) (rw (q, register_in) (refused x))
    ]
  ]

  pub unregister_cases :
      ((e : AuthError) → P (m, err e))
      → P (m, ok tt)
      → ((s : Session)
          → Dict.lookup sid m.sessions ≡ some s
          → Set.contains w s.workspaces ≡ true
          → P (put sid (give_up w memory_mb disk_gb s) m, ok tt))
      → P (unregister_workspace sid w memory_mb disk_gb m)
  unfolding unregister_workspace
  unregister_cases refused same given = elim (Option-cases (Dict.lookup sid m.sessions)) [
    | inl e ↦ rw (e, unregister_workspace) (refused _)
    | inr (s, e) ↦ elim (Bool-cases (Set.contains w s.workspaces)) [
      | inl q ↦ rw (e, q, unregister_workspace) (given s e q)
      | inr q ↦ rw (e, q, unregister_workspace) same
    ]
  ]

  pub adopt_cases :
      (force : Bool) (now : ℕ)
      → ((e : AuthError) → P (m, err e))
      → ((s : Session)
          → Dict.lookup sid m.sessions ≡ some s
          → Set.contains w s.workspaces ≡ true
          → (previous : Option Str) → previous_owner sid w force now m ≡ ok previous
          → P (m, ok tt))
      → ((s : Session)
          → Dict.lookup sid m.sessions ≡ some s
          → Set.contains w s.workspaces ≡ false
          → quota_checks s memory_mb disk_gb ≡ ok tt
          → (previous : Option Str) → previous_owner sid w force now m ≡ ok previous
          → let stripped = strip previous w memory_mb disk_gb m in
            P (put sid (take_on w memory_mb disk_gb (current sid s stripped)) stripped, ok tt))
      → P (adopt_workspace sid w memory_mb disk_gb force now m)
  unfolding adopt_workspace adopt_into
  adopt_cases force now refused owned taken = elim (Option-cases (Dict.lookup sid m.sessions)) [
    | inl e ↦ rw (e, adopt_workspace) (refused _)
    | inr (s, e) ↦ elim (Result-cases (previous_owner sid w force now m)) [
      | inr (x, p) ↦ rw (e, p, adopt_workspace) (refused x)
      | inl (previous, p) ↦ elim (Bool-cases (Set.contains w s.workspaces)) [
        | inl q ↦ rw (e, p, q, adopt_workspace, adopt_into) (owned s e q previous p)
        | inr q ↦ elim (Result-cases (quota_checks s memory_mb disk_gb)) [
          | inl (u, c) ↦ rw (e, p, q, c, adopt_workspace, adopt_into) (taken s e q c previous p)
          | inr (x, c) ↦ rw (e, p, q, c, adopt_workspace, adopt_into) (refused x)
        ]
      ]
    ]
  ]
