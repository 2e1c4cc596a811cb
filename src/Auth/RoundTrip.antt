-- ===== src/Auth/RoundTrip.antt =====
-- Saving the ownership and restoring it at the next start (agentiso/src/mcp/auth.rs).
use agentiso.Prelude.{
  ◌≡◌, refl, true, false, ◌&&◌, ◌||◌, none, List, [], ◌∷◌, Str, ◌==◌, str_eq, str_beq_iff, nat_eq,
  nat_beq_iff, Bool-cases, inl, inr, arith, if◌then◌else◌,
}
use agentiso.Prelude.Dict.{Dict, lookup-insert}
use agentiso.Prelude.Dict
use agentiso.Prelude.Set.{contains-insert}
use agentiso.Prelude.Set
use agentiso.Auth.State.{
  Uuid, PersistedSession, SessionQuota, SessionUsage, no_usage, Session, AuthManager, new,
}
use agentiso.Auth.Persistence.{
  is_empty, export_from, export_sessions, Resources, restore_one, restore_owned, restored,
  restore_session, restore_sessions,
}
use agentiso.Auth.Ownership.{owns}

abbrev pub Restoring : Type 0
Restoring = List Uuid × SessionUsage

restore_one-contains :
    (res : Resources) (w v : Uuid) (acc : Restoring)
    → Set.contains v (restore_one res w acc).0
      ≡ ((w == v && Dict.contains_key v res) || Set.contains v acc.0)
unfolding restore_one
restore_one-contains res w v (set, usage) = ground (arith, nat_beq_iff w v, contains-insert w v set)

-- What is restored of a list of workspaces: those that still exist.
restore_owned-contains :
    (res : Resources) (ws : List Uuid) (v : Uuid) (acc : Restoring)
    → Set.contains v (restore_owned res ws acc).0
      ≡ ((Set.contains v ws && Dict.contains_key v res) || Set.contains v acc.0)
unfolding restore_owned Set.contains
restore_owned-contains res [] v acc = refl
restore_owned-contains res (w ∷ ws) v acc = ground (
  arith,
  restore_owned-contains res ws v (restore_one res w acc),
  restore_one-contains res w v acc,
)

is_empty-contains : (xs : List Uuid) (v : Uuid) → is_empty xs ≡ true → Set.contains v xs ≡ false
unfolding Set.contains
is_empty-contains [] v h = refl
is_empty-contains (x ∷ xs) v h = cc

-- One record restored under a key that is still free.
pub restore_session-owns :
    (res : Resources) (ps : PersistedSession) (n : AuthManager) (k : Str) (v : Uuid)
    → Dict.lookup ps.session_id n.sessions ≡ none
    → owns k v (restore_session res ps n) ≡ (
        if ps.session_id == k
        then Set.contains v ps.workspace_ids && Dict.contains_key v res
        else owns k v n)
unfolding restore_session owns Set.contains
restore_session-owns res ps n k v free =
    let owned : Restoring = restore_owned res ps.workspace_ids ([], no_usage) in
    ground (
      arith,
      free,
      str_beq_iff ps.session_id k,
      restore_owned-contains res ps.workspace_ids v ([], no_usage),
      is_empty-contains owned.0 v,
      lookup-insert ps.session_id k (restored ps n.default_quota owned) n.sessions,
    )

restore_session_free :
    (res : Resources) (ps : PersistedSession) (n : AuthManager) (j : Str)
    → (ps.session_id == j) ≡ false
    → Dict.lookup j n.sessions ≡ none
    → Dict.lookup j (restore_session res ps n).sessions ≡ none
unfolding restore_session
restore_session_free res ps n j ne free =
    let owned : Restoring = restore_owned res ps.workspace_ids ([], no_usage) in
    ground (arith, lookup-insert ps.session_id j (restored ps n.default_quota owned) n.sessions)

-- Every session stands under its own identifier.
abbrev pub HasOwnIds : Dict Str Session → Type 0
HasOwnIds [] = Unit
HasOwnIds ((j, s) ∷ l) = (s.id ≡ j) × HasOwnIds l

abbrev IsFree : Dict Str Session → AuthManager → Type 0
IsFree l n = (j : Str) → Dict.contains_key j l ≡ true → Dict.lookup j n.sessions ≡ none

IsFree-tail :
    (j : Str) (s : Session) (l : Dict Str Session) (n : AuthManager)
    → IsFree ((j, s) ∷ l) n
    → IsFree l n
unfolding Dict.lookup
IsFree-tail j s l n f k h = f k (ground arith)

IsFree-head :
    (j : Str) (s : Session) (l : Dict Str Session) (n : AuthManager)
    → IsFree ((j, s) ∷ l) n
    → Dict.lookup j n.sessions ≡ none
unfolding Dict.lookup
IsFree-head j s l n f = f j (ground (arith, str_beq_iff j j))

abbrev record_of : Session → PersistedSession
record_of s = record { session_id = s.id; workspace_ids = s.workspaces; created_at = s.created_at }

IsFree-restore :
    (res : Resources) (j : Str) (s : Session) (l : Dict Str Session) (n : AuthManager)
    → Dict.lookup j l ≡ none
    → s.id ≡ j
    → IsFree l n
    → IsFree l (restore_session res (record_of s) n)
IsFree-restore res j s l n fresh own f k h =
    restore_session_free res (record_of s) n k (ground (arith, str_beq_iff s.id k)) (f k h)

module _ (res : Resources) (k : Str) (v : Uuid) where
  export_from-restore :
      (l : Dict Str Session) (n : AuthManager)
      → Dict.IsDistinct l
      → HasOwnIds l
      → IsFree l n
      → owns k v (restore_sessions (export_from l) res n)
        ≡ ((owns k v (record n { sessions = l }) && Dict.contains_key v res) || owns k v n)
  unfolding export_from restore_sessions owns Dict.lookup
  export_from-restore [] n d own f = refl
  export_from-restore ((j, s) ∷ l) n d own f = elim (Bool-cases (is_empty s.workspaces)) [
    | inl none_owned ↦ rw none_owned (
        ground (
          arith,
          str_beq_iff j k,
          is_empty-contains s.workspaces v none_owned,
          export_from-restore l n d.1 own.1 (IsFree-tail j s l n f),
          d.0,
        ))
    | inr owning ↦
        let next : AuthManager = restore_session res (record_of s) n in
        rw owning (
          ground (
            arith,
            str_beq_iff j k,
            own.0,
            d.0,
            IsFree-head j s l n f,
            restore_session-owns res (record_of s) n k v,
            export_from-restore l next d.1 own.1
                (IsFree-restore res j s l n d.0 own.0 (IsFree-tail j s l n f)),
          ))
  ]

  -- After a restart, a session owns exactly those of its workspaces that still exist.
  pub export-restore :
      (quota : SessionQuota) (m : AuthManager)
      → Dict.IsDistinct m.sessions
      → HasOwnIds m.sessions
      → owns k v (restore_sessions (export_sessions m) res (new quota))
        ≡ (owns k v m && Dict.contains_key v res)
  unfolding export_sessions new owns Dict.lookup
  export-restore quota m d own =
      ground (arith, export_from-restore m.sessions (new quota) d own (λ j h. refl))
