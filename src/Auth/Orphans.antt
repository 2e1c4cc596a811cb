-- ===== src/Auth/Orphans.antt =====
-- Orphaned workspaces (agentiso/src/mcp/auth.rs).
use agentiso.Prelude.{
  ◌≡◌, refl, Bool, not, ◌&&◌, List, [], ◌∷◌, Str, nat_eq, nat_beq_iff, arith, keep,
}
use agentiso.Prelude.Dict.{Dict}
use agentiso.Prelude.Set
use agentiso.Auth.State.{Uuid, Session, AuthManager}
use agentiso.Auth.Workspaces.{some_owns, is_workspace_orphaned, all_owned, list_orphaned_workspaces}

contains-all_owned :
    (w : Uuid) (l : Dict Str Session) → Set.contains w (all_owned l) ≡ some_owns w l
unfolding all_owned some_owns Set.contains
contains-all_owned w [] = refl
contains-all_owned w ((j, s) ∷ l) =
    ground (arith, Set.contains-append w s.workspaces (all_owned l), contains-all_owned w l)

contains-keep :
    (w : Uuid) (p : Uuid → Bool) (xs : List Uuid)
    → Set.contains w (keep p xs) ≡ (p w && Set.contains w xs)
unfolding Set.contains
contains-keep w p [] = ground arith
contains-keep w p (x ∷ xs) = ground (arith, contains-keep w p xs, nat_beq_iff x w)

-- The list of orphans holds exactly the candidates that no session owns.
pub list_orphaned-contains :
    (w : Uuid) (candidates : List Uuid) (m : AuthManager)
    → Set.contains w (list_orphaned_workspaces candidates m)
      ≡ (is_workspace_orphaned w m && Set.contains w candidates)
unfolding list_orphaned_workspaces is_workspace_orphaned
list_orphaned-contains w candidates m = ground (
  arith,
  contains-keep w (λ v. not (Set.contains v (all_owned m.sessions))) candidates,
  contains-all_owned w m.sessions,
)
