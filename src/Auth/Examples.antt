-- ===== src/Auth/Examples.antt =====
-- Two sessions and one workspace: the methods of `AuthManager` at concrete inputs.
use agentiso.Prelude.{
  ℕ, ◌≡◌, refl, ◌≢◌, true, false, ◌&&◌, some, List, [], ◌∷◌, Str, codes, ok, err, str_eq, nat_eq,
  str_beq, arith,
}
use agentiso.Prelude.Dict
use agentiso.Prelude.Set
use agentiso.Auth.State.{
  Session, default_quota, AuthManager, already_owned, quota_exceeded, new, register_session,
}
use agentiso.Auth.Workspaces.{
  memory_resource, register_workspace, unregister_workspace, check_quota, is_workspace_orphaned,
  list_orphaned_workspaces, check_ownership, quota_checks, take_on,
}
use agentiso.Auth.Adoption.{
  adopt_workspace, find_owner, check_idle, previous_owner, strip, adopt_into,
}
use agentiso.Auth.Tokens.{
  generate_bridge_token, validate_bridge_token, token_of, revoke_bridge_tokens_for_workspace,
}
use agentiso.Auth.Persistence.{Resources, export_sessions, restore_sessions}
use agentiso.Auth.History.{registers, adopts, step}
use agentiso.Auth.Quota.{IsValid, step-IsValid}
use agentiso.Auth.Ownership.{owns, IsExclusive, adopt_workspace-owns}
use agentiso.Auth.Exclusive.{step-IsExclusive}
use agentiso.Auth.Refusals.{adopt_active_refused, adopt_unforced_refused}
use agentiso.Auth.TokenLaws.{generate-validate, revoke-validate}
use agentiso.Auth.Orphans.{list_orphaned-contains}
use agentiso.Auth.RoundTrip.{export-restore}

abbrev alice : Str
alice = codes "alice"

abbrev bob : Str
bob = codes "bob"

-- 100 seconds after the epoch.
abbrev later : ℕ
later = 100000000000

abbrev empty : AuthManager
empty = record { sessions = []; default_quota = default_quota; bridge_tokens = [] }

abbrev session : Str → List ℕ → ℕ → ℕ → ℕ → Session
session id owned count mem disk = record {
  id = id;
  created_at = 1;
  last_activity = 1;
  workspaces = owned;
  quota = default_quota;
  usage = record { workspace_count = count; memory_mb = mem; disk_gb = disk };
}

abbrev idle : AuthManager
idle = record empty {
  sessions = (alice, session alice [] 0 0 0) ∷ (bob, session bob [] 0 0 0) ∷ [];
}

-- Alice owns workspace 7.
abbrev busy : AuthManager
busy = record empty {
  sessions = (alice, session alice (7 ∷ []) 1 512 10) ∷ (bob, session bob [] 0 0 0) ∷ [];
}

program : Unit {0}
unfolding step register_session register_workspace unregister_workspace adopt_workspace find_owner
    check_idle previous_owner strip adopt_into Dict.lookup Dict.insert Dict.remove Set.contains
    Set.insert Set.remove str_beq new owns check_ownership quota_checks take_on check_quota
program = tt

busy_steps : step (registers alice 7 512 10) idle ≡ busy
unfolding program
busy_steps = refl

idle-IsValid : IsValid idle
unfolding program
idle-IsValid = record { distinct = (refl, (refl, tt)); within = λ k s e. ground arith }

idle-IsExclusive : IsExclusive idle
unfolding program
idle-IsExclusive j k w p q = ground arith

busy-IsValid : IsValid busy
unfolding program
busy-IsValid = step-IsValid (registers alice 7 512 10) idle tt idle-IsValid

busy-IsExclusive : IsExclusive busy
unfolding program
busy-IsExclusive =
    step-IsExclusive (registers alice 7 512 10) idle (λ k h. ground arith) idle-IsValid
      idle-IsExclusive

step-IsValid_example : IsValid (step (registers alice 7 512 10) idle)
step-IsValid_example = step-IsValid (registers alice 7 512 10) idle tt idle-IsValid

check_quota_denied :
    check_quota alice 16000 1 busy ≡ err (quota_exceeded memory_resource 16384 512 16000)
unfolding program
check_quota_denied = refl

-- Bob takes workspace 7 over from alice, who has been idle for a minute and more.
adopted : (adopt_workspace bob 7 512 10 true later busy).1 ≡ ok tt
unfolding program
adopted = refl

step-IsExclusive_example : IsExclusive (step (adopts bob 7 512 10 true later) busy)
step-IsExclusive_example =
    step-IsExclusive (adopts bob 7 512 10 true later) busy tt busy-IsValid busy-IsExclusive

adopt_workspace-owns_example : owns alice 7 (adopt_workspace bob 7 512 10 true later busy).0 ≡ false
unfolding program
adopt_workspace-owns_example =
    adopt_workspace-owns busy bob 7 512 10 true later busy-IsValid.distinct busy-IsExclusive adopted
      alice 7

-- Half a minute after alice's last call she keeps it.
adopt_active_refused_example :
    adopt_workspace bob 7 512 10 true 30000000000 busy ≡ (busy, err (already_owned 7 alice))
unfolding program
adopt_active_refused_example =
    adopt_active_refused bob alice 7 512 10 30000000000 (session bob [] 0 0 0)
      (session alice (7 ∷ []) 1 512 10) busy busy-IsValid.distinct busy-IsExclusive refl refl refl
      (λ e. cc) (omega arith)

adopt_unforced_refused_example :
    adopt_workspace bob 7 512 10 false later busy ≡ (busy, err (already_owned 7 alice))
unfolding program
adopt_unforced_refused_example =
    adopt_unforced_refused bob alice 7 512 10 later (session bob [] 0 0 0)
      (session alice (7 ∷ []) 1 512 10) busy busy-IsValid.distinct busy-IsExclusive refl refl refl
      (λ e. cc)

-- Bob's quota has no room for 20,000 MB, and alice keeps the workspace.

generate-validate_example :
    let (n, token) = generate_bridge_token (10 ∷ 255 ∷ []) alice 7 busy in
    (validate_bridge_token token n ≡ some (alice, 7))
    × (validate_bridge_token (token_of (11 ∷ [])) n
        ≡ validate_bridge_token (token_of (11 ∷ [])) busy)
generate-validate_example =
    generate-validate (10 ∷ 255 ∷ []) (11 ∷ []) alice 7 busy (omega arith) (omega arith) (λ e. cc)

abbrev tokens : AuthManager
tokens = record busy {
  bridge_tokens = (codes "mcp-0a", (alice, 7)) ∷ (codes "mcp-0b", (bob, 8)) ∷ [];
}

revoke-validate_example :
    (validate_bridge_token (codes "mcp-0b") (revoke_bridge_tokens_for_workspace 7 tokens)
      ≢ some (bob, 7))
    × (◌≢◌ {A = ℕ} 8 7
        → validate_bridge_token (codes "mcp-0b") tokens ≡ some (bob, 8)
        → validate_bridge_token (codes "mcp-0b") (revoke_bridge_tokens_for_workspace 7 tokens)
          ≡ some (bob, 8))
unfolding program
revoke-validate_example = revoke-validate 7 8 (codes "mcp-0b") bob tokens (refl, (refl, tt))

list_orphaned-contains_example :
    Set.contains 8 (list_orphaned_workspaces (7 ∷ 8 ∷ []) busy)
    ≡ (is_workspace_orphaned 8 busy && Set.contains {A = ℕ} 8 (7 ∷ 8 ∷ []))
list_orphaned-contains_example = list_orphaned-contains 8 (7 ∷ 8 ∷ []) busy

abbrev resources : Resources
resources = (7, (512, 10)) ∷ []

export-restore_example :
    owns alice 7 (restore_sessions (export_sessions busy) resources (new default_quota))
    ≡ (owns alice 7 busy && Dict.contains_key 7 resources)
export-restore_example =
    export-restore resources alice 7 default_quota busy busy-IsValid.distinct (refl, (refl, tt))
