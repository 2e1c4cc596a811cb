-- ===== src/Config/Examples.antt =====
-- The validation at concrete configurations.
use agentiso.Prelude.{
  ◌+◌, ◌^◌, ◌≤◌, ◌<◌, ◌≡◌, refl, Bool, true, false, [], Str, str_eq, codes, ok, arith,
}
use agentiso.Config.Sections.{PoolConfig, default_config, default_pool, default_resources}
use agentiso.Config.Validate.{validate, validate_pool}
use agentiso.Config.Guarantees.{validate-pool, default-validate, validate_pool_overflow}
use agentiso.Config.Services.{default_storage, workspaces_dataset, workspace_dataset}
use agentiso.Workspace.Pool.{VmPool}

-- A parser of addresses that takes every text, and no directories.
abbrev all_ipv4 : Str → Bool
all_ipv4 s = true

abbrev no_dir : Str → Bool
no_dir s = false

default_config_valid : validate all_ipv4 no_dir default_config ≡ ok tt
default_config_valid = default-validate all_ipv4 no_dir refl refl

validate-pool_example : (2 ≤ 10) × (2 ≤ 10) × (10 + 50 ≤ 100)
validate-pool_example =
    validate-pool all_ipv4 no_dir default_config default_config_valid refl (omega arith)

abbrev empty_pool : VmPool
empty_pool = record { ready = []; config = default_pool }

abbrev huge_pool : PoolConfig
huge_pool = record default_pool { max_size = 2 ^ 32 }

validate_pool_overflow_example :
    (validate_pool huge_pool default_resources ≡ ok tt) × (100 < 2 ^ 32 + 50)
validate_pool_overflow_example =
    validate_pool_overflow huge_pool default_resources 0 refl (omega arith) (omega arith) refl
      (omega arith) (omega arith)

dataset_example :
    workspace_dataset (codes "0a1b") default_storage ≡ codes "agentiso/agentiso/workspaces/ws-0a1b"
unfolding workspaces_dataset workspace_dataset
dataset_example = refl
