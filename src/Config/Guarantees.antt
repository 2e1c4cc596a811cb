-- ===== src/Config/Guarantees.antt =====
-- What a configuration that passes validation guarantees to the warm pool
-- (agentiso/src/config.rs, agentiso/src/workspace/pool.rs).
use agentiso.Prelude.{
  ℕ, suc, codes, ◌*◌, ◌+◌, ◌^◌, ◌≤◌, ◌<◌, ◌≡◌, Bool, true, Str, ok, length, arith,
}
use agentiso.Config.Sections.{Config, default_config, PoolConfig, DefaultResourceLimits}
use agentiso.Config.Validate.{validate, validate_pool}
use agentiso.Workspace.Pool.{VmPool, deficit}

module _ (is_ipv4 : Str → Bool) (is_dir : Str → Bool) (c : Config)
    (valid : validate is_ipv4 is_dir c ≡ ok tt) where
  -- A configuration with the pool enabled that passes validation lets the pool hold its target, and
  -- leaves room for the workspaces beside it, if the sum of both sizes fits a u32.
  pub validate-pool :
      c.pool.enabled ≡ true
      → c.pool.max_size + c.resources.max_workspaces < 2 ^ 32
      → (c.pool.min_size ≤ c.pool.max_size)
        × (c.pool.target_free ≤ c.pool.max_size)
        × (c.pool.max_size + c.resources.max_workspaces ≤ c.resources.max_total_vms)
  unfolding validate
  validate-pool on fits = ground arith

  target_fits : c.pool.enabled ≡ true → c.pool.target_free ≤ c.pool.max_size
  unfolding validate
  target_fits on = ground arith

  -- In a pool with such a configuration, adding the number of VMs that `deficit` asks for brings
  -- the pool to its target exactly, and never past the target if it is already there.
  pub deficit-fills :
      (pool : VmPool)
      → pool.config ≡ c.pool
      → c.pool.enabled ≡ true
      → c.pool.max_size < 2 ^ 64
      → length pool.ready ≤ c.pool.target_free
      → length pool.ready + deficit pool ≡ c.pool.target_free
  unfolding deficit
  deficit-fills pool same on small few =
      let fits : c.pool.target_free ≤ c.pool.max_size = target_fits on in ground arith

-- The configuration that the program starts with by default passes validation, if the parser of
-- addresses takes its two DNS servers.
pub default-validate :
    (is_ipv4 is_dir : Str → Bool)
    → is_ipv4 (codes "1.1.1.1") ≡ true
    → is_ipv4 (codes "8.8.8.8") ≡ true
    → validate is_ipv4 is_dir default_config ≡ ok tt
unfolding validate
default-validate is_ipv4 is_dir one eight = rw (one, eight)

-- A pool size that is a positive multiple of 2^32 passes the check of the total number of VMs,
-- though the pool and the workspaces together exceed it.
pub validate_pool_overflow :
    (p : PoolConfig) (r : DefaultResourceLimits) (k : ℕ)
    → p.enabled ≡ true
    → p.min_size ≤ p.max_size
    → p.target_free ≤ p.max_size
    → p.max_size ≡ suc k * 2 ^ 32
    → r.max_workspaces ≤ r.max_total_vms
    → r.max_total_vms < 2 ^ 32
    → (validate_pool p r ≡ ok tt) × (r.max_total_vms < p.max_size + r.max_workspaces)
unfolding validate_pool
validate_pool_overflow p r k on lo hi size few total = ground arith
