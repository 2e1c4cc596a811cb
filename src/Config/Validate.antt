-- ===== src/Config/Validate.antt =====
-- `Config::validate` and `Config::load` of agentiso/src/config.rs. The standard library's parser of IPv4 addresses,
-- the test of a directory, reading a file and parsing TOML are parameters.
use agentiso.Prelude.{
  ℕ, suc, ◌+◌, Bool, true, false, not, ◌&&◌, List, [], ◌∷◌, Str, Result, ok, fail_if, ok_or, Option,
  ◌>>=◌, ◌>>◌, leb,
}
use agentiso.Prelude.Word.{u32}
use agentiso.Config.Sections.{NetworkConfig, DefaultResourceLimits, PoolConfig, VaultConfig, Config}

pub data ConfigError : Type 0 where
  max_vcpus_too_small max_memory_too_small max_disk_too_small max_workspaces_too_small : ConfigError
  bad_subnet_prefix no_dns_servers : ConfigError
  bad_dns_server : ℕ → Str → ConfigError
  min_size_above_max target_free_above_max : ConfigError
  too_many_vms : (max_size max_workspaces max_total_vms : ℕ) → ConfigError
  no_vault_directory : Str → ConfigError
  unreadable malformed : ConfigError

abbrev pub ensure : Bool → ConfigError → Result ConfigError (Unit {0})
ensure b e = fail_if (not b) e

abbrev pub is_empty : List Str → Bool
is_empty [] = true
is_empty (x ∷ xs) = false

unfoldable pub validate_resources : DefaultResourceLimits → Result ConfigError (Unit {0})
validate_resources r = do
  ensure (leb 1 r.max_vcpus) max_vcpus_too_small
  ensure (leb 64 r.max_memory_mb) max_memory_too_small
  ensure (leb 1 r.max_disk_gb) max_disk_too_small
  ensure (leb 1 r.max_workspaces) max_workspaces_too_small

-- `max_size as u32` cuts the number to 32 bits, and the sum wraps.
unfoldable pub validate_pool : PoolConfig → DefaultResourceLimits → Result ConfigError (Unit {0})
validate_pool p r = elim p.enabled [
  | false ↦ ok tt
  | true ↦ do
    ensure (leb p.min_size p.max_size) min_size_above_max
    ensure (leb p.target_free p.max_size) target_free_above_max
    ensure (leb (u32 (u32 p.max_size + r.max_workspaces)) r.max_total_vms)
        (too_many_vms p.max_size r.max_workspaces r.max_total_vms)
]

module _ (is_ipv4 : Str → Bool) (is_dir : Str → Bool) where
  unfoldable pub validate_dns : ℕ → List Str → Result ConfigError (Unit {0})
  validate_dns i [] = ok tt
  validate_dns i (dns ∷ rest) =
      let later = validate_dns (suc i) rest in ensure (is_ipv4 dns) (bad_dns_server i dns) >> later

  unfoldable pub validate_network : NetworkConfig → Result ConfigError (Unit {0})
  unfolding validate_dns
  validate_network n = do
    ensure (leb 8 n.subnet_prefix && leb n.subnet_prefix 30) bad_subnet_prefix
    ensure (not (is_empty n.dns_servers)) no_dns_servers
    validate_dns 0 n.dns_servers

  unfoldable pub validate_vault : VaultConfig → Result ConfigError (Unit {0})
  validate_vault v = elim v.enabled [
    | false ↦ ok tt
    | true ↦ ensure (is_dir v.path) (no_vault_directory v.path)
  ]

  unfoldable pub validate : Config → Result ConfigError (Unit {0})
  unfolding validate_resources validate_network validate_pool validate_vault
  validate c = do
    validate_resources c.resources
    validate_network c.network
    validate_pool c.pool c.resources
    validate_vault c.vault

  module _ (read_to_string : Str → Option Str) (from_toml : Str → Option Config) where
    unfoldable pub load : Str → Result ConfigError Config
    unfolding validate
    load path = do
      content ← ok_or (read_to_string path) unreadable
      config ← ok_or (from_toml content) malformed
      validate config
      ok config
