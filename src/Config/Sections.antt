-- ===== src/Config/Sections.antt =====
-- The configuration with its defaults (agentiso/src/config.rs): the sections that the validation
-- reads, and the whole.
use agentiso.Prelude.{ℕ, Bool, true, false, List, [], ◌∷◌, Str, codes}
use agentiso.Config.Services.{
  StorageConfig, VmConfig, ServerConfig, RateLimitConfig, McpBridgeConfig, DashboardConfig,
  default_storage, default_vm, default_server, default_rate_limit, default_mcp_bridge,
  default_dashboard,
}
use agentiso.Network.Ip.{Ipv4Addr}

pub record NetworkConfig : Type 0 where
  pub bridge_name : Str
  pub gateway_ip : Ipv4Addr
  pub subnet_prefix : ℕ  -- u8
  pub default_allow_internet : Bool
  pub default_allow_inter_vm : Bool
  pub dns_servers : List Str

abbrev pub default_dns_servers : List Str
default_dns_servers = codes "1.1.1.1" ∷ codes "8.8.8.8" ∷ []

abbrev pub default_network : NetworkConfig
default_network = record {
  bridge_name = codes "br-agentiso";
  gateway_ip = record { a = 10; b = 99; c = 0; d = 1 };
  subnet_prefix = 16;
  default_allow_internet = true;
  default_allow_inter_vm = false;
  dns_servers = default_dns_servers;
}

-- All numbers are u32.
pub record DefaultResourceLimits : Type 0 where
  pub default_vcpus : ℕ
  pub default_memory_mb : ℕ
  pub default_disk_gb : ℕ
  pub max_vcpus : ℕ
  pub max_memory_mb : ℕ
  pub max_disk_gb : ℕ
  pub max_workspaces : ℕ
  pub max_concurrent_forks : ℕ
  pub max_total_vms : ℕ
  pub max_vms_per_team : ℕ
  pub max_nesting_depth : ℕ
  pub cgroup_required : Bool
  pub max_snapshots_per_workspace : ℕ

abbrev pub default_resources : DefaultResourceLimits
default_resources = record {
  default_vcpus = 2;
  default_memory_mb = 512;
  default_disk_gb = 10;
  max_vcpus = 8;
  max_memory_mb = 8192;
  max_disk_gb = 100;
  max_workspaces = 50;
  max_concurrent_forks = 10;
  max_total_vms = 100;
  max_vms_per_team = 20;
  max_nesting_depth = 3;
  cgroup_required = false;
  max_snapshots_per_workspace = 20;
}

-- All numbers are usize.
pub record PoolConfig : Type 0 where
  pub enabled : Bool
  pub min_size : ℕ
  pub max_size : ℕ
  pub target_free : ℕ
  pub max_memory_mb : ℕ

abbrev pub default_pool : PoolConfig
default_pool = record {
  enabled = true;
  min_size = 2;
  max_size = 10;
  target_free = 2;
  max_memory_mb = 8192;
}

pub record VaultConfig : Type 0 where
  pub enabled : Bool
  pub path : Str
  pub extensions : List Str
  pub exclude_dirs : List Str

abbrev pub default_vault : VaultConfig
default_vault = record {
  enabled = false;
  path = codes "/mnt/vault";
  extensions = codes "md" ∷ [];
  exclude_dirs = codes ".obsidian" ∷ codes ".trash" ∷ codes ".git" ∷ [];
}

pub record Config : Type 0 where
  pub storage : StorageConfig
  pub network : NetworkConfig
  pub vm : VmConfig
  pub server : ServerConfig
  pub resources : DefaultResourceLimits
  pub pool : PoolConfig
  pub vault : VaultConfig
  pub rate_limit : RateLimitConfig
  pub mcp_bridge : McpBridgeConfig
  pub dashboard : DashboardConfig

abbrev pub default_config : Config
default_config = record {
  storage = default_storage;
  network = default_network;
  vm = default_vm;
  server = default_server;
  resources = default_resources;
  pool = default_pool;
  vault = default_vault;
  rate_limit = default_rate_limit;
  mcp_bridge = default_mcp_bridge;
  dashboard = default_dashboard;
}
