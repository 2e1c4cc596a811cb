-- ===== src/Config/Services.antt =====
-- The sections of the configuration that name files, ports and datasets, with their defaults, and
-- the dataset paths of agentiso/src/config.rs.
use agentiso.Prelude.{ℕ, Bool, true, false, Option, none, some, [], ◌++◌, Str, codes}

pub record StorageConfig : Type 0 where
  pub zfs_pool : Str
  pub dataset_prefix : Str
  pub base_image : Str
  pub base_snapshot : Str

abbrev pub default_storage : StorageConfig
default_storage = record {
  zfs_pool = codes "agentiso";
  dataset_prefix = codes "agentiso";
  base_image = codes "alpine-dev";
  base_snapshot = codes "latest";
}

unfoldable pub base_dataset : StorageConfig → Str
base_dataset s = s.zfs_pool ++ codes "/" ++ s.dataset_prefix ++ codes "/base/" ++ s.base_image

unfoldable pub base_snapshot_path : StorageConfig → Str
base_snapshot_path s = base_dataset s ++ codes "@" ++ s.base_snapshot

unfoldable pub workspaces_dataset : StorageConfig → Str
workspaces_dataset s = s.zfs_pool ++ codes "/" ++ s.dataset_prefix ++ codes "/workspaces"

unfoldable pub workspace_dataset : Str → StorageConfig → Str
workspace_dataset workspace_id s = workspaces_dataset s ++ codes "/ws-" ++ workspace_id

pub data InitMode : Type 0 where
  open_rc fast : InitMode

abbrev pub default_init_mode : InitMode
default_init_mode = open_rc

unfoldable pub display : InitMode → Str
display open_rc = codes "openrc"
display fast = codes "fast"

pub record VmConfig : Type 0 where
  pub kernel_path : Str
  pub initrd_path : Option Str
  pub qemu_binary : Str
  pub run_dir : Str
  pub kernel_append : Str
  pub vsock_cid_start : ℕ  -- u32
  pub guest_agent_port : ℕ  -- u32
  pub boot_timeout_secs : ℕ  -- u64
  pub init_mode : InitMode
  pub initrd_fast_path : Option Str

abbrev pub default_vm : VmConfig
default_vm = record {
  kernel_path = codes "/var/lib/agentiso/vmlinuz";
  initrd_path = some (codes "/var/lib/agentiso/initrd.img");
  qemu_binary = codes "qemu-system-x86_64";
  run_dir = codes "/run/agentiso";
  kernel_append = codes "console=ttyS0 root=/dev/vda rw quiet";
  vsock_cid_start = 100;
  guest_agent_port = 5000;
  boot_timeout_secs = 30;
  init_mode = default_init_mode;
  initrd_fast_path = none;
}

pub record ServerConfig : Type 0 where
  pub state_file : Str
  pub state_persist_interval_secs : ℕ  -- u64
  pub transfer_dir : Str

abbrev pub default_server : ServerConfig
default_server = record {
  state_file = codes "/var/lib/agentiso/state.json";
  state_persist_interval_secs = 30;
  transfer_dir = codes "/var/lib/agentiso/transfers";
}

-- All numbers are u32.
pub record RateLimitConfig : Type 0 where
  pub enabled : Bool
  pub create_per_minute : ℕ
  pub exec_per_minute : ℕ
  pub default_per_minute : ℕ
  pub team_message_per_minute : ℕ

abbrev pub default_team_message_per_minute : ℕ
default_team_message_per_minute = 300

abbrev pub default_rate_limit : RateLimitConfig
default_rate_limit = record {
  enabled = true;
  create_per_minute = 5;
  exec_per_minute = 60;
  default_per_minute = 120;
  team_message_per_minute = default_team_message_per_minute;
}

-- Ports are u16.
pub record McpBridgeConfig : Type 0 where
  pub enabled : Bool
  pub bind_addr : Str
  pub port : ℕ
  pub ollama_port : Option ℕ

abbrev pub default_mcp_bridge : McpBridgeConfig
default_mcp_bridge = record {
  enabled = false;
  bind_addr = codes "10.99.0.1";
  port = 3100;
  ollama_port = none;
}

pub record DashboardConfig : Type 0 where
  pub enabled : Bool
  pub bind_addr : Str
  pub port : ℕ
  pub admin_token : Str
  pub static_dir : Option Str

abbrev pub default_dashboard : DashboardConfig
default_dashboard = record {
  enabled = false;
  bind_addr = codes "127.0.0.1";
  port = 8080;
  admin_token = [];
  static_dir = none;
}
