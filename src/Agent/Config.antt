-- ===== src/Agent/Config.antt =====
-- agent/internal/process/manager.go: the configuration of the process manager, without its clock
-- and its source of names. A number that is not positive reads as 0.
pub mod Limits
use hadron_desktop.Base.{ℕ, ◌*◌, ◌^◌, Bool, true, false, [], ◌==◌, if◌then◌else◌}
use hadron_desktop.Base.Text.{Text}
use hadron_desktop.Agent.Ring.{default_ring_size}

-- Durations in nanoseconds.
pub record Config : Type 0 where
  pub default_timeout : ℕ
  pub max_timeout : ℕ
  pub default_stream_cap : ℕ
  pub max_stream_cap : ℕ
  pub ring_size : ℕ
  pub max_live : ℕ
  pub terminate_grace : ℕ
  pub reap_timeout : ℕ
  pub require_cgroup : Bool
  pub allow_pgroup_fallback : Bool
  pub cgroup_root : Text
  pub pids_max : ℕ
  pub memory_max : ℕ

abbrev second : ℕ
second = 10 ^ 9

-- `DefaultConfig()`, with the constants that it names.
unfoldable pub default_config : Config
default_config = record {
  default_timeout = 30 * second;
  max_timeout = 300 * second;
  default_stream_cap = 2 ^ 20;
  max_stream_cap = 8 * 2 ^ 20;
  ring_size = default_ring_size;
  max_live = 16;
  terminate_grace = 2 * second;
  reap_timeout = 5 * second;
  require_cgroup = true;
  allow_pgroup_fallback = false;
  cgroup_root = [];
  pids_max = 128;
  memory_max = 2 ^ 30;
}

-- The value, or the default where it is not positive.
abbrev pub or_default : ℕ → ℕ → ℕ
or_default n def = if n == 0 then def else n

-- `fillDefaults()`
unfoldable pub fill_defaults : Config → Config
unfolding default_config
fill_defaults c = record c {
  default_timeout = or_default c.default_timeout default_config.default_timeout;
  max_timeout = or_default c.max_timeout default_config.max_timeout;
  default_stream_cap = or_default c.default_stream_cap default_config.default_stream_cap;
  max_stream_cap = or_default c.max_stream_cap default_config.max_stream_cap;
  ring_size = or_default c.ring_size default_config.ring_size;
  max_live = or_default c.max_live default_config.max_live;
  terminate_grace = or_default c.terminate_grace default_config.terminate_grace;
  reap_timeout = or_default c.reap_timeout default_config.reap_timeout;
  pids_max = or_default c.pids_max default_config.pids_max;
  memory_max = or_default c.memory_max default_config.memory_max;
}
