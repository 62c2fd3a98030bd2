-- ===== src/Main/Config.antt =====
-- The settings: load_global_config of main.c, and what the components read of the configuration.
use pool_dance.Prelude.{
  ℕ, ◌%◌, ◌^◌, Option, none, some, [], ◌∷◌, ◌++◌, Str, codes, ◌==◌, if◌then◌else◌,
}
use pool_dance.Extern.{KeyFile}
use pool_dance.Format.{decimal}
use pool_dance.Upstream.{UpstreamService, upstream_service_new}
use pool_dance.BlockMonitor.{BlockMonitor, block_monitor_new}
use pool_dance.RoundManager.{RoundManager, round_manager_new}

pub record Settings : Type 0 where
  pub log_file_name : Str
  -- a guint8
  pub log_level : ℕ
  pub pid_file_name : Str
  pub run_as_user : Option Str
  pub run_as_group : Option Str

abbrev pub default_config_filename : Str
default_config_filename = codes "/etc/pool-dance/pool-dance.conf"

abbrev pub default_log_filename : Str
default_log_filename = codes "/var/log/pool-dance.log"

abbrev pub default_pid_filename : Str
default_pid_filename = codes "/var/run/pool-dance.pid"

-- NULL and the empty string both count as not configured.
abbrev pub or_default : Str → Option Str → Str
or_default fallback none = fallback
or_default fallback (some []) = fallback
or_default fallback (some (c ∷ s)) = c ∷ s

-- The log level is read from the key of the log file.
unfoldable pub load_global_config : KeyFile → Settings
load_global_config config = record {
  log_file_name = or_default default_log_filename (config.string group (codes "log-file"));
  log_level = config.integer group (codes "log-file") % 2 ^ 8;
  pid_file_name = or_default default_pid_filename (config.string group (codes "pid-file"));
  run_as_user = config.string group (codes "user");
  run_as_group = config.string group (codes "group");
}
  where
    group : Str
    group = codes "pool-dance"

abbrev pub upstream_service_group : Str
upstream_service_group = codes "upstream-service"

unfoldable pub configured_upstream_service :
    {Node : Type 0} → KeyFile → Option (UpstreamService Node)
configured_upstream_service config =
    upstream_service_new (config.string upstream_service_group (codes "user"))
      (config.string upstream_service_group (codes "password"))
      (config.integer upstream_service_group (codes "work-cache-size"))

unfoldable pub configured_block_monitor : KeyFile → BlockMonitor
configured_block_monitor config =
    block_monitor_new (config.integer (codes "block-monitor") (codes "latency"))

unfoldable pub configured_round_manager : KeyFile → RoundManager
configured_round_manager config =
    round_manager_new (config.string (codes "round-manager") (codes "round-file"))

-- The address that the pool server listens on, "%s:%u".
unfoldable pub listen_addr : KeyFile → Str
listen_addr config =
    or_default (codes "0.0.0.0") (config.string group (codes "listen-addr"))
    ++ 58
      ∷ decimal (
          if config.integer group (codes "listen-port") == 0
          then 8335
          else config.integer group (codes "listen-port"))
  where
    group : Str
    group = codes "pool-server"
