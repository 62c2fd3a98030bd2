-- ===== src/Main/Startup.antt =====
-- The function main of main.c: it starts the components in turn, runs the main loop and frees what
-- there is.
pub mod Errors
use pool_dance.Prelude.{
  ℕ, zero, suc, ◌+◌, ◌-◌, Bool, true, false, not, ◌&&◌, Option, none, some, List, [], ◌∷◌, ◌++◌,
  Str, if◌then◌else◌, Outcome, ok, fault, null_pointer, use_after_free, double_free, ltb,
}
use pool_dance.Prelude
use pool_dance.Prelude.Memory.{Memory}
use pool_dance.Extern.{Extern, KeyFile}
use pool_dance.Upstream.{UpstreamService}
use pool_dance.PoolServer.{PoolServer, pool_server_new, pool_server_free}
use pool_dance.BlockMonitor.{BlockMonitor, block_monitor_start, block_monitor_stop}
use pool_dance.Validator.State.{WorkValidator, work_validator_new, work_validator_free}
use pool_dance.Validator.Blocks.{work_validator_set_target}
use pool_dance.EventDispatcher.{EventDispatcher, event_dispatcher_new, event_dispatcher_set_vtable}
use pool_dance.RoundManager.{RoundManager, Creation, init_log_file}
use pool_dance.Main.{System, easy_target}
use pool_dance.Main.Callbacks.{Pool, Clock}
use pool_dance.Main.Loop.{Event, run}
use pool_dance.Main.Config.{
  Settings, default_config_filename, load_global_config, configured_upstream_service,
  configured_block_monitor, configured_round_manager,
}

-- The options of the command line.
pub record Options : Type 0 where
  pub config_file_name : Option Str
  pub daemonize : Bool

-- What `error` is set by.
pub data StartError : Type 0 where
  bad_options bad_configuration no_upstream_service no_event_dispatcher not_detached no_round :
      StartError

-- gint: -1, or what evd_daemon_run returned
pub data ExitCode : Type 0 where
  minus_one : ExitCode
  returned : ℕ → ExitCode

-- What main finds outside: whether the command line can be parsed, the configuration and log files,
-- whether the daemon detaches and may change its user, the round file, and what the main loop gets
-- and returns with.
pub record World (Node : Type 0) : Type 0 where
  pub options : Option Options
  pub key_file : Str → Option KeyFile
  pub log_file : Str → Option Str
  pub detaches : Bool
  pub round_file : Str → Creation
  -- evd_daemon_set_user
  pub set_user : Str → Bool
  pub events : List (Event Node)
  pub loop_code : ExitCode
  pub loop_fails : Bool

-- The variables of main, and the references on the client of the daemon, which the upstream
-- service, the block monitor and the work validator share.
pub record Process (Node : Type 0) : Type 0 where
  pub config : Option KeyFile
  pub settings : Option Settings
  pub evd_daemon : Bool
  pub upstream_service : Option (UpstreamService Node)
  pub block_monitor : Option BlockMonitor
  pub pool_server : Option PoolServer
  pub work_validator : Option WorkValidator
  pub event_dispatcher : Option EventDispatcher
  pub round_manager : Option RoundManager
  pub rpc_refs : ℕ

-- A stage of the start: it goes on, or jumps to `out` with `error` set.
pub data Stage (Node : Type 0) : Type 0 where
  goes_on : Process Node → Stage Node
  out : StartError → Process Node → Stage Node

infixl 5 ◌>>=◌
abbrev pub ◌>>=◌ : {Node : Type 0} → Stage Node → (Process Node → Stage Node) → Stage Node
goes_on p >>= next = next p
out e p >>= next = out e p

abbrev pub nothing : {Node : Type 0} → Process Node
nothing = record {
  config = none;
  settings = none;
  evd_daemon = false;
  upstream_service = none;
  block_monitor = none;
  pool_server = none;
  work_validator = none;
  event_dispatcher = none;
  round_manager = none;
  rpc_refs = 0;
}

-- The name of the configuration file, that given or the default.
abbrev pub config_name : Options → Str
config_name options = elim options.config_file_name [
  | none ↦ default_config_filename
  | some name ↦ name
]

module _ {Node : Type 0} (world : World Node) (memory : Memory) (now : ℕ) where
  abbrev pub keep_service : Process Node → Option (UpstreamService Node) → Stage Node
  keep_service self none = out no_upstream_service self
  keep_service self (some service) =
      goes_on (record self { upstream_service = some service; rpc_refs = self.rpc_refs + 1 })

  unfoldable pub create_upstream_service : KeyFile → Process Node → Stage Node
  create_upstream_service config self = keep_service self (configured_upstream_service config)

  -- The block monitor, the pool server and the work validator, which cannot fail.
  unfoldable pub create_workers : KeyFile → Process Node → Stage Node
  create_workers config self = goes_on (record self {
    block_monitor = some (configured_block_monitor config);
    pool_server = some pool_server_new;
    work_validator = some (work_validator_set_target (work_validator_new memory) easy_target);
    rpc_refs = self.rpc_refs + 1 + 1;
  })

  abbrev pub keep_dispatcher : RoundManager → Process Node → Option EventDispatcher → Stage Node
  keep_dispatcher manager self none = out no_event_dispatcher self
  keep_dispatcher manager self (some dispatcher) = goes_on (record self {
    event_dispatcher = some (event_dispatcher_set_vtable dispatcher manager);
    round_manager = some manager;
  })

  -- The event dispatcher, whose log file may fail, and the round manager, which sets its vtable.
  unfoldable pub create_event_dispatcher : KeyFile → Process Node → Stage Node
  create_event_dispatcher config self =
      let name = (load_global_config config).log_file_name in
      keep_dispatcher (configured_round_manager config) self
        (event_dispatcher_new (some (name, world.log_file name)))

  unfoldable pub detach : Options → Process Node → Stage Node
  detach options self =
      let with_daemon : Process Node = record self { evd_daemon = true } in
      if options.daemonize && not world.detaches
      then out not_detached with_daemon
      else goes_on with_daemon

  -- The dispatcher's vtable leads to the same manager.
  abbrev pub with_round : Process Node → RoundManager → Process Node
  with_round self manager = record self {
    round_manager = some manager;
    event_dispatcher = elim self.event_dispatcher [
      | none ↦ none
      | some dispatcher ↦ some (event_dispatcher_set_vtable dispatcher manager)
    ];
  }

  abbrev pub started : Process Node → RoundManager × Bool → Stage Node
  started self (manager, false) = out no_round (with_round self manager)
  started self (manager, true) = goes_on (with_round self manager)

  unfoldable pub start_round : KeyFile → Process Node → Stage Node
  start_round config self =
      let manager = configured_round_manager config in
      started self (init_log_file manager now (world.round_file manager.log_file_name))

  -- From the configuration on.
  unfoldable pub start_configured : Options → KeyFile → Process Node → Stage Node
  start_configured options config self = do
    p ← create_upstream_service config self
    p ← create_workers config p
    p ← create_event_dispatcher config p
    p ← detach options p
    start_round config p

  abbrev pub with_configuration :
      Option KeyFile → (KeyFile → Process Node → Stage Node) → Process Node → Stage Node
  with_configuration none next self = out bad_configuration self
  with_configuration (some config) next self =
      next config
        (record self { config = some config; settings = some (load_global_config config) })

  abbrev pub with_options : Option Options → (Options → Stage Node) → Stage Node
  with_options none next = out bad_options nothing
  with_options (some options) next = next options

  -- Everything before the main loop.
  unfoldable pub start : Stage Node
  start = with_options world.options λ options.
      with_configuration (world.key_file (config_name options)) (start_configured options) nothing
