-- ===== src/Main/Shutdown.antt =====
-- The end of main in main.c: the main loop, the clean-up behind the label `out`, and the exit code.
pub mod Held
pub mod Started
pub mod Exits
use pool_dance.Prelude.{
  ℕ, zero, suc, Bool, true, false, Option, none, some, List, [], Str, if◌then◌else◌, Outcome, ok,
  fault, null_pointer, use_after_free, ◌>>=◌,
}
use pool_dance.Prelude.Memory.{Memory}
use pool_dance.Extern.{Extern, KeyFile}
use pool_dance.Upstream.{UpstreamService}
use pool_dance.PoolServer.{PoolServer, pool_server_free}
use pool_dance.BlockMonitor.{BlockMonitor, block_monitor_start, block_monitor_stop}
use pool_dance.Validator.State.{WorkValidator, work_validator_free, non_null}
use pool_dance.EventDispatcher.{EventDispatcher}
use pool_dance.Main.{System}
use pool_dance.Main.Callbacks.{Pool, Clock}
use pool_dance.Main.Loop.{Event, run}
use pool_dance.Main.Config.{Settings}
use pool_dance.Main.Startup.{
  World, StartError, ExitCode, minus_one, Process, Stage, goes_on, out, start,
}

module _ {Node : Type 0} where
  -- g_object_unref of the client of the daemon
  unfoldable pub unref_rpc : Process Node → (references : ℕ) → Outcome (Process Node)
  unref_rpc self zero = fault use_after_free
  unref_rpc self (suc n) = ok (record self { rpc_refs = n })

  -- The components are freed if they are there.
  unfoldable pub free_upstream_service :
      Process Node → Option (UpstreamService Node) → Outcome (Process Node)
  free_upstream_service self none = ok self
  free_upstream_service self (some service) =
      unref_rpc (record self { upstream_service = none }) self.rpc_refs

  unfoldable pub free_block_monitor : Process Node → Option BlockMonitor → Outcome (Process Node)
  free_block_monitor self none = ok self
  free_block_monitor self (some monitor) =
      unref_rpc (record self { block_monitor = none }) self.rpc_refs

  unfoldable pub free_pool_server : Process Node → Option PoolServer → Outcome (Process Node)
  free_pool_server self none = ok self
  free_pool_server self (some server) = do
    left ← pool_server_free server
    ok (record self { pool_server = none })

  unfoldable pub free_work_validator : Process Node → Option WorkValidator → Outcome (Process Node)
  free_work_validator self none = ok self
  free_work_validator self (some validator) = do
    p ← unref_rpc (record self { work_validator = none }) self.rpc_refs
    memory ← work_validator_free validator
    ok p

  -- Behind `out`. The event dispatcher and the round manager free their loggers.
  unfoldable pub clean_up : Process Node → Outcome (Process Node)
  clean_up self = do
    let p : Process Node = record self { settings = none; config = none; evd_daemon = false }
    p ← free_upstream_service p p.upstream_service
    p ← free_block_monitor p p.block_monitor
    p ← free_pool_server p p.pool_server
    p ← free_work_validator p p.work_validator
    ok (record p { event_dispatcher = none; round_manager = none })

  -- What the callbacks work on: the statics, with the block monitor started. block_monitor_start
  -- and pool_server_start would read through NULL.
  unfoldable pub pool_of : Process Node → Outcome (Pool Node)
  pool_of self = do
    service ← non_null self.upstream_service
    monitor ← non_null self.block_monitor
    server ← non_null self.pool_server
    validator ← non_null self.work_validator
    dispatcher ← non_null self.event_dispatcher
    ok (record {
      services = record {
        upstream_service = service;
        pool_server = server;
        work_validator = validator;
      };
      event_dispatcher = dispatcher;
      block_monitor = block_monitor_start monitor;
      current_block = 0;
      sources = 0;
      validations = [];
      submissions = [];
      hash_calls = 0;
      responses = [];
    })

  -- The variables after the main loop, with the block monitor stopped.
  unfoldable pub after_loop : Process Node → Pool Node → Process Node
  after_loop self pool = record self {
    upstream_service = some pool.services.upstream_service;
    block_monitor = some (block_monitor_stop pool.block_monitor);
    pool_server = some pool.services.pool_server;
    work_validator = some pool.services.work_validator;
    event_dispatcher = some pool.event_dispatcher;
    round_manager = pool.event_dispatcher.round_manager;
  }

module _ {Node : Type 0} (x : Extern Node) (clock : Clock) (world : World Node) where
  -- What the timeout that drops the privileges has the daemon quit with, if there is one and it
  -- fails. The group is not looked at.
  unfoldable pub drop_privileges : Option Settings → Option ExitCode
  drop_privileges none = none
  drop_privileges (some settings) = elim settings.run_as_user [
    | none ↦ none
    | some user ↦ if world.set_user user then none else some minus_one
  ]

  -- The events that the main loop gets to, and what evd_daemon_run returns. The timeout has a
  -- higher priority than the other sources, so that it comes first.
  unfoldable pub loop_of : Option ExitCode → List (Event Node) × ExitCode
  loop_of (some code) = ([], code)
  loop_of none = (world.events, if world.loop_fails then minus_one else world.loop_code)

  unfoldable pub main_loop : Process Node → Outcome (Process Node × ExitCode)
  main_loop self = do
    pool ← pool_of self
    let (events, code) = loop_of (drop_privileges self.settings)
    ended ← run x clock pool events
    ok (after_loop self ended, code)

  unfoldable pub finish : Process Node × ExitCode → Outcome (Process Node × ExitCode)
  finish (self, code) = do p ← clean_up self; ok (p, code)

  unfoldable pub main_from : Stage Node → Outcome (Process Node × ExitCode)
  main_from (out e self) = finish (self, minus_one)
  main_from (goes_on self) = main_loop self >>= finish

  unfoldable pub main : Memory → Outcome (Process Node × ExitCode)
  main memory = main_from (start world memory clock.now)
