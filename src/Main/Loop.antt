-- ===== src/Main/Loop.antt =====
-- The main loop of main.c: whatever happens outside, in any order, and the handler that it runs.
use pool_dance.Prelude.{
  ℕ, remove_at, ◌+◌, ◌-◌, Bool, Option, none, some, List, [], ◌∷◌, Str, ltb, if◌then◌else◌, length,
  get_elem?, Outcome, ok, ◌>>=◌,
}
use pool_dance.Extern.{Extern}
use pool_dance.WorkResult.{WorkResult}
use pool_dance.Upstream.{UpstreamService, rpc_on_getwork}
use pool_dance.PoolServer.{
  PoolServer, Signal, getwork_callback, putwork_callback, rpc_on_method_call, on_request_headers,
}
use pool_dance.PoolServer.Machine.{close_request, close_long_poll}
use pool_dance.BlockMonitor.{BlockMonitor, on_block_count}
use pool_dance.BlockMonitor
use pool_dance.Validator.Prevalidate.{Dispatch}
use pool_dance.Validator.Blocks.{HashReply, on_block_hash}
use pool_dance.Main.Callbacks.{
  Pool, Clock, validation_error, pool_server_on_getwork, pool_server_on_putwork,
  work_validator_on_validate, on_submit_work, upstream_service_on_has_work,
  block_monitor_on_block_change, run_source,
}

-- What the main loop may find: a miner's call or a connection that closes, an answer of the daemon,
-- a timer, a source of serve_work, a share whose check is done, known by its place in the list.
pub data Event (Node : Type 0) : Type 0 where
  method_call :
      (method_name : Option Str)
      → (params : Node) → (params_length : ℕ) → (invocation_id : ℕ) → (conn : ℕ) → (garbage : Bool)
      → Event Node
  request_headers : (path : Str) → (conn : ℕ) → Event Node
  request_closes : ℕ → Event Node
  lp_closes : ℕ → Event Node
  getwork_reply : Option Node → Event Node
  hash_reply : HashReply → Event Node
  count_reply : Option ℕ → Event Node
  timer : ℕ → Event Node
  source : (sent : Bool) → Event Node
  validation : (index : ℕ) → (data_bin : Str) → Event Node
  submission : (index : ℕ) → Option Bool → Event Node

module _ {Node : Type 0} where
  abbrev pub with_server : Pool Node → PoolServer → Pool Node
  with_server self server = record self {
    services = record (self.services) { pool_server = server };
  }

  abbrev pub with_upstream : Pool Node → UpstreamService Node → Pool Node
  with_upstream self service = record self {
    services = record (self.services) { upstream_service = service };
  }

  abbrev pub with_monitor : Pool Node → BlockMonitor → Pool Node
  with_monitor self monitor = record self { block_monitor = monitor }

module _ {Node : Type 0} (x : Extern Node) (clock : Clock) where
  -- The callback that the server's handler of a call ends in, if any.
  unfoldable pub on_signal : Pool Node → Signal Node → Outcome (Pool Node)
  on_signal self (getwork_callback p) = pool_server_on_getwork x clock self p
  on_signal self (putwork_callback r) = pool_server_on_putwork x clock self r
  on_signal self other = ok self

  -- block_change_cb for the blocks that the monitor notifies.
  unfoldable pub notify_blocks : Pool Node → List ℕ → Outcome (Pool Node)
  notify_blocks self [] = ok self
  notify_blocks self (block ∷ blocks) = do
    s ← block_monitor_on_block_change x clock self block
    notify_blocks s blocks

  -- The check of a share is done, and its callback runs.
  unfoldable pub end_validation :
      (data_bin : Str) → Pool Node → Option (WorkResult Node × Dispatch) → Outcome (Pool Node)
  end_validation data_bin self none = ok self
  end_validation data_bin self (some (work_result, dispatch)) = do
    error ← validation_error x data_bin self.services.work_validator (work_result, dispatch)
    work_validator_on_validate x clock self work_result error

  unfoldable pub end_submission :
      Option Bool → Pool Node → Option (WorkResult Node) → Outcome (Pool Node)
  end_submission reply self none = ok self
  end_submission reply self (some work_result) = on_submit_work x clock self work_result reply

  unfoldable pub end_hash_call : Pool Node → HashReply → Outcome (Pool Node)
  end_hash_call self reply = do
    (validator, calls) ← on_block_hash self.services.work_validator reply
    ok (record self {
      services = record (self.services) { work_validator = validator };
      hash_calls = self.hash_calls - 1 + length calls;
    })

  -- An event that is not due, such as an answer without a call, changes nothing.
  unfoldable pub step : Pool Node → Event Node → Outcome (Pool Node)
  step self (method_call method_name params params_length invocation_id conn garbage) =
      let (server, signal) =
        rpc_on_method_call x self.services.pool_server method_name params params_length
          invocation_id conn garbage in
      on_signal (with_server self server) signal
  step self (request_headers path conn) =
      ok (
        with_server self (on_request_headers {Node = Node} x self.services.pool_server path conn).0)
  step self (request_closes p) = do
    server ← close_request self.services.pool_server p (self.services.pool_server.requests p)
    ok (with_server self server)
  step self (lp_closes conn) =
      ok (with_server self (close_long_poll self.services.pool_server conn))
  step self (getwork_reply reply) =
      let (service, work) = rpc_on_getwork self.services.upstream_service reply in
      if ltb 0 self.services.upstream_service.calls
      then ok (upstream_service_on_has_work x clock (with_upstream self service) work)
      else ok self
  step self (hash_reply reply) = if ltb 0 self.hash_calls then end_hash_call self reply else ok self
  step self (count_reply reply) =
      let (monitor, blocks) = on_block_count self.block_monitor reply in
      if ltb 0 self.block_monitor.calls
      then notify_blocks (with_monitor self monitor) blocks
      else ok self
  step self (timer id) =
      ok (with_monitor self (BlockMonitor.step self.block_monitor (BlockMonitor.times_out id)).0)
  step self (source sent) = if ltb 0 self.sources then run_source x clock sent self else ok self
  step self (validation index data_bin) =
      end_validation data_bin (record self { validations = remove_at index self.validations })
        (get_elem? self.validations index)
  step self (submission index reply) =
      end_submission reply (record self { submissions = remove_at index self.submissions })
        (get_elem? self.submissions index)

  unfoldable pub run : Pool Node → List (Event Node) → Outcome (Pool Node)
  run self [] = ok self
  run self (e ∷ es) = do s ← step self e; run s es
