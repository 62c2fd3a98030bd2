-- ===== src/Main/Callbacks.antt =====
-- The callbacks of main.c: what passes between the components.
use pool_dance.Prelude.{
  ℕ, ◌+◌, ◌-◌, Bool, true, false, ◌&&◌, Option, none, some, List, [], ◌∷◌, ◌++◌, Str, codes,
  if◌then◌else◌, Outcome, ok, fault, use_after_free, ◌>>=◌,
}
use pool_dance.Extern.{Extern}
use pool_dance.WorkResult.{WorkResult, work_result_ref, work_result_unref}
use pool_dance.Upstream.{upstream_service_notify_new_block, upstream_service_has_work}
use pool_dance.PoolServer.{
  Signal, pool_server_notify_new_block, pool_server_need_work, pool_server_get_work_request,
  pool_server_respond_putwork,
}
use pool_dance.BlockMonitor.{BlockMonitor}
use pool_dance.Validator.State.{WorkValidator, GError, ErrorCode, non_null}
use pool_dance.Validator.Prevalidate.{
  Dispatch, completes_in_idle, pushed_to_pool, work_validator_validate,
}
use pool_dance.Validator.Thread.{validate_work_result_in_thread}
use pool_dance.Validator.Blocks.{work_validator_notify_new_block}
use pool_dance.EventDispatcher.{
  EventDispatcher, event_dispatcher_notify_work_requested, event_dispatcher_notify_work_submitted,
  event_dispatcher_notify_work_validated, event_dispatcher_notify_work_sent,
  event_dispatcher_notify_current_block, event_dispatcher_notify_block_found,
}
use pool_dance.Main.{System, serve_work}

-- The static variables of main.c, and what the main loop, the threads and the client of the daemon
-- hold for them.
pub record Pool (Node : Type 0) : Type 0 where
  pub services : System Node
  pub event_dispatcher : EventDispatcher
  pub block_monitor : BlockMonitor
  pub current_block : ℕ
  -- how many sources of the main loop run serve_work
  pub sources : ℕ
  -- the shares that work_validator_validate has taken and that are not answered yet
  pub validations : List (WorkResult Node × Dispatch)
  -- the shares that were submitted to the daemon, which has not answered yet
  pub submissions : List (WorkResult Node)
  -- the calls of getblockhash without an answer
  pub hash_calls : ℕ
  -- the answers given to submitted shares
  pub responses : List (Signal Node)

-- The time, as the round manager and the dispatcher print it.
pub record Clock : Type 0 where
  pub now : ℕ
  pub date : Str

-- An unref of a result that is freed already would be a use after free.
abbrev pub released :
    {Node : Type 0} → Option (WorkResult Node) → Outcome (Option (WorkResult Node))
released none = fault use_after_free
released (some r) = ok (work_result_unref r)

-- The error of the second check, when the first one set none.
unfoldable pub validation_error :
    {Node : Type 0}
    → Extern Node
    → (data_bin : Str) → WorkValidator
    → WorkResult Node × Dispatch
    → Outcome (Option GError)
validation_error x data_bin validator (work_result, completes_in_idle e) = ok (some e)
validation_error x data_bin validator (work_result, pushed_to_pool) =
    validate_work_result_in_thread x data_bin validator work_result

abbrev pub result_code : Option GError → ErrorCode
result_code none = ErrorCode.success
result_code (some e) = e.code

abbrev pub result_reason : Option GError → Option Str
result_reason none = none
result_reason (some e) = some (codes e.message)

abbrev pub is_accepted : Option GError → Bool
is_accepted none = true
is_accepted (some e) = false

-- What is submitted to the daemon, if anything: the reference that was taken for it.
abbrev pub kept_result : {Node : Type 0} → Option (WorkResult Node) → List (WorkResult Node)
kept_result none = []
kept_result (some r) = r ∷ []

module _ {Node : Type 0} (x : Extern Node) (clock : Clock) where
  unfoldable pub pool_server_on_getwork : Pool Node → ℕ → Outcome (Pool Node)
  pool_server_on_getwork self p = do
    work_request ← non_null (self.services.pool_server.requests p)
    ok (record self {
      event_dispatcher =
          event_dispatcher_notify_work_requested x self.event_dispatcher clock.date work_request;
      sources = self.sources + 1;
    })

  unfoldable pub pool_server_on_putwork : Pool Node → WorkResult Node → Outcome (Pool Node)
  pool_server_on_putwork self work_result = do
    (validator, result, dispatch) ←
        work_validator_validate x self.services.work_validator work_result
    ok (record self {
      services = record self.services { work_validator = validator };
      validations = self.validations ++ (result, dispatch) ∷ [];
      event_dispatcher =
          event_dispatcher_notify_work_submitted x self.event_dispatcher clock.date result;
    })

  -- A share that is accepted is submitted with a reference of its own; then the callback drops its
  -- reference, and the asynchronous result, once it is freed, the second one.
  unfoldable pub work_validator_on_validate :
      Pool Node → WorkResult Node → Option GError → Outcome (Pool Node)
  work_validator_on_validate self work_result error = do
    dispatcher ←
        event_dispatcher_notify_work_validated x self.event_dispatcher clock.now clock.date
          work_result (result_code error) (result_reason error)
    once ← released (some (if is_accepted error then work_result_ref work_result else work_result))
    twice ← released once
    ok (record self {
      event_dispatcher = dispatcher;
      responses =
          self.responses ++ pool_server_respond_putwork x work_result (is_accepted error) ∷ [];
      submissions = self.submissions ++ kept_result twice;
    })

  -- `reply` is the daemon's answer, `none` if the call failed.
  unfoldable pub on_submit_work :
      Pool Node → WorkResult Node → (reply : Option Bool) → Outcome (Pool Node)
  on_submit_work self work_result none = do gone ← released (some work_result); ok self
  on_submit_work self work_result (some false) = do gone ← released (some work_result); ok self
  on_submit_work self work_result (some true) = do
    dispatcher ←
        event_dispatcher_notify_block_found x self.event_dispatcher clock.now clock.date
          self.current_block work_result
    gone ← released (some work_result)
    ok (record self { event_dispatcher = dispatcher })

  unfoldable pub upstream_service_on_has_work : Pool Node → Option Node → Pool Node
  upstream_service_on_has_work self none = self
  upstream_service_on_has_work self (some work) = record self { sources = self.sources + 1 }

  unfoldable pub block_monitor_on_block_change : Pool Node → ℕ → Outcome (Pool Node)
  block_monitor_on_block_change self block = do
    (validator, calls) ← work_validator_notify_new_block self.services.work_validator block
    ok (record self {
      current_block = block;
      services = record {
        upstream_service = upstream_service_notify_new_block self.services.upstream_service;
        pool_server = pool_server_notify_new_block x self.services.pool_server block;
        work_validator = validator;
      };
      hash_calls = self.hash_calls + 1;
      event_dispatcher =
          event_dispatcher_notify_current_block self.event_dispatcher clock.date block;
    })

  -- The entry that serve_work logs for the request that it takes.
  unfoldable pub log_served : Pool Node → EventDispatcher
  log_served self =
      let server = self.services.pool_server in
      elim (pool_server_get_work_request server).0 [
        | none ↦ self.event_dispatcher
        | some p ↦ elim (server.requests p) [
          | none ↦ self.event_dispatcher
          | some r ↦ event_dispatcher_notify_work_sent x self.event_dispatcher clock.date r
        ]
      ]

  -- A source of the main loop runs serve_work, and is gone if that returns FALSE.
  unfoldable pub run_source : (sent : Bool) → Pool Node → Outcome (Pool Node)
  run_source sent self = do
    (services, more) ← serve_work x sent self.services
    let serves =
        sent
        && (pool_server_need_work self.services.pool_server
            && upstream_service_has_work self.services.upstream_service)
    ok (record self {
      services = services;
      sources = if more then self.sources else self.sources - 1;
      event_dispatcher = if serves then log_served self else self.event_dispatcher;
    })
