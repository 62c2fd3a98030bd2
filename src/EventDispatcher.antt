-- ===== src/EventDispatcher.antt =====
-- event-dispatcher.c: what happens to work is logged, and told to the round manager.
pub mod Shares
use pool_dance.Prelude.{
  ℕ, Bool, true, false, Option, none, some, List, [], ◌∷◌, ◌++◌, Str, codes, Outcome, ok, fault,
  null_pointer, ◌>>=◌,
}
use pool_dance.Extern.{Extern}
use pool_dance.WorkResult.{WorkResult, ClientInfo, Wanted, work_result_get_client_info}
use pool_dance.PoolServer.{WorkRequest, work_request_get_client_info}
use pool_dance.Validator.State.{ErrorCode}
use pool_dance.Format.{text, quoted, decimal, tabs}
use pool_dance.FileLogger.State.{FileLogger, file_logger_new}
use pool_dance.FileLogger.Methods.{file_logger_log}
use pool_dance.RoundManager.{RoundManager, on_work_validated, on_block_found}

pub record EventDispatcher : Type 0 where
  -- NULL if no log file is configured
  pub logger : Option FileLogger
  -- The vtable, whose only implementation is the round manager; `none` is NULL.
  pub round_manager : Option RoundManager

abbrev pub with_log : Option FileLogger → Option EventDispatcher
with_log none = none
with_log (some logger) = some (record { logger = some logger; round_manager = none })

-- `log_file` is the log file's name and, if it can be opened, what it holds.
unfoldable pub event_dispatcher_new :
    (log_file : Option (Str × Option Str)) → Option EventDispatcher
event_dispatcher_new none = some (record { logger = none; round_manager = none })
event_dispatcher_new (some (name, opened)) = with_log (file_logger_new opened)

unfoldable pub event_dispatcher_set_vtable : EventDispatcher → RoundManager → EventDispatcher
event_dispatcher_set_vtable self manager = record self { round_manager = some manager }

abbrev pub log_if : Option FileLogger → Str → Option FileLogger
log_if none entry = none
log_if (some logger) entry = some (file_logger_log logger entry)

abbrev pub with_manager :
    Option RoundManager → (RoundManager → Outcome RoundManager) → Outcome (Option RoundManager)
with_manager none f = ok none
with_manager (some manager) f = f manager >>= λ m. ok (some m)

-- The names of the error codes in the log, and the codes' numbers.
unfoldable pub work_validator_error_names : ErrorCode → Str
work_validator_error_names ErrorCode.success = codes "SUCCESS"
work_validator_error_names ErrorCode.invalid = codes "INVALID"
work_validator_error_names ErrorCode.stale = codes "STALLED"
work_validator_error_names ErrorCode.duplicated = codes "DUPLICATED"

unfoldable pub error_number : ErrorCode → ℕ
error_number ErrorCode.success = 0
error_number ErrorCode.invalid = 1
error_number ErrorCode.stale = 2
error_number ErrorCode.duplicated = 3

-- `[%s]` of the date
abbrev pub dated : Str → Str
dated date = 91 ∷ (date ++ 93 ∷ [])

abbrev pub whole : Wanted
whole = record { user = true; password = true; remote_addr = true; user_agent = true }

-- The fields of a client.
abbrev pub client_fields : ClientInfo → List Str
client_fields info =
    quoted (text info.user)
    ∷ quoted (text info.passw)
    ∷ text info.remote_addr
    ∷ quoted (text info.user_agent)
    ∷ []

unfoldable pub validated_entry : (date : Str) → ClientInfo → ErrorCode → (reason : Option Str) → Str
validated_entry date info ErrorCode.success reason =
    tabs (dated date ∷ codes "WORK-ACCEPTED" ∷ client_fields info)
validated_entry date info code reason = tabs (
    dated date
    ∷ codes "WORK-REJECTED"
    ∷ (client_fields info ++ work_validator_error_names code ∷ quoted (text reason) ∷ []))

unfoldable pub client_entry : (date kind : Str) → ClientInfo → Str
client_entry date kind info = tabs (dated date ∷ kind ∷ client_fields info)

unfoldable pub event_dispatcher_notify_current_block :
    EventDispatcher → (date : Str) → ℕ → EventDispatcher
event_dispatcher_notify_current_block self date block = record self {
  logger = log_if self.logger (tabs (dated date ∷ codes "CURRENT-BLOCK" ∷ decimal block ∷ []));
}

module _ {Node : Type 0} (x : Extern Node) where
  -- `now` and `date` are the time as the manager and the dispatcher print it.
  unfoldable pub event_dispatcher_notify_work_validated :
      EventDispatcher
      → (now : ℕ) → (date : Str) → WorkResult Node
      → ErrorCode
      → (reason : Option Str) → Outcome EventDispatcher
  event_dispatcher_notify_work_validated self now date work_result code reason = do
    let info = work_result_get_client_info x work_result whole
    manager ←
        with_manager self.round_manager
          (λ m. on_work_validated m now (error_number code) info.user info.passw)
    ok (record self {
      round_manager = manager;
      logger = log_if self.logger (validated_entry date info code reason);
    })

  unfoldable pub event_dispatcher_notify_work_sent :
      EventDispatcher → (date : Str) → WorkRequest → EventDispatcher
  event_dispatcher_notify_work_sent self date work_request = record self {
    logger = log_if self.logger (
        client_entry date (codes "WORK-SERVED")
          (work_request_get_client_info x work_request whole));
  }

  unfoldable pub event_dispatcher_notify_work_requested :
      EventDispatcher → (date : Str) → WorkRequest → EventDispatcher
  event_dispatcher_notify_work_requested self date work_request = record self {
    logger = log_if self.logger (
        client_entry date (codes "WORK-REQUESTED")
          (work_request_get_client_info x work_request whole));
  }

  unfoldable pub event_dispatcher_notify_work_submitted :
      EventDispatcher → (date : Str) → WorkResult Node → EventDispatcher
  event_dispatcher_notify_work_submitted self date work_result = record self {
    logger = log_if self.logger (
        client_entry date (codes "WORK-SUBMITTED")
          (work_result_get_client_info x work_result whole));
  }

  -- Here the vtable is read without a test for NULL.
  unfoldable pub event_dispatcher_notify_block_found :
      EventDispatcher → (now : ℕ) → (date : Str) → ℕ → WorkResult Node → Outcome EventDispatcher
  event_dispatcher_notify_block_found self now date block work_result = elim self.round_manager [
    | none ↦ fault null_pointer
    | some manager ↦ do
      let info = work_result_get_client_info x work_result whole
      m ← on_block_found manager now block info.user info.passw
      ok (record self {
        round_manager = some m;
        logger = log_if self.logger (
            tabs (
              dated date
              ∷ codes "BLOCK-FOUND"
              ∷ decimal block
              ∷ quoted (text info.user)
              ∷ quoted (text info.passw)
              ∷ []));
      })
  ]
