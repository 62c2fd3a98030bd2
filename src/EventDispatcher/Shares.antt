-- ===== src/EventDispatcher/Shares.antt =====
-- Each share is logged once, in the round and in the log.
use pool_dance.Prelude.{
  ℕ, ◌≡◌, refl, ap, subst, ◌∙◌, Option, some, [], ◌++◌, Str, codes, append_assoc, ok,
}
use pool_dance.Extern.{Extern}
use pool_dance.WorkResult.{WorkResult, ClientInfo, work_result_get_client_info}
use pool_dance.Validator.State.{ErrorCode}
use pool_dance.Format.{text, decimal, tabs, quoted}
use pool_dance.FileLogger.State.{FileLogger}
use pool_dance.FileLogger.Methods.{file_logger_log}
use pool_dance.FileLogger.Contents.{Adds, IsBuffered, line, file_logger_log-Adds}
use pool_dance.RoundManager.{RoundManager, on_work_validated, share_entry}
use pool_dance.EventDispatcher.{
  EventDispatcher, event_dispatcher_notify_work_validated, validated_entry, error_number,
  work_validator_error_names, whole,
}

-- The line of a share in the round.
abbrev pub share_line : (now number : ℕ) → ClientInfo → Str
share_line now number info =
    decimal now
    ++ (codes "\tSHARE\t"
        ++ (decimal number
            ++ (codes "\t\""
                ++ (text info.user ++ (codes "\"\t\"" ++ (text info.passw ++ codes "\""))))))

-- What a line of the log says of the client, after `kind` and before `rest`.
abbrev pub log_line : (date kind : Str) → ClientInfo → (rest : Str) → Str
log_line date kind info rest =
    codes "["
    ++ (date
        ++ (codes "]\t"
            ++ (kind
                ++ (codes "\t\""
                    ++ (text info.user
                        ++ (codes "\"\t\""
                            ++ (text info.passw
                                ++ (codes "\"\t"
                                    ++ (text info.remote_addr
                                        ++ (codes "\t\""
                                            ++ (text info.user_agent
                                                ++ (codes "\"" ++ rest))))))))))))

abbrev pub rejected_line : (date : Str) → ClientInfo → (name : Str) → (reason : Option Str) → Str
rejected_line date info name reason =
    log_line date (codes "WORK-REJECTED") info
      (codes "\t" ++ (name ++ (codes "\t\"" ++ (text reason ++ codes "\""))))

-- The number of a result in the round, and its line in the log.
abbrev pub reported : (date : Str) → ClientInfo → (reason : Option Str) → ErrorCode → ℕ × Str
reported date info reason ErrorCode.success = (0, log_line date (codes "WORK-ACCEPTED") info [])
reported date info reason ErrorCode.invalid = (1, rejected_line date info (codes "INVALID") reason)
reported date info reason ErrorCode.stale = (2, rejected_line date info (codes "STALLED") reason)
reported date info reason ErrorCode.duplicated =
    (3, rejected_line date info (codes "DUPLICATED") reason)

share_entry-line :
    (now number : ℕ) (info : ClientInfo)
    → share_entry now number info.user info.passw ≡ share_line now number info
unfolding share_entry tabs quoted
share_entry-line now number info = simp append_assoc refl

error_number-reported :
    (date : Str) (info : ClientInfo) (reason : Option Str) (code : ErrorCode)
    → error_number code ≡ (reported date info reason code).0
unfolding error_number
error_number-reported date info reason ErrorCode.success = refl
error_number-reported date info reason ErrorCode.invalid = refl
error_number-reported date info reason ErrorCode.stale = refl
error_number-reported date info reason ErrorCode.duplicated = refl

validated_entry-reported :
    (date : Str) (info : ClientInfo) (reason : Option Str) (code : ErrorCode)
    → validated_entry date info code reason ≡ (reported date info reason code).1
unfolding validated_entry work_validator_error_names tabs quoted
validated_entry-reported date info reason ErrorCode.success = simp append_assoc refl
validated_entry-reported date info reason ErrorCode.invalid = simp append_assoc refl
validated_entry-reported date info reason ErrorCode.stale = simp append_assoc refl
validated_entry-reported date info reason ErrorCode.duplicated = simp append_assoc refl

-- The logger of the round and that of the dispatcher have each one more line.
pub record LogsShare (round log : FileLogger) (manager : RoundManager) (now : ℕ) (date : Str)
    (info : ClientInfo) (code : ErrorCode) (reason : Option Str) (s : EventDispatcher)
    : Type 0 where
  pub round_after : FileLogger
  pub log_after : FileLogger
  pub is_round : s.round_manager ≡ some (record manager { logger = some round_after })
  pub is_log : s.logger ≡ some log_after
  pub share : Adds round (line (share_line now (reported date info reason code).0 info)) round_after
  pub entry : Adds log (line (reported date info reason code).1) log_after

-- With a log and an open round, whose pending writes, if any, are of their strings, telling the
-- dispatcher of a validated share adds one line to each and nothing else: to the round the share
-- with the number of its result, 0 if it was accepted and 1, 2 or 3 if it was invalid, stale or a
-- duplicate; to the log WORK-ACCEPTED with the client, or WORK-REJECTED with the client, the name of
-- the error and the reason.
pub event_dispatcher_notify_work_validated-LogsShare :
    {Node : Type 0} (x : Extern Node) (self : EventDispatcher) (manager : RoundManager)
    (round log : FileLogger) (now : ℕ) (date : Str) (work_result : WorkResult Node)
    (code : ErrorCode) (reason : Option Str)
    → self.round_manager ≡ some manager
    → manager.logger ≡ some round
    → self.logger ≡ some log
    → IsBuffered round
    → IsBuffered log
    → (s : EventDispatcher) × (event_dispatcher_notify_work_validated x self now date work_result
          code reason
        ≡ ok s)
      × LogsShare round log manager now date
          (work_result_get_client_info x work_result whole)
          code
          reason
          s
unfolding event_dispatcher_notify_work_validated on_work_validated
event_dispatcher_notify_work_validated-LogsShare x self manager round log now date work_result code
      reason is_manager is_round is_log r l =
    let info = work_result_get_client_info x work_result whole in
    let share = share_entry now (error_number code) info.user info.passw in
    let entry = validated_entry date info code reason in
    (
      record self {
        round_manager = some (record manager { logger = some (file_logger_log round share) });
        logger = some (file_logger_log log entry);
      },
      rw (is_manager, is_log) (rw is_round refl),
      record {
        round_after = file_logger_log round share;
        log_after = file_logger_log log entry;
        is_round = refl;
        is_log = refl;
        share =
            subst (λ l. Adds round (line l) (file_logger_log round share))
              (ap (λ n. share_entry now n info.user info.passw)
                  (error_number-reported date info reason code)
                ∙ share_entry-line now (reported date info reason code).0 info)
              (file_logger_log-Adds round share r);
        entry =
            subst (λ e. Adds log (line e) (file_logger_log log entry))
              (validated_entry-reported date info reason code) (file_logger_log-Adds log entry l);
      },
    )
