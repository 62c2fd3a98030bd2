-- ===== src/Witness/RoundRuns.antt =====
-- Runs of the theorems about round-manager.c, event-dispatcher.c and their formats.
use pool_dance.Prelude.{◌<◌, ◌≡◌, refl, false, none, some, List, [], ◌∷◌, codes, ok, arith}
use pool_dance.WorkResult.{work_result_new, work_result_get_client_info}
use pool_dance.Validator.State.{ErrorCode}
use pool_dance.Format.{text}
use pool_dance.Format.Decimal.{power}
use pool_dance.FileLogger.State.{file_logger_new_from_stream}
use pool_dance.FileLogger.Events.{Event, logs, writes, rotates, runs_idle, run}
use pool_dance.FileLogger.Unnamed.{copies-run}
use pool_dance.RoundManager.{RoundManager, share_entry, on_copy_and_truncate}
use pool_dance.RoundManager.Readable.{read_line, read_line-share_entry}
use pool_dance.EventDispatcher.{EventDispatcher, event_dispatcher_notify_work_validated, whole}
use pool_dance.EventDispatcher.Shares.{LogsShare, event_dispatcher_notify_work_validated-LogsShare}
use pool_dance.Witness.{sample, zeros}

small_number : 1400000000 < power 20
unfolding power
small_number = omega arith

smaller_number : 3 < power 20
unfolding power
smaller_number = omega arith

read_line-share_entry_example :
    read_line (share_entry 1400000000 3 (some (codes "ab")) none)
    ≡ some (record {
      time = 1400000000;
      kind = codes "SHARE";
      number = 3;
      user = text (some (codes "ab"));
      passw = text none;
    })
read_line-share_entry_example =
    read_line-share_entry 1400000000 3 (some (codes "ab")) none small_number smaller_number
      (omega arith, (omega arith, tt))
      (omega arith, (omega arith, (omega arith, (omega arith, (omega arith, (omega arith, tt))))))

abbrev round_events : List Event
round_events = logs (codes "share") ∷ writes 6 ∷ rotates (codes "copy") 1000 0 ∷ runs_idle ∷ []

copies-run_example :
    (run (on_copy_and_truncate 1400000000) file_logger_new_from_stream round_events).copies ≡ []
copies-run_example = copies-run (on_copy_and_truncate 1400000000) round_events

abbrev open_round : RoundManager
open_round = record { logger = some file_logger_new_from_stream; log_file_name = codes "/round" }

abbrev dispatcher : EventDispatcher
dispatcher = record { logger = some file_logger_new_from_stream; round_manager = some open_round }

event_dispatcher_notify_work_validated-LogsShare_example :
    (s : EventDispatcher) × (event_dispatcher_notify_work_validated sample dispatcher 1400000000
        (codes "today")
        (work_result_new sample false (zeros 256) 3 5)
        ErrorCode.stale
        (some (codes "late"))
      ≡ ok s)
    × LogsShare file_logger_new_from_stream file_logger_new_from_stream open_round 1400000000
        (codes "today")
        (work_result_get_client_info sample (work_result_new sample false (zeros 256) 3 5) whole)
        ErrorCode.stale
        (some (codes "late"))
        s
unfolding file_logger_new_from_stream
event_dispatcher_notify_work_validated-LogsShare_example =
    event_dispatcher_notify_work_validated-LogsShare sample dispatcher open_round
      file_logger_new_from_stream file_logger_new_from_stream 1400000000 (codes "today")
      (work_result_new sample false (zeros 256) 3 5) ErrorCode.stale (some (codes "late")) refl refl
      refl tt tt
