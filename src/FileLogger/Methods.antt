-- ===== src/FileLogger/Methods.antt =====
-- The functions of file-logger.c that do not wait.
use pool_dance.Prelude.{
  ℕ, true, false, not, ◌&&◌, ◌||◌, some, List, [], ◌∷◌, ◌++◌, Str, ltb, if◌then◌else◌, length,
}
use pool_dance.FileLogger.State.{
  FileLogger, Callback, client, on_logger_flushed, pending, invalid_argument, Operation,
  has_pending, no_result,
}

-- `while (g_queue_get_length (queue) > 0)`: each entry is taken from the head and appended.
unfoldable pub drain : List Str → Str → Str
drain [] s = s
drain (entry ∷ queue) s = drain queue (s ++ entry)

unfoldable pub gather : FileLogger → FileLogger
gather self =
    if not self.frozen && (not self.flushing && no_result self)
    then record self { write_all_string = drain self.queue self.write_all_string; queue = [] }
    else self

-- g_output_stream_write_async, unless there is nothing to write.
unfoldable pub start_write : FileLogger → FileLogger
start_write self =
    if ltb 0 (length self.write_all_string)
    then record self { stream = some (Operation.write self.write_all_string) }
    else self

unfoldable pub write_all : FileLogger → FileLogger
write_all self = if has_pending self then self else start_write (gather self)

unfoldable pub file_logger_log : FileLogger → Str → FileLogger
file_logger_log self entry =
    let queued : FileLogger = record self { queue = self.queue ++ (entry ++ (10 ∷ [])) ∷ [] } in
    if not self.frozen && (not self.flushing && no_result self) then write_all queued else queued

unfoldable pub file_logger_flush : FileLogger → Callback → FileLogger
file_logger_flush self callback =
    if no_result self
    then (let waiting : FileLogger = record self { async_result = some callback } in
        if has_pending self
        then record waiting { flushing = true }
        else write_all (record waiting { flushing = false }))
    else record self { idle = self.idle ++ (callback, pending) ∷ [] }

unfoldable pub file_logger_freeze : FileLogger → FileLogger
file_logger_freeze self = record self { frozen = true }

unfoldable pub file_logger_thaw : FileLogger → FileLogger
file_logger_thaw self =
    let thawed : FileLogger = record self { frozen = false } in
    if ltb 0 (length self.write_all_string) || ltb 0 (length self.queue)
    then write_all thawed
    else thawed

-- `callback` is the number of the caller's callback.
unfoldable pub file_logger_copy_and_truncate : FileLogger → Str → ℕ → (callback : ℕ) → FileLogger
file_logger_copy_and_truncate self copy_file_name timeout_before_truncate callback =
    if self.has_file
    then file_logger_flush (file_logger_freeze self) (
        on_logger_flushed (record {
          copy_file_name = copy_file_name;
          timeout_before_truncate = timeout_before_truncate;
          result = callback;
        }))
    else record self { idle = self.idle ++ (client callback, invalid_argument) ∷ [] }
