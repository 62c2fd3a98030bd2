-- ===== src/FileLogger/Events.antt =====
-- The callbacks of file-logger.c, and the events of the main loop that run them.
use pool_dance.Prelude.{
  remove_at, ℕ, Bool, true, false, Option, none, some, List, [], ◌∷◌, ◌++◌, Str, ltb, leb,
  if◌then◌else◌, length, take, drop, get_elem?,
}
use pool_dance.FileLogger.State.{
  FileLogger, Callback, client, on_logger_flushed, IoError, io_failed, Operation, TruncateData,
}
use pool_dance.FileLogger.Methods.{
  write_all, file_logger_log, file_logger_flush, file_logger_freeze, file_logger_thaw,
  file_logger_copy_and_truncate,
}

-- What g_output_stream_write_finish gives: a negative size, or a number of bytes.
pub data Written : Type 0 where
  failed : Written
  bytes : ℕ → Written

-- g_string_erase of what was written
unfoldable pub erase_written : FileLogger → Written → FileLogger
erase_written self failed = self
erase_written self (bytes n) = record self { write_all_string = drop n self.write_all_string }

-- A flush that waits is started; without one, what came in meanwhile is written.
unfoldable pub written_rest : FileLogger → Option Callback → FileLogger
written_rest self (some c) = record self { stream = some Operation.flush }
written_rest self none = write_all self

-- The stream has no operation pending when its callback runs.
unfoldable pub on_log_entry_written : FileLogger → Written → FileLogger
on_log_entry_written self size =
    let erased = erase_written (record self { stream = none }) size in
    if erased.flushing
    then (let flushed : FileLogger = record erased { flushing = false } in
        if ltb 0 (length flushed.write_all_string)
        then write_all flushed
        else written_rest flushed flushed.async_result)
    else written_rest erased erased.async_result

-- The copy, the truncation, and the error that is left.
unfoldable pub copy_and_truncate :
    FileLogger → TruncateData → (copied truncated : Bool) → FileLogger × Option IoError
copy_and_truncate self d false truncated = (self, some io_failed)
copy_and_truncate self d true false = (
  record self {
    copies =
        self.copies
        ++ (record { name = d.copy_file_name; text = self.disk; truncated = false }) ∷ [];
  },
  some io_failed,
)
copy_and_truncate self d true true = (
  record self {
    copies =
        self.copies
        ++ (record { name = d.copy_file_name; text = self.disk; truncated = true }) ∷ [];
    disk = [];
  },
  none,
)

-- The clients of the logger: which entries the callback of that number logs, for its error.
abbrev pub Reaction : Type 0
Reaction = ℕ → Option IoError → List Str

unfoldable pub log_all : FileLogger → List Str → FileLogger
log_all self [] = self
log_all self (entry ∷ entries) = log_all (file_logger_log self entry) entries

module _ (reaction : Reaction) where
  -- g_simple_async_result_complete: the callback runs, with the result's error.
  unfoldable pub complete : FileLogger → Callback → Option IoError → FileLogger
  complete self (client c) error = log_all self (reaction c error)
  complete self (on_logger_flushed d) none = record self { timeouts = self.timeouts ++ d ∷ [] }
  complete self (on_logger_flushed d) (some e) = log_all self (reaction d.result (some e))

  -- Whether the flush failed makes no difference but for a message.
  unfoldable pub flush_done : FileLogger → Option Callback → FileLogger
  flush_done self none = record self { stream = none }
  flush_done self (some c) = complete (record self { stream = none; async_result = none }) c none

  unfoldable pub on_flush : FileLogger → FileLogger
  on_flush self = flush_done self self.async_result

  unfoldable pub copy_and_truncate_on_timeout :
      FileLogger → TruncateData → (copied truncated : Bool) → FileLogger
  copy_and_truncate_on_timeout self d copied truncated =
      let (done, error) = copy_and_truncate self d copied truncated in
      file_logger_thaw (log_all done (reaction d.result error))

-- What may happen to a logger: a call, or an operation, a timeout or an idle callback that is due.
pub data Event : Type 0 where
  logs : Str → Event
  writes : ℕ → Event
  write_fails : Event
  flushed : Event
  flushes : ℕ → Event
  freezes : Event
  thaws : Event
  rotates : Str → ℕ → ℕ → Event
  times_out : ℕ → (copied truncated : Bool) → Event
  runs_idle : Event

-- A write of `n` bytes is over: they are in the file. The stream never writes more than it was
-- given.
unfoldable pub after_write : FileLogger → Option Operation → Written → FileLogger
after_write self none size = self
after_write self (some Operation.flush) size = self
after_write self (some (Operation.write buf)) failed = on_log_entry_written self failed
after_write self (some (Operation.write buf)) (bytes n) =
    if leb n (length buf)
    then on_log_entry_written (record self { disk = self.disk ++ take n buf }) (bytes n)
    else self

module _ (reaction : Reaction) where
  unfoldable pub after_flush : FileLogger → Option Operation → FileLogger
  after_flush self (some Operation.flush) = on_flush reaction self
  after_flush self (some (Operation.write buf)) = self
  after_flush self none = self

  unfoldable pub after_timeout :
      FileLogger → ℕ → Option TruncateData → (copied truncated : Bool) → FileLogger
  after_timeout self i none copied truncated = self
  after_timeout self i (some d) copied truncated =
      copy_and_truncate_on_timeout reaction (record self { timeouts = remove_at i self.timeouts }) d
        copied truncated

  unfoldable pub after_idle : FileLogger → List (Callback × IoError) → FileLogger
  after_idle self [] = self
  after_idle self ((c, e) ∷ rest) = complete reaction (record self { idle = rest }) c (some e)

  -- One event. An event that is not due changes nothing.
  unfoldable pub step : FileLogger → Event → FileLogger
  step self (logs entry) = file_logger_log self entry
  step self (writes n) = after_write self self.stream (bytes n)
  step self write_fails = after_write self self.stream failed
  step self flushed = after_flush self self.stream
  step self (flushes c) = file_logger_flush self (client c)
  step self freezes = file_logger_freeze self
  step self thaws = file_logger_thaw self
  step self (rotates name timeout c) = file_logger_copy_and_truncate self name timeout c
  step self (times_out i copied truncated) =
      after_timeout self i (get_elem? self.timeouts i) copied truncated
  step self runs_idle = after_idle self self.idle

  unfoldable pub run : FileLogger → List Event → FileLogger
  run self [] = self
  run self (e ∷ es) = run (step self e) es
