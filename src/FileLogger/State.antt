-- ===== src/FileLogger/State.antt =====
-- The state of file-logger.c, and of the stream and the file that it writes.
use pool_dance.Prelude.{ℕ, Bool, true, false, Option, none, some, List, [], Str}

-- TruncateData. `result` names the callback of the caller of file_logger_copy_and_truncate.
pub record TruncateData : Type 0 where
  pub copy_file_name : Str
  pub timeout_before_truncate : ℕ
  pub result : ℕ

-- The callback of a GSimpleAsyncResult: a client's, by its number, or the one with which
-- file_logger_copy_and_truncate goes on.
pub data Callback : Type 0 where
  client : ℕ → Callback
  on_logger_flushed : TruncateData → Callback

-- The GIO errors that an asynchronous result carries here; `io_failed` is any that a copy or a
-- truncation gives.
pub data IoError : Type 0 where
  pending invalid_argument io_failed : IoError

-- The operation that the stream has pending. A write holds the bytes that it was given.
pub data Operation : Type 0 where
  write : Str → Operation
  flush : Operation

-- A copy of the file that was made, and whether the file was truncated after it.
pub record Copy : Type 0 where
  pub name : Str
  pub text : Str
  pub truncated : Bool

pub record FileLogger : Type 0 where
  -- whether there is a GFile
  pub has_file : Bool
  pub queue : List Str
  pub flushing : Bool
  pub async_result : Option Callback
  pub frozen : Bool
  pub write_all_string : Str
  -- the stream's pending operation, and what the file and its copies hold
  pub stream : Option Operation
  pub disk : Str
  pub copies : List Copy
  -- the main loop's work for the logger: results to complete in idle, and timeouts
  pub idle : List (Callback × IoError)
  pub timeouts : List TruncateData

unfoldable pub file_logger_new_from_stream : FileLogger
file_logger_new_from_stream = record {
  has_file = false;
  queue = [];
  flushing = false;
  async_result = none;
  frozen = false;
  write_all_string = [];
  stream = none;
  disk = [];
  copies = [];
  idle = [];
  timeouts = [];
}

-- `opened`: what the file holds, if g_file_append_to can open it.
unfoldable pub file_logger_new : (opened : Option Str) → Option FileLogger
file_logger_new none = none
file_logger_new (some text) =
    some (record file_logger_new_from_stream { has_file = true; disk = text })

-- g_output_stream_has_pending
abbrev pub has_pending : FileLogger → Bool
has_pending self = elim self.stream [ none ↦ false | some op ↦ true ]

-- No flush is under way.
abbrev pub no_result : FileLogger → Bool
no_result self = elim self.async_result [ none ↦ true | some c ↦ false ]
