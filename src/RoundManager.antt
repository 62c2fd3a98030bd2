-- ===== src/RoundManager.antt =====
-- round-manager.c: the shares and blocks of a round, logged to a file that is archived with each
-- block.
pub mod Readable
use pool_dance.Prelude.{
  ℕ, Bool, true, false, Option, none, some, List, [], ◌∷◌, ◌++◌, Str, codes, ◌==◌, if◌then◌else◌,
  strcmp0_eq, Outcome, ok, fault, null_pointer, ◌>>=◌,
}
use pool_dance.Format.{text, quoted, decimal, tabs}
use pool_dance.FileLogger.State.{FileLogger, IoError, file_logger_new, file_logger_new_from_stream}
use pool_dance.FileLogger.Methods.{file_logger_log, file_logger_copy_and_truncate}
use pool_dance.FileLogger.Events.{Reaction}

pub record RoundManager : Type 0 where
  -- NULL until the round file is open
  pub logger : Option FileLogger
  pub log_file_name : Str

abbrev pub default_round_file : Str
default_round_file = codes "/var/lib/pool-dance/round"

abbrev pub configured : Option Str → Str
configured none = default_round_file
configured (some []) = default_round_file
configured (some (c ∷ s)) = c ∷ s

unfoldable pub round_manager_new : (round_file : Option Str) → RoundManager
round_manager_new round_file = record { logger = none; log_file_name = configured round_file }

-- `now` is the time in seconds.
unfoldable pub started_entry : (now : ℕ) → Str
started_entry now = tabs (decimal now ∷ codes "STARTED" ∷ [])

unfoldable pub resumed_entry : (now : ℕ) → Str
resumed_entry now = tabs (decimal now ∷ codes "RESUMED" ∷ [])

unfoldable pub share_entry : (now result_code : ℕ) → (user passw : Option Str) → Str
share_entry now result_code user passw = tabs (
    decimal now
    ∷ codes "SHARE"
    ∷ decimal result_code
    ∷ quoted (text user)
    ∷ quoted (text passw)
    ∷ [])

unfoldable pub block_entry : (now block : ℕ) → (user passw : Option Str) → Str
block_entry now block user passw =
    tabs
      (decimal now ∷ codes "BLOCK" ∷ decimal block ∷ quoted (text user) ∷ quoted (text passw) ∷ [])

-- What g_file_create comes to, and for a file that is there, the text that file_logger_new finds
-- in it if it can be opened.
pub data Creation : Type 0 where
  created : Creation
  existed : (opened : Option Str) → Creation
  not_created : Creation

abbrev pub resume : (now : ℕ) → Option FileLogger → Option FileLogger
resume now none = none
resume now (some logger) = some (file_logger_log logger (resumed_entry now))

-- The new state, and whether the round file is open.
unfoldable pub init_log_file : RoundManager → (now : ℕ) → Creation → RoundManager × Bool
init_log_file self now created = (
  record self { logger = some (file_logger_log file_logger_new_from_stream (started_entry now)) },
  true,
)
init_log_file self now (existed none) = (record self { logger = none }, false)
init_log_file self now (existed (some file)) =
    (record self { logger = resume now (file_logger_new (some file)) }, true)
init_log_file self now not_created = (self, false)

-- file_logger_log of a NULL logger reads through it.
abbrev pub with_logger : RoundManager → (FileLogger → FileLogger) → Outcome RoundManager
with_logger self f = elim self.logger [
  | none ↦ fault null_pointer
  | some logger ↦ ok (record self { logger = some (f logger) })
]

unfoldable pub on_work_validated :
    RoundManager → (now result_code : ℕ) → (user passw : Option Str) → Outcome RoundManager
on_work_validated self now result_code user passw =
    with_logger self (λ logger. file_logger_log logger (share_entry now result_code user passw))

-- The entry that the callback of a rotation logs: a new round, if the file was truncated.
abbrev pub on_copy_and_truncate : (now : ℕ) → Reaction
on_copy_and_truncate now callback none = started_entry now ∷ []
on_copy_and_truncate now callback (some e) = []

abbrev pub archive_name : Str → ℕ → Str
archive_name log_file_name block = log_file_name ++ (46 ∷ decimal block)

-- The callback is on_copy_and_truncate, by the number 0.
unfoldable pub on_block_found :
    RoundManager → (now block : ℕ) → (user passw : Option Str) → Outcome RoundManager
on_block_found self now block user passw = with_logger self (λ logger.
    file_logger_copy_and_truncate (file_logger_log logger (block_entry now block user passw))
      (archive_name self.log_file_name block) 1000 0)
