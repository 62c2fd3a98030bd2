-- ===== src/Witness/LoggerRuns.antt =====
-- Runs of the theorems about file-logger.c.
use pool_dance.Prelude.{refl, true, List, [], ◌∷◌, codes}
use pool_dance.FileLogger.State.{FileLogger, file_logger_new_from_stream}
use pool_dance.FileLogger.Methods.{file_logger_copy_and_truncate}
use pool_dance.FileLogger.Events.{Reaction, Event, logs, writes, flushed, rotates, times_out, run}
use pool_dance.FileLogger.Contents.{Adds}
use pool_dance.FileLogger.Conservation.{lines, log_of, run-Adds}
use pool_dance.FileLogger.Rotation.{writing, rotation, Archives, rotation-Archives}
use pool_dance.FileLogger.Stuck.{StaysStuck, rotation_of_idle_logger}

-- The callback of a rotation logs that a round was closed, whatever its error.
abbrev closes_round : Reaction
closes_round c error = codes "round" ∷ []

abbrev opened : FileLogger
unfolding file_logger_new_from_stream
opened = record file_logger_new_from_stream { has_file = true }

abbrev events : List Event
events =
    logs (codes "share")
    ∷ logs (codes "block")
    ∷ rotates (codes "copy") 1 4
    ∷ writes 6
    ∷ writes 6
    ∷ flushed
    ∷ times_out 0 true true
    ∷ writes 6
    ∷ []

run-Adds_example :
    Adds opened (lines (log_of closes_round opened events)) (run closes_round opened events)
unfolding file_logger_new_from_stream
run-Adds_example = run-Adds closes_round opened events tt

rotation_of_idle_logger_example :
    StaysStuck opened
      (run closes_round (file_logger_copy_and_truncate opened (codes "copy") 1 4) events)
unfolding file_logger_new_from_stream
rotation_of_idle_logger_example =
    rotation_of_idle_logger closes_round opened (codes "copy") 1 4 events refl refl refl refl

-- A block is found while a share is being written: the entry of the block is in the queue.
rotation-Archives_example :
    Archives closes_round []
      (codes "share1")
      (codes "block9" ∷ [])
      []
      []
      (codes "copy")
      1
      4
      (codes "share2" ∷ [])
      []
      (codes "share3" ∷ [])
      (run closes_round (writing [] (codes "share1") (codes "block9" ∷ []) [] []) (
        rotation
          (codes "share1")
          (codes "copy")
          1
          4
          (codes "share2" ∷ [])
          []
          (codes "share3" ∷ [])))
rotation-Archives_example =
    rotation-Archives closes_round [] (codes "share1") (codes "block9" ∷ []) [] [] (codes "copy") 1
      4 (codes "share2" ∷ []) [] (codes "share3" ∷ [])
