-- ===== src/FileLogger/Rotation.antt =====
-- What a rotation of file-logger.c archives when it finds a write under way.
use pool_dance.Prelude.{
  ℕ, ◌≡◌, refl, sym, ap, ap₂, subst, ◌∙◌, true, false, none, some, List, [], ◌∷◌, ◌++◌,
  append_assoc, map, Str, length,
}
use pool_dance.FileLogger.State.{
  FileLogger, Copy, Operation, Callback, on_logger_flushed, IoError, TruncateData,
}
use pool_dance.FileLogger.Methods.{
  file_logger_flush, file_logger_freeze, file_logger_thaw, file_logger_copy_and_truncate,
}
use pool_dance.FileLogger.Events.{
  Reaction, erase_written, written_rest, on_log_entry_written, complete, flush_done, on_flush,
  copy_and_truncate, copy_and_truncate_on_timeout, Event, logs, writes, flushed, rotates, times_out,
  after_write, after_flush, after_timeout, step, run,
}
use pool_dance.FileLogger.Contents.{flat, flat-append, line}
use pool_dance.FileLogger.Conservation.{lines}
use pool_dance.FileLogger.Frozen.{
  with_queue, frozen_log_all, waits, take_whole, drop_whole, leb_refl, thaw-Starts,
}

-- A logger with a name that is writing its string, and nothing else.
unfoldable pub writing :
    (disk text : Str) (queue : List Str) (copies : List Copy) (idle : List (Callback × IoError))
    → FileLogger
writing disk text queue copies idle = record {
  has_file = true;
  queue = queue;
  flushing = false;
  async_result = none;
  frozen = false;
  write_all_string = text;
  stream = some (Operation.write text);
  disk = disk;
  copies = copies;
  idle = idle;
  timeouts = [];
}

-- The file is to be archived, and then the write ends, the stream is flushed and the time is over,
-- while further entries are logged.
unfoldable pub rotation :
    (text name : Str) (timeout callback : ℕ) (first second third : List Str) → List Event
rotation text name timeout callback first second third =
    rotates name timeout callback
    ∷ (map logs first
        ++ (writes (length text)
            ∷ (map logs second ++ (flushed ∷ (map logs third ++ times_out 0 true true ∷ [])))))

module _ (reaction : Reaction) (disk text : Str) (queue : List Str) (copies : List Copy)
    (idle : List (Callback × IoError)) where
  abbrev begun : FileLogger
  begun = writing disk text queue copies idle

  module _ (name : Str) (timeout callback : ℕ) (first second third : List Str) where
    abbrev from_third : List Event
    from_third = map logs third ++ times_out 0 true true ∷ []

    abbrev from_second : List Event
    from_second = map logs second ++ flushed ∷ from_third

    abbrev all_events : List Event
    all_events = rotation text name timeout callback first second third

    -- The copy holds the file with what was being written, and the file is empty; everything that
    -- was in the queue goes to the new file, before what was logged meanwhile and by the callback.
    pub record Archives (s : FileLogger) : Type 0 where
      pub archive :
          s.copies ≡ copies ++ (record { name = name; text = disk ++ text; truncated = true }) ∷ []
      pub empty : s.disk ≡ []
      pub next :
          s.write_all_string ++ flat s.queue
          ≡ flat queue
            ++ (lines first ++ (lines second ++ (lines third ++ lines (reaction callback none))))

    abbrev data_of : TruncateData
    data_of = record { copy_file_name = name; timeout_before_truncate = timeout; result = callback }

    abbrev asked : FileLogger
    asked = record begun {
      frozen = true;
      async_result = some (on_logger_flushed data_of);
      flushing = true;
    }

    abbrev flushing_now : List Str → FileLogger
    flushing_now q = record begun {
      frozen = true;
      async_result = some (on_logger_flushed data_of);
      queue = q;
      write_all_string = [];
      disk = disk ++ text;
      stream = some Operation.flush;
    }

    abbrev waiting_time : List Str → FileLogger
    waiting_time q = record begun {
      frozen = true;
      queue = q;
      write_all_string = [];
      disk = disk ++ text;
      stream = none;
      timeouts = data_of ∷ [];
    }

    abbrev archived_now : List Str → FileLogger
    archived_now q = record begun {
      frozen = true;
      queue = q;
      write_all_string = [];
      disk = [];
      copies = copies ++ (record { name = name; text = disk ++ text; truncated = true }) ∷ [];
      stream = none;
    }

    asking : step reaction begun (rotates name timeout callback) ≡ asked
    unfolding step file_logger_copy_and_truncate file_logger_freeze file_logger_flush writing
    asking = refl

    writing_ends :
        (q : List Str)
        → step reaction (record asked { queue = q }) (writes (length text)) ≡ flushing_now q
    unfolding step after_write on_log_entry_written erase_written written_rest writing
    writing_ends q = rw (leb_refl (length text), take_whole text, drop_whole text) refl

    flush_ends : (q : List Str) → step reaction (flushing_now q) flushed ≡ waiting_time q
    unfolding step after_flush on_flush flush_done complete writing
    flush_ends q = refl

    time_ends :
        (q : List Str)
        → step reaction (waiting_time q) (times_out 0 true true)
          ≡ file_logger_thaw (with_queue (archived_now q) (reaction callback none))
    unfolding step after_timeout copy_and_truncate_on_timeout copy_and_truncate writing
    time_ends q =
        ap file_logger_thaw (frozen_log_all (archived_now q) (reaction callback none) refl)

    -- The queue at the end: what was there, and what was logged at each stage.
    abbrev queued : List Str
    queued = ((queue ++ map line first) ++ map line second) ++ map line third

    rotation_run :
        run reaction begun all_events
        ≡ file_logger_thaw (with_queue (archived_now queued) (reaction callback none))
    unfolding rotation run writing
    rotation_run =
        let q1 = queue ++ map line first in
        let q2 = q1 ++ map line second in
        ap (λ s. run reaction s (map logs first ++ writes (length text) ∷ from_second)) asking
        ∙ waits reaction asked first (writes (length text) ∷ from_second) refl
        ∙ ap (λ s. run reaction s from_second) (writing_ends q1)
        ∙ waits reaction (flushing_now q1) second (flushed ∷ from_third) refl
        ∙ ap (λ s. run reaction s from_third) (flush_ends q2)
        ∙ waits reaction (waiting_time q2) third (times_out 0 true true ∷ []) refl
        ∙ time_ends queued

    flat-lines : (es : List Str) → flat (map line es) ≡ lines es
    unfolding flat
    flat-lines [] = refl
    flat-lines (e ∷ es) = ap (λ t. line e ++ t) (flat-lines es)

    more_queued : (q es : List Str) (t : Str) → flat q ≡ t → flat (q ++ map line es) ≡ t ++ lines es
    more_queued q es t e = flat-append q (map line es) ∙ ap₂ (λ u v. u ++ v) e (flat-lines es)

    -- However many entries are logged at each stage, the rotation of a logger that is writing its
    -- string archives the file with that string and empties the file. Everything that was in the
    -- queue when it was asked for, the entry of the block included, goes to the new file, before
    -- what was logged since.
    pub rotation-Archives : Archives (run reaction begun all_events)
    rotation-Archives =
        let last = with_queue (archived_now queued) (reaction callback none) in
        let started = thaw-Starts last in
        let t1 = more_queued queue first (flat queue) refl in
        let t2 = more_queued (queue ++ map line first) second _ t1 in
        let t3 = more_queued ((queue ++ map line first) ++ map line second) third _ t2 in
        let t4 = more_queued queued (reaction callback none) _ t3 in
        subst Archives (sym rotation_run) (record {
          archive = started.copies;
          empty = started.disk;
          next =
              started.text
              ∙ t4
              ∙ append_assoc ((flat queue ++ lines first) ++ lines second) (lines third)
                  (lines (reaction callback none))
              ∙ append_assoc (flat queue ++ lines first) (lines second)
                  (lines third ++ lines (reaction callback none))
              ∙ append_assoc (flat queue) (lines first)
                  (lines second ++ (lines third ++ lines (reaction callback none)));
        })
