-- ===== src/FileLogger/Conservation.antt =====
-- No event of a logger loses, repeats or reorders an entry.
use pool_dance.Prelude.{
  remove_at, ℕ, ◌≡◌, refl, sym, ap, subst, ◌∙◌, Bool, true, false, Option, none, some, List, [],
  ◌∷◌, ◌++◌, append_assoc, append-nil, Str, if◌then◌else◌, get_elem?,
}
use pool_dance.FileLogger.State.{
  FileLogger, Copy, Operation, Callback, client, on_logger_flushed, IoError, io_failed,
  TruncateData,
}
use pool_dance.FileLogger.Methods.{file_logger_log, file_logger_freeze}
use pool_dance.FileLogger.Events.{
  failed, bytes, Reaction, log_all, complete, on_flush, flush_done, copy_and_truncate,
  copy_and_truncate_on_timeout, Event, logs, writes, write_fails, flushed, flushes, freezes, thaws,
  rotates, times_out, runs_idle, after_flush, after_timeout, after_idle, step, run,
}
use pool_dance.FileLogger.Writes.{after_write-Keeps}
use pool_dance.FileLogger.Contents.{
  flat, archived, archived-append, contents, IsBuffered, Adds, Keeps, Adds-trans, Adds-Keeps,
  Keeps-of_eq, line, file_logger_log-Adds, file_logger_flush-Keeps, file_logger_thaw-Keeps,
  file_logger_copy_and_truncate-Keeps,
}

abbrev pub lines : List Str → Str
lines [] = []
lines (e ∷ es) = line e ++ lines es

pub lines-append : (xs ys : List Str) → lines (xs ++ ys) ≡ lines xs ++ lines ys
lines-append [] ys = refl
lines-append (x ∷ xs) ys =
    ap (λ z. line x ++ z) (lines-append xs ys) ∙ sym (append_assoc (line x) (lines xs) (lines ys))

log_all-Adds :
    (self : FileLogger) (es : List Str) → IsBuffered self → Adds self (lines es) (log_all self es)
unfolding log_all
log_all-Adds self [] h = Keeps-of_eq self self refl h
log_all-Adds self (e ∷ es) h =
    let one = file_logger_log-Adds self e h in
    Adds-trans (line e) (lines es) one (log_all-Adds (file_logger_log self e) es one.buffered)

-- The entries that an event logs: a call's, or those of the callback that it runs.
abbrev entries_of : Reaction → Callback → Option IoError → List Str
entries_of reaction (client c) error = reaction c error
entries_of reaction (on_logger_flushed d) none = []
entries_of reaction (on_logger_flushed d) (some e) = reaction d.result (some e)

abbrev flush_entries : Reaction → Option Operation → Option Callback → List Str
flush_entries reaction (some Operation.flush) (some c) = entries_of reaction c none
flush_entries reaction (some Operation.flush) none = []
flush_entries reaction (some (Operation.write buf)) c = []
flush_entries reaction none c = []

abbrev rotation_error : (copied truncated : Bool) → Option IoError
rotation_error true true = none
rotation_error true false = some io_failed
rotation_error false truncated = some io_failed

abbrev timeout_entries : Reaction → Option TruncateData → (copied truncated : Bool) → List Str
timeout_entries reaction none copied truncated = []
timeout_entries reaction (some d) copied truncated =
    reaction d.result (rotation_error copied truncated)

abbrev idle_entries : Reaction → List (Callback × IoError) → List Str
idle_entries reaction [] = []
idle_entries reaction ((c, e) ∷ rest) = entries_of reaction c (some e)

abbrev pub entries : Reaction → FileLogger → Event → List Str
entries reaction self (logs entry) = entry ∷ []
entries reaction self flushed = flush_entries reaction self.stream self.async_result
entries reaction self (times_out i copied truncated) =
    timeout_entries reaction (get_elem? self.timeouts i) copied truncated
entries reaction self runs_idle = idle_entries reaction self.idle
entries reaction self (writes n) = []
entries reaction self write_fails = []
entries reaction self (flushes c) = []
entries reaction self freezes = []
entries reaction self thaws = []
entries reaction self (rotates name timeout c) = []

archived-add :
    (cs : List Copy) (c : Copy)
    → archived (cs ++ c ∷ []) ≡ archived cs ++ (if c.truncated then c.text else [])
unfolding archived
archived-add cs c =
    archived-append cs (c ∷ [])
    ∙ ap (λ z. archived cs ++ z) (append-nil (if c.truncated then c.text else []))

copy_and_truncate-Keeps :
    (self : FileLogger) (d : TruncateData) (copied truncated : Bool)
    → IsBuffered self
    → Keeps self (copy_and_truncate self d copied truncated).0
      × ((copy_and_truncate self d copied truncated).1 ≡ rotation_error copied truncated)
unfolding copy_and_truncate
copy_and_truncate-Keeps self d false truncated h = (Keeps-of_eq self self refl h, refl)
copy_and_truncate-Keeps self d true false h = (
  Keeps-of_eq self _ (rw (archived-add self.copies _) (rw (append-nil (archived self.copies)) refl))
      h,
  refl,
)
copy_and_truncate-Keeps self d true true h = (
  Keeps-of_eq self _
      (rw (archived-add self.copies _)
        (append_assoc (archived self.copies) self.disk (self.write_all_string ++ flat self.queue)))
      h,
  refl,
)

module _ (reaction : Reaction) where
  complete-Adds :
      (self : FileLogger) (c : Callback) (error : Option IoError)
      → IsBuffered self
      → Adds self (lines (entries_of reaction c error)) (complete reaction self c error)
  unfolding complete
  complete-Adds self (client c) error h = log_all-Adds self (reaction c error) h
  complete-Adds self (on_logger_flushed d) none h = Keeps-of_eq self _ refl h
  complete-Adds self (on_logger_flushed d) (some e) h =
      log_all-Adds self (reaction d.result (some e)) h

  Adds-from :
      (self before : FileLogger) {t : Str} {after : FileLogger}
      → contents self ≡ contents before
      → Adds self t after
      → Adds before t after
  Adds-from self before {t} e a = record {
    kept = a.kept ∙ ap (λ z. z ++ t) e;
    buffered = a.buffered;
  }

  flush-Adds :
      (self : FileLogger) (op : Option Operation) (c : Option Callback)
      → self.async_result ≡ c
      → IsBuffered self
      → Adds self (lines (flush_entries reaction op c)) (after_flush reaction self op)
  unfolding after_flush on_flush flush_done
  flush-Adds self none c e h = Keeps-of_eq self self refl h
  flush-Adds self (some (Operation.write buf)) c e h = Keeps-of_eq self self refl h
  flush-Adds self (some Operation.flush) c e h =
      subst
        (λ r.
          Adds self (lines (flush_entries reaction (some Operation.flush) c))
            (flush_done reaction self r))
        (sym e) (done c)
    where
      done :
          (c : Option Callback)
          → Adds self
              (lines (flush_entries reaction (some Operation.flush) c))
              (flush_done reaction self c)
      done none = Keeps-of_eq self _ refl tt
      done (some c) =
          Adds-from (record self { stream = none; async_result = none }) self refl
            (complete-Adds (record self { stream = none; async_result = none }) c none tt)

  timeout-Adds :
      (self : FileLogger) (i : ℕ) (d : Option TruncateData) (copied truncated : Bool)
      → IsBuffered self
      → Adds self
          (lines (timeout_entries reaction d copied truncated))
          (after_timeout reaction self i d copied truncated)
  unfolding after_timeout copy_and_truncate_on_timeout
  timeout-Adds self i none copied truncated h = Keeps-of_eq self self refl h
  timeout-Adds self i (some d) copied truncated h =
      let started : FileLogger = record self { timeouts = remove_at i self.timeouts } in
      let (kept, error) = copy_and_truncate-Keeps started d copied truncated h in
      let logged =
        log_all-Adds (copy_and_truncate started d copied truncated).0
          (reaction d.result (rotation_error copied truncated)) kept.buffered in
      rw error (
        Adds-Keeps
          (Adds-from started self refl (
            Adds-trans [] (lines (reaction d.result (rotation_error copied truncated))) kept
              logged))
          (file_logger_thaw-Keeps _ logged.buffered))

  idle-Adds :
      (self : FileLogger) (l : List (Callback × IoError))
      → IsBuffered self
      → Adds self (lines (idle_entries reaction l)) (after_idle reaction self l)
  unfolding after_idle
  idle-Adds self [] h = Keeps-of_eq self self refl h
  idle-Adds self ((c, e) ∷ rest) h =
      Adds-from (record self { idle = rest }) self refl
        (complete-Adds (record self { idle = rest }) c (some e) h)

  -- Each event adds the entries that it logs at the end, whole and in order, and nothing else.
  pub step-Adds :
      (self : FileLogger) (e : Event)
      → IsBuffered self
      → Adds self (lines (entries reaction self e)) (step reaction self e)
  unfolding step
  step-Adds self (logs entry) h =
      subst (λ t. Adds self t (file_logger_log self entry)) (sym (append-nil (line entry)))
        (file_logger_log-Adds self entry h)
  step-Adds self (writes n) h = after_write-Keeps self self.stream (bytes n) h h
  step-Adds self write_fails h = after_write-Keeps self self.stream failed h h
  step-Adds self flushed h = flush-Adds self self.stream self.async_result refl h
  step-Adds self (flushes c) h = file_logger_flush-Keeps self (client c) h
  step-Adds self freezes h = unfold file_logger_freeze in Keeps-of_eq self _ refl h
  step-Adds self thaws h = file_logger_thaw-Keeps self h
  step-Adds self (rotates name timeout c) h =
      file_logger_copy_and_truncate-Keeps self name timeout c h
  step-Adds self (times_out i copied truncated) h =
      timeout-Adds self i (get_elem? self.timeouts i) copied truncated h
  step-Adds self runs_idle h = idle-Adds self self.idle h

  -- Everything logged in a run, oldest first.
  unfoldable pub log_of : FileLogger → List Event → List Str
  log_of self [] = []
  log_of self (e ∷ es) = entries reaction self e ++ log_of (step reaction self e) es

  -- If a write that is pending is of the string, then after any run it is so again, and the
  -- archived rounds, the file, the string being written and the queue hold, in this order, what
  -- they held before and then every entry logged in the run, each once, whole and in the order of
  -- logging.
  pub run-Adds :
      (self : FileLogger) (es : List Event)
      → IsBuffered self
      → Adds self (lines (log_of self es)) (run reaction self es)
  unfolding run log_of
  run-Adds self [] h = Keeps-of_eq self self refl h
  run-Adds self (e ∷ es) h =
      let one = step-Adds self e h in
      let rest = run-Adds (step reaction self e) es one.buffered in
      subst (λ t. Adds self t (run reaction (step reaction self e) es))
        (sym (lines-append (entries reaction self e) (log_of (step reaction self e) es)))
        (Adds-trans (lines (entries reaction self e)) (lines (log_of (step reaction self e) es)) one
          rest)
