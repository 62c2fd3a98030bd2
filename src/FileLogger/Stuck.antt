-- ===== src/FileLogger/Stuck.antt =====
-- A flush of a logger that has nothing to write never completes, and stops the logger for good.
use pool_dance.Prelude.{
  remove_at, ℕ, ◌≡◌, refl, sym, subst, ◌⊎◌, inl, Bool, true, false, Option, none, some, List, [],
  ◌∷◌, Str, if_cases, get_elem?, arith,
}
use pool_dance.FileLogger.State.{
  FileLogger, Operation, Callback, client, on_logger_flushed, IoError, TruncateData, no_result,
}
use pool_dance.FileLogger.Methods.{
  gather, start_write, write_all, file_logger_log, file_logger_flush, file_logger_freeze,
  file_logger_thaw, file_logger_copy_and_truncate,
}
use pool_dance.FileLogger.Events.{
  Reaction, Written, failed, bytes, log_all, complete, copy_and_truncate,
  copy_and_truncate_on_timeout, Event, logs, writes, write_fails, flushed, flushes, freezes, thaws,
  rotates, times_out, runs_idle, after_write, after_flush, after_timeout, after_idle, step, run,
}

-- A flush is waited for, but nothing is being written and there is nothing to write.
pub record IsStuck (self : FileLogger) : Type 0 where
  pub quiet : self.stream ≡ none
  pub nothing : self.write_all_string ≡ []
  pub waiting : no_result self ≡ false

-- From `self` to `self'` the logger stays stuck, and nothing is added to the file.
pub record StaysStuck (self self' : FileLogger) : Type 0 where
  pub stuck : IsStuck self'
  pub unwritten : (self'.disk ≡ self.disk) ⊎ (self'.disk ≡ [])

StaysStuck-trans : {a b c : FileLogger} → StaysStuck a b → StaysStuck b c → StaysStuck a c
StaysStuck-trans f g = record { stuck = g.stuck; unwritten = ground arith }

stays : (self : FileLogger) → IsStuck self → StaysStuck self self
stays self h = record { stuck = h; unwritten = inl refl }

write_all-stuck : (self : FileLogger) → IsStuck self → write_all self ≡ self
unfolding write_all gather start_write
write_all-stuck self h = ground arith

log-stuck :
    (self : FileLogger) (entry : Str) → IsStuck self → StaysStuck self (file_logger_log self entry)
unfolding file_logger_log
log-stuck self entry h = ground arith

log_all-stuck :
    (self : FileLogger) (es : List Str) → IsStuck self → StaysStuck self (log_all self es)
unfolding log_all
log_all-stuck self [] h = stays self h
log_all-stuck self (e ∷ es) h =
    let one = log-stuck self e h in
    StaysStuck-trans one (log_all-stuck (file_logger_log self e) es one.stuck)

flush-stuck :
    (self : FileLogger) (c : Callback) → IsStuck self → StaysStuck self (file_logger_flush self c)
unfolding file_logger_flush
flush-stuck self c h = ground arith

thaw-stuck : (self : FileLogger) → IsStuck self → StaysStuck self (file_logger_thaw self)
unfolding file_logger_thaw
thaw-stuck self h = ground (arith, write_all-stuck (record self { frozen = false }))

rotate-stuck :
    (self : FileLogger) (name : Str) (timeout c : ℕ)
    → IsStuck self
    → StaysStuck self (file_logger_copy_and_truncate self name timeout c)
unfolding file_logger_copy_and_truncate file_logger_freeze
rotate-stuck self name timeout c h =
    let frozen : FileLogger = record self { frozen = true } in
    let frozen_stuck : IsStuck frozen = record {
      quiet = h.quiet;
      nothing = h.nothing;
      waiting = h.waiting;
    } in
    if_cases (StaysStuck self) self.has_file _ _
      (λ named.
        let r = flush-stuck frozen _ frozen_stuck in
        record { stuck = r.stuck; unwritten = r.unwritten })
      (λ unnamed. record {
        stuck = record { quiet = h.quiet; nothing = h.nothing; waiting = h.waiting };
        unwritten = inl refl;
      })

copy_and_truncate-stuck :
    (self : FileLogger) (d : TruncateData) (copied truncated : Bool)
    → IsStuck self
    → StaysStuck self (copy_and_truncate self d copied truncated).0
unfolding copy_and_truncate
copy_and_truncate-stuck self d false truncated h = stays self h
copy_and_truncate-stuck self d true false h = ground arith
copy_and_truncate-stuck self d true true h = ground arith

after_write-stuck :
    (self : FileLogger) (op : Option Operation) (size : Written)
    → self.stream ≡ op
    → IsStuck self
    → after_write self op size ≡ self
unfolding after_write
after_write-stuck self none size e h = refl
after_write-stuck self (some op) size e h = let q = h.quiet in cc

module _ (reaction : Reaction) where
  complete-stuck :
      (self : FileLogger) (c : Callback) (error : Option IoError)
      → IsStuck self
      → StaysStuck self (complete reaction self c error)
  unfolding complete
  complete-stuck self (client c) error h = log_all-stuck self (reaction c error) h
  complete-stuck self (on_logger_flushed d) none h = ground arith
  complete-stuck self (on_logger_flushed d) (some e) h =
      log_all-stuck self (reaction d.result (some e)) h

  after_flush-stuck :
      (self : FileLogger) (op : Option Operation)
      → self.stream ≡ op
      → IsStuck self
      → after_flush reaction self op ≡ self
  unfolding after_flush
  after_flush-stuck self none e h = refl
  after_flush-stuck self (some op) e h = let q = h.quiet in cc

  timeout-stuck :
      (self : FileLogger) (i : ℕ) (d : Option TruncateData) (copied truncated : Bool)
      → IsStuck self
      → StaysStuck self (after_timeout reaction self i d copied truncated)
  unfolding after_timeout copy_and_truncate_on_timeout
  timeout-stuck self i none copied truncated h = stays self h
  timeout-stuck self i (some d) copied truncated h =
      let started : FileLogger = record self { timeouts = remove_at i self.timeouts } in
      let begun : IsStuck started = record {
        quiet = h.quiet;
        nothing = h.nothing;
        waiting = h.waiting;
      } in
      let r = copy_and_truncate-stuck started d copied truncated begun in
      let l =
        log_all-stuck (copy_and_truncate started d copied truncated).0
          (reaction d.result (copy_and_truncate started d copied truncated).1) r.stuck in
      let t = thaw-stuck _ l.stuck in
      let whole = StaysStuck-trans r (StaysStuck-trans l t) in
      record { stuck = whole.stuck; unwritten = whole.unwritten }

  idle-stuck :
      (self : FileLogger) (l : List (Callback × IoError))
      → IsStuck self
      → StaysStuck self (after_idle reaction self l)
  unfolding after_idle
  idle-stuck self [] h = stays self h
  idle-stuck self ((c, e) ∷ rest) h =
      let begun : IsStuck (record self { idle = rest }) = record {
        quiet = h.quiet;
        nothing = h.nothing;
        waiting = h.waiting;
      } in
      let r = complete-stuck (record self { idle = rest }) c (some e) begun in
      record { stuck = r.stuck; unwritten = r.unwritten }

  step-stuck :
      (self : FileLogger) (e : Event) → IsStuck self → StaysStuck self (step reaction self e)
  unfolding step file_logger_freeze
  step-stuck self (logs entry) h = log-stuck self entry h
  step-stuck self (writes n) h =
      subst (StaysStuck self) (sym (after_write-stuck self self.stream (bytes n) refl h))
        (stays self h)
  step-stuck self write_fails h =
      subst (StaysStuck self) (sym (after_write-stuck self self.stream failed refl h))
        (stays self h)
  step-stuck self flushed h =
      subst (StaysStuck self) (sym (after_flush-stuck self self.stream refl h)) (stays self h)
  step-stuck self (flushes c) h = flush-stuck self (client c) h
  step-stuck self freezes h = record {
    stuck = record { quiet = h.quiet; nothing = h.nothing; waiting = h.waiting };
    unwritten = inl refl;
  }
  step-stuck self thaws h = thaw-stuck self h
  step-stuck self (rotates name timeout c) h = rotate-stuck self name timeout c h
  step-stuck self (times_out i copied truncated) h =
      timeout-stuck self i (get_elem? self.timeouts i) copied truncated h
  step-stuck self runs_idle h = idle-stuck self self.idle h

  run-stuck :
      (self : FileLogger) (es : List Event) → IsStuck self → StaysStuck self (run reaction self es)
  unfolding run
  run-stuck self [] h = stays self h
  run-stuck self (e ∷ es) h =
      let one = step-stuck self e h in
      StaysStuck-trans one (run-stuck (step reaction self e) es one.stuck)

  -- If a round is closed while nothing is being written, no text waits in the string and no flush
  -- is under way, as when the logger is still frozen from the round before, then whatever happens
  -- afterwards nothing is written to the file again.
  pub rotation_of_idle_logger :
      (self : FileLogger) (name : Str) (timeout c : ℕ) (es : List Event)
      → self.has_file ≡ true
      → self.stream ≡ none
      → self.write_all_string ≡ []
      → self.async_result ≡ none
      → StaysStuck self (run reaction (file_logger_copy_and_truncate self name timeout c) es)
  unfolding file_logger_copy_and_truncate file_logger_flush write_all gather start_write
      file_logger_freeze
  rotation_of_idle_logger self name timeout c es named idle empty unflushed =
      let first : StaysStuck self (file_logger_copy_and_truncate self name timeout c) =
        ground arith in
      StaysStuck-trans first
        (run-stuck (file_logger_copy_and_truncate self name timeout c) es first.stuck)
