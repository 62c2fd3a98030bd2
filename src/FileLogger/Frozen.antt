-- ===== src/FileLogger/Frozen.antt =====
-- A logger that is frozen only queues its entries, and a thaw starts to write them.
use pool_dance.Prelude.{
  ℕ, ◌≡◌, refl, sym, ap, ◌∙◌, arith, true, false, List, [], ◌∷◌, ◌++◌, append-nil, append_assoc,
  map, Str, ltb, leb, length, take, drop, take_all, drop_all, if_cases, ◌||◌,
}
use pool_dance.FileLogger.State.{FileLogger}
use pool_dance.FileLogger.Methods.{
  gather, start_write, write_all, file_logger_log, file_logger_thaw,
}
use pool_dance.FileLogger.Events.{Reaction, log_all, Event, logs, step, run}
use pool_dance.FileLogger.Contents.{flat, line, drain-flat}

run-append :
    (reaction : Reaction) (self : FileLogger) (es fs : List Event)
    → run reaction self (es ++ fs) ≡ run reaction (run reaction self es) fs
unfolding run
run-append reaction self [] fs = refl
run-append reaction self (e ∷ es) fs = run-append reaction (step reaction self e) es fs

-- While the logger is frozen, entries only wait.
abbrev pub with_queue : FileLogger → List Str → FileLogger
with_queue self entries = record self { queue = self.queue ++ map line entries }

frozen_log :
    (self : FileLogger) (entry : Str)
    → self.frozen ≡ true
    → file_logger_log self entry ≡ record self { queue = self.queue ++ line entry ∷ [] }
unfolding file_logger_log
frozen_log self entry e = ground arith

pub frozen_log_all :
    (self : FileLogger) (entries : List Str)
    → self.frozen ≡ true
    → log_all self entries ≡ with_queue self entries
unfolding log_all
frozen_log_all self [] e = ap (λ q. record self { queue = q }) (sym (append-nil self.queue))
frozen_log_all self (entry ∷ entries) e =
    ap (λ s. log_all s entries) (frozen_log self entry e)
    ∙ frozen_log_all (record self { queue = self.queue ++ line entry ∷ [] }) entries e
    ∙ ap (λ q. record self { queue = q })
        (append_assoc self.queue (line entry ∷ []) (map line entries))

frozen_run :
    (reaction : Reaction) (self : FileLogger) (entries : List Str)
    → self.frozen ≡ true
    → run reaction self (map logs entries) ≡ with_queue self entries
unfolding run step
frozen_run reaction self [] e = ap (λ q. record self { queue = q }) (sym (append-nil self.queue))
frozen_run reaction self (entry ∷ entries) e =
    ap (λ s. run reaction s (map logs entries)) (frozen_log self entry e)
    ∙ frozen_run reaction (record self { queue = self.queue ++ line entry ∷ [] }) entries e
    ∙ ap (λ q. record self { queue = q })
        (append_assoc self.queue (line entry ∷ []) (map line entries))

-- Starting a write moves entries from the queue to the string, and nothing else.
pub record Starts (self s : FileLogger) : Type 0 where
  pub copies : s.copies ≡ self.copies
  pub disk : s.disk ≡ self.disk
  pub text : s.write_all_string ++ flat s.queue ≡ self.write_all_string ++ flat self.queue

write_all-Starts : (self : FileLogger) → Starts self (write_all self)
unfolding write_all start_write gather flat
write_all-Starts self = record {
  copies = ground arith;
  disk = ground arith;
  text = ground (
    arith,
    drain-flat self.queue self.write_all_string,
    append-nil (self.write_all_string ++ flat self.queue),
  );
}

pub thaw-Starts : (self : FileLogger) → Starts self (file_logger_thaw self)
unfolding file_logger_thaw
thaw-Starts self =
    let thawed : FileLogger = record self { frozen = false } in
    let written = write_all-Starts thawed in
    if_cases (Starts self) (ltb 0 (length self.write_all_string) || ltb 0 (length self.queue)) _
      thawed (λ work. record { copies = written.copies; disk = written.disk; text = written.text })
      (λ idle. record { copies = refl; disk = refl; text = refl })

pub waits :
    (reaction : Reaction) (self : FileLogger) (entries : List Str) (rest : List Event)
    → self.frozen ≡ true
    → run reaction self (map logs entries ++ rest) ≡ run reaction (with_queue self entries) rest
waits reaction self entries rest e =
    run-append reaction self (map logs entries) rest
    ∙ ap (λ s. run reaction s rest) (frozen_run reaction self entries e)

-- All of the string is written.
pub take_whole : (s : Str) → take (length s) s ≡ s
take_whole s = take_all (length s) s refl

pub drop_whole : (s : Str) → drop (length s) s ≡ []
drop_whole s = drop_all (length s) s refl

pub leb_refl : (n : ℕ) → leb n n ≡ true
leb_refl n = ground arith
