-- ===== src/FileLogger/Untouched.antt =====
-- What the functions of a logger that only move text leave alone.
use pool_dance.Prelude.{
  ◌≡◌, refl, ◌∙◌, false, Option, none, some, List, [], ◌∷◌, ◌++◌, Str, ltb, leb, not, ◌&&◌, ◌||◌,
  take, if_cases, length, arith,
}
use pool_dance.FileLogger.State.{FileLogger, Operation, Callback, no_result}
use pool_dance.FileLogger.Methods.{
  gather, start_write, write_all, file_logger_log, file_logger_thaw,
}
use pool_dance.FileLogger.Events.{
  Written, failed, bytes, log_all, erase_written, written_rest, on_log_entry_written, after_write,
}

-- The five fields that matter are left alone.
pub record LeavesAlone (self self' : FileLogger) : Type 0 where
  pub file : self'.has_file ≡ self.has_file
  pub timeouts : self'.timeouts ≡ self.timeouts
  pub result : self'.async_result ≡ self.async_result
  pub idle : self'.idle ≡ self.idle
  pub copies : self'.copies ≡ self.copies

pub alone : (self : FileLogger) → LeavesAlone self self
alone self = record { file = refl; timeouts = refl; result = refl; idle = refl; copies = refl }

pub LeavesAlone-trans : {a b c : FileLogger} → LeavesAlone a b → LeavesAlone b c → LeavesAlone a c
LeavesAlone-trans f g = record {
  file = g.file ∙ f.file;
  timeouts = g.timeouts ∙ f.timeouts;
  result = g.result ∙ f.result;
  idle = g.idle ∙ f.idle;
  copies = g.copies ∙ f.copies;
}

pub write_all-LeavesAlone : (self : FileLogger) → LeavesAlone self (write_all self)
unfolding write_all gather start_write
write_all-LeavesAlone self = ground arith

pub file_logger_log-LeavesAlone :
    (self : FileLogger) (entry : Str) → LeavesAlone self (file_logger_log self entry)
unfolding file_logger_log
file_logger_log-LeavesAlone self entry =
    let queued : FileLogger = record self { queue = self.queue ++ (entry ++ (10 ∷ [])) ∷ [] } in
    let l = write_all-LeavesAlone queued in
    if_cases (LeavesAlone self) (not self.frozen && (not self.flushing && no_result self))
      (write_all queued) queued
      (λ _. record {
        file = l.file;
        timeouts = l.timeouts;
        result = l.result;
        idle = l.idle;
        copies = l.copies;
      })
      (λ _. record { file = refl; timeouts = refl; result = refl; idle = refl; copies = refl })

pub log_all-LeavesAlone : (self : FileLogger) (es : List Str) → LeavesAlone self (log_all self es)
unfolding log_all
log_all-LeavesAlone self [] = alone self
log_all-LeavesAlone self (e ∷ es) =
    LeavesAlone-trans (file_logger_log-LeavesAlone self e)
      (log_all-LeavesAlone (file_logger_log self e) es)

pub file_logger_thaw-LeavesAlone : (self : FileLogger) → LeavesAlone self (file_logger_thaw self)
unfolding file_logger_thaw
file_logger_thaw-LeavesAlone self =
    let thawed : FileLogger = record self { frozen = false } in
    let l = write_all-LeavesAlone thawed in
    if_cases (LeavesAlone self) (ltb 0 (length self.write_all_string) || ltb 0 (length self.queue))
      (write_all thawed) thawed
      (λ _. record {
        file = l.file;
        timeouts = l.timeouts;
        result = l.result;
        idle = l.idle;
        copies = l.copies;
      })
      (λ _. record { file = refl; timeouts = refl; result = refl; idle = refl; copies = refl })

pub erase_written-LeavesAlone :
    (self : FileLogger) (size : Written) → LeavesAlone self (erase_written self size)
unfolding erase_written
erase_written-LeavesAlone self failed = alone self
erase_written-LeavesAlone self (bytes n) = record {
  file = refl;
  timeouts = refl;
  result = refl;
  idle = refl;
  copies = refl;
}

pub written_rest-LeavesAlone :
    (self : FileLogger) (c : Option Callback) → LeavesAlone self (written_rest self c)
unfolding written_rest
written_rest-LeavesAlone self none = write_all-LeavesAlone self
written_rest-LeavesAlone self (some c) = record {
  file = refl;
  timeouts = refl;
  result = refl;
  idle = refl;
  copies = refl;
}

pub on_log_entry_written-LeavesAlone :
    (self : FileLogger) (size : Written) → LeavesAlone self (on_log_entry_written self size)
unfolding on_log_entry_written
on_log_entry_written-LeavesAlone self size =
    let erased = erase_written (record self { stream = none }) size in
    let e = erase_written-LeavesAlone (record self { stream = none }) size in
    let e' : LeavesAlone self erased = record {
      file = e.file;
      timeouts = e.timeouts;
      result = e.result;
      idle = e.idle;
      copies = e.copies;
    } in
    let flushed : FileLogger = record erased { flushing = false } in
    let f : LeavesAlone self flushed = record {
      file = e.file;
      timeouts = e.timeouts;
      result = e.result;
      idle = e.idle;
      copies = e.copies;
    } in
    if_cases (LeavesAlone self) erased.flushing _ _
      (λ _.
        if_cases (LeavesAlone self) (ltb 0 (length flushed.write_all_string)) _ _
          (λ _. LeavesAlone-trans f (write_all-LeavesAlone flushed))
          (λ _. LeavesAlone-trans f (written_rest-LeavesAlone flushed flushed.async_result)))
      (λ _. LeavesAlone-trans e' (written_rest-LeavesAlone erased erased.async_result))

pub after_write-LeavesAlone :
    (self : FileLogger) (op : Option Operation) (size : Written)
    → LeavesAlone self (after_write self op size)
unfolding after_write
after_write-LeavesAlone self none size = alone self
after_write-LeavesAlone self (some Operation.flush) size = alone self
after_write-LeavesAlone self (some (Operation.write buf)) failed =
    on_log_entry_written-LeavesAlone self failed
after_write-LeavesAlone self (some (Operation.write buf)) (bytes n) =
    let l =
      on_log_entry_written-LeavesAlone (record self { disk = self.disk ++ take n buf }) (bytes n) in
    if_cases (LeavesAlone self) (leb n (length buf)) _ _
      (λ _. record {
        file = l.file;
        timeouts = l.timeouts;
        result = l.result;
        idle = l.idle;
        copies = l.copies;
      })
      (λ _. alone self)
