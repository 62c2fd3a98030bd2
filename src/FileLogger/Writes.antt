-- ===== src/FileLogger/Writes.antt =====
-- What the callback of a write does to the text that a logger holds.
use pool_dance.Prelude.{
  ℕ, ◌≡◌, refl, sym, ap, subst, ◌∙◌, false, Option, none, some, ◌++◌, append_assoc, Str, ltb, leb,
  if_cases, length, take, drop, take-append-drop,
}
use pool_dance.FileLogger.State.{FileLogger, Operation, Callback}
use pool_dance.FileLogger.Events.{
  Written, failed, bytes, erase_written, written_rest, on_log_entry_written, after_write,
}
use pool_dance.FileLogger.Contents.{
  flat, archived, contents, Holds, IsBuffered, Keeps, Adds-Keeps, Keeps-of_eq, write_all-Keeps,
}

stream-erase_written :
    (self : FileLogger) (size : Written)
    → (erase_written (record self { stream = none }) size).stream ≡ none
unfolding erase_written
stream-erase_written self failed = refl
stream-erase_written self (bytes n) = refl

-- With nothing pending, whatever the string is.
quiet : (self : FileLogger) → self.stream ≡ none → IsBuffered self
quiet self e = subst (λ op. Holds op self.write_all_string) (sym e) tt

written_rest-Keeps :
    (self : FileLogger) (c : Option Callback)
    → self.stream ≡ none
    → Keeps self (written_rest self c)
unfolding written_rest
written_rest-Keeps self none e = write_all-Keeps self (quiet self e)
written_rest-Keeps self (some c) e = Keeps-of_eq self _ refl tt

-- The state that the callback of a write starts from holds what the logger held before.
on_log_entry_written-Keeps :
    (self : FileLogger) (size : Written) (before : FileLogger)
    → contents (erase_written (record self { stream = none }) size) ≡ contents before
    → Keeps before (on_log_entry_written self size)
unfolding on_log_entry_written
on_log_entry_written-Keeps self size before e =
    let erased = erase_written (record self { stream = none }) size in
    let idle : erased.stream ≡ none = stream-erase_written self size in
    let flushed : FileLogger = record erased { flushing = false } in
    let to_erased : Keeps before erased = Keeps-of_eq before erased e (quiet erased idle) in
    let to_flushed : Keeps before flushed = Keeps-of_eq before flushed e (quiet flushed idle) in
    if_cases (Keeps before) erased.flushing _ _
      (λ _.
        if_cases (Keeps before) (ltb 0 (length flushed.write_all_string)) _ _
          (λ _. Adds-Keeps to_flushed (write_all-Keeps flushed (quiet flushed idle)))
          (λ _. Adds-Keeps to_flushed (written_rest-Keeps flushed flushed.async_result idle)))
      (λ _. Adds-Keeps to_erased (written_rest-Keeps erased erased.async_result idle))

move_written : (d s q : Str) (n : ℕ) → (d ++ take n s) ++ (drop n s ++ q) ≡ d ++ (s ++ q)
move_written d s q n =
    append_assoc d (take n s) (drop n s ++ q)
    ∙ ap (λ z. d ++ z)
        (sym (append_assoc (take n s) (drop n s) q) ∙ ap (λ z. z ++ q) (take-append-drop n s))

pub after_write-Keeps :
    (self : FileLogger) (op : Option Operation) (size : Written)
    → Holds op self.write_all_string
    → IsBuffered self
    → Keeps self (after_write self op size)
unfolding after_write
after_write-Keeps self none size h v = Keeps-of_eq self self refl v
after_write-Keeps self (some Operation.flush) size h v = Keeps-of_eq self self refl v
after_write-Keeps self (some (Operation.write buf)) failed h v =
    on_log_entry_written-Keeps self failed self (unfold erase_written in refl)
after_write-Keeps self (some (Operation.write buf)) (bytes n) h v =
    if_cases (Keeps self) (leb n (length buf)) _ _
      (λ _.
        on_log_entry_written-Keeps (record self { disk = self.disk ++ take n buf }) (bytes n) self
          (unfold erase_written in written))
      (λ _. Keeps-of_eq self self refl v)
  where
    written :
        archived self.copies
          ++ ((self.disk ++ take n buf) ++ (drop n self.write_all_string ++ flat self.queue))
        ≡ contents self
    written = rw h (
        ap (λ z. archived self.copies ++ z)
          (move_written self.disk self.write_all_string (flat self.queue) n))
