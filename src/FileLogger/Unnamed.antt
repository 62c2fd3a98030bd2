-- ===== src/FileLogger/Unnamed.antt =====
-- A logger that was made from a stream has no file to copy, and is never archived.
use pool_dance.Prelude.{
  ℕ, ◌≡◌, refl, sym, ap, subst, ◌∙◌, Bool, false, Option, none, some, List, [], ◌∷◌, ◌++◌, Str,
  if_cases, if_of_false, get_elem?, All,
}
use pool_dance.FileLogger.State.{
  FileLogger, Operation, Callback, client, on_logger_flushed, IoError, has_pending, no_result,
  file_logger_new_from_stream,
}
use pool_dance.FileLogger.Methods.{
  write_all, file_logger_flush, file_logger_freeze, file_logger_copy_and_truncate,
}
use pool_dance.FileLogger.Events.{
  Reaction, failed, bytes, complete, flush_done, on_flush, Event, logs, writes, write_fails,
  flushed, flushes, freezes, thaws, rotates, times_out, runs_idle, after_flush, after_timeout,
  after_idle, step, run,
}
use pool_dance.FileLogger.Untouched.{
  LeavesAlone, alone, file_logger_log-LeavesAlone, log_all-LeavesAlone,
  file_logger_thaw-LeavesAlone, after_write-LeavesAlone, write_all-LeavesAlone,
}

-- The callback is a client's.
abbrev pub IsClient : Callback → Type 0
IsClient (client c) = Unit {0}
IsClient (on_logger_flushed d) = ⊥

abbrev pub AllClient : Option Callback → Type 0
AllClient none = Unit {0}
AllClient (some c) = IsClient c

-- There is no file, and nothing that would go on with a rotation.
pub record IsUnnamed (self : FileLogger) : Type 0 where
  pub unnamed : self.has_file ≡ false
  pub no_timeout : self.timeouts ≡ []
  pub waiting : AllClient self.async_result
  pub idle : All (λ e. IsClient e.0) self.idle

-- From `self` to `self'` no copy was made, and no rotation was begun.
pub record Unarchived (self self' : FileLogger) : Type 0 where
  pub unnamed : IsUnnamed self'
  pub copies : self'.copies ≡ self.copies

left_alone :
    (self self' : FileLogger) → LeavesAlone self self' → IsUnnamed self → Unarchived self self'
left_alone self self' l v = record {
  unnamed = record {
    unnamed = l.file ∙ v.unnamed;
    no_timeout = l.timeouts ∙ v.no_timeout;
    waiting = subst AllClient (sym l.result) v.waiting;
    idle = subst (All (λ e. IsClient e.0)) (sym l.idle) v.idle;
  };
  copies = l.copies;
}

Unarchived-trans : {a b c : FileLogger} → Unarchived a b → Unarchived b c → Unarchived a c
Unarchived-trans f g = record { unnamed = g.unnamed; copies = g.copies ∙ f.copies }

AllClient-append :
    (l : List (Callback × IoError)) (c : Callback × IoError)
    → All (λ e. IsClient e.0) l
    → IsClient c.0
    → All (λ e. IsClient e.0) (l ++ c ∷ [])
AllClient-append [] c h k = (k, tt)
AllClient-append (d ∷ l) c h k = (h.0, AllClient-append l c h.1 k)

flush-Unarchived :
    (self : FileLogger) (n : ℕ)
    → IsUnnamed self
    → Unarchived self (file_logger_flush self (client n))
unfolding file_logger_flush
flush-Unarchived self n v =
    let waits : FileLogger = record self { async_result = some (client n); flushing = false } in
    let w : IsUnnamed waits = record {
      unnamed = v.unnamed;
      no_timeout = v.no_timeout;
      waiting = tt;
      idle = v.idle;
    } in
    let l = left_alone waits (write_all waits) (write_all-LeavesAlone waits) w in
    if_cases (Unarchived self) (no_result self) _ _
      (λ _.
        if_cases (Unarchived self) (has_pending self) _ _
          (λ _. record {
            unnamed = record {
              unnamed = v.unnamed;
              no_timeout = v.no_timeout;
              waiting = tt;
              idle = v.idle;
            };
            copies = refl;
          })
          (λ _. record { unnamed = l.unnamed; copies = l.copies }))
      (λ _. record {
        unnamed = record {
          unnamed = v.unnamed;
          no_timeout = v.no_timeout;
          waiting = v.waiting;
          idle = AllClient-append self.idle _ v.idle tt;
        };
        copies = refl;
      })

rotate-Unarchived :
    (self : FileLogger) (name : Str) (timeout n : ℕ)
    → IsUnnamed self
    → Unarchived self (file_logger_copy_and_truncate self name timeout n)
unfolding file_logger_copy_and_truncate
rotate-Unarchived self name timeout n v =
    if_of_false (Unarchived self) self.has_file _ _ v.unnamed (record {
      unnamed = record {
        unnamed = v.unnamed;
        no_timeout = v.no_timeout;
        waiting = v.waiting;
        idle = AllClient-append self.idle _ v.idle tt;
      };
      copies = refl;
    })

module _ (reaction : Reaction) where
  complete-Unarchived :
      (self : FileLogger) (c : Callback) (error : Option IoError)
      → IsClient c
      → IsUnnamed self
      → Unarchived self (complete reaction self c error)
  unfolding complete
  complete-Unarchived self (client n) error h v =
      left_alone self _ (log_all-LeavesAlone self (reaction n error)) v
  complete-Unarchived self (on_logger_flushed d) error h v = absurd h

  flush_done-Unarchived :
      (self : FileLogger) (c : Option Callback)
      → AllClient c
      → IsUnnamed self
      → Unarchived self (flush_done reaction self c)
  unfolding flush_done
  flush_done-Unarchived self none h v =
      left_alone self _
        (record { file = refl; timeouts = refl; result = refl; idle = refl; copies = refl }) v
  flush_done-Unarchived self (some c) h v =
      let done : FileLogger = record self { stream = none; async_result = none } in
      let w : IsUnnamed done = record {
        unnamed = v.unnamed;
        no_timeout = v.no_timeout;
        waiting = tt;
        idle = v.idle;
      } in
      let r = complete-Unarchived done c none h w in
      record { unnamed = r.unnamed; copies = r.copies }

  after_flush-Unarchived :
      (self : FileLogger) (op : Option Operation)
      → IsUnnamed self
      → Unarchived self (after_flush reaction self op)
  unfolding after_flush on_flush
  after_flush-Unarchived self none v = left_alone self self (alone self) v
  after_flush-Unarchived self (some (Operation.write buf)) v = left_alone self self (alone self) v
  after_flush-Unarchived self (some Operation.flush) v =
      flush_done-Unarchived self self.async_result v.waiting v

  timeout-Unarchived :
      (self : FileLogger) (i : ℕ) (copied truncated : Bool)
      → IsUnnamed self
      → Unarchived self (after_timeout reaction self i (get_elem? self.timeouts i) copied truncated)
  unfolding after_timeout
  timeout-Unarchived self i copied truncated v =
      let none_due : get_elem? self.timeouts i ≡ none = ap (λ l. get_elem? l i) v.no_timeout in
      subst (λ d. Unarchived self (after_timeout reaction self i d copied truncated)) (sym none_due)
        (left_alone self self (alone self) v)

  idle-Unarchived :
      (self : FileLogger) (l : List (Callback × IoError))
      → All (λ e. IsClient e.0) l
      → IsUnnamed self
      → Unarchived self (after_idle reaction self l)
  unfolding after_idle
  idle-Unarchived self [] h v = left_alone self self (alone self) v
  idle-Unarchived self ((c, e) ∷ rest) h v =
      let begun : FileLogger = record self { idle = rest } in
      let w : IsUnnamed begun = record {
        unnamed = v.unnamed;
        no_timeout = v.no_timeout;
        waiting = v.waiting;
        idle = h.1;
      } in
      let r = complete-Unarchived begun c (some e) h.0 w in
      record { unnamed = r.unnamed; copies = r.copies }

  step-Unarchived :
      (self : FileLogger) (e : Event) → IsUnnamed self → Unarchived self (step reaction self e)
  unfolding step file_logger_freeze
  step-Unarchived self (logs entry) v = left_alone self _ (file_logger_log-LeavesAlone self entry) v
  step-Unarchived self (writes n) v =
      left_alone self _ (after_write-LeavesAlone self self.stream (bytes n)) v
  step-Unarchived self write_fails v =
      left_alone self _ (after_write-LeavesAlone self self.stream failed) v
  step-Unarchived self flushed v = after_flush-Unarchived self self.stream v
  step-Unarchived self (flushes c) v = flush-Unarchived self c v
  step-Unarchived self freezes v =
      left_alone self _
        (record { file = refl; timeouts = refl; result = refl; idle = refl; copies = refl }) v
  step-Unarchived self thaws v = left_alone self _ (file_logger_thaw-LeavesAlone self) v
  step-Unarchived self (rotates name timeout c) v = rotate-Unarchived self name timeout c v
  step-Unarchived self (times_out i copied truncated) v =
      timeout-Unarchived self i copied truncated v
  step-Unarchived self runs_idle v = idle-Unarchived self self.idle v.idle v

  run-Unarchived :
      (self : FileLogger) (es : List Event)
      → IsUnnamed self
      → Unarchived self (run reaction self es)
  unfolding run
  run-Unarchived self [] v = left_alone self self (alone self) v
  run-Unarchived self (e ∷ es) v =
      let one = step-Unarchived self e v in
      Unarchived-trans one (run-Unarchived (step reaction self e) es one.unnamed)

  -- A logger that was made from a stream, as for a round file that is new, is never archived: no
  -- calls and no events make a copy of its file.
  pub copies-run : (es : List Event) → (run reaction file_logger_new_from_stream es).copies ≡ []
  unfolding file_logger_new_from_stream
  copies-run es =
      (run-Unarchived file_logger_new_from_stream es
        (record { unnamed = refl; no_timeout = refl; waiting = tt; idle = tt })).copies
