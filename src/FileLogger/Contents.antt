-- ===== src/FileLogger/Contents.antt =====
-- Everything that a logger holds, and which of its steps add to it.
use pool_dance.Prelude.{
  ℕ, ◌≡◌, refl, sym, ap, ◌∙◌, true, false, not, ◌&&◌, ◌||◌, Option, none, some, List, [], ◌∷◌, ◌++◌,
  append_assoc, append-nil, Str, ltb, if◌then◌else◌, length, arith, if_cases, subst,
}
use pool_dance.FileLogger.State.{FileLogger, Copy, Operation, Callback, has_pending, no_result}
use pool_dance.FileLogger.Methods.{
  drain, gather, start_write, write_all, file_logger_log, file_logger_flush, file_logger_freeze,
  file_logger_thaw, file_logger_copy_and_truncate,
}

unfoldable pub flat : List Str → Str
flat [] = []
flat (e ∷ es) = e ++ flat es

pub flat-append : (xs ys : List Str) → flat (xs ++ ys) ≡ flat xs ++ flat ys
unfolding flat
flat-append [] ys = refl
flat-append (x ∷ xs) ys = rw (flat-append xs ys, append_assoc)

-- The text that was moved out of the file by a truncation; each piece is in the copy made before.
unfoldable pub archived : List Copy → Str
archived [] = []
archived (c ∷ cs) = (if c.truncated then c.text else []) ++ archived cs

pub archived-append : (xs ys : List Copy) → archived (xs ++ ys) ≡ archived xs ++ archived ys
unfolding archived
archived-append [] ys = refl
archived-append (c ∷ xs) ys = rw (archived-append xs ys, append_assoc)

-- In the order in which it was logged: the archived rounds, the file, what is being written, the
-- queue.
abbrev pub contents : FileLogger → Str
contents self = archived self.copies ++ (self.disk ++ (self.write_all_string ++ flat self.queue))

pub drain-flat : (queue : List Str) (s : Str) → drain queue s ≡ s ++ flat queue
unfolding drain flat
drain-flat [] s = sym (append-nil s)
drain-flat (e ∷ queue) s = drain-flat queue (s ++ e) ∙ append_assoc s e (flat queue)

-- While a write is pending, the string is what the stream was given.
abbrev pub Holds : Option Operation → Str → Type 0
Holds none s = Unit {0}
Holds (some Operation.flush) s = Unit {0}
Holds (some (Operation.write buf)) s = buf ≡ s

abbrev pub IsBuffered : FileLogger → Type 0
IsBuffered self = Holds self.stream self.write_all_string

-- From `self` to `self'` the text `t` was added at the end, and nothing else changed; the string
-- that is being written was left alone.
pub record Adds (self : FileLogger) (t : Str) (self' : FileLogger) : Type 0 where
  pub kept : contents self' ≡ contents self ++ t
  pub buffered : IsBuffered self'

abbrev pub Keeps : FileLogger → FileLogger → Type 0
Keeps self self' = Adds self [] self'

pub Adds-trans : {a b c : FileLogger} (t u : Str) → Adds a t b → Adds b u c → Adds a (t ++ u) c
Adds-trans {a} t u f g = record {
  kept = g.kept ∙ ap (λ z. z ++ u) f.kept ∙ append_assoc (contents a) t u;
  buffered = g.buffered;
}

pub Adds-Keeps : {a b c : FileLogger} {t : Str} → Adds a t b → Keeps b c → Adds a t c
Adds-Keeps {b} f g = record {
  kept = g.kept ∙ append-nil (contents b) ∙ f.kept;
  buffered = g.buffered;
}

-- What a step leaves as it is.
pub Keeps-of_eq : (a b : FileLogger) → contents b ≡ contents a → IsBuffered b → Keeps a b
Keeps-of_eq a b e h = record { kept = e ∙ sym (append-nil (contents a)); buffered = h }

contents-gather : (self : FileLogger) → contents (gather self) ≡ contents self
unfolding gather flat
contents-gather self = ground (
  arith,
  drain-flat self.queue self.write_all_string,
  append-nil (self.write_all_string ++ flat self.queue),
)

stream-gather : (self : FileLogger) → (gather self).stream ≡ self.stream
unfolding gather
stream-gather self = ground arith

start_write-Keeps : (self : FileLogger) → self.stream ≡ none → Keeps self (start_write self)
unfolding start_write
start_write-Keeps self e =
    if_cases (Keeps self) (ltb 0 (length self.write_all_string)) _ _
      (λ some_text. Keeps-of_eq self _ refl refl)
      (λ no_text.
        Keeps-of_eq self self refl (subst (λ op. Holds op self.write_all_string) (sym e) tt))

not_pending : (self : FileLogger) → has_pending self ≡ false → self.stream ≡ none
not_pending self e = ground arith

pub write_all-Keeps : (self : FileLogger) → IsBuffered self → Keeps self (write_all self)
unfolding write_all
write_all-Keeps self h =
    if_cases (Keeps self) (has_pending self) self _ (λ busy. Keeps-of_eq self self refl h)
      λ quiet.
        let e = not_pending self quiet in
        let gathered : Keeps self (gather self) =
          Keeps-of_eq self (gather self) (contents-gather self) (
            subst (λ op. Holds op (gather self).write_all_string) (sym (stream-gather self ∙ e))
              tt) in
        Adds-Keeps gathered (start_write-Keeps (gather self) (stream-gather self ∙ e))

-- An entry with its newline.
abbrev pub line : Str → Str
line entry = entry ++ (10 ∷ [])

enqueue-Adds :
    (self : FileLogger) (t : Str)
    → IsBuffered self
    → Adds self t (record self { queue = self.queue ++ t ∷ [] })
enqueue-Adds self t h = record {
  kept =
      rw (flat-append self.queue (t ∷ [])) (simp append_assoc (unfold flat in rw (append-nil t)));
  buffered = h;
}

pub file_logger_log-Adds :
    (self : FileLogger) (entry : Str)
    → IsBuffered self
    → Adds self (line entry) (file_logger_log self entry)
unfolding file_logger_log
file_logger_log-Adds self entry h =
    let queued : FileLogger = record self { queue = self.queue ++ line entry ∷ [] } in
    let added : Adds self (line entry) queued = enqueue-Adds self (line entry) h in
    if_cases (Adds self (line entry)) (not self.frozen && (not self.flushing && no_result self)) _ _
      (λ free. Adds-Keeps added (write_all-Keeps queued h)) (λ held. added)

pub file_logger_flush-Keeps :
    (self : FileLogger) (c : Callback) → IsBuffered self → Keeps self (file_logger_flush self c)
unfolding file_logger_flush
file_logger_flush-Keeps self c h =
    let asked : FileLogger = record self { async_result = some c; flushing = false } in
    if_cases (Keeps self) (no_result self) _ _
      (λ first.
        if_cases (Keeps self) (has_pending self) _ _ (λ busy. Keeps-of_eq self _ refl h)
          (λ quiet. Adds-Keeps (Keeps-of_eq self asked refl h) (write_all-Keeps asked h)))
      (λ waiting. Keeps-of_eq self _ refl h)

pub file_logger_thaw-Keeps :
    (self : FileLogger) → IsBuffered self → Keeps self (file_logger_thaw self)
unfolding file_logger_thaw
file_logger_thaw-Keeps self h =
    let thawed : FileLogger = record self { frozen = false } in
    if_cases (Keeps self) (ltb 0 (length self.write_all_string) || ltb 0 (length self.queue)) _ _
      (λ work. Adds-Keeps (Keeps-of_eq self thawed refl h) (write_all-Keeps thawed h))
      (λ idle. Keeps-of_eq self thawed refl h)

pub file_logger_copy_and_truncate-Keeps :
    (self : FileLogger) (name : Str) (timeout c : ℕ)
    → IsBuffered self
    → Keeps self (file_logger_copy_and_truncate self name timeout c)
unfolding file_logger_copy_and_truncate file_logger_freeze
file_logger_copy_and_truncate-Keeps self name timeout c h =
    let frozen : FileLogger = record self { frozen = true } in
    if_cases (Keeps self) self.has_file _ _
      (λ named. Adds-Keeps (Keeps-of_eq self frozen refl h) (file_logger_flush-Keeps frozen _ h))
      (λ unnamed. Keeps-of_eq self _ refl h)
