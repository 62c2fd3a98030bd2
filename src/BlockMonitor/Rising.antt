-- ===== src/BlockMonitor/Rising.antt =====
-- The blocks that the monitor notifies rise, whatever the daemon answers.
use pool_dance.Prelude.{
  ℕ, ◌≤◌, ◌<◌, ◌-◌, Option, none, some, List, [], ◌∷◌, ◌++◌, ltb, if_cases, contains, arith, dec_lt,
  ltb-true_of_lt, ltb-false_of_le,
}
use pool_dance.BlockMonitor.{
  BlockMonitor, check_block, add_timer, read_count, on_block_count, block_monitor_start,
  block_monitor_stop, Event, starts, stops, counted, times_out, step, run,
}

-- The blocks rise strictly from above `low`, and none is above `high`.
abbrev pub Rises : ℕ → List ℕ → ℕ → Type 0
Rises low [] high = low ≤ high
Rises low (b ∷ bs) high = (low < b) × Rises b bs high

Rises-append :
    (low mid high : ℕ) (xs ys : List ℕ)
    → Rises low xs mid
    → Rises mid ys high
    → Rises low (xs ++ ys) high
Rises-append low mid high [] [] h k = omega arith
Rises-append low mid high [] (y ∷ ys) h k = (omega arith, k.1)
Rises-append low mid high (x ∷ xs) ys h k = (h.0, Rises-append x mid high xs ys h.1 k)

same_block : (self : BlockMonitor) → Rises self.current_block [] self.current_block
same_block self = omega arith

read_count-Rises :
    (self : BlockMonitor) (reply : Option ℕ)
    → Rises self.current_block (read_count self reply).1 (read_count self reply).0.current_block
unfolding read_count
read_count-Rises self none = same_block self
read_count-Rises self (some block) = elim (dec_lt self.current_block block) [
  | yes lt ↦ rw (ltb-true_of_lt self.current_block block lt) (
      if_cases (λ bs. Rises self.current_block bs block) self.started _ _ (λ _. (lt, omega arith))
        (λ _. omega arith))
  | no ge ↦ rw (ltb-false_of_le self.current_block block (omega arith)) (same_block self)
]

on_block_count-Rises :
    (self : BlockMonitor) (reply : Option ℕ)
    → Rises self.current_block
        (on_block_count self reply).1
        (on_block_count self reply).0.current_block
unfolding on_block_count add_timer
on_block_count-Rises self reply =
    let called : BlockMonitor = record self { calls = self.calls - 1 } in
    let r = read_count-Rises called reply in
    if_cases {A = BlockMonitor}
      (λ s. Rises self.current_block (read_count called reply).1 s.current_block) self.started _ _
      (λ _. r) (λ _. r)

step-Rises :
    (self : BlockMonitor) (e : Event)
    → Rises self.current_block (step self e).1 (step self e).0.current_block
unfolding step block_monitor_start block_monitor_stop check_block
step-Rises self starts =
    if_cases {A = BlockMonitor} (λ s. self.current_block ≤ s.current_block) self.started _ _
      (λ _. omega arith) (λ _. omega arith)
step-Rises self stops = ground arith
step-Rises self (counted reply) =
    if_cases {A = BlockMonitor × List ℕ} (λ r. Rises self.current_block r.1 r.0.current_block)
      (ltb 0 self.calls) _ _ (λ _. on_block_count-Rises self reply) (λ _. same_block self)
step-Rises self (times_out id) =
    if_cases {A = BlockMonitor} (λ s. self.current_block ≤ s.current_block)
      (contains id self.timers) _ _ (λ _. omega arith) (λ _. omega arith)

-- Whatever the daemon answers, and however often the monitor is started and stopped, the blocks
-- that it notifies rise strictly, from above the one it knew at first to the one it knows at last.
pub run-Rises :
    (self : BlockMonitor) (es : List Event)
    → Rises self.current_block (run self es).1 (run self es).0.current_block
unfolding run
run-Rises self [] = same_block self
run-Rises self (e ∷ es) =
    Rises-append self.current_block (step self e).0.current_block _ (step self e).1 _
      (step-Rises self e) (run-Rises (step self e).0 es)
