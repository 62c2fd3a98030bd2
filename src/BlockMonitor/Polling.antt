-- ===== src/BlockMonitor/Polling.antt =====
-- How often the daemon is asked: one call or one timer at a time, unless the monitor is restarted
-- while a call is under way.
use pool_dance.Prelude.{
  ℕ, ◌+◌, ◌<◌, ◌≡◌, ◌≢◌, refl, true, false, Option, none, some, List, [], ◌∷◌, ltb, if_cases,
  contains, if_of_true, if_of_false, ltb-true_of_lt, ltb-false_of_le, arith, All,
}
use pool_dance.BlockMonitor.{
  BlockMonitor, block_monitor_new, check_block, add_timer, read_count, on_block_count,
  block_monitor_start, block_monitor_stop, Event, starts, stops, counted, times_out, step, run,
}

-- One call is under way, or one timer is set, which is the one remembered.
pub data IsPolling (self : BlockMonitor) : Type 0 where
  asking :
      self.started ≡ true → self.timers ≡ [] → self.calls ≡ 1 → 0 < self.next_id → IsPolling self
  waiting :
      self.started ≡ true
      → self.timers ≡ self.src_id ∷ []
      → self.calls ≡ 0
      → 0 < self.next_id
      → IsPolling self

started : (self : BlockMonitor) → IsPolling self → self.started ≡ true
started self (asking s t c n) = s
started self (waiting s t c n) = s

-- What an answer to the only call leaves.
answered :
    (self : BlockMonitor) (reply : Option ℕ)
    → self.started ≡ true
    → self.timers ≡ []
    → self.calls ≡ 1
    → 0 < self.next_id
    → IsPolling (on_block_count self reply).0
unfolding on_block_count read_count add_timer
answered self none s t c n =
    if_of_true IsPolling _ _ _ s (waiting s (ground arith) (omega arith) (omega arith))
answered self (some block) s t c n = if_of_true IsPolling _ _ _ s (
    if_cases {A = BlockMonitor × List ℕ} (λ r. IsPolling (add_timer r.0))
      (ltb self.current_block block) _ _ (λ _. waiting s (ground arith) (omega arith) (omega arith))
      (λ _. waiting s (ground arith) (omega arith) (omega arith)))

step-IsPolling :
    (self : BlockMonitor) (e : Event) → e ≢ stops → IsPolling self → IsPolling (step self e).0
unfolding step block_monitor_start check_block
step-IsPolling self starts ne v = if_of_true IsPolling _ _ _ (started self v) v
step-IsPolling self stops ne v = absurd (ne refl)
step-IsPolling self (counted reply) ne (asking s t c n) =
    if_of_true {Out = BlockMonitor × List ℕ} (λ r. IsPolling r.0) _ _ _
      (ltb-true_of_lt 0 self.calls (omega arith)) (answered self reply s t c n)
step-IsPolling self (counted reply) ne (waiting s t c n) =
    if_of_false {Out = BlockMonitor × List ℕ} (λ r. IsPolling r.0) _ _ _
      (ltb-false_of_le 0 self.calls (omega arith)) (waiting s t c n)
step-IsPolling self (times_out id) ne (asking s t c n) =
    let none_set : contains id self.timers ≡ false = rw t refl in
    if_of_false IsPolling _ _ _ none_set (asking s t c n)
step-IsPolling self (times_out id) ne (waiting s t c n) =
    if_cases IsPolling (contains id self.timers) _ _
      (λ due. asking s (ground arith) (omega arith) n) (λ _. waiting s t c n)

-- A monitor that is started and never stopped has, whatever the daemon answers, exactly one call
-- under way or one timer set: it never falls silent, and never asks twice at a time.
pub run-IsPolling :
    (self : BlockMonitor) (es : List Event)
    → All (λ e. e ≢ stops) es
    → IsPolling self
    → IsPolling (run self es).0
unfolding run
run-IsPolling self [] calm v = v
run-IsPolling self (e ∷ es) calm v =
    run-IsPolling (step self e).0 es calm.1 (step-IsPolling self e calm.0 v)

pub block_monitor_new-IsPolling :
    (latency : ℕ) → IsPolling (block_monitor_start (block_monitor_new latency))
unfolding block_monitor_start block_monitor_new check_block
block_monitor_new-IsPolling latency = asking refl refl refl (omega arith)

-- If a monitor is stopped and started again while a call is under way, then after the answers to
-- the old call and the new one two timers are set, of which only the later is remembered.
pub two_timers :
    (self : BlockMonitor) (old new : Option ℕ)
    → self.started ≡ true
    → self.calls ≡ 1
    → self.src_id ≡ 0
    → self.timers ≡ []
    → (run self (stops ∷ starts ∷ counted old ∷ counted new ∷ [])).0.timers
      ≡ ((self.next_id + 1) ∷ self.next_id ∷ [])
unfolding run step block_monitor_stop block_monitor_start check_block on_block_count read_count
    add_timer
two_timers self old new s c i t = ground arith
