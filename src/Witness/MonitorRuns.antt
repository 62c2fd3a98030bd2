-- ===== src/Witness/MonitorRuns.antt =====
-- Runs of the theorems about block-monitor.c.
use pool_dance.Prelude.{◌+◌, ◌≡◌, ◌≢◌, refl, none, some, List, [], ◌∷◌, All}
use pool_dance.BlockMonitor.{
  BlockMonitor, block_monitor_new, block_monitor_start, check_block, Event, starts, stops, counted,
  times_out, run,
}
use pool_dance.BlockMonitor.Rising.{Rises, run-Rises}
use pool_dance.BlockMonitor.Polling.{
  IsPolling, run-IsPolling, block_monitor_new-IsPolling, two_timers,
}

abbrev new_monitor : BlockMonitor
new_monitor = block_monitor_new 0

abbrev polls : List Event
polls = counted (some 7) ∷ times_out 1 ∷ counted none ∷ times_out 2 ∷ counted (some 9) ∷ []

run-Rises_example :
    Rises new_monitor.current_block
      (run new_monitor (starts ∷ polls)).1
      (run new_monitor (starts ∷ polls)).0.current_block
run-Rises_example = run-Rises new_monitor (starts ∷ polls)

none_stops : All (λ e. e ≢ stops) polls
none_stops = (λ e. cc e, (λ e. cc e, (λ e. cc e, (λ e. cc e, (λ e. cc e, tt)))))

run-IsPolling_example : IsPolling (run (block_monitor_start new_monitor) polls).0
run-IsPolling_example =
    run-IsPolling (block_monitor_start new_monitor) polls none_stops (block_monitor_new-IsPolling 0)

two_timers_example :
    (run
      (block_monitor_start new_monitor)
      (stops ∷ starts ∷ counted none ∷ counted (some 7) ∷ [])).0.timers
    ≡ ((block_monitor_start new_monitor).next_id + 1)
      ∷ (block_monitor_start new_monitor).next_id
      ∷ []
unfolding block_monitor_new block_monitor_start check_block
two_timers_example = two_timers (block_monitor_start new_monitor) none (some 7) refl refl refl refl
