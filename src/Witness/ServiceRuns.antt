-- ===== src/Witness/ServiceRuns.antt =====
-- Runs of the theorems about upstream-service.c.
use pool_dance.Prelude.{◌+◌, ◌%◌, ◌≤◌, ◌≡◌, refl, none, some, List, [], ◌∷◌, Str, arith, codes}
use pool_dance.Upstream.{
  UpstreamService, guint_mod, queue_length, fill_rounds, fill_work_queue, rpc_on_getwork,
  upstream_service_get_work, pop_head, push_head, upstream_service_notify_new_block, Event, takes,
  answers, step, run,
}
use pool_dance.Upstream.Fill.{supply, fill_work_queue-done}
use pool_dance.Upstream.Accounting.{
  IsAccounted, losses, loses, run-IsAccounted, upstream_service_notify_new_block-IsAccounted,
}
use pool_dance.Upstream.Handed.{Conserves, all_handed, all_received, run-Conserves}
use pool_dance.Upstream.Starved.{IsStarved, losses-IsStarved}

-- A service with a cache of two items, before its first block.
abbrev small : UpstreamService Str
small = record { work_queue = none; work_queue_min = 2; work_requests = 0; calls = 0 }

abbrev block_seen : UpstreamService Str
block_seen = upstream_service_notify_new_block small

abbrev work_and_failures : List (Event Str)
work_and_failures = answers (some (codes "work")) ∷ answers none ∷ takes ∷ answers none ∷ []

fill_work_queue-done_example :
    (fill_work_queue small).work_queue_min ≤ supply (fill_work_queue small) % guint_mod
fill_work_queue-done_example = fill_work_queue-done small (omega arith)

run-IsAccounted_example :
    IsAccounted (0 + losses block_seen work_and_failures) (run block_seen work_and_failures)
run-IsAccounted_example =
    run-IsAccounted 0 block_seen work_and_failures
      (upstream_service_notify_new_block-IsAccounted small (omega arith) refl)

two_lost : (run block_seen work_and_failures).work_queue_min ≤ losses block_seen work_and_failures
unfolding run step losses loses rpc_on_getwork upstream_service_get_work
    upstream_service_notify_new_block fill_work_queue fill_rounds queue_length push_head pop_head
two_lost = omega arith

losses-IsStarved_example :
    (run (run block_seen work_and_failures) (takes ∷ takes ∷ []) ≡ run block_seen work_and_failures)
    × IsStarved (run block_seen work_and_failures)
losses-IsStarved_example =
    losses-IsStarved small work_and_failures (takes ∷ takes ∷ []) (omega arith) refl two_lost

block_seen_empty : block_seen.work_queue ≡ some []
unfolding upstream_service_notify_new_block fill_work_queue fill_rounds queue_length
block_seen_empty = refl

run-Conserves_example :
    Conserves []
      (all_handed block_seen work_and_failures)
      (all_received block_seen work_and_failures)
      (run block_seen work_and_failures)
run-Conserves_example = run-Conserves block_seen work_and_failures [] block_seen_empty
