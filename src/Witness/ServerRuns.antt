-- ===== src/Witness/ServerRuns.antt =====
-- Runs of the theorems about pool-server.c.
use pool_dance.Prelude.{ℕ, ◌≡◌, refl, true, false, none, some, List, [], ◌∷◌, Str, codes, ok}
use pool_dance.PoolServer.{
  PoolServer, pool_server_free, pool_server_new, work_request_new, enqueue, on_request_headers,
  pool_server_need_work,
}
use pool_dance.PoolServer.Machine.{
  serve_request, Event, calls, asks, closes, new_block, serves, run,
}
use pool_dance.PoolServer.Tidy.{IsTidy}
use pool_dance.PoolServer.Steps.{enqueue-IsTidy, same_queue, pool_server_new-IsTidy}
use pool_dance.PoolServer.Runs.{run-IsTidy}
use pool_dance.PoolServer.Oldest.{ServesOldest, serve_request-ServesOldest}
use pool_dance.PoolServer.Freed.{pool_server_free-leaves}
use pool_dance.PoolServer.Referenced.{
  IsReferenced, pool_server_new-IsReferenced, enqueue-IsReferenced, asks-IsReferenced,
  run-IsReferenced,
}
use pool_dance.Prelude.Bags.{count}
use pool_dance.PoolServer.Spec.{view, desk_run}
use pool_dance.PoolServer.Refines.{run-Refines}
use pool_dance.Witness.{sample}

abbrev visits : List (Event Str)
visits =
    calls (some (codes "getwork")) (codes "[]") 0 1 5
    ∷ asks (codes "/lp") 6
    ∷ asks (codes "/") 7
    ∷ new_block 9
    ∷ serves
    ∷ closes 1
    ∷ serves
    ∷ []

run-IsTidy_example : (s : PoolServer) × (run sample pool_server_new visits ≡ ok s) × IsTidy s
run-IsTidy_example = run-IsTidy sample pool_server_new visits pool_server_new-IsTidy

-- Two requests wait.
abbrev busy : PoolServer
busy = (enqueue sample (enqueue sample pool_server_new 1 5 false).0 2 6 true).0

busy-IsTidy : IsTidy busy
busy-IsTidy =
    enqueue-IsTidy sample (enqueue sample pool_server_new 1 5 false).0 2 6 true
      (enqueue-IsTidy sample pool_server_new 1 5 false pool_server_new-IsTidy)

busy_needs_work : pool_server_need_work busy ≡ true
unfolding pool_server_need_work enqueue work_request_new pool_server_new
busy_needs_work = refl

serve_request-ServesOldest_example :
    (p : ℕ) × (s : PoolServer) × (serve_request busy ≡ ok (some p, s)) × ServesOldest busy s p
serve_request-ServesOldest_example = serve_request-ServesOldest busy busy-IsTidy busy_needs_work

busy-IsReferenced : IsReferenced busy
busy-IsReferenced =
    enqueue-IsReferenced sample (enqueue sample pool_server_new 1 5 false).0 2 6 true
      (enqueue-IsTidy sample pool_server_new 1 5 false pool_server_new-IsTidy)
      (enqueue-IsReferenced sample pool_server_new 1 5 false pool_server_new-IsTidy
        pool_server_new-IsReferenced)

-- Two requests wait, and one connection polls.
abbrev polled : PoolServer
polled = (on_request_headers {Node = Str} sample busy (codes "/lp") 6).0

polled-IsTidy : IsTidy polled
unfolding on_request_headers enqueue pool_dance.Prelude.Tests.str_eq
polled-IsTidy = same_queue sample busy polled refl refl refl busy-IsTidy

polled-IsReferenced : IsReferenced polled
polled-IsReferenced = asks-IsReferenced sample busy (codes "/lp") 6 busy-IsReferenced

pool_server_free-leaves_example :
    (s : PoolServer) × (pool_server_free polled ≡ ok s)
    × ((p : ℕ) → s.requests p ≡ none)
    × ((c : ℕ) → s.conn_refs c ≡ count c polled.lp_conns)
pool_server_free-leaves_example = pool_server_free-leaves polled polled-IsTidy polled-IsReferenced

run-IsReferenced_example :
    (s : PoolServer) × (run sample polled visits ≡ ok s) × IsTidy s × IsReferenced s
run-IsReferenced_example = run-IsReferenced sample polled visits polled-IsTidy polled-IsReferenced

run-Refines_example :
    (s : PoolServer) × (run sample pool_server_new visits ≡ ok s)
    × (view s ≡ desk_run (view pool_server_new) visits)
run-Refines_example = run-Refines sample pool_server_new visits pool_server_new-IsTidy
