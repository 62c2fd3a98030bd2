-- ===== src/PoolServer/Machine.antt =====
-- pool-server.c as a machine whose steps are its callbacks and the calls of main.c.
use pool_dance.Prelude.{
  ℕ, false, not, Option, none, some, List, [], ◌∷◌, Str, if◌then◌else◌, contains, Outcome, ok,
  ◌>>=◌,
}
use pool_dance.Extern.{Extern}
use pool_dance.PoolServer.{
  PoolServer, WorkRequest, work_request_unref, getwork_connection_on_close, lp_connection_on_close,
  rpc_on_method_call, on_request_headers, pool_server_notify_new_block, pool_server_need_work,
  pool_server_get_work_request,
}

-- What the main loop does with the server. Which handlers are connected is part of the state: a
-- request's handler is, while the request is alive.
pub data Event (Node : Type 0) : Type 0 where
  calls : (method_name : Option Str) → (params : Node) → (params_length : ℕ) → ℕ → ℕ → Event Node
  asks : (path : Str) → ℕ → Event Node
  closes : ℕ → Event Node
  closes_lp : ℕ → Event Node
  new_block : ℕ → Event Node
  serves : Event Node

-- work_request_unref on what was taken from the queue
unfoldable pub drop_taken : Option ℕ × PoolServer → Outcome (Option ℕ × PoolServer)
drop_taken (none, self) = ok (none, self)
drop_taken (some p, self) = work_request_unref self p >>= λ s. ok (some p, s)

-- The part of serve_work in main.c that concerns the server: the request at the head is taken and,
-- when its work item has been sent, dropped.
unfoldable pub serve_request : PoolServer → Outcome (Option ℕ × PoolServer)
serve_request self =
    if not (pool_server_need_work self)
    then ok (none, self)
    else drop_taken (pool_server_get_work_request self)

unfoldable pub close_request : PoolServer → ℕ → Option WorkRequest → Outcome PoolServer
close_request self p none = ok self
close_request self p (some r) = getwork_connection_on_close self p

-- The handler of "close" is connected as often as the connection stands in the list, and this is
-- one of its calls. A new block disconnects it, and a connection closes once.
unfoldable pub close_long_poll : PoolServer → ℕ → PoolServer
close_long_poll self conn =
    if contains conn self.lp_conns then lp_connection_on_close self conn else self

module _ {Node : Type 0} (x : Extern Node) where
  unfoldable pub step : PoolServer → Event Node → Outcome PoolServer
  step self (calls method_name params params_length invocation_id conn) =
      ok (rpc_on_method_call x self method_name params params_length invocation_id conn false).0
  step self (asks path conn) = ok (on_request_headers {Node = Node} x self path conn).0
  step self (closes p) = close_request self p (self.requests p)
  step self (closes_lp conn) = ok (close_long_poll self conn)
  step self (new_block block) = ok (pool_server_notify_new_block x self block)
  step self serves = do (served, s) ← serve_request self; ok s

  unfoldable pub run : PoolServer → List (Event Node) → Outcome PoolServer
  run self [] = ok self
  run self (e ∷ es) = do s ← step self e; run s es
