-- ===== src/PoolServer/Runs.antt =====
-- Every event keeps the queue of requests well formed, and none uses or frees a request twice.
use pool_dance.Prelude.{
  ℕ, ◌≡◌, refl, ap, false, not, Option, none, some, List, [], ◌∷◌, str_eq, strcmp0_eq, codes, ◌==◌,
  if_cases, ok, ◌>>=◌,
}
use pool_dance.Extern.{Extern}
use pool_dance.PoolServer.{
  PoolServer, Signal, lp_path, WorkRequest, rpc_on_method_call, on_request_headers,
  pool_server_notify_new_block, pool_server_need_work,
}
use pool_dance.PoolServer.Machine.{
  Event, calls, asks, closes, closes_lp, new_block, serves, serve_request, close_request, step, run,
}
use pool_dance.PoolServer.Tidy.{IsTidy}
use pool_dance.PoolServer.Steps.{
  enqueue-IsTidy, close_long_poll-IsTidy, same_queue, pool_server_notify_new_block-IsTidy,
}
use pool_dance.PoolServer.Drops.{dropped, dropped-IsTidy, close-dropped, serve-dropped}

module _ {Node : Type 0} (x : Extern Node) where
  -- The event leaves a well-formed server, without a fault.
  abbrev Steps : PoolServer → Event Node → Type 0
  Steps self e = (s : PoolServer) × (step x self e ≡ ok s) × IsTidy s

  pub close-Steps :
      (self : PoolServer) (p : ℕ) (o : Option WorkRequest)
      → self.requests p ≡ o
      → IsTidy self
      → (s : PoolServer) × (close_request self p o ≡ ok s) × IsTidy s
  unfolding close_request
  close-Steps self p none e v = (self, refl, v)
  close-Steps self p (some r) e v =
      (dropped self p, close-dropped self p r v e, dropped-IsTidy self p v)

  serves-Steps :
      (self : PoolServer) (q : List ℕ) → self.getwork_queue ≡ q → IsTidy self → Steps self serves
  unfolding step serve_request pool_server_need_work
  serves-Steps self [] e v = (self, rw e refl, v)
  serves-Steps self (p ∷ q) e v = (
    dropped self p,
    ap (λ m. m >>= λ r. ok r.1) (serve-dropped self p q v e),
    dropped-IsTidy self p v,
  )

  pub step-IsTidy : (self : PoolServer) (e : Event Node) → IsTidy self → Steps self e
  unfolding step rpc_on_method_call on_request_headers pool_server_notify_new_block
  step-IsTidy self (calls method_name params params_length invocation_id conn) v = (_, refl, called)
    where
      called :
          IsTidy
            (rpc_on_method_call x self method_name params params_length invocation_id conn false).0
      called =
          if_cases {A = PoolServer × Signal Node} (λ r. IsTidy r.0)
            (not (strcmp0_eq method_name (some (codes "getwork")))) _ _ (λ _. v)
            (λ _.
              if_cases {A = PoolServer × Signal Node} (λ r. IsTidy r.0) (params_length == 0) _ _
                (λ _. enqueue-IsTidy x self invocation_id conn false v) (λ _. v))
  step-IsTidy self (asks path conn) v = (_, refl, asked)
    where
      asked : IsTidy (on_request_headers {Node = Node} x self path conn).0
      asked =
          if_cases {A = PoolServer × List (Signal Node)} (λ r. IsTidy r.0)
            (not (str_eq path lp_path)) _ _ (λ _. v) (λ _. same_queue x self _ refl refl refl v)
  step-IsTidy self (closes p) v = close-Steps self p (self.requests p) refl v
  step-IsTidy self (closes_lp conn) v = (_, refl, close_long_poll-IsTidy self conn v)
  step-IsTidy self (new_block block) v =
      (_, refl, pool_server_notify_new_block-IsTidy x self block v)
  step-IsTidy self serves v = serves-Steps self self.getwork_queue refl v

  -- From a well-formed server every sequence of requests, long polls, closed connections, new
  -- blocks and served requests runs without using or freeing a request twice, and leaves the queue
  -- in the order of arrival with exactly the requests that are alive, each with one reference.
  pub run-IsTidy :
      (self : PoolServer) (es : List (Event Node))
      → IsTidy self
      → (s : PoolServer) × (run x self es ≡ ok s) × IsTidy s
  unfolding run
  run-IsTidy self [] v = (self, refl, v)
  run-IsTidy self (e ∷ es) v =
      let (s, stepped, w) = step-IsTidy self e v in
      let (t, ran, u) = run-IsTidy s es w in (t, rw stepped ran, u)
