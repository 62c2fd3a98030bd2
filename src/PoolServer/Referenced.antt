-- ===== src/PoolServer/Referenced.antt =====
-- The references that pool-server.c takes on connections.
use pool_dance.Prelude.{
  ℕ, ◌+◌, ◌≡◌, refl, sym, ap, subst, ◌∙◌, Bool, true, false, not, Option, none, some, List, [], ◌∷◌,
  Str, codes, str_eq, if_cases, strcmp0_eq, ltb, ◌==◌, if◌then◌else◌, length, contains, arith,
  ℕ_discrete, Bool-cases, inl, inr, ok, Ensures, ◌>>=◌,
}
use pool_dance.Prelude.Bags.{count, count-append}
use pool_dance.Extern.{Extern}
use pool_dance.PoolServer.{
  PoolServer, Signal, lp_path, unref_conn, WorkRequest, work_request_new, enqueue,
  rpc_on_method_call, lp_connection_on_close, on_request_headers, long_polling_conn_to_getwork,
  long_polling_conns_to_getwork, pool_server_notify_new_block, pool_server_new,
  pool_server_need_work,
}
use pool_dance.PoolServer.Machine.{
  close_long_poll, Event, calls, asks, closes, closes_lp, new_block, serves, close_request,
  serve_request, step, run,
}
use pool_dance.PoolServer.Tidy.{IsTidy}
use pool_dance.PoolServer.Steps.{long_polling_conn-IsTidy, same_queue}
use pool_dance.PoolServer.Drops.{
  dropped, unref_conn_of, close-dropped, serve-dropped, alive-contains,
}
use pool_dance.PoolServer.Runs.{step-IsTidy}
use pool_dance.PoolServer.Spec.{arrive, leave, tickets, view}
use pool_dance.PoolServer.Holders.{conns_of, held_by, held_by-append, held_by-leave, count-remove}
use pool_dance.PoolServer.Refines.{enqueue-view, dropped-view}

-- A connection is referenced once for each long poll and for each request that waits on it.
unfoldable pub IsReferenced : PoolServer → Type 0
IsReferenced self =
    (c : ℕ) → self.conn_refs c ≡ count c self.lp_conns + count c (conns_of (view self).waiting)

pub pool_server_new-IsReferenced : IsReferenced pool_server_new
unfolding IsReferenced pool_server_new view tickets conns_of
pool_server_new-IsReferenced = λ c. omega arith

module _ {Node : Type 0} (x : Extern Node) where
  -- A request that arrives holds one reference more.
  enqueue-held :
      (c : ℕ) (self : PoolServer) (invocation_id conn : ℕ) (from_lp : Bool)
      → IsTidy self
      → held_by c (view (enqueue x self invocation_id conn from_lp).0).waiting
        ≡ held_by c (view self).waiting + (if conn == c then 1 else 0)
  unfolding arrive conns_of
  enqueue-held c self invocation_id conn from_lp v =
      ap (λ desk. held_by c desk.waiting) (enqueue-view x self invocation_id conn from_lp v)
      ∙ held_by-append c (view self).waiting _
      ∙ omega arith

  enqueue-refs :
      (c : ℕ) (self : PoolServer) (invocation_id conn : ℕ) (from_lp : Bool)
      → (enqueue x self invocation_id conn from_lp).0.conn_refs c
        ≡ self.conn_refs c + (if conn == c then 1 else 0)
  unfolding enqueue work_request_new
  enqueue-refs c self invocation_id conn from_lp = ground arith

  pub enqueue-IsReferenced :
      (self : PoolServer) (invocation_id conn : ℕ) (from_lp : Bool)
      → IsTidy self
      → IsReferenced self
      → IsReferenced (enqueue x self invocation_id conn from_lp).0
  unfolding IsReferenced enqueue work_request_new
  enqueue-IsReferenced self invocation_id conn from_lp v referenced = λ c. omega (
    arith,
    referenced c,
    enqueue-held c self invocation_id conn from_lp v,
    enqueue-refs c self invocation_id conn from_lp,
  )

  -- One reference is taken and one dropped.
  one-referenced :
      (c : ℕ) (self : PoolServer) (conn : ℕ) (conns : List ℕ)
      → IsTidy self
      → self.conn_refs c ≡ count c (conn ∷ conns) + held_by c (view self).waiting
      → (long_polling_conn_to_getwork x self conn).conn_refs c
        ≡ count c conns + held_by c (view (long_polling_conn_to_getwork x self conn)).waiting
  unfolding long_polling_conn_to_getwork enqueue work_request_new view
  one-referenced c self conn conns v e =
      let held = enqueue-held c self 0 conn true v in
      elim (ℕ_discrete conn c) [
        | yes same ↦ ground (arith, held, e)
        | no other ↦ ground (arith, held, e)
      ]

  -- The reference of each long poll passes to the request that the poll becomes.
  all-referenced :
      (c : ℕ) (self : PoolServer) (conns : List ℕ)
      → IsTidy self
      → self.conn_refs c ≡ count c conns + held_by c (view self).waiting
      → (long_polling_conns_to_getwork x self conns).conn_refs c
        ≡ held_by c (view (long_polling_conns_to_getwork x self conns)).waiting
  unfolding long_polling_conns_to_getwork
  all-referenced c self [] v e = omega (arith, e)
  all-referenced c self (conn ∷ conns) v e =
      all-referenced c (long_polling_conn_to_getwork x self conn) conns
        (long_polling_conn-IsTidy x self conn v) (one-referenced c self conn conns v e)

  block-IsReferenced :
      (self : PoolServer) (block : ℕ)
      → IsTidy self
      → IsReferenced self
      → IsReferenced (pool_server_notify_new_block x self block)
  unfolding IsReferenced pool_server_notify_new_block view
  block-IsReferenced self block v referenced =
      let s : PoolServer = record self { block_header = some block } in
      λ c.
        let t = same_queue x self s refl refl refl v in
        omega (arith, all-referenced c s s.lp_conns t (referenced c))

  dropped-IsReferenced :
      (self : PoolServer) (p : ℕ) (r : WorkRequest)
      → IsTidy self
      → self.requests p ≡ some r
      → IsReferenced self
      → IsReferenced (dropped self p)
  unfolding IsReferenced view
  dropped-IsReferenced self p r v e referenced c =
      let held = alive-contains self p r v e in
      let one = held_by-leave c self.requests p r 0 self.next self.getwork_queue v.ascends e held in
      let left : held_by c (view (dropped self p)).waiting
          ≡ held_by c (leave p (tickets self.requests self.getwork_queue)) =
        ap (λ desk. held_by c desk.waiting) (dropped-view x self p v) in
      let refs : (dropped self p).conn_refs c ≡ unref_conn self.conn_refs r.conn c =
        ap (λ o. unref_conn_of o self.conn_refs c) e in
      let before = referenced c in ground (arith, one, left, refs, before)

  close_long_poll-IsReferenced :
      (self : PoolServer) (conn : ℕ) → IsReferenced self → IsReferenced (close_long_poll self conn)
  unfolding IsReferenced close_long_poll lp_connection_on_close view
  close_long_poll-IsReferenced self conn referenced =
      elim (Bool-cases (contains conn self.lp_conns)) [
        | inr out ↦ rw out referenced
        | inl held ↦ rw held (λ c.
            let one = count-remove c conn self.lp_conns held in
            let before = referenced c in ground (arith, one, before))
      ]

  pub asks-IsReferenced :
      (self : PoolServer) (path : Str) (conn : ℕ)
      → IsReferenced self
      → IsReferenced (on_request_headers {Node = Node} x self path conn).0
  unfolding IsReferenced on_request_headers view
  asks-IsReferenced self path conn referenced = elim (Bool-cases (str_eq path lp_path)) [
    | inr other ↦ rw other referenced
    | inl polls ↦ rw polls (λ c.
        let more = count-append c self.lp_conns (conn ∷ []) in
        let before = referenced c in ground (arith, more, before))
  ]

  call-IsReferenced :
      (self : PoolServer) (method_name : Option Str) (params : Node)
      (params_length invocation_id conn : ℕ)
      → IsTidy self
      → IsReferenced self
      → IsReferenced
          (rpc_on_method_call x self method_name params params_length invocation_id conn false).0
  unfolding rpc_on_method_call
  call-IsReferenced self method_name params params_length invocation_id conn v referenced =
      if_cases {A = PoolServer × Signal Node} (λ r. IsReferenced r.0)
        (not (strcmp0_eq method_name (some (codes "getwork")))) _ _ (λ _. referenced)
        (λ _.
          if_cases {A = PoolServer × Signal Node} (λ r. IsReferenced r.0) (params_length == 0) _ _
            (λ _. enqueue-IsReferenced self invocation_id conn false v referenced)
            (λ _. referenced))

  close-IsReferenced :
      (self : PoolServer) (p : ℕ) (o : Option WorkRequest)
      → self.requests p ≡ o
      → IsTidy self
      → IsReferenced self
      → Ensures IsReferenced (close_request self p o)
  unfolding close_request
  close-IsReferenced self p none e v referenced = referenced
  close-IsReferenced self p (some r) e v referenced =
      rw (close-dropped self p r v e) (dropped-IsReferenced self p r v e referenced)

  serve-IsReferenced :
      (self : PoolServer) (queue : List ℕ)
      → self.getwork_queue ≡ queue
      → IsTidy self
      → IsReferenced self
      → Ensures IsReferenced (step x self serves)
  unfolding step serve_request pool_server_need_work
  serve-IsReferenced self [] e v referenced =
      let idle : ltb 0 (length self.getwork_queue) ≡ false = ground arith in rw idle referenced
  serve-IsReferenced self (p ∷ queue) e v referenced =
      let (r, alive, one) = v.alive p (ground arith) in
      subst (Ensures IsReferenced)
        (sym (ap (λ m. m >>= λ r. ok r.1) (serve-dropped self p queue v e)))
        (dropped-IsReferenced self p r v alive referenced)

  step-IsReferenced :
      (self : PoolServer) (e : Event Node)
      → IsTidy self
      → IsReferenced self
      → Ensures IsReferenced (step x self e)
  unfolding step
  step-IsReferenced self (calls method_name params params_length invocation_id conn) v referenced =
      call-IsReferenced self method_name params params_length invocation_id conn v referenced
  step-IsReferenced self (asks path conn) v referenced = asks-IsReferenced self path conn referenced
  step-IsReferenced self (closes p) v referenced =
      close-IsReferenced self p (self.requests p) refl v referenced
  step-IsReferenced self (closes_lp conn) v referenced =
      close_long_poll-IsReferenced self conn referenced
  step-IsReferenced self (new_block block) v referenced = block-IsReferenced self block v referenced
  step-IsReferenced self serves v referenced =
      serve-IsReferenced self self.getwork_queue refl v referenced

  -- From a well-formed server on which each connection has as many references as long polls and
  -- waiting requests, every sequence of events runs and leaves such a server: no reference is
  -- leaked, and none is dropped that is not held.
  pub run-IsReferenced :
      (self : PoolServer) (es : List (Event Node))
      → IsTidy self
      → IsReferenced self
      → (s : PoolServer) × (run x self es ≡ ok s) × IsTidy s × IsReferenced s
  unfolding run
  run-IsReferenced self [] v referenced = (self, refl, v, referenced)
  run-IsReferenced self (e ∷ es) v referenced =
      let (s, stepped, w) = step-IsTidy x self e v in
      let still = subst (Ensures IsReferenced) stepped (step-IsReferenced self e v referenced) in
      let (t, ran, u, after) = run-IsReferenced s es w still in (t, rw stepped ran, u, after)
