-- ===== src/PoolServer/Refines.antt =====
-- pool-server.c keeps its contract.
use pool_dance.Prelude.{
  ℕ, suc, ◌≡◌, refl, sym, ap, ap₂, subst, ◌∙◌, Bool, true, false, Option, none, some, List, [], ◌∷◌,
  ◌++◌, Str, codes, str_eq, strcmp0_eq, ltb, ◌==◌, length, contains, remove, arith, Bool-cases, inl,
  inr, ok, Ensures, ◌>>=◌,
}
use pool_dance.Extern.{Extern}
use pool_dance.PoolServer.{
  PoolServer, lp_path, WorkRequest, place, work_request_new, enqueue, rpc_on_method_call,
  lp_connection_on_close, on_request_headers, long_polling_conns_to_getwork,
  long_polling_conn_to_getwork, pool_server_notify_new_block, pool_server_need_work,
}
use pool_dance.PoolServer.Machine.{
  close_long_poll, Event, calls, asks, closes, closes_lp, new_block, serves, close_request,
  serve_request, step, run,
}
use pool_dance.PoolServer.Tidy.{IsTidy, Ascends, contains-before, contains-after}
use pool_dance.PoolServer.Steps.{long_polling_conn-IsTidy, same_queue}
use pool_dance.PoolServer.Drops.{dropped, close-dropped, serve-dropped}
use pool_dance.PoolServer.Runs.{step-IsTidy}
use pool_dance.PoolServer.Spec.{
  Ticket, Desk, arrive, arrive_all, leave, first_out, desk_step, desk_run, ticket_of, tickets, view,
}
use pool_dance.PoolServer.Tickets.{tickets-place, tickets-append, tickets-remove, leave-freed}

remove-absent : (n : ℕ) (ns : List ℕ) → contains n ns ≡ false → remove n ns ≡ ns
remove-absent n [] out = refl
remove-absent n (a ∷ ns) out = let ih = remove-absent n ns (ground arith) in ground arith

module _ {Node : Type 0} (x : Extern Node) where
  pub enqueue-view :
      (self : PoolServer) (invocation_id conn : ℕ) (from_lp : Bool)
      → IsTidy self
      → view (enqueue x self invocation_id conn from_lp).0
        ≡ arrive (view self) invocation_id conn from_lp
  unfolding view enqueue work_request_new arrive ticket_of
  enqueue-view self invocation_id conn from_lp v =
      let queue = self.getwork_queue in
      let new_one = contains-after 0 self.next self.next queue v.ascends (omega arith) in
      let r : WorkRequest = record {
        ref_count = 1;
        conn = conn;
        req = x.current_request conn;
        invocation_id = invocation_id;
        from_lp = from_lp;
      } in
      let cells = place self.requests self.next (some r) in
      let placed : cells self.next ≡ some r = ground arith in
      ap (λ ts. desk ts)
        (tickets-append cells queue self.next
          ∙ ap₂ (λ old new. old ++ new)
              (tickets-place self.requests self.next (some r) queue new_one)
              (ap (ticket_of self.next) placed))
    where
      desk : List Ticket → Desk
      desk ts = record { waiting = ts; polls = self.lp_conns; next = suc self.next }

  all-view :
      (self : PoolServer) (conns : List ℕ)
      → IsTidy self
      → view (long_polling_conns_to_getwork x self conns) ≡ arrive_all (view self) conns
  unfolding long_polling_conns_to_getwork long_polling_conn_to_getwork arrive_all view
  all-view self [] v = refl
  all-view self (conn ∷ conns) v =
      all-view (long_polling_conn_to_getwork x self conn) conns
        (long_polling_conn-IsTidy x self conn v)
      ∙ ap (λ desk. arrive_all desk conns) (enqueue-view self 0 conn true v)

  block-view :
      (self : PoolServer) (block : ℕ)
      → IsTidy self
      → view (pool_server_notify_new_block x self block)
        ≡ record (arrive_all (view self) self.lp_conns) { polls = [] }
  unfolding pool_server_notify_new_block view
  block-view self block v =
      let s : PoolServer = record self { block_header = some block } in
      ap no_polls (all-view s s.lp_conns (same_queue x self s refl refl refl v))
    where
      no_polls : Desk → Desk
      no_polls desk = record desk { polls = [] }

  pub dropped-view :
      (self : PoolServer) (p : ℕ)
      → IsTidy self
      → view (dropped self p) ≡ record (view self) { waiting = leave p (view self).waiting }
  unfolding view
  dropped-view self p v =
      ap (λ ts. record (view self) { waiting = ts })
        (tickets-remove self.requests p 0 self.next self.getwork_queue v.ascends)

  first-view :
      (self : PoolServer) (p : ℕ) (queue : List ℕ)
      → self.getwork_queue ≡ p ∷ queue
      → IsTidy self
      → view (dropped self p) ≡ record (view self) { waiting = first_out (view self).waiting }
  unfolding view first_out tickets ticket_of
  first-view self p queue e v =
      let (r, alive, one) = v.alive p (ground arith) in
      let up : Ascends 0 (p ∷ queue) self.next = subst (λ q. Ascends 0 q self.next) e v.ascends in
      let once : contains p queue ≡ false =
        contains-before (suc p) self.next p queue up.1 (omega arith) in
      let is : (p == p) ≡ true = ground arith in
      let rest : remove p self.getwork_queue ≡ queue = ground arith in
      ap (λ ts. record (view self) { waiting = ts })
        (ap (tickets (place self.requests p none)) rest
          ∙ tickets-place self.requests p none queue once
          ∙ sym (ap (λ o. first_out (ticket_of p o ++ tickets self.requests queue)) alive)
          ∙ sym (ap (λ q. first_out (tickets self.requests q)) e))

  -- The event does to the view what the contract says, without a fault.
  abbrev Refines : PoolServer → Event Node → Type 0
  Refines self e = Ensures (λ s. view s ≡ desk_step (view self) e) (step x self e)

  call-Refines :
      (self : PoolServer) (method_name : Option Str) (params : Node)
      (params_length invocation_id conn : ℕ)
      → IsTidy self
      → Refines self (calls method_name params params_length invocation_id conn)
  unfolding step rpc_on_method_call desk_step
  call-Refines self method_name params params_length invocation_id conn v =
      elim (Bool-cases (strcmp0_eq method_name (some (codes "getwork")))) [
        | inr other ↦ rw other refl
        | inl getwork ↦ elim (Bool-cases (params_length == 0)) [
          | inl asks_work ↦ rw (getwork, asks_work) (enqueue-view self invocation_id conn false v)
          | inr submits ↦ rw (getwork, submits) refl
        ]
      ]

  close-Refines :
      (self : PoolServer) (p : ℕ) (o : Option WorkRequest)
      → self.requests p ≡ o
      → IsTidy self
      → Ensures
          (λ s. view s ≡ record (view self) { waiting = leave p (view self).waiting })
          (close_request self p o)
  unfolding close_request view
  close-Refines self p none e v =
      ap (λ ts. record (view self) { waiting = ts })
        (sym (leave-freed self.requests p self.getwork_queue e))
  close-Refines self p (some r) e v = rw (close-dropped self p r v e) (dropped-view self p v)

  serve-Refines :
      (self : PoolServer) (queue : List ℕ)
      → self.getwork_queue ≡ queue
      → IsTidy self
      → Refines self serves
  unfolding step serve_request pool_server_need_work desk_step view tickets first_out
  serve-Refines self [] e v =
      let idle : ltb 0 (length self.getwork_queue) ≡ false = ground arith in
      rw idle (
        ap (λ ts. record (view self) { waiting = ts })
          (ap (tickets self.requests) e ∙ sym (ap (λ q. first_out (tickets self.requests q)) e)))
  serve-Refines self (p ∷ queue) e v =
      subst (Ensures (λ s. view s ≡ desk_step {Node = Node} (view self) serves))
        (sym (ap (λ m. m >>= λ r. ok r.1) (serve-dropped self p queue v e)))
        (first-view self p queue e v)

  close_long_poll-view :
      (self : PoolServer) (conn : ℕ)
      → view (close_long_poll self conn)
        ≡ record (view self) { polls = remove conn (view self).polls }
  unfolding close_long_poll lp_connection_on_close view
  close_long_poll-view self conn = elim (Bool-cases (contains conn self.lp_conns)) [
    | inl held ↦ rw held refl
    | inr out ↦ rw out (
        ap (λ polls. record (view self) { polls = polls })
          (sym (remove-absent conn self.lp_conns out)))
  ]

  step-Refines : (self : PoolServer) (e : Event Node) → IsTidy self → Refines self e
  unfolding step desk_step on_request_headers view
  step-Refines self (calls method_name params params_length invocation_id conn) v =
      call-Refines self method_name params params_length invocation_id conn v
  step-Refines self (asks path conn) v = elim (Bool-cases (str_eq path lp_path)) [
    | inl polls ↦ rw polls refl
    | inr other ↦ rw other refl
  ]
  step-Refines self (closes p) v = close-Refines self p (self.requests p) refl v
  step-Refines self (closes_lp conn) v = close_long_poll-view self conn
  step-Refines self (new_block block) v = block-view self block v
  step-Refines self serves v = serve-Refines self self.getwork_queue refl v

  -- From a well-formed server every sequence of events runs, and what the contract sees of the
  -- server is what the contract does: requests wait in the order of arrival, a new block turns
  -- every long poll into a request, in order, a closed connection takes its request out, and a work
  -- item goes to the first.
  pub run-Refines :
      (self : PoolServer) (es : List (Event Node))
      → IsTidy self
      → (s : PoolServer) × (run x self es ≡ ok s) × (view s ≡ desk_run (view self) es)
  unfolding run desk_run
  run-Refines self [] v = (self, refl, refl)
  run-Refines self (e ∷ es) v =
      let (s, stepped, w) = step-IsTidy x self e v in
      let seen =
        subst (Ensures (λ t. view t ≡ desk_step (view self) e)) stepped (step-Refines self e v) in
      let (t, ran, r) = run-Refines s es w in
      (t, rw stepped ran, r ∙ ap (λ desk. desk_run desk es) seen)
