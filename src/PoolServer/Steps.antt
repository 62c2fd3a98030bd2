-- ===== src/PoolServer/Steps.antt =====
-- What the operations that fill the queue of requests, and a closed long poll, keep.
use pool_dance.Prelude.{
  ℕ, ◌≡◌, ◌≢◌, refl, Bool, true, false, some, List, [], ◌∷◌, contains, if_cases, arith, ℕ_discrete,
}
use pool_dance.Extern.{Extern}
use pool_dance.PoolServer.{
  PoolServer, WorkRequest, lp_connection_on_close, long_polling_conn_to_getwork, pool_server_new,
  work_request_new, enqueue, long_polling_conns_to_getwork, pool_server_notify_new_block,
}
use pool_dance.PoolServer.Machine.{close_long_poll}
use pool_dance.PoolServer.Tidy.{IsTidy, contains-append, contains-after, Ascends-append}

module _ {Node : Type 0} (x : Extern Node) where
  -- Only the queue, the requests and the next address count.
  pub same_queue :
      (self s : PoolServer)
      → s.getwork_queue ≡ self.getwork_queue
      → s.requests ≡ self.requests
      → s.next ≡ self.next
      → IsTidy self
      → IsTidy s
  same_queue self s q r n v = record {
    ascends = rw (q, n) v.ascends;
    alive = rw (q, r) v.alive;
    queued = rw (q, r) v.queued;
  }

  pub enqueue-IsTidy :
      (self : PoolServer) (invocation_id conn : ℕ) (from_lp : Bool)
      → IsTidy self
      → IsTidy (enqueue x self invocation_id conn from_lp).0
  unfolding enqueue work_request_new
  enqueue-IsTidy self invocation_id conn from_lp v =
      let new_one =
        contains-after 0 self.next self.next self.getwork_queue v.ascends (omega arith) in
      record {
        ascends = Ascends-append 0 self.next self.getwork_queue v.ascends;
        alive = λ p e. elim (ℕ_discrete self.next p) [
          | yes here ↦
              let r : WorkRequest = record {
                ref_count = 1;
                conn = conn;
                req = x.current_request conn;
                invocation_id = invocation_id;
                from_lp = from_lp;
              } in
              (r, ground arith, refl)
          | no there ↦
              let old : contains p self.getwork_queue ≡ true =
                ground (arith, contains-append p self.next self.getwork_queue) in
              let (r, is_r, one) = v.alive p old in (r, ground arith, one)
        ];
        queued = λ p e.
            let apart : self.next ≢ p =
              λ here. ground (arith, contains-append p self.next self.getwork_queue) in
            let old : contains p self.getwork_queue ≡ false =
              ground (arith, contains-append p self.next self.getwork_queue) in
            let gone = v.queued p old in ground arith;
      }

  pub long_polling_conn-IsTidy :
      (self : PoolServer) (conn : ℕ)
      → IsTidy self
      → IsTidy (long_polling_conn_to_getwork x self conn)
  unfolding long_polling_conn_to_getwork
  long_polling_conn-IsTidy self conn v =
      same_queue (enqueue x self 0 conn true).0 _ refl refl refl (enqueue-IsTidy self 0 conn true v)

  pub long_polling-IsTidy :
      (self : PoolServer) (conns : List ℕ)
      → IsTidy self
      → IsTidy (long_polling_conns_to_getwork x self conns)
  unfolding long_polling_conns_to_getwork
  long_polling-IsTidy self [] v = v
  long_polling-IsTidy self (conn ∷ conns) v =
      long_polling-IsTidy (long_polling_conn_to_getwork x self conn) conns
        (long_polling_conn-IsTidy self conn v)

module _ {Node : Type 0} (x : Extern Node) where
  pub pool_server_notify_new_block-IsTidy :
      (self : PoolServer) (block : ℕ)
      → IsTidy self
      → IsTidy (pool_server_notify_new_block x self block)
  unfolding pool_server_notify_new_block
  pool_server_notify_new_block-IsTidy self block v =
      let s : PoolServer = record self { block_header = some block } in
      let t = long_polling-IsTidy x s s.lp_conns (same_queue x self s refl refl refl v) in
      same_queue x (long_polling_conns_to_getwork x s s.lp_conns) _ refl refl refl t

pub pool_server_new-IsTidy : IsTidy pool_server_new
unfolding pool_server_new
pool_server_new-IsTidy = record {
  ascends = omega arith;
  alive = λ p e. absurd (cc e);
  queued = λ p e. refl;
}

pub close_long_poll-IsTidy :
    (self : PoolServer) (conn : ℕ) → IsTidy self → IsTidy (close_long_poll self conn)
unfolding close_long_poll lp_connection_on_close
close_long_poll-IsTidy self conn v =
    if_cases {A = PoolServer} IsTidy (contains conn self.lp_conns) _ _
      (λ _. record { ascends = v.ascends; alive = v.alive; queued = v.queued }) (λ _. v)

pub close_long_poll-queue :
    (self : PoolServer) (conn : ℕ) → (close_long_poll self conn).getwork_queue ≡ self.getwork_queue
unfolding close_long_poll lp_connection_on_close
close_long_poll-queue self conn =
    if_cases {A = PoolServer} (λ s. s.getwork_queue ≡ self.getwork_queue)
      (contains conn self.lp_conns) _ _ (λ _. refl) (λ _. refl)
