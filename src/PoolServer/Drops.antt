-- ===== src/PoolServer/Drops.antt =====
-- Requests that leave the queue: the last reference goes, and each is freed once.
use pool_dance.Prelude.{
  ℕ, ◌≡◌, ◌≢◌, refl, sym, ap, ap₂, ◌∙◌, true, false, Option, none, some, List, ◌∷◌, ltb, length,
  contains, remove, arith, ℕ_discrete, Bool-cases, inl, inr, ok,
}
use pool_dance.PoolServer.{
  PoolServer, WorkRequest, place, unref_conn, work_request_unref, getwork_connection_on_close,
  pool_server_need_work, pool_server_get_work_request,
}
use pool_dance.PoolServer.Machine.{drop_taken, serve_request}
use pool_dance.PoolServer.Tidy.{IsTidy, contains-remove, Ascends-remove}

-- The reference that a request holds on its connection goes.
abbrev pub unref_conn_of : Option WorkRequest → (ℕ → ℕ) → ℕ → ℕ
unref_conn_of none refs = refs
unref_conn_of (some r) refs = unref_conn refs r.conn

-- A request taken out of the queue, and freed.
abbrev pub dropped : PoolServer → ℕ → PoolServer
dropped self p = record self {
  getwork_queue = remove p self.getwork_queue;
  requests = place self.requests p none;
  conn_refs = unref_conn_of (self.requests p) self.conn_refs;
}

pub dropped-IsTidy : (self : PoolServer) (p : ℕ) → IsTidy self → IsTidy (dropped self p)
dropped-IsTidy self p v = record {
  ascends = Ascends-remove 0 self.next p self.getwork_queue v.ascends;
  alive = λ n e.
      let removal = contains-remove 0 self.next p n self.getwork_queue v.ascends in
      let apart : p ≢ n = λ same. ground arith in
      let (r, is_r, one) = v.alive n (ground arith) in (r, ground arith, one);
  queued = λ n e.
      let removal = contains-remove 0 self.next p n self.getwork_queue v.ascends in
      elim (ℕ_discrete p n) [
        | yes same ↦ ground arith
        | no apart ↦ let gone = v.queued n (ground arith) in ground arith
      ];
}

abbrev pub freed : PoolServer → ℕ → WorkRequest → PoolServer
freed self p r = record self {
  requests = place self.requests p none;
  conn_refs = unref_conn self.conn_refs r.conn;
}

-- The last reference goes: the request is freed.
pub unref_one :
    (self : PoolServer) (p : ℕ) (r : WorkRequest)
    → self.requests p ≡ some r
    → r.ref_count ≡ 1
    → work_request_unref self p ≡ ok (freed self p r)
unfolding work_request_unref
unref_one self p r e one =
    let held : ltb 0 r.ref_count ≡ true = ground arith in
    let last : ltb 1 r.ref_count ≡ false = ground arith in rw (e, held, last) refl

-- A request is freed with the reference that it holds.
freed_dropped :
    (self : PoolServer) (p : ℕ) (r : WorkRequest) (q : List ℕ)
    → self.requests p ≡ some r
    → remove p self.getwork_queue ≡ q
    → freed (record self { getwork_queue = q }) p r ≡ dropped self p
freed_dropped self p r q e out =
    ap₂
      (λ queue refs. record self {
        getwork_queue = queue;
        requests = place self.requests p none;
        conn_refs = refs;
      })
      (sym out) (sym (ap (λ o. unref_conn_of o self.conn_refs) e))

pub alive-contains :
    (self : PoolServer) (p : ℕ) (r : WorkRequest)
    → IsTidy self
    → self.requests p ≡ some r
    → contains p self.getwork_queue ≡ true
alive-contains self p r v e = elim (Bool-cases (contains p self.getwork_queue)) [
  | inl held ↦ held
  | inr out ↦ let gone = v.queued p out in absurd (cc gone)
]

pub close-dropped :
    (self : PoolServer) (p : ℕ) (r : WorkRequest)
    → IsTidy self
    → self.requests p ≡ some r
    → getwork_connection_on_close self p ≡ ok (dropped self p)
unfolding getwork_connection_on_close
close-dropped self p r v e =
    let (r', e', one) = v.alive p (alive-contains self p r v e) in
    unref_one (record self { getwork_queue = remove p self.getwork_queue }) p r' e' one
    ∙ ap (λ t. ok t) (freed_dropped self p r' _ e' refl)

pub pool_server_get_work_request-head :
    (self : PoolServer) (p : ℕ) (q : List ℕ)
    → self.getwork_queue ≡ p ∷ q
    → pool_server_get_work_request self ≡ (some p, record self { getwork_queue = q })
unfolding pool_server_get_work_request
pool_server_get_work_request-head self p q e = rw e refl

-- The head of the queue is freed once it is out, with the reference on its connection.
pub take-freed :
    (self : PoolServer) (p : ℕ) (q : List ℕ) (r : WorkRequest)
    → IsTidy self
    → self.getwork_queue ≡ p ∷ q
    → self.requests p ≡ some r
    → work_request_unref (record self { getwork_queue = q }) p
      ≡ ok (freed (record self { getwork_queue = remove p self.getwork_queue }) p r)
take-freed self p q r v e is_r =
    let (r', is_r', one) = v.alive p (ground arith) in
    let same : r' ≡ r = cc (is_r, is_r') in
    let tail : remove p self.getwork_queue ≡ q = ground arith in
    unref_one (record self { getwork_queue = q }) p r is_r (ap (λ w. w.ref_count) (sym same) ∙ one)
    ∙ ap (λ z. ok (freed (record self { getwork_queue = z }) p r)) (sym tail)

pub take-dropped :
    (self : PoolServer) (p : ℕ) (q : List ℕ)
    → IsTidy self
    → self.getwork_queue ≡ p ∷ q
    → work_request_unref (record self { getwork_queue = q }) p ≡ ok (dropped self p)
take-dropped self p q v e =
    let (r, is_r, one) = v.alive p (ground arith) in
    take-freed self p q r v e is_r ∙ ap (λ t. ok t) (freed_dropped self p r _ is_r refl)

-- A request is served: the head of the queue goes, and the request with it.
pub serve-dropped :
    (self : PoolServer) (p : ℕ) (q : List ℕ)
    → IsTidy self
    → self.getwork_queue ≡ p ∷ q
    → serve_request self ≡ ok (some p, dropped self p)
unfolding serve_request drop_taken pool_server_need_work
serve-dropped self p q v e =
    let waits : ltb 0 (length self.getwork_queue) ≡ true = ground arith in
    rw waits (
      ap drop_taken (pool_server_get_work_request-head self p q e)
      ∙ rw (take-dropped self p q v e) refl)
