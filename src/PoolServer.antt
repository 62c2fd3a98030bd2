-- ===== src/PoolServer.antt =====
-- pool-server.c: the miners' requests for work wait in a queue, and the connections of long polls
-- in a list.
pub mod Machine
pub mod Tidy
pub mod Steps
pub mod Drops
pub mod Runs
pub mod Oldest
pub mod Freed
pub mod Spec
pub mod Tickets
pub mod Refines
pub mod Holders
pub mod Referenced
use pool_dance.Prelude.{
  ℕ, zero, suc, ◌+◌, ◌-◌, Bool, true, false, not, Option, none, some, List, [], ◌∷◌, ◌++◌, Str,
  String, codes, str_eq, strcmp0_eq, ltb, ◌&&◌, ◌==◌, if◌then◌else◌, length, contains, remove,
  Outcome, ok, fault, use_after_free, assertion_failed, ◌>>=◌,
}
use pool_dance.Extern.{Extern}
use pool_dance.WorkResult.{WorkResult, work_result_new, ClientInfo, Wanted, when}

pub record WorkRequest : Type 0 where
  pub ref_count : ℕ
  pub conn : ℕ
  pub req : ℕ
  pub invocation_id : ℕ
  pub from_lp : Bool

pub record PoolServer : Type 0 where
  -- connections, by number; one stands as often as it has asked
  pub lp_conns : List ℕ
  -- addresses of requests, the head first
  pub getwork_queue : List ℕ
  -- X-Blocknum of the response headers
  pub block_header : Option ℕ
  -- the heap that the requests live in, and the next address
  pub requests : ℕ → Option WorkRequest
  pub next : ℕ
  -- the references that the server has taken on each connection
  pub conn_refs : ℕ → ℕ

unfoldable pub pool_server_new : PoolServer
pool_server_new = record {
  lp_conns = [];
  getwork_queue = [];
  block_header = none;
  requests = λ p. none;
  next = 0;
  conn_refs = λ conn. 0;
}

-- g_object_ref and g_object_unref of a connection. A count that is 0 stays 0.
abbrev pub ref_conn : (ℕ → ℕ) → ℕ → ℕ → ℕ
ref_conn refs conn c = if conn == c then refs c + 1 else refs c

abbrev pub unref_conn : (ℕ → ℕ) → ℕ → ℕ → ℕ
unref_conn refs conn c = if conn == c then refs c - 1 else refs c

abbrev pub place : (ℕ → Option WorkRequest) → ℕ → Option WorkRequest → ℕ → Option WorkRequest
place cells p r q = if p == q then r else cells q

-- The reference count of a request that may have been freed already.
abbrev pub unref_cell : PoolServer → ℕ → Option WorkRequest → Outcome PoolServer
unref_cell self p none = fault use_after_free
unref_cell self p (some r) =
    if ltb 0 r.ref_count
    then if ltb 1 r.ref_count
      then ok (record self {
        requests = place self.requests p (some (record r { ref_count = r.ref_count - 1 }));
      })
      else ok (record self {
        requests = place self.requests p none;
        conn_refs = unref_conn self.conn_refs r.conn;
      })
    else ok self

-- What the server does to the outside: a call of one of the two callbacks, or a response.
pub data Signal (Node : Type 0) : Type 0 where
  getwork_callback : ℕ → Signal Node
  putwork_callback : WorkResult Node → Signal Node
  respond_error : ℕ → Str → Signal Node
  respond : ℕ → Node → Signal Node
  respond_http : ℕ → Str → Signal Node
  respond_boolean : ℕ → Bool → Signal Node
  -- a request that is not for long polls goes on to the JSON-RPC server
  pass_on : ℕ → Signal Node

unfoldable pub work_request_unref : PoolServer → ℕ → Outcome PoolServer
work_request_unref self p = unref_cell self p (self.requests p)

-- The handler of "close" runs for a request from its creation until it is freed. It takes the
-- request out of the queue and drops its reference.
unfoldable pub getwork_connection_on_close : PoolServer → ℕ → Outcome PoolServer
getwork_connection_on_close self p =
    work_request_unref (record self { getwork_queue = remove p self.getwork_queue }) p

-- g_queue_free_full of the requests in the queue
unfoldable pub unref_requests : PoolServer → List ℕ → Outcome PoolServer
unref_requests self [] = ok self
unref_requests self (p ∷ queue) = do s ← work_request_unref self p; unref_requests s queue

-- The lists go with the server; what is left is the heap of requests.
unfoldable pub pool_server_free : PoolServer → Outcome PoolServer
pool_server_free self =
    unref_requests (record self { getwork_queue = []; lp_conns = [] }) self.getwork_queue

unfoldable pub lp_connection_on_close : PoolServer → ℕ → PoolServer
lp_connection_on_close self conn = record self {
  lp_conns = remove conn self.lp_conns;
  conn_refs = unref_conn self.conn_refs conn;
}

abbrev pub lp_path : Str
lp_path = codes "/lp"

unfoldable pub pool_server_need_work : PoolServer → Bool
pool_server_need_work self = ltb 0 (length self.getwork_queue)

-- g_queue_pop_head: NULL if there is none.
unfoldable pub pool_server_get_work_request : PoolServer → Option ℕ × PoolServer
pool_server_get_work_request self = elim self.getwork_queue [
  | [] ↦ (none, self)
  | p ∷ q ↦ (some p, record self { getwork_queue = q })
]

module _ {Node : Type 0} (x : Extern Node) where
  -- The new request and its address.
  unfoldable pub work_request_new : PoolServer → ℕ → ℕ → Bool → PoolServer × ℕ
  work_request_new self invocation_id conn from_lp =
      let r : WorkRequest = record {
        ref_count = 1;
        conn = conn;
        req = x.current_request conn;
        invocation_id = invocation_id;
        from_lp = from_lp;
      } in
      (
        record self {
          requests = place self.requests self.next (some r);
          next = suc self.next;
          conn_refs = ref_conn self.conn_refs conn;
        },
        self.next,
      )

  unfoldable pub work_request_get_client_info : WorkRequest → Wanted → ClientInfo
  work_request_get_client_info self w = record {
    user = when w.user (x.credentials self.req).0;
    passw = when (w.user && w.password) (x.credentials self.req).1;
    remote_addr = when w.remote_addr (x.remote_address self.conn);
    user_agent = when w.user_agent (x.user_agent self.req);
  }

  -- A request at the tail of the queue.
  unfoldable pub enqueue : PoolServer → ℕ → ℕ → Bool → PoolServer × ℕ
  enqueue self invocation_id conn from_lp =
      let (s, p) = work_request_new self invocation_id conn from_lp in
      (record s { getwork_queue = s.getwork_queue ++ p ∷ [] }, p)

  -- `params_length` is the length of the array of parameters, and `garbage` what a new work result
  -- finds in its block.
  unfoldable pub rpc_on_method_call :
      PoolServer
      → (method_name : Option Str) → (params : Node) → (params_length : ℕ) → ℕ
      → ℕ
      → (garbage : Bool) → PoolServer × Signal Node
  rpc_on_method_call self method_name params params_length invocation_id conn garbage =
      if not (strcmp0_eq method_name (some (codes "getwork")))
      then (self, respond_error invocation_id (codes "Method not supported"))
      else if params_length == 0
      then (let (s, p) = enqueue self invocation_id conn false in (s, getwork_callback p))
      else (self, putwork_callback (work_result_new x garbage params invocation_id conn))

  unfoldable pub on_request_headers : PoolServer → Str → ℕ → PoolServer × List (Signal Node)
  on_request_headers self path conn =
      if not (str_eq path lp_path) then (self, pass_on conn ∷ []) else (
        record self {
          lp_conns = self.lp_conns ++ conn ∷ [];
          conn_refs = ref_conn self.conn_refs conn;
        },
        [],
      )

  unfoldable pub long_polling_conn_to_getwork : PoolServer → ℕ → PoolServer
  long_polling_conn_to_getwork self conn =
      let (s, p) = enqueue self 0 conn true in record s { conn_refs = unref_conn s.conn_refs conn }

  -- g_list_foreach
  unfoldable pub long_polling_conns_to_getwork : PoolServer → List ℕ → PoolServer
  long_polling_conns_to_getwork self [] = self
  long_polling_conns_to_getwork self (conn ∷ conns) =
      long_polling_conns_to_getwork (long_polling_conn_to_getwork self conn) conns

  unfoldable pub pool_server_notify_new_block : PoolServer → ℕ → PoolServer
  pool_server_notify_new_block self block =
      let s : PoolServer = record self { block_header = some block } in
      record (long_polling_conns_to_getwork s s.lp_conns) { lp_conns = [] }

  -- Which response carries the work item; whether it could be sent is the library's answer.
  unfoldable pub pool_server_send_work_item : WorkRequest → Node → Signal Node
  pool_server_send_work_item work_request work_item =
      if not work_request.from_lp
      then respond work_request.invocation_id work_item
      else respond_http work_request.conn (
          codes "{\"result\": "
          ++ (x.to_text work_item ++ codes ", \"id\": \"0\", \"error\": null}"))

  unfoldable pub pool_server_respond_putwork : WorkResult Node → Bool → Signal Node
  pool_server_respond_putwork work_result accepted =
      respond_boolean work_result.invocation_id accepted
