-- ===== src/Main.antt =====
-- serve_work of main.c, where the pool server, the upstream service and the work validator meet.
pub mod Served
pub mod Callbacks
pub mod Loop
pub mod Shares
pub mod Whole
pub mod Answers
pub mod Acceptance
pub mod Honest
pub mod Config
pub mod Startup
pub mod Shutdown
use pool_dance.Prelude.{
  ℕ, Bool, true, false, not, ◌&&◌, ◌||◌, Option, none, some, List, [], ◌∷◌, Str, codes,
  if◌then◌else◌, Outcome, ok, fault, null_pointer, ◌>>=◌,
}
use pool_dance.Extern.{Extern}
use pool_dance.WorkResult.{Wanted}
use pool_dance.Upstream.{UpstreamService, upstream_service_has_work, upstream_service_get_work}
use pool_dance.PoolServer.{
  PoolServer, WorkRequest, pool_server_need_work, pool_server_get_work_request,
  work_request_get_client_info, work_request_unref,
}
use pool_dance.Validator.State.{WorkValidator, non_null}
use pool_dance.Validator.Blocks.{work_validator_track_work_sent}

-- The static variables that serve_work uses.
pub record System (Node : Type 0) : Type 0 where
  pub upstream_service : UpstreamService Node
  pub pool_server : PoolServer
  pub work_validator : WorkValidator

abbrev pub easy_target : Str
easy_target = codes "ffffffffffffffffffffffffffffffffffffffffffffffffffffffff00000000"

module _ {Node : Type 0} (x : Extern Node) where
  -- json_object_set_string_member (obj, "target", EASY_TARGET)
  unfoldable pub with_easy_target : Node → Node
  with_easy_target work_item = x.set_object_string work_item (codes "target") easy_target

  unfoldable pub requester : WorkRequest → Option Str
  requester work_request = (work_request_get_client_info x work_request wanted).user
    where
      wanted : Wanted
      wanted = record { user = true; password = false; remote_addr = false; user_agent = false }

  -- What follows pool_server_send_work_item, which says whether the item was sent. There is one
  -- upstream service, known by the number 0.
  unfoldable pub track_if_sent :
      (sent : Bool) → WorkValidator → WorkRequest → Node → Outcome WorkValidator
  track_if_sent false validator work_request work_item = ok validator
  track_if_sent true validator work_request work_item =
      work_validator_track_work_sent x validator (requester work_request) work_item 0

  -- The request and the work item are taken out of their queues. Either may be NULL, and the
  -- request may have been freed.
  unfoldable pub serve_taken :
      (sent : Bool)
      → WorkValidator
      → Option ℕ × PoolServer
      → Option Node × UpstreamService Node
      → Outcome (System Node × Bool)
  serve_taken sent validator (none, server) work = fault null_pointer
  serve_taken sent validator (some p, server) (none, upstream) = fault null_pointer
  serve_taken sent validator (some p, server) (some work_item, upstream) = do
    work_request ← non_null (server.requests p)
    validator' ← track_if_sent sent validator work_request (with_easy_target work_item)
    server' ← work_request_unref server p
    ok (
      record { upstream_service = upstream; pool_server = server'; work_validator = validator' },
      pool_server_need_work server' && upstream_service_has_work upstream,
    )

  -- The Boolean says whether the source of the main loop calls it again.
  unfoldable pub serve_work : (sent : Bool) → System Node → Outcome (System Node × Bool)
  serve_work sent self =
      if not (pool_server_need_work self.pool_server)
        || not (upstream_service_has_work self.upstream_service)
      then ok (self, false)
      else serve_taken sent self.work_validator (pool_server_get_work_request self.pool_server)
          (upstream_service_get_work self.upstream_service)
