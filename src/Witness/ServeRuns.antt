-- ===== src/Witness/ServeRuns.antt =====
-- A run of the theorem about serve_work.
use pool_dance.Prelude.{◌≡◌, ◌<◌, refl, Bool, true, false, none, some, [], ◌∷◌, Str, ok, arith}
use pool_dance.Upstream.{
  UpstreamService, rpc_on_getwork, upstream_service_notify_new_block, fill_work_queue, fill_rounds,
  queue_length, push_head,
}
use pool_dance.Upstream.Accounting.{
  IsAccounted, answer-IsAccounted, upstream_service_notify_new_block-IsAccounted,
}
use pool_dance.PoolServer.{pool_server_new, work_request_new, enqueue}
use pool_dance.PoolServer.Steps.{enqueue-IsTidy, pool_server_new-IsTidy}
use pool_dance.Validator.State.{work_validator_new, work_item_get_data_hex}
use pool_dance.Validator.Sound.Operations.{work_validator_new-IsSound}
use pool_dance.Main.{System, serve_work, with_easy_target}
use pool_dance.Main.Served.{Serves, serve_work-Serves}
use pool_dance.Witness.{sample, empty_memory, zeros}

abbrev before_block : UpstreamService Str
before_block = record { work_queue = none; work_queue_min = 2; work_requests = 0; calls = 0 }

abbrev waiting : UpstreamService Str
waiting = upstream_service_notify_new_block before_block

waiting-IsAccounted : IsAccounted 0 waiting
waiting-IsAccounted = upstream_service_notify_new_block-IsAccounted before_block (omega arith) refl

waiting_empty : waiting.work_queue ≡ some []
unfolding upstream_service_notify_new_block fill_work_queue fill_rounds queue_length
waiting_empty = refl

waiting_calls : 0 < waiting.calls
unfolding upstream_service_notify_new_block fill_work_queue fill_rounds queue_length
waiting_calls = omega arith

-- A work item is cached, a request waits, and the validator tracks nothing.
abbrev ready : System Str
ready = record {
  upstream_service = (rpc_on_getwork waiting (some (zeros 256))).0;
  pool_server = (enqueue sample pool_server_new 1 5 false).0;
  work_validator = work_validator_new empty_memory;
}

ready_request : ready.pool_server.getwork_queue ≡ 0 ∷ []
unfolding enqueue work_request_new pool_server_new
ready_request = refl

ready_work : ready.upstream_service.work_queue ≡ some (zeros 256 ∷ [])
unfolding rpc_on_getwork upstream_service_notify_new_block fill_work_queue fill_rounds queue_length
    push_head
ready_work = refl

ready_data : work_item_get_data_hex sample (with_easy_target sample (zeros 256)) ≡ some (zeros 256)
unfolding work_item_get_data_hex with_easy_target
ready_data = refl

serve_work-Serves_example :
    (s : System Str) × (more : Bool) × (serve_work sample true ready ≡ ok (s, more))
    × Serves sample true 0 (zeros 256) [] ready s 0
serve_work-Serves_example =
    serve_work-Serves sample true 0 ready 0 [] (zeros 256) [] (zeros 256)
      (enqueue-IsTidy sample pool_server_new 1 5 false pool_server_new-IsTidy)
      (answer-IsAccounted 0 waiting (zeros 256) [] waiting_empty waiting_calls waiting-IsAccounted)
      (work_validator_new-IsSound empty_memory) ready_request ready_work ready_data refl
