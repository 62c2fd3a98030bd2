-- ===== src/Witness/MainRuns.antt =====
-- Runs of the theorems about main.c.
use pool_dance.Prelude.{
  ◌≡◌, refl, true, false, none, some, List, [], ◌∷◌, ◌++◌, Str, codes, replicate, ok, Ensures, All,
  arith, ◌>>=◌,
}
use pool_dance.Prelude.Bags.{bag}
use pool_dance.WorkResult.{WorkResult, work_result_new}
use pool_dance.PoolServer.{pool_server_new, pool_server_need_work}
use pool_dance.PoolServer.Steps.{pool_server_new-IsTidy}
use pool_dance.BlockMonitor.{block_monitor_new, block_monitor_start}
use pool_dance.Validator.State.{work_validator_new}
use pool_dance.Validator.Prevalidate.{duplicate_work}
use pool_dance.Validator.Blocks.{answered}
use pool_dance.Validator.Sound.Operations.{work_validator_new-IsSound}
use pool_dance.Main.Callbacks.{Pool, Clock, work_validator_on_validate}
use pool_dance.Main.Loop.{
  Event, method_call, request_headers, request_closes, lp_closes, getwork_reply, hash_reply,
  count_reply, source, validation, submission, run,
}
use pool_dance.Main.Whole.{IsWell}
use pool_dance.Main.Whole.Runs.{run-IsWell}
use pool_dance.Main.Whole.Progress.{is_calm, IsCalm, run-Succeeds}
use pool_dance.Main.Whole.Answered.{told, with_answer, work_validator_on_validate-with_answer}
use pool_dance.Main.Answers.{received, shares_of}
use pool_dance.Main.Answers.Steps.{run-answers}
use pool_dance.Extern.{KeyFile}
use pool_dance.RoundManager.{created}
use pool_dance.Main.Startup.{World, no_upstream_service, minus_one, returned, nothing, start}
use pool_dance.Main.Startup.Errors.{error_of, first_error, start-first_error}
use pool_dance.Main.Shutdown.{main}
use pool_dance.Main.Shutdown.Exits.{main-failed, main-Frees}
use pool_dance.Witness.{sample, empty_memory, zeros}

abbrev clock : Clock
clock = record { now = 1; date = codes "today" }

-- The main loop begins.
abbrev beginning : Pool Str
beginning = record {
  services = record {
    upstream_service = record {
      work_queue = none;
      work_queue_min = 2;
      work_requests = 0;
      calls = 0;
    };
    pool_server = pool_server_new;
    work_validator = work_validator_new empty_memory;
  };
  event_dispatcher = record { logger = none; round_manager = none };
  block_monitor = block_monitor_start (block_monitor_new 0);
  current_block = 0;
  sources = 0;
  validations = [];
  submissions = [];
  hash_calls = 0;
  responses = [];
}

beginning-IsWell : IsWell beginning
unfolding pool_server_need_work pool_server_new
beginning-IsWell = record {
  server = pool_server_new-IsTidy;
  validator = work_validator_new-IsSound empty_memory;
  scheduled = λ can. absurd (ground arith);
  checked = tt;
  submitted = tt;
}

-- A block, a work item for a request, and its solution.
abbrev events : List (Event Str)
events =
    count_reply (some 1)
    ∷ hash_reply (answered (some (zeros 64)))
    ∷ method_call (some (codes "getwork")) [] 0 1 5 false
    ∷ getwork_reply (some (zeros 256))
    ∷ source true
    ∷ method_call (some (codes "getwork")) (zeros 256) 1 2 5 false
    ∷ validation 0 (replicate 80 0)
    ∷ submission 0 (some false)
    ∷ []

run-IsWell_example : Ensures IsWell (run sample clock beginning events)
run-IsWell_example = run-IsWell sample clock beginning events beginning-IsWell

-- Two calls for work are under way.
abbrev asked : Pool Str
asked = record beginning {
  services = record {
    upstream_service = record {
      work_queue = some [];
      work_queue_min = 2;
      work_requests = 2;
      calls = 2;
    };
    pool_server = pool_server_new;
    work_validator = work_validator_new empty_memory;
  };
}

asked-IsWell : IsWell asked
unfolding pool_server_need_work pool_server_new
asked-IsWell = record {
  server = pool_server_new-IsTidy;
  validator = work_validator_new-IsSound empty_memory;
  scheduled = λ can. absurd (ground arith);
  checked = tt;
  submitted = tt;
}

-- The first of two requests gets a work item that cannot be sent, and the other's connection
-- closes.
abbrev calm_events : List (Event Str)
calm_events =
    method_call (some (codes "getwork")) [] 0 1 5 false
    ∷ request_headers (codes "/lp") 6
    ∷ method_call (some (codes "getwork")) [] 0 2 7 false
    ∷ getwork_reply (some (zeros 256))
    ∷ source false
    ∷ request_closes 1
    ∷ lp_closes 6
    ∷ []

calm : All IsCalm calm_events
unfolding is_calm pool_dance.Prelude.Tests.strcmp0_eq pool_dance.Prelude.Tests.str_eq
calm = (refl, (refl, (refl, (refl, (refl, (refl, (refl, tt)))))))

run-Succeeds_example : (s : Pool Str) × (run sample clock asked calm_events ≡ ok s) × IsWell s
run-Succeeds_example = run-Succeeds sample clock asked calm_events calm asked-IsWell

run-answers_example :
    Ensures
      (λ s. bag (received s) ≡ bag (received beginning ++ shares_of events))
      (run sample clock beginning events)
run-answers_example = run-answers sample clock beginning events

-- A share with its own reference and that of its check.
abbrev checked : WorkResult Str
checked = record (work_result_new sample false (zeros 256) 3 5) { ref_count = 2 }

work_validator_on_validate-with_answer_example :
    work_validator_on_validate sample clock beginning checked (some duplicate_work) ≡ (
      told sample clock beginning checked (some duplicate_work) >>= λ dispatcher.
      ok (with_answer beginning checked (some duplicate_work) dispatcher))
work_validator_on_validate-with_answer_example =
    work_validator_on_validate-with_answer sample clock beginning checked (some duplicate_work) refl

-- Every string is the letter x, and every number is 0.
abbrev letters : KeyFile
letters = record { string = λ group key. some (120 ∷ []); integer = λ group key. 0 }

-- Nothing fails.
abbrev fine : World Str
fine = record {
  options = some (record { config_file_name = none; daemonize = true });
  key_file = λ name. some letters;
  log_file = λ name. some [];
  detaches = true;
  round_file = λ name. created;
  set_user = λ user. true;
  events = events;
  loop_code = returned 0;
  loop_fails = false;
}

-- There is no user for the daemon in the configuration.
abbrev without_user : World Str
without_user = record fine {
  key_file = λ name. some (record { string = λ group key. none; integer = λ group key. 0 });
}

start-first_error_example : error_of (start without_user empty_memory 1) ≡ first_error without_user
start-first_error_example = start-first_error without_user empty_memory 1

main-failed_example : main sample clock without_user empty_memory ≡ ok (nothing, minus_one)
main-failed_example = main-failed sample clock without_user empty_memory no_upstream_service refl

main-Frees_example : Ensures (λ z. z.0 ≡ nothing) (main sample clock fine empty_memory)
main-Frees_example = main-Frees sample clock fine empty_memory
