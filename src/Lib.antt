-- ===== src/Lib.antt =====
-- pool-dance is a mining pool for the bitcoin protocol of the getwork days: miners ask it for
-- work over JSON-RPC, it hands on work items of an upstream bitcoin daemon, checks the shares
-- that come back, and logs them in rounds, one for each block found. The main loop of GLib
-- runs every component; only the hash of a share is computed in a thread of a pool.
--
-- pool-dance/work-validator.c is modelled by Validator and its children. The struct
-- WorkValidator is the record of that name; its two hashes are addresses in a small heap
-- (Prelude.Memory), because a use after free or a double free is a question of aliasing.
-- Validator.Hex has swap_hex_bytes2 and hex_to_bin, with strtoul as the C locale has it;
-- Validator.Target has compare_inverted_hashes; Validator.State the struct, the hash table and
-- the readers of a work item; Validator.Prevalidate the checks that do not block, in which the
-- code's `goto out` is the end of a branch; Validator.Thread the check that runs in a thread;
-- Validator.Blocks what is sent out, new blocks and the answer to getblockhash;
-- Validator.Machine composes the operations into histories. The remaining children hold the
-- proofs, each named for what it proves.
--
-- pool-dance/work-result.c is modelled by WorkResult: the struct, the reference count as one
-- thread sees it, the client info and the mark of stale work. RefCount has the count again,
-- for several threads: a step for each atomic operation of work_result_ref and
-- work_result_unref (pool-dance/pool-server.c has the same code for requests), and the states
-- that are reached.
--
-- pool-dance/file-logger.c is modelled by FileLogger and its children. FileLogger.State has
-- the struct together with the stream's pending operation, the file's text, the copies made of
-- it and the main loop's idle callbacks and timeouts; FileLogger.Methods the public functions
-- and write_all; FileLogger.Events the callbacks and the step function of a logger. A write
-- may take any part of what the stream was given, or fail; copies and truncations may fail. A
-- client's callback is a function of its number and the error, which logs entries. Only an
-- event that is due changes anything.
--
-- pool-dance/upstream-service.c is modelled by Upstream: the queue of work items, NULL before
-- the first block, the count of calls as a guint, and the calls of the JSON-RPC client that
-- have no answer. The loop of fill_work_queue has work_queue_min rounds of fuel; Upstream.Fill
-- shows that they are enough even when the sum wraps around.
--
-- pool-dance/block-monitor.c is modelled by BlockMonitor: its struct, and the timers and calls
-- that the main loop and the client hold for it.
--
-- pool-dance/pool-server.c is modelled by PoolServer: the requests for work live in a heap of
-- their own and the queue holds their addresses, which rise in the order of creation. A
-- request's handler for a closed connection is connected exactly while the request is alive,
-- so that an event for a request that is gone does nothing. Whether a response could be sent
-- is the library's answer; what is sent is a Signal. The references that it takes on
-- connections are counted (conn_refs). PoolServer.Machine runs its callbacks as events.
-- PoolServer.Spec is its contract, a queue of numbered tickets. serve_request is the server's
-- part of serve_work.
--
-- pool-dance/main.c is modelled by Main and its children. Main has serve_work over the three
-- components that it works on; Main.Callbacks the other callbacks, over all components (Pool),
-- with the sources of the main loop that run serve_work, the shares under validation, those
-- submitted to the daemon and the answers given; Main.Loop the main loop, which takes the
-- events in any order. Main.Config has load_global_config and what the components read of the
-- configuration; Main.Startup the start, in which `goto out` ends the sequence of stages;
-- Main.Shutdown the loop's end, the clean-up and the exit code. The components share one
-- client of the daemon, of which the references are counted. What main finds outside, such as
-- files, the daemon's user and the events, are the fields of World. Whether the privileges
-- could be dropped is known before any other event, since that source has the highest
-- priority.
--
-- pool-dance/round-manager.c is modelled by RoundManager, and pool-dance/event-dispatcher.c by
-- EventDispatcher: the entries with their formats (Format), and the loggers that they go to.
-- The dispatcher's vtable holds the round manager itself, its only implementation. The
-- dispatcher casts a work result to a work request, which is sound because the two structs
-- agree in the fields that are read; the model asks the work result. Dates and times are
-- arguments.
--
-- Prelude has what the modules share: the libraries' names, Boolean tests, lists measured by
-- native numbers, heap strings (Prelude.Memory), bags (Prelude.Bags) and Outcome; Witness and
-- its children run the theorems on concrete inputs.
--
-- Outcome (Prelude) is what a piece of C comes to: a value, or undefined behaviour of a named
-- kind. Where the code would read NULL, freed memory or past the end of a buffer, the model
-- faults at that point. Loops are structural recursion on the number of rounds left, which the
-- code fixes before it enters them, and only fill_work_queue has a bound that needs a proof.
--
-- GLib, json-glib and EventDance are not part of the repository: the functions of theirs that
-- the code relies on are the fields of Extern, and theorems name what they need of them, which
-- is only that SHA-256 gives 32 bytes. g_hash_table is an association list of distinct keys,
-- GQueue and GString are lists. The asynchronous results are the callbacks that they will run.
-- A guint is a natural number where it is only compared or counted up far below 2^32; where
-- the code may go below 0, as with work_requests, the wrap-around is written out.
--
-- Not modelled: the parsing of the configuration file and the command line, the order in which
-- the main loop finds events, sockets and HTTP headers, which belong to the libraries;
-- printing; g_slice_free of whole structs; the checks that still run when work_validator_free
-- stops the threads; the bytes that hex_to_bin reads past the end of a short target; and the
-- backup that an archive of a repeated name makes, since FileLogger keeps every copy. The
-- callbacks of the file loggers are events of FileLogger.Events, not of Main.Loop.
pub mod Prelude
pub mod Extern
pub mod WorkResult
pub mod Validator
pub mod FileLogger
pub mod Upstream
pub mod BlockMonitor
pub mod PoolServer
pub mod Main
pub mod Format
pub mod RoundManager
pub mod EventDispatcher
pub mod RefCount
pub mod Witness
