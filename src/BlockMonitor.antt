-- ===== src/BlockMonitor.antt =====
-- block-monitor.c: the daemon is asked for its block count over and over.
pub mod Rising
pub mod Polling
use pool_dance.Prelude.{
  ℕ, zero, suc, ◌+◌, ◌-◌, Bool, true, false, not, Option, none, some, List, [], ◌∷◌, ◌++◌, ltb,
  ◌==◌, if◌then◌else◌, contains, remove,
}

pub record BlockMonitor : Type 0 where
  pub current_block : ℕ
  pub started : Bool
  -- 0 while no source is remembered
  pub src_id : ℕ
  pub latency : ℕ
  -- The main loop's timers that lead to checkBlock, by their ids, the id that the next one gets,
  -- and the calls of getblockcount that have no answer yet.
  pub timers : List ℕ
  pub next_id : ℕ
  pub calls : ℕ

-- `latency` is the integer of that key as a guint, 0 if it is missing.
unfoldable pub block_monitor_new : (latency : ℕ) → BlockMonitor
block_monitor_new latency = record {
  current_block = 0;
  started = false;
  src_id = 0;
  latency = if latency == 0 then 250 else latency;
  timers = [];
  next_id = 1;
  calls = 0;
}

unfoldable pub check_block : BlockMonitor → BlockMonitor
check_block self = record self { src_id = 0; calls = self.calls + 1 }

-- evd_timeout_add
unfoldable pub add_timer : BlockMonitor → BlockMonitor
add_timer self = record self {
  src_id = self.next_id;
  timers = self.next_id ∷ self.timers;
  next_id = self.next_id + 1;
}

-- The answer to a call, as a guint, `none` if it failed: the state before the next timer is set,
-- and the block that block_change_cb is called with.
unfoldable pub read_count : BlockMonitor → Option ℕ → BlockMonitor × List ℕ
read_count self none = (self, [])
read_count self (some block) =
    if ltb self.current_block block
    then (record self { current_block = block }, if self.started then block ∷ [] else [])
    else (self, [])

unfoldable pub on_block_count : BlockMonitor → Option ℕ → BlockMonitor × List ℕ
on_block_count self reply =
    let (seen, notified) = read_count (record self { calls = self.calls - 1 }) reply in
    (if self.started then add_timer seen else seen, notified)

unfoldable pub block_monitor_start : BlockMonitor → BlockMonitor
block_monitor_start self =
    if self.started
    then self
    else check_block (record self {
      started = true;
      timers = if self.src_id == 0 then self.timers else remove self.src_id self.timers;
    })

unfoldable pub block_monitor_stop : BlockMonitor → BlockMonitor
block_monitor_stop self =
    if self.started
    then (let stopped : BlockMonitor = record self { started = false } in
        if ltb 0 self.src_id
        then record stopped { timers = remove self.src_id self.timers; src_id = 0 }
        else stopped)
    else self

pub data Event : Type 0 where
  starts : Event
  stops : Event
  counted : Option ℕ → Event
  times_out : ℕ → Event

-- g_source_remove and the main loop take a timer out by its id. checkBlock returns FALSE: the timer
-- is gone when it has run. An answer needs a call, and a timeout a timer.
unfoldable pub step : BlockMonitor → Event → BlockMonitor × List ℕ
step self starts = (block_monitor_start self, [])
step self stops = (block_monitor_stop self, [])
step self (counted reply) = if ltb 0 self.calls then on_block_count self reply else (self, [])
step self (times_out id) = (
  if contains id self.timers
      then check_block (record self { timers = remove id self.timers })
      else self,
  [],
)

-- The state after the events, and the blocks notified, in order.
unfoldable pub run : BlockMonitor → List Event → BlockMonitor × List ℕ
run self [] = (self, [])
run self (e ∷ es) =
    let (s, notified) = step self e in let (t, later) = run s es in (t, notified ++ later)
