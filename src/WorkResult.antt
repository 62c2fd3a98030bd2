-- ===== src/WorkResult.antt =====
-- work-result.c: a share that a miner submits, and who submitted it.
use pool_dance.Prelude.{
  ℕ, ◌+◌, ◌-◌, Bool, true, false, ◌&&◌, Option, none, some, Str, ltb, if◌then◌else◌,
}
use pool_dance.Extern.{Extern}

pub record WorkResult (Node : Type 0) : Type 0 where
  pub ref_count : ℕ
  pub conn : ℕ
  pub req : ℕ
  pub work : Node
  pub invocation_id : ℕ
  pub stale : Bool

-- What the get_client_info functions write through their four pointers.
pub record ClientInfo : Type 0 where
  pub user : Option Str
  pub passw : Option Str
  pub remote_addr : Option Str
  pub user_agent : Option Str

-- Which of the four pointers the caller passes, the others being NULL.
pub record Wanted : Type 0 where
  pub user : Bool
  pub password : Bool
  pub remote_addr : Bool
  pub user_agent : Bool

abbrev pub when : Bool → Option Str → Option Str
when true v = v
when false v = none

module _ {Node : Type 0} where
  -- g_slice_new does not clear the block, and no line sets `stale`: `garbage` is what lies there.
  unfoldable pub work_result_new : Extern Node → (garbage : Bool) → Node → ℕ → ℕ → WorkResult Node
  work_result_new x garbage work invocation_id conn = record {
    ref_count = 1;
    conn = conn;
    req = x.current_request conn;
    work = work;
    invocation_id = invocation_id;
    stale = garbage;
  }

  unfoldable pub work_result_ref : WorkResult Node → WorkResult Node
  work_result_ref self =
      if ltb 0 self.ref_count then record self { ref_count = self.ref_count + 1 } else self

  -- `none`: the result is freed. Without another thread the compare-and-exchange succeeds.
  unfoldable pub work_result_unref : WorkResult Node → Option (WorkResult Node)
  work_result_unref self =
      if ltb 0 self.ref_count
      then if ltb 1 self.ref_count
        then some (record self { ref_count = self.ref_count - 1 })
        else none
      else some self

  unfoldable pub work_result_get_client_info : Extern Node → WorkResult Node → Wanted → ClientInfo
  work_result_get_client_info x self w = record {
    user = when w.user (x.credentials self.req).0;
    passw = when (w.user && w.password) (x.credentials self.req).1;
    remote_addr = when w.remote_addr (x.remote_address self.conn);
    user_agent = when w.user_agent (x.user_agent self.req);
  }

  unfoldable pub work_result_mark_stale : WorkResult Node → WorkResult Node
  work_result_mark_stale self = record self { stale = true }

  unfoldable pub work_result_is_stale : WorkResult Node → Bool
  work_result_is_stale self = self.stale
