-- ===== src/Validator/Thread.antt =====
-- The check of work-validator.c that runs in a thread, validate_work_result_in_thread.
pub mod Header
pub mod Solves
use Prim.Native.Nat.{Ordering}
use pool_dance.Prelude.{
  ℕ, zero, suc, ◌+◌, Bool, true, false, Option, none, some, Str, ltb, if◌then◌else◌, length, take,
  replicate, Outcome, ok, fault, out_of_bounds, ◌>>=◌,
}
use pool_dance.Extern.{Extern}
use pool_dance.WorkResult.{WorkResult, work_result_is_stale}
use pool_dance.Validator.Hex.{swap_hex_bytes2, hex_to_bin}
use pool_dance.Validator.Target.{compare_inverted_hashes}
use pool_dance.Validator.State.{GError, ErrorCode, WorkValidator, work_item_get_data_hex, non_null}

abbrev pub invalid_hex : GError
invalid_hex = record { code = ErrorCode.invalid; message = "Invalid hex string" }

abbrev pub above_target : GError
above_target = record { code = ErrorCode.invalid; message = "Block hash is not less than target" }

abbrev pub stale_work : GError
stale_work = record {
  code = ErrorCode.stale;
  message = "Block hash belongs to previous block. Stale!";
}

-- `for (i=0; i<80; i+=4)`, `n` rounds left.
unfoldable pub swap_words : ℕ → ℕ → Str → Str
swap_words zero i hex = hex
swap_words (suc n) i hex = swap_words n (i + 4) (swap_hex_bytes2 hex i 4)

abbrev pub is_gt : Ordering → Bool
is_gt Ordering.lt = false
is_gt Ordering.eq = false
is_gt Ordering.gt = true

module _ {Node : Type 0} (x : Extern Node) where
  -- The double hash of the block header, if its hex digits are valid. `data_bin` is the buffer on
  -- the stack, whatever it holds.
  unfoldable pub block_hash : (data_bin : Str) → Str → Option Str
  block_hash data_bin work_data =
      let (header, valid) = hex_to_bin (swap_words 20 0 (take 160 work_data)) 160 data_bin in
      if valid then some (x.sha256 (x.sha256 header)) else none

  -- The comparison with the target, and then the mark of stale work.
  unfoldable pub check_hash : WorkValidator → WorkResult Node → Option Str → Option GError
  check_hash self work_result none = some invalid_hex
  check_hash self work_result (some hash) =
      if is_gt (compare_inverted_hashes hash self.target)
      then some above_target
      else if work_result_is_stale work_result
      then some stale_work
      else none

  -- The error that is set on the asynchronous result, if any. Writing the NUL at 160 needs a
  -- string of at least that length.
  unfoldable pub validate_work_result_in_thread :
      (data_bin : Str) → WorkValidator → WorkResult Node → Outcome (Option GError)
  validate_work_result_in_thread data_bin self work_result = do
    work_data ← non_null (work_item_get_data_hex x work_result.work)
    if ltb (length work_data) 160
        then fault out_of_bounds
        else ok (check_hash self work_result (block_hash data_bin work_data))
