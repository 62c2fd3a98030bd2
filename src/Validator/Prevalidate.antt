-- ===== src/Validator/Prevalidate.antt =====
-- The checks of work-validator.c that do not block: prevalidate_work_result and what it calls.
pub mod Nonces
pub mod Search
pub mod Whole
pub mod Accepts
use pool_dance.Prelude.{
  ℕ, zero, suc, ◌+◌, ◌%◌, ◌^◌, Bool, true, false, not, Option, none, some, List, Str, str_eq,
  strcmp0_eq, ◌==◌, ltb, if◌then◌else◌, length, get_or, set, slice, Outcome, ok, fault,
  out_of_bounds, ◌>>=◌,
}
use pool_dance.Prelude.Memory.{Memory, Pointer, read}
use pool_dance.Extern.{Extern}
use pool_dance.WorkResult.{
  WorkResult, Wanted, work_result_get_client_info, work_result_mark_stale, work_result_ref,
}
use pool_dance.Validator.State.{
  GError, ErrorCode, TrackedWork, Table, lookup, insert, WorkValidator, work_item_get_data_hex,
  non_null, work_data_get_merkle_root_hex, track_nonce_max,
}

abbrev pub incorrect_length : GError
incorrect_length = record {
  code = ErrorCode.invalid;
  message = "Work data is invalid, incorrect length";
}

abbrev pub unknown_work : GError
unknown_work = record { code = ErrorCode.invalid; message = "Work result for an unknown work item" }

abbrev pub version_mismatch : GError
version_mismatch = record { code = ErrorCode.invalid; message = "Version mismatch" }

abbrev pub timestamp_mismatch : GError
timestamp_mismatch = record { code = ErrorCode.invalid; message = "Timestamp mismatch" }

abbrev pub duplicate_work : GError
duplicate_work = record { code = ErrorCode.duplicated; message = "Duplicate work result" }

abbrev pub user_mismatch : GError
user_mismatch = record { code = ErrorCode.invalid; message = "User mismatch" }

abbrev pub hash_mismatch : GError
hash_mismatch = record { code = ErrorCode.invalid; message = "Previous block hash mismatch" }

-- The table in which a tracked work was found.
pub data Slot : Type 0 where
  current previous : Slot

-- g_hash_table_lookup on a NULL table gives NULL.
abbrev pub lookup_prev : Option Table → Str → Option TrackedWork
lookup_prev none root = none
lookup_prev (some t) root = lookup t root

-- A write through a pointer into one of the tables.
unfoldable pub store : WorkValidator → Slot → Str → TrackedWork → WorkValidator
store self current root w = record self {
  work_by_merkle_root = insert self.work_by_merkle_root root w;
}
store self previous root w = elim self.work_by_merkle_root_prev [
  | none ↦ self
  | some t ↦ record self { work_by_merkle_root_prev = some (insert t root w) }
]

-- The work found, and the state, in which work of the previous block is marked.
unfoldable pub get_tracked_work_by_data :
    WorkValidator → Str → Option (Slot × TrackedWork) × WorkValidator
get_tracked_work_by_data self work_data =
    let root = work_data_get_merkle_root_hex work_data in
    elim (lookup self.work_by_merkle_root root) [
      | some w ↦ (some (current, w), self)
      | none ↦ elim (lookup_prev self.work_by_merkle_root_prev root) [
        | none ↦ (none, self)
        | some w ↦
            let marked : TrackedWork = record w { possible_stale = true } in
            (some (previous, marked), store self previous root marked)
      ]
    ]

-- The loop over the recorded nonces, `n` rounds left.
unfoldable pub is_recorded_from : ℕ → ℕ → ℕ → List ℕ → Bool
is_recorded_from zero i nonce nonces = false
is_recorded_from (suc n) i nonce nonces =
    let rest = is_recorded_from n (i + 1) nonce nonces in
    if nonce == get_or nonces i 0 then true else rest

module _ {Node : Type 0} (x : Extern Node) where
  unfoldable pub work_data_get_nonce : Str → ℕ
  work_data_get_nonce work_data = x.swap_le_be (x.ascii_strtoull16 (slice 152 8 work_data) % 2 ^ 32)

  -- A new nonce goes to index nonce_count, which nothing holds below the size of the array.
  unfoldable pub check_merkle_root_and_nonce_is_unique :
      Str → TrackedWork → Outcome (TrackedWork × Option GError)
  check_merkle_root_and_nonce_is_unique work_data w =
      let nonce = work_data_get_nonce work_data in
      if is_recorded_from w.nonce_count 0 nonce w.nonces
      then ok (w, some duplicate_work)
      else if ltb w.nonce_count track_nonce_max
      then ok (
        record w { nonces = set w.nonces w.nonce_count nonce; nonce_count = w.nonce_count + 1 },
        none,
      )
      else fault out_of_bounds

unfoldable pub check_previous_block_hash_matches : Memory → Str → Pointer → Outcome (Option GError)
check_previous_block_hash_matches m work_data block_hash = do
  hash ← read m block_hash
  ok (if strcmp0_eq (some (slice 8 64 work_data)) hash then none else some hash_mismatch)

-- The user and then the previous block's hash, that of the block before if the work may be stale.
unfoldable pub check_owner_and_parent :
    WorkValidator → Str → Option Str → TrackedWork → Outcome (Option GError)
check_owner_and_parent self work_data user w =
    if not (strcmp0_eq w.user user)
    then ok (some user_mismatch)
    else check_previous_block_hash_matches self.memory work_data
        (if w.possible_stale then self.block_hash_prev else self.block_hash)

-- What follows the check of the nonce, which may have set an error.
unfoldable pub check_rest :
    WorkValidator
    → Str
    → Option Str
    → TrackedWork × Option GError
    → Outcome (TrackedWork × Option GError)
check_rest self work_data user (w, some e) = ok (w, some e)
check_rest self work_data user (w, none) = do
  e ← check_owner_and_parent self work_data user w
  ok (w, e)

-- How work_validator_validate goes on: the callback runs in idle, or a thread takes over.
pub data Dispatch : Type 0 where
  completes_in_idle : GError → Dispatch
  pushed_to_pool : Dispatch

abbrev pub dispatch : Option GError → Dispatch
dispatch none = pushed_to_pool
dispatch (some e) = completes_in_idle e

abbrev pub mark_if : {Node : Type 0} → Bool → WorkResult Node → WorkResult Node
mark_if stale r = if stale then work_result_mark_stale r else r

module _ {Node : Type 0} (x : Extern Node) where
  -- The checks against the tracked work, from the version on.
  unfoldable pub check_tracked_work :
      WorkValidator → Str → Option Str → TrackedWork → Outcome (TrackedWork × Option GError)
  check_tracked_work self work_data user w =
      if not (str_eq w.version (slice 0 8 work_data))
      then ok (w, some version_mismatch)
      else if not (str_eq w.timestamp (slice 136 8 work_data))
      then ok (w, some timestamp_mismatch)
      else (check_merkle_root_and_nonce_is_unique x work_data w >>= check_rest self work_data user)

  -- The user, the only thing asked of work_result_get_client_info.
  unfoldable pub submitter : WorkResult Node → Option Str
  submitter work_result = (work_result_get_client_info x work_result wanted).user
    where
      wanted : Wanted
      wanted = record { user = true; password = false; remote_addr = false; user_agent = false }

  -- What follows the search for the work.
  unfoldable pub prevalidate_found :
      WorkValidator
      → WorkResult Node
      → Str
      → Option (Slot × TrackedWork)
      → Outcome (WorkValidator × WorkResult Node × Option GError)
  prevalidate_found self work_result work_data none = ok (self, work_result, some unknown_work)
  prevalidate_found self work_result work_data (some (slot, w)) = do
    (w', error) ← check_tracked_work self work_data (submitter work_result) w
    ok (
      store self slot (work_data_get_merkle_root_hex work_data) w',
      mark_if w.possible_stale work_result,
      error,
    )

  -- prevalidate_work_result: the new state, the work result and the error that is set, if any.
  -- The Boolean that the function returns is `error != NULL`; its caller looks at the error.
  unfoldable pub prevalidate_work_result :
      WorkValidator → WorkResult Node → Outcome (WorkValidator × WorkResult Node × Option GError)
  prevalidate_work_result self work_result = do
    work_data ← non_null (work_item_get_data_hex x work_result.work)
    let (found, self') = get_tracked_work_by_data self work_data
    if length work_data == 256
        then prevalidate_found self' work_result work_data found
        else ok (self, work_result, some incorrect_length)

  unfoldable pub work_validator_validate :
      WorkValidator → WorkResult Node → Outcome (WorkValidator × WorkResult Node × Dispatch)
  work_validator_validate self work_result = do
    (self', result, error) ← prevalidate_work_result self (work_result_ref work_result)
    ok (self', result, dispatch error)
