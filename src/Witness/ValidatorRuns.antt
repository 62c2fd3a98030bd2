-- ===== src/Witness/ValidatorRuns.antt =====
-- Runs of the theorems about work-validator.c.
use pool_dance.Prelude.{
  ◌≡◌, ◌↔◌, refl, false, none, some, List, [], ◌∷◌, Str, codes, ok, fault, use_after_free,
  double_free, replicate, slice, Ensures, arith,
}
use pool_dance.Prelude.Tests.{str_eq, strcmp0_eq}
use pool_dance.Prelude.Memory.{Memory, alloc, free, read}
use pool_dance.WorkResult.{WorkResult, work_result_new, work_result_get_client_info}
use pool_dance.Validator.State.{
  work_item_get_data_hex, insert, lookup, work_data_get_merkle_root_hex, WorkValidator, TrackedWork,
  work_validator_new, work_validator_free,
}
use pool_dance.Validator.Prevalidate.{
  Slot, store, get_tracked_work_by_data, is_recorded_from, work_data_get_nonce,
  check_owner_and_parent, check_rest, check_tracked_work, submitter, prevalidate_found,
  prevalidate_work_result, duplicate_work, check_merkle_root_and_nonce_is_unique,
  check_previous_block_hash_matches,
}
use pool_dance.Validator.Sound.Entry.{EntersIn}
use pool_dance.Validator.Sound.Entry.Exactly.{prevalidate_work_result-EntersIn}
use pool_dance.Validator.Prevalidate.Nonces.{
  Uniqueness, check_merkle_root_and_nonce_is_unique-Uniqueness,
}
use pool_dance.Validator.Hex.{
  write_at, strtoul16, skip_space, is_space, skip_sign, skip_prefix, hex_digit, digits,
}
use pool_dance.Validator.Blocks.{
  work_validator_track_work_sent, resolve_current_block_hash, Rpc, answered, on_block_hash,
  work_validator_notify_new_block, copy_words,
}
use pool_dance.Validator.Blocks.Lifetime.{
  IsSettled, IsShared, rounds, rounds_run, work_validator_new-IsSettled, resolved,
  on_block_hash-IsSettled,
}
use pool_dance.Validator.Blocks.Dangling.{free_before_answer, second_block_before_answer}
use pool_dance.Validator.Blocks.Parent.{last_first, parent_of_current_block}
use pool_dance.Validator.Sound.{IsSound}
use pool_dance.Validator.Sound.Operations.{work_validator_new-IsSound}
use pool_dance.Validator.Sound.Repeats.{prevalidate_work_result-again}
use pool_dance.Validator.Machine.{Call, tracks, answers, new_block, call, history, history-IsSound}
use pool_dance.Validator.Hex.Decode.{decode}
use pool_dance.Validator.Hex.Pair.{pair_byte}
use pool_dance.Validator.Thread.Header.{reverse_bytes}
use pool_dance.Main.Served.{IsOwed}
use pool_dance.Main.Honest.{owed-accepted}
use pool_dance.Validator.Target.Order.{le_value}
use pool_dance.Validator.Thread.Solves.{Solves}
use pool_dance.Main.Acceptance.{verdict, IsAcceptable, verdict_iff}
use pool_dance.Witness.HashRuns.{replicate-IsDigest}
use pool_dance.Witness.{sample, empty_memory, zeros, value_or}

abbrev fresh : WorkValidator
unfolding work_validator_new
fresh = work_validator_new empty_memory

abbrev calls : List (Call Str)
calls =
    new_block 1
    ∷ answers (answered (some (zeros 64)))
    ∷ tracks (some (codes "alice")) (zeros 256) 7
    ∷ []

abbrev tracked : WorkValidator
tracked = value_or fresh (history sample fresh calls)

abbrev share : WorkResult Str
share = work_result_new sample false (zeros 256) 3 5

abbrev after : WorkValidator × WorkResult Str
after = elim (prevalidate_work_result sample tracked share) [
  | ok (s, r, e) ↦ (s, r)
  | fault e ↦ (tracked, share)
]

history-IsSound_example : Ensures IsSound (history sample (work_validator_new empty_memory) calls)
history-IsSound_example =
    history-IsSound sample (work_validator_new empty_memory) calls
      (work_validator_new-IsSound empty_memory)

tracked-IsSound : IsSound tracked
unfolding history call work_validator_new work_validator_notify_new_block on_block_hash alloc free
    resolve_current_block_hash copy_words write_at work_validator_track_work_sent
    work_item_get_data_hex insert work_data_get_merkle_root_hex
tracked-IsSound =
    history-IsSound sample (work_validator_new empty_memory) calls
      (work_validator_new-IsSound empty_memory)

prevalidate_work_result-EntersIn_example :
    (prevalidate_work_result sample tracked share ≡ ok (after.0, after.1, none))
    ↔ ((slot : Slot) × EntersIn sample tracked share after.0 after.1 slot)
prevalidate_work_result-EntersIn_example =
    prevalidate_work_result-EntersIn sample tracked share after.0 after.1 tracked-IsSound

verdict_iff_example :
    (verdict sample tracked tracked share (replicate 80 0) ≡ ok none)
    ↔ IsAcceptable sample tracked tracked share
unfolding history call work_validator_new work_validator_notify_new_block on_block_hash alloc free
    resolve_current_block_hash copy_words write_at work_validator_track_work_sent
    work_item_get_data_hex insert work_data_get_merkle_root_hex work_result_new
verdict_iff_example =
    verdict_iff sample (λ s. replicate-IsDigest) (replicate 80 0) refl tracked tracked
      tracked-IsSound replicate-IsDigest share (omega arith)

tracked_work : TrackedWork
tracked_work = record {
  upstream_service = 7;
  user = some (codes "alice");
  version = zeros 8;
  timestamp = zeros 8;
  nonce_count = 0;
  nonces = replicate 16 0;
  possible_stale = false;
}

tracked-IsOwed : IsOwed sample tracked (zeros 256) (some (codes "alice"))
unfolding tracked_work history call work_validator_new work_validator_notify_new_block on_block_hash
    alloc free resolve_current_block_hash copy_words write_at work_validator_track_work_sent
    work_item_get_data_hex insert work_data_get_merkle_root_hex lookup str_eq
tracked-IsOwed = record {
  work = tracked_work;
  tracked = refl;
  owner = refl;
  unsolved = refl;
  version = refl;
  timestamp = refl;
}

share-Solves : Solves sample tracked share
unfolding history call work_validator_new work_validator_notify_new_block on_block_hash alloc free
    resolve_current_block_hash copy_words write_at work_validator_track_work_sent
    work_item_get_data_hex insert work_data_get_merkle_root_hex work_result_new le_value decode
    reverse_bytes pair_byte hex_digit
share-Solves = record {
  work_data = zeros 256;
  header = replicate 80 0;
  is_data = refl;
  sized = omega arith;
  decoded = refl;
  at_most_target = omega arith;
  fresh = refl;
}

owed-accepted_example : verdict sample tracked tracked share (replicate 80 0) ≡ ok none
unfolding history call work_validator_new work_validator_notify_new_block on_block_hash alloc free
    resolve_current_block_hash copy_words write_at work_validator_track_work_sent
    work_item_get_data_hex insert work_data_get_merkle_root_hex work_result_new submitter
    work_result_get_client_info read
owed-accepted_example =
    owed-accepted sample (λ s. replicate-IsDigest) (replicate 80 0) refl tracked tracked
      tracked-IsSound replicate-IsDigest (zeros 256) (zeros 256) (some (codes "alice")) share
      tracked-IsOwed (omega arith) refl
      (record { root = refl; version = refl; timestamp = refl; sized = refl }) refl refl
      share-Solves

-- Every definition that the run of a share uses.
taken : prevalidate_work_result sample tracked share ≡ ok (after.0, after.1, none)
unfolding history call work_validator_new work_validator_notify_new_block on_block_hash alloc free
    resolve_current_block_hash copy_words write_at work_validator_track_work_sent
    work_item_get_data_hex insert work_data_get_merkle_root_hex lookup store
    get_tracked_work_by_data is_recorded_from work_data_get_nonce
    check_merkle_root_and_nonce_is_unique check_previous_block_hash_matches check_owner_and_parent
    check_rest check_tracked_work submitter prevalidate_found prevalidate_work_result read strtoul16
    skip_space is_space skip_sign skip_prefix hex_digit digits work_result_new
    work_result_get_client_info str_eq strcmp0_eq
taken = refl

prevalidate_work_result-again_example :
    (s : WorkValidator) × (r : WorkResult Str) × (prevalidate_work_result sample after.0 share
      ≡ ok (s, r, some duplicate_work))
prevalidate_work_result-again_example =
    prevalidate_work_result-again sample tracked tracked-IsSound share share taken refl

abbrev work : TrackedWork
work = record {
  upstream_service = 7;
  user = some (codes "alice");
  version = zeros 8;
  timestamp = zeros 8;
  nonce_count = 1;
  nonces = 9 ∷ replicate 15 0;
  possible_stale = false;
}

check_merkle_root_and_nonce_is_unique-Uniqueness_example :
    Uniqueness sample
      (zeros 256)
      work
      (check_merkle_root_and_nonce_is_unique sample (zeros 256) work)
check_merkle_root_and_nonce_is_unique-Uniqueness_example =
    check_merkle_root_and_nonce_is_unique-Uniqueness sample (zeros 256) work

fresh-IsSettled : IsSettled (work_validator_new empty_memory)
fresh-IsSettled = work_validator_new-IsSettled empty_memory (λ q le. refl)

rounds_run_example :
    (s : WorkValidator) × (m : Memory) × (rounds
        (work_validator_new empty_memory)
        ((1, zeros 64) ∷ (2, zeros 70) ∷ [])
      ≡ ok s)
    × (work_validator_free s ≡ ok m)
rounds_run_example =
    rounds_run (work_validator_new empty_memory) ((1, zeros 64) ∷ (2, zeros 70) ∷ [])
      fresh-IsSettled (omega arith, (omega arith, tt))

-- A validator whose two hashes are NULL.
fresh-IsShared : IsShared fresh
unfolding work_validator_new
fresh-IsShared = record { fresh = λ q le. refl; hash_live = tt; same = refl }

-- The hash of the current block is known, and there is none before it.
abbrev known : WorkValidator
known = resolved fresh (zeros 64)

known-IsSettled : IsSettled known
known-IsSettled = (on_block_hash-IsSettled fresh (zeros 64) fresh-IsShared (omega arith)).1

known_hash : known.block_hash ≡ some 0
unfolding work_validator_new
known_hash = refl

free_before_answer_example :
    (s : WorkValidator) × (r : List Rpc) × (work_validator_notify_new_block known 2 ≡ ok (s, r))
    × (work_validator_free s ≡ fault double_free)
free_before_answer_example = free_before_answer known 2 0 known-IsSettled known_hash

second_block_before_answer_example :
    (s t : WorkValidator) × (r u : List Rpc) × (work_validator_notify_new_block known 2 ≡ ok (s, r))
    × (work_validator_notify_new_block s 3 ≡ ok (t, u))
    × (check_previous_block_hash_matches t.memory (zeros 256) t.block_hash ≡ fault use_after_free)
second_block_before_answer_example =
    second_block_before_answer known 2 3 0 (zeros 256) known-IsSettled known_hash

parent_of_current_block_example :
    (s : WorkValidator) × (on_block_hash fresh (answered (some (zeros 64))) ≡ ok (s, []))
    × ((check_previous_block_hash_matches s.memory (zeros 256) s.block_hash ≡ ok none)
        ↔ (slice 8 64 (zeros 256) ≡ last_first (zeros 64)))
parent_of_current_block_example =
    parent_of_current_block fresh (zeros 64) (zeros 256) fresh-IsShared (omega arith)
