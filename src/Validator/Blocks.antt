-- ===== src/Validator/Blocks.antt =====
-- The rest of work-validator.c: work sent out is tracked, a new block retires it, and the hash of
-- the block is fetched.
pub mod Parent
pub mod HashWords
pub mod Lifetime
pub mod Dangling
use pool_dance.Prelude.{
  ℕ, zero, suc, ◌+◌, ◌-◌, ◌*◌, Bool, true, false, Option, none, some, List, [], ◌∷◌, Str, ◌==◌, ltb,
  if◌then◌else◌, length, slice, replicate, Outcome, ok, fault, out_of_bounds, assertion_failed,
  ◌>>=◌,
}
use pool_dance.Prelude.Memory.{Memory, alloc, free}
use pool_dance.Extern.{Extern}
use pool_dance.Validator.Hex.{write_at, hex_to_bin}
use pool_dance.Validator.State.{
  TrackedWork, insert, WorkValidator, work_item_get_data_hex, non_null,
  work_data_get_merkle_root_hex, track_nonce_max,
}

module _ {Node : Type 0} (x : Extern Node) where
  -- `user` is what work_request_get_client_info gives for the request.
  unfoldable pub work_validator_track_work_sent :
      WorkValidator → (user : Option Str) → Node → (upstream_service : ℕ) → Outcome WorkValidator
  work_validator_track_work_sent self user work_item upstream_service = do
    work_data ← non_null (work_item_get_data_hex x work_item)
    if length work_data == 256
        then (let w : TrackedWork = record {
          upstream_service = upstream_service;
          user = user;
          version = slice 0 8 work_data;
          timestamp = slice 136 8 work_data;
          nonce_count = 0;
          nonces = replicate track_nonce_max 0;
          possible_stale = false;
        } in
            ok (record self {
              work_by_merkle_root =
                  insert self.work_by_merkle_root (work_data_get_merkle_root_hex work_data) w;
            }))
        else fault assertion_failed

-- A call of the upstream's `getblockhash` with a block number.
pub data Rpc : Type 0 where
  getblockhash : ℕ → Rpc

unfoldable pub resolve_current_block_hash : WorkValidator → Rpc
resolve_current_block_hash self = getblockhash self.block_num

-- `for (i=0; i<64; i=i+8) memcpy (dst + i, src + 64 - 8 - i, 8)`, `n` rounds left.
unfoldable pub copy_words : ℕ → ℕ → Str → Str → Str
copy_words zero i src dst = dst
copy_words (suc n) i src dst = copy_words n (i + 8) src (write_at i (slice (64 - 8 - i) 8 src) dst)

-- What the upstream answers to getblockhash: an error, or a JSON string, which may be NULL.
pub data HashReply : Type 0 where
  failed : HashReply
  answered : Option Str → HashReply

-- The state, and the calls made. The block that `block_hash` pointed to is not freed. An answer of
-- 63 characters faults too, although of it only the closing NUL is read besides.
unfoldable pub on_block_hash : WorkValidator → HashReply → Outcome (WorkValidator × List Rpc)
on_block_hash self failed = ok (self, resolve_current_block_hash self ∷ [])
on_block_hash self (answered json) = do
  src ← non_null json
  if ltb (length src) 64
      then fault out_of_bounds
      else (let (m, p) = alloc self.memory (copy_words 8 0 src (replicate 64 0)) in
          ok (record self { memory = m; block_hash = some p }, []))

unfoldable pub work_validator_notify_new_block :
    WorkValidator → ℕ → Outcome (WorkValidator × List Rpc)
work_validator_notify_new_block self block = do
  m ← free self.memory self.block_hash_prev
  let self' : WorkValidator = record self {
    block_num = block;
    memory = m;
    block_hash_prev = self.block_hash;
    work_by_merkle_root_prev = some self.work_by_merkle_root;
    work_by_merkle_root = [];
  }
  ok (self', resolve_current_block_hash self' ∷ [])

-- The result of hex_to_bin is not looked at.
unfoldable pub work_validator_set_target : WorkValidator → Str → WorkValidator
work_validator_set_target self target = record self {
  target = (hex_to_bin target 64 self.target).0;
}
