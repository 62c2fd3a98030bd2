-- ===== src/Validator/Blocks/Dangling.antt =====
-- What goes wrong with the block hash when the answer to getblockhash is late.
use pool_dance.Prelude.{
  ℕ, ◌≡◌, none, some, List, [], ◌∷◌, Str, arith, ok, fault, double_free, use_after_free, subst,
}
use pool_dance.Prelude.Memory.{Memory, IsLive, read, put}
use pool_dance.Validator.State.{WorkValidator, work_validator_free}
use pool_dance.Validator.Prevalidate.{check_previous_block_hash_matches}
use pool_dance.Validator.Blocks.{Rpc, work_validator_notify_new_block, resolve_current_block_hash}
use pool_dance.Validator.Blocks.Lifetime.{
  IsSettled, free_live, free_gone, retired, work_validator_notify_new_block-IsShared,
}

-- If the validator is freed between a new block and the answer, a hash that was known before the
-- block is freed twice.
pub free_before_answer :
    (self : WorkValidator) (block p : ℕ)
    → IsSettled self
    → self.block_hash ≡ some p
    → (s : WorkValidator) × (r : List Rpc) × (work_validator_notify_new_block self block
        ≡ ok (s, r))
      × (work_validator_free s ≡ fault double_free)
unfolding work_validator_free
free_before_answer self block p v known =
    let (m, noted, shared) = work_validator_notify_new_block-IsShared self block v in
    let live : IsLive m (some p) = subst (IsLive m) known shared.hash_live in
    let gone : put m.cell p none p ≡ none = ground arith in
    (
      retired self block m,
      Rpc.getblockhash block ∷ [],
      noted,
      rw (known, free_live m p live) (free_gone _ p gone),
    )

-- If a second block is seen before the answer, the hash that the first block retired is freed
-- while block_hash still points to it, so that the next comparison of a result that is not stale
-- reads freed memory.
pub second_block_before_answer :
    (self : WorkValidator) (block next p : ℕ) (work_data : Str)
    → IsSettled self
    → self.block_hash ≡ some p
    → (s t : WorkValidator) × (r u : List Rpc) × (work_validator_notify_new_block self block
        ≡ ok (s, r))
      × (work_validator_notify_new_block s next ≡ ok (t, u))
      × (check_previous_block_hash_matches t.memory work_data t.block_hash ≡ fault use_after_free)
unfolding work_validator_notify_new_block check_previous_block_hash_matches read
    resolve_current_block_hash
second_block_before_answer self block next p work_data v known =
    let (m, noted, shared) = work_validator_notify_new_block-IsShared self block v in
    let live : IsLive m (some p) = subst (IsLive m) known shared.hash_live in
    let m' : Memory = record m { cell = put m.cell p none } in
    let gone : m'.cell p ≡ none = ground arith in
    (
      retired self block m,
      retired (retired self block m) next m',
      Rpc.getblockhash block ∷ [],
      Rpc.getblockhash next ∷ [],
      noted,
      rw (known, free_live m p live),
      rw known (rw (gone, read)),
    )
