-- ===== src/Validator/Machine.antt =====
-- Histories of work-validator.c: what the main loop does with it, in any order.
use pool_dance.Prelude.{ℕ, Option, List, [], ◌∷◌, Str, Outcome, ok, ◌>>=◌, Ensures, Ensures-bind}
use pool_dance.Extern.{Extern}
use pool_dance.WorkResult.{WorkResult, work_result_ref}
use pool_dance.Validator.State.{WorkValidator}
use pool_dance.Validator.Prevalidate.{work_validator_validate, prevalidate_work_result}
use pool_dance.Validator.Blocks.{
  work_validator_track_work_sent, HashReply, on_block_hash, work_validator_notify_new_block,
  work_validator_set_target,
}
use pool_dance.Validator.Sound.{IsSound}
use pool_dance.Validator.Sound.Operations.{
  prevalidate_work_result-IsSound, work_validator_track_work_sent-IsSound, on_block_hash-IsSound,
  work_validator_notify_new_block-IsSound,
}

-- A call of the validator, or the answer to its getblockhash.
pub data Call (Node : Type 0) : Type 0 where
  validates : WorkResult Node → Call Node
  tracks : Option Str → Node → ℕ → Call Node
  answers : HashReply → Call Node
  new_block : ℕ → Call Node
  sets_target : Str → Call Node

module _ {Node : Type 0} (x : Extern Node) where
  unfoldable pub call : WorkValidator → Call Node → Outcome WorkValidator
  call self (validates r) = do (s, _, _) ← work_validator_validate x self r; ok s
  call self (tracks user item service) = work_validator_track_work_sent x self user item service
  call self (answers reply) = do (s, _) ← on_block_hash self reply; ok s
  call self (new_block block) = do (s, _) ← work_validator_notify_new_block self block; ok s
  call self (sets_target target) = ok (work_validator_set_target self target)

  unfoldable pub history : WorkValidator → List (Call Node) → Outcome WorkValidator
  history self [] = ok self
  history self (c ∷ cs) = do s ← call self c; history s cs

  call-IsSound :
      (self : WorkValidator) (c : Call Node) → IsSound self → Ensures IsSound (call self c)
  unfolding call work_validator_validate work_validator_set_target
  call-IsSound self (validates r) v =
      Ensures-bind (λ z. IsSound z.0) IsSound (work_validator_validate x self r) _
        (Ensures-bind (λ z. IsSound z.0) (λ z. IsSound z.0)
          (prevalidate_work_result x self (work_result_ref r)) _
          (prevalidate_work_result-IsSound x self (work_result_ref r) v) (λ z h. h))
        (λ z h. h)
  call-IsSound self (tracks user item service) v =
      work_validator_track_work_sent-IsSound x self user item service v
  call-IsSound self (answers reply) v =
      Ensures-bind (λ z. IsSound z.0) IsSound (on_block_hash self reply) _
        (on_block_hash-IsSound self reply v) (λ z h. h)
  call-IsSound self (new_block block) v =
      Ensures-bind (λ z. IsSound z.0) IsSound (work_validator_notify_new_block self block) _
        (work_validator_notify_new_block-IsSound self block v) (λ z h. h)
  call-IsSound self (sets_target target) v = record {
    in_current = v.in_current;
    in_previous = v.in_previous;
  }

  -- After any history that does not fault, every tracked work has an array of 16 nonces of which
  -- nonce_count are in use and distinct, and no work of the current block is marked as stale.
  pub history-IsSound :
      (self : WorkValidator) (cs : List (Call Node))
      → IsSound self
      → Ensures IsSound (history self cs)
  unfolding history
  history-IsSound self [] v = v
  history-IsSound self (c ∷ cs) v =
      Ensures-bind IsSound IsSound (call self c) _ (call-IsSound self c v)
        (λ s h. history-IsSound s cs h)
