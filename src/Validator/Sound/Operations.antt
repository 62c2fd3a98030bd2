-- ===== src/Validator/Sound/Operations.antt =====
-- Every operation of work-validator.c keeps its tables well formed.
use pool_dance.Prelude.{
  ℕ, refl, inl, inr, Option, none, some, Str, ◌==◌, length, ltb, Bool-cases, Ensures, Ensures-bind,
  Ensures-any,
}
use pool_dance.Prelude.Memory.{Memory, free}
use pool_dance.Extern.{Extern}
use pool_dance.WorkResult.{WorkResult}
use pool_dance.Validator.State.{
  TrackedWork, WorkValidator, lookup, work_item_get_data_hex, non_null, work_validator_new,
}
use pool_dance.Validator.Prevalidate.{
  check_tracked_work, Slot, current, get_tracked_work_by_data, prevalidate_work_result,
  prevalidate_found, submitter,
}
use pool_dance.Validator.Blocks.{
  work_validator_track_work_sent, on_block_hash, HashReply, failed, answered,
  work_validator_notify_new_block,
}
use pool_dance.Validator.Sound.{
  IsSound, Held, Keeps, FoundIn, FoundIn-self, insert-Entries, store-IsSound, Held-Keeps,
  Held-IsTracked, new_work-IsTracked, search-IsSound, check_tracked_work-Keeps,
}

module _ {Node : Type 0} (x : Extern Node) where
  prevalidate_found-IsSound :
      (self : WorkValidator) (work_result : WorkResult Node) (work_data : Str)
      (found : Option (Slot × TrackedWork))
      → FoundIn self (found, self)
      → Ensures (λ r. IsSound r.0) (prevalidate_found x self work_result work_data found)
  unfolding prevalidate_found
  prevalidate_found-IsSound self work_result work_data none v = v
  prevalidate_found-IsSound self work_result work_data (some (slot, w)) (h, v) =
      Ensures-bind (λ r. Keeps x w r.0) (λ r. IsSound r.0)
        (check_tracked_work x self work_data (submitter x work_result) w) _
        (check_tracked_work-Keeps x self work_data (submitter x work_result) w
          (Held-IsTracked slot w h))
        (λ r k. store-IsSound self slot _ r.0 (Held-Keeps x slot w r.0 h k) v)

  -- Whatever a share is, and whether it is taken or not, prevalidate_work_result keeps the tables
  -- well formed.
  pub prevalidate_work_result-IsSound :
      (self : WorkValidator) (work_result : WorkResult Node)
      → IsSound self
      → Ensures (λ r. IsSound r.0) (prevalidate_work_result x self work_result)
  unfolding prevalidate_work_result
  prevalidate_work_result-IsSound self work_result v =
      Ensures-any (λ r. IsSound r.0) (non_null (work_item_get_data_hex x work_result.work)) _
        λ work_data. elim (Bool-cases (length work_data == 256)) [
          | inr wrong ↦ rw wrong v
          | inl sized ↦ rw sized (
              prevalidate_found-IsSound (get_tracked_work_by_data self work_data).1 work_result
                work_data (get_tracked_work_by_data self work_data).0
                (FoundIn-self self (get_tracked_work_by_data self work_data)
                  (search-IsSound self work_data v)))
        ]

  -- A work item that is sent out starts with no nonce, and not stale.
  pub work_validator_track_work_sent-IsSound :
      (self : WorkValidator) (user : Option Str) (work_item : Node) (service : ℕ)
      → IsSound self
      → Ensures IsSound (work_validator_track_work_sent x self user work_item service)
  unfolding work_validator_track_work_sent
  work_validator_track_work_sent-IsSound self user work_item service v =
      Ensures-any IsSound (non_null (work_item_get_data_hex x work_item)) _ λ work_data.
        elim (Bool-cases (length work_data == 256)) [
          | inr wrong ↦ rw wrong tt
          | inl sized ↦ rw sized (record {
            in_current =
                insert-Entries (Held current) self.work_by_merkle_root _ _
                  (new_work-IsTracked _ refl refl, refl) v.in_current;
            in_previous = v.in_previous;
          })
        ]

pub on_block_hash-IsSound :
    (self : WorkValidator) (reply : HashReply)
    → IsSound self
    → Ensures (λ r. IsSound r.0) (on_block_hash self reply)
unfolding on_block_hash
on_block_hash-IsSound self failed v = v
on_block_hash-IsSound self (answered json) v =
    Ensures-any (λ r. IsSound r.0) (non_null json) _
      λ src. elim (Bool-cases (ltb (length src) 64)) [
        | inl short ↦ rw short tt
        | inr long ↦ rw long (record { in_current = v.in_current; in_previous = v.in_previous })
      ]

pub work_validator_notify_new_block-IsSound :
    (self : WorkValidator) (block : ℕ)
    → IsSound self
    → Ensures (λ r. IsSound r.0) (work_validator_notify_new_block self block)
unfolding work_validator_notify_new_block lookup
work_validator_notify_new_block-IsSound self block v =
    Ensures-any (λ r. IsSound r.0) (free self.memory self.block_hash_prev) _
      λ m. record { in_current = λ k w e. cc; in_previous = λ k w e. (v.in_current k w e).0 }

pub work_validator_new-IsSound : (m : Memory) → IsSound (work_validator_new m)
unfolding work_validator_new lookup
work_validator_new-IsSound m = record { in_current = λ k w e. cc; in_previous = λ k w e. cc }
