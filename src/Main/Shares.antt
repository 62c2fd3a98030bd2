-- ===== src/Main/Shares.antt =====
-- What the handlers of main.c do with the references on a submitted share.
use pool_dance.Prelude.{
  ◌≡◌, ◌<◌, ◌+◌, ◌-◌, if◌then◌else◌, refl, Bool, true, false, Option, none, some, Str, ◌==◌,
  Bool-cases, inl, inr, length, arith, ok, ◌>>=◌, Ensures, Ensures-any, Ensures-bind,
}
use pool_dance.Extern.{Extern}
use pool_dance.WorkResult.{WorkResult, work_result_ref, work_result_unref, work_result_mark_stale}
use pool_dance.Validator.State.{
  WorkValidator, GError, TrackedWork, non_null, work_item_get_data_hex,
}
use pool_dance.Validator.Prevalidate.{
  Slot, mark_if, submitter, check_tracked_work, prevalidate_found, prevalidate_work_result,
  get_tracked_work_by_data, work_validator_validate,
}
use pool_dance.Main.Callbacks.{released, is_accepted}

module _ {Node : Type 0} (x : Extern Node) where
  -- Only the mark of stale work may differ.
  pub record IsSameShare (r s : WorkResult Node) : Type 0 where
    pub ref_count : s.ref_count ≡ r.ref_count
    pub invocation_id : s.invocation_id ≡ r.invocation_id
    pub conn : s.conn ≡ r.conn

  mark_if-IsSameShare : (b : Bool) (r : WorkResult Node) → IsSameShare r (mark_if b r)
  unfolding work_result_mark_stale
  mark_if-IsSameShare true r = record { ref_count = refl; invocation_id = refl; conn = refl }
  mark_if-IsSameShare false r = record { ref_count = refl; invocation_id = refl; conn = refl }

  found-IsSameShare :
      (self : WorkValidator) (r : WorkResult Node) (work_data : Str)
      (found : Option (Slot × TrackedWork))
      → Ensures (λ z. IsSameShare r z.1) (prevalidate_found x self r work_data found)
  unfolding prevalidate_found
  found-IsSameShare self r work_data none = mark_if-IsSameShare false r
  found-IsSameShare self r work_data (some (slot, w)) =
      Ensures-any (λ z. IsSameShare r z.1) (check_tracked_work x self work_data (submitter x r) w) _
        (λ _. mark_if-IsSameShare w.possible_stale r)

  prevalidate_work_result-IsSameShare :
      (self : WorkValidator) (r : WorkResult Node)
      → Ensures (λ z. IsSameShare r z.1) (prevalidate_work_result x self r)
  unfolding prevalidate_work_result
  prevalidate_work_result-IsSameShare self r =
      Ensures-any (λ z. IsSameShare r z.1) (non_null (work_item_get_data_hex x r.work)) _
        λ work_data. elim (Bool-cases (length work_data == 256)) [
          | inl sized ↦ rw sized (
              found-IsSameShare (get_tracked_work_by_data self work_data).1 r work_data
                (get_tracked_work_by_data self work_data).0)
          | inr wrong ↦ rw wrong (mark_if-IsSameShare false r)
        ]

  -- The asynchronous result holds a reference of its own.
  pub work_validator_validate-IsSameShare :
      (self : WorkValidator) (r : WorkResult Node)
      → Ensures (λ z. IsSameShare (work_result_ref r) z.1) (work_validator_validate x self r)
  unfolding work_validator_validate
  work_validator_validate-IsSameShare self r =
      Ensures-bind (λ z. IsSameShare (work_result_ref r) z.1)
        (λ z. IsSameShare (work_result_ref r) z.1)
        (prevalidate_work_result x self (work_result_ref r)) _
        (prevalidate_work_result-IsSameShare self (work_result_ref r)) (λ z h. h)

module _ {Node : Type 0} where
  unref_many :
      (r : WorkResult Node)
      → 1 < r.ref_count
      → work_result_unref r ≡ some (record r { ref_count = r.ref_count - 1 })
  unfolding work_result_unref
  unref_many r many = ground arith

  unref_last : (r : WorkResult Node) → r.ref_count ≡ 1 → work_result_unref r ≡ none
  unfolding work_result_unref
  unref_last r one = ground arith

  pub ref_alive :
      (r : WorkResult Node)
      → 0 < r.ref_count
      → work_result_ref r ≡ record r { ref_count = r.ref_count + 1 }
  unfolding work_result_ref
  ref_alive r some_left = ground arith

  -- What is left of a share with two references when its callback has run: the reference of the
  -- submission, if it is accepted.
  abbrev pub left_of : Option GError → WorkResult Node → Option (WorkResult Node)
  left_of none r = some (record r { ref_count = r.ref_count + 1 - 1 - 1 })
  left_of (some e) r = none

  pub released-twice :
      (error : Option GError) (r : WorkResult Node)
      → r.ref_count ≡ 2
      → (released (some (if is_accepted error then work_result_ref r else r)) >>= released)
        ≡ ok (left_of error r)
  released-twice none r two = rw (ref_alive r (omega arith)) (
      rw (unref_many (record r { ref_count = r.ref_count + 1 }) (omega arith))
        (rw (unref_many (record r { ref_count = r.ref_count + 1 - 1 }) (omega arith)) refl))
  released-twice (some e) r two =
      rw (unref_many r (omega arith))
        (rw (unref_last (record r { ref_count = r.ref_count - 1 }) (omega arith)) refl)

  pub released_last : (r : WorkResult Node) → r.ref_count ≡ 1 → released (some r) ≡ ok none
  released_last r one = rw (unref_last r one) refl
