-- ===== src/Validator/Prevalidate/Whole.antt =====
-- prevalidate_work_result as a whole: exactly when it sets no error, and what it leaves behind.
use pool_dance.Prelude.{
  ◌≡◌, refl, ◌↔◌, inl, inr, Option, none, some, Str, ◌==◌, arith, length, ok, Bool-cases, >>=-eq-ok,
}
use pool_dance.Extern.{Extern}
use pool_dance.WorkResult.{WorkResult}
use pool_dance.Validator.State.{
  TrackedWork, WorkValidator, work_item_get_data_hex, work_data_get_merkle_root_hex, non_null,
  non_null-eq-ok,
}
use pool_dance.Validator.Prevalidate.{
  check_tracked_work, Slot, store, get_tracked_work_by_data, prevalidate_work_result, submitter,
  prevalidate_found, mark_if,
}
use pool_dance.Validator.Prevalidate.Accepts.{
  Fits, marked, check_tracked_work-Fits, check_tracked_work-passes,
}

module _ {Node : Type 0} (x : Extern Node) (self : WorkValidator) (work_result : WorkResult Node)
    (self' : WorkValidator) (result' : WorkResult Node) where
  -- The share is for a tracked work that it fits; its nonce is recorded there, and it is marked as
  -- stale if the work is of the previous block. Nothing else changes.
  pub record Taken : Type 0 where
    pub work_data : Str
    pub slot : Slot
    pub w : TrackedWork
    pub searched : WorkValidator
    pub is_data : work_item_get_data_hex x work_result.work ≡ some work_data
    pub sized : length work_data ≡ 256
    pub found : get_tracked_work_by_data self work_data ≡ (some (slot, w), searched)
    pub fits : Fits x searched work_data (submitter x work_result) w
    pub state :
        self'
        ≡ store searched slot
            (work_data_get_merkle_root_hex work_data)
            (marked x searched work_data (submitter x work_result) w)
    pub result : result' ≡ mark_if w.possible_stale work_result

  taken_found :
      (work_data : Str) (found : Option (Slot × TrackedWork)) (searched : WorkValidator)
      → work_item_get_data_hex x work_result.work ≡ some work_data
      → length work_data ≡ 256
      → get_tracked_work_by_data self work_data ≡ (found, searched)
      → prevalidate_found x searched work_result work_data found ≡ ok (self', result', none)
      → Taken
  unfolding prevalidate_found
  taken_found work_data none searched d l f e = cc
  taken_found work_data (some (slot, w)) searched d l f e =
      let (r, checked, rest) =
        >>=-eq-ok (check_tracked_work x searched work_data (submitter x work_result) w) _ e in
      let no_error : r.1 ≡ none = cc in
      let fine : check_tracked_work x searched work_data (submitter x work_result) w
          ≡ ok (r.0, none) =
        cc in
      let (fits, same) =
        check_tracked_work-Fits x searched work_data (submitter x work_result) w fine in
      record {
        work_data = work_data;
        slot = slot;
        w = w;
        searched = searched;
        is_data = d;
        sized = l;
        found = f;
        fits = fits;
        state = cc same;
        result = cc;
      }

  taken : prevalidate_work_result x self work_result ≡ ok (self', result', none) → Taken
  unfolding prevalidate_work_result
  taken e =
      let (work_data, d, after_data) =
        >>=-eq-ok (non_null (work_item_get_data_hex x work_result.work)) _ e in
      elim (Bool-cases (length work_data == 256)) [
        | inr wrong ↦ let after' = rw wrong at after_data in cc
        | inl sized ↦
            taken_found work_data (get_tracked_work_by_data self work_data).0
              (get_tracked_work_by_data self work_data).1 (non_null-eq-ok _ d) (ground arith) refl
              (rw sized at after_data)
      ]

  takes : Taken → prevalidate_work_result x self work_result ≡ ok (self', result', none)
  unfolding prevalidate_work_result prevalidate_found
  takes t =
      rw (t.is_data, t.found, t.sized)
        (rw (
          check_tracked_work-passes x t.searched t.work_data (submitter x work_result) t.w t.fits,
          t.state,
          t.result,
        ))

  -- prevalidate_work_result sets no error exactly for a share that is `Taken`.
  pub prevalidate_work_result_iff :
      (prevalidate_work_result x self work_result ≡ ok (self', result', none)) ↔ Taken
  prevalidate_work_result_iff = (taken, takes)
