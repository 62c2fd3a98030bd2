-- ===== src/Main/Acceptance.antt =====
-- Which shares are accepted, from their submission to the end of their check.
use pool_dance.Prelude.{
  ◌+◌, ◌<◌, ◌≡◌, refl, sym, ap, subst, ◌∙◌, ◌↔◌, inl, inr, true, false, Option, none, some, Str,
  length, Outcome, ok, ◌>>=◌, >>=-eq-ok, Option-cases,
}
use pool_dance.Extern.{Extern}
use pool_dance.WorkResult.{WorkResult, work_result_mark_stale, work_result_get_client_info}
use pool_dance.Validator.State.{
  TrackedWork, WorkValidator, GError, lookup, work_item_get_data_hex, work_data_get_merkle_root_hex,
}
use pool_dance.Validator.Prevalidate.{
  current, store, lookup_prev, prevalidate_work_result, submitter, mark_if, dispatch,
  work_validator_validate,
}
use pool_dance.Validator.Prevalidate.Search.{as_stale, search_current, search_previous, search_none}
use pool_dance.Validator.Prevalidate.Accepts.{Fits, marked}
use pool_dance.Validator.Prevalidate.Whole.{Taken, prevalidate_work_result_iff}
use pool_dance.Validator.Thread.Solves.{IsDigest, Solves, validate_work_result_in_thread_iff}
use pool_dance.Validator.Sound.{IsSound}
use pool_dance.Main.Callbacks.{validation_error}
use pool_dance.Main.Shares.{ref_alive}

module _ {Node : Type 0} (x : Extern Node) where
  -- The error that a share ends with, `none` if it is accepted. The validator may have gone on
  -- from `self` to `later` when the check in the thread is made.
  unfoldable pub verdict :
      (self later : WorkValidator) → WorkResult Node → (data_bin : Str) → Outcome (Option GError)
  verdict self later work_result data_bin = do
    (validator, result, dispatch) ← work_validator_validate x self work_result
    validation_error x data_bin later (result, dispatch)

  -- The share is for a work item of the current block that was sent to its user, it has a new nonce
  -- and the right parent, its hash is at most the target, and it is not marked as stale.
  pub record IsAcceptable (self later : WorkValidator) (r : WorkResult Node) : Type 0 where
    pub work_data : Str
    pub w : TrackedWork
    pub is_data : work_item_get_data_hex x r.work ≡ some work_data
    pub sized : length work_data ≡ 256
    pub tracked : lookup self.work_by_merkle_root (work_data_get_merkle_root_hex work_data) ≡ some w
    pub fits : Fits x self work_data (submitter x r) w
    pub solves : Solves x later r

  -- A result with one reference more, which nothing here looks at.
  abbrev referred : WorkResult Node → WorkResult Node
  referred r = record r { ref_count = r.ref_count + 1 }

  taken-IsAcceptable :
      (self later self' : WorkValidator) (r r' : WorkResult Node)
      → IsSound self
      → Taken x self (referred r) self' r'
      → Solves x later r'
      → IsAcceptable self later r
  unfolding work_result_mark_stale submitter work_result_get_client_info
  taken-IsAcceptable self later self' r r' sound t s =
      let root = work_data_get_merkle_root_hex t.work_data in
      elim (Option-cases (lookup self.work_by_merkle_root root)) [
        | inr (w, hit) ↦
            let found = sym (t.found) ∙ search_current self t.work_data hit in
            let same_work : t.w ≡ w = cc found in
            let same_state : t.searched ≡ self = cc found in
            let unmarked : t.w.possible_stale ≡ false =
              ap (λ v. v.possible_stale) same_work ∙ (sound.in_current root w hit).1 in
            let same_result : r' ≡ referred r =
              t.result ∙ ap (λ b. mark_if b (referred r)) unmarked in
            let solves : Solves x later (referred r) = subst (Solves x later) same_result s in
            record {
              work_data = t.work_data;
              w = t.w;
              is_data = t.is_data;
              sized = t.sized;
              tracked = hit ∙ ap some (sym same_work);
              fits = subst (λ v. Fits x v t.work_data (submitter x r) t.w) same_state t.fits;
              solves = record {
                work_data = solves.work_data;
                header = solves.header;
                is_data = solves.is_data;
                sized = solves.sized;
                decoded = solves.decoded;
                at_most_target = solves.at_most_target;
                fresh = solves.fresh;
              };
            }
        | inl miss ↦ elim (Option-cases (lookup_prev self.work_by_merkle_root_prev root)) [
          | inl gone ↦
              let found = sym (t.found) ∙ search_none self t.work_data miss gone in
              absurd (cc found)
          | inr (w, hit) ↦
              let found = sym (t.found) ∙ search_previous self t.work_data miss hit in
              let same_work : t.w ≡ as_stale w = cc found in
              let marked_stale : t.w.possible_stale ≡ true = ap (λ v. v.possible_stale) same_work in
              let same_result : r' ≡ work_result_mark_stale (referred r) =
                t.result ∙ ap (λ b. mark_if b (referred r)) marked_stale in
              let stale : r'.stale ≡ true = ap (λ q. q.stale) same_result in
              let fresh = s.fresh in absurd (cc (stale, fresh))
        ]
      ]

  acceptable-Taken :
      (self later : WorkValidator) (r : WorkResult Node)
      → IsSound self
      → (a : IsAcceptable self later r)
      → Taken x self
          (referred r)
          (store self current
            (work_data_get_merkle_root_hex a.work_data)
            (marked x self a.work_data (submitter x r) a.w))
          (referred r)
  unfolding submitter work_result_get_client_info
  acceptable-Taken self later r sound a =
      let root = work_data_get_merkle_root_hex a.work_data in
      let unmarked = (sound.in_current root a.w a.tracked).1 in
      record {
        work_data = a.work_data;
        slot = current;
        w = a.w;
        searched = self;
        is_data = a.is_data;
        sized = a.sized;
        found = search_current self a.work_data a.tracked;
        fits = a.fits;
        state = refl;
        result = sym (ap (λ b. mark_if b (referred r)) unmarked);
      }

  module _ (digest : (s : Str) → IsDigest (x.sha256 s)) (bin : Str) (buffer : length bin ≡ 80)
      (self later : WorkValidator) (sound : IsSound self) (target : IsDigest later.target)
      (r : WorkResult Node) (alive : 0 < r.ref_count) where
    checked-IsAcceptable :
        (self' : WorkValidator) (r' : WorkResult Node) (error : Option GError)
        → prevalidate_work_result x self (referred r) ≡ ok (self', r', error)
        → validation_error x bin later (r', dispatch error) ≡ ok none
        → IsAcceptable self later r
    unfolding validation_error
    checked-IsAcceptable self' r' (some e) validated checked = absurd (cc checked)
    checked-IsAcceptable self' r' none validated checked =
        taken-IsAcceptable self later self' r r' sound
          ((prevalidate_work_result_iff x self (referred r) self' r').0 validated)
          ((validate_work_result_in_thread_iff x digest bin buffer later target r').0 checked)

    accepted-IsAcceptable : verdict self later r bin ≡ ok none → IsAcceptable self later r
    unfolding verdict work_validator_validate
    accepted-IsAcceptable e =
        let e' = rw (ref_alive r alive) at e in
        let (z, validated, checked) =
          >>=-eq-ok
            (prevalidate_work_result x self (referred r) >>= λ z. ok (z.0, z.1, dispatch z.2))
            (λ z. validation_error x bin later (z.1, z.2)) e' in
        let (y, passed, is) = >>=-eq-ok (prevalidate_work_result x self (referred r)) _ validated in
        let same : z ≡ (y.0, y.1, dispatch y.2) = cc is in
        checked-IsAcceptable y.0 y.1 y.2 passed
          (sym (ap (λ t. validation_error x bin later (t.1, t.2)) same) ∙ checked)

    acceptable_passes : IsAcceptable self later r → verdict self later r bin ≡ ok none
    unfolding verdict work_validator_validate validation_error
    acceptable_passes a =
        let t = acceptable-Taken self later r sound a in
        let s : Solves x later (referred r) = record {
          work_data = a.solves.work_data;
          header = a.solves.header;
          is_data = a.solves.is_data;
          sized = a.solves.sized;
          decoded = a.solves.decoded;
          at_most_target = a.solves.at_most_target;
          fresh = a.solves.fresh;
        } in
        rw (ref_alive r alive) (
          rw ((prevalidate_work_result_iff x self (referred r) _ (referred r)).1 t) (
            (validate_work_result_in_thread_iff x digest bin buffer later target (referred r)).1 s))

    -- When the tables are well formed, digests and the target are 32 bytes, and the buffer is 80, a
    -- share is accepted exactly if it is `IsAcceptable`, even when the validator goes on, to the
    -- next block for one, before the check in the thread is made. So a share for work that is not
    -- tracked for the current block at its submission is never accepted.
    pub verdict_iff : (verdict self later r bin ≡ ok none) ↔ IsAcceptable self later r
    verdict_iff = (accepted-IsAcceptable, acceptable_passes)
