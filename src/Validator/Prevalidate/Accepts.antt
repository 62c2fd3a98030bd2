-- ===== src/Validator/Prevalidate/Accepts.antt =====
-- What prevalidate_work_result accepts.
use pool_dance.Prelude.{
  ◌<◌, ◌≡◌, refl, inl, inr, Option, none, some, Str, str_eq, str_eq→eq, eq→str_eq, strcmp0_eq,
  strcmp0_eq_iff, if◌then◌else◌, arith, slice, Outcome, ok, Bool-cases, >>=-eq-ok, sym, ap, ◌∙◌,
}
use pool_dance.Prelude.Memory.{read, Pointer}
use pool_dance.Extern.{Extern}
use pool_dance.Validator.State.{GError, TrackedWork, WorkValidator, track_nonce_max}
use pool_dance.Validator.Prevalidate.{
  work_data_get_nonce, check_merkle_root_and_nonce_is_unique, check_tracked_work,
  check_previous_block_hash_matches, check_owner_and_parent, check_rest, hash_mismatch,
}
use pool_dance.Validator.Prevalidate.Nonces.{
  IsNew, with_nonce, recorded_iff, check_merkle_root_and_nonce_is_unique-Passed,
}

-- The hash that the previous-block field of a result for this work is compared with.
abbrev pub parent_hash : WorkValidator → TrackedWork → Pointer
parent_hash self w = if w.possible_stale then self.block_hash_prev else self.block_hash

module _ {Node : Type 0} (x : Extern Node) (self : WorkValidator) (work_data : Str)
    (user : Option Str) (w : TrackedWork) where
  -- The result is for this work, by its user, for its parent block, and with a new nonce.
  pub record Fits : Type 0 where
    pub version : w.version ≡ slice 0 8 work_data
    pub timestamp : w.timestamp ≡ slice 136 8 work_data
    pub new : IsNew (work_data_get_nonce x work_data) w
    pub room : w.nonce_count < track_nonce_max
    pub owner : w.user ≡ user
    pub parent : read self.memory (parent_hash self w) ≡ ok (some (slice 8 64 work_data))

  hash_matches :
      {hash : Option Str}
      → ◌≡◌ {A = Outcome (Option GError)}
          (ok (if strcmp0_eq (some (slice 8 64 work_data)) hash then none else some hash_mismatch))
          (ok none)
      → hash ≡ some (slice 8 64 work_data)
  hash_matches {hash} h =
      let field : Option Str = some (slice 8 64 work_data) in
      elim (Bool-cases (strcmp0_eq field hash)) [
        | inl same ↦ sym ((strcmp0_eq_iff field hash).0 same)
        | inr other ↦ let h' = rw other at h in cc
      ]

  check_owner_and_parent-needs :
      check_owner_and_parent self work_data user w ≡ ok none
      → (w.user ≡ user) × (read self.memory (parent_hash self w) ≡ ok (some (slice 8 64 work_data)))
  unfolding check_owner_and_parent check_previous_block_hash_matches
  check_owner_and_parent-needs h = elim (Bool-cases (strcmp0_eq w.user user)) [
    | inr differs ↦ let h' = rw differs at h in cc
    | inl match ↦
        let h' = rw match at h in
        let (hash, good, e) = >>=-eq-ok (read self.memory (parent_hash self w)) _ h' in
        ((strcmp0_eq_iff w.user user).0 match, good ∙ ap ok (hash_matches e))
  ]

  check_owner_and_parent-passes :
      w.user ≡ user
      → read self.memory (parent_hash self w) ≡ ok (some (slice 8 64 work_data))
      → check_owner_and_parent self work_data user w ≡ ok none
  unfolding check_owner_and_parent check_previous_block_hash_matches
  check_owner_and_parent-passes owner parent =
      let same = (strcmp0_eq_iff w.user user).1 owner in
      let hash : Option Str = some (slice 8 64 work_data) in
      rw (same, parent) (ground (arith, (strcmp0_eq_iff hash hash).1 refl))

module _ {Node : Type 0} (x : Extern Node) (self : WorkValidator) (work_data : Str)
    (user : Option Str) (w : TrackedWork) where
  -- The work of a result that is taken, with the result's nonce recorded.
  abbrev pub marked : TrackedWork
  marked = with_nonce w (work_data_get_nonce x work_data)

  after_nonce :
      w.version ≡ slice 0 8 work_data
      → w.timestamp ≡ slice 136 8 work_data
      → {w' : TrackedWork} (w1 : TrackedWork) (error : Option GError)
      → check_merkle_root_and_nonce_is_unique x work_data w ≡ ok (w1, error)
      → check_rest self work_data user (w1, error) ≡ ok (w', none)
      → Fits x self work_data user w × (w' ≡ marked)
  unfolding check_rest
  after_nonce version timestamp w1 (some e) checked rest = cc
  after_nonce version timestamp {w'} w1 none checked rest =
      let p = check_merkle_root_and_nonce_is_unique-Passed x work_data w checked in
      let (e, fine, same) = >>=-eq-ok (check_owner_and_parent self work_data user w1) _ rest in
      let no_error : e ≡ none = cc in
      let fine' : check_owner_and_parent self work_data user marked ≡ ok none = cc (p.result) in
      let needs = check_owner_and_parent-needs x self work_data user marked fine' in
      (
        record {
          version = version;
          timestamp = timestamp;
          new = p.new;
          room = p.room;
          owner = needs.0;
          parent = needs.1;
        },
        cc (p.result),
      )

  pub check_tracked_work-Fits :
      {w' : TrackedWork}
      → check_tracked_work x self work_data user w ≡ ok (w', none)
      → Fits x self work_data user w × (w' ≡ marked)
  unfolding check_tracked_work
  check_tracked_work-Fits {w'} e = elim (Bool-cases (str_eq w.version (slice 0 8 work_data))) [
    | inr differs ↦ let e' = rw differs at e in cc
    | inl version ↦ elim (Bool-cases (str_eq w.timestamp (slice 136 8 work_data))) [
      | inr differs ↦ let e' = rw (version, differs) at e in cc
      | inl timestamp ↦
          let e' = rw (version, timestamp) at e in
          let (r, passed, rest) =
            >>=-eq-ok (check_merkle_root_and_nonce_is_unique x work_data w) _ e' in
          after_nonce (str_eq→eq _ _ version) (str_eq→eq _ _ timestamp) r.0 r.1 passed rest
    ]
  ]

  pub check_tracked_work-passes :
      Fits x self work_data user w → check_tracked_work x self work_data user w ≡ ok (marked, none)
  unfolding check_tracked_work check_rest
  check_tracked_work-passes f =
      let unique = (recorded_iff x work_data w f.new).1 f.room in
      rw (eq→str_eq w.version _ f.version, eq→str_eq w.timestamp _ f.timestamp, unique, check_rest)
        (rw (check_owner_and_parent-passes x self work_data user marked f.owner f.parent))
