-- ===== src/Validator/Thread/Solves.antt =====
-- What the thread accepts.
use Prim.Native.Nat.{compare}
use pool_dance.Prelude.{
  ◌*◌, ◌≤◌, ◌≡◌, refl, ◌↔◌, inl, inr, Bool, false, Option, none, some, Str, [], ◌++◌, ltb,
  ltb-false_of_le, arith, if◌then◌else◌, length, take, drop, drop_all, length-take, All, ok,
  Bool-cases, >>=-eq-ok, ap, ◌∙◌, append-nil, subst,
}
use pool_dance.Extern.{Extern}
use pool_dance.WorkResult.{WorkResult, work_result_is_stale}
use pool_dance.Validator.Hex.Decode.{decode, Decodes, hex_to_bin-Decodes}
use pool_dance.Validator.Target.{compare_inverted_hashes}
use pool_dance.Validator.Target.Order.{le_value, IsByte, compare_inverted_hashes-compare}
use pool_dance.Validator.State.{WorkValidator, work_item_get_data_hex, non_null, non_null-eq-ok}
use pool_dance.Validator.Thread.{block_hash, validate_work_result_in_thread, check_hash}
use pool_dance.Validator.Thread.Header.{reverse_bytes, swap_words_header, length-reverse_bytes}

-- A buffer of 32 bytes.
abbrev pub IsDigest : Str → Type 0
IsDigest s = (length s ≡ 32) × All IsByte s

abbrev pub Hashed : {Node : Type 0} → Extern Node → Option Str → Option Str → Type 0
Hashed x none h = h ≡ none
Hashed x (some header) h = h ≡ some (x.sha256 (x.sha256 header))

module _ {Node : Type 0} (x : Extern Node) where
  hashed :
      (bin : Str) (d : Option Str) (r : Str × Bool)
      → length bin ≡ 80
      → Decodes [] bin 80 r d
      → Hashed x d (if r.1 then some (x.sha256 (x.sha256 r.0)) else none)
  hashed bin none r e h = rw h refl
  hashed bin (some header) r e h =
      let all : header ++ drop 80 bin ≡ header =
        ap (λ z. header ++ z) (drop_all 80 bin e) ∙ append-nil header in
      rw (h, all)

  -- The block hash is the double SHA-256 of the decoded header, whatever the buffer held before.
  block_hash-Hashed :
      (bin work_data : Str)
      → length bin ≡ 80
      → 160 ≤ length work_data
      → Hashed x (decode (reverse_bytes (take 160 work_data))) (block_hash x bin work_data)
  unfolding block_hash
  block_hash-Hashed bin work_data e long =
      let l : length (take 160 work_data) ≡ 160 = omega (arith, length-take 160 work_data) in
      let l' : length (reverse_bytes (take 160 work_data)) ≡ 80 * 2 =
        length-reverse_bytes 20 (take 160 work_data) l in
      rw (swap_words_header (take 160 work_data) l) (
        hashed bin _ _ e
          (hex_to_bin-Decodes (reverse_bytes (take 160 work_data)) bin 80 l' (omega arith)))

  -- The share is well formed, its hash is at most the target, and it is not stale.
  pub record Solves (self : WorkValidator) (work_result : WorkResult Node) : Type 0 where
    pub work_data : Str
    pub header : Str
    pub is_data : work_item_get_data_hex x work_result.work ≡ some work_data
    pub sized : 160 ≤ length work_data
    pub decoded : decode (reverse_bytes (take 160 work_data)) ≡ some header
    pub at_most_target : le_value (x.sha256 (x.sha256 header)) ≤ le_value self.target
    pub fresh : work_result.stale ≡ false

  module _ (digest : (s : Str) → IsDigest (x.sha256 s)) (bin : Str) (buffer : length bin ≡ 80)
      (self : WorkValidator) (target : IsDigest self.target) (work_result : WorkResult Node) where
    compare_at :
        (s : Str)
        → compare_inverted_hashes (x.sha256 s) self.target
          ≡ compare (le_value (x.sha256 s)) (le_value self.target)
    compare_at s =
        compare_inverted_hashes-compare (x.sha256 s) self.target (digest s).0 target.0 (digest s).1
          target.1

    check_hash-none :
        (header : Option Str) (hash : Option Str)
        → Hashed x header hash
        → check_hash x self work_result hash ≡ none
        → (h : Str) × (header ≡ some h)
          × (le_value (x.sha256 (x.sha256 h)) ≤ le_value self.target)
          × (work_result.stale ≡ false)
    unfolding check_hash work_result_is_stale
    check_hash-none none hash hd e = let e' = rw hd at e in cc
    check_hash-none (some h) hash hd e =
        let e' = rw (hd, compare_at (x.sha256 h)) at e in (h, refl, ground arith, ground arith)

    check_hash_passes :
        (h : Str)
        → le_value (x.sha256 (x.sha256 h)) ≤ le_value self.target
        → work_result.stale ≡ false
        → check_hash x self work_result (some (x.sha256 (x.sha256 h))) ≡ none
    unfolding check_hash work_result_is_stale
    check_hash_passes h le fresh = rw (compare_at (x.sha256 h), fresh) (ground arith)

    accepted :
        validate_work_result_in_thread x bin self work_result ≡ ok none → Solves self work_result
    unfolding validate_work_result_in_thread
    accepted e =
        let (work_data, d, rest) =
          >>=-eq-ok (non_null (work_item_get_data_hex x work_result.work)) _ e in
        elim (Bool-cases (ltb (length work_data) 160)) [
          | inl short ↦ let rest' = rw short at rest in cc
          | inr long ↦
              let rest' = rw long at rest in
              let sized : 160 ≤ length work_data = ground arith in
              let (h, decoded, le, fresh) =
                check_hash-none _ _ (block_hash-Hashed bin work_data buffer sized) (cc rest') in
              record {
                work_data = work_data;
                header = h;
                is_data = non_null-eq-ok _ d;
                sized = sized;
                decoded = decoded;
                at_most_target = le;
                fresh = fresh;
              }
        ]

    accepts :
        Solves self work_result → validate_work_result_in_thread x bin self work_result ≡ ok none
    unfolding validate_work_result_in_thread
    accepts s =
        let long : ltb (length s.work_data) 160 ≡ false = ltb-false_of_le _ _ s.sized in
        let hash : block_hash x bin s.work_data ≡ some (x.sha256 (x.sha256 s.header)) =
          subst (λ d. Hashed x d (block_hash x bin s.work_data)) s.decoded
            (block_hash-Hashed bin s.work_data buffer s.sized) in
        rw (s.is_data, long, hash) (ap ok (check_hash_passes s.header s.at_most_target s.fresh))

    -- The thread sets no error exactly for a share that is `Solves`.
    pub validate_work_result_in_thread_iff :
        (validate_work_result_in_thread x bin self work_result ≡ ok none) ↔ Solves self work_result
    validate_work_result_in_thread_iff = (accepted, accepts)
