-- ===== src/Validator/State.antt =====
-- The state of work-validator.c, its errors and the table of the work sent out.
pub mod Tables
use pool_dance.Prelude.{
  ℕ, zero, suc, ◌+◌, Bool, true, false, Option, none, some, List, [], ◌∷◌, String, Str, str_eq,
  if◌then◌else◌, slice, replicate, Outcome, ok, fault, null_pointer, ◌>>=◌, codes, ◌≡◌,
}
use pool_dance.Prelude.Memory.{Memory, Pointer, free}
use pool_dance.Extern.{Extern}

-- WorkValidatorError
pub data ErrorCode : Type 0 where
  success invalid stale duplicated : ErrorCode

pub record GError : Type 0 where
  pub code : ErrorCode
  pub message : String

-- The size of the array `nonces`, TRACK_NONCE_MAX.
abbrev pub track_nonce_max : ℕ
track_nonce_max = 16

pub record TrackedWork : Type 0 where
  pub upstream_service : ℕ
  pub user : Option Str
  pub version : Str
  pub timestamp : Str
  pub nonce_count : ℕ
  pub nonces : List ℕ
  pub possible_stale : Bool

-- A GHashTable from merkle roots to tracked work.
abbrev pub Table : Type 0
Table = List (Str × TrackedWork)

unfoldable pub lookup : Table → Str → Option TrackedWork
lookup [] root = none
lookup ((k, w) ∷ t) root = if str_eq k root then some w else lookup t root

-- g_hash_table_insert: an entry of that key is replaced.
unfoldable pub insert : Table → Str → TrackedWork → Table
insert [] root w = (root, w) ∷ []
insert ((k, v) ∷ t) root w = if str_eq k root then (root, w) ∷ t else (k, v) ∷ insert t root w

pub record WorkValidator : Type 0 where
  pub work_by_merkle_root : Table
  pub work_by_merkle_root_prev : Option Table
  pub block_num : ℕ
  pub block_hash : Pointer
  pub block_hash_prev : Pointer
  pub target : Str
  -- The heap that the two hashes live in.
  pub memory : Memory

-- g_slice_new0 clears the state: both hashes are NULL.
unfoldable pub work_validator_new : Memory → WorkValidator
work_validator_new m = record {
  work_by_merkle_root = [];
  work_by_merkle_root_prev = none;
  block_num = 0;
  block_hash = none;
  block_hash_prev = none;
  target = replicate 32 0;
  memory = m;
}

-- The two frees of the hashes; the tables are freed with their entries.
unfoldable pub work_validator_free : WorkValidator → Outcome Memory
work_validator_free self = do m ← free self.memory self.block_hash; free m self.block_hash_prev

module _ {Node : Type 0} where
  -- `none` is the NULL that g_strdup passes on.
  unfoldable pub work_item_get_data_hex : Extern Node → Node → Option Str
  work_item_get_data_hex x work_item =
      if x.holds_object work_item
      then x.object_string work_item (codes "data")
      else x.array_string work_item 0

-- strlen (NULL), memcpy from NULL
abbrev pub non_null {ℓ} : {A : Type ℓ} → Option A → Outcome A
non_null none = fault null_pointer
non_null (some a) = ok a

pub non_null-eq-ok {ℓ} : {A : Type ℓ} (o : Option A) {a : A} → non_null o ≡ ok a → o ≡ some a
non_null-eq-ok none h = cc
non_null-eq-ok (some b) h = cc

unfoldable pub work_data_get_merkle_root_hex : Str → Str
work_data_get_merkle_root_hex work_data = slice 72 64 work_data
