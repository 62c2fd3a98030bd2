-- ===== src/Validator/State/Tables.antt =====
-- The laws of the table of tracked work.
use pool_dance.Prelude.{
  ◌≡◌, refl, inl, inr, Bool-cases, some, [], ◌∷◌, Str, str_eq, str_eq→eq, eq→str_eq, str_eq_refl,
  if◌then◌else◌, arith,
}
use pool_dance.Validator.State.{TrackedWork, Table, lookup, insert}

pub lookup-insert :
    (t : Table) (root key : Str) (w : TrackedWork)
    → lookup (insert t root w) key ≡ (if str_eq root key then some w else lookup t key)
unfolding lookup insert
lookup-insert [] root key w = refl
lookup-insert ((k, v) ∷ t) root key w = ground (
  arith,
  lookup-insert t root key w,
  str_eq→eq k root,
  str_eq→eq root key,
  str_eq→eq k key,
  eq→str_eq k root,
  eq→str_eq root key,
  eq→str_eq k key,
)

pub lookup-insert_self :
    (t : Table) (root : Str) (w : TrackedWork) → lookup (insert t root w) root ≡ some w
lookup-insert_self t root w = rw (lookup-insert t root root w, str_eq_refl root)

-- Of two entries of one key the later one stays.
pub insert-insert :
    (t : Table) (root : Str) (v w : TrackedWork) → insert (insert t root v) root w ≡ insert t root w
unfolding insert
insert-insert [] root v w = rw (str_eq_refl root) refl
insert-insert ((k, u) ∷ t) root v w = elim (Bool-cases (str_eq k root)) [
  | inl hit ↦ rw (hit, str_eq_refl root) refl
  | inr miss ↦ rw (miss, miss, insert-insert t root v w) refl
]
