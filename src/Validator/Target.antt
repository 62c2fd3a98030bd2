-- ===== src/Validator/Target.antt =====
-- compare_inverted_hashes of work-validator.c.
pub mod Order
use Prim.Native.Nat.{Ordering}
use pool_dance.Prelude.{ℕ, zero, suc, ◌+◌, ◌-◌, Str, ltb, if◌then◌else◌, get_or}

-- The loop from round `i`, `n` rounds left. The results -1, 0 and 1 are `lt`, `eq` and `gt`.
unfoldable pub compare_from : ℕ → ℕ → Str → Str → Ordering
compare_from zero i hash1 hash2 = Ordering.eq
compare_from (suc n) i hash1 hash2 =
    let a = get_or hash1 (32 - i - 1) 0 in
    let b = get_or hash2 (32 - i - 1) 0 in
    let rest = compare_from n (i + 1) hash1 hash2 in
    if ltb a b then Ordering.lt else if ltb b a then Ordering.gt else rest

unfoldable pub compare_inverted_hashes : Str → Str → Ordering
unfolding compare_from
compare_inverted_hashes hash1 hash2 = compare_from 32 0 hash1 hash2
