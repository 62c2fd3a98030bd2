-- ===== src/Validator/Target/Order.antt =====
-- The byte-wise comparison of a hash with the target decides the order of the two numbers.
use Prim.Native.Nat.{compare}
use pool_dance.Prelude.{
  ℕ, zero, suc, ◌+◌, ◌-◌, ◌*◌, ◌<◌, ◌≡◌, refl, ap₂, Str, [], ◌∷◌, arith, length, get_or, take,
  take_all, All,
}
use pool_dance.Validator.Target.{compare_from, compare_inverted_hashes}

-- The number that a buffer holds, its first byte the lowest.
unfoldable pub le_value : Str → ℕ
le_value [] = 0
le_value (b ∷ bs) = b + 256 * le_value bs

abbrev pub IsByte : ℕ → Type 0
IsByte b = b < 256

-- 256 ^ n, as the proofs multiply it out.
unfoldable pub weight : ℕ → ℕ
weight zero = 1
weight (suc n) = 256 * weight n

le_value-take-suc :
    (n : ℕ) (h : Str)
    → n < length h
    → le_value (take (suc n) h) ≡ le_value (take n h) + get_or h n 0 * weight n
unfolding le_value weight
le_value-take-suc n [] lt = absurd (omega arith)
le_value-take-suc zero (b ∷ bs) lt = omega arith
le_value-take-suc (suc n) (b ∷ bs) lt = omega (arith, le_value-take-suc n bs (omega arith))

le_value-take-lt : (n : ℕ) (h : Str) → All IsByte h → le_value (take n h) < weight n
unfolding le_value weight
le_value-take-lt zero h bytes = omega arith
le_value-take-lt (suc n) [] bytes = omega (arith, le_value-take-lt n [] bytes)
le_value-take-lt (suc n) (b ∷ bs) bytes = omega (arith, le_value-take-lt n bs bytes.1)

high_digit_decides : (w a b x y : ℕ) → a < w → b < w → x < y → a + x * w < b + y * w
high_digit_decides w a b x y ha hb lt = grind arith

compare_from-compare :
    (n i : ℕ) (h1 h2 : Str)
    → n + i ≡ 32
    → length h1 ≡ 32
    → length h2 ≡ 32
    → All IsByte h1
    → All IsByte h2
    → compare_from n i h1 h2 ≡ compare (le_value (take n h1)) (le_value (take n h2))
unfolding compare_from
compare_from-compare zero i h1 h2 e l1 l2 b1 b2 = ground arith
compare_from-compare (suc n) i h1 h2 e l1 l2 b1 b2 =
    let at_n : 32 - i - 1 ≡ n = omega arith in
    rw (at_n, le_value-take-suc n h1 (omega arith), le_value-take-suc n h2 (omega arith))
      (ground (
        arith,
        compare_from-compare n (i + 1) h1 h2 (omega arith) l1 l2 b1 b2,
        high_digit_decides (weight n) (le_value (take n h1)) (le_value (take n h2)) (get_or h1 n 0)
            (get_or h2 n 0) (le_value-take-lt n h1 b1) (le_value-take-lt n h2 b2),
        high_digit_decides (weight n) (le_value (take n h2)) (le_value (take n h1)) (get_or h2 n 0)
            (get_or h1 n 0) (le_value-take-lt n h2 b2) (le_value-take-lt n h1 b1),
      ))

-- On two buffers of 32 bytes compare_inverted_hashes is the order of the numbers that they hold,
-- the first byte being the lowest.
pub compare_inverted_hashes-compare :
    (hash1 hash2 : Str)
    → length hash1 ≡ 32
    → length hash2 ≡ 32
    → All IsByte hash1
    → All IsByte hash2
    → compare_inverted_hashes hash1 hash2 ≡ compare (le_value hash1) (le_value hash2)
unfolding compare_inverted_hashes
compare_inverted_hashes-compare hash1 hash2 l1 l2 b1 b2 =
    rw (compare_from-compare 32 0 hash1 hash2 refl l1 l2 b1 b2)
      (ap₂ (λ a b. compare (le_value a) (le_value b)) (take_all 32 hash1 l1) (take_all 32 hash2 l2))
