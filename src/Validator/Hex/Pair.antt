-- ===== src/Validator/Hex/Pair.antt =====
-- Which pairs of characters hex_to_bin takes for a byte, and for which one.
use pool_dance.Prelude.{
  ℕ, ◌+◌, ◌-◌, ◌*◌, ◌%◌, ◌<◌, ◌≡◌, inl, inr, Bool, true, false, ◌||◌, Option, none, some, [], ◌∷◌,
  arith, ◌==◌, if◌then◌else◌, Option-cases, Bool-cases,
}
use pool_dance.Validator.Hex.{is_space, hex_digit, strtoul16}

-- What may stand before the only digit of a pair, and yet be taken.
abbrev pub is_filler : ℕ → Bool
is_filler c = is_space c || (c == 45 || c == 43)

-- The byte that a pair of characters gives; `none` where strtoul does not take both.
unfoldable pub pair_byte : ℕ → ℕ → Option ℕ
pair_byte a b = elim (hex_digit b) [
  | none ↦ none
  | some low ↦ elim (hex_digit a) [
    | some high ↦ some (high * 16 + low)
    | none ↦ if is_filler a then some (if a == 45 then (256 - low) % 256 else low) else none
  ]
]

abbrev pub Takes : ℕ × ℕ → Option ℕ → Type 0
Takes r none = (r.1 == 2) ≡ false
Takes r (some v) = (r.0 % 256 ≡ v) × ((r.1 == 2) ≡ true)

hex_digit_only :
    (a : ℕ) {d : ℕ}
    → hex_digit a ≡ some d
    → (is_space a ≡ false) × ((a == 45) ≡ false) × ((a == 43) ≡ false) × (d < 16)
unfolding hex_digit is_space
hex_digit_only a h = ground arith

is_space_only :
    (a : ℕ) → is_space a ≡ true → ((a == 45) ≡ false) × ((a == 43) ≡ false) × (hex_digit a ≡ none)
unfolding is_space hex_digit
is_space_only a h = ground arith

module _ (a b : ℕ) where
  abbrev Goal : Type 0
  Goal = Takes (strtoul16 (a ∷ b ∷ [])) (pair_byte a b)

  no_second : hex_digit b ≡ none → Goal
  unfolding strtoul16 pair_byte
  no_second hb = ground (arith, hex_digit_only a, hex_digit_only b, is_space_only a)

  after_digit : (d e : ℕ) → hex_digit a ≡ some d → hex_digit b ≡ some e → Goal
  unfolding strtoul16 pair_byte
  after_digit d e ha hb =
      let fa = hex_digit_only a ha in let fb = hex_digit_only b hb in ground arith

  after_space : (e : ℕ) → is_space a ≡ true → hex_digit b ≡ some e → Goal
  unfolding strtoul16 pair_byte
  after_space e ha hb = let fa = is_space_only a ha in let fb = hex_digit_only b hb in ground arith

  after_other : (e : ℕ) → hex_digit a ≡ none → is_space a ≡ false → hex_digit b ≡ some e → Goal
  unfolding strtoul16 pair_byte
  after_other e hd ha hb = let fb = hex_digit_only b hb in ground arith

  pub strtoul16-pair : Takes (strtoul16 (a ∷ b ∷ [])) (pair_byte a b)
  strtoul16-pair = elim (Option-cases (hex_digit b)) [
    | inl hb ↦ no_second hb
    | inr (e, hb) ↦ elim (Option-cases (hex_digit a)) [
      | inr (d, ha) ↦ after_digit d e ha hb
      | inl hd ↦ elim (Bool-cases (is_space a)) [
        | inl ha ↦ after_space e ha hb
        | inr ha ↦ after_other e hd ha hb
      ]
    ]
  ]
