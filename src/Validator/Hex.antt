-- ===== src/Validator/Hex.antt =====
-- The hex helpers of work-validator.c: swap_hex_bytes2 and hex_to_bin.
pub mod Decode
pub mod Pair
pub mod Swap
use pool_dance.Prelude.{
  ℕ, zero, suc, ◌+◌, ◌-◌, ◌*◌, ◌/◌, ◌%◌, ◌^◌, Bool, true, false, ◌&&◌, ◌||◌, Option, none, some, [],
  ◌∷◌, Str, leb, ◌==◌, if◌then◌else◌, set, slice,
}

-- `memcpy (buf + off, bytes, n)`.
unfoldable pub write_at : ℕ → Str → Str → Str
write_at off [] buf = buf
write_at off (b ∷ bs) buf = write_at (off + 1) bs (set buf off b)

-- One round: the two digits at `head + i*2` change places with those at `tail - i*2`.
unfoldable pub swap_round : ℕ → ℕ → ℕ → Str → Str
unfolding write_at
swap_round head tail i hex =
    let t = slice (head + i * 2) 2 hex in
    let moved = write_at (head + i * 2) (slice (tail - i * 2) 2 hex) hex in
    write_at (tail - i * 2) t moved

unfoldable pub swap_rounds : ℕ → ℕ → ℕ → ℕ → Str → Str
unfolding swap_round
swap_rounds zero i head tail hex = hex
swap_rounds (suc n) i head tail hex = swap_rounds n (i + 1) head tail (swap_round head tail i hex)

unfoldable pub swap_hex_bytes2 : Str → ℕ → ℕ → Str
unfolding swap_rounds
swap_hex_bytes2 hex from len = swap_rounds (len / 2) 0 (from * 2) (from * 2 + len * 2 - 2) hex

-- `isspace` in the C locale.
unfoldable pub is_space : ℕ → Bool
is_space c = c == 32 || (leb 9 c && leb c 13)

unfoldable pub hex_digit : ℕ → Option ℕ
hex_digit c =
    if leb 48 c && leb c 57
    then some (c - 48)
    else if leb 97 c && leb c 102
    then some (c - 87)
    else if leb 65 c && leb c 70
    then some (c - 55)
    else none

-- White space: how much of it, and what follows.
unfoldable pub skip_space : Str → ℕ × Str
skip_space [] = (0, [])
skip_space (c ∷ s) =
    let (n, rest) = skip_space s in if is_space c then (n + 1, rest) else (0, c ∷ s)

-- An optional sign: whether it is a minus, its length, and what follows.
unfoldable pub skip_sign : Str → Bool × ℕ × Str
skip_sign [] = (false, 0, [])
skip_sign (c ∷ s) =
    if c == 45 then (true, 1, s) else if c == 43 then (false, 1, s) else (false, 0, c ∷ s)

-- `0x` and `0X` count only in front of a digit.
unfoldable pub skip_prefix : Str → ℕ × Str
skip_prefix (a ∷ b ∷ c ∷ s) =
    if a == 48 && (b == 120 || b == 88)
    then elim (hex_digit c) [ none ↦ (0, a ∷ b ∷ c ∷ s) | some d ↦ (2, c ∷ s) ]
    else (0, a ∷ b ∷ c ∷ s)
skip_prefix s = (0, s)

-- The value of the leading digits, after `acc`, and their number.
unfoldable pub digits : ℕ → Str → ℕ × ℕ
digits acc [] = (acc, 0)
digits acc (c ∷ s) = elim (hex_digit c) [
  | none ↦ (acc, 0)
  | some d ↦ let (v, n) = digits (acc * 16 + d) s in (v, n + 1)
]

abbrev pub ulong_mod : ℕ
ulong_mod = 2 ^ 64

-- The value in an unsigned long: out of range gives the maximum, a minus negates modulo 2^64.
abbrev pub to_ulong : Bool → ℕ → ℕ
to_ulong neg v =
    if leb ulong_mod v then ulong_mod - 1 else if neg then (ulong_mod - v) % ulong_mod else v

-- `strtoul (s, &end, 16)`: the value, and `end - s`.
unfoldable pub strtoul16 : Str → ℕ × ℕ
unfolding skip_space skip_sign skip_prefix digits
strtoul16 s =
    let (spaces, s1) = skip_space s in
    let (neg, signs, s2) = skip_sign s1 in
    let (prefix, s3) = skip_prefix s2 in
    let (v, n) = digits 0 s3 in
    if n == 0 then (0, 0) else (to_ulong neg v, spaces + signs + prefix + n)

-- The loop from round `i`, `n` rounds left: `bin` as far as it was written, and the result.
unfoldable pub hex_to_bin_from : ℕ → ℕ → Str → Str → Str × Bool
hex_to_bin_from zero i hex bin = (bin, true)
hex_to_bin_from (suc n) i hex bin =
    let (v, used) = strtoul16 (slice (i * 2) 2 hex) in
    let written = set bin i (v % 256) in
    let rest = hex_to_bin_from n (i + 1) hex written in if used == 2 then rest else (written, false)

unfoldable pub hex_to_bin : Str → ℕ → Str → Str × Bool
unfolding hex_to_bin_from
hex_to_bin hex hex_size bin = hex_to_bin_from (hex_size / 2) 0 hex bin
