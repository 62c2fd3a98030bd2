-- ===== src/Validator/Hex/Swap.antt =====
-- What the byte swap does to a string of hex digits: it reverses the bytes of each 32-bit word.
use pool_dance.Prelude.{
  ℕ, ◌+◌, ◌-◌, ◌*◌, ◌≤◌, ◌≡◌, refl, Str, [], ◌∷◌, ◌++◌, arith, length, set, drop, take, set-append,
  drop-append,
}
use pool_dance.Validator.Hex.{write_at, swap_round, swap_rounds, swap_hex_bytes2}

pub record Word : Type 0 where
  pub a0 : ℕ
  pub a1 : ℕ
  pub b0 : ℕ
  pub b1 : ℕ
  pub c0 : ℕ
  pub c1 : ℕ
  pub d0 : ℕ
  pub d1 : ℕ

abbrev pub word_hex : Word → Str
word_hex w = w.a0 ∷ w.a1 ∷ w.b0 ∷ w.b1 ∷ w.c0 ∷ w.c1 ∷ w.d0 ∷ w.d1 ∷ []

abbrev pub reversed_hex : Word → Str
reversed_hex w = w.d0 ∷ w.d1 ∷ w.c0 ∷ w.c1 ∷ w.b0 ∷ w.b1 ∷ w.a0 ∷ w.a1 ∷ []

write_at-append :
    (pre s bytes : Str) (i k : ℕ)
    → i ≡ length pre + k
    → write_at i bytes (pre ++ s) ≡ pre ++ write_at k bytes s
unfolding write_at
write_at-append pre s [] i k e = refl
write_at-append pre s (b ∷ bs) i k e =
    rw (set-append pre s i k b e) (write_at-append pre (set s k b) bs (i + 1) (k + 1) (omega arith))

-- A round that stays behind `pre` does what it would do without it.
swap_round-append :
    (pre s : Str) (head tail i head' tail' : ℕ)
    → head ≡ length pre + head'
    → tail ≡ length pre + tail'
    → i * 2 ≤ tail'
    → swap_round head tail i (pre ++ s) ≡ pre ++ swap_round head' tail' i s
unfolding swap_round
swap_round-append pre s head tail i head' tail' eh et le = rw (
  drop-append pre s (head + i * 2) (head' + i * 2) (omega arith),
  drop-append pre s (tail - i * 2) (tail' - i * 2) (omega arith),
  write_at-append pre s (take 2 (drop (tail' - i * 2) s)) (head + i * 2) (head' + i * 2)
      (omega arith),
  write_at-append pre _ (take 2 (drop (head' + i * 2) s)) (tail - i * 2) (tail' - i * 2)
      (omega arith),
)

-- swap_hex_bytes2 with len 4 reverses the four bytes at byte `from` and touches nothing else.
pub swap_hex_bytes2-word :
    (pre post : Str) (w : Word) (from : ℕ)
    → length pre ≡ from * 2
    → swap_hex_bytes2 (pre ++ (word_hex w ++ post)) from 4 ≡ pre ++ (reversed_hex w ++ post)
unfolding swap_hex_bytes2 swap_rounds
swap_hex_bytes2-word pre post w from e =
    rw
      (
        swap_round-append pre (word_hex w ++ post) (from * 2) (from * 2 + 4 * 2 - 2) 0 0 6
            (omega arith) (omega arith) (omega arith),
        swap_round-append pre (swap_round 0 6 0 (word_hex w ++ post)) (from * 2)
            (from * 2 + 4 * 2 - 2) (0 + 1) 0 6 (omega arith) (omega arith) (omega arith),
      )
      (unfold swap_round in refl)
