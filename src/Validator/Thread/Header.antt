-- ===== src/Validator/Thread/Header.antt =====
-- The header that the thread hashes: the words of the first 160 digits, each with its bytes
-- reversed.
use pool_dance.Prelude.{
  ℕ, zero, suc, ◌+◌, ◌*◌, ◌≤◌, ◌≡◌, refl, Str, [], ◌∷◌, ◌++◌, arith, length, length-append,
  append_assoc, ap,
}
use pool_dance.Validator.Hex.Swap.{Word, word_hex, reversed_hex, swap_hex_bytes2-word}
use pool_dance.Validator.Thread.{swap_words}

-- Every eight digits, a 32-bit word, with the bytes in reverse.
unfoldable pub reverse_bytes : Str → Str
reverse_bytes (a0 ∷ a1 ∷ b0 ∷ b1 ∷ c0 ∷ c1 ∷ d0 ∷ d1 ∷ s) =
    d0 ∷ d1 ∷ c0 ∷ c1 ∷ b0 ∷ b1 ∷ a0 ∷ a1 ∷ reverse_bytes s
reverse_bytes s = s

first_word : (s : Str) → 8 ≤ length s → (w : Word) × (rest : Str) × (s ≡ word_hex w ++ rest)
first_word (a0 ∷ a1 ∷ b0 ∷ b1 ∷ c0 ∷ c1 ∷ d0 ∷ d1 ∷ s) h =
    (record { a0 = a0; a1 = a1; b0 = b0; b1 = b1; c0 = c0; c1 = c1; d0 = d0; d1 = d1 }, s, refl)
first_word s h = absurd (omega arith)

swap_words-reverse_bytes :
    (n i : ℕ) (pre s : Str)
    → length pre ≡ i * 2
    → length s ≡ n * 8
    → swap_words n i (pre ++ s) ≡ pre ++ reverse_bytes s
unfolding swap_words reverse_bytes
swap_words-reverse_bytes zero i pre [] p e = refl
swap_words-reverse_bytes zero i pre (c ∷ s) p e = absurd (omega arith)
swap_words-reverse_bytes (suc n) i pre s p e =
    let (w, rest, split) = first_word s (omega arith) in
    let rest_length : length rest ≡ n * 8 = omega (arith, ap length split) in
    rw (split, swap_hex_bytes2-word pre rest w i p)
      (simp append_assoc at (
        swap_words-reverse_bytes n (i + 4) (pre ++ reversed_hex w) rest
          (omega (arith, length-append pre (reversed_hex w))) rest_length))

-- Swapping the twenty words of a header in place reverses the bytes of each word.
pub swap_words_header : (s : Str) → length s ≡ 160 → swap_words 20 0 s ≡ reverse_bytes s
swap_words_header s e = swap_words-reverse_bytes 20 0 [] s refl e

pub length-reverse_bytes : (n : ℕ) (s : Str) → length s ≡ n * 8 → length (reverse_bytes s) ≡ n * 8
unfolding reverse_bytes
length-reverse_bytes zero [] e = refl
length-reverse_bytes zero (c ∷ s) e = absurd (omega arith)
length-reverse_bytes (suc n) s e =
    let (w, rest, split) = first_word s (omega arith) in
    let rest_length : length rest ≡ n * 8 = omega (arith, ap length split) in
    rw split (omega (arith, length-reverse_bytes n rest rest_length))

-- Reversing twice gives the digits back.
pub reverse_bytes-twice : (n : ℕ) (s : Str) → length s ≡ n * 8 → reverse_bytes (reverse_bytes s) ≡ s
unfolding reverse_bytes
reverse_bytes-twice zero [] e = refl
reverse_bytes-twice zero (c ∷ s) e = absurd (omega arith)
reverse_bytes-twice (suc n) s e =
    let (w, rest, split) = first_word s (omega arith) in
    let rest_length : length rest ≡ n * 8 = omega (arith, ap length split) in
    rw split (ap (λ r. word_hex w ++ r) (reverse_bytes-twice n rest rest_length))
