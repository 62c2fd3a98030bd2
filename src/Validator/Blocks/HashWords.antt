-- ===== src/Validator/Blocks/HashWords.antt =====
-- The order of the words of a block hash: what on_block_hash keeps of the upstream's answer.
use pool_dance.Prelude.{
  ℕ, zero, suc, ◌+◌, ◌-◌, ◌*◌, ◌≤◌, ◌≡◌, refl, Str, [], ◌∷◌, ◌++◌, arith, length, take, drop, slice,
  length-append, length-take, length-drop, drop-append, set-append, append-nil, append_assoc, sym,
  ap, ◌∙◌, take-append-drop, take_all, drop-drop, drop-append_le, take-append_le,
}
use pool_dance.Validator.Hex.{write_at}
use pool_dance.Validator.Blocks.{copy_words}

-- The first `n` words of eight characters, the last of them first.
unfoldable pub words_down : ℕ → Str → Str
words_down zero s = []
words_down (suc n) s = slice (n * 8) 8 s ++ words_down n s

-- As many bytes are overwritten as are written.
write_at-over :
    (done bytes old rest : Str) (i : ℕ)
    → i ≡ length done
    → length old ≡ length bytes
    → write_at i bytes (done ++ (old ++ rest)) ≡ done ++ (bytes ++ rest)
unfolding write_at
write_at-over done [] [] rest i e l = refl
write_at-over done [] (o ∷ old) rest i e l = absurd (omega arith)
write_at-over done (b ∷ bytes) [] rest i e l = absurd (omega arith)
write_at-over done (b ∷ bytes) (o ∷ old) rest i e l =
    rw (set-append done (o ∷ (old ++ rest)) i 0 b (omega arith)) (
      simp append_assoc at (
        write_at-over (done ++ (b ∷ [])) bytes old rest (i + 1)
          (omega (arith, length-append done (b ∷ []))) (omega arith)))

pub copy_words-down :
    (n i : ℕ) (src done tail : Str)
    → i + n * 8 ≡ 64
    → i ≡ length done
    → length tail ≡ n * 8
    → 64 ≤ length src
    → copy_words n i src (done ++ tail) ≡ done ++ words_down n src
unfolding copy_words words_down
copy_words-down zero i src done [] e d t s = refl
copy_words-down zero i src done (b ∷ tail) e d t s = absurd (omega arith)
copy_words-down (suc n) i src done tail e d t s =
    let from : 64 - 8 - i ≡ n * 8 = omega arith in
    let word : Str = slice (n * 8) 8 src in
    let word_length : length word ≡ 8 =
      omega (arith, length-take 8 (drop (n * 8) src), length-drop (n * 8) src) in
    let old_length : length (take 8 tail) ≡ length word =
      omega (arith, length-take 8 tail, word_length) in
    let written : write_at i word (done ++ tail) ≡ (done ++ word) ++ drop 8 tail =
      ap (λ z. write_at i word (done ++ z)) (sym (take-append-drop 8 tail))
      ∙ write_at-over done word (take 8 tail) (drop 8 tail) i d old_length
      ∙ sym (append_assoc done word (drop 8 tail)) in
    rw (from, written)
      (copy_words-down n (i + 8) src (done ++ word) (drop 8 tail) (omega arith)
          (omega (arith, length-append done word, word_length)) (omega (arith, length-drop 8 tail))
          s
        ∙ append_assoc done word (words_down n src))

words_down-append : (n : ℕ) (s t : Str) → n * 8 ≤ length s → words_down n (s ++ t) ≡ words_down n s
unfolding words_down
words_down-append zero s t le = refl
words_down-append (suc n) s t le = rw (
  drop-append_le (n * 8) s t (omega arith),
  take-append_le 8 (drop (n * 8) s) t (omega (arith, length-drop (n * 8) s)),
  words_down-append n s t (omega arith),
)

pub length-words_down : (n : ℕ) (s : Str) → n * 8 ≤ length s → length (words_down n s) ≡ n * 8
unfolding words_down
length-words_down zero s le = omega arith
length-words_down (suc n) s le = omega (
  arith,
  length-append (slice (n * 8) 8 s) (words_down n s),
  length-take 8 (drop (n * 8) s),
  length-drop (n * 8) s,
  length-words_down n s (omega arith),
)

-- The word in front goes to the end.
words_down-first : (n : ℕ) (s : Str) → words_down (suc n) s ≡ words_down n (drop 8 s) ++ take 8 s
unfolding words_down
words_down-first zero s = append-nil (take 8 s)
words_down-first (suc n) s =
    rw
      (
        drop-drop (n * 8) 8 s (suc n * 8) (omega arith),
        append_assoc (slice (suc n * 8) 8 s) (words_down n (drop 8 s)) (take 8 s),
      )
      (ap (◌++◌ (slice (suc n * 8) 8 s)) (words_down-first n s))

-- The order of the words is reversed, so that doing it twice gives the string back.
pub words_down-twice : (n : ℕ) (s : Str) → length s ≡ n * 8 → words_down n (words_down n s) ≡ s
unfolding words_down
words_down-twice zero [] e = refl
words_down-twice zero (b ∷ s) e = absurd (omega arith)
words_down-twice (suc n) s e =
    let rest : Str = words_down n (drop 8 s) in
    let rest_length : length rest ≡ n * 8 =
      length-words_down n (drop 8 s) (omega (arith, length-drop 8 s)) in
    rw (words_down-first n s) (
      rw
        (
          drop-append rest (take 8 s) (n * 8) 0 (omega arith),
          take_all 8 (take 8 s) (omega (arith, length-take 8 s)),
          words_down-append n rest (take 8 s) (omega arith),
          words_down-twice n (drop 8 s) (omega (arith, length-drop 8 s)),
        )
        (take-append-drop 8 s))
