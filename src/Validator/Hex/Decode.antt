-- ===== src/Validator/Hex/Decode.antt =====
-- hex_to_bin against a recursive decoder over pairs of characters.
use pool_dance.Prelude.{
  ℕ, zero, suc, ◌+◌, ◌*◌, ◌/◌, ◌%◌, ◌≤◌, ◌≡◌, refl, Bool, true, false, Option, none, some, Str, [],
  ◌∷◌, ◌++◌, arith, ◌==◌, length, drop, set-append, drop-append, append_assoc, ap, ◌∙◌,
  if◌then◌else◌, length-append,
}
use pool_dance.Validator.Hex.{strtoul16, hex_to_bin_from, hex_to_bin}
use pool_dance.Validator.Hex.Pair.{pair_byte, Takes, strtoul16-pair}

abbrev pub cons_byte : Option ℕ → Option Str → Option Str
cons_byte none rest = none
cons_byte (some v) none = none
cons_byte (some v) (some bs) = some (v ∷ bs)

-- The bytes of a hex string, or `none` if some pair is not taken. An odd last character is left
-- out.
unfoldable pub decode : Str → Option Str
decode [] = some []
decode (a ∷ []) = some []
decode (a ∷ b ∷ s) = cons_byte (pair_byte a b) (decode s)

-- What the loop gives, from `bin` = `done ++ tail`, if the characters left decode to `r`.
abbrev pub Decodes : Str → Str → ℕ → Str × Bool → Option Str → Type 0
Decodes done tail n r none = r.1 ≡ false
Decodes done tail n r (some bs) = r ≡ (done ++ (bs ++ drop n tail), true)

-- One round in front of a rest that is known: the pair is taken or not, and so is what follows.
Decodes-cons :
    (done : Str) (t : ℕ) (tail : Str) (n : ℕ) (u : ℕ × ℕ) (o : Option ℕ) (r : Str × Bool)
    (d : Option Str)
    → Takes u o
    → Decodes (done ++ (u.0 % 256 ∷ [])) tail n r d
    → Decodes done
        (t ∷ tail)
        (suc n)
        (if u.1 == 2 then r else (done ++ (u.0 % 256 ∷ tail), false))
        (cons_byte o d)
Decodes-cons done t tail n u none r d h ih = rw h refl
Decodes-cons done t tail n u (some v) r none h ih = rw h.1 ih
Decodes-cons done t tail n u (some v) r (some bs) h ih =
    rw (h.1, ← h.0)
      (ih ∙ ap (λ w. (w, true)) (append_assoc done (u.0 % 256 ∷ []) (bs ++ drop n tail)))

hex_to_bin_from-Decodes :
    (n i : ℕ) (pre s done tail : Str)
    → length pre ≡ i * 2
    → length done ≡ i
    → length s ≡ n * 2
    → n ≤ length tail
    → Decodes done tail n (hex_to_bin_from n i (pre ++ s) (done ++ tail)) (decode s)
unfolding hex_to_bin_from decode
hex_to_bin_from-Decodes zero i pre [] done tail ep ed es room = refl
hex_to_bin_from-Decodes zero i pre (a ∷ s) done tail ep ed es room = absurd (omega arith)
hex_to_bin_from-Decodes (suc n) i pre [] done tail ep ed es room = absurd (omega arith)
hex_to_bin_from-Decodes (suc n) i pre (a ∷ []) done tail ep ed es room = absurd (omega arith)
hex_to_bin_from-Decodes (suc n) i pre (a ∷ b ∷ s) done [] ep ed es room = absurd (omega arith)
hex_to_bin_from-Decodes (suc n) i pre (a ∷ b ∷ s) done (t ∷ tail) ep ed es room =
    let v : ℕ = (strtoul16 (a ∷ b ∷ [])).0 % 256 in
    let rest : Decodes (done ++ (v ∷ [])) tail n
        (hex_to_bin_from n (i + 1) (pre ++ (a ∷ b ∷ s)) (done ++ (v ∷ tail))) (decode s) =
      simp append_assoc at (
        hex_to_bin_from-Decodes n (i + 1) (pre ++ (a ∷ b ∷ [])) s (done ++ (v ∷ [])) tail
          (omega (arith, length-append pre (a ∷ b ∷ [])))
          (omega (arith, length-append done (v ∷ []))) (omega arith) (omega arith)) in
    rw
      (
        drop-append pre (a ∷ b ∷ s) (i * 2) 0 (omega arith),
        set-append done (t ∷ tail) i 0 v (omega arith),
      )
      (Decodes-cons done t tail n (strtoul16 (a ∷ b ∷ [])) (pair_byte a b) _ (decode s)
        (strtoul16-pair a b) rest)

-- hex_to_bin over a string of 2n characters and a buffer of at least n bytes: it succeeds exactly
-- when every pair is taken, and then fills the first n bytes with the decoded ones.
pub hex_to_bin-Decodes :
    (hex bin : Str) (n : ℕ)
    → length hex ≡ n * 2
    → n ≤ length bin
    → Decodes [] bin n (hex_to_bin hex (n * 2) bin) (decode hex)
unfolding hex_to_bin
hex_to_bin-Decodes hex bin n e room =
    let half : n * 2 / 2 ≡ n = omega arith in
    rw half (hex_to_bin_from-Decodes n 0 [] hex [] bin (omega arith) (omega arith) e room)
