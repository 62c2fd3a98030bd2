-- ===== src/RefCount/Safe.antt =====
-- Whatever the interleaving, the object is not freed while a reference is held.
use pool_dance.Prelude.{
  ℕ, zero, suc, ◌+◌, ◌-◌, ◌≤◌, ◌≡◌, refl, true, some, List, [], ◌∷◌, ◌++◌, ◌==◌, if◌then◌else◌,
  get_elem?, set, arith, ◌⊎◌, inl, inr, ap,
}
use pool_dance.RefCount.{
  Phase, holding, loaded, dropped, Shared, Step, reads, exchanges, frees, refs, Reaches, here,
  onwards, new_shared,
}

-- One for a reference that is not dropped.
abbrev pub weight : Phase → ℕ
weight holding = 1
weight (loaded old_ref) = 1
weight dropped = 0

-- How many references are not dropped.
unfoldable pub held : List Phase → ℕ
held [] = 0
held (p ∷ ps) = weight p + held ps

-- The count is at least the references left; an owner that has read at most 1 is the last; and
-- after the object was freed none is left.
pub record IsCounted (s : Shared) : Type 0 where
  pub enough : held s.owners ≤ s.ref_count
  pub last :
      (i old_ref : ℕ)
      → get_elem? s.owners i ≡ some (loaded old_ref)
      → old_ref ≤ 1
      → held s.owners ≤ 1
  pub gone : s.freed ≡ true → held s.owners ≡ 0

held-set :
    (ps : List Phase) (i : ℕ) (p q : Phase)
    → get_elem? ps i ≡ some p
    → held (set ps i q) + weight p ≡ held ps + weight q
unfolding held
held-set [] i p q e = absurd (cc e)
held-set (a ∷ ps) zero p q e = let same : a ≡ p = cc e in rw same (omega arith)
held-set (a ∷ ps) (suc i) p q e = omega (arith, held-set ps i p q e)

get_elem?-set :
    (ps : List Phase) (i j : ℕ) (q r : Phase)
    → get_elem? (set ps i q) j ≡ some r
    → (i ≡ j) × (q ≡ r) ⊎ (get_elem? ps j ≡ some r)
get_elem?-set [] i j q r e = inr e
get_elem?-set (a ∷ ps) zero zero q r e = inl (refl, cc e)
get_elem?-set (a ∷ ps) zero (suc j) q r e = inr e
get_elem?-set (a ∷ ps) (suc i) zero q r e = inr e
get_elem?-set (a ∷ ps) (suc i) (suc j) q r e = elim (get_elem?-set ps i j q r e) [
  | inl (same, is) ↦ inl (ap suc same, is)
  | inr old ↦ inr old
]

get_elem?-append :
    (ps : List Phase) (j : ℕ) (q r : Phase)
    → get_elem? (ps ++ q ∷ []) j ≡ some r
    → (q ≡ r) ⊎ (get_elem? ps j ≡ some r)
get_elem?-append [] zero q r e = inl (cc e)
get_elem?-append [] (suc j) q r e = absurd (cc e)
get_elem?-append (a ∷ ps) zero q r e = inr e
get_elem?-append (a ∷ ps) (suc j) q r e = get_elem?-append ps j q r e

held-append : (ps : List Phase) → held (ps ++ holding ∷ []) ≡ held ps + 1
unfolding held
held-append [] = refl
held-append (p ∷ ps) = omega (arith, held-append ps)

held-one : (ps : List Phase) (i : ℕ) (p : Phase) → get_elem? ps i ≡ some p → weight p ≤ held ps
unfolding held
held-one [] i p e = absurd (cc e)
held-one (a ∷ ps) zero p e = let same : a ≡ p = cc e in rw same (omega arith)
held-one (a ∷ ps) (suc i) p e = omega (arith, held-one ps i p e)

-- An owner that holds and one that has read are two.
held-two :
    (ps : List Phase) (i j old_ref : ℕ)
    → get_elem? ps i ≡ some holding
    → get_elem? ps j ≡ some (loaded old_ref)
    → 2 ≤ held ps
unfolding held
held-two [] i j old_ref e f = absurd (cc e)
held-two (a ∷ ps) zero zero old_ref e f = absurd (cc (e, f))
held-two (a ∷ ps) zero (suc j) old_ref e f =
    let same : a ≡ holding = cc e in rw same (omega (arith, held-one ps j (loaded old_ref) f))
held-two (a ∷ ps) (suc i) zero old_ref e f =
    let same : a ≡ loaded old_ref = cc f in rw same (omega (arith, held-one ps i holding e))
held-two (a ∷ ps) (suc i) (suc j) old_ref e f = omega (arith, held-two ps i j old_ref e f)

reads-IsCounted :
    (s : Shared) (i : ℕ)
    → get_elem? s.owners i ≡ some holding
    → IsCounted s
    → IsCounted (record s { owners = set s.owners i (loaded s.ref_count) })
reads-IsCounted s i e v =
    let same = held-set s.owners i holding (loaded s.ref_count) e in
    record {
      enough = omega (arith, same, v.enough);
      last = λ j old_ref f small.
          elim (get_elem?-set s.owners i j (loaded s.ref_count) (loaded old_ref) f) [
            | inl (here', is) ↦
                let read : s.ref_count ≡ old_ref = cc is in omega (arith, same, v.enough)
            | inr old ↦ let le = v.last j old_ref old small in omega (arith, same)
          ];
      gone = λ f. omega (arith, same, v.gone f);
    }

-- An owner drops its reference, and the count goes down by one or not at all.
dropped-IsCounted :
    (s : Shared) (i old_ref count : ℕ)
    → get_elem? s.owners i ≡ some (loaded old_ref)
    → s.ref_count ≤ count + 1
    → IsCounted s
    → IsCounted (record s { ref_count = count; owners = set s.owners i dropped })
dropped-IsCounted s i old_ref count e le v =
    let less = held-set s.owners i (loaded old_ref) dropped e in
    record {
      enough = omega (arith, less, v.enough);
      last = λ j other f small. elim (get_elem?-set s.owners i j dropped (loaded other) f) [
        | inl (here', is) ↦ absurd (cc is)
        | inr old ↦ let one = v.last j other old small in omega (arith, less)
      ];
      gone = λ f. omega (arith, less, v.gone f);
    }

frees-IsCounted :
    (s : Shared) (i old_ref : ℕ)
    → get_elem? s.owners i ≡ some (loaded old_ref)
    → old_ref ≤ 1
    → IsCounted s
    → IsCounted (record s { freed = true; owners = set s.owners i dropped })
frees-IsCounted s i old_ref e small v =
    let less = held-set s.owners i (loaded old_ref) dropped e in
    let one = v.last i old_ref e small in
    record {
      enough = omega (arith, less, v.enough);
      last = λ j other f le. omega (arith, less, one);
      gone = λ f. omega (arith, less, one);
    }

refs-IsCounted :
    (s : Shared) (i : ℕ)
    → get_elem? s.owners i ≡ some holding
    → IsCounted s
    → IsCounted (record s { ref_count = s.ref_count + 1; owners = s.owners ++ holding ∷ [] })
refs-IsCounted s i e v =
    let more = held-append s.owners in
    record {
      enough = omega (arith, more, v.enough);
      last = λ j old_ref f small. elim (get_elem?-append s.owners j holding (loaded old_ref) f) [
        | inl is ↦ absurd (cc is)
        | inr old ↦
            let two = held-two s.owners i j old_ref e old in
            let one = v.last j old_ref old small in absurd (omega arith)
      ];
      gone = λ f.
          let none_left = v.gone f in
          let mine = held-one s.owners i holding e in absurd (omega arith);
    }

Step-IsCounted : {s t : Shared} → Step s t → IsCounted s → IsCounted t
Step-IsCounted {s} (reads i e) v = reads-IsCounted s i e v
Step-IsCounted {s} (exchanges i old_ref e many) v =
    dropped-IsCounted s i old_ref (if s.ref_count == old_ref then old_ref - 1 else s.ref_count) e
      (ground arith) v
Step-IsCounted {s} (frees i old_ref e small) v = frees-IsCounted s i old_ref e small v
Step-IsCounted {s} (refs i e) v = refs-IsCounted s i e v

-- However the atomic operations of any number of owners interleave, starting from any state that is
-- counted, the count stays at least the number of references that are not dropped, and once the
-- object was freed there is none.
pub Reaches-IsCounted : {s t : Shared} → Reaches s t → IsCounted s → IsCounted t
Reaches-IsCounted here v = v
Reaches-IsCounted (onwards r step) v = Step-IsCounted step (Reaches-IsCounted r v)

pub new_shared-IsCounted : IsCounted new_shared
unfolding held
new_shared-IsCounted = record {
  enough = omega arith;
  last = λ i old_ref e small. omega arith;
  gone = λ f. absurd (cc f);
}
