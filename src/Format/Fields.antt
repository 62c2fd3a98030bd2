-- ===== src/Format/Fields.antt =====
-- The fields of an entry are found again at its tabs.
use pool_dance.Prelude.{
  ℕ, ◌≡◌, ◌≢◌, refl, ap, ◌∙◌, false, List, [], ◌∷◌, ◌++◌, Str, ◌==◌, if◌then◌else◌, arith, All,
}
use pool_dance.Format.{tabs, quoted}

abbrev pub grow : ℕ → List Str → List Str
grow c [] = (c ∷ []) ∷ []
grow c (field ∷ fields) = (c ∷ field) ∷ fields

-- The pieces between the tabs; there is always at least one.
unfoldable pub split : Str → List Str
split [] = [] ∷ []
split (c ∷ s) = let rest = split s in if c == 9 then [] ∷ rest else grow c rest

-- The string without its first and its last character.
unfoldable pub all_but_last : Str → Str
all_but_last [] = []
all_but_last (c ∷ []) = []
all_but_last (c ∷ d ∷ s) = c ∷ all_but_last (d ∷ s)

abbrev pub unquoted : Str → Str
unquoted [] = []
unquoted (c ∷ s) = all_but_last s

abbrev pub HasNoTab : Str → Type 0
HasNoTab s = All (λ c. c ≢ 9) s

split-append-tab : (field s : Str) → HasNoTab field → split (field ++ (9 ∷ s)) ≡ field ∷ split s
unfolding split
split-append-tab [] s h = refl
split-append-tab (c ∷ field) s h =
    let not_tab : (c == 9) ≡ false = let other = h.0 in ground arith in
    rw (not_tab, split-append-tab field s h.1) refl

split-last : (field : Str) → HasNoTab field → split field ≡ field ∷ []
unfolding split
split-last [] h = refl
split-last (c ∷ field) h =
    let not_tab : (c == 9) ≡ false = let other = h.0 in ground arith in
    rw (not_tab, split-last field h.1) refl

pub split-tabs :
    (field : Str) (fields : List Str)
    → All HasNoTab (field ∷ fields)
    → split (tabs (field ∷ fields)) ≡ field ∷ fields
unfolding tabs
split-tabs field [] h = split-last field h.0
split-tabs field (next ∷ fields) h =
    split-append-tab field (tabs (next ∷ fields)) h.0
    ∙ ap (λ z. field ∷ z) (split-tabs next fields h.1)

all_but_last-append : (s : Str) (c : ℕ) → all_but_last (s ++ c ∷ []) ≡ s
unfolding all_but_last
all_but_last-append [] c = refl
all_but_last-append (a ∷ []) c = refl
all_but_last-append (a ∷ b ∷ s) c = ap (λ z. a ∷ z) (all_but_last-append (b ∷ s) c)

pub unquoted-quoted : (s : Str) → unquoted (quoted s) ≡ s
unfolding quoted
unquoted-quoted s = all_but_last-append s 34

HasNoTab-append : (s t : Str) → HasNoTab s → HasNoTab t → HasNoTab (s ++ t)
HasNoTab-append [] t h k = k
HasNoTab-append (c ∷ s) t h k = (h.0, HasNoTab-append s t h.1 k)

pub quoted-HasNoTab : (s : Str) → HasNoTab s → HasNoTab (quoted s)
unfolding quoted
quoted-HasNoTab s h = (omega arith, HasNoTab-append s (34 ∷ []) h (omega arith, tt))
