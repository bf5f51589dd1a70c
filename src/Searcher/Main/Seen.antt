-- ===== src/Searcher/Main/Seen.antt =====
-- What is seen of the texts that are drawn over each other.
use demotool.Base.{ℕ, ◌+◌, ◌-◌, ◌*◌, ◌≡◌, refl, sym, ◌∙◌, ap, arith, List, [], ◌∷◌, ◌++◌}
use demotool.Base.{Bool, true, false, ◌&&◌, ◌||◌, Option, none, some, inl, inr, Bool-cases}
use demotool.Base.{Option-cases, not, map, ltb, leb, ◌==◌, if◌then◌else◌}
use demotool.Searcher.Head.{Drawn}

-- Whether a text is drawn over a column of its line.
abbrev pub covers : ℕ → ℕ → Drawn → Bool
covers x y d = d.y == y && (leb d.x x && ltb x (d.x + 8 * d.count))

abbrev pub or_else {ℓ} : {A : Type ℓ} → Option A → Option A → Option A
or_else none b = b
or_else (some a) b = some a

-- The last text that is drawn over a column `x` of the line `y`, with the column of the text.
unfoldable pub seen : ℕ → ℕ → List Drawn → Option (Drawn × ℕ)
seen x y [] = none
seen x y (d ∷ ds) = or_else (seen x y ds) (if covers x y d then some (d, x - d.x) else none)

pub or_else-none {ℓ} : {A : Type ℓ} (a : Option A) → or_else a none ≡ a
or_else-none none = refl
or_else-none (some a) = refl

pub or_else_assoc {ℓ} :
    {A : Type ℓ} (a b c : Option A) → or_else (or_else a b) c ≡ or_else a (or_else b c)
or_else_assoc none b c = refl
or_else_assoc (some a) b c = refl

pub seen-append :
    (x y : ℕ) (ds es : List Drawn) → seen x y (ds ++ es) ≡ or_else (seen x y es) (seen x y ds)
unfolding seen
seen-append x y [] es = sym (or_else-none (seen x y es))
seen-append x y (d ∷ ds) es =
    let text = if covers x y d then some (d, x - d.x) else none in
    ap (λ s. or_else s text) (seen-append x y ds es)
    ∙ or_else_assoc (seen x y es) (seen x y ds) text

-- The place of a text: where it starts, and the number of its characters.
pub record Place : Type 0 where
  pub x : ℕ
  pub y : ℕ
  pub count : ℕ

abbrev pub place : Drawn → Place
place d = record { x = d.x; y = d.y; count = d.count }

abbrev pub on_place : ℕ → ℕ → Place → Bool
on_place x y p = p.y == y && (leb p.x x && ltb x (p.x + 8 * p.count))

unfoldable pub any_covers : ℕ → ℕ → List Place → Bool
any_covers x y [] = false
any_covers x y (p ∷ ps) = on_place x y p || any_covers x y ps

-- Where no text is drawn nothing is seen of them, and where one is, something is.
pub uncovered :
    (x y : ℕ) (ds : List Drawn) → any_covers x y (map place ds) ≡ false → seen x y ds ≡ none
unfolding seen any_covers
uncovered x y [] h = refl
uncovered x y (d ∷ ds) h = elim (Bool-cases (covers x y d)) [
  | inl e ↦ absurd (ground (arith, e, h))
  | inr e ↦
      let rest : any_covers x y (map place ds) ≡ false = ground (arith, e, h) in
      rw (e, uncovered x y ds rest) refl
]

pub covered :
    (x y : ℕ) (ds : List Drawn)
    → any_covers x y (map place ds) ≡ true
    → (a : Drawn × ℕ) × (seen x y ds ≡ some a)
unfolding seen any_covers
covered x y [] h = absurd (ground (arith, h))
covered x y (d ∷ ds) h = elim (Option-cases (seen x y ds)) [
  | inr (a, e) ↦ (a, rw e refl)
  | inl e ↦ elim (Bool-cases (covers x y d)) [
    | inl c ↦ ((d, x - d.x), rw (e, c) refl)
    | inr c ↦
        let rest : any_covers x y (map place ds) ≡ true = ground (arith, c, h) in
        let (a, some_a) = covered x y ds rest in (a, rw some_a refl)
  ]
]

-- Two places that have no column in common.
abbrev pub is_apart : Place → Place → Bool
is_apart p q = not (p.y == q.y) || (leb (p.x + 8 * p.count) q.x || leb (q.x + 8 * q.count) p.x)

unfoldable pub apart_from : Place → List Place → Bool
apart_from p [] = true
apart_from p (q ∷ qs) = is_apart p q && apart_from p qs

unfoldable pub all_apart : List Place → List Place → Bool
unfolding apart_from
all_apart [] qs = true
all_apart (p ∷ ps) qs = apart_from p qs && all_apart ps qs

apart_from-uncovered :
    (x y : ℕ) (p : Place) (qs : List Place)
    → apart_from p qs ≡ true
    → on_place x y p ≡ true
    → any_covers x y qs ≡ false
unfolding apart_from any_covers
apart_from-uncovered x y p [] h c = refl
apart_from-uncovered x y p (q ∷ qs) h c =
    let first : is_apart p q ≡ true = ground (arith, h) in
    let others : apart_from p qs ≡ true = ground (arith, h) in
    let rest = apart_from-uncovered x y p qs others c in
    let this : on_place x y q ≡ false = ground (arith, first, c) in rw (this, rest) refl

pub all_apart-uncovered :
    (x y : ℕ) (ps qs : List Place)
    → all_apart ps qs ≡ true
    → any_covers x y ps ≡ true
    → any_covers x y qs ≡ false
unfolding all_apart any_covers
all_apart-uncovered x y [] qs h c = absurd (ground (arith, c))
all_apart-uncovered x y (p ∷ ps) qs h c = elim (Bool-cases (on_place x y p)) [
  | inl e ↦ apart_from-uncovered x y p qs (ground (arith, h)) e
  | inr e ↦ all_apart-uncovered x y ps qs (ground (arith, h)) (ground (arith, e, c))
]
