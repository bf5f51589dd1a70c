-- ===== src/Searcher/Main/Places.antt =====
-- Where the parts of the header are drawn, and that drawing those that changed is enough.
use demotool.Base.{ℕ, ◌≡◌, refl, arith, List, [], ◌∷◌, ◌++◌}
use demotool.Base.{Bool, true, false, ◌&&◌, ◌||◌, none, inl, inr, Bool-cases}
use demotool.Base.{map}
use demotool.Searcher.View.{View}
use demotool.Searcher.Head.{
  Part, screen, pf1width, pf2width, height, address, rgb, modeven, mododd, display, priority,
  saveas, bplanes, reso, bpllocks, bpladdrs, status, parts, is_wanted, draw_part, draw_parts,
}
use demotool.Searcher.Main.Seen.{
  or_else, seen, or_else-none, seen-append, Place, place, any_covers, uncovered, covered, all_apart,
  all_apart-uncovered,
}

abbrev at : ℕ → ℕ → ℕ → Place
at x y count = record { x = x; y = y; count = count }

-- Six places below each other.
abbrev column : ℕ → ℕ → List Place
column x count =
    at x 18 count
    ∷ at x 26 count
    ∷ at x 34 count
    ∷ at x 42 count
    ∷ at x 50 count
    ∷ at x 58 count
    ∷ []

-- The places of a part, whatever the view is.
unfoldable pub places : Part → List Place
places part = elim part [
  | screen ↦ at 318 10 4 ∷ []
  | pf1width ↦ at 318 18 4 ∷ []
  | pf2width ↦ at 318 26 4 ∷ []
  | height ↦ at 318 34 4 ∷ []
  | address ↦ at 302 42 6 ∷ []
  | rgb ↦ at 406 10 2 ∷ at 438 10 3 ∷ []
  | modeven ↦ at 430 18 4 ∷ []
  | mododd ↦ at 430 26 4 ∷ []
  | display ↦ at 430 34 4 ∷ []
  | priority ↦ at 430 42 4 ∷ []
  | saveas ↦ at 430 50 4 ∷ []
  | bplanes ↦ at 566 10 1 ∷ column 486 3
  | reso ↦ at 582 10 5 ∷ []
  | bpllocks ↦ column 518 1
  | bpladdrs ↦ column 542 6
  | status ↦ at 358 58 13 ∷ []
]

draw_part-places : (v : View) (part : Part) → map place (draw_part v part) ≡ places part
unfolding draw_part places
draw_part-places v screen = refl
draw_part-places v pf1width = refl
draw_part-places v pf2width = refl
draw_part-places v height = refl
draw_part-places v address = refl
draw_part-places v rgb = refl
draw_part-places v modeven = refl
draw_part-places v mododd = refl
draw_part-places v display = refl
draw_part-places v priority = refl
draw_part-places v saveas = refl
draw_part-places v bplanes = refl
draw_part-places v reso = refl
draw_part-places v bpllocks = refl
draw_part-places v bpladdrs = refl
draw_part-places v status = refl

all_places : List Part → List Place
all_places [] = []
all_places (part ∷ ps) = places part ++ all_places ps

-- No two parts are drawn over each other.
unfoldable is_separate : List Part → Bool
unfolding all_apart
is_separate [] = true
is_separate (part ∷ ps) = all_apart (places part) (all_places ps) && is_separate ps

parts_separate : is_separate parts ≡ true
unfolding is_separate places all_places
parts_separate = refl

any_covers-append :
    (x y : ℕ) (ps qs : List Place)
    → any_covers x y (ps ++ qs) ≡ (any_covers x y ps || any_covers x y qs)
unfolding any_covers
any_covers-append x y [] qs = refl
any_covers-append x y (p ∷ ps) qs = ground (arith, any_covers-append x y ps qs)

-- Where no part is drawn nothing is seen, whichever are.
uncovered_parts :
    (x y texts : ℕ) (v : View) (ps : List Part)
    → any_covers x y (all_places ps) ≡ false
    → seen x y (draw_parts texts v ps) ≡ none
unfolding draw_parts all_places seen
uncovered_parts x y texts v [] h = refl
uncovered_parts x y texts v (part ∷ ps) h =
    let both = any_covers-append x y (places part) (all_places ps) in
    let first : any_covers x y (places part) ≡ false = ground (arith, both, h) in
    let others : any_covers x y (all_places ps) ≡ false = ground (arith, both, h) in
    let rest = uncovered_parts x y texts v ps others in
    elim (Bool-cases (is_wanted texts part)) [
      | inl e ↦
          rw (e, seen-append x y (draw_part v part) (draw_parts texts v ps), rest)
            (uncovered x y (draw_part v part) (rw (draw_part-places v part) first))
      | inr e ↦ rw e rest
    ]

-- What is seen of a part and of those behind it.
seen-parts :
    (x y texts : ℕ) (v : View) (part : Part) (ps : List Part)
    → is_wanted texts part ≡ true
    → seen x y (draw_parts texts v (part ∷ ps))
      ≡ or_else (seen x y (draw_parts texts v ps)) (seen x y (draw_part v part))
unfolding draw_parts
seen-parts x y texts v part ps e = rw e (seen-append x y (draw_part v part) (draw_parts texts v ps))

seen-others :
    (x y texts : ℕ) (v : View) (part : Part) (ps : List Part)
    → is_wanted texts part ≡ false
    → seen x y (draw_parts texts v (part ∷ ps)) ≡ seen x y (draw_parts texts v ps)
unfolding draw_parts
seen-others x y texts v part ps e = rw e refl

-- Drawing what changed over what was drawn shows what drawing everything does.
module _ (x y everything texts : ℕ) (v v' : View)
    (all : (part : Part) → is_wanted everything part ≡ true)
    (same : (part : Part)
      → is_wanted texts part ≡ false
      → seen x y (draw_part v' part) ≡ seen x y (draw_part v part)) where
  -- The first part is there.
  redraw_covered :
      (part : Part) (ps : List Part)
      → any_covers x y (places part) ≡ true
      → any_covers x y (all_places ps) ≡ false
      → or_else
          (seen x y (draw_parts texts v' (part ∷ ps)))
          (seen x y (draw_parts everything v (part ∷ ps)))
        ≡ seen x y (draw_parts everything v' (part ∷ ps))
  redraw_covered part ps c u =
      let old = uncovered_parts x y everything v ps u in
      let new = uncovered_parts x y everything v' ps u in
      let drawn = uncovered_parts x y texts v' ps u in
      let (a, some_a) = covered x y (draw_part v' part) (rw (draw_part-places v' part) c) in
      elim (Bool-cases (is_wanted texts part)) [
        | inl e ↦
            rw
              (
                seen-parts x y texts v' part ps e,
                seen-parts x y everything v part ps (all part),
                seen-parts x y everything v' part ps (all part),
                drawn,
                new,
                some_a,
              )
              refl
        | inr e ↦
            rw
              (
                seen-others x y texts v' part ps e,
                seen-parts x y everything v part ps (all part),
                seen-parts x y everything v' part ps (all part),
                drawn,
                old,
                new,
                same part e,
              )
              refl
      ]

  -- The first part is elsewhere.
  redraw_uncovered :
      (part : Part) (ps : List Part)
      → any_covers x y (places part) ≡ false
      → or_else (seen x y (draw_parts texts v' ps)) (seen x y (draw_parts everything v ps))
        ≡ seen x y (draw_parts everything v' ps)
      → or_else
          (seen x y (draw_parts texts v' (part ∷ ps)))
          (seen x y (draw_parts everything v (part ∷ ps)))
        ≡ seen x y (draw_parts everything v' (part ∷ ps))
  redraw_uncovered part ps c rest =
      let old = uncovered x y (draw_part v part) (rw (draw_part-places v part) c) in
      let new = uncovered x y (draw_part v' part) (rw (draw_part-places v' part) c) in
      elim (Bool-cases (is_wanted texts part)) [
        | inl e ↦
            rw
              (
                seen-parts x y texts v' part ps e,
                seen-parts x y everything v part ps (all part),
                seen-parts x y everything v' part ps (all part),
                old,
                new,
                or_else-none (seen x y (draw_parts texts v' ps)),
                or_else-none (seen x y (draw_parts everything v ps)),
                or_else-none (seen x y (draw_parts everything v' ps)),
              )
              rest
        | inr e ↦
            rw
              (
                seen-others x y texts v' part ps e,
                seen-parts x y everything v part ps (all part),
                seen-parts x y everything v' part ps (all part),
                old,
                new,
                or_else-none (seen x y (draw_parts everything v ps)),
                or_else-none (seen x y (draw_parts everything v' ps)),
              )
              rest
      ]

  redraw_parts :
      (ps : List Part)
      → is_separate ps ≡ true
      → or_else (seen x y (draw_parts texts v' ps)) (seen x y (draw_parts everything v ps))
        ≡ seen x y (draw_parts everything v' ps)
  unfolding is_separate draw_parts seen
  redraw_parts [] h = refl
  redraw_parts (part ∷ ps) h =
      let apart : all_apart (places part) (all_places ps) ≡ true = ground (arith, h) in
      let others : is_separate ps ≡ true = ground (arith, h) in
      elim (Bool-cases (any_covers x y (places part))) [
        | inl c ↦
            redraw_covered part ps c (all_apart-uncovered x y (places part) (all_places ps) apart c)
        | inr c ↦ redraw_uncovered part ps c (redraw_parts ps others)
      ]

  pub redraw :
      or_else (seen x y (draw_parts texts v' parts)) (seen x y (draw_parts everything v parts))
      ≡ seen x y (draw_parts everything v' parts)
  redraw = redraw_parts parts parts_separate
