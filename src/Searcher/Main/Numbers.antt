-- ===== src/Searcher/Main/Numbers.antt =====
-- The numbers of the colours are drawn to the left of the header.
use demotool.Base.{ℕ, zero, suc, ◌+◌, ◌*◌, ◌≤◌, ◌≡◌, refl, arith, none, List, [], ◌∷◌}
use demotool.Base.{Bool, false, inl, inr, Bool-cases, ◌==◌, All}
use demotool.Searcher.Head.{Drawn, colour_numbers, update_pal_texts}
use demotool.Searcher.Main.Seen.{seen, covers}

-- A text that ends before the header begins.
IsLeft : Drawn → Type 0
IsLeft d = d.x + 8 * d.count ≤ 206

colour_numbers-IsLeft : (on : Bool) (x y i n : ℕ) → x ≤ 7 → All IsLeft (colour_numbers on x y i n)
unfolding colour_numbers IsLeft
colour_numbers-IsLeft on x y i zero h = tt
colour_numbers-IsLeft on x y i (suc n) h = elim (Bool-cases (x == 7)) [
  | inl e ↦ rw e (omega arith, colour_numbers-IsLeft on 1 (y + 1) (i + 1) n (omega arith))
  | inr e ↦
      let less : x ≤ 6 = ground (arith, e, h) in
      rw e (omega (arith, less), colour_numbers-IsLeft on (x + 1) y (i + 1) n (omega (arith, less)))
]

seen-left : (x y : ℕ) (ds : List Drawn) → 206 ≤ x → All IsLeft ds → seen x y ds ≡ none
unfolding seen IsLeft
seen-left x y [] h l = refl
seen-left x y (d ∷ ds) h (l, ls) =
    let beside : covers x y d ≡ false = ground (arith, l, h) in
    rw (beside, seen-left x y ds h ls) refl

pub seen-update_pal_texts : (x y : ℕ) (on : Bool) → 206 ≤ x → seen x y (update_pal_texts on) ≡ none
unfolding update_pal_texts
seen-update_pal_texts x y on h =
    seen-left x y (colour_numbers on 0 0 0 32) h (colour_numbers-IsLeft on 0 0 0 32 (omega arith))
