-- ===== src/Searcher/Keys/Copper.antt =====
-- When `main_key_loop` sets up the copper list.
use demotool.Base.{ℕ, ◌<◌, ◌≡◌, refl, Bool, true, false, Option, none, some, arith}
use demotool.Base.{bit_or, bit_and, ◌==◌}
use demotool.Base.Bits.{bit_or-ge}
use demotool.Searcher.Key
use demotool.Searcher.Text
use demotool.Searcher.View.{View}
use demotool.Searcher.Geometry.{Qualifier}
use demotool.Searcher.Keys.Shown.{Shown, unshown, shown, of_Shown}
use demotool.Searcher.Keys.{Outcome, copper_mask, handle_key, main_key_loop}

-- The mask without its parentheses is never 0.
copper_mask-positive : (update : ℕ) → 0 < copper_mask update
unfolding copper_mask
copper_mask-positive update = omega (
  arith,
  bit_or-ge (bit_and update Text.modeven) (
      bit_or Text.mododd (
        bit_or Text.display (
          bit_or Text.priority
            (bit_or Text.bplanes (bit_or Text.reso (bit_or Text.bpladdrs Text.rgb_change)))))),
)

-- The program goes on, with the copper list set up.
abbrev GoesOn : Outcome → Type 0
GoesOn o = (o.quit ≡ false) × (o.copper ≡ true)

after_key :
    (r : Option (View × ℕ)) (f : View → ℕ → Outcome)
    → ((v : View) (u : ℕ) → GoesOn (f v u))
    → Shown GoesOn (elim r [ none ↦ none | some (v, update) ↦ some (f v update) ])
after_key none f h = unshown
after_key (some (v, update)) f h = shown (h v update)

-- A key that is not F10 does not end the program, and it sets up the copper list whatever it has
-- changed.
pub main_key_loop-copper :
    (memory : ℕ → ℕ) (key : ℕ) (qual : Qualifier) (onoff : Bool) (v : View) (o : Outcome)
    → (key == Key.f10) ≡ false
    → main_key_loop memory key qual onoff v ≡ some o
    → (o.quit ≡ false) × (o.copper ≡ true)
unfolding main_key_loop
main_key_loop-copper memory key qual onoff v o other e =
    of_Shown {P = GoesOn}
      (rw other (
        after_key (handle_key memory key qual v) _
          (λ v' update. (refl, let p = copper_mask-positive update in ground arith))))
      e
