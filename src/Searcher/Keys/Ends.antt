-- ===== src/Searcher/Keys/Ends.antt =====
-- Every key of searcher/searcher.c comes to an end.
use demotool.Base.{ℕ, suc, ◌-◌, ◌*◌, ◌/◌, ◌≡◌, Bool, true, false, Option, none, some}
use demotool.Base.{◌==◌, if◌then◌else◌}
use demotool.Base.Bits.{low_ones}
use demotool.Searcher.Key
use demotool.Searcher.View.{View}
use demotool.Searcher.Geometry.{Qualifier}
use demotool.Searcher.Finder.Ends.{copper_search-ends}
use demotool.Searcher.Keys.{Outcome, plane_key, handle_key, main_key_loop}

-- There is a result.
pub data Ends {ℓ} (A : Type ℓ) : Option A → Type ℓ where
  ends : {a : A} → Ends A (some a)

if_Ends {ℓ} :
    {A : Type ℓ} (b : Bool) (x y : Option A) → Ends A x → Ends A y → Ends A (if b then x else y)
if_Ends true x y h k = h
if_Ends false x y h k = k

of_some {ℓ} : {A : Type ℓ} {x : Option A} → (a : A) × (x ≡ some a) → Ends A x
of_some (a, e) = rw e ends

then_Ends :
    (x : Option (View × ℕ)) (f : View → ℕ → Outcome)
    → Ends (View × ℕ) x
    → Ends Outcome (elim x [ none ↦ none | some (v, update) ↦ some (f v update) ])
then_Ends none f h = elim h [ ]
then_Ends (some (v, update)) f h = ends

module _ (memory : ℕ → ℕ) where
  -- Where the chip memory is a power of two, every key has an outcome.
  pub main_key_loop-Ends :
      (key : ℕ) (qual : Qualifier) (onoff : Bool) (v : View) (k : ℕ)
      → (v.max_chipmem - 1) / 2 ≡ low_ones (suc k)
      → Ends Outcome (main_key_loop memory key qual onoff v)
  unfolding main_key_loop handle_key
  main_key_loop-Ends key qual onoff v k e =
      let word = λ (i : ℕ). memory (i * 2) in
      let keys = if_Ends (key == Key.x) _ _ (of_some (copper_search-ends word v qual 4 k e)) (
        if_Ends (key == Key.c) _ _ (of_some (copper_search-ends word v qual 8 k e))
          (ends {a = plane_key memory key qual v})) in
      if_Ends (key == Key.f10) _ _ ends (then_Ends _ _ keys)
