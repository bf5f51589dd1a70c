-- ===== src/Searcher/Finder/Found.antt =====
-- What the search for a palette has found.
use demotool.Base.{
  subst, ℕ, suc, ◌+◌, ◌-◌, ◌*◌, ◌/◌, ◌≡◌, ◌⊎◌, refl, inl, inr, Bool, true, false, Option, none,
  some, arith,
}
use demotool.Base.{◌==◌, if◌then◌else◌}
use demotool.Base.Bits.{low_ones}
use mathlib.Core.Option.{some-injective}
use demotool.Searcher.View.{View, idx_status_palette, idx_status_notfound}
use demotool.Searcher.Geometry.{Qualifier}
use demotool.Searcher.Finder.{Search, start_search, end_search, copper_search}
use demotool.Searcher.Finder.Ends.{start_search-current_pos}
use demotool.Searcher.Finder.Finding.{IsPalette, IsFinding, search_loop-IsPalette}

start_search-IsFinding :
    (mem : ℕ → ℕ) (v : View) (qual : Qualifier)
    → IsFinding mem ((v.max_chipmem - 1) / 2 + 1) (start_search v qual)
unfolding start_search
start_search-IsFinding mem v qual =
    let p = start_search-current_pos v qual in
    record {
      below = omega (arith, p);
      palette = λ i less. absurd (omega (arith, less));
      behind = λ e less. absurd (omega (arith, less));
      register = λ e. absurd (ground (arith, e));
    }

-- The palette that the view has now is that of `min_num` colours, or none was found.
abbrev Finds : (ℕ → ℕ) → ℕ → View → View × ℕ → Type 0
Finds mem min_num v (v', update) =
    (v'.status ≡ idx_status_palette)
      × IsPalette mem ((v.max_chipmem - 1) / 2 + 1) (v'.pal_ptr / 2) min_num
    ⊎ (v'.status ≡ idx_status_notfound) × (v'.pal_ptr ≡ v.pal_ptr) × (v'.pal ≡ v.pal)

if_Finds :
    (P : View × ℕ → Type 0) (b : Bool) (x y : View × ℕ)
    → (b ≡ true → P x)
    → P y
    → P (if b then x else y)
if_Finds P true x y h k = h refl
if_Finds P false x y h k = k

of_search :
    (P : View × ℕ → Type 0) (found : Option Search) (f : Search → View × ℕ) {r : View × ℕ}
    → ((s : Search) → found ≡ some s → P (f s))
    → elim found [ none ↦ none | some s ↦ some (f s) ] ≡ some r
    → P r
of_search P none f h e = absurd (ground (arith, e))
of_search P (some s) f h e = subst P (some-injective _ _ e) (h s refl)

end_search-Finds :
    (mem : ℕ → ℕ) (min_num : ℕ) (v : View) (s : Search)
    → IsPalette mem ((v.max_chipmem - 1) / 2 + 1) s.found_pos s.found
    → Finds mem min_num v (end_search mem min_num v s)
unfolding end_search
end_search-Finds mem min_num v s h =
    let size = (v.max_chipmem - 1) / 2 + 1 in
    if_Finds (Finds mem min_num v) (s.found == min_num) _ _
      (λ e. inl (
        refl,
        let count : s.found ≡ min_num = ground (arith, e) in
            let address : s.found_pos * 2 / 2 ≡ s.found_pos = omega arith in
            rw address (subst (IsPalette mem size s.found_pos) count h),
      ))
      (inr (refl, refl, refl))

-- Where the chip memory is a power of two, a search that says that it has found a palette has set
-- the address of the palette to that of `min_num` copper moves of a colour to its register, one
-- behind the other, round the memory; any other search leaves the palette and its address.
pub copper_search-Finds :
    (mem : ℕ → ℕ) (v : View) (qual : Qualifier) (min_num k : ℕ) (v' : View) (update : ℕ)
    → (v.max_chipmem - 1) / 2 ≡ low_ones (suc k)
    → copper_search mem v qual min_num ≡ some (v', update)
    → (v'.status ≡ idx_status_palette)
        × IsPalette mem ((v.max_chipmem - 1) / 2 + 1) (v'.pal_ptr / 2) min_num
      ⊎ (v'.status ≡ idx_status_notfound) × (v'.pal_ptr ≡ v.pal_ptr) × (v'.pal ≡ v.pal)
unfolding copper_search
copper_search-Finds mem v qual min_num k v' update m e =
    let mask = (v.max_chipmem - 1) / 2 in
    let s = start_search v qual in
    of_search (Finds mem min_num v) _ _
      (λ s' found. end_search-Finds mem min_num v s' (
        search_loop-IsPalette mem k mask min_num (mask + 1) s.current_pos s s' m
          (start_search-IsFinding mem v qual) found))
      e
