-- ===== src/Searcher/Finder/Ends.antt =====
-- The search for a palette ends: it goes round the chip memory once at most.
use demotool.Base.{
  subst, sym, ℕ, zero, suc, ◌+◌, ◌-◌, ◌/◌, ◌%◌, ◌<◌, ◌≤◌, ◌≡◌, ◌∙◌, ◌⊎◌, ap, refl, inl, inr, Bool,
  true, false, not, ◌&&◌, Option, none, some, arith,
}
use demotool.Base.{bit_and, Bool-cases, ltb, ◌==◌, if◌then◌else◌}
use demotool.Base.Bits.{low_ones, and_low_ones, bit_and-le}
use native.Mathlib.Nat.{mod-lt, mod-eq_of_lt, mod_self}
use demotool.Searcher.View.{View}
use demotool.Searcher.Geometry.{Qualifier}
use demotool.Searcher.Finder.{
  Search, at_move, at_rgb, search_step, search_loop, start_search, end_search, copper_search,
}

-- The part of the body that looks at a word leaves the position.
at_move-current_pos : (reg : ℕ) (s : Search) → (at_move reg s).current_pos ≡ s.current_pos
unfolding at_move
at_move-current_pos reg s = ground arith

at_rgb-current_pos : (rgb : ℕ) (s : Search) → (at_rgb rgb s).current_pos ≡ s.current_pos
unfolding at_rgb
at_rgb-current_pos rgb s = ground arith

if_current_pos :
    (b : Bool) (x y : Search) {n : ℕ}
    → x.current_pos ≡ n
    → y.current_pos ≡ n
    → (if b then x else y).current_pos ≡ n
if_current_pos true x y p q = p
if_current_pos false x y p q = q

-- The search goes on, or it has ended.
ends_if :
    (b : Bool) (next : Option Search) (s : Search)
    → (b ≡ true → (s' : Search) × (next ≡ some s'))
    → (s' : Search) × ((if b then next else some s) ≡ some s')
ends_if true next s h = h refl
ends_if false next s h = (s, refl)

module _ (mem : ℕ → ℕ) (k : ℕ) where
  abbrev mask : ℕ
  mask = low_ones (suc k)

  pub search_step-current_pos :
      (s : Search) → (search_step mem mask s).current_pos ≡ (s.current_pos + 1) % (mask + 1)
  unfolding search_step
  search_step-current_pos s =
      ap (λ n. bit_and (n + 1) mask)
        (if_current_pos s.move _ _ (at_move-current_pos (mem s.current_pos) s)
          (at_rgb-current_pos (mem s.current_pos) s))
      ∙ and_low_ones k (s.current_pos + 1)

  -- The next word, or the first one after the last one.
  next_pos :
      (n : ℕ)
      → n ≤ mask
      → ((n + 1) % (mask + 1) ≡ n + 1) × (n < mask) ⊎ ((n + 1) % (mask + 1) ≡ 0) × (n ≡ mask)
  next_pos n h = elim (Bool-cases (ltb n mask)) [
    | inl e ↦
        let less : n < mask = ground (arith, e) in inl (mod-eq_of_lt (omega (arith, less)), less)
    | inr e ↦ let last : n ≡ mask = ground (arith, e) in inr (rw last (mod_self (mask + 1)), last)
  ]

  -- `fuel + 1` words are left until the end is reached.
  abbrev IsLeft : ℕ → ℕ → ℕ → Type 0
  IsLeft fuel end_pos pos = (pos + suc fuel ≡ end_pos) ⊎ (pos + suc fuel ≡ end_pos + mask + 1)

  step-IsLeft :
      (fuel end_pos pos : ℕ)
      → pos ≤ mask
      → end_pos ≤ mask
      → IsLeft (suc fuel) end_pos pos
      → IsLeft fuel end_pos ((pos + 1) % (mask + 1))
  step-IsLeft fuel end_pos pos p q left = elim (next_pos pos p) [
    | inl (e, less) ↦
        rw e (elim left [ inl l ↦ inl (omega (arith, l)) | inr r ↦ inr (omega (arith, r)) ])
    | inr (e, last) ↦ rw e (elim left [
      | inl l ↦ absurd (omega (arith, l, last))
      | inr r ↦ inl (omega (arith, r, last))
    ])
  ]

  last-IsLeft :
      (end_pos pos : ℕ)
      → pos ≤ mask
      → end_pos ≤ mask
      → IsLeft zero end_pos pos
      → (pos + 1) % (mask + 1) ≡ end_pos
  last-IsLeft end_pos pos p q left = elim (next_pos pos p) [
    | inl (e, less) ↦ elim left [
      | inl l ↦ omega (arith, e, l)
      | inr r ↦ absurd (omega (arith, r, less))
    ]
    | inr (e, last) ↦ elim left [
      | inl l ↦ absurd (omega (arith, l, last))
      | inr r ↦ omega (arith, e, r, last)
    ]
  ]

  search_loop-ends :
      (fuel end_pos min_num : ℕ) (s : Search)
      → s.current_pos ≤ mask
      → end_pos ≤ mask
      → IsLeft fuel end_pos s.current_pos
      → (s' : Search) × (search_loop mem mask end_pos min_num (suc fuel) s ≡ some s')
  unfolding search_loop
  search_loop-ends zero end_pos min_num s p q left =
      let at_end = search_step-current_pos s ∙ last-IsLeft end_pos s.current_pos p q left in
      ends_if
        (not ((search_step mem mask s).current_pos == end_pos)
          && ltb (search_step mem mask s).found min_num)
        none (search_step mem mask s) (λ e. absurd (ground (arith, e, at_end)))
  search_loop-ends (suc fuel) end_pos min_num s p q left =
      let s' = search_step mem mask s in
      let e = search_step-current_pos s in
      let left' : IsLeft fuel end_pos s'.current_pos =
        subst (IsLeft fuel end_pos) (sym e) (step-IsLeft fuel end_pos s.current_pos p q left) in
      let p' : s'.current_pos ≤ mask =
        omega (arith, e, mod-lt (s.current_pos + 1) {m = mask + 1} (omega arith)) in
      ends_if _ _ _ (λ more. search_loop-ends fuel end_pos min_num s' p' q left')

-- A round of the whole memory ends at the start.
search_loop-round :
    (mem : ℕ → ℕ) (k mask min_num : ℕ) (s : Search)
    → mask ≡ low_ones (suc k)
    → s.current_pos ≤ mask
    → (s' : Search) × (search_loop mem mask s.current_pos min_num (mask + 1) s ≡ some s')
search_loop-round mem k mask min_num s e p =
    let rounds : mask + 1 ≡ suc (low_ones (suc k)) = omega (arith, e) in
    let start : s.current_pos ≤ low_ones (suc k) = omega (arith, p, e) in
    rw (rounds, e)
      (search_loop-ends mem k (low_ones (suc k)) s.current_pos min_num s start start
        (inr (omega arith)))

pub start_search-current_pos :
    (v : View) (qual : Qualifier) → (start_search v qual).current_pos ≤ (v.max_chipmem - 1) / 2
unfolding start_search
start_search-current_pos v qual =
    let pos = v.pal_ptr / 2 in
    let step : ℕ = if qual.lshift then 32 else 1 in
    let least = bit_and-le (pos + step) ((v.max_chipmem - 1) / 2) in ground (arith, least)

-- Where the chip memory is a power of two, the search ends, whatever the memory holds and wherever it
-- starts.
pub copper_search-ends :
    (mem : ℕ → ℕ) (v : View) (qual : Qualifier) (min_num k : ℕ)
    → (v.max_chipmem - 1) / 2 ≡ low_ones (suc k)
    → (r : View × ℕ) × (copper_search mem v qual min_num ≡ some r)
unfolding copper_search
copper_search-ends mem v qual min_num k e =
    let s = start_search v qual in
    let pos = start_search-current_pos v qual in
    let found = search_loop-round mem k ((v.max_chipmem - 1) / 2) min_num s e pos in
    let (s', ended) = found in
    (
      end_search mem min_num v s',
      ap (λ r. elim r [ none ↦ none | some s' ↦ some (end_search mem min_num v s') ]) ended,
    )
