-- ===== src/Searcher/Keys/Kept/Colours.antt =====
-- The functions of the colours keep the ranges of the view.
use demotool.Base.{
  ℕ, zero, suc, ◌+◌, ◌-◌, ◌*◌, ◌/◌, ◌≡◌, ◌∙◌, ap, refl, inl, inr, ◌&&◌, none, some, List, [], ◌∷◌,
  ◌++◌, arith, length-append, length-drop,
}
use demotool.Base.{bit_and, length, set, drop, replicate, Bool-cases, if◌then◌else◌, get_or}
use demotool.Base.Bits.{bit_and-le}
use demotool.Base.Int.{ℤ, pos, negsuc, abs, bits32, ◌+ℤ◌, ◌*ℤ◌}
use demotool.Searcher.Text
use demotool.Searcher.View.{View, init_palette}
use demotool.Searcher.Geometry.{Qualifier}
use demotool.Searcher.Colours.{
  change_key, handle_palette, dec_palette_index, inc_palette_index, read_words, handle_palette_move,
}
use demotool.Searcher.Finder.{
  is_color_move, is_rgb, color_of, Search, start_search, search_loop, read_palette, end_search,
  copper_search,
}
use demotool.Searcher.Keys.Kept.{IsView, Kept, kept, if_Kept, KeptIf, unended, ended}

-- A change of the colours that keeps their number.
colours-IsView :
    (v : View) (pal : List ℕ) → length pal ≡ 35 → IsView v → IsView (record v { pal = pal })
colours-IsView v pal e h = ground arith

length-set {ℓ} : {A : Type ℓ} (xs : List A) (i : ℕ) (x : A) → length (set xs i x) ≡ length xs
length-set [] i x = refl
length-set (y ∷ xs) zero x = refl
length-set (y ∷ xs) (suc i) x = ap suc (length-set xs i x)

pub handle_palette-Kept : (v : View) (key : ℕ) → IsView v → Kept IsView (handle_palette v key)
unfolding handle_palette
handle_palette-Kept v key h =
    elim (change_key key)
      as (λ c. Kept IsView (elim c [
        | none ↦ (v, 0)
        | some change ↦
            (record v { pal = set v.pal v.rgb_idx (change (get_or v.pal v.rgb_idx 0)) }, Text.rgb)
      ])) [
        | none ↦ kept h
        | some change ↦ kept (colours-IsView v _ (length-set v.pal v.rgb_idx _ ∙ h.colours) h)
      ]

index-IsView : (v : View) (n : ℕ) → IsView v → IsView (record v { rgb_idx = bit_and n 0x1f })
index-IsView v n h = let least = bit_and-le n 0x1f in ground arith

pub dec_palette_index-Kept : (v : View) → IsView v → Kept IsView (dec_palette_index v)
unfolding dec_palette_index
dec_palette_index-Kept v h = kept (index-IsView v (bits32 (pos v.rgb_idx +ℤ negsuc 0)) h)

pub inc_palette_index-Kept : (v : View) → IsView v → Kept IsView (inc_palette_index v)
unfolding inc_palette_index
inc_palette_index-Kept v h = kept (index-IsView v (v.rgb_idx + 1) h)

length-read_words :
    (memory : ℕ → ℕ) (mask shft step n pp : ℕ) → length (read_words memory mask shft step n pp) ≡ n
unfolding read_words
length-read_words memory mask shft step zero pp = refl
length-read_words memory mask shft step (suc n) pp =
    ap suc (length-read_words memory mask shft step n (bit_and (pp + step) mask))

-- The colours that are read stand before the last three.
palette-IsView :
    (v : View) (ptr : ℕ) (read : List ℕ)
    → length read ≡ 32
    → IsView v
    → IsView (record v { pal_ptr = ptr; pal = read ++ drop 32 v.pal })
palette-IsView v ptr read e h =
    let all : length (read ++ drop 32 v.pal) ≡ 35 =
      omega (arith, length-append read (drop 32 v.pal), length-drop 32 v.pal, e, h.colours) in
    ground arith

pub handle_palette_move-Kept :
    (memory : ℕ → ℕ) (v : View) (qual : Qualifier) (step : ℤ)
    → IsView v
    → Kept IsView (handle_palette_move memory v qual step)
unfolding handle_palette_move
handle_palette_move-Kept memory v qual step h =
    let step' = if qual.lshift then step *ℤ 2 else step in
    let shft : ℕ = if qual.lshift then 2 else 0 in
    let mask = v.max_chipmem - 1 in
    let pp = bit_and (bits32 (pos v.pal_ptr +ℤ step')) mask in
    let read = read_words memory mask shft (abs step') 32 pp in
    kept (palette-IsView v pp read (length-read_words memory mask shft (abs step') 32 pp) h)

length-read_palette :
    (mem : ℕ → ℕ) (mask n p : ℕ) (pal : List ℕ)
    → length (read_palette mem mask n p pal) ≡ length pal
unfolding read_palette
length-read_palette mem mask zero p pal = refl
length-read_palette mem mask (suc n) p pal =
    let reg = mem p in
    let rgb = mem (p + 1) in
    let next = bit_and (p + 2) mask in
    elim (Bool-cases (is_color_move reg && is_rgb rgb)) [
      | inl e ↦ rw e (
          length-read_palette mem mask n next (set pal (color_of reg) rgb)
          ∙ length-set pal (color_of reg) rgb)
      | inr e ↦ rw e (length-read_palette mem mask n next pal)
    ]

found-IsView :
    (v : View) (ptr status ioerr : ℕ) (pal : List ℕ)
    → length pal ≡ 35
    → IsView v
    → IsView (record v { pal_ptr = ptr; pal = pal; status = status; ioerr = ioerr })
found-IsView v ptr status ioerr pal e h = ground arith

pub end_search-Kept :
    (mem : ℕ → ℕ) (min_num : ℕ) (v : View) (s : Search)
    → IsView v
    → Kept IsView (end_search mem min_num v s)
unfolding end_search
end_search-Kept mem min_num v s h =
    let mask = (v.max_chipmem - 1) / 2 in
    let cleared = replicate 32 0 ++ drop 32 v.pal in
    let pal = read_palette mem mask 32 s.found_pos cleared in
    let all : length cleared ≡ 35 = omega (arith, length-drop 32 v.pal, h.colours) in
    let size : length pal ≡ 35 = length-read_palette mem mask 32 s.found_pos cleared ∙ all in
    if_Kept _ _ _ (kept (found-IsView v (s.found_pos * 2) _ 0 pal size h))
      (kept (found-IsView v v.pal_ptr _ 0 v.pal h.colours h))

pub init_palette-Kept : (v : View) → IsView v → Kept IsView (init_palette v)
unfolding init_palette
init_palette-Kept v h = kept (ground arith)

pub copper_search-Kept :
    (mem : ℕ → ℕ) (v : View) (qual : Qualifier) (min_num : ℕ)
    → IsView v
    → KeptIf IsView (copper_search mem v qual min_num)
unfolding copper_search
copper_search-Kept mem v qual min_num h =
    let mask = (v.max_chipmem - 1) / 2 in
    let s = start_search v qual in
    elim (search_loop mem mask s.current_pos min_num (mask + 1) s)
      as (λ r.
        KeptIf IsView (elim r [ none ↦ none | some s' ↦ some (end_search mem min_num v s') ])) [
          | none ↦ unended
          | some s' ↦ ended (end_search-Kept mem min_num v s' h)
        ]
