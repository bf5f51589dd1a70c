-- ===== src/Searcher/Head/Redrawn/Keys.antt =====
-- Every key of searcher/searcher.c tells what it changed.
use demotool.Base.{
  ℕ, ◌+◌, ◌-◌, ◌*◌, ◌/◌, ◌≡◌, refl, Bool, true, false, Option, none, some, arith, get_or, set,
}
use demotool.Base.{if◌then◌else◌, Bool-cases, inl, inr, ◌==◌}
use demotool.Base.Int.{ℤ, pos, negsuc}
use demotool.Searcher.Text
use demotool.Searcher.Key
use demotool.Searcher.View.{View, init_palette}
use demotool.Searcher.Geometry.{Qualifier}
use demotool.Searcher.Colours.{
  change_key, handle_palette, dec_palette_index, inc_palette_index, handle_palette_move,
}
use demotool.Searcher.Finder.{Search, start_search, search_loop, end_search, copper_search}
use demotool.Searcher.Keys.{geometry_key, plane_key, handle_key, main_key_loop, Outcome}
use demotool.Searcher.Keys.Kept.{IsView}
use demotool.Searcher.Keys.Shown.{Shown, unshown, shown, if_Shown}
use demotool.Searcher.Head.Redrawn.{
  Redrawn, Tells, tells, if_Tells, same-Redrawn, inc_scr_width-Tells, dec_scr_width-Tells,
  set_bplane_lock-Tells, handle_save_as-Tells, set_bplane_height-Tells, handle_bplane_height-Tells,
  dec_bplane_num-Tells, inc_bplane_num-Tells, reset_bplane_addrs-Tells, handle_modulos-Tells,
  handle_bplane_move-Tells, set_chipmem_addr-Tells,
}
use demotool.Searcher.Head.Redrawn.Modes.{
  handle_priority-Tells, handle_display_mode-Tells, set_resolution-Tells,
}

handle_palette-Tells : (v : View) (key : ℕ) → Tells v (handle_palette v key)
unfolding handle_palette
handle_palette-Tells v key =
    elim (change_key key)
      as (λ c. Tells v (elim c [
        | none ↦ (v, 0)
        | some change ↦
            (record v { pal = set v.pal v.rgb_idx (change (get_or v.pal v.rgb_idx 0)) }, Text.rgb)
      ])) [ none ↦ tells (same-Redrawn v 0) | some change ↦ tells (ground arith) ]

dec_palette_index-Tells : (v : View) → Tells v (dec_palette_index v)
unfolding dec_palette_index
dec_palette_index-Tells v = tells (ground arith)

inc_palette_index-Tells : (v : View) → Tells v (inc_palette_index v)
unfolding inc_palette_index
inc_palette_index-Tells v = tells (ground arith)

init_palette-Tells : (v : View) → Tells v (init_palette v)
unfolding init_palette
init_palette-Tells v = tells (ground arith)

handle_palette_move-Tells :
    (memory : ℕ → ℕ) (v : View) (qual : Qualifier) (step : ℤ)
    → Tells v (handle_palette_move memory v qual step)
unfolding handle_palette_move
handle_palette_move-Tells memory v qual step = tells (ground arith)

end_search-Tells :
    (mem : ℕ → ℕ) (min_num : ℕ) (v : View) (s : Search) → Tells v (end_search mem min_num v s)
unfolding end_search
end_search-Tells mem min_num v s = elim (Bool-cases (s.found == min_num)) [
  | inl e ↦ rw e (tells (ground arith))
  | inr e ↦ rw e (tells (ground arith))
]

-- What a switch over keys tells, if it ends.
data TellsIf (v : View) : Option (View × ℕ) → Type 0 where
  untold : TellsIf v none
  told : {r : View × ℕ} → Tells v r → TellsIf v (some r)

if_TellsIf :
    {v : View} (b : Bool) (x y : Option (View × ℕ))
    → TellsIf v x
    → TellsIf v y
    → TellsIf v (if b then x else y)
if_TellsIf true x y h k = h
if_TellsIf false x y h k = k

copper_search-Tells :
    (mem : ℕ → ℕ) (v : View) (qual : Qualifier) (min_num : ℕ)
    → TellsIf v (copper_search mem v qual min_num)
unfolding copper_search
copper_search-Tells mem v qual min_num =
    let mask = (v.max_chipmem - 1) / 2 in
    let s = start_search v qual in
    elim (search_loop mem mask s.current_pos min_num (mask + 1) s)
      as (λ r. TellsIf v (elim r [ none ↦ none | some s' ↦ some (end_search mem min_num v s') ])) [
        | none ↦ untold
        | some s' ↦ told (end_search-Tells mem min_num v s')
      ]

module _ (memory : ℕ → ℕ) where
  geometry_key-Tells :
      (key : ℕ) (qual : Qualifier) (v : View) → IsView v → Tells v (geometry_key memory key qual v)
  unfolding geometry_key
  geometry_key-Tells key qual v h = if_Tells _ _ _ (handle_display_mode-Tells v h) (
      if_Tells _ _ _ (set_bplane_height-Tells v 100) (
        if_Tells _ _ _ (set_bplane_height-Tells v 200) (
          if_Tells _ _ _ (set_bplane_height-Tells v 256) (
            if_Tells _ _ _ (set_bplane_height-Tells v 512) (
              if_Tells _ _ _ (dec_bplane_num-Tells v) (
                if_Tells _ _ _ (inc_bplane_num-Tells v) (
                  if_Tells _ _ _ (dec_scr_width-Tells v) (
                    if_Tells _ _ _ (inc_scr_width-Tells v) (
                      if_Tells _ _ _ (set_resolution-Tells v true) (
                        if_Tells _ _ _ (set_resolution-Tells v false) (
                          if_Tells _ _ _ (handle_priority-Tells v h) (
                            if_Tells _ _ _ (handle_bplane_height-Tells v qual) (
                              if_Tells _ _ _ (handle_save_as-Tells v)
                                (tells (same-Redrawn v 0)))))))))))))))

  plane_key-Tells :
      (key : ℕ) (qual : Qualifier) (v : View) → IsView v → Tells v (plane_key memory key qual v)
  unfolding plane_key
  plane_key-Tells key qual v h = if_Tells _ _ _ (handle_palette-Tells v key) (
      if_Tells _ _ _ (dec_palette_index-Tells v) (
        if_Tells _ _ _ (inc_palette_index-Tells v) (
          if_Tells _ _ _ (set_bplane_lock-Tells v (key - Key.digit_1)) (
            if_Tells _ _ _ (reset_bplane_addrs-Tells v (get_or v.bpl_ptr 0 0)) (
              if_Tells _ _ _ (reset_bplane_addrs-Tells v 0) (
                if_Tells _ _ _ (init_palette-Tells v) (
                  if_Tells _ _ _ (handle_palette_move-Tells memory v qual (negsuc 1)) (
                    if_Tells _ _ _ (handle_palette_move-Tells memory v qual (pos 2)) (
                      if_Tells _ _ _ (handle_bplane_move-Tells v key qual) (
                        if_Tells _ _ _ (set_chipmem_addr-Tells v key) (
                          if_Tells _ _ _ (handle_modulos-Tells v key qual)
                            (geometry_key-Tells key qual v h))))))))))))

  handle_key-Tells :
      (key : ℕ) (qual : Qualifier) (v : View) → IsView v → TellsIf v (handle_key memory key qual v)
  unfolding handle_key
  handle_key-Tells key qual v h =
      if_TellsIf _ _ _ (copper_search-Tells (λ i. memory (i * 2)) v qual 4) (
        if_TellsIf _ _ _ (copper_search-Tells (λ i. memory (i * 2)) v qual 8)
          (told (plane_key-Tells key qual v h)))

  after_told :
      {v : View} (r : Option (View × ℕ)) (f : View → ℕ → Outcome)
      → ((w : View) (u : ℕ) → ((f w u).view ≡ w) × ((f w u).update ≡ u))
      → TellsIf v r
      → Shown
          (λ o. Redrawn v o.view o.update)
          (elim r [ none ↦ none | some (v', update) ↦ some (f v' update) ])
  after_told none f e k = unshown
  after_told {v} (some (w, u)) f e (told (tells h)) = shown (rw ((e w u).0, (e w u).1) h)

  -- A key draws all texts of what it changed.
  pub main_key_loop-Redrawn :
      (key : ℕ) (qual : Qualifier) (onoff : Bool) (v : View)
      → IsView v
      → Shown (λ o. Redrawn v o.view o.update) (main_key_loop memory key qual onoff v)
  unfolding main_key_loop
  main_key_loop-Redrawn key qual onoff v h =
      if_Shown _ _ _ (shown (same-Redrawn v 0))
        (after_told _ _ (λ w u. (refl, refl)) (handle_key-Tells key qual v h))
