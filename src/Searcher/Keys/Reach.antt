-- ===== src/Searcher/Keys/Reach.antt =====
-- The ranges of the view, whatever keys are pressed.
use demotool.Base.{subst, sym, ℕ, ◌-◌, ◌*◌, ◌≡◌, refl, Bool, true, false, Option, none, some, arith}
use demotool.Base.{get_or}
use demotool.Base.Int.{pos, negsuc}
use demotool.Searcher.Key
use demotool.Searcher.View.{View, init_cop_cfg}
use demotool.Searcher.Geometry.{Qualifier}
use demotool.Searcher.Keys.{geometry_key, plane_key, handle_key, main_key_loop, Outcome}
use demotool.Searcher.Keys.Shown.{Shown, unshown, shown, if_Shown, of_Shown}
use demotool.Searcher.Keys.Kept.{
  IsView, Kept, kept, if_Kept, KeptIf, ended, if_KeptIf, inc_scr_width-Kept, dec_scr_width-Kept,
  set_bplane_lock-Kept, handle_save_as-Kept, set_bplane_height-Kept, handle_bplane_height-Kept,
  dec_bplane_num-Kept, inc_bplane_num-Kept, handle_display_mode-Kept, set_resolution-Kept,
  handle_priority-Kept,
}
use demotool.Searcher.Keys.Kept.Planes.{
  set_chipmem_addr-Kept, handle_modulos-Kept, reset_bplane_addrs-Kept, handle_bplane_move-Kept,
}
use demotool.Searcher.Keys.Kept.Colours.{
  handle_palette-Kept, dec_palette_index-Kept, inc_palette_index-Kept, handle_palette_move-Kept,
  init_palette-Kept, copper_search-Kept,
}

after_Shown :
    (r : Option (View × ℕ)) (f : View → ℕ → Outcome)
    → ((v : View) (u : ℕ) → (f v u).view ≡ v)
    → KeptIf IsView r
    → Shown (λ o. IsView o.view) (elim r [ none ↦ none | some (v, update) ↦ some (f v update) ])
after_Shown none f e k = unshown
after_Shown (some (v, update)) f e (ended (kept h)) = shown (subst IsView (sym (e v update)) h)

module _ (memory : ℕ → ℕ) where
  geometry_key-Kept :
      (key : ℕ) (qual : Qualifier) (v : View)
      → IsView v
      → Kept IsView (geometry_key memory key qual v)
  unfolding geometry_key
  geometry_key-Kept key qual v h = if_Kept _ _ _ (handle_display_mode-Kept v h) (
      if_Kept _ _ _ (set_bplane_height-Kept v 100 (omega arith) (omega arith) h) (
        if_Kept _ _ _ (set_bplane_height-Kept v 200 (omega arith) (omega arith) h) (
          if_Kept _ _ _ (set_bplane_height-Kept v 256 (omega arith) (omega arith) h) (
            if_Kept _ _ _ (set_bplane_height-Kept v 512 (omega arith) (omega arith) h) (
              if_Kept _ _ _ (dec_bplane_num-Kept v h) (
                if_Kept _ _ _ (inc_bplane_num-Kept v h) (
                  if_Kept _ _ _ (dec_scr_width-Kept v h) (
                    if_Kept _ _ _ (inc_scr_width-Kept v h) (
                      if_Kept _ _ _ (set_resolution-Kept v true h) (
                        if_Kept _ _ _ (set_resolution-Kept v false h) (
                          if_Kept _ _ _ (handle_priority-Kept v h) (
                            if_Kept _ _ _ (handle_bplane_height-Kept v qual h)
                              (if_Kept _ _ _ (handle_save_as-Kept v h) (kept h))))))))))))))

  plane_key-Kept :
      (key : ℕ) (qual : Qualifier) (v : View) → IsView v → Kept IsView (plane_key memory key qual v)
  unfolding plane_key
  plane_key-Kept key qual v h = if_Kept _ _ _ (handle_palette-Kept v key h) (
      if_Kept _ _ _ (dec_palette_index-Kept v h) (
        if_Kept _ _ _ (inc_palette_index-Kept v h) (
          if_Kept _ _ _ (set_bplane_lock-Kept v (key - Key.digit_1) h) (
            if_Kept _ _ _ (reset_bplane_addrs-Kept v (get_or v.bpl_ptr 0 0) h) (
              if_Kept _ _ _ (reset_bplane_addrs-Kept v 0 h) (
                if_Kept _ _ _ (init_palette-Kept v h) (
                  if_Kept _ _ _ (handle_palette_move-Kept memory v qual (negsuc 1) h) (
                    if_Kept _ _ _ (handle_palette_move-Kept memory v qual (pos 2) h) (
                      if_Kept _ _ _ (handle_bplane_move-Kept v key qual h) (
                        if_Kept _ _ _ (set_chipmem_addr-Kept v key h) (
                          if_Kept _ _ _ (handle_modulos-Kept v key qual h)
                            (geometry_key-Kept key qual v h))))))))))))

  handle_key-Kept :
      (key : ℕ) (qual : Qualifier) (v : View)
      → IsView v
      → KeptIf IsView (handle_key memory key qual v)
  unfolding handle_key
  handle_key-Kept key qual v h =
      if_KeptIf _ _ _ (copper_search-Kept (λ i. memory (i * 2)) v qual 4 h) (
        if_KeptIf _ _ _ (copper_search-Kept (λ i. memory (i * 2)) v qual 8 h)
          (ended (plane_key-Kept key qual v h)))

  pub main_key_loop-Shown :
      (key : ℕ) (qual : Qualifier) (onoff : Bool) (v : View)
      → IsView v
      → Shown (λ o. IsView o.view) (main_key_loop memory key qual onoff v)
  unfolding main_key_loop
  main_key_loop-Shown key qual onoff v h =
      if_Shown _ _ _ (shown h) (after_Shown _ _ (λ v u. refl) (handle_key-Kept key qual v h))

  -- The states of the program after some keys, while the memory stays what it is.
  pub data Reach (max_loc_mem : ℕ) : Bool → View → Type 0 where
    start : Reach max_loc_mem true (init_cop_cfg max_loc_mem)
    press :
        {onoff : Bool} {v : View} (key : ℕ) (qual : Qualifier) (o : Outcome)
        → Reach max_loc_mem onoff v
        → main_key_loop memory key qual onoff v ≡ some o
        → Reach max_loc_mem o.onoff o.view

  -- Whatever keys are pressed from the start on, the numbers of the view lie in their ranges.
  pub Reach-IsView :
      (max_loc_mem : ℕ) {onoff : Bool} {v : View} → Reach max_loc_mem onoff v → IsView v
  unfolding init_cop_cfg
  Reach-IsView max_loc_mem start = ground arith
  Reach-IsView max_loc_mem (press {onoff} {v} key qual o r e) =
      of_Shown (main_key_loop-Shown key qual onoff v (Reach-IsView max_loc_mem r)) e
