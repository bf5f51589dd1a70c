-- ===== src/Searcher/Keys.antt =====
-- `main_key_loop` of searcher/searcher.c: what a key does to the view.
pub mod Kept
pub mod Shown
pub mod Reach
pub mod Copper
pub mod Ends
use demotool.Base.{ℕ, ◌+◌, ◌-◌, ◌*◌, Bool, true, false, not, ◌&&◌, ◌||◌, Option, none, some}
use demotool.Base.{bit_or, bit_and, ltb, ◌==◌, if◌then◌else◌, get_or}
use demotool.Base.Int.{pos, negsuc}
use demotool.Searcher.Text
use demotool.Searcher.Key
use demotool.Searcher.View.{View, init_palette}
use demotool.Searcher.Geometry.{Qualifier, inc_scr_width, dec_scr_width, set_bplane_lock}
use demotool.Searcher.Geometry.{handle_display_mode, handle_save_as, set_bplane_height}
use demotool.Searcher.Geometry.{
  handle_bplane_height, dec_bplane_num, inc_bplane_num, set_resolution,
}
use demotool.Searcher.Geometry.{handle_priority}
use demotool.Searcher.Planes.{
  reset_bplane_addrs, handle_bplane_move, set_chipmem_addr, handle_modulos,
}
use demotool.Searcher.Colours.{handle_palette, dec_palette_index, inc_palette_index}
use demotool.Searcher.Colours.{handle_palette_move}
use demotool.Searcher.Finder.{copper_search}

-- What main_key_loop does: whether the program ends, the view and whether the numbers of the colours
-- are to be switched on by the next key for it, the texts to draw, whether the copper list is set up
-- again, and whether the gadget for a file's name is switched on.
pub record Outcome : Type 0 where
  pub quit : Bool
  pub view : View
  pub onoff : Bool
  pub update : ℕ
  pub copper : Bool
  pub gadget : Bool

-- `update & TEXT_COPPER_MASK`. The macro has no parentheses, so only its first bit is masked.
unfoldable pub copper_mask : ℕ → ℕ
copper_mask update = bit_or (bit_and update Text.modeven) (
    bit_or Text.mododd (
      bit_or Text.display (
        bit_or Text.priority
          (bit_or Text.bplanes (bit_or Text.reso (bit_or Text.bpladdrs Text.rgb_change))))))

module _ (memory : ℕ → ℕ) where
  -- The keys of the numeric pad that change a colour.
  abbrev pub is_palette_key : ℕ → Bool
  is_palette_key key =
      key == Key.np_0
      || (key == Key.np_1
          || (key == Key.np_2
              || (key == Key.np_3
                  || (key == Key.np_4
                      || (key == Key.np_5
                          || (key == Key.np_6
                              || (key == Key.np_7 || (key == Key.np_8 || key == Key.np_9))))))))

  -- The keys of the size and of the mode.
  unfoldable pub geometry_key : ℕ → Qualifier → View → View × ℕ
  geometry_key key qual v =
      if key == Key.f1
      then handle_display_mode v
      else if key == Key.f2
      then set_bplane_height v 100
      else if key == Key.f3
      then set_bplane_height v 200
      else if key == Key.f4
      then set_bplane_height v 256
      else if key == Key.f5
      then set_bplane_height v 512
      else if key == Key.minus
      then dec_bplane_num v
      else if key == Key.equal
      then inc_bplane_num v
      else if key == Key.lbra
      then dec_scr_width v
      else if key == Key.rbra
      then inc_scr_width v
      else if key == Key.h
      then set_resolution v true
      else if key == Key.l
      then set_resolution v false
      else if key == Key.p
      then handle_priority v
      else if key == Key.f6
      then handle_bplane_height v qual
      else if key == Key.f7
      then handle_save_as v
      else (v, 0)

  -- The keys of the planes and of the colours; the others are those of the size.
  unfoldable pub plane_key : ℕ → Qualifier → View → View × ℕ
  unfolding geometry_key
  plane_key key qual v =
      if is_palette_key key
      then handle_palette v key
      else if key == Key.np_minus
      then dec_palette_index v
      else if key == Key.np_enter
      then inc_palette_index v
      else if ltb 0 key && ltb key 8
      then set_bplane_lock v (key - Key.digit_1)
      else if key == Key.digit_8
      then reset_bplane_addrs v (get_or v.bpl_ptr 0 0)
      else if key == Key.digit_0
      then reset_bplane_addrs v 0
      else if key == Key.d
      then init_palette v
      else if key == Key.v
      then handle_palette_move memory v qual (negsuc 1)
      else if key == Key.b
      then handle_palette_move memory v qual (pos 2)
      else if key == Key.up || (key == Key.down || (key == Key.left || key == Key.right))
      then handle_bplane_move v key qual
      else if key == Key.f8 || key == Key.f9
      then set_chipmem_addr v key
      else if key == Key.n
          || (key == Key.m || (key == Key.comma || (key == Key.fstop || key == Key.slash)))
      then handle_modulos v key qual
      else geometry_key key qual v

  -- The switch over the keys that change the view; `none` where the search for a palette has not
  -- ended. The search reads words by their numbers.
  unfoldable pub handle_key : ℕ → Qualifier → View → Option (View × ℕ)
  unfolding plane_key
  handle_key key qual v =
      let word = λ (i : ℕ). memory (i * 2) in
      if key == Key.x
      then copper_search word v qual 4
      else if key == Key.c
      then copper_search word v qual 8
      else some (plane_key key qual v)

  unfoldable pub main_key_loop : ℕ → Qualifier → Bool → View → Option Outcome
  unfolding handle_key copper_mask
  main_key_loop key qual onoff v =
      if key == Key.f10
      then some (record {
        quit = true;
        view = v;
        onoff = onoff;
        update = 0;
        copper = false;
        gadget = false;
      })
      else elim (handle_key key qual v) [
        | none ↦ none
        | some (v', update) ↦ some (record {
          quit = false;
          view = v';
          onoff = if key == Key.np_fs then not onoff else onoff;
          update = update;
          copper = not (copper_mask update == 0);
          gadget = key == Key.tab;
        })
      ]
