-- ===== src/Searcher/Main.antt =====
-- `main` of searcher/searcher.c: the messages of the window, what they do to the view, and what is
-- drawn above the picture.
pub mod Seen
pub mod Places
pub mod Parts
pub mod Numbers
pub mod Saved
pub mod Shows
use demotool.Base.{ℕ, Bool, true, false, ◌&&◌, Option, none, some, List, [], ◌∷◌, ◌++◌}
use demotool.Base.{◌==◌, if◌then◌else◌}
use demotool.Searcher.Text
use demotool.Searcher.Key
use demotool.Searcher.View.{View, init_cop_cfg}
use demotool.Searcher.Geometry.{Qualifier}
use demotool.Searcher.File.{Dos, File}
use demotool.Searcher.Ilbm.{ViewModes}
use demotool.Searcher.Save.{handle_filesave}
use demotool.Searcher.Keys.{Outcome, main_key_loop}
use demotool.Searcher.Head.{Drawn, update_head_texts, update_pal_texts}

-- The bits of `~0`.
abbrev pub everything : ℕ
everything = 0xffff_ffff

-- A message of the window: a key with its qualifiers; the gadget for a file's name, with the handle
-- or NULL, what the two calls of Open return, and the name; or another one.
pub data Message : Type 0 where
  raw_key : ℕ → Qualifier → Message
  gadget_up : Option File → ℕ → ℕ → List ℕ → Message
  other_message : Message

-- The state of the program: whether it is to end, whether the next key for it switches the numbers
-- of the colours on, the view, and what has been drawn.
pub record Session : Type 0 where
  pub done : Bool
  pub onoff : Bool
  pub view : View
  pub drawn : List Drawn

-- The window is open and the header drawn.
unfoldable pub start_session : ℕ → Session
start_session max_loc_mem = record {
  done = false;
  onoff = true;
  view = init_cop_cfg max_loc_mem;
  drawn = update_head_texts true everything (init_cop_cfg max_loc_mem);
}

-- What a key draws.
unfoldable pub key_texts : ℕ → Bool → Outcome → List Drawn
key_texts key onoff o =
    (if key == Key.np_fs then update_pal_texts onoff else [])
    ++ (if o.update == 0 then [] else update_head_texts false o.update o.view)

module _ (memory : ℕ → ℕ) (dos : Dos) (modes : ViewModes) where
  -- The body of the inner loop; `none` where the search for a palette has not ended.
  -- handle_filesave gives no key, and draws the status.
  unfoldable pub handle_message : Message → Session → Option Session
  unfolding key_texts
  handle_message (raw_key key qual) s = elim (main_key_loop memory key qual s.onoff s.view) [
    | none ↦ none
    | some o ↦ some (record {
      done = o.quit;
      onoff = o.onoff;
      view = o.view;
      drawn = s.drawn ++ key_texts key s.onoff o;
    })
  ]
  handle_message (gadget_up new handle1 handle2 tmp_name) s =
      let v = (handle_filesave dos modes memory new handle1 handle2 tmp_name s.view).0 in
      some (record s { view = v; drawn = s.drawn ++ update_head_texts false Text.status v })
  handle_message other_message s = some s

  -- The inner loop, over the messages that have come.
  unfoldable pub handle_messages : List Message → Session → Option Session
  unfolding handle_message
  handle_messages [] s = some s
  handle_messages (m ∷ ms) s = elim (handle_message m s) [
    | none ↦ none
    | some s' ↦ handle_messages ms s'
  ]

  -- The outer loop, over what comes at each time that the program is woken. Behind the last, or if
  -- it is done, nothing happens any more.
  unfoldable pub event_loop : List (List Message) → Session → Option Session
  unfolding handle_messages
  event_loop [] s = some s
  event_loop (batch ∷ batches) s =
      if s.done
      then some s
      else elim (handle_messages batch s) [ none ↦ none | some s' ↦ event_loop batches s' ]

-- What the program opens, or gets.
pub data Held : Type 0 where
  graphics_library intuition_library dos_library font screen window : Held
  sprite_number : ℕ → Held

-- Whether each of the calls of `main` and of `open_screen_window` succeeds.
pub record System : Type 0 where
  pub graphics : Bool
  pub intuition : Bool
  pub dos : Bool
  pub font : Bool
  pub screen : Bool
  pub window : Bool

-- How the program is left: it has ended and closed what it lists, it waits for messages or for the
-- search, or it used a pointer that is NULL.
pub data Ending : Type 0 where
  ended : List Held → Ending
  running : Session → Ending
  searching null_pointer : Ending

abbrev pub only_if : Bool → Held → List Held
only_if b r = if b then r ∷ [] else []

unfoldable pub close_screen_window : Bool → Bool → List Held
close_screen_window has_screen has_window =
    sprite_number 1
    ∷ sprite_number 2
    ∷ sprite_number 3
    ∷ sprite_number 4
    ∷ sprite_number 5
    ∷ sprite_number 6
    ∷ sprite_number 7
    ∷ (only_if has_window window ++ only_if has_screen screen)

unfoldable pub close_libraries : System → List Held
close_libraries sys =
    only_if sys.font font
    ++ (only_if sys.dos dos_library
        ++ (only_if sys.graphics graphics_library ++ only_if sys.intuition intuition_library))

-- Behind the loop.
unfoldable pub after_loop : System → Option Session → Ending
unfolding close_screen_window close_libraries
after_loop sys none = searching
after_loop sys (some s) =
    if s.done then ended (close_screen_window true true ++ close_libraries sys) else running s

-- `main`. `p_ucl` is not set if something could not be opened: `stale` says whether what it holds is
-- not NULL. The screen is then not open, as the window is not if the screen is not.
unfoldable pub main : (ℕ → ℕ) → Dos → ViewModes → System → Bool → ℕ → List (List Message) → Ending
unfolding start_session event_loop after_loop
main memory dos modes sys stale max_loc_mem batches =
    if sys.graphics && (sys.intuition && (sys.dos && sys.font))
    then (if sys.screen && sys.window
        then after_loop sys (event_loop memory dos modes batches (start_session max_loc_mem))
        else null_pointer)
    else if stale
    then null_pointer
    else ended (close_screen_window false false ++ close_libraries sys)
