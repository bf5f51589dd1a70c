-- ===== src/Tests/Header.antt =====
-- The theorems on the texts above the picture at concrete inputs.
use demotool.Base.{ℕ, ◌≡◌, refl, true, false, some, none, List, [], ◌∷◌, arith, All}
use demotool.Base.Int.{pos}
use demotool.Searcher.Key
use demotool.Searcher.File.{Dos}
use demotool.Searcher.Ilbm.{ViewModes}
use demotool.Searcher.Geometry.{Qualifier}
use demotool.Searcher.View.{View, init_cop_cfg}
use demotool.Searcher.Keys.Reach.{start, Reach-IsView}
use demotool.Searcher.Head.{update_head_texts}
use demotool.Searcher.Head.Fits.{Fits, IsShort}
use demotool.Searcher.Head.Fits.Header.{update_head_texts-Fits}
use demotool.Searcher.Main.{
  everything, Message, raw_key, gadget_up, other_message, Session, start_session, event_loop,
}
use demotool.Searcher.Main.Seen.{seen}
use demotool.Searcher.Main.Shows.{event_loop-Shows}
use demotool.Base.Bits.{low_ones}

abbrev memory : ℕ → ℕ
memory address = 0

abbrev disk : Dos
disk = record {
  write = λ call n. pos n;
  io_err = λ call. 0;
  error_object_in_use = 202;
  error_object_not_found = 205;
  error_bad_number = 115;
}

abbrev view_modes : ViewModes
view_modes = record { ham = 0x800; hires = 0x8000; extra_halfbrite = 0x80 }

abbrev no_qualifier : Qualifier
no_qualifier = record { lshift = false; rshift = false; repeat = false }

abbrev first_view : View
first_view = init_cop_cfg 0x8_0000

first_view-IsShort : IsShort first_view
unfolding init_cop_cfg
first_view-IsShort = record {
  colour = omega arith;
  pal_ptr = omega arith;
  planes =
      (omega arith, (omega arith, (omega arith, (omega arith, (omega arith, (omega arith, tt))))));
  status = omega arith;
  ioerr = omega arith;
}

update_head_texts-Fits_example : All Fits (update_head_texts true everything first_view)
update_head_texts-Fits_example =
    update_head_texts-Fits true everything first_view (Reach-IsView memory 0x8_0000 start)
      first_view-IsShort

-- The display mode and the resolution change, the colours are numbered, saving without a name fails,
-- and the program ends.
abbrev batches : List (List Message)
batches =
    (raw_key Key.f1 no_qualifier ∷ raw_key Key.h no_qualifier ∷ [])
    ∷ (raw_key Key.np_fs no_qualifier ∷ other_message ∷ gadget_up none 0 0 [] ∷ [])
    ∷ (raw_key Key.f10 no_qualifier ∷ [])
    ∷ []

event_loop-Shows_example :
    (s : Session) × (event_loop memory disk view_modes batches (start_session 0x8_0000) ≡ some s)
    × (seen 440 34 s.drawn ≡ seen 440 34 (update_head_texts true everything s.view))
unfolding init_cop_cfg low_ones
event_loop-Shows_example =
    event_loop-Shows memory disk view_modes 0x8_0000 17 batches 440 34 refl (omega arith) refl
