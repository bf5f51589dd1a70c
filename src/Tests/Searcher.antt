-- ===== src/Tests/Searcher.antt =====
-- The theorems on the graphics searcher at concrete inputs.
use demotool.Searcher.Copper.{Instruction, room, setup_copper}
use demotool.Searcher.Copper.Waits.{IsAscending, setup_copper-IsAscending}
use demotool.Searcher.Save.{handle_filesave}
use demotool.Searcher.Save.Playfields.{ready, handle_filesave-saved}
use demotool.Base.{◌≤◌, List, []}
use demotool.Base.{ℕ, ◌%◌, ◌≡◌, refl, true, false, Option, none, some}
use demotool.Searcher.Key
use demotool.Base.{[], ◌∷◌, length, arith}
use demotool.Base.Int.{pos}
use demotool.Protocol.{be32}
use demotool.Searcher.File.{Dos, File, s_close}
use demotool.Searcher.File.Written.{IsOpen, Closes}
use demotool.Searcher.Ilbm.{ViewModes, num, bytes, put_all, save_iff, form_size, view_mode}
use demotool.Searcher.Ilbm.Puts.{bytes_of, put_all-Closes}
use demotool.Searcher.Ilbm.Form.{IsSavable, Saved, form_bytes, save_iff-Saved}
use demotool.Base.Bits.{low_ones}
use demotool.Base.{◌+◌, ◌==◌, ◌⊎◌, if◌then◌else◌}
use demotool.Searcher.Finder.{copper_search}
use demotool.Searcher.Finder.Ends.{copper_search-ends}
use demotool.Searcher.Finder.Finding.{IsPalette}
use demotool.Searcher.Finder.Found.{copper_search-Finds}
use demotool.Searcher.View.{s_def_pal, idx_status_palette, idx_status_notfound, View, init_cop_cfg}
use demotool.Searcher.Geometry.{Qualifier}
use demotool.Searcher.Keys.{Outcome, main_key_loop}
use demotool.Searcher.Keys.Kept.{IsView}
use demotool.Searcher.Keys.Reach.{start, press, Reach-IsView}
use demotool.Searcher.Keys.Copper.{main_key_loop-copper}

-- A memory in which every word is its own address, and no qualifier but the left shift.
abbrev plain : ℕ → ℕ
plain address = address % 0x1_0000

abbrev shifted : Qualifier
shifted = record { lshift = true; rshift = false; repeat = false }

abbrev at_start : View
at_start = init_cop_cfg 0x8_0000

abbrev outcome : Option Outcome → Outcome
outcome none = record {
  quit = true;
  view = at_start;
  onoff = true;
  update = 0;
  copper = false;
  gadget = false;
}
outcome (some o) = o

-- F1 is HAM, and H is a high resolution.
abbrev after_f1 : Outcome
unfolding main_key_loop
after_f1 = outcome (main_key_loop plain Key.f1 shifted true at_start)

abbrev after_h : Outcome
unfolding main_key_loop
after_h = outcome (main_key_loop plain Key.h shifted true after_f1.view)

Reach-IsView_example : IsView after_h.view
unfolding main_key_loop
Reach-IsView_example =
    Reach-IsView plain 0x8_0000
      (press Key.h shifted after_h (press Key.f1 shifted after_f1 start refl) refl)

-- A key that the program does not know.
main_key_loop-copper_example : (false ≡ false) × (true ≡ true)
unfolding main_key_loop
main_key_loop-copper_example =
    main_key_loop-copper plain 0x7f shifted true at_start
      (outcome (main_key_loop plain 0x7f shifted true at_start)) refl refl

-- A chip memory of 8 words, in which the even ones are registers of colours and the odd ones colours.
abbrev copper : ℕ → ℕ
copper i = if i % 2 == 0 then 0x180 + i % 64 else 0x0e60

abbrev small : View
small = record at_start { max_chipmem = 16 }

abbrev found_palette : View × ℕ
unfolding copper_search
found_palette = elim (copper_search copper small shifted 2) [ none ↦ (small, 0) | some r ↦ r ]

copper_search-ends_example : (r : View × ℕ) × (copper_search copper small shifted 2 ≡ some r)
unfolding low_ones
copper_search-ends_example = copper_search-ends copper small shifted 2 2 refl

copper_search-Finds_example :
    (found_palette.0.status ≡ idx_status_palette) × IsPalette copper 8 0 2
    ⊎ (found_palette.0.status ≡ idx_status_notfound)
      × (found_palette.0.pal_ptr ≡ 0)
      × (found_palette.0.pal ≡ s_def_pal)
unfolding copper_search low_ones init_cop_cfg
copper_search-Finds_example =
    copper_search-Finds copper small shifted 2 2 found_palette.0 found_palette.1 refl refl

-- A disk that takes all it is given, an open file with a byte in it, and a picture of two rows in two
-- planes of high resolution.
abbrev roomy : Dos
roomy = record {
  write = λ call n. pos n;
  io_err = λ call. 0;
  error_object_in_use = 202;
  error_object_not_found = 205;
  error_bad_number = 115;
}

abbrev opened_file : File
opened_file = record { handle = 1; last_ioerr = 0; buffer = 0x21 ∷ []; calls = 0; taken = [] }

opened_file-IsOpen : IsOpen opened_file
opened_file-IsOpen = record { opened = refl; room = omega arith }

abbrev modes : ViewModes
modes = record { extra_halfbrite = 0x80; hires = 0x8000; ham = 0x800 }

abbrev picture : View
picture = record at_start { scr_width = 64; scr_height = 2; num_bpl = 2; flags = 0x11 }

picture-IsView : IsView picture
unfolding init_cop_cfg
picture-IsView = ground arith

picture-IsSavable : IsSavable picture
unfolding init_cop_cfg
picture-IsSavable = record {
  six = omega arith;
  ham = λ e. absurd (ground (arith, e));
  playfields = λ e. omega arith;
}

put_all-Closes_example :
    Closes
      (0x21 ∷ 0x12 ∷ 0x34 ∷ 7 ∷ 8 ∷ [])
      (s_close roomy (put_all roomy (num 0x1234 2 ∷ bytes (7 ∷ 8 ∷ []) ∷ []) opened_file).1)
unfolding bytes_of be32
put_all-Closes_example =
    put_all-Closes roomy (num 0x1234 2 ∷ bytes (7 ∷ 8 ∷ []) ∷ []) opened_file (λ call n. refl)
      opened_file-IsOpen ((omega arith, omega arith), (omega arith, tt))

save_iff-Saved_example :
    Saved
      (form_bytes modes plain picture true)
      opened_file
      112
      (save_iff roomy modes plain picture true opened_file)
    × (length (form_bytes modes plain picture true) + 0 ≡ 112)
unfolding form_size view_mode init_cop_cfg
save_iff-Saved_example =
    save_iff-Saved roomy modes plain picture true opened_file (λ call n. refl) opened_file-IsOpen
      picture-IsView picture-IsSavable

abbrev instructions : List Instruction
unfolding setup_copper
instructions = elim (setup_copper true picture) [ none ↦ [] | some is ↦ is ]

setup_copper-IsAscending_example : (length instructions ≤ room) × IsAscending 0 instructions
unfolding setup_copper
setup_copper-IsAscending_example = setup_copper-IsAscending picture instructions picture-IsView refl

-- Two playfields of one plane each, and a handle that is not open.
abbrev two_fields : View
two_fields = record picture { flags = 0x14 }

two_fields-IsView : IsView two_fields
unfolding init_cop_cfg
two_fields-IsView = ground arith

two_fields-IsSavable : IsSavable two_fields
unfolding init_cop_cfg
two_fields-IsSavable = record {
  six = omega arith;
  ham = λ e. absurd (ground (arith, e));
  playfields = λ e. omega arith;
}

abbrev new_handle : File
new_handle = record { handle = 0; last_ioerr = 0; buffer = []; calls = 0; taken = [] }

handle_filesave-saved_example :
    handle_filesave roomy modes plain (some new_handle) 5 6 (b'a' ∷ []) two_fields ≡ (
      ready two_fields,
      (b'a' ∷ b'_' ∷ b'p' ∷ b'f' ∷ b'1' ∷ [], form_bytes modes plain (ready two_fields) true)
          ∷ (b'a' ∷ b'_' ∷ b'p' ∷ b'f' ∷ b'2' ∷ [], form_bytes modes plain (ready two_fields) false)
          ∷ [],
    )
unfolding init_cop_cfg
handle_filesave-saved_example =
    handle_filesave-saved roomy modes plain new_handle 5 6 (b'a' ∷ []) two_fields (λ call n. refl)
      two_fields-IsView two_fields-IsSavable refl (omega arith) refl refl refl
