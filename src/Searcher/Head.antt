-- ===== src/Searcher/Head.antt =====
-- The texts above the picture: `update_head_texts` and `update_pal_texts` of searcher/screen.c, as the
-- texts that they draw. The window is 640 pixels wide and 63 high, a character is 8 pixels wide.
pub mod Numbers
pub mod Redrawn
pub mod Fits
use demotool.Base.{
  ℕ, zero, suc, ◌+◌, ◌-◌, ◌*◌, ◌/◌, ◌%◌, Bool, true, false, ◌||◌, List, [], ◌∷◌, ◌++◌, take,
}
use demotool.Base.{ltb, ◌==◌, if◌then◌else◌, get_or, drop}
use demotool.Base.Int.{ℤ, pos, ◌+ℤ◌, is_negative}
use demotool.Base.CString.{codes}
use demotool.Protocol.Flag.{has_flag}
use demotool.Searcher.Mode
use demotool.Searcher.Text
use demotool.Searcher.View.{View}
use demotool.Searcher.Head.Numbers.{pad, show_d, show_plus_d, show_x}

-- A text: its pen, whether its background is drawn too, where it starts, the string, and the number
-- of its characters that are drawn.
pub record Drawn : Type 0 where
  pub apen : ℕ
  pub jam2 : Bool
  pub x : ℕ
  pub y : ℕ
  pub string : List ℕ
  pub count : ℕ

-- The areas of the header.
abbrev pub area0_x : ℕ
area0_x = 10

abbrev pub area0_y : ℕ
area0_y = 3 + 9

abbrev pub area1_x : ℕ
area1_x = 206

abbrev pub area1_y : ℕ
area1_y = 3 + 7

abbrev pub area2_x : ℕ
area2_x = 358

abbrev pub area2_y : ℕ
area2_y = 3 + 7

abbrev pub area3_x : ℕ
area3_x = 470

abbrev pub area3_y : ℕ
area3_y = 3 + 7

abbrev pub s_text_area1 : List (List ℕ)
s_text_area1 =
    codes "SCREEN WIDTH      "
    ∷ codes "PFIELD1 WIDTH     "
    ∷ codes "PFIELD2 WIDTH     "
    ∷ codes "BPLANE HEIGHT     "
    ∷ codes "PALETTE    $      "
    ∷ []

abbrev pub s_text_area2 : List (List ℕ)
s_text_area2 =
    codes "RGB  #   $   "
    ∷ codes "MOD EVEN     "
    ∷ codes "MOD ODD      "
    ∷ codes "DISPLAY      "
    ∷ codes "PRIORITY     "
    ∷ codes "SAVE AS      "
    ∷ codes "             "
    ∷ []

abbrev pub s_text_area3 : List (List ℕ)
s_text_area3 =
    codes "BITPLANES  #       "
    ∷ codes "0       $       PF1"
    ∷ codes "1       $       PF2"
    ∷ codes "2       $       PF1"
    ∷ codes "3       $       PF2"
    ∷ codes "4       $       PF1"
    ∷ codes "5       $       PF2"
    ∷ []

abbrev pub s_text_disp : List (List ℕ)
s_text_disp = codes " STD" ∷ codes " HAM" ∷ codes "DUAL" ∷ []

abbrev pub s_text_prio : List (List ℕ)
s_text_prio = codes " PF1" ∷ codes " PF2" ∷ []

abbrev pub s_text_save : List (List ℕ)
s_text_save = codes " IFF" ∷ codes " RAW" ∷ codes " PAL" ∷ []

abbrev pub s_status_lines : List (List ℕ)
s_status_lines =
    codes "Searcher v3.0"
    ∷ codes "Palette found"
    ∷ codes "No file saved"
    ∷ codes "File saved OK"
    ∷ codes "Everything OK"
    ∷ codes "Out of memory"
    ∷ codes "Internal fail"
    ∷ codes "File exists.."
    ∷ codes "Nothing found"
    ∷ []

abbrev pub s_text_scx : List ℕ
s_text_scx = codes "ScoopeX"

-- Lines of text, eight pixels below each other.
unfoldable pub lines : ℕ → Bool → ℕ → ℕ → ℕ → List (List ℕ) → List Drawn
lines apen jam2 x y count [] = []
lines apen jam2 x y count (s ∷ ss) =
    record { apen = apen; jam2 = jam2; x = x; y = y; string = s; count = count }
    ∷ lines apen jam2 x (y + 8) count ss

-- The text from each character of a string on.
unfoldable pub tails : List ℕ → List (List ℕ)
tails [] = []
tails (c ∷ s) = (c ∷ s) ∷ tails s

-- The texts that do not change.
unfoldable pub static_texts : List Drawn
unfolding lines tails
static_texts =
    lines 1 true area1_x area1_y 18 s_text_area1
    ++ (lines 1 true area2_x area2_y 13 s_text_area2
        ++ (lines 1 true area3_x area3_y 19 s_text_area3
            ++ (lines 3 false (640 - 8) area3_y 1 (tails s_text_scx)
                ++ lines 1 false 132 56 8 (codes "FILENAME" ∷ []))))

-- The parts of the header that show the view, in the order of the tests of `update_head_texts`.
pub data Part : Type 0 where
  screen pf1width pf2width height address rgb modeven mododd display priority saveas : Part
  bplanes reso bpllocks bpladdrs status : Part

abbrev pub parts : List Part
parts =
    screen ∷ pf1width ∷ pf2width ∷ height ∷ address ∷ rgb ∷ modeven ∷ mododd ∷ display ∷ priority
    ∷ saveas ∷ bplanes ∷ reso ∷ bpllocks ∷ bpladdrs ∷ status ∷ []

-- The test for a part.
unfoldable pub is_wanted : ℕ → Part → Bool
is_wanted texts screen = has_flag texts Text.screen
is_wanted texts pf1width = has_flag texts Text.pf1width || has_flag texts Text.mododd
is_wanted texts pf2width = has_flag texts Text.pf2width || has_flag texts Text.modeven
is_wanted texts height = has_flag texts Text.height
is_wanted texts address = has_flag texts Text.address
is_wanted texts rgb = has_flag texts Text.rgb
is_wanted texts modeven = has_flag texts Text.modeven
is_wanted texts mododd = has_flag texts Text.mododd
is_wanted texts display = has_flag texts Text.display
is_wanted texts priority = has_flag texts Text.priority
is_wanted texts saveas = has_flag texts Text.saveas
is_wanted texts bplanes = has_flag texts Text.bplanes
is_wanted texts reso = has_flag texts Text.reso
is_wanted texts bpllocks = has_flag texts Text.bpllocks
is_wanted texts bpladdrs = has_flag texts Text.bpladdrs
is_wanted texts status = has_flag texts Text.status

-- The width of a playfield, which is that of the screen for a modulo below 0.
unfoldable pub playfield_width : ℕ → ℤ → ℤ
playfield_width scr_width modulo =
    if is_negative modulo then pos scr_width else pos scr_width +ℤ modulo

-- Whether each of `n` planes from the i-th on is shown, and whether it is locked.
unfoldable pub on_off : ℕ → ℕ → ℕ → List (List ℕ)
on_off num_bpl i zero = []
on_off num_bpl i (suc n) =
    (if ltb i num_bpl then codes "ON " else codes "OFF") ∷ on_off num_bpl (i + 1) n

unfoldable pub locks : ℕ → ℕ → List (List ℕ)
locks lock zero = []
locks lock (suc n) = (if has_flag lock 1 then codes "*" else codes "-") ∷ locks (lock / 2) n

-- The addresses of the planes.
unfoldable pub addresses : List ℕ → ℕ → ℕ → List (List ℕ)
unfolding pad show_x
addresses bpl_ptr i zero = []
addresses bpl_ptr i (suc n) = pad b'0' 6 (show_x (get_or bpl_ptr i 0)) ∷ addresses bpl_ptr (i + 1) n

-- The line of the status.
unfoldable pub status_line : View → List ℕ
unfolding pad show_d
status_line v =
    if v.ioerr == 0
    then get_or s_status_lines v.status []
    else codes "IoErr: " ++ pad b' ' 6 (show_d (pos v.ioerr))

-- The texts of a part, which start below each other, with the place of the first and the number of
-- characters of each. The colour is a part of two places.
unfoldable pub draw_part : View → Part → List Drawn
unfolding lines playfield_width on_off locks addresses status_line show_plus_d
draw_part v part =
    let text = λ (x y count : ℕ) (s : List ℕ). lines 1 true x y count (s ∷ []) in
    elim part [
      | screen ↦ text (area1_x + 14 * 8) area1_y 4 (pad b' ' 4 (show_d (pos v.scr_width)))
      | pf1width ↦
          text (area1_x + 14 * 8) (area1_y + 8) 4
            (pad b' ' 4 (show_d (playfield_width v.scr_width v.mod_odd)))
      | pf2width ↦
          text (area1_x + 14 * 8) (area1_y + 2 * 8) 4
            (pad b' ' 4 (show_d (playfield_width v.scr_width v.mod_even)))
      | height ↦
          text (area1_x + 14 * 8) (area1_y + 3 * 8) 4 (pad b' ' 4 (show_d (pos v.scr_height)))
      | address ↦ text (area1_x + 12 * 8) (area1_y + 4 * 8) 6 (pad b'0' 6 (show_x v.pal_ptr))
      | rgb ↦
          text (area2_x + 6 * 8) area2_y 2 (pad b'0' 2 (show_d (pos v.rgb_idx)))
          ++ text (area2_x + 10 * 8) area2_y 3 (pad b'0' 3 (show_x (get_or v.pal v.rgb_idx 0)))
      | modeven ↦ text (area2_x + 9 * 8) (area2_y + 8) 4 (pad b' ' 4 (show_plus_d v.mod_even))
      | mododd ↦ text (area2_x + 9 * 8) (area2_y + 2 * 8) 4 (pad b' ' 4 (show_plus_d v.mod_odd))
      | display ↦ text (area2_x + 9 * 8) (area2_y + 3 * 8) 4 (get_or s_text_disp v.display [])
      | priority ↦ text (area2_x + 9 * 8) (area2_y + 4 * 8) 4 (get_or s_text_prio v.priority [])
      | saveas ↦ text (area2_x + 9 * 8) (area2_y + 5 * 8) 4 (get_or s_text_save v.save_as [])
      | bplanes ↦
          text (area3_x + 12 * 8) area3_y 1 (show_d (pos v.num_bpl))
          ++ lines 1 true (area3_x + 2 * 8) (area3_y + 8) 3 (on_off v.num_bpl 0 6)
      | reso ↦
          text (area3_x + 14 * 8) area3_y 5
            (if has_flag v.flags Mode.hires then codes "HIRES" else codes "LORES")
      | bpllocks ↦ lines 1 true (area3_x + 6 * 8) (area3_y + 8) 1 (locks v.bpl_lock 6)
      | bpladdrs ↦ lines 1 true (area3_x + 9 * 8) (area3_y + 8) 6 (addresses v.bpl_ptr 0 6)
      | status ↦ lines 3 true area2_x (area2_y + 6 * 8) 13 (status_line v ∷ [])
    ]

unfoldable pub draw_parts : ℕ → View → List Part → List Drawn
unfolding is_wanted draw_part
draw_parts texts v [] = []
draw_parts texts v (part ∷ ps) =
    let rest = draw_parts texts v ps in
    if is_wanted texts part then draw_part v part ++ rest else rest

unfoldable pub update_head_texts : Bool → ℕ → View → List Drawn
unfolding static_texts draw_parts
update_head_texts statics texts v =
    if statics then static_texts ++ draw_parts texts v parts else draw_parts texts v parts

-- The numbers of the `n` colours from the i-th on, of which the first stands in column `x` and row
-- `y`. Without `on` they are cleared.
unfoldable pub colour_numbers : Bool → ℕ → ℕ → ℕ → ℕ → List Drawn
unfolding pad show_d
colour_numbers on x y i zero = []
colour_numbers on x y i (suc n) =
    let x' : ℕ = if x == 7 then 0 else x in
    let y' = if x == 7 then y + 1 else y in
    record {
      apen = 3;
      jam2 = true;
      x = area0_x + x' * 28;
      y = area0_y + y' * 11;
      string = if on then pad b'0' 2 (show_d (pos i)) else codes "   ";
      count = 2;
    }
    ∷ colour_numbers on (x' + 1) y' (i + 1) n

unfoldable pub update_pal_texts : Bool → List Drawn
unfolding colour_numbers
update_pal_texts on = colour_numbers on 0 0 0 32
