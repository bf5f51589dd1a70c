-- ===== src/Searcher/Finder.antt =====
-- searcher/colfind.c: the search for a palette in a copper list. The memory is words by their
-- numbers, half of their addresses.
pub mod Ends
pub mod Finding
pub mod Found
use demotool.Base.{
  ℕ, zero, suc, ◌+◌, ◌-◌, ◌*◌, ◌/◌, ◌^◌, Bool, true, false, not, ◌&&◌, Option, none, some, List,
  ◌++◌,
}
use demotool.Base.{bit_or, bit_and, replicate, ltb, ◌==◌, if◌then◌else◌, set, drop}
use demotool.Protocol.Flag.{has_flag}
use demotool.Searcher.Text
use demotool.Searcher.View.{View, idx_status_palette, idx_status_notfound}
use demotool.Searcher.Geometry.{Qualifier}

-- The variables of the loop. `idx` is not set before the first word that it is read after.
pub record Search : Type 0 where
  pub current_pos : ℕ
  pub found_pos : ℕ
  pub found : ℕ
  pub colpal : ℕ
  pub move : Bool
  pub idx : ℕ

-- A copper move to a colour register.
abbrev pub is_color_move : ℕ → Bool
is_color_move reg = bit_and reg 0xfe41 == 0 && bit_and reg 0x0180 == 0x0180

-- A colour.
abbrev pub is_rgb : ℕ → Bool
is_rgb rgb = bit_and rgb 0xf000 == 0

-- The number of the colour of a register.
abbrev pub color_of : ℕ → ℕ
color_of reg = bit_and reg 0x3e / 2

-- The body of the loop at a word that should be a move.
unfoldable pub at_move : ℕ → Search → Search
at_move reg s =
    let idx = color_of reg in
    if is_color_move reg && not (has_flag s.colpal (2 ^ idx))
    then record s {
      found_pos = if s.found == 0 then s.current_pos else s.found_pos;
      move = false;
      idx = idx;
    }
    else record s { found = 0; colpal = 0; idx = idx }

-- The body of the loop at a word that should be a colour.
unfoldable pub at_rgb : ℕ → Search → Search
at_rgb rgb s =
    if is_rgb rgb
    then record s { found = s.found + 1; colpal = bit_or s.colpal (2 ^ s.idx); move = true }
    else record s { found = 0; colpal = 0; move = true }

-- The body of the loop; `chip_mask` keeps the position in the chip memory.
unfoldable pub search_step : (ℕ → ℕ) → ℕ → Search → Search
unfolding at_move at_rgb
search_step mem chip_mask s =
    let word = mem s.current_pos in
    let s' = if s.move then at_move word s else at_rgb word s in
    record s' { current_pos = bit_and (s'.current_pos + 1) chip_mask }

-- The loop; `none` where the fuel has run out.
unfoldable pub search_loop : (ℕ → ℕ) → ℕ → ℕ → ℕ → ℕ → Search → Option Search
unfolding search_step
search_loop mem chip_mask end_pos min_num zero s = none
search_loop mem chip_mask end_pos min_num (suc fuel) s =
    let s' = search_step mem chip_mask s in
    let next = search_loop mem chip_mask end_pos min_num fuel s' in
    if not (s'.current_pos == end_pos) && ltb s'.found min_num then next else some s'

-- The loop over the words of the palette that was found, from `pos` on; `n` pairs are left.
unfoldable pub read_palette : (ℕ → ℕ) → ℕ → ℕ → ℕ → List ℕ → List ℕ
read_palette mem chip_mask zero pos pal = pal
read_palette mem chip_mask (suc n) pos pal =
    let reg = mem pos in
    let rgb = mem (pos + 1) in
    let pal' = if is_color_move reg && is_rgb rgb then set pal (color_of reg) rgb else pal in
    read_palette mem chip_mask n (bit_and (pos + 2) chip_mask) pal'

-- Where the search starts: behind the palette that was found last.
unfoldable pub start_search : View → Qualifier → Search
start_search v qual =
    let chip_mask = (v.max_chipmem - 1) / 2 in
    let pos = v.pal_ptr / 2 in
    let step = if qual.lshift then 32 else 1 in
    let start = if ltb 0 pos then bit_and (pos + step) chip_mask else pos in
    record { current_pos = start; found_pos = start; found = 0; colpal = 0; move = true; idx = 0 }

-- What becomes of the view.
unfoldable pub end_search : (ℕ → ℕ) → ℕ → View → Search → View × ℕ
unfolding read_palette
end_search mem min_num v s =
    let chip_mask = (v.max_chipmem - 1) / 2 in
    let cleared = replicate 32 0 ++ drop 32 v.pal in
    if s.found == min_num
    then (
      record v {
        pal_ptr = s.found_pos * 2;
        pal = read_palette mem chip_mask 32 s.found_pos cleared;
        status = idx_status_palette;
        ioerr = 0;
      },
      bit_or (bit_or Text.address Text.rgb_change) Text.status,
    )
    else (record v { status = idx_status_notfound; ioerr = 0 }, Text.status)

-- `copper_search`. The loop goes round the chip memory once, so its words are rounds enough.
unfoldable pub copper_search : (ℕ → ℕ) → View → Qualifier → ℕ → Option (View × ℕ)
unfolding search_loop start_search end_search
copper_search mem v qual min_num =
    let chip_mask = (v.max_chipmem - 1) / 2 in
    let s = start_search v qual in
    elim (search_loop mem chip_mask s.current_pos min_num (chip_mask + 1) s) [
      | none ↦ none
      | some s' ↦ some (end_search mem min_num v s')
    ]
