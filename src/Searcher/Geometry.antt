-- ===== src/Searcher/Geometry.antt =====
-- The functions of searcher/searcher.c that change the size and the mode of the view. Each gives the
-- view with the bits of what changed.
use demotool.Base.{ℕ, ◌+◌, ◌-◌, ◌^◌, Bool, ◌&&◌, bit_or, bit_xor}
use demotool.Base.{ltb, ◌==◌, if◌then◌else◌}
use demotool.Protocol.Flag.{has_flag}
use demotool.Searcher.Mode
use demotool.Searcher.Mode.{clear}
use demotool.Searcher.Text
use demotool.Searcher.View.{
  View, idx_disp_std, idx_disp_ham, idx_disp_max, idx_prio_max, idx_save_max,
}

-- The qualifiers of a key that the program looks at.
pub record Qualifier : Type 0 where
  pub lshift : Bool
  pub rshift : Bool
  pub repeat : Bool

abbrev pub max_bplane_width : ℕ
max_bplane_width = 4096

-- `TEXT_SCREEN|TEXT_PF1WIDTH|TEXT_PF2WIDTH`
abbrev pub widths : ℕ
widths = bit_or (bit_or Text.screen Text.pf1width) Text.pf2width

unfoldable pub inc_scr_width : View → View × ℕ
inc_scr_width v =
    let new_width = v.scr_width + (if has_flag v.flags Mode.hires then 32 else 16) in
    (
      record v {
        scr_width = if ltb new_width max_bplane_width then new_width else max_bplane_width;
      },
      widths,
    )

-- The difference stops at 0, which is below either minimum, as a negative one is.
unfoldable pub dec_scr_width : View → View × ℕ
dec_scr_width v =
    let new_width = v.scr_width - (if has_flag v.flags Mode.hires then 32 else 16) in
    let min = if has_flag v.flags Mode.hires then 64 else 32 in
    (record v { scr_width = if ltb min new_width then new_width else min }, widths)

unfoldable pub set_bplane_lock : View → ℕ → View × ℕ
set_bplane_lock v bpl_idx =
    let all = if v.bpl_lock == 0x3f then 0 else 0x3f in
    let one = bit_xor v.bpl_lock (2 ^ bpl_idx) in
    (record v { bpl_lock = if ltb 5 bpl_idx then all else one }, Text.bpllocks)

-- The next number of a cycle that ends at `max`.
abbrev pub next : ℕ → ℕ → ℕ
next max n = if ltb max (n + 1) then 0 else n + 1

unfoldable pub handle_display_mode : View → View × ℕ
handle_display_mode v =
    let display = next idx_disp_max v.display in
    let others = clear v.flags (bit_or (bit_or Mode.ham Mode.std) Mode.dualpf) in
    let flags = bit_or others (2 ^ display) in
    if display == idx_disp_ham && has_flag flags Mode.hires
    then (
      record v { display = display; flags = clear flags Mode.hires },
      bit_or Text.display Text.reso,
    )
    else (record v { display = display; flags = flags }, Text.display)

unfoldable pub handle_save_as : View → View × ℕ
handle_save_as v = (record v { save_as = next idx_save_max v.save_as }, Text.saveas)

unfoldable pub set_bplane_height : View → ℕ → View × ℕ
set_bplane_height v height = (record v { scr_height = height }, Text.height)

unfoldable pub handle_bplane_height : View → Qualifier → View × ℕ
handle_bplane_height v qual =
    let h = v.scr_height in
    let lower = if ltb 1 h && ltb (h - 1) 9999 then h - 1 else h in
    let higher = if ltb 0 (h + 1) && ltb (h + 1) 9999 then h + 1 else h in
    (record v { scr_height = if qual.lshift then lower else higher }, Text.height)

unfoldable pub dec_bplane_num : View → View × ℕ
dec_bplane_num v =
    if ltb 0 v.num_bpl then (record v { num_bpl = v.num_bpl - 1 }, Text.bplanes) else (v, 0)

unfoldable pub inc_bplane_num : View → View × ℕ
inc_bplane_num v =
    if ltb v.num_bpl 7 then (record v { num_bpl = v.num_bpl + 1 }, Text.bplanes) else (v, 0)

-- The high resolution: no more than four planes, and no HAM.
unfoldable pub set_hires : View → View × ℕ
set_hires v =
    let flags = bit_or v.flags Mode.hires in
    let ham = has_flag flags Mode.ham in
    let planes = ltb 4 v.num_bpl in
    (
      record v {
        flags = if ham then clear flags Mode.ham else flags;
        scr_width = 640;
        num_bpl = if planes then 4 else v.num_bpl;
        display = if ham then idx_disp_std else v.display;
      },
      bit_or (bit_or Text.reso widths)
          (bit_or (if planes then Text.bplanes else 0) (if ham then Text.display else 0)),
    )

unfoldable pub set_resolution : View → Bool → View × ℕ
unfolding set_hires
set_resolution v hires =
    if hires
    then set_hires v
    else (record v { flags = clear v.flags Mode.hires; scr_width = 320 }, bit_or Text.reso widths)

unfoldable pub handle_priority : View → View × ℕ
handle_priority v = (
  record v {
    priority = next idx_prio_max v.priority;
    flags =
        if ltb idx_prio_max (v.priority + 1)
        then clear v.flags Mode.pf2pri
        else bit_or v.flags Mode.pf2pri;
  },
  Text.priority,
)
