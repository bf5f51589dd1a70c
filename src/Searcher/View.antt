-- ===== src/Searcher/View.antt =====
-- The state of the searcher, `cop_cfg_t` of searcher/searcher.h, and `init_cop_cfg` of
-- searcher/screen.c.
use demotool.Base.{ℕ, List, [], ◌∷◌, bit_or, bit_and, replicate}
use demotool.Base.Int.{ℤ, pos}
use demotool.Searcher.Mode
use demotool.Searcher.Text

-- `cop_cfg_t`. Addresses are numbers of 32 bits.
pub record View : Type 0 where
  pub pal : List ℕ
  pub bpl_ptr : List ℕ
  pub pal_ptr : ℕ
  pub max_chipmem : ℕ
  pub mod_even : ℤ
  pub mod_odd : ℤ
  pub scr_width : ℕ
  pub scr_height : ℕ
  pub num_bpl : ℕ
  pub pf1shft : ℕ
  pub pf2shft : ℕ
  pub display : ℕ
  pub priority : ℕ
  pub save_as : ℕ
  pub bpl_lock : ℕ
  pub rgb_idx : ℕ
  pub flags : ℕ
  pub ioerr : ℕ
  pub status : ℕ

-- The values of `display`, of `priority` and of `save_as`.
abbrev pub idx_disp_std : ℕ
idx_disp_std = 0

abbrev pub idx_disp_ham : ℕ
idx_disp_ham = 1

abbrev pub idx_disp_max : ℕ
idx_disp_max = 2

abbrev pub idx_prio_pf1 : ℕ
idx_prio_pf1 = 0

abbrev pub idx_prio_max : ℕ
idx_prio_max = 1

abbrev pub idx_save_iff : ℕ
idx_save_iff = 0

abbrev pub idx_save_raw : ℕ
idx_save_raw = 1

abbrev pub idx_save_pal : ℕ
idx_save_pal = 2

abbrev pub idx_save_max : ℕ
idx_save_max = 2

-- The values of `status` that are set.
abbrev pub idx_status_version : ℕ
idx_status_version = 0

abbrev pub idx_status_palette : ℕ
idx_status_palette = 1

abbrev pub idx_status_nosave : ℕ
idx_status_nosave = 2

abbrev pub idx_status_saveok : ℕ
idx_status_saveok = 3

abbrev pub idx_status_noram : ℕ
idx_status_noram = 5

abbrev pub idx_status_fault : ℕ
idx_status_fault = 6

abbrev pub idx_status_notfound : ℕ
idx_status_notfound = 8

abbrev pub s_def_pal : List ℕ
s_def_pal =
    0x0000 ∷ 0x0e60 ∷ 0x0d50 ∷ 0x0c40 ∷ 0x0b30 ∷ 0x0a20 ∷ 0x0910 ∷ 0x0800 ∷ 0x00f7 ∷ 0x00e6 ∷ 0x00d5
    ∷ 0x00c4 ∷ 0x00b3 ∷ 0x00a2 ∷ 0x0091 ∷ 0x0080 ∷ 0x0f7f ∷ 0x0e6e ∷ 0x0d5d ∷ 0x0c4c ∷ 0x0b3b
    ∷ 0x0a2a ∷ 0x0919 ∷ 0x0808 ∷ 0x007f ∷ 0x006e ∷ 0x005d ∷ 0x004c ∷ 0x003b ∷ 0x002a ∷ 0x0019
    ∷ 0x0008 ∷ 0x0203 ∷ 0x0203 ∷ 0x0203 ∷ []

-- `init_cop_cfg` with `pal_only`: the view and what changed of it.
unfoldable pub init_palette : View → View × ℕ
init_palette v =
    let update = bit_or Text.rgb_change Text.address in
    (record v { pal_ptr = 0; pal = s_def_pal }, update)

-- `init_cop_cfg` without it: nothing of the old view is kept. `max_loc_mem` is MaxLocMem of
-- exec.library.
unfoldable pub init_cop_cfg : ℕ → View
init_cop_cfg max_loc_mem = record {
  pal = s_def_pal;
  bpl_ptr = replicate 6 0x4000;
  pal_ptr = 0;
  max_chipmem = bit_and max_loc_mem 0xffff_0000;
  mod_even = pos 0;
  mod_odd = pos 0;
  scr_width = 320;
  scr_height = 200;
  num_bpl = 5;
  pf1shft = 15;
  pf2shft = 15;
  display = idx_disp_std;
  priority = idx_prio_pf1;
  save_as = idx_save_iff;
  bpl_lock = 0x3f;
  rgb_idx = 0;
  flags = Mode.std;
  ioerr = 0;
  status = idx_status_version;
}
