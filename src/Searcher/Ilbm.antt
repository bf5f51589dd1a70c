-- ===== src/Searcher/Ilbm.antt =====
-- searcher/ilbmw.c: a picture is written to a file.
pub mod Puts
pub mod Sizes
pub mod Short
pub mod Colour
pub mod Form
use demotool.Base.{
  ℕ, zero, suc, ◌+◌, ◌-◌, ◌*◌, ◌/◌, ◌%◌, ◌^◌, Bool, not, ◌&&◌, ◌||◌, List, [], ◌∷◌, ◌++◌, map,
}
use demotool.Base.{bit_or, bit_and, take, drop, get_or, ltb, ◌==◌, if◌then◌else◌, flatten}
use demotool.Base.Int.{ℤ, pos, negsuc, is_negative, ◌+ℤ◌, bits32}
use demotool.Protocol.Flag.{has_flag}
use demotool.Searcher.Mode
use demotool.Searcher.Mode.{clear}
use demotool.Searcher.View.{View}
use demotool.Searcher.File.{Dos, File, s_write, s_putc, s_putnum}

-- The modes of graphics/view.h.
pub record ViewModes : Type 0 where
  pub extra_halfbrite : ℕ
  pub hires : ℕ
  pub ham : ℕ

-- `MAKE_ID`
abbrev pub make_id : ℕ → ℕ → ℕ → ℕ → ℕ
make_id a b c d = bit_or (bit_or (bit_or (a * 2 ^ 24) (b * 2 ^ 16)) (c * 2 ^ 8)) d

abbrev pub id_form : ℕ
id_form = make_id 0x46 0x4f 0x52 0x4d

abbrev pub id_ilbm : ℕ
id_ilbm = make_id 0x49 0x4c 0x42 0x4d

abbrev pub id_bmhd : ℕ
id_bmhd = make_id 0x42 0x4d 0x48 0x44

abbrev pub id_cmap : ℕ
id_cmap = make_id 0x43 0x4d 0x41 0x50

abbrev pub id_camg : ℕ
id_camg = make_id 0x43 0x41 0x4d 0x47

abbrev pub id_body : ℕ
id_body = make_id 0x42 0x4f 0x44 0x59

abbrev pub sizeof_color_register : ℕ
sizeof_color_register = 3

abbrev pub sizeof_bit_map_header : ℕ
sizeof_bit_map_header = 20

-- A call of the file: `putnum`, `putc` or `write`.
pub data Put : Type 0 where
  num : ℕ → ℕ → Put
  char : ℕ → Put
  bytes : List ℕ → Put

unfoldable pub put : Dos → Put → File → ℤ × File
unfolding s_putnum s_putc s_write
put dos (num n len) f = s_putnum dos n len f
put dos (char c) f = s_putc dos c f
put dos (bytes bs) f = s_write dos bs f

-- Calls in order, up to the first that fails: `save_iff` and `save_raw` look at the result of each of
-- these calls and return then. What `save_iff` returns for a row that fails is said there.
unfoldable pub put_all : Dos → List Put → File → ℤ × File
unfolding put
put_all dos [] f = (pos 0, f)
put_all dos (p ∷ ps) f =
    let (n, f') = put dos p f in
    let rest = put_all dos ps f' in if is_negative n then (n, f') else rest

-- `cfg->flags & MODE_DUALPF && cfg->num_bpl > 1`
abbrev pub is_dual : View → Bool
is_dual v = has_flag v.flags Mode.dualpf && ltb 1 v.num_bpl

-- The planes and the colours of the picture, before dual playfields are looked at.
unfoldable pub all_planes : View → ℕ
all_planes v = if has_flag v.flags Mode.ham then 6 else if ltb 6 v.num_bpl then 6 else v.num_bpl

unfoldable pub all_colors : View → ℕ
all_colors v = if ltb v.num_bpl 6 then 2 ^ v.num_bpl else if ltb 6 v.num_bpl then 16 else 32

-- The planes of one playfield. The difference stops at 0; it is below only in HAM, in which there
-- are no dual playfields.
unfoldable pub playfield : View → Bool → ℕ → ℕ
playfield v odd nbplanes =
    let half = nbplanes % 2 + nbplanes / 2 in if odd then half else v.num_bpl - half

unfoldable pub nbplanes : View → Bool → ℕ
unfolding all_planes playfield
nbplanes v odd = if is_dual v then playfield v odd (all_planes v) else all_planes v

unfoldable pub ncolors : View → Bool → ℕ
unfolding nbplanes all_colors
ncolors v odd = if is_dual v then 2 ^ nbplanes v odd else all_colors v

unfoldable pub view_mode : ViewModes → View → ℕ
view_mode modes v =
    let halfbrite : ℕ =
      if has_flag v.flags Mode.std && ltb 5 v.num_bpl then modes.extra_halfbrite else 0 in
    let hires : ℕ = if has_flag v.flags Mode.hires then modes.hires else 0 in
    let ham : ℕ = if has_flag v.flags Mode.ham then modes.ham else 0 in
    let modeid = bit_or (bit_or halfbrite hires) ham in
    if is_dual v then clear modeid (bit_or modes.ham modes.extra_halfbrite) else modeid

abbrev pub bytes_per_row : View → ℕ
bytes_per_row v = v.scr_width / 2 ^ 3

unfoldable pub body_size : View → Bool → ℕ
unfolding nbplanes
body_size v odd = v.scr_height * nbplanes v odd * bytes_per_row v

-- The size of the form, in which the chunk CAMG always counts.
unfoldable pub form_size : View → Bool → ℕ
unfolding ncolors body_size
form_size v odd =
    4
    + (4 + 4 + sizeof_bit_map_header)
    + (4 + 4 + ncolors v odd * sizeof_color_register)
    + (4 + 4 + 4)
    + (4 + 4 + body_size v odd)

unfoldable pub bmhd_puts : View → Bool → List Put
unfolding nbplanes
bmhd_puts v odd =
    num id_bmhd 4
    ∷ num sizeof_bit_map_header 4
    ∷ num v.scr_width 2
    ∷ num v.scr_height 2
    ∷ num 0 2
    ∷ num 0 2
    ∷ char (nbplanes v odd)
    ∷ char 0
    ∷ char 0
    ∷ char 0
    ∷ num 0 2
    ∷ char (if has_flag v.flags Mode.hires then 16 * 2 else 16)
    ∷ char 10
    ∷ num v.scr_width 2
    ∷ num v.scr_height 2
    ∷ []

-- A value of four bits as one of eight.
abbrev pub both : ℕ → ℕ
both n = bit_or n (n / 2 ^ 4)

unfoldable pub color_register : ℕ → Put
color_register color = bytes (
    both (bit_and (color / 2 ^ 4) 0xf0)
    ∷ both (bit_and color 0xf0)
    ∷ both (bit_and (color * 2 ^ 4) 0xf0)
    ∷ [])

-- The first colour: that of the other playfield is the eighth.
abbrev pub first_color : View → Bool → ℕ
first_color v odd = if is_dual v && not odd then 8 else 0

-- `n` colours from the i-th on.
unfoldable pub color_puts : List ℕ → ℕ → ℕ → List Put
unfolding color_register
color_puts pal i zero = []
color_puts pal i (suc n) = color_register (get_or pal i 0) ∷ color_puts pal (i + 1) n

unfoldable pub cmap_puts : View → Bool → List Put
unfolding ncolors color_puts
cmap_puts v odd =
    num id_cmap 4
    ∷ num (ncolors v odd * sizeof_color_register) 4
    ∷ color_puts v.pal (first_color v odd) (ncolors v odd)

unfoldable pub camg_puts : ViewModes → View → List Put
unfolding view_mode
camg_puts modes v =
    let modeid = view_mode modes v in
    if modeid == 0 then [] else num id_camg 4 ∷ num 4 4 ∷ num modeid 4 ∷ []

-- What is written before the rows.
unfoldable pub head_puts : ViewModes → View → Bool → List Put
unfolding form_size bmhd_puts cmap_puts camg_puts
head_puts modes v odd =
    (num id_form 4 ∷ num (form_size v odd) 4 ∷ num id_ilbm 4 ∷ bmhd_puts v odd)
    ++ cmap_puts v odd
    ++ camg_puts modes v
    ++ (num id_body 4 ∷ num (body_size v odd) 4 ∷ [])

-- Whether the m-th plane belongs to the playfield that is saved.
abbrev pub is_saved : View → Bool → ℕ → Bool
is_saved v odd m =
    not (has_flag v.flags Mode.dualpf) || (not odd && m % 2 == 1 || odd && not (m % 2 == 1))

unfoldable pub read_bytes : (ℕ → ℕ) → ℕ → ℕ → List ℕ
read_bytes mem p zero = []
read_bytes mem p (suc n) = mem p ∷ read_bytes mem (p + 1) n

-- A row of the planes, from the m-th on.
unfoldable pub row_puts : (ℕ → ℕ) → View → Bool → ℕ → List ℕ → List Put
unfolding read_bytes
row_puts mem v odd m [] = []
row_puts mem v odd m (p ∷ planes) =
    let rest = row_puts mem v odd (m + 1) planes in
    if is_saved v odd m then bytes (read_bytes mem p (bytes_per_row v)) ∷ rest else rest

-- The planes of the next row.
unfoldable pub next_row : View → ℕ → List ℕ → List ℕ
next_row v m [] = []
next_row v m (p ∷ planes) =
    bits32 (pos (p + bytes_per_row v) +ℤ (if m % 2 == 1 then v.mod_even else v.mod_odd))
    ∷ next_row v (m + 1) planes

unfoldable pub body_puts : (ℕ → ℕ) → View → Bool → ℕ → List ℕ → List Put
unfolding row_puts next_row
body_puts mem v odd zero planes = []
body_puts mem v odd (suc h) planes =
    row_puts mem v odd 0 planes ++ body_puts mem v odd h (next_row v 0 planes)

-- The rows of the picture. There are six addresses; a seventh plane is read from behind them.
unfoldable pub rows : (ℕ → ℕ) → View → Bool → List Put
unfolding body_puts
rows mem v odd = body_puts mem v odd v.scr_height (take v.num_bpl v.bpl_ptr)

unfoldable pub save_iff : Dos → ViewModes → (ℕ → ℕ) → View → Bool → File → ℤ × File
unfolding put_all head_puts rows
save_iff dos modes mem v odd f =
    let (n, f') = put_all dos (head_puts modes v odd) f in
    let (m, f'') = put_all dos (rows mem v odd) f' in
    if is_negative n
    then (n, f')
    else if is_negative m
    then (negsuc 0, f'')
    else (pos (form_size v odd + 8), f'')

unfoldable pub save_raw : Dos → (ℕ → ℕ) → View → Bool → File → ℤ × File
unfolding put_all rows all_planes
save_raw dos mem v odd f =
    let (n, f') = put_all dos (rows mem v odd) f in
    if is_negative n then (n, f') else (pos (v.scr_height * all_planes v * bytes_per_row v), f')

-- The words of the colours in memory.
abbrev pub be_words : List ℕ → List ℕ
be_words [] = []
be_words (w ∷ ws) = w / 2 ^ 8 ∷ w % 2 ^ 8 ∷ be_words ws

unfoldable pub save_pal : Dos → View → Bool → File → ℤ × File
unfolding s_write all_colors
save_pal dos v odd f =
    let nb = playfield v odd v.num_bpl in
    let colors = if is_dual v then 2 ^ nb else all_colors v in
    s_write dos (be_words (take colors (drop (first_color v odd) v.pal))) f
