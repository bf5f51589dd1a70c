-- ===== src/Searcher/Colours.antt =====
-- The functions of searcher/searcher.c that change the palette. A colour is a word of 16 bits.
use demotool.Base.{ℕ, zero, suc, ◌+◌, ◌-◌, ◌||◌, Option, none, some, List, [], ◌∷◌, ◌++◌}
use demotool.Base.{bit_or, bit_and, bit_xor, ltb, ◌==◌, if◌then◌else◌, get_or, set, drop}
use demotool.Base.Int.{ℤ, pos, negsuc, ◌+ℤ◌, ◌*ℤ◌, abs, bits32}
use demotool.Searcher.Text
use demotool.Searcher.Key
use demotool.Searcher.View.{View}
use demotool.Searcher.Geometry.{Qualifier}

-- What a key does to a part of a colour.
pub data Change : Type 0 where
  up down toggle : Change

-- The rest of a colour: `rgb & ~msk`.
abbrev pub rest : ℕ → ℕ → ℕ
rest rgb msk = bit_and rgb (0xffff - msk)

-- The changes of the part `msk` of a colour, by `unit`.
unfoldable pub change_part : Change → ℕ → ℕ → ℕ → ℕ
change_part up unit msk rgb =
    if ltb (bit_and rgb msk) msk then bit_or (bit_and rgb msk + unit) (rest rgb msk) else rgb
change_part down unit msk rgb =
    if ltb 0 (bit_and rgb msk) then bit_or (bit_and rgb msk - unit) (rest rgb msk) else rgb
change_part toggle unit msk rgb =
    if bit_and rgb msk == msk || bit_and rgb msk == 0 then bit_xor rgb msk else rest rgb msk

-- The change of a key of the numeric pad.
unfoldable pub change_key : ℕ → Option (ℕ → ℕ)
unfolding change_part
change_key key =
    if key == Key.np_0
    then some (λ rgb. if rgb == 0xfff || rgb == 0 then bit_xor rgb 0x0fff else 0)
    else if key == Key.np_7
    then some (change_part up 0x100 0xf00)
    else if key == Key.np_4
    then some (change_part down 0x100 0xf00)
    else if key == Key.np_1
    then some (change_part toggle 0x100 0xf00)
    else if key == Key.np_8
    then some (change_part up 0x010 0x0f0)
    else if key == Key.np_5
    then some (change_part down 0x010 0x0f0)
    else if key == Key.np_2
    then some (change_part toggle 0x010 0x0f0)
    else if key == Key.np_9
    then some (change_part up 0x001 0x00f)
    else if key == Key.np_6
    then some (change_part down 0x001 0x00f)
    else if key == Key.np_3
    then some (change_part toggle 0x001 0x00f)
    else none

unfoldable pub handle_palette : View → ℕ → View × ℕ
unfolding change_key
handle_palette v key = elim (change_key key) [
  | none ↦ (v, 0)
  | some change ↦
      (record v { pal = set v.pal v.rgb_idx (change (get_or v.pal v.rgb_idx 0)) }, Text.rgb)
]

-- `rgb_idx - 1`, of which five bits are kept, in two's complement.
unfoldable pub dec_palette_index : View → View × ℕ
dec_palette_index v =
    (record v { rgb_idx = bit_and (bits32 (pos v.rgb_idx +ℤ negsuc 0)) 0x1f }, Text.rgb)

unfoldable pub inc_palette_index : View → View × ℕ
inc_palette_index v = (record v { rgb_idx = bit_and (v.rgb_idx + 1) 0x1f }, Text.rgb)

-- The words that are read from `pp` on, `step` bytes apart, each `shft` bytes further.
unfoldable pub read_words : (ℕ → ℕ) → ℕ → ℕ → ℕ → ℕ → ℕ → List ℕ
read_words memory mask shft step zero pp = []
read_words memory mask shft step (suc n) pp =
    memory (bit_and (pp + shft) mask)
    ∷ read_words memory mask shft step n (bit_and (pp + step) mask)

-- The palette is read from the memory, which is words by their addresses.
unfoldable pub handle_palette_move : (ℕ → ℕ) → View → Qualifier → ℤ → View × ℕ
unfolding read_words
handle_palette_move memory v qual step =
    let step' = if qual.lshift then step *ℤ 2 else step in
    let shft = if qual.lshift then 2 else 0 in
    let mask = v.max_chipmem - 1 in
    let pp = bit_and (bits32 (pos v.pal_ptr +ℤ step')) mask in
    (
      record v {
        pal_ptr = pp;
        pal = read_words memory mask shft (abs step') 32 pp ++ drop 32 v.pal;
      },
      bit_or Text.rgb_change Text.address,
    )
