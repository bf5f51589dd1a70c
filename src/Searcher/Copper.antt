-- ===== src/Searcher/Copper.antt =====
-- `setup_copper` of searcher/screen.c: the copper list that shows the view. What is sent to the
-- display afterwards is left out.
pub mod Waits
use demotool.Base.{
  ℕ, zero, suc, ◌+◌, ◌-◌, ◌*◌, ◌/◌, ◌%◌, ◌^◌, Bool, Option, none, some, List, [], ◌∷◌, ◌++◌,
}
use demotool.Base.{bit_or, bit_and, ltb, if◌then◌else◌, get_or}
use demotool.Base.Int.{ℤ, bits16}
use demotool.Protocol.Flag.{has_flag}
use demotool.Searcher.Mode
use demotool.Searcher.View.{View}

-- CWAIT with a line and a column, CMove with a register and a value, and CEND.
pub data Instruction : Type 0 where
  wait : ℕ → ℕ → Instruction
  move : ℕ → ℕ → Instruction
  end : Instruction

-- `p_ucl` has room for so many.
abbrev pub room : ℕ
room = 160

unfoldable pub bplcon0 : View → ℕ
bplcon0 v =
    let ham : ℕ = if has_flag v.flags Mode.ham then 0x0800 else 0 in
    let hires : ℕ = if has_flag v.flags Mode.hires then 0x8000 else 0 in
    let dualpf : ℕ = if has_flag v.flags Mode.dualpf then 0x0400 else 0 in
    bit_or (bit_or (bit_or (bit_or 0x0200 ham) hires) dualpf) (v.num_bpl * 2 ^ 12) % 2 ^ 16

unfoldable pub bplcon2 : View → ℕ
bplcon2 v = if has_flag v.flags Mode.pf2pri then 0x0040 else 0

unfoldable pub shift : View → ℕ
shift v = bit_or (v.pf2shft * 2 ^ 4) v.pf1shft

-- A number held between two others.
abbrev pub between : ℕ → ℕ → ℕ → ℕ
between least most n = let n' = if ltb most n then most else n in if ltb n' least then least else n'

-- Where the words of a line start and stop to be fetched.
unfoldable pub dffstrt : View → ℕ
dffstrt v = if has_flag v.flags Mode.hires then 0x3c - 4 else 0x38 - 8

unfoldable pub dffstop : View → ℕ
unfolding dffstrt
dffstop v =
    let words = v.scr_width / 2 ^ 4 in
    let hires = 4 * (between 3 40 words - 2) in
    let lores = 8 * (between 2 20 words - 1) in
    dffstrt v + (if has_flag v.flags Mode.hires then hires else lores)

-- The colours of the sprites in the `n` lines from the y-th on.
unfoldable pub sprite_lines : List ℕ → ℕ → ℕ → List Instruction
sprite_lines pal y zero = []
sprite_lines pal y (suc n) =
    wait (4 + y * 11) 0
    ∷ move 0xdff1a2 (get_or pal (y * 7) 0)
    ∷ move 0xdff1ac (get_or pal (y * 7 + 1) 0)
    ∷ move 0xdff1aa (get_or pal (y * 7 + 2) 0)
    ∷ move 0xdff1b4 (get_or pal (y * 7 + 3) 0)
    ∷ move 0xdff1b2 (get_or pal (y * 7 + 4) 0)
    ∷ move 0xdff1bc (get_or pal (y * 7 + 5) 0)
    ∷ move 0xdff1ba (get_or pal (y * 7 + 6) 0)
    ∷ sprite_lines pal (y + 1) n

-- The addresses of the `n` planes from the y-th on.
unfoldable pub plane_moves : List ℕ → ℕ → ℕ → List Instruction
plane_moves ptrs y zero = []
plane_moves ptrs y (suc n) =
    let ptr = 0xdff0e0 + 4 * y in
    let bpl = bit_and (get_or ptrs y 0) 0x1ffffe in
    move ptr (bpl / 2 ^ 16) ∷ move (ptr + 2) (bpl % 2 ^ 16) ∷ plane_moves ptrs (y + 1) n

-- The `n` colours from the y-th on.
unfoldable pub colour_moves : List ℕ → ℕ → ℕ → List Instruction
colour_moves pal y zero = []
colour_moves pal y (suc n) = move (0xdff180 + 2 * y) (get_or pal y 0) ∷ colour_moves pal (y + 1) n

-- The line behind the picture.
unfoldable pub last_line : View → ℕ
last_line v = let height = v.scr_height + 63 in if ltb 263 height then 263 else height

-- The registers that show the picture from line 62 on.
unfoldable pub picture_moves : View → List Instruction
unfolding shift dffstop bplcon2
picture_moves v =
    wait 62 0
    ∷ move 0xdff100 0x0200
    ∷ move 0xdff102 (shift v)
    ∷ move 0xdff180 0x0fff
    ∷ move 0xdff108 (bits16 v.mod_odd)
    ∷ move 0xdff10a (bits16 v.mod_even)
    ∷ move 0xdff08e 0x1a71
    ∷ move 0xdff090 0x7fc1
    ∷ move 0xdff092 (dffstrt v)
    ∷ move 0xddf094 (dffstop v)
    ∷ move 0xdff104 (bplcon2 v)
    ∷ []

-- The end of the list, from the line in which the planes are switched on.
unfoldable pub end_moves : View → List Instruction
unfolding bplcon0 last_line
end_moves v =
    wait 63 10
    ∷ move 0xdff100 (bplcon0 v)
    ∷ move 0xdff180 (get_or v.pal 0 0)
    ∷ wait (last_line v) 0
    ∷ move 0xdff100 0x0200
    ∷ move 0xdff180 0x0fff
    ∷ wait (last_line v + 1) 0
    ∷ move 0xdff180 0x0203
    ∷ end
    ∷ []

unfoldable pub start_moves : List Instruction
start_moves =
    wait 0 0
    ∷ move 0xdff100 0xa200
    ∷ move 0xdff180 0x0fff
    ∷ wait 1 6
    ∷ move 0xdff180 0x0203
    ∷ move 0xdff104 0x0000
    ∷ []

-- `setup_copper`: the list, or NULL where there is no memory.
unfoldable pub setup_copper : Bool → View → Option (List Instruction)
unfolding start_moves sprite_lines picture_moves plane_moves colour_moves end_moves
setup_copper allocated v =
    if allocated
    then some (
        start_moves
        ++ (sprite_lines v.pal 0 5
            ++ (picture_moves v
                ++ (plane_moves v.bpl_ptr 0 6 ++ (colour_moves v.pal 1 31 ++ end_moves v)))))
    else none
