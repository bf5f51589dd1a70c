-- ===== src/Searcher/Planes.antt =====
-- The functions of searcher/searcher.c that move the bitplanes and change the modulos. The LONG and
-- WORD values of the source that can be negative are integers, and an address is the 32 bits of one.
use demotool.Base.{ℕ, ◌+◌, ◌-◌, ◌*◌, ◌/◌, ◌^◌, Option, none, some, List, [], ◌∷◌}
use demotool.Base.{bit_or, bit_and, replicate, ltb, ◌==◌, if◌then◌else◌}
use demotool.Base.Int.{ℤ, pos, negsuc, ◌+ℤ◌, ◌*ℤ◌, negate_ℤ, abs, bits32}
use demotool.Protocol.Flag.{has_flag}
use demotool.Searcher.Mode
use demotool.Searcher.Text
use demotool.Searcher.Key
use demotool.Searcher.View.{View}
use demotool.Searcher.Geometry.{Qualifier}

unfoldable pub reset_bplane_addrs : View → ℕ → View × ℕ
reset_bplane_addrs v ptr = (record v { bpl_ptr = replicate 6 ptr }, Text.bpladdrs)

-- The bytes from a line of a plane to the next.
abbrev pub line : View → ℤ → ℤ
line v modulo = pos (v.scr_width / 8) +ℤ modulo

-- The steps of the even planes and of the odd ones for a key.
unfoldable pub move_steps : View → ℕ → Option (ℤ × ℤ)
move_steps v key =
    if key == Key.left
    then some (pos 2, pos 2)
    else if key == Key.right
    then some (negsuc 1, negsuc 1)
    else if key == Key.down
    then some (negate_ℤ (line v v.mod_even), negate_ℤ (line v v.mod_odd))
    else if key == Key.up
    then some (line v v.mod_even, line v v.mod_odd)
    else none

-- By how much a step is multiplied.
unfoldable pub move_factor : View → Qualifier → ℕ
move_factor v qual =
    (if qual.rshift then v.scr_height / 8 else if qual.lshift then v.scr_height / 4 else 1)
    * (if qual.repeat then 4 else 1)

-- The loop over the planes from the `n`th on: those that the lock names are moved.
unfoldable pub move_planes : ℕ → ℕ → ℤ → ℤ → ℕ → List ℕ → List ℕ
move_planes lock mask even odd n [] = []
move_planes lock mask even odd n (ptr ∷ ptrs) =
    let step = if has_flag n 1 then even else odd in
    let moved = bit_and (bits32 (pos ptr +ℤ step)) mask in
    (if has_flag lock (2 ^ n) then moved else ptr) ∷ move_planes lock mask even odd (n + 1) ptrs

-- The move of the planes, with their steps.
unfoldable pub move_by : View → Qualifier → Option (ℤ × ℤ) → View × ℕ
unfolding move_factor move_planes
move_by v qual none = (v, 0)
move_by v qual (some (step_even, step_odd)) =
    let m = move_factor v qual in
    let even = if has_flag v.flags Mode.dualpf then step_even else step_odd in
    let mask = v.max_chipmem - 1 in
    let ptrs = move_planes v.bpl_lock mask (even *ℤ m) (step_odd *ℤ m) 0 v.bpl_ptr in
    (record v { bpl_ptr = ptrs }, Text.bpladdrs)

unfoldable pub handle_bplane_move : View → ℕ → Qualifier → View × ℕ
unfolding move_steps move_by
handle_bplane_move v key qual = move_by v qual (move_steps v key)

-- The addresses of the two keys by the size of the chip memory in pieces of 64 KB; for 256 KB the
-- case of the second key falls through to that for 512 KB.
unfoldable pub chipmem_addr : ℕ → ℕ → Option ℕ
chipmem_addr size key =
    if key == Key.f8
    then (if size == 0x4
        then some 0x0_0000
        else if size == 0x8
        then some 0x0_0000
        else if size == 0x10
        then some 0x8_0000
        else if size == 0x20
        then some 0x10_0000
        else none)
    else if key == Key.f9
    then (if size == 0x4
        then some 0x5_0000
        else if size == 0x8
        then some 0x5_0000
        else if size == 0x10
        then some 0xd_0000
        else if size == 0x20
        then some 0x15_0000
        else none)
    else none

unfoldable pub set_chipmem_addr : View → ℕ → View × ℕ
unfolding chipmem_addr
set_chipmem_addr v key = elim (chipmem_addr (v.max_chipmem / 2 ^ 16) key) [
  | none ↦ (v, 0)
  | some ptr ↦ (record v { bpl_ptr = replicate 6 ptr }, Text.bpladdrs)
]

abbrev pub max_modulo : ℕ
max_modulo = 1000

-- A modulo moved by a step, if it stays in range.
unfoldable pub step_modulo : ℤ → ℤ → ℤ
step_modulo modulo step = if ltb (abs (modulo +ℤ step)) max_modulo then modulo +ℤ step else modulo

unfoldable pub modulo_step : ℕ → Option ℤ
modulo_step key =
    if key == Key.fstop
    then some (pos 2)
    else if key == Key.comma
    then some (negsuc 1)
    else if key == Key.m
    then some (pos 10)
    else if key == Key.n
    then some (negsuc 9)
    else none

-- The key that sets the modulos to 0.
unfoldable pub clear_modulos : View → Qualifier → View × ℕ
clear_modulos v qual =
    if qual.rshift
    then (record v { mod_even = pos 0 }, Text.modeven)
    else if qual.lshift
    then (record v { mod_odd = pos 0 }, Text.mododd)
    else (record v { mod_even = pos 0; mod_odd = pos 0 }, bit_or Text.modeven Text.mododd)

-- The change of the modulos by a step.
unfoldable pub step_modulos : View → Qualifier → Option ℤ → View × ℕ
unfolding step_modulo
step_modulos v qual none = (v, 0)
step_modulos v qual (some step) =
    let even = step_modulo v.mod_even step in
    let odd = step_modulo v.mod_odd step in
    if qual.rshift
    then (record v { mod_even = even }, Text.modeven)
    else if qual.lshift
    then (record v { mod_odd = odd }, Text.mododd)
    else (record v { mod_even = even; mod_odd = odd }, bit_or Text.mododd Text.modeven)

unfoldable pub handle_modulos : View → ℕ → Qualifier → View × ℕ
unfolding modulo_step clear_modulos step_modulos
handle_modulos v key qual =
    if key == Key.slash then clear_modulos v qual else step_modulos v qual (modulo_step key)
