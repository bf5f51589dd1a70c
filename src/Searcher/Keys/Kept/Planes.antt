-- ===== src/Searcher/Keys/Kept/Planes.antt =====
-- The functions of the planes keep the ranges of the view.
use demotool.Base.{
  ℕ, suc, ◌+◌, ◌/◌, ◌^◌, ◌<◌, ◌≡◌, ◌∙◌, ap, refl, Option, none, some, List, [], ◌∷◌, arith,
}
use demotool.Base.{length, replicate}
use demotool.Base.Int.{ℤ, pos, abs}
use demotool.Searcher.Text
use demotool.Searcher.View.{View}
use demotool.Searcher.Geometry.{Qualifier}
use demotool.Searcher.Planes.{
  reset_bplane_addrs, move_planes, move_by, move_steps, handle_bplane_move, chipmem_addr,
  set_chipmem_addr, step_modulo, clear_modulos, step_modulos, modulo_step, handle_modulos,
}
use demotool.Searcher.Keys.Kept.{IsView, Kept, kept, if_Kept}

-- A change of the addresses that keeps their number.
planes-IsView :
    (v : View) (ptrs : List ℕ) → length ptrs ≡ 6 → IsView v → IsView (record v { bpl_ptr = ptrs })
planes-IsView v ptrs e h = ground arith

length-move_planes :
    (lock mask : ℕ) (even odd : ℤ) (n : ℕ) (ptrs : List ℕ)
    → length (move_planes lock mask even odd n ptrs) ≡ length ptrs
unfolding move_planes
length-move_planes lock mask even odd n [] = refl
length-move_planes lock mask even odd n (p ∷ ptrs) =
    ap suc (length-move_planes lock mask even odd (n + 1) ptrs)

pub move_by-Kept :
    (v : View) (qual : Qualifier) (steps : Option (ℤ × ℤ))
    → IsView v
    → Kept IsView (move_by v qual steps)
unfolding move_by
move_by-Kept v qual none h = kept h
move_by-Kept v qual (some (even, odd)) h =
    kept (planes-IsView v _ (length-move_planes _ _ _ _ 0 v.bpl_ptr ∙ h.planes) h)

pub set_chipmem_addr-Kept : (v : View) (key : ℕ) → IsView v → Kept IsView (set_chipmem_addr v key)
unfolding set_chipmem_addr
set_chipmem_addr-Kept v key h =
    elim (chipmem_addr (v.max_chipmem / 2 ^ 16) key)
      as (λ a. Kept IsView (elim a [
        | none ↦ (v, 0)
        | some ptr ↦ (record v { bpl_ptr = replicate 6 ptr }, Text.bpladdrs)
      ])) [ none ↦ kept h | some ptr ↦ kept (planes-IsView v (replicate 6 ptr) refl h) ]

abs-step_modulo : (m step : ℤ) → abs m < 1000 → abs (step_modulo m step) < 1000
unfolding step_modulo
abs-step_modulo m step h = ground arith

modulos-IsView :
    (v : View) (even odd : ℤ)
    → abs even < 1000
    → abs odd < 1000
    → IsView v
    → IsView (record v { mod_even = even; mod_odd = odd })
modulos-IsView v even odd p q h = ground arith

pub step_modulos-Kept :
    (v : View) (qual : Qualifier) (step : Option ℤ)
    → IsView v
    → Kept IsView (step_modulos v qual step)
unfolding step_modulos
step_modulos-Kept v qual none h = kept h
step_modulos-Kept v qual (some step) h =
    let even = abs-step_modulo v.mod_even step h.even_max in
    let odd = abs-step_modulo v.mod_odd step h.odd_max in
    if_Kept qual.rshift _ _ (kept (modulos-IsView v _ v.mod_odd even h.odd_max h)) (
      if_Kept qual.lshift _ _ (kept (modulos-IsView v v.mod_even _ h.even_max odd h))
        (kept (modulos-IsView v _ _ even odd h)))

pub clear_modulos-Kept :
    (v : View) (qual : Qualifier) → IsView v → Kept IsView (clear_modulos v qual)
unfolding clear_modulos
clear_modulos-Kept v qual h =
    let zero_max : abs (pos 0) < 1000 = omega arith in
    if_Kept qual.rshift _ _ (kept (modulos-IsView v _ v.mod_odd zero_max h.odd_max h)) (
      if_Kept qual.lshift _ _ (kept (modulos-IsView v v.mod_even _ h.even_max zero_max h))
        (kept (modulos-IsView v _ _ zero_max zero_max h)))

pub handle_modulos-Kept :
    (v : View) (key : ℕ) (qual : Qualifier) → IsView v → Kept IsView (handle_modulos v key qual)
unfolding handle_modulos
handle_modulos-Kept v key qual h =
    if_Kept _ _ _ (clear_modulos-Kept v qual h) (step_modulos-Kept v qual (modulo_step key) h)

pub reset_bplane_addrs-Kept :
    (v : View) (ptr : ℕ) → IsView v → Kept IsView (reset_bplane_addrs v ptr)
unfolding reset_bplane_addrs
reset_bplane_addrs-Kept v ptr h = kept (planes-IsView v (replicate 6 ptr) refl h)

pub handle_bplane_move-Kept :
    (v : View) (key : ℕ) (qual : Qualifier) → IsView v → Kept IsView (handle_bplane_move v key qual)
unfolding handle_bplane_move
handle_bplane_move-Kept v key qual h = move_by-Kept v qual (move_steps v key) h
