-- ===== src/Searcher/Head/Redrawn.antt =====
-- What a function of searcher/searcher.c says that it changed of the view: what it does not name is
-- as it was.
pub mod Modes
pub mod Keys
use demotool.Base.{ℕ, ◌+◌, ◌-◌, ◌*◌, ◌/◌, ◌^◌, ◌≤◌, ◌<◌, ◌≡◌, refl, arith, Option, none, some, List}
use demotool.Base.Bits.{agree_below, agree_below→eq}
use demotool.Base.{ap, not, ◌&&◌, ◌==◌, bit_and}
use demotool.Base.{
  zero, suc, inl, inr, Bool, true, false, bit_or, Bool-cases, ltb, if◌then◌else◌, replicate,
}
use demotool.Base.Int.{ℤ}
use demotool.Protocol.Flag.{has_flag}
use demotool.Searcher.Mode
use demotool.Searcher.Mode.{clear}
use demotool.Searcher.Text
use demotool.Searcher.View.{View}
use demotool.Searcher.Geometry.{
  Qualifier, inc_scr_width, dec_scr_width, set_bplane_lock, handle_display_mode, handle_save_as,
  set_bplane_height, handle_bplane_height, dec_bplane_num, inc_bplane_num, next, set_hires,
  set_resolution, handle_priority,
}
use demotool.Searcher.Planes.{
  reset_bplane_addrs, move_by, handle_bplane_move, move_steps, set_chipmem_addr, chipmem_addr,
  clear_modulos, modulo_step, step_modulos, handle_modulos,
}
use demotool.Searcher.Keys.Kept.{IsView}

-- What is not among the texts to draw is as it was, and the size of the memory always is. The colours
-- are left out.
pub record Redrawn (v v' : View) (u : ℕ) : Type 0 where
  pub screen : has_flag u Text.screen ≡ false → v'.scr_width ≡ v.scr_width
  pub pf1 : has_flag u Text.pf1width ≡ false → v'.scr_width ≡ v.scr_width
  pub pf2 : has_flag u Text.pf2width ≡ false → v'.scr_width ≡ v.scr_width
  pub height : has_flag u Text.height ≡ false → v'.scr_height ≡ v.scr_height
  pub address : has_flag u Text.address ≡ false → v'.pal_ptr ≡ v.pal_ptr
  pub rgb : has_flag u Text.rgb ≡ false → v'.rgb_idx ≡ v.rgb_idx
  pub modeven : has_flag u Text.modeven ≡ false → v'.mod_even ≡ v.mod_even
  pub mododd : has_flag u Text.mododd ≡ false → v'.mod_odd ≡ v.mod_odd
  pub display : has_flag u Text.display ≡ false → v'.display ≡ v.display
  pub priority : has_flag u Text.priority ≡ false → v'.priority ≡ v.priority
  pub saveas : has_flag u Text.saveas ≡ false → v'.save_as ≡ v.save_as
  pub bplanes : has_flag u Text.bplanes ≡ false → v'.num_bpl ≡ v.num_bpl
  pub reso :
      has_flag u Text.reso ≡ false → has_flag v'.flags Mode.hires ≡ has_flag v.flags Mode.hires
  pub bpllocks : has_flag u Text.bpllocks ≡ false → v'.bpl_lock ≡ v.bpl_lock
  pub bpladdrs : has_flag u Text.bpladdrs ≡ false → v'.bpl_ptr ≡ v.bpl_ptr
  pub status : has_flag u Text.status ≡ false → v'.status ≡ v.status
  pub ioerr : has_flag u Text.status ≡ false → v'.ioerr ≡ v.ioerr
  pub chipmem : v'.max_chipmem ≡ v.max_chipmem

-- A result that tells what it changed.
pub data Tells (v : View) : View × ℕ → Type 0 where
  tells : {v' : View} {u : ℕ} → Redrawn v v' u → Tells v (v', u)

pub if_Tells :
    {v : View} (b : Bool) (x y : View × ℕ) → Tells v x → Tells v y → Tells v (if b then x else y)
if_Tells true x y h k = h
if_Tells false x y h k = k

pub same-Redrawn : (v : View) (u : ℕ) → Redrawn v v u
same-Redrawn v u = record {
  screen = λ h. refl;
  pf1 = λ h. refl;
  pf2 = λ h. refl;
  height = λ h. refl;
  address = λ h. refl;
  rgb = λ h. refl;
  modeven = λ h. refl;
  mododd = λ h. refl;
  display = λ h. refl;
  priority = λ h. refl;
  saveas = λ h. refl;
  bplanes = λ h. refl;
  reso = λ h. refl;
  bpllocks = λ h. refl;
  bpladdrs = λ h. refl;
  status = λ h. refl;
  ioerr = λ h. refl;
  chipmem = refl;
}

pub inc_scr_width-Tells : (v : View) → Tells v (inc_scr_width v)
unfolding inc_scr_width
inc_scr_width-Tells v = tells (ground arith)

pub dec_scr_width-Tells : (v : View) → Tells v (dec_scr_width v)
unfolding dec_scr_width
dec_scr_width-Tells v = tells (ground arith)

pub set_bplane_lock-Tells : (v : View) (i : ℕ) → Tells v (set_bplane_lock v i)
unfolding set_bplane_lock
set_bplane_lock-Tells v i = tells (ground arith)

pub handle_save_as-Tells : (v : View) → Tells v (handle_save_as v)
unfolding handle_save_as
handle_save_as-Tells v = tells (ground arith)

pub set_bplane_height-Tells : (v : View) (n : ℕ) → Tells v (set_bplane_height v n)
unfolding set_bplane_height
set_bplane_height-Tells v n = tells (ground arith)

pub handle_bplane_height-Tells :
    (v : View) (qual : Qualifier) → Tells v (handle_bplane_height v qual)
unfolding handle_bplane_height
handle_bplane_height-Tells v qual = tells (ground arith)

pub dec_bplane_num-Tells : (v : View) → Tells v (dec_bplane_num v)
unfolding dec_bplane_num
dec_bplane_num-Tells v = elim (Bool-cases (ltb 0 v.num_bpl)) [
  | inl e ↦ rw e (tells (ground arith))
  | inr e ↦ rw e (tells (same-Redrawn v 0))
]

pub inc_bplane_num-Tells : (v : View) → Tells v (inc_bplane_num v)
unfolding inc_bplane_num
inc_bplane_num-Tells v = elim (Bool-cases (ltb v.num_bpl 7)) [
  | inl e ↦ rw e (tells (ground arith))
  | inr e ↦ rw e (tells (same-Redrawn v 0))
]

pub reset_bplane_addrs-Tells : (v : View) (ptr : ℕ) → Tells v (reset_bplane_addrs v ptr)
unfolding reset_bplane_addrs
reset_bplane_addrs-Tells v ptr = tells (ground arith)

pub clear_modulos-Tells : (v : View) (qual : Qualifier) → Tells v (clear_modulos v qual)
unfolding clear_modulos
clear_modulos-Tells v qual = elim (Bool-cases qual.rshift) [
  | inl e ↦ rw e (tells (ground arith))
  | inr e ↦ rw e (elim (Bool-cases qual.lshift) [
    | inl e' ↦ rw e' (tells (ground arith))
    | inr e' ↦ rw e' (tells (ground arith))
  ])
]

pub step_modulos-Tells :
    (v : View) (qual : Qualifier) (step : Option ℤ) → Tells v (step_modulos v qual step)
unfolding step_modulos
step_modulos-Tells v qual none = tells (same-Redrawn v 0)
step_modulos-Tells v qual (some step) = elim (Bool-cases qual.rshift) [
  | inl e ↦ rw e (tells (ground arith))
  | inr e ↦ rw e (elim (Bool-cases qual.lshift) [
    | inl e' ↦ rw e' (tells (ground arith))
    | inr e' ↦ rw e' (tells (ground arith))
  ])
]

pub handle_modulos-Tells :
    (v : View) (key : ℕ) (qual : Qualifier) → Tells v (handle_modulos v key qual)
unfolding handle_modulos
handle_modulos-Tells v key qual =
    if_Tells _ _ _ (clear_modulos-Tells v qual) (step_modulos-Tells v qual (modulo_step key))

pub move_by-Tells :
    (v : View) (qual : Qualifier) (steps : Option (ℤ × ℤ)) → Tells v (move_by v qual steps)
unfolding move_by
move_by-Tells v qual none = tells (same-Redrawn v 0)
move_by-Tells v qual (some (even, odd)) = tells (ground arith)

pub handle_bplane_move-Tells :
    (v : View) (key : ℕ) (qual : Qualifier) → Tells v (handle_bplane_move v key qual)
unfolding handle_bplane_move
handle_bplane_move-Tells v key qual = move_by-Tells v qual (move_steps v key)

pub set_chipmem_addr-Tells : (v : View) (key : ℕ) → Tells v (set_chipmem_addr v key)
unfolding set_chipmem_addr
set_chipmem_addr-Tells v key =
    elim (chipmem_addr (v.max_chipmem / 2 ^ 16) key)
      as (λ a. Tells v (elim a [
        | none ↦ (v, 0)
        | some ptr ↦ (record v { bpl_ptr = replicate 6 ptr }, Text.bpladdrs)
      ])) [ none ↦ tells (same-Redrawn v 0) | some ptr ↦ tells (ground arith) ]
