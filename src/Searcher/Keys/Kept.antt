-- ===== src/Searcher/Keys/Kept.antt =====
-- What every function of searcher/searcher.c that a key calls keeps of the view.
pub mod Planes
pub mod Colours
use demotool.Base.{ℕ, ◌+◌, ◌-◌, ◌*◌, ◌/◌, ◌^◌, ◌≤◌, ◌<◌, ◌≡◌, refl, arith, Option, none, some}
use demotool.Base.{
  zero, suc, inl, inr, Bool, true, false, bit_or, bit_xor, length, Bool-cases, ltb, if◌then◌else◌,
}
use demotool.Base.Bits.{is_bounded, bounded_below}
use demotool.Searcher.Mode
use demotool.Searcher.Mode.{clear}
use demotool.Searcher.Geometry.{
  Qualifier, inc_scr_width, dec_scr_width, set_bplane_lock, handle_display_mode, handle_save_as,
  set_bplane_height, handle_bplane_height, dec_bplane_num, inc_bplane_num, next, set_hires,
  set_resolution, handle_priority,
}
use demotool.Base.Int.{abs}
use demotool.Searcher.View.{View}

-- The numbers of the view lie in their ranges.
pub record IsView (v : View) : Type 0 where
  pub width_min : 32 ≤ v.scr_width
  pub width_max : v.scr_width ≤ 4096
  pub height_min : 0 < v.scr_height
  pub height_max : v.scr_height < 9999
  pub num_bpl_max : v.num_bpl ≤ 7
  pub display_max : v.display ≤ 2
  pub priority_max : v.priority ≤ 1
  pub save_as_max : v.save_as ≤ 2
  pub lock_max : v.bpl_lock < 64
  pub rgb_idx_max : v.rgb_idx < 32
  pub flags_max : v.flags < 32
  pub even_max : abs v.mod_even < 1000
  pub odd_max : abs v.mod_odd < 1000
  pub planes : length v.bpl_ptr ≡ 6
  pub colours : length v.pal ≡ 35

-- A property of the view that a function gives.
pub data Kept (P : View → Type 0) : View × ℕ → Type 0 where
  kept : {v : View} {update : ℕ} → P v → Kept P (v, update)

pub if_Kept :
    {P : View → Type 0} (b : Bool) (x y : View × ℕ)
    → Kept P x
    → Kept P y
    → Kept P (if b then x else y)
if_Kept true x y h k = h
if_Kept false x y h k = k

-- A result of a switch over keys, if there is one.
pub data KeptIf (P : View → Type 0) : Option (View × ℕ) → Type 0 where
  unended : KeptIf P none
  ended : {r : View × ℕ} → Kept P r → KeptIf P (some r)

pub if_KeptIf :
    {P : View → Type 0} (b : Bool) (x y : Option (View × ℕ))
    → KeptIf P x
    → KeptIf P y
    → KeptIf P (if b then x else y)
if_KeptIf true x y h k = h
if_KeptIf false x y h k = k

pub inc_scr_width-Kept : (v : View) → IsView v → Kept IsView (inc_scr_width v)
unfolding inc_scr_width
inc_scr_width-Kept v h = kept (ground arith)

pub dec_scr_width-Kept : (v : View) → IsView v → Kept IsView (dec_scr_width v)
unfolding dec_scr_width
dec_scr_width-Kept v h = kept (ground arith)

lock_bit : (lock i : ℕ) → lock < 64 → i ≤ 5 → bit_xor lock (2 ^ i) < 64
unfolding is_bounded
lock_bit lock zero h l = bounded_below (λ x. bit_xor x 1) 64 64 lock (omega arith) refl h
lock_bit lock (suc zero) h l = bounded_below (λ x. bit_xor x 2) 64 64 lock (omega arith) refl h
lock_bit lock (suc (suc zero)) h l =
    bounded_below (λ x. bit_xor x 4) 64 64 lock (omega arith) refl h
lock_bit lock (suc (suc (suc zero))) h l =
    bounded_below (λ x. bit_xor x 8) 64 64 lock (omega arith) refl h
lock_bit lock (suc (suc (suc (suc zero)))) h l =
    bounded_below (λ x. bit_xor x 16) 64 64 lock (omega arith) refl h
lock_bit lock (suc (suc (suc (suc (suc zero))))) h l =
    bounded_below (λ x. bit_xor x 32) 64 64 lock (omega arith) refl h
lock_bit lock (suc (suc (suc (suc (suc (suc i)))))) h l = absurd (omega arith)

pub set_bplane_lock-Kept : (v : View) (i : ℕ) → IsView v → Kept IsView (set_bplane_lock v i)
unfolding set_bplane_lock
set_bplane_lock-Kept v i h = kept (ground (arith, lock_bit v.bpl_lock i))

pub handle_save_as-Kept : (v : View) → IsView v → Kept IsView (handle_save_as v)
unfolding handle_save_as
handle_save_as-Kept v h = kept (ground arith)

pub set_bplane_height-Kept :
    (v : View) (n : ℕ) → 0 < n → n < 9999 → IsView v → Kept IsView (set_bplane_height v n)
unfolding set_bplane_height
set_bplane_height-Kept v n p q h = kept (ground arith)

pub handle_bplane_height-Kept :
    (v : View) (qual : Qualifier) → IsView v → Kept IsView (handle_bplane_height v qual)
unfolding handle_bplane_height
handle_bplane_height-Kept v qual h = kept (ground arith)

pub dec_bplane_num-Kept : (v : View) → IsView v → Kept IsView (dec_bplane_num v)
unfolding dec_bplane_num
dec_bplane_num-Kept v h = elim (Bool-cases (ltb 0 v.num_bpl)) [
  | inl e ↦ rw e (kept (ground arith))
  | inr e ↦ rw e (kept h)
]

pub inc_bplane_num-Kept : (v : View) → IsView v → Kept IsView (inc_bplane_num v)
unfolding inc_bplane_num
inc_bplane_num-Kept v h = elim (Bool-cases (ltb v.num_bpl 7)) [
  | inl e ↦ rw e (kept (ground arith))
  | inr e ↦ rw e (kept h)
]

-- The flags of the modes, of which there are five.
clear-hires : (f : ℕ) → f < 32 → clear f Mode.hires < 32
unfolding is_bounded
clear-hires f h = bounded_below (λ x. clear x Mode.hires) 32 32 f (omega arith) refl h

clear-ham : (f : ℕ) → f < 32 → clear f Mode.ham < 32
unfolding is_bounded
clear-ham f h = bounded_below (λ x. clear x Mode.ham) 32 32 f (omega arith) refl h

clear-pf2pri : (f : ℕ) → f < 32 → clear f Mode.pf2pri < 32
unfolding is_bounded
clear-pf2pri f h = bounded_below (λ x. clear x Mode.pf2pri) 32 32 f (omega arith) refl h

set_hires_flag : (f : ℕ) → f < 32 → bit_or f Mode.hires < 32
unfolding is_bounded
set_hires_flag f h = bounded_below (λ x. bit_or x Mode.hires) 32 32 f (omega arith) refl h

set_pf2pri : (f : ℕ) → f < 32 → bit_or f Mode.pf2pri < 32
unfolding is_bounded
set_pf2pri f h = bounded_below (λ x. bit_or x Mode.pf2pri) 32 32 f (omega arith) refl h

set_mode : (f d : ℕ) → f < 32 → d ≤ 2 → bit_or (clear f 7) (2 ^ d) < 32
unfolding is_bounded
set_mode f zero h l = bounded_below (λ x. bit_or (clear x 7) 1) 32 32 f (omega arith) refl h
set_mode f (suc zero) h l = bounded_below (λ x. bit_or (clear x 7) 2) 32 32 f (omega arith) refl h
set_mode f (suc (suc zero)) h l =
    bounded_below (λ x. bit_or (clear x 7) 4) 32 32 f (omega arith) refl h
set_mode f (suc (suc (suc d))) h l = absurd (omega arith)

next-le : (max n : ℕ) → next max n ≤ max
next-le max n = ground arith

mode-IsView :
    (v : View) (d f : ℕ) → d ≤ 2 → f < 32 → IsView v → IsView (record v { display = d; flags = f })
mode-IsView v d f l k h = ground arith

pub handle_display_mode-Kept : (v : View) → IsView v → Kept IsView (handle_display_mode v)
unfolding handle_display_mode
handle_display_mode-Kept v h =
    let display = next 2 v.display in
    let least = next-le 2 v.display in
    let flags = bit_or (clear v.flags 7) (2 ^ display) in
    let small : flags < 32 = set_mode v.flags display h.flags_max least in
    let cleared : clear flags Mode.hires < 32 = clear-hires flags small in
    if_Kept _ _ _ (kept (mode-IsView v display (clear flags Mode.hires) least cleared h))
      (kept (mode-IsView v display flags least small h))

pub set_hires-Kept : (v : View) → IsView v → Kept IsView (set_hires v)
unfolding set_hires
set_hires-Kept v h =
    let flags = bit_or v.flags Mode.hires in
    let small : flags < 32 = set_hires_flag v.flags h.flags_max in
    let cleared : clear flags Mode.ham < 32 = clear-ham flags small in kept (ground arith)

pub set_resolution-Kept :
    (v : View) (hires : Bool) → IsView v → Kept IsView (set_resolution v hires)
unfolding set_resolution
set_resolution-Kept v true h = set_hires-Kept v h
set_resolution-Kept v false h = let cleared = clear-hires v.flags h.flags_max in kept (ground arith)

pub handle_priority-Kept : (v : View) → IsView v → Kept IsView (handle_priority v)
unfolding handle_priority
handle_priority-Kept v h =
    let least = next-le 1 v.priority in
    let cleared = clear-pf2pri v.flags h.flags_max in
    let added = set_pf2pri v.flags h.flags_max in kept (ground arith)
