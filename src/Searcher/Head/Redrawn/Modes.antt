-- ===== src/Searcher/Head/Redrawn/Modes.antt =====
-- The functions of searcher/searcher.c that change the modes tell what they changed.
use demotool.Base.{ℕ, ◌+◌, ◌^◌, ◌≤◌, ◌<◌, ◌≡◌, refl, arith, ap, not, ◌&&◌, ◌==◌, bit_and}
use demotool.Base.{zero, suc, inl, inr, Bool, true, false, bit_or, Bool-cases, ltb}
use demotool.Base.Bits.{agree_below, agree_below→eq}
use demotool.Protocol.Flag.{has_flag}
use demotool.Searcher.Mode
use demotool.Searcher.Mode.{clear}
use demotool.Searcher.Text
use demotool.Searcher.View.{View}
use demotool.Searcher.Geometry.{
  handle_display_mode, next, set_hires, set_resolution, handle_priority,
}
use demotool.Searcher.Keys.Kept.{IsView}
use demotool.Searcher.Head.Redrawn.{Tells, tells, if_Tells}

-- The other modes do not change the resolution.
same_hires :
    (f g : ℕ)
    → bit_and f Mode.hires ≡ bit_and g Mode.hires
    → has_flag f Mode.hires ≡ has_flag g Mode.hires
same_hires f g e = ap (λ n. not (n == 0)) e

next_mode-hires :
    (f d : ℕ)
    → f < 32
    → d ≤ 2
    → has_flag (bit_or (clear f 7) (2 ^ d)) Mode.hires ≡ has_flag f Mode.hires
unfolding agree_below
next_mode-hires f zero h l =
    same_hires _ f
      (agree_below→eq (λ x. bit_and (bit_or (clear x 7) 1) 16) (λ x. bit_and x 16) 32 refl f h)
next_mode-hires f (suc zero) h l =
    same_hires _ f
      (agree_below→eq (λ x. bit_and (bit_or (clear x 7) 2) 16) (λ x. bit_and x 16) 32 refl f h)
next_mode-hires f (suc (suc zero)) h l =
    same_hires _ f
      (agree_below→eq (λ x. bit_and (bit_or (clear x 7) 4) 16) (λ x. bit_and x 16) 32 refl f h)
next_mode-hires f (suc (suc (suc d))) h l = absurd (omega arith)

clear_priority-hires :
    (f : ℕ) → f < 32 → has_flag (clear f Mode.pf2pri) Mode.hires ≡ has_flag f Mode.hires
unfolding agree_below
clear_priority-hires f h =
    same_hires _ f (agree_below→eq (λ x. bit_and (clear x 8) 16) (λ x. bit_and x 16) 32 refl f h)

set_priority-hires :
    (f : ℕ) → f < 32 → has_flag (bit_or f Mode.pf2pri) Mode.hires ≡ has_flag f Mode.hires
unfolding agree_below
set_priority-hires f h =
    same_hires _ f (agree_below→eq (λ x. bit_and (bit_or x 8) 16) (λ x. bit_and x 16) 32 refl f h)

pub handle_priority-Tells : (v : View) → IsView v → Tells v (handle_priority v)
unfolding handle_priority
handle_priority-Tells v h =
    let cleared = clear_priority-hires v.flags h.flags_max in
    let added = set_priority-hires v.flags h.flags_max in
    elim (Bool-cases (ltb 1 (v.priority + 1))) [
      | inl e ↦ rw e (tells (ground arith))
      | inr e ↦ rw e (tells (ground arith))
    ]

-- A display mode with flags that have the same resolution, or with a text for it.
mode-Tells :
    (v : View) (d f : ℕ)
    → has_flag f Mode.hires ≡ has_flag v.flags Mode.hires
    → Tells v (record v { display = d; flags = f }, Text.display)
mode-Tells v d f e = tells (ground arith)

pub handle_display_mode-Tells : (v : View) → IsView v → Tells v (handle_display_mode v)
unfolding handle_display_mode
handle_display_mode-Tells v h =
    let display = next 2 v.display in
    let flags = bit_or (clear v.flags 7) (2 ^ display) in
    let same = next_mode-hires v.flags display h.flags_max (ground arith) in
    if_Tells (display == 1 && has_flag flags Mode.hires)
      (
        record v { display = display; flags = clear flags Mode.hires },
        bit_or Text.display Text.reso,
      )
      (record v { display = display; flags = flags }, Text.display) (tells (ground arith))
      (mode-Tells v display flags same)

pub set_hires-Tells : (v : View) → Tells v (set_hires v)
unfolding set_hires
set_hires-Tells v =
    let ham = Bool-cases (has_flag (bit_or v.flags Mode.hires) Mode.ham) in
    elim (Bool-cases (ltb 4 v.num_bpl)) [
      | inl e ↦ rw e (elim ham [
        | inl e' ↦ rw e' (tells (ground arith))
        | inr e' ↦ rw e' (tells (ground arith))
      ])
      | inr e ↦ rw e (elim ham [
        | inl e' ↦ rw e' (tells (ground arith))
        | inr e' ↦ rw e' (tells (ground arith))
      ])
    ]

pub set_resolution-Tells : (v : View) (b : Bool) → Tells v (set_resolution v b)
unfolding set_resolution
set_resolution-Tells v true = set_hires-Tells v
set_resolution-Tells v false = tells (ground arith)
