-- ===== src/Searcher/Head/Fits/Parts.antt =====
-- The texts that show the view fit.
use demotool.Base.{ℕ, zero, suc, ◌+◌, ◌/◌, ◌^◌, ◌≤◌, ◌<◌, ◌≡◌, refl, arith, List, [], ◌∷◌}
use demotool.Base.{true, inl, inr, Bool-cases, ltb, lt→ltb, ◌==◌, if◌then◌else◌, length}
use demotool.Base.{length-append, get_or, All}
use demotool.Base.Int.{ℤ, pos, negsuc, abs}
use demotool.Base.CString.{codes}
use demotool.Protocol.Flag.{has_flag}
use demotool.Searcher.Mode
use demotool.Searcher.View.{View}
use demotool.Searcher.Keys.Kept.{IsView}
use demotool.Searcher.Head.Numbers.{
  pad, show_d, show_plus_d, show_x, length-pad, length-show_d, length-show_plus_d, length-show_x,
}
use demotool.Searcher.Head.{
  lines, Part, screen, pf1width, pf2width, height, address, rgb, modeven, mododd, display, priority,
  saveas, bplanes, reso, bpllocks, bpladdrs, status, is_wanted, draw_part, draw_parts,
  playfield_width, on_off, locks, addresses, status_line, s_text_disp, s_text_prio, s_text_save,
  s_status_lines,
}
use demotool.Searcher.Head.Fits.{Fits, IsShort, All-append, lines-Fits, line-Fits}

length-number : (c k n : ℕ) → n < 10 ^ suc k → length (pad c (suc k) (show_d (pos n))) ≡ suc k
length-number c k n h = length-pad c (suc k) (show_d (pos n)) (length-show_d k n h)

length-hex : (k n : ℕ) → n < 16 ^ suc k → length (pad b'0' (suc k) (show_x n)) ≡ suc k
length-hex k n h = length-pad b'0' (suc k) (show_x n) (length-show_x k n h)

length-playfield_width :
    (w : ℕ) (m : ℤ)
    → w ≤ 4096
    → abs m < 1000
    → length (pad b' ' 4 (show_d (playfield_width w m))) ≡ 4
unfolding playfield_width
length-playfield_width w (pos m) h k = length-number b' ' 3 (w + m) (omega arith)
length-playfield_width w (negsuc m) h k = length-number b' ' 3 w (omega arith)

length-modulo : (m : ℤ) → abs m < 1000 → length (pad b' ' 4 (show_plus_d m)) ≡ 4
length-modulo m h = length-pad b' ' 4 (show_plus_d m) (length-show_plus_d 2 m h)

length-on_off : (num i n : ℕ) → All (λ s. length s ≡ 3) (on_off num i n)
unfolding on_off
length-on_off num i zero = tt
length-on_off num i (suc n) = (
  elim (Bool-cases (ltb i num)) [ inl e ↦ rw e refl | inr e ↦ rw e refl ],
  length-on_off num (i + 1) n,
)

length-locks : (lock n : ℕ) → All (λ s. length s ≡ 1) (locks lock n)
unfolding locks
length-locks lock zero = tt
length-locks lock (suc n) = (ground arith, length-locks (lock / 2) n)

get_or-below : (m : ℕ) (xs : List ℕ) (i : ℕ) → 0 < m → All (λ a. a < m) xs → get_or xs i 0 < m
get_or-below m [] i h l = h
get_or-below m (x ∷ xs) zero h (p, l) = p
get_or-below m (x ∷ xs) (suc i) h (p, l) = get_or-below m xs i h l

length-addresses :
    (ptrs : List ℕ) (i n : ℕ)
    → All (λ a. a < 0x100_0000) ptrs
    → All (λ s. length s ≡ 6) (addresses ptrs i n)
unfolding addresses
length-addresses ptrs i zero h = tt
length-addresses ptrs i (suc n) h = (
  length-hex 5 (get_or ptrs i 0) (get_or-below 0x100_0000 ptrs i (omega arith) h),
  length-addresses ptrs (i + 1) n h,
)

-- An entry of a table.
get_or-All {ℓ κ} :
    {A : Type ℓ} (P : A → Type κ) (xs : List A) (i : ℕ) (d : A)
    → All P xs
    → i < length xs
    → P (get_or xs i d)
get_or-All P [] i d h l = absurd (omega arith)
get_or-All P (x ∷ xs) zero d (p, h) l = p
get_or-All P (x ∷ xs) (suc i) d (p, h) l = get_or-All P xs i d h (omega arith)

length-entry :
    (n : ℕ) (xs : List (List ℕ)) (i : ℕ)
    → All (λ s. length s ≡ n) xs
    → i < length xs
    → length (get_or xs i []) ≡ n
length-entry n xs i h l = get_or-All (λ s. length s ≡ n) xs i [] h l

length-status_line : (v : View) → IsShort v → length (status_line v) ≡ 13
unfolding status_line
length-status_line v h =
    let error = length-pad b' ' 6 (show_d (pos v.ioerr)) (length-show_d 5 v.ioerr h.ioerr) in
    let all : All (λ s. length s ≡ 13) s_status_lines =
      (refl, (refl, (refl, (refl, (refl, (refl, (refl, (refl, (refl, tt))))))))) in
    elim (Bool-cases (v.ioerr == 0)) [
      | inl e ↦ rw e (length-entry 13 s_status_lines v.status all (omega (arith, h.status)))
      | inr e ↦ rw e (
          omega (arith, length-append (codes "IoErr: ") (pad b' ' 6 (show_d (pos v.ioerr))), error))
    ]

length-plane_number : (n : ℕ) → n ≤ 7 → length (show_d (pos n)) ≡ 1
unfolding show_d
length-plane_number n h = let one = lt→ltb n 10 (omega (arith, h)) in rw one refl

length-reso :
    (flags : ℕ) → length (if has_flag flags Mode.hires then codes "HIRES" else codes "LORES") ≡ 5
length-reso flags = elim (Bool-cases (has_flag flags Mode.hires)) [
  | inl e ↦ rw e refl
  | inr e ↦ rw e refl
]

draw_part-Fits : (v : View) → IsView v → IsShort v → (part : Part) → All Fits (draw_part v part)
unfolding draw_part
draw_part-Fits v h s screen =
    line-Fits _ _ _ _ _ (length-number b' ' 3 v.scr_width (omega (arith, h.width_max)))
      (ground arith)
draw_part-Fits v h s pf1width =
    line-Fits _ _ _ _ _ (length-playfield_width v.scr_width v.mod_odd h.width_max h.odd_max)
      (ground arith)
draw_part-Fits v h s pf2width =
    line-Fits _ _ _ _ _ (length-playfield_width v.scr_width v.mod_even h.width_max h.even_max)
      (ground arith)
draw_part-Fits v h s height =
    line-Fits _ _ _ _ _ (length-number b' ' 3 v.scr_height (omega (arith, h.height_max)))
      (ground arith)
draw_part-Fits v h s address = line-Fits _ _ _ _ _ (length-hex 5 v.pal_ptr s.pal_ptr) (ground arith)
draw_part-Fits v h s rgb =
    let index = pad b'0' 2 (show_d (pos v.rgb_idx)) in
    let colour = pad b'0' 3 (show_x (get_or v.pal v.rgb_idx 0)) in
    All-append Fits (lines 1 true 406 10 2 (index ∷ [])) (lines 1 true 438 10 3 (colour ∷ []))
      (line-Fits 1 406 10 2 index (length-number b'0' 1 v.rgb_idx (omega (arith, h.rgb_idx_max)))
        (ground arith))
      (line-Fits 1 438 10 3 colour (length-hex 2 (get_or v.pal v.rgb_idx 0) s.colour)
        (ground arith))
draw_part-Fits v h s modeven =
    line-Fits _ _ _ _ _ (length-modulo v.mod_even h.even_max) (ground arith)
draw_part-Fits v h s mododd = line-Fits _ _ _ _ _ (length-modulo v.mod_odd h.odd_max) (ground arith)
draw_part-Fits v h s display =
    line-Fits _ _ _ _ _
      (length-entry 4 s_text_disp v.display (refl, (refl, (refl, tt)))
        (omega (arith, h.display_max)))
      (ground arith)
draw_part-Fits v h s priority =
    line-Fits _ _ _ _ _
      (length-entry 4 s_text_prio v.priority (refl, (refl, tt)) (omega (arith, h.priority_max)))
      (ground arith)
draw_part-Fits v h s saveas =
    line-Fits _ _ _ _ _
      (length-entry 4 s_text_save v.save_as (refl, (refl, (refl, tt)))
        (omega (arith, h.save_as_max)))
      (ground arith)
draw_part-Fits v h s bplanes =
    All-append Fits (lines 1 true 566 10 1 (show_d (pos v.num_bpl) ∷ []))
      (lines 1 true 486 18 3 (on_off v.num_bpl 0 6))
      (line-Fits 1 566 10 1 _ (length-plane_number v.num_bpl h.num_bpl_max) (ground arith))
      (lines-Fits 1 486 18 3 (on_off v.num_bpl 0 6) (length-on_off v.num_bpl 0 6) (ground arith))
draw_part-Fits v h s reso = line-Fits _ _ _ _ _ (length-reso v.flags) (ground arith)
draw_part-Fits v h s bpllocks =
    lines-Fits 1 518 18 1 (locks v.bpl_lock 6) (length-locks v.bpl_lock 6) (ground arith)
draw_part-Fits v h s bpladdrs =
    lines-Fits 1 542 18 6 (addresses v.bpl_ptr 0 6) (length-addresses v.bpl_ptr 0 6 s.planes)
      (ground arith)
draw_part-Fits v h s status = line-Fits _ _ _ _ _ (length-status_line v s) (ground arith)

pub draw_parts-Fits :
    (texts : ℕ) (v : View) (ps : List Part)
    → IsView v
    → IsShort v
    → All Fits (draw_parts texts v ps)
unfolding draw_parts
draw_parts-Fits texts v [] h s = tt
draw_parts-Fits texts v (part ∷ ps) h s =
    let rest = draw_parts-Fits texts v ps h s in
    elim (Bool-cases (is_wanted texts part)) [
      | inl e ↦ rw e (
          All-append Fits (draw_part v part) (draw_parts texts v ps) (draw_part-Fits v h s part)
            rest)
      | inr e ↦ rw e rest
    ]
