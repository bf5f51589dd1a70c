-- ===== src/Searcher/Head/Fits.antt =====
-- The texts of the header are whole, fit the buffer in which they are made, and lie in the window.
pub mod Parts
pub mod Statics
pub mod Header
use demotool.Base.{
  ℕ, zero, suc, ◌+◌, ◌-◌, ◌*◌, ◌/◌, ◌^◌, ◌≤◌, ◌<◌, ◌≡◌, refl, arith, List, [], ◌∷◌, ◌++◌,
}
use demotool.Base.{
  Bool, true, false, inl, inr, Bool-cases, ltb, lt→ltb, ◌==◌, if◌then◌else◌, length,
}
use demotool.Base.{length-append, get_or, All}
use demotool.Base.Int.{ℤ, pos, negsuc, abs, ◌+ℤ◌, is_negative}
use demotool.Base.CString.{codes}
use demotool.Protocol.Flag.{has_flag}
use demotool.Searcher.Mode
use demotool.Searcher.View.{View}
use demotool.Searcher.Keys.Kept.{IsView}
use demotool.Searcher.Head.Numbers.{
  pad, show_d, show_plus_d, show_x, length-pad, length-show_d, length-show_plus_d, length-show_x,
}
use demotool.Searcher.Head.{
  Drawn, lines, static_texts, Part, screen, pf1width, pf2width, height, address, rgb, modeven,
  mododd, display, priority, saveas, bplanes, reso, bpllocks, bpladdrs, status, parts, is_wanted,
  draw_part, draw_parts, playfield_width, on_off, locks, addresses, status_line, update_head_texts,
  s_text_area1, s_text_area2, s_text_area3, s_text_scx, tails, s_text_disp, s_text_prio,
  s_text_save, s_status_lines,
}

-- A text is in the string, which is no longer if its background is drawn, the string has its end in
-- the 20 bytes of the buffer, and the characters, which go 6 pixels up and 1 down from the line, lie
-- in the window of 640 by 63.
pub record Fits (d : Drawn) : Type 0 where
  pub whole : d.jam2 ≡ true → length d.string ≡ d.count
  pub begun : d.count ≤ length d.string
  pub room : length d.string < 20
  pub right : d.x + 8 * d.count ≤ 640
  pub top : 6 ≤ d.y
  pub bottom : d.y + 1 < 63

-- The numbers that have a place in the header.
pub record IsShort (v : View) : Type 0 where
  pub colour : get_or v.pal v.rgb_idx 0 < 0x1000
  pub pal_ptr : v.pal_ptr < 0x100_0000
  pub planes : All (λ a. a < 0x100_0000) v.bpl_ptr
  pub status : v.status ≤ 8
  pub ioerr : v.ioerr < 1_000_000

pub All-append {ℓ κ} :
    {A : Type ℓ} (P : A → Type κ) (xs ys : List A) → All P xs → All P ys → All P (xs ++ ys)
All-append P [] ys h k = k
All-append P (x ∷ xs) ys (p, h) k = (p, All-append P xs ys h k)

-- `n` lines from a place on lie in the window.
pub record IsPlace (x y count n : ℕ) : Type 0 where
  pub short : count < 20
  pub right : x + 8 * count ≤ 640
  pub top : 6 ≤ y
  pub bottom : y + 8 * n ≤ 69

-- Lines of texts that have the number of characters that are drawn.
pub lines-Fits :
    (apen x y count : ℕ) (ss : List (List ℕ))
    → All (λ s. length s ≡ count) ss
    → IsPlace x y count (length ss)
    → All Fits (lines apen true x y count ss)
unfolding lines
lines-Fits apen x y count [] h p = tt
lines-Fits apen x y count (s ∷ ss) (e, h) p = (
  record {
    whole = λ _. e;
    begun = omega (arith, e);
    room = omega (arith, e, p.short);
    right = p.right;
    top = p.top;
    bottom = omega (arith, p.bottom);
  },
  lines-Fits apen x (y + 8) count ss h (ground (arith, p)),
)

pub line-Fits :
    (apen x y count : ℕ) (s : List ℕ)
    → length s ≡ count
    → IsPlace x y count 1
    → All Fits (lines apen true x y count (s ∷ []))
line-Fits apen x y count s e p = lines-Fits apen x y count (s ∷ []) (e, tt) p
