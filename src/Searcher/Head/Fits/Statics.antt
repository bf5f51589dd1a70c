-- ===== src/Searcher/Head/Fits/Statics.antt =====
-- The texts that do not change fit.
use demotool.Base.{ℕ, ◌+◌, ◌-◌, ◌*◌, ◌≤◌, ◌<◌, refl, arith, List, [], ◌∷◌, ◌++◌}
use demotool.Base.{true, false, length}
use demotool.Base.{All}
use demotool.Base.CString.{codes}
use demotool.Searcher.Head.{
  lines, static_texts, area1_x, area1_y, area2_x, area2_y, area3_x, area3_y, s_text_area1,
  s_text_area2, s_text_area3, s_text_scx, tails,
}
use demotool.Searcher.Head.Fits.{Fits, All-append, lines-Fits}

-- The letters below each other.
tails-Fits :
    (s : List ℕ) (y : ℕ)
    → length s < 20
    → 6 ≤ y
    → y + 8 * length s ≤ 69
    → All Fits (lines 3 false 632 y 1 (tails s))
unfolding lines tails
tails-Fits [] y h t b = tt
tails-Fits (c ∷ s) y h t b = (
  record {
    whole = λ e. absurd (ground arith);
    begun = omega arith;
    room = h;
    right = omega arith;
    top = t;
    bottom = omega arith;
  },
  tails-Fits s (y + 8) (omega arith) (omega arith) (omega arith),
)

filename-Fits :
    Fits (record { apen = 1; jam2 = false; x = 132; y = 56; string = codes "FILENAME"; count = 8 })
filename-Fits = record {
  whole = λ e. absurd (ground arith);
  begun = omega arith;
  room = omega arith;
  right = omega arith;
  top = omega arith;
  bottom = omega arith;
}

pub static_texts-Fits : All Fits static_texts
unfolding static_texts
static_texts-Fits =
    let area1 = lines 1 true area1_x area1_y 18 s_text_area1 in
    let area2 = lines 1 true area2_x area2_y 13 s_text_area2 in
    let area3 = lines 1 true area3_x area3_y 19 s_text_area3 in
    let letters = lines 3 false (640 - 8) area3_y 1 (tails s_text_scx) in
    let filename = lines 1 false 132 56 8 (codes "FILENAME" ∷ []) in
    All-append Fits area1 (area2 ++ (area3 ++ (letters ++ filename)))
      (lines-Fits 1 206 10 18 s_text_area1 (refl, (refl, (refl, (refl, (refl, tt)))))
        (ground arith))
      (All-append Fits area2 (area3 ++ (letters ++ filename))
        (lines-Fits 1 358 10 13 s_text_area2
          (refl, (refl, (refl, (refl, (refl, (refl, (refl, tt))))))) (ground arith))
        (All-append Fits area3 (letters ++ filename)
          (lines-Fits 1 470 10 19 s_text_area3
            (refl, (refl, (refl, (refl, (refl, (refl, (refl, tt))))))) (ground arith))
          (All-append Fits letters filename
            (tails-Fits s_text_scx 10 (omega arith) (omega arith) (omega arith))
            (filename-Fits, tt))))
