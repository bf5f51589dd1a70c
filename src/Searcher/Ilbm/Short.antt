-- ===== src/Searcher/Ilbm/Short.antt =====
-- The calls of a picture fit into the buffer of the file.
use demotool.Base.{inl, inr, ◌≤◌, arith, ℕ, zero, suc, ◌+◌, Bool, List, [], ◌∷◌, ◌++◌}
use demotool.Base.{All, Bool-cases, ◌==◌}
use demotool.Searcher.View.{View}
use demotool.Searcher.File.{buffer_size}
use demotool.Searcher.Ilbm.{
  id_body, Put, num, ViewModes, ncolors, body_size, camg_puts, color_puts, view_mode, head_puts,
  row_puts, next_row, body_puts, is_saved, bytes_per_row, first_color,
}
use demotool.Searcher.Ilbm.Puts.{IsShort}
use demotool.Searcher.Ilbm.Sizes.{length-read_bytes}

-- The calls are short.
All-append : (ps qs : List Put) → All IsShort ps → All IsShort qs → All IsShort (ps ++ qs)
All-append [] qs h k = k
All-append (p ∷ ps) qs (s, h) k = (s, All-append ps qs h k)

abbrev word_IsShort : (1 ≤ 4) × (4 ≤ 4)
word_IsShort = (omega arith, omega arith)

color_puts-IsShort : (pal : List ℕ) (i n : ℕ) → All IsShort (color_puts pal i n)
unfolding color_puts
color_puts-IsShort pal i zero = tt
color_puts-IsShort pal i (suc n) = (omega arith, color_puts-IsShort pal (i + 1) n)

camg_puts-IsShort : (modes : ViewModes) (v : View) → All IsShort (camg_puts modes v)
unfolding camg_puts
camg_puts-IsShort modes v = elim (Bool-cases (view_mode modes v == 0)) [
  | inl e ↦ rw e tt
  | inr e ↦ rw e (word_IsShort, (word_IsShort, (word_IsShort, tt)))
]

pub head_puts-IsShort :
    (modes : ViewModes) (v : View) (odd : Bool) → All IsShort (head_puts modes v odd)
unfolding head_puts
head_puts-IsShort modes v odd =
    let long = word_IsShort in
    let short : (1 ≤ 2) × (2 ≤ 4) = (omega arith, omega arith) in
    let byte : (c : ℕ) → 0 ≤ c = λ c. omega arith in
    let colors = color_puts v.pal (first_color v odd) (ncolors v odd) in
    let ends : All IsShort (num id_body 4 ∷ num (body_size v odd) 4 ∷ []) = (long, (long, tt)) in
    (
      long,
      (
        long,
        (
          long,
          (
            long,
            (
              long,
              (
                short,
                (
                  short,
                  (
                    short,
                    (
                      short,
                      (
                        byte _,
                        (
                          byte _,
                          (
                            byte _,
                            (
                              byte _,
                              (
                                short,
                                (
                                  byte _,
                                  (
                                    byte _,
                                    (
                                      short,
                                      (
                                        short,
                                        (
                                          long,
                                          (
                                            long,
                                            All-append (colors ++ camg_puts modes v) _
                                                (All-append colors _ (color_puts-IsShort v.pal _ _)
                                                  (camg_puts-IsShort modes v))
                                                ends,
                                          ),
                                        ),
                                      ),
                                    ),
                                  ),
                                ),
                              ),
                            ),
                          ),
                        ),
                      ),
                    ),
                  ),
                ),
              ),
            ),
          ),
        ),
      ),
    )

row_puts-IsShort :
    (mem : ℕ → ℕ) (v : View) (odd : Bool) (m : ℕ) (planes : List ℕ)
    → bytes_per_row v ≤ buffer_size
    → All IsShort (row_puts mem v odd m planes)
unfolding row_puts
row_puts-IsShort mem v odd m [] h = tt
row_puts-IsShort mem v odd m (p ∷ planes) h =
    let rest = row_puts-IsShort mem v odd (m + 1) planes h in
    elim (Bool-cases (is_saved v odd m)) [
      | inl e ↦ rw e (omega (arith, length-read_bytes mem (bytes_per_row v) p, h), rest)
      | inr e ↦ rw e rest
    ]

pub body_puts-IsShort :
    (mem : ℕ → ℕ) (v : View) (odd : Bool) (h : ℕ) (planes : List ℕ)
    → bytes_per_row v ≤ buffer_size
    → All IsShort (body_puts mem v odd h planes)
unfolding body_puts
body_puts-IsShort mem v odd zero planes le = tt
body_puts-IsShort mem v odd (suc h) planes le =
    All-append _ _ (row_puts-IsShort mem v odd 0 planes le)
      (body_puts-IsShort mem v odd h (next_row v 0 planes) le)
