-- ===== src/Searcher/Ilbm/Colour.antt =====
-- The colours of a saved picture.
use demotool.Base.{ℕ, ◌+◌, ◌*◌, ◌/◌, ◌<◌, ◌≡◌, refl, [], ◌∷◌, arith}
use demotool.Base.{bit_and}
use demotool.Base.Bits.{high_nibble, middle_nibble, shifted_nibble, doubled_nibble}
use demotool.Searcher.Ilbm.{bytes, both, color_register}

-- Four bits that stand in the high half of a byte.
both-high : (m n : ℕ) → n < 16 → m ≡ n * 16 → both m ≡ n * 17
both-high m n h e = rw e (doubled_nibble n h)

-- A colour of four bits for each of red, green and blue is written as three bytes, in each of which
-- the four bits stand twice, which is 17 times their value.
pub color_register-bytes :
    (r g b : ℕ)
    → r < 16
    → g < 16
    → b < 16
    → color_register (r * 256 + g * 16 + b) ≡ bytes (r * 17 ∷ g * 17 ∷ b * 17 ∷ [])
unfolding color_register
color_register-bytes r g b hr hg hb =
    let c = r * 256 + g * 16 + b in
    let red : bit_and (c / 16) 0xf0 ≡ r * 16 = omega (arith, high_nibble (c / 16) (omega arith)) in
    let green : bit_and c 0xf0 ≡ g * 16 = omega (arith, middle_nibble c (omega arith)) in
    let blue : bit_and (c * 16) 0xf0 ≡ b * 16 = omega (arith, shifted_nibble c (omega arith)) in
    rw (both-high _ r hr red, both-high _ g hg green, both-high _ b hb blue) refl
