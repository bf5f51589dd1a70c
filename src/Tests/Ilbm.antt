-- ===== src/Tests/Ilbm.antt =====
-- The theorems on the parts of a saved picture at concrete inputs.
use demotool.Base.{◌≡◌, [], ◌∷◌, arith}
use demotool.Searcher.Ilbm.{bytes, color_register}
use demotool.Searcher.Ilbm.Colour.{color_register-bytes}

color_register-bytes_example : color_register 0x123 ≡ bytes (0x11 ∷ 0x22 ∷ 0x33 ∷ [])
color_register-bytes_example = color_register-bytes 1 2 3 (omega arith) (omega arith) (omega arith)
