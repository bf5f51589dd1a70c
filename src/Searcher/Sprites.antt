-- ===== src/Searcher/Sprites.antt =====
-- The sprites of searcher/screen.c, of which the copper list changes the colours: their images, and
-- `setup_sprites`.
use demotool.Base.{
  ℕ, zero, suc, ◌+◌, ◌*◌, Bool, List, [], ◌∷◌, ◌++◌, replicate, if◌then◌else◌, get_or,
}

-- An image: the control words, 55 lines, and the end.
abbrev pub sprite : ℕ → List ℕ
sprite line = 0x0000_0000 ∷ (replicate 55 line ++ 0x0000_0000 ∷ [])

unfoldable pub sprites : List (List ℕ)
sprites =
    sprite 0xfffc_0000
    ∷ sprite 0x0000_fffc
    ∷ sprite 0xfffc_0000
    ∷ sprite 0x0000_fffc
    ∷ sprite 0xfffc_0000
    ∷ sprite 0x0000_fffc
    ∷ sprite 0xfffc_0000
    ∷ []

-- `SimpleSprite`, with its image.
pub record SimpleSprite : Type 0 where
  pub height : ℕ
  pub x : ℕ
  pub y : ℕ
  pub num : ℕ
  pub image : List ℕ

-- The loop over the `k` sprites from the n-th on; `get_sprite` says whether GetSprite gives one.
unfoldable pub get_sprites : (ℕ → Bool) → ℕ → ℕ → List SimpleSprite
unfolding sprites
get_sprites get_sprite n zero = []
get_sprites get_sprite n (suc k) =
    let rest = get_sprites get_sprite (n + 1) k in
    if get_sprite (n + 1)
    then record { height = 11 * 5 + 0; x = 28 * n; y = 4; num = n + 1; image = get_or sprites n [] }
      ∷ rest
    else rest

-- The sprites 1 to 7, those that there are.
unfoldable pub setup_sprites : (ℕ → Bool) → List SimpleSprite
unfolding get_sprites
setup_sprites get_sprite = get_sprites get_sprite 0 7
