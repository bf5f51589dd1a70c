-- ===== src/Plugins/Utils/Extensions.antt =====
-- `find_extension` of plugins/utils.c against the encoding that inc/protocol.h describes: a tag byte
-- with the type in its high half and the length in its low half, and behind it the value.
use demotool.Base.{ℕ, suc, ◌+◌, ◌-◌, ◌*◌, ◌/◌, ◌%◌, ◌<◌, ◌≡◌, ◌≢◌, refl, ap, ◌∙◌, none, some}
use demotool.Base.{List, [], ◌∷◌, ◌++◌, arith, length, take, All}
use demotool.Base.Bits.{high_nibble, low_nibble}
use demotool.Plugins.Utils.{find_extension}

-- A byte that is not taken for a tag of a type.
abbrev pub IsNoTag : ℕ → ℕ → Type 0
IsNoTag type b = (b < 256) × (b / 16 ≢ type)

find_extension_tag :
    (type b : ℕ) (p_ext : List ℕ) (ext_len : ℕ)
    → b < 256
    → b / 16 ≡ type
    → find_extension (b ∷ p_ext) (suc ext_len) (type * 16) ≡ some (take (b % 16) p_ext)
unfolding find_extension
find_extension_tag type b p_ext ext_len small h =
    ground (arith, high_nibble b small, low_nibble b small)

find_extension_past :
    (type b : ℕ) (p_ext : List ℕ) (ext_len : ℕ)
    → IsNoTag type b
    → find_extension (b ∷ p_ext) (suc ext_len) (type * 16)
      ≡ find_extension p_ext ext_len (type * 16)
unfolding find_extension
find_extension_past type b p_ext ext_len (small, other) = ground (arith, high_nibble b small)

find_extension_skip :
    (type : ℕ) (skipped p_ext : List ℕ) (ext_len : ℕ)
    → All (IsNoTag type) skipped
    → find_extension (skipped ++ p_ext) (length skipped + ext_len) (type * 16)
      ≡ find_extension p_ext ext_len (type * 16)
find_extension_skip type [] p_ext ext_len h =
    ap (λ n. find_extension p_ext n (type * 16)) (omega arith)
find_extension_skip type (b ∷ skipped) p_ext ext_len (other, h) =
    let e : length (b ∷ skipped) + ext_len ≡ suc (length skipped + ext_len) = omega arith in
    rw e (
      find_extension_past type b (skipped ++ p_ext) (length skipped + ext_len) other
      ∙ find_extension_skip type skipped p_ext ext_len h)

-- The result of `find_extension` is settled by the first byte whose high half is the type: its low
-- half is taken for the length of the value behind it, whether or not the byte is a tag.
pub find_extension-first :
    (type b : ℕ) (skipped after : List ℕ) (ext_len : ℕ)
    → All (IsNoTag type) skipped
    → b < 256
    → b / 16 ≡ type
    → length skipped < ext_len
    → find_extension (skipped ++ (b ∷ after)) ext_len (type * 16) ≡ some (take (b % 16) after)
find_extension-first type b skipped after ext_len h small t room =
    let left = ext_len - (length skipped + 1) in
    let e : ext_len ≡ length skipped + suc left = omega arith in
    rw e (
      find_extension_skip type skipped (b ∷ after) (suc left) h
      ∙ find_extension_tag type b after left small t)

-- Without such a byte among the first `ext_len` there is no result.
pub find_extension-none :
    (type : ℕ) (p_ext after : List ℕ)
    → All (IsNoTag type) p_ext
    → find_extension (p_ext ++ after) (length p_ext) (type * 16) ≡ none
unfolding find_extension
find_extension-none type [] after h = refl
find_extension-none type (b ∷ p_ext) after ((small, other), h) =
    ground (arith, high_nibble b small, find_extension-none type p_ext after h)
