-- ===== src/Base/CString.antt =====
-- C strings and the functions of string.h that the program calls. A string is the list of its
-- characters before the terminating zero, so `strlen` is `length`.
use Prim.Native.Nat.{ℕ, zero, suc}
use Prim.Native.Char.{code}
use Prim.Native.String.{String}
use mathlib.Core.Path.{◌≡◌, refl, ap}
use mathlib.Core.Bool.{Bool, true, false}
use mathlib.Core.List.{List, [], ◌∷◌}
use native.Mathlib.Omega.{arith}
use demotool.Base.Tests.{◌==◌, if◌then◌else◌}
use demotool.Base.Lists.{length}

-- The characters of a literal.
abbrev pub codes : String → List ℕ
codes String.[] = []
codes (String.◌∷◌ c s) = code c ∷ codes s

-- `!strncmp(a, b, n)`: a list that has ended reads as the terminating zero.
unfoldable pub same_prefix : List ℕ → List ℕ → ℕ → Bool
same_prefix a b zero = true
same_prefix [] [] (suc n) = true
same_prefix [] (y ∷ b) (suc n) = y == 0
same_prefix (x ∷ a) [] (suc n) = x == 0
same_prefix (x ∷ a) (y ∷ b) (suc n) =
    let rest = same_prefix a b n in if x == y then (if x == 0 then true else rest) else false

-- `!strcmp(a, b)` of two strings without a zero inside.
unfoldable pub same_string : List ℕ → List ℕ → Bool
same_string [] [] = true
same_string [] (y ∷ b) = false
same_string (x ∷ a) [] = false
same_string (x ∷ a) (y ∷ b) = let rest = same_string a b in if x == y then rest else false

-- What `strncpy(dst, src, n)` leaves in the `n` bytes of `dst`.
unfoldable pub strncpy : List ℕ → ℕ → List ℕ
strncpy s zero = []
strncpy [] (suc n) = 0 ∷ strncpy [] n
strncpy (c ∷ s) (suc n) = c ∷ strncpy s n

pub length-strncpy : (s : List ℕ) (n : ℕ) → length (strncpy s n) ≡ n
unfolding strncpy
length-strncpy s zero = refl
length-strncpy [] (suc n) = ap suc (length-strncpy [] n)
length-strncpy (c ∷ s) (suc n) = ap suc (length-strncpy s n)

pub same_prefix_refl : (a : List ℕ) (n : ℕ) → same_prefix a a n ≡ true
unfolding same_prefix
same_prefix_refl a zero = refl
same_prefix_refl [] (suc n) = refl
same_prefix_refl (x ∷ a) (suc n) = ground (arith, same_prefix_refl a n)

pub same_string→eq : (a b : List ℕ) → same_string a b ≡ true → a ≡ b
unfolding same_string
same_string→eq [] [] h = refl
same_string→eq [] (y ∷ b) h = ground arith
same_string→eq (x ∷ a) [] h = ground arith
same_string→eq (x ∷ a) (y ∷ b) h = ground (arith, same_string→eq a b)

pub same_string_refl : (a : List ℕ) → same_string a a ≡ true
unfolding same_string
same_string_refl [] = refl
same_string_refl (x ∷ a) = ground (arith, same_string_refl a)
