-- ===== src/Base/Int.antt =====
-- Signed integers over the native numbers, under the names of the library's.
use Prim.Native.Nat.{ℕ, zero, suc, ◌+◌, ◌-◌, ◌*◌, ◌%◌, ◌^◌}
use mathlib.Core.Bool.{Bool, true, false}
use mathlib.Core.List.{List, []}
use demotool.Base.Lists.{take}
use demotool.Base.Tests.{leb, if◌then◌else◌}

-- `negsuc n` is -(n + 1).
pub data ℤ : Type 0 where
  pos : ℕ → ℤ
  negsuc : ℕ → ℤ

-- -n
abbrev pub negate : ℕ → ℤ
negate zero = pos 0
negate (suc n) = negsuc n

-- a - b
abbrev pub sub_ℕ : ℕ → ℕ → ℤ
sub_ℕ a b = if leb b a then pos (a - b) else negsuc (b - a - 1)

-- The sum and the product of integers.
infixl 65 ◌+ℤ◌
abbrev pub ◌+ℤ◌ : ℤ → ℤ → ℤ
pos a +ℤ pos b = pos (a + b)
pos a +ℤ negsuc b = sub_ℕ a (suc b)
negsuc a +ℤ pos b = sub_ℕ b (suc a)
negsuc a +ℤ negsuc b = negsuc (suc (a + b))

-- The product with a number.
infixl 70 ◌*ℤ◌
abbrev pub ◌*ℤ◌ : ℤ → ℕ → ℤ
pos a *ℤ n = pos (a * n)
negsuc a *ℤ n = negate (suc a * n)

abbrev pub negate_ℤ : ℤ → ℤ
negate_ℤ (pos n) = negate n
negate_ℤ (negsuc n) = pos (suc n)

abbrev pub abs : ℤ → ℕ
abs (pos n) = n
abs (negsuc n) = suc n

-- The 32 bits of an integer, in two's complement.
abbrev pub bits32 : ℤ → ℕ
bits32 (pos n) = n % 2 ^ 32
bits32 (negsuc n) = 2 ^ 32 - 1 - n % 2 ^ 32

-- The 16 bits of an integer, in two's complement.
abbrev pub bits16 : ℤ → ℕ
bits16 (pos n) = n % 2 ^ 16
bits16 (negsuc n) = 2 ^ 16 - 1 - n % 2 ^ 16

-- n < 0 and 0 < n
abbrev pub is_negative : ℤ → Bool
is_negative (pos n) = false
is_negative (negsuc n) = true

abbrev pub is_positive : ℤ → Bool
is_positive (pos zero) = false
is_positive (pos (suc n)) = true
is_positive (negsuc n) = false

-- The first elements, none for a negative number of them.
abbrev pub take_ℤ {ℓ} : {A : Type ℓ} → ℤ → List A → List A
take_ℤ (pos n) xs = take n xs
take_ℤ (negsuc n) xs = []
