-- ===== src/Base/Bits.antt =====
-- Masks of a byte as arithmetic. Each is a table of at most 512 entries, checked by evaluation.
use Prim.Native.Nat.{
  ℕ, zero, suc, ◌+◌, ◌*◌, ◌/◌, ◌%◌, ◌≤◌, ◌<◌, min, max, bit_and, bit_or, digits, bit_and-bitwise,
  bit_or-bitwise,
}
use mathlib.Core.Path.{◌≡◌, refl, sym, ap, ◌∙◌}
use native.Mathlib.Nat.{mod-lt, mod-eq_of_lt, div-add-mod, mul-add-mod_self_left}
use mathlib.Core.Bool.{Bool, true, false}
use mathlib.Core.Logic.{ite}
use native.Mathlib.Decide.{ℕ_discrete}
use native.Mathlib.Omega.{arith}

module _ (f g : ℕ → ℕ) where
  unfoldable pub agree_below : ℕ → Bool
  unfolding ℕ_discrete
  agree_below zero = true
  agree_below (suc n) = ite (ℕ_discrete (f n) (g n)) (agree_below n) false

  pub agree_below→eq : (n : ℕ) → agree_below n ≡ true → (i : ℕ) → i < n → f i ≡ g i
  unfolding agree_below
  agree_below→eq zero e i h = absurd (omega arith)
  agree_below→eq (suc n) e i h = ground (arith, agree_below→eq n (ground arith) i)

-- The low four bits of a byte.
pub low_nibble : (b : ℕ) → b < 256 → bit_and b 0x0f ≡ b % 16
unfolding agree_below
low_nibble = agree_below→eq _ _ 256 refl

-- The high four bits of a byte.
pub high_nibble : (b : ℕ) → b < 256 → bit_and b 0xf0 ≡ b / 16 * 16
unfolding agree_below
high_nibble = agree_below→eq _ _ 256 refl

-- The mask of a header's length field.
pub length_mask : (b : ℕ) → b < 512 → bit_and b 0xfc ≡ b / 4 * 4 % 256
unfolding agree_below
length_mask = agree_below→eq _ _ 512 refl

-- The mask of a header's version field.
pub version_mask : (b : ℕ) → b < 256 → bit_and b 0x03 ≡ b % 4
unfolding agree_below
version_mask = agree_below→eq _ _ 256 refl

-- A tag's type and length do not overlap.
rejoin_nibbles : (b : ℕ) → b < 256 → bit_or (b / 16 * 16) (b % 16) ≡ b
unfolding agree_below
rejoin_nibbles = agree_below→eq _ _ 256 refl

pub tag_or_length : (t l : ℕ) → t < 16 → l < 16 → bit_or (t * 16) l ≡ t * 16 + l
tag_or_length t l ht hl =
    let high : (t * 16 + l) / 16 ≡ t = omega arith in
    let low : (t * 16 + l) % 16 ≡ l = omega arith in
    rw (high, low) at (rejoin_nibbles (t * 16 + l) (omega arith))

-- Joining with 0 changes nothing.
pub or_zero : (b : ℕ) → b < 256 → bit_or b 0 ≡ b
unfolding agree_below
or_zero = agree_below→eq _ _ 256 refl

-- A mask of low ones is a remainder, at any width of the number. The native operation stands for a
-- recursion on binary digits, bounded by its first argument.
abbrev common_digits : ℕ → ℕ → ℕ → ℕ
common_digits bound a b = digits (λ b. zero) min bound a b

common_digits-zero : (bound a : ℕ) → a ≤ bound → common_digits bound a 0 ≡ 0
common_digits-zero zero a h = refl
common_digits-zero (suc bound) zero h = refl
common_digits-zero (suc bound) (suc a) h =
    omega (arith, common_digits-zero bound (suc a / 2) (omega arith))

-- `mask` keeps the remainder by `m`.
abbrev Keeps : ℕ → ℕ → Type 0
Keeps mask m = (bound a : ℕ) → a ≤ bound → common_digits bound a mask ≡ a % m

mod_double : (a m : ℕ) → 0 < m → a / 2 % m * 2 + a % 2 ≡ a % (m * 2)
mod_double a m h =
    let low = a / 2 % m * 2 + a % 2 in
    let small : low < m * 2 = omega (arith, mod-lt (a / 2) h) in
    let whole : a ≡ m * 2 * (a / 2 / m) + low = omega (arith, div-add-mod (a / 2) m) in
    sym (
      ap (λ n. n % (m * 2)) whole
      ∙ mul-add-mod_self_left (m * 2) (a / 2 / m) low
      ∙ mod-eq_of_lt small)

Keeps-one : Keeps 1 2
Keeps-one zero zero h = refl
Keeps-one zero (suc a) h = elim h [ ]
Keeps-one (suc bound) zero h = refl
Keeps-one (suc bound) (suc a) h = omega (arith, common_digits-zero bound (suc a / 2) (omega arith))

Keeps-double : (mask m : ℕ) → 0 < m → Keeps mask m → Keeps (mask * 2 + 1) (m * 2)
Keeps-double mask m h k zero zero le = omega arith
Keeps-double mask m h k zero (suc a) le = elim le [ ]
Keeps-double mask m h k (suc bound) zero le = omega arith
Keeps-double mask m h k (suc bound) (suc a) le =
    let half : (mask * 2 + 1) / 2 ≡ mask = omega arith in
    rw half (omega (arith, k bound (suc a / 2) (omega arith), mod_double (suc a) m h))

Keeps-three : Keeps 3 4
Keeps-three = Keeps-double 1 2 (omega arith) Keeps-one

Keeps-byte : Keeps 0xff 256
Keeps-byte = Keeps-double 0x7f 128 (omega arith) (
    Keeps-double 0x3f 64 (omega arith) (
      Keeps-double 0x1f 32 (omega arith) (
        Keeps-double 0xf 16 (omega arith)
          (Keeps-double 7 8 (omega arith) (Keeps-double 3 4 (omega arith) Keeps-three)))))

-- `n & 3`
pub and_three : (n : ℕ) → bit_and n 3 ≡ n % 4
and_three n = bit_and-bitwise n 3 ∙ Keeps-three n n (omega arith)

-- `n & 0xff`
pub and_byte : (n : ℕ) → bit_and n 0xff ≡ n % 256
and_byte n = bit_and-bitwise n 0xff ∙ Keeps-byte n n (omega arith)

-- `k` ones.
unfoldable pub low_ones : ℕ → ℕ
low_ones zero = 0
low_ones (suc k) = low_ones k * 2 + 1

Keeps-low_ones : (k : ℕ) → Keeps (low_ones (suc k)) (low_ones (suc k) + 1)
unfolding low_ones
Keeps-low_ones zero = Keeps-one
Keeps-low_ones (suc k) =
    let ones = low_ones (suc k) in
    let next : (ones + 1) * 2 ≡ ones * 2 + 1 + 1 = omega arith in
    rw next at (Keeps-double ones (ones + 1) (omega arith) (Keeps-low_ones k))

-- Ones, at least one of them, are a mask that keeps a remainder.
pub and_low_ones : (k n : ℕ) → bit_and n (low_ones (suc k)) ≡ n % (low_ones (suc k) + 1)
and_low_ones k n = bit_and-bitwise n (low_ones (suc k)) ∙ Keeps-low_ones k n n (omega arith)

common_digits-le : (bound a b : ℕ) → common_digits bound a b ≤ b
common_digits-le zero a b = omega arith
common_digits-le (suc bound) zero b = omega arith
common_digits-le (suc bound) (suc a) b = omega (arith, common_digits-le bound (suc a / 2) (b / 2))

-- A mask bounds what it is put on.
pub bit_and-le : (a b : ℕ) → bit_and a b ≤ b
bit_and-le a b = omega (arith, bit_and-bitwise a b, common_digits-le a a b)

-- A function that stays below a bound for small numbers; the premise is checked by evaluation.
unfoldable pub is_bounded : (ℕ → ℕ) → ℕ → ℕ → Bool
unfolding agree_below
is_bounded f bound n = agree_below f (λ x. f x % bound) n

pub bounded_below :
    (f : ℕ → ℕ) (bound n x : ℕ) → 0 < bound → is_bounded f bound n ≡ true → x < n → f x < bound
unfolding is_bounded
bounded_below f bound n x h e less =
    let same = agree_below→eq f (λ x. f x % bound) n e x less in omega (arith, same, mod-lt (f x) h)

common_digits_or-ge : (bound a b : ℕ) → b ≤ digits (λ b. b) max bound a b
common_digits_or-ge zero a b = omega arith
common_digits_or-ge (suc bound) zero b = omega arith
common_digits_or-ge (suc bound) (suc a) b =
    omega (arith, common_digits_or-ge bound (suc a / 2) (b / 2))

-- Joining adds bits to the second number.
pub bit_or-ge : (a b : ℕ) → b ≤ bit_or a b
bit_or-ge a b = omega (arith, bit_or-bitwise a b, common_digits_or-ge a a b)

-- The parts of a colour of twelve bits as the high four bits of a byte.
pub middle_nibble : (c : ℕ) → c < 4096 → bit_and c 0xf0 ≡ c / 16 % 16 * 16
unfolding agree_below
middle_nibble = agree_below→eq _ _ 4096 refl

pub shifted_nibble : (c : ℕ) → c < 4096 → bit_and (c * 16) 0xf0 ≡ c % 16 * 16
unfolding agree_below
shifted_nibble = agree_below→eq _ _ 4096 refl

-- Four bits twice.
pub doubled_nibble : (n : ℕ) → n < 16 → bit_or (n * 16) (n * 16 / 16) ≡ n * 17
unfolding agree_below
doubled_nibble = agree_below→eq _ _ 16 refl
