-- ===== src/Searcher/Head/Numbers.antt =====
-- The conversions of `sprintf` that searcher/screen.c uses, and how long their texts are.
use demotool.Base.{ℕ, zero, suc, ◌+◌, ◌-◌, ◌*◌, ◌/◌, ◌%◌, ◌^◌, ◌≤◌, ◌<◌, ◌≡◌, inl, inr, arith}
use demotool.Base.{List, [], ◌∷◌, ◌++◌, length, length-append, length-replicate, replicate}
use demotool.Base.{Bool-cases, ltb, lt→ltb, if◌then◌else◌}
use native.Mathlib.Nat.{pow-zero, pow-suc, one-mul}
use demotool.Base.Int.{ℤ, pos, negsuc, abs}

abbrev pub digit : ℕ → ℕ
digit d = if ltb d 10 then b'0' + d else b'a' + (d - 10)

-- A number in a base, of no more than so many digits.
unfoldable pub numeral : ℕ → ℕ → ℕ → List ℕ
numeral base zero n = []
numeral base (suc most) n =
    let higher = numeral base most (n / base) in
    if ltb n base then digit n ∷ [] else higher ++ digit (n % base) ∷ []

-- A text with enough of a character before it.
unfoldable pub pad : ℕ → ℕ → List ℕ → List ℕ
pad c width s = replicate (width - length s) c ++ s

-- `%d` and `%ld`: a number of 32 bits has no more than ten digits.
unfoldable pub show_d : ℤ → List ℕ
unfolding numeral
show_d (pos n) = numeral 10 10 n
show_d (negsuc n) = b'-' ∷ numeral 10 10 (suc n)

-- `%+d`
unfoldable pub show_plus_d : ℤ → List ℕ
unfolding show_d
show_plus_d (pos n) = b'+' ∷ show_d (pos n)
show_plus_d (negsuc n) = show_d (negsuc n)

-- `%x` and `%lx`
unfoldable pub show_x : ℕ → List ℕ
unfolding numeral
show_x n = numeral 16 8 n

pub length-pad : (c width : ℕ) (s : List ℕ) → length s ≤ width → length (pad c width s) ≡ width
unfolding pad
length-pad c width s h =
    omega (
      arith,
      length-append (replicate (width - length s) c) s,
      length-replicate (width - length s) c,
    )

-- A number below a power of its base has no more digits than that.
module _ (base : ℕ) (div_below : (n m : ℕ) → n < m * base → n / base < m) where
  length-numeral : (most k n : ℕ) → n < base ^ suc k → length (numeral base most n) ≤ suc k
  unfolding numeral
  length-numeral zero k n h = omega arith
  length-numeral (suc most) zero n h =
      let below : n < base = rw (pow-suc base 0, pow-zero base, one-mul base) at h in
      let one = lt→ltb n base below in rw one (omega arith)
  length-numeral (suc most) (suc k) n h = elim (Bool-cases (ltb n base)) [
    | inl e ↦ rw e (omega arith)
    | inr e ↦ rw e (
        omega (
          arith,
          length-append (numeral base most (n / base)) (digit (n % base) ∷ []),
          length-numeral most k (n / base)
              (div_below n (base ^ suc k) (rw (pow-suc base (suc k)) at h)),
        ))
  ]

div_below_ten : (n m : ℕ) → n < m * 10 → n / 10 < m
div_below_ten n m h = omega arith

div_below_sixteen : (n m : ℕ) → n < m * 16 → n / 16 < m
div_below_sixteen n m h = omega arith

pub length-show_d : (k n : ℕ) → n < 10 ^ suc k → length (show_d (pos n)) ≤ suc k
unfolding show_d
length-show_d k n h = length-numeral 10 div_below_ten 10 k n h

pub length-show_x : (k n : ℕ) → n < 16 ^ suc k → length (show_x n) ≤ suc k
unfolding show_x
length-show_x k n h = length-numeral 16 div_below_sixteen 8 k n h

-- A number with its sign has a character more.
pub length-show_plus_d : (k : ℕ) (m : ℤ) → abs m < 10 ^ suc k → length (show_plus_d m) ≤ suc (suc k)
unfolding show_plus_d
length-show_plus_d k (pos n) h = omega (arith, length-show_d k n h)
length-show_plus_d k (negsuc n) h = omega (arith, length-numeral 10 div_below_ten 10 k (suc n) h)
