-- ===== src/Searcher/Keys/Shown.antt =====
-- Properties of what `main_key_loop` does, if it ends.
use mathlib.Core.Option.{some-injective}
use demotool.Base.{◌≡◌, subst, Bool, true, false, Option, none, some, if◌then◌else◌, arith}
use demotool.Searcher.Keys.{Outcome}

pub data Shown (P : Outcome → Type 0) : Option Outcome → Type 0 where
  unshown : Shown P none
  shown : {o : Outcome} → P o → Shown P (some o)

pub if_Shown :
    {P : Outcome → Type 0} (b : Bool) (x y : Option Outcome)
    → Shown P x
    → Shown P y
    → Shown P (if b then x else y)
if_Shown true x y h k = h
if_Shown false x y h k = k

pub of_Shown :
    {P : Outcome → Type 0} {x : Option Outcome} {o : Outcome} → Shown P x → x ≡ some o → P o
of_Shown unshown e = absurd (ground (arith, e))
of_Shown {P} (shown h) e = subst P (some-injective _ _ e) h
