-- ===== src/Searcher/Copper/Waits.antt =====
-- The copper list fits into its room, and waits for one place after the other.
use mathlib.Core.Option.{some-injective}
use demotool.Protocol.Flag.{has_flag}
use demotool.Searcher.Mode
use demotool.Base.{
  Bool-cases, inl, inr, subst, ℕ, ◌+◌, ◌*◌, ◌<◌, ◌≤◌, ◌≡◌, true, some, List, [], ◌∷◌, arith,
}
use demotool.Base.{length}
use demotool.Searcher.View.{View}
use demotool.Searcher.Keys.Kept.{IsView}
use demotool.Searcher.Copper.{
  Instruction, wait, move, end, room, last_line, setup_copper, dffstrt, dffstop,
}

-- The waits are for places in the order in which the beam comes to them, none before `low`; lines
-- have 256 columns.
abbrev pub IsAscending : ℕ → List Instruction → Type 0
IsAscending low [] = Unit {0}
IsAscending low (wait y x ∷ is) = (low ≤ y * 256 + x) × IsAscending (y * 256 + x + 1) is
IsAscending low (move reg value ∷ is) = IsAscending low is
IsAscending low (end ∷ is) = Unit {0}

last_line_lem : (v : View) → IsView v → 63 < last_line v
unfolding last_line
last_line_lem v h = let least = h.height_min in ground arith

-- Where the list can be allocated, it has no more instructions than there is room for, and it waits
-- for places in the order in which the beam comes to them.
pub setup_copper-IsAscending :
    (v : View) (is : List Instruction)
    → IsView v
    → setup_copper true v ≡ some is
    → (length is ≤ room) × IsAscending 0 is
unfolding setup_copper
setup_copper-IsAscending v is h e =
    let behind = last_line_lem v h in
    subst (λ is. (length is ≤ room) × IsAscending 0 is) (some-injective _ _ e)
      (
        omega arith,
        (
          omega arith,
          (
            omega arith,
            (
              omega arith,
              (
                omega arith,
                (
                  omega arith,
                  (
                    omega arith,
                    (
                      omega arith,
                      (omega arith, (omega arith, (omega (arith, behind), (omega arith, tt)))),
                    ),
                  ),
                ),
              ),
            ),
          ),
        ),
      )

-- Whatever the width of the picture is, the fetch of a line stops after it has started, and no later
-- than at 0xd0.
pub dffstop-bounds : (v : View) → (dffstrt v < dffstop v) × (dffstop v ≤ 0xd0)
unfolding dffstop
dffstop-bounds v = elim (Bool-cases (has_flag v.flags Mode.hires)) [
  | inl e ↦ rw e (ground arith)
  | inr e ↦ rw e (ground arith)
]
