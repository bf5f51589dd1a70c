-- ===== src/Searcher/Mode.antt =====
-- The bits of the flags of a view, from searcher/searcher.h. `display` of the view is the number of
-- one of the first three.
use demotool.Base.{ℕ, ◌-◌, bit_and}

abbrev pub std : ℕ
std = 0x0000_0001

abbrev pub ham : ℕ
ham = 0x0000_0002

abbrev pub dualpf : ℕ
dualpf = 0x0000_0004

abbrev pub pf2pri : ℕ
pf2pri = 0x0000_0008

abbrev pub hires : ℕ
hires = 0x0000_0010

-- `flags & ~f`
abbrev pub clear : ℕ → ℕ → ℕ
clear flags f = bit_and flags (0xffff_ffff - f)
