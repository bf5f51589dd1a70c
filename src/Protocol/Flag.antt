-- ===== src/Protocol/Flag.antt =====
-- The bits of the flags word of a header, from inc/protocol.h.
use demotool.Base.{ℕ, Bool, not, bit_and, ◌==◌}

abbrev pub exact_version : ℕ
exact_version = 0x0000_0001

abbrev pub reboot_on_exit : ℕ
reboot_on_exit = 0x0000_0002

abbrev pub extension : ℕ
extension = 0x0000_0004

abbrev pub no_run : ℕ
no_run = 0x0000_0008

-- `flags & f`, as the condition of an `if`.
abbrev pub has_flag : ℕ → ℕ → Bool
has_flag flags f = not (bit_and flags f == 0)
