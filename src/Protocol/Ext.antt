-- ===== src/Protocol/Ext.antt =====
-- The types of the extensions of inc/protocol.h, in the high four bits of a tag.
use demotool.Base.{ℕ}

abbrev pub padding : ℕ
padding = 0x00

abbrev pub device_name : ℕ
device_name = 0x10

abbrev pub cmdline0 : ℕ
cmdline0 = 0x20

abbrev pub cmdline1 : ℕ
cmdline1 = 0x30
