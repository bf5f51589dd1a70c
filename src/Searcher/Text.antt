-- ===== src/Searcher/Text.antt =====
-- The bits of searcher/searcher.h that say which part of the header or of the copper list changed.
use demotool.Base.{ℕ}

abbrev pub screen : ℕ
screen = 0x0000_0001

abbrev pub pf1width : ℕ
pf1width = 0x0000_0002

abbrev pub pf2width : ℕ
pf2width = 0x0000_0004

abbrev pub height : ℕ
height = 0x0000_0008

abbrev pub address : ℕ
address = 0x0000_0020

abbrev pub modeven : ℕ
modeven = 0x0000_0100

abbrev pub mododd : ℕ
mododd = 0x0000_0200

abbrev pub display : ℕ
display = 0x0000_0400

abbrev pub priority : ℕ
priority = 0x0000_0800

abbrev pub saveas : ℕ
saveas = 0x0000_1000

abbrev pub rgb : ℕ
rgb = 0x0000_2000

abbrev pub status : ℕ
status = 0x0000_4000

abbrev pub bplanes : ℕ
bplanes = 0x0001_0000

abbrev pub reso : ℕ
reso = 0x0002_0000

abbrev pub bpllocks : ℕ
bpllocks = 0x0004_0000

abbrev pub bpladdrs : ℕ
bpladdrs = 0x0008_0000

abbrev pub rgb_change : ℕ
rgb_change = 0x0010_0000
