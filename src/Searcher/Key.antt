-- ===== src/Searcher/Key.antt =====
-- The codes of keys of searcher/searcher.h that the program answers.
use demotool.Base.{ℕ}

abbrev pub f1 : ℕ
f1 = 0x50

abbrev pub f2 : ℕ
f2 = 0x51

abbrev pub f3 : ℕ
f3 = 0x52

abbrev pub f4 : ℕ
f4 = 0x53

abbrev pub f5 : ℕ
f5 = 0x54

abbrev pub f6 : ℕ
f6 = 0x55

abbrev pub f7 : ℕ
f7 = 0x56

abbrev pub f8 : ℕ
f8 = 0x57

abbrev pub f9 : ℕ
f9 = 0x58

abbrev pub f10 : ℕ
f10 = 0x59

abbrev pub digit_1 : ℕ
digit_1 = 0x01

abbrev pub digit_2 : ℕ
digit_2 = 0x02

abbrev pub digit_3 : ℕ
digit_3 = 0x03

abbrev pub digit_4 : ℕ
digit_4 = 0x04

abbrev pub digit_5 : ℕ
digit_5 = 0x05

abbrev pub digit_6 : ℕ
digit_6 = 0x06

abbrev pub digit_7 : ℕ
digit_7 = 0x07

abbrev pub digit_8 : ℕ
digit_8 = 0x08

abbrev pub digit_0 : ℕ
digit_0 = 0x0a

abbrev pub minus : ℕ
minus = 0x0b

abbrev pub equal : ℕ
equal = 0x0c

abbrev pub p : ℕ
p = 0x19

abbrev pub d : ℕ
d = 0x22

abbrev pub h : ℕ
h = 0x25

abbrev pub l : ℕ
l = 0x28

abbrev pub x : ℕ
x = 0x32

abbrev pub c : ℕ
c = 0x33

abbrev pub v : ℕ
v = 0x34

abbrev pub b : ℕ
b = 0x35

abbrev pub n : ℕ
n = 0x36

abbrev pub m : ℕ
m = 0x37

abbrev pub comma : ℕ
comma = 0x38

abbrev pub fstop : ℕ
fstop = 0x39

abbrev pub slash : ℕ
slash = 0x3a

abbrev pub tab : ℕ
tab = 0x42

abbrev pub up : ℕ
up = 0x4c

abbrev pub down : ℕ
down = 0x4d

abbrev pub left : ℕ
left = 0x4f

abbrev pub right : ℕ
right = 0x4e

abbrev pub lbra : ℕ
lbra = 0x1a

abbrev pub rbra : ℕ
rbra = 0x1b

abbrev pub np_fs : ℕ
np_fs = 0x3c

abbrev pub np_enter : ℕ
np_enter = 0x43

abbrev pub np_0 : ℕ
np_0 = 0x0f

abbrev pub np_9 : ℕ
np_9 = 0x3f

abbrev pub np_8 : ℕ
np_8 = 0x3e

abbrev pub np_7 : ℕ
np_7 = 0x3d

abbrev pub np_6 : ℕ
np_6 = 0x2f

abbrev pub np_5 : ℕ
np_5 = 0x2e

abbrev pub np_4 : ℕ
np_4 = 0x2d

abbrev pub np_3 : ℕ
np_3 = 0x1f

abbrev pub np_2 : ℕ
np_2 = 0x1e

abbrev pub np_1 : ℕ
np_1 = 0x1d

abbrev pub np_minus : ℕ
np_minus = 0x4a
