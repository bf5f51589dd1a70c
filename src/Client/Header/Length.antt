-- ===== src/Client/Header/Length.antt =====
-- The length of the header that the client makes: the bytes that are written, the length field and
-- the memory allocated agree.
use demotool.Base.{
  ℕ, ◌<◌, ap, sym, ◌∙◌, inl, inr, Bool-cases, append-nil, append_assoc, bit_and, ◌==◌, zero, suc,
  ◌+◌, ◌-◌, ◌*◌, ◌/◌, ◌%◌, ◌≤◌, ◌<◌, ◌≡◌, refl,
}
use demotool.Base.{Option, none, some, List, [], ◌∷◌, ◌++◌, arith, bit_and}
use demotool.Base.{length, length-append, length-drop, drop}
use demotool.Base.Bits.{length_mask, or_zero, and_three, tag_or_length}
use demotool.Base.CString.{strncpy}
use demotool.Protocol.{sizeof_header}
use demotool.Protocol.Ext
use demotool.Client.{Options}
use demotool.Client.Header.{copy_text, add_extension, device_room, cmdline_room}
use demotool.Client.Header.{extension_room, pad_loop, device_bytes}
use demotool.Client.Header.{cmdline_bytes, extension_bytes, ver_len}

length-copy_text : (len : ℕ) (ext : Option (List ℕ)) → length (copy_text len ext) ≡ len
unfolding copy_text
length-copy_text zero ext = refl
length-copy_text (suc len) none = omega (arith, length-copy_text len none)
length-copy_text (suc len) (some []) = omega (arith, length-copy_text len (some []))
length-copy_text (suc len) (some (c ∷ t)) = omega (arith, length-copy_text len (some t))

length-add_extension :
    (type : ℕ) (ext : Option (List ℕ)) (len : ℕ)
    → len ≤ 15
    → length (add_extension type ext len) ≡ len + 1
unfolding add_extension
length-add_extension type ext len h = ground (arith, length-copy_text len ext)

length-pad_loop :
    (fuel : ℕ) (ext : List ℕ)
    → (4 - length ext % 4) % 4 ≤ fuel
    → length (pad_loop fuel ext) ≡ (length ext + 3) / 4 * 4
unfolding pad_loop
length-pad_loop zero ext h = omega arith
length-pad_loop (suc fuel) ext h = ground (
  arith,
  and_three (length ext),
  length-append ext (add_extension 0 none 0),
  length-add_extension 0 none 0,
  length-pad_loop fuel (ext ++ add_extension 0 none 0),
)

-- A text of at most `n` characters, if there is one.
abbrev pub IsShort : ℕ → Option (List ℕ) → Type 0
IsShort n none = Unit
IsShort n (some s) = length s ≤ n

-- What `main` lets through: a device name of 15 characters and a command line of 30 at most.
pub record HasShortTexts (o : Options) : Type 0 where
  pub device_short : IsShort 15 o.device
  pub cmdline_short : IsShort 30 o.cmdline

length-device_bytes : (d : Option (List ℕ)) → IsShort 15 d → length (device_bytes d) ≡ device_room d
unfolding device_bytes device_room
length-device_bytes none h = refl
length-device_bytes (some d) h = length-add_extension _ (some d) (length d) h

length-cmdline_bytes :
    (c : Option (List ℕ)) → IsShort 30 c → length (cmdline_bytes c) ≡ cmdline_room c
unfolding cmdline_bytes cmdline_room
length-cmdline_bytes none h = refl
length-cmdline_bytes (some c) h = ground (
  arith,
  length-add_extension Ext.cmdline1 (some (strncpy c 15)) 15,
  length-add_extension Ext.cmdline0 (some (drop 15 c)) (length (drop 15 c)),
  length-add_extension Ext.cmdline0 (some c) (length c),
  length-append (add_extension Ext.cmdline1 (some (strncpy c 15)) 15)
      (add_extension Ext.cmdline0 (some (drop 15 c)) (length (drop 15 c))),
  length-drop 15 c,
)

device_room-le : (d : Option (List ℕ)) → IsShort 15 d → device_room d ≤ 16
unfolding device_room
device_room-le none h = omega arith
device_room-le (some d) h = omega arith

cmdline_room-le : (c : Option (List ℕ)) → IsShort 30 c → cmdline_room c ≤ 32
unfolding cmdline_room
cmdline_room-le none h = omega arith
cmdline_room-le (some c) h = ground arith

pub extension_room-le : (o : Options) → HasShortTexts o → extension_room o ≤ 48
unfolding extension_room
extension_room-le o s =
    ground
      (arith, device_room-le o.device s.device_short, cmdline_room-le o.cmdline s.cmdline_short)

-- The extensions take the room that was computed for them, rounded up to four bytes.
pub length-extension_bytes :
    (o : Options) → HasShortTexts o → length (extension_bytes o) ≡ (extension_room o + 3) / 4 * 4
unfolding extension_bytes extension_room
length-extension_bytes o s = ground (
  arith,
  length-append (device_bytes o.device) (cmdline_bytes o.cmdline),
  length-device_bytes o.device s.device_short,
  length-cmdline_bytes o.cmdline s.cmdline_short,
  length-pad_loop 4 (device_bytes o.device ++ cmdline_bytes o.cmdline) (omega arith),
)

-- The last byte of the tag is the number of the bytes behind it.
pub ver_len-length : (o : Options) → HasShortTexts o → ver_len o ≡ 24 + length (extension_bytes o)
unfolding ver_len
ver_len-length o s =
    let sum = sizeof_header - 4 + extension_room o + 3 in
    let room = extension_room-le o s in
    let small : sum < 512 = omega arith in
    let masked : bit_and sum 0xfc ≡ sum / 4 * 4 % 256 = length_mask sum small in
    omega (arith, or_zero (bit_and sum 0xfc) (omega arith), length-extension_bytes o s)

-- Padding leaves the extensions in front as they are.
pub pad_loop-append : (fuel : ℕ) (ext : List ℕ) → (pad : List ℕ) × (pad_loop fuel ext ≡ ext ++ pad)
unfolding pad_loop
pad_loop-append zero ext = ([], sym (append-nil ext))
pad_loop-append (suc fuel) ext = elim (Bool-cases (bit_and (length ext) 3 == 0)) [
  | inl done ↦ ([], rw done (sym (append-nil ext)))
  | inr more ↦
      let zeros = add_extension Ext.padding none 0 in
      let (pad, e) = pad_loop-append fuel (ext ++ zeros) in
      (zeros ++ pad, rw more (e ∙ append_assoc ext zeros pad))
]

copy_text_all : (text : List ℕ) → copy_text (length text) (some text) ≡ text
unfolding copy_text
copy_text_all [] = refl
copy_text_all (c ∷ text) = ap (λ t. c ∷ t) (copy_text_all text)

-- What `add_extension` writes for a text that fits.
pub add_extension-text :
    (type : ℕ) (text : List ℕ)
    → type < 16
    → length text ≤ 15
    → add_extension (type * 16) (some text) (length text) ≡ (type * 16 + length text) ∷ text
unfolding add_extension
add_extension-text type text ht h =
    ground (arith, tag_or_length type (length text), copy_text_all text)
