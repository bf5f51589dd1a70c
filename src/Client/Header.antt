-- ===== src/Client/Header.antt =====
-- `add_extension` and `prepare_header` of client/demotool.c. A function that writes into a buffer
-- returns the bytes that it writes there, and their number is its result.
pub mod Length
use demotool.Base.{ℕ, zero, suc, ◌+◌, ◌-◌, ◌%◌, ◌++◌, Bool, true, false, Option, none, some}
use demotool.Base.{List, [], ◌∷◌, bit_and, bit_or, ltb, ◌==◌, if◌then◌else◌, length, drop}
use demotool.Base.CString.{strncpy}
use demotool.Protocol.{Header, Endian, htonl, sizeof_header, dt_hdr_len_mask, dt_hdr_version}
use demotool.Protocol.Flag
use demotool.Protocol.Flag.{has_flag}
use demotool.Protocol.Ext
use demotool.Client.{Options}

-- The loop `while (len-- > 0)`: the next character of the text, or 0 where `ext` is NULL. A text
-- shorter than `len` gives the zero that ends it.
unfoldable pub copy_text : ℕ → Option (List ℕ) → List ℕ
copy_text zero ext = []
copy_text (suc len) none = 0 ∷ copy_text len none
copy_text (suc len) (some []) = 0 ∷ copy_text len (some [])
copy_text (suc len) (some (c ∷ ext)) = c ∷ copy_text len (some ext)

unfoldable pub add_extension : ℕ → Option (List ℕ) → ℕ → List ℕ
add_extension type ext len =
    let len' = if ltb 15 len then 15 else len in bit_or type len' ∷ copy_text len' ext

-- The room that `prepare_header` computes for each extension, and for all of them.
unfoldable pub device_room : Option (List ℕ) → ℕ
device_room none = 0
device_room (some d) = length d + 1

unfoldable pub cmdline_room : Option (List ℕ) → ℕ
cmdline_room none = 0
cmdline_room (some c) = length c + (if ltb 15 (length c) then 2 else 1)

unfoldable pub extension_room : Options → ℕ
extension_room o =
    if has_flag o.flags Flag.extension then device_room o.device + cmdline_room o.cmdline else 0

-- `while (n & 3)`: padding up to a multiple of four bytes, in `fuel` rounds at most.
unfoldable pub pad_loop : ℕ → List ℕ → List ℕ
pad_loop zero ext = ext
pad_loop (suc fuel) ext =
    let rest = pad_loop fuel (ext ++ add_extension Ext.padding none 0) in
    if bit_and (length ext) 3 == 0 then ext else rest

unfoldable pub device_bytes : Option (List ℕ) → List ℕ
device_bytes none = []
device_bytes (some d) = add_extension Ext.device_name (some d) (length d)

-- A command line of more than 15 characters is sent as two extensions.
unfoldable pub cmdline_bytes : Option (List ℕ) → List ℕ
cmdline_bytes none = []
cmdline_bytes (some c) =
    if ltb 15 (length c)
    then add_extension Ext.cmdline1 (some (strncpy c 15)) 15
      ++ add_extension Ext.cmdline0 (some (drop 15 c)) (length (drop 15 c))
    else add_extension Ext.cmdline0 (some c) (length c)

-- The bytes that `prepare_header` writes behind the fixed header.
unfoldable pub extension_bytes : Options → List ℕ
extension_bytes o =
    if has_flag o.flags Flag.extension
    then pad_loop 4 (device_bytes o.device ++ cmdline_bytes o.cmdline)
    else []

-- The byte `ver_len`: a `char`, so it keeps the low eight bits.
unfoldable pub ver_len : Options → ℕ
ver_len o =
    bit_or (bit_and (sizeof_header - 4 + extension_room o + 3) dt_hdr_len_mask) dt_hdr_version % 256

-- The header that `prepare_header` fills in.
unfoldable pub fill_header : Endian → Options → Header
fill_header e o = record {
  hdr_tag_len_ver = b'H' ∷ b'D' ∷ b'R' ∷ ver_len o ∷ [];
  plugin_tag_ver = strncpy (elim o.named_plugin [ none ↦ o.plugin | some p ↦ p ]) 4;
  major = bit_and o.major 0xff;
  minor = bit_and o.minor 0xff;
  reserved = 0;
  flags = htonl e o.flags;
  size = htonl e o.size;
  addr = htonl e o.addr;
  jump = htonl e o.jump;
  extension = extension_bytes o;
}

-- The header and its final length, or `none` for NULL. `memory` says whether `malloc` succeeds.
unfoldable pub prepare_header : Endian → Bool → Options → Option (Header × ℕ)
prepare_header e memory o =
    if ltb 256 (sizeof_header + extension_room o - 4)
    then none
    else if memory
    then some (fill_header e o, sizeof_header + length (extension_bytes o))
    else none
