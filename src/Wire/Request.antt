-- ===== src/Wire/Request.antt =====
-- The header of `prepare_header` in client/demotool.c, as the server reads it.
use demotool.Base.{ℕ, ◌∙◌, ◌+◌, ◌%◌, ◌^◌, ◌≤◌, ◌<◌, ◌≡◌, refl, true, none, some}
use demotool.Base.{List, [], ◌∷◌, arith, length, bit_and}
use demotool.Base.Bits.{length_mask, version_mask, and_byte}
use demotool.Base.CString.{strncpy, length-strncpy}
use demotool.Protocol.{
  Header, Endian, big, be32, of_be32, of_be32-be32, store32, load32, store32-htonl, htonl,
}
use demotool.Protocol.{sizeof_header}
use demotool.Protocol.Err
use demotool.Protocol.Layout.{store_header, load_header, load_header-parts, length-store32}
use demotool.Client.{Options}
use demotool.Client.Header.{extension_bytes, ver_len, fill_header, prepare_header}
use demotool.Client.Header.Length.{HasShortTexts, extension_room-le, length-extension_bytes}
use demotool.Client.Header.Length.{ver_len-length}
use demotool.Server.Header.{check_dt_ver_len}

-- With short texts the header is not too big, so `prepare_header` fails only for want of memory.
pub prepare_header-some :
    (e : Endian) (o : Options)
    → HasShortTexts o
    → prepare_header e true o ≡ some (fill_header e o, sizeof_header + length (extension_bytes o))
unfolding prepare_header
prepare_header-some e o s = ground (arith, extension_room-le o s)

pub extension_len :
    (o : Options)
    → HasShortTexts o
    → (length (extension_bytes o) ≤ 48) × (length (extension_bytes o) % 4 ≡ 0)
extension_len o s = (
  omega (arith, extension_room-le o s, length-extension_bytes o s),
  omega (arith, extension_room-le o s, length-extension_bytes o s),
)

-- The server accepts the tag of every header that the client makes, and takes from it the number of
-- the bytes that the client sends behind the tag.
pub check-fill_header :
    (e : Endian) (o : Options)
    → HasShortTexts o
    → check_dt_ver_len (fill_header e o).hdr_tag_len_ver
      ≡ record { code = Err.ok; len_ver = some (24 + length (extension_bytes o), 0) }
unfolding check_dt_ver_len fill_header
check-fill_header e o s =
    let (small, whole) = extension_len o s in
    let byte = ver_len-length o s in
    ground
      (arith, byte, length_mask (ver_len o) (omega arith), version_mask (ver_len o) (omega arith))

-- The fields of a request as the options give them, in plain numbers.
unfoldable pub requested : Options → Header
requested o = record {
  hdr_tag_len_ver = b'H' ∷ b'D' ∷ b'R' ∷ ver_len o ∷ [];
  plugin_tag_ver = strncpy (elim o.named_plugin [ none ↦ o.plugin | some p ↦ p ]) 4;
  major = o.major % 256;
  minor = o.minor % 256;
  reserved = 0;
  flags = o.flags;
  size = o.size;
  addr = o.addr;
  jump = o.jump;
  extension = extension_bytes o;
}

-- Numbers of the options that fit a `uint32_t`.
pub record AreWords (o : Options) : Type 0 where
  pub flags_u32 : o.flags < 2 ^ 32
  pub size_u32 : o.size < 2 ^ 32
  pub addr_u32 : o.addr < 2 ^ 32
  pub jump_u32 : o.jump < 2 ^ 32

load32-network : (e : Endian) (v : ℕ) → v < 2 ^ 32 → load32 big (store32 e (htonl e v)) ≡ v
unfolding load32
load32-network e v h = rw (store32-htonl e v h) (of_be32-be32 v h)

-- The server, which reads the bytes as a big-endian host, finds the fields that the options ask for,
-- whatever the byte order of the client.
pub load-fill_header :
    (e : Endian) (o : Options)
    → AreWords o
    → load_header big (store_header e (fill_header e o)) ≡ requested o
unfolding store_header fill_header requested demotool.Protocol.of_be16
load-fill_header e o w =
    let words = λ (v : ℕ). length-store32 e (htonl e v) in
    let name : List ℕ = elim o.named_plugin [ none ↦ o.plugin | some p ↦ p ] in
    load_header-parts big (bit_and o.major 0xff) (bit_and o.minor 0xff) 0 0
      (b'H' ∷ b'D' ∷ b'R' ∷ ver_len o ∷ []) (strncpy name 4) (store32 e (htonl e o.flags))
      (store32 e (htonl e o.size)) (store32 e (htonl e o.addr)) (store32 e (htonl e o.jump))
      (extension_bytes o) refl (length-strncpy name 4) (words o.flags) (words o.size) (words o.addr)
      (words o.jump)
    ∙ rw
        (
          load32-network e o.flags w.flags_u32,
          load32-network e o.size w.size_u32,
          load32-network e o.addr w.addr_u32,
          load32-network e o.jump w.jump_u32,
          and_byte o.major,
          and_byte o.minor,
        )
        refl
