-- ===== src/Wire/Extensions.antt =====
-- The extensions that `prepare_header` of client/demotool.c writes, as `find_extension` of
-- plugins/utils.c finds them.
use demotool.Base.{ℕ, ◌+◌, ◌%◌, ◌≤◌, ◌≡◌, refl, ap, ◌∙◌, true, some, List, [], ◌∷◌, ◌++◌}
use demotool.Base.{arith, length, take-append_left, append_assoc}
use demotool.Protocol.Flag
use demotool.Protocol.Flag.{has_flag}
use demotool.Protocol.{Header, Endian, big}
use demotool.Protocol.Layout.{store_header, load_header}
use demotool.Client.{Options}
use demotool.Base.Bits.{length_mask}
use demotool.Plugins.Loadseg.{ext_len, device}
use demotool.Wire.Request.{AreWords, requested, extension_len, load-fill_header}
use demotool.Client.Header.{device_bytes, cmdline_bytes, extension_bytes, ver_len, fill_header}
use demotool.Client.Header.Length.{
  HasShortTexts, ver_len-length, pad_loop-append, add_extension-text,
}
use demotool.Plugins.Utils.{find_extension}
use demotool.Plugins.Utils.Extensions.{find_extension-first}

-- The extensions begin with the tag of the device and its name, if one is given.
device_first :
    (o : Options) (d : List ℕ)
    → has_flag o.flags Flag.extension ≡ true
    → o.device ≡ some d
    → length d ≤ 15
    → (after : List ℕ) × (extension_bytes o ≡ (16 + length d) ∷ (d ++ after))
unfolding extension_bytes device_bytes
device_first o d f e h =
    let (pad, p) = pad_loop-append 4 (device_bytes o.device ++ cmdline_bytes o.cmdline) in
    let tag = add_extension-text 1 d (omega arith) h in
    (cmdline_bytes o.cmdline ++ pad, rw f (p ∙ rw (e, tag, append_assoc)))

-- `find_extension`, given the length of the extensions that the client writes for its options, finds
-- the name of the device among them: a name of at most 15 characters, with the flag of the extensions.
pub find_extension-device :
    (o : Options) (d : List ℕ)
    → has_flag o.flags Flag.extension ≡ true
    → o.device ≡ some d
    → length d ≤ 15
    → find_extension (extension_bytes o) (length (extension_bytes o)) 0x10 ≡ some d
find_extension-device o d f e h =
    let (after, b) = device_first o d f e h in
    let low : (16 + length d) % 16 ≡ length d = omega arith in
    rw b (
      find_extension-first 1 (16 + length d) [] (d ++ after) _ tt (omega arith) (omega arith)
        (omega arith)
      ∙ rw low (ap some (take-append_left d after (length d) refl)))

-- The length that the loadseg plugin computes is that of the extensions.
ext_len-requested :
    (o : Options) → HasShortTexts o → ext_len (requested o) ≡ length (extension_bytes o)
unfolding ext_len requested
ext_len-requested o s =
    let byte = ver_len-length o s in
    let (small, whole) = extension_len o s in
    ground (arith, byte, small, whole, length_mask (4 + ver_len o) (omega arith))

device-ext_len :
    (h : Header) (n : ℕ)
    → has_flag h.flags Flag.extension ≡ true
    → ext_len h ≡ n
    → device h ≡ find_extension h.extension n 0x10
unfolding device
device-ext_len h n f e = rw (f, e) refl

requested-fields :
    (o : Options) → ((requested o).flags ≡ o.flags) × ((requested o).extension ≡ extension_bytes o)
unfolding requested
requested-fields o = (refl, refl)

-- The loadseg plugin finds in the header that the server has read, on either byte order of the client,
-- the name of the device that the client was given, where the flag of the extensions is set, the texts
-- of the options are short enough for a header, and the numbers are words.
pub device-load_header :
    (e : Endian) (o : Options) (d : List ℕ)
    → AreWords o
    → HasShortTexts o
    → has_flag o.flags Flag.extension ≡ true
    → o.device ≡ some d
    → device (load_header big (store_header e (fill_header e o))) ≡ some d
device-load_header e o d w s f named =
    let (flags, extension) = requested-fields o in
    let flag : has_flag (requested o).flags Flag.extension ≡ true = rw flags f in
    let found = find_extension-device o d f named (rw named at s.device_short) in
    rw (load-fill_header e o w) (
      device-ext_len (requested o) (length (extension_bytes o)) flag (ext_len-requested o s)
      ∙ rw extension found)
