-- ===== src/Plugins/Utils.antt =====
-- plugins/utils.c: the search for an extension of a header, and the name of a temporary file. The
-- bytes behind a pointer are a list.
pub mod Extensions
use demotool.Base.{ℕ, zero, suc, ◌+◌, ◌-◌, ◌/◌, Option, none, some, List, [], ◌∷◌, ◌++◌}
use demotool.Base.{bit_and, bit_xor, ltb, ◌==◌, if◌then◌else◌, length, take, get_or}
use demotool.Base.Int.{ℤ, sub_ℕ, negsuc}
use demotool.Protocol.{sizeof_header, dt_hdr_len_mask, dt_hdr_ver_mask, Header}

-- What `p_val` receives, or `none` for the result -1; the result is otherwise its length. The bytes
-- of the value are read without a look at `ext_len`.
unfoldable pub find_extension : List ℕ → ℕ → ℕ → Option (List ℕ)
find_extension p_ext zero type = none
find_extension [] (suc ext_len) type = none
find_extension (b ∷ p_ext) (suc ext_len) type =
    let rest = find_extension p_ext ext_len type in
    if bit_and b 0xf0 == type then some (take (bit_and b 0x0f) p_ext) else rest

unfoldable pub get_extensions_len : Header → ℤ
get_extensions_len h =
    let b = get_or h.hdr_tag_len_ver 3 0 in
    let len = bit_and b dt_hdr_len_mask in
    let len' = if len == 0 then 256 else len in
    if bit_and b dt_hdr_ver_mask == 0 then sub_ℕ (len' + 4) sizeof_header else negsuc 0

-- `s_i2h`
unfoldable pub hex_digit : ℕ → ℕ
hex_digit d = if ltb d 10 then b'0' + d else b'a' + (d - 10)

-- The loop that writes `n` digits of `tmp`, the lowest first.
unfoldable pub hex_digits : ℕ → ℕ → List ℕ
unfolding hex_digit
hex_digits zero tmp = []
hex_digits (suc n) tmp = hex_digit (bit_and tmp 0xf) ∷ hex_digits n (tmp / 16)

-- The name that `get_tmp_filename` writes, or `none` for NULL, and the new seed. `address` is that of
-- the prefix, and `fast_rand` is the function of the system's library.
unfoldable pub get_tmp_filename : (ℕ → ℕ) → ℕ → List ℕ → ℕ → ℕ → Option (List ℕ) × ℕ
unfolding hex_digits
get_tmp_filename fast_rand address prefix name_len seed =
    let seed' = if seed == 0 then address else seed in
    let tmp = fast_rand seed' in
    if ltb name_len (length prefix + 8 + 1)
    then (none, seed')
    else (some (prefix ++ hex_digits 8 tmp), bit_xor seed' tmp)
