-- ===== src/Server/Header.antt =====
-- `check_dt_ver_len` of server/demotool.c.
use demotool.Base.{ℕ, ◌-◌, Option, none, some, List, bit_and, ltb, ◌==◌, if◌then◌else◌, get_or}
use demotool.Base.CString.{same_prefix}
use demotool.Protocol.{sizeof_header, dt_hdr_tag, dt_hdr_len_mask, dt_hdr_ver_mask, dt_hdr_version}
use demotool.Protocol.Err

-- The result, with what `*p_len` and `*p_ver` receive: nothing if the tag is wrong.
pub record Check : Type 0 where
  pub code : ℕ
  pub len_ver : Option (ℕ × ℕ)

-- `return -2` of a `uint32_t`.
abbrev pub wrong_version : ℕ
wrong_version = 0xffff_fffe

unfoldable pub header_len : ℕ → ℕ
header_len b = let len = bit_and b dt_hdr_len_mask in if len == 0 then 256 else len

unfoldable pub check_dt_ver_len : List ℕ → Check
unfolding header_len same_prefix
check_dt_ver_len hdr =
    let len = header_len (get_or hdr 3 0) in
    let ver = bit_and (get_or hdr 3 0) dt_hdr_ver_mask in
    if same_prefix hdr dt_hdr_tag 3
    then record {
      code =
          if ver == dt_hdr_version
          then (if ltb len (sizeof_header - 4) then Err.hdr_len else Err.ok)
          else wrong_version;
      len_ver = some (len, ver);
    }
    else record { code = Err.hdr_tag; len_ver = none }
