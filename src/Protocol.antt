-- ===== src/Protocol.antt =====
-- The wire protocol of inc/protocol.h: the fixed header `dt_header_t`, its commands, flags,
-- extension types and error codes, and the byte order of its numbers.
mod Words
unfoldable pub use Words.*
pub mod Layout
pub mod Flag
pub mod Ext
pub mod Err
use demotool.Base.{ℕ, List, [], ◌∷◌}

-- The struct, with the value of each field as it stands in the memory of the host.
pub record Header : Type 0 where
  pub hdr_tag_len_ver : List ℕ
  pub plugin_tag_ver : List ℕ
  pub major : ℕ
  pub minor : ℕ
  pub reserved : ℕ
  pub flags : ℕ
  pub size : ℕ
  pub addr : ℕ
  pub jump : ℕ
  pub extension : List ℕ

-- The size of the fixed part of the struct.
abbrev pub sizeof_header : ℕ
sizeof_header = 28

abbrev pub dt_hdr_len_mask : ℕ
dt_hdr_len_mask = 0xfc

abbrev pub dt_hdr_ver_mask : ℕ
dt_hdr_ver_mask = 0x03

abbrev pub dt_hdr_version : ℕ
dt_hdr_version = 0

abbrev pub dt_hdr_tag : List ℕ
dt_hdr_tag = b'H' ∷ b'D' ∷ b'R' ∷ []

abbrev pub dt_hdr_tag_cmd_quit : List ℕ
dt_hdr_tag_cmd_quit = b'Q' ∷ b'U' ∷ b'I' ∷ b'T' ∷ []

abbrev pub dt_hdr_tag_cmd_reboot : List ℕ
dt_hdr_tag_cmd_reboot = b'R' ∷ b'B' ∷ b'O' ∷ b'T' ∷ []

abbrev pub dt_cmd_plugin : ℕ
dt_cmd_plugin = 0

abbrev pub dt_cmd_quit : ℕ
dt_cmd_quit = 1

abbrev pub dt_cmd_reboot : ℕ
dt_cmd_reboot = 2

abbrev pub dt_cmd_error : ℕ
dt_cmd_error = 0x8000_0000

abbrev pub dt_def_port : ℕ
dt_def_port = 9999
