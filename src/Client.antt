-- ===== src/Client.antt =====
-- The client program, client/demotool.c: its options. The child modules hold the header that it
-- makes of them, the commands, and the reading of the command line.
pub mod Header
pub mod Arguments
pub mod Commands
pub mod Connect
pub mod Main
use demotool.Base.{ℕ, Option, List}

-- `dt_options_t`; a NULL string is `none`.
pub record Options : Type 0 where
  pub addr : ℕ
  pub jump : ℕ
  pub flags : ℕ
  pub size : ℕ
  pub device : Option (List ℕ)
  pub plugin : List ℕ
  pub named_plugin : Option (List ℕ)
  pub file : Option (List ℕ)
  pub cmdline : Option (List ℕ)
  pub major : ℕ
  pub minor : ℕ
