-- ===== src/Client/Arguments.antt =====
-- The options of the command line in `main` of client/demotool.c. What `getopt_long` gives is an
-- input, as are `sscanf` for a version and `strtoul`, the functions of the C library.
pub mod Checked
use demotool.Base.{ℕ, ◌%◌, ◌^◌, Bool, not, Option, none, some, List, [], ◌∷◌, bit_or, bit_and}
use demotool.Base.{ltb, ◌==◌, if◌then◌else◌, length}
use demotool.Protocol.{dt_def_port}
use demotool.Protocol.Flag
use demotool.Client.{Options}

-- A result of `getopt_long`: the character of the option, and its argument.
pub record Arg : Type 0 where
  pub ch : ℕ
  pub optarg : List ℕ

-- The options and the port.
pub record Settings : Type 0 where
  pub opts : Options
  pub port : ℕ

-- The defaults; `plugin` is set behind the loop.
abbrev pub defaults : Settings
defaults = record {
  opts = record {
    addr = 0;
    jump = 0;
    flags = 0;
    size = 0;
    device = none;
    plugin = [];
    named_plugin = none;
    file = none;
    cmdline = none;
    major = 0;
    minor = 0;
  };
  port = dt_def_port;
}

module _ (sscanf : List ℕ → Option (ℕ × ℕ)) (strtoul : List ℕ → ℕ) where
  -- A flag of the options.
  abbrev pub with_flag : ℕ → Options → Options
  with_flag f o = record o { flags = bit_or o.flags f }

  -- The option `-v`; `none` here and below is the end of the program in `usage`.
  unfoldable pub set_version : Option (ℕ × ℕ) → Settings → Option Settings
  set_version none s = none
  set_version (some (major, minor)) s =
      some (record { opts = record s.opts { major = major; minor = minor }; port = s.port })

  -- The body of the loop: the switch over the character.
  unfoldable pub set_option : Arg → Settings → Option Settings
  unfolding set_version
  set_option a s =
      let is = λ (c : ℕ). a.ch == c in
      let o = s.opts in
      let set = λ (o' : Options). some (record s { opts = o' }) in
      if is b'v'
      then set_version (sscanf a.optarg) s
      else if is b'P'
      then (if length a.optarg == 4 then set (record o { named_plugin = some a.optarg }) else none)
      else if is b'n'
      then set (with_flag Flag.no_run o)
      else if is b'f'
      then set (record o { file = some a.optarg })
      else if is b'c'
      then (if ltb 30 (length a.optarg)
          then none
          else set (record (with_flag Flag.extension o) { cmdline = some a.optarg }))
      else if is b'l'
      then set (record o { addr = strtoul a.optarg % 2 ^ 32 })
      else if is b'j'
      then set (record o { jump = strtoul a.optarg % 2 ^ 32 })
      else if is b's'
      then set (record o { size = strtoul a.optarg % 2 ^ 32 })
      else if is b'r'
      then set (with_flag Flag.reboot_on_exit o)
      else if is b'e'
      then set (with_flag Flag.exact_version o)
      else if is b'p'
      then some (record s { port = bit_and (strtoul a.optarg) 0xffff })
      else if is b'd'
      then (if ltb 15 (length a.optarg)
          then none
          else set (record (with_flag Flag.extension o) { device = some a.optarg }))
      else none

  -- The loop over the options.
  unfoldable pub set_options : List Arg → Settings → Option Settings
  unfolding set_option
  set_options [] s = some s
  set_options (a ∷ args) s = elim (set_option a s) [ none ↦ none | some s' ↦ set_options args s' ]
