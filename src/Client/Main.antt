-- ===== src/Client/Main.antt =====
-- `main` of client/demotool.c: the options are read, a connection is opened, the command is run on
-- it, and the program ends with a status. Printing is left out; `usage` ends with the status 1.
pub mod Exits
use demotool.Base.{ℕ, Bool, Option, none, some, List, [], ◌∷◌, ◌++◌, ◌==◌, if◌then◌else◌}
use demotool.Base.Run.{Run, ok, waiting, Cmd, ◌>>=◌, ◌>>◌, pure}
use demotool.Socket.{Net}
use demotool.Protocol.{Endian}
use demotool.Protocol.Err
use demotool.Protocol.Flag.{has_flag}
use demotool.Client.{Options}
use demotool.Client.Arguments.{Arg, Settings, defaults, set_options}
use demotool.Client.Commands.{
  InputFile, Action, do_lsg0, do_lsg1, do_adf0, do_adr0, do_peek, do_quit, do_reboot, lsg0, adf0,
  peek, quit_remote, reboot_remote, validate_command,
}
use demotool.Client.Connect.{System, SocketCall, call_close, Opened, open_connection}

-- The host: its byte order, whether it has memory, the file that is read, whether the one that is
-- written can be opened, and how much `fwrite` writes of a piece.
pub record ClientHost : Type 0 where
  pub endian : Endian
  pub memory : Bool
  pub file : Option InputFile
  pub opened : Bool
  pub accepts : List ℕ → ℕ

-- The end of the program, with the calls that concern its socket.
pub record Exit : Type 0 where
  pub calls : List SocketCall
  pub status : ℕ

-- `plugin(sock,&s_opts)`
unfoldable pub run_action : ClientHost → Options → Action → Cmd Net ℕ
run_action h o do_lsg0 = lsg0 h.endian h.memory h.file o
run_action h o do_lsg1 = lsg0 h.endian h.memory h.file o
run_action h o do_adf0 = adf0 h.endian h.memory h.file o
run_action h o do_adr0 = lsg0 h.endian h.memory h.file o
run_action h o do_peek = do r ← peek h.endian h.memory h.opened h.accepts o; pure r.0
run_action h o do_quit = quit_remote h.endian
run_action h o do_reboot = reboot_remote h.endian

-- `usage`, and the other ends before the command is run.
unfoldable pub exit_early : List SocketCall → Cmd Net Exit
exit_early calls = pure (record { calls = calls; status = 1 })

-- The status of a command's result.
unfoldable pub exit_status : ℕ → ℕ
exit_status ret = if ret == 0 then 0 else 1

-- The command is run on the connection, which is closed behind it. A socket without the bit of an
-- error is not negative.
unfoldable pub run_connected : ClientHost → Options → Action → Opened → Cmd Net Exit
unfolding run_action exit_early exit_status
run_connected h o action c = if has_flag c.ret Err.client then exit_early c.calls else (do
  ret ← run_action h o action
  pure (record { calls = c.calls ++ call_close c.ret ∷ []; status = exit_status ret }))

-- What `validate_command` gives for the options, or NULL.
unfoldable pub run_validated :
    System → ClientHost → Options → ℕ → List ℕ → Option Action → Cmd Net Exit
unfolding exit_early run_connected
run_validated sys h o port destination none = exit_early []
run_validated sys h o port destination (some action) =
    run_connected h o action (open_connection sys destination port)

-- The command is looked for by its name.
unfoldable pub run_command : System → ClientHost → Settings → List ℕ → List ℕ → Cmd Net Exit
unfolding run_validated
run_command sys h s command destination =
    let o = record s.opts { plugin = command } in
    run_validated sys h o s.port destination (validate_command o)

-- The words behind the options: a command and a destination, and others that are not looked at.
unfoldable pub read_operands : System → ClientHost → Settings → List (List ℕ) → Cmd Net Exit
unfolding exit_early run_command
read_operands sys h s [] = exit_early []
read_operands sys h s (command ∷ []) = exit_early []
read_operands sys h s (command ∷ destination ∷ others) = run_command sys h s command destination

-- The options, or the end in `usage`.
unfoldable pub read_settings : System → ClientHost → List (List ℕ) → Option Settings → Cmd Net Exit
unfolding exit_early read_operands
read_settings sys h operands none = exit_early []
read_settings sys h operands (some s) = read_operands sys h s operands

-- `main`; `sscanf` and `strtoul` are those of the options.
unfoldable pub main :
    (List ℕ → Option (ℕ × ℕ))
    → (List ℕ → ℕ)
    → System
    → ClientHost
    → List Arg
    → List (List ℕ)
    → Cmd Net Exit
unfolding read_settings
main sscanf strtoul sys h args operands =
    read_settings sys h operands (set_options sscanf strtoul args defaults)
