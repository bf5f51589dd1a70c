-- ===== src/Client/Main/Exits.antt =====
-- How the client ends.
use demotool.Base.{ℕ, ◌≡◌, refl, true, false, Option, none, some, All, arith}
use demotool.Base.{List, [], ◌∷◌, ◌++◌, inl, inr, Bool-cases}
use demotool.Base.Run.{Run, ok, waiting, and_then, pure}
use demotool.Socket.{Net}
use demotool.Protocol.Err
use demotool.Protocol.Flag.{has_flag}
use demotool.Client.Arguments.{Arg, Settings, defaults, set_options}
use demotool.Client.Commands.{Action, validate_command}
use demotool.Client.Connect.{
  System, SocketCall, call_socket, call_set_flags, call_close, Opened, open_connection,
}
use demotool.Client.Connect.Opening.{
  Uses, sets_flags, stage_failed, stage_opened, Settled, no_host, no_socket, opening,
  open_connection-Settled,
}
use demotool.Client.Main.{
  ClientHost, Exit, run_action, exit_early, exit_status, run_connected, run_validated, run_command,
  read_operands, read_settings, main,
}

-- No socket is opened, or one, which is then used and closed.
pub data Balanced : List SocketCall → Type 0 where
  unused : Balanced []
  closed :
      (sock : ℕ) (mid : List SocketCall)
      → All (Uses sock) mid
      → Balanced (call_socket sock ∷ (mid ++ call_close sock ∷ []))

-- What `main` does with the words: it ends with the status 1 before a command is run; or a command
-- of the words is run on a connection, with the options that were read, and the status is that of its
-- result; or the command waits.
pub data Exits (set : Option Settings) (h : ClientHost) (operands : List (List ℕ)) (net : Net)
    : Run Net Exit → Type 0 where
  early :
      {calls : List SocketCall}
      → Balanced calls
      → Exits set h operands net (ok (record { calls = calls; status = 1 }) net)
  ran :
      {calls : List SocketCall} {ret : ℕ} {net' : Net} (s : Settings) (command : List ℕ)
      (rest : List (List ℕ)) (action : Action)
      → set ≡ some s
      → operands ≡ command ∷ rest
      → validate_command (record s.opts { plugin = command }) ≡ some action
      → run_action h (record s.opts { plugin = command }) action net ≡ ok ret net'
      → Balanced calls
      → Exits set h operands net (ok (record { calls = calls; status = exit_status ret }) net')
  waits :
      (s : Settings) (command : List ℕ) (rest : List (List ℕ)) (action : Action)
      → set ≡ some s
      → operands ≡ command ∷ rest
      → validate_command (record s.opts { plugin = command }) ≡ some action
      → run_action h (record s.opts { plugin = command }) action net ≡ waiting
      → Exits set h operands net waiting

-- What `open_connection` did, by the bit of an error in its result.
failed-Balanced :
    (sys : System) (name : List ℕ) (port : ℕ) (o : Opened)
    → ((sock : ℕ) → sys.socket ≡ some sock → has_flag sock Err.client ≡ false)
    → Settled sys name port o
    → has_flag o.ret Err.client ≡ true
    → Balanced o.calls
failed-Balanced sys name port o h (no_host e n) f = unused
failed-Balanced sys name port o h (no_socket e n) f = unused
failed-Balanced sys name port o h (opening address sock n s (stage_failed mid us e w)) f =
    closed sock mid us
failed-Balanced sys name port o h (opening address sock n s (stage_opened mid us e a g r)) f =
    absurd (ground (arith, h sock s, f))

All-snoc :
    {sock : ℕ} (mid : List SocketCall) (call : SocketCall)
    → All (Uses sock) mid
    → Uses sock call
    → All (Uses sock) (mid ++ call ∷ [])
All-snoc [] call us u = (u, tt)
All-snoc (c ∷ mid) call (v, us) u = (v, All-snoc mid call us u)

closed-Balanced :
    (sys : System) (name : List ℕ) (port : ℕ) (o : Opened)
    → Settled sys name port o
    → has_flag o.ret Err.client ≡ false
    → Balanced (o.calls ++ call_close o.ret ∷ [])
closed-Balanced sys name port o (no_host e n) f = absurd (ground (arith, e, f))
closed-Balanced sys name port o (no_socket e n) f = absurd (ground (arith, e, f))
closed-Balanced sys name port o (opening address sock n s (stage_failed mid us e w)) f =
    absurd (ground (arith, e, f))
closed-Balanced sys name port o (opening address sock n s (stage_opened {flags} mid us e a g r)) f =
    closed sock (mid ++ call_set_flags sock flags ∷ [])
      (All-snoc mid (call_set_flags sock flags) us (sets_flags flags))

module _ (sys : System) (h : ClientHost) (net : Net)
    (descriptor : (sock : ℕ) → sys.socket ≡ some sock → has_flag sock Err.client ≡ false) where
  after_run :
      (set : Option Settings) (s : Settings) (operands : List (List ℕ)) (command : List ℕ)
      (rest : List (List ℕ)) (action : Action) (calls : List SocketCall) (r : Run Net ℕ)
      → set ≡ some s
      → operands ≡ command ∷ rest
      → validate_command (record s.opts { plugin = command }) ≡ some action
      → run_action h (record s.opts { plugin = command }) action net ≡ r
      → Balanced calls
      → Exits set h operands net
          (and_then r (λ ret. pure (record { calls = calls; status = exit_status ret })))
  after_run set s operands command rest action calls (ok ret net') e w v run b =
      ran s command rest action e w v run b
  after_run set s operands command rest action calls waiting e w v run b =
      waits s command rest action e w v run

  run_connected-Exits :
      (set : Option Settings) (s : Settings) (operands : List (List ℕ)) (command : List ℕ)
      (rest : List (List ℕ)) (action : Action) (name : List ℕ) (port : ℕ) (o : Opened)
      → set ≡ some s
      → operands ≡ command ∷ rest
      → validate_command (record s.opts { plugin = command }) ≡ some action
      → Settled sys name port o
      → Exits set h operands net (run_connected h (record s.opts { plugin = command }) action o net)
  unfolding run_connected exit_early
  run_connected-Exits set s operands command rest action name port o e w v op =
      let run = run_action h (record s.opts { plugin = command }) action net in
      elim (Bool-cases (has_flag o.ret Err.client)) [
        | inl f ↦ rw f (early (failed-Balanced sys name port o descriptor op f))
        | inr f ↦ rw f (
            after_run set s operands command rest action _ run e w v refl
              (closed-Balanced sys name port o op f))
      ]

  run_validated-Exits :
      (set : Option Settings) (s : Settings) (command destination : List ℕ) (others : List (List ℕ))
      (v : Option Action)
      → set ≡ some s
      → validate_command (record s.opts { plugin = command }) ≡ v
      → Exits set h
          (command ∷ destination ∷ others)
          net
          (run_validated sys h (record s.opts { plugin = command }) s.port destination v net)
  unfolding run_validated exit_early
  run_validated-Exits set s command destination others none e v = early unused
  run_validated-Exits set s command destination others (some action) e v =
      run_connected-Exits set s (command ∷ destination ∷ others) command (destination ∷ others)
        action destination s.port (open_connection sys destination s.port) e refl v
        (open_connection-Settled sys destination s.port)

  read_operands-Exits :
      (set : Option Settings) (s : Settings) (operands : List (List ℕ))
      → set ≡ some s
      → Exits set h operands net (read_operands sys h s operands net)
  unfolding read_operands run_command exit_early
  read_operands-Exits set s [] e = early unused
  read_operands-Exits set s (command ∷ []) e = early unused
  read_operands-Exits set s (command ∷ destination ∷ others) e =
      run_validated-Exits set s command destination others
        (validate_command (record s.opts { plugin = command })) e refl

  read_settings-Exits :
      (set r : Option Settings) (operands : List (List ℕ))
      → set ≡ r
      → Exits set h operands net (read_settings sys h operands r net)
  unfolding read_settings exit_early
  read_settings-Exits set none operands e = early unused
  read_settings-Exits set (some s) operands e = read_operands-Exits set s operands e

-- If the numbers of sockets have no sign, the program opens no socket or one, which it closes behind
-- all that it does with it; and it ends with the status 1 before a command is run, or with the status
-- of a command's result, 0 for the result 0, or it waits in the command. The command is the one that
-- is named first behind the options, with the options that were read.
pub main-Exits :
    (sscanf : List ℕ → Option (ℕ × ℕ)) (strtoul : List ℕ → ℕ) (sys : System) (h : ClientHost)
    (args : List Arg) (operands : List (List ℕ)) (net : Net)
    → ((sock : ℕ) → sys.socket ≡ some sock → has_flag sock Err.client ≡ false)
    → Exits
        (set_options sscanf strtoul args defaults)
        h
        operands
        net
        (main sscanf strtoul sys h args operands net)
unfolding main
main-Exits sscanf strtoul sys h args operands net descriptor =
    read_settings-Exits sys h net descriptor (set_options sscanf strtoul args defaults)
      (set_options sscanf strtoul args defaults) operands refl
