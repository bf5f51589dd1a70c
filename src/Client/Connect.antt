-- ===== src/Client/Connect.antt =====
-- `open_connection` of client/demotool.c: the calls that it makes for a connection, by what the
-- system answers.
pub mod Opening
use demotool.Base.{ℕ, zero, suc, ◌+◌, Bool, true, false, Option, none, some, List, [], ◌∷◌, ◌++◌}
use demotool.Base.{bit_or, ◌==◌, if◌then◌else◌}
use demotool.Base.Int.{ℤ, pos, negsuc}
use demotool.Protocol.Err
use demotool.Client.Commands.{client_error}

-- What `connect` answers: 0, or -1 with `errno` EINPROGRESS or another.
pub data Connected : Type 0 where
  connected in_progress refused : Connected

-- The answers of the system: the address of a host, the number of a new socket, the flags of the
-- socket, whether they can be set for the connection and set back, and what the other calls return.
-- `none` is NULL or -1.
pub record System : Type 0 where
  pub gethostbyname : List ℕ → Option ℕ
  pub socket : Option ℕ
  pub get_flags : Option ℕ
  pub o_nonblock : ℕ
  pub sets_nonblock : Bool
  pub connect : ℕ → ℕ → Connected
  pub select : ℤ
  pub getsockopt : Option ℕ
  pub sets_flags : Bool

-- The calls that concern a socket.
pub data SocketCall : Type 0 where
  call_socket : ℕ → SocketCall
  call_set_flags : ℕ → ℕ → SocketCall
  call_connect : ℕ → ℕ → ℕ → SocketCall
  call_close : ℕ → SocketCall

-- What is returned, behind the calls that were made.
pub record Opened : Type 0 where
  pub calls : List SocketCall
  pub ret : ℕ

-- A call before the others.
abbrev pub behind_call : SocketCall → Opened → Opened
behind_call call o = record { calls = call ∷ o.calls; ret = o.ret }

-- The label `open_connection_exit`.
unfoldable pub connection_exit : ℕ → ℕ → Opened
connection_exit sock ret = record { calls = call_close sock ∷ []; ret = ret }

-- The socket is connected: the flags are set back.
unfoldable pub restore_flags : System → ℕ → ℕ → Opened
unfolding connection_exit
restore_flags sys sock opt = behind_call (call_set_flags sock opt) (
    if sys.sets_flags
    then record { calls = []; ret = sock }
    else connection_exit sock (client_error Err.fcntl))

-- What `getsockopt` says of the connection.
unfoldable pub check_socket : System → ℕ → ℕ → Option ℕ → Opened
unfolding connection_exit restore_flags
check_socket sys sock opt none = connection_exit sock (client_error Err.getsockopt)
check_socket sys sock opt (some zero) = restore_flags sys sock opt
check_socket sys sock opt (some (suc val)) = connection_exit sock (client_error Err.connect_other)

-- `ret` of `select`, or 1.
unfoldable pub check_select : System → ℕ → ℕ → ℤ → Opened
unfolding connection_exit check_socket
check_select sys sock opt (pos zero) = connection_exit sock (client_error Err.connect_timeout)
check_select sys sock opt (pos (suc n)) = check_socket sys sock opt sys.getsockopt
check_select sys sock opt (negsuc n) = connection_exit sock (client_error Err.select)

-- What `connect` answers.
unfoldable pub check_connect : System → ℕ → ℕ → Connected → Opened
unfolding connection_exit check_select
check_connect sys sock opt connected = check_select sys sock opt (pos 1)
check_connect sys sock opt in_progress = check_select sys sock opt sys.select
check_connect sys sock opt refused = connection_exit sock (client_error Err.connect)

-- The socket has flags: it is made non-blocking for the connection.
unfoldable pub connect_socket : System → ℕ → ℕ → ℕ → Option ℕ → Opened
unfolding connection_exit check_connect
connect_socket sys address port sock none = connection_exit sock (client_error Err.fcntl)
connect_socket sys address port sock (some opt) =
    let connect = check_connect sys sock opt (sys.connect address port) in
    behind_call (call_set_flags sock (bit_or opt sys.o_nonblock)) (
      if sys.sets_nonblock
      then behind_call (call_connect sock address port) connect
      else connection_exit sock (client_error Err.fcntl))

-- The host has an address: a socket is opened.
unfoldable pub open_socket : System → ℕ → ℕ → Option ℕ → Opened
unfolding connect_socket
open_socket sys address port none = record { calls = []; ret = client_error Err.socket_open }
open_socket sys address port (some sock) =
    behind_call (call_socket sock) (connect_socket sys address port sock sys.get_flags)

unfoldable pub open_connection : System → List ℕ → ℕ → Opened
unfolding open_socket
open_connection sys name port = elim (sys.gethostbyname name) [
  | none ↦ record { calls = []; ret = client_error Err.dns }
  | some address ↦ open_socket sys address port sys.socket
]
