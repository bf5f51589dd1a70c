-- ===== src/Client/Connect/Opening.antt =====
-- What `open_connection` leaves of the socket.
use demotool.Base.{ℕ, zero, suc, ◌≡◌, refl, Bool, true, false, Option, none, some, All}
use demotool.Base.{List, [], ◌∷◌, ◌++◌, if◌then◌else◌}
use demotool.Base.Int.{ℤ, pos, negsuc}
use demotool.Protocol.Err
use demotool.Protocol.Flag.{has_flag}
use demotool.Base.{bit_or}
use demotool.Client.Commands.{client_error}
use demotool.Client.Connect.{
  Connected, connected, in_progress, refused, System, SocketCall, call_socket, call_set_flags,
  call_connect, call_close, Opened, behind_call, connection_exit, restore_flags, check_socket,
  check_select, check_connect, connect_socket, open_socket, open_connection,
}

-- A call on an open socket that does not close it.
pub data Uses (sock : ℕ) : SocketCall → Type 0 where
  sets_flags : (flags : ℕ) → Uses sock (call_set_flags sock flags)
  connects : (address port : ℕ) → Uses sock (call_connect sock address port)

-- The host is connected: `connect` says so at once, or `select` says that it has come to an answer; and
-- there is no error of the socket.
pub data Answered (sys : System) (address port : ℕ) : Type 0 where
  at_once : sys.connect address port ≡ connected → Answered sys address port
  later :
      {n : ℕ}
      → sys.connect address port ≡ in_progress
      → sys.select ≡ pos (suc n)
      → Answered sys address port

-- What is wrong where a socket is closed again.
pub data Fault (sys : System) (address port : ℕ) : Type 0 where
  no_flags : sys.get_flags ≡ none → Fault sys address port
  stays_blocking : sys.sets_nonblock ≡ false → Fault sys address port
  is_refused : sys.connect address port ≡ refused → Fault sys address port
  timed_out :
      sys.connect address port ≡ in_progress → sys.select ≡ pos zero → Fault sys address port
  select_failed :
      {n : ℕ}
      → sys.connect address port ≡ in_progress
      → sys.select ≡ negsuc n
      → Fault sys address port
  no_state : sys.getsockopt ≡ none → Fault sys address port
  socket_error : {val : ℕ} → sys.getsockopt ≡ some (suc val) → Fault sys address port
  not_restored : sys.sets_flags ≡ false → Fault sys address port

-- What happens to a socket after it was opened: it is closed and an error is returned, where something
-- is wrong; or it is connected, without an error, its flags are set to what they were, and its number
-- is returned.
pub data Stage (sys : System) (address port sock : ℕ) : Opened → Type 0 where
  stage_failed :
      {ret : ℕ} (mid : List SocketCall)
      → All (Uses sock) mid
      → has_flag ret Err.client ≡ true
      → Fault sys address port
      → Stage sys address port sock (record { calls = mid ++ call_close sock ∷ []; ret = ret })
  stage_opened :
      {flags : ℕ} (mid : List SocketCall)
      → All (Uses sock) mid
      → sys.get_flags ≡ some flags
      → Answered sys address port
      → sys.getsockopt ≡ some 0
      → sys.sets_flags ≡ true
      → Stage sys address port sock
          (record { calls = mid ++ call_set_flags sock flags ∷ []; ret = sock })

-- The whole of `open_connection`.
pub data Settled (sys : System) (name : List ℕ) (port : ℕ) : Opened → Type 0 where
  no_host :
      {ret : ℕ}
      → has_flag ret Err.client ≡ true
      → sys.gethostbyname name ≡ none
      → Settled sys name port (record { calls = []; ret = ret })
  no_socket :
      {ret : ℕ}
      → has_flag ret Err.client ≡ true
      → sys.socket ≡ none
      → Settled sys name port (record { calls = []; ret = ret })
  opening :
      {o : Opened} (address sock : ℕ)
      → sys.gethostbyname name ≡ some address
      → sys.socket ≡ some sock
      → Stage sys address port sock o
      → Settled sys name port (behind_call (call_socket sock) o)

module _ (sys : System) (address port sock : ℕ) where
  behind_call-Stage :
      {call : SocketCall} {o : Opened}
      → Uses sock call
      → Stage sys address port sock o
      → Stage sys address port sock (behind_call call o)
  behind_call-Stage {call} u (stage_failed mid us e w) = stage_failed (call ∷ mid) (u, us) e w
  behind_call-Stage {call} u (stage_opened mid us f a g r) =
      stage_opened (call ∷ mid) (u, us) f a g r

  if_Stage :
      (b : Bool) (x y : Opened)
      → (b ≡ true → Stage sys address port sock x)
      → (b ≡ false → Stage sys address port sock y)
      → Stage sys address port sock (if b then x else y)
  if_Stage true x y h k = h refl
  if_Stage false x y h k = k refl

  if_behind :
      (b : Bool) (call : SocketCall) (x y : Opened)
      → (b ≡ true → Stage sys address port sock (behind_call call x))
      → (b ≡ false → Stage sys address port sock (behind_call call y))
      → Stage sys address port sock (behind_call call (if b then x else y))
  if_behind true call x y h k = h refl
  if_behind false call x y h k = k refl

  exit-Stage :
      (ret : ℕ)
      → has_flag ret Err.client ≡ true
      → Fault sys address port
      → Stage sys address port sock (connection_exit sock ret)
  unfolding connection_exit
  exit-Stage ret e w = stage_failed [] tt e w

  module _ (opt : ℕ) (same : sys.get_flags ≡ some opt) where
    restore_flags-Stage :
        Answered sys address port
        → sys.getsockopt ≡ some 0
        → Stage sys address port sock (restore_flags sys sock opt)
    unfolding restore_flags
    restore_flags-Stage a g =
        if_behind sys.sets_flags _ _ _ (λ e. stage_opened [] tt same a g e)
          (λ e. behind_call-Stage (sets_flags opt) (exit-Stage _ refl (not_restored e)))

    check_socket-Stage :
        (r : Option ℕ)
        → sys.getsockopt ≡ r
        → Answered sys address port
        → Stage sys address port sock (check_socket sys sock opt r)
    unfolding check_socket
    check_socket-Stage none e a = exit-Stage _ refl (no_state e)
    check_socket-Stage (some zero) e a = restore_flags-Stage a e
    check_socket-Stage (some (suc val)) e a = exit-Stage _ refl (socket_error e)

    check_select-Stage :
        (ret : ℤ)
        → sys.select ≡ ret
        → sys.connect address port ≡ in_progress
        → Stage sys address port sock (check_select sys sock opt ret)
    unfolding check_select
    check_select-Stage (pos zero) e c = exit-Stage _ refl (timed_out c e)
    check_select-Stage (pos (suc n)) e c = check_socket-Stage sys.getsockopt refl (later c e)
    check_select-Stage (negsuc n) e c = exit-Stage _ refl (select_failed c e)

    check_connect-Stage :
        (c : Connected)
        → sys.connect address port ≡ c
        → Stage sys address port sock (check_connect sys sock opt c)
    unfolding check_connect check_select
    check_connect-Stage connected e = check_socket-Stage sys.getsockopt refl (at_once e)
    check_connect-Stage in_progress e = check_select-Stage sys.select refl e
    check_connect-Stage refused e = exit-Stage _ refl (is_refused e)

  connect_socket-Stage :
      (r : Option ℕ)
      → sys.get_flags ≡ r
      → Stage sys address port sock (connect_socket sys address port sock r)
  unfolding connect_socket
  connect_socket-Stage none e = exit-Stage _ refl (no_flags e)
  connect_socket-Stage (some opt) e = behind_call-Stage (sets_flags (bit_or opt sys.o_nonblock)) (
      if_Stage sys.sets_nonblock _ _
        (λ s.
          behind_call-Stage (connects address port)
            (check_connect-Stage opt e (sys.connect address port) refl))
        (λ s. exit-Stage _ refl (stays_blocking s)))

open_socket-Settled :
    (sys : System) (name : List ℕ) (address port : ℕ) (r : Option ℕ)
    → sys.gethostbyname name ≡ some address
    → sys.socket ≡ r
    → Settled sys name port (open_socket sys address port r)
unfolding open_socket
open_socket-Settled sys name address port none h e = no_socket refl e
open_socket-Settled sys name address port (some sock) h e =
    opening address sock h e (connect_socket-Stage sys address port sock sys.get_flags refl)

-- Whatever the system answers, one of three things happens. The host has no address or there is no
-- socket, and an error is returned without a call on a socket. Or the socket is closed, as the last of
-- its calls, and an error is returned: one of the calls failed, the host refused the connection or did
-- not answer in time, or the socket has an error. Or the socket is connected without an error, its flags
-- could be set to what they were and have been, and its number is returned.
pub open_connection-Settled :
    (sys : System) (name : List ℕ) (port : ℕ)
    → Settled sys name port (open_connection sys name port)
unfolding open_connection
open_connection-Settled sys name port = settled (sys.gethostbyname name) refl
  where
    settled :
        (r : Option ℕ)
        → sys.gethostbyname name ≡ r
        → Settled sys name port (elim r [
          | none ↦ record { calls = []; ret = client_error Err.dns }
          | some address ↦ open_socket sys address port sys.socket
        ])
    settled none e = no_host refl e
    settled (some address) e = open_socket-Settled sys name address port sys.socket e refl
