-- ===== src/Server/Listen.antt =====
-- The server of server/demotool.c around `loader_main`: the socket that listens, and the loop over
-- the connections. What the calls of bsdsocket.library answer is given to a run; a connection has
-- the number of its socket, and a network of its own.
pub mod Session
use demotool.Base.{ℕ, Bool, true, false, ◌||◌, Option, none, some, List, [], ◌∷◌, ◌++◌, bit_or}
use demotool.Base.{◌==◌, if◌then◌else◌}
use demotool.Base.Run.{Run, ok, waiting, Cmd}
use demotool.Socket.{Net}
use demotool.Protocol.{dt_cmd_plugin, dt_cmd_reboot, dt_cmd_error}
use demotool.Protocol.Err
use demotool.Server.Loader.{Host, Call, Server, Config, loader_main}

-- What `socket`, `setsockopt`, `bind` and `listen` answer; `none` is -1.
pub record Opening : Type 0 where
  pub socket : Option ℕ
  pub is_reusable : Bool
  pub is_bound : Bool
  pub is_listening : Bool

-- The socket, with the sockets that were closed again.
unfoldable pub init_with_open : Opening → Option ℕ × List ℕ
init_with_open o = elim o.socket [
  | none ↦ (none, [])
  | some sock ↦
      if o.is_reusable
      then (if o.is_bound
          then (if o.is_listening then (some sock, []) else (none, sock ∷ []))
          else (none, sock ∷ []))
      else (none, sock ∷ [])
]

-- What `accept` gives. A list of connections stands for its answers, and -1 comes behind them.
pub record Connection : Type 0 where
  pub socket : ℕ
  pub net : Net

-- The state of the loop: the machine that the plugins work on, and the sockets closed, in order.
pub record Service (W : Type 0) : Type 0 where
  pub machine : W
  pub closed : List ℕ

-- The calls of `CloseSocket` that `loader_main` has made.
unfoldable pub closes : ℕ → List Call → List ℕ
closes socket [] = []
closes socket (Call.close ∷ trace) = closes socket trace ++ (socket ∷ [])
closes socket (_ ∷ trace) = closes socket trace

-- The sockets closed when the service of a connection has ended: by `loader_main`, and by the loop
-- if there still is an active one.
unfoldable pub closed_by : {W : Type 0} → ℕ → Server W → List ℕ
unfolding closes
closed_by socket s =
    closes socket s.trace ++ elim s.active_socket [ none ↦ [] | some active ↦ active ∷ [] ]

module _ {W : Type 0} where
  -- The server at the start of a connection.
  abbrev pub accepted : Connection → W → Server W
  accepted c machine = record {
    host = record { net = c.net; machine = machine };
    active_socket = some c.socket;
    trace = [];
  }

  -- The state of the loop behind a connection.
  abbrev pub behind : Connection → Server W → Service W → Service W
  behind c served s = record {
    machine = served.host.machine;
    closed = s.closed ++ closed_by c.socket served;
  }

  -- The loop behind a connection, with the result of `loader_main`: `next` is the rest of it.
  unfoldable pub go_on :
      Connection
      → (Option ℕ → Cmd (Service W) (Option ℕ))
      → Service W
      → Run (Server W) ℕ
      → Run (Service W) (Option ℕ)
  go_on c next s waiting = waiting
  go_on c next s (ok r served) =
      if r == dt_cmd_plugin
      then next (some r) (behind c served s)
      else ok (some r) (behind c served s)

  -- The loop over the connections. `ret` is `none` while the variable is not set.
  unfoldable pub serve : Config W → List Connection → Option ℕ → Cmd (Service W) (Option ℕ)
  unfolding go_on
  serve cfg [] ret s = ok ret s
  serve cfg (c ∷ connections) ret s =
      let next = serve cfg connections in go_on c next s (loader_main cfg (accepted c s.machine))

  -- Behind the loop: the listening socket is closed, and the machine is rebooted if that is the
  -- command. The results are the code, `none` if it was never set, and whether there is a reboot.
  unfoldable pub end_service : ℕ → Run (Service W) (Option ℕ) → Run (Service W) (Option ℕ × Bool)
  end_service listen_sock waiting = waiting
  end_service listen_sock (ok ret s) =
      ok (ret, elim ret [ none ↦ false | some r ↦ r == dt_cmd_reboot ])
        (record s { closed = s.closed ++ (listen_sock ∷ []) })

  -- `start_server`; `library` says whether bsdsocket.library can be opened.
  unfoldable pub start_server :
      Bool → Opening → Config W → List Connection → Cmd (Service W) (Option ℕ × Bool)
  unfolding init_with_open serve end_service
  start_server library o cfg connections s =
      let opened = init_with_open o in
      if library
      then elim opened.0 [
        | none ↦ ok (none, false) (record s { closed = s.closed ++ opened.1 })
        | some sock ↦ end_service sock (serve cfg connections none s)
      ]
      else ok (some (bit_or dt_cmd_error Err.openlibrary), false) s
