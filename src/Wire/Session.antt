-- ===== src/Wire/Session.antt =====
-- How a command of client/demotool.c ends the service of `start_server` in server/demotool.c.
use demotool.Base.{ℕ, ◌≡◌, refl, Bool, true, false, none, some, List, [], ◌∷◌, ◌++◌, arith}
use demotool.Base.{◌==◌}
use demotool.Protocol.{dt_cmd_plugin, dt_cmd_reboot}
use demotool.Base.Run.{ok}
use demotool.Socket.{Recv, Sent}
use demotool.Socket.Receive.{Delivers}
use demotool.Socket.Transmit.{Takes}
use demotool.Protocol.Err
use demotool.Server.Loader.{Config}
use demotool.Server.Listen.{Connection, Opening, Service, accepted, closed_by, closes, start_server}
use demotool.Server.Listen.{end_service, init_with_open}
use demotool.Server.Listen.Session.{Passes, serve-Passes}
use demotool.Wire.Commands.{Command, quit, reboot, tag_of, served_as, answered, loader_main-command}

abbrev pub is_reboot : Command → Bool
is_reboot quit = false
is_reboot reboot = true

-- `init_with_open` has a socket that listens.
pub record IsOpen (o : Opening) (sock : ℕ) : Type 0 where
  pub is_socket : o.socket ≡ some sock
  pub is_reusable : o.is_reusable ≡ true
  pub is_bound : o.is_bound ≡ true
  pub is_listening : o.is_listening ≡ true

init_with_open-IsOpen :
    (o : Opening) (sock : ℕ) → IsOpen o sock → init_with_open o ≡ (some sock, [])
unfolding init_with_open
init_with_open-IsOpen o sock h =
    ground (arith, h.is_socket, h.is_reusable, h.is_bound, h.is_listening)

module _ {W : Type 0} (cfg : Config W) where
  -- If some connections are served that end with DT_CMD_PLUGIN, and the next one brings the tag of
  -- quit or of reboot and takes the answer, then the server accepts no more, closes the socket of
  -- the connection and then the one that listens, and returns the command; it reboots the machine
  -- exactly if the command is reboot.
  pub start_server-command :
      (o : Opening) (sock : ℕ) (k : Command) (c : Connection) {connections : List Connection}
      (later : List Connection) {s last : Service W} {mid : List Recv} {rest : List Sent}
      → IsOpen o sock
      → Passes cfg connections s last
      → Delivers mid (tag_of k) c.net.inbox
      → Takes rest 4 c.net.outlet
      → start_server true o cfg (connections ++ (c ∷ later)) s
        ≡ ok
            (some (served_as k), is_reboot k)
            (record {
              machine = last.machine;
              closed = (last.closed ++ (c.socket ∷ [])) ++ (sock ∷ []);
            })
  unfolding start_server end_service closed_by closes
  start_server-command o sock k c later {last} {mid} {rest} h p d t =
      let served = loader_main-command cfg (accepted c last.machine) k d t in
      rw
        (
          init_with_open-IsOpen o sock h,
          serve-Passes cfg none c later (served_as k)
              (answered (accepted c last.machine) mid rest Err.ok) p served (is_last k),
          ← reboots k,
        )
        refl
    where
      is_last : (k : Command) → (served_as k == dt_cmd_plugin) ≡ false
      is_last quit = refl
      is_last reboot = refl

      reboots : (k : Command) → (served_as k == dt_cmd_reboot) ≡ is_reboot k
      reboots quit = refl
      reboots reboot = refl
