-- ===== src/Wire/Commands.antt =====
-- The commands without a file: `quit_remote` and `reboot_remote` of client/demotool.c, and what
-- `loader_main` of server/demotool.c makes of them and of tags that it does not accept.
use demotool.Base.{ℕ, sym, ◌^◌, ◌<◌, ◌≡◌, ◌≢◌, refl, subst, false, List, [], ◌∷◌, ◌++◌, arith}
use demotool.Base.{◌==◌}
use demotool.Base.CString.{same_prefix}
use demotool.Base.Run.{ok, Cmd}
use demotool.Socket.{Recv, Sent, Net, send_safe}
use demotool.Socket.Receive.{Delivers}
use demotool.Socket.Transmit.{Takes, send_safe-Takes}
use demotool.Protocol.{Endian, be32, dt_hdr_tag_cmd_quit, dt_hdr_tag_cmd_reboot}
use demotool.Protocol.{dt_cmd_plugin, dt_cmd_quit, dt_cmd_reboot}
use demotool.Protocol.Err
use demotool.Client.Commands.{client_error, command_remote, quit_remote, reboot_remote}
use demotool.Client.Commands.Transfer.{length-be32, read_ack-Delivers}
use demotool.Server.Header.{check_dt_ver_len}
use demotool.Server.Loader
use demotool.Server.Loader.{Host, Server, Config, Call, on_net, note, recv_data, send_response}
use demotool.Server.Loader.{answer_command, refuse, check_header, with_tag, loader_main}
use demotool.Wire.Handshake.{with_inbox, on_net-ok, recv_data_lem}

-- The commands that are only a tag.
pub data Command : Type 0 where
  quit reboot : Command

-- The function of the client that sends a command.
abbrev pub sends : Command → Endian → Cmd Net ℕ
sends quit = quit_remote
sends reboot = reboot_remote

abbrev pub tag_of : Command → List ℕ
tag_of quit = dt_hdr_tag_cmd_quit
tag_of reboot = dt_hdr_tag_cmd_reboot

-- What `loader_main` returns for a command.
abbrev pub served_as : Command → ℕ
served_as quit = dt_cmd_quit
served_as reboot = dt_cmd_reboot

-- If the server's answer comes back, `quit_remote` and `reboot_remote` return that answer, and have
-- sent the tag of their command.
pub sends-Delivers :
    (c : Command) (e : Endian) {mid inbox : List Recv} {rest outlet : List Sent} (sent : List ℕ)
    (code : ℕ)
    → Takes rest 4 outlet
    → Delivers mid (be32 code) inbox
    → code < 2 ^ 32
    → sends c e (record { inbox = inbox; outlet = outlet; sent = sent })
      ≡ ok code (record { inbox = mid; outlet = rest; sent = sent ++ tag_of c })
unfolding quit_remote reboot_remote command_remote
sends-Delivers quit e {inbox} {outlet} sent code t d h =
    rw
      (
        send_safe-Takes dt_hdr_tag_cmd_quit (record { inbox = inbox; outlet = outlet; sent = sent })
            t,
        read_ack-Delivers e (sent ++ dt_hdr_tag_cmd_quit) code (client_error Err.recv) d h,
      )
      refl
sends-Delivers reboot e {inbox} {outlet} sent code t d h =
    rw
      (
        send_safe-Takes dt_hdr_tag_cmd_reboot
            (record { inbox = inbox; outlet = outlet; sent = sent }) t,
        read_ack-Delivers e (sent ++ dt_hdr_tag_cmd_reboot) code (client_error Err.recv) d h,
      )
      refl

module _ {W : Type 0} (s : Server W) where
  -- The server behind an answer: what is to come on the socket, and the answer sent.
  abbrev pub answered : List Recv → List Sent → ℕ → Server W
  answered inbox outlet code = record s {
    host = record {
      net = record { inbox = inbox; outlet = outlet; sent = s.host.net.sent ++ be32 code };
      machine = s.host.machine;
    };
    trace = Call.respond code ∷ s.trace;
  }

differ : (a b : ℕ) → a ≢ b → (a == b) ≡ false
differ a b h = ground arith

module _ {W : Type 0} (cfg : Config W) (s : Server W) where
  response_sent :
      (mid : List Recv) {rest : List Sent} (code : ℕ)
      → Takes rest 4 s.host.net.outlet
      → send_response code (with_inbox cfg s mid) ≡ ok tt (answered s mid rest code)
  unfolding send_response Loader.send_safe note
  response_sent mid {rest} code t =
      let takes = subst (λ n. Takes rest n s.host.net.outlet) (sym (length-be32 code)) t in
      let net = (with_inbox cfg s mid).host.net in
      rw
        (on_net-ok cfg (send_safe (be32 code)) (with_inbox cfg s mid)
          (send_safe-Takes (be32 code) net takes))
        refl

  -- If the network brings the tag of a command and takes the answer, `loader_main` answers that it
  -- is well and returns the command, and no plugin is called.
  pub loader_main-command :
      (c : Command) {mid : List Recv} {rest : List Sent}
      → Delivers mid (tag_of c) s.host.net.inbox
      → Takes rest 4 s.host.net.outlet
      → loader_main cfg s ≡ ok (served_as c) (answered s mid rest Err.ok)
  unfolding loader_main with_tag answer_command same_prefix
  loader_main-command quit {mid} d t = rw (recv_data_lem cfg s d, response_sent mid Err.ok t) refl
  loader_main-command reboot {mid} d t = rw (recv_data_lem cfg s d, response_sent mid Err.ok t) refl

  -- If the network brings four bytes that are the tag of no command and that `check_dt_ver_len` does
  -- not accept, then `loader_main` answers with its error code and goes on to the next client, and
  -- no memory is allocated and no plugin called.
  pub loader_main-refused :
      (a b c d : ℕ) {mid : List Recv} {rest : List Sent}
      → Delivers mid (a ∷ b ∷ c ∷ d ∷ []) s.host.net.inbox
      → Takes rest 4 s.host.net.outlet
      → same_prefix (a ∷ b ∷ c ∷ d ∷ []) dt_hdr_tag_cmd_quit 4 ≡ false
      → same_prefix (a ∷ b ∷ c ∷ d ∷ []) dt_hdr_tag_cmd_reboot 4 ≡ false
      → (check_dt_ver_len (a ∷ b ∷ c ∷ d ∷ [])).code ≢ Err.ok
      → loader_main cfg s
        ≡ ok dt_cmd_plugin (answered s mid rest (check_dt_ver_len (a ∷ b ∷ c ∷ d ∷ [])).code)
  unfolding loader_main with_tag check_header refuse
  loader_main-refused a b c d {mid} dl t q r bad =
      let check = check_dt_ver_len (a ∷ b ∷ c ∷ d ∷ []) in
      rw
        (recv_data_lem cfg s dl, q, r, differ check.code Err.ok bad, response_sent mid check.code t)
        refl
